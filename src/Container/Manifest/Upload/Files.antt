-- ===== src/Container/Manifest/Upload/Files.antt =====
-- The files of an upload that `validate_upload_manifest` accepts.
use mathlib.Core.Path.{subst}
use oraja_traning.Prelude.{
  String, ◌≡◌, refl, ap, sym, ◌∙◌, Bool, true, false, not, ◌||◌, Option, none, some, List, [], ◌∷◌,
  ◌++◌, map, append-nil, append_assoc, arith, all, length, nat_beq,
}
use oraja_traning.Prelude.Eq.{◌==◌, string_eq, contains}
use oraja_traning.Prelude.Distinct.{occurrences, distinct, distinct-append, same_occurrences}
use oraja_traning.Prelude.Dict.{lookup, Dict}
use oraja_traning.Prelude.Result.{ok, >>=-eq-ok, raise_if-ok, ok-injective}
use oraja_traning.Container.Json.{Json, str, arr, obj, items, Items, entries}
use oraja_traning.Container.Manifest.{Builtins, object, string, timestamp, is_text, one_of}
use oraja_traning.Container.Manifest.Accepted.{
  object-ok, string-ok, exact_keys-ok, profile_prefix-ok, checked_member, matching-member,
  integer-member, any_member,
}
use oraja_traning.Container.Manifest.Input.{max_size, check_contract}
use oraja_traning.Container.Formats.{is_uuid, is_sha, is_object_key}
use oraja_traning.Prelude.Int.{pos, ltb_ℤ}
use oraja_traning.Container.Manifest.Upload.{
  database_names, file_keys, check_file, check_files, five_files, other_names, upload_keys,
  check_snapshot, check_encryption, check_privacy, validate_upload_manifest,
}

-- `files[i]["file_name"]`
abbrev pub file_name : Json → Option Json
file_name (obj ms) = lookup "file_name" (entries ms)
file_name _ = none

abbrev named : String → Option Json
named n = some (str n)

or-eq-false : (a b : Bool) → a || b ≡ false → (a ≡ false) × (b ≡ false)
or-eq-false a b h = ground arith

check_file-ok :
    (profile : String) (names : List String) (j : Json) {n : String}
    → check_file profile names j ≡ ok n
    → (file_name j ≡ named n) × (contains n database_names ≡ true) × (contains n names ≡ false)
unfolding check_file
check_file-ok profile names j {n} h =
    let (entry, read, h) = >>=-eq-ok (object j) _ h in
    let (members, whole, kept) = object-ok j read in
    let (_, h) = exact_keys-ok file_keys entry _ h in
    let (i, name, found, text, h) = checked_member "file_name" entry string _ h in
    let (shape, _) = string-ok i text in
    let (listed, h) =
      raise_if-ok (not (contains name database_names) || contains name names) _ _ h in
    let (_, _, _, h) = matching-member "sha256" entry is_sha _ h in
    let (size, _, _, _, h) = integer-member "size_bytes" entry (pos 1) none _ h in
    let (_, h) = raise_if-ok (ltb_ℤ max_size size) _ _ h in
    let (key, _, _, h) = matching-member "object_key" entry is_object_key _ h in
    let (_, done) = profile_prefix-ok key profile _ h in
    let known = or-eq-false (not (contains name database_names)) (contains name names) listed in
    let same : name ≡ n = ok-injective done in
    subst
      (λ (m : String).
        (file_name j ≡ named m) × (contains m database_names ≡ true) × (contains m names ≡ false))
      same
      (
        ap file_name whole ∙ ap (lookup "file_name") kept ∙ found ∙ ap some shape,
        ground (arith, known.0),
        known.1,
      )

check_files-ok :
    (profile : String) (names : List String) (js : List Json) {out : List String}
    → check_files profile names js ≡ ok out
    → distinct names ≡ true
    → (new : List String) × (out ≡ names ++ new)
      × (map file_name js ≡ map named new)
      × (distinct out ≡ true)
      × (all (λ (n : String). contains n database_names) new ≡ true)
unfolding check_files
check_files-ok profile names [] h d = (
  [],
  sym (ok-injective h) ∙ sym (append-nil names),
  refl,
  subst (λ ns. distinct ns ≡ true) (ok-injective h) d,
  refl,
)
check_files-ok profile names (j ∷ js) h d =
    let (n, here, h) = >>=-eq-ok (check_file profile names j) _ h in
    let (named_here, listed, fresh) = check_file-ok profile names j here in
    let (new, whole, named_rest, distinct_out, listed_rest) =
      check_files-ok profile (names ++ n ∷ []) js h (distinct-append n names d fresh) in
    (
      n ∷ new,
      whole ∙ append_assoc names (n ∷ []) new,
      rw (named_here, named_rest) refl,
      distinct_out,
      rw (listed, listed_rest) refl,
    )

-- The files, and a name for each.
pub record HasDatabases (manifest : Dict String Json) : Type 0 where
  pub files : Items
  pub names : List String
  pub files_at : lookup "files" manifest ≡ some (arr files)
  pub files_named : map file_name (items files) ≡ map named names
  pub once : (s : String) → occurrences s names ≡ occurrences s database_names

other_names-ok :
    (ns : List String)
    → other_names ns ≡ false
    → (all (λ (n : String). contains n database_names) ns ≡ true)
      × (all (λ (n : String). contains n ns) database_names ≡ true)
unfolding other_names
other_names-ok ns h = ground arith

five_files-ok :
    (j : Json) {js : List Json}
    → five_files j ≡ ok js
    → (is : Items) × (j ≡ arr is) × (items is ≡ js)
unfolding five_files
five_files-ok (arr is) {js} h =
    let (_, same) =
      raise_if-ok (not (nat_beq (length (items is)) (length database_names))) _ (ok (items is)) h in
    (is, refl, ok-injective same)
five_files-ok j h = ground arith

-- An upload manifest that is accepted has a list as its "files", and every file of it is an object
-- with a text as its "file_name"; these names are the five of DATABASE_NAMES in some order: every
-- text occurs in them as often as in DATABASE_NAMES.
pub validate_upload_manifest-HasDatabases :
    (py : Builtins) (value : Json) {manifest : Dict String Json}
    → validate_upload_manifest py value ≡ ok manifest
    → HasDatabases manifest
unfolding validate_upload_manifest
validate_upload_manifest-HasDatabases py value {manifest} h =
    let (d, read, h) = >>=-eq-ok (object value) _ h in
    let (_, h) = exact_keys-ok upload_keys d _ h in
    let (_, _, h) = >>=-eq-ok (check_contract "five-db-upload-manifest" d) _ h in
    let (_, _, _, h) = matching-member "manifest_id" d is_uuid _ h in
    let (account_id, _, _, h) = matching-member "account_id" d is_uuid _ h in
    let (profile_id, _, _, h) = matching-member "profile_id" d is_uuid _ h in
    let (_, _, _, _, h) = checked_member "created_at" d (timestamp py) _ h in
    let (game_mode, _, h) = any_member "game_mode" d _ h in
    let (_, h) = raise_if-ok (not (is_text "SP7" game_mode)) _ _ h in
    let (_, trusted, _, _, h) =
      checked_member "trust_domain" d (one_of ("official" ∷ "self_hosted" ∷ [])) _ h in
    let (_, h) = raise_if-ok (not trusted) _ _ h in
    let (j, js, files_at, five, h) = checked_member "files" d five_files _ h in
    let (files, is_list, same) = five_files-ok j five in
    let (names, checked, h) = >>=-eq-ok (check_files profile_id [] js) _ h in
    let (new, whole, files_named, distinct_names, _) =
      check_files-ok profile_id [] js checked refl in
    let (agree, h) = raise_if-ok (other_names names) _ _ h in
    let (_, _, _, _, h) = checked_member "snapshot" d check_snapshot _ h in
    let (_, _, _, _, h) = checked_member "encryption" d check_encryption _ h in
    let (_, _, _, _, h) = checked_member "privacy" d check_privacy _ h in
    let (_, done) = raise_if-ok (account_id == "" || profile_id == "") _ _ h in
    let (inside, complete) = other_names-ok names agree in
    let found : HasDatabases d = record {
      files = files;
      names = names;
      files_at = files_at ∙ ap some is_list;
      files_named = ap (map file_name) same ∙ files_named ∙ ap (map named) (sym whole);
      once = same_occurrences names database_names distinct_names refl inside complete;
    } in
    subst HasDatabases (ok-injective done) found
