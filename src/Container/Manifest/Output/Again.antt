-- ===== src/Container/Manifest/Output/Again.antt =====
-- Checks of an output that pass again on what they returned.
use mathlib.Core.Path.{subst}
use oraja_traning.Prelude.{
  ℕ, String, ◌≡◌, refl, ap, sym, ◌∙◌, Bool, true, false, not, Option, none, some, List, [], ◌∷◌,
  arith, Bool-cases, inl, inr,
}
use oraja_traning.Prelude.Int.{ℤ, pos}
use oraja_traning.Prelude.Eq.{◌==◌, string_eq, contains, beq_refl}
use oraja_traning.Prelude.Dict.{lookup, Dict}
use oraja_traning.Prelude.Result.{ok, >>=-eq-ok, raise_if-ok, ok-injective}
use oraja_traning.Prelude.Text.{codes}
use oraja_traning.Container.Json.{Json, str, int, obj, dict_of, dict_of-entries}
use oraja_traning.Container.Formats.{is_uuid, is_idempotency_key, is_object_key, is_sha}
use oraja_traning.Container.Manifest.{
  Builtins, member, object, string, matching, integer, timestamp, one_of, str_of,
}
use oraja_traning.Container.Manifest.Accepted.{
  object-ok, matching-ok, integer-ok, string-ok, checked_member, exact_keys-ok, matching-member,
  integer-member, profile_prefix-ok,
}
use oraja_traning.Container.Manifest.Input.{InputManifest}
use oraja_traning.Container.Manifest.Output.{
  artifact_keys, artifact_kinds, content_types, check_artifact, check_artifacts,
  normalise_artifacts, normalise_counters, some_artifacts, text_member, same_member,
}

-- A check that has passed passes on what it returned.
pub matching_again :
    (p : List ℕ → Bool) (j : Json) {s : String} → matching p j ≡ ok s → matching p (str s) ≡ ok s
matching_again p j {s} h = subst (λ i. matching p i ≡ ok s) (matching-ok p j h).0 h

pub integer_again :
    (least : ℤ) (most : Option ℤ) (j : Json) {n : ℤ}
    → integer least most j ≡ ok n
    → integer least most (int n) ≡ ok n
integer_again least most j {n} h =
    subst (λ i. integer least most i ≡ ok n) (integer-ok least most j h).0 h

pub timestamp-ok : (py : Builtins) (j : Json) {s : String} → timestamp py j ≡ ok s → j ≡ str s
unfolding timestamp
timestamp-ok py j {s} h =
    let (t, read, h) = >>=-eq-ok (string j) _ h in let (shape, _) = string-ok j read in ground arith

pub timestamp_again :
    (py : Builtins) (j : Json) {s : String} → timestamp py j ≡ ok s → timestamp py (str s) ≡ ok s
timestamp_again py j {s} h = subst (λ i. timestamp py i ≡ ok s) (timestamp-ok py j h) h

-- A text that a pattern takes, and that is not empty, is matched.
pub matching_text :
    (p : List ℕ → Bool) (s : String) → p [] ≡ false → p (codes s) ≡ true → matching p (str s) ≡ ok s
unfolding matching string
matching_text p s empty taken = elim (Bool-cases (s == "")) [
  | inl blank ↦
      let e : s ≡ "" = (string_eq.beq_iff s "").0 blank in
      absurd (ground (arith, ap (λ t. p (codes t)) e))
  | inr filled ↦ rw (filled, taken) refl
]

pub uuid_text : (s : String) → is_uuid (codes s) ≡ true → matching is_uuid (str s) ≡ ok s
unfolding is_uuid
uuid_text s h = matching_text is_uuid s refl h

pub key_text :
    (s : String) → is_idempotency_key (codes s) ≡ true → matching is_idempotency_key (str s) ≡ ok s
unfolding is_idempotency_key
key_text s h = matching_text is_idempotency_key s refl h

pub check_artifact_again :
    (profile : String) (j : Json) {d : Dict String Json}
    → check_artifact profile j ≡ ok d
    → j ≡ obj (dict_of d)
unfolding check_artifact
check_artifact_again profile j {d} h =
    let (artifact, read, h) = >>=-eq-ok (object j) _ h in
    let (members, whole, kept) = object-ok j read in
    let (_, h) = exact_keys-ok artifact_keys artifact _ h in
    let (_, known, _, _, h) = checked_member "kind" artifact (one_of artifact_kinds) _ h in
    let (_, h) = raise_if-ok (not known) _ _ h in
    let (key, _, _, h) = matching-member "object_key" artifact is_object_key _ h in
    let (_, h) = profile_prefix-ok key profile _ h in
    let (_, _, _, h) = matching-member "sha256" artifact is_sha _ h in
    let (_, _, _, _, h) = integer-member "size_bytes" artifact (pos 0) none _ h in
    let (_, typed, _, _, h) = checked_member "content_type" artifact (one_of content_types) _ h in
    let (_, done) = raise_if-ok (not typed) _ _ h in
    whole ∙ ap obj (sym (dict_of-entries members) ∙ ap dict_of (kept ∙ ok-injective done))

pub one_of-text :
    (options : List String) (j : Json)
    → one_of options j ≡ ok true
    → (s : String) × (j ≡ str s) × (contains s options ≡ true)
unfolding one_of
one_of-text options (str s) h = (s, refl, ok-injective h)
one_of-text options j h = ground arith

-- The copies of the artifacts pass the checks that the artifacts have passed.
pub check_artifacts-normalise :
    (profile : String) (js : List Json) {out : List Json}
    → normalise_artifacts profile js ≡ ok out
    → (check_artifacts profile out ≡ ok tt) × (js ≡ out)
unfolding normalise_artifacts check_artifacts
check_artifacts-normalise profile [] h =
    subst (λ out. (check_artifacts profile out ≡ ok tt) × ([] ≡ out)) (ok-injective h) (refl, refl)
check_artifacts-normalise profile (j ∷ js) {out} h =
    let (d, here, h) = >>=-eq-ok (check_artifact profile j) _ h in
    let (rest, later, done) = >>=-eq-ok (normalise_artifacts profile js) _ h in
    let (passed, same) = check_artifacts-normalise profile js later in
    let e : j ≡ obj (dict_of d) = check_artifact_again profile j here in
    subst (λ (js' : List Json). (check_artifacts profile js' ≡ ok tt) × (j ∷ js ≡ js'))
      (ok-injective done)
      (
        subst (λ i. check_artifacts profile (i ∷ rest) ≡ ok tt) e (rw (here, passed) refl),
        ap (λ i. i ∷ js) e ∙ ap (λ js'. obj (dict_of d) ∷ js') same,
      )

pub member_found :
    (k : String) (d : Dict String Json) {j : Json} → lookup k d ≡ some j → member k d ≡ ok j
unfolding member
member_found k d h = rw (h, member) refl

module _ (k : String) (m : InputManifest) {s : String} (h : lookup k m.value ≡ some (str s)) where
  pub text_member_found : (py : Builtins) → text_member py k m ≡ ok s
  unfolding text_member str_of
  text_member_found py = rw (member_found k m.value h) refl

  pub same_member_found : same_member s k m ≡ ok tt
  unfolding same_member
  same_member_found = rw (member_found k m.value h, beq_refl s) refl

pub normalise_counters-ok :
    (counters : Dict String Json) {out : Dict String Json}
    → normalise_counters counters ≡ ok out
    → (a : ℤ) × (b : ℤ) × (integer (pos 0) none (int a) ≡ ok a)
      × (integer (pos 0) none (int b) ≡ ok b)
      × ((("accepted_events", int a) ∷ ("rejected_events", int b) ∷ []) ≡ out)
unfolding normalise_counters
normalise_counters-ok counters h =
    let (i, a, _, first, h) =
      checked_member "accepted_events" counters (integer (pos 0) none) _ h in
    let (j, b, _, second, done) =
      checked_member "rejected_events" counters (integer (pos 0) none) _ h in
    (a, b, integer_again _ _ i first, integer_again _ _ j second, ok-injective done)

pub some_artifacts-ok :
    (xs : List Json) → some_artifacts xs ≡ ok tt → (j : Json) × (js : List Json) × (xs ≡ j ∷ js)
unfolding some_artifacts
some_artifacts-ok [] h = cc
some_artifacts-ok (j ∷ js) h = (j, js, refl)
