-- ===== src/Tables/Fetch/Offline.antt =====
-- What a fetch has saved is what a later fetch without a network falls back on.
use mathlib.Core.Path.{subst}
use oraja_traning.Prelude.{
  String, ◌≡◌, refl, sym, Bool, true, false, ◌&&◌, ◌⊎◌, inl, inr, Option, some, if◌then◌else◌,
}
use oraja_traning.Prelude.Int.{ℤ}
use oraja_traning.Prelude.Eq.{◌==◌, string_eq}
use oraja_traning.Prelude.Dict.{Dict, lookup}
use oraja_traning.Prelude.Result.{ok, err, >>=-eq-ok, ok-injective}
use oraja_traning.Container.Json.{Json, Members, obj, entries}
use oraja_traning.Tables.Fetch.Documents.{Outside, fetch_error, get, required, validate_entries}
use oraja_traning.Tables.Fetch.Requests.{
  Web, Response, unreachable, request, request_members, is_unmodified, updated_validators,
  secure_same_host_url,
}
use oraja_traning.Tables.Fetch.Sources.{Source, text, is_legacy_kind, source_of}
use oraja_traning.Tables.Fetch.{
  TableData, cached_table, to_int, saved, read_header, read_data, finish_legacy, finish_table,
  fetch_fresh, fall_back, fetch_table,
}
use oraja_traning.Tables.Fetch.Valid.{
  Valid, IsSource, legacy_header, source_of-IsSource, read_header-Valid,
}

-- The table as it comes back from the cache after an error.
abbrev pub stale_of : TableData → TableData
stale_of t = record t { from_cache = true; stale = true }

-- What is saved is read back.
cached_table-saved :
    (o : Outside) (t : TableData) (kind : String) (raw : Json) (a b c : Members)
    → Valid o t.header
    → validate_entries o t.table_id (is_legacy_kind kind) raw ≡ ok t.entries
    → cached_table o (saved t kind raw a b c) true ≡ ok (stale_of t)
unfolding cached_table required to_int lookup
cached_table-saved o t kind raw a b c header read = rw (header, read) refl

either :
    {A : Type 0} (b : Bool) (x y : A) {z : A}
    → (if b then x else y) ≡ z
    → ((b ≡ true) × (x ≡ z)) ⊎ ((b ≡ false) × (y ≡ z))
either true x y h = inl (refl, h)
either false x y h = inr (refl, h)

module _ {B : Type 0} (o : Outside) (w : Web B) where
  -- What a fetch returns and saves: the cache gives the table back, and it has validators.
  abbrev IsSaved : TableData × Dict String Json → Type 0
  IsSaved (t, members) =
      (cached_table o members true ≡ ok (stale_of t))
      × ((ms : Members) × (get "source_validators" members ≡ obj ms))

  saved-IsSaved :
      (t : TableData) (kind : String) (raw : Json) (a b c : Members)
      → Valid o t.header
      → validate_entries o t.table_id (is_legacy_kind kind) raw ≡ ok t.entries
      → IsSaved (t, saved t kind raw a b c)
  unfolding lookup
  saved-IsSaved t kind raw a b c header read =
      (cached_table-saved o t kind raw a b c header read, (a, refl))

  module _ (id url : String) (now : ℤ) (cache : Option (Dict String Json)) (response : Response B)
      (s : Source) {q : TableData × Dict String Json} (source : IsSource o s) where
    finish_legacy-IsSaved :
        is_legacy_kind s.kind ≡ true
        → finish_legacy o w id url now cache response s ≡ ok q
        → IsSaved q
    unfolding finish_legacy
    finish_legacy-IsSaved legacy h =
        let (entries, read, h) = >>=-eq-ok (validate_entries o id true s.raw) _ h in
        let (v, _, h) = >>=-eq-ok (updated_validators o (some response) _) _ h in
        let same =
          subst (λ (b : Bool). validate_entries o id b s.raw ≡ ok entries) (sym legacy) read in
        let table : TableData = record {
          table_id = id;
          source_url = url;
          header_url = s.header_url;
          data_url = url;
          header = s.header;
          entries = entries;
          fetched_at = now;
          from_cache = is_unmodified response;
          stale = false;
        } in
        subst IsSaved (ok-injective h)
          (saved-IsSaved table s.kind s.raw v _ _ (legacy_header o s source legacy) same)

    finish_table-IsSaved :
        is_legacy_kind s.kind ≡ false
        → finish_table o w id url now cache response s ≡ ok q
        → IsSaved q
    unfolding finish_table
    finish_table-IsSaved other h =
        let (header, head, h) = >>=-eq-ok (read_header o w cache s) _ h in
        let (answer, _, h) = >>=-eq-ok (request o w _ _) _ h in
        let (raw, _, h) = >>=-eq-ok (read_data o w cache answer) _ h in
        let (entries, read, h) = >>=-eq-ok (validate_entries o id false raw) _ h in
        let (a, _, h) = >>=-eq-ok (updated_validators o (some response) _) _ h in
        let (b, _, h) = >>=-eq-ok (updated_validators o header.0 _) _ h in
        let (c, _, h) = >>=-eq-ok (updated_validators o (some answer) _) _ h in
        let same =
          subst (λ (b : Bool). validate_entries o id b raw ≡ ok entries) (sym other) read in
        let joined = w.urljoin s.header_url (o.strip (text o (get "data_url" header.1))) in
        let table : TableData = record {
          table_id = id;
          source_url = url;
          header_url = s.header_url;
          data_url = secure_same_host_url w s.header_url joined;
          header = header.1;
          entries = entries;
          fetched_at = now;
          from_cache = is_unmodified response && is_unmodified answer;
          stale = false;
        } in
        subst IsSaved (ok-injective h)
          (saved-IsSaved table s.kind raw a b c (read_header-Valid o w cache s source head) same)

  fetch_fresh-IsSaved :
      (id url : String) (now : ℤ) (cache : Option (Dict String Json))
      {q : TableData × Dict String Json}
      → (o.strip url == "") ≡ false
      → fetch_fresh o w id url now cache ≡ ok q
      → IsSaved q
  unfolding fetch_fresh
  fetch_fresh-IsSaved id url now cache filled h =
      let (response, _, h) = >>=-eq-ok (request o w url _) _ h in
      let (s, found, h) = >>=-eq-ok (source_of o w id url cache response) _ h in
      let source = source_of-IsSource o w id url cache response filled found in
      elim (either (is_legacy_kind s.kind) _ _ h) [
        | inl (legacy, h) ↦ finish_legacy-IsSaved id url now cache response s source legacy h
        | inr (other, h) ↦ finish_table-IsSaved id url now cache response s source other h
      ]

  unanswered :
      (offline : Web B) (id url : String) (now : ℤ) (members : Dict String Json) (ms : Members)
      → ((u : String) (a b : Option String) → offline.open_resource u a b ≡ unreachable)
      → get "source_validators" members ≡ obj ms
      → fetch_fresh o offline id url now (some members) ≡ err fetch_error
  unfolding fetch_fresh request request_members
  unanswered offline id url now members ms silent validators = rw (validators, silent url _ _) refl

  -- A fetch that goes through without falling back, for a source URL that is not blank, returns its
  -- table and writes the cache. A later fetch of it at which no request is answered, that may fall
  -- back, returns the same table, marked as stale and from the cache, and leaves the cache as it is.
  pub fetch_table-offline :
      (offline : Web B) (id url : String) (now later : ℤ) (allow : Bool)
      (cache : Option (Dict String Json)) (table : TableData) (members : Dict String Json)
      → (o.strip url == "") ≡ false
      → ((u : String) (a b : Option String) → offline.open_resource u a b ≡ unreachable)
      → fetch_fresh o w id url now cache ≡ ok (table, members)
      → (fetch_table o w id url now allow (some cache) ≡ (ok table, some (some members)))
        × (fetch_table o offline id url later true (some (some members))
            ≡ (ok (stale_of table), some (some members)))
  unfolding fetch_table fall_back
  fetch_table-offline offline id url now later allow cache table members filled silent went =
      let (back, (ms, validators)) = fetch_fresh-IsSaved id url now cache filled went in
      (
        rw (went, fetch_table) refl,
        rw (unanswered offline id url later members ms silent validators, fetch_table)
            (rw (back, fall_back) refl),
      )
