-- ===== src/Tables/Fetch/Valid.antt =====
-- The header of a fetch passes its check again.
use mathlib.Core.Path.{subst}
use oraja_traning.Prelude.{
  String, ◌≡◌, ◌≢◌, refl, ap, sym, ◌∙◌, Bool, true, false, not, ◌⊎◌, inl, inr, Option, none, some,
  arith, if◌then◌else◌,
}
use oraja_traning.Prelude.Eq.{◌==◌, string_eq}
use oraja_traning.Prelude.Dict.{Dict, lookup}
use oraja_traning.Prelude.Result.{Result, ok, err, >>=-eq-ok, raise_if-ok, ok-injective}
use oraja_traning.Container.Json.{
  Json, Items, int, str, arr, obj, entries, dict_of, dict_of-entries,
}
use oraja_traning.Tables.Fetch.Documents.{
  Outside, get, required, is_filled, wrong, is_string, is_list, validate_header,
}
use oraja_traning.Tables.Fetch.Requests.{Web, Response, fresh, not_modified, request, decode_json}
use oraja_traning.Tables.Fetch.Sources.{
  Source, is_legacy_kind, source_of_cache, legacy_source, source_of_page, source_of_body, source_of,
}
use oraja_traning.Tables.Fetch.{header_of, read_header}

-- A header that passes its check again.
abbrev pub Valid : Outside → Dict String Json → Type 0
Valid o header = validate_header o (obj (dict_of header)) ≡ ok header

validate_header-same :
    (o : Outside) (j : Json) {header : Dict String Json}
    → validate_header o j ≡ ok header
    → j ≡ obj (dict_of header)
unfolding validate_header
validate_header-same o (obj ms) h =
    let (_, h) = raise_if-ok (not (is_filled o (get "data_url" (entries ms)))) _ _ h in
    let (_, h) = raise_if-ok (wrong is_string (lookup "name" (entries ms))) _ _ h in
    let (_, h) = raise_if-ok (wrong is_string (lookup "symbol" (entries ms))) _ _ h in
    let (_, h) = raise_if-ok (wrong is_list (lookup "level_order" (entries ms))) _ _ h in
    ap obj (sym (dict_of-entries ms) ∙ ap dict_of (ok-injective h))
validate_header-same o Json.null h = cc
validate_header-same o (Json.bool b) h = cc
validate_header-same o (int n) h = cc
validate_header-same o (Json.float b) h = cc
validate_header-same o (str s) h = cc
validate_header-same o (arr js) h = cc

validate_header-Valid :
    (o : Outside) (j : Json) {header : Dict String Json}
    → validate_header o j ≡ ok header
    → Valid o header
validate_header-Valid o j {header} h =
    subst (λ i. validate_header o i ≡ ok header) (validate_header-same o j h) h

-- A source whose header is checked, or is read later.
abbrev pub IsSource : Outside → Source → Type 0
IsSource o s = ((s.kind == "html") ≡ true) ⊎ Valid o s.header

-- `if not b: raise e`
guarded :
    {E A : Type 0} (b : Bool) (e : E) (rest : Result E A) {y : A}
    → (if not b then err e else rest) ≡ ok y
    → rest ≡ ok y
guarded true e rest h = h
guarded false e rest h = cc

branches :
    {E A : Type 0} (b : Bool) (x : A) (rest : Result E A) {y : A}
    → (if not b then ok x else rest) ≡ ok y
    → ((b ≡ true) × (rest ≡ ok y)) ⊎ ((b ≡ false) × (x ≡ y))
branches true x rest h = inl (refl, h)
branches false x rest h = inr (refl, ok-injective h)

known_header :
    (o : Outside) (s : Source) → IsSource o s → (s.kind == "html") ≡ false → Valid o s.header
known_header o s (inr valid) other = valid
known_header o s (inl html) other = absurd (ground arith)

differ : ◌≢◌ {A = String} "html" "genocide-legacy"
differ e = cc ((string_eq.beq_iff "html" "genocide-legacy").1 e)

pub legacy_header :
    (o : Outside) (s : Source) → IsSource o s → is_legacy_kind s.kind ≡ true → Valid o s.header
legacy_header o s (inr valid) legacy = valid
legacy_header o s (inl html) legacy =
    let a : s.kind ≡ "html" = (string_eq.beq_iff s.kind "html").0 html in
    let b : s.kind ≡ "genocide-legacy" = (string_eq.beq_iff s.kind "genocide-legacy").0 legacy in
    absurd (differ (sym a ∙ b))

module _ {B : Type 0} (o : Outside) (w : Web B) where
  source_of_cache-IsSource :
      (kind : String) (cache : Option (Dict String Json)) {s : Source}
      → source_of_cache o kind cache ≡ ok s
      → IsSource o s
  unfolding source_of_cache
  source_of_cache-IsSource kind none h = cc
  source_of_cache-IsSource kind (some cache) h =
      let (url, _, h) = >>=-eq-ok (required "header_url" cache) _ h in
      let (header, checked, h) = >>=-eq-ok (validate_header o (get "header" cache)) _ h in
      subst (IsSource o) (ok-injective h) (inr (validate_header-Valid o _ checked))

  legacy_source-IsSource :
      (url : String) (found : Option (String × Items)) {s : Source}
      → (o.strip url == "") ≡ false
      → legacy_source o w url found ≡ ok s
      → IsSource o s
  unfolding legacy_source validate_header lookup
  legacy_source-IsSource url none filled h = cc
  legacy_source-IsSource url (some (symbol, is)) filled h =
      subst (IsSource o) (ok-injective h) (inr (rw filled refl))

  source_of_page-IsSource :
      (id url : String) (body : B) (named : Option String) {s : Source}
      → (o.strip url == "") ≡ false
      → source_of_page o w id url body named ≡ ok s
      → IsSource o s
  unfolding source_of_page
  source_of_page-IsSource id url body (some header_url) filled h =
      subst (IsSource o) (ok-injective h) (inl refl)
  source_of_page-IsSource id url body none filled h =
      legacy_source-IsSource url (w.legacy body) filled (guarded (id == "genocide") _ _ h)

  source_of_body-IsSource :
      (id url : String) (body : B) (j : Option Json) {s : Source}
      → (o.strip url == "") ≡ false
      → source_of_body o w id url body j ≡ ok s
      → IsSource o s
  unfolding source_of_body
  source_of_body-IsSource id url body none filled h =
      source_of_page-IsSource id url body (w.html_header body url) filled h
  source_of_body-IsSource id url body (some j) filled h =
      let (header, checked, h) = >>=-eq-ok (validate_header o j) _ h in
      subst (IsSource o) (ok-injective h) (inr (validate_header-Valid o j checked))

  pub source_of-IsSource :
      (id url : String) (cache : Option (Dict String Json)) (response : Response B) {s : Source}
      → (o.strip url == "") ≡ false
      → source_of o w id url cache response ≡ ok s
      → IsSource o s
  unfolding source_of
  source_of-IsSource id url cache not_modified filled h = source_of_cache-IsSource _ cache h
  source_of-IsSource id url cache (fresh body etag last) filled h =
      source_of_body-IsSource id url body (w.decode body) filled h

  header_of-Valid :
      (cache : Option (Dict String Json)) (response : Response B) {header : Dict String Json}
      → header_of o w cache response ≡ ok header
      → Valid o header
  unfolding header_of
  header_of-Valid none not_modified h = cc
  header_of-Valid (some cache) not_modified h = validate_header-Valid o _ h
  header_of-Valid cache (fresh body etag last) h =
      let (j, _, checked) = >>=-eq-ok (decode_json w body) _ h in validate_header-Valid o j checked

  pub read_header-Valid :
      (cache : Option (Dict String Json)) (s : Source) {r : Option (Response B) × Dict String Json}
      → IsSource o s
      → read_header o w cache s ≡ ok r
      → Valid o r.1
  unfolding read_header
  read_header-Valid cache s {r} source h = elim (branches (s.kind == "html") _ _ h) [
    | inl (html, read) ↦
        let (response, _, read) = >>=-eq-ok (request o w s.header_url _) _ read in
        let (header, checked, read) = >>=-eq-ok (header_of o w cache response) _ read in
        subst (λ (q : Option (Response B) × Dict String Json). Valid o q.1) (ok-injective read)
          (header_of-Valid cache response checked)
    | inr (other, same) ↦
        subst (λ (q : Option (Response B) × Dict String Json). Valid o q.1) same
          (known_header o s source other)
  ]
