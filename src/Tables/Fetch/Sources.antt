-- ===== src/Tables/Fetch/Sources.antt =====
-- The first document of a fetch in tables/fetch.py.
use oraja_traning.Prelude.{String, Bool, not, Option, none, some, [], ◌∷◌, if◌then◌else◌}
use oraja_traning.Prelude.Eq.{◌==◌, string_eq}
use oraja_traning.Prelude.Dict.{Dict, lookup}
use oraja_traning.Prelude.Result.{Result, ok, err, ◌>>=◌}
use oraja_traning.Container.Json.{Json, Items, str}
use oraja_traning.Tables.Fetch.Documents.{
  Outside, FetchError, fetch_error, get, required, validate_header,
}
use oraja_traning.Tables.Fetch.Requests.{Web, Response, fresh, not_modified}

-- `source_kind == "genocide-legacy"`
abbrev pub is_legacy_kind : String → Bool
is_legacy_kind kind = kind == "genocide-legacy"

-- `str(value)` and `int(value)`
abbrev pub text : Outside → Json → String
text o (str s) = s
text o j = o.shown j

-- What the first document settles. The header of a page that is no header itself is read later.
pub record Source : Type 0 where
  pub kind : String
  pub header_url : String
  pub header : Dict String Json
  pub raw : Json

-- A reply of 304 to the first request.
unfoldable pub source_of_cache :
    Outside → String → Option (Dict String Json) → Result FetchError Source
source_of_cache o kind none = err fetch_error
source_of_cache o kind (some cache) = do
  url ← required "header_url" cache
  header ← validate_header o (get "header" cache)
  ok (record {
    kind = kind;
    header_url = text o url;
    header = header;
    raw = if is_legacy_kind kind then get "data" cache else Json.null;
  })

-- `(cache or {}).get(key)`, and `str((cache or {}).get(key, ""))`.
abbrev pub cached : String → Option (Dict String Json) → Json
cached k none = Json.null
cached k (some cache) = get k cache

abbrev pub found_text : Outside → Option Json → String
found_text o none = ""
found_text o (some j) = text o j

abbrev pub cached_text : Outside → String → Option (Dict String Json) → String
cached_text o k none = ""
cached_text o k (some cache) = found_text o (lookup k cache)

-- A new first document: a header, a page that names one, or GENOCIDE's page.
module _ {B : Type 0} (o : Outside) (w : Web B) where
  -- `_parse_genocide_legacy`
  unfoldable pub legacy_source : String → Option (String × Items) → Result FetchError Source
  legacy_source source_url none = err fetch_error
  legacy_source source_url (some (symbol, entries)) = ok (record {
    kind = "genocide-legacy";
    header_url = source_url;
    header =
        ("name", str "GENOCIDE")
        ∷ ("symbol", str symbol)
        ∷ ("data_url", str source_url)
        ∷ ("format", str "genocide-legacy")
        ∷ [];
    raw = Json.arr entries;
  })

  unfoldable pub source_of_page : String → String → B → Option String → Result FetchError Source
  unfolding legacy_source
  source_of_page table_id source_url body (some url) =
      ok (record { kind = "html"; header_url = url; header = []; raw = Json.null })
  source_of_page table_id source_url body none =
      if not (table_id == "genocide")
      then err fetch_error
      else legacy_source source_url (w.legacy body)

  unfoldable pub source_of_body : String → String → B → Option Json → Result FetchError Source
  unfolding source_of_page
  source_of_body table_id source_url body none =
      source_of_page table_id source_url body (w.html_header body source_url)
  source_of_body table_id source_url body (some j) = do
    header ← validate_header o j
    ok (record { kind = "json"; header_url = source_url; header = header; raw = Json.null })

  unfoldable pub source_of :
      String → String → Option (Dict String Json) → Response B → Result FetchError Source
  unfolding source_of_body source_of_cache
  source_of table_id source_url cache not_modified =
      source_of_cache o (cached_text o "source_kind" cache) cache
  source_of table_id source_url cache (fresh body etag last) =
      source_of_body table_id source_url body (w.decode body)
