-- ===== src/Tables/Fetch.antt =====
-- tables/fetch.py: fetching a difficulty table, with the last good one kept in a cache. The HTTP
-- client, the JSON and HTML parsers, urllib, `str`, `int` and the `str` methods are parameters, and
-- so is the reader of GENOCIDE's JavaScript array, `_parse_genocide_legacy`.
pub mod Documents
pub mod Requests
pub mod Sources
pub mod Valid
pub mod Offline
mod Tests
use oraja_traning.Prelude.{
  ℕ, String, Bool, true, false, not, ◌&&◌, ◌||◌, Option, none, some, List, [], ◌∷◌, if◌then◌else◌,
}
use oraja_traning.Prelude.Int.{ℤ}
use oraja_traning.Prelude.Eq.{◌==◌, string_eq}
use oraja_traning.Prelude.Dict.{Dict, lookup}
use oraja_traning.Prelude.Result.{Result, ok, err, ◌>>=◌, ◌>>◌, raise_if}
use oraja_traning.Container.Json.{Json, Members, Items, no_members, int, str, obj, dict_of}
use oraja_traning.Tables.Fetch.Documents.{
  Outside, FetchError, fetch_error, lookup_error, attribute_error, ValidEntry, get, required,
  validate_header, validate_entries,
}
use oraja_traning.Tables.Fetch.Requests.{
  Web, Response, fresh, not_modified, request, updated_validators, is_unmodified, decode_json,
  secure_same_host_url,
}
use oraja_traning.Tables.Fetch.Sources.{
  Source, is_legacy_kind, text, cached, cached_text, source_of,
}

-- `TableData`
pub record TableData : Type 0 where
  pub table_id : String
  pub source_url : String
  pub header_url : String
  pub data_url : String
  pub header : Dict String Json
  pub entries : List ValidEntry
  pub fetched_at : ℤ
  pub from_cache : Bool
  pub stale : Bool

unfoldable pub to_int : Outside → Json → Result FetchError ℤ
to_int o (int n) = ok n
to_int o j = elim (o.number j) [ none ↦ err lookup_error | some n ↦ ok n ]

abbrev pub is_legacy_value : Json → Bool
is_legacy_value (str s) = is_legacy_kind s
is_legacy_value _ = false

-- `_cached_table`
unfoldable pub cached_table : Outside → Dict String Json → Bool → Result FetchError TableData
unfolding to_int
cached_table o cache stale = do
  header ← validate_header o (get "header" cache)
  table_id ← required "table_id" cache
  entries ←
      validate_entries o (text o table_id) (is_legacy_value (get "source_kind" cache))
        (get "data" cache)
  source_url ← required "source_url" cache
  header_url ← required "header_url" cache
  data_url ← required "data_url" cache
  fetched_at ← to_int o (← required "fetched_at" cache)
  ok (record {
    table_id = text o table_id;
    source_url = text o source_url;
    header_url = text o header_url;
    data_url = text o data_url;
    header = header;
    entries = entries;
    fetched_at = fetched_at;
    from_cache = true;
    stale = stale;
  })

-- The members that a cache is saved with.
abbrev pub saved : TableData → String → Json → Members → Members → Members → Dict String Json
saved t kind raw source_validators header_validators data_validators =
    ("table_id", str t.table_id)
    ∷ ("source_url", str t.source_url)
    ∷ ("source_kind", str kind)
    ∷ ("header_url", str t.header_url)
    ∷ ("data_url", str t.data_url)
    ∷ ("header", obj (dict_of t.header))
    ∷ ("data", raw)
    ∷ ("fetched_at", int t.fetched_at)
    ∷ ("source_validators", obj source_validators)
    ∷ ("header_validators", obj header_validators)
    ∷ ("data_validators", obj data_validators)
    ∷ []

module _ {B : Type 0} (o : Outside) (w : Web B) where
  -- The header document of a page, and the header that is gone on with.
  unfoldable pub header_of :
      Option (Dict String Json) → Response B → Result FetchError (Dict String Json)
  header_of none not_modified = err fetch_error
  header_of (some cache) not_modified = validate_header o (get "header" cache)
  header_of cache (fresh body etag last) = decode_json w body >>= validate_header o

  unfoldable pub read_header :
      Option (Dict String Json)
      → Source
      → Result FetchError (Option (Response B) × Dict String Json)
  unfolding header_of
  read_header cache s = if not (s.kind == "html") then ok (none, s.header) else do
    response ← request o w s.header_url (cached "header_validators" cache)
    header ← header_of cache response
    ok (some response, header)

  unfoldable pub read_data : Option (Dict String Json) → Response B → Result FetchError Json
  read_data none not_modified = err fetch_error
  read_data (some cache) not_modified = ok (get "data" cache)
  read_data cache (fresh body etag last) = decode_json w body

  -- The rest of a fetch, for GENOCIDE's page and for the others; `now` is `int(time.time())`.
  module _ (table_id source_url : String) (now : ℤ) (cache : Option (Dict String Json))
      (source_response : Response B) where
    unfoldable pub finish_legacy : Source → Result FetchError (TableData × Dict String Json)
    finish_legacy s = do
      entries ← validate_entries o table_id true s.raw
      let table : TableData = record {
        table_id = table_id;
        source_url = source_url;
        header_url = s.header_url;
        data_url = source_url;
        header = s.header;
        entries = entries;
        fetched_at = now;
        from_cache = is_unmodified source_response;
        stale = false;
      }
      validators ← updated_validators o (some source_response) (cached "source_validators" cache)
      ok (table, saved table s.kind s.raw validators no_members no_members)

    unfoldable pub finish_table : Source → Result FetchError (TableData × Dict String Json)
    unfolding read_header read_data
    finish_table s = do
      header_read ← read_header cache s
      let header = header_read.1
      let joined = w.urljoin s.header_url (o.strip (text o (get "data_url" header)))
      let data_url = secure_same_host_url w s.header_url joined
      let known =
          if data_url == cached_text o "data_url" cache
          then cached "data_validators" cache
          else Json.null
      response ← request o w data_url known
      raw ← read_data cache response
      entries ← validate_entries o table_id false raw
      let table : TableData = record {
        table_id = table_id;
        source_url = source_url;
        header_url = s.header_url;
        data_url = data_url;
        header = header;
        entries = entries;
        fetched_at = now;
        from_cache = is_unmodified source_response && is_unmodified response;
        stale = false;
      }
      validators ← updated_validators o (some source_response) (cached "source_validators" cache)
      of_header ← updated_validators o header_read.0 (cached "header_validators" cache)
      of_table ← updated_validators o (some response) (cached "data_validators" cache)
      ok (table, saved table s.kind raw validators of_header of_table)

  -- The `try` clause of `fetch_table`: the table and what is saved.
  unfoldable pub fetch_fresh :
      String
      → String
      → ℤ
      → Option (Dict String Json)
      → Result FetchError (TableData × Dict String Json)
  unfolding source_of finish_legacy finish_table
  fetch_fresh table_id source_url now cache = do
    response ← request o w source_url (cached "source_validators" cache)
    s ← source_of o w table_id source_url cache response
    if is_legacy_kind s.kind
        then finish_legacy table_id source_url now cache response s
        else finish_table table_id source_url now cache response s

  -- The `except` clause: the cached table if it is allowed and valid, and TableFetchError if not.
  unfoldable pub fall_back :
      Bool → Option (Dict String Json) → FetchError → Result FetchError TableData
  unfolding cached_table
  fall_back allow cache attribute_error = err attribute_error
  fall_back allow none e = err fetch_error
  fall_back allow (some cache) e = elim (cached_table o cache true) [
    | ok table ↦ if allow then ok table else err fetch_error
    | err attribute_error ↦ if allow then err attribute_error else err fetch_error
    | err other ↦ err fetch_error
  ]

  -- `fetch_table` after its checks of its arguments, with the cache after it. `store` is none if
  -- there is no cache directory, and otherwise has the cache that could be read.
  unfoldable pub fetch_table :
      String
      → String
      → ℤ
      → Bool
      → Option (Option (Dict String Json))
      → Result FetchError TableData × Option (Option (Dict String Json))
  unfolding fetch_fresh fall_back
  fetch_table table_id source_url now allow none = elim (fetch_fresh table_id source_url now none) [
    | ok (table, members) ↦ (ok table, none)
    | err e ↦ (fall_back allow none e, none)
  ]
  fetch_table table_id source_url now allow (some cache) =
      elim (fetch_fresh table_id source_url now cache) [
        | ok (table, members) ↦ (ok table, some (some members))
        | err e ↦ (fall_back allow cache e, some cache)
      ]
