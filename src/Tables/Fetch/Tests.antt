-- ===== src/Tables/Fetch/Tests.antt =====
-- A header and a table of one entry that are fetched, and then read without a network.
use oraja_traning.Prelude.{
  String, ◌≡◌, refl, true, false, Option, none, some, [], ◌∷◌, if◌then◌else◌,
}
use oraja_traning.Prelude.Int.{pos}
use oraja_traning.Prelude.Eq.{◌==◌, string_eq}
use oraja_traning.Prelude.Dict.{Dict, lookup}
use oraja_traning.Prelude.Result.{ok}
use oraja_traning.Container.Json.{Json, Members, int, str, arr, obj, dict_of, list_of, no_members}
use oraja_traning.Container.Formats.{fits}
use oraja_traning.Tables.Fetch.Documents.{
  Outside, validate_header, validate_entries, validate_each, validate_entry, normal_hash, level_of,
  title_text, entry_members,
}
use oraja_traning.Tables.Fetch.Requests.{
  Web, answered, unreachable, request, request_members, decode_json, updated_validators,
  secure_same_host_url,
}
use oraja_traning.Tables.Fetch.Sources.{source_of, source_of_body}
use oraja_traning.Tables.Fetch.{
  TableData, saved, read_header, read_data, finish_table, fetch_fresh, fetch_table,
}
use oraja_traning.Tables.Fetch.Offline.{stale_of, fetch_table-offline}

abbrev outside : Outside
outside = record {
  shown = λ j. "12";
  number = λ j. none;
  nonzero = λ j. true;
  strip = λ s. s;
  lower = λ s. s;
}

abbrev header_url : String
header_url = "https://t.example/header.json"

abbrev header : Dict String Json
header = ("data_url", str "data.json") ∷ ("name", str "T") ∷ []

abbrev digest : String
digest = "0123456789abcdef0123456789abcdef"

abbrev raw : Json
raw = arr (
    list_of (
      obj (dict_of (("level", int (pos 12)) ∷ ("md5", str digest) ∷ ("_match", str "x") ∷ []))
      ∷ []))

-- A body is the value that it is decoded to.
abbrev online : Web Json
online = record {
  open_resource = λ url etag last.
      if url == header_url
      then answered (obj (dict_of header)) (some "e") none
      else answered raw none none;
  decode = λ j. some j;
  html_header = λ j url. none;
  legacy = λ j. none;
  urljoin = λ base url. url;
  urlsplit = λ url. ("https", none);
  with_https = λ url. url;
}

abbrev offline : Web Json
offline = record online { open_resource = λ url etag last. unreachable }

abbrev table : TableData
table = record {
  table_id = "t";
  source_url = header_url;
  header_url = header_url;
  data_url = "data.json";
  header = header;
  entries =
      record {
        table_id = "t";
        level = "12";
        sha256 = none;
        md5 = some digest;
        title = none;
        members = ("level", int (pos 12)) ∷ ("md5", str digest) ∷ [];
      }
      ∷ [];
  fetched_at = pos 100;
  from_cache = false;
  stale = false;
}

abbrev validators : Option String → Members
validators etag =
    dict_of (
      ("etag", elim etag [ none ↦ Json.null | some e ↦ str e ]) ∷ ("last_modified", Json.null) ∷ [])

abbrev cache : Dict String Json
cache = saved table "json" raw (validators (some "e")) no_members (validators none)

fetched : fetch_fresh outside online "t" header_url (pos 100) none ≡ ok (table, cache)
unfolding fetch_fresh request request_members source_of source_of_body validate_header lookup
    finish_table read_header read_data decode_json validate_entries validate_each validate_entry
    normal_hash fits level_of title_text entry_members updated_validators secure_same_host_url
fetched = refl

fetch_table-offline_example :
    (fetch_table outside online "t" header_url (pos 100) true (some none)
      ≡ (ok table, some (some cache)))
    × (fetch_table outside offline "t" header_url (pos 200) true (some (some cache))
        ≡ (ok (stale_of table), some (some cache)))
fetch_table-offline_example =
    fetch_table-offline outside online offline "t" header_url (pos 100) (pos 200) true none table
      cache refl (λ u a b. refl) fetched
