-- ===== src/Tables/Fetch/Documents.antt =====
-- The headers and the entries of tables/fetch.py, and their checks.
use oraja_traning.Prelude.{
  ℕ, String, Bool, true, false, not, ◌&&◌, ◌||◌, Option, none, some, List, [], ◌∷◌, leb, keep,
  if◌then◌else◌, is_some,
}
use oraja_traning.Prelude.Int.{ℤ}
use oraja_traning.Prelude.Eq.{◌==◌, string_eq}
use oraja_traning.Prelude.Dict.{Dict, lookup}
use oraja_traning.Prelude.Result.{Result, ok, err, ◌>>=◌, ◌>>◌, raise_if}
use oraja_traning.Prelude.Text.{codes}
use oraja_traning.Container.Json.{Json, null, int, float, str, arr, obj, items, entries}
use oraja_traning.Container.Formats.{fits, times}
use oraja_traning.Container.Manifest.{is_text}
use oraja_traning.Tables.Match.{is_hex}

-- Python's `str` and `int` of a value, whether a float is not zero, and the methods of texts.
pub record Outside : Type 0 where
  pub shown : Json → String
  pub number : Json → Option ℤ
  pub nonzero : Json → Bool
  pub strip : String → String
  pub lower : String → String

-- TableFetchError; KeyError, TypeError and ValueError, which are handled alike; AttributeError.
pub data FetchError : Type 0 where
  fetch_error lookup_error attribute_error : FetchError

-- `TableEntry`
pub record ValidEntry : Type 0 where
  pub table_id : String
  pub level : String
  pub sha256 : Option String
  pub md5 : Option String
  pub title : Option String
  pub members : Dict String Json

-- `d.get(key)` and `d[key]`
abbrev pub or_null : Option Json → Json
or_null none = null
or_null (some j) = j

abbrev pub get : String → Dict String Json → Json
get k d = or_null (lookup k d)

unfoldable pub required : String → Dict String Json → Result FetchError Json
required k d = elim (lookup k d) [ none ↦ err lookup_error | some j ↦ ok j ]

-- `isinstance(value, str)`, `isinstance(value, list)`
abbrev pub is_string : Json → Bool
is_string (str s) = true
is_string _ = false

abbrev pub is_list : Json → Bool
is_list (arr js) = true
is_list _ = false

-- `key in value and not isinstance(value[key], ...)`
abbrev pub wrong : (Json → Bool) → Option Json → Bool
wrong kind none = false
wrong kind (some j) = not (kind j)

-- `isinstance(value, str) and value.strip()`
abbrev pub is_filled : Outside → Json → Bool
is_filled o (str s) = not (o.strip s == "")
is_filled o _ = false

unfoldable pub validate_header : Outside → Json → Result FetchError (Dict String Json)
validate_header o (obj ms) = do
  raise_if (not (is_filled o (get "data_url" (entries ms)))) fetch_error
  raise_if (wrong is_string (lookup "name" (entries ms))) fetch_error
  raise_if (wrong is_string (lookup "symbol" (entries ms))) fetch_error
  raise_if (wrong is_list (lookup "level_order" (entries ms))) fetch_error
  ok (entries ms)
validate_header o _ = err fetch_error

-- `[0-9a-fA-F]`
abbrev pub is_hex_digit : ℕ → Bool
is_hex_digit c = is_hex c || leb 65 c && leb c 70

unfoldable pub normal_hash : Outside → ℕ → Json → Option String
normal_hash o size (str s) =
    if s == ""
    then none
    else if fits (times size is_hex_digit) (codes (o.strip s))
    then some (o.lower (o.strip s))
    else none
normal_hash o size _ = none

-- `isinstance(level, (str, int, float)) and not isinstance(level, bool)`, and then `str(level)`.
unfoldable pub level_of : Outside → Json → Result FetchError String
level_of o (str s) = ok s
level_of o (int n) = ok (o.shown (int n))
level_of o (float b) = ok (o.shown (float b))
level_of o _ = err fetch_error

unfoldable pub title_text : Json → Result FetchError (Option String)
title_text null = ok none
title_text (str s) = ok (some s)
title_text _ = err fetch_error

unfoldable pub entry_members : Bool → Dict String Json → Dict String Json
entry_members title_match raw =
    if title_match then raw else keep (λ (m : String × Json). not (m.0 == "_match")) raw

-- One pass of the loop of `_validate_entries`.
unfoldable pub validate_entry : Outside → String → Bool → Json → Result FetchError ValidEntry
unfolding normal_hash level_of title_text entry_members
validate_entry o table_id allow (obj ms) = do
  let raw = entries ms
  level ← level_of o (get "level" raw)
  let sha256 = normal_hash o 64 (get "sha256" raw)
  let md5 = normal_hash o 32 (get "md5" raw)
  let title_match = allow && is_text "unique_title" (get "_match" raw)
  raise_if
      (not (is_some sha256)
        && not (is_some md5)
        && not (title_match && is_filled o (get "title" raw)))
      fetch_error
  title ← title_text (get "title" raw)
  ok (record {
    table_id = table_id;
    level = level;
    sha256 = sha256;
    md5 = md5;
    title = title;
    members = entry_members title_match raw;
  })
validate_entry o table_id allow _ = err fetch_error

unfoldable pub validate_each :
    Outside → String → Bool → List Json → Result FetchError (List ValidEntry)
unfolding validate_entry
validate_each o table_id allow [] = ok []
validate_each o table_id allow (j ∷ js) = do
  entry ← validate_entry o table_id allow j
  rest ← validate_each o table_id allow js
  ok (entry ∷ rest)

unfoldable pub validate_entries :
    Outside → String → Bool → Json → Result FetchError (List ValidEntry)
unfolding validate_each
validate_entries o table_id allow (arr js) = validate_each o table_id allow (items js)
validate_entries o table_id allow _ = err fetch_error
