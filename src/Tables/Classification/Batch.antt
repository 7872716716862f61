-- ===== src/Tables/Classification/Batch.antt =====
-- `build_classification_batch` of tables/classification.py: the rows of one table of techniques,
-- from the entries that tables/fetch.py has validated and the matching of tables/match.py. `str` of
-- a chart's hash that is no text is a parameter, and the digest of the content is left out.
pub mod Counted
mod Tests
use oraja_traning.Prelude.{
  ℕ, String, Bool, true, false, not, ◌&&◌, ◌||◌, Option, none, some, List, [], ◌∷◌, ◌++◌, map,
  if◌then◌else◌, nat_beq, length,
}
use oraja_traning.Prelude.Int.{ℤ}
use oraja_traning.Prelude.Eq.{◌==◌, string_eq, option_eq, contains}
use oraja_traning.Prelude.Result.{Result, ok, err, ◌>>=◌, ◌>>◌, raise_if}
use oraja_traning.Prelude.Text.{codes}
use oraja_traning.Container.Json.{Json, null, str}
use oraja_traning.Tables.Match.{
  TableEntry, Chart, MatchedBy, MissReason, Indexes, indexes_of, Outcome, match_with, miss,
  outcome_for, all_hex,
}
use oraja_traning.Tables.Fetch.Documents.{ValidEntry, get}
use oraja_traning.Tables.Classification.{Label, LabelError, parse_classification_level}

-- ClassificationError, by its cause.
pub data BatchError : Type 0 where
  invalid_hash repeated_hash no_hash : BatchError
  bad_label : LabelError → BatchError

pub data MatchStatus : Type 0 where
  matched_by : MatchedBy → MatchStatus
  missed : MissReason → MatchStatus

-- `ClassificationSourceSpec`, without its URL.
pub record SourceSpec : Type 0 where
  pub source_id : String
  pub family : String
  pub scales : List (List ℕ)

-- `_source_key`: the kind of the hash and the hash.
pub data SourceKey : Type 0 where
  of_sha256 of_md5 : String → SourceKey

-- `ChartClassification`
pub record ChartClassification : Type 0 where
  pub source_id : String
  pub source_key : SourceKey
  pub sha256 : Option String
  pub md5 : Option String
  pub local_sha256 : Option String
  pub family : String
  pub base_scale : List ℕ
  pub base_level : ℤ
  pub classification_scale : List ℕ
  pub classification_level : ℤ
  pub raw_level : String
  pub title : Option String
  pub match_status : MatchStatus

unfoldable pub source_key_of : Option String → Option String → Result BatchError SourceKey
source_key_of (some sha) md5 = ok (of_sha256 sha)
source_key_of none (some md5) = ok (of_md5 md5)
source_key_of none none = err no_hash

-- An entry as tables/match.py reads it.
abbrev pub rule_of : Json → Option String
rule_of (str s) = some s
rule_of _ = none

abbrev pub table_entry : ValidEntry → TableEntry
table_entry e = record {
  table_id = e.table_id;
  level = e.level;
  sha256 = e.sha256;
  md5 = e.md5;
  title = e.title;
  match_rule = rule_of (get "_match" e.members);
}

-- `if value in seen: raise`, and `seen.add(value)`.
unfoldable pub see : Option String → List String → Result BatchError (List String)
see none seen = ok seen
see (some value) seen = raise_if (contains value seen) repeated_hash >> ok (value ∷ seen)

unfoldable pub lift_label : Result LabelError Label → Result BatchError Label
lift_label (ok label) = ok label
lift_label (err e) = err (bad_label e)

module _ (strip_lower fold_title : String → String) (shown : Chart → String) (digit : ℕ → Bool)
    (int_of : List ℕ → ℤ) where
  -- `_validate_hash`, with a pattern of `size` hexadecimal digits.
  unfoldable pub validate_hash : ℕ → Option String → Json → Result BatchError (Unit {0})
  validate_hash size normalized null = ok tt
  validate_hash size normalized (str raw) =
      let text = strip_lower raw in
      if raw == ""
      then ok tt
      else raise_if
          (not (nat_beq (length (codes text)) size && all_hex (codes text))
            || not (normalized == some text))
          invalid_hash
  validate_hash size normalized _ = err invalid_hash

  -- `matched.get(id(entry), (None, missed.get(id(entry), "not_owned")))`
  abbrev pub local_of : Outcome → Option String
  local_of (match_with chart by) = some (elim chart.sha256 [ none ↦ shown chart | some s ↦ s ])
  local_of (miss reason) = none

  abbrev pub status_of : Outcome → MatchStatus
  status_of (match_with chart by) = matched_by by
  status_of (miss reason) = missed reason

  module _ (source : SourceSpec) where
    abbrev pub row_of : ValidEntry → SourceKey → Label → Outcome → List ℕ × ℤ → ChartClassification
    row_of e key label outcome found = record {
      source_id = source.source_id;
      source_key = key;
      sha256 = e.sha256;
      md5 = e.md5;
      local_sha256 = local_of outcome;
      family = source.family;
      base_scale = label.base_scale;
      base_level = label.base_level;
      classification_scale = found.0;
      classification_level = found.1;
      raw_level = e.level;
      title = e.title;
      match_status = status_of outcome;
    }

    -- The checks of an entry: the hashes seen after it, and its label.
    unfoldable pub check_entry :
        List String
        → List String
        → ValidEntry
        → Result BatchError (List String × List String × Label)
    unfolding validate_hash see lift_label
    check_entry seen_sha256 seen_md5 e = do
      validate_hash 64 e.sha256 (get "sha256" e.members)
      validate_hash 32 e.md5 (get "md5" e.members)
      shas ← see e.sha256 seen_sha256
      md5s ← see e.md5 seen_md5
      label ← lift_label (parse_classification_level digit int_of source.scales e.level)
      ok (shas, md5s, label)

    -- The loop over the entries; `outcome` is what the matching decides for an entry.
    unfoldable pub build_rows :
        (ValidEntry → Outcome)
        → List String
        → List String
        → List ValidEntry
        → Result BatchError (List ChartClassification)
    unfolding check_entry source_key_of
    build_rows outcome seen_sha256 seen_md5 [] = ok []
    build_rows outcome seen_sha256 seen_md5 (e ∷ es) = do
      checked ← check_entry seen_sha256 seen_md5 e
      key ← source_key_of e.sha256 e.md5
      rest ← build_rows outcome checked.0 checked.1 es
      ok (map (row_of e key checked.2 (outcome e)) checked.2.classifications ++ rest)

    -- The rows of `build_classification_batch`.
    unfoldable pub build_classification_batch :
        List ValidEntry → List Chart → Result BatchError (List ChartClassification)
    unfolding build_rows
    build_classification_batch entries charts =
        let all_entries = map table_entry entries in
        let indexes = indexes_of strip_lower fold_title charts in
        build_rows
          (λ (e : ValidEntry).
            outcome_for strip_lower fold_title all_entries indexes (table_entry e))
          [] [] entries
