-- ===== src/Tables/Classification/Batch/Tests.antt =====
-- A table of one entry with two scales, for a player who owns no chart.
use oraja_traning.Prelude.{ℕ, ◌-◌, ◌≡◌, refl, String, Bool, ◌&&◌, none, some, List, [], ◌∷◌, leb}
use oraja_traning.Prelude.Int.{ℤ, pos}
use oraja_traning.Prelude.Dict.{lookup}
use oraja_traning.Prelude.Result.{ok, err}
use oraja_traning.Prelude.Text.{codes}
use oraja_traning.Container.Json.{str}
use oraja_traning.Container.Formats.{codes_beq}
use oraja_traning.Tables.Match.{
  MissReason, outcome_for, hash_outcome, found_at, indexes_of, index_charts, hash, title_of,
}
use oraja_traning.Tables.Fetch.Documents.{ValidEntry}
use oraja_traning.Tables.Classification.{
  parse_classification_level, label_of, label_with, base_level, check_parts, check_scale,
  classification_level, shortest_group, split_commas, strip_left, strip_right,
}
use oraja_traning.Tables.Classification.Batch.{
  SourceSpec, SourceKey, ChartClassification, missed, BatchError, source_key_of, see, lift_label,
  validate_hash, check_entry, build_rows, build_classification_batch,
}
use oraja_traning.Tables.Classification.Batch.Counted.{IsBatch, build_classification_batch-IsBatch}

abbrev digit : ℕ → Bool
digit c = leb 48 c && leb c 57

-- The value of one digit, which is all that these labels have.
abbrev value : List ℕ → ℤ
value [] = pos 0
value (c ∷ cs) = pos (c - 48)

abbrev source : SourceSpec
source = record { source_id = "slst-arm"; family = "arm"; scales = codes "Ude" ∷ codes "arm" ∷ [] }

abbrev md5 : String
md5 = "0123456789abcdef0123456789abcdef"

abbrev entry : ValidEntry
entry = record {
  table_id = "slst-arm";
  level = "sl4,arm2,Ude7";
  sha256 = none;
  md5 = some md5;
  title = none;
  members = ("md5", str md5) ∷ [];
}

abbrev row : String → ℕ → ChartClassification
row scale level = record {
  source_id = "slst-arm";
  source_key = SourceKey.of_md5 md5;
  sha256 = none;
  md5 = some md5;
  local_sha256 = none;
  family = "arm";
  base_scale = codes "sl";
  base_level = pos 4;
  classification_scale = codes scale;
  classification_level = pos level;
  raw_level = "sl4,arm2,Ude7";
  title = none;
  match_status = missed MissReason.not_owned;
}

built :
    build_classification_batch (λ s. s) (λ s. s) (λ c. "") digit value source (entry ∷ []) []
    ≡ ok (row "arm" 2 ∷ row "Ude" 7 ∷ [])
unfolding build_classification_batch build_rows check_entry validate_hash lookup see lift_label
    source_key_of parse_classification_level label_of label_with base_level check_parts check_scale
    classification_level shortest_group split_commas strip_left strip_right codes_beq outcome_for
    hash_outcome found_at indexes_of index_charts hash title_of
built = refl

repeated :
    build_classification_batch
      (λ s. s)
      (λ s. s)
      (λ c. "")
      digit
      value
      source
      (entry ∷ entry ∷ [])
      []
    ≡ err BatchError.repeated_hash
unfolding build_classification_batch build_rows check_entry validate_hash lookup see lift_label
    source_key_of parse_classification_level label_of label_with base_level check_parts check_scale
    classification_level shortest_group split_commas strip_left strip_right codes_beq outcome_for
    hash_outcome found_at indexes_of index_charts hash title_of
repeated = refl

build_classification_batch-IsBatch_example :
    IsBatch digit value source (entry ∷ []) (row "arm" 2 ∷ row "Ude" 7 ∷ [])
build_classification_batch-IsBatch_example =
    build_classification_batch-IsBatch (λ s. s) (λ s. s) (λ c. "") digit value source (entry ∷ [])
      [] built
