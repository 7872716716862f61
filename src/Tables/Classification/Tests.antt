-- ===== src/Tables/Classification/Tests.antt =====
-- A label with two scales, and one with a scale that the source does not have.
use oraja_traning.Prelude.{ℕ, ◌-◌, ◌≡◌, refl, Bool, ◌&&◌, List, [], ◌∷◌, leb, map}
use oraja_traning.Prelude.Int.{ℤ, pos}
use oraja_traning.Prelude.Result.{ok, err}
use oraja_traning.Prelude.Text.{codes}
use oraja_traning.Container.Formats.{codes_beq}
use oraja_traning.Tables.Classification.{
  Label, LabelError, parse_classification_level, label_of, label_with, base_level, check_parts,
  check_scale, classification_level, shortest_group, split_commas, strip_left, strip_right,
  strip_codes,
}
use oraja_traning.Tables.Classification.Labels.{IsLabel, parse_classification_level-IsLabel}

abbrev digit : ℕ → Bool
digit c = leb 48 c && leb c 57

-- The value of one digit, which is all that these labels have.
abbrev value : List ℕ → ℤ
value [] = pos 0
value (c ∷ cs) = pos (c - 48)

abbrev scales : List (List ℕ)
scales = codes "Ude" ∷ codes "arm" ∷ []

abbrev label : Label
label = record {
  base_scale = codes "sl";
  base_level = pos 4;
  classifications = (codes "arm", pos 2) ∷ (codes "Ude", pos 7) ∷ [];
}

understood : parse_classification_level digit value scales "sl4, arm2 ,Ude7" ≡ ok label
unfolding parse_classification_level label_of label_with base_level check_parts check_scale
    classification_level shortest_group split_commas strip_left strip_right codes_beq
understood = refl

refused : parse_classification_level digit value scales "sl4,leg2" ≡ err LabelError.unsupported
unfolding parse_classification_level label_of label_with base_level check_parts check_scale
    classification_level shortest_group split_commas strip_left strip_right codes_beq
refused = refl

parse_classification_level-IsLabel_example :
    IsLabel scales (map strip_codes (split_commas (codes "sl4, arm2 ,Ude7"))) label
parse_classification_level-IsLabel_example =
    parse_classification_level-IsLabel digit value scales "sl4, arm2 ,Ude7" understood
