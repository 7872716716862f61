-- ===== src/Tables/Classification.antt =====
-- tables/classification.py: the labels of charts in the tables of techniques, and the hashes of
-- their entries. What `\d` takes, `int` of such digits and `str.lower` are parameters.
pub mod Labels
pub mod Batch
mod Tests
use oraja_traning.Prelude.{
  ℕ, suc, String, Bool, true, false, not, ◌&&◌, ◌||◌, Option, none, some, List, [], ◌∷◌, ◌++◌, map,
  if◌then◌else◌, nat_beq, leb, length, all, any, is_some,
}
use oraja_traning.Prelude.Int.{ℤ, pos}
use oraja_traning.Prelude.Eq.{◌==◌, string_eq}
use oraja_traning.Prelude.Result.{Result, ok, err, ◌>>=◌, ◌>>◌, raise_if}
use oraja_traning.Prelude.Text.{codes, is_space}
use oraja_traning.Container.Formats.{codes_beq}

-- `raw_level.split(",")`
abbrev pub first_with : ℕ → List (List ℕ) → List (List ℕ)
first_with c [] = (c ∷ []) ∷ []
first_with c (p ∷ ps) = (c ∷ p) ∷ ps

unfoldable pub split_commas : List ℕ → List (List ℕ)
split_commas [] = [] ∷ []
split_commas (c ∷ cs) =
    let rest = split_commas cs in if nat_beq c 44 then [] ∷ rest else first_with c rest

-- `part.strip()`
unfoldable pub strip_left : List ℕ → List ℕ
strip_left [] = []
strip_left (c ∷ cs) = let rest = strip_left cs in if is_space c then rest else c ∷ cs

unfoldable pub strip_right : List ℕ → List ℕ
strip_right [] = []
strip_right (c ∷ cs) = if all is_space (c ∷ cs) then [] else c ∷ strip_right cs

abbrev pub strip_codes : List ℕ → List ℕ
strip_codes cs = strip_right (strip_left cs)

-- The scales that a source supports.
abbrev pub supports : List (List ℕ) → List ℕ → Bool
supports scales scale = any (λ (s : List ℕ). codes_beq s scale) scales

-- ClassificationError, by its cause.
pub data LabelError : Type 0 where
  not_composite no_base unsupported repeated : LabelError

pub record Label : Type 0 where
  pub base_scale : List ℕ
  pub base_level : ℤ
  pub classifications : List (List ℕ × ℤ)

module _ (digit : ℕ → Bool) (int_of : List ℕ → ℤ) where
  -- `\d+`, and `-?\d+`
  abbrev pub digits : List ℕ → Bool
  digits [] = false
  digits (c ∷ cs) = all digit (c ∷ cs)

  abbrev pub signed : List ℕ → Bool
  signed [] = false
  signed (c ∷ cs) = digits (c ∷ cs) || nat_beq c 45 && digits cs

  -- `_BASE_LEVEL`
  unfoldable pub base_level : List ℕ → Option (List ℕ × ℤ)
  base_level (a ∷ b ∷ cs) =
      if nat_beq a 115 && (nat_beq b 108 || nat_beq b 116) && digits cs
      then some (a ∷ b ∷ [], int_of cs)
      else none
  base_level _ = none

  -- `_CLASSIFICATION_LEVEL`: the shortest first group, which has no line break; `group` is the part
  -- of it before these characters.
  unfoldable pub shortest_group : List ℕ → List ℕ → Option (List ℕ × ℤ)
  shortest_group group [] = none
  shortest_group group (c ∷ cs) =
      let longer = shortest_group (group ++ c ∷ []) cs in
      if nat_beq c 10 then none else if signed cs then some (group ++ c ∷ [], int_of cs) else longer

  unfoldable pub classification_level : List ℕ → Option (List ℕ × ℤ)
  unfolding shortest_group
  classification_level value = shortest_group [] value

  -- One pass of the loop: what a part stands for.
  unfoldable pub check_scale :
      List (List ℕ) → List (List ℕ) → Option (List ℕ × ℤ) → Result LabelError (List ℕ × ℤ)
  check_scale scales seen none = err LabelError.unsupported
  check_scale scales seen (some (scale, level)) = do
    raise_if (not (supports scales scale)) LabelError.unsupported
    raise_if (supports seen scale) LabelError.repeated
    ok (scale, level)

  -- The loop, with the scales that it has seen.
  unfoldable pub check_parts :
      List (List ℕ) → List (List ℕ) → List (List ℕ) → Result LabelError (List (List ℕ × ℤ))
  unfolding check_scale classification_level
  check_parts scales seen [] = ok []
  check_parts scales seen (value ∷ values) = do
    found ← check_scale scales seen (classification_level value)
    rest ← check_parts scales (found.0 ∷ seen) values
    ok (found ∷ rest)

  abbrev pub is_empty_part : List ℕ → Bool
  is_empty_part [] = true
  is_empty_part (c ∷ cs) = false

  -- What follows the base of the label.
  unfoldable pub label_with :
      List (List ℕ) → List (List ℕ) → Option (List ℕ × ℤ) → Result LabelError Label
  unfolding check_parts
  label_with scales values none = err LabelError.no_base
  label_with scales values (some (scale, level)) = do
    classifications ← check_parts scales [] values
    ok (record { base_scale = scale; base_level = level; classifications = classifications })

  unfoldable pub label_of : List (List ℕ) → List (List ℕ) → Result LabelError Label
  unfolding label_with base_level
  label_of scales [] = err LabelError.not_composite
  label_of scales (base ∷ values) = do
    raise_if (not (leb 2 (length (base ∷ values))) || any is_empty_part (base ∷ values))
        LabelError.not_composite
    label_with scales values (base_level base)

  -- `parse_classification_level`
  unfoldable pub parse_classification_level : List (List ℕ) → String → Result LabelError Label
  unfolding label_of split_commas strip_left strip_right
  parse_classification_level scales raw_level =
      label_of scales (map strip_codes (split_commas (codes raw_level)))
