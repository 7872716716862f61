-- ===== src/Tables/Classification/Labels.antt =====
-- The labels that are understood.
use mathlib.Core.Path.{subst}
use oraja_traning.Prelude.{
  ℕ, suc, String, ◌≡◌, refl, ap, Bool, true, false, not, ◌||◌, Option, none, some, List, [], ◌∷◌,
  arith, map, any, length, ◌≤◌, leb,
}
use oraja_traning.Prelude.Int.{ℤ}
use oraja_traning.Prelude.Result.{ok, >>=-eq-ok, raise_if-ok, ok-injective}
use oraja_traning.Prelude.Text.{codes}
use oraja_traning.Tables.Classification.{
  supports, Label, classification_level, check_scale, check_parts, base_level, is_empty_part,
  label_with, label_of, parse_classification_level, split_commas, strip_codes,
}

-- Scales that a source supports, none of them seen before or twice.
abbrev pub AreNew : List (List ℕ) → List (List ℕ) → List (List ℕ × ℤ) → Type 0
AreNew scales seen [] = Unit
AreNew scales seen ((scale, level) ∷ rest) =
    (supports scales scale ≡ true)
    × (supports seen scale ≡ false)
    × AreNew scales (scale ∷ seen) rest

pub record IsLabel (scales : List (List ℕ)) (parts : List (List ℕ)) (l : Label) : Type 0 where
  pub counted : suc (length l.classifications) ≡ length parts
  pub several : 1 ≤ length l.classifications
  pub supported : AreNew scales [] l.classifications

module _ (digit : ℕ → Bool) (int_of : List ℕ → ℤ) where
  check_scale-new :
      (scales seen : List (List ℕ)) (o : Option (List ℕ × ℤ)) {found : List ℕ × ℤ}
      → check_scale digit int_of scales seen o ≡ ok found
      → (supports scales found.0 ≡ true) × (supports seen found.0 ≡ false)
  unfolding check_scale
  check_scale-new scales seen none h = cc
  check_scale-new scales seen (some (scale, level)) h =
      let (a, h) = raise_if-ok (not (supports scales scale)) _ _ h in
      let (b, h) = raise_if-ok (supports seen scale) _ _ h in
      subst (λ (f : List ℕ × ℤ). (supports scales f.0 ≡ true) × (supports seen f.0 ≡ false))
        (ok-injective h) (ground arith, b)

  check_parts-new :
      (scales seen values : List (List ℕ)) {out : List (List ℕ × ℤ)}
      → check_parts digit int_of scales seen values ≡ ok out
      → (length out ≡ length values) × AreNew scales seen out
  unfolding check_parts
  check_parts-new scales seen [] h =
      subst (λ (out : List (List ℕ × ℤ)). (length out ≡ 0) × AreNew scales seen out)
        (ok-injective h) (refl, tt)
  check_parts-new scales seen (v ∷ values) h =
      let (found, here, h) =
        >>=-eq-ok (check_scale digit int_of scales seen (classification_level digit int_of v)) _
          h in
      let (rest, later, h) =
        >>=-eq-ok (check_parts digit int_of scales (found.0 ∷ seen) values) _ h in
      let (supported, unseen) = check_scale-new scales seen _ here in
      let (counted, new) = check_parts-new scales (found.0 ∷ seen) values later in
      subst
        (λ (out : List (List ℕ × ℤ)). (length out ≡ suc (length values)) × AreNew scales seen out)
        (ok-injective h) (ap suc counted, (supported, unseen, new))

  label_with-IsLabel :
      (scales : List (List ℕ)) (base : List ℕ) (values : List (List ℕ)) (o : Option (List ℕ × ℤ))
      {l : Label}
      → 1 ≤ length values
      → label_with digit int_of scales values o ≡ ok l
      → IsLabel scales (base ∷ values) l
  unfolding label_with
  label_with-IsLabel scales base values none many h = cc
  label_with-IsLabel scales base values (some (scale, level)) many h =
      let (out, went, h) = >>=-eq-ok (check_parts digit int_of scales [] values) _ h in
      let (counted, new) = check_parts-new scales [] values went in
      subst (IsLabel scales (base ∷ values)) (ok-injective h) (record {
        counted = ap suc counted;
        several = omega (arith, counted, many);
        supported = new;
      })

  label_of-IsLabel :
      (scales parts : List (List ℕ)) {l : Label}
      → label_of digit int_of scales parts ≡ ok l
      → IsLabel scales parts l
  unfolding label_of
  label_of-IsLabel scales [] h = cc
  label_of-IsLabel scales (base ∷ values) h =
      let (fine, h) =
        raise_if-ok
          (not (leb 2 (length (base ∷ values))) || any (is_empty_part digit int_of) (base ∷ values))
          _ _ h in
      label_with-IsLabel scales base values (base_level digit int_of base) (ground arith) h

  -- A label that is understood, whatever the digits, has one classification for each of its parts
  -- after the first, and at least one; each scale is one that the source supports, and none stands
  -- twice.
  pub parse_classification_level-IsLabel :
      (scales : List (List ℕ)) (raw_level : String) {l : Label}
      → parse_classification_level digit int_of scales raw_level ≡ ok l
      → IsLabel scales (map strip_codes (split_commas (codes raw_level))) l
  unfolding parse_classification_level
  parse_classification_level-IsLabel scales raw_level h = label_of-IsLabel scales _ h
