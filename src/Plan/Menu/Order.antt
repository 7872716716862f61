-- ===== src/Plan/Menu/Order.antt =====
-- plan/menu.py, `_order`: the items of the categories in the order of play.
pub mod Kept
mod Tests
use oraja_traning.Prelude.{
  ℕ, ◌-◌, String, Bool, true, false, not, Option, none, some, List, [], ◌∷◌, ◌++◌, if◌then◌else◌,
  nat_beq, keep, take, drop, length,
}
use oraja_traning.Prelude.Eq.{◌==◌, string_eq}
use oraja_traning.Prelude.Dict.{Dict, lookup, insert}
use oraja_traning.Plan.Menu.{MenuItem}

-- `core`, which has a list for every category.
abbrev pub Core : Type 0 → Type 0
Core F = String → List (MenuItem F)

module _ {F : Type 0} where
  abbrev pub is_first : MenuItem F → Bool
  is_first item = nat_beq item.attempt 1

  abbrev pub focus_of : Core F → List (MenuItem F)
  focus_of core = core "02 FOCUS-A" ++ core "04 FOCUS-B"

  -- `first_focus`
  abbrev pub first_focus : Core F → List (MenuItem F)
  first_focus core = keep is_first (focus_of core)

  -- `repeats[item.sha256] = item`, item by item.
  unfoldable pub add_repeats :
      List (MenuItem F) → Dict String (MenuItem F) → Dict String (MenuItem F)
  add_repeats [] repeats = repeats
  add_repeats (item ∷ items) repeats =
      if is_first item
      then add_repeats items repeats
      else add_repeats items (insert item.sha256 item repeats)

  abbrev pub fillers_of : Core F → List (MenuItem F)
  fillers_of core =
      core "03 TRANSFER-A"
      ++ (core "05 TRANSFER-B" ++ (core "06 LAMP" ++ (core "07 REVIEW" ++ core "08 PROBE")))

  -- `repeats[focus.sha256] for focus in group if focus.sha256 in repeats`
  unfoldable pub repeats_of : Dict String (MenuItem F) → List (MenuItem F) → List (MenuItem F)
  repeats_of repeats [] = []
  repeats_of repeats (focus ∷ group) = elim (lookup focus.sha256 repeats) [
    | none ↦ repeats_of repeats group
    | some item ↦ item ∷ repeats_of repeats group
  ]

  -- The last group, with fillers for what it lacks of four.
  unfoldable pub last_group :
      Dict String (MenuItem F) → List (MenuItem F) → List (MenuItem F) → List (MenuItem F)
  unfolding repeats_of
  last_group repeats group fillers =
      let gap = 4 - length group in
      group ++ (take gap fillers ++ (repeats_of repeats group ++ drop gap fillers))

  -- The loop over the groups of four, and the fillers that remain.
  unfoldable pub order_groups :
      Dict String (MenuItem F) → List (MenuItem F) → List (MenuItem F) → List (MenuItem F)
  unfolding repeats_of last_group
  order_groups repeats [] fillers = fillers
  order_groups repeats (a ∷ []) fillers = last_group repeats (a ∷ []) fillers
  order_groups repeats (a ∷ (b ∷ [])) fillers = last_group repeats (a ∷ b ∷ []) fillers
  order_groups repeats (a ∷ (b ∷ (c ∷ []))) fillers = last_group repeats (a ∷ b ∷ c ∷ []) fillers
  order_groups repeats (a ∷ (b ∷ (c ∷ (d ∷ rest)))) fillers =
      a ∷ b ∷ c ∷ d ∷ repeats_of repeats (a ∷ b ∷ c ∷ d ∷ []) ++ order_groups repeats rest fillers

  -- `_order`
  unfoldable pub order : Core F → List (MenuItem F)
  unfolding order_groups add_repeats
  order core =
      core "01 WARMUP"
      ++ order_groups (add_repeats (focus_of core) []) (first_focus core) (fillers_of core)
