-- ===== src/Plan/Menu/Order/Kept.antt =====
-- `_order` loses and doubles nothing.
use oraja_traning.Prelude.{
  ℕ, zero, suc, ◌+◌, ◌-◌, ◌≡◌, refl, String, not, ◌&&◌, Option, none, some, keep, nat_beq,
  if◌then◌else◌, List, [], ◌∷◌, ◌++◌, arith, take, drop, length, sum_by, sum_by-append,
}
use oraja_traning.Prelude.Dict.{Dict, lookup, insert, lookup-insert}
use oraja_traning.Prelude.Eq.{◌==◌, string_eq}
use oraja_traning.Plan.Menu.{MenuItem}
use oraja_traning.Plan.Menu.Order.{
  Core, is_first, first_focus, focus_of, add_repeats, fillers_of, repeats_of, last_group,
  order_groups, order,
}

sum_by-take-drop :
    {A : Type 0} (w : A → ℕ) (n : ℕ) (xs : List A)
    → sum_by w (take n xs) + sum_by w (drop n xs) ≡ sum_by w xs
sum_by-take-drop w zero xs = omega arith
sum_by-take-drop w (suc n) [] = omega arith
sum_by-take-drop w (suc n) (x ∷ xs) = omega (arith, sum_by-take-drop w n xs)

module _ {F : Type 0} (w : MenuItem F → ℕ) (repeats : Dict String (MenuItem F)) where
  sum_by-last_group :
      (group fillers : List (MenuItem F))
      → sum_by w (last_group repeats group fillers)
        ≡ sum_by w group + sum_by w (repeats_of repeats group) + sum_by w fillers
  unfolding last_group
  sum_by-last_group group fillers =
      let gap = 4 - length group in
      omega (
        arith,
        sum_by-take-drop w gap fillers,
        sum_by-append w group (take gap fillers ++ (repeats_of repeats group ++ drop gap fillers)),
        sum_by-append w (take gap fillers) (repeats_of repeats group ++ drop gap fillers),
        sum_by-append w (repeats_of repeats group) (drop gap fillers),
      )

  sum_by-repeats_of :
      (xs ys : List (MenuItem F))
      → sum_by w (repeats_of repeats (xs ++ ys))
        ≡ sum_by w (repeats_of repeats xs) + sum_by w (repeats_of repeats ys)
  unfolding repeats_of
  sum_by-repeats_of [] ys = omega arith
  sum_by-repeats_of (x ∷ xs) ys = ground (arith, sum_by-repeats_of xs ys)

  sum_by-order_groups :
      (first fillers : List (MenuItem F))
      → sum_by w (order_groups repeats first fillers)
        ≡ sum_by w first + sum_by w (repeats_of repeats first) + sum_by w fillers
  unfolding order_groups
  sum_by-order_groups [] fillers = ground arith
  sum_by-order_groups (a ∷ []) fillers = sum_by-last_group (a ∷ []) fillers
  sum_by-order_groups (a ∷ (b ∷ [])) fillers = sum_by-last_group (a ∷ b ∷ []) fillers
  sum_by-order_groups (a ∷ (b ∷ (c ∷ []))) fillers = sum_by-last_group (a ∷ b ∷ c ∷ []) fillers
  sum_by-order_groups (a ∷ (b ∷ (c ∷ (d ∷ rest)))) fillers = omega (
    arith,
    sum_by-order_groups rest fillers,
    sum_by-append w (repeats_of repeats (a ∷ b ∷ c ∷ d ∷ [])) (order_groups repeats rest fillers),
    sum_by-repeats_of (a ∷ b ∷ c ∷ d ∷ []) rest,
  )

sum_by-fillers_of :
    {F : Type 0} (w : MenuItem F → ℕ) (core : Core F)
    → sum_by w (fillers_of core)
      ≡ sum_by w (core "03 TRANSFER-A")
        + sum_by w (core "05 TRANSFER-B")
        + sum_by w (core "06 LAMP")
        + sum_by w (core "07 REVIEW")
        + sum_by w (core "08 PROBE")
sum_by-fillers_of w core =
    let c = core "05 TRANSFER-B" in
    let d = core "06 LAMP" in
    let e = core "07 REVIEW" in
    let p = core "08 PROBE" in
    omega (
      arith,
      sum_by-append w (core "03 TRANSFER-A") (c ++ (d ++ (e ++ p))),
      sum_by-append w c (d ++ (e ++ p)),
      sum_by-append w d (e ++ p),
      sum_by-append w e p,
    )

module _ {F : Type 0} where
  -- The last item of the chart that is no first attempt.
  abbrev pub last_repeat : String → List (MenuItem F) → Option (MenuItem F)
  last_repeat sha256 [] = none
  last_repeat sha256 (item ∷ items) = elim (last_repeat sha256 items) [
    | some later ↦ some later
    | none ↦ if sha256 == item.sha256 && not (nat_beq item.attempt 1) then some item else none
  ]

  abbrev or_else : Option (MenuItem F) → Option (MenuItem F) → Option (MenuItem F)
  or_else (some item) other = some item
  or_else none other = other

  lookup-add_repeats :
      (sha256 : String) (items : List (MenuItem F)) (d : Dict String (MenuItem F))
      → lookup sha256 (add_repeats items d) ≡ or_else (last_repeat sha256 items) (lookup sha256 d)
  unfolding add_repeats
  lookup-add_repeats sha256 [] d = refl
  lookup-add_repeats sha256 (item ∷ items) d = ground (
    arith,
    lookup-add_repeats sha256 items d,
    lookup-add_repeats sha256 items (insert item.sha256 item d),
    lookup-insert sha256 item.sha256 item d,
  )

  module _ (w : MenuItem F → ℕ) where
    abbrev pub weight : Option (MenuItem F) → ℕ
    weight none = 0
    weight (some item) = w item

    -- What the first attempts of the items weigh.
    abbrev pub firsts : List (MenuItem F) → ℕ
    firsts items = sum_by (λ item. if nat_beq item.attempt 1 then w item else 0) items

    -- What their repetitions weigh, of which `focus` has those that there are.
    abbrev pub repetitions : List (MenuItem F) → List (MenuItem F) → ℕ
    repetitions focus items =
        sum_by
          (λ item. if nat_beq item.attempt 1 then weight (last_repeat item.sha256 focus) else 0)
          items

    firsts-keep : (items : List (MenuItem F)) → sum_by w (keep is_first items) ≡ firsts items
    firsts-keep [] = refl
    firsts-keep (item ∷ items) = ground (arith, firsts-keep items)

    sum_by-repetitions :
        (focus items : List (MenuItem F))
        → sum_by w (repeats_of (add_repeats focus []) (keep is_first items))
          ≡ repetitions focus items
    unfolding repeats_of lookup
    sum_by-repetitions focus [] = refl
    sum_by-repetitions focus (item ∷ items) =
        ground (arith, lookup-add_repeats item.sha256 focus [], sum_by-repetitions focus items)

    -- Whatever is counted of the items: the order of play has that of the warm-up, of the first
    -- attempts of the two focus categories, of one repetition for each of these first attempts whose
    -- chart has a later attempt in the two categories (the last one), and of all of 03 to 08, and
    -- nothing else.
    pub order-keeps :
        (core : Core F)
        → let a = core "02 FOCUS-A" in
          let b = core "04 FOCUS-B" in
          sum_by w (order core)
          ≡ sum_by w (core "01 WARMUP")
            + (firsts a + firsts b)
            + (repetitions (a ++ b) a + repetitions (a ++ b) b)
            + (sum_by w (core "03 TRANSFER-A")
                + sum_by w (core "05 TRANSFER-B")
                + sum_by w (core "06 LAMP")
                + sum_by w (core "07 REVIEW")
                + sum_by w (core "08 PROBE"))
    unfolding order
    order-keeps core =
        let a = core "02 FOCUS-A" in
        let b = core "04 FOCUS-B" in
        let repeats = add_repeats (focus_of core) [] in
        let again : MenuItem F → ℕ =
          λ item. if nat_beq item.attempt 1 then weight (last_repeat item.sha256 (a ++ b)) else 0 in
        omega (
          arith,
          sum_by-order_groups w repeats (first_focus core) (fillers_of core),
          sum_by-append w (core "01 WARMUP")
              (order_groups repeats (first_focus core) (fillers_of core)),
          firsts-keep (focus_of core),
          sum_by-append (λ item. if nat_beq item.attempt 1 then w item else 0) a b,
          sum_by-repetitions (focus_of core) (focus_of core),
          sum_by-append again a b,
          sum_by-fillers_of w core,
        )
