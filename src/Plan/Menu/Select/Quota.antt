-- ===== src/Plan/Menu/Select/Quota.antt =====
-- How much the loop of `_select` takes.
use oraja_traning.Prelude.{
  ℕ, zero, suc, ◌+◌, ◌*◌, ◌≤◌, ◌<◌, min, ◌≡◌, refl, ap, String, Bool, List, [], some, leb, length,
  get_elem?, Option-cases, Bool-cases, inl, inr, arith, ◌⊎◌, length-erase_idx, length-≤, sum_by,
  sum_by-append,
}
use oraja_traning.Prelude.Float.{Float}
use oraja_traning.Plan.Menu.Random.{Rng}
use oraja_traning.Plan.Menu.{Candidate, MenuItem, expected, to_item}
use oraja_traning.Plan.Menu.Select.{
  Request, Loop, eligible_of, ranked, attempts_from, pick_of, explores, take_pick, pick_loop,
  select,
}
use oraja_traning.Plan.Menu.Select.Picks.{pick_loop_inv}
use oraja_traning.Plan.Menu.Select.Charts.{
  items_of, candidates_of, candidates_of_none, candidates_of-ranked, Balanced, take_pick-Balanced,
}

module _ (f : Float) (rng : Rng f.Num) where
  open f use {Num}

  pick_of-lt : (s : Loop f rng) → 0 < length s.eligible → (pick_of f rng s).0 < length s.eligible
  unfolding pick_of
  pick_of-lt s h = elim (Bool-cases (explores f rng s)) [
    | inl e ↦
        rw e (ground (arith, rng.randrange-lt (min 10 (length s.eligible)) s.state (ground arith)))
    | inr e ↦ rw e h
  ]

  -- With as much fuel as candidates, the loop ends with the quota met or nobody left.
  pub pick_loop-ends :
      (q : Request f rng) (fuel : ℕ) (s : Loop f rng)
      → length s.eligible ≤ fuel
      → (q.quota ≤ (pick_loop f rng fuel q s).total)
        ⊎ (length (pick_loop f rng fuel q s).eligible ≡ 0)
  unfolding pick_loop take_pick
  pick_loop-ends q zero s h = inr (omega arith)
  pick_loop-ends q (suc fuel) s h = elim (Option-cases (get_elem? s.eligible (pick_of f rng s).0)) [
    | inl none_left ↦
        rw (none_left, pick_loop)
          (inr (ground (arith, length-≤ s.eligible (pick_of f rng s).0 none_left, pick_of-lt s)))
    | inr (c, found) ↦
        let next = take_pick f rng q s (pick_of f rng s) c in
        elim (Bool-cases (leb q.quota next.total)) [
          | inl enough ↦ rw (found, enough, pick_loop) (inl (ground arith))
          | inr short ↦
              rw (found, short, pick_loop)
                (pick_loop-ends q fuel next (omega (arith, length-erase_idx s.eligible _ found)))
        ]
  ]

  -- What the items are expected to be judged, together.
  abbrev pub judged_in : List (MenuItem Num) → ℕ
  judged_in items = sum_by (λ item. item.expected_judged) items

  judged_in-attempts_from :
      (q : Request f rng) (c : Candidate Num) (x : Bool) (first left : ℕ)
      → judged_in (attempts_from f rng q c x first left) ≡ left * expected f c
  unfolding attempts_from to_item
  judged_in-attempts_from q c x first zero = ground arith
  judged_in-attempts_from q c x first (suc left) =
      ground (arith, judged_in-attempts_from q c x (first + 1) left)

  -- The total is what the items make.
  record Tallied (s : Loop f rng) : Type 0 where
    total_is : s.total ≡ judged_in s.selected

  take_pick-Tallied :
      (q : Request f rng) (s : Loop f rng) (c : Candidate Num)
      → Tallied s
      → get_elem? s.eligible (pick_of f rng s).0 ≡ some c
      → Tallied (take_pick f rng q s (pick_of f rng s) c)
  unfolding take_pick
  take_pick-Tallied q s c h found =
      let items = attempts_from f rng q c (explores f rng s) 1 q.attempts in
      record {
        total_is = omega (
          arith,
          h.total_is,
          sum_by-append (λ item. item.expected_judged) s.selected items,
          judged_in-attempts_from q c (explores f rng s) 1 q.attempts,
        );
      }

  -- The category is filled: either the items selected are expected to be judged `quota` notes or
  -- more in sum, or every eligible candidate was taken: each chart stands in the selection
  -- `attempts` times for each eligible candidate with that chart.
  pub select-fills :
      (q : Request f rng) (predicate : Candidate Num → Bool) (cs : List (Candidate Num))
      (used : List String) (state : ℕ)
      → (q.quota ≤ judged_in (select f rng q predicate cs used state).0)
        ⊎ ((sha : String)
            → items_of f rng sha (select f rng q predicate cs used state).0
              ≡ q.attempts * candidates_of f rng sha (eligible_of f rng q predicate used cs))
  unfolding select
  select-fills q predicate cs used state =
      let eligible = eligible_of f rng q predicate used cs in
      let order = ranked f rng q eligible state in
      let start : Loop f rng = record {
        eligible = order.0;
        selected = [];
        total = 0;
        used = used;
        index = 0;
        state = order.1;
      } in
      let done = pick_loop f rng (length order.0) q start in
      let tallied =
        pick_loop_inv f rng Tallied q (take_pick-Tallied q) (length order.0) start
          (record { total_is = refl }) in
      elim (pick_loop-ends q (length order.0) start (omega arith)) [
        | inl enough ↦ inl (omega (arith, tallied.total_is))
        | inr nobody ↦ inr (λ sha.
            let n = candidates_of f rng sha order.0 in
            let balanced =
              pick_loop_inv f rng (Balanced f rng sha q n) q (take_pick-Balanced f rng sha q n)
                (length order.0) start (omega arith) in
            ground (
              arith,
              balanced,
              ap (λ n. q.attempts * n) (candidates_of_none f rng sha done.eligible nobody),
              ap (λ n. q.attempts * n) (candidates_of-ranked f rng sha q eligible state),
            ))
      ]
