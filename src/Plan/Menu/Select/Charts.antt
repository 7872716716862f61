-- ===== src/Plan/Menu/Select/Charts.antt =====
-- Which charts the loop of `_select` uses up, and how often each stands in the menu.
use oraja_traning.Prelude.{
  ℕ, zero, suc, ◌+◌, ◌*◌, ◌≤◌, ◌≡◌, refl, ap, String, Bool, true, false, ◌&&◌, List, [], ◌∷◌, some,
  if◌then◌else◌, get_elem?, Bool-cases, inl, inr, arith, map, keep, length, sum_by, sum_by-append,
  sum_by-erase_idx,
}
use oraja_traning.Prelude.Eq.{◌==◌, contains, string_eq}
use oraja_traning.Prelude.Float.{Float}
use oraja_traning.Plan.Menu.Random.{Rng}
use oraja_traning.Plan.Menu.{Candidate, MenuItem, to_item}
use oraja_traning.Plan.Menu.Select.{
  Request, Loop, admissible, eligible_of, score, insert_by_worth, sort_by_worth, second, ranked,
  attempts_from, pick_of, explores, take_pick, select,
}
use oraja_traning.Plan.Menu.Select.Picks.{pick_loop_inv}

-- 1 for the chart looked for, 0 for any other.
abbrev pub one_if : String → String → ℕ
one_if sha other = if sha == other then 1 else 0

module _ (f : Float) (rng : Rng f.Num) (sha : String) where
  open f use {Num}

  abbrev pub candidates_of : List (Candidate Num) → ℕ
  candidates_of cs = sum_by (λ c. one_if sha c.sha256) cs

  abbrev pub items_of : List (MenuItem Num) → ℕ
  items_of items = sum_by (λ item. one_if sha item.sha256) items

  items_of-attempts_from :
      (q : Request f rng) (c : Candidate Num) (x : Bool) (first left : ℕ)
      → items_of (attempts_from f rng q c x first left) ≡ left * one_if sha c.sha256
  unfolding attempts_from to_item
  items_of-attempts_from q c x first zero = ground arith
  items_of-attempts_from q c x first (suc left) =
      ground (arith, items_of-attempts_from q c x (first + 1) left)

  candidates_of-keep :
      (p : Candidate Num → Bool) (cs : List (Candidate Num))
      → candidates_of (keep p cs) ≤ candidates_of cs
  candidates_of-keep p [] = omega arith
  candidates_of-keep p (c ∷ cs) = ground (arith, candidates_of-keep p cs)

  candidates_of-insert :
      (e : Num × Candidate Num) (ds : List (Num × Candidate Num))
      → candidates_of (map (second f rng) (insert_by_worth f rng e ds))
        ≡ one_if sha e.1.sha256 + candidates_of (map (second f rng) ds)
  unfolding insert_by_worth second
  candidates_of-insert e [] = refl
  candidates_of-insert e (d ∷ ds) = ground (arith, candidates_of-insert e ds)

  candidates_of-sort :
      (es : List (Num × Candidate Num))
      → candidates_of (map (second f rng) (sort_by_worth f rng es))
        ≡ candidates_of (map (second f rng) es)
  unfolding sort_by_worth second
  candidates_of-sort [] = refl
  candidates_of-sort (e ∷ es) =
      omega (arith, candidates_of-sort es, candidates_of-insert e (sort_by_worth f rng es))

  candidates_of-score :
      (q : Request f rng) (cs : List (Candidate Num)) (state : ℕ)
      → candidates_of (map (second f rng) (score f rng q cs state).0) ≡ candidates_of cs
  unfolding score second
  candidates_of-score q [] state = refl
  candidates_of-score q (c ∷ cs) state = omega (arith, candidates_of-score q cs _)

  pub candidates_of-ranked :
      (q : Request f rng) (cs : List (Candidate Num)) (state : ℕ)
      → candidates_of (ranked f rng q cs state).0 ≡ candidates_of cs
  unfolding ranked
  candidates_of-ranked q cs state =
      omega (arith, candidates_of-sort (score f rng q cs state).0, candidates_of-score q cs state)

  candidates_of-eligible_of :
      (q : Request f rng) (predicate : Candidate Num → Bool) (used : List String)
      (cs : List (Candidate Num))
      → candidates_of (eligible_of f rng q predicate used cs) ≤ candidates_of cs
  unfolding eligible_of
  candidates_of-eligible_of q predicate used cs =
      let matches : Candidate Num → Bool =
        λ c. admissible f rng q.readiness used c && predicate c in
      ground (
        arith,
        candidates_of-keep matches cs,
        candidates_of-keep (admissible f rng q.readiness used) cs,
      )

  pub candidates_of_none : (cs : List (Candidate Num)) → length cs ≡ 0 → candidates_of cs ≡ 0
  candidates_of_none [] h = refl
  candidates_of_none (c ∷ cs) h = absurd (omega arith)

  -- Every candidate taken gave `attempts` items of its chart; there were `n` candidates of it.
  abbrev pub Balanced : Request f rng → ℕ → Loop f rng → Type 0
  Balanced q n s = items_of s.selected + q.attempts * candidates_of s.eligible ≡ q.attempts * n

  pub take_pick-Balanced :
      (q : Request f rng) (n : ℕ) (s : Loop f rng) (c : Candidate Num)
      → Balanced q n s
      → get_elem? s.eligible (pick_of f rng s).0 ≡ some c
      → Balanced q n (take_pick f rng q s (pick_of f rng s) c)
  unfolding take_pick
  take_pick-Balanced q n s c h found =
      let items = attempts_from f rng q c (explores f rng s) 1 q.attempts in
      ground (
        arith,
        h,
        sum_by-append (λ item. one_if sha item.sha256) s.selected items,
        items_of-attempts_from q c (explores f rng s) 1 q.attempts,
        ap (λ n. q.attempts * n)
            (sum_by-erase_idx (λ c. one_if sha c.sha256) s.eligible (pick_of f rng s).0 found),
      )

  -- A chart not used before: still a candidate and not selected, or selected with all its
  -- attempts and no longer a candidate.
  record Fresh (q : Request f rng) (s : Loop f rng) : Type 0 where
    before :
        contains sha s.used ≡ false → (candidates_of s.eligible ≤ 1) × (items_of s.selected ≡ 0)
    after :
        contains sha s.used ≡ true
        → (candidates_of s.eligible ≡ 0) × (items_of s.selected ≡ q.attempts)

  take_pick-Fresh :
      (q : Request f rng) (s : Loop f rng) (c : Candidate Num)
      → Fresh q s
      → get_elem? s.eligible (pick_of f rng s).0 ≡ some c
      → Fresh q (take_pick f rng q s (pick_of f rng s) c)
  unfolding take_pick
  take_pick-Fresh q s c h found =
      let items = attempts_from f rng q c (explores f rng s) 1 q.attempts in
      let taken =
        sum_by-erase_idx (λ c. one_if sha c.sha256) s.eligible (pick_of f rng s).0 found in
      let added = sum_by-append (λ item. one_if sha item.sha256) s.selected items in
      let repeated = items_of-attempts_from q c (explores f rng s) 1 q.attempts in
      elim (Bool-cases (sha == c.sha256)) [
        | inl same ↦ record {
          before = λ absent. absurd (ground arith);
          after = λ present. (ground (arith, h.before, h.after), ground (arith, h.before, h.after));
        }
        | inr other ↦ record {
          before = λ absent. (ground (arith, h.before), ground (arith, h.before));
          after = λ present. (ground (arith, h.after), ground (arith, h.after));
        }
      ]

  -- A chart that was not used before and is a candidate at most once: when `_select` marks it as
  -- used it stands in the selection `attempts` times, and otherwise it does not stand there.
  pub select-occurrences :
      (q : Request f rng) (predicate : Candidate Num → Bool) (cs : List (Candidate Num))
      (used : List String) (state : ℕ)
      → contains sha used ≡ false
      → candidates_of cs ≤ 1
      → items_of (select f rng q predicate cs used state).0
        ≡ (if contains sha (select f rng q predicate cs used state).1 then q.attempts else 0)
  unfolding select
  select-occurrences q predicate cs used state unused once =
      let eligible = eligible_of f rng q predicate used cs in
      let order = ranked f rng q eligible state in
      let fresh =
        pick_loop_inv f rng (Fresh q) q (take_pick-Fresh q) (length order.0)
          (record {
            eligible = order.0;
            selected = [];
            total = 0;
            used = used;
            index = 0;
            state = order.1;
          })
          (record {
            before = λ absent. (
              omega (
                arith,
                candidates_of-ranked q eligible state,
                candidates_of-eligible_of q predicate used cs,
              ),
              refl,
            );
            after = λ present. absurd (cc (unused, present));
          }) in
      ground (arith, fresh.before, fresh.after)
