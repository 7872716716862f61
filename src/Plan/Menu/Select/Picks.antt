-- ===== src/Plan/Menu/Select/Picks.antt =====
-- The loop of `_select`: an invariant rule, and where the items come from.
use oraja_traning.Prelude.Eq.{contains, string_eq}
use oraja_traning.Prelude.{
  ◌≢◌, ℕ, zero, suc, ◌+◌, ◌≡◌, refl, String, Bool, true, false, ◌&&◌, List, [], ◌∷◌, some, leb,
  length, get_elem?, All, All-append, All-keep, All-map, All-get_elem?, All-erase_idx, Option-cases,
  Bool-cases, inl, inr, arith, map, keep,
}
use oraja_traning.Prelude.Float.{Float, lit}
use oraja_traning.Plan.Menu.Random.{Rng}
use oraja_traning.Plan.Menu.{Candidate, MenuItem, expected, to_item}
use oraja_traning.Plan.Menu.Select.{
  Request, Loop, admissible, is_empty, eligible_of, score, insert_by_worth, sort_by_worth, second,
  ranked, attempts_from, pick_of, explores, take_pick, pick_loop, select,
}

module _ (f : Float) (rng : Rng f.Num) where
  open f use {Num, le}

  -- A property that every round keeps holds after the loop.
  pub pick_loop_inv {κ} :
      (P : Loop f rng → Type κ) (q : Request f rng)
      → ((s : Loop f rng) (c : Candidate Num)
          → P s
          → get_elem? s.eligible (pick_of f rng s).0 ≡ some c
          → P (take_pick f rng q s (pick_of f rng s) c))
      → (fuel : ℕ) (s : Loop f rng) → P s
      → P (pick_loop f rng fuel q s)
  unfolding pick_loop
  pick_loop_inv P q step zero s h = h
  pick_loop_inv P q step (suc fuel) s h =
      elim (Option-cases (get_elem? s.eligible (pick_of f rng s).0)) [
        | inl none_left ↦ rw (none_left, pick_loop) h
        | inr (c, found) ↦
            let next = take_pick f rng q s (pick_of f rng s) c in
            let kept = step s c h found in
            elim (Bool-cases (leb q.quota next.total)) [
              | inl enough ↦ rw (found, enough, pick_loop) kept
              | inr short ↦ rw (found, short, pick_loop) (pick_loop_inv P q step fuel next kept)
            ]
      ]

  module _ {κ} (Q : Candidate Num → Type κ) where
    insert-All :
        (e : Num × Candidate Num) (ds : List (Num × Candidate Num))
        → Q e.1
        → All Q (map (second f rng) ds)
        → All Q (map (second f rng) (insert_by_worth f rng e ds))
    unfolding insert_by_worth second
    insert-All e [] he hs = (he, tt)
    insert-All e (d ∷ ds) he hs = elim (Bool-cases (f.lt e.0 d.0)) [
      | inl behind ↦ rw behind (hs.0, insert-All e ds he hs.1)
      | inr ahead ↦ rw ahead (he, hs)
    ]

    sort-All :
        (es : List (Num × Candidate Num))
        → All Q (map (second f rng) es)
        → All Q (map (second f rng) (sort_by_worth f rng es))
    unfolding sort_by_worth second
    sort-All [] h = tt
    sort-All (e ∷ es) h = insert-All e (sort_by_worth f rng es) h.0 (sort-All es h.1)

    score-All :
        (q : Request f rng) (cs : List (Candidate Num)) (state : ℕ)
        → All Q cs
        → All Q (map (second f rng) (score f rng q cs state).0)
    unfolding score second
    score-All q [] state h = tt
    score-All q (c ∷ cs) state h = (h.0, score-All q cs _ h.1)

    -- Ranking keeps the candidates.
    pub ranked-All :
        (q : Request f rng) (cs : List (Candidate Num)) (state : ℕ)
        → All Q cs
        → All Q (ranked f rng q cs state).0
    unfolding ranked
    ranked-All q cs state h = sort-All _ (score-All q cs state h)

  -- The item stands for the candidate in the category that was asked for.
  pub record IsItemOf (q : Request f rng) (c : Candidate Num) (item : MenuItem Num) : Type 0 where
    pub same_chart : item.sha256 ≡ c.sha256
    pub same_mode : item.mode ≡ c.mode
    pub category_asked : item.category ≡ q.category
    pub expects : item.expected_judged ≡ expected f c
    pub optional_asked : item.optional ≡ q.optional

  attempts_from-IsItemOf :
      (q : Request f rng) (c : Candidate Num) (x : Bool) (first left : ℕ)
      → All (IsItemOf q c) (attempts_from f rng q c x first left)
  unfolding attempts_from to_item
  attempts_from-IsItemOf q c x first zero = tt
  attempts_from-IsItemOf q c x first (suc left) = (
    record {
      same_chart = refl;
      same_mode = refl;
      category_asked = refl;
      expects = refl;
      optional_asked = refl;
    },
    attempts_from-IsItemOf q c x (first + 1) left,
  )

  -- What makes a candidate selectable.
  pub record IsSelectable (q : Request f rng) (predicate : Candidate Num → Bool)
      (used : List String) (c : Candidate Num) : Type 0 where
    pub unused : contains c.sha256 used ≡ false
    pub not_future : c.tier ≢ "R4 FUTURE"
    pub not_too_hard : q.readiness ≡ "tired" → le (lit f 80 100) c.high_load ≡ false
    pub asked : q.allow_fallback ≡ false → predicate c ≡ true

  admissible-IsSelectable :
      (q : Request f rng) (predicate : Candidate Num → Bool) (used : List String)
      (c : Candidate Num)
      → admissible f rng q.readiness used c ≡ true
      → (q.allow_fallback ≡ false → predicate c ≡ true)
      → IsSelectable q predicate used c
  unfolding admissible
  admissible-IsSelectable q predicate used c h asked = record {
    unused = ground arith;
    not_future = λ future. ground (arith, string_eq.beq_iff c.tier "R4 FUTURE");
    not_too_hard = λ tired. ground (arith, string_eq.beq_iff q.readiness "tired");
    asked = asked;
  }

  eligible_of-All :
      (Q : Candidate Num → Type 0) (q : Request f rng) (predicate : Candidate Num → Bool)
      (used : List String) (cs : List (Candidate Num))
      → All Q cs
      → All (λ c. Q c × IsSelectable q predicate used c) (eligible_of f rng q predicate used cs)
  unfolding eligible_of
  eligible_of-All Q q predicate used cs h =
      let matches : Candidate Num → Bool =
        λ c. admissible f rng q.readiness used c && predicate c in
      let matching = keep matches cs in
      elim (Bool-cases (is_empty matching && q.allow_fallback)) [
        | inl fallback ↦ rw fallback (
            All-map _ _ _
              (λ c hc. (
                hc.0,
                admissible-IsSelectable q predicate used c hc.1 (λ none_allowed. ground arith),
              ))
              (All-keep Q (admissible f rng q.readiness used) cs h))
        | inr direct ↦ rw direct (
            All-map _ _ _
              (λ c hc. (
                hc.0,
                admissible-IsSelectable q predicate used c (ground (arith, hc.1))
                    (λ none_allowed. ground (arith, hc.1)),
              ))
              (All-keep Q matches cs h))
      ]

  -- The items added so far stand for candidates that meet `Q`, as do the candidates left.
  abbrev Sourced : (Candidate Num → Type 0) → Request f rng → Loop f rng → Type 0
  Sourced Q q s =
      All Q s.eligible × All (λ item. (c : Candidate Num) × (Q c × IsItemOf q c item)) s.selected

  take_pick-Sourced :
      (Q : Candidate Num → Type 0) (q : Request f rng) (s : Loop f rng) (c : Candidate Num)
      → Sourced Q q s
      → get_elem? s.eligible (pick_of f rng s).0 ≡ some c
      → Sourced Q q (take_pick f rng q s (pick_of f rng s) c)
  unfolding take_pick
  take_pick-Sourced Q q s c h found =
      let hc = All-get_elem? Q s.eligible (pick_of f rng s).0 h.0 found in
      (
        All-erase_idx Q s.eligible (pick_of f rng s).0 h.0,
        All-append _ s.selected _ h.1 (
            All-map (IsItemOf q c) (λ item. (c : Candidate Num) × (Q c × IsItemOf q c item)) _
              (λ item is_item. (c, (hc, is_item)))
              (attempts_from-IsItemOf q c (explores f rng s) 1 q.attempts)),
      )

  -- Every item that is selected stands for one of the candidates given, whose chart is not used
  -- yet, whose tier is not "R4 FUTURE", whose high load is under 0.80 when the player is tired, and
  -- which meets the predicate unless the request allows the fallback.
  pub select-IsItemOf :
      (Q : Candidate Num → Type 0) (q : Request f rng) (predicate : Candidate Num → Bool)
      (cs : List (Candidate Num)) (used : List String) (state : ℕ)
      → All Q cs
      → All
          (λ item.
            (c : Candidate Num) × ((Q c × IsSelectable q predicate used c) × IsItemOf q c item))
          (select f rng q predicate cs used state).0
  unfolding select
  select-IsItemOf Q q predicate cs used state h =
      let Q' : Candidate Num → Type 0 = λ c. Q c × IsSelectable q predicate used c in
      let order = ranked f rng q (eligible_of f rng q predicate used cs) state in
      let sourced =
        pick_loop_inv (Sourced Q' q) q (take_pick-Sourced Q' q) (length order.0)
          (record {
            eligible = order.0;
            selected = [];
            total = 0;
            used = used;
            index = 0;
            state = order.1;
          })
          (ranked-All Q' q _ state (eligible_of-All Q q predicate used cs h), tt) in
      sourced.1
