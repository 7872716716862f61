-- ===== src/Plan/Menu/Select.antt =====
-- plan/menu.py, `_select`: the charts of one category of the menu.
pub mod Picks
pub mod Quota
pub mod Charts
mod Tests
use oraja_traning.Prelude.{
  ℕ, zero, suc, ◌+◌, min, String, Bool, true, false, not, ◌&&◌, ◌||◌, List, [], ◌∷◌, ◌++◌, Option,
  none, some, if◌then◌else◌, ltb, leb, nat_beq, keep, length, get_elem?, erase_idx, ◌%◌, ◌*◌, map,
}
use oraja_traning.Prelude.Int.{ℤ}
use oraja_traning.Prelude.Eq.{◌==◌, contains, string_eq}
use oraja_traning.Prelude.Float.{Float, lit}
use oraja_traning.Plan.Menu.Random.{Rng}
use oraja_traning.Plan.Menu.{Candidate, MenuItem, expected, utility, to_item}

abbrev pub is_empty {ℓ} : {A : Type ℓ} → List A → Bool
is_empty [] = true
is_empty (x ∷ xs) = false

pub append_text : String → String → String
append_text String.[] t = t
append_text (String.◌∷◌ c s) t = String.◌∷◌ c (append_text s t)

module _ (f : Float) (rng : Rng f.Num) where
  open f use {Num, le, lt}

  -- The keyword arguments of `_select`, but for `predicate`.
  pub record Request : Type 0 where
    pub category : String
    pub quota : ℕ
    pub target_p : Num
    pub now : ℤ
    pub readiness : String
    pub attempts : ℕ
    pub optional : Bool
    pub allow_fallback : Bool

  -- `candidate.sha256 not in used and candidate.tier != "R4 FUTURE" and not (… high_load >= 0.80)`
  pub admissible : String → List String → Candidate Num → Bool
  admissible readiness used c =
      not (contains c.sha256 used)
      && not (c.tier == "R4 FUTURE")
      && not (readiness == "tired" && le (lit f 80 100) c.high_load)

  pub eligible_of :
      Request → (Candidate Num → Bool) → List String → List (Candidate Num) → List (Candidate Num)
  eligible_of q predicate used candidates =
      let matching = keep (λ c. admissible q.readiness used c && predicate c) candidates in
      if is_empty matching && q.allow_fallback
      then keep (admissible q.readiness used) candidates
      else matching

  -- The keys of `eligible.sort`, drawn in the order of the list.
  pub score : Request → List (Candidate Num) → ℕ → List (Num × Candidate Num) × ℕ
  score q [] state = ([], state)
  score q (c ∷ cs) state =
      let (worth, state') = utility f rng c q.target_p q.now q.readiness state in
      let (rest, state'') = score q cs state' in ((worth, c) ∷ rest, state'')

  -- Python's sort is stable, with `reverse=True` too: an item goes behind those that are worth
  -- more, and stays ahead of its equals.
  pub insert_by_worth :
      Num × Candidate Num → List (Num × Candidate Num) → List (Num × Candidate Num)
  insert_by_worth e [] = e ∷ []
  insert_by_worth e (d ∷ ds) = if lt e.0 d.0 then d ∷ insert_by_worth e ds else e ∷ d ∷ ds

  pub sort_by_worth : List (Num × Candidate Num) → List (Num × Candidate Num)
  unfolding insert_by_worth
  sort_by_worth [] = []
  sort_by_worth (e ∷ es) = insert_by_worth e (sort_by_worth es)

  pub second : Num × Candidate Num → Candidate Num
  second e = e.1

  pub ranked : Request → List (Candidate Num) → ℕ → List (Candidate Num) × ℕ
  unfolding score sort_by_worth second
  ranked q cs state =
      let (scored, state') = score q cs state in (map second (sort_by_worth scored), state')

  -- `for attempt in range(1, attempts + 1)`, from attempt `first`.
  pub attempts_from : Request → Candidate Num → Bool → ℕ → ℕ → List (MenuItem Num)
  attempts_from q c is_exploration first zero = []
  attempts_from q c is_exploration first (suc left) =
      to_item f c q.category (append_text c.primary_axis (append_text " / " c.tier)) first
        q.optional is_exploration none none none
      ∷ attempts_from q c is_exploration (first + 1) left

  pub record Loop : Type 0 where
    pub eligible : List (Candidate Num)
    pub selected : List (MenuItem Num)
    pub total : ℕ
    pub used : List String
    pub index : ℕ
    pub state : ℕ

  -- `candidate_index % 5 == 4 and len(eligible) > 1`
  pub explores : Loop → Bool
  explores s = nat_beq (s.index % 5) 4 && ltb 1 (length s.eligible)

  pub pick_of : Loop → ℕ × ℕ
  unfolding explores
  pick_of s =
      if explores s then rng.randrange (min 10 (length s.eligible)) s.state else (0, s.state)

  -- One round of the loop, for the candidate that is picked.
  pub take_pick : Request → Loop → ℕ × ℕ → Candidate Num → Loop
  unfolding attempts_from expected
  take_pick q s pick c = record {
    eligible = erase_idx s.eligible pick.0;
    selected = s.selected ++ attempts_from q c (explores s) 1 q.attempts;
    total = s.total + q.attempts * expected f c;
    used = c.sha256 ∷ s.used;
    index = s.index + 1;
    state = pick.1;
  }

  -- `while eligible:` with fuel; an index past the end cannot be picked.
  pub pick_loop : ℕ → Request → Loop → Loop
  unfolding take_pick pick_of
  pick_loop zero q s = s
  pick_loop (suc fuel) q s = elim (get_elem? s.eligible (pick_of s).0) [
    | none ↦ s
    | some c ↦
        let next = take_pick q s (pick_of s) c in
        let rest = pick_loop fuel q next in if leb q.quota next.total then next else rest
  ]

  -- The selected items, the charts used by then, and the generator's state. Every round takes one
  -- candidate away, so their number is enough fuel.
  pub select :
      Request
      → (Candidate Num → Bool)
      → List (Candidate Num)
      → List String
      → ℕ
      → List (MenuItem Num) × List String × ℕ
  unfolding pick_loop ranked eligible_of
  select q predicate candidates used state =
      let (order, state') = ranked q (eligible_of q predicate used candidates) state in
      let s = pick_loop (length order) q (record {
        eligible = order;
        selected = [];
        total = 0;
        used = used;
        index = 0;
        state = state';
      }) in
      (s.selected, s.used, s.state)
