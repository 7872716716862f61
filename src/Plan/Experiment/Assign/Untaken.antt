-- ===== src/Plan/Experiment/Assign/Untaken.antt =====
-- The charts that `assign_session` may give to a session: none of a session of the experiment, and
-- for a transfer none that was practised.
use oraja_traning.Prelude.{
  ℕ, ◌≡◌, ◌≢◌, refl, Bool, false, not, ◌&&◌, ◌||◌, List, [], ◌∷◌, ◌++◌, is_some, nat_beq, keep, any,
  map, arith, All, All-map, Bool-cases, inl, inr, String,
}
use oraja_traning.Prelude.Int.{ℤ, pos, ltb_ℤ, ◌≤ℤ◌}
use oraja_traning.Prelude.Eq.{◌==◌, contains, string_eq, int_eq, pair_eq, pair_beq_iff}
use oraja_traning.Db.Plays.{StoredPlay}
use oraja_traning.Plan.Experiment.{Target}
use oraja_traning.Plan.Experiment.Assign.Candidates.{ChartCandidate, Identity, identity}
use oraja_traning.Plan.Experiment.Assign.Queries.{
  Assignment, ScoreState, Tables, of_experiment, session_charts, target_identity, reserved_charts,
  practised,
}

any-All {ℓ} :
    {A : Type ℓ} (p : A → Bool) (xs : List A) → any p xs ≡ false → All (λ x. p x ≡ false) xs
any-All p [] h = tt
any-All p (x ∷ xs) h = (ground arith, any-All p xs (ground arith))

All-unit {ℓ} : {A : Type ℓ} (xs : List A) → All (λ x. Unit {0}) xs
All-unit [] = tt
All-unit (x ∷ xs) = (tt, All-unit xs)

contains-append :
    (i : Identity) (xs ys : List Identity)
    → contains i (xs ++ ys) ≡ false
    → (contains i xs ≡ false) × (contains i ys ≡ false)
contains-append i [] ys h = (refl, h)
contains-append i (x ∷ xs) ys h =
    (ground (arith, contains-append i xs ys), (contains-append i xs ys (ground arith)).1)

apart : (i j : Identity) → (i == j) ≡ false → i ≢ j
apart i j h = λ same. cc (h, (pair_beq_iff i j).1 same)

module _ {F : Type 0} (experiment_id : ℕ) where
  -- The chart is none of a session of the experiment, selected or for transfer, and none of a
  -- target of such a session.
  pub record IsFree (db : Tables F) (i : Identity) : Type 0 where
    pub not_assigned :
        All
          (λ a.
            a.session.experiment_id ≡ experiment_id
            → (i ≢ identity a.selected) × (i ≢ identity a.transfer))
          db.assignments
    pub not_targeted :
        All
          (λ t.
            All
              (λ a.
                a.session.id ≡ t.session_id
                → a.session.experiment_id ≡ experiment_id
                → i ≢ target_identity t)
              db.assignments)
          db.targets

  session_charts-free :
      (i : Identity) (as_ : List (Assignment F))
      → contains i (session_charts experiment_id as_) ≡ false
      → All
          (λ a.
            a.session.experiment_id ≡ experiment_id
            → (i ≢ identity a.selected) × (i ≢ identity a.transfer))
          as_
  session_charts-free i [] h = tt
  session_charts-free i (a ∷ as_) h =
      elim (Bool-cases (nat_beq a.session.experiment_id experiment_id)) [
        | inl same ↦ (
          (λ e. (
            apart i (identity a.selected) (ground arith),
            apart i (identity a.transfer) (ground arith),
          )),
          session_charts-free i as_ (ground arith),
        )
        | inr other ↦ ((λ e. absurd (ground arith)), session_charts-free i as_ (ground arith))
      ]

  targets-free :
      (i : Identity) (as_ : List (Assignment F)) (ts : List (Target F))
      → contains i (map target_identity (keep (of_experiment experiment_id as_) ts)) ≡ false
      → All
          (λ t.
            All
              (λ a.
                a.session.id ≡ t.session_id
                → a.session.experiment_id ≡ experiment_id
                → i ≢ target_identity t)
              as_)
          ts
  targets-free i as_ [] h = tt
  targets-free i as_ (t ∷ ts) h = elim (Bool-cases (of_experiment experiment_id as_ t)) [
    | inr other ↦ (
      All-map _ _ as_ (λ a apart same_id same_experiment. absurd (ground arith))
          (any-All _ as_ other),
      targets-free i as_ ts (ground arith),
    )
    | inl ours ↦ (
      All-map (λ a. Unit {0}) _ as_
          (λ a any_ same_id same_experiment. apart i (target_identity t) (ground arith))
          (All-unit as_),
      targets-free i as_ ts (ground arith),
    )
  ]

  pub reserved_charts-IsFree :
      (db : Tables F) (i : Identity)
      → contains i (reserved_charts experiment_id db) ≡ false
      → IsFree db i
  unfolding reserved_charts
  reserved_charts-IsFree db i h =
      let (sessions, targets) =
        contains-append i (session_charts experiment_id db.assignments) _ h in
      record {
        not_assigned = session_charts-free i db.assignments sessions;
        not_targeted = targets-free i db.assignments db.targets targets;
      }

module _ {F : Type 0} where
  -- Nothing is recorded of the chart: no play count or clear in the score state, and no play
  -- outside the courses with a play count, a clear or a result.
  pub record IsUnpractised (db : Tables F) (sha256 : String) (mode : ℤ) : Type 0 where
    pub no_state :
        All
          (λ (s : ScoreState).
            s.sha256 ≡ sha256 → s.mode ≡ mode → (s.playcount ≤ℤ pos 0) × (s.clear ≤ℤ pos 0))
          db.score_state
    pub no_play :
        All
          (λ (p : StoredPlay F).
            p.play.sha256 ≡ sha256
            → p.play.mode ≡ mode
            → p.play.is_course ≡ false
            → (p.play.playcount ≤ℤ pos 0)
              × (p.play.clear ≤ℤ pos 0)
              × (is_some p.play.completed ≡ false))
          db.plays

  abbrev in_state : ChartCandidate F → ScoreState → Bool
  in_state c s =
      s.sha256 == c.sha256
      && s.mode == c.mode
      && (ltb_ℤ (pos 0) s.playcount || ltb_ℤ (pos 0) s.clear)

  abbrev in_play : ChartCandidate F → StoredPlay F → Bool
  in_play c p =
      p.play.sha256 == c.sha256
      && p.play.mode == c.mode
      && not p.play.is_course
      && (ltb_ℤ (pos 0) p.play.playcount || ltb_ℤ (pos 0) p.play.clear || is_some p.play.completed)

  in_state-none :
      (c : ChartCandidate F) (s : ScoreState)
      → in_state c s ≡ false
      → s.sha256 ≡ c.sha256
      → s.mode ≡ c.mode
      → (s.playcount ≤ℤ pos 0) × (s.clear ≤ℤ pos 0)
  in_state-none c s h same_chart same_mode =
      let chart = (string_eq.beq_iff s.sha256 c.sha256).1 same_chart in
      let mode = (int_eq.beq_iff s.mode c.mode).1 same_mode in (ground arith, ground arith)

  in_play-none :
      (c : ChartCandidate F) (p : StoredPlay F)
      → in_play c p ≡ false
      → p.play.sha256 ≡ c.sha256
      → p.play.mode ≡ c.mode
      → p.play.is_course ≡ false
      → (p.play.playcount ≤ℤ pos 0) × (p.play.clear ≤ℤ pos 0) × (is_some p.play.completed ≡ false)
  in_play-none c p h same_chart same_mode no_course =
      let chart = (string_eq.beq_iff p.play.sha256 c.sha256).1 same_chart in
      let mode = (int_eq.beq_iff p.play.mode c.mode).1 same_mode in
      (ground arith, ground arith, ground arith)

  pub practised-IsUnpractised :
      (db : Tables F) (c : ChartCandidate F)
      → practised db c ≡ false
      → IsUnpractised db c.sha256 c.mode
  unfolding practised
  practised-IsUnpractised db c h = record {
    no_state =
        All-map _ _ db.score_state (in_state-none c)
          (any-All (in_state c) db.score_state (ground arith));
    no_play = All-map _ _ db.plays (in_play-none c) (any-All (in_play c) db.plays (ground arith));
  }
