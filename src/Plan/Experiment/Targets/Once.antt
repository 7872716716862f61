-- ===== src/Plan/Experiment/Targets/Once.antt =====
-- `resolve_targets` lets a play resolve one target of the experiment at most.
use oraja_traning.Prelude.{
  ℕ, ◌≤◌, ◌≡◌, refl, true, false, ◌&&◌, List, [], ◌∷◌, some, if◌then◌else◌, nat_beq, map, arith,
  Bool-cases, inl, inr, sum_by,
}
use oraja_traning.Prelude.Int.{ℤ, ltb_ℤ}
use oraja_traning.Prelude.Eq.{◌==◌, option_eq, nat_eq}
use oraja_traning.Db.Plays.{StoredPlay}
use oraja_traning.Plan.Experiment.{Session, Target, is_pending}
use oraja_traning.Plan.Experiment.Targets.{
  Counts, Verdict, in_experiment, already_used, verdict_on, verdict, settle, resolve_target,
  resolve_each, due_targets, resolve_targets, scorable_plays,
}

module _ {F : Type 0} (experiment_id : ℕ) (sessions : List Session) where
  -- The targets of the experiment that the play resolves.
  abbrev pub uses_of : ℕ → List (Target F) → ℕ
  uses_of play_id rows =
      sum_by
        (λ t.
          if in_experiment experiment_id sessions t && (t.resolved_play_id == some play_id)
          then 1
          else 0)
        rows

  abbrev pub rows_with_id : ℕ → List (Target F) → ℕ
  rows_with_id id rows = sum_by (λ t. if nat_beq t.id id then 1 else 0) rows

  in_experiment-settle :
      (id : ℕ) (v : Verdict) (now : ℤ) (t : Target F)
      → in_experiment experiment_id sessions (settle id v now t)
        ≡ in_experiment experiment_id sessions t
  unfolding in_experiment settle
  in_experiment-settle id v now t = elim (Bool-cases (nat_beq t.id id)) [
    | inl e ↦ rw e refl
    | inr e ↦ rw e refl
  ]

  -- A play that no other row uses is used by the rows with this id at most.
  uses_of-settle_unused :
      (id : ℕ) (v : Verdict) (now : ℤ) (play_id : ℕ) (rows : List (Target F))
      → already_used experiment_id sessions id play_id rows ≡ false
      → uses_of play_id (map (settle id v now) rows) ≤ rows_with_id id rows
  unfolding already_used settle
  uses_of-settle_unused id v now play_id [] h = omega arith
  uses_of-settle_unused id v now play_id (t ∷ ts) h = ground (
    arith,
    uses_of-settle_unused id v now play_id ts (ground arith),
    in_experiment-settle id v now t,
  )

  -- Any other play is used no more than before.
  uses_of-settle_other :
      (id : ℕ) (v : Verdict) (now : ℤ) (play_id : ℕ) (rows : List (Target F))
      → (v.play_id == some play_id) ≡ false
      → uses_of play_id (map (settle id v now) rows) ≤ uses_of play_id rows
  unfolding settle
  uses_of-settle_other id v now play_id [] h = omega arith
  uses_of-settle_other id v now play_id (t ∷ ts) h =
      ground (arith, uses_of-settle_other id v now play_id ts h, in_experiment-settle id v now t)

  rows_with_id-settle :
      (id : ℕ) (v : Verdict) (now : ℤ) (other : ℕ) (rows : List (Target F))
      → rows_with_id other (map (settle id v now) rows) ≡ rows_with_id other rows
  unfolding settle
  rows_with_id-settle id v now other [] = refl
  rows_with_id-settle id v now other (t ∷ ts) =
      ground (arith, rows_with_id-settle id v now other ts)

  verdict_on-unused :
      (t : Target F) (rows : List (Target F)) (scorable : List (StoredPlay F)) (play_id : ℕ)
      → ((verdict_on experiment_id sessions t rows scorable).play_id == some play_id) ≡ true
      → already_used experiment_id sessions t.id play_id rows ≡ false
  unfolding verdict_on
  verdict_on-unused t rows [] play_id h = ground arith
  verdict_on-unused t rows (p ∷ []) play_id h = ground arith
  verdict_on-unused t rows (p ∷ (p' ∷ ps)) play_id h = ground arith

  -- A verdict that names a play has found it unused.
  verdict-unused :
      (plays : List (StoredPlay F)) (session_at : ℤ) (t : Target F) (rows : List (Target F))
      (play_id : ℕ)
      → ((verdict experiment_id sessions plays session_at t rows).play_id == some play_id) ≡ true
      → already_used experiment_id sessions t.id play_id rows ≡ false
  unfolding verdict
  verdict-unused plays session_at t rows play_id h =
      ground (arith, verdict_on-unused t rows (scorable_plays t plays) play_id)

  -- The ids are unique, and no play resolves two targets.
  pub record UsesOnce (rows : List (Target F)) : Type 0 where
    pub unique_ids : (id : ℕ) → rows_with_id id rows ≤ 1
    pub used_once : (play_id : ℕ) → uses_of play_id rows ≤ 1

  settle-UsesOnce :
      (plays : List (StoredPlay F)) (now session_at : ℤ) (t : Target F) (rows : List (Target F))
      → UsesOnce rows
      → UsesOnce
          (map (settle t.id (verdict experiment_id sessions plays session_at t rows) now) rows)
  settle-UsesOnce plays now session_at t rows h =
      let v = verdict experiment_id sessions plays session_at t rows in
      record {
        unique_ids = λ id. omega (arith, h.unique_ids id, rows_with_id-settle t.id v now id rows);
        used_once = λ play_id. elim (Bool-cases (v.play_id == some play_id)) [
          | inl named ↦ omega (
            arith,
            h.unique_ids t.id,
            uses_of-settle_unused t.id v now play_id rows
                (verdict-unused plays session_at t rows play_id named),
          )
          | inr other ↦
              omega (arith, h.used_once play_id, uses_of-settle_other t.id v now play_id rows other)
        ];
      }

  resolve_target-UsesOnce :
      (plays : List (StoredPlay F)) (now : ℤ) (t : Target F × ℤ) (rows : List (Target F))
      (counts : Counts)
      → UsesOnce rows
      → UsesOnce (resolve_target experiment_id sessions plays now t (rows, counts)).0
  unfolding resolve_target
  resolve_target-UsesOnce plays now (t, session_at) rows counts h =
      let v = verdict experiment_id sessions plays session_at t rows in
      elim (Bool-cases (ltb_ℤ now t.window_closes_at)) [
        | inl open_ ↦ rw open_ h
        | inr closed ↦ elim (Bool-cases (is_pending v.status)) [
          | inl undecided ↦ rw (closed, undecided) h
          | inr decided ↦ rw (closed, decided) (settle-UsesOnce plays now session_at t rows h)
        ]
      ]

  resolve_each-UsesOnce :
      (plays : List (StoredPlay F)) (now : ℤ) (ts : List (Target F × ℤ))
      (state : List (Target F) × Counts)
      → UsesOnce state.0
      → UsesOnce (resolve_each experiment_id sessions plays now ts state).0
  unfolding resolve_each
  resolve_each-UsesOnce plays now [] state h = h
  resolve_each-UsesOnce plays now (t ∷ ts) state h =
      resolve_each-UsesOnce plays now ts _ (resolve_target-UsesOnce plays now t state.0 state.1 h)

  -- `resolve_targets` keeps the ids unique and lets no play resolve two targets of the experiment,
  -- when it was so before.
  pub resolve_targets-UsesOnce :
      (plays : List (StoredPlay F)) (now : ℤ) (rows : List (Target F))
      → UsesOnce rows
      → UsesOnce (resolve_targets experiment_id sessions plays now rows).0
  unfolding resolve_targets
  resolve_targets-UsesOnce plays now rows h =
      resolve_each-UsesOnce plays now (due_targets experiment_id sessions now rows) _ h
