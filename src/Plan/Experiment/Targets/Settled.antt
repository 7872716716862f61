-- ===== src/Plan/Experiment/Targets/Settled.antt =====
-- `resolve_targets` leaves no target behind whose window is closed, and run again changes nothing.
use oraja_traning.Prelude.{
  ℕ, ◌+◌, ◌≡◌, refl, Bool, true, false, ◌&&◌, List, [], ◌∷◌, nat_beq, arith, Bool-cases,
  Option-cases, inl, inr, length, All, All-map, All-map-to, ◌⊎◌, sym, ◌∙◌,
}
use mathlib.Core.Path.{subst}
use oraja_traning.Prelude.Int.{ℤ, ltb_ℤ, leb_ℤ}
use oraja_traning.Db.Plays.{StoredPlay}
use oraja_traning.Plan.Experiment.{Session, Target, TargetStatus, is_pending, session_of}
use oraja_traning.Plan.Experiment.Targets.{
  Counts, Verdict, in_experiment, scorable_plays, verdict_on, verdict, settle, resolve_target,
  resolve_each, due_targets, resolve_targets, bump,
}

module _ {F : Type 0} (experiment_id : ℕ) (sessions : List Session) (now : ℤ) where
  -- The first query finds the target.
  abbrev pub is_due : Target F → Bool
  is_due t = in_experiment experiment_id sessions t && is_pending t.status && leb_ℤ t.due_at now

  -- Nothing is left to do for the target: it is not due, or its window is still open.
  abbrev pub IsSettled : Target F → Type 0
  IsSettled t = is_due t ≡ true → ltb_ℤ now t.window_closes_at ≡ true

  -- A row of the loop's list stands for the target.
  abbrev Awaits : List (Target F × ℤ) → Target F → Type 0
  Awaits [] r = ⊥
  Awaits (t ∷ ts) r = ((t.0.id ≡ r.id) × (t.0.window_closes_at ≡ r.window_closes_at)) ⊎ Awaits ts r

  abbrev Covered : List (Target F × ℤ) → Target F → Type 0
  Covered ts r = IsSettled r ⊎ Awaits ts r

  verdict_on-decides :
      (t : Target F) (rows : List (Target F)) (scorable : List (StoredPlay F))
      → is_pending (verdict_on experiment_id sessions t rows scorable).status ≡ false
  unfolding verdict_on
  verdict_on-decides t rows [] = refl
  verdict_on-decides t rows (p ∷ []) = ground arith
  verdict_on-decides t rows (p ∷ (p' ∷ ps)) = refl

  verdict-decides :
      (plays : List (StoredPlay F)) (session_at : ℤ) (t : Target F) (rows : List (Target F))
      → is_pending (verdict experiment_id sessions plays session_at t rows).status ≡ false
  unfolding verdict
  verdict-decides plays session_at t rows =
      ground (arith, verdict_on-decides t rows (scorable_plays t plays))

  settle-Covered :
      (v : Verdict) (t : Target F) (session_at : ℤ) (ts : List (Target F × ℤ)) (r : Target F)
      → is_pending v.status ≡ false
      → Covered ((t, session_at) ∷ ts) r
      → Covered ts (settle t.id v now r)
  unfolding settle
  settle-Covered v t session_at ts r decided h = elim (Bool-cases (nat_beq r.id t.id)) [
    | inl same ↦ rw same (inl (λ due. ground arith))
    | inr other ↦ rw other (elim h [
      | inl settled ↦ inl settled
      | inr (inl is_this) ↦ absurd (ground arith)
      | inr (inr later) ↦ inr later
    ])
  ]

  open-Covered :
      (t : Target F) (session_at : ℤ) (ts : List (Target F × ℤ)) (r : Target F)
      → ltb_ℤ now t.window_closes_at ≡ true
      → Covered ((t, session_at) ∷ ts) r
      → Covered ts r
  open-Covered t session_at ts r open_ (inl settled) = inl settled
  open-Covered t session_at ts r open_ (inr (inl is_this)) = inl (λ due. ground arith)
  open-Covered t session_at ts r open_ (inr (inr later)) = inr later

  resolve_target-Covered :
      (plays : List (StoredPlay F)) (t : Target F) (session_at : ℤ) (ts : List (Target F × ℤ))
      (rows : List (Target F)) (counts : Counts)
      → All (Covered ((t, session_at) ∷ ts)) rows
      → All
          (Covered ts)
          (resolve_target experiment_id sessions plays now (t, session_at) (rows, counts)).0
  unfolding resolve_target
  resolve_target-Covered plays t session_at ts rows counts h =
      let v = verdict experiment_id sessions plays session_at t rows in
      let decided = verdict-decides plays session_at t rows in
      elim (Bool-cases (ltb_ℤ now t.window_closes_at)) [
        | inl open_ ↦ rw open_ (All-map _ _ rows (λ r. open-Covered t session_at ts r open_) h)
        | inr closed ↦
            rw (closed, decided)
              (All-map-to (Covered ts) (settle t.id v now) rows
                (λ r. settle-Covered v t session_at ts r decided) h)
      ]

  resolve_each-Covered :
      (plays : List (StoredPlay F)) (ts : List (Target F × ℤ)) (rows : List (Target F))
      (counts : Counts)
      → All (Covered ts) rows
      → All IsSettled (resolve_each experiment_id sessions plays now ts (rows, counts)).0
  unfolding resolve_each
  resolve_each-Covered plays [] rows counts h =
      All-map _ _ rows (λ r. elim [ inl settled ↦ settled | inr none_left ↦ absurd none_left ]) h
  resolve_each-Covered plays ((t, session_at) ∷ ts) rows counts h =
      resolve_each-Covered plays ts _ _ (resolve_target-Covered plays t session_at ts rows counts h)

  weaken-Covered :
      (t : Target F × ℤ) (ts : List (Target F × ℤ)) (r : Target F)
      → Covered ts r
      → Covered (t ∷ ts) r
  weaken-Covered t ts r (inl settled) = inl settled
  weaken-Covered t ts r (inr awaits) = inr (inr awaits)

  -- The first query passes a row over, or finds it because it is due.
  pub due_targets-cases :
      (t : Target F) (ts : List (Target F))
      → ((due_targets experiment_id sessions now (t ∷ ts)
            ≡ due_targets experiment_id sessions now ts)
          × (is_due t ≡ false))
        ⊎ ((session_at : ℤ) × ((due_targets experiment_id sessions now (t ∷ ts)
                ≡ (t, session_at) ∷ due_targets experiment_id sessions now ts)
              × (is_due t ≡ true)))
  unfolding due_targets in_experiment
  due_targets-cases t ts = elim (Option-cases (session_of t.session_id sessions)) [
    | inl unknown ↦ inl (rw (unknown, due_targets) refl, rw (unknown, in_experiment) refl)
    | inr (s, known) ↦
        let due =
          nat_beq s.experiment_id experiment_id && is_pending t.status && leb_ℤ t.due_at now in
        elim (Bool-cases due) [
          | inl is_in ↦
              inr (
                s.session_at,
                (rw (known, is_in, due_targets) refl, rw (known, in_experiment) is_in),
              )
          | inr is_out ↦
              inl (rw (known, is_out, due_targets) refl, rw (known, in_experiment) is_out)
        ]
  ]

  due_targets-Covered :
      (rows : List (Target F)) → All (Covered (due_targets experiment_id sessions now rows)) rows
  due_targets-Covered [] = tt
  due_targets-Covered (t ∷ ts) =
      let rest = due_targets-Covered ts in
      elim (due_targets-cases t ts) [
        | inl (same, not_due) ↦
            subst (λ l. All (Covered l) (t ∷ ts)) (sym same) (inl (λ due. ground arith), rest)
        | inr (session_at, (found, due)) ↦
            subst (λ l. All (Covered l) (t ∷ ts)) (sym found)
              (inr (inl (refl, refl)), All-map _ _ ts (weaken-Covered (t, session_at) _) rest)
      ]

  -- Afterwards no target of the experiment that is pending and due has its window closed.
  pub resolve_targets-IsSettled :
      (plays : List (StoredPlay F)) (rows : List (Target F))
      → All IsSettled (resolve_targets experiment_id sessions plays now rows).0
  unfolding resolve_targets
  resolve_targets-IsSettled plays rows =
      resolve_each-Covered plays (due_targets experiment_id sessions now rows) rows _
        (due_targets-Covered rows)

  due_targets-open :
      (rows : List (Target F))
      → All IsSettled rows
      → All
          (λ t. ltb_ℤ now t.0.window_closes_at ≡ true)
          (due_targets experiment_id sessions now rows)
  unfolding due_targets
  due_targets-open [] h = tt
  due_targets-open (t ∷ ts) h =
      let rest = due_targets-open ts h.1 in
      elim (due_targets-cases t ts) [
        | inl (same, not_due) ↦
            subst (All (λ t. ltb_ℤ now t.0.window_closes_at ≡ true)) (sym same) rest
        | inr (session_at, (found, due)) ↦
            subst (All (λ t. ltb_ℤ now t.0.window_closes_at ≡ true)) (sym found) (h.0 due, rest)
      ]

  resolve_each-open :
      (plays : List (StoredPlay F)) (ts : List (Target F × ℤ)) (rows : List (Target F))
      (counts : Counts)
      → All (λ t. ltb_ℤ now t.0.window_closes_at ≡ true) ts
      → resolve_each experiment_id sessions plays now ts (rows, counts)
        ≡ (rows, record counts { pending = counts.pending + length ts })
  unfolding resolve_each resolve_target bump
  resolve_each-open plays [] rows counts h = ground arith
  resolve_each-open plays ((t, session_at) ∷ ts) rows counts h =
      rw h.0 (resolve_each-open plays ts rows (bump TargetStatus.pending counts) h.1 ∙ ground arith)

  -- Run a second time at the same moment, on its own result, `resolve_targets` changes no row, and
  -- counts every target that it finds as pending.
  pub resolve_targets_again :
      (plays plays' : List (StoredPlay F)) (rows : List (Target F))
      → let after = (resolve_targets experiment_id sessions plays now rows).0 in
        resolve_targets experiment_id sessions plays' now after ≡ (
          after,
          record {
            resolved = 0;
            missing = 0;
            duplicate = 0;
            pending = length (due_targets experiment_id sessions now after);
          },
        )
  unfolding resolve_targets
  resolve_targets_again plays plays' rows =
      let after = (resolve_targets experiment_id sessions plays now rows).0 in
      resolve_each-open plays' (due_targets experiment_id sessions now after) after _
        (due_targets-open after (resolve_targets-IsSettled plays rows))
      ∙ ground arith
