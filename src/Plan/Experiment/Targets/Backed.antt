-- ===== src/Plan/Experiment/Targets/Backed.antt =====
-- What `resolve_targets` resolves a target with.
use mathlib.Core.Path.{subst}
use oraja_traning.Prelude.{
  ℕ, ◌≡◌, refl, sym, true, ◌&&◌, List, [], ◌∷◌, some, nat_beq, nat_beq_iff, arith, Bool-cases, inl,
  inr, All, All-map, All-and, All-map-to, any,
}
use oraja_traning.Prelude.Int.{ℤ, ltb_ℤ}
use oraja_traning.Prelude.Eq.{string_eq, int_eq}
use oraja_traning.Db.Plays.{StoredPlay}
use oraja_traning.Plan.Experiment.{Session, Target, TargetStatus, is_pending, is_transfer}
use oraja_traning.Plan.Experiment.Targets.{
  Counts, Verdict, already_used, verdict_on, verdict, settle, resolve_target, resolve_each,
  due_targets, resolve_targets, played_in, scorable_plays, outcome_of,
}
use oraja_traning.Plan.Experiment.Targets.Window.{
  IsInWindow, IsAlone, Tells, IsScorable, scorable_plays-All, scorable_plays-IsAlone,
}
use oraja_traning.Plan.Experiment.Targets.Settled.{due_targets-cases}

module _ {F : Type 0} (experiment_id : ℕ) (sessions : List Session)
    (plays : List (StoredPlay F)) where
  -- A row that is resolved names the one play that `scorable_plays` leaves, which was made in its
  -- window and is alone there, and the outcome of that play.
  pub record IsBacked (r : Target F) : Type 0 where
    pub backed :
        r.status ≡ TargetStatus.resolved
        → (p : StoredPlay F) × ((scorable_plays r plays ≡ p ∷ [])
            × ((IsInWindow plays r p × IsAlone plays r p)
                × ((r.resolved_play_id ≡ some p.id) × Tells plays p r.outcome)))

  -- The fetched row has the chart and the window of the table's row of the same id.
  abbrev Agrees : Target F → Target F × ℤ → Type 0
  Agrees r t = t.0.id ≡ r.id → scorable_plays t.0 plays ≡ scorable_plays r plays

  abbrev Followed : List (Target F × ℤ) → Target F → Type 0
  Followed ts r = IsBacked r × All (Agrees r) ts

  -- The verdict rests on the only play of the list, if it resolves.
  abbrev RestsOn : Verdict → List (StoredPlay F) → Type 0
  RestsOn v scorable =
      v.status ≡ TargetStatus.resolved
      → (p : StoredPlay F) × ((scorable ≡ p ∷ [])
          × ((v.play_id ≡ some p.id) × (v.outcome ≡ some (outcome_of p))))

  verdict_on-RestsOn :
      (t : Target F) (rows : List (Target F)) (scorable : List (StoredPlay F))
      → RestsOn (verdict_on experiment_id sessions t rows scorable) scorable
  unfolding verdict_on
  verdict_on-RestsOn t rows [] h = absurd (ground arith)
  verdict_on-RestsOn t rows (p ∷ []) h =
      elim (Bool-cases (already_used experiment_id sessions t.id p.id rows)) [
        | inl used ↦ absurd (ground arith)
        | inr unused ↦ (p, (refl, (rw unused refl, rw unused refl)))
      ]
  verdict_on-RestsOn t rows (p ∷ (p' ∷ ps)) h = absurd (ground arith)

  verdict-RestsOn :
      (session_at : ℤ) (t : Target F) (rows : List (Target F))
      → RestsOn (verdict experiment_id sessions plays session_at t rows) (scorable_plays t plays)
  unfolding verdict
  verdict-RestsOn session_at t rows h =
      elim (Bool-cases (is_transfer t.target_kind && any (played_in t session_at t.due_at) plays)) [
        | inl early ↦ absurd (ground arith)
        | inr late ↦ rw late (verdict_on-RestsOn t rows (scorable_plays t plays) (ground arith))
      ]

  scorable_plays-settle :
      (id : ℕ) (v : Verdict) (now : ℤ) (r : Target F)
      → scorable_plays (settle id v now r) plays ≡ scorable_plays r plays
  unfolding settle scorable_plays played_in
  scorable_plays-settle id v now r = elim (Bool-cases (nat_beq r.id id)) [
    | inl e ↦ rw e refl
    | inr e ↦ rw e refl
  ]

  settle-IsBacked :
      (id : ℕ) (v : Verdict) (now : ℤ) (r : Target F)
      → nat_beq r.id id ≡ true
      → RestsOn v (scorable_plays r plays)
      → IsBacked (settle id v now r)
  unfolding settle scorable_plays played_in
  settle-IsBacked id v now r same rests = rw same (record {
    backed = λ resolved.
        let (p, (only, (id_is, outcome_is))) = rests resolved in
        let scorable = subst (All (IsScorable plays r)) only (scorable_plays-All plays r) in
        (
          p,
          (
            only,
            (
              (scorable.0.0, scorable_plays-IsAlone plays r p only),
              (id_is, subst (Tells plays p) (sym outcome_is) scorable.0.1),
            ),
          ),
        );
  })

  settle-Followed :
      (session_at now : ℤ) (t : Target F) (ts : List (Target F × ℤ)) (rows : List (Target F))
      (r : Target F)
      → Followed ((t, session_at) ∷ ts) r
      → Followed ts (settle t.id (verdict experiment_id sessions plays session_at t rows) now r)
  unfolding settle scorable_plays played_in
  settle-Followed session_at now t ts rows r (h, (agrees, later)) =
      let v = verdict experiment_id sessions plays session_at t rows in
      elim (Bool-cases (nat_beq r.id t.id)) [
        | inl same ↦
            let agreed = agrees (sym ((nat_beq_iff r.id t.id).0 same)) in
            let rests = subst (RestsOn v) agreed (verdict-RestsOn session_at t rows) in
            (settle-IsBacked t.id v now r same rests, rw same later)
        | inr other ↦ rw other (h, later)
      ]

  resolve_target-Followed :
      (now : ℤ) (t : Target F) (session_at : ℤ) (ts : List (Target F × ℤ)) (rows : List (Target F))
      (counts : Counts)
      → All (Followed ((t, session_at) ∷ ts)) rows
      → All
          (Followed ts)
          (resolve_target experiment_id sessions plays now (t, session_at) (rows, counts)).0
  unfolding resolve_target
  resolve_target-Followed now t session_at ts rows counts h =
      let v = verdict experiment_id sessions plays session_at t rows in
      let passed = All-map _ (Followed ts) rows (λ r old. (old.0, old.1.1)) h in
      elim (Bool-cases (ltb_ℤ now t.window_closes_at)) [
        | inl open_ ↦ rw open_ passed
        | inr closed ↦ elim (Bool-cases (is_pending v.status)) [
          | inl undecided ↦ rw (closed, undecided) passed
          | inr decided ↦
              rw (closed, decided)
                (All-map-to (Followed ts) (settle t.id v now) rows
                  (λ r. settle-Followed session_at now t ts rows r) h)
        ]
      ]

  resolve_each-Followed :
      (now : ℤ) (ts : List (Target F × ℤ)) (rows : List (Target F)) (counts : Counts)
      → All (Followed ts) rows
      → All IsBacked (resolve_each experiment_id sessions plays now ts (rows, counts)).0
  unfolding resolve_each
  resolve_each-Followed now [] rows counts h = All-map _ IsBacked rows (λ r old. old.0) h
  resolve_each-Followed now ((t, session_at) ∷ ts) rows counts h =
      resolve_each-Followed now ts _ _ (resolve_target-Followed now t session_at ts rows counts h)

  -- Rows with the same id have the same chart and window: an id stands for one target.
  abbrev pub SameWindow : Target F → Target F → Type 0
  SameWindow t r =
      (t.sha256 ≡ r.sha256)
      × (t.mode ≡ r.mode)
      × (t.due_at ≡ r.due_at)
      × (t.window_closes_at ≡ r.window_closes_at)

  abbrev pub HasKeys : List (Target F) → Type 0
  HasKeys rows = All (λ r. All (λ t. t.id ≡ r.id → SameWindow t r) rows) rows

  scorable_plays-same :
      (t r : Target F) → SameWindow t r → scorable_plays t plays ≡ scorable_plays r plays
  unfolding scorable_plays played_in
  scorable_plays-same t r (sha256, mode, due, closes) = rw (sha256, mode, due, closes) refl

  due_targets-Agrees :
      (now : ℤ) (r : Target F) (rows : List (Target F))
      → All (λ t. t.id ≡ r.id → SameWindow t r) rows
      → All (Agrees r) (due_targets experiment_id sessions now rows)
  unfolding due_targets
  due_targets-Agrees now r [] h = tt
  due_targets-Agrees now r (t ∷ ts) h =
      let rest = due_targets-Agrees now r ts h.1 in
      elim (due_targets-cases experiment_id sessions now t ts) [
        | inl (same, not_due) ↦ subst (All (Agrees r)) (sym same) rest
        | inr (session_at, (found, due)) ↦
            subst (All (Agrees r)) (sym found)
              ((λ same_id. scorable_plays-same t r (h.0 same_id)), rest)
      ]

  -- Every target that is resolved rests on one play, the only one that `scorable_plays` leaves. It
  -- stands in the table, is of the target's chart and mode and of no course, was made from `due_at`
  -- on and before `window_closes_at`, and has a result; the target's outcome is 0 when that is 0,
  -- and 1 otherwise. Every such play was made at the same time with the same play count.
  -- `resolve_targets` keeps this so for all the targets, when the rows that share
  -- an id share the chart, the mode and the window.
  pub resolve_targets-IsBacked :
      (now : ℤ) (rows : List (Target F))
      → HasKeys rows
      → All IsBacked rows
      → All IsBacked (resolve_targets experiment_id sessions plays now rows).0
  unfolding resolve_targets
  resolve_targets-IsBacked now rows keys h =
      resolve_each-Followed now (due_targets experiment_id sessions now rows) rows _ (
        All-and IsBacked _ rows h
          (All-map _ _ rows (λ r same. due_targets-Agrees now r rows same) keys))
