-- ===== src/Plan/Experiment/Targets.antt =====
-- `resolve_targets` of plan/experiment.py.
pub mod Once
pub mod Settled
pub mod Backed
pub mod Alone
pub mod Window
mod Tests
use oraja_traning.Prelude.{
  ℕ, ◌+◌, String, Bool, true, false, not, ◌&&◌, ◌||◌, List, [], ◌∷◌, Option, none, some,
  if◌then◌else◌, ltb, nat_beq, keep, any, map, is_some,
}
use oraja_traning.Prelude.Int.{ℤ, pos, ltb_ℤ, leb_ℤ}
use oraja_traning.Prelude.Eq.{◌==◌, string_eq, int_eq, option_eq, nat_eq}
use oraja_traning.Domain.Play.{Play}
use oraja_traning.Db.Plays.{StoredPlay}
use oraja_traning.Plan.Experiment.{
  Session, Target, TargetStatus, is_transfer, is_pending, session_of,
}

-- `CASE source WHEN 'collector' THEN 0 …`
abbrev pub source_rank : String → ℕ
source_rank source =
    if source == "collector"
    then 0
    else if source == "official_ir"
    then 1
    else if source == "daily_snapshot"
    then 2
    else if source == "legacy_last_snapshot"
    then 3
    else 4

pub record Counts : Type 0 where
  pub resolved : ℕ
  pub missing : ℕ
  pub duplicate : ℕ
  pub pending : ℕ

unfoldable pub bump : TargetStatus → Counts → Counts
bump TargetStatus.pending c = record c { pending = c.pending + 1 }
bump TargetStatus.resolved c = record c { resolved = c.resolved + 1 }
bump TargetStatus.missing c = record c { missing = c.missing + 1 }
bump TargetStatus.duplicate c = record c { duplicate = c.duplicate + 1 }

-- The values that `resolve_targets` finds for one target.
pub record Verdict : Type 0 where
  pub status : TargetStatus
  pub note : Option String
  pub outcome : Option ℕ
  pub play_id : Option ℕ

module _ {F : Type 0} where
  -- A play of the target's chart, no course, with `played_at` in [first, last).
  unfoldable pub played_in : Target F → ℤ → ℤ → StoredPlay F → Bool
  played_in t first last r =
      (r.play.sha256 == t.sha256)
      && (r.play.mode == t.mode)
      && not r.play.is_course
      && leb_ℤ first r.play.played_at
      && ltb_ℤ r.play.played_at last

  -- `PARTITION BY sha256, mode, played_at, playcount`
  abbrev pub same_partition : StoredPlay F → StoredPlay F → Bool
  same_partition a b =
      (a.play.sha256 == b.play.sha256)
      && (a.play.mode == b.play.mode)
      && (a.play.played_at == b.play.played_at)
      && (a.play.playcount == b.play.playcount)

  -- `ORDER BY CASE source …, ingested_at DESC, id DESC`: `a` comes before `b`.
  abbrev pub ranks_before : StoredPlay F → StoredPlay F → Bool
  ranks_before a b =
      let rank_a = source_rank a.play.source in
      let rank_b = source_rank b.play.source in
      ltb rank_a rank_b
      || (nat_beq rank_a rank_b
          && (ltb_ℤ b.play.ingested_at a.play.ingested_at
              || (b.play.ingested_at == a.play.ingested_at && ltb b.id a.id)))

  -- The first of each partition of the scorable plays. Their order matters to nobody: a play is
  -- read off only when it is alone.
  unfoldable pub scorable_plays : Target F → List (StoredPlay F) → List (StoredPlay F)
  unfolding played_in
  scorable_plays t plays =
      let scored =
        keep (λ r. played_in t t.due_at t.window_closes_at r && is_some r.play.completed) plays in
      keep (λ r. not (any (λ other. same_partition r other && ranks_before other r) scored)) scored

  -- `int(bool(completed))`
  abbrev pub outcome_of : StoredPlay F → ℕ
  outcome_of r = if r.play.completed == some (pos 0) then 0 else 1

  -- The target belongs to a session of the experiment.
  unfoldable pub in_experiment : ℕ → List Session → Target F → Bool
  in_experiment experiment_id sessions t = elim (session_of t.session_id sessions) [
    | none ↦ false
    | some s ↦ nat_beq s.experiment_id experiment_id
  ]

  -- `other.id <> ? AND other.resolved_play_id = ?`, in the experiment.
  unfoldable pub already_used : ℕ → List Session → ℕ → ℕ → List (Target F) → Bool
  unfolding in_experiment
  already_used experiment_id sessions id play_id rows =
      any
        (λ other.
          in_experiment experiment_id sessions other
          && not (nat_beq other.id id)
          && (other.resolved_play_id == some play_id))
        rows

  -- What the scorable plays of the window decide.
  unfoldable pub verdict_on :
      ℕ → List Session → Target F → List (Target F) → List (StoredPlay F) → Verdict
  unfolding already_used
  verdict_on experiment_id sessions t rows [] = record {
    status = TargetStatus.missing;
    note = some "no scorable play in evaluation window";
    outcome = none;
    play_id = none;
  }
  verdict_on experiment_id sessions t rows (p ∷ []) =
      if already_used experiment_id sessions t.id p.id rows
      then record {
        status = TargetStatus.duplicate;
        note = some "play already used by another target";
        outcome = none;
        play_id = none;
      }
      else record {
        status = TargetStatus.resolved;
        note = none;
        outcome = some (outcome_of p);
        play_id = some p.id;
      }
  verdict_on experiment_id sessions t rows (p ∷ (p' ∷ ps)) = record {
    status = TargetStatus.duplicate;
    note = some "multiple plays in evaluation window";
    outcome = none;
    play_id = none;
  }

  -- From `status = "pending"` to the update, for a target whose window is closed.
  unfoldable pub verdict :
      ℕ → List Session → List (StoredPlay F) → ℤ → Target F → List (Target F) → Verdict
  unfolding played_in scorable_plays verdict_on
  verdict experiment_id sessions plays session_at t rows =
      if is_transfer t.target_kind && any (played_in t session_at t.due_at) plays
      then record {
        status = TargetStatus.duplicate;
        note = some "transfer chart played before evaluation window";
        outcome = none;
        play_id = none;
      }
      else verdict_on experiment_id sessions t rows (scorable_plays t plays)

  -- `UPDATE experiment_targets SET … WHERE id = ?`
  unfoldable pub settle : ℕ → Verdict → ℤ → Target F → Target F
  settle id v now r =
      if nat_beq r.id id
      then record r {
        status = v.status;
        outcome = v.outcome;
        resolved_play_id = v.play_id;
        resolved_at = some now;
        resolution_note = v.note;
      }
      else r

  -- One round of the loop, on a row of the first query with its `session_at`.
  unfoldable pub resolve_target :
      ℕ
      → List Session
      → List (StoredPlay F)
      → ℤ
      → Target F × ℤ
      → List (Target F) × Counts
      → List (Target F) × Counts
  unfolding verdict settle bump
  resolve_target experiment_id sessions plays now (t, session_at) (rows, counts) =
      if ltb_ℤ now t.window_closes_at
      then (rows, bump TargetStatus.pending counts)
      else let v = verdict experiment_id sessions plays session_at t rows in
        if is_pending v.status
        then (rows, bump v.status counts)
        else (map (settle t.id v now) rows, bump v.status counts)

  unfoldable pub resolve_each :
      ℕ
      → List Session
      → List (StoredPlay F)
      → ℤ
      → List (Target F × ℤ)
      → List (Target F) × Counts
      → List (Target F) × Counts
  unfolding resolve_target
  resolve_each experiment_id sessions plays now [] state = state
  resolve_each experiment_id sessions plays now (t ∷ ts) state =
      resolve_each experiment_id sessions plays now ts
        (resolve_target experiment_id sessions plays now t state)

  -- The first query: the pending targets of the experiment that are due, in the order of their ids.
  unfoldable pub due_targets : ℕ → List Session → ℤ → List (Target F) → List (Target F × ℤ)
  due_targets experiment_id sessions now [] = []
  due_targets experiment_id sessions now (t ∷ ts) =
      let rest = due_targets experiment_id sessions now ts in
      elim (session_of t.session_id sessions) [
        | none ↦ rest
        | some s ↦
            if nat_beq s.experiment_id experiment_id && is_pending t.status && leb_ℤ t.due_at now
            then (t, s.session_at) ∷ rest
            else rest
      ]

  -- `resolve_targets`: the new table, and what it returns.
  unfoldable pub resolve_targets :
      ℕ → List Session → List (StoredPlay F) → ℤ → List (Target F) → List (Target F) × Counts
  unfolding due_targets resolve_each
  resolve_targets experiment_id sessions plays now rows =
      resolve_each experiment_id sessions plays now (due_targets experiment_id sessions now rows)
        (rows, record { resolved = 0; missing = 0; duplicate = 0; pending = 0 })
