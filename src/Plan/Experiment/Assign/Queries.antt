-- ===== src/Plan/Experiment/Assign/Queries.antt =====
-- The tables that `assign_session` of plan/experiment.py works on, its queries and its draws.
use oraja_traning.Prelude.{
  ℕ, ◌+◌, ◌*◌, ◌%◌, String, Bool, not, ◌&&◌, ◌||◌, Option, none, some, is_some, List, [], ◌∷◌, ◌++◌,
  if◌then◌else◌, nat_beq, length, get_elem?, erase_idx, keep, any, map,
}
use oraja_traning.Prelude.Int.{ℤ, pos, ◌+ℤ◌, ltb_ℤ}
use oraja_traning.Prelude.Eq.{◌==◌, contains, string_eq, int_eq, pair_eq}
use oraja_traning.Prelude.Result.{Result, ok, err, ◌>>=◌}
use oraja_traning.Db.Plays.{StoredPlay}
use oraja_traning.Plan.Experiment.{Arm, coach, control, Session, Target, TargetKind, TargetStatus}
use oraja_traning.Plan.Experiment.Assign.Candidates.{
  ChartCandidate, Identity, identity, Groups, AssignError,
}

pub record Experiment : Type 0 where
  pub id : ℕ
  pub name : String
  pub seed : String
  pub starts_at : ℤ
  pub ends_at : ℤ
  pub min_samples_per_arm : ℤ
  pub created_at : ℤ

-- A row of `score_state`.
pub record ScoreState : Type 0 where
  pub sha256 : String
  pub mode : ℤ
  pub playcount : ℤ
  pub clear : ℤ

-- A row of `experiment_sessions`.
pub record Assignment (F : Type 0) : Type 0 where
  pub session : Session
  pub arm_probability : F
  pub selection_probability : F
  pub candidate_hash : String
  pub candidates_json : String
  pub selected : ChartCandidate F
  pub transfer : ChartCandidate F
  pub assigned_at : ℤ
  pub input_candidate_hash : String

-- The tables that `assign_session` reads and writes.
pub record Tables (F : Type 0) : Type 0 where
  pub experiments : List Experiment
  pub assignments : List (Assignment F)
  pub next_session_id : ℕ
  pub targets : List (Target F)
  pub next_target_id : ℕ
  pub score_state : List ScoreState
  pub plays : List (StoredPlay F)

-- `INTERVAL_DAYS` with the purposes that the transfer draws are made for.
abbrev pub intervals : List (ℕ × String)
intervals = (1, "transfer") ∷ (3, "transfer:3") ∷ (7, "transfer:7") ∷ (14, "transfer:14") ∷ []

abbrev pub find_experiment : ℕ → List Experiment → Option Experiment
find_experiment id [] = none
find_experiment id (e ∷ es) = if nat_beq e.id id then some e else find_experiment id es

module _ {F : Type 0} where
  -- The row of (experiment_id, session_key), which is unique.
  abbrev pub find_assignment : ℕ → String → List (Assignment F) → Option (Assignment F)
  find_assignment experiment_id key [] = none
  find_assignment experiment_id key (a ∷ as_) =
      if nat_beq a.session.experiment_id experiment_id && a.session.session_key == key
      then some a
      else find_assignment experiment_id key as_

  -- The target belongs to a session of the experiment.
  abbrev pub of_experiment : ℕ → List (Assignment F) → Target F → Bool
  of_experiment experiment_id as_ t =
      any (λ a. nat_beq a.session.id t.session_id && nat_beq a.session.experiment_id experiment_id)
        as_

  -- The charts that the sessions of the experiment use, as selected or transfer chart.
  abbrev pub session_charts : ℕ → List (Assignment F) → List Identity
  session_charts experiment_id [] = []
  session_charts experiment_id (a ∷ as_) =
      if nat_beq a.session.experiment_id experiment_id
      then identity a.selected ∷ identity a.transfer ∷ session_charts experiment_id as_
      else session_charts experiment_id as_

  abbrev pub target_identity : Target F → Identity
  target_identity t = (t.sha256, t.mode)

  unfoldable pub reserved_charts : ℕ → Tables F → List Identity
  reserved_charts experiment_id db =
      session_charts experiment_id db.assignments
      ++ map target_identity (keep (of_experiment experiment_id db.assignments) db.targets)

  abbrev pub unused : List Identity → List (ChartCandidate F) → List (ChartCandidate F)
  unused reserved cs = keep (λ c. not (contains (identity c) reserved)) cs

  -- The query on `score_state` and `plays` finds a row.
  unfoldable pub practised : Tables F → ChartCandidate F → Bool
  practised db c =
      any
        (λ s.
          s.sha256 == c.sha256
          && s.mode == c.mode
          && (ltb_ℤ (pos 0) s.playcount || ltb_ℤ (pos 0) s.clear))
        db.score_state
      || any
          (λ p.
            p.play.sha256 == c.sha256
            && p.play.mode == c.mode
            && not p.play.is_course
            && (ltb_ℤ (pos 0) p.play.playcount
                || ltb_ℤ (pos 0) p.play.clear
                || is_some p.play.completed))
          db.plays

  abbrev pub arm_candidates : Arm → Groups F → List (ChartCandidate F)
  arm_candidates coach groups = groups.coach
  arm_candidates control groups = groups.control

  -- `cs[n % len(cs)]`
  unfoldable pub pick : ℕ → List (ChartCandidate F) → Result AssignError (ChartCandidate F)
  pick n cs = elim (get_elem? cs (n % length cs)) [
    | none ↦ err AssignError.index_error
    | some c ↦ ok c
  ]

  -- The transfer chart of each interval, popped from those that remain.
  unfoldable pub pick_transfers :
      (String → ℕ)
      → List (ℕ × String)
      → List (ChartCandidate F)
      → Result AssignError (List (ℕ × ChartCandidate F))
  unfolding pick
  pick_transfers draw [] remaining = ok []
  pick_transfers draw ((days, purpose) ∷ rest) remaining = pick (draw purpose) remaining >>= λ c.
      pick_transfers draw rest (erase_idx remaining (draw purpose % length remaining)) >>= λ others.
      ok ((days, c) ∷ others)

  abbrev pub new_target : ℕ → ℕ → TargetKind → ℕ → ChartCandidate F → ℤ → Target F
  new_target id session_id kind days c session_at =
      let due_at = session_at +ℤ pos (days * 86400) in
      record {
        id = id;
        session_id = session_id;
        target_kind = kind;
        interval_days = days;
        sha256 = c.sha256;
        mode = c.mode;
        due_at = due_at;
        window_closes_at = due_at +ℤ pos 86400;
        p_pred = c.p_pred;
        status = TargetStatus.pending;
        outcome = none;
        resolved_play_id = none;
        resolved_at = none;
        resolution_note = none;
      }

  -- A retention and a transfer target for each interval.
  unfoldable pub new_targets :
      ℕ → ℕ → ℤ → ChartCandidate F → List (ℕ × ChartCandidate F) → List (Target F)
  new_targets id session_id session_at selected [] = []
  new_targets id session_id session_at selected ((days, transfer) ∷ rest) =
      new_target id session_id TargetKind.retention days selected session_at
      ∷ new_target (id + 1) session_id TargetKind.transfer days transfer session_at
      ∷ new_targets (id + 2) session_id session_at selected rest
