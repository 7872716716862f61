-- ===== src/Plan/Experiment/Targets/Tests.antt =====
-- `resolve_targets` on three targets of one session: one resolved by a play that two sources
-- report, one whose play is used up, and one whose window is open.
use oraja_traning.Prelude.{
  ℕ, ◌≡◌, refl, String, false, List, [], ◌∷◌, Option, none, some, arith, map, All, length,
}
use oraja_traning.Prelude.Int.{pos}
use oraja_traning.Db.Plays.{StoredPlay}
use oraja_traning.Plan.Experiment.{Arm, Session, Target, TargetKind, TargetStatus}
use oraja_traning.Plan.Experiment.Targets.{
  resolve_targets, due_targets, in_experiment, scorable_plays,
}
use oraja_traning.Plan.Experiment.Targets.Once.{UsesOnce, resolve_targets-UsesOnce}
use oraja_traning.Plan.Experiment.Targets.Settled.{
  IsSettled, resolve_targets-IsSettled, resolve_targets_again,
}
use oraja_traning.Plan.Experiment.Targets.Backed.{HasKeys, IsBacked, resolve_targets-IsBacked}

abbrev played : String → ℕ → StoredPlay ℕ
played source id = record {
  id = id;
  play = record {
    sha256 = "aa";
    mode = pos 0;
    played_at = pos 110;
    playcount = pos 3;
    clear = pos 4;
    notes = some (pos 100);
    completed = some (pos 1);
    source = source;
    is_course = false;
    source_generation = pos 0;
    ex = none;
    minbp = none;
    judged = none;
    empty_poor = none;
    survival = none;
    bp_rate = none;
    credited_gauge_kind = none;
    selected_gauge_kind = none;
    option = none;
    seed = none;
    random = none;
    trophy = none;
    exceeded_aggregate_score = false;
    lost_events = pos 0;
    payload_hash = "";
    ingested_at = pos 120;
  };
}

abbrev plays : List (StoredPlay ℕ)
plays = played "official_ir" 1 ∷ played "collector" 2 ∷ []

abbrev sessions : List Session
sessions =
    record {
      id = 1;
      experiment_id = 9;
      session_key = "monday";
      session_at = pos 0;
      arm = Arm.coach;
    }
    ∷ []

abbrev target : ℕ → String → ℕ → Target ℕ
target id sha256 closes = record {
  id = id;
  session_id = 1;
  target_kind = TargetKind.retention;
  interval_days = 1;
  sha256 = sha256;
  mode = pos 0;
  due_at = pos 100;
  window_closes_at = pos closes;
  p_pred = 700;
  status = TargetStatus.pending;
  outcome = none;
  resolved_play_id = none;
  resolved_at = none;
  resolution_note = none;
}

abbrev targets : List (Target ℕ)
targets = target 1 "aa" 200 ∷ target 2 "aa" 200 ∷ target 3 "bb" 200 ∷ target 4 "bb" 400 ∷ []

resolved_statuses :
    map {B = TargetStatus × Option ℕ}
      (λ t. (t.status, t.resolved_play_id))
      (resolve_targets 9 sessions plays (pos 300) targets).0
    ≡ (TargetStatus.resolved, some 2)
      ∷ (TargetStatus.duplicate, none)
      ∷ (TargetStatus.missing, none)
      ∷ (TargetStatus.pending, none)
      ∷ []
unfolding resolve_targets
resolved_statuses = refl

resolved_counts :
    (resolve_targets 9 sessions plays (pos 300) targets).1
    ≡ record { resolved = 1; missing = 1; duplicate = 1; pending = 1 }
unfolding resolve_targets
resolved_counts = refl

targets-UsesOnce : UsesOnce 9 sessions targets
unfolding in_experiment
targets-UsesOnce = record { unique_ids = λ id. ground arith; used_once = λ play_id. ground arith }

resolve_targets-UsesOnce_example :
    UsesOnce 9 sessions (resolve_targets 9 sessions plays (pos 300) targets).0
resolve_targets-UsesOnce_example =
    resolve_targets-UsesOnce 9 sessions plays (pos 300) targets targets-UsesOnce

resolve_targets-IsSettled_example :
    All (IsSettled 9 sessions (pos 300)) (resolve_targets 9 sessions plays (pos 300) targets).0
resolve_targets-IsSettled_example = resolve_targets-IsSettled 9 sessions (pos 300) plays targets

abbrev after : List (Target ℕ)
after = (resolve_targets 9 sessions plays (pos 300) targets).0

resolve_targets_again_example : resolve_targets 9 sessions [] (pos 300) after ≡ (
  after,
  record {
    resolved = 0;
    missing = 0;
    duplicate = 0;
    pending = length (due_targets 9 sessions (pos 300) after);
  },
)
resolve_targets_again_example = resolve_targets_again 9 sessions (pos 300) plays [] targets

targets-HasKeys : HasKeys 9 sessions plays targets
unfolding scorable_plays
targets-HasKeys = ground arith

targets-IsBacked : All (IsBacked 9 sessions plays) targets
targets-IsBacked = (
  record { backed = λ h. absurd (ground arith) },
  (
    record { backed = λ h. absurd (ground arith) },
    (
      record { backed = λ h. absurd (ground arith) },
      (record { backed = λ h. absurd (ground arith) }, tt),
    ),
  ),
)

resolve_targets-IsBacked_example :
    All (IsBacked 9 sessions plays) (resolve_targets 9 sessions plays (pos 300) targets).0
resolve_targets-IsBacked_example =
    resolve_targets-IsBacked 9 sessions plays (pos 300) targets targets-HasKeys targets-IsBacked
