-- ===== src/Plan/Experiment/Assign/Tests.antt =====
-- `assign_session` of the first session of an experiment.
use oraja_traning.Prelude.{List, ℕ, ◌≡◌, refl, String, Option, none, [], ◌∷◌, map}
use oraja_traning.Prelude.Int.{ℤ, pos, ◌+ℤ◌}
use oraja_traning.Prelude.Eq.{pair_beq}
use oraja_traning.Tables.Match.{codes_lt}
use oraja_traning.Prelude.Result.{Result, ok, err}
use oraja_traning.Samples.{thousandths}
use oraja_traning.Plan.Experiment.Assign.Candidates.{
  ChartCandidate, Groups, AssignError, normalise_candidates,
}
use oraja_traning.Plan.Experiment.Assign.Queries.{Experiment, Tables, find_experiment}
use oraja_traning.Plan.Experiment.Assign.Start.{
  start_experiment, TakesDays, start_experiment-TakesDays,
}
use oraja_traning.Plan.Experiment.Assign.{assign_session}
use oraja_traning.Plan.Experiment.Assign.Fresh.{IsAssigned, assign_session-AddsFresh}

abbrev chart : String → ChartCandidate ℕ
chart sha256 = record { sha256 = sha256; mode = pos 0; p_pred = 700 }

abbrev sets : Groups ℕ
sets = record {
  coach = chart "aaaaaaaaaaaaaaaaaaaaaaaaaaaaaaaaaaaaaaaaaaaaaaaaaaaaaaaaaaaaaaaa" ∷ [];
  control = chart "bbbbbbbbbbbbbbbbbbbbbbbbbbbbbbbbbbbbbbbbbbbbbbbbbbbbbbbbbbbbbbbb" ∷ [];
  transfer =
      chart "1111111111111111111111111111111111111111111111111111111111111111"
      ∷ chart "2222222222222222222222222222222222222222222222222222222222222222"
      ∷ chart "3333333333333333333333333333333333333333333333333333333333333333"
      ∷ chart "4444444444444444444444444444444444444444444444444444444444444444"
      ∷ [];
}

abbrev db : Tables ℕ
db = record {
  experiments =
      record {
        id = 5;
        name = "two arms";
        seed = "s";
        starts_at = pos 0;
        ends_at = pos 1000000;
        min_samples_per_arm = pos 20;
        created_at = pos 0;
      }
      ∷ [];
  assignments = [];
  next_session_id = 1;
  targets = [];
  next_target_id = 1;
  score_state = [];
  plays = [];
}

abbrev first : String → String → String → ℕ
first seed key purpose = 0

abbrev text : Groups ℕ → String
text groups = "{}"

abbrev unread : String → Option (Groups ℕ)
unread t = none

abbrev same : String → String
same s = s

abbrev assigned : Result AssignError (Tables ℕ × ℕ)
assigned =
    assign_session thousandths same first text same unread 5 "monday" (pos 10) sets (pos 11) db

abbrev tables_of : Result AssignError (Tables ℕ × ℕ) → Tables ℕ
tables_of (ok r) = r.0
tables_of (err e) = db

target_days :
    map {B = ℕ × ℤ} (λ t. (t.interval_days, t.due_at)) (tables_of assigned).targets
    ≡ (1, pos 86410)
      ∷ (1, pos 86410)
      ∷ (3, pos 259210)
      ∷ (3, pos 259210)
      ∷ (7, pos 604810)
      ∷ (7, pos 604810)
      ∷ (14, pos 1209610)
      ∷ (14, pos 1209610)
      ∷ []
unfolding assign_session normalise_candidates pair_beq codes_lt ◌+ℤ◌
target_days = refl

assigned_is : assigned ≡ ok (tables_of assigned, 1)
unfolding assign_session normalise_candidates pair_beq codes_lt
assigned_is = refl

assign_session-AddsFresh_example :
    IsAssigned thousandths same first text same unread 5 "monday" (pos 10) db (tables_of assigned) 1
assign_session-AddsFresh_example =
    assign_session-AddsFresh thousandths same first text same unread 5 "monday" (pos 10) sets
      (pos 11) db (tables_of assigned) 1 assigned_is

abbrev started : List Experiment
started =
    record {
      id = 1;
      name = "two arms";
      seed = "s";
      starts_at = pos 0;
      ends_at = pos 172800;
      min_samples_per_arm = pos 20;
      created_at = pos 0;
    }
    ∷ []

started_is :
    start_experiment same "two arms" "s" (pos 0) (pos 2) (pos 20) (pos 0) 1 [] ≡ ok (started, 1)
unfolding start_experiment ◌+ℤ◌
started_is = refl

start_experiment-TakesDays_example :
    TakesDays thousandths same first text same unread
      (find_experiment 1 started)
      1
      (pos 0)
      2
      "monday"
      (pos 90000)
      sets
      (pos 90001)
      db
start_experiment-TakesDays_example =
    start_experiment-TakesDays thousandths same first text same unread same "two arms" "s" (pos 0) 2
      (pos 20) (pos 0) 1 [] started 1 "monday" (pos 90000) sets (pos 90001) db refl started_is
