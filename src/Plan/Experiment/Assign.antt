-- ===== src/Plan/Experiment/Assign.antt =====
-- `assign_session` of plan/experiment.py: a session of the self-experiment gets its arm, its chart
-- and the charts of its four transfer evaluations.
pub mod Candidates
pub mod Queries
pub mod Untaken
pub mod Drawn
pub mod Found
pub mod Open
pub mod Start
pub mod Fresh
mod Tests
use oraja_traning.Prelude.{
  ℕ, ◌+◌, ◌*◌, ◌%◌, String, Bool, true, false, not, ◌&&◌, ◌||◌, Option, none, some, is_some, List,
  [], ◌∷◌, ◌++◌, if◌then◌else◌, ltb, nat_beq, length, get_elem?, erase_idx, keep, any, map,
}
use oraja_traning.Prelude.Int.{ℤ, pos, ◌+ℤ◌, ltb_ℤ, leb_ℤ}
use oraja_traning.Prelude.Eq.{◌==◌, contains, string_eq, int_eq, pair_eq}
use oraja_traning.Prelude.Result.{Result, ok, err, ◌>>=◌, ◌>>◌, raise_if}
use oraja_traning.Prelude.Float.{Float, lit}
use oraja_traning.Db.Plays.{StoredPlay}
use oraja_traning.Plan.Experiment.{Arm, coach, control, Session, Target, TargetKind, TargetStatus}
use oraja_traning.Plan.Experiment.Assign.Candidates.{
  ChartCandidate, Identity, identity, Groups, AssignError, normalise_candidates,
}
use oraja_traning.Plan.Experiment.Assign.Queries.{
  Experiment, ScoreState, Assignment, Tables, intervals, find_experiment, find_assignment,
  of_experiment, session_charts, target_identity, reserved_charts, unused, practised,
  arm_candidates, pick, pick_transfers, new_target, new_targets,
}

-- `draw` is `_draw` (a SHA-256 digest as a number), `canonical` the JSON text of the candidates,
-- `digest` its SHA-256, `loads` reads such a text back, and `lower` is `str.lower`.
module _ (f : Float) (lower : String → String) (draw : String → String → String → ℕ)
    (canonical : Groups f.Num → String) (digest : String → String)
    (loads : String → Option (Groups f.Num)) where
  open f use {Num, truediv, mul}

  -- `_normalise_candidates(json.loads(…))`, whose failure is a `RuntimeError`.
  unfoldable pub stored_candidates : String → Result AssignError (Groups Num)
  stored_candidates text = elim (loads text) [
    | none ↦ err AssignError.stored_invalid
    | some values ↦ elim (normalise_candidates f lower values) [
      | ok groups ↦ ok groups
      | err e ↦ err AssignError.stored_invalid
    ]
  ]

  -- The branch for a session that is assigned already: its id, or the exception.
  unfoldable pub check_existing : Assignment Num → ℤ → String → Groups Num → Result AssignError ℕ
  unfolding stored_candidates
  check_existing a session_at input_hash submitted =
      let stored_hash =
        if a.input_candidate_hash == "" then a.candidate_hash else a.input_candidate_hash in
      raise_if (not (a.session.session_at == session_at)) AssignError.different_inputs
      >> (stored_candidates a.candidates_json >>= λ stored.
          raise_if
            (not (input_hash == stored_hash) && not (canonical submitted == canonical stored))
            AssignError.different_inputs
          >> ok a.session.id)

  -- The candidates that are left for a new session.
  unfoldable pub open_candidates : ℕ → Tables Num → Groups Num → Result AssignError (Groups Num)
  unfolding reserved_charts practised
  open_candidates experiment_id db submitted =
      let reserved = reserved_charts experiment_id db in
      let coach = unused reserved submitted.coach in
      let control = unused reserved submitted.control in
      let transfer = keep (λ c. not (practised db c)) (unused reserved submitted.transfer) in
      raise_if (nat_beq (length coach) 0) AssignError.arm_exhausted
      >> (raise_if (nat_beq (length control) 0) AssignError.arm_exhausted
          >> (raise_if (ltb (length transfer) (length intervals)) AssignError.few_transfers
              >> (raise_if
                    (any (λ c. contains (identity c) (map identity coach ++ map identity control))
                      transfer)
                    AssignError.transfer_in_arm
                  >> ok (record { coach = coach; control = control; transfer = transfer }))))

  -- `transfers[1]`
  abbrev pub first_transfer :
      List (ℕ × ChartCandidate Num) → Result AssignError (ChartCandidate Num)
  first_transfer [] = err AssignError.index_error
  first_transfer (t ∷ ts) = ok t.1

  -- The branch for a new session: its row and its targets.
  unfoldable pub assign_new :
      Experiment
      → String
      → ℤ
      → Groups Num
      → String
      → ℤ
      → Tables Num
      → Result AssignError (Tables Num × ℕ)
  unfolding open_candidates pick pick_transfers new_targets
  assign_new experiment session_key session_at submitted input_hash assigned db =
      let drawn : String → ℕ = draw experiment.seed session_key in
      let arm : Arm = if nat_beq (drawn "arm" % 2) 0 then coach else control in
      open_candidates experiment.id db submitted >>= λ candidates.
      pick (drawn "selection") (arm_candidates arm candidates) >>= λ selected.
      pick_transfers drawn intervals candidates.transfer >>= λ transfers.
      first_transfer transfers >>= λ transfer.
      let session : Session = record {
        id = db.next_session_id;
        experiment_id = experiment.id;
        session_key = session_key;
        session_at = session_at;
        arm = arm;
      } in
      let assignment : Assignment Num = record {
        session = session;
        arm_probability = truediv (pos 1) (pos 2);
        selection_probability =
            mul (truediv (pos 1) (pos 2))
              (truediv (pos 1) (pos (length (arm_candidates arm candidates))));
        candidate_hash = digest (canonical candidates);
        candidates_json = canonical candidates;
        selected = selected;
        transfer = transfer;
        assigned_at = assigned;
        input_candidate_hash = input_hash;
      } in
      let targets = new_targets db.next_target_id session.id session_at selected transfers in
      ok (
        record db {
          assignments = db.assignments ++ assignment ∷ [];
          next_session_id = db.next_session_id + 1;
          targets = db.targets ++ targets;
          next_target_id = db.next_target_id + length targets;
        },
        session.id,
      )

  -- The session is assigned already, or is new.
  unfoldable pub assign_found :
      Option (Assignment Num)
      → Experiment
      → String
      → ℤ
      → Groups Num
      → ℤ
      → Tables Num
      → Result AssignError (Tables Num × ℕ)
  unfolding check_existing assign_new
  assign_found (some a) experiment session_key session_at submitted assigned db =
      check_existing a session_at (digest (canonical submitted)) submitted >>= λ id. ok (db, id)
  assign_found none experiment session_key session_at submitted assigned db =
      assign_new experiment session_key session_at submitted (digest (canonical submitted)) assigned
        db

  -- The part inside the transaction, with what the query for the experiment finds.
  unfoldable pub assign_for :
      Option Experiment
      → String
      → ℤ
      → Groups Num
      → ℤ
      → Tables Num
      → Result AssignError (Tables Num × ℕ)
  unfolding assign_found
  assign_for none session_key session_at submitted assigned db = err AssignError.unknown_experiment
  assign_for (some e) session_key session_at submitted assigned db =
      raise_if (not (leb_ℤ e.starts_at session_at && ltb_ℤ session_at e.ends_at))
        AssignError.outside_period
      >> assign_found (find_assignment e.id session_key db.assignments) e session_key session_at
          submitted assigned db

  -- `assign_session`: the tables and the session's id, or the exception, which rolls back.
  unfoldable pub assign_session :
      ℕ → String → ℤ → Groups Num → ℤ → Tables Num → Result AssignError (Tables Num × ℕ)
  unfolding assign_for
  assign_session experiment_id session_key session_at candidate_sets assigned db =
      raise_if (session_key == "") AssignError.empty_key
      >> (normalise_candidates f lower candidate_sets >>= λ submitted.
          assign_for (find_experiment experiment_id db.experiments) session_key session_at submitted
            assigned db)
