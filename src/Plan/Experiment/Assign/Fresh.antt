-- ===== src/Plan/Experiment/Assign/Fresh.antt =====
-- The charts that `assign_session` gives to a new session.
use mathlib.Core.Path.{subst}
use oraja_traning.Prelude.{
  ℕ, ◌%◌, ◌≡◌, refl, String, not, ◌&&◌, Option, none, some, List, [], ◌∷◌, ◌++◌, if◌then◌else◌,
  nat_beq, length, arith, inl, inr, ◌⊎◌, All,
}
use oraja_traning.Prelude.Int.{ℤ, ltb_ℤ, leb_ℤ}
use oraja_traning.Prelude.Eq.{◌==◌, string_eq, int_eq, pair_eq}
use oraja_traning.Prelude.Result.{ok, >>=-eq-ok, ok-injective, raise_if-ok}
use oraja_traning.Prelude.Float.{Float}
use oraja_traning.Plan.Experiment.{Arm, coach, control, Target}
use oraja_traning.Plan.Experiment.Assign.Candidates.{Groups, AssignError, normalise_candidates}
use oraja_traning.Plan.Experiment.Assign.Queries.{
  Experiment, Assignment, Tables, intervals, find_experiment, find_assignment, arm_candidates, pick,
  pick_transfers, new_targets,
}
use oraja_traning.Plan.Experiment.Assign.Drawn.{pick-All, pick_transfers-All}
use oraja_traning.Plan.Experiment.Assign.Found.{
  find_experiment-id, IsRowFor, HasNoRow, find_assignment-some, find_assignment-none,
  check_existing-ok,
}
use oraja_traning.Plan.Experiment.Assign.Open.{
  IsFresh, Unreserved, Untouched, new_targets-IsFresh, open_candidates-IsOpen,
}
use oraja_traning.Plan.Experiment.Assign.{
  open_candidates, check_existing, first_transfer, assign_new, assign_found, assign_for,
  assign_session,
}

module _ (f : Float) (lower : String → String) (draw : String → String → String → ℕ)
    (canonical : Groups f.Num → String) (digest : String → String)
    (loads : String → Option (Groups f.Num)) where
  open f use {Num}

  -- What a new session adds: its row, and eight fresh targets.
  pub record AddsFresh (experiment_id : ℕ) (key : String) (at : ℤ) (db db' : Tables Num) (id : ℕ)
      : Type 0 where
    pub added : Assignment Num
    pub stored : db'.assignments ≡ db.assignments ++ added ∷ []
    pub of_id : added.session.id ≡ id
    pub of_experiment : added.session.experiment_id ≡ experiment_id
    pub of_key : added.session.session_key ≡ key
    pub of_time : added.session.session_at ≡ at
    pub new : List (Target Num)
    pub appended : db'.targets ≡ db.targets ++ new
    pub eight : length new ≡ 8
    pub fresh : All (IsFresh experiment_id db) new

  assign_new-AddsFresh :
      (e : Experiment) (key : String) (at : ℤ) (submitted : Groups Num) (input_hash : String)
      (assigned : ℤ) (db db' : Tables Num) (id : ℕ)
      → assign_new f lower draw canonical digest loads e key at submitted input_hash assigned db
        ≡ ok (db', id)
      → AddsFresh e.id key at db db' id
  unfolding assign_new
  assign_new-AddsFresh e key at submitted input_hash assigned db db' id h =
      let drawn : String → ℕ = draw e.seed key in
      let arm : Arm = if nat_beq (drawn "arm" % 2) 0 then coach else control in
      let (groups, opened, h1) =
        >>=-eq-ok (open_candidates f lower draw canonical digest loads e.id db submitted) _ h in
      let is_open =
        open_candidates-IsOpen f lower draw canonical digest loads e.id db submitted groups
          opened in
      let (selected, picked, h2) =
        >>=-eq-ok (pick (drawn "selection") (arm_candidates arm groups)) _ h1 in
      let (transfers, popped, h3) =
        >>=-eq-ok (pick_transfers drawn intervals groups.transfer) _ h2 in
      let (transfer, first, h4) =
        >>=-eq-ok (first_transfer f lower draw canonical digest loads transfers) _ h3 in
      let free =
        pick-All (Unreserved e.id db) (drawn "selection") (arm_candidates arm groups) selected
          picked (is_open.arms_free arm) in
      let (four, untouched) =
        pick_transfers-All (Untouched e.id db) drawn intervals groups.transfer transfers popped
          is_open.transfer_free in
      let targets = new_targets db.next_target_id db.next_session_id at selected transfers in
      let (count, fresh) =
        new_targets-IsFresh e.id db db.next_target_id db.next_session_id at selected transfers free
          untouched in
      subst (λ (r : Tables Num × ℕ). AddsFresh e.id key at db r.0 r.1) (ok-injective h4)
        (record {
          added = _;
          stored = refl;
          of_id = refl;
          of_experiment = refl;
          of_key = refl;
          of_time = refl;
          new = targets;
          appended = refl;
          eight = omega (arith, count, four);
          fresh = fresh;
        })

  -- The session of the key was found: it has the time that is asked for, its id is returned, and
  -- nothing is changed.
  pub record IsFound (experiment_id : ℕ) (key : String) (at : ℤ) (db db' : Tables Num) (id : ℕ)
      : Type 0 where
    pub row : Assignment Num
    pub is_row : IsRowFor experiment_id key db.assignments row
    pub at_time : row.session.session_at ≡ at
    pub returned : row.session.id ≡ id
    pub unchanged : db' ≡ db

  -- What `assign_session` returns.
  abbrev pub IsAssigned : ℕ → String → ℤ → Tables Num → Tables Num → ℕ → Type 0
  IsAssigned experiment_id key at db db' id =
      IsFound experiment_id key at db db' id
      ⊎ (HasNoRow experiment_id key db.assignments × AddsFresh experiment_id key at db db' id)

  assign_found-AddsFresh :
      (a? : Option (Assignment Num)) (e : Experiment) (key : String) (at : ℤ)
      (submitted : Groups Num) (assigned : ℤ) (db db' : Tables Num) (id : ℕ)
      → find_assignment e.id key db.assignments ≡ a?
      → assign_found f lower draw canonical digest loads a? e key at submitted assigned db
        ≡ ok (db', id)
      → IsAssigned e.id key at db db' id
  unfolding assign_found
  assign_found-AddsFresh (some a) e key at submitted assigned db db' id query h =
      let (found, checked, done) =
        >>=-eq-ok
          (check_existing f lower draw canonical digest loads a at (digest (canonical submitted))
            submitted)
          _ h in
      let (at_time, same_id) =
        check_existing-ok f lower draw canonical digest loads a at (digest (canonical submitted))
          submitted found checked in
      subst (λ (r : Tables Num × ℕ). IsAssigned e.id key at db r.0 r.1) (ok-injective done)
        (inl (record {
          row = a;
          is_row = find_assignment-some e.id key db.assignments a query;
          at_time = at_time;
          returned = same_id;
          unchanged = refl;
        }))
  assign_found-AddsFresh none e key at submitted assigned db db' id query h = inr (
    find_assignment-none e.id key db.assignments query,
    assign_new-AddsFresh e key at submitted (digest (canonical submitted)) assigned db db' id h,
  )

  assign_for-AddsFresh :
      (experiment_id : ℕ) (e? : Option Experiment) (key : String) (at : ℤ) (submitted : Groups Num)
      (assigned : ℤ) (db db' : Tables Num) (id : ℕ)
      → ((e : Experiment) → e? ≡ some e → e.id ≡ experiment_id)
      → assign_for f lower draw canonical digest loads e? key at submitted assigned db
        ≡ ok (db', id)
      → IsAssigned experiment_id key at db db' id
  unfolding assign_for
  assign_for-AddsFresh experiment_id none key at submitted assigned db db' id same h = cc
  assign_for-AddsFresh experiment_id (some e) key at submitted assigned db db' id same h =
      let (_, h1) =
        raise_if-ok (not (leb_ℤ e.starts_at at && ltb_ℤ at e.ends_at)) AssignError.outside_period _
          h in
      subst (λ n. IsAssigned n key at db db' id) (same e refl)
        (assign_found-AddsFresh (find_assignment e.id key db.assignments) e key at submitted
          assigned db db' id refl h1)

  -- When `assign_session` returns, there are two cases. The experiment has a session of that key:
  -- then it has the time that is asked for, its id is returned, and the tables do not change. Or it
  -- has none: then a row with the experiment, the key, the time and the id returned is appended to
  -- the sessions, and eight targets are appended. Their charts were those of no session of the
  -- experiment, selected, for transfer or of a target. Of the transfer charts, the score state has
  -- no play count or clear, and the plays outside the courses have no play count, clear or result.
  pub assign_session-AddsFresh :
      (experiment_id : ℕ) (key : String) (at : ℤ) (sets : Groups Num) (assigned : ℤ)
      (db db' : Tables Num) (id : ℕ)
      → assign_session f lower draw canonical digest loads experiment_id key at sets assigned db
        ≡ ok (db', id)
      → IsAssigned experiment_id key at db db' id
  unfolding assign_session
  assign_session-AddsFresh experiment_id key at sets assigned db db' id h =
      let (_, h1) = raise_if-ok (key == "") AssignError.empty_key _ h in
      let (submitted, normal, h2) = >>=-eq-ok (normalise_candidates f lower sets) _ h1 in
      assign_for-AddsFresh experiment_id (find_experiment experiment_id db.experiments) key at
        submitted assigned db db' id (find_experiment-id experiment_id db.experiments) h2
