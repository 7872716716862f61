-- ===== src/Plan/Experiment/Assign/Found.antt =====
-- What the queries of `assign_session` find: the experiment, and a session that is assigned already.
use mathlib.Core.Path.{subst}
use mathlib.Core.Option.{some-injective}
use oraja_traning.Prelude.{
  ℕ, suc, get_elem?, ◌≢◌, refl, nat_beq, Bool-cases, inl, inr, String, if◌then◌else◌, ◌≡◌, not,
  ◌&&◌, Option, none, some, List, [], ◌∷◌, arith, All,
}
use oraja_traning.Prelude.Int.{ℤ}
use oraja_traning.Prelude.Eq.{◌==◌, string_eq, int_eq, pair_eq}
use oraja_traning.Prelude.Result.{ok, >>=-eq-ok, ok-injective, raise_if-ok}
use oraja_traning.Prelude.Float.{Float}
use oraja_traning.Plan.Experiment.Assign.Candidates.{Groups, AssignError}
use oraja_traning.Plan.Experiment.Assign.Queries.{
  Experiment, Assignment, find_experiment, find_assignment,
}
use oraja_traning.Plan.Experiment.Assign.{stored_candidates, check_existing}

pub find_experiment-id :
    (id : ℕ) (es : List Experiment) (e : Experiment) → find_experiment id es ≡ some e → e.id ≡ id
find_experiment-id id [] e h = cc
find_experiment-id id (x ∷ es) e h = elim (Bool-cases (nat_beq x.id id)) [
  | inl same ↦ ground arith
  | inr other ↦ find_experiment-id id es e (ground arith)
]

module _ {F : Type 0} (experiment_id : ℕ) (key : String) where
  -- A row of the table, for the experiment and the key.
  pub record IsRowFor (rows : List (Assignment F)) (a : Assignment F) : Type 0 where
    pub stored : (i : ℕ) × (get_elem? rows i ≡ some a)
    pub for_experiment : a.session.experiment_id ≡ experiment_id
    pub for_key : a.session.session_key ≡ key

  -- No row of the table is for the experiment and the key.
  abbrev pub HasNoRow : List (Assignment F) → Type 0
  HasNoRow rows =
      All (λ a. a.session.experiment_id ≡ experiment_id → a.session.session_key ≢ key) rows

  pub find_assignment-some :
      (rows : List (Assignment F)) (a : Assignment F)
      → find_assignment experiment_id key rows ≡ some a
      → IsRowFor rows a
  find_assignment-some [] a h = cc
  find_assignment-some (r ∷ rows) a h =
      elim (Bool-cases
        (nat_beq r.session.experiment_id experiment_id && r.session.session_key == key)) [
          | inl here ↦ subst (IsRowFor (r ∷ rows)) (some-injective r a (ground arith)) (record {
            stored = (0, refl);
            for_experiment = ground arith;
            for_key = ground (arith, string_eq.beq_iff r.session.session_key key);
          })
          | inr other ↦
              let later = find_assignment-some rows a (ground arith) in
              let (i, at_i) = later.stored in
              record {
                stored = (suc i, at_i);
                for_experiment = later.for_experiment;
                for_key = later.for_key;
              }
        ]

  pub find_assignment-none :
      (rows : List (Assignment F)) → find_assignment experiment_id key rows ≡ none → HasNoRow rows
  find_assignment-none [] h = tt
  find_assignment-none (r ∷ rows) h = (
    (λ same_experiment same_key.
        let tested = (string_eq.beq_iff r.session.session_key key).1 same_key in
        absurd (ground arith)),
    find_assignment-none rows (ground arith),
  )

module _ (f : Float) (lower : String → String) (draw : String → String → String → ℕ)
    (canonical : Groups f.Num → String) (digest : String → String)
    (loads : String → Option (Groups f.Num)) where
  open f use {Num}

  pub check_existing-ok :
      (a : Assignment Num) (at : ℤ) (input_hash : String) (submitted : Groups Num) (id : ℕ)
      → check_existing f lower draw canonical digest loads a at input_hash submitted ≡ ok id
      → (a.session.session_at ≡ at) × (a.session.id ≡ id)
  unfolding check_existing
  check_existing-ok a at input_hash submitted id h =
      let stored_hash =
        if a.input_candidate_hash == "" then a.candidate_hash else a.input_candidate_hash in
      let (same, h1) =
        raise_if-ok (not (a.session.session_at == at)) AssignError.different_inputs _ h in
      let (stored, _, h2) =
        >>=-eq-ok (stored_candidates f lower draw canonical digest loads a.candidates_json) _ h1 in
      let (_, h3) =
        raise_if-ok
          (not (input_hash == stored_hash) && not (canonical submitted == canonical stored))
          AssignError.different_inputs _ h2 in
      (ground (arith, same, int_eq.beq_iff a.session.session_at at), ok-injective h3)
