-- ===== src/Plan/Experiment/Assign/Candidates.antt =====
-- The candidates of plan/experiment.py and `_normalise_candidates`.
use oraja_traning.Prelude.{
  String, Bool, true, false, not, ◌&&◌, ◌||◌, List, [], ◌∷◌, if◌then◌else◌, nat_beq, length, any,
  map,
}
use oraja_traning.Prelude.Int.{ℤ, ltb_ℤ}
use oraja_traning.Prelude.Eq.{◌==◌, contains, string_eq, int_eq, pair_eq}
use oraja_traning.Prelude.Result.{Result, ok, ◌>>=◌, ◌>>◌, raise_if}
use oraja_traning.Prelude.Float.{Float, lit}
use oraja_traning.Prelude.Text.{codes}
use oraja_traning.Tables.Match.{all_hex, codes_lt}

-- `Candidate` of the experiment.
pub record ChartCandidate (F : Type 0) : Type 0 where
  pub sha256 : String
  pub mode : ℤ
  pub p_pred : F

abbrev pub Identity : Type 0
Identity = String × ℤ

abbrev pub identity : {F : Type 0} → ChartCandidate F → Identity
identity c = (c.sha256, c.mode)

pub record Groups (F : Type 0) : Type 0 where
  pub coach : List (ChartCandidate F)
  pub control : List (ChartCandidate F)
  pub transfer : List (ChartCandidate F)

-- The exceptions of `assign_session`; `index_error` is Python's own.
pub data AssignError : Type 0 where
  empty_key bad_sha256 bad_probability empty_group duplicate_charts arms_overlap : AssignError
  unknown_experiment outside_period different_inputs stored_invalid : AssignError
  arm_exhausted few_transfers transfer_in_arm index_error : AssignError

-- Two of the identities are the same.
abbrev pub repeats : List Identity → Bool
repeats [] = false
repeats (i ∷ is) = contains i is || repeats is

module _ (f : Float) (lower : String → String) where
  open f use {Num, le, lt}

  -- `_candidate`, on values of the right types.
  unfoldable pub check_candidate : ChartCandidate Num → Result AssignError (ChartCandidate Num)
  check_candidate c = do
    let sha256 : String = lower c.sha256
    raise_if (not (nat_beq (length (codes sha256)) 64 && all_hex (codes sha256)))
        AssignError.bad_sha256
    raise_if (not (le (lit f 0 1) c.p_pred && le c.p_pred (lit f 1 1))) AssignError.bad_probability
    ok (record c { sha256 = sha256 })

  unfoldable pub check_each :
      List (ChartCandidate Num) → Result AssignError (List (ChartCandidate Num))
  unfolding check_candidate
  check_each [] = ok []
  check_each (c ∷ cs) = check_candidate c >>= λ c'. check_each cs >>= λ cs'. ok (c' ∷ cs')

  -- `(a.sha256, a.mode, a.p_pred) < (b.sha256, b.mode, b.p_pred)`
  abbrev pub candidate_lt : ChartCandidate Num → ChartCandidate Num → Bool
  candidate_lt a b =
      codes_lt (codes a.sha256) (codes b.sha256)
      || (a.sha256 == b.sha256
          && (ltb_ℤ a.mode b.mode || (a.mode == b.mode && lt a.p_pred b.p_pred)))

  unfoldable pub insert_candidate :
      ChartCandidate Num → List (ChartCandidate Num) → List (ChartCandidate Num)
  insert_candidate c [] = c ∷ []
  insert_candidate c (d ∷ ds) = if candidate_lt d c then d ∷ insert_candidate c ds else c ∷ d ∷ ds

  unfoldable pub sort_candidates : List (ChartCandidate Num) → List (ChartCandidate Num)
  unfolding insert_candidate
  sort_candidates [] = []
  sort_candidates (c ∷ cs) = insert_candidate c (sort_candidates cs)

  abbrev no_candidates : List (ChartCandidate Num) → Bool
  no_candidates [] = true
  no_candidates (c ∷ cs) = false

  -- One round of the loop over the groups.
  unfoldable pub normalise_group :
      List (ChartCandidate Num) → Result AssignError (List (ChartCandidate Num))
  unfolding check_each sort_candidates
  normalise_group values = check_each values >>= λ cs.
      raise_if (no_candidates cs) AssignError.empty_group
      >> (raise_if (repeats (map identity cs)) AssignError.duplicate_charts
          >> ok (sort_candidates cs))

  -- `_normalise_candidates`
  unfoldable pub normalise_candidates : Groups Num → Result AssignError (Groups Num)
  unfolding normalise_group
  normalise_candidates values = normalise_group values.coach >>= λ coach.
      normalise_group values.control >>= λ control. normalise_group values.transfer >>= λ transfer.
      raise_if (any (λ c. contains (identity c) (map identity control)) coach)
        AssignError.arms_overlap
      >> ok (record { coach = coach; control = control; transfer = transfer })
