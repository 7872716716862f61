-- ===== src/Plan/Experiment/Assign/Open.antt =====
-- The candidates that `assign_session` leaves for a new session, and the targets it makes of them.
use mathlib.Core.Path.{subst}
use oraja_traning.Prelude.{
  ℕ, ◌+◌, ◌*◌, ◌≡◌, refl, String, true, false, not, Option, List, [], ◌∷◌, ◌++◌, nat_beq, length,
  keep, any, map, arith, ltb, All, All-keep, All-map, keep-All,
}
use oraja_traning.Prelude.Int.{ℤ}
use oraja_traning.Prelude.Eq.{contains, string_eq, int_eq, pair_eq}
use oraja_traning.Prelude.Result.{ok, ok-injective, raise_if-ok}
use oraja_traning.Prelude.Float.{Float}
use oraja_traning.Plan.Experiment.{Arm, Target, is_transfer}
use oraja_traning.Plan.Experiment.Assign.Candidates.{ChartCandidate, identity, Groups, AssignError}
use oraja_traning.Plan.Experiment.Assign.Queries.{
  Tables, intervals, target_identity, reserved_charts, unused, practised, arm_candidates,
  new_targets,
}
use oraja_traning.Plan.Experiment.Assign.Untaken.{
  IsFree, IsUnpractised, reserved_charts-IsFree, practised-IsUnpractised,
}
use oraja_traning.Plan.Experiment.Assign.{open_candidates}

-- No session of the experiment has the target's chart, and a transfer chart is unpractised.
pub record IsFresh {F : Type 0} (experiment_id : ℕ) (db : Tables F) (t : Target F) : Type 0 where
  pub free : IsFree experiment_id db (target_identity t)
  pub unpractised : is_transfer t.target_kind ≡ true → IsUnpractised db t.sha256 t.mode

module _ {F : Type 0} (experiment_id : ℕ) (db : Tables F) where
  abbrev pub Unreserved : ChartCandidate F → Type 0
  Unreserved c = contains (identity c) (reserved_charts experiment_id db) ≡ false

  abbrev pub Untouched : ChartCandidate F → Type 0
  Untouched c = Unreserved c × (practised db c ≡ false)

  unused-All :
      (cs : List (ChartCandidate F)) → All Unreserved (unused (reserved_charts experiment_id db) cs)
  unused-All cs =
      All-map _ Unreserved _ (λ c open_. ground (arith, open_))
        (keep-All (λ c. not (contains (identity c) (reserved_charts experiment_id db))) cs)

  unplayed_only :
      (cs : List (ChartCandidate F))
      → All Unreserved cs
      → All Untouched (keep (λ c. not (practised db c)) cs)
  unplayed_only cs h =
      All-map _ Untouched _ (λ c both. (both.0, ground (arith, both.1)))
        (All-keep Unreserved (λ c. not (practised db c)) cs h)

  pub new_targets-IsFresh :
      (id session_id : ℕ) (session_at : ℤ) (selected : ChartCandidate F)
      (ts : List (ℕ × ChartCandidate F))
      → Unreserved selected
      → All (λ t. Untouched t.1) ts
      → (length (new_targets id session_id session_at selected ts) ≡ 2 * length ts)
        × All (IsFresh experiment_id db) (new_targets id session_id session_at selected ts)
  unfolding new_targets
  new_targets-IsFresh id session_id session_at selected [] free h = (refl, tt)
  new_targets-IsFresh id session_id session_at selected ((days, c) ∷ ts) free h =
      let (count, rest) = new_targets-IsFresh (id + 2) session_id session_at selected ts free h.1 in
      (
        omega (arith, count),
        (
          record {
            free = reserved_charts-IsFree experiment_id db (identity selected) free;
            unpractised = λ other. absurd (ground arith);
          },
          (
            record {
              free = reserved_charts-IsFree experiment_id db (identity c) h.0.0;
              unpractised = λ other. practised-IsUnpractised db c h.0.1;
            },
            rest,
          ),
        ),
      )

module _ (f : Float) (lower : String → String) (draw : String → String → String → ℕ)
    (canonical : Groups f.Num → String) (digest : String → String)
    (loads : String → Option (Groups f.Num)) where
  open f use {Num}

  -- What is left for a new session is fresh.
  pub record IsOpen (experiment_id : ℕ) (db : Tables Num) (groups : Groups Num) : Type 0 where
    pub arms_free : (arm : Arm) → All (Unreserved experiment_id db) (arm_candidates arm groups)
    pub transfer_free : All (Untouched experiment_id db) groups.transfer

  pub open_candidates-IsOpen :
      (experiment_id : ℕ) (db : Tables Num) (submitted groups : Groups Num)
      → open_candidates f lower draw canonical digest loads experiment_id db submitted ≡ ok groups
      → IsOpen experiment_id db groups
  unfolding open_candidates
  open_candidates-IsOpen experiment_id db submitted groups h =
      let reserved = reserved_charts experiment_id db in
      let coach = unused reserved submitted.coach in
      let control = unused reserved submitted.control in
      let transfer = keep (λ c. not (practised db c)) (unused reserved submitted.transfer) in
      let overlaps =
        any (λ c. contains (identity c) (map identity coach ++ map identity control)) transfer in
      let (_, h1) = raise_if-ok (nat_beq (length coach) 0) AssignError.arm_exhausted _ h in
      let (_, h2) = raise_if-ok (nat_beq (length control) 0) AssignError.arm_exhausted _ h1 in
      let (_, h3) =
        raise_if-ok (ltb (length transfer) (length intervals)) AssignError.few_transfers _ h2 in
      let (_, h4) = raise_if-ok overlaps AssignError.transfer_in_arm _ h3 in
      subst (IsOpen experiment_id db) (ok-injective h4) (record {
        arms_free = elim [
          | Arm.coach ↦ unused-All experiment_id db submitted.coach
          | Arm.control ↦ unused-All experiment_id db submitted.control
        ];
        transfer_free =
            unplayed_only experiment_id db _ (unused-All experiment_id db submitted.transfer);
      })
