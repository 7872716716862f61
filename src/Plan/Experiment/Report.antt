-- ===== src/Plan/Experiment/Report.antt =====
-- `report_experiment` of plan/experiment.py: the resolved targets by kind, interval and arm.
pub mod Cells
mod Tests
use oraja_traning.Prelude.{
  ℕ, ◌+◌, Bool, true, false, ◌&&◌, Option, none, some, List, [], ◌∷◌, ◌++◌, if◌then◌else◌, leb,
  nat_beq, keep, length, map, sum_by,
}
use oraja_traning.Prelude.Int.{ℤ, pos}
use oraja_traning.Prelude.Float.{Float, lit}
use oraja_traning.Plan.Experiment.{Arm, coach, control, TargetKind, retention, transfer}

-- A row of the first query; `outcome` of a resolved target is 0 or 1.
pub record Observation (F : Type 0) : Type 0 where
  pub arm : Arm
  pub target_kind : TargetKind
  pub interval_days : ℕ
  pub p_pred : F
  pub outcome : ℕ

pub record ArmReport (F : Type 0) : Type 0 where
  pub n : ℕ
  pub success_rate : Option F
  pub brier : Option F

pub record Cell (F : Type 0) : Type 0 where
  pub target_kind : TargetKind
  pub interval_days : ℕ
  pub estimable : Bool
  pub coach_arm : ArmReport F
  pub control_arm : ArmReport F
  pub success_difference : Option F
  pub brier_difference : Option F

abbrev pub same_arm : Arm → Arm → Bool
same_arm coach coach = true
same_arm coach control = false
same_arm control coach = false
same_arm control control = true

abbrev pub same_kind : TargetKind → TargetKind → Bool
same_kind retention retention = true
same_kind retention transfer = false
same_kind transfer retention = false
same_kind transfer transfer = true

abbrev pub interval_days : List ℕ
interval_days = 1 ∷ 3 ∷ 7 ∷ 14 ∷ []

-- `square` is `x ** 2` of a float.
module _ (f : Float) (square : f.Num → f.Num) where
  open f use {Num, of_int, truediv, add, sub, div}

  -- `grouped.get((kind, interval, arm), [])`
  unfoldable pub observations :
      TargetKind → ℕ → Arm → List (Observation Num) → List (Observation Num)
  observations kind interval arm rows =
      keep
        (λ o.
          same_kind o.target_kind kind && nat_beq o.interval_days interval && same_arm o.arm arm)
        rows

  -- `sum((probability - outcome) ** 2 for probability, outcome in observations)`,
  -- added from the left to `total`.
  unfoldable pub squares : Num → List (Observation Num) → Num
  squares total [] = total
  squares total (o ∷ os) = squares (add total (square (sub o.p_pred (of_int (pos o.outcome))))) os

  unfoldable pub arm_report : List (Observation Num) → ArmReport Num
  unfolding squares
  arm_report os =
      let count = length os in
      record {
        n = count;
        success_rate =
            if nat_beq count 0
            then none
            else some (truediv (pos (sum_by (λ o. o.outcome) os)) (pos count));
        brier =
            if nat_beq count 0
            then none
            else some (div (squares (lit f 0 1) os) (of_int (pos count)));
      }

  -- `a - b` of two rates that are there.
  abbrev pub difference : Option Num → Option Num → Option Num
  difference none b = none
  difference (some a) none = none
  difference (some a) (some b) = some (sub a b)

  unfoldable pub cell : ℕ → List (Observation Num) → TargetKind → ℕ → Cell Num
  unfolding observations arm_report
  cell minimum rows kind interval =
      let in_coach = arm_report (observations kind interval coach rows) in
      let in_control = arm_report (observations kind interval control rows) in
      let conclusive = leb minimum in_coach.n && leb minimum in_control.n in
      record {
        target_kind = kind;
        interval_days = interval;
        estimable = conclusive;
        coach_arm = in_coach;
        control_arm = in_control;
        success_difference =
            if conclusive then difference in_coach.success_rate in_control.success_rate else none;
        brier_difference = if conclusive then difference in_coach.brier in_control.brier else none;
      }

  -- The list `results` of `report_experiment`.
  unfoldable pub report_cells : ℕ → List (Observation Num) → List (Cell Num)
  unfolding cell
  report_cells minimum rows =
      map (cell minimum rows retention) interval_days
      ++ map (cell minimum rows transfer) interval_days
