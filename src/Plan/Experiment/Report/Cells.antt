-- ===== src/Plan/Experiment/Report/Cells.antt =====
-- Every resolved target counts in one cell of the report.
use oraja_traning.Prelude.{
  ℕ, ◌+◌, ◌≡◌, ◌∙◌, refl, ◌&&◌, List, [], ◌∷◌, if◌then◌else◌, nat_beq, length, sum_by, arith, All,
  ◌⊎◌,
}
use oraja_traning.Prelude.Float.{Float}
use oraja_traning.Plan.Experiment.{coach, control, TargetKind, retention, transfer}
use oraja_traning.Plan.Experiment.Report.{
  Observation, Cell, observations, arm_report, cell, report_cells, same_kind,
}

-- The interval is one that targets are made for, as the table checks.
abbrev pub HasInterval : {F : Type 0} → Observation F → Type 0
HasInterval o =
    (o.interval_days ≡ 1)
    ⊎ ((o.interval_days ≡ 3) ⊎ ((o.interval_days ≡ 7) ⊎ (o.interval_days ≡ 14)))

module _ (f : Float) (square : f.Num → f.Num) where
  open f use {Num}

  abbrev pub counted : List (Cell Num) → ℕ
  counted cells = sum_by (λ c. c.coach_arm.n + c.control_arm.n) cells

  -- Both arms of a kind and an interval.
  in_arms : TargetKind → ℕ → List (Observation Num) → ℕ
  unfolding observations
  in_arms kind interval rows =
      length (observations f square kind interval coach rows)
      + length (observations f square kind interval control rows)

  in_intervals : TargetKind → List (Observation Num) → ℕ
  unfolding in_arms
  in_intervals kind rows =
      in_arms kind 1 rows + in_arms kind 3 rows + in_arms kind 7 rows + in_arms kind 14 rows

  in_arms-cons :
      (kind : TargetKind) (interval : ℕ) (o : Observation Num) (rows : List (Observation Num))
      → in_arms kind interval (o ∷ rows)
        ≡ (if same_kind o.target_kind kind && nat_beq o.interval_days interval then 1 else 0)
          + in_arms kind interval rows
  unfolding in_arms observations
  in_arms-cons kind interval o rows = ground arith

  in_intervals-cons :
      (kind : TargetKind) (o : Observation Num) (rows : List (Observation Num))
      → HasInterval o
      → in_intervals kind (o ∷ rows)
        ≡ (if same_kind o.target_kind kind then 1 else 0) + in_intervals kind rows
  unfolding in_intervals
  in_intervals-cons kind o rows h = ground (
    arith,
    h,
    in_arms-cons kind 1 o rows,
    in_arms-cons kind 3 o rows,
    in_arms-cons kind 7 o rows,
    in_arms-cons kind 14 o rows,
  )

  one_kind :
      (o : Observation Num)
      → (if same_kind o.target_kind retention then 1 else 0)
          + (if same_kind o.target_kind transfer then 1 else 0)
        ≡ 1
  one_kind o = ground arith

  in_kinds :
      (rows : List (Observation Num))
      → All HasInterval rows
      → in_intervals retention rows + in_intervals transfer rows ≡ length rows
  unfolding in_intervals in_arms observations
  in_kinds [] h = refl
  in_kinds (o ∷ rows) h = omega (
    arith,
    in_kinds rows h.1,
    in_intervals-cons retention o rows h.0,
    in_intervals-cons transfer o rows h.0,
    one_kind o,
  )

  cells_are :
      (minimum : ℕ) (rows : List (Observation Num))
      → counted (report_cells f square minimum rows)
        ≡ in_intervals retention rows + in_intervals transfer rows
  unfolding report_cells cell arm_report in_intervals in_arms
  cells_are minimum rows = omega arith

  -- The cells of the report count every resolved target once, when each of them has one of the
  -- four intervals.
  pub report_cells-counted :
      (minimum : ℕ) (rows : List (Observation Num))
      → All HasInterval rows
      → counted (report_cells f square minimum rows) ≡ length rows
  report_cells-counted minimum rows h = cells_are minimum rows ∙ in_kinds rows h
