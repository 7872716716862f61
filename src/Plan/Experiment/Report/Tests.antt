-- ===== src/Plan/Experiment/Report/Tests.antt =====
-- The report on two resolved targets, one of each arm.
use oraja_traning.Prelude.{
  ℕ, ◌*◌, ◌≡◌, refl, Bool, true, false, List, [], ◌∷◌, map, length, inl, inr,
}
use oraja_traning.Samples.{thousandths}
use oraja_traning.Plan.Experiment.{Arm, coach, control, retention}
use oraja_traning.Plan.Experiment.Report.{Observation, report_cells}
use oraja_traning.Plan.Experiment.Report.Cells.{counted, report_cells-counted}

abbrev observed : Arm → Observation ℕ
observed arm = record {
  arm = arm;
  target_kind = retention;
  interval_days = 3;
  p_pred = 700;
  outcome = 1;
}

abbrev rows : List (Observation ℕ)
rows = observed coach ∷ observed control ∷ []

abbrev square : ℕ → ℕ
square n = n * n

estimable_cells :
    map {B = Bool} (λ c. c.estimable) (report_cells thousandths square 1 rows)
    ≡ false ∷ true ∷ false ∷ false ∷ false ∷ false ∷ false ∷ false ∷ []
unfolding report_cells
estimable_cells = refl

report_cells-counted_example :
    counted thousandths square (report_cells thousandths square 1 rows) ≡ length rows
report_cells-counted_example =
    report_cells-counted thousandths square 1 rows (inr (inl refl), (inr (inl refl), tt))
