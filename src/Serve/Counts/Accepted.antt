-- ===== src/Serve/Counts/Accepted.antt =====
-- The counts that are read are fit to be sent.
use mathlib.Core.Path.{subst}
use oraja_traning.Prelude.{ℕ, String, ◌≡◌, refl, false, some, List, [], ◌∷◌, arith, map}
use oraja_traning.Prelude.Int.{ℤ, pos, ltb_ℤ, -ℤ_parts, ◌≤ℤ◌}
use oraja_traning.Prelude.Eq.{◌==◌, string_eq, int_eq}
use oraja_traning.Prelude.Result.{ok, ok-injective}
use oraja_traning.Serve.Monitor.{ProgressCounts}
use oraja_traning.Serve.Counts.{
  PlayerRow, judged_total, today_judged, read_progress_counts, no_subset, check_snapshot_counts,
}

today-subset :
    (latest_day current_day : ℤ) (latest : ℕ) (totals : List ℕ)
    → no_subset (pos latest) (today_judged latest_day current_day (latest ∷ totals)) ≡ false
unfolding today_judged
today-subset latest_day current_day latest [] = ground arith
today-subset latest_day current_day latest (before ∷ []) =
    ground (arith, -ℤ_parts (pos latest) (pos before))
today-subset latest_day current_day latest (before ∷ t ∷ totals) = ground arith

not_negative : (n : ℕ) → ltb_ℤ (pos n) (pos 0) ≡ false
not_negative n = ground arith

-- Counts that are read from the rows of the player table, for any calendar and any time, pass the
-- checks of the sender when there is a token: the total is not negative, and the notes of today, if
-- they are known, are neither negative nor more than the total.
pub read_progress_counts-accepted :
    (progress_date : ℤ → ℤ) (now : ℤ) (rows : List PlayerRow) (token : String) {c : ProgressCounts}
    → read_progress_counts progress_date now rows ≡ ok c
    → (token == "") ≡ false
    → (check_snapshot_counts c token ≡ ok tt)
      × (pos 0 ≤ℤ c.0)
      × ((today : ℤ) → c.1 ≡ some today → (pos 0 ≤ℤ today) × (today ≤ℤ c.0))
unfolding read_progress_counts check_snapshot_counts
read_progress_counts-accepted progress_date now [] token h filled = cc
read_progress_counts-accepted progress_date now (row ∷ rows) token {c} h filled =
    let subset =
      today-subset (progress_date row.0) (progress_date now) (judged_total row)
        (map judged_total rows) in
    subst
      (λ (c : ProgressCounts).
        (check_snapshot_counts c token ≡ ok tt)
        × (pos 0 ≤ℤ c.0)
        × ((today : ℤ) → c.1 ≡ some today → (pos 0 ≤ℤ today) × (today ≤ℤ c.0)))
      (ok-injective h)
      (
        rw (not_negative (judged_total row), subset, filled) refl,
        omega arith,
        (λ today e.
            let known : no_subset (pos (judged_total row)) (some today) ≡ false =
              subst (λ o. no_subset (pos (judged_total row)) o ≡ false) e subset in
            ground arith),
      )
