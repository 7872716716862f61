-- ===== src/Serve/Counts.antt =====
-- serve/progress_counts.py, from the two latest rows of the player table, and the checks of
-- serve/progress_sender.py before it posts. The calendar of Asia/Tokyo is a parameter.
pub mod Accepted
mod Tests
use oraja_traning.Prelude.{
  ℕ, ◌+◌, ◌-◌, String, Bool, true, false, not, ◌&&◌, ◌||◌, Option, none, some, List, [], ◌∷◌,
  if◌then◌else◌, nat_beq, length, sum_by, map,
}
use oraja_traning.Prelude.Int.{ℤ, pos, ltb_ℤ, max0, ◌-ℤ◌}
use oraja_traning.Prelude.Eq.{◌==◌, string_eq, int_eq}
use oraja_traning.Prelude.Result.{Result, ok, err, ◌>>=◌, ◌>>◌, raise_if}
use oraja_traning.Collect.Normalize.{or_zero}
use oraja_traning.Serve.Monitor.{ProgressCounts}

-- A row of the player table: its date and its judgement columns.
abbrev pub PlayerRow : Type 0
PlayerRow = ℤ × List (Option ℤ)

-- RuntimeError for a table without rows, and the three ValueErrors of the sender.
pub data CountError : Type 0 where
  empty_table bad_current bad_today no_token : CountError

-- `sum(max(0, int(value or 0)) for value in row[1:])`
unfoldable pub judged_total : PlayerRow → ℕ
judged_total row = sum_by (λ (value : Option ℤ). max0 (or_zero value)) row.1

-- `today`: `totals` are those of the latest row and of the row before it, if there is one.
unfoldable pub today_judged : ℤ → ℤ → List ℕ → Option ℤ
today_judged latest_day current_day (latest ∷ before ∷ []) =
    if ltb_ℤ latest_day current_day
    then some (pos 0)
    else if latest_day == current_day
    then some (pos (max0 (pos latest -ℤ pos before)))
    else none
today_judged latest_day current_day totals =
    if ltb_ℤ latest_day current_day then some (pos 0) else none

-- `progress_date` gives a day as its number.
unfoldable pub read_progress_counts :
    (ℤ → ℤ) → ℤ → List PlayerRow → Result CountError ProgressCounts
unfolding today_judged judged_total
read_progress_counts progress_date now [] = err CountError.empty_table
read_progress_counts progress_date now (row ∷ rows) =
    let totals = map judged_total (row ∷ rows) in
    ok (pos (judged_total row), today_judged (progress_date row.0) (progress_date now) totals)

-- `today_judged is not None and (today_judged < 0 or today_judged > current_judged)`
abbrev pub no_subset : ℤ → Option ℤ → Bool
no_subset current none = false
no_subset current (some today) = ltb_ℤ today (pos 0) || ltb_ℤ current today

-- The checks of `send_progress_snapshot`.
unfoldable pub check_snapshot_counts : ProgressCounts → String → Result CountError (Unit {0})
check_snapshot_counts counts token = do
  raise_if (ltb_ℤ counts.0 (pos 0)) CountError.bad_current
  raise_if (no_subset counts.0 counts.1) CountError.bad_today
  raise_if (token == "") CountError.no_token
