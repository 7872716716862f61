-- ===== src/Serve/Counts/Tests.antt =====
-- Two rows of the player table, the later one of today.
use oraja_traning.Prelude.{◌≡◌, refl, List, [], ◌∷◌, none, some}
use oraja_traning.Prelude.Int.{ℤ, pos, ◌≤ℤ◌, ◌-ℤ◌}
use oraja_traning.Prelude.Result.{ok}
use oraja_traning.Serve.Monitor.{ProgressCounts}
use oraja_traning.Serve.Counts.{PlayerRow, read_progress_counts, check_snapshot_counts}
use oraja_traning.Serve.Counts.Accepted.{read_progress_counts-accepted}

abbrev rows : List PlayerRow
rows =
    (pos 200, some (pos 70) ∷ none ∷ some (pos 5) ∷ []) ∷ (pos 100, some (pos 40) ∷ none ∷ []) ∷ []

abbrev counts : ProgressCounts
counts = (pos 75, some (pos 35))

read : read_progress_counts (λ t. t) (pos 200) rows ≡ ok counts
unfolding read_progress_counts ◌-ℤ◌
read = refl

read_progress_counts-accepted_example :
    (check_snapshot_counts counts "t" ≡ ok tt)
    × (pos 0 ≤ℤ pos 75)
    × ((today : ℤ) → counts.1 ≡ some today → (pos 0 ≤ℤ today) × (today ≤ℤ pos 75))
read_progress_counts-accepted_example =
    read_progress_counts-accepted (λ t. t) (pos 200) rows "t" read refl
