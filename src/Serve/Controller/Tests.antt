-- ===== src/Serve/Controller/Tests.antt =====
-- A start, a stop in which the thread does not end in time, and a start that waits for it.
use oraja_traning.Prelude.{◌≡◌, refl, true, false, some, [], ◌∷◌}
use oraja_traning.Serve.Controller.{
  Controller, initial, Attempt, stop_thread, stop, launch, replace_worker, start, starts, stops,
  here, after,
}
use oraja_traning.Serve.Controller.Owned.{IsOwned, Reach-IsOwned}

abbrev smooth : Attempt
smooth = record { normalized = true; made = true; ended = true; threaded = true; started = true }

abbrev slow : Attempt
slow = record smooth { ended = false }

abbrev first : Controller
first = (start smooth initial).1

abbrev waiting : Controller
waiting = (stop false first).1

abbrev second : Controller
second = (start smooth waiting).1

refused : (start slow waiting).0 ≡ false
unfolding start stop stop_thread launch replace_worker
refused = refl

replaced : (second.thread ≡ some 1) × (second.running ≡ 1 ∷ [])
unfolding start stop stop_thread launch replace_worker
replaced = (refl, refl)

Reach-IsOwned_example : IsOwned second
Reach-IsOwned_example =
    Reach-IsOwned (after (after (after here (starts smooth)) (stops false)) (starts smooth))
