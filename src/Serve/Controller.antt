-- ===== src/Serve/Controller.antt =====
-- ProgressMonitorController of serve/progress_monitor.py. A worker and its thread have one number.
-- Whether a call of the parts that are not the controller's own succeeds, and whether a thread ends
-- while it is waited for, are inputs of an operation.
pub mod Owned
mod Tests
use oraja_traning.Prelude.{
  ℕ, suc, Bool, true, false, not, Option, none, some, List, [], ◌∷◌, if◌then◌else◌, nat_beq, keep,
  is_some,
}
use oraja_traning.Prelude.Eq.{Eq, ◌==◌, nat_eq, contains}

-- The two fields, and the threads that run, the workers that have been told to stop and the number
-- of the next worker.
pub record Controller : Type 0 where
  pub worker : Option ℕ
  pub thread : Option ℕ
  pub running : List ℕ
  pub stopping : List ℕ
  pub next : ℕ

abbrev pub initial : Controller
initial = record { worker = none; thread = none; running = []; stopping = []; next = 0 }

-- `self._worker.stop()`, if there is a worker.
abbrev pub tell : Option ℕ → List ℕ → List ℕ
tell none stopping = stopping
tell (some w) stopping = w ∷ stopping

-- A thread ends.
abbrev pub without : ℕ → List ℕ → List ℕ
without t running = keep (λ s. not (nat_beq s t)) running

-- The threads that run after `join`.
abbrev pub joined : Bool → ℕ → List ℕ → List ℕ
joined ended t running = if ended then without t running else running

abbrev pub forget : Controller → Controller
forget c = record c { worker = none; thread = none }

-- `stop`, with whether it returns: `ended` says that the thread ends within the timeout.
unfoldable pub stop_thread : Bool → Controller → Option ℕ → Bool × Controller
stop_thread ended c none = (true, forget c)
stop_thread ended c (some t) =
    let c' = record c { running = joined ended t c.running } in
    if contains t c'.running then (false, c') else (true, forget c')

unfoldable pub stop : Bool → Controller → Bool × Controller
unfolding stop_thread
stop ended c = stop_thread ended (record c { stopping = tell c.worker c.stopping }) c.thread

-- The steps of `start` that may raise: the settings, the worker's constructor, the thread's
-- constructor and the start of the thread.
pub record Attempt : Type 0 where
  pub normalized : Bool
  pub made : Bool
  pub ended : Bool
  pub threaded : Bool
  pub started : Bool

-- The fields are set, then the thread starts; if it does not, they are cleared again.
unfoldable pub launch : Bool → Controller → Bool × Controller
launch true c = (
  true,
  record c {
    worker = some c.next;
    thread = some c.next;
    running = c.next ∷ c.running;
    next = suc c.next;
  },
)
launch false c = (
  false,
  record c { worker = none; thread = none; stopping = c.next ∷ c.stopping; next = suc c.next },
)

unfoldable pub replace_worker : Attempt → Bool × Controller → Bool × Controller
unfolding launch
replace_worker a (false, c) = (false, c)
replace_worker a (true, c) = if a.threaded then launch a.started c else (false, c)

unfoldable pub start : Attempt → Controller → Bool × Controller
unfolding stop replace_worker
start a c =
    let replaced = replace_worker a (stop a.ended c) in
    if not a.normalized then (false, c) else if not a.made then (false, c) else replaced

unfoldable pub send_now : Controller → Bool
send_now c = is_some c.worker

-- What may happen to a controller and its threads, in any order.
pub data Step : Controller → Controller → Type 0 where
  starts : {c : Controller} (a : Attempt) → Step c ((start a c).1)
  stops : {c : Controller} (ended : Bool) → Step c ((stop ended c).1)
  ends : {c : Controller} (t : ℕ) → Step c (record c { running = without t c.running })

pub data Reach (c : Controller) : Controller → Type 0 where
  here : Reach c c
  after : {d e : Controller} → Reach c d → Step d e → Reach c e
