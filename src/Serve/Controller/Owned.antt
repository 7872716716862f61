-- ===== src/Serve/Controller/Owned.antt =====
-- The controller never has two threads that run.
use mathlib.Core.Path.{subst}
use mathlib.Core.Option.{some-injective}
use oraja_traning.Prelude.{
  ℕ, ◌≤◌, ◌≡◌, ◌≢◌, refl, sym, Bool, true, false, Option, none, some, List, [], ◌∷◌, arith, length,
  All, All-keep, All-map, keep, Bool-cases, inl, inr, nat_beq_iff,
}
use oraja_traning.Prelude.Eq.{nat_eq, contains}
use oraja_traning.Serve.Controller.{
  Controller, initial, tell, without, joined, forget, stop_thread, stop, Attempt, launch,
  replace_worker, start, Step, starts, stops, ends, Reach, here, after,
}

-- At most one thread runs, the fields name it, and there is a worker exactly when there is a thread.
pub record IsOwned (c : Controller) : Type 0 where
  pub one : length c.running ≤ 1
  pub named : All (λ t. c.thread ≡ some t) c.running
  pub paired : c.worker ≡ c.thread

length-keep : (p : ℕ → Bool) (ts : List ℕ) → length (keep p ts) ≤ length ts
length-keep p [] = omega arith
length-keep p (t ∷ ts) = ground (arith, length-keep p ts)

joined-length : (ended : Bool) (t : ℕ) (ts : List ℕ) → length (joined ended t ts) ≤ length ts
joined-length true t ts = length-keep _ ts
joined-length false t ts = omega arith

joined-All :
    (P : ℕ → Type 0) (ended : Bool) (t : ℕ) (ts : List ℕ) → All P ts → All P (joined ended t ts)
joined-All P true t ts h = All-map _ P (without t ts) (λ s found. found.0) (All-keep P _ ts h)
joined-All P false t ts h = h

-- Threads that the controller does not name: there are none.
none_running :
    (thread : Option ℕ) (ts : List ℕ)
    → All (λ t. thread ≡ some t) ts
    → All (λ t. thread ≢ some t) ts
    → ts ≡ []
none_running thread [] h k = refl
none_running thread (t ∷ ts) h k = absurd (k.0 h.0)

absent :
    (t : ℕ) (ts : List ℕ)
    → contains t ts ≡ false
    → All (λ s. ◌≢◌ {A = Option ℕ} (some t) (some s)) ts
absent t [] h = tt
absent t (s ∷ ts) h =
    ((λ same. ground (arith, some-injective t s same, nat_beq_iff t s)), absent t ts (ground arith))

no_thread : (ts : List ℕ) → All (λ t. ◌≡◌ {A = Option ℕ} none (some t)) ts → ts ≡ []
no_thread [] h = refl
no_thread (t ∷ ts) h = absurd (cc h.0)

-- A controller that forgets its worker when no thread runs.
forget-IsOwned : (c : Controller) → c.running ≡ [] → IsOwned (forget c)
forget-IsOwned c e = record {
  one = ground arith;
  named = subst (All (λ t. ◌≡◌ {A = Option ℕ} none (some t))) (sym e) tt;
  paired = refl;
}

-- `stop` keeps the invariant, and when it returns no thread runs.
stop_thread-IsOwned :
    (ended : Bool) (c : Controller) (thread : Option ℕ)
    → c.thread ≡ thread
    → IsOwned c
    → IsOwned (stop_thread ended c thread).1
      × ((stop_thread ended c thread).0 ≡ true → (stop_thread ended c thread).1.running ≡ [])
unfolding stop_thread
stop_thread-IsOwned ended c none e o =
    let empty = no_thread c.running (subst (λ th. All (λ t. th ≡ some t) c.running) e o.named) in
    (forget-IsOwned c empty, (λ returned. empty))
stop_thread-IsOwned ended c (some t) e o =
    let shorter = joined-length ended t c.running in
    let named = joined-All _ ended t c.running o.named in
    elim (Bool-cases (contains t (joined ended t c.running))) [
      | inl alive ↦ rw alive (
        record { one = ground (arith, o.one); named = named; paired = o.paired },
        (λ returned. cc),
      )
      | inr over ↦
          let empty =
            none_running (some t) (joined ended t c.running)
              (subst (λ th. All (λ s. th ≡ some s) (joined ended t c.running)) e named)
              (absent t _ over) in
          rw over
            (forget-IsOwned (record c { running = joined ended t c.running }) empty, (λ r. empty))
    ]

stop-IsOwned :
    (ended : Bool) (c : Controller)
    → IsOwned c
    → IsOwned (stop ended c).1 × ((stop ended c).0 ≡ true → (stop ended c).1.running ≡ [])
unfolding stop
stop-IsOwned ended c o =
    stop_thread-IsOwned ended (record c { stopping = tell c.worker c.stopping }) c.thread refl
      (record { one = o.one; named = o.named; paired = o.paired })

launch-IsOwned : (started : Bool) (c : Controller) → c.running ≡ [] → IsOwned (launch started c).1
unfolding launch
launch-IsOwned true c e = record {
  one = ground arith;
  named = (refl, subst (All (λ t. ◌≡◌ {A = Option ℕ} (some c.next) (some t))) (sym e) tt);
  paired = refl;
}
launch-IsOwned false c e = record {
  one = ground arith;
  named = subst (All (λ t. ◌≡◌ {A = Option ℕ} none (some t))) (sym e) tt;
  paired = refl;
}

replace_worker-IsOwned :
    (a : Attempt) (stopped : Bool × Controller)
    → IsOwned stopped.1
    → (stopped.0 ≡ true → stopped.1.running ≡ [])
    → IsOwned (replace_worker a stopped).1
unfolding replace_worker
replace_worker-IsOwned a (false, c) o empty = o
replace_worker-IsOwned a (true, c) o empty = elim (Bool-cases a.threaded) [
  | inl made ↦ rw made (launch-IsOwned a.started c (empty refl))
  | inr raised ↦ rw raised o
]

start-IsOwned : (a : Attempt) (c : Controller) → IsOwned c → IsOwned (start a c).1
unfolding start
start-IsOwned a c o =
    let (kept, empty) = stop-IsOwned a.ended c o in
    let replaced = replace_worker-IsOwned a (stop a.ended c) kept empty in
    elim (Bool-cases a.normalized) [
      | inr bad ↦ rw bad o
      | inl fine ↦ elim (Bool-cases a.made) [
        | inr failed ↦ rw (fine, failed) o
        | inl made ↦ rw (fine, made) replaced
      ]
    ]

Step-IsOwned : {c d : Controller} → Step c d → IsOwned c → IsOwned d
Step-IsOwned (starts a) o = start-IsOwned a _ o
Step-IsOwned (stops ended) o = (stop-IsOwned ended _ o).0
Step-IsOwned {c} (ends t) o = record {
  one = ground (arith, o.one, joined-length true t c.running);
  named = joined-All _ true t c.running o.named;
  paired = o.paired;
}

-- However the starts, with any of their steps failing, the stops, whether or not the thread ends in
-- time, and the ends of threads follow one another from a new controller: at most one thread runs,
-- the controller's fields name it, and they name a worker exactly when they name a thread.
pub Reach-IsOwned : {c : Controller} → Reach initial c → IsOwned c
Reach-IsOwned here = record { one = omega arith; named = tt; paired = refl }
Reach-IsOwned (after reached step) = Step-IsOwned step (Reach-IsOwned reached)
