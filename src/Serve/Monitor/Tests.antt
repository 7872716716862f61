-- ===== src/Serve/Monitor/Tests.antt =====
-- A refused poll, then one that goes through.
use oraja_traning.Prelude.{Bool, String, ℕ, ◌≡◌, refl, Option, none, some, [], ◌∷◌, length, All}
use oraja_traning.Prelude.Int.{pos}
use oraja_traning.Prelude.Result.{ok}
use oraja_traning.Samples.{thousandths}
use oraja_traning.Serve.Monitor.{ProgressCounts, Settings, Post, Worker, Poll, run, poll_once}
use oraja_traning.Serve.Monitor.Delivered.{IsPolled, run-delivers, poll_once-IsPolled}

abbrev settings : Settings ℕ
settings = record {
  server_url = "http://127.0.0.1:8765";
  source_id = "RYU-DESKTOP2";
  poll_interval = 5000;
  heartbeat = 30000;
}

abbrev new_worker : Worker ℕ
new_worker = record {
  last_sent_monotonic = none;
  last_sent_at = none;
  last_sent_counts = none;
  last_counts = none;
}

abbrev counts : ProgressCounts
counts = (pos 1200, some (pos 300))

abbrev poll : ℕ → Option String → Poll ℕ
poll now refused = record {
  force = Bool.false;
  now = now;
  monotonic_now = now;
  read = ok counts;
  refused = refused;
}

run-delivers_example :
    let r =
      run thousandths
        (λ n. pos n)
        0
        settings
        "t"
        new_worker
        (poll 1000 (some "refused") ∷ poll 6000 none ∷ []) in
    (r.0.last_sent_counts ≡ some counts)
    × (length r.1 ≡ 2)
    × All (λ (post : Post). post.counts ≡ counts) r.1
run-delivers_example =
    run-delivers thousandths (λ n. pos n) 0 settings "t" new_worker counts
      (poll 1000 (some "refused") ∷ []) (poll 6000 none) (λ e. cc) ((refl, refl), tt) refl refl

poll_once-IsPolled_example :
    IsPolled thousandths
      (λ n. pos n)
      0
      settings
      "t"
      new_worker
      (poll 1000 none)
      (poll_once thousandths (λ n. pos n) 0 settings "t" new_worker (poll 1000 none))
poll_once-IsPolled_example =
    poll_once-IsPolled thousandths (λ n. pos n) 0 settings "t" new_worker (poll 1000 none)
