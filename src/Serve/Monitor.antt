-- ===== src/Serve/Monitor.antt =====
-- ProgressMonitorWorker of serve/progress_monitor.py. What the reader of the database and the
-- sender answer at a poll, and the two clocks, are inputs of the poll.
pub mod Delivered
mod Tests
use oraja_traning.Prelude.{
  String, Bool, true, false, not, ◌&&◌, ◌||◌, Option, none, some, List, [], ◌∷◌, ◌++◌,
  if◌then◌else◌,
}
use oraja_traning.Prelude.Int.{ℤ, pos}
use oraja_traning.Prelude.Eq.{Eq, ◌==◌, int_eq, pair_eq, option_eq}
use oraja_traning.Prelude.Float.{Float, fmax}
use oraja_traning.Prelude.Result.{Result, ok, err}

-- `ProgressCounts`: the judged notes, and those of today if they are known.
abbrev pub ProgressCounts : Type 0
ProgressCounts = ℤ × Option ℤ

pub record Settings (F : Type 0) : Type 0 where
  pub server_url : String
  pub source_id : String
  pub poll_interval : F
  pub heartbeat : F

-- The arguments of a call of the sender.
pub record Post : Type 0 where
  pub url : String
  pub token : String
  pub counts : ProgressCounts
  pub source_id : String
  pub observed_at : ℤ

pub data Status : Type 0 where
  live stale error : Status

-- `MonitorSnapshot`
pub record MonitorSnapshot (F : Type 0) : Type 0 where
  pub status : Status
  pub current_judged : Option ℤ
  pub today_judged : Option ℤ
  pub last_sent_at : Option F
  pub next_send_at : F
  pub server_url : String
  pub message : Option String

-- The fields of the worker that a poll writes.
pub record Worker (F : Type 0) : Type 0 where
  pub last_sent_monotonic : Option F
  pub last_sent_at : Option F
  pub last_sent_counts : Option ProgressCounts
  pub last_counts : Option ProgressCounts

-- What a poll meets: the two clocks, the answer of the reader and the answer of the sender, an
-- exception being its rendered text.
pub record Poll (F : Type 0) : Type 0 where
  pub force : Bool
  pub now : F
  pub monotonic_now : F
  pub read : Result String ProgressCounts
  pub refused : Option String

-- The snapshot, the worker after the poll and the call of the sender, if there was one.
pub record Polled (F : Type 0) : Type 0 where
  pub snapshot : MonitorSnapshot F
  pub worker : Worker F
  pub posted : Option Post

-- `None if self._last_counts is None else self._last_counts.current_judged`, and `today_judged`.
abbrev pub current_of : Option ProgressCounts → Option ℤ
current_of none = none
current_of (some c) = some c.0

abbrev pub today_of : Option ProgressCounts → Option ℤ
today_of none = none
today_of (some c) = c.1

-- `int(now)` and `float("inf")` are arguments.
module _ (f : Float) (trunc : f.Num → ℤ) (inf : f.Num) where
  open f use {Num, of_int, add, sub, le}

  module _ (settings : Settings Num) (token : String) where
    -- The time since the last call that went through is at least the heartbeat.
    abbrev pub overdue : Option Num → Num → Bool
    overdue none monotonic_now = true
    overdue (some sent) monotonic_now = le settings.heartbeat (sub monotonic_now sent)

    unfoldable pub is_due : Worker Num → Bool → ProgressCounts → Num → Bool
    is_due w force counts monotonic_now =
        force
        || not (some counts == w.last_sent_counts)
        || overdue w.last_sent_monotonic monotonic_now

    abbrev pub post_of : ProgressCounts → Num → Post
    post_of counts now = record {
      url = settings.server_url;
      token = token;
      counts = counts;
      source_id = settings.source_id;
      observed_at = trunc now;
    }

    -- The snapshot of the `except` clause.
    abbrev pub failed : Worker Num → Num → String → MonitorSnapshot Num
    failed w now message = record {
      status = Status.error;
      current_judged = current_of w.last_counts;
      today_judged = today_of w.last_counts;
      last_sent_at = w.last_sent_at;
      next_send_at = add now settings.poll_interval;
      server_url = settings.server_url;
      message = some message;
    }

    abbrev pub remaining : Option Num → Num → Num
    remaining none monotonic_now = settings.heartbeat
    remaining (some sent) monotonic_now =
        fmax f (of_int (pos 0)) (sub settings.heartbeat (sub monotonic_now sent))

    abbrev pub sent_age : Option Num → Num → Num
    sent_age none monotonic_now = inf
    sent_age (some sent) monotonic_now = sub monotonic_now sent

    -- The snapshot at the end of the `try` clause.
    abbrev pub succeeded : Worker Num → ProgressCounts → Num → Num → MonitorSnapshot Num
    succeeded w counts now monotonic_now = record {
      status =
          if le (sent_age w.last_sent_monotonic monotonic_now) (of_int (pos 90))
          then Status.live
          else Status.stale;
      current_judged = some counts.0;
      today_judged = counts.1;
      last_sent_at = w.last_sent_at;
      next_send_at = add now (remaining w.last_sent_monotonic monotonic_now);
      server_url = settings.server_url;
      message = none;
    }

    -- The call of the sender, and what follows it.
    unfoldable pub send : Worker Num → ProgressCounts → Num → Num → Option String → Polled Num
    send w counts now monotonic_now (some message) = record {
      snapshot = failed w now message;
      worker = w;
      posted = some (post_of counts now);
    }
    send w counts now monotonic_now none =
        let w' : Worker Num = record {
          last_sent_monotonic = some monotonic_now;
          last_sent_at = some now;
          last_sent_counts = some counts;
          last_counts = w.last_counts;
        } in
        record {
          snapshot = succeeded w' counts now monotonic_now;
          worker = w';
          posted = some (post_of counts now);
        }

    unfoldable pub poll_read : Worker Num → Poll Num → Result String ProgressCounts → Polled Num
    unfolding send
    poll_read w p (err message) = record {
      snapshot = failed w p.now message;
      worker = w;
      posted = none;
    }
    poll_read w p (ok counts) =
        let w' : Worker Num = record w { last_counts = some counts } in
        if is_due w' p.force counts p.monotonic_now
        then send w' counts p.now p.monotonic_now p.refused
        else record {
          snapshot = succeeded w' counts p.now p.monotonic_now;
          worker = w';
          posted = none;
        }

    unfoldable pub poll_once : Worker Num → Poll Num → Polled Num
    unfolding poll_read
    poll_once w p = poll_read w p p.read

    -- The loop of `run`: the worker after the polls, and the calls of the sender in their order.
    unfoldable pub run : Worker Num → List (Poll Num) → Worker Num × List Post
    unfolding poll_once
    run w [] = (w, [])
    run w (p ∷ ps) =
        let polled = poll_once w p in
        let rest = run polled.worker ps in
        (rest.0, elim polled.posted [ none ↦ rest.1 | some post ↦ post ∷ rest.1 ])
