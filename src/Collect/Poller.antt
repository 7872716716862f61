-- ===== src/Collect/Poller.antt =====
-- collect/poller.py: the content scan of `Poller.tick`, from the stable copy of the source
-- databases to the commit. The digest of a row is an argument, as in `Normalize`.
pub mod Step
pub mod Rows
pub mod Scanned
pub mod Rescan
pub mod Counts
mod Tests
use oraja_traning.Prelude.{
  ℕ, ◌+◌, String, Bool, true, false, not, ◌&&◌, ◌||◌, Option, none, some, List, [], ◌∷◌,
  if◌then◌else◌, any, is_some, map,
}
use oraja_traning.Prelude.Int.{ℤ, pos, ◌+ℤ◌, ◌-ℤ◌, ltb_ℤ, max0}
use oraja_traning.Prelude.Eq.{◌==◌, contains, int_eq, string_eq, pair_eq, option_eq}
use oraja_traning.Prelude.Dict.{Dict, lookup}
use oraja_traning.Prelude.Float.{Float}
use oraja_traning.Prelude.Result.{Result, ok, err, ◌>>=◌}
use oraja_traning.Domain.Play.{Play, DomainError}
use oraja_traning.Collect.Normalize.{ScoreRow, normalize_play}
use oraja_traning.Db.Plays.{PlayTable, insert_play}
use oraja_traning.Db.Cursors.{ChartKey, Cursor, CursorTable, upsert_cursor, load_cursors}
use oraja_traning.Db.State.{Assistant, CollectorState, upsert_collector_state}

abbrev pub row_key : ScoreRow → ChartKey
row_key row = (row.sha256, row.mode)

-- `cursor is None or current_playcount > cursor[0]`
abbrev pub should_insert : Option Cursor → ℤ → Bool
should_insert none playcount = true
should_insert (some cursor) playcount = ltb_ℤ cursor.0 playcount

-- `cursor is not None and current_playcount == cursor[0] and current_hash != cursor[1]`
abbrev pub payload_changed : Option Cursor → ℤ → String → Bool
payload_changed none playcount hash = false
payload_changed (some cursor) playcount hash = playcount == cursor.0 && not (hash == cursor.1)

-- `max(0, current_playcount - cursor[0] - 1) if cursor is not None else 0`
abbrev pub lost_since : Option Cursor → ℤ → ℕ
lost_since none playcount = 0
lost_since (some cursor) playcount = max0 (playcount -ℤ cursor.0 -ℤ pos 1)

-- What the loop over the rows changes.
pub record Tally (F : Type 0) : Type 0 where
  pub plays : PlayTable F
  pub cursors : CursorTable
  pub new_plays : ℕ
  pub lost_total : ℕ

-- What the loop reads: the generation, its cursors as they were loaded, the aggregate rows of
-- `score` and the time.
pub record Scan : Type 0 where
  pub generation : ℤ
  pub loaded : Dict ChartKey Cursor
  pub aggregate : Dict ChartKey ScoreRow
  pub now : ℤ

-- A consistent copy of the two source databases, with the signature of `scoredatalog.db`.
pub record Snapshot (F : Type 0) : Type 0 where
  pub rows : List ScoreRow
  pub aggregate : Dict ChartKey ScoreRow
  pub main_identity : Option ℤ × Option ℤ
  pub last_mtime : Option F
  pub total_size : ℤ

pub record ScoreResult : Type 0 where
  pub new_plays : ℕ
  pub lost_events : ℕ
  pub generation_changed : Bool

-- `bool(set(cursors).difference(current_keys))`
pub keys_vanished : Dict ChartKey Cursor → List ScoreRow → Bool
keys_vanished cursors rows = any (λ entry. not (contains entry.0 (map row_key rows))) cursors

pub went_back : Dict ChartKey Cursor → ScoreRow → Bool
went_back cursors row = elim (lookup (row_key row) cursors) [
  | none ↦ false
  | some cursor ↦ ltb_ℤ row.playcount cursor.0
]

pub rolled_back : Dict ChartKey Cursor → List ScoreRow → Bool
unfolding went_back
rolled_back cursors rows = any (went_back cursors) rows

-- `self._last_signature is not None and … main_identity != stable_signature.main_identity`
file_replaced : Option (Option ℤ × Option ℤ) → Option ℤ × Option ℤ → Bool
file_replaced none identity = false
file_replaced (some last) identity = not (last == identity)

state_generation : {F : Type 0} → Option (CollectorState F) → ℤ
state_generation none = pos 0
state_generation (some state) = state.source_generation

-- `int(state["source_generation"]) if state is not None else 0`
pub generation_of : {F : Type 0} → Assistant F → ℤ
unfolding state_generation
generation_of a = state_generation (lookup "scoredatalog" a.states)

-- `replacement or rollback`
pub generation_changes :
    {F : Type 0} → Option (Option ℤ × Option ℤ) → Snapshot F → Assistant F → Bool
unfolding keys_vanished rolled_back file_replaced
generation_changes last snapshot a =
    let loaded = load_cursors (generation_of a) a.cursors in
    (file_replaced last snapshot.main_identity || keys_vanished loaded snapshot.rows)
    || rolled_back loaded snapshot.rows

-- The generation that a scan writes to, with the cursors and the rows that it compares.
pub scan_of : {F : Type 0} → Option (Option ℤ × Option ℤ) → Snapshot F → ℤ → Assistant F → Scan
scan_of last snapshot now a =
    let generation = generation_of a in
    let changed = generation_changes last snapshot a in
    record {
      generation = if changed then generation +ℤ pos 1 else generation;
      loaded = if changed then [] else load_cursors generation a.cursors;
      aggregate = snapshot.aggregate;
      now = now;
    }

module _ (f : Float) (payload_hash : ScoreRow → String) where
  open f use {Num}

  collector_play : Scan → ScoreRow → ℕ → Result DomainError (Play Num)
  collector_play scan row lost =
      normalize_play f payload_hash row "collector" scan.generation
        (lookup (row_key row) scan.aggregate) (pos lost) scan.now

  move_cursor : Scan → ScoreRow → CursorTable → CursorTable
  move_cursor scan row =
      upsert_cursor scan.generation (row_key row) row.playcount (payload_hash row)

  store_new : Scan → ScoreRow → ℕ → Tally Num → Play Num → Tally Num
  unfolding move_cursor
  store_new scan row lost t play =
      let (plays, created) = insert_play play false t.plays in
      record {
        plays = plays;
        cursors = move_cursor scan row t.cursors;
        new_plays = if created then t.new_plays + 1 else t.new_plays;
        lost_total = if created then t.lost_total + lost else t.lost_total;
      }

  store_correction : Scan → ScoreRow → Tally Num → Play Num → Tally Num
  unfolding move_cursor
  store_correction scan row t play = record t {
    plays = (insert_play play true t.plays).0;
    cursors = move_cursor scan row t.cursors;
  }

  -- The body of `for row in rows`.
  pub scan_row : Scan → ScoreRow → Tally Num → Result DomainError (Tally Num)
  unfolding collector_play store_new store_correction
  scan_row scan row t =
      let cursor = lookup (row_key row) scan.loaded in
      let lost = lost_since cursor row.playcount in
      if should_insert cursor row.playcount
      then (collector_play scan row lost >>= λ play. ok (store_new scan row lost t play))
      else if payload_changed cursor row.playcount (payload_hash row)
      then (collector_play scan row 0 >>= λ play. ok (store_correction scan row t play))
      else ok t

  pub scan_rows : Scan → List ScoreRow → Tally Num → Result DomainError (Tally Num)
  scan_rows scan [] t = ok t
  scan_rows scan (row ∷ rows) t = scan_row scan row t >>= scan_rows scan rows

  pub finish : Snapshot Num → Scan → Bool → Assistant Num → Tally Num → Assistant Num × ScoreResult
  finish snapshot scan changed a t = (
    upsert_collector_state "scoredatalog"
        (record {
          source_generation = scan.generation;
          last_mtime = snapshot.last_mtime;
          last_size = some snapshot.total_size;
          last_run_at = some scan.now;
          last_error = none;
        })
        (record a { plays = t.plays; cursors = t.cursors }),
    record { new_plays = t.new_plays; lost_events = t.lost_total; generation_changed = changed },
  )

  -- From `state = self._state()` to the end of `with self.conn`. An exception rolls the
  -- transaction back.
  pub content_scan :
      Option (Option ℤ × Option ℤ)
      → Snapshot Num
      → ℤ
      → Assistant Num
      → Result DomainError (Assistant Num × ScoreResult)
  unfolding finish
  content_scan last snapshot now a =
      let scan = scan_of last snapshot now a in
      let start : Tally Num = record {
        plays = a.plays;
        cursors = a.cursors;
        new_plays = 0;
        lost_total = 0;
      } in
      scan_rows scan snapshot.rows start >>= λ t.
      ok (finish snapshot scan (generation_changes last snapshot a) a t)
