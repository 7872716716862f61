-- ===== src/Collect/Poller/Rescan.antt =====
-- Scanning a source again that has not changed.
use oraja_traning.Prelude.{
  ◌≡◌, refl, sym, ap, String, false, some, List, [], ◌∷◌, arith, All, is_some, ◌∙◌, Option,
}
use oraja_traning.Prelude.Int.{ℤ}
use oraja_traning.Prelude.Eq.{contains, int_eq, string_eq, pair_eq, option_eq, beq_refl}
use oraja_traning.Prelude.Dict.{lookup, any-keys}
use oraja_traning.Prelude.Float.{Float}
use oraja_traning.Prelude.Result.{ok}
use oraja_traning.Collect.Normalize.{ScoreRow}
use oraja_traning.Db.Plays.Keys.{HasUniqueKeys}
use oraja_traning.Db.Cursors.{ChartKey, Cursor, load_cursors, lookup-load_cursors}
use oraja_traning.Db.State.{Assistant, upsert_collector_state}
use oraja_traning.Collect.Poller.{
  Snapshot, ScoreResult, row_key, went_back, rolled_back, keys_vanished, file_replaced,
  generation_of, generation_changes, scan_of, content_scan, scan_rows,
}
use oraja_traning.Collect.Poller.Rows.{row_keys, HasDistinctKeys, IsCaughtUp, scan_rows-idle}
use oraja_traning.Collect.Poller.Scanned.{
  IsScanned, HasNoFutureCursors, content_scan-IsScanned, finish-generation, start, finished,
}

file_replaced-same :
    (identity : Option ℤ × Option ℤ) → file_replaced (some identity) identity ≡ false
unfolding file_replaced
file_replaced-same identity = rw beq_refl refl

module _ (payload_hash : ScoreRow → String) where
  rolled_back-caught_up :
      (loaded : List (ChartKey × Cursor)) (rows : List ScoreRow)
      → All (λ row. lookup (row_key row) loaded ≡ some (row.playcount, payload_hash row)) rows
      → rolled_back loaded rows ≡ false
  unfolding rolled_back went_back
  rolled_back-caught_up loaded [] h = refl
  rolled_back-caught_up loaded (row ∷ rows) h =
      ground (arith, h.0, rolled_back-caught_up loaded rows h.1)

module _ {F : Type 0} (payload_hash : ScoreRow → String) where
  -- The dictionary that a scan loads shows what the table shows.
  loaded_rows :
      (a : Assistant F) (rows : List ScoreRow)
      → IsCaughtUp payload_hash (generation_of a) a.cursors rows
      → All
          (λ row.
            lookup (row_key row) (load_cursors (generation_of a) a.cursors)
            ≡ some (row.playcount, payload_hash row))
          rows
  loaded_rows a [] h = tt
  loaded_rows a (row ∷ rows) h =
      (lookup-load_cursors (generation_of a) (row_key row) a.cursors ∙ h.0, loaded_rows a rows h.1)

  -- Nothing in a scanned database starts a new generation.
  quiet :
      (snapshot : Snapshot F) (a a' : Assistant F)
      → IsScanned payload_hash snapshot.rows a a'
      → generation_changes (some snapshot.main_identity) snapshot a' ≡ false
  unfolding generation_changes keys_vanished
  quiet snapshot a a' h = ground (
    arith,
    file_replaced-same snapshot.main_identity,
    any-keys (λ k. contains k (row_keys snapshot.rows)) (load_cursors (generation_of a') a'.cursors)
        (λ k found.
          h.no_stray k
            (sym (ap is_some (lookup-load_cursors (generation_of a') k a'.cursors)) ∙ found)),
    rolled_back-caught_up payload_hash (load_cursors (generation_of a') a'.cursors) snapshot.rows
        (loaded_rows a' snapshot.rows h.caught_up),
  )

module _ (f : Float) (payload_hash : ScoreRow → String) where
  open f use {Num}

  again_run :
      (snapshot : Snapshot Num) (later : ℤ) (a a' : Assistant Num)
      → IsScanned payload_hash snapshot.rows a a'
      → let last = some snapshot.main_identity in
        scan_rows f payload_hash
          (scan_of last snapshot later a')
          snapshot.rows
          (start f payload_hash last snapshot later a')
        ≡ ok (start f payload_hash last snapshot later a')
  unfolding scan_of
  again_run snapshot later a a' h = rw (quiet payload_hash snapshot a a' h) (
      scan_rows-idle f payload_hash _ snapshot.rows _
        (loaded_rows payload_hash a' snapshot.rows h.caught_up))

  again_generation :
      (snapshot : Snapshot Num) (later : ℤ) (a a' : Assistant Num)
      → IsScanned payload_hash snapshot.rows a a'
      → (scan_of (some snapshot.main_identity) snapshot later a').generation ≡ generation_of a'
  unfolding scan_of
  again_generation snapshot later a a' h = rw (quiet payload_hash snapshot a a' h) refl

  -- After a scan that succeeds, a second scan of the same source succeeds too: it finds no new
  -- play and no lost event, begins no generation, and leaves the plays, the cursors and the
  -- generation as they are. The rows have distinct keys, as the source's primary key has it, no
  -- cursor belongs to a generation that has not begun, and no event is stored twice.
  pub content_scan_again :
      (last : Option (Option ℤ × Option ℤ)) (snapshot : Snapshot Num) (now later : ℤ)
      (a : Assistant Num) {a' : Assistant Num} {r : ScoreResult}
      → content_scan f payload_hash last snapshot now a ≡ ok (a', r)
      → HasDistinctKeys snapshot.rows
      → HasNoFutureCursors a
      → HasUniqueKeys a.plays.rows
      → (a'' : Assistant Num) × (content_scan f payload_hash
            (some snapshot.main_identity)
            snapshot
            later
            a'
          ≡ ok (a'', record { new_plays = 0; lost_events = 0; generation_changed = false }))
        × (a''.plays ≡ a'.plays)
        × (a''.cursors ≡ a'.cursors)
        × (generation_of a'' ≡ generation_of a')
  unfolding content_scan upsert_collector_state
  content_scan_again last snapshot now later a {a'} {r} e distinct fresh unique =
      let same = some snapshot.main_identity in
      let scanned =
        content_scan-IsScanned f payload_hash last snapshot now a e distinct fresh unique in
      let still = quiet payload_hash snapshot a a' scanned in
      let t = start f payload_hash same snapshot later a' in
      (
        (finished f payload_hash same snapshot later a' t).0,
        rw (again_run snapshot later a a' scanned) (rw still refl),
        refl,
        refl,
        finish-generation f payload_hash same snapshot later a' t
            ∙ again_generation snapshot later a a' scanned,
      )
