-- ===== src/Collect/Poller/Step.antt =====
-- One row of a scan: what a successful step writes.
use oraja_traning.Prelude.{◌≡◌, String, false, some, arith, Option-cases, inl, inr, ◌≢◌}
use oraja_traning.Prelude.Int.{ℤ}
use oraja_traning.Prelude.Eq.{int_eq, string_eq, pair_eq, beq_refl}
use oraja_traning.Prelude.Dict.{lookup}
use oraja_traning.Prelude.Float.{Float}
use oraja_traning.Prelude.Result.{ok}
use oraja_traning.Collect.Normalize.{ScoreRow}
use oraja_traning.Db.Plays.Keys.{HasUniqueKeys, insert_play-HasUniqueKeys}
use oraja_traning.Db.Cursors.{ChartKey, lookup-upsert_cursor, cursor_key_eq}
use oraja_traning.Collect.Poller.{
  Scan, Tally, row_key, scan_row, store_new, store_correction, move_cursor, went_back,
}

module _ (f : Float) (payload_hash : ScoreRow → String) where
  open f use {Num}

  -- A successful step keeps the event key unique.
  pub scan_row-HasUniqueKeys :
      (scan : Scan) (row : ScoreRow) (t : Tally Num) {t' : Tally Num}
      → scan_row f payload_hash scan row t ≡ ok t'
      → HasUniqueKeys t.plays.rows
      → HasUniqueKeys t'.plays.rows
  unfolding scan_row store_new store_correction
  scan_row-HasUniqueKeys scan row t {t'} e h = grind (arith, insert_play-HasUniqueKeys)

  -- The step leaves the cursors of other charts and generations alone.
  pub scan_row-other :
      (scan : Scan) (row : ScoreRow) (t : Tally Num) {t' : Tally Num} (j : ℤ × ChartKey)
      → scan_row f payload_hash scan row t ≡ ok t'
      → j ≢ (scan.generation, row_key row)
      → lookup j t'.cursors ≡ lookup j t.cursors
  unfolding scan_row store_new store_correction move_cursor
  scan_row-other scan row t {t'} j e ne = ground (
    arith,
    cursor_key_eq.beq_iff j (scan.generation, row_key row),
    lookup-upsert_cursor j scan.generation (row_key row) row.playcount (payload_hash row) t.cursors,
  )

  -- From the cursor that was loaded, and no roll-back, the step leaves the chart's cursor at the
  -- row.
  pub scan_row-cursor :
      (scan : Scan) (row : ScoreRow) (t : Tally Num) {t' : Tally Num}
      → scan_row f payload_hash scan row t ≡ ok t'
      → lookup (scan.generation, row_key row) t.cursors ≡ lookup (row_key row) scan.loaded
      → went_back scan.loaded row ≡ false
      → lookup (scan.generation, row_key row) t'.cursors ≡ some (row.playcount, payload_hash row)
  unfolding scan_row store_new store_correction move_cursor went_back
  scan_row-cursor scan row t {t'} e same forward =
      let here =
        lookup-upsert_cursor (scan.generation, row_key row) scan.generation (row_key row)
          row.playcount (payload_hash row) t.cursors in
      elim (Option-cases (lookup (row_key row) scan.loaded)) [
        | inl unseen ↦
            ground (arith, here, beq_refl ⦃e = cursor_key_eq⦄ (scan.generation, row_key row))
        | inr (cursor, seen) ↦ ground (
          arith,
          here,
          beq_refl ⦃e = cursor_key_eq⦄ (scan.generation, row_key row),
          int_eq.beq_iff row.playcount cursor.0,
          string_eq.beq_iff (payload_hash row) cursor.1,
        )
      ]

  -- A row that its cursor already shows changes nothing.
  pub scan_row-idle :
      (scan : Scan) (row : ScoreRow) (t : Tally Num)
      → lookup (row_key row) scan.loaded ≡ some (row.playcount, payload_hash row)
      → scan_row f payload_hash scan row t ≡ ok t
  unfolding scan_row
  scan_row-idle scan row t h =
      ground (arith, int_eq.beq_iff row.playcount row.playcount, beq_refl (payload_hash row))
