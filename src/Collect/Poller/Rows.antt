-- ===== src/Collect/Poller/Rows.antt =====
-- The loop over the rows of a scan.
use oraja_traning.Prelude.{
  ◌≡◌, refl, String, true, false, some, List, [], ◌∷◌, arith, map, All, ◌&&◌, ◌∙◌, ap,
}
use oraja_traning.Prelude.Int.{ℤ}
use oraja_traning.Prelude.Eq.{◌==◌, contains, int_eq, string_eq, pair_eq, beq_refl, ne_of_contains}
use oraja_traning.Prelude.Dict.{lookup}
use oraja_traning.Prelude.Float.{Float}
use oraja_traning.Prelude.Result.{ok, >>=-eq-ok}
use oraja_traning.Collect.Normalize.{ScoreRow}
use oraja_traning.Db.Plays.Keys.{HasUniqueKeys}
use oraja_traning.Db.Cursors.{ChartKey, CursorTable, chart_key_eq}
use oraja_traning.Collect.Poller.{Scan, Tally, row_key, scan_row, scan_rows, went_back}
use oraja_traning.Collect.Poller.Step.{
  scan_row-HasUniqueKeys, scan_row-other, scan_row-cursor, scan_row-idle,
}

abbrev pub row_keys : List ScoreRow → List ChartKey
row_keys = map row_key

-- (sha256, mode) is the primary key of `scoredatalog`.
abbrev pub HasDistinctKeys : List ScoreRow → Type 0
HasDistinctKeys [] = Unit
HasDistinctKeys (row ∷ rows) =
    (contains (row_key row) (row_keys rows) ≡ false) × HasDistinctKeys rows

-- The cursor of every row shows that row.
abbrev pub IsCaughtUp : (ScoreRow → String) → ℤ → CursorTable → List ScoreRow → Type 0
IsCaughtUp payload_hash generation cursors =
    All (λ row. lookup (generation, row_key row) cursors ≡ some (row.playcount, payload_hash row))

module _ (f : Float) (payload_hash : ScoreRow → String) where
  open f use {Num}

  pub scan_rows-HasUniqueKeys :
      (scan : Scan) (rows : List ScoreRow) (t : Tally Num) {t' : Tally Num}
      → scan_rows f payload_hash scan rows t ≡ ok t'
      → HasUniqueKeys t.plays.rows
      → HasUniqueKeys t'.plays.rows
  unfolding scan_rows
  scan_rows-HasUniqueKeys scan [] t {t'} e h = ground arith
  scan_rows-HasUniqueKeys scan (row ∷ rows) t {t'} e h =
      let (next, step, rest) = >>=-eq-ok (scan_row f payload_hash scan row t) _ e in
      scan_rows-HasUniqueKeys scan rows next rest
        (scan_row-HasUniqueKeys f payload_hash scan row t step h)

  -- A chart that has no row keeps its cursor.
  pub scan_rows-other :
      (scan : Scan) (rows : List ScoreRow) (t : Tally Num) {t' : Tally Num} (g : ℤ) (k : ChartKey)
      → scan_rows f payload_hash scan rows t ≡ ok t'
      → (g == scan.generation) && contains k (row_keys rows) ≡ false
      → lookup (g, k) t'.cursors ≡ lookup (g, k) t.cursors
  unfolding scan_rows
  scan_rows-other scan [] t {t'} g k e absent = ground arith
  scan_rows-other scan (row ∷ rows) t {t'} g k e absent =
      let (next, step, rest) = >>=-eq-ok (scan_row f payload_hash scan row t) _ e in
      scan_rows-other scan rows next g k rest (ground arith)
      ∙ scan_row-other f payload_hash scan row t (g, k) step
          (λ same.
            ground (arith, int_eq.beq_iff g scan.generation, chart_key_eq.beq_iff k (row_key row)))

  -- After a scan with no roll-back every cursor shows its row.
  pub scan_rows-IsCaughtUp :
      (scan : Scan) (rows : List ScoreRow) (t : Tally Num) {t' : Tally Num}
      → scan_rows f payload_hash scan rows t ≡ ok t'
      → HasDistinctKeys rows
      → ((k : ChartKey)
          → contains k (row_keys rows) ≡ true
          → lookup (scan.generation, k) t.cursors ≡ lookup k scan.loaded)
      → All (λ row. went_back scan.loaded row ≡ false) rows
      → IsCaughtUp payload_hash scan.generation t'.cursors rows
  unfolding scan_rows
  scan_rows-IsCaughtUp scan [] t {t'} e d same forward = tt
  scan_rows-IsCaughtUp scan (row ∷ rows) t {t'} e d same forward =
      let (next, step, rest) = >>=-eq-ok (scan_row f payload_hash scan row t) _ e in
      (
        scan_rows-other scan rows next scan.generation (row_key row) rest (ground (arith, d.0))
            ∙ scan_row-cursor f payload_hash scan row t step
                (same (row_key row) (ground (arith, beq_refl ⦃e = chart_key_eq⦄ (row_key row))))
                forward.0,
        scan_rows-IsCaughtUp scan rows next rest d.1
            (λ k member.
              scan_row-other f payload_hash scan row t (scan.generation, k) step
                (λ same_key.
                  ne_of_contains ⦃e = chart_key_eq⦄ k (row_key row) (row_keys rows) member d.0
                    (ap (λ p. p.1) same_key))
              ∙ same k (ground arith))
            forward.1,
      )

  -- Rows that the cursors already show change nothing.
  pub scan_rows-idle :
      (scan : Scan) (rows : List ScoreRow) (t : Tally Num)
      → All (λ row. lookup (row_key row) scan.loaded ≡ some (row.playcount, payload_hash row)) rows
      → scan_rows f payload_hash scan rows t ≡ ok t
  unfolding scan_rows
  scan_rows-idle scan [] t h = refl
  scan_rows-idle scan (row ∷ rows) t h =
      rw (scan_row-idle f payload_hash scan row t h.0) (scan_rows-idle scan rows t h.1)
