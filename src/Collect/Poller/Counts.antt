-- ===== src/Collect/Poller/Counts.antt =====
-- What a scan counts, and what a payload correction keeps.
use oraja_traning.Prelude.{
  ℕ, ◌+◌, ◌≡◌, refl, ap, String, Bool, true, false, Option, none, some, List, [], ◌∷◌, arith, All,
  if◌then◌else◌, sum_by, ◌∙◌, inl, inr, Bool-cases, ◌≢◌,
}
use oraja_traning.Prelude.Int.{ℤ, pos, ◌-ℤ◌, max0}
use oraja_traning.Prelude.Eq.{contains, int_eq, string_eq, pair_eq, Eq}
use oraja_traning.Prelude.Dict.{lookup}
use oraja_traning.Prelude.Float.{Float}
use oraja_traning.Prelude.Result.{ok, >>=-eq-ok, ok-injective}
use oraja_traning.Domain.Play.{Play}
use oraja_traning.Collect.Normalize.{ScoreRow}
use oraja_traning.Collect.Normalize.Laws.{
  normalize_play-event_key, normalize_play-columns, completed-known,
}
use oraja_traning.Db.Plays.{
  StoredPlay, PlayTable, EventKey, event_key, find_event, insert_play, correct,
}
use oraja_traning.Db.Plays.Keys.{insert_play-flag}
use oraja_traning.Db.Plays.Updates.{insert_play-find, insert_play-corrects}
use oraja_traning.Db.Cursors.{Cursor, chart_key_eq}
use oraja_traning.Collect.Poller.{
  Scan, Tally, row_key, should_insert, payload_changed, lost_since, scan_row, scan_rows,
  collector_play, store_new, store_correction,
}
use oraja_traning.Collect.Poller.Rows.{row_keys, HasDistinctKeys}

abbrev event_eq : Eq EventKey
event_eq = pair_eq

-- The event key of the play that a row makes.
abbrev pub row_event : Scan → ScoreRow → EventKey
row_event scan row = (scan.generation, (row.sha256, (row.mode, row.playcount)))

-- The plays of a chart since its cursor: one for a chart that was not seen before.
abbrev pub plays_since : Option Cursor → ℤ → ℕ
plays_since none playcount = 1
plays_since (some cursor) playcount = max0 (playcount -ℤ cursor.0)

-- The row's event is not stored yet if it is to be inserted.
abbrev pub IsNewEvent : {F : Type 0} → Scan → PlayTable F → ScoreRow → Type 0
IsNewEvent scan plays row =
    should_insert (lookup (row_key row) scan.loaded) row.playcount ≡ true
    → find_event (row_event scan row) plays.rows ≡ none

-- A row that is ahead of its cursor stands for one play more than were lost.
plays_since_lem :
    (cursor : Option Cursor) (playcount : ℤ)
    → plays_since cursor playcount
      ≡ (if should_insert cursor playcount then 1 + lost_since cursor playcount else 0)
unfolding ◌-ℤ◌
plays_since_lem none playcount = refl
plays_since_lem (some cursor) playcount = ground arith

module _ (f : Float) (payload_hash : ScoreRow → String) where
  open f use {Num}

  store_new-counts :
      (scan : Scan) (row : ScoreRow) (lost : ℕ) (t : Tally Num) (play : Play Num)
      → find_event (event_key play) t.plays.rows ≡ none
      → let t' = store_new f payload_hash scan row lost t play in
        t'.new_plays + t'.lost_total ≡ t.new_plays + t.lost_total + (1 + lost)
  unfolding store_new
  store_new-counts scan row lost t play absent = ground (arith, insert_play-flag play false t.plays)

  -- A row that is ahead of its cursor and not stored yet counts its plays since the cursor: one
  -- new play and the lost ones. Any other row counts nothing.
  scan_row-counts :
      (scan : Scan) (row : ScoreRow) (t : Tally Num) {t' : Tally Num}
      → scan_row f payload_hash scan row t ≡ ok t'
      → IsNewEvent scan t.plays row
      → t'.new_plays + t'.lost_total
        ≡ t.new_plays + t.lost_total + plays_since (lookup (row_key row) scan.loaded) row.playcount
  unfolding scan_row store_correction collector_play
  scan_row-counts scan row t {t'} e new =
      let cursor = lookup (row_key row) scan.loaded in
      let since = plays_since_lem cursor row.playcount in
      elim (Bool-cases (should_insert cursor row.playcount)) [
        | inl ahead ↦
            let (play, made, stored) =
              >>=-eq-ok (collector_play f payload_hash scan row (lost_since cursor row.playcount))
                (λ p. ok (store_new f payload_hash scan row (lost_since cursor row.playcount) t p))
                (rw ahead at e) in
            let key =
              normalize_play-event_key f payload_hash row "collector" scan.generation
                (lookup (row_key row) scan.aggregate) (pos (lost_since cursor row.playcount))
                scan.now made in
            let counted =
              store_new-counts scan row (lost_since cursor row.playcount) t play
                (rw key (new ahead)) in
            rw (← ok-injective stored) (counted ∙ rw (since, ahead) refl)
        | inr level ↦ ground (arith, since)
      ]

  module _ (scan : Scan) (row : ScoreRow) (k : EventKey) (other : k ≢ row_event scan row) where
    insert-other :
        (t : PlayTable Num) (b : Bool) (lost : ℕ) {play : Play Num}
        → collector_play f payload_hash scan row lost ≡ ok play
        → find_event k (insert_play play b t).0.rows ≡ find_event k t.rows
    unfolding collector_play
    insert-other t b lost {play} made =
        let key =
          normalize_play-event_key f payload_hash row "collector" scan.generation
            (lookup (row_key row) scan.aggregate) (pos lost) scan.now made in
        ground (arith, insert_play-find k play b t, event_eq.beq_iff k (event_key play), key)

    -- A step leaves the events of other rows alone.
    scan_row-other_event :
        (t : Tally Num) {t' : Tally Num}
        → scan_row f payload_hash scan row t ≡ ok t'
        → find_event k t'.plays.rows ≡ find_event k t.plays.rows
    unfolding scan_row store_new store_correction
    scan_row-other_event t {t'} e = grind (arith, insert-other)

  still_new :
      (scan : Scan) (row : ScoreRow) (t next : Tally Num)
      → ((k : EventKey)
          → k ≢ row_event scan row
          → find_event k next.plays.rows ≡ find_event k t.plays.rows)
      → (rows : List ScoreRow) → contains (row_key row) (row_keys rows) ≡ false
      → All (IsNewEvent scan t.plays) rows
      → All (IsNewEvent scan next.plays) rows
  still_new scan row t next kept [] absent new = tt
  still_new scan row t next kept (r ∷ rows) absent new = (
    (λ ahead.
        kept (row_event scan r) (λ same. ground (
          arith,
          chart_key_eq.beq_iff (row_key row) (row_key r),
          ap (λ k. k.1.0) same,
          ap (λ k. k.1.1.0) same,
        ))
        ∙ new.0 ahead),
    still_new scan row t next kept rows (ground arith) new.1,
  )

  -- The new plays and the lost ones that a loop over the rows adds are together the plays of every
  -- row since its cursor, when the loop succeeds, the rows have distinct keys and no event that it
  -- inserts is stored already.
  pub scan_rows-counts :
      (scan : Scan) (rows : List ScoreRow) (t : Tally Num) {t' : Tally Num}
      → scan_rows f payload_hash scan rows t ≡ ok t'
      → HasDistinctKeys rows
      → All (IsNewEvent scan t.plays) rows
      → t'.new_plays + t'.lost_total
        ≡ t.new_plays
          + t.lost_total
          + sum_by (λ row. plays_since (lookup (row_key row) scan.loaded) row.playcount) rows
  unfolding scan_rows
  scan_rows-counts scan [] t {t'} e distinct new = ground arith
  scan_rows-counts scan (row ∷ rows) t {t'} e distinct new =
      let (next, step, rest) = >>=-eq-ok (scan_row f payload_hash scan row t) _ e in
      omega (
        arith,
        scan_row-counts scan row t step new.0,
        scan_rows-counts scan rows next rest distinct.1 (
            still_new scan row t next (λ k other. scan_row-other_event scan row k other t step) rows
              distinct.0 new.1),
      )

  -- A correction of a row's payload at the same play count rewrites the stored event in place: it
  -- keeps its id, source and lost events, and is no new play; the replay's gauge is forgotten.
  pub scan_row_corrects :
      (scan : Scan) (row : ScoreRow) (t : Tally Num) {t' : Tally Num} {cursor : Cursor}
      {old : StoredPlay Num}
      → scan_row f payload_hash scan row t ≡ ok t'
      → lookup (row_key row) scan.loaded ≡ some cursor
      → row.playcount ≡ cursor.0
      → payload_hash row ≢ cursor.1
      → find_event (row_event scan row) t.plays.rows ≡ some old
      → (t'.new_plays ≡ t.new_plays)
        × (t'.lost_total ≡ t.lost_total)
        × (r : StoredPlay Num) × (find_event (row_event scan row) t'.plays.rows ≡ some r)
        × (r.id ≡ old.id)
        × (r.play.source ≡ old.play.source)
        × (r.play.lost_events ≡ old.play.lost_events)
        × (r.play.clear ≡ row.clear)
        × (r.play.payload_hash ≡ payload_hash row)
        × (r.play.selected_gauge_kind ≡ none)
  unfolding scan_row store_correction collector_play correct
  scan_row_corrects scan row t {t'} {cursor} {old} e seen same changed stored =
      let fixed : payload_changed (some cursor) row.playcount (payload_hash row) ≡ true = ground (
        arith,
        int_eq.beq_iff row.playcount cursor.0,
        string_eq.beq_iff (payload_hash row) cursor.1,
      ) in
      let level : should_insert (some cursor) row.playcount ≡ false = ground arith in
      let (play, made, done) =
        >>=-eq-ok (collector_play f payload_hash scan row 0)
          (λ p. ok (store_correction f payload_hash scan row t p)) (rw (seen, level, fixed) at e) in
      let aggregate = lookup (row_key row) scan.aggregate in
      let key =
        normalize_play-event_key f payload_hash row "collector" scan.generation aggregate (pos 0)
          scan.now made in
      let columns =
        normalize_play-columns f payload_hash row "collector" scan.generation aggregate (pos 0)
          scan.now made in
      let known =
        completed-known f payload_hash row "collector" scan.generation aggregate (pos 0) scan.now
          made in
      rw (← ok-injective done) (
        refl,
        refl,
        correct play old,
        insert_play-corrects (row_event scan row) play t.plays key stored,
        refl,
        refl,
        refl,
        columns.0,
        columns.1,
        known.3,
      )
