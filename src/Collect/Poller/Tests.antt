-- ===== src/Collect/Poller/Tests.antt =====
-- Runs of the collector, and its theorems at concrete inputs.
use oraja_traning.Prelude.{
  ℕ, ◌+◌, ◌≡◌, refl, String, false, none, some, [], ◌∷◌, arith, if◌then◌else◌,
}
use text.Mathlib.TextEquality.{eq_iff}
use oraja_traning.Prelude.Int.{ℤ, pos, ◌-ℤ◌}
use oraja_traning.Prelude.Eq.{pair_beq, ◌==◌, int_eq, pair_eq, string_eq}
use oraja_traning.Prelude.Dict.{lookup, insert}
use oraja_traning.Prelude.Result.{Result, ok, err}
use oraja_traning.Samples.{thousandths}
use oraja_traning.Domain.Play.{DomainError}
use oraja_traning.Collect.Normalize.{ScoreRow, play_of, normalize_play}
use oraja_traning.Db.Plays.{StoredPlay, insert_play, find_event}
use oraja_traning.Db.Cursors.{upsert_cursor, load_cursors}
use oraja_traning.Db.State.{Assistant, upsert_collector_state}
use oraja_traning.Collect.Poller.{
  Snapshot, Scan, Tally, ScoreResult, scan_row, scan_rows, scan_of, generation_changes,
  generation_of, content_scan, finish,
}
use oraja_traning.Collect.Poller.Rescan.{content_scan_again}
use oraja_traning.Collect.Poller.Rows.{HasDistinctKeys}
use oraja_traning.Collect.Poller.Scanned.{IsScanned, content_scan-IsScanned, HasNoFutureCursors}
use oraja_traning.Collect.Poller.Counts.{scan_row_corrects, scan_rows-counts, row_event}

abbrev digest : ScoreRow → String
digest row = if row.clear == pos 5 then "normal" else "easy"

abbrev row_a : ScoreRow
row_a = record {
  sha256 = "aa";
  mode = pos 0;
  date = pos 1000;
  playcount = pos 3;
  clear = pos 4;
  notes = some (pos 100);
  minbp = some (pos 5);
  combo = none;
  epg = some (pos 60);
  lpg = some (pos 20);
  egr = some (pos 15);
  lgr = some (pos 3);
  egd = none;
  lgd = none;
  ebd = none;
  lbd = none;
  epr = none;
  lpr = none;
  ems = some (pos 1);
  lms = none;
  option = none;
  seed = none;
  random = none;
  trophy = none;
}

abbrev row_b : ScoreRow
row_b = record row_a { sha256 = "bb"; playcount = pos 1 }

abbrev source : Snapshot ℕ
source = record {
  rows = row_a ∷ row_b ∷ [];
  aggregate = [];
  main_identity = (some (pos 7), some (pos 8));
  last_mtime = none;
  total_size = pos 4096;
}

abbrev empty : Assistant ℕ
empty = record { plays = record { rows = []; next_id = 1 }; cursors = []; states = [] }

abbrev after : Result DomainError (Assistant ℕ × ScoreResult) → Assistant ℕ
after (ok (a, r)) = a
after (err e) = empty

abbrev result : Result DomainError (Assistant ℕ × ScoreResult) → ScoreResult
result (ok (a, r)) = r
result (err e) = record { new_plays = 0; lost_events = 0; generation_changed = false }

abbrev first_scan : Result DomainError (Assistant ℕ × ScoreResult)
first_scan = content_scan thousandths digest none source (pos 2000) empty

first_scan_runs : first_scan ≡ ok (after first_scan, result first_scan)
unfolding content_scan scan_rows scan_row scan_of generation_changes generation_of finish
    upsert_collector_state normalize_play insert_play upsert_cursor load_cursors lookup insert
    pair_beq
first_scan_runs = refl

source-HasDistinctKeys : HasDistinctKeys source.rows
unfolding pair_beq
source-HasDistinctKeys = (refl, (refl, tt))

first_scan_counts :
    result first_scan ≡ record { new_plays = 2; lost_events = 0; generation_changed = false }
unfolding content_scan scan_rows scan_row scan_of generation_changes generation_of finish
    upsert_collector_state normalize_play insert_play upsert_cursor load_cursors lookup insert
    pair_beq
first_scan_counts = refl

empty-HasNoFutureCursors : HasNoFutureCursors empty
unfolding lookup
empty-HasNoFutureCursors g k later = refl

content_scan_again_example :
    (a : Assistant ℕ) × (content_scan thousandths digest
        (some source.main_identity)
        source
        (pos 3000)
        (after first_scan)
      ≡ ok (a, record { new_plays = 0; lost_events = 0; generation_changed = false }))
    × (a.plays ≡ (after first_scan).plays)
    × (a.cursors ≡ (after first_scan).cursors)
    × (generation_of a ≡ generation_of (after first_scan))
content_scan_again_example =
    content_scan_again thousandths digest none source (pos 2000) (pos 3000) empty first_scan_runs
      source-HasDistinctKeys empty-HasNoFutureCursors tt

content_scan-IsScanned_example : IsScanned digest source.rows empty (after first_scan)
content_scan-IsScanned_example =
    content_scan-IsScanned thousandths digest none source (pos 2000) empty first_scan_runs
      source-HasDistinctKeys empty-HasNoFutureCursors tt

-- The same chart, played once more than was seen, twice more, and with another result.
abbrev scan_from : ℤ → String → Scan
scan_from playcount hash = record {
  generation = pos 0;
  loaded = (("aa", pos 0), (playcount, hash)) ∷ [];
  aggregate = [];
  now = pos 2000;
}

abbrev blank : Tally ℕ
blank = record { plays = empty.plays; cursors = []; new_plays = 0; lost_total = 0 }

abbrev tally_after : Result DomainError (Tally ℕ) → Tally ℕ
tally_after (ok t) = t
tally_after (err e) = blank

abbrev two_behind : Result DomainError (Tally ℕ)
two_behind = scan_rows thousandths digest (scan_from (pos 1) "easy") (row_a ∷ row_b ∷ []) blank

two_behind_runs : two_behind ≡ ok (tally_after two_behind)
unfolding scan_rows scan_row normalize_play insert_play upsert_cursor lookup insert pair_beq ◌-ℤ◌
two_behind_runs = refl

two_behind_counts :
    ((tally_after two_behind).new_plays ≡ 2) × ((tally_after two_behind).lost_total ≡ 1)
unfolding scan_rows scan_row normalize_play insert_play upsert_cursor lookup insert pair_beq ◌-ℤ◌
two_behind_counts = (refl, refl)

scan_rows-counts_example :
    (tally_after two_behind).new_plays + (tally_after two_behind).lost_total ≡ 3
unfolding lookup pair_beq find_event ◌-ℤ◌
scan_rows-counts_example =
    scan_rows-counts thousandths digest (scan_from (pos 1) "easy") (row_a ∷ row_b ∷ []) blank
      two_behind_runs (refl, (refl, tt)) ((λ ahead. refl), ((λ ahead. refl), tt))

-- The chart's cursor shows another payload, and its event is stored.
abbrev stale : Scan
stale = scan_from (pos 3) "stale"

abbrev corrected : Result DomainError (Tally ℕ)
corrected = scan_row thousandths digest stale row_a (tally_after two_behind)

corrected_runs : corrected ≡ ok (tally_after corrected)
unfolding scan_rows scan_row normalize_play insert_play upsert_cursor lookup insert pair_beq ◌-ℤ◌
corrected_runs = refl

abbrev absent_play : StoredPlay ℕ
absent_play = record {
  id = 0;
  play = play_of thousandths digest row_b "collector" (pos 0) none (pos 0) (pos 0);
}

abbrev stored_play : StoredPlay ℕ
stored_play = elim (tally_after two_behind).plays.rows [ r ∷ rs ↦ r | [] ↦ absent_play ]

stored_play_found :
    find_event (row_event stale row_a) (tally_after two_behind).plays.rows ≡ some stored_play
unfolding scan_rows scan_row normalize_play insert_play upsert_cursor lookup insert pair_beq ◌-ℤ◌
    find_event
stored_play_found = refl

scan_row_corrects_example :
    ((tally_after corrected).new_plays ≡ (tally_after two_behind).new_plays)
    × ((tally_after corrected).lost_total ≡ (tally_after two_behind).lost_total)
    × (r : StoredPlay ℕ) × (find_event (row_event stale row_a) (tally_after corrected).plays.rows
        ≡ some r)
    × (r.id ≡ stored_play.id)
    × (r.play.source ≡ stored_play.play.source)
    × (r.play.lost_events ≡ stored_play.play.lost_events)
    × (r.play.clear ≡ row_a.clear)
    × (r.play.payload_hash ≡ digest row_a)
    × (r.play.selected_gauge_kind ≡ none)
unfolding lookup pair_beq
scan_row_corrects_example =
    scan_row_corrects thousandths digest stale row_a (tally_after two_behind) corrected_runs refl
      refl (λ same. ground (arith, eq_iff "easy" "stale")) stored_play_found
