-- ===== src/Collect/Poller/Scanned.antt =====
-- A whole scan that succeeds: the cursors show the source row by row, and nothing else.
use oraja_traning.Prelude.{
  ◌≡◌, refl, sym, ap, String, true, false, none, List, [], ◌∷◌, arith, All, is_some, ◌∙◌, Option,
  Bool-cases, inl, inr,
}
use mathlib.Core.Path.{subst}
use oraja_traning.Prelude.Int.{ℤ, pos, ◌<ℤ◌, ◌≤ℤ◌, ◌+ℤ◌, int_laws}
use oraja_traning.Prelude.Eq.{contains, int_eq, string_eq, pair_eq}
use oraja_traning.Prelude.Dict.{lookup, has_key, key_of_any, lookup-insert_self}
use oraja_traning.Prelude.Float.{Float}
use oraja_traning.Prelude.Result.{ok, >>=-eq-ok, ok-injective}
use oraja_traning.Collect.Normalize.{ScoreRow}
use oraja_traning.Db.Plays.Keys.{HasUniqueKeys}
use oraja_traning.Db.Cursors.{ChartKey, load_cursors, lookup-load_cursors}
use oraja_traning.Db.State.{Assistant, upsert_collector_state}
use oraja_traning.Collect.Poller.{
  Scan, Tally, Snapshot, ScoreResult, scan_rows, went_back, rolled_back, keys_vanished,
  generation_of, generation_changes, scan_of, finish, content_scan,
}
use oraja_traning.Collect.Poller.Rows.{
  row_keys, HasDistinctKeys, IsCaughtUp, scan_rows-HasUniqueKeys, scan_rows-other,
  scan_rows-IsCaughtUp,
}

-- No cursor belongs to a generation that has not begun.
abbrev pub HasNoFutureCursors : {F : Type 0} → Assistant F → Type 0
HasNoFutureCursors a =
    (g : ℤ) (k : ChartKey) → generation_of a <ℤ g → lookup (g, k) a.cursors ≡ none

not_went_back :
    (loaded : _) (rows : List ScoreRow)
    → rolled_back loaded rows ≡ false
    → All (λ row. went_back loaded row ≡ false) rows
unfolding rolled_back
not_went_back loaded [] h = tt
not_went_back loaded (row ∷ rows) h = (ground arith, not_went_back loaded rows (ground arith))

rolled_back-nil : (rows : List ScoreRow) → rolled_back [] rows ≡ false
unfolding rolled_back went_back lookup
rolled_back-nil [] = refl
rolled_back-nil (row ∷ rows) = rolled_back-nil rows

module _ {F : Type 0} (last : Option (Option ℤ × Option ℤ)) (snapshot : Snapshot F) (now : ℤ)
    (a : Assistant F) where
  -- A new generation begins with no cursors, so the table and what was loaded agree.
  scan_of-loaded :
      HasNoFutureCursors a
      → (k : ChartKey)
      → let scan = scan_of last snapshot now a in
        lookup (scan.generation, k) a.cursors ≡ lookup k scan.loaded
  unfolding scan_of lookup
  scan_of-loaded fresh k = elim (Bool-cases (generation_changes last snapshot a)) [
    | inl changed ↦ rw changed (fresh (generation_of a +ℤ pos 1) k (omega int_laws))
    | inr kept ↦ rw kept (sym (lookup-load_cursors (generation_of a) k a.cursors))
  ]

  scan_of-forward :
      All (λ row. went_back (scan_of last snapshot now a).loaded row ≡ false) snapshot.rows
  unfolding scan_of lookup generation_changes
  scan_of-forward = elim (Bool-cases (generation_changes last snapshot a)) [
    | inl changed ↦ rw changed (not_went_back [] snapshot.rows (rolled_back-nil snapshot.rows))
    | inr kept ↦ rw kept (not_went_back _ snapshot.rows (ground arith))
  ]

  -- Every cursor of the scan's generation belongs to a row, before the scan too.
  scan_of-no_stray :
      HasNoFutureCursors a
      → (k : ChartKey) → has_key ((scan_of last snapshot now a).generation, k) a.cursors ≡ true
      → contains k (row_keys snapshot.rows) ≡ true
  unfolding scan_of generation_changes keys_vanished
  scan_of-no_stray fresh k = elim (Bool-cases (generation_changes last snapshot a)) [
    | inl changed ↦
        rw changed
          λ found. ground (arith, rw (fresh (generation_of a +ℤ pos 1) k (omega int_laws)) at found)
    | inr kept ↦ rw kept λ found.
        key_of_any (λ j. contains j (row_keys snapshot.rows))
          (load_cursors (generation_of a) a.cursors) k (ground arith)
          (ap is_some (lookup-load_cursors (generation_of a) k a.cursors) ∙ found)
  ]

-- Every cursor of the current generation belongs to a row.
abbrev pub HasNoStrayCursors : {F : Type 0} → Assistant F → List ScoreRow → Type 0
HasNoStrayCursors a rows =
    (k : ChartKey)
    → has_key (generation_of a, k) a.cursors ≡ true
    → contains k (row_keys rows) ≡ true

-- What a finished scan leaves: the generation never goes back, the cursors show the source row by
-- row and nothing else in their generation, and no event key is stored twice.
pub record IsScanned {F : Type 0} (payload_hash : ScoreRow → String) (rows : List ScoreRow)
    (a a' : Assistant F) : Type 0 where
  pub generation_grows : generation_of a ≤ℤ generation_of a'
  pub caught_up : IsCaughtUp payload_hash (generation_of a') a'.cursors rows
  pub no_future : HasNoFutureCursors a'
  pub no_stray : HasNoStrayCursors a' rows
  pub unique_keys : HasUniqueKeys a'.plays.rows

module _ (f : Float) (payload_hash : ScoreRow → String) where
  open f use {Num}

  module _ (last : Option (Option ℤ × Option ℤ)) (snapshot : Snapshot Num) (now : ℤ)
      (a : Assistant Num) where
    abbrev pub start : Tally Num
    start = record { plays = a.plays; cursors = a.cursors; new_plays = 0; lost_total = 0 }

    abbrev pub this_scan : Scan
    this_scan = scan_of last snapshot now a

    abbrev pub finished : Tally Num → Assistant Num × ScoreResult
    finished t = finish f payload_hash snapshot this_scan (generation_changes last snapshot a) a t

    -- A scan that succeeds ran its loop to the end.
    content_scan-run :
        {a' : Assistant Num} {r : ScoreResult}
        → content_scan f payload_hash last snapshot now a ≡ ok (a', r)
        → (t : Tally Num) × (scan_rows f payload_hash this_scan snapshot.rows start ≡ ok t)
          × (finished t ≡ (a', r))
    unfolding content_scan
    content_scan-run {a'} {r} e =
        let (t, ran, done) =
          >>=-eq-ok (scan_rows f payload_hash this_scan snapshot.rows start) _ e in
        (t, ran, ok-injective done)

    pub finish-generation : (t : Tally Num) → generation_of (finished t).0 ≡ this_scan.generation
    unfolding generation_of finish upsert_collector_state
    finish-generation t = rw lookup-insert_self refl

    this_scan-grows : generation_of a ≤ℤ this_scan.generation
    unfolding scan_of
    this_scan-grows = elim (Bool-cases (generation_changes last snapshot a)) [
      | inl changed ↦ rw changed (omega int_laws)
      | inr kept ↦ rw kept (omega arith)
    ]

    module _ (distinct : HasDistinctKeys snapshot.rows) (fresh : HasNoFutureCursors a)
        (unique : HasUniqueKeys a.plays.rows) (t : Tally Num)
        (ran : scan_rows f payload_hash this_scan snapshot.rows start ≡ ok t) where
      run-IsCaughtUp : IsCaughtUp payload_hash this_scan.generation t.cursors snapshot.rows
      run-IsCaughtUp =
          scan_rows-IsCaughtUp f payload_hash this_scan snapshot.rows start ran distinct
            (λ k member. scan_of-loaded last snapshot now a fresh k)
            (scan_of-forward last snapshot now a)

      run-no_future :
          (g : ℤ) (k : ChartKey) → this_scan.generation <ℤ g → lookup (g, k) t.cursors ≡ none
      run-no_future g k later =
          scan_rows-other f payload_hash this_scan snapshot.rows start g k ran
            (ground (arith, int_eq.beq_iff g this_scan.generation))
          ∙ fresh g k (omega (arith, this_scan-grows))

      run-no_stray :
          (k : ChartKey)
          → has_key (this_scan.generation, k) t.cursors ≡ true
          → contains k (row_keys snapshot.rows) ≡ true
      run-no_stray k found = elim (Bool-cases (contains k (row_keys snapshot.rows))) [
        | inl member ↦ member
        | inr absent ↦ scan_of-no_stray last snapshot now a fresh k (
            sym (
              ap is_some (
                scan_rows-other f payload_hash this_scan snapshot.rows start this_scan.generation k
                  ran (ground (arith, absent))))
            ∙ found)
      ]

    -- When the rows have distinct keys, no cursor belongs to a generation that has not begun, and no
    -- event is stored twice, a scan that succeeds leaves a database that shows its source: the
    -- generation does not go back, each row's cursor holds its play count and payload, the
    -- generation has no other cursor, and the conditions on the database hold again.
    pub content_scan-IsScanned :
        {a' : Assistant Num} {r : ScoreResult}
        → content_scan f payload_hash last snapshot now a ≡ ok (a', r)
        → HasDistinctKeys snapshot.rows
        → HasNoFutureCursors a
        → HasUniqueKeys a.plays.rows
        → IsScanned payload_hash snapshot.rows a a'
    unfolding finish upsert_collector_state
    content_scan-IsScanned {a'} {r} e distinct fresh unique =
        let (t, ran, done) = content_scan-run e in
        let same_generation = finish-generation t in
        subst (λ s. IsScanned payload_hash snapshot.rows a s.0) done
          (record {
            generation_grows = rw same_generation this_scan-grows;
            caught_up = rw same_generation (run-IsCaughtUp distinct fresh unique t ran);
            no_future = rw same_generation (run-no_future distinct fresh unique t ran);
            no_stray = rw same_generation (run-no_stray distinct fresh unique t ran);
            unique_keys =
                scan_rows-HasUniqueKeys f payload_hash this_scan snapshot.rows start ran unique;
          })
