-- ===== src/Tables/Match/Summaries.antt =====
-- The counts of `resolve`, per table.
use mathlib.Core.Path.{subst}
use mathlib.Core.Option.{some-injective}
use oraja_traning.Prelude.{
  ℕ, ◌+◌, ◌≡◌, ◌≢◌, refl, ap, ◌∙◌, sym, String, true, false, none, some, List, [], ◌∷◌,
  if◌then◌else◌, arith, Bool-cases, Option-cases, inl, inr, sum_by, sum_by-append, map,
}
use oraja_traning.Prelude.Eq.{◌==◌, string_eq, beq_refl}
use oraja_traning.Prelude.Dict.{Dict, lookup, insert, lookup-insert}
use oraja_traning.Prelude.Text.{codes}
use oraja_traning.Tables.Match.{
  TableEntry, Chart, MatchedBy, MatchedEntry, UnmatchedEntry, MissReason, Count, MatchReport,
  TableMatchSummary, codes_lt, insert_item, sort_items, Indexes, indexes_of, Outcome, match_with,
  miss, outcome_for, Progress, count_at, count_match, count_total, add_outcome, match_each,
  summary_of, resolve, for_table,
}

codes_lt_irrefl : (cs : List ℕ) → codes_lt cs cs ≡ false
unfolding codes_lt
codes_lt_irrefl [] = refl
codes_lt_irrefl (c ∷ cs) = ground (arith, codes_lt_irrefl cs)

codes_lt-ne : (j k : String) → codes_lt (codes j) (codes k) ≡ true → j ≢ k
codes_lt-ne j k before =
    λ same. cc (ap (λ k. codes_lt (codes j) (codes k)) same, before, codes_lt_irrefl (codes j))

lookup-insert_item :
    (t : String) (e : String × Count) (d : Dict String Count)
    → lookup t (insert_item e d) ≡ lookup t (e ∷ d)
unfolding insert_item lookup
lookup-insert_item t e [] = refl
lookup-insert_item t e ((j, c) ∷ d) = elim (Bool-cases (codes_lt (codes j) (codes e.0))) [
  | inr ahead ↦ rw ahead refl
  | inl behind ↦
      let distinct : j ≢ e.0 = λ same. codes_lt-ne j e.0 behind same in
      ground (
        arith,
        behind,
        lookup-insert_item t e d,
        string_eq.beq_iff t j,
        string_eq.beq_iff t e.0,
        distinct,
      )
]

lookup-sort_items : (t : String) (d : Dict String Count) → lookup t (sort_items d) ≡ lookup t d
unfolding sort_items lookup
lookup-sort_items t [] = refl
lookup-sort_items t (e ∷ d) =
    lookup-insert_item t e (sort_items d) ∙ ground (arith, lookup-sort_items t d)

module _ (strip_lower fold_title : String → String) (table_id : String) where
  for_table-map :
      (d : Dict String Count)
      → for_table table_id (map (summary_of) d)
        ≡ elim (lookup table_id d) [ none ↦ none | some c ↦ some (summary_of (table_id, c)) ]
  unfolding for_table lookup
  for_table-map [] = refl
  for_table-map ((j, c) ∷ d) = elim (Bool-cases (table_id == j)) [
    | inl same ↦ rw (sym ((string_eq.beq_iff table_id j).0 same), beq_refl table_id) refl
    | inr other ↦ rw other (for_table-map d)
  ]

  abbrev pub entries_of : List TableEntry → ℕ
  entries_of es = sum_by (λ e. if table_id == e.table_id then 1 else 0) es

  abbrev pub matches_of : List MatchedEntry → ℕ
  matches_of ms = sum_by (λ m. if table_id == m.entry.table_id then 1 else 0) ms

  abbrev pub misses_of : List UnmatchedEntry → ℕ
  misses_of ms = sum_by (λ m. if table_id == m.entry.table_id then 1 else 0) ms

  count_at-insert :
      (k : String) (c : Count) (d : Dict String Count)
      → count_at table_id (insert k c d) ≡ (if table_id == k then c else count_at table_id d)
  unfolding count_at
  count_at-insert k c d = ground (arith, lookup-insert table_id k c d)

  count_at-some :
      (d : Dict String Count) (c : Count) → lookup table_id d ≡ some c → count_at table_id d ≡ c
  unfolding count_at
  count_at-some d c h = rw (h, count_at) refl

  -- The count of the table agrees with the two lists.
  record Counted (p : Progress) : Type 0 where
    matched_is : (count_at table_id p.counts).matched ≡ matches_of p.matches
    total_is : (count_at table_id p.counts).total ≡ matches_of p.matches + misses_of p.misses
    kinds_are :
        (count_at table_id p.counts).sha256
          + (count_at table_id p.counts).md5
          + (count_at table_id p.counts).title
        ≡ matches_of p.matches

  -- The count of the entry's table moves from `c` to `f c`, that of any other table stays.
  count_at-update :
      (e : TableEntry) (update : Count → Count) (counts : Dict String Count)
      → count_at table_id (insert e.table_id (update (count_at e.table_id counts)) counts) ≡ (
          if table_id == e.table_id
          then update (count_at table_id counts)
          else count_at table_id counts)
  count_at-update e update counts =
      let bumped = count_at-insert e.table_id (update (count_at e.table_id counts)) counts in
      elim (Bool-cases (table_id == e.table_id)) [
        | inr other ↦ rw other (bumped ∙ rw other refl)
        | inl same ↦
            let at : e.table_id ≡ table_id = sym ((string_eq.beq_iff table_id e.table_id).0 same) in
            rw same (bumped ∙ rw same (ap (λ k. update (count_at k counts)) at))
      ]

  -- A match adds one to the matches, to the total, and to one of the kinds.
  record AddsOne (before after : Count) : Type 0 where
    matched_adds : after.matched ≡ before.matched + 1
    total_adds : after.total ≡ before.total + 1
    kinds_add :
        after.sha256 + after.md5 + after.title ≡ before.sha256 + before.md5 + before.title + 1

  count_match-AddsOne :
      (by : MatchedBy) (count : Count) → AddsOne count (count_match by (count_total count))
  count_match-AddsOne MatchedBy.by_sha256 count = record {
    matched_adds = refl;
    total_adds = refl;
    kinds_add = omega arith;
  }
  count_match-AddsOne MatchedBy.by_md5 count = record {
    matched_adds = refl;
    total_adds = refl;
    kinds_add = omega arith;
  }
  count_match-AddsOne MatchedBy.by_title count = record {
    matched_adds = refl;
    total_adds = refl;
    kinds_add = omega arith;
  }

  match-Counted :
      (e : TableEntry) (c : Chart) (by : MatchedBy) (p : Progress)
      → Counted p
      → Counted (add_outcome e (match_with c by) p)
  unfolding add_outcome
  match-Counted e c by p h =
      let update : Count → Count = λ count. count_match by (count_total count) in
      let moved = count_at-update e update p.counts in
      let added =
        sum_by-append (λ m. if table_id == m.entry.table_id then 1 else 0) p.matches
          (record { entry = e; chart = c; matched_by = by } ∷ []) in
      elim (Bool-cases (table_id == e.table_id)) [
        | inl same ↦
            let moves : count_at table_id (add_outcome e (match_with c by) p).counts
                ≡ update (count_at table_id p.counts) =
              moved ∙ rw same refl in
            let adds = count_match-AddsOne by (count_at table_id p.counts) in
            record {
              matched_is = rw moves (ground (arith, h.matched_is, added, adds.matched_adds));
              total_is = rw moves (ground (arith, h.total_is, added, adds.total_adds));
              kinds_are = rw moves (ground (arith, h.kinds_are, added, adds.kinds_add));
            }
        | inr other ↦
            let stays : count_at table_id (add_outcome e (match_with c by) p).counts
                ≡ count_at table_id p.counts =
              moved ∙ rw other refl in
            record {
              matched_is = rw stays (ground (arith, h.matched_is, added));
              total_is = rw stays (ground (arith, h.total_is, added));
              kinds_are = rw stays (ground (arith, h.kinds_are, added));
            }
      ]

  miss-Counted :
      (e : TableEntry) (reason : MissReason) (p : Progress)
      → Counted p
      → Counted (add_outcome e (miss reason) p)
  unfolding add_outcome
  miss-Counted e reason p h =
      let update : Count → Count = λ count. count_total count in
      let moved = count_at-update e update p.counts in
      let added =
        sum_by-append (λ m. if table_id == m.entry.table_id then 1 else 0) p.misses
          (record { entry = e; reason = reason } ∷ []) in
      elim (Bool-cases (table_id == e.table_id)) [
        | inl same ↦
            let moves : count_at table_id (add_outcome e (miss reason) p).counts
                ≡ update (count_at table_id p.counts) =
              moved ∙ rw same refl in
            record {
              matched_is = rw moves h.matched_is;
              total_is = rw moves (ground (arith, h.total_is, added));
              kinds_are = rw moves h.kinds_are;
            }
        | inr other ↦
            let stays : count_at table_id (add_outcome e (miss reason) p).counts
                ≡ count_at table_id p.counts =
              moved ∙ rw other refl in
            record {
              matched_is = rw stays h.matched_is;
              total_is = rw stays (ground (arith, h.total_is, added));
              kinds_are = rw stays h.kinds_are;
            }
      ]

  start-Counted : Counted (record { matches = []; misses = []; counts = [] })
  unfolding count_at lookup
  start-Counted = record { matched_is = refl; total_is = refl; kinds_are = refl }

  add_outcome-Counted :
      (e : TableEntry) (o : Outcome) (p : Progress) → Counted p → Counted (add_outcome e o p)
  add_outcome-Counted e (match_with c by) p h = match-Counted e c by p h
  add_outcome-Counted e (miss reason) p h = miss-Counted e reason p h

  -- One entry more in one of the two lists.
  listed-add_outcome :
      (e : TableEntry) (o : Outcome) (p : Progress)
      → matches_of (add_outcome e o p).matches + misses_of (add_outcome e o p).misses
        ≡ matches_of p.matches + misses_of p.misses + (if table_id == e.table_id then 1 else 0)
  unfolding add_outcome
  listed-add_outcome e (match_with c by) p = ground (
    arith,
    sum_by-append (λ m. if table_id == m.entry.table_id then 1 else 0) p.matches
        (record { entry = e; chart = c; matched_by = by } ∷ []),
  )
  listed-add_outcome e (miss reason) p = ground (
    arith,
    sum_by-append (λ m. if table_id == m.entry.table_id then 1 else 0) p.misses
        (record { entry = e; reason = reason } ∷ []),
  )

  module _ (entries : List TableEntry) (indexes : Indexes) where
    match_each-Counted :
        (es : List TableEntry) (p : Progress)
        → Counted p
        → Counted (match_each strip_lower fold_title entries indexes es p)
    unfolding match_each
    match_each-Counted [] p h = h
    match_each-Counted (e ∷ es) p h = match_each-Counted es _ (add_outcome-Counted e _ p h)

    listed-match_each :
        (es : List TableEntry) (p : Progress)
        → let after = match_each strip_lower fold_title entries indexes es p in
          matches_of after.matches + misses_of after.misses
          ≡ matches_of p.matches + misses_of p.misses + entries_of es
    unfolding match_each
    listed-match_each [] p = omega arith
    listed-match_each (e ∷ es) p =
        let o = outcome_for strip_lower fold_title entries indexes e in
        omega (arith, listed-match_each es (add_outcome e o p), listed-add_outcome e o p)

  -- The summary agrees with the entries, the matches and the misses of its table.
  pub record IsTally (entries : List TableEntry) (r : MatchReport) (t : TableMatchSummary)
      : Type 0 where
    pub entries_are : t.total ≡ entries_of entries
    pub matched_is : t.matched ≡ matches_of r.matches
    pub unmatched_is : t.unmatched ≡ misses_of r.unmatched_entries
    pub kinds_are : t.sha256_matches + t.md5_matches + t.title_matches ≡ t.matched

  -- The summary that the report gives for a table counts the entries of the table, those of them
  -- that are matched and those that are not; every match is counted under one kind.
  pub resolve-IsTally :
      (entries : List TableEntry) (charts : List Chart) (t : TableMatchSummary)
      → for_table table_id (resolve strip_lower fold_title entries charts).tables ≡ some t
      → IsTally entries (resolve strip_lower fold_title entries charts) t
  unfolding resolve
  resolve-IsTally entries charts t found =
      let start : Progress = record { matches = []; misses = []; counts = [] } in
      let indexes = indexes_of strip_lower fold_title charts in
      let p = match_each strip_lower fold_title entries indexes entries start in
      let counted = match_each-Counted entries indexes entries start start-Counted in
      let listed = listed-match_each entries indexes entries start in
      elim (Option-cases (lookup table_id p.counts)) [
        | inl absent ↦ absurd (
            cc (
              found,
              for_table-map (sort_items p.counts),
              lookup-sort_items table_id p.counts,
              absent,
            ))
        | inr (c, present) ↦
            let sorted : lookup table_id (sort_items p.counts) ≡ some c =
              lookup-sort_items table_id p.counts ∙ present in
            let shown : for_table table_id (map summary_of (sort_items p.counts))
                ≡ some (summary_of (table_id, c)) =
              for_table-map (sort_items p.counts) ∙ rw sorted refl in
            let is_summary : summary_of (table_id, c) ≡ t =
              some-injective _ _ (sym shown ∙ found) in
            let is_count : count_at table_id p.counts ≡ c = count_at-some p.counts c present in
            subst (IsTally entries (resolve strip_lower fold_title entries charts)) is_summary
              (record {
                entries_are = ground (arith, listed, counted.total_is, is_count);
                matched_is = ground (arith, counted.matched_is, is_count);
                unmatched_is = ground (arith, counted.total_is, counted.matched_is, is_count);
                kinds_are = ground (arith, counted.kinds_are, counted.matched_is, is_count);
              })
      ]
