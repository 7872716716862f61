-- ===== src/Tables/Match/Matches.antt =====
-- `resolve` matches an entry with the only chart that it can stand for.
use mathlib.Core.Path.{subst}
use oraja_traning.Prelude.{
  ◌≡◌, refl, ◌∙◌, sym, String, Option, some, List, [], ◌∷◌, arith, true, Bool-cases, Option-cases,
  inl, inr, ◌⊎◌, nat_beq, All, All-append,
}
use oraja_traning.Prelude.Eq.{string_eq, option_eq}
use oraja_traning.Prelude.Dict.{lookup}
use oraja_traning.Tables.Match.{
  TableEntry, Chart, MatchedBy, MatchedEntry, found_at, index_charts, hash, title_of, indexes_of,
  is_legacy, legacy_title_count, candidates_at, Outcome, match_with, miss, title_outcome,
  match_title, hash_outcome, outcome_for, Progress, add_outcome, match_each, resolve, non_empty,
}
use oraja_traning.Tables.Match.Index.{charts_with, found_at-index_charts}

module _ (strip_lower fold_title : String → String) where
  -- The only chart with one of the entry's hashes; or the only one with its title, for an entry
  -- that goes by its title, which no other such entry has.
  abbrev pub IsOnly : List TableEntry → List Chart → TableEntry → Chart → MatchedBy → Type 0
  IsOnly entries charts e c MatchedBy.by_sha256 =
      (k : String) × ((non_empty e.sha256 ≡ some k)
        × (charts_with (λ c. hash strip_lower fold_title 64 c.sha256) k charts ≡ c ∷ []))
  IsOnly entries charts e c MatchedBy.by_md5 =
      (k : String) × ((non_empty e.md5 ≡ some k)
        × (charts_with (λ c. hash strip_lower fold_title 32 c.md5) k charts ≡ c ∷ []))
  IsOnly entries charts e c MatchedBy.by_title =
      (is_legacy e ≡ true)
      × ((k : String) × ((title_of strip_lower fold_title e.title ≡ some k)
            × ((legacy_title_count strip_lower fold_title entries k ≡ 1)
                × (charts_with (λ c. title_of strip_lower fold_title c.title) k charts ≡ c ∷ []))))

  candidates_at-only :
      (key : Chart → Option String) (k? : Option String) (charts : List Chart) (c : Chart)
      → candidates_at k? (index_charts key charts []) ≡ c ∷ []
      → (k : String) × ((non_empty k? ≡ some k) × (charts_with key k charts ≡ c ∷ []))
  unfolding found_at lookup
  candidates_at-only key k? charts c h = elim (Option-cases (non_empty k?)) [
    | inl nothing ↦ absurd (ground arith)
    | inr (k, given) ↦ (k, (given, sym (found_at-index_charts key k charts []) ∙ ground arith))
  ]

  hash_outcome-match :
      (cs ms : List Chart) (otherwise : Outcome) (c : Chart) (by : MatchedBy)
      → hash_outcome cs ms otherwise ≡ match_with c by
      → ((by ≡ MatchedBy.by_sha256) × (cs ≡ c ∷ []))
        ⊎ (((by ≡ MatchedBy.by_md5) × (ms ≡ c ∷ [])) ⊎ (otherwise ≡ match_with c by))
  unfolding hash_outcome
  hash_outcome-match [] [] otherwise c by h = inr (inr h)
  hash_outcome-match [] (m ∷ []) otherwise c by h = inr (inl (cc h, cc h))
  hash_outcome-match [] (m ∷ (m' ∷ ms)) otherwise c by h = absurd (ground arith)
  hash_outcome-match (x ∷ []) ms otherwise c by h = inl (cc h, cc h)
  hash_outcome-match (x ∷ (x' ∷ cs)) [] otherwise c by h = absurd (ground arith)
  hash_outcome-match (x ∷ (x' ∷ cs)) (m ∷ []) otherwise c by h = inr (inl (cc h, cc h))
  hash_outcome-match (x ∷ (x' ∷ cs)) (m ∷ (m' ∷ ms)) otherwise c by h = absurd (ground arith)

  title_outcome-match :
      (cs : List Chart) (c : Chart) (by : MatchedBy)
      → title_outcome cs ≡ match_with c by
      → (by ≡ MatchedBy.by_title) × (cs ≡ c ∷ [])
  unfolding title_outcome
  title_outcome-match [] c by h = absurd (ground arith)
  title_outcome-match (x ∷ []) c by h = (cc h, cc h)
  title_outcome-match (x ∷ (x' ∷ cs)) c by h = absurd (ground arith)

  module _ (entries : List TableEntry) (charts : List Chart) where
    match_title-IsOnly :
        (e : TableEntry) (c : Chart) (by : MatchedBy)
        → is_legacy e ≡ true
        → match_title strip_lower fold_title entries (indexes_of strip_lower fold_title charts) e
          ≡ match_with c by
        → IsOnly entries charts e c by
    unfolding match_title indexes_of found_at lookup
    match_title-IsOnly e c by legacy h =
        let key : Chart → Option String = λ c. title_of strip_lower fold_title c.title in
        elim (Option-cases (title_of strip_lower fold_title e.title)) [
          | inl untitled ↦ absurd (ground arith)
          | inr (k, titled) ↦
              elim (Bool-cases (nat_beq (legacy_title_count strip_lower fold_title entries k) 1)) [
                | inr several ↦ absurd (ground arith)
                | inl once ↦
                    let (is_title, only) =
                      title_outcome-match (found_at k (index_charts key charts [])) c by
                        (ground arith) in
                    subst (IsOnly entries charts e c) (sym is_title) (
                      legacy,
                      (
                        k,
                        (
                          titled,
                          (ground arith, sym (found_at-index_charts key k charts []) ∙ only),
                        ),
                      ),
                    )
              ]
        ]

    outcome_for-IsOnly :
        (e : TableEntry) (c : Chart) (by : MatchedBy)
        → outcome_for strip_lower fold_title entries (indexes_of strip_lower fold_title charts) e
          ≡ match_with c by
        → IsOnly entries charts e c by
    unfolding outcome_for indexes_of
    outcome_for-IsOnly e c by h =
        elim (hash_outcome-match
          (candidates_at e.sha256 (indexes_of strip_lower fold_title charts).sha_index)
          (candidates_at e.md5 (indexes_of strip_lower fold_title charts).md5_index) _ c by h) [
            | inl (is_sha256, only) ↦ subst (IsOnly entries charts e c) (sym is_sha256) (
                candidates_at-only (λ c. hash strip_lower fold_title 64 c.sha256) e.sha256 charts c
                  only)
            | inr (inl (is_md5, only)) ↦
                subst (IsOnly entries charts e c) (sym is_md5) (
                  candidates_at-only (λ c. hash strip_lower fold_title 32 c.md5) e.md5 charts c
                    only)
            | inr (inr otherwise) ↦ elim (Bool-cases (is_legacy e)) [
              | inl legacy ↦ match_title-IsOnly e c by legacy (ground arith)
              | inr modern ↦ absurd (ground arith)
            ]
          ]

    abbrev pub IsSound : MatchedEntry → Type 0
    IsSound m = IsOnly entries charts m.entry m.chart m.matched_by

    add_outcome-IsSound :
        (e : TableEntry) (o : Outcome) (p : Progress)
        → ((c : Chart) (by : MatchedBy) → o ≡ match_with c by → IsOnly entries charts e c by)
        → All IsSound p.matches
        → All IsSound (add_outcome e o p).matches
    unfolding add_outcome
    add_outcome-IsSound e (match_with c by) p only h =
        All-append IsSound p.matches _ h (only c by refl, tt)
    add_outcome-IsSound e (miss reason) p only h = h

    match_each-IsSound :
        (es : List TableEntry) (p : Progress)
        → All IsSound p.matches
        → All IsSound
            (match_each strip_lower fold_title entries
              (indexes_of strip_lower fold_title charts)
              es
              p).matches
    unfolding match_each
    match_each-IsSound [] p h = h
    match_each-IsSound (e ∷ es) p h =
        match_each-IsSound es _ (add_outcome-IsSound e _ p (outcome_for-IsOnly e) h)

    -- Every match is with the only owned chart that has the entry's SHA-256, or the only one that
    -- has its MD5, or the only one that has its title, where the entry is one that is matched by
    -- title (`unique_title`) and no other such entry has that title.
    pub resolve-IsSound : All IsSound (resolve strip_lower fold_title entries charts).matches
    unfolding resolve
    resolve-IsSound = match_each-IsSound entries _ tt
