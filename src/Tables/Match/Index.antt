-- ===== src/Tables/Match/Index.antt =====
-- What the indexes of `resolve` hold.
use oraja_traning.Prelude.{
  ◌≡◌, refl, ◌∙◌, String, false, Option, some, List, [], ◌∷◌, ◌++◌, append_assoc, append-nil,
  if◌then◌else◌, keep, arith, Bool-cases, Option-cases, inl, inr, sym,
}
use oraja_traning.Prelude.Eq.{◌==◌, beq_refl, string_eq, option_eq}
use oraja_traning.Prelude.Dict.{Dict, insert, lookup-insert}
use oraja_traning.Tables.Match.{Chart, found_at, index_charts}

found_at-insert :
    (j k : String) (v : List Chart) (d : Dict String (List Chart))
    → found_at j (insert k v d) ≡ (if j == k then v else found_at j d)
unfolding found_at
found_at-insert j k v d = ground (arith, lookup-insert j k v d)

-- The charts whose key is the one asked for.
abbrev pub charts_with : (Chart → Option String) → String → List Chart → List Chart
charts_with key k cs = keep (λ c. key c == some k) cs

-- Adding a chart under `j` adds it to what is found there.
found_at-add :
    (j k : String) (c : Chart) (rest : List Chart) (d : Dict String (List Chart))
    → found_at k (insert j (found_at j d ++ c ∷ []) d) ++ rest
      ≡ found_at k d ++ (if some j == some k then c ∷ rest else rest)
found_at-add j k c rest d = elim (Bool-cases (k == j)) [
  | inl same ↦
      let k_is_j : k ≡ j = (string_eq.beq_iff k j).0 same in
      rw (found_at-insert k j (found_at j d ++ c ∷ []) d, k_is_j, beq_refl j)
        (append_assoc (found_at j d) (c ∷ []) rest)
  | inr other ↦
      let swapped : (j == k) ≡ false =
        ground (arith, string_eq.beq_iff j k, string_eq.beq_iff k j) in
      rw (found_at-insert k j (found_at j d ++ c ∷ []) d, other, swapped) refl
]

-- An index holds, under each key, the charts that have it, in their order.
pub found_at-index_charts :
    (key : Chart → Option String) (k : String) (cs : List Chart) (d : Dict String (List Chart))
    → found_at k (index_charts key cs d) ≡ found_at k d ++ charts_with key k cs
unfolding index_charts
found_at-index_charts key k [] d = sym (append-nil (found_at k d))
found_at-index_charts key k (c ∷ cs) d = elim (Option-cases (key c)) [
  | inl none_given ↦ rw (none_given, index_charts) (found_at-index_charts key k cs d)
  | inr (j, given) ↦
      rw (given, index_charts)
        (found_at-index_charts key k cs (insert j (found_at j d ++ c ∷ []) d)
          ∙ found_at-add j k c (charts_with key k cs) d)
]
