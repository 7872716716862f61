-- ===== src/Prelude/Distinct.antt =====
-- Lists of texts in which no text stands twice.
use Prim.Native.Nat.{ℕ}
use Prim.Native.String.{String}
use mathlib.Core.Path.{◌≡◌, refl, sym, ◌∙◌}
use mathlib.Core.Logic.{inl, inr}
use mathlib.Core.Bool.{Bool, true, false, not, ◌&&◌, ◌||◌}
use mathlib.Core.List.{List, [], ◌∷◌, ◌++◌}
use native.Mathlib.Omega.{arith}
use oraja_traning.Prelude.Tests.{if◌then◌else◌, Bool-cases, and-eq-true}
use oraja_traning.Prelude.Lists.{all, sum_by}
use oraja_traning.Prelude.Eq.{◌==◌, string_eq, contains, ne_of_contains}

-- How often a text occurs.
abbrev pub occurrences : String → List String → ℕ
occurrences s names = sum_by (λ (n : String). if s == n then 1 else 0) names

-- Whether no text stands twice.
abbrev pub distinct : List String → Bool
distinct [] = true
distinct (n ∷ ns) = not (contains n ns) && distinct ns

pub occurrences_none :
    (s : String) (ns : List String) → contains s ns ≡ false → occurrences s ns ≡ 0
occurrences_none s [] h = refl
occurrences_none s (n ∷ ns) h = ground (arith, occurrences_none s ns)

pub occurrences_one :
    (s : String) (ns : List String)
    → distinct ns ≡ true
    → contains s ns ≡ true
    → occurrences s ns ≡ 1
occurrences_one s [] d h = cc
occurrences_one s (n ∷ ns) d h = elim (Bool-cases (s == n)) [
  | inl same ↦
      let e : s ≡ n = (string_eq.beq_iff s n).0 same in
      ground (
        arith,
        occurrences_none s ns,
        e,
        ne_of_contains s n ns,
        string_eq.beq_iff s n,
        Bool-cases (contains s ns),
      )
  | inr other ↦ ground (arith, occurrences_one s ns)
]

pub contains-append :
    (s n : String) (ns : List String) → contains s (ns ++ n ∷ []) ≡ (contains s ns || s == n)
contains-append s n [] = ground arith
contains-append s n (m ∷ ns) = ground (arith, contains-append s n ns)

pub distinct-append :
    (n : String) (ns : List String)
    → distinct ns ≡ true
    → contains n ns ≡ false
    → distinct (ns ++ n ∷ []) ≡ true
distinct-append n [] d h = refl
distinct-append n (m ∷ ns) d h = ground (
  arith,
  contains-append m n ns,
  distinct-append n ns,
  string_eq.beq_iff m n,
  string_eq.beq_iff n m,
)

pub all_found :
    (p : String → Bool) (ns : List String) (s : String)
    → all p ns ≡ true
    → contains s ns ≡ true
    → p s ≡ true
all_found p [] s h found = cc
all_found p (n ∷ ns) s h found = elim (Bool-cases (s == n)) [
  | inl same ↦ let e : s ≡ n = (string_eq.beq_iff s n).0 same in rw e (and-eq-true (p n) _ h).0
  | inr other ↦ all_found p ns s (and-eq-true (p n) _ h).1 (ground arith)
]

-- Lists with the same items, none twice, agree on how often a text occurs.
pub same_occurrences :
    (a b : List String)
    → distinct a ≡ true
    → distinct b ≡ true
    → all (λ (n : String). contains n b) a ≡ true
    → all (λ (n : String). contains n a) b ≡ true
    → (s : String) → occurrences s a ≡ occurrences s b
same_occurrences a b da db ab ba s = elim (Bool-cases (contains s a)) [
  | inl here ↦
      let there = all_found (λ (n : String). contains n b) a s ab here in
      occurrences_one s a da here ∙ sym (occurrences_one s b db there)
  | inr absent ↦ elim (Bool-cases (contains s b)) [
    | inl there ↦ let here = all_found (λ (n : String). contains n a) b s ba there in ground arith
    | inr nowhere ↦ occurrences_none s a absent ∙ sym (occurrences_none s b nowhere)
  ]
]
