-- ===== src/Prelude/Lists.antt =====
-- Lists measured and indexed by native numbers, under the library's names, and predicates on
-- every item.
use Prim.Native.Nat.{ℕ, zero, suc, ◌+◌, ◌≤◌, min}
use mathlib.Core.Path.{◌≡◌, refl}
use mathlib.Core.Bool.{Bool, true, false, ◌&&◌, ◌||◌}
use mathlib.Core.List.{List, [], ◌∷◌, ◌++◌, map}
use mathlib.Core.Option.{Option, none, some}
use native.Mathlib.Omega.{arith}
use mathlib.Core.Path.{subst}
use mathlib.Core.Option.{some-injective}
use mathlib.Core.Logic.{inl, inr}
use oraja_traning.Prelude.Tests.{if◌then◌else◌, Bool-cases}

module _ {ℓ} {A : Type ℓ} where
  abbrev pub length : List A → ℕ
  length [] = 0
  length (x ∷ xs) = suc (length xs)

  abbrev pub get_elem? : List A → ℕ → Option A
  get_elem? [] i = none
  get_elem? (x ∷ xs) zero = some x
  get_elem? (x ∷ xs) (suc i) = get_elem? xs i

  -- `xs.pop(i)`: the rest of the list.
  abbrev pub erase_idx : List A → ℕ → List A
  erase_idx [] i = []
  erase_idx (x ∷ xs) zero = xs
  erase_idx (x ∷ xs) (suc i) = x ∷ erase_idx xs i

  abbrev pub take : ℕ → List A → List A
  take zero xs = []
  take (suc n) [] = []
  take (suc n) (x ∷ xs) = x ∷ take n xs

  abbrev pub drop : ℕ → List A → List A
  drop zero xs = xs
  drop (suc n) [] = []
  drop (suc n) (x ∷ xs) = drop n xs

  pub length-append : (xs ys : List A) → length (xs ++ ys) ≡ length xs + length ys
  length-append [] ys = omega arith
  length-append (x ∷ xs) ys = omega (arith, length-append xs ys)

  pub length-take : (n : ℕ) (xs : List A) → length (take n xs) ≡ min n (length xs)
  length-take zero xs = omega arith
  length-take (suc n) [] = omega arith
  length-take (suc n) (x ∷ xs) = omega (arith, length-take n xs)

  pub length-erase_idx :
      (xs : List A) (i : ℕ) {x : A}
      → get_elem? xs i ≡ some x
      → length xs ≡ suc (length (erase_idx xs i))
  length-erase_idx [] i h = cc
  length-erase_idx (y ∷ xs) zero h = omega arith
  length-erase_idx (y ∷ xs) (suc i) h = omega (arith, length-erase_idx xs i h)

  -- An index with nothing at it is past the end.
  pub length-≤ : (xs : List A) (i : ℕ) → get_elem? xs i ≡ none → length xs ≤ i
  length-≤ [] i h = omega arith
  length-≤ (x ∷ xs) zero h = cc
  length-≤ (x ∷ xs) (suc i) h = omega (arith, length-≤ xs i h)

  -- `[x for x in xs if p(x)]`
  abbrev pub keep : (A → Bool) → List A → List A
  keep p [] = []
  keep p (x ∷ xs) = if p x then x ∷ keep p xs else keep p xs

  -- `any(p(x) for x in xs)` and `all(p(x) for x in xs)`
  abbrev pub any : (A → Bool) → List A → Bool
  any p [] = false
  any p (x ∷ xs) = p x || any p xs

  abbrev pub all : (A → Bool) → List A → Bool
  all p [] = true
  all p (x ∷ xs) = p x && all p xs

  -- `sum(f(x) for x in xs)`
  abbrev pub sum_by : (A → ℕ) → List A → ℕ
  sum_by f [] = 0
  sum_by f (x ∷ xs) = f x + sum_by f xs

  pub sum_by-append : (f : A → ℕ) (xs ys : List A) → sum_by f (xs ++ ys) ≡ sum_by f xs + sum_by f ys
  sum_by-append f [] ys = omega arith
  sum_by-append f (x ∷ xs) ys = omega (arith, sum_by-append f xs ys)

  pub sum_by-erase_idx :
      (f : A → ℕ) (xs : List A) (i : ℕ) {x : A}
      → get_elem? xs i ≡ some x
      → sum_by f xs ≡ f x + sum_by f (erase_idx xs i)
  sum_by-erase_idx f [] i h = cc
  sum_by-erase_idx f (y ∷ xs) zero {x} h = rw (some-injective y x h) refl
  sum_by-erase_idx f (y ∷ xs) (suc i) h = omega (arith, sum_by-erase_idx f xs i h)

module _ {ℓ κ} {A : Type ℓ} where
  abbrev pub All : (A → Type κ) → List A → Type κ
  All P [] = Unit
  All P (x ∷ xs) = P x × All P xs

  pub All-append : (P : A → Type κ) (xs ys : List A) → All P xs → All P ys → All P (xs ++ ys)
  All-append P [] ys first rest = rest
  All-append P (x ∷ xs) ys (here, first) rest = (here, All-append P xs ys first rest)

  pub All-keep :
      (P : A → Type κ) (p : A → Bool) (xs : List A)
      → All P xs
      → All (λ x. P x × (p x ≡ true)) (keep p xs)
  All-keep P p [] h = tt
  All-keep P p (x ∷ xs) h = elim (Bool-cases (p x)) [
    | inl kept ↦ rw kept ((h.0, kept), All-keep P p xs h.1)
    | inr dropped ↦ rw dropped (All-keep P p xs h.1)
  ]

  pub All-map : (P Q : A → Type κ) (xs : List A) → ((x : A) → P x → Q x) → All P xs → All Q xs
  All-map P Q [] f h = tt
  All-map P Q (x ∷ xs) f h = (f x h.0, All-map P Q xs f h.1)

  pub All-get_elem? :
      (P : A → Type κ) (xs : List A) (i : ℕ) {x : A} → All P xs → get_elem? xs i ≡ some x → P x
  All-get_elem? P [] i h e = cc
  All-get_elem? P (y ∷ xs) zero {x} h e = subst P (some-injective y x e) h.0
  All-get_elem? P (y ∷ xs) (suc i) h e = All-get_elem? P xs i h.1 e

  pub All-erase_idx : (P : A → Type κ) (xs : List A) (i : ℕ) → All P xs → All P (erase_idx xs i)
  All-erase_idx P [] i h = tt
  All-erase_idx P (x ∷ xs) zero h = h.1
  All-erase_idx P (x ∷ xs) (suc i) h = (h.0, All-erase_idx P xs i h.1)

pub length-map {ℓ κ} :
    {A : Type ℓ} {B : Type κ} (f : A → B) (xs : List A) → length (map f xs) ≡ length xs
length-map f [] = refl
length-map f (x ∷ xs) = omega (arith, length-map f xs)

pub All-map-to {ℓ κ} :
    {A B : Type ℓ} {P : A → Type κ} (Q : B → Type κ) (f : A → B) (xs : List A)
    → ((x : A) → P x → Q (f x))
    → All P xs
    → All Q (map f xs)
All-map-to Q f [] g h = tt
All-map-to Q f (x ∷ xs) g h = (g x h.0, All-map-to Q f xs g h.1)

pub keep-All {ℓ} : {A : Type ℓ} (p : A → Bool) (xs : List A) → All (λ x. p x ≡ true) (keep p xs)
keep-All p [] = tt
keep-All p (x ∷ xs) = elim (Bool-cases (p x)) [
  | inl kept ↦ rw kept (kept, keep-All p xs)
  | inr dropped ↦ rw dropped (keep-All p xs)
]

pub All-and {ℓ κ} :
    {A : Type ℓ} (P Q : A → Type κ) (xs : List A) → All P xs → All Q xs → All (λ x. P x × Q x) xs
All-and P Q [] hp hq = tt
All-and P Q (x ∷ xs) hp hq = ((hp.0, hq.0), All-and P Q xs hp.1 hq.1)
