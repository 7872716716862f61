-- ===== src/Container/Manifest/Accepted.antt =====
-- What the checks that the manifests share have found when they let a value pass.
use oraja_traning.Prelude.{
  ℕ, String, ◌≡◌, refl, ap, Bool, true, false, not, Option, none, some, List, arith, ◌∙◌,
}
use oraja_traning.Prelude.Int.{ℤ, ltb_ℤ}
use oraja_traning.Prelude.Eq.{◌==◌, string_eq}
use oraja_traning.Prelude.Dict.{Dict, lookup}
use oraja_traning.Prelude.Result.{
  Result, ok, err, ◌>>=◌, ◌>>◌, >>=-eq-ok, raise_if-ok, ok-injective,
}
use oraja_traning.Prelude.Text.{codes}
use oraja_traning.Container.Json.{Json, int, str, obj, Members, entries, Refusal, key_error}
use oraja_traning.Container.Manifest.{
  member, object, string, matching, integer, above, exact_keys, same_keys, profile_prefix,
  partition,
}
use oraja_traning.Container.Formats.{starts_with}

found_ok :
    (o : Option Json) {j : Json}
    → ◌≡◌ {A = Result Refusal Json} (elim o [ none ↦ err key_error | some i ↦ ok i ]) (ok j)
    → o ≡ some j
found_ok none h = cc
found_ok (some i) h = ap some (ok-injective h)

pub member-ok :
    (k : String) (d : Dict String Json) {j : Json} → member k d ≡ ok j → lookup k d ≡ some j
unfolding member
member-ok k d h = found_ok (lookup k d) h

pub object-ok :
    (j : Json) {d : Dict String Json}
    → object j ≡ ok d
    → (ms : Members) × (j ≡ obj ms) × (entries ms ≡ d)
unfolding object
object-ok (obj ms) h = (ms, refl, ok-injective h)
object-ok j h = ground arith

pub string-ok : (j : Json) {s : String} → string j ≡ ok s → (j ≡ str s) × ((s == "") ≡ false)
unfolding string
string-ok (str t) h = ground arith
string-ok j h = ground arith

pub matching-ok :
    (p : List ℕ → Bool) (j : Json) {s : String}
    → matching p j ≡ ok s
    → (j ≡ str s) × (p (codes s) ≡ true) × ((s == "") ≡ false)
unfolding matching
matching-ok p j {s} h =
    let (t, read, rest) = >>=-eq-ok (string j) _ h in
    let (fits, same) = raise_if-ok (not (p (codes t))) _ (ok t) rest in
    let (shape, filled) = string-ok j read in
    let e : t ≡ s = ok-injective same in (shape ∙ ap str e, ground arith, ground arith)

pub integer-ok :
    (least : ℤ) (most : Option ℤ) (j : Json) {n : ℤ}
    → integer least most j ≡ ok n
    → (j ≡ int n) × (ltb_ℤ n least ≡ false) × (above most n ≡ false)
unfolding integer
integer-ok least most (int n) h = ground arith
integer-ok least most j h = ground arith

pub exact_keys-ok :
    {A : Type 0} (expected : List String) (d : Dict String Json) (rest : Result Refusal A) {y : A}
    → (exact_keys expected d >> rest) ≡ ok y
    → (same_keys expected d ≡ true) × (rest ≡ ok y)
unfolding exact_keys
exact_keys-ok expected d rest h = ground arith

pub profile_prefix-ok :
    {A : Type 0} (key profile : String) (rest : Result Refusal A) {y : A}
    → (profile_prefix key profile >> rest) ≡ ok y
    → (starts_with (partition profile) (codes key) ≡ true) × (rest ≡ ok y)
unfolding profile_prefix
profile_prefix-ok key profile rest h = ground arith

-- A member that a pattern takes, read at the head of a chain.
module _ {A : Type 0} (k : String) (d : Dict String Json) where
  pub matching-member :
      (p : List ℕ → Bool) (next : String → Result Refusal A) {y : A}
      → (member k d >>= λ j. matching p j >>= next) ≡ ok y
      → (s : String) × (lookup k d ≡ some (str s)) × (p (codes s) ≡ true) × (next s ≡ ok y)
  matching-member p next h =
      let (j, found, read) = >>=-eq-ok (member k d) _ h in
      let (s, taken, rest) = >>=-eq-ok (matching p j) next read in
      let (shape, fits, filled) = matching-ok p j taken in
      (s, member-ok k d found ∙ ap some shape, fits, rest)

  pub integer-member :
      (least : ℤ) (most : Option ℤ) (next : ℤ → Result Refusal A) {y : A}
      → (member k d >>= λ j. integer least most j >>= next) ≡ ok y
      → (n : ℤ) × (lookup k d ≡ some (int n))
        × (ltb_ℤ n least ≡ false)
        × (above most n ≡ false)
        × (next n ≡ ok y)
  integer-member least most next h =
      let (j, found, read) = >>=-eq-ok (member k d) _ h in
      let (n, taken, rest) = >>=-eq-ok (integer least most j) next read in
      let (shape, low, high) = integer-ok least most j taken in
      (n, member-ok k d found ∙ ap some shape, low, high, rest)

  -- A member with a check of it, of any kind.
  pub any_member :
      (next : Json → Result Refusal A) {y : A}
      → (member k d >>= next) ≡ ok y
      → (j : Json) × (lookup k d ≡ some j) × (next j ≡ ok y)
  any_member next h =
      let (j, found, rest) = >>=-eq-ok (member k d) next h in (j, member-ok k d found, rest)

  pub checked_member :
      {B : Type 0} (check : Json → Result Refusal B) (next : B → Result Refusal A) {y : A}
      → (member k d >>= λ j. check j >>= next) ≡ ok y
      → (j : Json) × (b : B) × (lookup k d ≡ some j) × (check j ≡ ok b) × (next b ≡ ok y)
  checked_member check next h =
      let (j, found, read) = any_member (λ j. check j >>= next) h in
      let (b, went, rest) = >>=-eq-ok (check j) next read in (j, b, found, went, rest)
