-- ===== src/Prelude/Result.antt =====
-- A call that may raise: `ok` with its value, or `err` with the exception.
use mathlib.Core.Path.{◌≡◌, refl}
use mathlib.Core.Bool.{Bool, true, false}

pub data Result {ℓ κ} (E : Type ℓ) (A : Type κ) : Type (ℓ ⊔ κ) where
  ok : A → Result E A
  err : E → Result E A

infixl 5 ◌>>=◌ ◌>>◌
abbrev pub ◌>>=◌ {ℓ κ μ} :
    {E : Type ℓ} {A : Type κ} {B : Type μ} → Result E A → (A → Result E B) → Result E B
ok a >>= f = f a
err e >>= f = err e

abbrev pub ◌>>◌ {ℓ κ} : {E : Type ℓ} {B : Type κ} → Result E (Unit {0}) → Result E B → Result E B
m >> k = m >>= λ _. k

-- `if b: raise e`
abbrev pub raise_if {ℓ} : {E : Type ℓ} → Bool → E → Result E (Unit {0})
raise_if true e = err e
raise_if false e = ok tt

-- A call that goes through has gone through at every step.
pub >>=-eq-ok {ℓ κ μ} :
    {E : Type ℓ} {A : Type κ} {B : Type μ} (call : Result E A) (next : A → Result E B) {y : B}
    → (call >>= next) ≡ ok y
    → (x : A) × (call ≡ ok x) × (next x ≡ ok y)
>>=-eq-ok (err raised) next went = cc
>>=-eq-ok (ok x) next went = (x, refl, went)

-- Two ways to go on are the same if they agree on what the call returns.
pub >>=-same {ℓ κ μ} :
    {E : Type ℓ} {A : Type κ} {B : Type μ} (call : Result E A) (f g : A → Result E B)
    → ((x : A) → call ≡ ok x → f x ≡ g x)
    → (call >>= f) ≡ (call >>= g)
>>=-same (err raised) f g h = refl
>>=-same (ok x) f g h = h x refl

pub >>=-ok {ℓ κ} :
    {E : Type ℓ} {A : Type κ} (call : Result E A) (f : A → Result E A)
    → ((x : A) → call ≡ ok x → f x ≡ ok x)
    → (call >>= f) ≡ call
>>=-ok (err raised) f h = refl
>>=-ok (ok x) f h = h x refl

module _ {ℓ κ} {E : Type ℓ} {A : Type κ} where
  pub ok-injective : {a b : A} → ◌≡◌ {A = Result E A} (ok a) (ok b) → a ≡ b
  ok-injective h = cc

-- A guard that lets a call go on was not met.
pub raise_if-ok :
    {E A : Type 0} (b : Bool) (e : E) (rest : Result E A) {y : A}
    → (raise_if b e >> rest) ≡ ok y
    → (b ≡ false) × (rest ≡ ok y)
raise_if-ok true e rest h = cc
raise_if-ok false e rest h = (refl, h)
