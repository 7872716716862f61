-- ===== src/Prelude/Eq.antt =====
-- Equality tests (Python's `==` on values) as an interface, and its instances.
use Prim.Native.Nat.{ℕ}
use Prim.Native.String.{String}
use mathlib.Core.Path.{◌≡◌, refl, ap}
use mathlib.Core.Logic.{◌↔◌, ◌≢◌}
use mathlib.Core.Bool.{Bool, true, false, ◌&&◌, ◌||◌}
use mathlib.Core.Option.{Option, none, some}
use mathlib.Core.List.{List, [], ◌∷◌}
use native.Mathlib.Omega.{arith}
use text.Mathlib.Text.{◌==◌ as str_eq}
use text.Mathlib.TextEquality.{eq_iff}
use oraja_traning.Prelude.Tests.{nat_beq, nat_beq_iff}
use oraja_traning.Prelude.Int.{ℤ, int_beq, int_beq_iff}

-- A test that decides equality.
pub record Eq {ℓ} (T : Type ℓ) : Type ℓ where
  pub beq : (x y : T) → Bool
  pub beq_iff : (x y : T) → (beq x y ≡ true) ↔ (x ≡ y)

instance abbrev pub string_eq : Eq String
string_eq = record { beq = str_eq; beq_iff = eq_iff }

instance abbrev pub int_eq : Eq ℤ
int_eq = record { beq = int_beq; beq_iff = int_beq_iff }

instance abbrev pub nat_eq : Eq ℕ
nat_eq = record { beq = nat_beq; beq_iff = nat_beq_iff }

infix 50 ◌==◌
abbrev pub ◌==◌ {ℓ} : {T : Type ℓ} ⦃e : Eq T⦄ (x y : T) → Bool
◌==◌ ⦃e⦄ x y = e.beq x y

module _ {ℓ κ} {A : Type ℓ} {B : Type κ} ⦃ea : Eq A⦄ ⦃eb : Eq B⦄ where
  -- Shut, so that the tactics read it through `beq_iff`.
  unfoldable pub pair_beq : A × B → A × B → Bool
  pair_beq (a, b) (c, d) = ea.beq a c && eb.beq b d

  pub pair_beq_iff : (p q : A × B) → (pair_beq p q ≡ true) ↔ (p ≡ q)
  unfolding pair_beq
  pair_beq_iff (a, b) (c, d) = (
    (λ h. ground (arith, ea.beq_iff a c, eb.beq_iff b d)),
    (λ h. ground (arith, ea.beq_iff a c, eb.beq_iff b d)),
  )

  instance abbrev pub pair_eq : Eq (A × B)
  pair_eq = record { beq = pair_beq; beq_iff = pair_beq_iff }

module _ {ℓ} {A : Type ℓ} ⦃e : Eq A⦄ where
  abbrev pub option_beq : Option A → Option A → Bool
  option_beq none none = true
  option_beq none (some b) = false
  option_beq (some a) none = false
  option_beq (some a) (some b) = a == b

  pub option_beq_iff : (p q : Option A) → (option_beq p q ≡ true) ↔ (p ≡ q)
  option_beq_iff none none = ground arith
  option_beq_iff none (some b) = ground arith
  option_beq_iff (some a) none = ground arith
  option_beq_iff (some a) (some b) = ground (arith, e.beq_iff a b)

  instance abbrev pub option_eq : Eq (Option A)
  option_eq = record { beq = option_beq; beq_iff = option_beq_iff }

  pub beq_refl : (a : A) → (a == a) ≡ true
  beq_refl a = (e.beq_iff a a).1 refl

  pub beq-ne : (a b : A) → a ≢ b → (a == b) ≡ false
  beq-ne a b h = ground (arith, e.beq_iff a b)

  -- `a in xs`
  abbrev pub contains : A → List A → Bool
  contains a [] = false
  contains a (x ∷ xs) = a == x || contains a xs

  pub ne_of_contains :
      (a b : A) (xs : List A) → contains a xs ≡ true → contains b xs ≡ false → a ≢ b
  ne_of_contains a b xs ha hb = λ same. cc (ap (λ c. contains c xs) same)
