-- ===== src/Prelude/Float.antt =====
-- Python's `float`, which the models only compare and combine: a type with its operations, about
-- which nothing is assumed. A literal such as `0.95` is the quotient of two integers, which
-- Python rounds to the same number.
use Prim.Native.Nat.{ℕ}
use mathlib.Core.Bool.{Bool}
use oraja_traning.Prelude.Int.{ℤ, pos}
use oraja_traning.Prelude.Tests.{if◌then◌else◌}

pub record Float : Type 1 where
  pub Num : Type 0
  -- `float(n)`, and `a / b` of two integers.
  pub of_int : ℤ → Num
  pub truediv : ℤ → ℤ → Num
  pub add : Num → Num → Num
  pub sub : Num → Num → Num
  pub mul : Num → Num → Num
  pub div : Num → Num → Num
  pub abs : Num → Num
  -- `x <= y` and `x < y`.
  pub le : Num → Num → Bool
  pub lt : Num → Num → Bool
  -- `round(x)`, and `round(x, 4)`.
  pub round : Num → ℤ
  pub round4 : Num → Num

module _ (f : Float) where
  open f use {Num, truediv, lt}

  -- The literal n / d.
  abbrev pub lit : ℕ → ℕ → Num
  lit n d = truediv (pos n) (pos d)

  -- `min(a, b)` and `max(a, b)`, which return the first of two equals.
  abbrev pub fmin : Num → Num → Num
  fmin a b = if lt b a then b else a

  abbrev pub fmax : Num → Num → Num
  fmax a b = if lt a b then b else a
