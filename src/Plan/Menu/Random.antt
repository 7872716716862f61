-- ===== src/Plan/Menu/Random.antt =====
-- `random.Random`: a state and its draws. Nothing is assumed of the numbers but that `randrange n`
-- lies below n, as documented.
use oraja_traning.Prelude.{ℕ, ◌<◌}

-- `random()` and `randrange(n)`; a state is a number.
pub record Rng (F : Type 0) : Type 0 where
  pub random : ℕ → F × ℕ
  pub randrange : ℕ → ℕ → ℕ × ℕ
  pub randrange-lt : (n s : ℕ) → 0 < n → (randrange n s).0 < n
