-- ===== src/Samples.antt =====
-- Values that the tests and witnesses share.
use oraja_traning.Prelude.{ℕ, ◌+◌, ◌-◌, ◌*◌, ◌/◌, ◌%◌, leb, ltb, arith}
use oraja_traning.Prelude.Int.{pos, pos_part}
use oraja_traning.Prelude.Float.{Float}
use oraja_traning.Plan.Menu.Random.{Rng}

-- Numbers in thousandths, rounded down; negative ones count as zero.
abbrev pub thousandths : Float
thousandths = record {
  Num = ℕ;
  of_int = λ a. pos_part a * 1000;
  truediv = λ a b. pos_part a * 1000 / pos_part b;
  add = λ a b. a + b;
  sub = λ a b. a - b;
  mul = λ a b. a * b / 1000;
  div = λ a b. a * 1000 / b;
  abs = λ a. a;
  le = leb;
  lt = ltb;
  round = λ a. pos ((a + 500) / 1000);
  round4 = λ a. a;
}

-- A generator whose numbers follow its state; `randrange` draws the last number.
abbrev pub steady : Rng ℕ
steady = record {
  random = λ s. (s % 1000, s + 1);
  randrange = λ n s. (n - 1, s + 1);
  randrange-lt = λ n s h. omega arith;
}
