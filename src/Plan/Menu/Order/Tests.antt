-- ===== src/Plan/Menu/Order/Tests.antt =====
-- `_order` with two focus charts, of which one is repeated, and three fillers.
use oraja_traning.Prelude.{
  ℕ, ◌+◌, ◌++◌, ◌≡◌, refl, String, false, none, [], ◌∷◌, map, sum_by, if◌then◌else◌,
}
use oraja_traning.Prelude.Int.{pos}
use oraja_traning.Prelude.Eq.{◌==◌, string_eq}
use oraja_traning.Prelude.Dict.{lookup, insert}
use oraja_traning.Plan.Menu.{MenuItem}
use oraja_traning.Plan.Menu.Order.{Core, order}
use oraja_traning.Plan.Menu.Order.Kept.{firsts, repetitions, order-keeps}

abbrev item : String → ℕ → MenuItem ℕ
item sha256 attempt = record {
  sequence = 0;
  sha256 = sha256;
  mode = pos 0;
  md5 = none;
  title = sha256;
  artist = "";
  notes = pos 500;
  expected_judged = 400;
  category = "";
  table_id = "insane";
  source_level = "3";
  band = "R1";
  p_complete = 700;
  target = "clear";
  reason = "";
  attempt = attempt;
  optional = false;
  is_exploration = false;
}

abbrev core : Core ℕ
core category =
    if category == "01 WARMUP"
    then item "warm" 1 ∷ []
    else if category == "02 FOCUS-A"
    then item "a" 1 ∷ item "a" 2 ∷ []
    else if category == "04 FOCUS-B"
    then item "b" 1 ∷ []
    else if category == "06 LAMP"
    then item "x" 1 ∷ item "y" 1 ∷ item "z" 1 ∷ []
    else []

ordered :
    map {B = String} (λ i. i.sha256) (order core) ≡ "warm" ∷ "a" ∷ "b" ∷ "x" ∷ "y" ∷ "a" ∷ "z" ∷ []
unfolding order lookup insert
ordered = refl

abbrev judged : MenuItem ℕ → ℕ
judged i = i.expected_judged

order-keeps_example :
    let a = core "02 FOCUS-A" in
    let b = core "04 FOCUS-B" in
    sum_by judged (order core)
    ≡ sum_by judged (core "01 WARMUP")
      + (firsts judged a + firsts judged b)
      + (repetitions judged (a ++ b) a + repetitions judged (a ++ b) b)
      + (sum_by judged (core "03 TRANSFER-A")
          + sum_by judged (core "05 TRANSFER-B")
          + sum_by judged (core "06 LAMP")
          + sum_by judged (core "07 REVIEW")
          + sum_by judged (core "08 PROBE"))
order-keeps_example = order-keeps judged core
