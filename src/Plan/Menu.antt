-- ===== src/Plan/Menu.antt =====
-- plan/menu.py: the candidates and items of a daily menu, and what one candidate is worth.
pub mod Random
pub mod Select
pub mod Order
use Prim.Native.Char.{code}
use oraja_traning.Prelude.{ℕ, max, String, Bool, ◌||◌, not, Option, none, some, List, if◌then◌else◌}
use oraja_traning.Prelude.Int.{ℤ, pos, ◌-ℤ◌, ltb_ℤ, leb_ℤ, max0}
use oraja_traning.Prelude.Eq.{◌==◌, int_eq, string_eq}
use oraja_traning.Prelude.Dict.{Dict}
use oraja_traning.Prelude.Float.{Float, lit, fmin, fmax}
use oraja_traning.Prelude.Text.{is_space}
use oraja_traning.Plan.Menu.Random.{Rng}

pub record DifficultyRating (F : Type 0) : Type 0 where
  pub table_id : String
  pub source_level : String
  pub level_number : Option F

pub record Candidate (F : Type 0) : Type 0 where
  pub sha256 : String
  pub mode : ℤ
  pub md5 : Option String
  pub title : String
  pub artist : String
  pub notes : ℤ
  pub table_id : String
  pub source_level : String
  pub level_number : Option F
  pub ratings : List (DifficultyRating F)
  pub clear : ℤ
  pub playcount : ℤ
  pub last_played : ℤ
  pub minbp : Option ℤ
  pub recent_successes : ℤ
  pub recent_failures : ℤ
  pub recent_played_at : ℤ
  pub recent_second_played_at : ℤ
  pub recent_bp_rate : Option F
  pub p_complete : F
  pub tier : String
  pub target : String
  pub weakness : F
  pub primary_axis : String
  pub high_load : F
  pub feature_scores : Dict String F
  pub warmup_features : Dict String (Option F)
  pub warmup_feature_scores : Dict String F
  pub warmup_load : F
  pub chart_seconds : Option F
  pub practice_low : Option Bool
  pub classifications : List (Dict String String)

pub record MenuItem (F : Type 0) : Type 0 where
  pub sequence : ℕ
  pub sha256 : String
  pub mode : ℤ
  pub md5 : Option String
  pub title : String
  pub artist : String
  pub notes : ℤ
  pub expected_judged : ℕ
  pub category : String
  pub table_id : String
  pub source_level : String
  pub band : String
  pub p_complete : F
  pub target : String
  pub reason : String
  pub attempt : ℕ
  pub optional : Bool
  pub is_exploration : Bool

-- `text.split()[0]`, of a text that has a word.
abbrev first_word_go : String → String
first_word_go String.[] = String.[]
first_word_go (String.◌∷◌ c s) =
    if is_space (code c) then String.[] else String.◌∷◌ c (first_word_go s)

pub first_word : String → String
first_word String.[] = String.[]
first_word (String.◌∷◌ c s) =
    if is_space (code c) then first_word s else String.◌∷◌ c (first_word_go s)

-- `value or default`
abbrev pub text_or : Option String → String → String
text_or none default = default
text_or (some s) default = if s == "" then default else s

module _ (f : Float) where
  open f use {Num, of_int, truediv, add, sub, mul, div, abs, round, round4}

  -- `_expected`: at least 1.
  unfoldable pub expected : Candidate Num → ℕ
  expected c =
      let survival =
        if leb_ℤ (pos 4) c.clear
        then lit f 1 1
        else fmax f (lit f 60 100) (fmin f (lit f 98 100) (add c.p_complete (lit f 20 100))) in
      max 1 (max0 (round (mul (of_int c.notes) survival)))

  -- `_utility`, which draws one number.
  utility : Rng Num → Candidate Num → Num → ℤ → String → ℕ → Num × ℕ
  utility rng c target_p now readiness state =
      let challenge =
        sub (lit f 1 1)
          (fmin f (lit f 1 1) (div (abs (sub c.p_complete target_p)) (lit f 55 100))) in
      let days =
        if c.last_played == pos 0
        then lit f 0 1
        else fmax f (lit f 0 1) (truediv (now -ℤ c.last_played) (pos 86400)) in
      let review = fmin f (lit f 1 1) (div days (lit f 14 1)) in
      let information = mul (mul (lit f 4 1) c.p_complete) (sub (lit f 1 1) c.p_complete) in
      let novelty = div (lit f 1 1) (add (lit f 1 1) (of_int c.playcount)) in
      let fatigue = mul c.high_load (if readiness == "tired" then lit f 30 100 else lit f 8 100) in
      let boredom = fmin f (lit f 25 100) (div (of_int c.playcount) (lit f 40 1)) in
      let worth =
        add
          (add
            (add (add (mul (lit f 35 100) challenge) (mul (lit f 30 100) c.weakness))
              (mul (lit f 15 100) review))
            (mul (lit f 10 100) information))
          (mul (lit f 10 100) novelty) in
      let (draw, state') = rng.random state in
      (add (sub (sub worth fatigue) boredom) (mul draw (lit f 3 100)), state')

  -- `_to_item`
  unfoldable pub to_item :
      Candidate Num
      → String
      → String
      → ℕ
      → Bool
      → Bool
      → Option (DifficultyRating Num)
      → Option String
      → Option String
      → MenuItem Num
  unfolding expected first_word
  to_item c category reason attempt optional is_exploration rating target band =
      let shown : DifficultyRating Num = elim rating [
        | some r ↦ r
        | none ↦ record {
          table_id = c.table_id;
          source_level = c.source_level;
          level_number = c.level_number;
        }
      ] in
      record {
        sequence = 0;
        sha256 = c.sha256;
        mode = c.mode;
        md5 = c.md5;
        title = c.title;
        artist = c.artist;
        notes = c.notes;
        expected_judged = expected c;
        category = category;
        table_id = shown.table_id;
        source_level = shown.source_level;
        band = text_or band (first_word c.tier);
        p_complete = round4 c.p_complete;
        target = text_or target c.target;
        reason = reason;
        attempt = attempt;
        optional = optional;
        is_exploration = is_exploration;
      }
