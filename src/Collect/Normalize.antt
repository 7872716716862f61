-- ===== src/Collect/Normalize.antt =====
-- collect/normalize.py: one row of a score table as a `Play`. The digest of a row's columns
-- (`payload_hash`, SHA-256 over a canonical JSON text) is an argument.
pub mod Laws
use oraja_traning.Prelude.{
  String, ◌∷◌, [], List, Bool, ◌&&◌, ◌||◌, Option, none, some, if◌then◌else◌, is_some,
}
use oraja_traning.Prelude.Int.{ℤ, pos, ◌+ℤ◌, ltb_ℤ, leb_ℤ, max0}
use oraja_traning.Prelude.Eq.{◌==◌, string_eq, int_eq}
use oraja_traning.Prelude.Float.{Float}
use oraja_traning.Prelude.Result.{Result}
use oraja_traning.Domain.Play.{Play, DomainError, make_play}

-- A row of `score` or `scoredatalog`. The columns that may be missing or NULL are options; the
-- others are required by the readers.
pub record ScoreRow : Type 0 where
  pub sha256 : String
  pub mode : ℤ
  pub date : ℤ
  pub playcount : ℤ
  pub clear : ℤ
  pub notes : Option ℤ
  pub minbp : Option ℤ
  pub combo : Option ℤ
  pub epg : Option ℤ
  pub lpg : Option ℤ
  pub egr : Option ℤ
  pub lgr : Option ℤ
  pub egd : Option ℤ
  pub lgd : Option ℤ
  pub ebd : Option ℤ
  pub lbd : Option ℤ
  pub epr : Option ℤ
  pub lpr : Option ℤ
  pub ems : Option ℤ
  pub lms : Option ℤ
  pub option : Option ℤ
  pub seed : Option ℤ
  pub random : Option ℤ
  pub trophy : Option String

-- `JUDGEMENT_COLUMNS` and `EMPTY_POOR_COLUMNS`, read from a row.
unfoldable pub judgements : ScoreRow → List (Option ℤ)
judgements r = r.epg ∷ r.lpg ∷ r.egr ∷ r.lgr ∷ r.egd ∷ r.lgd ∷ r.ebd ∷ r.lbd ∷ r.epr ∷ r.lpr ∷ []

unfoldable pub empty_poors : ScoreRow → List (Option ℤ)
empty_poors r = r.ems ∷ r.lms ∷ []

-- `int(value or 0)`
abbrev pub or_zero : Option ℤ → ℤ
or_zero none = pos 0
or_zero (some n) = n

-- `sum(int(row.get(column) or 0) for column in columns)`
unfoldable pub sum_columns : List (Option ℤ) → ℤ
sum_columns [] = pos 0
sum_columns (c ∷ cs) = or_zero c +ℤ sum_columns cs

-- `CREDITED_GAUGE_BY_CLEAR.get(clear)`
unfoldable pub credited_gauge : ℤ → Option String
credited_gauge clear =
    if clear == pos 4
    then some "EASY"
    else if clear == pos 5
    then some "NORMAL"
    else if clear == pos 6
    then some "HARD"
    else if clear == pos 7
    then some "EXHARD"
    else none

ex_score_of : Option ℤ → Option ℤ → Option ℤ → Option ℤ → Option ℤ
ex_score_of (some epg) (some lpg) (some egr) (some lgr) =
    some (epg +ℤ lpg +ℤ (epg +ℤ lpg) +ℤ egr +ℤ lgr)
ex_score_of _ _ _ _ = none

unfoldable pub ex_score : ScoreRow → Option ℤ
unfolding ex_score_of
ex_score r = ex_score_of r.epg r.lpg r.egr r.lgr

-- `current_ex is not None and aggregate_ex is not None and current_ex > aggregate_ex`
exceeds : Option ℤ → Option ℤ → Bool
exceeds (some current) (some aggregate) = ltb_ℤ aggregate current
exceeds _ _ = Bool.false

ex_of_aggregate : Option ScoreRow → Option ℤ
ex_of_aggregate none = none
ex_of_aggregate (some r) = ex_score r

-- `source in {"collector", "legacy_last_snapshot", "daily_snapshot"}`
abbrev pub counts_courses : String → Bool
counts_courses source =
    source == "collector" || source == "legacy_last_snapshot" || source == "daily_snapshot"

module _ (f : Float) where
  open f use {Num, truediv, le}

  -- `value / notes if value is not None and notes is not None and notes > 0 else None`
  ratio_to_notes : Option ℤ → Option ℤ → Option Num
  ratio_to_notes (some value) (some notes) =
      if ltb_ℤ (pos 0) notes then some (truediv value notes) else none
  ratio_to_notes _ _ = none

  -- `int(survival >= 0.95) if survival is not None else None`
  completed_of : Option Num → Option ℤ
  completed_of none = none
  completed_of (some survival) =
      some (if le (truediv (pos 95) (pos 100)) survival then pos 1 else pos 0)

module _ (f : Float) (payload_hash : ScoreRow → String) where
  open f use {Num}

  -- The keyword arguments of the `Play` that `normalize_play` builds. `lost_events` and
  -- `ingested_at` are the caller's; every caller passes the time.
  unfoldable pub play_of : ScoreRow → String → ℤ → Option ScoreRow → ℤ → ℤ → Play Num
  unfolding ratio_to_notes completed_of exceeds ex_of_aggregate ex_score sum_columns judgements
      empty_poors credited_gauge
  play_of row source generation aggregate lost_events ingested_at =
      let is_import = source == "ir_import" in
      let judged : Option ℤ = if is_import then none else some (sum_columns (judgements row)) in
      let empty_poor : Option ℤ =
        if is_import then none else some (sum_columns (empty_poors row)) in
      let survival : Option Num = ratio_to_notes f judged row.notes in
      let current_ex = ex_score row in
      record {
        sha256 = row.sha256;
        mode = row.mode;
        played_at = row.date;
        playcount = row.playcount;
        clear = row.clear;
        notes = row.notes;
        completed = completed_of f survival;
        source = source;
        is_course = counts_courses source && row.clear == pos 0;
        source_generation = generation;
        ex = current_ex;
        minbp = row.minbp;
        judged = judged;
        empty_poor = empty_poor;
        survival = survival;
        bp_rate = ratio_to_notes f row.minbp row.notes;
        credited_gauge_kind = credited_gauge row.clear;
        selected_gauge_kind = none;
        option = row.option;
        seed = row.seed;
        random = row.random;
        trophy = row.trophy;
        exceeded_aggregate_score = exceeds current_ex (ex_of_aggregate aggregate);
        lost_events = pos (max0 lost_events);
        payload_hash = payload_hash row;
        ingested_at = ingested_at;
      }

  -- `normalize_play`, and `derive_play`, which only renders its result as a mapping.
  unfoldable pub normalize_play :
      ScoreRow → String → ℤ → Option ScoreRow → ℤ → ℤ → Result DomainError (Play Num)
  unfolding play_of make_play
  normalize_play row source generation aggregate lost_events ingested_at =
      make_play (play_of row source generation aggregate lost_events ingested_at)
