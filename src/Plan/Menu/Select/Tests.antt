-- ===== src/Plan/Menu/Select/Tests.antt =====
-- `_select` on three charts, of which one is used and one too hard.
use oraja_traning.Prelude.{
  ℕ, ◌*◌, ◌≤◌, ◌≡◌, refl, String, Bool, true, false, List, [], ◌∷◌, none, ◌⊎◌, All, arith, map,
  if◌then◌else◌,
}
use oraja_traning.Prelude.Int.{pos}
use oraja_traning.Prelude.Eq.{contains, string_eq}
use oraja_traning.Samples.{thousandths, steady}
use oraja_traning.Plan.Menu.{Candidate, utility, to_item}
use oraja_traning.Plan.Menu.Select.{Request, admissible, eligible_of, select}
use oraja_traning.Plan.Menu.Select.Picks.{IsItemOf, IsSelectable, select-IsItemOf}
use oraja_traning.Plan.Menu.Select.Quota.{judged_in, select-fills}
use oraja_traning.Plan.Menu.Select.Charts.{items_of, candidates_of, select-occurrences}

abbrev chart : String → ℕ → String → Candidate ℕ
chart sha256 notes tier = record {
  sha256 = sha256;
  mode = pos 0;
  md5 = none;
  title = sha256;
  artist = "";
  notes = pos notes;
  table_id = "insane";
  source_level = "3";
  level_number = none;
  ratings = [];
  clear = pos 5;
  playcount = pos 4;
  last_played = pos 0;
  minbp = none;
  recent_successes = pos 0;
  recent_failures = pos 0;
  recent_played_at = pos 0;
  recent_second_played_at = pos 0;
  recent_bp_rate = none;
  p_complete = 700;
  tier = tier;
  target = "clear";
  weakness = 0;
  primary_axis = "stream";
  high_load = 0;
  feature_scores = [];
  warmup_features = [];
  warmup_feature_scores = [];
  warmup_load = 0;
  chart_seconds = none;
  practice_low = none;
  classifications = [];
}

abbrev charts : List (Candidate ℕ)
charts =
    chart "played" 1000 "R1 CORE"
    ∷ chart "hard" 1000 "R4 FUTURE"
    ∷ chart "short" 300 "R1 CORE"
    ∷ chart "long" 1800 "R2 PUSH"
    ∷ []

abbrev focus : Request thousandths steady
focus = record {
  category = "02 FOCUS-A";
  quota = 1500;
  target_p = 700;
  now = pos 86400;
  readiness = "normal";
  attempts = 2;
  optional = false;
  allow_fallback = false;
}

abbrev any_chart : Candidate ℕ → Bool
any_chart c = true

abbrev used : List String
used = "played" ∷ []

selected_charts :
    map {B = String × ℕ}
      (λ item. (item.sha256, item.attempt))
      (select thousandths steady focus any_chart charts used 7).0
    ≡ ("short", 1) ∷ ("short", 2) ∷ ("long", 1) ∷ ("long", 2) ∷ []
unfolding select admissible utility to_item
selected_charts = refl

abbrev IsInTable : Candidate ℕ → Type 0
IsInTable c = c.table_id ≡ "insane"

select-IsItemOf_example :
    All
      (λ item.
        (c : Candidate ℕ) × ((IsInTable c × IsSelectable thousandths steady focus any_chart used c)
          × IsItemOf thousandths steady focus c item))
      (select thousandths steady focus any_chart charts used 7).0
select-IsItemOf_example =
    select-IsItemOf thousandths steady IsInTable focus any_chart charts used 7
      (refl, (refl, (refl, (refl, tt))))

select-fills_example :
    (1500
      ≤ judged_in thousandths steady (select thousandths steady focus any_chart charts used 7).0)
    ⊎ ((sha : String)
        → items_of thousandths steady sha
            (select thousandths steady focus any_chart charts used 7).0
          ≡ 2
            * candidates_of thousandths steady sha
                (eligible_of thousandths steady focus any_chart used charts))
select-fills_example = select-fills thousandths steady focus any_chart charts used 7

select-occurrences_example :
    items_of thousandths steady "long" (select thousandths steady focus any_chart charts used 7).0
    ≡ (if contains "long" (select thousandths steady focus any_chart charts used 7).1 then 2 else 0)
select-occurrences_example =
    select-occurrences thousandths steady "long" focus any_chart charts used 7 refl (omega arith)
