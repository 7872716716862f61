-- ===== src/Plan/Experiment/Assign/Start.antt =====
-- `start_experiment` of plan/experiment.py, and the period in which `assign_session` takes sessions.
use oraja_traning.Prelude.{
  ℕ, ◌*◌, ◌≡◌, refl, String, false, Bool-cases, inl, inr, true, ◌&&◌, ◌||◌, Option, none, some,
  List, [], ◌∷◌, ◌++◌, nat_beq, nat_beq_iff, arith,
}
use mathlib.Core.Path.{subst}
use oraja_traning.Prelude.Int.{ℤ, pos, ◌+ℤ◌, ◌≤ℤ◌, ◌<ℤ◌, ltb_ℤ, leb_ℤ, max0}
use oraja_traning.Prelude.Eq.{◌==◌, string_eq}
use oraja_traning.Prelude.Result.{Result, ok, err, ◌>>◌, raise_if, ok-injective, raise_if-ok}
use oraja_traning.Prelude.Float.{Float}
use oraja_traning.Plan.Experiment.Assign.Candidates.{Groups, AssignError}
use oraja_traning.Plan.Experiment.Assign.Queries.{
  Experiment, Tables, find_experiment, find_assignment,
}
use oraja_traning.Plan.Experiment.Assign.{assign_found, assign_for}

pub data StartError : Type 0 where
  empty_name not_positive : StartError

-- `int(days) * DAY_SECONDS`, of days that are positive.
abbrev pub seconds_of : ℤ → ℤ
seconds_of days = pos (max0 days * 86400)

-- `start_experiment`: the table with the new row, and its id; `strip` is `str.strip`.
unfoldable pub start_experiment :
    (String → String)
    → String
    → String
    → ℤ
    → ℤ
    → ℤ
    → ℤ
    → ℕ
    → List Experiment
    → Result StartError (List Experiment × ℕ)
start_experiment strip name seed starts_at days min_samples created_at next_id experiments =
    raise_if (strip name == "" || seed == "") StartError.empty_name
    >> (raise_if (ltb_ℤ days (pos 1) || ltb_ℤ min_samples (pos 1)) StartError.not_positive
        >> ok (
          experiments
              ++ record {
                id = next_id;
                name = strip name;
                seed = seed;
                starts_at = starts_at;
                ends_at = starts_at +ℤ seconds_of days;
                min_samples_per_arm = min_samples;
                created_at = created_at;
              }
                ∷ [],
          next_id,
        ))

find_experiment-append :
    (id : ℕ) (es : List Experiment) (e : Experiment)
    → find_experiment id es ≡ none
    → nat_beq e.id id ≡ true
    → find_experiment id (es ++ e ∷ []) ≡ some e
find_experiment-append id [] e h same = ground arith
find_experiment-append id (x ∷ es) e h same = ground (arith, find_experiment-append id es e)

-- `at` is in the `days` days of 86400 seconds that begin at `starts_at`.
abbrev pub IsInDays : ℤ → ℕ → ℤ → Type 0
IsInDays starts_at days at = (starts_at ≤ℤ at) × (at <ℤ starts_at +ℤ pos (days * 86400))

not_in_days :
    (starts_at : ℤ) (days : ℕ) (at : ℤ)
    → ¬ IsInDays starts_at days at
    → (leb_ℤ starts_at at && ltb_ℤ at (starts_at +ℤ seconds_of (pos days))) ≡ false
not_in_days starts_at days at other =
    elim (Bool-cases (leb_ℤ starts_at at && ltb_ℤ at (starts_at +ℤ seconds_of (pos days)))) [
      | inl taken ↦ absurd (other (ground arith, ground arith))
      | inr refused ↦ refused
    ]

module _ (f : Float) (lower : String → String) (draw : String → String → String → ℕ)
    (canonical : Groups f.Num → String) (digest : String → String)
    (loads : String → Option (Groups f.Num)) where
  open f use {Num}

  -- What `assign_session` does with a session at the time `at` in the experiment: it goes on to
  -- the session when the time is in the days, and raises when it is not.
  pub record TakesDays (e? : Option Experiment) (id : ℕ) (starts_at : ℤ) (days : ℕ) (key : String)
      (at : ℤ) (submitted : Groups Num) (assigned : ℤ) (db : Tables Num) : Type 0 where
    pub experiment : Experiment
    pub with_id : experiment.id ≡ id
    pub in_days :
        IsInDays starts_at days at
        → assign_for f lower draw canonical digest loads e? key at submitted assigned db
          ≡ assign_found f lower draw canonical digest loads
              (find_assignment id key db.assignments)
              experiment
              key
              at
              submitted
              assigned
              db
    pub outside :
        ¬ IsInDays starts_at days at
        → assign_for f lower draw canonical digest loads e? key at submitted assigned db
          ≡ err AssignError.outside_period

  -- Of an experiment that is started for some days under a free id, the id is returned, and
  -- `assign_session` finds the experiment under it: it takes a session at any time from the start
  -- on and before the end of those days of 86400 seconds, and raises at any other time.
  pub start_experiment-TakesDays :
      (strip : String → String) (name seed : String) (starts_at : ℤ) (days : ℕ)
      (min_samples created_at : ℤ) (next_id : ℕ) (es es' : List Experiment) (id : ℕ) (key : String)
      (at : ℤ) (submitted : Groups Num) (assigned : ℤ) (db : Tables Num)
      → find_experiment next_id es ≡ none
      → start_experiment strip name seed starts_at (pos days) min_samples created_at next_id es
        ≡ ok (es', id)
      → TakesDays (find_experiment id es') id starts_at days key at submitted assigned db
  unfolding start_experiment assign_for
  start_experiment-TakesDays strip name seed starts_at days min_samples created_at next_id es es' id
        key at submitted assigned db free h =
      let e : Experiment = record {
        id = next_id;
        name = strip name;
        seed = seed;
        starts_at = starts_at;
        ends_at = starts_at +ℤ seconds_of (pos days);
        min_samples_per_arm = min_samples;
        created_at = created_at;
      } in
      let (_, h1) = raise_if-ok (strip name == "" || seed == "") StartError.empty_name _ h in
      let (_, h2) =
        raise_if-ok (ltb_ℤ (pos days) (pos 1) || ltb_ℤ min_samples (pos 1)) StartError.not_positive
          _ h1 in
      let found = find_experiment-append next_id es e free ((nat_beq_iff next_id next_id).1 refl) in
      subst
        (λ (r : List Experiment × ℕ).
          TakesDays (find_experiment r.1 r.0) r.1 starts_at days key at submitted assigned db)
        (ok-injective h2)
        (rw found (record {
          experiment = e;
          with_id = refl;
          in_days = λ inside.
              let taken : (leb_ℤ starts_at at && ltb_ℤ at e.ends_at) ≡ true = ground arith in
              rw taken refl;
          outside = λ other.
              let refused : (leb_ℤ starts_at at && ltb_ℤ at e.ends_at) ≡ false =
                not_in_days starts_at days at other in
              rw refused refl;
        }))
