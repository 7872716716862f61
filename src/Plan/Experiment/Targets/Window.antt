-- ===== src/Plan/Experiment/Targets/Window.antt =====
-- The plays that can decide a target of `resolve_targets`: what holds of those that it scores.
use oraja_traning.Prelude.{
  ℕ, suc, ◌≡◌, ◌≢◌, refl, Bool, true, false, Option, Option-cases, get_elem?, ◌&&◌, List, [], ◌∷◌,
  some, arith, inl, inr, All, All-map, All-keep, keep, is_some,
}
use oraja_traning.Prelude.Int.{ℤ, pos, ◌≤ℤ◌, ◌<ℤ◌}
use oraja_traning.Prelude.Eq.{string_eq, int_eq, beq-ne}
use oraja_traning.Db.Plays.{StoredPlay}
use oraja_traning.Plan.Experiment.{Target}
use oraja_traning.Plan.Experiment.Targets.{played_in, scorable_plays, outcome_of}
use oraja_traning.Plan.Experiment.Targets.Alone.{keep-found, ranked_alone}

All-indexed {ℓ} : {A : Type ℓ} (xs : List A) → All (λ x. (i : ℕ) × (get_elem? xs i ≡ some x)) xs
All-indexed [] = tt
All-indexed (x ∷ xs) = ((0, refl), All-map _ _ xs (λ y (i, e). (suc i, e)) (All-indexed xs))

module _ {F : Type 0} (plays : List (StoredPlay F)) where
  -- The play stands in the table, is of the target's chart and mode and of no course, and was made
  -- from `due_at` on and before the window closed.
  abbrev pub IsInWindow : Target F → StoredPlay F → Type 0
  IsInWindow t p =
      ((i : ℕ) × (get_elem? plays i ≡ some p))
      × (p.play.sha256 ≡ t.sha256)
      × (p.play.mode ≡ t.mode)
      × (p.play.is_course ≡ false)
      × (t.due_at ≤ℤ p.play.played_at)
      × (p.play.played_at <ℤ t.window_closes_at)

  -- The play has a result, which the outcome tells: 0 if it was not completed, 1 if it was.
  abbrev pub Tells : StoredPlay F → Option ℕ → Type 0
  Tells p outcome =
      (completed : ℤ) × ((p.play.completed ≡ some completed)
        × ((completed ≡ pos 0 → outcome ≡ some 0) × (completed ≢ pos 0 → outcome ≡ some 1)))

  abbrev pub IsScorable : Target F → StoredPlay F → Type 0
  IsScorable t p = IsInWindow t p × Tells p (some (outcome_of p))

  outcome_of-Tells :
      (p : StoredPlay F) → is_some p.play.completed ≡ true → Tells p (some (outcome_of p))
  outcome_of-Tells p h = elim (Option-cases p.play.completed) [
    | inl missing ↦ absurd (ground arith)
    | inr (c, e) ↦
        (c, (e, (λ zero_. rw (e, zero_) refl, λ other. rw (e, beq-ne c (pos 0) other) refl)))
  ]

  scored-IsScorable :
      (t : Target F) (p : StoredPlay F)
      → (i : ℕ) × (get_elem? plays i ≡ some p)
      → (played_in t t.due_at t.window_closes_at p && is_some p.play.completed) ≡ true
      → IsScorable t p
  unfolding played_in
  scored-IsScorable t p stored h = (
    (
      stored,
      ground (arith, string_eq.beq_iff p.play.sha256 t.sha256),
      ground (arith, int_eq.beq_iff p.play.mode t.mode),
      ground arith,
      ground arith,
      ground arith,
    ),
    outcome_of-Tells p (ground arith),
  )

  pub scorable_plays-All : (t : Target F) → All (IsScorable t) (scorable_plays t plays)
  unfolding scorable_plays
  scorable_plays-All t =
      let is_scored : StoredPlay F → Bool =
        λ r. played_in t t.due_at t.window_closes_at r && is_some r.play.completed in
      let scored = keep is_scored plays in
      All-map _ (IsScorable t) _ (λ p h. scored-IsScorable t p h.0.0 h.0.1)
        (All-keep (λ p. ((i : ℕ) × (get_elem? plays i ≡ some p)) × (is_scored p ≡ true)) _ scored
          (All-keep _ is_scored plays (All-indexed plays)))

  -- Every play of the table on the target's chart in its window that has a result was made at the
  -- time of `p`, with the same play count.
  abbrev pub IsAlone : Target F → StoredPlay F → Type 0
  IsAlone t p =
      All
        (λ q.
          q.play.sha256 ≡ t.sha256
          → q.play.mode ≡ t.mode
          → q.play.is_course ≡ false
          → t.due_at ≤ℤ q.play.played_at
          → q.play.played_at <ℤ t.window_closes_at
          → is_some q.play.completed ≡ true
          → (q.play.played_at ≡ p.play.played_at) × (q.play.playcount ≡ p.play.playcount))
        plays

  is_scored :
      (t : Target F) (q : StoredPlay F)
      → q.play.sha256 ≡ t.sha256
      → q.play.mode ≡ t.mode
      → q.play.is_course ≡ false
      → t.due_at ≤ℤ q.play.played_at
      → q.play.played_at <ℤ t.window_closes_at
      → is_some q.play.completed ≡ true
      → (played_in t t.due_at t.window_closes_at q && is_some q.play.completed) ≡ true
  unfolding played_in
  is_scored t q sha256 mode course from_ before result =
      let same_chart = (string_eq.beq_iff q.play.sha256 t.sha256).1 sha256 in
      let same_mode = (int_eq.beq_iff q.play.mode t.mode).1 mode in ground arith

  pub scorable_plays-IsAlone :
      (t : Target F) (p : StoredPlay F) → scorable_plays t plays ≡ p ∷ [] → IsAlone t p
  unfolding scorable_plays
  scorable_plays-IsAlone t p only =
      let scores : StoredPlay F → Bool =
        λ r. played_in t t.due_at t.window_closes_at r && is_some r.play.completed in
      All-map _ _ plays
        (λ q (i, at_i) sha256 mode course from_ before result.
          let (j, at_j) =
            keep-found scores plays i at_i (is_scored t q sha256 mode course from_ before result) in
          let (_, _, played_at, playcount) = ranked_alone (keep scores plays) p only q j at_j in
          (played_at, playcount))
        (All-indexed plays)
