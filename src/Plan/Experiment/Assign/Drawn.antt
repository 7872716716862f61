-- ===== src/Plan/Experiment/Assign/Drawn.antt =====
-- What the draws of `assign_session` give.
use mathlib.Core.Path.{subst}
use oraja_traning.Prelude.{
  ℕ, ◌%◌, ◌≡◌, refl, ◌∙◌, String, List, [], ◌∷◌, length, get_elem?, erase_idx, arith, Option-cases,
  inl, inr, All, All-get_elem?, All-erase_idx,
}
use oraja_traning.Prelude.Eq.{string_eq, int_eq, pair_eq}
use oraja_traning.Prelude.Result.{ok, >>=-eq-ok, ok-injective}
use oraja_traning.Plan.Experiment.Assign.Candidates.{ChartCandidate}
use oraja_traning.Plan.Experiment.Assign.Queries.{pick, pick_transfers}

module _ {F : Type 0} (P : ChartCandidate F → Type 0) where
  pub pick-All :
      (n : ℕ) (cs : List (ChartCandidate F)) (c : ChartCandidate F)
      → pick n cs ≡ ok c
      → All P cs
      → P c
  unfolding pick
  pick-All n cs c h all = elim (Option-cases (get_elem? cs (n % length cs))) [
    | inl nothing ↦ absurd (ground arith)
    | inr (d, found) ↦ All-get_elem? P cs (n % length cs) all (found ∙ ground arith)
  ]

  pub pick_transfers-All :
      (draw : String → ℕ) (is : List (ℕ × String)) (cs : List (ChartCandidate F))
      (ts : List (ℕ × ChartCandidate F))
      → pick_transfers draw is cs ≡ ok ts
      → All P cs
      → (length ts ≡ length is) × All (λ t. P t.1) ts
  unfolding pick_transfers
  pick_transfers-All draw [] cs ts h all =
      subst (λ ts. (length ts ≡ 0) × All (λ t. P t.1) ts) (ok-injective h) (refl, tt)
  pick_transfers-All draw ((days, purpose) ∷ is) cs ts h all =
      let (c, picked, rest) = >>=-eq-ok (pick (draw purpose) cs) _ h in
      let remaining = erase_idx cs (draw purpose % length cs) in
      let (others, went, done) = >>=-eq-ok (pick_transfers draw is remaining) _ rest in
      let (count, fresh) =
        pick_transfers-All draw is remaining others went (All-erase_idx P cs _ all) in
      subst (λ ts. (length ts ≡ length ((days, purpose) ∷ is)) × All (λ t. P t.1) ts)
        (ok-injective done) (omega (arith, count), (pick-All (draw purpose) cs c picked all, fresh))
