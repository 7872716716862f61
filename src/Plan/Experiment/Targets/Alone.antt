-- ===== src/Plan/Experiment/Targets/Alone.antt =====
-- What it says of the scored plays when only one of them is left by the ranking of
-- `resolve_targets`.
use mathlib.Core.Path.{subst}
use mathlib.Core.Option.{some-injective}
use oraja_traning.Prelude.{
  ℕ, zero, suc, ◌≤◌, ◌<◌, ◌≡◌, refl, sym, ◌∙◌, Bool, true, false, not, ◌&&◌, ◌||◌, List, [], ◌∷◌,
  some, if◌then◌else◌, ltb, nat_beq, get_elem?, sum_by, keep, any, arith, Bool-cases, inl, inr,
}
use oraja_traning.Prelude.Int.{ℤ, ltb_ℤ}
use oraja_traning.Prelude.Eq.{◌==◌, string_eq, int_eq}
use oraja_traning.Db.Plays.{StoredPlay}
use oraja_traning.Plan.Experiment.Targets.{source_rank, same_partition, ranks_before}

module _ {ℓ} {A : Type ℓ} where
  any-found :
      (p : A → Bool) (xs : List A)
      → any p xs ≡ true
      → (x : A) × (((i : ℕ) × (get_elem? xs i ≡ some x)) × (p x ≡ true))
  any-found p [] h = cc
  any-found p (x ∷ xs) h = elim (Bool-cases (p x)) [
    | inl here ↦ (x, ((0, refl), here))
    | inr there ↦
        let (y, ((i, at_i), found)) = any-found p xs (ground arith) in (y, ((suc i, at_i), found))
  ]

  pub keep-found :
      (p : A → Bool) (xs : List A) (i : ℕ) {x : A}
      → get_elem? xs i ≡ some x
      → p x ≡ true
      → (j : ℕ) × (get_elem? (keep p xs) j ≡ some x)
  keep-found p [] i h px = cc
  keep-found p (y ∷ xs) zero {x} h px =
      let kept = subst (λ z. p z ≡ true) (sym (some-injective y x h)) px in
      (0, rw (kept, get_elem?) h)
  keep-found p (y ∷ xs) (suc i) h px =
      let (j, at_j) = keep-found p xs i h px in
      elim (Bool-cases (p y)) [
        | inl kept ↦ (suc j, rw (kept, get_elem?) at_j)
        | inr dropped ↦ (j, rw dropped at_j)
      ]

  sum_by-le : (f g : A → ℕ) (xs : List A) → ((x : A) → f x ≤ g x) → sum_by f xs ≤ sum_by g xs
  sum_by-le f g [] h = omega arith
  sum_by-le f g (x ∷ xs) h = omega (arith, h x, sum_by-le f g xs h)

  sum_by-lt :
      (f g : A → ℕ) (xs : List A) (i : ℕ) {x : A}
      → ((x : A) → f x ≤ g x)
      → get_elem? xs i ≡ some x
      → f x < g x
      → sum_by f xs < sum_by g xs
  sum_by-lt f g [] i h found less = cc
  sum_by-lt f g (y ∷ xs) zero {x} h found less =
      let here = subst (λ z. f z < g z) (sym (some-injective y x found)) less in
      omega (arith, here, sum_by-le f g xs h)
  sum_by-lt f g (y ∷ xs) (suc i) h found less = omega (arith, h y, sum_by-lt f g xs i h found less)

and_left : (a b : Bool) → (a && b) ≡ true → a ≡ true
and_left a b h = ground arith

and_right : (a b : Bool) → (a && b) ≡ true → b ≡ true
and_right a b h = ground arith

and_both : (a b : Bool) → a ≡ true → b ≡ true → (a && b) ≡ true
and_both a b h k = ground arith

and_none : (a b : Bool) → b ≡ false → (a && b) ≡ false
and_none a b h = ground arith

counted : (a b : Bool) → (a ≡ true → b ≡ true) → (if a then 1 else 0) ≤ (if b then 1 else 0)
counted a b h = elim (Bool-cases a) [
  | inl holds ↦ rw (holds, h holds) (omega arith)
  | inr fails ↦ rw fails (omega arith)
]

sole {ℓ} : {A : Type ℓ} (p b : A) (k : ℕ) → get_elem? (p ∷ []) k ≡ some b → b ≡ p
sole p b zero h = sym (some-injective p b h)
sole p b (suc k) h = cc

-- `ranks_before`, of the ranks, the times and the ids.
abbrev earlier : ℕ → ℤ → ℕ → ℕ → ℤ → ℕ → Bool
earlier ra ia a rb ib b = ltb ra rb || (nat_beq ra rb && (ltb_ℤ ib ia || (ib == ia && ltb b a)))

earlier_trans :
    (ra : ℕ) (ia : ℤ) (a rb : ℕ) (ib : ℤ) (b rc : ℕ) (ic : ℤ) (c : ℕ)
    → earlier ra ia a rb ib b ≡ true
    → earlier rb ib b rc ic c ≡ true
    → earlier ra ia a rc ic c ≡ true
earlier_trans ra ia a rb ib b rc ic c h k = ground arith

earlier_irrefl : (r : ℕ) (i : ℤ) (a : ℕ) → earlier r i a r i a ≡ false
earlier_irrefl r i a = ground arith

module _ {F : Type 0} where
  -- The plays are of one partition.
  abbrev pub IsSame : StoredPlay F → StoredPlay F → Type 0
  IsSame a b =
      (a.play.sha256 ≡ b.play.sha256)
      × (a.play.mode ≡ b.play.mode)
      × (a.play.played_at ≡ b.play.played_at)
      × (a.play.playcount ≡ b.play.playcount)

  same_partition-IsSame : (a b : StoredPlay F) → same_partition a b ≡ true → IsSame a b
  same_partition-IsSame a b h = (
    ground (arith, string_eq.beq_iff a.play.sha256 b.play.sha256),
    ground (arith, int_eq.beq_iff a.play.mode b.play.mode),
    ground (arith, int_eq.beq_iff a.play.played_at b.play.played_at),
    ground (arith, int_eq.beq_iff a.play.playcount b.play.playcount),
  )

  IsSame-same_partition : (a b : StoredPlay F) → IsSame a b → same_partition a b ≡ true
  IsSame-same_partition a b (sha256, mode, played_at, playcount) =
      rw
        (
          (string_eq.beq_iff a.play.sha256 b.play.sha256).1 sha256,
          (int_eq.beq_iff a.play.mode b.play.mode).1 mode,
          (int_eq.beq_iff a.play.played_at b.play.played_at).1 played_at,
          (int_eq.beq_iff a.play.playcount b.play.playcount).1 playcount,
        )
        refl

  -- `b` is of the partition of `a` and ranks before it.
  abbrev beats : StoredPlay F → StoredPlay F → Bool
  beats a b = same_partition a b && ranks_before b a

  beats-IsSame : (a b : StoredPlay F) → beats a b ≡ true → IsSame a b
  beats-IsSame a b h = same_partition-IsSame a b (and_left _ _ h)

  beats_trans : (a b c : StoredPlay F) → beats a b ≡ true → beats b c ≡ true → beats a c ≡ true
  beats_trans a b c h k =
      let (s, m, t, n) = beats-IsSame a b h in
      let (s', m', t', n') = beats-IsSame b c k in
      let same = IsSame-same_partition a c (s ∙ s', m ∙ m', t ∙ t', n ∙ n') in
      let first =
        earlier_trans (source_rank c.play.source) c.play.ingested_at c.id
          (source_rank b.play.source) b.play.ingested_at b.id (source_rank a.play.source)
          a.play.ingested_at a.id (and_right _ _ k) (and_right _ _ h) in
      and_both _ _ same first

  beats_irrefl : (a : StoredPlay F) → beats a a ≡ false
  beats_irrefl a = and_none _ _ (earlier_irrefl (source_rank a.play.source) a.play.ingested_at a.id)

  abbrev rivals : List (StoredPlay F) → StoredPlay F → ℕ
  rivals plays a = sum_by (λ b. if beats a b then 1 else 0) plays

  rivals-lt :
      (plays : List (StoredPlay F)) (a b : StoredPlay F) (i : ℕ)
      → get_elem? plays i ≡ some b
      → beats a b ≡ true
      → rivals plays b < rivals plays a
  rivals-lt plays a b i found h =
      sum_by-lt (λ c. if beats b c then 1 else 0) (λ c. if beats a c then 1 else 0) plays i
        (λ c. counted _ _ (beats_trans a b c h)) found (rw (beats_irrefl b, h) (omega arith))

  -- Every play has one of its partition that none of the plays beats.
  unbeaten :
      (plays : List (StoredPlay F)) (n : ℕ) (a : StoredPlay F) (i : ℕ)
      → get_elem? plays i ≡ some a
      → rivals plays a ≤ n
      → (b : StoredPlay F) × (((j : ℕ) × (get_elem? plays j ≡ some b))
          × (IsSame a b × (any (beats b) plays ≡ false)))
  unbeaten plays zero a i found few = elim (Bool-cases (any (beats a) plays)) [
    | inr best ↦ (a, ((i, found), ((refl, refl, refl, refl), best)))
    | inl beaten ↦
        let (c, ((j, at_j), better)) = any-found (beats a) plays beaten in
        absurd (omega (arith, rivals-lt plays a c j at_j better, few))
  ]
  unbeaten plays (suc n) a i found few = elim (Bool-cases (any (beats a) plays)) [
    | inr best ↦ (a, ((i, found), ((refl, refl, refl, refl), best)))
    | inl beaten ↦
        let (c, ((j, at_j), better)) = any-found (beats a) plays beaten in
        let fewer = rivals-lt plays a c j at_j better in
        let (s, m, d, k) = beats-IsSame a c better in
        let (b, (at_b, ((s', m', d', k'), best))) =
          unbeaten plays n c j at_j (omega (arith, fewer, few)) in
        (b, (at_b, ((s ∙ s', m ∙ m', d ∙ d', k ∙ k'), best)))
  ]

  -- When one play is left, all the plays are of its partition.
  pub ranked_alone :
      (plays : List (StoredPlay F)) (p : StoredPlay F)
      → keep (λ r. not (any (λ other. beats r other) plays)) plays ≡ p ∷ []
      → (a : StoredPlay F) (i : ℕ) → get_elem? plays i ≡ some a
      → IsSame a p
  ranked_alone plays p only a i found =
      let (b, ((j, at_j), (same, best))) =
        unbeaten plays (rivals plays a) a i found (omega arith) in
      let (k, at_k) =
        keep-found (λ r. not (any (λ other. beats r other) plays)) plays j at_j (rw best refl) in
      let at_only = subst (λ rs. get_elem? rs k ≡ some b) only at_k in
      subst (IsSame a) (sole p b k at_only) same
