-- ===== src/Features/Songinfo/Lists.antt =====
-- `_csv_tokens`, `decode_speedchange` and `decode_lanenotes` of features/songinfo.py, on texts as
-- their code points. `float` and `int` of a text are parameters, which give none for a ValueError.
use mathlib.Core.Path.{subst}
use oraja_traning.Prelude.{
  ℕ, ◌≡◌, Bool, true, false, not, ◌||◌, Option, none, some, List, [], ◌∷◌, map, any, if◌then◌else◌,
  arith,
}
use oraja_traning.Prelude.Int.{ℤ, pos, ltb_ℤ}
use oraja_traning.Prelude.Float.{Float}
use oraja_traning.Prelude.Result.{
  Result, ok, err, ◌>>=◌, ◌>>◌, raise_if, >>=-eq-ok, raise_if-ok, ok-injective,
}
use oraja_traning.Tables.Classification.{split_commas, strip_codes, strip_left, strip_right}

-- SongInfoDecodeError, by its cause.
pub data ListError : Type 0 where
  empty_value incomplete not_a_number not_finite negative not_monotonic : ListError

abbrev pub is_blank_part : List ℕ → Bool
is_blank_part [] = true
is_blank_part (c ∷ cs) = false

-- `_csv_tokens`
unfoldable pub csv_tokens : Option (List ℕ) → Result ListError (List (List ℕ))
unfolding strip_left strip_right split_commas
csv_tokens none = ok []
csv_tokens (some value) =
    let tokens = map strip_codes (split_commas value) in
    if is_blank_part (strip_codes value)
    then ok []
    else raise_if (any is_blank_part tokens) ListError.empty_value >> ok tokens

-- `float(token)` or `int(token, 10)`, or the exception.
unfoldable pub number {ℓ} : {A : Type ℓ} → Option A → Result ListError A
number none = err ListError.not_a_number
number (some x) = ok x

module _ (int_of : List ℕ → Option ℤ) where
  unfoldable pub lane_of : List ℕ → List ℕ → List ℕ → Result ListError (ℤ × ℤ × ℤ)
  unfolding number
  lane_of a b c = do
    normal ← number (int_of a)
    long ← number (int_of b)
    mine ← number (int_of c)
    raise_if (ltb_ℤ normal (pos 0) || ltb_ℤ long (pos 0) || ltb_ℤ mine (pos 0)) ListError.negative
    ok (normal, long, mine)

  -- The loop of `decode_lanenotes`; a length that three does not divide is found before the loop.
  unfoldable pub lanes_of : List (List ℕ) → Result ListError (List (ℤ × ℤ × ℤ))
  unfolding lane_of
  lanes_of (a ∷ b ∷ c ∷ tokens) = do lane ← lane_of a b c; rest ← lanes_of tokens; ok (lane ∷ rest)
  lanes_of tokens = ok []

  abbrev pub in_threes : List (List ℕ) → Bool
  in_threes [] = true
  in_threes (a ∷ b ∷ c ∷ tokens) = in_threes tokens
  in_threes tokens = false

  unfoldable pub decode_lanenotes : Option (List ℕ) → Result ListError (List (ℤ × ℤ × ℤ))
  unfolding csv_tokens lanes_of
  decode_lanenotes value = do
    tokens ← csv_tokens value
    raise_if (not (in_threes tokens)) ListError.incomplete
    lanes_of tokens

module _ (f : Float) (float_of : List ℕ → Option f.Num) (is_finite : f.Num → Bool) where
  open f use {Num, of_int, lt}

  -- `result and time_ms < result[-1][1]`: `last` is the time of the last pair.
  abbrev pub goes_back : Option Num → Num → Bool
  goes_back none time = false
  goes_back (some last) time = lt time last

  unfoldable pub change_of : Option Num → List ℕ → List ℕ → Result ListError (Num × Num)
  unfolding number
  change_of last a b = do
    speed ← number (float_of a)
    time ← number (float_of b)
    raise_if (not (is_finite speed) || not (is_finite time)) ListError.not_finite
    raise_if (lt time (of_int (pos 0))) ListError.negative
    raise_if (goes_back last time) ListError.not_monotonic
    ok (speed, time)

  unfoldable pub changes_of : Option Num → List (List ℕ) → Result ListError (List (Num × Num))
  unfolding change_of
  changes_of last (a ∷ b ∷ tokens) = do
    change ← change_of last a b
    rest ← changes_of (some change.1) tokens
    ok (change ∷ rest)
  changes_of last tokens = ok []

  abbrev pub in_pairs : List (List ℕ) → Bool
  in_pairs [] = true
  in_pairs (a ∷ b ∷ tokens) = in_pairs tokens
  in_pairs tokens = false

  unfoldable pub decode_speedchange : Option (List ℕ) → Result ListError (List (Num × Num))
  unfolding csv_tokens changes_of
  decode_speedchange value = do
    tokens ← csv_tokens value
    raise_if (not (in_pairs tokens)) ListError.incomplete
    changes_of none tokens

  -- Finite pairs with times that are not negative and never before the pair ahead of them.
  abbrev pub InOrder : Option Num → List (Num × Num) → Type 0
  InOrder last [] = Unit
  InOrder last ((speed, time) ∷ rest) =
      (is_finite speed ≡ true)
      × (is_finite time ≡ true)
      × (lt time (of_int (pos 0)) ≡ false)
      × (goes_back last time ≡ false)
      × InOrder (some time) rest

  change_of-ok :
      (last : Option Num) (a b : List ℕ) {c : Num × Num}
      → change_of last a b ≡ ok c
      → (is_finite c.0 ≡ true)
        × (is_finite c.1 ≡ true)
        × (lt c.1 (of_int (pos 0)) ≡ false)
        × (goes_back last c.1 ≡ false)
  unfolding change_of
  change_of-ok last a b h =
      let (speed, _, h) = >>=-eq-ok (number (float_of a)) _ h in
      let (time, _, h) = >>=-eq-ok (number (float_of b)) _ h in
      let (finite, h) = raise_if-ok (not (is_finite speed) || not (is_finite time)) _ _ h in
      let (positive, h) = raise_if-ok (lt time (of_int (pos 0))) _ _ h in
      let (onward, h) = raise_if-ok (goes_back last time) _ _ h in
      subst
        (λ (c : Num × Num).
          (is_finite c.0 ≡ true)
          × (is_finite c.1 ≡ true)
          × (lt c.1 (of_int (pos 0)) ≡ false)
          × (goes_back last c.1 ≡ false))
        (ok-injective h) (ground (arith, finite), ground (arith, finite), positive, onward)

  changes_of-InOrder :
      (last : Option Num) (tokens : List (List ℕ)) {cs : List (Num × Num)}
      → changes_of last tokens ≡ ok cs
      → InOrder last cs
  unfolding changes_of
  changes_of-InOrder last (a ∷ b ∷ tokens) h =
      let (c, here, h) = >>=-eq-ok (change_of last a b) _ h in
      let (rest, later, h) = >>=-eq-ok (changes_of (some c.1) tokens) _ h in
      let (x, y, z, w) = change_of-ok last a b here in
      subst (InOrder last) (ok-injective h) (x, y, z, w, changes_of-InOrder (some c.1) tokens later)
  changes_of-InOrder last [] h = subst (InOrder last) (ok-injective h) tt
  changes_of-InOrder last (a ∷ []) h = subst (InOrder last) (ok-injective h) tt

  -- The pairs that are decoded are finite, no time is negative, and no time is before that of the
  -- pair ahead of it, whatever `float` reads.
  pub decode_speedchange-InOrder :
      (value : Option (List ℕ)) {cs : List (Num × Num)}
      → decode_speedchange value ≡ ok cs
      → InOrder none cs
  unfolding decode_speedchange
  decode_speedchange-InOrder value h =
      let (tokens, _, h) = >>=-eq-ok (csv_tokens value) _ h in
      let (_, h) = raise_if-ok (not (in_pairs tokens)) _ _ h in changes_of-InOrder none tokens h
