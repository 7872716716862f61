-- ===== src/Features/Songinfo/Encoded.antt =====
-- A distribution that is written as beatoraja writes it is decoded to itself.
use mathlib.Core.Path.{subst}
use oraja_traning.Prelude.{
  ℕ, zero, suc, ◌+◌, ◌*◌, ◌/◌, ◌%◌, ◌<◌, ◌≤◌, ◌≡◌, refl, ap, ◌∙◌, Bool, true, false, ◌&&◌, some,
  List, [], ◌∷◌, ◌++◌, arith, if◌then◌else◌, ltb, length, all, All, drop, length-append,
  and-eq-true,
}
use oraja_traning.Prelude.Result.{ok}
use oraja_traning.Prelude.Text.{is_space}
use oraja_traning.Tables.Classification.{strip_codes, strip_left, strip_right}
use oraja_traning.Features.Songinfo.{
  is_base36, digit36, without_mark, pair_value, decode_columns, decode_seconds, decode_encoded,
  decode_distribution,
}

-- A digit, and a count of at most two digits.
abbrev pub write_digit : ℕ → ℕ
write_digit d = if ltb d 10 then 48 + d else 87 + d

abbrev pub write_columns : List ℕ → List ℕ
write_columns [] = []
write_columns (v ∷ vs) = write_digit (v / 36) ∷ write_digit (v % 36) ∷ write_columns vs

abbrev pub write_seconds : List (List ℕ) → List ℕ
write_seconds [] = []
write_seconds (row ∷ rows) = write_columns row ++ write_seconds rows

abbrev pub write_distribution : List (List ℕ) → List ℕ
write_distribution rows = 35 ∷ write_seconds rows

-- Seven counts below 36 * 36.
abbrev pub IsSecond : List ℕ → Type 0
IsSecond row = (length row ≡ 7) × All (λ v. v < 1296) row

digit_written :
    (d : ℕ) → d < 36 → (digit36 (write_digit d) ≡ d) × (is_base36 (write_digit d) ≡ true)
digit_written d h = ground arith

columns_written :
    (n : ℕ) (row cs : List ℕ)
    → length row ≡ n
    → All (λ v. v < 1296) row
    → decode_columns n (write_columns row ++ cs) ≡ ok row
unfolding decode_columns pair_value
columns_written zero [] cs e h = refl
columns_written zero (v ∷ vs) cs e h = cc
columns_written (suc n) [] cs e h = cc
columns_written (suc n) (v ∷ vs) cs e (low, h) =
    let (a, _) = digit_written (v / 36) (ground (arith, low)) in
    let (b, _) = digit_written (v % 36) (ground arith) in
    let value : 36 * digit36 (write_digit (v / 36)) + digit36 (write_digit (v % 36)) ≡ v =
      rw (a, b) (omega arith) in
    rw (columns_written n vs cs (ground (arith, e)) h) (ap (λ u. ok (u ∷ vs)) value)

length_columns : (row : List ℕ) → length (write_columns row) ≡ 2 * length row
length_columns [] = refl
length_columns (v ∷ vs) = omega (arith, length_columns vs)

drop-append : (xs ys : List ℕ) → drop (length xs) (xs ++ ys) ≡ ys
drop-append [] ys = refl
drop-append (x ∷ xs) ys = drop-append xs ys

length_seconds :
    (rows : List (List ℕ)) → All IsSecond rows → length (write_seconds rows) ≡ 14 * length rows
length_seconds [] h = refl
length_seconds (row ∷ rows) (here, h) = omega (
  arith,
  length-append (write_columns row) (write_seconds rows),
  length_columns row,
  here.0,
  length_seconds rows h,
)

seconds_written :
    (fuel : ℕ) (rows : List (List ℕ))
    → length rows ≤ fuel
    → All IsSecond rows
    → decode_seconds fuel (write_seconds rows) ≡ ok rows
unfolding decode_seconds
seconds_written fuel [] enough h = refl
seconds_written zero (row ∷ rows) enough h = absurd (ground arith)
seconds_written (suc fuel) ([] ∷ rows) enough (here, h) = absurd (ground (arith, here.0))
seconds_written (suc fuel) ((v ∷ vs) ∷ rows) enough (here, h) =
    let row = v ∷ vs in
    let columns = columns_written 7 row (write_seconds rows) here.0 here.1 in
    let fourteen : length (write_columns row) ≡ 14 = omega (arith, length_columns row, here.0) in
    let rest : drop 14 (write_columns row ++ write_seconds rows) ≡ write_seconds rows =
      subst (λ k. drop k (write_columns row ++ write_seconds rows) ≡ write_seconds rows) fourteen
        (drop-append (write_columns row) (write_seconds rows)) in
    rw (columns, rest, seconds_written fuel rows (omega (arith, enough)) h) refl

all-append : (p : ℕ → Bool) (xs ys : List ℕ) → all p (xs ++ ys) ≡ (all p xs && all p ys)
all-append p [] ys = refl
all-append p (x ∷ xs) ys = ground (arith, all-append p xs ys)

columns_base36 : (row : List ℕ) → All (λ v. v < 1296) row → all is_base36 (write_columns row) ≡ true
columns_base36 [] h = refl
columns_base36 (v ∷ vs) (low, h) =
    rw
      (
        (digit_written (v / 36) (ground (arith, low))).1,
        (digit_written (v % 36) (ground arith)).1,
        columns_base36 vs h,
      )
      refl

seconds_base36 :
    (rows : List (List ℕ)) → All IsSecond rows → all is_base36 (write_seconds rows) ≡ true
seconds_base36 [] h = refl
seconds_base36 (row ∷ rows) (here, h) =
    all-append is_base36 (write_columns row) (write_seconds rows)
    ∙ rw (columns_base36 row here.1, seconds_base36 rows h) refl

base36_kept : (cs : List ℕ) → all is_base36 cs ≡ true → strip_right cs ≡ cs
unfolding strip_right
base36_kept [] h = refl
base36_kept (c ∷ cs) h =
    let (here, later) = and-eq-true (is_base36 c) (all is_base36 cs) h in
    let printed : is_space c ≡ false = ground (arith, here) in
    rw (printed, base36_kept cs later) refl

stripped : (cs : List ℕ) → all is_base36 cs ≡ true → without_mark (strip_codes (35 ∷ cs)) ≡ cs
unfolding strip_left strip_right without_mark
stripped cs h = base36_kept cs h

module _ (lower : List ℕ → List ℕ) where
  encoded_ok :
      (cs : List ℕ)
      → length cs % 14 ≡ 0
      → lower cs ≡ cs
      → all is_base36 cs ≡ true
      → decode_encoded lower cs ≡ decode_seconds (length cs) cs
  unfolding decode_encoded decode_seconds
  encoded_ok [] divides kept digits = refl
  encoded_ok (c ∷ cs) divides kept digits = rw (divides, kept, digits) refl

  -- Seconds of seven counts below 1296 each, written as "#" and two base-36 digits for each count,
  -- are decoded to themselves, if `str.lower` leaves a text of digits and lower-case letters as it
  -- is.
  pub decode_distribution-write_distribution :
      ((cs : List ℕ) → all is_base36 cs ≡ true → lower cs ≡ cs)
      → (rows : List (List ℕ)) → All IsSecond rows
      → decode_distribution lower (some (write_distribution rows)) ≡ ok rows
  unfolding decode_distribution
  decode_distribution-write_distribution kept rows h =
      let cs = write_seconds rows in
      let digits = seconds_base36 rows h in
      let many = length_seconds rows h in
      let whole =
        encoded_ok cs (ground (arith, many)) (kept cs digits) digits
        ∙ seconds_written (length cs) rows (omega (arith, many)) h in
      rw (stripped cs digits) whole
