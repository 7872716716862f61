-- ===== src/Features/Songinfo.antt =====
-- `decode_distribution` of features/songinfo.py, on a text as its code points. `str.lower` is a
-- parameter.
pub mod Encoded
pub mod Lists
mod Tests
use oraja_traning.Prelude.{
  ℕ, zero, suc, ◌+◌, ◌-◌, ◌*◌, ◌%◌, Bool, true, false, not, ◌&&◌, ◌||◌, Option, none, some, List,
  [], ◌∷◌, if◌then◌else◌, nat_beq, ltb, leb, length, all, take, drop,
}
use oraja_traning.Prelude.Result.{Result, ok, err, ◌>>=◌, ◌>>◌, raise_if}
use oraja_traning.Tables.Classification.{strip_codes, strip_left, strip_right}

-- SongInfoDecodeError, by its cause, and the ValueError of `int("", 36)`.
pub data DecodeError : Type 0 where
  bad_length bad_character no_digits : DecodeError

abbrev pub is_base36 : ℕ → Bool
is_base36 c = leb 48 c && leb c 57 || leb 97 c && leb c 122

abbrev pub digit36 : ℕ → ℕ
digit36 c = if leb c 57 then c - 48 else c - 87

-- `encoded[1:]` if the text starts with "#".
unfoldable pub without_mark : List ℕ → List ℕ
without_mark [] = []
without_mark (c ∷ cs) = if nat_beq c 35 then cs else c ∷ cs

-- `int(..., 36)` of a slice of two characters, which may reach past the end.
unfoldable pub pair_value : List ℕ → Result DecodeError ℕ
pair_value [] = err DecodeError.no_digits
pair_value (a ∷ []) = ok (digit36 a)
pair_value (a ∷ b ∷ cs) = ok (36 * digit36 a + digit36 b)

-- The columns of a second, of which `n` are left.
unfoldable pub decode_columns : ℕ → List ℕ → Result DecodeError (List ℕ)
unfolding pair_value
decode_columns zero cs = ok []
decode_columns (suc n) cs = do
  value ← pair_value cs
  rest ← decode_columns n (drop 2 cs)
  ok (value ∷ rest)

-- The seconds. Every round takes characters away, so the length of the text is fuel enough.
unfoldable pub decode_seconds : ℕ → List ℕ → Result DecodeError (List (List ℕ))
unfolding decode_columns
decode_seconds fuel [] = ok []
decode_seconds zero (c ∷ cs) = ok []
decode_seconds (suc fuel) (c ∷ cs) = do
  second ← decode_columns 7 (c ∷ cs)
  rest ← decode_seconds fuel (drop 14 (c ∷ cs))
  ok (second ∷ rest)

module _ (lower : List ℕ → List ℕ) where
  unfoldable pub decode_encoded : List ℕ → Result DecodeError (List (List ℕ))
  unfolding decode_seconds
  decode_encoded [] = ok []
  decode_encoded (c ∷ cs) = do
    raise_if (not (nat_beq (length (c ∷ cs) % 14) 0)) DecodeError.bad_length
    let lowered = lower (c ∷ cs)
    raise_if (not (all is_base36 lowered)) DecodeError.bad_character
    decode_seconds (length lowered) lowered

  unfoldable pub decode_distribution : Option (List ℕ) → Result DecodeError (List (List ℕ))
  unfolding decode_encoded without_mark strip_left strip_right
  decode_distribution none = ok []
  decode_distribution (some value) = decode_encoded (without_mark (strip_codes value))
