-- ===== src/Container/Formats.antt =====
-- The regular expressions of container/manifest.py, as tests of the code points of a text.
pub mod Paths
mod Tests
use oraja_traning.Prelude.{
  ℕ, zero, suc, String, Bool, true, false, not, ◌&&◌, ◌||◌, List, [], ◌∷◌, ◌++◌, leb, nat_beq,
  length, all, if◌then◌else◌,
}
use oraja_traning.Prelude.Text.{codes}
use oraja_traning.Tables.Match.{is_hex}

-- A sequence of character classes with no repetition: `fullmatch` takes one character for each.
unfoldable pub fits : List (ℕ → Bool) → List ℕ → Bool
fits [] [] = true
fits [] (c ∷ cs) = false
fits (p ∷ ps) [] = false
fits (p ∷ ps) (c ∷ cs) = p c && fits ps cs

abbrev pub times : ℕ → (ℕ → Bool) → List (ℕ → Bool)
times zero p = []
times (suc n) p = p ∷ times n p

-- `[89ab]`
abbrev pub is_variant : ℕ → Bool
is_variant c = nat_beq c 56 || nat_beq c 57 || nat_beq c 97 || nat_beq c 98

-- The classes of `UUIDV7`, and of `SHA256`.
unfoldable pub uuid_shape : List (ℕ → Bool)
uuid_shape =
    times 8 is_hex
    ++ nat_beq 45 ∷ times 4 is_hex
    ++ nat_beq 45 ∷ nat_beq 55 ∷ times 3 is_hex
    ++ nat_beq 45 ∷ is_variant ∷ times 3 is_hex
    ++ nat_beq 45 ∷ times 12 is_hex

unfoldable pub sha_shape : List (ℕ → Bool)
sha_shape = times 64 is_hex

-- `[A-Za-z0-9]`
abbrev pub is_alnum : ℕ → Bool
is_alnum c = leb 65 c && leb c 90 || leb 97 c && leb c 122 || leb 48 c && leb c 57

-- `first` once, then `more` up to `most` times.
abbrev pub head_then : (ℕ → Bool) → (ℕ → Bool) → ℕ → List ℕ → Bool
head_then first more most [] = false
head_then first more most (c ∷ cs) = first c && all more cs && leb (length cs) most

-- `[A-Za-z0-9._:-]`, `[A-Za-z0-9._/-]` and `[A-Za-z0-9._:/-]`
abbrev pub idempotency_char : ℕ → Bool
idempotency_char c = is_alnum c || nat_beq c 46 || nat_beq c 95 || nat_beq c 58 || nat_beq c 45

abbrev pub path_char : ℕ → Bool
path_char c = is_alnum c || nat_beq c 46 || nat_beq c 95 || nat_beq c 47 || nat_beq c 45

abbrev pub key_ref_char : ℕ → Bool
key_ref_char c = path_char c || nat_beq c 58

-- `\.\.(?:/|$)`, at this place.
unfoldable pub parent_here : List ℕ → Bool
parent_here (a ∷ b ∷ []) = nat_beq a 46 && nat_beq b 46
parent_here (a ∷ b ∷ c ∷ cs) = nat_beq a 46 && nat_beq b 46 && nat_beq c 47
parent_here _ = false

-- `/\.\.(?:/|$)`, at this place or a later one.
unfoldable pub parent_later : List ℕ → Bool
unfolding parent_here
parent_later [] = false
parent_later (c ∷ cs) = nat_beq c 47 && parent_here cs || parent_later cs

-- `.*(?:^|/)\.\.(?:/|$)`, of a text with no line break.
unfoldable pub has_parent : List ℕ → Bool
unfolding parent_here parent_later
has_parent cs = parent_here cs || parent_later cs

unfoldable pub is_uuid : List ℕ → Bool
unfolding fits uuid_shape
is_uuid cs = fits uuid_shape cs

unfoldable pub is_sha : List ℕ → Bool
unfolding fits sha_shape
is_sha cs = fits sha_shape cs

unfoldable pub is_idempotency_key : List ℕ → Bool
is_idempotency_key cs = head_then is_alnum idempotency_char 127 cs

unfoldable pub is_object_key : List ℕ → Bool
unfolding has_parent
is_object_key cs = not (has_parent cs) && head_then is_alnum path_char 511 cs

unfoldable pub is_key_ref : List ℕ → Bool
is_key_ref cs = all key_ref_char cs && leb 1 (length cs) && leb (length cs) 128

-- `text.startswith(prefix)`
unfoldable pub starts_with : List ℕ → List ℕ → Bool
starts_with [] cs = true
starts_with (p ∷ ps) [] = false
starts_with (p ∷ ps) (c ∷ cs) = nat_beq p c && starts_with ps cs

unfoldable pub codes_beq : List ℕ → List ℕ → Bool
codes_beq [] [] = true
codes_beq [] (d ∷ ds) = false
codes_beq (c ∷ cs) [] = false
codes_beq (c ∷ cs) (d ∷ ds) = nat_beq c d && codes_beq cs ds

-- `text.replace("Z", "+00:00")`
unfoldable pub replace_z : List ℕ → List ℕ
replace_z [] = []
replace_z (c ∷ cs) =
    let rest = replace_z cs in (if nat_beq c 90 then codes "+00:00" else c ∷ []) ++ rest
