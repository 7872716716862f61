-- ===== src/Container/Manifest.antt =====
-- container/manifest.py: the checks that the manifests share. An error is known by its `code`, not
-- by the wording of its message. What `\d` takes and how `datetime.fromisoformat` reads a text are
-- parameters.
pub mod Input
pub mod Upload
pub mod Output
pub mod Accepted
mod Tests
use oraja_traning.Prelude.{
  ℕ, String, Bool, true, false, not, ◌&&◌, ◌||◌, Option, none, some, List, [], ◌∷◌, ◌++◌, nat_beq,
  length, take, all, if◌then◌else◌,
}
use oraja_traning.Prelude.Int.{ℤ, pos, ltb_ℤ}
use oraja_traning.Prelude.Eq.{◌==◌, string_eq, contains}
use oraja_traning.Prelude.Dict.{Dict, lookup}
use oraja_traning.Prelude.Result.{Result, ok, err, ◌>>=◌, ◌>>◌, raise_if}
use oraja_traning.Prelude.Text.{codes}
use oraja_traning.Container.Json.{
  Json, int, str, arr, obj, entries, keys, Refusal, invalid_contract, key_error, type_error,
}
use oraja_traning.Container.Formats.{
  fits, times, is_uuid, is_sha, is_object_key, starts_with, replace_z,
}

-- `d[key]`
unfoldable pub member : String → Dict String Json → Result Refusal Json
member k d = elim (lookup k d) [ none ↦ err key_error | some j ↦ ok j ]

-- `_object`
unfoldable pub object : Json → Result Refusal (Dict String Json)
object (obj ms) = ok (entries ms)
object _ = err invalid_contract

-- No key is missing, and none is unexpected.
abbrev pub same_keys : List String → Dict String Json → Bool
same_keys expected d =
    all (λ (k : String). contains k (keys d)) expected
    && all (λ (k : String). contains k expected) (keys d)

unfoldable pub exact_keys : List String → Dict String Json → Result Refusal (Unit {0})
exact_keys expected d = raise_if (not (same_keys expected d)) invalid_contract

-- `_string`, and what it returns when a `pattern` is given.
unfoldable pub string : Json → Result Refusal String
string (str s) = raise_if (s == "") invalid_contract >> ok s
string _ = err invalid_contract

unfoldable pub matching : (List ℕ → Bool) → Json → Result Refusal String
matching pattern j = do s ← string j; raise_if (not (pattern (codes s))) invalid_contract; ok s

abbrev pub uuid : Json → Result Refusal String
uuid j = matching is_uuid j

abbrev pub sha : Json → Result Refusal String
sha j = matching is_sha j

-- `maximum is not None and value > maximum`
abbrev pub above : Option ℤ → ℤ → Bool
above none n = false
above (some most) n = ltb_ℤ most n

unfoldable pub integer : ℤ → Option ℤ → Json → Result Refusal ℤ
integer least most (int n) = raise_if (ltb_ℤ n least || above most n) invalid_contract >> ok n
integer least most _ = err invalid_contract

pub record Builtins : Type 0 where
  pub digit : ℕ → Bool
  -- `none` is a `ValueError`; otherwise, whether the moment has a time zone.
  pub from_iso : List ℕ → Option Bool
  -- `str(value)`, of what is no text.
  pub shown : Json → String

-- `str(value)`
unfoldable pub str_of : Builtins → Json → String
str_of py (str s) = s
str_of py j = py.shown j

-- `TIMESTAMP`
unfoldable pub stamp_shape : Builtins → List (ℕ → Bool)
stamp_shape py =
    times 4 py.digit
    ++ nat_beq 45 ∷ times 2 py.digit
    ++ nat_beq 45 ∷ times 2 py.digit
    ++ nat_beq 84 ∷ []

unfoldable pub timestamp : Builtins → Json → Result Refusal String
unfolding stamp_shape
timestamp py j = do
  s ← string j
  raise_if (not (fits (stamp_shape py) (take 11 (codes s)))) invalid_contract
  elim (py.from_iso (replace_z (codes s))) [
    | none ↦ err invalid_contract
    | some zoned ↦ raise_if (not zoned) invalid_contract >> ok s
  ]

abbrev pub object_key : Json → Result Refusal String
object_key j = matching is_object_key j

-- `f"profiles/{profile_id}/"`
abbrev pub partition : String → List ℕ
partition profile_id = codes "profiles/" ++ codes profile_id ++ codes "/"

unfoldable pub profile_prefix : String → String → Result Refusal (Unit {0})
profile_prefix key profile_id =
    raise_if (not (starts_with (partition profile_id) (codes key))) invalid_contract

-- `value == s`
abbrev pub is_text : String → Json → Bool
is_text s (str t) = t == s
is_text s _ = false

-- `value is False` and `value is True`
abbrev pub is_bool : Bool → Json → Bool
is_bool b (Json.bool c) = if b then c else not c
is_bool b _ = false

-- `value in {...}`: a list or a dict has no hash.
unfoldable pub one_of : List String → Json → Result Refusal Bool
one_of options (str s) = ok (contains s options)
one_of options (arr js) = err type_error
one_of options (obj ms) = err type_error
one_of options _ = ok false

-- `value == {...}`, of a dict with texts.
unfoldable pub same_texts : Dict String String → Json → Bool
same_texts texts (obj ms) =
    nat_beq (length (entries ms)) (length texts)
    && all
        (λ (t : String × String). elim (lookup t.0 (entries ms)) [
          | none ↦ false
          | some j ↦ is_text t.1 j
        ])
        texts
same_texts texts _ = false
