-- ===== src/Container/Json.antt =====
-- The JSON values of container/manifest.py: what `json.loads` returns, and the two tests of the
-- values themselves. A float is known by whether it is finite, which is all that is asked of it.
pub mod Unique
mod Tests
use oraja_traning.Prelude.{String, Bool, not, ◌&&◌, List, [], ◌∷◌, ◌++◌, ◌≡◌, refl, ap}
use oraja_traning.Prelude.Int.{ℤ}
use oraja_traning.Prelude.Eq.{string_eq, contains}
use oraja_traning.Prelude.Dict.{Dict}
use oraja_traning.Prelude.Result.{Result, ok, err, ◌>>=◌, ◌>>◌, raise_if}

mutual
  pub data Json : Type 0 where
    null : Json
    bool : Bool → Json
    int : ℤ → Json
    float : Bool → Json
    str : String → Json
    arr : Items → Json
    obj : Members → Json

  pub data Items : Type 0 where
    no_items : Items
    item : Json → Items → Items

  pub data Members : Type 0 where
    no_members : Members
    field : String → Json → Members → Members

-- `ManifestError` by its `code`, and the two other exceptions that a lookup or a set may raise.
pub data Refusal : Type 0 where
  invalid_contract invalid_json unsupported_game_mode payload_too_large key_error type_error :
      Refusal

-- The values of a list, and a dict with its members in their order.
abbrev pub items : Items → List Json
items no_items = []
items (item j js) = j ∷ items js

abbrev pub entries : Members → Dict String Json
entries no_members = []
entries (field k j ms) = (k, j) ∷ entries ms

abbrev pub list_of : List Json → Items
list_of [] = no_items
list_of (j ∷ js) = item j (list_of js)

abbrev pub dict_of : Dict String Json → Members
dict_of [] = no_members
dict_of ((k, j) ∷ d) = field k j (dict_of d)

pub items-list_of : (js : List Json) → items (list_of js) ≡ js
items-list_of [] = refl
items-list_of (j ∷ js) = ap (λ rest. j ∷ rest) (items-list_of js)

pub entries-dict_of : (d : Dict String Json) → entries (dict_of d) ≡ d
entries-dict_of [] = refl
entries-dict_of ((k, j) ∷ d) = ap (λ rest. (k, j) ∷ rest) (entries-dict_of d)

pub dict_of-entries : (ms : Members) → dict_of (entries ms) ≡ ms
dict_of-entries no_members = refl
dict_of-entries (field k j ms) = ap (λ rest. field k j rest) (dict_of-entries ms)

abbrev pub keys : Dict String Json → List String
keys [] = []
keys ((k, j) ∷ d) = k ∷ keys d

-- The loop of `_duplicate_key_check`: `result` is the dict so far.
unfoldable pub duplicate_key_loop :
    Dict String Json → Dict String Json → Result Refusal (Dict String Json)
duplicate_key_loop result [] = ok result
duplicate_key_loop result ((k, j) ∷ pairs) =
    let rest = duplicate_key_loop (result ++ (k, j) ∷ []) pairs in
    raise_if (contains k (keys result)) invalid_json >> rest

unfoldable pub duplicate_key_check : Dict String Json → Result Refusal (Dict String Json)
unfolding duplicate_key_loop
duplicate_key_check pairs = duplicate_key_loop [] pairs

-- Whether `_reject_non_finite` lets a value pass; the names of members are texts here.
unfoldable mutual
  pub is_finite : Json → Bool
  is_finite (float finite) = finite
  is_finite (arr js) = are_finite js
  is_finite (obj ms) = members_finite ms
  is_finite _ = Bool.true

  pub are_finite : Items → Bool
  are_finite no_items = Bool.true
  are_finite (item j js) = is_finite j && are_finite js

  pub members_finite : Members → Bool
  members_finite no_members = Bool.true
  members_finite (field k j ms) = is_finite j && members_finite ms

unfoldable pub reject_non_finite : Json → Result Refusal (Unit {0})
unfolding is_finite
reject_non_finite j = raise_if (not (is_finite j)) invalid_contract
