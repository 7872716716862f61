-- ===== src/Container/Json/Unique.antt =====
-- `_duplicate_key_check`.
use oraja_traning.Prelude.{
  String, ◌≡◌, refl, sym, Bool, true, not, ◌&&◌, List, [], ◌∷◌, ◌++◌, arith, if◌then◌else◌,
  append_assoc, append-nil, ap,
}
use oraja_traning.Prelude.Eq.{string_eq, contains}
use oraja_traning.Prelude.Dict.{Dict}
use oraja_traning.Prelude.Distinct.{distinct, contains-append}
use oraja_traning.Prelude.Result.{ok, err}
use oraja_traning.Container.Json.{Json, invalid_json, keys, duplicate_key_loop, duplicate_key_check}

keys-append :
    (d : Dict String Json) (k : String) (j : Json) → keys (d ++ (k, j) ∷ []) ≡ keys d ++ k ∷ []
keys-append [] k j = refl
keys-append ((i, x) ∷ d) k j = ap (λ ks. i ∷ ks) (keys-append d k j)

-- No key of the pairs is among the keys so far, or twice among the pairs.
abbrev fresh : List String → List String → Bool
fresh seen [] = true
fresh seen (k ∷ ks) = not (contains k seen) && fresh (seen ++ k ∷ []) ks

loop_fresh :
    (result pairs : Dict String Json)
    → duplicate_key_loop result pairs
      ≡ (if fresh (keys result) (keys pairs) then ok (result ++ pairs) else err invalid_json)
unfolding duplicate_key_loop
loop_fresh result [] = ap ok (sym (append-nil result))
loop_fresh result ((k, j) ∷ pairs) =
    rw (loop_fresh (result ++ (k, j) ∷ []) pairs)
      (rw (keys-append result k j, append_assoc result ((k, j) ∷ []) pairs) (ground arith))

abbrev none_in : List String → List String → Bool
none_in seen [] = true
none_in seen (k ∷ ks) = not (contains k seen) && none_in seen ks

none_in-append :
    (k : String) (seen ks : List String)
    → none_in (seen ++ k ∷ []) ks ≡ (none_in seen ks && not (contains k ks))
none_in-append k seen [] = refl
none_in-append k seen (i ∷ ks) = ground (
  arith,
  contains-append i k seen,
  none_in-append k seen ks,
  string_eq.beq_iff i k,
  string_eq.beq_iff k i,
)

fresh-distinct : (seen ks : List String) → fresh seen ks ≡ (none_in seen ks && distinct ks)
fresh-distinct seen [] = refl
fresh-distinct seen (k ∷ ks) =
    ground (arith, fresh-distinct (seen ++ k ∷ []) ks, none_in-append k seen ks)

none_in_nothing : (ks : List String) → none_in [] ks ≡ true
none_in_nothing [] = refl
none_in_nothing (k ∷ ks) = none_in_nothing ks

-- `_duplicate_key_check` returns the pairs as they are, as a dict, when no key stands twice among
-- them, and raises "invalid_json" otherwise.
pub duplicate_key_check-distinct :
    (pairs : Dict String Json)
    → duplicate_key_check pairs ≡ (if distinct (keys pairs) then ok pairs else err invalid_json)
unfolding duplicate_key_check
duplicate_key_check-distinct pairs =
    rw (loop_fresh [] pairs, fresh-distinct [] (keys pairs), none_in_nothing (keys pairs)) refl
