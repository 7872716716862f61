-- ===== src/Container/Json/Tests.antt =====
-- Pairs with a key that stands twice.
use oraja_traning.Prelude.{String, ◌≡◌, true, [], ◌∷◌, if◌then◌else◌}
use oraja_traning.Prelude.Dict.{Dict}
use oraja_traning.Prelude.Distinct.{distinct}
use oraja_traning.Prelude.Result.{ok, err}
use oraja_traning.Container.Json.{Json, null, invalid_json, keys, duplicate_key_check}
use oraja_traning.Container.Json.Unique.{duplicate_key_check-distinct}

abbrev repeated : Dict String Json
repeated = ("a", null) ∷ ("b", null) ∷ ("a", Json.bool true) ∷ []

duplicate_key_check-distinct_example :
    duplicate_key_check repeated
    ≡ (if distinct (keys repeated) then ok repeated else err invalid_json)
duplicate_key_check-distinct_example = duplicate_key_check-distinct repeated
