-- ===== src/Container/Manifest/Input/Safe.antt =====
-- Where the bundle of an accepted input manifest lies, and how large it is.
use mathlib.Core.Path.{subst}
use oraja_traning.Prelude.{String, ◌≡◌, some, arith}
use oraja_traning.Prelude.Int.{ℤ, pos, ◌≤ℤ◌}
use oraja_traning.Prelude.Eq.{string_eq}
use oraja_traning.Prelude.Dict.{lookup}
use oraja_traning.Prelude.Result.{ok}
use oraja_traning.Container.Json.{Json, str, int, obj, Members, entries}
use oraja_traning.Container.Formats.Paths.{IsInside, object_key-IsInside}
use oraja_traning.Container.Manifest.{Builtins}
use oraja_traning.Container.Manifest.Input.{InputManifest, max_size, validate_input_manifest}
use oraja_traning.Container.Manifest.Input.Accepted.{
  validate_input_manifest-IsAccepted, check_bundle-IsBundle,
}

-- The profile, the bundle, and the key and the size of the bundle.
pub record HasBundle (m : InputManifest) : Type 0 where
  pub profile_id : String
  pub bundle : Members
  pub key : String
  pub size_bytes : ℤ
  pub profile_at : lookup "profile_id" m.value ≡ some (str profile_id)
  pub bundle_at : lookup "input_bundle" m.value ≡ some (obj bundle)
  pub key_at : lookup "object_key" (entries bundle) ≡ some (str key)
  pub size_at : lookup "size_bytes" (entries bundle) ≡ some (int size_bytes)
  pub inside : IsInside profile_id key
  pub positive : pos 1 ≤ℤ size_bytes
  pub bounded : size_bytes ≤ℤ max_size

-- An input manifest that is accepted has, whatever the dates are taken for: a text as its profile;
-- an object as its bundle, with a text as its object key and an integer as its size; the parts of
-- the key between its slashes are "profiles", the profile and then others, and none of them is
-- ".."; and the size is from 1 to 5 * 1024 * 1024 * 1024.
pub validate_input_manifest-HasBundle :
    (py : Builtins) (value : Json) {m : InputManifest}
    → validate_input_manifest py value ≡ ok m
    → HasBundle m
validate_input_manifest-HasBundle py value {m} h =
    let a = validate_input_manifest-IsAccepted py value h in
    let b = check_bundle-IsBundle a.profile_id a.bundle a.bundle_checked in
    record {
      profile_id = a.profile_id;
      bundle = b.members;
      key = b.key;
      size_bytes = b.size_bytes;
      profile_at = a.profile_at;
      bundle_at = subst (λ j. lookup "input_bundle" m.value ≡ some j) b.whole a.bundle_at;
      key_at = b.key_at;
      size_at = b.size_at;
      inside = object_key-IsInside a.profile_id b.key a.profile_shape b.key_shape b.key_inside;
      positive = ground (arith, b.size_positive);
      bounded = ground (arith, b.size_bounded);
    }
