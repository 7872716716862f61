-- ===== src/Container/Manifest/Input.antt =====
-- `validate_input_manifest` of container/manifest.py.
pub mod Accepted
pub mod Safe
use oraja_traning.Prelude.{
  ℕ, String, Bool, true, false, not, ◌&&◌, ◌||◌, Option, none, some, List, [], ◌∷◌, length, drop,
  ltb, leb, ◌*◌,
}
use oraja_traning.Prelude.Int.{ℤ, pos, ltb_ℤ}
use oraja_traning.Prelude.Eq.{◌==◌, string_eq}
use oraja_traning.Prelude.Dict.{Dict}
use oraja_traning.Prelude.Result.{Result, ok, err, ◌>>=◌, ◌>>◌, raise_if}
use oraja_traning.Prelude.Text.{codes}
use oraja_traning.Container.Json.{
  Json, null, int, str, Refusal, invalid_contract, unsupported_game_mode, payload_too_large,
  reject_non_finite,
}
use oraja_traning.Container.Formats.{is_idempotency_key, is_key_ref, starts_with, codes_beq}
use oraja_traning.Container.Manifest.{
  member, object, exact_keys, string, matching, uuid, sha, integer, Builtins, timestamp, object_key,
  profile_prefix, is_text, is_bool, one_of,
}

-- `INPUT_KEYS`, the keys of a bundle and those of a policy.
abbrev pub input_keys : List String
input_keys =
    "contract" ∷ "schema_version" ∷ "job_id" ∷ "idempotency_key" ∷ "account_id" ∷ "profile_id"
    ∷ "trust_domain" ∷ "source_manifest_sha256" ∷ "input_bundle" ∷ "requested_at" ∷ "game_mode"
    ∷ "policy" ∷ []

abbrev pub bundle_keys : List String
bundle_keys = "object_key" ∷ "sha256" ∷ "size_bytes" ∷ "encryption" ∷ "key_ref" ∷ []

abbrev pub policy_keys : List String
policy_keys =
    "eligibility_status" ∷ "eligibility_reason_code" ∷ "eligibility_policy_version"
    ∷ "include_raw_db_in_model" ∷ []

abbrev pub eligibility : List String
eligibility = "pending" ∷ "eligible" ∷ "ineligible" ∷ "revoked" ∷ []

abbrev pub max_size : ℤ
max_size = pos (5 * 1024 * 1024 * 1024)

-- `InputManifest`
pub record InputManifest : Type 0 where
  pub value : Dict String Json

-- The key reference names another profile.
unfoldable pub crosses : String → String → Bool
crosses key_ref profile_id =
    starts_with (codes "profile-key:") (codes key_ref)
    && not (codes_beq (drop 12 (codes key_ref)) (codes profile_id))

unfoldable pub check_bundle : String → Json → Result Refusal (Unit {0})
unfolding crosses
check_bundle profile_id j = do
  bundle ← object j
  exact_keys bundle_keys bundle
  key ← object_key (← member "object_key" bundle)
  profile_prefix key profile_id
  digest ← sha (← member "sha256" bundle)
  size_bytes ← integer (pos 1) none (← member "size_bytes" bundle)
  raise_if (ltb_ℤ max_size size_bytes) payload_too_large
  scheme ← member "encryption" bundle
  raise_if (not (is_text "envelope-v1" scheme)) invalid_contract
  key_ref ← matching is_key_ref (← member "key_ref" bundle)
  raise_if (crosses key_ref profile_id) invalid_contract

-- `reason is not None and (not isinstance(reason, str) or len(reason) > 64)`
abbrev pub bad_reason : Json → Bool
bad_reason null = false
bad_reason (str s) = ltb 64 (length (codes s))
bad_reason _ = true

-- `not isinstance(version, str) or not 1 <= len(version) <= 32`
abbrev pub bad_version : Json → Bool
bad_version (str s) = not (leb 1 (length (codes s)) && leb (length (codes s)) 32)
bad_version _ = true

unfoldable pub check_policy : Json → Result Refusal (Unit {0})
check_policy j = do
  policy ← object j
  exact_keys policy_keys policy
  known ← one_of eligibility (← member "eligibility_status" policy)
  raise_if (not known) invalid_contract
  reason ← member "eligibility_reason_code" policy
  raise_if (bad_reason reason) invalid_contract
  version ← member "eligibility_policy_version" policy
  raise_if (bad_version version) invalid_contract
  raw ← member "include_raw_db_in_model" policy
  raise_if (not (is_bool false raw)) invalid_contract

-- `manifest["contract"] != contract or manifest["schema_version"] != "1"`
unfoldable pub check_contract : String → Dict String Json → Result Refusal (Unit {0})
check_contract contract manifest = do
  name ← member "contract" manifest
  version ← member "schema_version" manifest
  raise_if (not (is_text contract name) || not (is_text "1" version)) invalid_contract

unfoldable pub validate_input_manifest : Builtins → Json → Result Refusal InputManifest
unfolding check_contract check_bundle check_policy
validate_input_manifest py value = do
  reject_non_finite value
  manifest ← object value
  exact_keys input_keys manifest
  check_contract "container-input-manifest" manifest
  job_id ← uuid (← member "job_id" manifest)
  profile_id ← uuid (← member "profile_id" manifest)
  account_id ← uuid (← member "account_id" manifest)
  key ← matching is_idempotency_key (← member "idempotency_key" manifest)
  trust_domain ← member "trust_domain" manifest
  raise_if (not (is_text "official" trust_domain)) invalid_contract
  digest ← sha (← member "source_manifest_sha256" manifest)
  requested_at ← timestamp py (← member "requested_at" manifest)
  game_mode ← member "game_mode" manifest
  raise_if (not (is_text "SP7" game_mode)) unsupported_game_mode
  check_bundle profile_id (← member "input_bundle" manifest)
  check_policy (← member "policy" manifest)
  raise_if (job_id == "") invalid_contract
  ok (record { value = manifest })
