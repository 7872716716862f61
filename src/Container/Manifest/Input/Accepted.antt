-- ===== src/Container/Manifest/Input/Accepted.antt =====
-- What an input manifest is that `validate_input_manifest` accepts.
use mathlib.Core.Path.{subst}
use oraja_traning.Prelude.{String, ◌≡◌, ap, sym, true, false, not, ◌∙◌, some, arith, none}
use oraja_traning.Prelude.Int.{ℤ, pos, ltb_ℤ}
use oraja_traning.Prelude.Eq.{◌==◌, string_eq}
use oraja_traning.Prelude.Dict.{lookup}
use oraja_traning.Prelude.Result.{ok, >>=-eq-ok, raise_if-ok, ok-injective}
use oraja_traning.Prelude.Text.{codes}
use oraja_traning.Container.Json.{Json, str, int, obj, Members, entries, reject_non_finite}
use oraja_traning.Container.Formats.{
  is_uuid, is_sha, is_object_key, is_idempotency_key, starts_with,
}
use oraja_traning.Container.Manifest.{Builtins, is_text, object, partition, timestamp}
use oraja_traning.Container.Manifest.Accepted.{
  object-ok, exact_keys-ok, profile_prefix-ok, matching-member, integer-member, any_member,
  checked_member,
}
use oraja_traning.Container.Manifest.Input.{
  InputManifest, input_keys, bundle_keys, max_size, check_contract, check_bundle, check_policy,
  validate_input_manifest,
}

-- The members that the rest of the program reads, with the parts that passed their checks.
pub record IsAccepted (value : Json) (m : InputManifest) : Type 0 where
  pub members : Members
  pub whole : value ≡ obj members
  pub kept : m.value ≡ entries members
  pub job_id : String
  pub profile_id : String
  pub account_id : String
  pub idempotency_key : String
  pub bundle : Json
  pub policy : Json
  pub job_at : lookup "job_id" m.value ≡ some (str job_id)
  pub job_shape : is_uuid (codes job_id) ≡ true
  pub profile_at : lookup "profile_id" m.value ≡ some (str profile_id)
  pub profile_shape : is_uuid (codes profile_id) ≡ true
  pub account_at : lookup "account_id" m.value ≡ some (str account_id)
  pub account_shape : is_uuid (codes account_id) ≡ true
  pub key_at : lookup "idempotency_key" m.value ≡ some (str idempotency_key)
  pub key_shape : is_idempotency_key (codes idempotency_key) ≡ true
  pub trust_at : lookup "trust_domain" m.value ≡ some (str "official")
  pub bundle_at : lookup "input_bundle" m.value ≡ some bundle
  pub bundle_checked : check_bundle profile_id bundle ≡ ok tt
  pub policy_at : lookup "policy" m.value ≡ some policy
  pub policy_checked : check_policy policy ≡ ok tt

pub is_text-eq : (s : String) (j : Json) → is_text s j ≡ true → j ≡ str s
is_text-eq s (str t) h = ap str ((string_eq.beq_iff t s).0 h)
is_text-eq s Json.null h = cc
is_text-eq s (Json.bool b) h = cc
is_text-eq s (int n) h = cc
is_text-eq s (Json.float b) h = cc
is_text-eq s (Json.arr js) h = cc
is_text-eq s (obj ms) h = cc

pub validate_input_manifest-IsAccepted :
    (py : Builtins) (value : Json) {m : InputManifest}
    → validate_input_manifest py value ≡ ok m
    → IsAccepted value m
unfolding validate_input_manifest
validate_input_manifest-IsAccepted py value {m} h =
    let (_, _, h) = >>=-eq-ok (reject_non_finite value) _ h in
    let (manifest, read, h) = >>=-eq-ok (object value) _ h in
    let (keys, h) = exact_keys-ok input_keys manifest _ h in
    let (_, _, h) = >>=-eq-ok (check_contract "container-input-manifest" manifest) _ h in
    let (job_id, job_at, job_shape, h) = matching-member "job_id" manifest is_uuid _ h in
    let (profile_id, profile_at, profile_shape, h) =
      matching-member "profile_id" manifest is_uuid _ h in
    let (account_id, account_at, account_shape, h) =
      matching-member "account_id" manifest is_uuid _ h in
    let (key, key_at, key_shape, h) =
      matching-member "idempotency_key" manifest is_idempotency_key _ h in
    let (trust_domain, trust_at, h) = any_member "trust_domain" manifest _ h in
    let (trusted, h) = raise_if-ok (not (is_text "official" trust_domain)) _ _ h in
    let (_, _, _, h) = matching-member "source_manifest_sha256" manifest is_sha _ h in
    let (_, _, _, _, h) = checked_member "requested_at" manifest (timestamp py) _ h in
    let (game_mode, _, h) = any_member "game_mode" manifest _ h in
    let (_, h) = raise_if-ok (not (is_text "SP7" game_mode)) _ _ h in
    let (bundle, _, bundle_at, bundle_checked, h) =
      checked_member "input_bundle" manifest (check_bundle profile_id) _ h in
    let (policy, _, policy_at, policy_checked, h) =
      checked_member "policy" manifest check_policy _ h in
    let (_, done) = raise_if-ok (job_id == "") _ _ h in
    let (members, whole, kept) = object-ok value read in
    let accepted : IsAccepted value (record { value = manifest }) = record {
      members = members;
      whole = whole;
      kept = sym kept;
      job_id = job_id;
      profile_id = profile_id;
      account_id = account_id;
      idempotency_key = key;
      bundle = bundle;
      policy = policy;
      job_at = job_at;
      job_shape = job_shape;
      profile_at = profile_at;
      profile_shape = profile_shape;
      account_at = account_at;
      account_shape = account_shape;
      key_at = key_at;
      key_shape = key_shape;
      trust_at = trust_at ∙ ap some (is_text-eq "official" trust_domain (ground arith));
      bundle_at = bundle_at;
      bundle_checked = bundle_checked;
      policy_at = policy_at;
      policy_checked = policy_checked;
    } in
    subst (IsAccepted value) (ok-injective done) accepted

-- What `check_bundle` has found.
pub record IsBundle (profile_id : String) (j : Json) : Type 0 where
  pub members : Members
  pub whole : j ≡ obj members
  pub key : String
  pub size_bytes : ℤ
  pub key_at : lookup "object_key" (entries members) ≡ some (str key)
  pub key_shape : is_object_key (codes key) ≡ true
  pub key_inside : starts_with (partition profile_id) (codes key) ≡ true
  pub size_at : lookup "size_bytes" (entries members) ≡ some (int size_bytes)
  pub size_positive : ltb_ℤ size_bytes (pos 1) ≡ false
  pub size_bounded : ltb_ℤ max_size size_bytes ≡ false

pub check_bundle-IsBundle :
    (profile_id : String) (j : Json) → check_bundle profile_id j ≡ ok tt → IsBundle profile_id j
unfolding check_bundle
check_bundle-IsBundle profile_id j h =
    let (bundle, read, h) = >>=-eq-ok (object j) _ h in
    let (members, whole, kept) = object-ok j read in
    let (_, h) = exact_keys-ok bundle_keys bundle _ h in
    let (key, key_at, key_shape, h) = matching-member "object_key" bundle is_object_key _ h in
    let (inside, h) = profile_prefix-ok key profile_id _ h in
    let (_, _, _, h) = matching-member "sha256" bundle is_sha _ h in
    let (size, size_at, low, _, h) = integer-member "size_bytes" bundle (pos 1) none _ h in
    let (high, h) = raise_if-ok (ltb_ℤ max_size size) _ _ h in
    record {
      members = members;
      whole = whole;
      key = key;
      size_bytes = size;
      key_at = ap (lookup "object_key") kept ∙ key_at;
      key_shape = key_shape;
      key_inside = inside;
      size_at = ap (lookup "size_bytes") kept ∙ size_at;
      size_positive = low;
      size_bounded = high;
    }
