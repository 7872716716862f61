-- ===== src/Container/Manifest/Output.antt =====
-- `build_output_manifest` and `validate_output_manifest` of container/manifest.py.
pub mod Again
pub mod Built
use oraja_traning.Prelude.{
  String, Bool, true, false, not, ◌||◌, Option, none, some, List, [], ◌∷◌, ◌++◌, ◌-◌, ◌^◌,
}
use oraja_traning.Prelude.Int.{ℤ, pos}
use oraja_traning.Prelude.Eq.{◌==◌, string_eq}
use oraja_traning.Prelude.Dict.{Dict}
use oraja_traning.Prelude.Result.{Result, ok, err, ◌>>=◌, ◌>>◌, raise_if}
use oraja_traning.Container.Json.{
  Json, int, str, arr, obj, items, list_of, dict_of, Refusal, invalid_contract,
}
use oraja_traning.Container.Formats.{is_idempotency_key}
use oraja_traning.Container.Manifest.{
  member, object, exact_keys, matching, uuid, sha, integer, Builtins, timestamp, object_key,
  profile_prefix, is_text, is_bool, one_of, same_texts, str_of,
}
use oraja_traning.Container.Manifest.Input.{
  InputManifest, eligibility, check_contract, validate_input_manifest,
}

-- `OUTPUT_KEYS`, and the keys of the parts.
abbrev pub output_keys : List String
output_keys =
    "contract" ∷ "schema_version" ∷ "job_id" ∷ "idempotency_key" ∷ "account_id" ∷ "profile_id"
    ∷ "trust_domain" ∷ "eligibility_status" ∷ "input_manifest_sha256" ∷ "output_revision"
    ∷ "generated_at" ∷ "normalization" ∷ "counters" ∷ "artifacts" ∷ "raw_db_exported" ∷ []

abbrev pub counter_keys : List String
counter_keys = "accepted_events" ∷ "rejected_events" ∷ []

abbrev pub artifact_keys : List String
artifact_keys = "kind" ∷ "object_key" ∷ "sha256" ∷ "size_bytes" ∷ "content_type" ∷ []

abbrev pub artifact_kinds : List String
artifact_kinds =
    "normalized_events" ∷ "feature_input" ∷ "model_input" ∷ "recommend_header" ∷ "recommend_score"
    ∷ "daily_menu_header" ∷ "daily_menu_score" ∷ []

abbrev pub content_types : List String
content_types = "application/json" ∷ "application/zstd" ∷ []

abbrev pub normalization : Dict String String
normalization = ("version", "normalization-v1") ∷ ("event_contract", "play-event.v1") ∷ []

abbrev pub max_revision : ℤ
max_revision = pos (2 ^ 63 - 1)

-- One pass of the loop over the artifacts: the artifact as a dict.
unfoldable pub check_artifact : String → Json → Result Refusal (Dict String Json)
check_artifact profile_id j = do
  artifact ← object j
  exact_keys artifact_keys artifact
  known ← one_of artifact_kinds (← member "kind" artifact)
  raise_if (not known) invalid_contract
  key ← object_key (← member "object_key" artifact)
  profile_prefix key profile_id
  digest ← sha (← member "sha256" artifact)
  size ← integer (pos 0) none (← member "size_bytes" artifact)
  typed ← one_of content_types (← member "content_type" artifact)
  raise_if (not typed) invalid_contract
  ok artifact

-- The loop of `validate_output_manifest`, and that of `build_output_manifest`, which copies.
unfoldable pub check_artifacts : String → List Json → Result Refusal (Unit {0})
unfolding check_artifact
check_artifacts profile_id [] = ok tt
check_artifacts profile_id (j ∷ js) = do
  artifact ← check_artifact profile_id j
  check_artifacts profile_id js

unfoldable pub normalise_artifacts : String → List Json → Result Refusal (List Json)
unfolding check_artifact
normalise_artifacts profile_id [] = ok []
normalise_artifacts profile_id (j ∷ js) = do
  artifact ← check_artifact profile_id j
  rest ← normalise_artifacts profile_id js
  ok (obj (dict_of artifact) ∷ rest)

-- `for key, item in counters.items()`
unfoldable pub check_counters : Dict String Json → Result Refusal (Unit {0})
check_counters [] = ok tt
check_counters ((k, j) ∷ d) = do count ← integer (pos 0) none j; check_counters d

-- `not isinstance(artifacts, list) or not artifacts`
unfoldable pub artifact_list : Json → Result Refusal (List Json)
artifact_list (arr js) = elim (items js) [ [] ↦ err invalid_contract | j ∷ rest ↦ ok (j ∷ rest) ]
artifact_list _ = err invalid_contract

-- `str(input_manifest[key])`, for the properties of `InputManifest`.
unfoldable pub text_member : Builtins → String → InputManifest → Result Refusal String
text_member py key m = do j ← member key m.value; ok (str_of py j)

-- `InputManifest.eligibility_status`
unfoldable pub eligibility_status : Builtins → InputManifest → Result Refusal String
eligibility_status py m = do
  policy ← object (← member "policy" m.value)
  status ← member "eligibility_status" policy
  ok (str_of py status)

-- `manifest[key] != input_manifest[key]`, where the first is the text `s`.
unfoldable pub same_member : String → String → InputManifest → Result Refusal (Unit {0})
same_member s key m = do i ← member key m.value; raise_if (not (is_text s i)) invalid_contract

-- What an output says that its input says too; its trust domain is "official".
pub record Identity : Type 0 where
  pub job_id : String
  pub idempotency_key : String
  pub account_id : String
  pub profile_id : String
  pub eligibility : Json

-- `if input_manifest is not None`
unfoldable pub match_input : Builtins → Identity → Option InputManifest → Result Refusal (Unit {0})
unfolding same_member eligibility_status
match_input py out none = ok tt
match_input py out (some m) = do
  same_member out.job_id "job_id" m
  same_member out.idempotency_key "idempotency_key" m
  same_member out.account_id "account_id" m
  same_member out.profile_id "profile_id" m
  same_member "official" "trust_domain" m
  status ← eligibility_status py m
  raise_if (not (is_text status out.eligibility)) invalid_contract

unfoldable pub check_normalization : Json → Result Refusal (Unit {0})
check_normalization j = do
  members ← object j
  exact_keys ("version" ∷ "event_contract" ∷ []) members
  raise_if (not (same_texts normalization j)) invalid_contract

unfoldable pub check_counts : Json → Result Refusal (Unit {0})
unfolding check_counters
check_counts j = do counters ← object j; exact_keys counter_keys counters; check_counters counters

unfoldable pub validate_output_manifest :
    Builtins → Json → Option InputManifest → Result Refusal (Dict String Json)
unfolding check_artifacts artifact_list match_input check_normalization check_counts
validate_output_manifest py value input_manifest = do
  manifest ← object value
  exact_keys output_keys manifest
  check_contract "container-output-manifest" manifest
  job_id ← uuid (← member "job_id" manifest)
  key ← matching is_idempotency_key (← member "idempotency_key" manifest)
  account_id ← uuid (← member "account_id" manifest)
  profile_id ← uuid (← member "profile_id" manifest)
  digest ← sha (← member "input_manifest_sha256" manifest)
  revision ← integer (pos 1) (some max_revision) (← member "output_revision" manifest)
  generated_at ← timestamp py (← member "generated_at" manifest)
  trust_domain ← member "trust_domain" manifest
  raise_if (not (is_text "official" trust_domain)) invalid_contract
  status ← member "eligibility_status" manifest
  known ← one_of eligibility status
  raise_if (not known) invalid_contract
  check_normalization (← member "normalization" manifest)
  check_counts (← member "counters" manifest)
  artifacts ← artifact_list (← member "artifacts" manifest)
  check_artifacts profile_id artifacts
  raw ← member "raw_db_exported" manifest
  raise_if (not (is_bool false raw)) invalid_contract
  match_input py
      (record {
        job_id = job_id;
        idempotency_key = key;
        account_id = account_id;
        profile_id = profile_id;
        eligibility = status;
      })
      input_manifest
  ok manifest

-- `normalized_counters[key] = _integer(counters[key], ...)`, for the two keys.
unfoldable pub normalise_counters : Dict String Json → Result Refusal (Dict String Json)
normalise_counters counters = do
  accepted ← integer (pos 0) none (← member "accepted_events" counters)
  rejected ← integer (pos 0) none (← member "rejected_events" counters)
  ok (("accepted_events", int accepted) ∷ ("rejected_events", int rejected) ∷ [])

-- `if not artifacts`
unfoldable pub some_artifacts : List Json → Result Refusal (Unit {0})
some_artifacts [] = err invalid_contract
some_artifacts (j ∷ js) = ok tt

-- The members of `result` that come from the validated input.
pub record Origin : Type 0 where
  pub job_id : String
  pub idempotency_key : Json
  pub account_id : String
  pub profile_id : String
  pub trust_domain : String
  pub eligibility_status : String

unfoldable pub origin_of : Builtins → InputManifest → Result Refusal Origin
unfolding text_member eligibility_status
origin_of py validated = do
  job_id ← text_member py "job_id" validated
  key ← member "idempotency_key" validated.value
  account_id ← text_member py "account_id" validated
  profile_id ← text_member py "profile_id" validated
  trust_domain ← text_member py "trust_domain" validated
  status ← eligibility_status py validated
  ok (record {
    job_id = job_id;
    idempotency_key = key;
    account_id = account_id;
    profile_id = profile_id;
    trust_domain = trust_domain;
    eligibility_status = status;
  })

-- The `result` of `build_output_manifest`.
abbrev pub output_of :
    Origin → String → ℤ → String → Dict String Json → List Json → Dict String Json
output_of origin digest revision generated_at counters artifacts =
    ("contract", str "container-output-manifest")
    ∷ ("schema_version", str "1")
    ∷ ("job_id", str origin.job_id)
    ∷ ("idempotency_key", origin.idempotency_key)
    ∷ ("account_id", str origin.account_id)
    ∷ ("profile_id", str origin.profile_id)
    ∷ ("trust_domain", str origin.trust_domain)
    ∷ ("eligibility_status", str origin.eligibility_status)
    ∷ ("input_manifest_sha256", str digest)
    ∷ ("output_revision", int revision)
    ∷ ("generated_at", str generated_at)
    ∷ (
      "normalization",
      obj (
          dict_of
            (("version", str "normalization-v1") ∷ ("event_contract", str "play-event.v1") ∷ [])),
    )
    ∷ ("counters", obj (dict_of counters))
    ∷ ("artifacts", arr (list_of artifacts))
    ∷ ("raw_db_exported", Json.bool false)
    ∷ []

-- `build_output_manifest` before it validates its own result.
unfoldable pub prepare_output :
    Builtins
    → InputManifest
    → Json
    → Json
    → Json
    → Dict String Json
    → List Json
    → Result Refusal (Dict String Json)
unfolding normalise_counters some_artifacts normalise_artifacts origin_of
prepare_output py validated digest revision generated_at counters artifacts = do
  sha256 ← sha digest
  output_revision ← integer (pos 1) (some max_revision) revision
  moment ← timestamp py generated_at
  exact_keys counter_keys counters
  normalized_counters ← normalise_counters counters
  some_artifacts artifacts
  profile_id ← text_member py "profile_id" validated
  normalized_artifacts ← normalise_artifacts profile_id artifacts
  origin ← origin_of py validated
  ok (output_of origin sha256 output_revision moment normalized_counters normalized_artifacts)

unfoldable pub build_output_manifest :
    Builtins
    → Json
    → Json
    → Json
    → Json
    → Dict String Json
    → List Json
    → Result Refusal (Dict String Json)
unfolding prepare_output
build_output_manifest py source digest revision generated_at counters artifacts = do
  validated ← validate_input_manifest py source
  result ← prepare_output py validated digest revision generated_at counters artifacts
  checked ← validate_output_manifest py (obj (dict_of result)) (some validated)
  ok result
