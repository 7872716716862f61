-- ===== src/Container/Manifest/Tests.antt =====
-- An input manifest, an upload and an output that the checks take, and changes that they refuse.
use oraja_traning.Prelude.{String, ◌≡◌, refl, Bool, true, false, ◌&&◌, some, [], ◌∷◌, leb, map}
use oraja_traning.Prelude.Int.{pos}
use oraja_traning.Prelude.Dict.{Dict, lookup}
use oraja_traning.Prelude.Result.{Result, ok, err, ◌>>=◌}
use oraja_traning.Container.Json.{
  is_finite, reject_non_finite, Json, null, int, str, arr, obj, list_of, dict_of, Refusal,
  invalid_contract, type_error,
}
use oraja_traning.Container.Formats.{
  is_uuid, fits, uuid_shape, is_idempotency_key, is_sha, sha_shape, replace_z, is_object_key,
  has_parent, parent_here, parent_later, starts_with, is_key_ref, codes_beq,
}
use oraja_traning.Container.Manifest.{
  Builtins, object, exact_keys, member, matching, string, timestamp, stamp_shape, profile_prefix,
  integer, one_of, same_texts, str_of,
}
use oraja_traning.Container.Manifest.Input.{
  InputManifest, validate_input_manifest, check_contract, check_bundle, crosses, check_policy,
}
use oraja_traning.Container.Manifest.Input.Safe.{HasBundle, validate_input_manifest-HasBundle}
use oraja_traning.Container.Manifest.Upload.{
  validate_upload_manifest, five_files, check_files, check_file, other_names, check_snapshot,
  check_encryption, check_privacy,
}
use oraja_traning.Container.Manifest.Upload.Files.{
  HasDatabases, validate_upload_manifest-HasDatabases,
}
use oraja_traning.Container.Manifest.Output.{
  build_output_manifest, prepare_output, normalise_counters, some_artifacts, normalise_artifacts,
  check_artifact, origin_of, text_member, eligibility_status, validate_output_manifest,
  check_normalization, check_counts, check_counters, artifact_list, check_artifacts, match_input,
  same_member,
}
use oraja_traning.Container.Manifest.Output.Built.{build_output_manifest-prepare_output}

abbrev py : Builtins
py = record { digit = λ c. leb 48 c && leb c 57; from_iso = λ cs. some true; shown = λ j. "" }

abbrev profile : String
profile = "0192a3b4-c5d6-7e8f-9a0b-1c2d3e4f5061"

abbrev digest : Json
digest = str "0123456789abcdef0123456789abcdef0123456789abcdef0123456789abcdef"

abbrev moment : Json
moment = str "2026-07-01T00:00:00Z"

abbrev bundle : String → Json
bundle key = obj (
    dict_of (
      ("object_key", str key)
      ∷ ("sha256", digest)
      ∷ ("size_bytes", int (pos 2048))
      ∷ ("encryption", str "envelope-v1")
      ∷ ("key_ref", str "profile-key:0192a3b4-c5d6-7e8f-9a0b-1c2d3e4f5061")
      ∷ []))

abbrev policy : Json → Json
policy status = obj (
    dict_of (
      ("eligibility_status", status)
      ∷ ("eligibility_reason_code", null)
      ∷ ("eligibility_policy_version", str "v1")
      ∷ ("include_raw_db_in_model", Json.bool false)
      ∷ []))

abbrev members : String → Json → Dict String Json
members key status =
    ("contract", str "container-input-manifest")
    ∷ ("schema_version", str "1")
    ∷ ("job_id", str profile)
    ∷ ("idempotency_key", str "job-1")
    ∷ ("account_id", str profile)
    ∷ ("profile_id", str profile)
    ∷ ("trust_domain", str "official")
    ∷ ("source_manifest_sha256", digest)
    ∷ ("input_bundle", bundle key)
    ∷ ("requested_at", moment)
    ∷ ("game_mode", str "SP7")
    ∷ ("policy", policy status)
    ∷ []

abbrev inside : String
inside = "profiles/0192a3b4-c5d6-7e8f-9a0b-1c2d3e4f5061/in.tar"

abbrev input : Json
input = obj (dict_of (members inside (str "pending")))

abbrev input_manifest : InputManifest
input_manifest = record { value = members inside (str "pending") }

input_taken : validate_input_manifest py input ≡ ok input_manifest
unfolding validate_input_manifest reject_non_finite is_finite object exact_keys member lookup
    check_contract matching string is_uuid fits uuid_shape is_idempotency_key is_sha sha_shape
    timestamp stamp_shape replace_z check_bundle is_object_key has_parent parent_here parent_later
    profile_prefix starts_with integer is_key_ref crosses codes_beq check_policy one_of
input_taken = refl

other_partition_refused :
    validate_input_manifest py (obj (dict_of (members "profiles/other/in.tar" (str "pending"))))
    ≡ err invalid_contract
unfolding validate_input_manifest reject_non_finite is_finite object exact_keys member lookup
    check_contract matching string is_uuid fits uuid_shape is_idempotency_key is_sha sha_shape
    timestamp stamp_shape replace_z check_bundle is_object_key has_parent parent_here parent_later
    profile_prefix starts_with integer is_key_ref crosses codes_beq check_policy one_of
other_partition_refused = refl

-- A list as the status is no ManifestError.
list_as_status :
    validate_input_manifest py (obj (dict_of (members inside (arr (list_of []))))) ≡ err type_error
unfolding validate_input_manifest reject_non_finite is_finite object exact_keys member lookup
    check_contract matching string is_uuid fits uuid_shape is_idempotency_key is_sha sha_shape
    timestamp stamp_shape replace_z check_bundle is_object_key has_parent parent_here parent_later
    profile_prefix starts_with integer is_key_ref crosses codes_beq check_policy one_of
list_as_status = refl

validate_input_manifest-HasBundle_example : HasBundle input_manifest
validate_input_manifest-HasBundle_example = validate_input_manifest-HasBundle py input input_taken

abbrev file : String → Json
file name = obj (
    dict_of (
      ("file_name", str name)
      ∷ ("sha256", digest)
      ∷ ("size_bytes", int (pos 1))
      ∷ ("object_key", str inside)
      ∷ []))

abbrev upload : Dict String Json
upload =
    ("contract", str "five-db-upload-manifest")
    ∷ ("schema_version", str "1")
    ∷ ("manifest_id", str profile)
    ∷ ("account_id", str profile)
    ∷ ("profile_id", str profile)
    ∷ ("created_at", moment)
    ∷ ("game_mode", str "SP7")
    ∷ ("trust_domain", str "self_hosted")
    ∷ (
      "files",
      arr (
          list_of (
            map file (
              "songinfo.db" ∷ "score.db" ∷ "scorelog.db" ∷ "songdata.db" ∷ "scoredatalog.db"
              ∷ []))),
    )
    ∷ (
      "snapshot",
      obj (
          dict_of (
            ("static_snapshot", Json.bool true)
            ∷ ("wal_present", Json.bool false)
            ∷ ("shm_present", Json.bool false)
            ∷ ("source_generation", str profile)
            ∷ [])),
    )
    ∷ ("encryption", obj (dict_of (("scheme", str "envelope-v1") ∷ ("scope", str "profile") ∷ [])))
    ∷ (
      "privacy",
      obj (
          dict_of (
            ("contains_bms", Json.bool false)
            ∷ ("contains_replay", Json.bool false)
            ∷ ("aggregate_eligible", Json.bool false)
            ∷ [])),
    )
    ∷ []

upload_taken : validate_upload_manifest py (obj (dict_of upload)) ≡ ok upload
unfolding validate_upload_manifest object exact_keys member lookup check_contract matching string
    is_uuid fits uuid_shape is_sha sha_shape timestamp stamp_shape replace_z is_object_key
    has_parent parent_here parent_later profile_prefix starts_with integer one_of five_files
    check_files check_file other_names check_snapshot check_encryption check_privacy same_texts
upload_taken = refl

validate_upload_manifest-HasDatabases_example : HasDatabases upload
validate_upload_manifest-HasDatabases_example =
    validate_upload_manifest-HasDatabases py (obj (dict_of upload)) upload_taken

abbrev counters : Dict String Json
counters = ("rejected_events", int (pos 0)) ∷ ("accepted_events", int (pos 7)) ∷ []

abbrev artifact : Json
artifact = obj (
    dict_of (
      ("kind", str "model_input")
      ∷ ("object_key", str inside)
      ∷ ("sha256", digest)
      ∷ ("size_bytes", int (pos 10))
      ∷ ("content_type", str "application/json")
      ∷ []))

is_ok : Result Refusal (Dict String Json) → Bool
is_ok (ok d) = true
is_ok (err e) = false

output_built :
    is_ok (build_output_manifest py input digest (int (pos 3)) moment counters (artifact ∷ []))
    ≡ true
unfolding is_ok validate_input_manifest reject_non_finite is_finite object exact_keys member lookup
    check_contract matching string is_uuid fits uuid_shape is_idempotency_key is_sha sha_shape
    timestamp stamp_shape replace_z check_bundle is_object_key has_parent parent_here parent_later
    profile_prefix starts_with integer is_key_ref crosses codes_beq check_policy one_of
    build_output_manifest prepare_output normalise_counters some_artifacts normalise_artifacts
    check_artifact origin_of text_member eligibility_status str_of validate_output_manifest
    check_normalization same_texts check_counts check_counters artifact_list check_artifacts
    match_input same_member
output_built = refl

build_output_manifest-prepare_output_example :
    build_output_manifest py input digest (int (pos 3)) moment counters (artifact ∷ []) ≡ (
      validate_input_manifest py input >>= λ validated.
      prepare_output py validated digest (int (pos 3)) moment counters (artifact ∷ []))
build_output_manifest-prepare_output_example =
    build_output_manifest-prepare_output py input digest (int (pos 3)) moment counters
      (artifact ∷ [])
