-- ===== src/Container/Manifest/Upload.antt =====
-- `validate_upload_manifest` of container/manifest.py.
pub mod Files
use oraja_traning.Prelude.{
  String, Bool, true, false, not, ◌||◌, none, List, [], ◌∷◌, ◌++◌, length, nat_beq, all,
}
use oraja_traning.Prelude.Int.{ℤ, pos, ltb_ℤ}
use oraja_traning.Prelude.Eq.{◌==◌, string_eq, contains}
use oraja_traning.Prelude.Dict.{Dict}
use oraja_traning.Prelude.Result.{Result, ok, err, ◌>>=◌, ◌>>◌, raise_if}
use oraja_traning.Container.Json.{
  Json, arr, items, Refusal, invalid_contract, unsupported_game_mode, payload_too_large,
}
use oraja_traning.Container.Manifest.{
  member, object, exact_keys, string, uuid, sha, integer, Builtins, timestamp, object_key,
  profile_prefix, is_text, is_bool, one_of, same_texts,
}
use oraja_traning.Container.Manifest.Input.{max_size, check_contract}

-- `DATABASE_NAMES`
abbrev pub database_names : List String
database_names = "score.db" ∷ "scoredatalog.db" ∷ "scorelog.db" ∷ "songdata.db" ∷ "songinfo.db" ∷ []

-- `required`, and the keys of the parts.
abbrev pub upload_keys : List String
upload_keys =
    "contract" ∷ "schema_version" ∷ "manifest_id" ∷ "account_id" ∷ "profile_id" ∷ "created_at"
    ∷ "game_mode" ∷ "trust_domain" ∷ "files" ∷ "snapshot" ∷ "encryption" ∷ "privacy" ∷ []

abbrev pub file_keys : List String
file_keys = "file_name" ∷ "sha256" ∷ "size_bytes" ∷ "object_key" ∷ []

abbrev pub snapshot_keys : List String
snapshot_keys = "static_snapshot" ∷ "wal_present" ∷ "shm_present" ∷ "source_generation" ∷ []

abbrev pub privacy_keys : List String
privacy_keys = "contains_bms" ∷ "contains_replay" ∷ "aggregate_eligible" ∷ []

-- One pass of the loop over the files: the name of the file.
unfoldable pub check_file : String → List String → Json → Result Refusal String
check_file profile_id names j = do
  entry ← object j
  exact_keys file_keys entry
  name ← string (← member "file_name" entry)
  raise_if (not (contains name database_names) || contains name names) invalid_contract
  digest ← sha (← member "sha256" entry)
  size ← integer (pos 1) none (← member "size_bytes" entry)
  raise_if (ltb_ℤ max_size size) payload_too_large
  key ← object_key (← member "object_key" entry)
  profile_prefix key profile_id
  ok name

-- The loop: `names` are those of the files before.
unfoldable pub check_files : String → List String → List Json → Result Refusal (List String)
unfolding check_file
check_files profile_id names [] = ok names
check_files profile_id names (j ∷ js) = do
  name ← check_file profile_id names j
  check_files profile_id (names ++ name ∷ []) js

-- `not isinstance(files, list) or len(files) != len(DATABASE_NAMES)`
unfoldable pub five_files : Json → Result Refusal (List Json)
five_files (arr js) =
    raise_if (not (nat_beq (length (items js)) (length database_names))) invalid_contract
    >> ok (items js)
five_files _ = err invalid_contract

-- `set(names) != set(DATABASE_NAMES)`
unfoldable pub other_names : List String → Bool
other_names names =
    not (all (λ (n : String). contains n database_names) names)
    || not (all (λ (n : String). contains n names) database_names)

unfoldable pub check_snapshot : Json → Result Refusal (Unit {0})
check_snapshot j = do
  snapshot ← object j
  exact_keys snapshot_keys snapshot
  static ← member "static_snapshot" snapshot
  wal ← member "wal_present" snapshot
  shm ← member "shm_present" snapshot
  raise_if (not (is_bool true static) || not (is_bool false wal) || not (is_bool false shm))
      invalid_contract
  generation ← uuid (← member "source_generation" snapshot)
  ok tt

unfoldable pub check_encryption : Json → Result Refusal (Unit {0})
check_encryption j = do
  encryption ← object j
  exact_keys ("scheme" ∷ "scope" ∷ []) encryption
  raise_if (not (same_texts (("scheme", "envelope-v1") ∷ ("scope", "profile") ∷ []) j))
      invalid_contract

unfoldable pub check_privacy : Json → Result Refusal (Unit {0})
check_privacy j = do
  privacy ← object j
  exact_keys privacy_keys privacy
  bms ← member "contains_bms" privacy
  replay ← member "contains_replay" privacy
  aggregate ← member "aggregate_eligible" privacy
  raise_if (not (is_bool false bms) || not (is_bool false replay) || not (is_bool false aggregate))
      invalid_contract

unfoldable pub validate_upload_manifest : Builtins → Json → Result Refusal (Dict String Json)
unfolding check_files five_files other_names check_snapshot check_encryption check_privacy
validate_upload_manifest py value = do
  manifest ← object value
  exact_keys upload_keys manifest
  check_contract "five-db-upload-manifest" manifest
  manifest_id ← uuid (← member "manifest_id" manifest)
  account_id ← uuid (← member "account_id" manifest)
  profile_id ← uuid (← member "profile_id" manifest)
  created_at ← timestamp py (← member "created_at" manifest)
  game_mode ← member "game_mode" manifest
  raise_if (not (is_text "SP7" game_mode)) unsupported_game_mode
  trusted ← one_of ("official" ∷ "self_hosted" ∷ []) (← member "trust_domain" manifest)
  raise_if (not trusted) invalid_contract
  files ← five_files (← member "files" manifest)
  names ← check_files profile_id [] files
  raise_if (other_names names) invalid_contract
  check_snapshot (← member "snapshot" manifest)
  check_encryption (← member "encryption" manifest)
  check_privacy (← member "privacy" manifest)
  raise_if (account_id == "" || profile_id == "") invalid_contract
  ok manifest
