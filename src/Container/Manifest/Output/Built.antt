-- ===== src/Container/Manifest/Output/Built.antt =====
-- What `build_output_manifest` builds passes `validate_output_manifest`.
use mathlib.Core.Path.{subst}
use oraja_traning.Prelude.{
  String, ◌≡◌, refl, ap, sym, ◌∙◌, true, not, none, some, List, [], ◌∷◌, arith,
}
use oraja_traning.Prelude.Int.{ℤ, pos}
use oraja_traning.Prelude.Eq.{string_eq, contains, beq_refl}
use oraja_traning.Prelude.Dict.{lookup, Dict}
use oraja_traning.Prelude.Result.{ok, ◌>>=◌, >>=-eq-ok, raise_if-ok, ok-injective, >>=-same, >>=-ok}
use oraja_traning.Container.Json.{Json, str, int, obj, dict_of, items-list_of}
use oraja_traning.Container.Formats.{is_uuid, is_idempotency_key, is_sha}
use oraja_traning.Container.Manifest.{
  Builtins, member, object, matching, sha, integer, timestamp, one_of, str_of, same_texts,
  exact_keys,
}
use oraja_traning.Container.Manifest.Accepted.{checked_member, exact_keys-ok}
use oraja_traning.Container.Manifest.Input.{
  InputManifest, validate_input_manifest, eligibility, check_policy, policy_keys, check_contract,
}
use oraja_traning.Container.Manifest.Input.Accepted.{IsAccepted, validate_input_manifest-IsAccepted}
use oraja_traning.Container.Manifest.Output.{
  max_revision, counter_keys, check_artifacts, normalise_artifacts, normalise_counters,
  some_artifacts, text_member, eligibility_status, Origin, origin_of, match_input, output_of,
  prepare_output, build_output_manifest, validate_output_manifest, check_normalization,
  check_counts, check_counters, artifact_list,
}
use oraja_traning.Container.Manifest.Output.Again.{
  matching_again, integer_again, timestamp_again, uuid_text, key_text, one_of-text,
  check_artifacts-normalise, member_found, normalise_counters-ok, some_artifacts-ok,
  text_member_found, same_member_found,
}

-- The texts that an accepted input manifest lends to its output.
module _ (py : Builtins) (m : InputManifest) (job key account profile status : String)
    (job_at : lookup "job_id" m.value ≡ some (str job))
    (key_at : lookup "idempotency_key" m.value ≡ some (str key))
    (account_at : lookup "account_id" m.value ≡ some (str account))
    (profile_at : lookup "profile_id" m.value ≡ some (str profile))
    (trust_at : lookup "trust_domain" m.value ≡ some (str "official"))
    (status_of : eligibility_status py m ≡ ok status) where
  abbrev lent : Origin
  lent = record {
    job_id = job;
    idempotency_key = str key;
    account_id = account;
    profile_id = profile;
    trust_domain = "official";
    eligibility_status = status;
  }

  origin_of-lent : origin_of py m ≡ ok lent
  unfolding origin_of
  origin_of-lent =
      rw
        (
          text_member_found "job_id" m job_at py,
          member_found "idempotency_key" m.value key_at,
          text_member_found "account_id" m account_at py,
          text_member_found "profile_id" m profile_at py,
          text_member_found "trust_domain" m trust_at py,
          status_of,
        )
        refl

  match_input_lent :
      match_input py
        (record {
          job_id = job;
          idempotency_key = key;
          account_id = account;
          profile_id = profile;
          eligibility = str status;
        })
        (some m)
      ≡ ok tt
  unfolding match_input
  match_input_lent =
      rw
        (
          same_member_found "job_id" m job_at,
          same_member_found "idempotency_key" m key_at,
          same_member_found "account_id" m account_at,
          same_member_found "profile_id" m profile_at,
          same_member_found "trust_domain" m trust_at,
          status_of,
          beq_refl status,
        )
        refl

  -- The output passes, part by part.
  module _ (digest moment : String) (revision accepted rejected : ℤ) (j : Json) (js : List Json)
      (job_shape : matching is_uuid (str job) ≡ ok job)
      (key_shape : matching is_idempotency_key (str key) ≡ ok key)
      (account_shape : matching is_uuid (str account) ≡ ok account)
      (profile_shape : matching is_uuid (str profile) ≡ ok profile)
      (known : contains status eligibility ≡ true) (digest_shape : sha (str digest) ≡ ok digest)
      (revision_shape : integer (pos 1) (some max_revision) (int revision) ≡ ok revision)
      (moment_shape : timestamp py (str moment) ≡ ok moment)
      (accepted_shape : integer (pos 0) none (int accepted) ≡ ok accepted)
      (rejected_shape : integer (pos 0) none (int rejected) ≡ ok rejected)
      (passed : check_artifacts profile (j ∷ js) ≡ ok tt) where
    abbrev built : Dict String Json
    built =
        output_of lent digest revision moment
          (("accepted_events", int accepted) ∷ ("rejected_events", int rejected) ∷ []) (j ∷ js)

    validate_output_manifest-built :
        validate_output_manifest py (obj (dict_of built)) (some m) ≡ ok built
    unfolding validate_output_manifest object exact_keys member check_contract one_of
        check_normalization same_texts check_counts check_counters artifact_list lookup
    validate_output_manifest-built =
        rw
          (
            job_shape,
            key_shape,
            account_shape,
            profile_shape,
            digest_shape,
            revision_shape,
            moment_shape,
            known,
            accepted_shape,
            rejected_shape,
            items-list_of js,
            passed,
            match_input_lent,
          )
          refl

eligibility_status_found :
    (py : Builtins) (m : InputManifest) {policy : Json} {d : Dict String Json} {s : String}
    → lookup "policy" m.value ≡ some policy
    → object policy ≡ ok d
    → lookup "eligibility_status" d ≡ some (str s)
    → eligibility_status py m ≡ ok s
unfolding eligibility_status str_of
eligibility_status_found py m {d = d} at read found =
    rw (member_found "policy" m.value at, read, member_found "eligibility_status" d found) refl

policy_status :
    (py : Builtins) (m : InputManifest) (policy : Json)
    → lookup "policy" m.value ≡ some policy
    → check_policy policy ≡ ok tt
    → (s : String) × (eligibility_status py m ≡ ok s) × (contains s eligibility ≡ true)
unfolding check_policy
policy_status py m policy at h =
    let (d, read, h) = >>=-eq-ok (object policy) _ h in
    let (_, h) = exact_keys-ok policy_keys d _ h in
    let (status, known, found, listed, h) =
      checked_member "eligibility_status" d (one_of eligibility) _ h in
    let (went, _) = raise_if-ok (not known) _ _ h in
    let (s, shape, inside) = one_of-text eligibility status (listed ∙ ap ok (ground arith)) in
    (s, eligibility_status_found py m at read (found ∙ ap some shape), inside)

abbrev counts : ℤ → ℤ → Dict String Json
counts x y = ("accepted_events", int x) ∷ ("rejected_events", int y) ∷ []

-- The steps of `prepare_output`, each with what it has returned.
record IsPrepared (py : Builtins) (m : InputManifest) (r : Dict String Json) : Type 0 where
  digest : String
  moment : String
  profile : String
  revision : ℤ
  accepted : ℤ
  rejected : ℤ
  origin : Origin
  first : Json
  others : List Json
  digest_shape : sha (str digest) ≡ ok digest
  revision_shape : integer (pos 1) (some max_revision) (int revision) ≡ ok revision
  moment_shape : timestamp py (str moment) ≡ ok moment
  accepted_shape : integer (pos 0) none (int accepted) ≡ ok accepted
  rejected_shape : integer (pos 0) none (int rejected) ≡ ok rejected
  profile_ok : text_member py "profile_id" m ≡ ok profile
  origin_ok : origin_of py m ≡ ok origin
  passed : check_artifacts profile (first ∷ others) ≡ ok tt
  whole : output_of origin digest revision moment (counts accepted rejected) (first ∷ others) ≡ r

prepare_output-IsPrepared :
    (py : Builtins) (m : InputManifest) (digest revision generated_at : Json)
    (counters : Dict String Json) (artifacts : List Json) {r : Dict String Json}
    → prepare_output py m digest revision generated_at counters artifacts ≡ ok r
    → IsPrepared py m r
unfolding prepare_output
prepare_output-IsPrepared py m digest revision generated_at counters artifacts {r} h =
    let (sha256, digest_ok, h) = >>=-eq-ok (sha digest) _ h in
    let (n, revision_ok, h) = >>=-eq-ok (integer (pos 1) (some max_revision) revision) _ h in
    let (moment, moment_ok, h) = >>=-eq-ok (timestamp py generated_at) _ h in
    let (_, h) = exact_keys-ok counter_keys counters _ h in
    let (normalized, counted, h) = >>=-eq-ok (normalise_counters counters) _ h in
    let (_, some_js, h) = >>=-eq-ok (some_artifacts artifacts) _ h in
    let (profile, profile_ok, h) = >>=-eq-ok (text_member py "profile_id" m) _ h in
    let (copies, copied, h) = >>=-eq-ok (normalise_artifacts profile artifacts) _ h in
    let (origin, origin_ok, done) = >>=-eq-ok (origin_of py m) _ h in
    let (x, y, x_shape, y_shape, pair) = normalise_counters-ok counters counted in
    let (j, js, cons) = some_artifacts-ok artifacts some_js in
    let (passed, same) = check_artifacts-normalise profile artifacts copied in
    let listed : copies ≡ j ∷ js = sym same ∙ cons in
    record {
      digest = sha256;
      moment = moment;
      profile = profile;
      revision = n;
      accepted = x;
      rejected = y;
      origin = origin;
      first = j;
      others = js;
      digest_shape = matching_again is_sha digest digest_ok;
      revision_shape = integer_again (pos 1) (some max_revision) revision revision_ok;
      moment_shape = timestamp_again py generated_at moment_ok;
      accepted_shape = x_shape;
      rejected_shape = y_shape;
      profile_ok = profile_ok;
      origin_ok = origin_ok;
      passed = subst (λ ys. check_artifacts profile ys ≡ ok tt) listed passed;
      whole =
          ap (λ c. output_of origin sha256 n moment c (j ∷ js)) pair
          ∙ ap (λ ys. output_of origin sha256 n moment normalized ys) (sym listed)
          ∙ ok-injective done;
    }

built_accepted :
    (py : Builtins) (m : InputManifest) (source : Json) {r : Dict String Json}
    → IsAccepted source m
    → IsPrepared py m r
    → validate_output_manifest py (obj (dict_of r)) (some m) ≡ ok r
built_accepted py m source {r} a p =
    let (status, status_ok, known) = policy_status py m a.policy a.policy_at a.policy_checked in
    let here =
      origin_of-lent py m a.job_id a.idempotency_key a.account_id a.profile_id status a.job_at
        a.key_at a.account_at a.profile_at a.trust_at status_ok in
    let profile_same : p.profile ≡ a.profile_id =
      ok-injective (sym p.profile_ok ∙ text_member_found "profile_id" m a.profile_at py) in
    let passed =
      subst (λ q. check_artifacts q (p.first ∷ p.others) ≡ ok tt) profile_same p.passed in
    let whole =
      ap
        (λ (o : Origin).
          output_of o p.digest p.revision p.moment (counts p.accepted p.rejected)
            (p.first ∷ p.others))
        (ok-injective (sym here ∙ p.origin_ok))
      ∙ p.whole in
    subst (λ (r : Dict String Json). validate_output_manifest py (obj (dict_of r)) (some m) ≡ ok r)
      whole
      (validate_output_manifest-built py m a.job_id a.idempotency_key a.account_id a.profile_id
        status a.job_at a.key_at a.account_at a.profile_at a.trust_at status_ok p.digest p.moment
        p.revision p.accepted p.rejected p.first p.others (uuid_text a.job_id a.job_shape)
        (key_text a.idempotency_key a.key_shape) (uuid_text a.account_id a.account_shape)
        (uuid_text a.profile_id a.profile_shape) known p.digest_shape p.revision_shape
        p.moment_shape p.accepted_shape p.rejected_shape passed)

-- A result that `build_output_manifest` has prepared for an accepted input is never refused by the
-- validation at its end: the function returns, for every input manifest, digest, revision, moment,
-- dict of counters and list of artifacts, exactly what the steps before that validation return, an
-- error of theirs included.
pub build_output_manifest-prepare_output :
    (py : Builtins) (source digest revision generated_at : Json) (counters : Dict String Json)
    (artifacts : List Json)
    → build_output_manifest py source digest revision generated_at counters artifacts ≡ (
        validate_input_manifest py source >>= λ validated.
        prepare_output py validated digest revision generated_at counters artifacts)
unfolding build_output_manifest
build_output_manifest-prepare_output py source digest revision generated_at counters artifacts =
    >>=-same (validate_input_manifest py source) _ _ λ m accepted.
      >>=-ok (prepare_output py m digest revision generated_at counters artifacts) _ λ r prepared.
        let a = validate_input_manifest-IsAccepted py source accepted in
        let p =
          prepare_output-IsPrepared py m digest revision generated_at counters artifacts prepared in
        rw (built_accepted py m source a p) refl
