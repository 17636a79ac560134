-- ===== src/Verification/Tests/Levels.antt =====
-- The theorems on challenges, redundant results, attestations and proofs at small inputs.
use compute_markets.Prelude.{
  ℕ, ◌≤◌, ◌≡◌, ◌↔◌, refl, String, true, false, List, [], ◌∷◌, Option, none, some, Result, ok, arith,
  All, length,
}
use compute_markets.Prelude.Int.{pos, whole, ◌-ℤ◌, ◌+ℤ◌}
use compute_markets.Prelude.Text.{is_hash}
use compute_markets.Prelude.Hex.{to_hex, from_hex, big_endian}
use compute_markets.Prelude.Sorting.{sort}
use compute_markets.Prelude.Distinct.{distinct}
use compute_markets.Json.{Json, null, bool, num, str, arr, obj, nil, cons, items, end, field}
use compute_markets.Json.Schema.{array}
use compute_markets.Receipts.{canonical, sha256, commitment, verify_payload, decode_key}
use compute_markets.Policies.{verify_2, verify_3, verify_4}
use compute_markets.Verification.Redundancy.{
  ReplicaResult, RedundancyVerdict, parse_replica, quorum_of, vote, count_votes, vote_order, winner,
  redundancy_checks, redundancy_verdict, verify_redundant_results,
}
use compute_markets.Verification.Redundancy.Laws.{
  IsVerdict, verify_redundant_results-IsVerdict, verify_redundant_results-gives,
}
use compute_markets.Verification.Challenge.{
  ComputeChallenge, ChallengeResponse, ChallengeRequest, ChallengeInput, ChallengeVerdict,
  challenge_fields, challenge_json, response_json, parse_challenge, parse_response, solve_from,
  solve_challenge, issue_challenge, time_checks, identity_checks, challenge_checks,
  verify_challenge,
}
use compute_markets.Verification.Challenge.Laws.{
  Answers, IsIssued, verify_challenge-Answers, issue_challenge-IsIssued,
}
use compute_markets.Verification.Attestation.{
  AttestationVerdict, parse_attestation, is_lowered, claim_checks, claims_checks,
  attestation_checks, validate_nvidia_attestation,
}
use compute_markets.Verification.Attestation.Laws.{IsGenuine, validate_nvidia_attestation-IsGenuine}
use compute_markets.Verification.Proof.{
  ProofBundle, ProofVerdict, ProofFiles, parse_bundle, says_ok, commitment_checks, proof_verdict,
  verify_groth16_proof,
}
use compute_markets.Verification.Proof.Laws.{IsAccepted, verify_groth16_proof-IsAccepted}
use compute_markets.Samples.{sample_libraries, sample_hash, sample_key}

abbrev replica_json : String → Json
replica_json provider = obj (
    field "jobId" (str sample_key) (
      field "provider" (str provider) (
        field "machineId" (str provider)
          (field "resultHash" (str sample_hash) (field "verify1Passed" (bool true) end)))))

abbrev other_key : String
other_key = "22222222222222222222222222222222"

abbrev replicas_json : Json
replicas_json = arr (cons (replica_json sample_key) (cons (replica_json other_key) nil))

abbrev replica : String → ReplicaResult
replica provider = record {
  job_id = sample_key;
  provider = provider;
  machine_id = provider;
  result_hash = sample_hash;
  verify_1_passed = true;
}

abbrev replicas : List ReplicaResult
replicas = replica sample_key ∷ replica other_key ∷ []

abbrev agreed : RedundancyVerdict
agreed = record {
  passed = true;
  assurance = verify_3;
  failures = [];
  result_hash = some sample_hash;
  matches = 2;
  required_matches = 2;
  dispatch_tie_breaker = false;
}

replicas_parsed : array parse_replica 2 5 replicas_json ≡ ok replicas
unfolding parse_replica is_hash
replicas_parsed = refl

replicas_agree : verify_redundant_results replicas_json (whole (pos 2)) ≡ ok agreed
unfolding verify_redundant_results parse_replica is_hash quorum_of vote count_votes vote_order
    winner redundancy_checks redundancy_verdict sort distinct
replicas_agree = refl

verify_redundant_results-IsVerdict_example :
    (rs : List ReplicaResult) × (quorum : ℕ) × (hash : String) × (array parse_replica 2 5
        replicas_json
      ≡ ok rs)
    × (whole (pos 2) ≡ whole (pos quorum))
    × (2 ≤ quorum)
    × (quorum ≤ length rs)
    × IsVerdict rs quorum hash agreed
verify_redundant_results-IsVerdict_example =
    verify_redundant_results-IsVerdict replicas_json (whole (pos 2)) agreed replicas_agree

verify_redundant_results-gives_example :
    (v : RedundancyVerdict) × (verify_redundant_results replicas_json (whole (pos 2)) ≡ ok v)
verify_redundant_results-gives_example =
    verify_redundant_results-gives replicas_json replicas 2 replicas_parsed (omega arith)
      (omega arith)

abbrev request : ChallengeRequest
request = record {
  job_id = sample_key;
  machine_id = sample_key;
  worker = sample_key;
  now = some (pos 1000);
  ttl_seconds = none;
  iterations = some (pos 3);
}

abbrev seed_bytes : List ℕ
seed_bytes =
    0 ∷ 1 ∷ 2 ∷ 3 ∷ 4 ∷ 5 ∷ 6 ∷ 7 ∷ 8 ∷ 9 ∷ 10 ∷ 11 ∷ 12 ∷ 13 ∷ 14 ∷ 15 ∷ 16 ∷ 17 ∷ 18 ∷ 19 ∷ 20
    ∷ 21 ∷ 22 ∷ 23 ∷ 24 ∷ 25 ∷ 26 ∷ 27 ∷ 28 ∷ 29 ∷ 30 ∷ 255 ∷ []

abbrev issued_challenge : ComputeChallenge
issued_challenge = record {
  id = "id";
  job_id = sample_key;
  machine_id = sample_key;
  worker = sample_key;
  seed = "000102030405060708090a0b0c0d0e0f101112131415161718191a1b1c1d1eff";
  iterations = 3;
  issued_at = 1000;
  expires_at = 1120;
}

challenge_issued :
    issue_challenge sample_libraries (pos 0) "id" seed_bytes request
    ≡ ok (issued_challenge, sample_hash)
unfolding issue_challenge challenge_fields parse_challenge is_hash to_hex from_hex big_endian
    solve_challenge solve_from sha256 ◌+ℤ◌
challenge_issued = refl

issue_challenge-IsIssued_example :
    IsIssued sample_libraries (pos 0) request issued_challenge
    × (sample_hash
        ≡ solve_challenge sample_libraries issued_challenge.seed issued_challenge.iterations)
issue_challenge-IsIssued_example =
    issue_challenge-IsIssued sample_libraries (pos 0) "id" seed_bytes request issued_challenge
      sample_hash challenge_issued

abbrev response : ChallengeResponse
response = record {
  challenge_id = "id";
  job_id = sample_key;
  machine_id = sample_key;
  worker = sample_key;
  result_hash = sample_hash;
  started_at = 1001;
  finished_at = 1060;
  gpu_uuid_commitment = sample_hash;
  telemetry_hash = sample_hash;
}

abbrev answer : ChallengeInput
answer = record {
  challenge = challenge_json issued_challenge;
  expected_result_hash = sample_hash;
  expected_gpu_uuid_commitment = some sample_hash;
  expected_telemetry_hash = none;
  response = response_json response;
  signature = "signature";
  now = some (pos 1061);
  maximum_seconds = none;
}

abbrev answered : ChallengeVerdict
answered = record {
  passed = true;
  assurance = verify_2;
  failures = [];
  challenge_commitment = sample_hash;
}

challenge_answered : verify_challenge sample_libraries (pos 0) answer ≡ ok answered
unfolding verify_challenge challenge_json challenge_fields response_json parse_challenge
    parse_response is_hash canonical sha256 commitment verify_payload decode_key challenge_checks
    identity_checks time_checks ◌-ℤ◌
challenge_answered = refl

verify_challenge-Answers_example :
    (c : ComputeChallenge) × (r : ChallengeResponse) × (key : List ℕ) × (parse_challenge
        sample_libraries answer.challenge
      ≡ ok c)
    × (parse_response sample_libraries answer.response ≡ ok r)
    × (decode_key sample_libraries c.worker ≡ ok key)
    × (commitment sample_libraries (challenge_json c) ≡ ok sample_hash)
    × ((true ≡ true) ↔ (
        (verify_payload sample_libraries (response_json r) "signature" key ≡ true)
        × Answers (pos 0) answer c r))
verify_challenge-Answers_example =
    verify_challenge-Answers sample_libraries (pos 0) answer answered challenge_answered

abbrev report : Json
report = obj (
    field "claims"
      (arr (
        cons
          (obj (
            field "x-nvidia-device-type" (str "gpu") (
              field "x-nvidia-gpu-attestation-report-nonce-match" (bool true) (
                field "secboot" (bool true)
                  (field "dbgstat" (str "disabled") (field "nonce" (str "AB12") end))))))
          nil))
      (field "detached_eat" null
        (field "result_code" (num (pos 0)) (field "result_message" (str "OK") end))))

abbrev genuine : AttestationVerdict
genuine = record {
  passed = true;
  assurance = verify_4;
  failures = [];
  evidence_hash = sample_hash;
  claims_hash = sample_hash;
  attestation = record {
    claims =
        field "x-nvidia-device-type" (str "gpu") (
          field "x-nvidia-gpu-attestation-report-nonce-match" (bool true) (
            field "secboot" (bool true)
              (field "dbgstat" (str "disabled") (field "nonce" (str "AB12") end))))
        ∷ [];
    detached_eat = null;
    result_code = pos 0;
    result_message = "OK";
  };
}

report-genuine : validate_nvidia_attestation sample_libraries report "ab12" ≡ ok genuine
unfolding validate_nvidia_attestation parse_attestation is_lowered claim_checks claims_checks
    attestation_checks canonical sha256 commitment
report-genuine = refl

validate_nvidia_attestation-IsGenuine_example :
    (parse_attestation report ≡ ok genuine.attestation)
    × (commitment sample_libraries null ≡ ok sample_hash)
    × ((true ≡ true) ↔ ((pos 0 ≡ pos 0) × All (IsGenuine "ab12") genuine.attestation.claims))
validate_nvidia_attestation-IsGenuine_example =
    validate_nvidia_attestation-IsGenuine sample_libraries report "ab12" genuine report-genuine

abbrev bundle_json : Json
bundle_json = obj (
    field "system" (str "groth16") (
      field "verificationKey" (obj end)
        (field "publicSignals" (arr (cons (str "1") nil)) (field "proof" (obj end) end))))

abbrev run : String → ProofFiles → ℕ → Result (Option String)
run binary files timeout_ms = ok (some "[INFO] snarkJS: OK!")

abbrev proved : ProofVerdict
proved = proof_verdict []

proof_passes :
    verify_groth16_proof sample_libraries run bundle_json sample_hash sample_hash none 30000
    ≡ ok proved
unfolding verify_groth16_proof parse_bundle says_ok commitment_checks canonical sha256 commitment
proof_passes = refl

proved_passed : proved.passed ≡ true
unfolding proof_verdict
proved_passed = refl

verify_groth16_proof-IsAccepted_example :
    (b : ProofBundle) × (parse_bundle bundle_json ≡ ok b)
    × (commitment sample_libraries (obj b.verification_key) ≡ ok sample_hash)
    × (commitment sample_libraries (arr (items b.public_signals)) ≡ ok sample_hash)
    × IsAccepted sample_libraries run none 30000 b
verify_groth16_proof-IsAccepted_example =
    verify_groth16_proof-IsAccepted sample_libraries run bundle_json sample_hash sample_hash none
      30000 proved proof_passes proved_passed
