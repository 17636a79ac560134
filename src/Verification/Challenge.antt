-- ===== src/Verification/Challenge.antt =====
-- packages/verification/challenge.ts: a puzzle that the worker of a job has to solve in time. Times
-- are whole seconds. `clock` is `Math.floor(Date.now() / 1000)`, and what `node:crypto` draws is an
-- argument.
pub mod Laws
use compute_markets.Prelude.{
  ℕ, zero, suc, ◌+◌, String, Bool, List, [], ◌∷◌, ◌++◌, Option, none, some, Result, ok, ◌>>=◌,
  failures_of, is_empty, leb, str_eq, if◌then◌else◌,
}
use compute_markets.Prelude.Int.{ℤ, pos, ◌+ℤ◌, ◌-ℤ◌, leb_ℤ, sub_ℕ}
use compute_markets.Prelude.Text.{is_hash}
use compute_markets.Prelude.Hex.{from_hex, to_hex, big_endian}
use compute_markets.Json.{Json, num, str, obj, end, field}
use compute_markets.Json.Schema.{
  strict_object, required, string, int_within, literal, max_safe_integer,
}
use compute_markets.Policies.{VerificationAssurance, verify_2}
use compute_markets.Receipts.{Libraries, bytes, sha256, commitment, verify_payload, decode_key}
use compute_markets.Receipts.Receipt.{at_least, timestamp}

pub record ComputeChallenge : Type 0 where
  pub id : String
  pub job_id : String
  pub machine_id : String
  pub worker : String
  pub seed : String
  pub iterations : ℕ
  pub issued_at : ℕ
  pub expires_at : ℕ

pub record ChallengeResponse : Type 0 where
  pub challenge_id : String
  pub job_id : String
  pub machine_id : String
  pub worker : String
  pub result_hash : String
  pub started_at : ℕ
  pub finished_at : ℕ
  pub gpu_uuid_commitment : String
  pub telemetry_hash : String

-- What `issueChallenge` is called with, as JSON values.
pub record ChallengeRequest : Type 0 where
  pub job_id : String
  pub machine_id : String
  pub worker : String
  pub now : Option ℤ
  pub ttl_seconds : Option ℤ
  pub iterations : Option ℤ

pub record ChallengeInput : Type 0 where
  pub challenge : Json
  pub expected_result_hash : String
  pub expected_gpu_uuid_commitment : Option String
  pub expected_telemetry_hash : Option String
  pub response : Json
  pub signature : String
  pub now : Option ℤ
  pub maximum_seconds : Option ℤ

pub record ChallengeVerdict : Type 0 where
  pub passed : Bool
  pub assurance : VerificationAssurance
  pub failures : List String
  pub challenge_commitment : String

-- `value ?? otherwise`.
abbrev pub or_else : Option ℤ → ℤ → ℤ
or_else none otherwise = otherwise
or_else (some z) otherwise = z

-- The object that `issueChallenge` hands to the schema, with numbers not yet checked.
unfoldable pub challenge_fields : String → String → String → String → String → ℤ → ℤ → ℤ → Json
challenge_fields id job machine worker seed iterations issued expires = obj (
    field "version" (str "1") (
      field "domain" (str "vericompute:challenge:v1") (
        field "id" (str id) (
          field "jobId" (str job) (
            field "machineId" (str machine) (
              field "worker" (str worker) (
                field "seed" (str seed) (
                  field "iterations" (num iterations)
                    (field "issuedAt" (num issued) (field "expiresAt" (num expires) end))))))))))

unfoldable pub challenge_json : ComputeChallenge → Json
challenge_json c =
    challenge_fields c.id c.job_id c.machine_id c.worker c.seed (pos c.iterations) (pos c.issued_at)
      (pos c.expires_at)

unfoldable pub response_json : ChallengeResponse → Json
response_json r = obj (
    field "version" (str "1") (
      field "domain" (str "vericompute:challenge-response:v1") (
        field "challengeId" (str r.challenge_id) (
          field "jobId" (str r.job_id) (
            field "machineId" (str r.machine_id) (
              field "worker" (str r.worker) (
                field "resultHash" (str r.result_hash) (
                  field "startedAt" (num (pos r.started_at)) (
                    field "finishedAt" (num (pos r.finished_at)) (
                      field "gpuUuidCommitment" (str r.gpu_uuid_commitment)
                        (field "telemetryHash" (str r.telemetry_hash) end)))))))))))

abbrev challenge_keys : List String
challenge_keys =
    "version" ∷ "domain" ∷ "id" ∷ "jobId" ∷ "machineId" ∷ "worker" ∷ "seed" ∷ "iterations"
    ∷ "issuedAt" ∷ "expiresAt" ∷ []

abbrev response_keys : List String
response_keys =
    "version" ∷ "domain" ∷ "challengeId" ∷ "jobId" ∷ "machineId" ∷ "worker" ∷ "resultHash"
    ∷ "startedAt" ∷ "finishedAt" ∷ "gpuUuidCommitment" ∷ "telemetryHash" ∷ []

-- The checks under `if (input.expectedGpuUuidCommitment)` and `if (input.expectedTelemetryHash)`;
-- an empty text is false there.
abbrev expected_check : Option String → String → String → List (Bool × String)
expected_check none found reason = []
expected_check (some expected) found reason =
    if str_eq expected "" then [] else (str_eq found expected, reason) ∷ []

-- The five checks of times at the end.
unfoldable pub time_checks :
    ℤ → ChallengeInput → ComputeChallenge → ChallengeResponse → List (Bool × String)
time_checks clock input c r =
    (leb_ℤ (pos c.issued_at -ℤ pos 2) (pos r.started_at), "Challenge started before issuance")
    ∷ (leb r.started_at r.finished_at, "Invalid challenge timing")
    ∷ (leb r.finished_at c.expires_at, "Challenge response expired")
    ∷ (
      leb_ℤ (sub_ℕ r.finished_at r.started_at) (or_else input.maximum_seconds (pos 120)),
      "Challenge exceeded latency bound",
    )
    ∷ (leb_ℤ (or_else input.now clock) (pos (c.expires_at + 5)), "Stale verification attempt")
    ∷ []

unfoldable pub identity_checks :
    ChallengeInput → ComputeChallenge → ChallengeResponse → Bool → List (Bool × String)
identity_checks input c r signed =
    (signed, "Invalid worker signature")
    ∷ (str_eq r.challenge_id c.id, "Challenge mismatch")
    ∷ (str_eq r.job_id c.job_id, "Job mismatch")
    ∷ (str_eq r.machine_id c.machine_id, "Machine mismatch")
    ∷ (str_eq r.worker c.worker, "Worker mismatch")
    ∷ (str_eq r.result_hash input.expected_result_hash, "Incorrect challenge result")
    ∷ []

unfoldable pub challenge_checks :
    ℤ → ChallengeInput → ComputeChallenge → ChallengeResponse → Bool → List (Bool × String)
challenge_checks clock input c r signed =
    identity_checks input c r signed
    ++ (expected_check input.expected_gpu_uuid_commitment r.gpu_uuid_commitment
          "GPU UUID commitment does not match the execution receipt"
        ++ (expected_check input.expected_telemetry_hash r.telemetry_hash
              "Telemetry commitment does not match the execution receipt"
            ++ time_checks clock input c r))

module _ (libraries : Libraries) where
  unfoldable pub parse_challenge : Json → Result ComputeChallenge
  parse_challenge json = do
    fs ← strict_object challenge_keys json
    version ← required "version" (literal "1") fs
    domain ← required "domain" (literal "vericompute:challenge:v1") fs
    id ← required "id" (string libraries.is_uuid) fs
    job ← required "jobId" (at_least 32) fs
    machine ← required "machineId" (at_least 32) fs
    worker ← required "worker" (at_least 32) fs
    seed ← required "seed" (string is_hash) fs
    iterations ← required "iterations" (int_within 1 10000000) fs
    issued ← required "issuedAt" timestamp fs
    expires ← required "expiresAt" (int_within 1 max_safe_integer) fs
    ok (record {
      id = id;
      job_id = job;
      machine_id = machine;
      worker = worker;
      seed = seed;
      iterations = iterations;
      issued_at = issued;
      expires_at = expires;
    })

  unfoldable pub parse_response : Json → Result ChallengeResponse
  parse_response json = do
    fs ← strict_object response_keys json
    version ← required "version" (literal "1") fs
    domain ← required "domain" (literal "vericompute:challenge-response:v1") fs
    id ← required "challengeId" (string libraries.is_uuid) fs
    job ← required "jobId" (at_least 32) fs
    machine ← required "machineId" (at_least 32) fs
    worker ← required "worker" (at_least 32) fs
    result ← required "resultHash" (string is_hash) fs
    started ← required "startedAt" timestamp fs
    finished ← required "finishedAt" timestamp fs
    gpus ← required "gpuUuidCommitment" (string is_hash) fs
    telemetry ← required "telemetryHash" (string is_hash) fs
    ok (record {
      challenge_id = id;
      job_id = job;
      machine_id = machine;
      worker = worker;
      result_hash = result;
      started_at = started;
      finished_at = finished;
      gpu_uuid_commitment = gpus;
      telemetry_hash = telemetry;
    })

  -- The loop from `i` on, for `n` more rounds.
  unfoldable pub solve_from : ℕ → ℕ → List ℕ → List ℕ
  solve_from i zero value = value
  solve_from i (suc n) value =
      solve_from (suc i) n (from_hex (sha256 libraries (bytes (value ++ big_endian 8 i))))

  unfoldable pub solve_challenge : String → ℕ → String
  solve_challenge seed iterations = to_hex (solve_from 0 iterations (from_hex seed))

  -- `uuid` and `random` are what `randomUUID` and `randomBytes(32)` give.
  unfoldable pub issue_challenge :
      ℤ → String → List ℕ → ChallengeRequest → Result (ComputeChallenge × String)
  issue_challenge clock uuid random request = do
    let now = or_else request.now clock
    challenge ← parse_challenge (
        challenge_fields uuid request.job_id request.machine_id request.worker (to_hex random)
          (or_else request.iterations (pos 100000)) now
          (now +ℤ or_else request.ttl_seconds (pos 120)))
    ok (challenge, solve_challenge challenge.seed challenge.iterations)

  unfoldable pub verify_challenge : ℤ → ChallengeInput → Result ChallengeVerdict
  verify_challenge clock input = do
    challenge ← parse_challenge input.challenge
    response ← parse_response input.response
    key ← decode_key libraries challenge.worker
    hash ← commitment libraries (challenge_json challenge)
    let signed = verify_payload libraries (response_json response) input.signature key
    let failures = failures_of (challenge_checks clock input challenge response signed)
    ok (record {
      passed = is_empty failures;
      assurance = verify_2;
      failures = failures;
      challenge_commitment = hash;
    })
