-- ===== src/Provider/Challenge.antt =====
-- `uploadEvidence` and `completeChallenge` of agents/provider-node/cli.ts.
use compute_markets.Prelude.{
  ℕ, zero, ◌/◌, String, Bool, true, false, not, Option, none, some, Result, ok, err, require,
  str_eq, chain,
}
use compute_markets.Prelude.Int.{pos}
use compute_markets.Prelude.Actions.{Exec, call, ◌>>=◌}
use compute_markets.Json.{Json, null, bool, num, str, obj, end, field, field?}
use compute_markets.Receipts.{Libraries, sign_payload}
use compute_markets.Verification.Challenge.{ComputeChallenge, parse_challenge, solve_challenge}
use compute_markets.Journal.{property}
use compute_markets.Provider.{World, Services, read}

-- `value.key` where the value may be undefined.
abbrev pub child : String → Option Json → Result (Option Json)
child key none = err "Cannot read properties of undefined"
child key (some value) = property key value

-- `bundle.envelope.payload`.
unfoldable pub payload_of : Json → Result (Option Json)
payload_of bundle = chain (child "payload") (property "envelope" bundle)

-- Whether a value counts as true; `fraction` may stand for NaN, which no JSON text does.
abbrev pub is_truthy : Option Json → Bool
is_truthy none = false
is_truthy (some null) = false
is_truthy (some (bool b)) = b
is_truthy (some (num (pos zero))) = false
is_truthy (some (str s)) = not (str_eq s "")
is_truthy (some _) = true

-- `challengeSchema.parse(value)`.
abbrev parsed_challenge : Libraries → Option Json → Result ComputeChallenge
parsed_challenge libraries none = err "Required"
parsed_challenge libraries (some value) = parse_challenge libraries value

unfoldable pub challenge_request_json : String → String → ℕ → String → Json
challenge_request_json job worker timestamp nonce = obj (
    field "version" (str "1") (
      field "domain" (str "vericompute:challenge-request:v1") (
        field "jobId" (str job) (
          field "worker" (str worker)
            (field "timestamp" (num (pos timestamp)) (field "nonce" (str nonce) end))))))

-- The two commitments of the payload are left out where it has none.
unfoldable pub challenge_answer_json :
    ComputeChallenge → String → String → String → ℕ → ℕ → Option Json → Option Json → Json
challenge_answer_json c job worker result_hash started finished gpus telemetry = obj (
    field "version" (str "1") (
      field "domain" (str "vericompute:challenge-response:v1") (
        field "challengeId" (str c.id) (
          field "jobId" (str job) (
            field "machineId" (str c.machine_id) (
              field "worker" (str worker) (
                field "resultHash" (str result_hash) (
                  field "startedAt" (num (pos started)) (
                    field "finishedAt" (num (pos finished)) (
                      field? "gpuUuidCommitment" gpus
                        (field? "telemetryHash" telemetry end)))))))))))

module _ {S : Type 0} (libraries : Libraries) (services : Services S) where
  -- `process.env.COMPUTE_API_URL`, which counts as missing where it is empty.
  abbrev pub has_api : Bool
  has_api =
      is_truthy
        (elim (services.environment "COMPUTE_API_URL") [ none ↦ none | some s ↦ some (str s) ])

  abbrev pub seconds_at : ℕ → ℕ
  seconds_at n = services.now_ms n / 1000

  abbrev upload_if : Bool → String → Json → Result (Unit {0})
  upload_if true job bundle = services.upload job bundle
  upload_if false job bundle = ok tt

  unfoldable pub upload_evidence : String → Json → Exec (World S) (Unit {0})
  upload_evidence job bundle = call (upload_if has_api job bundle)

  unfoldable pub complete_challenge : String → Json → Exec (World S) (Unit {0})
  complete_challenge job bundle = do
    api ← call (require has_api "COMPUTE_API_URL is required for CHALLENGE verification")
    now ← read seconds_at
    nonce ← read services.uuid
    request ←
        call (
          sign_payload libraries (challenge_request_json job services.worker now nonce)
            services.key)
    answer ← call (services.request_challenge job request)
    found ← call (property "challenge" answer)
    challenge ← call (parsed_challenge libraries found)
    started ← read seconds_at
    finished ← read seconds_at
    payload ← call (payload_of bundle)
    gpus ← call (child "gpuUuidCommitment" payload)
    telemetry ← call (child "telemetryHash" payload)
    response ← call (
        sign_payload libraries
          (challenge_answer_json challenge job services.worker
            (solve_challenge libraries challenge.seed challenge.iterations) started finished gpus
            telemetry)
          services.key)
    decision ← call (services.send_response job response)
    passed ← call (property "passed" decision)
    call (require (is_truthy passed) "Challenge verification failed")
