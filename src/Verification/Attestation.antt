-- ===== src/Verification/Attestation.antt =====
-- packages/verification/attestation.ts: the report of NVIDIA's attestation tool. Running the tool
-- and `JSON.parse` are arguments. `toLowerCase` is modelled on ASCII, which is exact where the
-- nonce is hexadecimal, as it is for `attestNvidiaGpu`.
pub mod Laws
use Prim.Native.String
use compute_markets.Prelude.{
  ℕ, ◌+◌, String, Bool, true, false, not, ◌&&◌, ◌==◌, List, [], ◌∷◌, ◌++◌, map, Option, none, some,
  Result, ok, err, require, ◌>>=◌, failures_of, is_empty, leb, str_eq, if◌then◌else◌,
}
use compute_markets.Prelude.Int.{ℤ, pos, eqb_ℤ}
use compute_markets.Prelude.Text.{is_hash, codes, lower_code, same_codes}
use compute_markets.Json.{
  Json, null, bool, num, fraction, str, arr, obj, Fields, end, field, get, items,
}
use compute_markets.Json.Schema.{strict_object, required, string, array, integer, max_safe_integer}
use compute_markets.Policies.{VerificationAssurance, verify_4}
use compute_markets.Receipts.{Libraries, commitment}

pub record NvidiaAttestation : Type 0 where
  pub claims : List Fields
  pub detached_eat : Json
  pub result_code : ℤ
  pub result_message : String

pub record AttestationVerdict : Type 0 where
  pub passed : Bool
  pub assurance : VerificationAssurance
  pub failures : List String
  pub evidence_hash : String
  pub claims_hash : String
  pub attestation : NvidiaAttestation

-- `z.record(z.string(), z.unknown())`: any object.
abbrev pub any_object : Json → Result Fields
any_object (obj fs) = ok fs
any_object _ = err "Invalid input: expected record"

-- `z.unknown()`.
abbrev pub anything : Json → Result Json
anything json = ok json

abbrev attestation_keys : List String
attestation_keys = "claims" ∷ "detached_eat" ∷ "result_code" ∷ "result_message" ∷ []

-- Without a `detached_eat` the code throws a little later, where it commits to the evidence.
unfoldable pub parse_attestation : Json → Result NvidiaAttestation
parse_attestation json = do
  fs ← strict_object attestation_keys json
  claims ← required "claims" (array any_object 1 max_safe_integer) fs
  eat ← required "detached_eat" anything fs
  code ← required "result_code" integer fs
  message ← required "result_message" (string (λ s. true)) fs
  ok (record { claims = claims; detached_eat = eat; result_code = code; result_message = message })

-- `text.toLowerCase() === nonce`.
unfoldable pub is_lowered : String → String → Bool
is_lowered nonce s = same_codes (map lower_code (codes s)) (codes nonce)

-- `value === text` and `value === true` for a property.
abbrev pub is_text : String → Option Json → Bool
is_text s (some (str t)) = str_eq t s
is_text s _ = false

abbrev pub is_true : Option Json → Bool
is_true (some (bool b)) = b
is_true _ = false

abbrev pub nonce_check : String → Option Json → List (Bool × String)
nonce_check nonce (some (str s)) = (is_lowered nonce s, "Claim nonce mismatch") ∷ []
nonce_check nonce _ = []

unfoldable pub claim_checks : String → Fields → List (Bool × String)
unfolding is_lowered
claim_checks nonce claim =
    (is_text "gpu" (get "x-nvidia-device-type" claim), "Non-GPU claim in attestation")
    ∷ (
      is_true (get "x-nvidia-gpu-attestation-report-nonce-match" claim),
      "Attestation nonce mismatch",
    )
    ∷ (is_true (get "secboot" claim), "Secure boot is not enabled")
    ∷ (is_text "disabled" (get "dbgstat" claim), "GPU debug mode is enabled")
    ∷ nonce_check nonce (get "nonce" claim)

-- The loop over the claims.
unfoldable pub claims_checks : String → List Fields → List (Bool × String)
claims_checks nonce [] = []
claims_checks nonce (claim ∷ claims) = claim_checks nonce claim ++ claims_checks nonce claims

unfoldable pub attestation_checks : String → NvidiaAttestation → List (Bool × String)
attestation_checks nonce a =
    (eqb_ℤ a.result_code (pos 0), String.◌++◌ "NVAT failure: " a.result_message)
    ∷ claims_checks nonce a.claims

pub record AttestInput : Type 0 where
  pub nonce : String
  pub policy_file : String
  pub binary : Option String
  pub verifier : Option String
  pub timeout_ms : Option ℕ

-- `value ?? otherwise`.
abbrev pub text_or : Option String → String → String
text_or none otherwise = otherwise
text_or (some s) otherwise = s

abbrev pub number_or : Option ℕ → ℕ → ℕ
number_or none otherwise = otherwise
number_or (some n) otherwise = n

unfoldable pub attest_arguments : AttestInput → List String
attest_arguments input =
    "attest"
    ∷ "--device"
    ∷ "gpu"
    ∷ "--verifier"
    ∷ text_or input.verifier "local"
    ∷ "--nonce"
    ∷ input.nonce
    ∷ "--relying-party-policy"
    ∷ input.policy_file
    ∷ "--format"
    ∷ "json"
    ∷ []

module _ (libraries : Libraries) where
  unfoldable pub validate_nvidia_attestation : Json → String → Result AttestationVerdict
  validate_nvidia_attestation raw nonce = do
    attestation ← parse_attestation raw
    let failures = failures_of (attestation_checks nonce attestation)
    evidence ← commitment libraries attestation.detached_eat
    claims ← commitment libraries (arr (items (map obj attestation.claims)))
    ok (record {
      passed = is_empty failures;
      assurance = verify_4;
      failures = failures;
      evidence_hash = evidence;
      claims_hash = claims;
      attestation = attestation;
    })

  -- `exec binary arguments timeout` gives the tool's standard output.
  module _ (exec : String → List String → ℕ → Result String)
      (parse_json : String → Result Json) where
    unfoldable pub attest_nvidia_gpu : AttestInput → Result AttestationVerdict
    attest_nvidia_gpu input = do
      checked ← require (is_hash input.nonce) "Attestation nonce must be 32 bytes of lowercase hex"
      stdout ←
          exec (text_or input.binary "nvattest") (attest_arguments input)
            (number_or input.timeout_ms 120000)
      raw ← parse_json stdout
      validate_nvidia_attestation raw input.nonce
