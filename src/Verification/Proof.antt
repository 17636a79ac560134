-- ===== src/Verification/Proof.antt =====
-- packages/verification/proof.ts: a Groth16 proof, checked by an external tool once its key and its
-- public signals are the expected ones. The file system and the tool are arguments.
pub mod Laws
use Prim.Native.String
use compute_markets.Prelude.{
  ℕ, String, Bool, true, false, not, ◌||◌, List, [], ◌∷◌, ◌++◌, Option, none, some, Result, ok, err,
  ◌>>=◌, failures_of, is_empty, str_eq, if◌then◌else◌, ◌==◌, ◌&&◌,
}
use compute_markets.Prelude.Text.{codes}
use compute_markets.Json.{Json, null, bool, num, fraction, str, arr, obj, Fields, items}
use compute_markets.Json.Schema.{strict_object, required, literal, array, max_safe_integer}
use compute_markets.Policies.{VerificationAssurance, verify_5}
use compute_markets.Receipts.{Libraries, canonical, commitment}
use compute_markets.Verification.Attestation.{any_object, text_or}

pub record ProofBundle : Type 0 where
  pub verification_key : Fields
  pub public_signals : List Json
  pub proof : Fields

pub record ProofVerdict : Type 0 where
  pub passed : Bool
  pub assurance : VerificationAssurance
  pub failures : List String

-- `z.union([z.string(), z.number()])`.
abbrev pub signal : Json → Result Json
signal (str s) = ok (str s)
signal (num z) = ok (num z)
signal (fraction f) = ok (fraction f)
signal _ = err "Invalid input"

abbrev proof_keys : List String
proof_keys = "system" ∷ "verificationKey" ∷ "publicSignals" ∷ "proof" ∷ []

unfoldable pub parse_bundle : Json → Result ProofBundle
parse_bundle json = do
  fs ← strict_object proof_keys json
  system ← required "system" (literal "groth16") fs
  key ← required "verificationKey" any_object fs
  signals ← required "publicSignals" (array signal 0 max_safe_integer) fs
  proof_of ← required "proof" any_object fs
  ok (record { verification_key = key; public_signals = signals; proof = proof_of })

-- The three files that are written for the tool.
pub record ProofFiles : Type 0 where
  pub verification_key : String
  pub public_signals : String
  pub proof : String

abbrev starts_with : List ℕ → List ℕ → Bool
starts_with [] cs = true
starts_with (p ∷ ps) [] = false
starts_with (p ∷ ps) (c ∷ cs) = (p == c) && starts_with ps cs

abbrev contains : List ℕ → List ℕ → Bool
contains [] ps = starts_with ps []
contains (c ∷ cs) ps = starts_with ps (c ∷ cs) || contains cs ps

-- `/OK!/.test(stdout)`.
unfoldable pub says_ok : String → Bool
says_ok stdout = contains (codes stdout) (codes "OK!")

-- Standard output of the tool, or none where it fails or times out.
abbrev pub accepts : Option String → Bool
accepts none = false
accepts (some stdout) = says_ok stdout

unfoldable pub commitment_checks : String → String → String → String → List (Bool × String)
commitment_checks key_hash expected_key signals_hash expected_signals =
    (str_eq key_hash expected_key, "Verification key commitment mismatch")
    ∷ (str_eq signals_hash expected_signals, "Public signal commitment mismatch")
    ∷ []

unfoldable pub proof_verdict : List String → ProofVerdict
proof_verdict failures = record {
  passed = is_empty failures;
  assurance = verify_5;
  failures = failures;
}

module _ (libraries : Libraries) (run : String → ProofFiles → ℕ → Result (Option String)) where
  -- `run binary files timeout` makes the directory, writes the files, runs the tool on them and
  -- removes the directory; it is an error where the file system fails.
  unfoldable pub verify_groth16_proof :
      Json → String → String → Option String → ℕ → Result ProofVerdict
  verify_groth16_proof raw expected_key expected_signals binary timeout_ms = do
    bundle ← parse_bundle raw
    key ← commitment libraries (obj bundle.verification_key)
    signals ← commitment libraries (arr (items bundle.public_signals))
    let failures = failures_of (commitment_checks key expected_key signals expected_signals)
    elim (is_empty failures) [
      | false ↦ ok (proof_verdict failures)
      | true ↦ do
        key_text ← canonical libraries (obj bundle.verification_key)
        signals_text ← canonical libraries (arr (items bundle.public_signals))
        proof_text ← canonical libraries (obj bundle.proof)
        stdout ←
            run (text_or binary "snarkjs")
              (record {
                verification_key = key_text;
                public_signals = signals_text;
                proof = proof_text;
              })
              timeout_ms
        ok (
            proof_verdict
              (failures_of ((accepts stdout, "Groth16 verifier rejected the proof") ∷ [])))
    ]
