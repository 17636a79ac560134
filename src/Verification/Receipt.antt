-- ===== src/Verification/Receipt.antt =====
-- `verifyReceipt` of packages/verification/index.ts. Times and measurements are whole numbers. The
-- evidence's files are their bytes; `limitation`, a constant text of the verdict, is left out.
pub mod Attested
pub mod Checks
pub mod Laws
use Prim.Native.String
use compute_markets.Prelude.{
  ℕ, String, Bool, true, false, not, ◌&&◌, ◌≡◌, ◌==◌, List, [], ◌∷◌, ◌++◌, map, length, includes,
  is_empty, Result, ok, ◌>>=◌, and_then, failures_of, str_eq, leb, if◌then◌else◌,
}
use compute_markets.Prelude.Int.{ℤ, pos, ◌-ℤ◌, leb_ℤ, ltb_ℤ, eqb_ℤ, abs_ℤ, sub_ℕ}
use compute_markets.Prelude.Text.{decimal}
use compute_markets.Json.{Json, num, str, arr, obj, end, field, strings}
use compute_markets.Policies.{
  VerificationPolicy, policy_name, basic, standard, VerificationAssurance, verify_0, verify_1,
  policy_code,
}
use compute_markets.JobSpec.{ComputeJobSpec}
use compute_markets.JobSpec.Encode.{job_spec_json, inputs_json}
use compute_markets.Receipts.{
  Libraries, Content, bytes, commitment, sha256, verify_payload, decode_key,
}
use compute_markets.Receipts.Receipt.{ExecutionReceipt, SignedReceipt, receipt_json, parse_receipt}

pub record Assignment : Type 0 where
  pub job_id : String
  pub job_spec_hash : String
  pub verification_policy : String
  pub provider : String
  pub machine_id : String
  pub worker : String
  pub cluster : String
  pub program : String
  pub started_at : ℤ
  pub submitted_at : ℤ
  pub hardware_report_hash : String
  pub receipt_hash : String
  pub worker_active : Bool

pub record Telemetry : Type 0 where
  pub gpu_uuids : List String
  pub samples : ℤ
  pub peak_vram_mb : ℤ
  pub duration_seconds : ℤ

pub record Evidence : Type 0 where
  pub stdout : List ℕ
  pub stderr : List ℕ
  pub result : List ℕ
  pub telemetry : Telemetry
  pub hardware : Json

pub record Verdict : Type 0 where
  pub passed : Bool
  pub assurance : VerificationAssurance
  pub requested_assurance : String
  pub requires_additional_evidence : Bool
  pub failures : List String

unfoldable pub telemetry_json : Telemetry → Json
telemetry_json t = obj (
    field "gpuUuids" (arr (strings t.gpu_uuids)) (
      field "samples" (num t.samples) (
        field "peakVramMb" (num t.peak_vram_mb)
          (field "durationSeconds" (num t.duration_seconds) end))))

-- `{ result: sha256(e.result) }`.
abbrev pub output_json : String → Json
output_json hash_of_result = obj (field "result" (str hash_of_result) end)

-- The commitments that the checks compare with, in the order the code computes them.
pub record Commitments : Type 0 where
  pub signed : Bool
  pub receipt : String
  pub spec : String
  pub inputs : String
  pub output : Bool
  pub hardware : String
  pub telemetry : String
  pub gpus : String

-- The loop over the six keys.
unfoldable pub assignment_checks : ExecutionReceipt → Assignment → List (Bool × String)
assignment_checks p a =
    (str_eq p.job_id a.job_id, "Assignment mismatch: jobId")
    ∷ (str_eq p.provider a.provider, "Assignment mismatch: provider")
    ∷ (str_eq p.machine_id a.machine_id, "Assignment mismatch: machineId")
    ∷ (str_eq p.worker a.worker, "Assignment mismatch: worker")
    ∷ (str_eq p.cluster a.cluster, "Assignment mismatch: cluster")
    ∷ (str_eq p.program a.program, "Assignment mismatch: program")
    ∷ []

unfoldable pub timing_checks : ExecutionReceipt → ComputeJobSpec → Assignment → List (Bool × String)
timing_checks p spec a =
    (
      leb_ℤ (a.started_at -ℤ pos 5) (pos p.start_timestamp)
          && leb_ℤ (pos p.start_timestamp -ℤ pos 30) a.started_at,
      "Invalid start time",
    )
    ∷ (
      leb p.start_timestamp p.finish_timestamp
          && leb_ℤ (sub_ℕ p.finish_timestamp p.start_timestamp) (pos spec.execution.timeout_seconds)
          && leb_ℤ (pos p.finish_timestamp -ℤ pos 5) a.submitted_at,
      "Invalid execution duration",
    )
    ∷ (eqb_ℤ p.exit_code (pos 0), "Execution failed")
    ∷ []

-- The block under `spec.verification.policy !== "BASIC"`.
unfoldable pub telemetry_checks :
    ExecutionReceipt → ComputeJobSpec → Evidence → List (Bool × String)
telemetry_checks p spec e =
    if str_eq (policy_name spec.policy) "BASIC"
    then []
    else (
      ltb_ℤ (pos 0) e.telemetry.samples
          && leb_ℤ (pos 0) e.telemetry.duration_seconds
          && leb_ℤ
              (abs_ℤ (e.telemetry.duration_seconds -ℤ sub_ℕ p.finish_timestamp p.start_timestamp))
              (pos 5),
      "Telemetry timing inconsistency",
    )
      ∷ (length e.telemetry.gpu_uuids == spec.resources.gpu.count, "GPU count mismatch")
      ∷ (leb_ℤ (pos 0) e.telemetry.peak_vram_mb, "Invalid memory measurement")
      ∷ []

-- The other comparisons, between the assignment's and the times', and after them.
unfoldable pub identity_checks :
    ExecutionReceipt → ComputeJobSpec → Assignment → Commitments → List (Bool × String)
identity_checks p spec a c =
    (a.worker_active, "Worker revoked or expired")
    ∷ (str_eq c.receipt a.receipt_hash, "Receipt commitment mismatch")
    ∷ (
      str_eq p.job_spec_hash c.spec && str_eq p.job_spec_hash a.job_spec_hash,
      "Job specification mismatch",
    )
    ∷ (str_eq (policy_name spec.policy) a.verification_policy, "Verification policy downgrade")
    ∷ (str_eq p.image_digest spec.image.digest, "Image digest mismatch")
    ∷ (str_eq p.input_root c.inputs, "Input commitment mismatch")
    ∷ []

unfoldable pub verdict_of : ComputeJobSpec → List String → Verdict
verdict_of spec failures = record {
  passed = is_empty failures;
  assurance = if str_eq (policy_name spec.policy) "BASIC" then verify_0 else verify_1;
  requested_assurance = String.◌++◌ "VERIFY_" (decimal (policy_code spec.policy));
  requires_additional_evidence =
      not (includes ("BASIC" ∷ "STANDARD" ∷ []) (policy_name spec.policy));
  failures = failures;
}

module _ (libraries : Libraries) where
  unfoldable pub evidence_checks :
      ExecutionReceipt → Assignment → Evidence → Commitments → List (Bool × String)
  evidence_checks p a e c =
      (
        str_eq p.stdout_hash (sha256 libraries (bytes e.stdout))
            && str_eq p.stderr_hash (sha256 libraries (bytes e.stderr)),
        "Log commitment mismatch",
      )
      ∷ (c.output, "Output commitment mismatch")
      ∷ (
        str_eq p.hardware_report_hash c.hardware
            && str_eq p.hardware_report_hash a.hardware_report_hash,
        "Hardware commitment mismatch",
      )
      ∷ (str_eq p.telemetry_hash c.telemetry, "Telemetry commitment mismatch")
      ∷ (str_eq p.gpu_uuid_commitment c.gpus, "GPU identity commitment mismatch")
      ∷ []

  unfoldable pub receipt_checks :
      ExecutionReceipt → ComputeJobSpec → Assignment → Evidence → Commitments → List (Bool × String)
  receipt_checks p spec a e c =
      (c.signed, "Invalid worker signature")
      ∷ (assignment_checks p a
          ++ (identity_checks p spec a c
              ++ (timing_checks p spec a
                  ++ (evidence_checks p a e c ++ telemetry_checks p spec e))))

  unfoldable pub commitments_of :
      ExecutionReceipt → SignedReceipt → ComputeJobSpec → Assignment → Evidence → Result Commitments
  commitments_of p envelope spec a e = do
    key ← decode_key libraries a.worker
    receipt ← commitment libraries (receipt_json p)
    of_spec ← commitment libraries (job_spec_json spec)
    inputs ← commitment libraries (inputs_json spec.inputs)
    output ← and_then (str_eq p.result_hash (sha256 libraries (bytes e.result))) (do
      root ← commitment libraries (output_json (sha256 libraries (bytes e.result)))
      ok (str_eq p.output_root root))
    hardware ← commitment libraries e.hardware
    telemetry ← commitment libraries (telemetry_json e.telemetry)
    gpus ← commitment libraries (arr (strings e.telemetry.gpu_uuids))
    ok (record {
      signed = verify_payload libraries (receipt_json p) envelope.signature key;
      receipt = receipt;
      spec = of_spec;
      inputs = inputs;
      output = output;
      hardware = hardware;
      telemetry = telemetry;
      gpus = gpus;
    })

  unfoldable pub verify_receipt :
      SignedReceipt → ComputeJobSpec → Assignment → Evidence → Result Verdict
  verify_receipt envelope spec a e = do
    p ← parse_receipt libraries envelope.payload
    c ← commitments_of p envelope spec a e
    ok (verdict_of spec (failures_of (receipt_checks p spec a e c)))
