-- ===== src/Verification/Receipt/Attested.antt =====
-- What a receipt that passes `verifyReceipt` attests.
use compute_markets.Prelude.{ℕ, ◌+◌, ◌≤◌, String, true, ◌≡◌, ◌≢◌, List, length, ok}
use compute_markets.Prelude.Int.{pos, ◌≤ℤ◌, ◌-ℤ◌, abs_ℤ, sub_ℕ}
use compute_markets.Json.{Json, arr, strings}
use compute_markets.Policies.{policy_name, basic}
use compute_markets.JobSpec.{ComputeJobSpec}
use compute_markets.JobSpec.Encode.{job_spec_json, inputs_json}
use compute_markets.Receipts.{Libraries, bytes, commitment, sha256, verify_payload, decode_key}
use compute_markets.Receipts.Receipt.{ExecutionReceipt, SignedReceipt, receipt_json, parse_receipt}
use compute_markets.Verification.Receipt.{Assignment, Evidence, telemetry_json, output_json}

-- The receipt names the assignment's parties.
pub record IsFor (p : ExecutionReceipt) (a : Assignment) : Type 0 where
  pub job : p.job_id ≡ a.job_id
  pub provider : p.provider ≡ a.provider
  pub machine : p.machine_id ≡ a.machine_id
  pub worker : p.worker ≡ a.worker
  pub cluster : p.cluster ≡ a.cluster
  pub program : p.program ≡ a.program

-- It started within 5 seconds before and 30 after the assignment's start, took no longer than the
-- job's timeout, and ended at most 5 seconds after the submission.
pub record IsTimely (p : ExecutionReceipt) (spec : ComputeJobSpec) (a : Assignment) : Type 0 where
  pub not_early : a.started_at -ℤ pos 5 ≤ℤ pos p.start_timestamp
  pub not_late : pos p.start_timestamp -ℤ pos 30 ≤ℤ a.started_at
  pub forward : p.start_timestamp ≤ p.finish_timestamp
  pub within : p.finish_timestamp ≤ p.start_timestamp + spec.execution.timeout_seconds
  pub submitted : pos p.finish_timestamp -ℤ pos 5 ≤ℤ a.submitted_at
  pub succeeded : p.exit_code ≡ pos 0

-- What is measured fits the receipt and the job's resources.
pub record IsMeasured (p : ExecutionReceipt) (spec : ComputeJobSpec) (e : Evidence) : Type 0 where
  pub sampled : pos 1 ≤ℤ e.telemetry.samples
  pub duration : pos 0 ≤ℤ e.telemetry.duration_seconds
  pub consistent :
      abs_ℤ (e.telemetry.duration_seconds -ℤ sub_ℕ p.finish_timestamp p.start_timestamp) ≤ℤ pos 5
  pub gpus : length e.telemetry.gpu_uuids ≡ spec.resources.gpu.count
  pub memory : pos 0 ≤ℤ e.telemetry.peak_vram_mb

module _ (libraries : Libraries) where
  -- The hash commits to the value.
  abbrev pub Commits : String → Json → Type 0
  Commits hash value = commitment libraries value ≡ ok hash

  -- What a passing verdict stands for.
  pub record Attested (envelope : SignedReceipt) (spec : ComputeJobSpec) (a : Assignment)
      (e : Evidence) (p : ExecutionReceipt) : Type 0 where
    pub payload : parse_receipt libraries envelope.payload ≡ ok p
    pub signed :
        (key : List ℕ) × (decode_key libraries a.worker ≡ ok key)
        × (verify_payload libraries (receipt_json p) envelope.signature key ≡ true)
    pub parties : IsFor p a
    pub active : a.worker_active ≡ true
    pub receipt : Commits a.receipt_hash (receipt_json p)
    pub spec_hash : Commits p.job_spec_hash (job_spec_json spec)
    pub assigned_spec : p.job_spec_hash ≡ a.job_spec_hash
    pub policy : policy_name spec.policy ≡ a.verification_policy
    pub image : p.image_digest ≡ spec.image.digest
    pub inputs : Commits p.input_root (inputs_json spec.inputs)
    pub timely : IsTimely p spec a
    pub stdout : p.stdout_hash ≡ sha256 libraries (bytes e.stdout)
    pub stderr : p.stderr_hash ≡ sha256 libraries (bytes e.stderr)
    pub result : p.result_hash ≡ sha256 libraries (bytes e.result)
    pub output : Commits p.output_root (output_json p.result_hash)
    pub hardware : Commits p.hardware_report_hash e.hardware
    pub assigned_hardware : p.hardware_report_hash ≡ a.hardware_report_hash
    pub telemetry : Commits p.telemetry_hash (telemetry_json e.telemetry)
    pub gpus : Commits p.gpu_uuid_commitment (arr (strings e.telemetry.gpu_uuids))
    pub measured : spec.policy ≢ basic → IsMeasured p spec e
