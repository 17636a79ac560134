-- ===== src/Verification/Tests.antt =====
-- Evidence that passes, and the theorems at it.
mod Levels
use compute_markets.Prelude.{◌≡◌, refl, String, true, List, ℕ, Result, ok}
use compute_markets.Receipts.{canonical, sha256, commitment, verify_payload, decode_key}
use compute_markets.Receipts.Receipt.{ExecutionReceipt, receipt_json, parse_receipt}
use compute_markets.Prelude.Text.{is_hash, is_digest, decimal}
use compute_markets.Policies.{policy_code, verify_1}
use compute_markets.Prelude.Int.{◌-ℤ◌}
use compute_markets.JobSpec.Encode.{job_spec_json, inputs_json}
use compute_markets.Verification.Receipt.{
  Verdict, telemetry_json, assignment_checks, identity_checks, timing_checks, evidence_checks,
  telemetry_checks, receipt_checks, commitments_of, verdict_of, verify_receipt,
}
use compute_markets.Verification.Receipt.Attested.{Attested}
use compute_markets.Verification.Receipt.Laws.{verify_receipt-Attested, verify_receipt-passes}
use compute_markets.Samples.{
  sample_libraries, sample_spec, sample_assignment, sample_evidence, sample_envelope,
  sample_receipt,
}

abbrev sample_verdict : Verdict
sample_verdict = verdict_of sample_spec List.[]

sample_run :
    verify_receipt sample_libraries sample_envelope sample_spec sample_assignment sample_evidence
    ≡ ok sample_verdict
unfolding verify_receipt commitments_of receipt_checks telemetry_checks evidence_checks
    timing_checks identity_checks assignment_checks verdict_of telemetry_json canonical sha256
    commitment verify_payload decode_key receipt_json parse_receipt is_hash is_digest policy_code
    decimal ◌-ℤ◌ sample_envelope
sample_run = refl

sample_passed : sample_verdict.passed ≡ true
unfolding verdict_of
sample_passed = refl

sample-Attested :
    (p : ExecutionReceipt) × Attested sample_libraries sample_envelope sample_spec sample_assignment
      sample_evidence p
sample-Attested =
    verify_receipt-Attested sample_libraries sample_envelope sample_spec sample_assignment
      sample_evidence sample_verdict sample_run sample_passed

verify_receipt-Attested_example :
    (p : ExecutionReceipt) × Attested sample_libraries sample_envelope sample_spec sample_assignment
      sample_evidence p
verify_receipt-Attested_example =
    verify_receipt-Attested sample_libraries sample_envelope sample_spec sample_assignment
      sample_evidence sample_verdict sample_run sample_passed

verify_receipt-passes_example :
    (v : Verdict) × (verify_receipt sample_libraries sample_envelope sample_spec sample_assignment
        sample_evidence
      ≡ ok v)
    × (v.passed ≡ true)
verify_receipt-passes_example =
    verify_receipt-passes sample_libraries sample_envelope sample_spec sample_assignment
      sample_evidence sample-Attested.0 sample-Attested.1
