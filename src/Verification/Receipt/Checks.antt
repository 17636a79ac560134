-- ===== src/Verification/Receipt/Checks.antt =====
-- Each group of `verifyReceipt`'s checks, as conditions.
use compute_markets.Prelude.{
  String, Bool, ◌⊎◌, inl, inr, true, false, ◌≡◌, ◌≢◌, ◌↔◌, refl, List, ◌++◌, failures_of,
  failures_of-empty_iff, Holds, Holds-append_iff, str_eq, eq_iff, arith,
}
use compute_markets.Policies.{
  VerificationPolicy, policy_name, basic, standard, challenge, redundant, tee, proof,
}
use compute_markets.JobSpec.{ComputeJobSpec}
use compute_markets.Receipts.{Libraries, bytes, sha256}
use compute_markets.Receipts.Receipt.{ExecutionReceipt}
use compute_markets.Verification.Receipt.{
  Assignment, Evidence, Commitments, assignment_checks, identity_checks, timing_checks,
  evidence_checks, telemetry_checks, receipt_checks, verdict_of,
}
use compute_markets.Verification.Receipt.Attested.{IsFor, IsTimely, IsMeasured}

pub parties_iff :
    (p : ExecutionReceipt) (a : Assignment) → Holds (assignment_checks p a) ↔ IsFor p a
unfolding assignment_checks
parties_iff p a = ground (
  arith,
  eq_iff p.job_id a.job_id,
  eq_iff p.provider a.provider,
  eq_iff p.machine_id a.machine_id,
  eq_iff p.worker a.worker,
  eq_iff p.cluster a.cluster,
  eq_iff p.program a.program,
)

pub IsTimely-iff :
    (p : ExecutionReceipt) (spec : ComputeJobSpec) (a : Assignment)
    → Holds (timing_checks p spec a) ↔ IsTimely p spec a
unfolding timing_checks
IsTimely-iff p spec a = ((λ h. ground arith), λ h. ground arith)

policy_test :
    (v : VerificationPolicy)
    → ((v ≡ basic) × (str_eq (policy_name v) "BASIC" ≡ true))
      ⊎ ((v ≢ basic) × (str_eq (policy_name v) "BASIC" ≡ false))
policy_test basic = inl (refl, refl)
policy_test standard = inr ((λ e. cc), refl)
policy_test challenge = inr ((λ e. cc), refl)
policy_test redundant = inr ((λ e. cc), refl)
policy_test tee = inr ((λ e. cc), refl)
policy_test proof = inr ((λ e. cc), refl)

measured_all :
    (p : ExecutionReceipt) (spec : ComputeJobSpec) (e : Evidence)
    → str_eq (policy_name spec.policy) "BASIC" ≡ false
    → Holds (telemetry_checks p spec e) ↔ IsMeasured p spec e
unfolding telemetry_checks
measured_all p spec e h = ground arith

measured_none :
    (p : ExecutionReceipt) (spec : ComputeJobSpec) (e : Evidence)
    → str_eq (policy_name spec.policy) "BASIC" ≡ true
    → Holds (telemetry_checks p spec e)
unfolding telemetry_checks
measured_none p spec e h = ground arith

pub measured_iff :
    (p : ExecutionReceipt) (spec : ComputeJobSpec) (e : Evidence)
    → Holds (telemetry_checks p spec e) ↔ (spec.policy ≢ basic → IsMeasured p spec e)
measured_iff p spec e = elim (policy_test spec.policy) [
  | inl (same, test) ↦ ((λ h other. absurd (other same)), λ h. measured_none p spec e test)
  | inr (other, test) ↦
      ((λ h k. (measured_all p spec e test).0 h), λ h. (measured_all p spec e test).1 (h other))
]

pub identity_iff :
    (p : ExecutionReceipt) (spec : ComputeJobSpec) (a : Assignment) (c : Commitments)
    → Holds (identity_checks p spec a c) ↔ (
        (a.worker_active ≡ true)
        × (c.receipt ≡ a.receipt_hash)
        × (p.job_spec_hash ≡ c.spec)
        × (p.job_spec_hash ≡ a.job_spec_hash)
        × (policy_name spec.policy ≡ a.verification_policy)
        × (p.image_digest ≡ spec.image.digest)
        × (p.input_root ≡ c.inputs))
unfolding identity_checks
identity_iff p spec a c = ground (
  arith,
  eq_iff c.receipt a.receipt_hash,
  eq_iff p.job_spec_hash c.spec,
  eq_iff p.job_spec_hash a.job_spec_hash,
  eq_iff (policy_name spec.policy) a.verification_policy,
  eq_iff p.image_digest spec.image.digest,
  eq_iff p.input_root c.inputs,
)

module _ (libraries : Libraries) where
  pub evidence_iff :
      (p : ExecutionReceipt) (a : Assignment) (e : Evidence) (c : Commitments)
      → Holds (evidence_checks libraries p a e c) ↔ (
          (p.stdout_hash ≡ sha256 libraries (bytes e.stdout))
          × (p.stderr_hash ≡ sha256 libraries (bytes e.stderr))
          × (c.output ≡ true)
          × (p.hardware_report_hash ≡ c.hardware)
          × (p.hardware_report_hash ≡ a.hardware_report_hash)
          × (p.telemetry_hash ≡ c.telemetry)
          × (p.gpu_uuid_commitment ≡ c.gpus))
  unfolding evidence_checks
  evidence_iff p a e c = ground (
    arith,
    eq_iff p.stdout_hash (sha256 libraries (bytes e.stdout)),
    eq_iff p.stderr_hash (sha256 libraries (bytes e.stderr)),
    eq_iff p.hardware_report_hash c.hardware,
    eq_iff p.hardware_report_hash a.hardware_report_hash,
    eq_iff p.telemetry_hash c.telemetry,
    eq_iff p.gpu_uuid_commitment c.gpus,
  )

  -- The list of checks in its five groups, behind the signature's.
  pub groups_iff :
      (p : ExecutionReceipt) (spec : ComputeJobSpec) (a : Assignment) (e : Evidence)
      (c : Commitments)
      → Holds (receipt_checks libraries p spec a e c) ↔ (
          (c.signed ≡ true)
          × Holds (assignment_checks p a)
          × Holds (identity_checks p spec a c)
          × Holds (timing_checks p spec a)
          × Holds (evidence_checks libraries p a e c)
          × Holds (telemetry_checks p spec e))
  unfolding receipt_checks
  groups_iff p spec a e c =
      let last = evidence_checks libraries p a e c ++ telemetry_checks p spec e in
      let one =
        Holds-append_iff (assignment_checks p a)
          (identity_checks p spec a c ++ (timing_checks p spec a ++ last)) in
      let two = Holds-append_iff (identity_checks p spec a c) (timing_checks p spec a ++ last) in
      let three = Holds-append_iff (timing_checks p spec a) last in
      let four = Holds-append_iff (evidence_checks libraries p a e c) (telemetry_checks p spec e) in
      (
        (λ (signed, rest).
            let (g1, r1) = one.0 rest in
            let (g2, r2) = two.0 r1 in
            let (g3, r3) = three.0 r2 in let (g4, g5) = four.0 r3 in (signed, g1, g2, g3, g4, g5)),
        λ (signed, g1, g2, g3, g4, g5).
            (signed, one.1 (g1, two.1 (g2, three.1 (g3, four.1 (g4, g5))))),
      )

pub passed_iff :
    (spec : ComputeJobSpec) (checks : List (Bool × String))
    → ((verdict_of spec (failures_of checks)).passed ≡ true) ↔ Holds checks
unfolding verdict_of
passed_iff spec checks = failures_of-empty_iff checks
