-- ===== src/Verifier/Evidence.antt =====
-- The first half of `verifyBundle`: the job on the chain, and `verifyReceipt` on the evidence.
use compute_markets.Prelude.{
  ◌*◌, String, Bool, false, not, ◌&&◌, ◌==◌, [], ◌∷◌, Option, none, some, Result, ok, err, require,
  ltb, str_eq, any, ◌>>=◌,
}
use compute_markets.Policies.{policy_name, policy_from_code}
use compute_markets.JobSpec.{ComputeJobSpec}
use compute_markets.JobSpec.Parse.{parse}
use compute_markets.Receipts.{Libraries}
use compute_markets.Storage.{text_property}
use compute_markets.Verification.Receipt.{Assignment, Evidence, Verdict, verify_receipt}
use compute_markets.Verifier.{Bundle, ChainJob, WorkerAuthorization, Services}

-- What the rest of the function uses.
pub record Checked : Type 0 where
  pub spec : ComputeJobSpec
  pub job : String
  pub chain_job : ChainJob
  pub decision : Verdict

-- `!info || !info.owner.equals(programId)`.
abbrev pub finalized : Option ChainJob → Result ChainJob
finalized none = err "No finalized protocol job"
finalized (some j) = ok j

abbrev pub text_or_throw : Option String → Result String
text_or_throw none = err "Invalid public key input"
text_or_throw (some s) = ok s

unfoldable pub is_assigned : String → ChainJob → Bool
is_assigned signer j = any (λ s. j.state == s) (8 ∷ 9 ∷ 12 ∷ []) && str_eq j.verifier signer

unfoldable pub assignment_of :
    Services → String → ChainJob → String → WorkerAuthorization → String → String → Assignment
assignment_of services job j hardware authorization policy cluster = record {
  job_id = job;
  job_spec_hash = j.spec_hash;
  verification_policy = policy;
  provider = j.provider;
  machine_id = j.machine;
  worker = j.worker;
  cluster = cluster;
  program = services.program_id;
  started_at = j.started_at;
  submitted_at = j.submitted_at;
  hardware_report_hash = hardware;
  receipt_hash = j.receipt_hash;
  worker_active = authorization.active && ltb services.now_ms (authorization.expires_at * 1000);
}

-- A text that is there and not empty.
abbrev pub is_set : Option String → Bool
is_set none = false
is_set (some s) = not (str_eq s "")

module _ (libraries : Libraries) (services : Services) where
  unfoldable pub evidence_of : Bundle → Evidence
  evidence_of bundle = record {
    stdout = libraries.from_base64 bundle.stdout;
    stderr = libraries.from_base64 bundle.stderr;
    result = libraries.from_base64 bundle.result;
    telemetry = bundle.telemetry;
    hardware = bundle.hardware;
  }

  unfoldable pub check_evidence : Bundle → Result Checked
  check_evidence bundle = do
    keypair ← require (is_set services.verifier_keypair) "VERIFIER_KEYPAIR is required"
    spec ← parse bundle.spec
    id ← text_or_throw (text_property "jobId" bundle.envelope.payload)
    job ← services.public_key id
    account ← services.job_account job
    j ← finalized account
    assigned ← require (is_assigned services.signer j) "Job is not assigned to this verifier"
    hardware ← services.machine_hardware_hash j.machine
    authorization ← services.worker_authorization j.provider j.worker
    policy ← policy_from_code j.policy
    cluster ← services.genesis_hash
    decision ←
        verify_receipt libraries bundle.envelope spec
          (assignment_of services job j hardware authorization (policy_name policy) cluster)
          (evidence_of bundle)
    ok (record { spec = spec; job = job; chain_job = j; decision = decision })
