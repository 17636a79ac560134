-- ===== src/JobSpec/Refine.antt =====
-- The `superRefine` of the schema: the conditions between fields.
pub mod Laws
use compute_markets.Prelude.{
  ◌*◌, Bool, true, false, not, ◌&&◌, ◌||◌, String, List, [], ◌∷◌, Option, none, some, leb, ◌==◌,
  failures_of,
}
use compute_markets.Policies.{VerificationPolicy, tee, proof}
use compute_markets.JobSpec.{
  ComputeJobSpec, Service, Distributed, Security, Isolation, Execution, Resources,
}

abbrev pub is_some {ℓ} : {A : Type ℓ} → Option A → Bool
is_some none = false
is_some (some a) = true

abbrev pub is_tee_isolation : Isolation → Bool
is_tee_isolation Isolation.tee = true
is_tee_isolation _ = false

-- `spec.security?.isolation === "tee"`.
abbrev pub has_tee_isolation : Option Security → Bool
has_tee_isolation none = false
has_tee_isolation (some s) = is_tee_isolation s.isolation

-- `spec.security?.isolation === "tee" || spec.security?.confidentialGpu`.
abbrev pub wants_tee : Option Security → Bool
wants_tee none = false
wants_tee (some s) = is_tee_isolation s.isolation || s.confidential_gpu

abbrev is_tee_policy : VerificationPolicy → Bool
is_tee_policy tee = true
is_tee_policy _ = false

abbrev is_proof_policy : VerificationPolicy → Bool
is_proof_policy proof = true
is_proof_policy _ = false

abbrev service_fits : Option Service → Execution → Bool
service_fits none e = true
service_fits (some s) e = leb s.duration_seconds e.timeout_seconds

abbrev workers_fit : Option Distributed → Resources → Bool
workers_fit none r = true
workers_fit (some d) r = d.workers * d.gpus_per_worker == r.gpu.count

-- Each test with the message of the issue that is added where it does not hold.
pub refine_checks : ComputeJobSpec → List (Bool × String)
refine_checks spec =
    (
      not (is_some spec.service && is_some spec.distributed),
      "A job cannot be both a persistent service and a Ray job",
    )
    ∷ (
      service_fits spec.service spec.execution,
      "Service duration exceeds the escrowed execution timeout",
    )
    ∷ (
      workers_fit spec.distributed spec.resources,
      "Distributed GPU allocation must equal the requested GPU count",
    )
    ∷ (
      not (wants_tee spec.security) || is_tee_policy spec.policy || is_proof_policy spec.policy,
      "TEE or confidential GPU execution requires VERIFY_4 or stronger",
    )
    ∷ (
      not (is_tee_policy spec.policy) || has_tee_isolation spec.security,
      "TEE verification requires TEE isolation",
    )
    ∷ (
      not (is_proof_policy spec.policy) || is_some spec.proof,
      "Proof verification requires a pinned proof system and keys",
    )
    ∷ []

-- The issues that `superRefine` adds, in order.
unfoldable pub refine_issues : ComputeJobSpec → List String
unfolding refine_checks
refine_issues spec = failures_of (refine_checks spec)
