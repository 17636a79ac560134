-- ===== src/JobSpec/Refine/Laws.antt =====
-- The conditions between fields as statements, and that the issues decide them.
use compute_markets.Prelude.{◌≤◌, ◌*◌, ◌≡◌, ◌≢◌, ◌⊎◌, true, false, [], none, arith}
use compute_markets.Policies.{tee, proof}
use compute_markets.JobSpec.{ComputeJobSpec}
use compute_markets.JobSpec.Valid.{IfPresent}
use compute_markets.JobSpec.Refine.{wants_tee, has_tee_isolation, is_some, refine_issues}

pub record IsConsistent (spec : ComputeJobSpec) : Type 0 where
  -- not a persistent service and a distributed job at once
  pub one_kind : (spec.service ≡ none) ⊎ (spec.distributed ≡ none)
  -- a service fits into the escrowed timeout
  pub paid_time : IfPresent (λ s. s.duration_seconds ≤ spec.execution.timeout_seconds) spec.service
  -- the workers' GPUs are the GPUs that are requested
  pub paid_gpus :
      IfPresent (λ d. d.workers * d.gpus_per_worker ≡ spec.resources.gpu.count) spec.distributed
  -- confidential execution asks for a policy that can show it
  pub shown_tee : (wants_tee spec.security ≡ false) ⊎ (spec.policy ≡ tee) ⊎ (spec.policy ≡ proof)
  pub isolated : (spec.policy ≢ tee) ⊎ (has_tee_isolation spec.security ≡ true)
  pub pinned : (spec.policy ≢ proof) ⊎ (is_some spec.proof ≡ true)

pub IsConsistent-of_no_issues :
    (spec : ComputeJobSpec) → refine_issues spec ≡ [] → IsConsistent spec
unfolding refine_issues
IsConsistent-of_no_issues spec h = ground arith

pub no_issues_of_consistent : (spec : ComputeJobSpec) → IsConsistent spec → refine_issues spec ≡ []
unfolding refine_issues
no_issues_of_consistent spec c = ground arith
