-- ===== src/ExecutionPolicy/Laws.antt =====
-- Exactly which specifications the container executors take.
use compute_markets.Prelude.{
  String, ◌≡◌, ◌↔◌, List, [], none, ok, arith, Occurs, includes_iff, false,
}
use compute_markets.Json.{Json}
use compute_markets.JobSpec.{ComputeJobSpec}
use compute_markets.JobSpec.Refine.{wants_tee}
use compute_markets.JobSpec.Parse.{parse}
use compute_markets.ExecutionPolicy.{before_slash, enforce_execution_policy}

pub record IsPlainContainer (registries : List String) (spec : ComputeJobSpec) : Type 0 where
  pub registry : Occurs (before_slash spec.image.repository) registries
  pub no_inputs : spec.inputs ≡ []
  pub no_service : spec.service ≡ none
  pub no_distributed : spec.distributed ≡ none
  pub no_tee : wants_tee spec.security ≡ false
  pub no_proof : spec.proof ≡ none

-- The executor's check returns a specification exactly when the schema accepts the input as that
-- specification, its registry is on the provider's list, and it asks for no inputs, service,
-- distributed job, confidential hardware or proof.
pub enforce_execution_policy_iff :
    (input : Json) (registries : List String) (spec : ComputeJobSpec)
    → (enforce_execution_policy input registries ≡ ok spec)
      ↔ ((parse input ≡ ok spec) × IsPlainContainer registries spec)
unfolding enforce_execution_policy
enforce_execution_policy_iff input registries spec = (
  (λ h. ground (arith, includes_iff registries (before_slash spec.image.repository))),
  λ h. ground (arith, includes_iff registries (before_slash spec.image.repository)),
)
