-- ===== src/ExecutionPolicy.antt =====
-- packages/policy/index.ts: what a container executor accepts.
pub mod Laws
use Prim.Native.Char.{code}
use Prim.Native.String
use compute_markets.Prelude.{
  String, Bool, not, List, ◌==◌, includes, is_empty, Result, ok, require, ◌>>=◌, ◌>>◌,
  if◌then◌else◌,
}
use compute_markets.Json.{Json}
use compute_markets.JobSpec.{ComputeJobSpec}
use compute_markets.JobSpec.Refine.{is_some, wants_tee}
use compute_markets.JobSpec.Parse.{parse}

-- `repository.split("/")[0]`.
abbrev pub before_slash : String → String
before_slash String.[] = String.[]
before_slash (String.◌∷◌ c s) =
    let rest = String.◌∷◌ c (before_slash s) in if code c == b'/' then String.[] else rest

unfoldable pub enforce_execution_policy : Json → List String → Result ComputeJobSpec
enforce_execution_policy input allowed_registries = do
  spec ← parse input
  require (includes allowed_registries (before_slash spec.image.repository))
      "Registry is not allowed by this provider"
  require (is_empty spec.inputs) "Input materialization is not enabled for this executor"
  require (not (is_some spec.service)) "Persistent services require the vLLM executor"
  require (not (is_some spec.distributed)) "Distributed jobs require the Ray executor"
  require (not (wants_tee spec.security)) "Hardware attestation requires a TEE executor"
  require (not (is_some spec.proof)) "Proof workloads require a proof-capable executor"
  ok spec
