-- ===== src/JobSpec/Parse/RoundTrip.antt =====
-- A valid specification is read back from its JSON object unchanged.
use compute_markets.Prelude.{
  ℕ, ◌≤◌, ◌≡◌, refl, true, String, List, [], ◌∷◌, All, Option, none, some, Result, ok, arith, map,
}
use compute_markets.Prelude.Text.{units}
use compute_markets.Policies.{VerificationPolicy, basic, policy_name}
use mathlib.Core.Option
use compute_markets.Json.{Json, Fields, get, str, items, strings, obj, field, end}
use compute_markets.Json.Schema.{string, units_within, parse_items, keys_within, optional}
use compute_markets.JobSpec.{
  ComputeJobSpec, Image, GpuRequest, Resources, Execution, Service, Distributed, ProofKeys, Input,
  Isolation, runc, Security, ProofSystem, groth16, plonk,
}
use compute_markets.JobSpec.Valid.{
  ImageIsValid, ExecutionIsValid, ServiceIsValid, GpuIsValid, DistributedIsValid, ProofIsValid,
  InputIsValid, ResourcesIsValid, IsValid, IfPresent,
}
use compute_markets.JobSpec.Encode.{
  image_json, gpu_json, resources_json, execution_json, network_json, service_json,
  distributed_json, security_json, proof_json, input_json, inputs_json, job_spec_json,
  optional_fields, isolation_name, system_name,
}
use compute_markets.JobSpec.Refine.Laws.{IsConsistent, no_issues_of_consistent}
use compute_markets.JobSpec.Parse.{
  parse_image, parse_gpu, parse_resources, parse_execution, parse_network, parse_policy,
  parse_verification, parse_service, parse_distributed, parse_isolation, parse_security,
  parse_system, parse_proof, parse_input, parse_shape, parse, accept, shape_keys,
}

parse_strings :
    (hi : ℕ) (ss : List String)
    → All (λ s. units s ≤ hi) ss
    → parse_items (string (units_within 0 hi)) (strings ss) ≡ ok ss
parse_strings hi [] h = refl
parse_strings hi (s ∷ ss) (here, later) = ground (arith, parse_strings hi ss later)

image_round : (i : Image) → ImageIsValid i → parse_image (image_json i) ≡ ok i
unfolding parse_image
image_round i v = ground arith

gpu_round : (g : GpuRequest) → GpuIsValid g → parse_gpu (gpu_json g) ≡ ok g
unfolding parse_gpu
gpu_round g v = ground (arith, parse_strings 80 g.allowed_models v.model_units)

resources_round : (r : Resources) → ResourcesIsValid r → parse_resources (resources_json r) ≡ ok r
unfolding parse_resources
resources_round r v = ground (arith, gpu_round r.gpu v.gpu)

execution_round : (e : Execution) → ExecutionIsValid e → parse_execution (execution_json e) ≡ ok e
unfolding parse_execution
execution_round e v = ground arith

network_round : parse_network network_json ≡ ok tt
unfolding parse_network
network_round = refl

policy_round :
    (p : VerificationPolicy)
    → parse_verification (obj (field "policy" (str (policy_name p)) end)) ≡ ok p
unfolding parse_verification parse_policy
policy_round basic = refl
policy_round p = refl

service_round : (s : Service) → ServiceIsValid s → parse_service (service_json s) ≡ ok s
unfolding parse_service
service_round s v = ground arith

distributed_round :
    (d : Distributed) → DistributedIsValid d → parse_distributed (distributed_json d) ≡ ok d
unfolding parse_distributed
distributed_round d v = ground arith

isolation_round : (i : Isolation) → parse_isolation (str (isolation_name i)) ≡ ok i
unfolding parse_isolation
isolation_round runc = refl
isolation_round i = refl

security_round : (s : Security) → parse_security (security_json s) ≡ ok s
unfolding parse_security
security_round s = ground (arith, isolation_round s.isolation)

system_round : (s : ProofSystem) → parse_system (str (system_name s)) ≡ ok s
unfolding parse_system
system_round groth16 = refl
system_round plonk = refl

proof_round : (p : ProofKeys) → ProofIsValid p → parse_proof (proof_json p) ≡ ok p
unfolding parse_proof
proof_round p v = ground (arith, system_round p.system)

input_round : (i : Input) → InputIsValid i → parse_input (input_json i) ≡ ok i
unfolding parse_input
input_round i v = ground arith

parse_inputs :
    (is : List Input)
    → All InputIsValid is
    → parse_items parse_input (items (map input_json is)) ≡ ok is
parse_inputs [] h = refl
parse_inputs (i ∷ is) (here, later) = ground (arith, input_round i here, parse_inputs is later)

module _ (s : Option Service) (d : Option Distributed) (c : Option Security) (k : Option ProofKeys)
    (inputs : Json) where
  get_service : get "service" (optional_fields s d c k inputs) ≡ Option.map service_json s
  get_service = ground arith

  get_distributed :
      get "distributed" (optional_fields s d c k inputs) ≡ Option.map distributed_json d
  get_distributed = ground arith

  get_security : get "security" (optional_fields s d c k inputs) ≡ Option.map security_json c
  get_security = ground arith

  get_proof : get "proof" (optional_fields s d c k inputs) ≡ Option.map proof_json k
  get_proof = ground arith

  get_inputs : get "inputs" (optional_fields s d c k inputs) ≡ some inputs
  get_inputs = ground arith

  keys_known : keys_within shape_keys (optional_fields s d c k inputs) ≡ true
  keys_known = ground arith

optional_round :
    {A : Type 0} (P : A → Type 0) (encode : A → Json) (parse_one : Json → Result A) (key : String)
    (fs : Fields) (o : Option A)
    → ((a : A) → P a → parse_one (encode a) ≡ ok a)
    → IfPresent P o
    → get key fs ≡ Option.map encode o
    → optional key parse_one fs ≡ ok o
optional_round P encode parse_one key fs none round v e = ground arith
optional_round P encode parse_one key fs (some a) round v e = ground (arith, round a v)

shape_round : (spec : ComputeJobSpec) → IsValid spec → parse_shape (job_spec_json spec) ≡ ok spec
unfolding parse_shape job_spec_json
shape_round spec v = ground (
  arith,
  keys_known s d c k inputs,
  image_round spec.image v.image,
  parse_strings 4096 spec.command v.command_units,
  resources_round spec.resources v.resources,
  execution_round spec.execution v.execution,
  network_round,
  policy_round spec.policy,
  optional_round ServiceIsValid service_json parse_service "service" rest s service_round v.service
      (get_service s d c k inputs),
  optional_round DistributedIsValid distributed_json parse_distributed "distributed" rest d
      distributed_round v.distributed (get_distributed s d c k inputs),
  optional_round (λ _. Unit {0}) security_json parse_security "security" rest c
      (λ a _. security_round a) (present c) (get_security s d c k inputs),
  optional_round ProofIsValid proof_json parse_proof "proof" rest k proof_round v.proof
      (get_proof s d c k inputs),
  get_inputs s d c k inputs,
  parse_inputs spec.inputs v.each_input,
)
  where
    s : Option Service
    s = spec.service

    d : Option Distributed
    d = spec.distributed

    c : Option Security
    c = spec.security

    k : Option ProofKeys
    k = spec.proof

    inputs : Json
    inputs = inputs_json spec.inputs

    rest : Fields
    rest = optional_fields s d c k inputs

    present : (o : Option Security) → IfPresent (λ _. Unit {0}) o
    present none = tt
    present (some a) = tt

-- A specification within the bounds of the schema that meets the conditions between fields is
-- read back unchanged from the JSON object that the program stores and commits to.
pub parse-job_spec_json :
    (spec : ComputeJobSpec)
    → IsValid spec
    → IsConsistent spec
    → parse (job_spec_json spec) ≡ ok spec
unfolding parse accept
parse-job_spec_json spec v c = rw (shape_round spec v, no_issues_of_consistent spec c)
