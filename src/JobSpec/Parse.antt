-- ===== src/JobSpec/Parse.antt =====
-- `jobSpecSchema.parse`.
pub mod RoundTrip
pub mod Sound
use compute_markets.Prelude.{
  ◌&&◌, String, List, [], ◌∷◌, Option, none, some, str_eq, Result, ok, err, ◌>>=◌, ◌>>◌,
  if◌then◌else◌,
}
use compute_markets.Prelude.Text.{is_hash, is_digest, is_repository, is_input_key}
use compute_markets.Policies.{VerificationPolicy, policy_name, verification_policies}
use compute_markets.Json.{Json, str}
use compute_markets.Json.Schema.{
  strict_object, required, optional, array, string, units_within, int_within, boolean, literal,
}
use compute_markets.JobSpec.{
  ComputeJobSpec, Image, GpuRequest, Resources, Execution, Service, Distributed, Isolation,
  Security, ProofSystem, groth16, plonk, ProofKeys, Input,
}
use compute_markets.JobSpec.Refine.{refine_issues}

pub parse_image : Json → Result Image
parse_image json = do
  fs ← strict_object ("repository" ∷ "digest" ∷ []) json
  r ← required "repository" (string (λ s. is_repository s && units_within 0 200 s)) fs
  d ← required "digest" (string is_digest) fs
  ok (record { repository = r; digest = d })

abbrev gpu_keys : List String
gpu_keys = "count" ∷ "minimumVramMb" ∷ "allowedModels" ∷ []

pub parse_gpu : Json → Result GpuRequest
parse_gpu json = do
  fs ← strict_object gpu_keys json
  n ← required "count" (int_within 0 16) fs
  v ← required "minimumVramMb" (int_within 0 200000) fs
  ms ← required "allowedModels" (array (string (units_within 0 80)) 0 16) fs
  ok (record { count = n; minimum_vram_mb = v; allowed_models = ms })

abbrev resource_keys : List String
resource_keys = "gpu" ∷ "cpuCores" ∷ "ramMb" ∷ "storageMb" ∷ []

pub parse_resources : Json → Result Resources
parse_resources json = do
  fs ← strict_object resource_keys json
  g ← required "gpu" parse_gpu fs
  c ← required "cpuCores" (int_within 1 128) fs
  r ← required "ramMb" (int_within 128 1048576) fs
  s ← required "storageMb" (int_within 64 1048576) fs
  ok (record { gpu = g; cpu_cores = c; ram_mb = r; storage_mb = s })

pub parse_execution : Json → Result Execution
parse_execution json = do
  fs ← strict_object ("timeoutSeconds" ∷ "maxStartDelaySeconds" ∷ []) json
  t ← required "timeoutSeconds" (int_within 1 86400) fs
  d ← required "maxStartDelaySeconds" (int_within 1 86400) fs
  ok (record { timeout_seconds = t; max_start_delay_seconds = d })

-- `mode: z.literal("deny-by-default")` and `allow`, which holds nothing.
pub parse_network : Json → Result (Unit {0})
parse_network json = do
  fs ← strict_object ("mode" ∷ "allow" ∷ []) json
  required "mode" (literal "deny-by-default") fs
  allow ← required "allow" (array {A = Unit {0}} (λ _. err "Invalid input: expected never") 0 0) fs
  ok tt

policy_named : List VerificationPolicy → String → Result VerificationPolicy
policy_named [] s = err "Invalid option"
policy_named (p ∷ ps) s =
    let rest = policy_named ps s in if str_eq (policy_name p) s then ok p else rest

-- `z.enum(verificationPolicies)`.
pub parse_policy : Json → Result VerificationPolicy
unfolding policy_named
parse_policy (str s) = policy_named verification_policies s
parse_policy _ = err "Invalid option"

pub parse_verification : Json → Result VerificationPolicy
parse_verification json = do
  fs ← strict_object ("policy" ∷ []) json
  required "policy" parse_policy fs

pub parse_service : Json → Result Service
parse_service json = do
  fs ← strict_object ("kind" ∷ "model" ∷ "contextTokens" ∷ "replicas" ∷ "durationSeconds" ∷ []) json
  required "kind" (literal "vllm") fs
  m ← required "model" (string (units_within 1 300)) fs
  c ← required "contextTokens" (int_within 128 1048576) fs
  r ← required "replicas" (int_within 1 32) fs
  d ← required "durationSeconds" (int_within 60 86400) fs
  ok (record { model = m; context_tokens = c; replicas = r; duration_seconds = d })

pub parse_distributed : Json → Result Distributed
parse_distributed json = do
  fs ← strict_object ("framework" ∷ "workers" ∷ "gpusPerWorker" ∷ "entrypoint" ∷ []) json
  required "framework" (literal "ray") fs
  w ← required "workers" (int_within 1 128) fs
  g ← required "gpusPerWorker" (int_within 0 16) fs
  e ← required "entrypoint" (string (units_within 1 4096)) fs
  ok (record { workers = w; gpus_per_worker = g; entrypoint = e })

pub parse_isolation : Json → Result Isolation
parse_isolation (str s) =
    if str_eq s "runc"
    then ok Isolation.runc
    else if str_eq s "gvisor"
    then ok Isolation.gvisor
    else if str_eq s "tee"
    then ok Isolation.tee
    else err "Invalid option"
parse_isolation _ = err "Invalid option"

pub parse_security : Json → Result Security
parse_security json = do
  fs ← strict_object ("isolation" ∷ "confidentialGpu" ∷ []) json
  i ← required "isolation" parse_isolation fs
  c ← required "confidentialGpu" boolean fs
  ok (record { isolation = i; confidential_gpu = c })

pub parse_system : Json → Result ProofSystem
parse_system (str s) =
    if str_eq s "groth16"
    then ok groth16
    else if str_eq s "plonk"
    then ok plonk
    else err "Invalid option"
parse_system _ = err "Invalid option"

pub parse_proof : Json → Result ProofKeys
parse_proof json = do
  fs ← strict_object ("system" ∷ "circuitHash" ∷ "verificationKeyHash" ∷ []) json
  s ← required "system" parse_system fs
  c ← required "circuitHash" (string is_hash) fs
  v ← required "verificationKeyHash" (string is_hash) fs
  ok (record { system = s; circuit_hash = c; verification_key_hash = v })

pub parse_input : Json → Result Input
parse_input json = do
  fs ← strict_object ("key" ∷ "sha256" ∷ []) json
  k ← required "key" (string (λ s. is_input_key s && units_within 0 256 s)) fs
  h ← required "sha256" (string is_hash) fs
  ok (record { key = k; sha256 = h })

-- `.default([])`.
abbrev or_none : Option (List Input) → List Input
or_none none = []
or_none (some inputs) = inputs

abbrev shape_keys : List String
shape_keys =
    "version" ∷ "runtime" ∷ "image" ∷ "command" ∷ "resources" ∷ "execution" ∷ "network"
    ∷ "verification" ∷ "service" ∷ "distributed" ∷ "security" ∷ "proof" ∷ "inputs" ∷ []

-- The object schema, before `superRefine`.
pub parse_shape : Json → Result ComputeJobSpec
parse_shape json = do
  fs ← strict_object shape_keys json
  version ← required "version" (literal "1") fs
  runtime ← required "runtime" (literal "oci") fs
  image ← required "image" parse_image fs
  command ← required "command" (array (string (units_within 0 4096)) 1 64) fs
  resources ← required "resources" parse_resources fs
  execution ← required "execution" parse_execution fs
  network ← required "network" parse_network fs
  policy ← required "verification" parse_verification fs
  service ← optional "service" parse_service fs
  distributed ← optional "distributed" parse_distributed fs
  security ← optional "security" parse_security fs
  keys ← optional "proof" parse_proof fs
  inputs ← optional "inputs" (array parse_input 0 16) fs
  ok (record {
    image = image;
    command = command;
    resources = resources;
    execution = execution;
    policy = policy;
    service = service;
    distributed = distributed;
    security = security;
    proof = keys;
    inputs = or_none inputs;
  })

accept : ComputeJobSpec → List String → Result ComputeJobSpec
accept spec [] = ok spec
accept spec (issue ∷ _) = err issue

-- `superRefine` runs on a value that fits the object schema. The error that is thrown lists every
-- issue; the model's carries the first.
unfoldable pub parse : Json → Result ComputeJobSpec
unfolding accept
parse json = do spec ← parse_shape json; accept spec (refine_issues spec)
