-- ===== src/JobSpec/Valid.antt =====
-- Which specifications the object schema admits, written as bounds on the fields.
use compute_markets.Prelude.{◌≤◌, ◌≡◌, true, length, All, Option, none, some}
use compute_markets.Prelude.Text.{is_hash, is_digest, is_repository, is_input_key, units}
use compute_markets.JobSpec.{
  ComputeJobSpec, Image, GpuRequest, Resources, Execution, Service, Distributed, ProofKeys, Input,
}

pub record ImageIsValid (i : Image) : Type 0 where
  pub repository : is_repository i.repository ≡ true
  pub repository_units : units i.repository ≤ 200
  pub digest : is_digest i.digest ≡ true

pub record GpuIsValid (g : GpuRequest) : Type 0 where
  pub count : g.count ≤ 16
  pub vram : g.minimum_vram_mb ≤ 200000
  pub models : length g.allowed_models ≤ 16
  pub model_units : All (λ s. units s ≤ 80) g.allowed_models

pub record ResourcesIsValid (r : Resources) : Type 0 where
  pub gpu : GpuIsValid r.gpu
  pub cpu_cores : (1 ≤ r.cpu_cores) × (r.cpu_cores ≤ 128)
  pub ram_mb : (128 ≤ r.ram_mb) × (r.ram_mb ≤ 1048576)
  pub storage_mb : (64 ≤ r.storage_mb) × (r.storage_mb ≤ 1048576)

pub record ExecutionIsValid (e : Execution) : Type 0 where
  pub timeout : (1 ≤ e.timeout_seconds) × (e.timeout_seconds ≤ 86400)
  pub delay : (1 ≤ e.max_start_delay_seconds) × (e.max_start_delay_seconds ≤ 86400)

pub record ServiceIsValid (s : Service) : Type 0 where
  pub model : (1 ≤ units s.model) × (units s.model ≤ 300)
  pub context : (128 ≤ s.context_tokens) × (s.context_tokens ≤ 1048576)
  pub replicas : (1 ≤ s.replicas) × (s.replicas ≤ 32)
  pub duration : (60 ≤ s.duration_seconds) × (s.duration_seconds ≤ 86400)

pub record DistributedIsValid (d : Distributed) : Type 0 where
  pub workers : (1 ≤ d.workers) × (d.workers ≤ 128)
  pub gpus : d.gpus_per_worker ≤ 16
  pub entrypoint : (1 ≤ units d.entrypoint) × (units d.entrypoint ≤ 4096)

pub record ProofIsValid (p : ProofKeys) : Type 0 where
  pub circuit : is_hash p.circuit_hash ≡ true
  pub key : is_hash p.verification_key_hash ≡ true

pub record InputIsValid (i : Input) : Type 0 where
  pub key : is_input_key i.key ≡ true
  pub key_units : units i.key ≤ 256
  pub sha256 : is_hash i.sha256 ≡ true

abbrev pub IfPresent : {A : Type 0} → (A → Type 0) → Option A → Type 0
IfPresent P none = Unit
IfPresent P (some a) = P a

pub record IsValid (spec : ComputeJobSpec) : Type 0 where
  pub image : ImageIsValid spec.image
  pub command : (1 ≤ length spec.command) × (length spec.command ≤ 64)
  pub command_units : All (λ s. units s ≤ 4096) spec.command
  pub resources : ResourcesIsValid spec.resources
  pub execution : ExecutionIsValid spec.execution
  pub service : IfPresent ServiceIsValid spec.service
  pub distributed : IfPresent DistributedIsValid spec.distributed
  pub proof : IfPresent ProofIsValid spec.proof
  pub inputs : length spec.inputs ≤ 16
  pub each_input : All InputIsValid spec.inputs
