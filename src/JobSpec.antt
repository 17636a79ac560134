-- ===== src/JobSpec.antt =====
-- packages/job-spec/index.ts: the job specification that a buyer funds. The literal fields
-- `version`, `runtime`, `network` and the `kind` and `framework` tags hold one value each, so the
-- record leaves them out; `parse` and `job_spec_json` read and write them.
pub mod Valid
pub mod Parse
pub mod Encode
pub mod Refine
mod Tests
use compute_markets.Prelude.{ℕ, Bool, String, List, Option}
use compute_markets.Policies.{VerificationPolicy}

pub record Image : Type 0 where
  pub repository : String
  pub digest : String

pub record GpuRequest : Type 0 where
  pub count : ℕ
  pub minimum_vram_mb : ℕ
  pub allowed_models : List String

pub record Resources : Type 0 where
  pub gpu : GpuRequest
  pub cpu_cores : ℕ
  pub ram_mb : ℕ
  pub storage_mb : ℕ

pub record Execution : Type 0 where
  pub timeout_seconds : ℕ
  pub max_start_delay_seconds : ℕ

pub record Service : Type 0 where
  pub model : String
  pub context_tokens : ℕ
  pub replicas : ℕ
  pub duration_seconds : ℕ

pub record Distributed : Type 0 where
  pub workers : ℕ
  pub gpus_per_worker : ℕ
  pub entrypoint : String

pub data Isolation : Type 0 where
  runc gvisor tee : Isolation

pub record Security : Type 0 where
  pub isolation : Isolation
  pub confidential_gpu : Bool

pub data ProofSystem : Type 0 where
  groth16 plonk : ProofSystem

pub record ProofKeys : Type 0 where
  pub system : ProofSystem
  pub circuit_hash : String
  pub verification_key_hash : String

pub record Input : Type 0 where
  pub key : String
  pub sha256 : String

pub record ComputeJobSpec : Type 0 where
  pub image : Image
  pub command : List String
  pub resources : Resources
  pub execution : Execution
  pub policy : VerificationPolicy
  pub service : Option Service
  pub distributed : Option Distributed
  pub security : Option Security
  pub proof : Option ProofKeys
  pub inputs : List Input
