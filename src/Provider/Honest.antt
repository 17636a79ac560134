-- ===== src/Provider/Honest.antt =====
-- An honest worker before the verifier: what the libraries, the executor and the chain contribute, for
-- the receipts of agents/provider-node/cli.ts.
use compute_markets.Prelude.{
  ℕ, ◌+◌, ◌≤◌, ◌≡◌, refl, ap, ◌∙◌, String, Bool, true, List, length, some, Result, false, ok,
  ok-injective, and_then, bind_ok, str_eq, eq_iff,
}
use compute_markets.Prelude.Int.{ℤ, pos, ◌≤ℤ◌, ◌-ℤ◌, abs_ℤ, sub_ℕ}
use compute_markets.Prelude.Text.{units, is_digest}
use compute_markets.Json.{Json}
use compute_markets.Json.Schema.{max_safe_integer}
use compute_markets.Policies.{policy_name}
use compute_markets.JobSpec.{ComputeJobSpec}
use compute_markets.JobSpec.Encode.{job_spec_json}
use compute_markets.Receipts.{Libraries, commitment, decode_key}
use compute_markets.Receipts.Laws.{IsKeyPair, WritesHashes}
use compute_markets.Receipts.Receipt.{SignedReceipt}
use compute_markets.Verification.Receipt.{Assignment, Evidence}
use compute_markets.MockBackend.{ExecutionResult}
use compute_markets.Provider.{WorkerJob, Services}
use compute_markets.Provider.Bundle.{receipt_hash}
use compute_markets.Provider.Execute.{commits_to, is_assigned}

module _ {S : Type 0} (libraries : Libraries) (services : Services S) where
  -- What the libraries promise the worker.
  pub record IsReliable (public_key : List ℕ) : Type 0 where
    pub keys : IsKeyPair libraries services.key public_key
    pub known : decode_key libraries services.worker ≡ ok public_key
    pub hashes : WritesHashes libraries
    pub canonicalizes : (value : Json) → (s : String) × (libraries.canonicalize value ≡ some s)
    pub decodes : (content : List ℕ) → libraries.from_base64 (services.to_base64 content) ≡ content

  commits_to-holds :
      (value : Json) (hash : String)
      → commits_to libraries services value hash ≡ ok true
      → commitment libraries value ≡ ok hash
  commits_to-holds value hash h =
      bind_ok (commitment libraries value) _ h
        λ found e h1. rw ((eq_iff hash found).0 (ok-injective h1)) e

  both : (b : Bool) (r : Result Bool) → and_then b r ≡ ok true → (b ≡ true) × (r ≡ ok true)
  both true r h = (refl, h)
  both false r h = absurd (cc)

  pub is_assigned-holds :
      (j : WorkerJob) (hardware_hash : String) (spec : ComputeJobSpec) (hardware : Json)
      → is_assigned libraries services j hardware_hash spec hardware ≡ ok true
      → (commitment libraries (job_spec_json spec) ≡ ok j.spec_hash)
        × (commitment libraries hardware ≡ ok hardware_hash)
  unfolding is_assigned
  is_assigned-holds j hardware_hash spec hardware h =
      bind_ok (commits_to libraries services (job_spec_json spec) j.spec_hash) _
        (both (str_eq j.worker services.worker) _ h).1
        λ same e h1.
          let (holds, rest) = both same _ h1 in
          (
            commits_to-holds (job_spec_json spec) j.spec_hash (e ∙ ap ok holds),
            commits_to-holds hardware hardware_hash rest,
          )

-- An execution that ran the job as it was ordered, and in time for the chain's two timestamps.
pub record IsHonest (spec : ComputeJobSpec) (started submitted : ℤ) (r : ExecutionResult)
    : Type 0 where
  pub image : r.actual_digest ≡ spec.image.digest
  pub succeeded : r.exit_code ≡ pos 0
  pub not_early : started -ℤ pos 5 ≤ℤ pos r.started_at
  pub not_late : pos r.started_at -ℤ pos 30 ≤ℤ started
  pub forward : r.started_at ≤ r.finished_at
  pub within : r.finished_at ≤ r.started_at + spec.execution.timeout_seconds
  pub handed_in : pos r.finished_at -ℤ pos 5 ≤ℤ submitted
  pub on_clock : r.finished_at ≤ max_safe_integer
  pub gpus : r.telemetry.gpu_uuids ≡ r.gpu_uuids
  pub sampled : pos 1 ≤ℤ r.telemetry.samples
  pub duration : pos 0 ≤ℤ r.telemetry.duration_seconds
  pub consistent : abs_ℤ (r.telemetry.duration_seconds -ℤ sub_ℕ r.finished_at r.started_at) ≤ℤ pos 5
  pub count : length r.gpu_uuids ≡ spec.resources.gpu.count
  pub memory : pos 0 ≤ℤ r.telemetry.peak_vram_mb

-- The envelope that the worker sends.
abbrev pub envelope : Json × String → SignedReceipt
envelope signed = record { payload = signed.0; signature = signed.1 }

module _ {S : Type 0} (services : Services S) where
  -- The assignment as the verifier reads it from the chain.
  abbrev pub assignment_on_chain :
      String → String → WorkerJob → ComputeJobSpec → ℤ → ℤ → String → String → Assignment
  assignment_on_chain job cluster j spec started submitted hardware_hash receipt_hash = record {
    job_id = job;
    job_spec_hash = j.spec_hash;
    verification_policy = policy_name spec.policy;
    provider = j.provider;
    machine_id = j.machine;
    worker = services.worker;
    cluster = cluster;
    program = services.program_id;
    started_at = started;
    submitted_at = submitted;
    hardware_report_hash = hardware_hash;
    receipt_hash = receipt_hash;
    worker_active = true;
  }

  -- The evidence as the verifier reads it from the bundle.
  abbrev pub sent_evidence : Libraries → Json → ExecutionResult → Evidence
  sent_evidence libraries hardware r = record {
    stdout = libraries.from_base64 (services.to_base64 r.stdout);
    stderr = libraries.from_base64 (services.to_base64 r.stderr);
    result = libraries.from_base64 (services.to_base64 r.result);
    telemetry = r.telemetry;
    hardware = hardware;
  }

  -- The names have the lengths that the schema asks for.
  pub record IsNamed (job cluster : String) (j : WorkerJob) (spec : ComputeJobSpec) : Type 0 where
    pub cluster_units : 1 ≤ units cluster
    pub program : 32 ≤ units services.program_id
    pub job_units : 32 ≤ units job
    pub provider : 32 ≤ units j.provider
    pub machine : 32 ≤ units j.machine
    pub worker : 32 ≤ units services.worker
    pub digest : is_digest spec.image.digest ≡ true
