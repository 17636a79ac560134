-- ===== src/Provider/Accepted.antt =====
-- The receipt that a worker makes of an execution, before the verifier: build_receipt of
-- agents/provider-node/cli.ts together with `verifyReceipt` of packages/verification/index.ts.
use compute_markets.Prelude.{ℕ, String, List, Result}
use compute_markets.Json.{Json, arr, strings}
use compute_markets.JobSpec.{ComputeJobSpec}
use compute_markets.JobSpec.Encode.{job_spec_json, inputs_json}
use compute_markets.Receipts.{Libraries, bytes, text, sha256}
use compute_markets.Receipts.Receipt.{ExecutionReceipt}
use compute_markets.Verification.Receipt.{telemetry_json, output_json}
use compute_markets.Verification.Receipt.Attested.{Attested}
use compute_markets.MockBackend.{ExecutionResult}
use compute_markets.Provider.{WorkerJob, Services}
use compute_markets.Provider.Bundle.{build_receipt, bundle_json}
use compute_markets.Provider.Honest.{IsReliable}

module _ {S : Type 0} (libraries : Libraries) (services : Services S) (job cluster nonce : String)
    (j : WorkerJob) (spec : ComputeJobSpec) (hardware : Json) (r : ExecutionResult) where
  abbrev built : Result ExecutionReceipt
  built =
      build_receipt libraries cluster services.program_id job j services.worker nonce spec hardware
        r

  abbrev bundle : Json × String → Json
  bundle signed = bundle_json services.to_base64 signed.0 signed.1 spec hardware r

  module _ (public_key : List ℕ) (reliable : IsReliable libraries services public_key) where
    abbrev hash_of : Json → String
    hash_of value = sha256 libraries (text (reliable.canonicalizes value).0)

    abbrev receipt : ExecutionReceipt
    receipt = record {
      cluster = cluster;
      program = services.program_id;
      job_id = job;
      job_spec_hash = hash_of (job_spec_json spec);
      provider = j.provider;
      machine_id = j.machine;
      worker = services.worker;
      image_digest = r.actual_digest;
      input_root = hash_of (inputs_json spec.inputs);
      output_root = hash_of (output_json (sha256 libraries (bytes r.result)));
      start_timestamp = r.started_at;
      finish_timestamp = r.finished_at;
      exit_code = r.exit_code;
      gpu_uuid_commitment = hash_of (arr (strings r.gpu_uuids));
      hardware_report_hash = hash_of hardware;
      telemetry_hash = hash_of (telemetry_json r.telemetry);
      stdout_hash = sha256 libraries (bytes r.stdout);
      stderr_hash = sha256 libraries (bytes r.stderr);
      result_hash = sha256 libraries (bytes r.result);
      nonce = nonce;
    }
