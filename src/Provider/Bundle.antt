-- ===== src/Provider/Bundle.antt =====
-- The receipt of a finished execution and the bundle that carries it with its evidence
-- (agents/provider-node/cli.ts).
use compute_markets.Prelude.{
  ℕ, String, List, [], ◌∷◌, Option, none, some, Result, ok, err, chain, take, ◌>>=◌,
}
use compute_markets.Json.{Json, str, arr, obj, Items, nil, cons, end, field, strings}
use compute_markets.JobSpec.{ComputeJobSpec}
use compute_markets.JobSpec.Encode.{inputs_json, job_spec_json}
use compute_markets.Receipts.{Libraries, bytes, sha256, commitment}
use compute_markets.Receipts.Receipt.{ExecutionReceipt}
use compute_markets.Verification.Receipt.{telemetry_json, output_json}
use compute_markets.MockBackend.{ExecutionResult}
use compute_markets.Journal.{property}
use compute_markets.Provider.{WorkerJob}
use compute_markets.Provider.Challenge.{payload_of}

-- `g.uuid`; the executors take texts only, and so does the model.
abbrev uuid_text : Option Json → Result String
uuid_text (some (str s)) = ok s
uuid_text _ = err "Assignment GPU UUID mismatch"

abbrev pub uuids_of : Items → Result (List String)
uuids_of nil = ok []
uuids_of (cons g gs) = do
  found ← property "uuid" g
  uuid ← uuid_text found
  uuids ← uuids_of gs
  ok (uuid ∷ uuids)

abbrev mapped_uuids : Option Json → Result (List String)
mapped_uuids (some (arr gs)) = uuids_of gs
mapped_uuids _ = err "hardware.gpu.map is not a function"

-- `hardware.gpu.map((g) => g.uuid).slice(0, count)`.
unfoldable pub assigned_gpus : ℕ → Json → Result (List String)
assigned_gpus count hardware = do
  gpus ← property "gpu" hardware
  uuids ← mapped_uuids gpus
  ok (take count uuids)

module _ (libraries : Libraries) where
  unfoldable pub build_receipt :
      String
      → String
      → String
      → WorkerJob
      → String
      → String
      → ComputeJobSpec
      → Json
      → ExecutionResult
      → Result ExecutionReceipt
  build_receipt cluster program job j worker nonce spec hardware r = do
    spec_hash ← commitment libraries (job_spec_json spec)
    inputs ← commitment libraries (inputs_json spec.inputs)
    output ← commitment libraries (output_json (sha256 libraries (bytes r.result)))
    gpus ← commitment libraries (arr (strings r.gpu_uuids))
    hardware_hash ← commitment libraries hardware
    telemetry ← commitment libraries (telemetry_json r.telemetry)
    ok (record {
      cluster = cluster;
      program = program;
      job_id = job;
      job_spec_hash = spec_hash;
      provider = j.provider;
      machine_id = j.machine;
      worker = worker;
      image_digest = r.actual_digest;
      input_root = inputs;
      output_root = output;
      start_timestamp = r.started_at;
      finish_timestamp = r.finished_at;
      exit_code = r.exit_code;
      gpu_uuid_commitment = gpus;
      hardware_report_hash = hardware_hash;
      telemetry_hash = telemetry;
      stdout_hash = sha256 libraries (bytes r.stdout);
      stderr_hash = sha256 libraries (bytes r.stderr);
      result_hash = sha256 libraries (bytes r.result);
      nonce = nonce;
    })

  -- `commitment(bundle.envelope.payload)`.
  unfoldable pub receipt_hash : Json → Result String
  receipt_hash bundle =
      chain
        (λ payload. elim payload [
          | none ↦ err "Value cannot be canonicalized"
          | some value ↦ commitment libraries value
        ])
        (payload_of bundle)

unfoldable pub bundle_json :
    (List ℕ → String) → Json → String → ComputeJobSpec → Json → ExecutionResult → Json
bundle_json to_base64 payload signature spec hardware r = obj (
    field "envelope" (obj (field "payload" payload (field "signature" (str signature) end))) (
      field "spec" (job_spec_json spec) (
        field "evidence"
          (obj (
            field "stdout" (str (to_base64 r.stdout)) (
              field "stderr" (str (to_base64 r.stderr)) (
                field "result" (str (to_base64 r.result)) (
                  field "telemetry" (telemetry_json r.telemetry)
                    (field "hardware" hardware end))))))
          end)))
