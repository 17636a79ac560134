-- ===== src/Receipts/Receipt.antt =====
-- `receiptSchema` and the receipt as JSON. The literal `version` and `domain` are read and written
-- by `parse_receipt` and `receipt_json`.
use compute_markets.Prelude.{ℕ, String, List, [], ◌∷◌, Result, ok, leb, ◌>>=◌}
use compute_markets.Prelude.Int.{ℤ, pos}
use compute_markets.Prelude.Text.{is_hash, is_digest, units}
use compute_markets.Json.{Json, num, str, obj, field, end}
use compute_markets.Json.Schema.{
  strict_object, required, string, int_within, integer, literal, max_safe_integer,
}
use compute_markets.Receipts.{Libraries}

pub record ExecutionReceipt : Type 0 where
  pub cluster : String
  pub program : String
  pub job_id : String
  pub job_spec_hash : String
  pub provider : String
  pub machine_id : String
  pub worker : String
  pub image_digest : String
  pub input_root : String
  pub output_root : String
  pub start_timestamp : ℕ
  pub finish_timestamp : ℕ
  pub exit_code : ℤ
  pub gpu_uuid_commitment : String
  pub hardware_report_hash : String
  pub telemetry_hash : String
  pub stdout_hash : String
  pub stderr_hash : String
  pub result_hash : String
  pub nonce : String

-- The payload arrives as JSON and is read by the schema.
pub record SignedReceipt : Type 0 where
  pub payload : Json
  pub signature : String

unfoldable pub receipt_json : ExecutionReceipt → Json
receipt_json r = obj (
    field "version" (str "1") (
      field "domain" (str "vericompute:receipt:v1") (
        field "cluster" (str r.cluster) (
          field "program" (str r.program) (
            field "jobId" (str r.job_id) (
              field "jobSpecHash" (str r.job_spec_hash) (
                field "provider" (str r.provider) (
                  field "machineId" (str r.machine_id) (
                    field "worker" (str r.worker) (
                      field "imageDigest" (str r.image_digest) (
                        field "inputRoot" (str r.input_root) (
                          field "outputRoot" (str r.output_root) (
                            field "startTimestamp" (num (pos r.start_timestamp)) (
                              field "finishTimestamp" (num (pos r.finish_timestamp)) (
                                field "exitCode" (num r.exit_code) (
                                  field "gpuUuidCommitment" (str r.gpu_uuid_commitment) (
                                    field "hardwareReportHash" (str r.hardware_report_hash) (
                                      field "telemetryHash" (str r.telemetry_hash) (
                                        field "stdoutHash" (str r.stdout_hash) (
                                          field "stderrHash" (str r.stderr_hash) (
                                            field "resultHash" (str r.result_hash)
                                              (field "nonce" (str r.nonce) end))))))))))))))))))))))

abbrev pub at_least : ℕ → Json → Result String
at_least n = string (λ s. leb n (units s))

abbrev pub timestamp : Json → Result ℕ
timestamp = int_within 0 max_safe_integer

abbrev receipt_keys : List String
receipt_keys =
    "version" ∷ "domain" ∷ "cluster" ∷ "program" ∷ "jobId" ∷ "jobSpecHash" ∷ "provider"
    ∷ "machineId" ∷ "worker" ∷ "imageDigest" ∷ "inputRoot" ∷ "outputRoot" ∷ "startTimestamp"
    ∷ "finishTimestamp" ∷ "exitCode" ∷ "gpuUuidCommitment" ∷ "hardwareReportHash" ∷ "telemetryHash"
    ∷ "stdoutHash" ∷ "stderrHash" ∷ "resultHash" ∷ "nonce" ∷ []

module _ (libraries : Libraries) where
  unfoldable pub parse_receipt : Json → Result ExecutionReceipt
  parse_receipt json = do
    fs ← strict_object receipt_keys json
    version ← required "version" (literal "1") fs
    domain ← required "domain" (literal "vericompute:receipt:v1") fs
    cluster ← required "cluster" (at_least 1) fs
    program ← required "program" (at_least 32) fs
    job ← required "jobId" (at_least 32) fs
    spec ← required "jobSpecHash" (string is_hash) fs
    provider ← required "provider" (at_least 32) fs
    machine ← required "machineId" (at_least 32) fs
    worker ← required "worker" (at_least 32) fs
    image ← required "imageDigest" (string is_digest) fs
    inputs ← required "inputRoot" (string is_hash) fs
    outputs ← required "outputRoot" (string is_hash) fs
    start ← required "startTimestamp" timestamp fs
    finish ← required "finishTimestamp" timestamp fs
    exit ← required "exitCode" integer fs
    gpus ← required "gpuUuidCommitment" (string is_hash) fs
    hardware ← required "hardwareReportHash" (string is_hash) fs
    telemetry ← required "telemetryHash" (string is_hash) fs
    stdout ← required "stdoutHash" (string is_hash) fs
    stderr ← required "stderrHash" (string is_hash) fs
    result ← required "resultHash" (string is_hash) fs
    nonce ← required "nonce" (string libraries.is_uuid) fs
    ok (record {
      cluster = cluster;
      program = program;
      job_id = job;
      job_spec_hash = spec;
      provider = provider;
      machine_id = machine;
      worker = worker;
      image_digest = image;
      input_root = inputs;
      output_root = outputs;
      start_timestamp = start;
      finish_timestamp = finish;
      exit_code = exit;
      gpu_uuid_commitment = gpus;
      hardware_report_hash = hardware;
      telemetry_hash = telemetry;
      stdout_hash = stdout;
      stderr_hash = stderr;
      result_hash = result;
      nonce = nonce;
    })
