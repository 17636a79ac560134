-- ===== src/Samples.antt =====
-- Values that the tests of several modules share: the specification of tests/core.test.ts, and
-- libraries with one digest for every content.
use compute_markets.Prelude.{ℕ, zero, suc, String, true, List, [], ◌∷◌, none, some}
use compute_markets.Prelude.Int.{pos}
use compute_markets.Json.{obj, end}
use compute_markets.Policies.{standard}
use compute_markets.JobSpec.{ComputeJobSpec}
use compute_markets.Prelude.{refl, arith}
use compute_markets.Prelude.Text.{is_hash, is_digest, is_repository}
use compute_markets.JobSpec.Valid.{IsValid}
use compute_markets.JobSpec.Refine.Laws.{IsConsistent}
use compute_markets.Receipts.{Libraries}
use compute_markets.Receipts.Receipt.{ExecutionReceipt, SignedReceipt, receipt_json}
use compute_markets.Verification.Receipt.{Assignment, Evidence}

abbrev pub sample_digest : String
sample_digest = "sha256:aaaaaaaaaaaaaaaaaaaaaaaaaaaaaaaaaaaaaaaaaaaaaaaaaaaaaaaaaaaaaaaa"

abbrev pub sample_spec : ComputeJobSpec
sample_spec = record {
  image = record { repository = "ghcr.io/acme/test"; digest = sample_digest };
  command = "echo" ∷ "hello" ∷ [];
  resources = record {
    gpu = record { count = 1; minimum_vram_mb = 24576; allowed_models = [] };
    cpu_cores = 2;
    ram_mb = 4096;
    storage_mb = 1024;
  };
  execution = record { timeout_seconds = 300; max_start_delay_seconds = 60 };
  policy = standard;
  service = none;
  distributed = none;
  security = none;
  proof = none;
  inputs = [];
}

pub sample-IsValid : IsValid sample_spec
unfolding is_hash is_digest is_repository
sample-IsValid = record {
  image = record { repository = refl; repository_units = omega arith; digest = refl };
  command = omega arith;
  command_units = omega arith;
  resources = omega arith;
  execution = omega arith;
  service = tt;
  distributed = tt;
  proof = tt;
  inputs = omega arith;
  each_input = tt;
}

pub sample-IsConsistent : IsConsistent sample_spec
sample-IsConsistent = ground arith

abbrev pub sample_hash : String
sample_hash = "aaaaaaaaaaaaaaaaaaaaaaaaaaaaaaaaaaaaaaaaaaaaaaaaaaaaaaaaaaaaaaaa"

abbrev pub sample_key : String
sample_key = "11111111111111111111111111111111"

abbrev pub zeros : ℕ → List ℕ
zeros zero = []
zeros (suc n) = 0 ∷ zeros n

abbrev pub sample_libraries : Libraries
sample_libraries = record {
  canonicalize = λ json. some "{}";
  digest = λ content. sample_hash;
  from_base64 = λ s. zeros 64;
  sign = λ s key. "signature";
  verify = λ s key signature. some true;
  from_base58 = λ s. some (zeros 32);
  is_uuid = λ s. true;
}

abbrev pub sample_receipt : ExecutionReceipt
sample_receipt = record {
  cluster = "devnet";
  program = sample_key;
  job_id = sample_key;
  job_spec_hash = sample_hash;
  provider = sample_key;
  machine_id = sample_key;
  worker = sample_key;
  image_digest = sample_digest;
  input_root = sample_hash;
  output_root = sample_hash;
  start_timestamp = 100;
  finish_timestamp = 160;
  exit_code = pos 0;
  gpu_uuid_commitment = sample_hash;
  hardware_report_hash = sample_hash;
  telemetry_hash = sample_hash;
  stdout_hash = sample_hash;
  stderr_hash = sample_hash;
  result_hash = sample_hash;
  nonce = "00000000-0000-4000-8000-000000000000";
}

abbrev pub sample_assignment : Assignment
sample_assignment = record {
  job_id = sample_key;
  job_spec_hash = sample_hash;
  verification_policy = "STANDARD";
  provider = sample_key;
  machine_id = sample_key;
  worker = sample_key;
  cluster = "devnet";
  program = sample_key;
  started_at = pos 98;
  submitted_at = pos 161;
  hardware_report_hash = sample_hash;
  receipt_hash = sample_hash;
  worker_active = true;
}

abbrev pub sample_evidence : Evidence
sample_evidence = record {
  stdout = 1 ∷ [];
  stderr = [];
  result = 1 ∷ [];
  telemetry = record {
    gpu_uuids = "GPU-1" ∷ [];
    samples = pos 12;
    peak_vram_mb = pos 2048;
    duration_seconds = pos 58;
  };
  hardware = obj end;
}

unfoldable pub sample_envelope : SignedReceipt
unfolding receipt_json
sample_envelope = record { payload = receipt_json sample_receipt; signature = "signature" }
