-- ===== src/Tests/Runs.antt =====
-- A run of the verifier that sends its decision.
use compute_markets.Prelude.{◌≡◌, refl, true, false, [], ◌∷◌, some, ok}
use compute_markets.Prelude.Int.{pos, ◌-ℤ◌}
use compute_markets.Prelude.Text.{is_hash, is_digest, decimal}
use compute_markets.Json.{obj, end}
use compute_markets.Policies.{policy_code, policy_from_code}
use compute_markets.JobSpec.Parse.{parse}
use compute_markets.JobSpec.Encode.{job_spec_json}
use compute_markets.Receipts.{canonical, sha256, commitment, verify_payload, decode_key}
use compute_markets.Receipts.Receipt.{receipt_json, parse_receipt}
use compute_markets.Storage.{stored_path, find_receipt, store_receipt}
use compute_markets.Verification.Receipt.{
  telemetry_json, assignment_checks, identity_checks, timing_checks, evidence_checks,
  telemetry_checks, receipt_checks, commitments_of, verdict_of, verify_receipt,
}
use compute_markets.Verification.Receipt.Attested.{Attested}
use compute_markets.Verifier.{Bundle, ChainJob, World, Services, ◌>>=◌, VerificationRow}
use compute_markets.Verifier.Evidence.{
  Checked, is_assigned, assignment_of, evidence_of, check_evidence,
}
use compute_markets.Verifier.Decide.{decide}
use compute_markets.Verifier.Settle.{
  Outcome, find_verification, put_verification, submit, submit_or_recover, verification_row,
  settle_new, settle, verify_bundle,
}
use compute_markets.Verifier.Bundles.Actions.{books}
use compute_markets.Verifier.Daemon.{Feed, daemon_pass}
use compute_markets.Verifier.Daemon.Final.{daemon_pass-keeps_row}
use compute_markets.Verifier.Bundles.Settled.{Settled}
use compute_markets.Verifier.Bundles.Decided.{verify_bundle-Settled}
use compute_markets.Verifier.Bundles.Backed.{Backed}
use compute_markets.Samples.{
  sample_libraries, sample_spec, sample_hash, sample_key, sample_envelope, sample_evidence,
  sample-IsValid, sample-IsConsistent,
}
use compute_markets.JobSpec.Parse.RoundTrip.{parse-job_spec_json}

abbrev chain_job : ChainJob
chain_job = record {
  state = 8;
  verifier = "verifier";
  provider = sample_key;
  machine = sample_key;
  worker = sample_key;
  spec_hash = sample_hash;
  policy = 1;
  started_at = pos 98;
  submitted_at = pos 161;
  receipt_hash = sample_hash;
}

abbrev services : Services
services = record {
  verifier_keypair = some "keys/verifier.json";
  signer = "verifier";
  public_key = λ s. ok s;
  job_account = λ job. ok (some chain_job);
  machine_hardware_hash = λ machine. ok sample_hash;
  worker_authorization = λ provider worker. ok (record { active = true; expires_at = 1000 });
  genesis_hash = ok "devnet";
  program_id = sample_key;
  now_ms = 200000;
  upload = λ path. ok ((path, "https://storage"));
  send_verification = λ s. ok "signature";
  confirm = λ s. ok tt;
  reconcile = λ jobs. ok (sample_key ∷ []);
}

abbrev bundle : Bundle
bundle = record {
  spec = job_spec_json sample_spec;
  envelope = sample_envelope;
  stdout = "";
  stderr = "";
  result = "";
  telemetry = sample_evidence.telemetry;
  hardware = obj end;
}

abbrev empty_world : World
empty_world = record {
  challenges = [];
  replicas = [];
  groups = [];
  verifications = [];
  jobs = [];
  receipts = [];
  submissions = [];
}

abbrev checked : Checked
checked = record {
  spec = sample_spec;
  job = sample_key;
  chain_job = chain_job;
  decision = verdict_of sample_spec [];
}

spec_parsed : parse (job_spec_json sample_spec) ≡ ok sample_spec
spec_parsed = parse-job_spec_json sample_spec sample-IsValid sample-IsConsistent

evidence_checked : check_evidence sample_libraries services bundle ≡ ok checked
unfolding check_evidence is_assigned assignment_of evidence_of policy_from_code verify_receipt
    commitments_of receipt_checks telemetry_checks evidence_checks timing_checks identity_checks
    assignment_checks verdict_of telemetry_json canonical sha256 commitment verify_payload
    decode_key receipt_json parse_receipt is_hash is_digest policy_code decimal ◌-ℤ◌ sample_envelope
evidence_checked = rw spec_parsed refl

abbrev row : VerificationRow
row = record {
  job_id = sample_key;
  receipt_hash = sample_hash;
  verifier = "verifier";
  passed = true;
  assurance = "VERIFY_1";
  failures = [];
  tx_signature = some "signature";
}

abbrev outcome : Outcome
outcome = record {
  decision = verdict_of sample_spec [];
  signature = some "signature";
  recovered = false;
  already_recorded = false;
}

abbrev final_world : World
final_world = record {
  challenges = [];
  replicas = [];
  groups = [];
  verifications = row ∷ [];
  jobs = sample_key ∷ [];
  receipts =
      record {
        job_id = sample_key;
        receipt_hash = sample_hash;
        storage_key = stored_path sample_key sample_hash;
        storage_url = "https://storage";
      }
      ∷ [];
  submissions = record { job = sample_key; receipt_hash = sample_hash; passed = true } ∷ [];
}

bundle_verified :
    verify_bundle sample_libraries services bundle empty_world ≡ (ok outcome, final_world)
unfolding verify_bundle ◌>>=◌ decide settle settle_new submit_or_recover submit verification_row
    find_verification put_verification verdict_of store_receipt find_receipt canonical sha256
    commitment sample_envelope receipt_json
bundle_verified = rw evidence_checked refl

verify_bundle-Settled_example :
    (c : Checked) × (check_evidence sample_libraries services bundle ≡ ok c)
    × Settled sample_libraries services bundle c (books empty_world) final_world outcome
verify_bundle-Settled_example =
    verify_bundle-Settled sample_libraries services bundle empty_world final_world outcome
      bundle_verified

abbrev feed : Feed
feed = record {
  jobs = ok (record { id = sample_key; spec_hash = sample_hash; state = "VERIFYING" } ∷ []);
  receipt = λ job. ok (some (sample_envelope, "key"));
  spec = λ hash. ok (some (job_spec_json sample_spec));
  download = λ key. ok (record {
    stdout = "";
    stderr = "";
    result = "";
    telemetry = sample_evidence.telemetry;
    hardware = obj end;
  });
}

row_there : find_verification sample_key final_world.verifications ≡ some row
unfolding find_verification
row_there = refl

daemon_pass-keeps_row_example :
    find_verification sample_key
      (daemon_pass sample_libraries services feed final_world).1.verifications
    ≡ some row
daemon_pass-keeps_row_example =
    daemon_pass-keeps_row sample_libraries services feed final_world sample_key row row_there
