-- ===== src/Tests/Working.antt =====
-- A worker that executes the sample job, one that sends its receipt again, and one that has a journal
-- already.
use compute_markets.Prelude.{
  ◌≡◌, refl, ℕ, String, true, [], ◌∷◌, none, some, ok, err, str_eq, if◌then◌else◌, ◌⊎◌,
}
use compute_markets.Prelude.Int.{pos}
use compute_markets.Prelude.Actions.{return, After, ◌>>=◌}
use compute_markets.Json.{Json, str, arr, obj, nil, cons, end, field}
use compute_markets.MockBackend.{ExecutionResult, new_mock_backend}
use compute_markets.Receipts.{canonical, sha256, commitment, sign_payload}
use compute_markets.Receipts.Receipt.{receipt_json}
use compute_markets.JobSpec.Encode.{inputs_json, job_spec_json}
use compute_markets.Verification.Receipt.{telemetry_json}
use compute_markets.Journal.{
  running, receipt_committed, failed, read_file, journal_path, evidence_path, journal_json,
  journal_of, load_journal, rename_file, remove_file, write_evidence, read_evidence, new_journal,
  record_journal,
}
use compute_markets.Provider.{
  Backend, mock, execute, recover, started, submitted, World, Services, select_executor, note,
}
use compute_markets.Provider.Challenge.{upload_evidence, payload_of}
use compute_markets.Provider.Bundle.{receipt_hash, assigned_gpus, build_receipt, bundle_json}
use compute_markets.Provider.Execute.{
  Task, is_assigned, is_authorized, check_journal, check_task, attempt, perform, run_command,
  run_job, resume, start_job, collect_evidence, submit_receipt,
}
use compute_markets.Provider.Execute.Submitted.{IsBacked}
use compute_markets.Provider.Execute.Backed.{run_command-IsBacked}
use compute_markets.Provider.Execute.Outcome.{HasState, IsUnwritable, perform-HasState}
use compute_markets.Provider.Execute.Refuse.{IsUntouched, run_command-refuses}
use compute_markets.Samples.{
  sample_libraries, sample_spec, sample_hash, sample_key, sample_digest, sample_evidence,
}

abbrev pub result_of_run : ExecutionResult
result_of_run = record {
  stdout = 1 ∷ [];
  stderr = [];
  result = 1 ∷ [];
  exit_code = pos 0;
  started_at = 100;
  finished_at = 160;
  gpu_uuids = "GPU-1" ∷ [];
  actual_digest = sample_digest;
  telemetry = sample_evidence.telemetry;
}

-- An executor that keeps nothing and takes every call.
abbrev willing : Backend (Unit {0})
willing = record {
  prepare = λ job spec gpus. return tt;
  start = λ job. return tt;
  recover = none;
  collect_result = λ job. return result_of_run;
  cleanup = λ job. return tt;
}

-- The worker on a job in the given state, without an API to upload to.
abbrev pub node : ℕ → Services (Unit {0})
node state = record {
  environment = λ name. if str_eq name "MOCK_EXECUTOR" then some "true" else none;
  backends = λ kind. willing;
  worker = sample_key;
  key = [];
  process_id = "7";
  job_account = λ job. ok (record {
    worker = sample_key;
    provider = sample_key;
    machine = sample_key;
    spec_hash = sample_hash;
    state = state;
  });
  machine_hardware_hash = λ machine. ok sample_hash;
  authorization = λ provider. ok (record { active = true; expires_at = 1000 });
  genesis_hash = ok "devnet";
  program_id = sample_key;
  send = λ message. ok "signature";
  confirm = λ signature. ok tt;
  upload = λ job bundle. ok tt;
  request_challenge = λ job request. err "404";
  send_response = λ job response. err "404";
  to_base64 = λ content. "AQ==";
  now_ms = λ n. 50000;
  now_text = λ n. "2026-01-01";
  uuid = λ n. "id";
}

abbrev pub hardware : Json
hardware = obj (field "gpu" (arr (cons (obj (field "uuid" (str "GPU-1") end)) nil)) end)

abbrev fresh_world : World (Unit {0})
fresh_world = record { files = []; executor = tt; sent = []; readings = 0 }

-- The bundle whose receipt was submitted before the worker stopped.
abbrev saved : Json
saved = obj (field "envelope" (obj (field "payload" (obj end) end)) end)

abbrev interrupted : World (Unit {0})
interrupted = record fresh_world {
  files = (evidence_path "job", saved) ∷ [];
  sent = submitted "job" sample_hash ∷ [];
}

interrupted-IsBacked : IsBacked sample_libraries "job" interrupted
unfolding read_evidence read_file evidence_path receipt_hash payload_of commitment canonical sha256
interrupted-IsBacked = (refl, tt)

run_command-IsBacked_example :
    IsBacked sample_libraries "job"
      (run_command sample_libraries (node 8) recover "job" sample_spec hardware interrupted).1
run_command-IsBacked_example =
    run_command-IsBacked sample_libraries (node 8) recover "job" sample_spec hardware interrupted
      interrupted-IsBacked

abbrev task : Task
task = record {
  command = execute;
  job = "job";
  spec = sample_spec;
  hardware = hardware;
  account = record {
    worker = sample_key;
    provider = sample_key;
    machine = sample_key;
    spec_hash = sample_hash;
    state = 4;
  };
  kind = mock;
  gpus = "GPU-1" ∷ [];
}

perform-HasState_example :
    After
      (λ (_ : Unit {0}). HasState (node 4) "job" receipt_committed)
      (λ w. HasState (node 4) "job" failed w ⊎ IsUnwritable (node 4) "job" w)
      (perform sample_libraries (node 4) task fresh_world)
perform-HasState_example = perform-HasState sample_libraries (node 4) task fresh_world

executed :
    ((run_command sample_libraries (node 4) execute "job" sample_spec hardware fresh_world).0
      ≡ ok tt)
    × ((run_command sample_libraries (node 4) execute "job" sample_spec hardware fresh_world).1.sent
        ≡ started "job" ∷ submitted "job" sample_hash ∷ [])
unfolding run_command check_task is_assigned is_authorized check_journal ◌>>=◌ commitment canonical
    sha256 load_journal read_file select_executor new_mock_backend assigned_gpus perform attempt
    run_job resume start_job note record_journal rename_file inputs_json job_spec_json evidence_path
    journal_json journal_of journal_path read_evidence remove_file write_evidence build_receipt
    bundle_json receipt_hash payload_of upload_evidence collect_evidence submit_receipt receipt_json
    sign_payload telemetry_json
executed = (refl, refl)

abbrev known_world : World (Unit {0})
known_world = record fresh_world {
  files = (journal_path "job", journal_json (new_journal "job" running end "2026-01-01" [])) ∷ [];
}

known :
    load_journal "job" known_world.files ≡ ok (some (new_journal "job" running end "2026-01-01" []))
unfolding load_journal read_file journal_path journal_json journal_of
known = refl

run_command-refuses_example :
    (message : String) × (after : World (Unit {0})) × (run_command sample_libraries
        (node 4)
        execute
        "job"
        sample_spec
        hardware
        known_world
      ≡ (err message, after))
    × IsUntouched known_world after
run_command-refuses_example =
    run_command-refuses sample_libraries (node 4) "job" sample_spec hardware known_world
      (new_journal "job" running end "2026-01-01" []) known
