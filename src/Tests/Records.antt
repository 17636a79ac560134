-- ===== src/Tests/Records.antt =====
-- Stored receipts, journals, mock runs, benchmarks, allowlists, the release report and the policy
-- server's answer.
use compute_markets.Prelude.{
  List, err, str_eq, if◌then◌else◌, ◌≡◌, ◌↔◌, refl, String, true, [], ◌∷◌, some, Result, ok,
}
use compute_markets.Prelude.Int.{pos}
use compute_markets.Prelude.Text.{is_hash, is_digest}
use compute_markets.Json.{Json, bool, num, fraction, str, arr, obj, nil, cons, end, field}
use compute_markets.Receipts.{canonical, sha256, commitment}
use compute_markets.Storage.{ReceiptRow, find_receipt, store_receipt}
use compute_markets.Storage.Laws.{IsStored, store_receipt-IsStored}
use compute_markets.Journal.{
  Journal, Files, running, journal_path, read_file, journal_json, load_journal, record_journal,
  new_journal, replace_file,
}
use compute_markets.Opa.{
  ChildEvent, output_data, error_data, timed_out, closed, answer, handle, enforce_opa,
}
use compute_markets.Opa.Laws.{IsGranted, enforce_opa_iff}
use compute_markets.Journal.Laws.{IsRecorded, record_journal-IsRecorded}
use compute_markets.MockBackend.{Jobs, prepare, start_job}
use compute_markets.MockBackend.Laws.{IsMockRun, start_job-IsMockRun}
use compute_markets.Benchmark.{BenchmarkReport, is_gpu_uuid, parse_gpu, parse_benchmark}
use compute_markets.Samples.{sample_libraries, sample_spec, sample_hash, sample_key, sample_digest}

abbrev upload : String → Result (String × String)
upload path = ok ((path, "https://storage"))

abbrev stored_row : ReceiptRow
stored_row = record {
  job_id = sample_key;
  receipt_hash = sample_hash;
  storage_key =
      "11111111111111111111111111111111/aaaaaaaaaaaaaaaaaaaaaaaaaaaaaaaaaaaaaaaaaaaaaaaaaaaaaaaaaaaaaaaa.json";
  storage_url = "https://storage";
}

receipt_stored :
    store_receipt sample_libraries upload sample_key (obj end) [] ≡ ok (stored_row, stored_row ∷ [])
unfolding store_receipt find_receipt canonical sha256 commitment
receipt_stored = refl

store_receipt-IsStored_example :
    IsStored sample_libraries upload sample_key (obj end) stored_row [] (stored_row ∷ [])
    × (store_receipt sample_libraries upload sample_key (obj end) (stored_row ∷ [])
        ≡ ok (stored_row, stored_row ∷ []))
store_receipt-IsStored_example =
    store_receipt-IsStored sample_libraries upload sample_key (obj end) [] (stored_row ∷ [])
      stored_row receipt_stored

abbrev recorded : Journal
recorded = new_journal "job" running end "2026-01-01" []

abbrev files_after : Files
files_after =
    replace_file "keys/journal/job.json.7.tmp" "keys/journal/job.json" (journal_json recorded) []

journal_recorded : record_journal "7" "2026-01-01" "job" running end [] ≡ ok (recorded, files_after)
unfolding record_journal load_journal read_file journal_path
journal_recorded = refl

record_journal-IsRecorded_example :
    IsRecorded "7" "2026-01-01" "job" running [] recorded files_after
record_journal-IsRecorded_example =
    record_journal-IsRecorded "7" "2026-01-01" "job" running end [] files_after recorded
      journal_recorded

mock_job_runs :
    (started : Jobs) × (start_job 20 "job" (prepare 10 "job" sample_spec ("GPU-1" ∷ []) [])
      ≡ ok started)
    × IsMockRun "job" sample_spec ("GPU-1" ∷ []) 20 started
mock_job_runs = start_job-IsMockRun 10 20 "job" sample_spec ("GPU-1" ∷ []) []

abbrev report_json : Json
report_json = obj (
    field "version" (str "1") (
      field "domain" (str "vericompute:benchmark:v1") (
        field "cluster" (str "devnet") (
          field "program" (str sample_key) (
            field "machineId" (str sample_key) (
              field "worker" (str sample_key) (
                field "hardwareReportHash" (str sample_hash) (
                  field "imageDigest" (str sample_digest) (
                    field "startedAt" (num (pos 10)) (
                      field "finishedAt" (num (pos 70)) (
                        field "cpuSha256MibPerSecond" (fraction "512.5") (
                          field "diskWriteMibPerSecond" (num (pos 900)) (
                            field "gpu"
                              (arr (
                                cons
                                  (obj (
                                    field "uuid" (str "GPU-0a1B-2c")
                                      (field "vramMb" (num (pos 81920)) end)))
                                  nil))
                              (field "nonce" (str "id") end))))))))))))))

abbrev measured : BenchmarkReport
measured = record {
  cluster = "devnet";
  program = sample_key;
  machine_id = sample_key;
  worker = sample_key;
  hardware_report_hash = sample_hash;
  image_digest = sample_digest;
  started_at = 10;
  finished_at = 70;
  cpu_sha256_mib_per_second = fraction "512.5";
  disk_write_mib_per_second = num (pos 900);
  gpu = record { uuid = "GPU-0a1B-2c"; vram_mb = 81920 } ∷ [];
  nonce = "id";
}

report_read : parse_benchmark sample_libraries report_json ≡ ok measured
unfolding parse_benchmark parse_gpu is_gpu_uuid is_hash is_digest
report_read = refl

abbrev opa_document : Json
opa_document = obj (
    field "result"
      (arr (
        cons (obj (field "expressions" (arr (cons (obj (field "value" (bool true) end)) nil)) end))
          nil))
      end)

abbrev opa_events : List ChildEvent
opa_events = error_data "w" ∷ output_data "{" ∷ output_data "}" ∷ closed (some 0) ∷ timed_out ∷ []

-- A parser that knows one text.
abbrev parse_braces : String → Result Json
parse_braces s = if str_eq s "{}" then ok opa_document else err "Unexpected token"

opa_grants : enforce_opa parse_braces opa_events ≡ some (ok tt)
unfolding enforce_opa handle answer
opa_grants = refl

enforce_opa_iff_example :
    (enforce_opa parse_braces opa_events ≡ some (ok tt)) ↔ IsGranted parse_braces "" opa_events
enforce_opa_iff_example = enforce_opa_iff parse_braces opa_events
