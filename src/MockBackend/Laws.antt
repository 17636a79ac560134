-- ===== src/MockBackend/Laws.antt =====
-- A job of the mock executor from its preparation to its end.
use compute_markets.Prelude.{
  ℕ, ◌≡◌, refl, String, List, [], ◌∷◌, none, some, ok, err, eq_iff, arith,
}
use compute_markets.Prelude.Int.{pos}
use compute_markets.JobSpec.{ComputeJobSpec}
use compute_markets.MockBackend.{
  ExecutionResult, MockJob, Jobs, find_job, get_job, set_job, prepare, start_job, mock_output,
  mock_result, logs, collect_result, cleanup,
}

find_job-set_job :
    (job : String) (s : MockJob) (jobs : Jobs) → find_job job (set_job job s jobs) ≡ some s
unfolding find_job set_job
find_job-set_job job s [] = ground (arith, eq_iff job job)
find_job-set_job job s ((k, t) ∷ jobs) = ground (arith, eq_iff job job, find_job-set_job job s jobs)

find_job-cleanup : (job : String) (jobs : Jobs) → find_job job (cleanup job jobs) ≡ none
unfolding find_job cleanup
find_job-cleanup job [] = refl
find_job-cleanup job ((k, s) ∷ jobs) = ground (arith, find_job-cleanup job jobs)

-- What a run of the mock executor gives.
pub record IsMockRun (job : String) (spec : ComputeJobSpec) (gpu_uuids : List String) (later : ℕ)
    (running : Jobs) : Type 0 where
  pub outcome : ExecutionResult
  pub collected : collect_result job running ≡ ok outcome
  pub digest : outcome.actual_digest ≡ spec.image.digest
  pub gpus : outcome.telemetry.gpu_uuids ≡ gpu_uuids
  pub succeeded : outcome.exit_code ≡ pos 0
  pub started : outcome.started_at ≡ later
  pub finished : outcome.finished_at ≡ later
  pub gone : collect_result job (cleanup job running) ≡ err "Unknown job"

-- A job that is prepared can be started, whatever the other jobs; its result then has the image
-- digest and the GPUs it was prepared with, exit code 0, and the time of the start as both its
-- times; and after the cleanup the job is unknown.
pub start_job-IsMockRun :
    (now later : ℕ) (job : String) (spec : ComputeJobSpec) (gpu_uuids : List String) (jobs : Jobs)
    → (running : Jobs) × (start_job later job (prepare now job spec gpu_uuids jobs) ≡ ok running)
      × IsMockRun job spec gpu_uuids later running
unfolding prepare start_job get_job collect_result logs
start_job-IsMockRun now later job spec gpu_uuids jobs =
    let prepared = mock_job spec gpu_uuids now in
    let before = set_job job prepared jobs in
    let running = set_job job (mock_job spec gpu_uuids later) before in
    (
      running,
      rw (find_job-set_job job prepared jobs) refl,
      record {
        outcome = mock_result (mock_job spec gpu_uuids later) (mock_output, []);
        collected = rw (find_job-set_job job (mock_job spec gpu_uuids later) before) refl;
        digest = refl;
        gpus = refl;
        succeeded = refl;
        started = refl;
        finished = refl;
        gone = rw (find_job-cleanup job running) refl;
      },
    )
  where
    mock_job : ComputeJobSpec → List String → ℕ → MockJob
    mock_job spec gpu_uuids at = record { spec = spec; gpu_uuids = gpu_uuids; started_at = at }
