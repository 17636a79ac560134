-- ===== src/MockBackend.antt =====
-- executors/mock/index.ts and the result type of executors/backend.ts. The environment and the
-- clock, in whole seconds, are arguments; a call passes the map of jobs on.
pub mod Laws
use compute_markets.Prelude.{
  ℕ, String, Bool, true, false, not, ◌&&◌, ◌||◌, List, [], ◌∷◌, Option, none, some, Result, ok, err,
  str_eq, ◌>>=◌, require, if◌then◌else◌,
}
use compute_markets.Prelude.Int.{ℤ, pos}
use compute_markets.Prelude.Text.{codes}
use compute_markets.JobSpec.{ComputeJobSpec}
use compute_markets.Verification.Receipt.{Telemetry}

pub record ExecutionResult : Type 0 where
  pub stdout : List ℕ
  pub stderr : List ℕ
  pub result : List ℕ
  pub exit_code : ℤ
  pub started_at : ℕ
  pub finished_at : ℕ
  pub gpu_uuids : List String
  pub actual_digest : String
  pub telemetry : Telemetry

pub record MockJob : Type 0 where
  pub spec : ComputeJobSpec
  pub gpu_uuids : List String
  pub started_at : ℕ

abbrev pub Jobs : Type 0
Jobs = List (String × MockJob)

abbrev is_text : String → Option String → Bool
is_text s none = false
is_text s (some t) = str_eq t s

-- The constructor: the empty map, in development only.
unfoldable pub new_mock_backend : (String → Option String) → Result Jobs
new_mock_backend environment = do
  allowed ←
      require
        (is_text "true" (environment "MOCK_EXECUTOR")
          && not (is_text "production" (environment "NODE_ENV")))
        "Mock execution requires explicit development MOCK_EXECUTOR=true"
  ok []

unfoldable pub find_job : String → Jobs → Option MockJob
find_job job [] = none
find_job job ((k, s) ∷ jobs) = let rest = find_job job jobs in if str_eq k job then some s else rest

abbrev job_or_throw : Option MockJob → Result MockJob
job_or_throw none = err "Unknown job"
job_or_throw (some s) = ok s

unfoldable pub get_job : String → Jobs → Result MockJob
get_job job jobs = job_or_throw (find_job job jobs)

unfoldable pub set_job : String → MockJob → Jobs → Jobs
set_job job s [] = (job, s) ∷ []
set_job job s ((k, t) ∷ jobs) =
    let rest = set_job job s jobs in if str_eq k job then (k, s) ∷ jobs else (k, t) ∷ rest

unfoldable pub prepare : ℕ → String → ComputeJobSpec → List String → Jobs → Jobs
prepare now job spec gpu_uuids jobs =
    set_job job (record { spec = spec; gpu_uuids = gpu_uuids; started_at = now }) jobs

unfoldable pub start_job : ℕ → String → Jobs → Result Jobs
start_job now job jobs = do
  s ← get_job job jobs
  ok (set_job job (record s { started_at = now }) jobs)

abbrev pub mock_output : List ℕ
mock_output = codes "Explicit development mock execution\n"

unfoldable pub logs : String → Jobs → Result (List ℕ × List ℕ)
logs job jobs = do s ← get_job job jobs; ok ((mock_output, []))

-- Always finished, whatever the job.
unfoldable pub status : String → Jobs → String
status job jobs = "finished"

unfoldable pub stop : String → Jobs → Jobs
stop job jobs = jobs

abbrev pub mock_result : MockJob → List ℕ × List ℕ → ExecutionResult
mock_result s output = record {
  stdout = output.0;
  stderr = output.1;
  result = output.0;
  exit_code = pos 0;
  started_at = s.started_at;
  finished_at = s.started_at;
  gpu_uuids = s.gpu_uuids;
  actual_digest = s.spec.image.digest;
  telemetry = record {
    gpu_uuids = s.gpu_uuids;
    samples = pos 1;
    peak_vram_mb = pos 0;
    duration_seconds = pos 0;
  };
}

unfoldable pub collect_result : String → Jobs → Result ExecutionResult
collect_result job jobs = do s ← get_job job jobs; output ← logs job jobs; ok (mock_result s output)

unfoldable pub cleanup : String → Jobs → Jobs
cleanup job [] = []
cleanup job ((k, s) ∷ jobs) =
    let rest = cleanup job jobs in if str_eq k job then rest else (k, s) ∷ rest
