-- ===== src/Verifier/Daemon.antt =====
-- apps/verifier/src/daemon.ts: one pass of its loop over the jobs, between two waits. What it reads
-- of the tables that the verifier does not write is the record `Feed`; the console is left out.
pub mod Final
use compute_markets.Prelude.{
  ℕ, String, Bool, true, false, List, [], ◌∷◌, map, take, filter, includes, Option, none, some,
  Result, ok, err, if◌then◌else◌,
}
use compute_markets.Json.{Json}
use compute_markets.Receipts.{Libraries}
use compute_markets.Receipts.Receipt.{SignedReceipt}
use compute_markets.Verification.Receipt.{Telemetry}
use compute_markets.Verifier.{Bundle, World, Services, Action, return, throw, call, ◌>>=◌}
use compute_markets.Verifier.Settle.{Outcome, verify_bundle}

pub record JobRow : Type 0 where
  pub id : String
  pub spec_hash : String
  pub state : String

-- The evidence file as `JSON.parse` gives it.
pub record EvidenceFile : Type 0 where
  pub stdout : String
  pub stderr : String
  pub result : String
  pub telemetry : Telemetry
  pub hardware : Json

pub record Feed : Type 0 where
  -- the table `jobs`, and of `receipts` the envelope and the storage key of a job
  pub jobs : Result (List JobRow)
  pub receipt : String → Result (Option (SignedReceipt × String))
  -- the first row of `job_specs` with this hash
  pub spec : String → Result (Option Json)
  pub download : String → Result EvidenceFile

abbrev is_open : JobRow → Bool
is_open job = includes ("VERIFYING" ∷ "COMPLETED" ∷ "FAILED" ∷ []) job.state

unfoldable pub open_jobs : List JobRow → List JobRow
open_jobs jobs = take 100 (filter is_open jobs)

unfoldable pub recorded_jobs : World → List String
recorded_jobs w = map (λ v. v.job_id) (take 1000 w.verifications)

abbrev pub bundle_of : SignedReceipt → Json → EvidenceFile → Bundle
bundle_of envelope spec file = record {
  spec = spec;
  envelope = envelope;
  stdout = file.stdout;
  stderr = file.stderr;
  result = file.result;
  telemetry = file.telemetry;
  hardware = file.hardware;
}

-- `catch (e) { console.error(…) }`.
abbrev pub caught : Action (Unit {0}) → Action (Unit {0})
caught m w = (ok tt, (m w).1)

module _ (libraries : Libraries) (services : Services) (feed : Feed) where
  unfoldable pub verify_file : SignedReceipt → Json → String → Action (Unit {0})
  verify_file envelope spec key = do
    file ← call (feed.download key)
    outcome ← verify_bundle libraries services (bundle_of envelope spec file)
    return tt

  abbrev pub with_spec : SignedReceipt → String → Option Json → Action (Unit {0})
  with_spec envelope key none = return tt
  with_spec envelope key (some spec) = verify_file envelope spec key

  abbrev pub with_receipt : JobRow → Option (SignedReceipt × String) → Action (Unit {0})
  with_receipt job none = return tt
  with_receipt job (some (envelope, key)) = do
    spec ← call (feed.spec job.spec_hash)
    with_spec envelope key spec

  unfoldable pub visit : List String → JobRow → Action (Unit {0})
  visit recorded job =
      if includes recorded job.id
      then return tt
      else caught (do receipt ← call (feed.receipt job.id); with_receipt job receipt)

  unfoldable pub visit_all : List String → List JobRow → Action (Unit {0})
  visit_all recorded [] = return tt
  visit_all recorded (job ∷ jobs) = do visited ← visit recorded job; visit_all recorded jobs

  unfoldable pub daemon_pass : Action (Unit {0})
  daemon_pass = caught (do
    jobs ← call feed.jobs
    recorded ← (λ w. (ok (recorded_jobs w), w))
    visit_all recorded (open_jobs jobs))
