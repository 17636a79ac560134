-- ===== src/Provider/Execute.antt =====
-- The commands `execute` and `recover` of agents/provider-node/cli.ts, from the checks of the
-- assignment to the receipt. `spec` is what the schema made of the file.
pub mod Books
pub mod Submitted
pub mod Evidence
pub mod Backed
pub mod Outcome
pub mod Refuse
use Prim.Native.String.{◌++◌ as text_append}
use compute_markets.Prelude.Text.{decimal}
use compute_markets.Prelude.{
  ℕ, ◌*◌, String, Bool, true, false, not, ◌&&◌, ◌==◌, ltb, List, [], ◌∷◌, Option, none, some,
  Result, ok, err, require, and_then, str_eq, chain, if◌then◌else◌,
}
use compute_markets.Prelude.Actions.{Exec, return, throw, call, gets, update, ◌>>=◌}
use compute_markets.Json.{Json, bool, str, Fields, end, field}
use compute_markets.Policies.{VerificationPolicy, challenge}
use compute_markets.JobSpec.{ComputeJobSpec}
use compute_markets.JobSpec.Encode.{job_spec_json}
use compute_markets.Receipts.{Libraries, commitment, sign_payload}
use compute_markets.Receipts.Receipt.{receipt_json}
use compute_markets.Journal.{
  JournalState, preparing, running, evidence_ready, receipt_committed, failed, Journal, Files,
  evidence_path, load_journal, read_evidence, write_evidence,
}
use compute_markets.Provider.{
  Backend, ExecutorKind, Command, execute, recover, WorkerJob, Authorization, Sent, started,
  submitted, World, Services, with_executor, ignoring_errors, read, send, note, select_executor,
}
use compute_markets.Provider.Challenge.{upload_evidence, complete_challenge}
use compute_markets.Provider.Bundle.{assigned_gpus, build_receipt, receipt_hash, bundle_json}

-- What is fixed once the checks have passed.
pub record Task : Type 0 where
  pub command : Command
  pub job : String
  pub spec : ComputeJobSpec
  pub hardware : Json
  pub account : WorkerJob
  pub kind : ExecutorKind
  pub gpus : List String

-- The message of a state that neither command takes.
abbrev pub unrecoverable : ℕ → String
unrecoverable state =
    text_append "Job state " (text_append (decimal state) " is not recoverable by a worker")

abbrev pub is_execute : Command → Bool
is_execute execute = true
is_execute recover = false

abbrev pub is_challenge : VerificationPolicy → Bool
is_challenge challenge = true
is_challenge _ = false

abbrev pub is_some : {A : Type 0} → Option A → Bool
is_some none = false
is_some (some a) = true

module _ {S : Type 0} (libraries : Libraries) (services : Services S) where
  -- `commitment(value) === hash`.
  abbrev pub commits_to : Json → String → Result Bool
  commits_to value hash = chain (λ h. ok (str_eq hash h)) (commitment libraries value)

  -- The condition of the assignment; a part is evaluated if those before it hold.
  unfoldable pub is_assigned : WorkerJob → String → ComputeJobSpec → Json → Result Bool
  is_assigned j hardware_hash spec hardware = and_then (str_eq j.worker services.worker) (
      chain (λ same. and_then same (commits_to hardware hardware_hash))
        (commits_to (job_spec_json spec) j.spec_hash))

  unfoldable pub is_authorized : Authorization → ℕ → Bool
  is_authorized auth now_ms = auth.active && not (ltb (auth.expires_at * 1000) now_ms)

  -- `if (existing && command === "execute") throw …`.
  unfoldable pub check_journal : Command → String → Exec (World S) (Unit {0})
  check_journal command job w = (
    chain
        (λ existing.
          require (not (is_some existing && is_execute command))
            "Execution journal exists. Run recover; duplicate execution refused.")
        (load_journal job w.files),
    w,
  )

  -- All that is checked before the journal is written.
  unfoldable pub check_task : Command → String → ComputeJobSpec → Json → Exec (World S) Task
  check_task command job spec hardware = do
    j ← call (services.job_account job)
    hardware_hash ← call (services.machine_hardware_hash j.machine)
    assigned ← call (is_assigned j hardware_hash spec hardware)
    matches ← call (require assigned "Final assignment or job/hardware commitment mismatch")
    auth ← call (services.authorization j.provider)
    now ← read services.now_ms
    authorized ← call (require (is_authorized auth now) "Worker revoked or expired")
    fresh ← check_journal command job
    kind ← call (select_executor services.environment spec)
    gpus ← call (assigned_gpus spec.resources.gpu.count hardware)
    return (record {
      command = command;
      job = job;
      spec = spec;
      hardware = hardware;
      account = j;
      kind = kind;
      gpus = gpus;
    })

  module _ (t : Task) where
    abbrev pub backend : Backend S
    backend = services.backends t.kind

    abbrev pub cleanup : Exec (World S) (Unit {0})
    cleanup = ignoring_errors (with_executor (backend.cleanup t.job))

    abbrev pub evidence_file : Fields → Fields
    evidence_file rest = field "evidenceFile" (str (evidence_path t.job)) rest

    -- `if (spec.verification.policy === "CHALLENGE") await completeChallenge(…)`.
    abbrev pub challenge_if_asked : Json → Exec (World S) (Unit {0})
    challenge_if_asked bundle =
        if is_challenge t.spec.policy
        then complete_challenge libraries services t.job bundle
        else return tt

    -- The branch of a receipt that is on the chain.
    unfoldable pub upload_again : Option Json → Exec (World S) (Unit {0})
    upload_again none = throw "Receipt is on-chain but local evidence is unavailable"
    upload_again (some bundle) = do
      uploaded ← upload_evidence libraries services t.job bundle
      challenged ← challenge_if_asked bundle
      note services t.job receipt_committed (field "recovered" (bool true) (evidence_file end))

    -- `if (command === "recover") await executor.cleanup(…)`.
    abbrev pub cleanup_if_recovering : Exec (World S) (Unit {0})
    cleanup_if_recovering = if is_execute t.command then return tt else cleanup

    unfoldable pub start_job : Exec (World S) (Unit {0})
    start_job = do
      cleaned ← cleanup_if_recovering
      noted ← note services t.job preparing end
      prepared ← with_executor (backend.prepare t.job t.spec t.gpus)
      tx ← send services (started t.job)
      begun ← with_executor (backend.start t.job)
      note services t.job running end

    abbrev pub recover_with :
        Option (String → ComputeJobSpec → List String → Exec S (Unit {0}))
        → Exec (World S) (Unit {0})
    recover_with none = throw "Configured executor cannot recover running jobs"
    recover_with (some again) = with_executor (again t.job t.spec t.gpus)

    unfoldable pub recover_job : Exec (World S) (Unit {0})
    recover_job = do
      recovered ← recover_with backend.recover
      note services t.job running (field "recovered" (bool true) end)

    -- The three ways to a running or finished execution.
    unfoldable pub resume : Option Json → Exec (World S) (Unit {0})
    resume bundle =
        if t.account.state == 4
        then start_job
        else if (t.account.state == 6) && not (is_some bundle)
        then recover_job
        else if t.account.state == 6
        then return tt
        else throw (unrecoverable t.account.state)

    -- `writeEvidence`.
    abbrev pub save_evidence : Json → Exec (World S) (Unit {0})
    save_evidence bundle =
        update
          (λ w. record w { files = (write_evidence services.process_id t.job bundle w.files).1 })

    -- The evidence as it was read, or that of the finished execution, which is written first.
    unfoldable pub collect_evidence : Option Json → Exec (World S) Json
    collect_evidence (some bundle) = return bundle
    collect_evidence none = do
      result ← with_executor (backend.collect_result t.job)
      cluster ← call services.genesis_hash
      nonce ← read services.uuid
      receipt ← call (
          build_receipt libraries cluster services.program_id t.job t.account services.worker nonce
            t.spec t.hardware result)
      signed ← call (sign_payload libraries (receipt_json receipt) services.key)
      let bundle = bundle_json services.to_base64 signed.0 signed.1 t.spec t.hardware result
      saved ← save_evidence bundle
      hash ← call (commitment libraries (receipt_json receipt))
      noted ←
          note services t.job evidence_ready
            (field "evidenceFile" (str (evidence_path t.job)) (field "receiptHash" (str hash) end))
      return bundle

    unfoldable pub submit_receipt : Json → Exec (World S) (Unit {0})
    submit_receipt bundle = do
      hash ← call (receipt_hash libraries bundle)
      tx ← send services (submitted t.job hash)
      confirmed ← call (services.confirm tx)
      uploaded ← upload_evidence libraries services t.job bundle
      challenged ← challenge_if_asked bundle
      note services t.job receipt_committed (field "tx" (str tx) (evidence_file end))

    unfoldable pub run_job : Option Json → Exec (World S) Bool
    run_job found = do
      resumed ← resume found
      bundle ← collect_evidence found
      done ← submit_receipt bundle
      return true

    abbrev pub upload_only : Option Json → Exec (World S) Bool
    upload_only found = do done ← upload_again found; return false

    -- The `try` block; whether the executor is to be cleaned up. An evidence file holds an object, so it
    -- is one that counts as true.
    unfoldable pub attempt : Exec (World S) Bool
    attempt = do
      found ← gets (λ w. read_evidence t.job w.files)
      if not (is_execute t.command) && (t.account.state == 8)
          then upload_only found
          else run_job found

    -- The `catch` block: the failure is noted and thrown again.
    abbrev pub fail : String → Exec (World S) (Unit {0})
    fail message = do
      noted ←
          note services t.job failed
            (field "message" (str message) (field "recoverable" (bool true) end))
      throw message

    abbrev pub finish : Result Bool × World S → Result (Unit {0}) × World S
    finish (ok clean, w) = if clean then cleanup w else (ok tt, w)
    finish (err message, w) = fail message w

    unfoldable pub perform : Exec (World S) (Unit {0})
    perform w = finish (attempt w)

  unfoldable pub run_command : Command → String → ComputeJobSpec → Json → Exec (World S) (Unit {0})
  run_command command job spec hardware = do t ← check_task command job spec hardware; perform t
