-- ===== src/Provider.antt =====
-- agents/provider-node/cli.ts: the commands `execute` and `recover` of a worker, over the interface
-- of executors/backend.ts. The executors, the chain, the marketplace's API, the clock and random
-- values are arguments.

pub mod Challenge
pub mod Bundle
pub mod Execute
pub mod Honest
pub mod Accepted
use Prim.Native.String.{◌++◌ as text_append}
use compute_markets.Prelude.{
  ℕ, suc, String, Bool, true, false, not, ◌||◌, List, [], ◌∷◌, ◌++◌, Option, none, some, Result, ok,
  err, require, str_eq, if◌then◌else◌, ◌>>=◌,
}
use compute_markets.Prelude.Int.{ℤ}
use compute_markets.Prelude.Actions.{Exec}
use compute_markets.Json.{Json, Fields}
use compute_markets.JobSpec.{ComputeJobSpec}
use compute_markets.JobSpec.Refine.{is_some}
use compute_markets.Journal.{JournalState, Journal, Files, record_journal}
use compute_markets.MockBackend.{ExecutionResult, new_mock_backend}

-- `ExecutionBackend`, over the executor's own state; a backend need not be able to recover.
pub record Backend (S : Type 0) : Type 0 where
  pub prepare : String → ComputeJobSpec → List String → Exec S (Unit {0})
  pub start : String → Exec S (Unit {0})
  pub recover : Option (String → ComputeJobSpec → List String → Exec S (Unit {0}))
  pub collect_result : String → Exec S ExecutionResult
  pub cleanup : String → Exec S (Unit {0})

pub data ExecutorKind : Type 0 where
  mock ray vllm docker : ExecutorKind

pub data Command : Type 0 where
  execute recover : Command

-- What the code reads of the decoded accounts.
pub record WorkerJob : Type 0 where
  pub worker : String
  pub provider : String
  pub machine : String
  pub spec_hash : String
  pub state : ℕ

pub record Authorization : Type 0 where
  pub active : Bool
  pub expires_at : ℕ

-- The transactions that a worker hands to the network: `startJob`, and `submitReceipt` with the receipt's hash.
pub data Sent : Type 0 where
  started : String → Sent
  submitted : String → String → Sent

-- The journal's files, the executor's state, the transactions handed to the network, and how often the clock
-- and the generator of identifiers were read.
pub record World (S : Type 0) : Type 0 where
  pub files : Files
  pub executor : S
  pub sent : List Sent
  pub readings : ℕ

pub record Services (S : Type 0) : Type 0 where
  pub environment : String → Option String
  pub backends : ExecutorKind → Backend S
  -- the signer's public key, and the bytes of its private key
  pub worker : String
  pub key : List ℕ
  pub process_id : String
  pub job_account : String → Result WorkerJob
  pub machine_hardware_hash : String → Result String
  pub authorization : String → Result Authorization
  pub genesis_hash : Result String
  pub program_id : String
  -- sending a transaction; the signature
  pub send : Sent → Result String
  pub confirm : String → Result (Unit {0})
  -- the three requests to the API, with the text of a response that is not ok as the error
  pub upload : String → Json → Result (Unit {0})
  pub request_challenge : String → Json × String → Result Json
  pub send_response : String → Json × String → Result Json
  pub to_base64 : List ℕ → String
  -- the n-th reading: in milliseconds, as a text, and as an identifier
  pub now_ms : ℕ → ℕ
  pub now_text : ℕ → String
  pub uuid : ℕ → String

module _ {S : Type 0} where
  abbrev on_executor : {A : Type 0} → World S → Result A × S → Result A × World S
  on_executor w (r, s) = (r, record w { executor = s })

  -- A call of the executor.
  abbrev pub with_executor : {A : Type 0} → Exec S A → Exec (World S) A
  with_executor m w = on_executor w (m w.executor)

  -- `.catch(() => {})`.
  abbrev pub ignoring_errors : Exec (World S) (Unit {0}) → Exec (World S) (Unit {0})
  ignoring_errors m w = (ok tt, (m w).1)

  -- A reading of the clock or of an identifier.
  abbrev pub read : {A : Type 0} → (ℕ → A) → Exec (World S) A
  read values w = (ok (values w.readings), record w { readings = suc w.readings })

  abbrev pub journaled : World S → Result (Journal × Files) → Result (Unit {0}) × World S
  journaled w (ok (journal, files)) = (ok tt, record w { files = files })
  journaled w (err e) = (err e, w)

  module _ (services : Services S) where
    -- A transaction whose sending throws may still land, so it counts as sent.
    abbrev pub send : Sent → Exec (World S) String
    send message w = (services.send message, record w { sent = w.sent ++ message ∷ [] })

    -- `recordJournal`, which reads the clock.
    unfoldable pub note : String → JournalState → Fields → Exec (World S) (Unit {0})
    note job state content w =
        let at = services.now_text w.readings in
        journaled (record w { readings = suc w.readings })
          (record_journal services.process_id at job state content w.files)

-- `ociRuntime` of executors/docker/index.ts.
unfoldable pub oci_runtime : Option String → Result String
oci_runtime none = ok "runc"
oci_runtime (some value) =
    if str_eq value "runc" || str_eq value "runsc"
    then ok value
    else err (text_append "Unsupported OCI runtime: " value)

abbrev is_set : Option String → Bool
is_set none = false
is_set (some s) = not (str_eq s "")

abbrev is_text : String → Option String → Bool
is_text s none = false
is_text s (some t) = str_eq t s

unfoldable pub select_executor : (String → Option String) → ComputeJobSpec → Result ExecutorKind
select_executor environment spec =
    if is_text "true" (environment "MOCK_EXECUTOR")
    then (do jobs ← new_mock_backend environment; ok mock)
    else if is_some spec.distributed
    then (do
      address ←
          require (is_set (environment "RAY_JOBS_ADDRESS"))
            "RAY_JOBS_ADDRESS is required for distributed jobs"
      ok ray)
    else (do
      runtime ← oci_runtime (environment "OCI_RUNTIME")
      ok (if is_some spec.service then vllm else docker))
