-- ===== src/Verifier.antt =====
-- apps/verifier/src/verify.ts: the decision on a job's evidence, and its settlement. Its database
-- and the transactions it sent are the state that is passed on; an exception keeps the writes made
-- before it. The chain, the bucket, the key library and the clock are the record `Services`.
pub mod Evidence
pub mod Decide
pub mod Settle
pub mod Bundles
pub mod Daemon
use compute_markets.Prelude.{ℕ, String, Bool, List, Option, Result, ok, err}
use compute_markets.Prelude.Int.{ℤ}
use compute_markets.Json.{Json}
use compute_markets.Receipts.Receipt.{SignedReceipt}
use compute_markets.Storage.{ReceiptRow}
use compute_markets.Verification.Receipt.{Telemetry, Verdict}

-- The bundle as the provider hands it over; its files are base 64.
pub record Bundle : Type 0 where
  pub spec : Json
  pub envelope : SignedReceipt
  pub stdout : String
  pub stderr : String
  pub result : String
  pub telemetry : Telemetry
  pub hardware : Json

-- What the code reads of the decoded job account; keys are base 58, hashes are hexadecimal.
pub record ChainJob : Type 0 where
  pub state : ℕ
  pub verifier : String
  pub provider : String
  pub machine : String
  pub worker : String
  pub spec_hash : String
  pub policy : ℕ
  pub started_at : ℤ
  pub submitted_at : ℤ
  pub receipt_hash : String

pub record WorkerAuthorization : Type 0 where
  pub active : Bool
  pub expires_at : ℕ

pub record ReplicaRow : Type 0 where
  pub job_id : String
  pub group_id : String
  pub provider_id : Option String
  pub machine_id : Option String
  pub result_hash : Option String
  pub verify_1_passed : Option Bool

pub record GroupRow : Type 0 where
  pub id : String
  pub required_matches : ℕ
  pub state : String
  pub consensus_result_hash : Option String

pub record VerificationRow : Type 0 where
  pub job_id : String
  pub receipt_hash : String
  pub verifier : String
  pub passed : Bool
  pub assurance : String
  pub failures : List String
  pub tx_signature : Option String

-- `submitVerification` of a receipt hash and a decision for a job.
pub record Submission : Type 0 where
  pub job : String
  pub receipt_hash : String
  pub passed : Bool

-- The tables that the verifier reads or writes, `replicas` in the order of their ordinals, and the
-- transactions that it has sent.
pub record World : Type 0 where
  pub challenges : List (String × Option Bool)
  pub replicas : List ReplicaRow
  pub groups : List GroupRow
  pub verifications : List VerificationRow
  pub jobs : List String
  pub receipts : List ReceiptRow
  pub submissions : List Submission

pub record Services : Type 0 where
  -- `process.env.VERIFIER_KEYPAIR`, and the public key of the signer read from it
  pub verifier_keypair : Option String
  pub signer : String
  -- `new PublicKey(text).toBase58()`
  pub public_key : String → Result String
  -- the decoded account, if it is finalized and of the program
  pub job_account : String → Result (Option ChainJob)
  pub machine_hardware_hash : String → Result String
  pub worker_authorization : String → String → Result WorkerAuthorization
  pub genesis_hash : Result String
  pub program_id : String
  -- `Date.now()`
  pub now_ms : ℕ
  pub upload : String → Result (String × String)
  -- sends `submitVerification`; the signature
  pub send_verification : Submission → Result String
  pub confirm : String → Result (Unit {0})
  -- the ids in the table `jobs` after `new Indexer(c).reconcile()`
  pub reconcile : List String → Result (List String)

-- What an `async` function does with the state: it returns or throws, in some state.
abbrev pub Action : Type 0 → Type 0
Action A = World → Result A × World

module _ {A : Type 0} where
  abbrev pub return : A → Action A
  return a w = (ok a, w)

  abbrev pub throw : String → Action A
  throw e w = (err e, w)

  -- A call that does not change the state.
  abbrev pub call : Result A → Action A
  call r w = (r, w)

-- What was thrown, or what comes next in the state so far.
abbrev pub continue {ℓ} :
    {A : Type 0} {B : Type ℓ} → Result A × World → (A → World → Result B × World) → Result B × World
continue (ok a, w) f = f a w
continue (err e, w) f = (err e, w)

infixl 5 ◌>>=◌
unfoldable pub ◌>>=◌ : {A B : Type 0} → Action A → (A → Action B) → Action B
(m >>= f) w = continue (m w) f

-- A write.
abbrev pub update : (World → World) → Action (Unit {0})
update f w = (ok tt, f w)
