-- ===== src/Indexer.antt =====
-- apps/indexer/src/indexer.ts: the program's accounts as the decoder gives them, and the database
-- that they are projected into. A key is its base 58 text, a `BN` amount a natural number, a time an
-- integer, a hash its bytes.
pub mod Rows
pub mod Tables
pub mod Reconcile
pub mod Prices
pub mod History
use compute_markets.Prelude.{ℕ, String, Bool, List, Option, Result}
use compute_markets.Prelude.Int.{ℤ}
use compute_markets.Json.{Json, Fields}

abbrev pub Bytes : Type 0
Bytes = List ℕ

pub record ProviderAccount : Type 0 where
  pub authority : String
  pub metadata_hash : Bytes
  pub active : Bool
  pub completed : ℕ
  pub failed : ℕ

pub record StakeAccount : Type 0 where
  pub provider : String
  pub mint : String
  pub deposited : ℕ
  pub pending_withdrawal : ℕ
  pub unlock_at : ℤ
  pub total_slashed : ℕ

pub record AgentPolicyAccount : Type 0 where
  pub owner : String
  pub agent : String
  pub mint : String
  pub daily_spend_limit : ℕ
  pub single_job_limit : ℕ
  pub max_runtime_seconds : ℕ
  pub required_verification : ℕ
  pub allowed_specs_root : Bytes
  pub expires_at : ℤ
  pub day_index : ℤ
  pub daily_spent : ℕ
  pub active : Bool

pub record WorkerAccount : Type 0 where
  pub provider : String
  pub worker : String
  pub active : Bool
  pub expires_at : ℤ

pub record MachineAccount : Type 0 where
  pub provider : String
  pub worker : String
  pub hardware_hash : Bytes
  pub gpu_count : ℕ
  pub vram_mb : ℕ
  pub active : Bool
  pub busy : Bool
  pub completed : ℕ
  pub failed : ℕ

pub record OfferAccount : Type 0 where
  pub machine : String
  pub rate : ℕ
  pub min_seconds : ℕ
  pub max_seconds : ℕ
  pub expires_at : ℤ
  pub active : Bool

pub record JobAccount : Type 0 where
  pub buyer : String
  pub spec_hash : Bytes
  pub mint : String
  pub state : ℕ
  pub budget : ℕ
  pub deposit : ℕ
  pub price : ℕ
  pub provider : String
  pub machine : String
  pub worker : String
  pub receipt_hash : Bytes
  pub provider_paid : ℕ
  pub fee_paid : ℕ
  pub refunded : ℕ
  pub settled : Bool
  pub deadline : ℤ
  pub started_at : ℤ
  pub submitted_at : ℤ
  pub verified_at : ℤ
  pub timeout : ℕ
  pub policy : ℕ

pub record BidAccount : Type 0 where
  pub job : String
  pub provider : String
  pub machine : String
  pub worker : String
  pub price : ℕ
  pub estimated_start : ℤ
  pub expires_at : ℤ
  pub active : Bool

-- A decoded account by its kind, which is the name that `project` switches on.
pub data Account : Type 0 where
  provider_account : ProviderAccount → Account
  stake_account : StakeAccount → Account
  policy_account : AgentPolicyAccount → Account
  worker_account : WorkerAccount → Account
  machine_account : MachineAccount → Account
  offer_account : OfferAccount → Account
  job_account : JobAccount → Account
  bid_account : BidAccount → Account
  -- of a kind that has no table
  other_account : Account

-- A row for a table; `columns` are all but the id and the slot.
pub record Row : Type 0 where
  pub table : String
  pub id : String
  pub slot : ℕ
  pub columns : Fields

-- An account in the answer of `getProgramAccounts`.
pub record ProgramAccount : Type 0 where
  pub pubkey : String
  pub content : Bytes

pub record Snapshot : Type 0 where
  pub slot : ℕ
  pub accounts : List ProgramAccount

-- A transaction of the program, as the list of signatures gives it.
pub record Transaction : Type 0 where
  pub signature : String
  pub slot : ℕ
  -- `JSON.stringify(tx.err)`
  pub failure : Option String

pub record FetchedTransaction : Type 0 where
  pub block_time : Option ℕ
  pub events : Result (List (String × Json))

pub record ChainEvent : Type 0 where
  pub signature : String
  pub slot : ℕ
  pub processed : Bool
  pub error : Option String
  pub block_time : Option ℕ
  pub event_name : Option String
  pub event_data : List (String × Json)

-- A row of the cursors' table: what is left out is null.
pub record Cursor : Type 0 where
  pub id : String
  pub slot : ℕ
  pub signature : Option String

pub record OfferRow : Type 0 where
  pub id : String
  pub machine_id : String
  pub rate : String

pub record MachineRow : Type 0 where
  pub id : String
  pub gpu_model : String
  pub region : String
  pub hardware_hash : String
  pub active : Bool
  pub busy : Bool

pub record HeartbeatRow : Type 0 where
  pub machine_id : String
  pub timestamp : ℤ
  pub available_gpu_count : ℕ

-- `gpu` lists the models of the report's devices, where the report has any such list.
pub record ReportRow : Type 0 where
  pub hash : String
  pub gpu : Option (List String)

-- The answers of the four queries; the offers are the active ones.
pub record Market : Type 0 where
  pub offers : List OfferRow
  pub machines : List MachineRow
  pub heartbeats : List HeartbeatRow
  pub reports : List ReportRow

-- `recorded_at` is in milliseconds.
pub record PriceRow : Type 0 where
  pub offer_id : String
  pub gpu_model : String
  pub region : String
  pub rate : String
  pub available : Bool
  pub recorded_at : ℕ

-- The tables; the eight projections are one list whose rows name their table. `running` and `dirty`
-- are the indexer's own.
pub record Database : Type 0 where
  pub rows : List Row
  pub events : List ChainEvent
  pub cursors : List Cursor
  pub prices : List PriceRow
  pub running : Bool
  pub dirty : Bool
