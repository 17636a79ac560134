-- ===== src/Indexer/Rows.antt =====
-- `project` of apps/indexer/src/indexer.ts: the row of an account. `now` is the time's text. The job
-- states are those of packages/types/index.ts.
use compute_markets.Prelude.{
  ℕ, zero, String, List, [], ◌∷◌, ◌++◌, Option, none, some, Result, ok, str_eq, get_elem?, ◌>>=◌,
  if◌then◌else◌,
}
use compute_markets.Prelude.Int.{ℤ, pos}
use compute_markets.Prelude.Text.{decimal}
use compute_markets.Prelude.Hex.{to_hex}
use compute_markets.Json.{Json, null, bool, num, str, Fields, end, field}
use compute_markets.Policies.{VerificationPolicy, policy_name, policy_from_code}
use compute_markets.Indexer.{
  ProviderAccount, StakeAccount, AgentPolicyAccount, WorkerAccount, MachineAccount, OfferAccount,
  JobAccount, BidAccount, Account, provider_account, stake_account, policy_account, worker_account,
  machine_account, offer_account, job_account, bid_account, other_account, Row,
}

abbrev pub job_states : List String
job_states =
    "CREATED" ∷ "FUNDED" ∷ "OPEN" ∷ "MATCHED" ∷ "ASSIGNED" ∷ "STARTING" ∷ "RUNNING"
    ∷ "RESULT_SUBMITTED" ∷ "VERIFYING" ∷ "COMPLETED" ∷ "CANCELLED" ∷ "EXPIRED" ∷ "FAILED"
    ∷ "DISPUTED" ∷ "REFUNDED" ∷ []

abbrev pub zero_key : String
zero_key = "11111111111111111111111111111111"

abbrev pub columns_of : List (String × Json) → Fields
columns_of [] = end
columns_of ((key, value) ∷ rest) = field key value (columns_of rest)

-- `value.toString()` of a `BN`.
abbrev amount : ℕ → Json
amount n = str (decimal n)

abbrev natural : ℕ → Json
natural n = num (pos n)

-- `asKey(value) === zero ? null : asKey(value)`.
abbrev key_or_null : String → Json
key_or_null key = if str_eq key zero_key then null else str key

-- `Number(value) || null`.
abbrev time_or_null : ℤ → Json
time_or_null (pos zero) = null
time_or_null t = num t

-- `state: jobStates[a.state]`; the property is undefined, and so not sent, past the last state.
abbrev state_column : Option String → List (String × Json)
state_column none = []
state_column (some state) = ("state", str state) ∷ []

unfoldable pub provider_columns : String → ProviderAccount → List (String × Json)
provider_columns now a =
    ("authority", str a.authority)
    ∷ ("metadata_hash", str (to_hex a.metadata_hash))
    ∷ ("active", bool a.active)
    ∷ ("completed", amount a.completed)
    ∷ ("failed", amount a.failed)
    ∷ ("name", str "Independent provider")
    ∷ ("updated_at", str now)
    ∷ []

unfoldable pub stake_columns : StakeAccount → List (String × Json)
stake_columns a =
    ("provider_id", str a.provider)
    ∷ ("mint", str a.mint)
    ∷ ("deposited", amount a.deposited)
    ∷ ("pending_withdrawal", amount a.pending_withdrawal)
    ∷ ("unlock_at", num a.unlock_at)
    ∷ ("total_slashed", amount a.total_slashed)
    ∷ []

unfoldable pub policy_columns : AgentPolicyAccount → List (String × Json)
policy_columns a =
    ("owner_wallet", str a.owner)
    ∷ ("agent", str a.agent)
    ∷ ("mint", str a.mint)
    ∷ ("daily_spend_limit", amount a.daily_spend_limit)
    ∷ ("single_job_limit", amount a.single_job_limit)
    ∷ ("max_runtime_seconds", natural a.max_runtime_seconds)
    ∷ ("required_verification", natural a.required_verification)
    ∷ ("allowed_specs_root", str (to_hex a.allowed_specs_root))
    ∷ ("expires_at", num a.expires_at)
    ∷ ("day_index", num a.day_index)
    ∷ ("daily_spent", amount a.daily_spent)
    ∷ ("active", bool a.active)
    ∷ []

unfoldable pub worker_columns : WorkerAccount → List (String × Json)
worker_columns a =
    ("provider_id", str a.provider)
    ∷ ("worker", str a.worker)
    ∷ ("active", bool a.active)
    ∷ ("expires_at", num a.expires_at)
    ∷ []

unfoldable pub machine_columns : String → MachineAccount → List (String × Json)
machine_columns now a =
    ("provider_id", str a.provider)
    ∷ ("worker", str a.worker)
    ∷ ("hardware_hash", str (to_hex a.hardware_hash))
    ∷ ("gpu_model", str "Undisclosed")
    ∷ ("region", str "Undisclosed")
    ∷ ("trust_level", str "CLAIMED")
    ∷ ("gpu_count", natural a.gpu_count)
    ∷ ("vram_mb", natural a.vram_mb)
    ∷ ("active", bool a.active)
    ∷ ("busy", bool a.busy)
    ∷ ("completed", amount a.completed)
    ∷ ("failed", amount a.failed)
    ∷ ("updated_at", str now)
    ∷ []

unfoldable pub offer_columns : OfferAccount → List (String × Json)
offer_columns a =
    ("machine_id", str a.machine)
    ∷ ("rate_base_units_per_second", amount a.rate)
    ∷ ("min_seconds", natural a.min_seconds)
    ∷ ("max_seconds", natural a.max_seconds)
    ∷ ("expires_at", num a.expires_at)
    ∷ ("active", bool a.active)
    ∷ []

unfoldable pub job_columns : String → JobAccount → VerificationPolicy → List (String × Json)
job_columns now a policy =
    ("buyer", str a.buyer)
    ∷ ("spec_hash", str (to_hex a.spec_hash))
    ∷ ("mint", str a.mint)
    ∷ (state_column (get_elem? job_states a.state)
        ++ ("budget", amount a.budget)
          ∷ ("deposit", amount a.deposit)
          ∷ ("price", amount a.price)
          ∷ ("provider_id", key_or_null a.provider)
          ∷ ("machine_id", key_or_null a.machine)
          ∷ ("worker", key_or_null a.worker)
          ∷ ("receipt_hash", str (to_hex a.receipt_hash))
          ∷ ("provider_paid", amount a.provider_paid)
          ∷ ("fee_paid", amount a.fee_paid)
          ∷ ("refunded", amount a.refunded)
          ∷ ("settled", bool a.settled)
          ∷ ("deadline", num a.deadline)
          ∷ ("started_at", time_or_null a.started_at)
          ∷ ("submitted_at", time_or_null a.submitted_at)
          ∷ ("verified_at", time_or_null a.verified_at)
          ∷ ("timeout_seconds", natural a.timeout)
          ∷ ("verification_policy", str (policy_name policy))
          ∷ ("created_at", str now)
          ∷ ("updated_at", str now)
          ∷ [])

unfoldable pub bid_columns : BidAccount → List (String × Json)
bid_columns a =
    ("job_id", str a.job)
    ∷ ("provider_id", str a.provider)
    ∷ ("machine_id", str a.machine)
    ∷ ("worker", str a.worker)
    ∷ ("price", amount a.price)
    ∷ ("estimated_start", num a.estimated_start)
    ∷ ("expires_at", num a.expires_at)
    ∷ ("active", bool a.active)
    ∷ []

module _ (now id : String) (slot : ℕ) where
  abbrev pub row_of : String → List (String × Json) → Option Row
  row_of table columns =
      some (record { table = table; id = id; slot = slot; columns = columns_of columns })

  -- A policy code that stands for no policy throws.
  unfoldable pub project : Account → Result (Option Row)
  project (provider_account a) = ok (row_of "providers" (provider_columns now a))
  project (stake_account a) = ok (row_of "provider_stakes" (stake_columns a))
  project (policy_account a) = ok (row_of "agent_policies" (policy_columns a))
  project (worker_account a) = ok (row_of "workers" (worker_columns a))
  project (machine_account a) = ok (row_of "machines" (machine_columns now a))
  project (offer_account a) = ok (row_of "offers" (offer_columns a))
  project (job_account a) = do
    policy ← policy_from_code a.policy
    ok (row_of "jobs" (job_columns now a policy))
  project (bid_account a) = ok (row_of "bids" (bid_columns a))
  project other_account = ok none
