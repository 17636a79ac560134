-- ===== src/Scheduler/Coordinator.antt =====
-- apps/scheduler/src/coordinator.ts over the lease table. Each call is one step on the coordinator
-- and the table, at the database's time. `ttlSeconds` is a whole number of seconds.
pub mod Laws
use compute_markets.Prelude.{
  ℕ, ◌+◌, ◌*◌, ◌%◌, String, Bool, true, false, not, ◌&&◌, ◌||◌, List, [], ◌∷◌, Option, none, some,
  Result, ok, err, ltb, leb, ◌==◌, str_eq, take, ◌>>=◌, require, if◌then◌else◌,
}
use compute_markets.Prelude.Int.{ℤ, pos, negsuc, Number, whole, other}
use compute_markets.Prelude.Hex.{from_hex}
use compute_markets.Receipts.{Libraries, text, sha256}
use compute_markets.Scheduler.Leases.{LeaseRecord, Table, claim, delete_row}

-- `readUInt32BE(0)`.
abbrev big_endian_value : List ℕ → ℕ → ℕ
big_endian_value [] so_far = so_far
big_endian_value (b ∷ bs) so_far = big_endian_value bs (so_far * 256 + b)

-- `!Number.isInteger(shardCount) || shardCount < 1 || shardCount > 1024`.
unfoldable pub shard_count : Number → Result ℕ
shard_count (whole (pos n)) =
    if ltb n 1 || ltb 1024 n then err "Invalid scheduler shard count" else ok n
shard_count _ = err "Invalid scheduler shard count"

unfoldable pub scheduler_shard : Libraries → String → Number → Result ℕ
scheduler_shard libraries key count = do
  n ← shard_count count
  ok (big_endian_value (take 4 (from_hex (sha256 libraries (text key)))) 0 % n)

pub record SchedulerCoordinator : Type 0 where
  pub owner : String
  pub lease : String
  pub ttl_seconds : ℕ
  pub current : Option LeaseRecord

-- The constructor.
unfoldable pub new_coordinator : String → ℕ → String → Result SchedulerCoordinator
new_coordinator lease ttl_seconds owner =
    if str_eq lease "" || ltb ttl_seconds 3 || ltb 300 ttl_seconds
    then err "Invalid scheduler lease configuration"
    else ok (record { owner = owner; lease = lease; ttl_seconds = ttl_seconds; current = none })

-- What a call gives: its value, the coordinator and the table. A claim that throws leaves both.
abbrev pub Step : Type 0 → Type 0
Step A = Result (A × SchedulerCoordinator × Table)

unfoldable pub acquire : SchedulerCoordinator → Table → ℕ → Step (Option LeaseRecord)
acquire c table now = do
  outcome ← claim table now c.lease c.owner c.ttl_seconds
  ok (outcome.0, record c { current = outcome.0 }, outcome.1)

-- `!next || next.fencingToken !== this.current.fencingToken` loses the lease.
abbrev pub renewed : LeaseRecord → Option LeaseRecord → Option LeaseRecord
renewed held none = none
renewed held (some next) = if next.fencing_token == held.fencing_token then some next else none

abbrev renew_held :
    SchedulerCoordinator → Table → ℕ → Option LeaseRecord → Step (Option LeaseRecord)
renew_held c table now none = ok (none, c, table)
renew_held c table now (some held) = do
  outcome ← claim table now c.lease c.owner c.ttl_seconds
  ok (renewed held outcome.0, record c { current = renewed held outcome.0 }, outcome.1)

unfoldable pub renew : SchedulerCoordinator → Table → ℕ → Step (Option LeaseRecord)
renew c table now = renew_held c table now c.current

abbrev pub is_current : ℕ → Option LeaseRecord → Bool
is_current token none = false
is_current token (some held) = held.fencing_token == token

unfoldable pub assert_leader : SchedulerCoordinator → ℕ → Result (Unit {0})
assert_leader c token = require (is_current token c.current) "Scheduler lease lost"

abbrev released : Table → Option LeaseRecord → Bool × Table
released table none = (false, table)
released table (some held) = delete_row held.lease held.owner held.fencing_token table

unfoldable pub release : SchedulerCoordinator → Table → Bool × SchedulerCoordinator × Table
release c table =
    let outcome = released table c.current in (outcome.0, record c { current = none }, outcome.1)
