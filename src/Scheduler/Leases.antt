-- ===== src/Scheduler/Leases.antt =====
-- The table `scheduler_leases` of migrations/20260911120000_v2-orchestration.sql with its two
-- functions, as apps/scheduler/src/insforge-leases.ts calls them. Times are microseconds. The
-- column `updated_at`, which nothing reads, is left out.
pub mod Fencing
use compute_markets.Prelude.{
  ℕ, suc, ◌+◌, ◌*◌, String, Bool, true, false, not, ◌&&◌, ◌||◌, List, [], ◌∷◌, Option, none, some,
  Result, ok, err, ltb, leb, ◌==◌, str_eq, length, is_empty, find, if◌then◌else◌,
}
use compute_markets.Prelude.Text.{codes}

-- A row, and what the store returns of it.
pub record LeaseRecord : Type 0 where
  pub lease : String
  pub owner : String
  pub fencing_token : ℕ
  pub expires_at : ℕ

abbrev pub Table : Type 0
Table = List LeaseRecord

unfoldable pub find_row : String → Table → Option LeaseRecord
find_row lease [] = none
find_row lease (row ∷ rows) =
    let rest = find_row lease rows in if str_eq row.lease lease then some row else rest

-- The primary key keeps one row for a lease.
unfoldable pub put_row : LeaseRecord → Table → Table
put_row row [] = row ∷ []
put_row row (r ∷ rows) =
    let rest = put_row row rows in if str_eq r.lease row.lease then row ∷ rows else r ∷ rest

abbrev expiry : ℕ → ℕ → ℕ
expiry now ttl_seconds = now + ttl_seconds * 1000000

-- `INSERT … ON CONFLICT(lease) DO UPDATE … WHERE …`: the row afterwards, or none where the
-- condition keeps the old row.
unfoldable pub claimed_row : ℕ → String → String → ℕ → Option LeaseRecord → Option LeaseRecord
claimed_row now lease owner ttl_seconds none = some (record {
  lease = lease;
  owner = owner;
  fencing_token = 1;
  expires_at = expiry now ttl_seconds;
})
claimed_row now lease owner ttl_seconds (some row) =
    if str_eq row.owner owner || ltb row.expires_at now
    then some (record {
      lease = row.lease;
      owner = owner;
      fencing_token = if str_eq row.owner owner then row.fencing_token else suc row.fencing_token;
      expires_at = expiry now ttl_seconds;
    })
    else none

abbrev pub is_claim : String → ℕ → Bool
is_claim lease ttl_seconds =
    leb 1 (length (codes lease))
    && leb (length (codes lease)) 100
    && leb 3 ttl_seconds
    && leb ttl_seconds 300

abbrev pub stored : Table → Option LeaseRecord → Option LeaseRecord × Table
stored table none = (none, table)
stored table (some row) = (some row, put_row row table)

-- `claim_scheduler_lease`, behind the store's `claim`.
unfoldable pub claim : Table → ℕ → String → String → ℕ → Result (Option LeaseRecord × Table)
claim table now lease owner ttl_seconds =
    if is_claim lease ttl_seconds
    then ok (stored table (claimed_row now lease owner ttl_seconds (find_row lease table)))
    else err "Invalid scheduler lease"

abbrev is_row : String → String → ℕ → LeaseRecord → Bool
is_row lease owner token row =
    str_eq row.lease lease && str_eq row.owner owner && (row.fencing_token == token)

-- `release_scheduler_lease`, behind the store's `release`.
unfoldable pub delete_row : String → String → ℕ → Table → Bool × Table
delete_row lease owner token [] = (false, [])
delete_row lease owner token (row ∷ rows) =
    let rest = delete_row lease owner token rows in
    if is_row lease owner token row then (true, rest.1) else (rest.0, row ∷ rest.1)
