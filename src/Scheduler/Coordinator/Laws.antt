-- ===== src/Scheduler/Coordinator/Laws.antt =====
-- Shards, renewal, and what a release does to the tokens.
use compute_markets.Prelude.{
  ℕ, ◌+◌, ◌*◌, ◌%◌, ◌≤◌, ◌<◌, ◌≡◌, refl, sym, subst, String, true, [], ◌∷◌, Option, none, some, ok,
  ok-injective, bind_ok, eq_iff, Option-cases, arith, inl, inr,
}
use compute_markets.Prelude.Int.{pos, Number, whole}
use compute_markets.Receipts.{Libraries}
use compute_markets.Scheduler.Leases.{
  LeaseRecord, Table, find_row, put_row, claimed_row, is_claim, claim, delete_row,
}
use compute_markets.Scheduler.Coordinator.{
  SchedulerCoordinator, shard_count, scheduler_shard, acquire, renewed, renew, release,
}

remainder_lt : (x n : ℕ) → 1 ≤ n → x % n < n
remainder_lt x n h = omega arith

-- A shard is given only for an integer count from 1 to 1024, and is below it.
pub scheduler_shard-lt :
    (libraries : Libraries) (key : String) (count : Number) (shard : ℕ)
    → scheduler_shard libraries key count ≡ ok shard
    → (n : ℕ) × (count ≡ whole (pos n)) × (1 ≤ n) × (n ≤ 1024) × (shard < n)
unfolding scheduler_shard shard_count
scheduler_shard-lt libraries key count shard h = bind_ok (shard_count count) _ h λ n e_n h1.
    let (same, least, most) = counted count n e_n in
    (n, same, least, most, subst (λ s. s < n) (ok-injective h1) (remainder_lt _ n least))
  where
    counted :
        (count : Number) (n : ℕ)
        → shard_count count ≡ ok n
        → (count ≡ whole (pos n)) × (1 ≤ n) × (n ≤ 1024)
    counted count n e = ground arith

renewed_token :
    (held row : LeaseRecord) (next : Option LeaseRecord)
    → renewed held next ≡ some row
    → row.fencing_token ≡ held.fencing_token
renewed_token held row none h = absurd (cc)
renewed_token held row (some r) h = ground arith

-- A renewal that gives a lease gives it with the token held before, and the coordinator holds it;
-- one that gives none leaves the coordinator without a lease.
pub renew-keeps_token :
    (c d : SchedulerCoordinator) (table after : Table) (now : ℕ) (next : Option LeaseRecord)
    → renew c table now ≡ ok (next, d, after)
    → (d.current ≡ next)
      × ((row : LeaseRecord)
          → next ≡ some row
          → (held : LeaseRecord) × (c.current ≡ some held)
            × (row.fencing_token ≡ held.fencing_token))
unfolding renew
renew-keeps_token c d table after now next h = elim (Option-cases c.current) [
  | inl free ↦
      let same = ok-injective (rw free at h) in (cc (same, free), λ row e. absurd (cc (same, e)))
  | inr (held, kept) ↦
      bind_ok (claim table now c.lease c.owner c.ttl_seconds) _ (rw kept at h) λ outcome e_o h1.
        let same = ok-injective h1 in
        (cc same, λ row e. (held, kept, renewed_token held row outcome.0 (cc (same, e))))
]

delete_row-put_row :
    (row : LeaseRecord) (table : Table)
    → find_row row.lease table ≡ none
    → delete_row row.lease row.owner row.fencing_token (put_row row table) ≡ (true, table)
unfolding find_row put_row delete_row
delete_row-put_row row [] h = ground (arith, eq_iff row.lease row.lease, eq_iff row.owner row.owner)
delete_row-put_row row (r ∷ rows) h = ground (
  arith,
  eq_iff row.lease row.lease,
  eq_iff row.owner row.owner,
  eq_iff r.lease row.lease,
  delete_row-put_row row rows,
)

abbrev new_lease : SchedulerCoordinator → ℕ → LeaseRecord
new_lease c now = record {
  lease = c.lease;
  owner = c.owner;
  fencing_token = 1;
  expires_at = now + c.ttl_seconds * 1000000;
}

-- The token of a lease starts again at 1 after a release: of two schedulers that acquire the same
-- free lease one after the other, with a release between, both get the token 1, so a decision that
-- the first stored with its token is not told from one of the second.
pub release-restarts_tokens :
    (a b : SchedulerCoordinator) (table : Table) (now later : ℕ)
    → b.lease ≡ a.lease
    → is_claim a.lease a.ttl_seconds ≡ true
    → is_claim b.lease b.ttl_seconds ≡ true
    → find_row a.lease table ≡ none
    → (first second : LeaseRecord) × (held after : SchedulerCoordinator × Table) × (acquire a table
          now
        ≡ ok (some first, held.0, held.1))
      × (release held.0 held.1 ≡ (true, record a { current = none }, table))
      × (acquire b table later ≡ ok (some second, after.0, after.1))
      × (first.owner ≡ a.owner)
      × (second.owner ≡ b.owner)
      × (first.fencing_token ≡ 1)
      × (second.fencing_token ≡ 1)
unfolding acquire release claim claimed_row
release-restarts_tokens a b table now later same valid_a valid_b free =
    let first = new_lease a now in
    let second = new_lease b later in
    let free_b = subst (λ l. find_row l table ≡ none) (sym same) free in
    (
      first,
      second,
      (record a { current = some first }, put_row first table),
      (record b { current = some second }, put_row second table),
      rw (free, valid_a) refl,
      rw (delete_row-put_row first table free) refl,
      rw (free_b, valid_b) refl,
      refl,
      refl,
      refl,
      refl,
    )
