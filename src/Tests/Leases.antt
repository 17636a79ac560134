-- ===== src/Tests/Leases.antt =====
-- The lease table and two coordinators.
use compute_markets.Prelude.{
  ℕ, ◌≤◌, ◌<◌, ◌≡◌, refl, String, true, List, [], ◌∷◌, Option, none, some, ok, Ordered,
}
use compute_markets.Prelude.Int.{pos, whole}
use compute_markets.Prelude.Hex.{from_hex}
use compute_markets.Receipts.{sha256}
use compute_markets.Scheduler.Leases.{LeaseRecord, Table, find_row, put_row, claimed_row, claim}
use compute_markets.Scheduler.Leases.Fencing.{ClaimCall, Fences, grants, grants-Ordered}
use compute_markets.Scheduler.Coordinator.{
  SchedulerCoordinator, shard_count, scheduler_shard, acquire, renew, release,
}
use compute_markets.Scheduler.Coordinator.Laws.{
  scheduler_shard-lt, renew-keeps_token, release-restarts_tokens,
}
use compute_markets.Samples.{sample_libraries}

abbrev call_of : ℕ → String → ClaimCall
call_of at owner = record { at = at; lease = "match"; owner = owner; ttl_seconds = 15 }

abbrev calls : List ClaimCall
calls = call_of 0 "a" ∷ call_of 1000000 "b" ∷ call_of 16000000 "b" ∷ call_of 20000000 "b" ∷ []

grants-Ordered_example : Ordered Fences (grants calls [])
grants-Ordered_example = grants-Ordered calls []

abbrev row : String → ℕ → ℕ → LeaseRecord
row owner token expires_at = record {
  lease = "match";
  owner = owner;
  fencing_token = token;
  expires_at = expires_at;
}

abbrev owner_a : String
owner_a = "a"

abbrev refused : Option LeaseRecord × Table
refused = (none, row "a" 1 15000000 ∷ [])

shard_of : scheduler_shard sample_libraries "job" (whole (pos 7)) ≡ ok 2
unfolding scheduler_shard shard_count from_hex sha256
shard_of = refl

scheduler_shard-lt_example :
    (n : ℕ) × (whole (pos 7) ≡ whole (pos n)) × (1 ≤ n) × (n ≤ 1024) × (2 < n)
scheduler_shard-lt_example = scheduler_shard-lt sample_libraries "job" (whole (pos 7)) 2 shard_of

abbrev coordinator : String → Option LeaseRecord → SchedulerCoordinator
coordinator owner current = record {
  owner = owner;
  lease = "match";
  ttl_seconds = 15;
  current = current;
}

abbrev held : Option LeaseRecord
held = some (row "a" 1 15000000)

abbrev extended : Option LeaseRecord
extended = some (row "a" 1 25000000)

renewal :
    renew (coordinator "a" held) (row "a" 1 15000000 ∷ []) 10000000
    ≡ ok (extended, coordinator "a" extended, row "a" 1 25000000 ∷ [])
unfolding renew claim claimed_row find_row put_row
renewal = refl

renew-keeps_token_example :
    (extended ≡ extended)
    × ((r : LeaseRecord)
        → extended ≡ some r
        → (h : LeaseRecord) × (held ≡ some h) × (r.fencing_token ≡ h.fencing_token))
renew-keeps_token_example =
    renew-keeps_token (coordinator "a" held) (coordinator "a" extended) (row "a" 1 15000000 ∷ [])
      (row "a" 1 25000000 ∷ []) 10000000 extended renewal

free_lease : find_row "match" [] ≡ none
unfolding find_row
free_lease = refl

release-restarts_tokens_example :
    (first second : LeaseRecord) × (held_by after : SchedulerCoordinator × Table) × (acquire
        (coordinator "a" none)
        []
        0
      ≡ ok (some first, held_by.0, held_by.1))
    × (release held_by.0 held_by.1 ≡ (true, coordinator "a" none, []))
    × (acquire (coordinator "b" none) [] 5000000 ≡ ok (some second, after.0, after.1))
    × (first.owner ≡ "a")
    × (second.owner ≡ "b")
    × (first.fencing_token ≡ 1)
    × (second.fencing_token ≡ 1)
release-restarts_tokens_example =
    release-restarts_tokens (coordinator "a" none) (coordinator "b" none) [] 0 5000000 refl refl
      refl free_lease
