-- ===== src/Verification/Redundancy.antt =====
-- packages/verification/redundancy.ts: results of the same job from independent providers.
pub mod Votes
pub mod Laws
use compute_markets.Prelude.{
  ℕ, suc, String, Bool, true, false, not, ◌&&◌, ◌||◌, ◌==◌, List, [], ◌∷◌, ◌++◌, map, length, any,
  head?, Option, none, some, Result, ok, err, require, ◌>>=◌, ◌>>◌, failures_of, includes, is_empty,
  str_eq, leb, ltb, if◌then◌else◌,
}
use compute_markets.Prelude.Int.{ℤ, pos, sub_ℕ, Number, whole, other, ltb_ℤ}
use compute_markets.Prelude.Text.{is_hash}
use compute_markets.Prelude.Sorting.{sort}
use compute_markets.Prelude.Distinct.{distinct}
use compute_markets.Json.{Json}
use compute_markets.Json.Schema.{strict_object, required, string, boolean, array}
use compute_markets.Policies.{VerificationAssurance, verify_3}
use compute_markets.Receipts.Receipt.{at_least}

pub record ReplicaResult : Type 0 where
  pub job_id : String
  pub provider : String
  pub machine_id : String
  pub result_hash : String
  pub verify_1_passed : Bool

pub record RedundancyVerdict : Type 0 where
  pub passed : Bool
  pub assurance : VerificationAssurance
  pub failures : List String
  pub result_hash : Option String
  pub matches : ℕ
  pub required_matches : ℕ
  pub dispatch_tie_breaker : Bool

abbrev replica_keys : List String
replica_keys = "jobId" ∷ "provider" ∷ "machineId" ∷ "resultHash" ∷ "verify1Passed" ∷ []

unfoldable pub parse_replica : Json → Result ReplicaResult
parse_replica json = do
  fs ← strict_object replica_keys json
  job ← required "jobId" (at_least 32) fs
  provider ← required "provider" (at_least 32) fs
  machine ← required "machineId" (at_least 32) fs
  result ← required "resultHash" (string is_hash) fs
  passed ← required "verify1Passed" boolean fs
  ok (record {
    job_id = job;
    provider = provider;
    machine_id = machine;
    result_hash = result;
    verify_1_passed = passed;
  })

-- `Number.isInteger(requiredMatches)` and its bounds.
unfoldable pub quorum_of : Number → ℕ → Result ℕ
quorum_of (whole (pos required_matches)) replicas =
    if ltb required_matches 2 || ltb replicas required_matches
    then err "Invalid redundancy quorum"
    else ok required_matches
quorum_of _ replicas = err "Invalid redundancy quorum"

-- `votes.set(hash, (votes.get(hash) ?? 0) + 1)`: a new key goes to the end of the map.
unfoldable pub vote : String → List (String × ℕ) → List (String × ℕ)
vote hash [] = (hash, 1) ∷ []
vote hash ((k, n) ∷ votes) =
    let rest = vote hash votes in if str_eq k hash then (k, suc n) ∷ votes else (k, n) ∷ rest

-- The loop over the replicas, with the map so far.
unfoldable pub count_votes : List (String × ℕ) → List ReplicaResult → List (String × ℕ)
count_votes votes [] = votes
count_votes votes (r ∷ rs) = count_votes (vote r.result_hash votes) rs

unfoldable pub vote_order : String × ℕ → String × ℕ → ℤ
vote_order a b = sub_ℕ b.1 a.1

unfoldable pub winner : List ReplicaResult → Option (String × ℕ)
winner replicas = head? (sort vote_order (count_votes [] replicas))

unfoldable pub redundancy_checks : List ReplicaResult → ℕ → ℕ → List (Bool × String)
redundancy_checks replicas quorum matches =
    (
      length (distinct (map (λ r. r.provider) replicas)) == length replicas,
      "Replicas are not provider-independent",
    )
    ∷ (
      length (distinct (map (λ r. r.machine_id) replicas)) == length replicas,
      "Replicas are not machine-independent",
    )
    ∷ (not (any (λ r. not r.verify_1_passed) replicas), "A replica failed VERIFY_1")
    ∷ (not (ltb matches quorum), "No result hash reached quorum")
    ∷ []

unfoldable pub redundancy_verdict : List ReplicaResult → ℕ → String × ℕ → RedundancyVerdict
redundancy_verdict replicas quorum (hash, matches) =
    let failures = failures_of (redundancy_checks replicas quorum matches) in
    record {
      passed = is_empty failures;
      assurance = verify_3;
      failures = failures;
      result_hash = if leb quorum matches then some hash else none;
      matches = matches;
      required_matches = quorum;
      dispatch_tie_breaker = (length replicas == 2) && (matches == 1);
    }

-- The default of `required_matches`.
abbrev pub default_matches : Number
default_matches = whole (pos 2)

-- Destructuring the first of no votes would throw; there are always two replicas.
unfoldable pub verify_redundant_results : Json → Number → Result RedundancyVerdict
verify_redundant_results raw required_matches = do
  replicas ← array parse_replica 2 5 raw
  quorum ← quorum_of required_matches (length replicas)
  elim (winner replicas) [
    | none ↦ err "undefined is not iterable"
    | some entry ↦ ok (redundancy_verdict replicas quorum entry)
  ]
