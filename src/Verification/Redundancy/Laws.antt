-- ===== src/Verification/Redundancy/Laws.antt =====
-- What a verdict on redundant results stands for.
use compute_markets.Prelude.{
  ℕ, ◌≤◌, ◌<◌, ◌≡◌, ◌↔◌, refl, subst, String, true, false, not, ◌==◌, List, [], ◌∷◌, map, length,
  length-map, any, none, some, ok, err, ok-injective, bind_ok, failures_of-empty_iff, All, Holds,
  Option-cases, arith, inl, inr,
}
use compute_markets.Prelude.Int.{pos, Number, whole}
use compute_markets.Prelude.Distinct.{distinct, IsDistinct, distinct_iff}
use compute_markets.Json.{Json}
use compute_markets.Json.Schema.{array}
use compute_markets.Verification.Redundancy.{
  ReplicaResult, RedundancyVerdict, parse_replica, quorum_of, winner, redundancy_checks,
  redundancy_verdict, verify_redundant_results,
}
use compute_markets.Verification.Redundancy.Votes.{
  count, IsPlurality, winner-IsPlurality, winner_of_some,
}

-- Independent replicas that all passed their own check, and enough of which report one result.
pub record IsAgreed (rs : List ReplicaResult) (quorum : ℕ) (hash : String) : Type 0 where
  pub providers : IsDistinct (map (λ r. r.provider) rs)
  pub machines : IsDistinct (map (λ r. r.machine_id) rs)
  pub each_passed : All (λ r. r.verify_1_passed ≡ true) rs
  pub enough : quorum ≤ count hash rs

-- The verdict on these replicas: it names the most reported result, passes exactly on agreement,
-- and asks for a tie breaker exactly when there are two and each result was reported once.
pub record IsVerdict (rs : List ReplicaResult) (quorum : ℕ) (hash : String) (v : RedundancyVerdict)
    : Type 0 where
  pub plurality : IsPlurality rs hash v.matches
  pub passed : (v.passed ≡ true) ↔ IsAgreed rs quorum hash
  pub reached : quorum ≤ v.matches → v.result_hash ≡ some hash
  pub missed : v.matches < quorum → v.result_hash ≡ none
  pub required : v.required_matches ≡ quorum
  pub tie : (v.dispatch_tie_breaker ≡ true) ↔ ((length rs ≡ 2) × (v.matches ≡ 1))

none_failed_iff :
    (rs : List ReplicaResult)
    → (any (λ r. not r.verify_1_passed) rs ≡ false) ↔ All (λ r. r.verify_1_passed ≡ true) rs
none_failed_iff [] = ((λ h. tt), λ h. refl)
none_failed_iff (r ∷ rs) = ground (arith, none_failed_iff rs)

independent_iff :
    (f : ReplicaResult → String) (rs : List ReplicaResult)
    → ((length (distinct (map f rs)) == length rs) ≡ true) ↔ IsDistinct (map f rs)
independent_iff f rs =
    subst (λ n. ((length (distinct (map f rs)) == n) ≡ true) ↔ IsDistinct (map f rs))
      (length-map f rs) (distinct_iff (map f rs))

IsAgreed-iff :
    (rs : List ReplicaResult) (quorum : ℕ) (hash : String) (matches : ℕ)
    → count hash rs ≡ matches
    → Holds (redundancy_checks rs quorum matches) ↔ IsAgreed rs quorum hash
unfolding redundancy_checks
IsAgreed-iff rs quorum hash matches counted = ground (
  arith,
  none_failed_iff rs,
  independent_iff (λ r. r.provider) rs,
  independent_iff (λ r. r.machine_id) rs,
)

IsVerdict-holds :
    (rs : List ReplicaResult) (quorum : ℕ) (hash : String) (matches : ℕ)
    → IsPlurality rs hash matches
    → IsVerdict rs quorum hash (redundancy_verdict rs quorum (hash, matches))
unfolding redundancy_verdict
IsVerdict-holds rs quorum hash matches most = record {
  plurality = most;
  passed = ground (
    arith,
    failures_of-empty_iff (redundancy_checks rs quorum matches),
    IsAgreed-iff rs quorum hash matches most.counted,
  );
  reached = λ h. ground arith;
  missed = λ h. ground arith;
  required = refl;
  tie = ground arith;
}

-- A verdict is given only on two to five well-formed replicas and an integer quorum from 2 to
-- their number. It names the result that most replicas report, with their number, if that reaches
-- the quorum; it passes exactly if moreover no provider and no machine stands twice and every
-- replica passed its own check; and a tie breaker is asked for exactly if there are two replicas
-- and the most reported result was reported once.
pub verify_redundant_results-IsVerdict :
    (raw : Json) (required_matches : Number) (v : RedundancyVerdict)
    → verify_redundant_results raw required_matches ≡ ok v
    → (rs : List ReplicaResult) × (quorum : ℕ) × (hash : String) × (array parse_replica 2 5 raw
        ≡ ok rs)
      × (required_matches ≡ whole (pos quorum))
      × (2 ≤ quorum)
      × (quorum ≤ length rs)
      × IsVerdict rs quorum hash v
unfolding verify_redundant_results quorum_of
verify_redundant_results-IsVerdict raw required_matches v h =
    bind_ok (array parse_replica 2 5 raw) _ h λ rs e_rs h1.
      bind_ok (quorum_of required_matches (length rs)) _ h1 λ quorum e_q h2.
        elim (Option-cases (winner rs)) [
          | inl nobody ↦ absurd (cc (h2, nobody))
          | inr ((hash, matches), won) ↦
              let (same, least, most) = quorum_within required_matches (length rs) quorum e_q in
              (
                rs,
                quorum,
                hash,
                e_rs,
                same,
                least,
                most,
                subst (IsVerdict rs quorum hash) (verdict_of rs quorum (hash, matches) won h2) (
                    IsVerdict-holds rs quorum hash matches
                      (winner-IsPlurality rs hash matches won)),
              )
        ]
  where
    quorum_within :
        (n : Number) (replicas q : ℕ)
        → quorum_of n replicas ≡ ok q
        → (n ≡ whole (pos q)) × (2 ≤ q) × (q ≤ replicas)
    quorum_within n replicas q e = ground arith

    verdict_of :
        (rs : List ReplicaResult) (quorum : ℕ) (entry : String × ℕ)
        → winner rs ≡ some entry
        → elim (winner rs) [
          | none ↦ err "undefined is not iterable"
          | some found ↦ ok (redundancy_verdict rs quorum found)
        ]
          ≡ ok v
        → redundancy_verdict rs quorum entry ≡ v
    verdict_of rs quorum entry won e = ok-injective (rw won at e)

-- Every two to five well-formed replicas and every integer quorum from 2 to their number get a
-- verdict.
pub verify_redundant_results-gives :
    (raw : Json) (rs : List ReplicaResult) (quorum : ℕ)
    → array parse_replica 2 5 raw ≡ ok rs
    → 2 ≤ quorum
    → quorum ≤ length rs
    → (v : RedundancyVerdict) × (verify_redundant_results raw (whole (pos quorum)) ≡ ok v)
unfolding verify_redundant_results quorum_of
verify_redundant_results-gives raw [] quorum parsed least most = absurd (omega arith)
verify_redundant_results-gives raw (r ∷ rs) quorum parsed least most =
    let (entry, won) = winner_of_some r rs in
    (redundancy_verdict (r ∷ rs) quorum entry, rw (parsed, within (length (r ∷ rs)) most, won) refl)
  where
    within :
        (replicas : ℕ) → quorum ≤ replicas → quorum_of (whole (pos quorum)) replicas ≡ ok quorum
    within replicas h = ground arith
