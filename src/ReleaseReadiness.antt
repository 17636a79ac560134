-- ===== src/ReleaseReadiness.antt =====
-- packages/release-readiness/index.ts. The environment is a function from names to values; the
-- labels and details of the gates are kept, `maxOnchainPolicy` is a whole number.
use compute_markets.Prelude.{
  ℕ, ◌+◌, ◌*◌, ◌/◌, ◌≤◌, ◌≡◌, ◌↔◌, refl, sym, subst, String, Bool, true, false, List, [], ◌∷◌,
  Option, none, some, leb, ◌==◌, str_eq, filter, length, All, arith,
}

pub record ReleaseGate : Type 0 where
  pub id : String
  pub label : String
  pub ready : Bool
  pub detail : String

pub record Readiness : Type 0 where
  pub release : String
  pub software_mvp_ready : Bool
  pub full_v1_v3_ready : Bool
  pub completed_gates : ℕ
  pub total_gates : ℕ
  pub readiness_percent : ℕ
  pub gates : List ReleaseGate

-- `value === "true"`.
abbrev enabled : Option String → Bool
enabled none = false
enabled (some s) = str_eq s "true"

abbrev gate : String → String → Bool → String → ReleaseGate
gate id label ready detail = record { id = id; label = label; ready = ready; detail = detail }

unfoldable pub release_gates : (String → Option String) → ℕ → List ReleaseGate
release_gates environment max_onchain_policy =
    gate "solana-v1" "Solana escrow and settlement" (leb 1 max_onchain_policy)
      "The deployed program accepts BASIC and STANDARD jobs."
    ∷ gate "advanced-policies" "Challenge and redundant policies" (leb 3 max_onchain_policy)
        "Requires the policy 2–5 program upgrade on the public cluster."
    ∷ gate "nvidia" "NVIDIA execution qualification" (enabled (environment "RELEASE_GPU_QUALIFIED"))
        "Requires a recorded CUDA and inference run on a qualified host."
    ∷ gate "confidential-gpu" "Confidential GPU qualification"
        (enabled (environment "RELEASE_TEE_QUALIFIED"))
        "Requires qualified confidential hardware and attestation roots."
    ∷ gate "proof-circuit" "Production proof circuit"
        (enabled (environment "RELEASE_PROOF_QUALIFIED"))
        "Requires an audited workload circuit and pinned verification key."
    ∷ gate "verifier-market" "Permissionless verifier market"
        (enabled (environment "RELEASE_PERMISSIONLESS_VERIFIERS"))
        "Requires verifier staking, rewards, rotation, and arbitration."
    ∷ gate "operations" "Production operations qualification"
        (enabled (environment "RELEASE_OPERATIONS_QUALIFIED"))
        "Requires multi-cluster load, outage, recovery, and alert testing."
    ∷ gate "audit" "Independent security audit" (enabled (environment "RELEASE_AUDITED"))
        "Requires an external protocol and provider-host security review."
    ∷ []

-- `gates[0]!.ready`.
abbrev first_ready : List ReleaseGate → Bool
first_ready [] = false
first_ready (g ∷ gates) = g.ready

-- `Math.round(100 * completed / total)`: halves are rounded up.
abbrev percent : ℕ → ℕ → ℕ
percent completed total = (200 * completed + total) / (2 * total)

unfoldable pub readiness_of : List ReleaseGate → Readiness
readiness_of gates =
    let completed = length (filter (λ g. g.ready) gates) in
    record {
      release = "development-network";
      software_mvp_ready = first_ready gates;
      full_v1_v3_ready = completed == length gates;
      completed_gates = completed;
      total_gates = length gates;
      readiness_percent = percent completed (length gates);
      gates = gates;
    }

unfoldable pub release_readiness : (String → Option String) → ℕ → Readiness
release_readiness environment max_onchain_policy =
    readiness_of (release_gates environment max_onchain_policy)

completed-le : (gates : List ReleaseGate) → length (filter (λ g. g.ready) gates) ≤ length gates
completed-le [] = omega arith
completed-le (g ∷ gates) = ground (arith, completed-le gates)

All-ready_iff :
    (gates : List ReleaseGate)
    → (length (filter (λ g. g.ready) gates) ≡ length gates) ↔ All (λ g. g.ready ≡ true) gates
All-ready_iff [] = ((λ h. tt), λ h. refl)
All-ready_iff (g ∷ gates) = ground (arith, All-ready_iff gates, completed-le gates)

percent_bounds :
    (completed : ℕ)
    → completed ≤ 8
    → (percent completed 8 ≤ 100) × ((percent completed 8 ≡ 100) ↔ (completed ≡ 8))
percent_bounds completed h = (omega arith, ((λ e. omega arith), λ e. omega arith))

pub record IsComplete (r : Readiness) : Type 0 where
  pub all_ready : (r.full_v1_v3_ready ≡ true) ↔ All (λ g. g.ready ≡ true) r.gates
  pub bounded : r.readiness_percent ≤ 100
  pub hundred : (r.readiness_percent ≡ 100) ↔ (r.full_v1_v3_ready ≡ true)

IsComplete-of : (gates : List ReleaseGate) → length gates ≡ 8 → IsComplete (readiness_of gates)
unfolding readiness_of
IsComplete-of gates eight =
    let completed = length (filter (λ g. g.ready) gates) in
    let most = completed-le gates in
    let bounds =
      subst (λ n. (percent completed n ≤ 100) × ((percent completed n ≡ 100) ↔ (completed ≡ n)))
        (sym eight) (percent_bounds completed (omega arith)) in
    record {
      all_ready = ground (arith, All-ready_iff gates);
      bounded = bounds.0;
      hundred = ground (arith, bounds.1);
    }

-- The release counts as complete exactly when all eight gates are ready, and the percentage is at
-- most 100, and 100 exactly then.
pub release_readiness-IsComplete :
    (environment : String → Option String) (max_onchain_policy : ℕ)
    → IsComplete (release_readiness environment max_onchain_policy)
unfolding release_readiness release_gates
release_readiness-IsComplete environment max_onchain_policy =
    IsComplete-of (release_gates environment max_onchain_policy) refl
