-- ===== src/Policies.antt =====
-- packages/verification/policies.ts: verification policies, their codes and assurance levels.
pub mod Codes
use Prim.Native.String
use compute_markets.Prelude.{
  ℕ, zero, suc, ◌≡◌, Bool, Option, none, some, List, [], ◌∷◌, map, String, str_eq, get_elem?,
  Result, ok, err, if◌then◌else◌,
}
use compute_markets.Prelude.Text.{decimal}
use mathlib.Core.Option

pub data VerificationPolicy : Type 0 where
  basic standard challenge redundant tee proof : VerificationPolicy

-- The source's string for a policy.
abbrev pub policy_name : VerificationPolicy → String
policy_name basic = "BASIC"
policy_name standard = "STANDARD"
policy_name challenge = "CHALLENGE"
policy_name redundant = "REDUNDANT"
policy_name tee = "TEE"
policy_name proof = "PROOF"

abbrev pub verification_policies : List VerificationPolicy
verification_policies = basic ∷ standard ∷ challenge ∷ redundant ∷ tee ∷ proof ∷ []

pub data VerificationAssurance : Type 0 where
  verify_0 verify_1 verify_2 verify_3 verify_4 verify_5 : VerificationAssurance

abbrev pub assurance_name : VerificationAssurance → String
assurance_name verify_0 = "VERIFY_0"
assurance_name verify_1 = "VERIFY_1"
assurance_name verify_2 = "VERIFY_2"
assurance_name verify_3 = "VERIFY_3"
assurance_name verify_4 = "VERIFY_4"
assurance_name verify_5 = "VERIFY_5"

-- `assuranceByPolicy`, and `assuranceFor`, which looks a policy up in it.
unfoldable pub assurance_for : VerificationPolicy → VerificationAssurance
assurance_for basic = verify_0
assurance_for standard = verify_1
assurance_for challenge = verify_2
assurance_for redundant = verify_3
assurance_for tee = verify_4
assurance_for proof = verify_5

-- `values.indexOf(value)` on strings; `none` for -1.
abbrev pub index_of : List String → String → Option ℕ
index_of [] s = none
index_of (x ∷ xs) s =
    let rest = Option.map suc (index_of xs s) in if str_eq x s then some zero else rest

abbrev code_or_zero : Option ℕ → ℕ
code_or_zero none = zero
code_or_zero (some n) = n

-- Every policy stands in the list (`index_of-policy_name` below), so -1 is never the result.
unfoldable pub policy_code : VerificationPolicy → ℕ
policy_code p = code_or_zero (index_of (map policy_name verification_policies) (policy_name p))

unfoldable pub policy_from_code : ℕ → Result VerificationPolicy
policy_from_code code = elim (get_elem? verification_policies code) [
  | none ↦ err (String.◌++◌ "Unsupported verification policy code: " (decimal code))
  | some policy ↦ ok policy
]
