-- ===== src/Policies/Codes.antt =====
-- Codes, names and assurance levels of the policies agree.
use Prim.Native.String
use compute_markets.Prelude.{
  ℕ, zero, suc, ◌≡◌, refl, sym, ap, ◌<◌, ◌↔◌, some, map, ok, ok-injective, arith,
}
use compute_markets.Prelude.Text.{decimal}
use compute_markets.Policies.{
  VerificationPolicy, basic, policy_name, verification_policies, assurance_name, assurance_for,
  index_of, policy_code, policy_from_code,
}

-- `indexOf` finds every policy.
index_of-policy_name :
    (p : VerificationPolicy)
    → index_of (map policy_name verification_policies) (policy_name p) ≡ some (policy_code p)
unfolding policy_code
index_of-policy_name basic = refl
index_of-policy_name p = refl

pub policy_code-lt : (p : VerificationPolicy) → policy_code p < 6
unfolding policy_code
policy_code-lt basic = omega arith
policy_code-lt p = omega arith

code_of_from_code :
    (code : ℕ) (p : VerificationPolicy) → policy_from_code code ≡ ok p → policy_code p ≡ code
unfolding policy_code policy_from_code
code_of_from_code zero p e = sym (ap policy_code (ok-injective e))
code_of_from_code (suc zero) p e = sym (ap policy_code (ok-injective e))
code_of_from_code (suc (suc zero)) p e = sym (ap policy_code (ok-injective e))
code_of_from_code (suc (suc (suc zero))) p e = sym (ap policy_code (ok-injective e))
code_of_from_code (suc (suc (suc (suc zero)))) p e = sym (ap policy_code (ok-injective e))
code_of_from_code (suc (suc (suc (suc (suc zero))))) p e = sym (ap policy_code (ok-injective e))
code_of_from_code (suc (suc (suc (suc (suc (suc n)))))) p e = cc

pub from_code_of_code : (p : VerificationPolicy) → policy_from_code (policy_code p) ≡ ok p
unfolding policy_code policy_from_code
from_code_of_code basic = refl
from_code_of_code p = refl

assurance_name_of_code :
    (p : VerificationPolicy)
    → assurance_name (assurance_for p) ≡ String.◌++◌ "VERIFY_" (decimal (policy_code p))
unfolding assurance_for policy_code decimal
assurance_name_of_code basic = refl
assurance_name_of_code p = refl

-- A code decodes to a policy exactly when the policy encodes to that code, so every other code,
-- from 6 on, is refused; and a policy's assurance level is named by its code.
pub policy_from_code_iff :
    (code : ℕ) (p : VerificationPolicy)
    → ((policy_from_code code ≡ ok p) ↔ (policy_code p ≡ code))
      × (assurance_name (assurance_for p) ≡ String.◌++◌ "VERIFY_" (decimal (policy_code p)))
policy_from_code_iff code p =
    ((code_of_from_code code p, λ e. rw (← e) (from_code_of_code p)), assurance_name_of_code p)
