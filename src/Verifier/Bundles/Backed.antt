-- ===== src/Verifier/Bundles/Backed.antt =====
-- What a passing decision rests on.
use compute_markets.Prelude.{
  ◌≡◌, String, Bool, true, not, ◌&&◌, [], ◌∷◌, some, ok, str_eq, if◌then◌else◌, includes,
}
use compute_markets.Receipts.{Libraries}
use compute_markets.Verification.Receipt.{Verdict}
use compute_markets.Verifier.{Bundle, World, Services, Action, return, throw}
use compute_markets.Verifier.Evidence.{Checked}
use compute_markets.Policies.{policy_name}
use compute_markets.Storage.{text_property}
use compute_markets.Policies.{VerificationPolicy, basic, standard, challenge, redundant}
use Prim.Native.String
use compute_markets.Verification.Receipt.{verify_receipt}
use compute_markets.Prelude.Int.{Number}
use compute_markets.Json.{Json}
use compute_markets.Verification.Redundancy.{RedundancyVerdict, verify_redundant_results}
use compute_markets.Verifier.Decide.{
  same_text, challenge_result, decide_challenge, decide_redundant,
}
use compute_markets.Verification.Receipt.{Assignment, Evidence}
use compute_markets.Verification.Receipt.Attested.{Attested}
use compute_markets.Verifier.Evidence.{is_assigned, evidence_of}

-- What backs a passing decision, by the policy of the job.
pub data Backed (bundle : Bundle) (c : Checked) (w : World) : VerificationPolicy → Type 0 where
  by_receipt_basic : Backed bundle c w basic
  by_receipt_standard : Backed bundle c w standard
  by_challenge : challenge_result c.job w.challenges ≡ some true → Backed bundle c w challenge
  by_replicas :
      (raw : Json) (quorum : Number) (v : RedundancyVerdict)
      → verify_redundant_results raw quorum ≡ ok v
      → v.passed ≡ true
      → same_text v.result_hash (text_property "resultHash" bundle.envelope.payload) ≡ true
      → Backed bundle c w redundant

-- `decide`, by what it tests.
abbrev decide_by : Bundle → Checked → Bool → VerificationPolicy → Bool → Action Verdict
decide_by bundle c passed policy requires =
    if passed && str_eq (policy_name policy) "CHALLENGE"
    then decide_challenge c.job c.decision
    else if passed && str_eq (policy_name policy) "REDUNDANT"
    then decide_redundant c.job c.chain_job (text_property "resultHash" bundle.envelope.payload)
        c.decision
    else if passed && requires
    then throw (
        String.◌++◌ c.decision.requested_assurance
          " evidence is required before an on-chain verification decision")
    else return c.decision

abbrev needs_more : VerificationPolicy → Bool
needs_more policy = not (includes ("BASIC" ∷ "STANDARD" ∷ []) (policy_name policy))

module _ (libraries : Libraries) (services : Services) where
  -- What the verifier looked up of the job, and the evidence's verdict.
  pub record IsChecked (bundle : Bundle) (c : Checked) (a : Assignment) : Type 0 where
    pub account : services.job_account c.job ≡ ok (some c.chain_job)
    pub assigned : is_assigned services.signer c.chain_job ≡ true
    pub job : a.job_id ≡ c.job
    pub worker : a.worker ≡ c.chain_job.worker
    pub spec_hash : a.job_spec_hash ≡ c.chain_job.spec_hash
    pub receipt_hash : a.receipt_hash ≡ c.chain_job.receipt_hash
    pub verdict :
        verify_receipt libraries bundle.envelope c.spec a (evidence_of libraries services bundle)
        ≡ ok c.decision
