-- ===== src/Verifier/Settle.antt =====
-- The second half of `verifyBundle`: a decision is sent to the chain and recorded once.
use compute_markets.Prelude.{
  String, Bool, true, false, not, ◌&&◌, ◌==◌, List, [], ◌∷◌, ◌++◌, Option, none, some, Result, ok,
  err, require, includes, str_eq, if◌then◌else◌,
}
use compute_markets.Policies.{assurance_name}
use compute_markets.Receipts.{Libraries, commitment}
use compute_markets.Storage.{ReceiptRow, text_property, store_receipt}
use compute_markets.Verification.Receipt.{Verdict}
use compute_markets.Verifier.{
  Bundle, ChainJob, VerificationRow, Submission, World, Services, Action, return, call, update,
  ◌>>=◌,
}
use compute_markets.Verifier.Evidence.{Checked, check_evidence}
use compute_markets.Verifier.Decide.{decide}

pub record Outcome : Type 0 where
  pub decision : Verdict
  pub signature : Option String
  pub recovered : Bool
  pub already_recorded : Bool

unfoldable pub find_verification : String → List VerificationRow → Option VerificationRow
find_verification job [] = none
find_verification job (v ∷ rows) =
    let rest = find_verification job rows in if str_eq v.job_id job then some v else rest

-- `upsert` on the primary key `job_id`.
unfoldable pub put_verification : VerificationRow → List VerificationRow → List VerificationRow
put_verification row [] = row ∷ []
put_verification row (v ∷ rows) =
    let rest = put_verification row rows in
    if str_eq v.job_id row.job_id then row ∷ rows else v ∷ rest

abbrev pub same_bool : Bool → Bool → Bool
same_bool true b = b
same_bool false b = not b

abbrev pub agrees : String → String → Verdict → ChainJob → VerificationRow → Bool
agrees hash signer d j v =
    str_eq v.receipt_hash hash
    && str_eq v.verifier signer
    && same_bool v.passed d.passed
    && same_bool (j.state == 9) d.passed

abbrev pub outcome_of : Verdict → VerificationRow → Outcome
outcome_of d v = record {
  decision = d;
  signature = v.tx_signature;
  recovered = false;
  already_recorded = true;
}

-- `bundle.envelope.payload.jobId`, a text at this point.
abbrev pub raw_job : Bundle → String
raw_job bundle = elim (text_property "jobId" bundle.envelope.payload) [
  | none ↦ "undefined"
  | some s ↦ s
]

-- How the outcome of an outside call changes the state.
abbrev pub projected : World → Result (List String) → Result (Unit {0}) × World
projected w (ok jobs) = (ok tt, record w { jobs = jobs })
projected w (err e) = (err e, w)

abbrev pub kept : World → Result (ReceiptRow × List ReceiptRow) → Result (Unit {0}) × World
kept w (ok stored) = (ok tt, record w { receipts = stored.1 })
kept w (err e) = (err e, w)

abbrev pub sent : Submission → World → Result String → Result String × World
sent s w (ok signature) = (ok signature, record w { submissions = w.submissions ++ s ∷ [] })
sent s w (err e) = (err e, w)

module _ (libraries : Libraries) (services : Services) where
  unfoldable pub settle_existing : Bundle → Checked → Verdict → VerificationRow → Action Outcome
  settle_existing bundle c d v = do
    unsettled ← call (
        require (not (c.chain_job.state == 8))
          "Database verification exists while finalized chain job is still VERIFYING")
    hash ← call (commitment libraries bundle.envelope.payload)
    agreed ← call (
        require (agrees hash services.signer d c.chain_job v)
          "Existing verification conflicts with finalized evidence")
    return (outcome_of d v)

  -- `new Indexer(c).reconcile()`.
  abbrev pub reconcile_jobs : Action (Unit {0})
  reconcile_jobs w = projected w (services.reconcile w.jobs)

  abbrev pub project_job : String → Action (Unit {0})
  project_job job w = if includes w.jobs job then (ok tt, w) else reconcile_jobs w

  abbrev pub keep_receipt : Bundle → Action (Unit {0})
  keep_receipt bundle w =
      kept w (
        store_receipt libraries services.upload (raw_job bundle) bundle.envelope.payload w.receipts)

  abbrev pub send : Submission → Action String
  send s w = sent s w (services.send_verification s)

  -- The branch of a job that the chain still has as VERIFYING.
  unfoldable pub submit : Bundle → Checked → Verdict → Action (Option String × Bool)
  submit bundle c d = do
    hash ← call (commitment libraries bundle.envelope.payload)
    signature ← send (record { job = c.job; receipt_hash = hash; passed = d.passed })
    confirmed ← call (services.confirm signature)
    reconciled ← reconcile_jobs
    return (some signature, false)

  unfoldable pub recover : Checked → Verdict → Action (Option String × Bool)
  recover c d = do
    agreed ← call (
        require (same_bool (c.chain_job.state == 9) d.passed)
          "Recovered chain decision conflicts with evidence")
    return (none, true)

  unfoldable pub submit_or_recover : Bundle → Checked → Verdict → Action (Option String × Bool)
  submit_or_recover bundle c d = if c.chain_job.state == 8 then submit bundle c d else recover c d

  unfoldable pub verification_row : Checked → Verdict → String → Option String → VerificationRow
  verification_row c d hash signature = record {
    job_id = c.job;
    receipt_hash = hash;
    verifier = services.signer;
    passed = d.passed;
    assurance = assurance_name d.assurance;
    failures = d.failures;
    tx_signature = signature;
  }

  unfoldable pub settle_new : Bundle → Checked → Verdict → Action Outcome
  settle_new bundle c d = do
    projected ← project_job c.job
    stored ← keep_receipt bundle
    outcome ← submit_or_recover bundle c d
    hash ← call (commitment libraries bundle.envelope.payload)
    recorded ← update (λ w. record w {
      verifications = put_verification (verification_row c d hash outcome.0) w.verifications;
    })
    return (record {
      decision = d;
      signature = outcome.0;
      recovered = outcome.1;
      already_recorded = false;
    })

  -- `if (existingVerification)`.
  abbrev pub settle_by : Bundle → Checked → Verdict → Option VerificationRow → Action Outcome
  settle_by bundle c d (some v) = settle_existing bundle c d v
  settle_by bundle c d none = settle_new bundle c d

  unfoldable pub settle : Bundle → Checked → Verdict → Action Outcome
  settle bundle c d w = settle_by bundle c d (find_verification c.job w.verifications) w

  unfoldable pub verify_bundle : Bundle → Action Outcome
  verify_bundle bundle = do
    c ← call (check_evidence libraries services bundle)
    d ← decide bundle c
    settle bundle c d
