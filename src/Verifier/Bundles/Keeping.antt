-- ===== src/Verifier/Bundles/Keeping.antt =====
-- Deciding, projecting a job and storing its receipt send and record nothing.
use compute_markets.Prelude.{
  ◌≡◌, refl, String, Bool, true, false, ◌&&◌, List, Option, none, some, Result, ok, err, str_eq,
  if◌then◌else◌, includes,
}
use compute_markets.Receipts.{Libraries}
use compute_markets.Verification.Receipt.{Verdict}
use compute_markets.Verifier.{Bundle, ChainJob, World, Services, return, throw}
use compute_markets.Verifier.Evidence.{Checked}
use compute_markets.Verifier.Decide.{decide}
use compute_markets.Verifier.Settle.{
  reconcile_jobs, project_job, keep_receipt, raw_job, projected, kept,
}
use compute_markets.Policies.{policy_name}
use compute_markets.Storage.{ReceiptRow, text_property, store_receipt}
use compute_markets.Verifier.Bundles.Actions.{Keeps, bind-Keeps, if-Keeps, books}
use compute_markets.Verifier.Decide.{
  challenged, challenge_result, decide_challenge, decide_redundant,
}

challenged-Keeps : (d : Verdict) (passed : Option Bool) → Keeps (challenged d passed)
challenged-Keeps d none = record { keeps = λ w. refl }
challenged-Keeps d (some b) = record { keeps = λ w. refl }

decide_challenge-Keeps : (job : String) (d : Verdict) → Keeps (decide_challenge job d)
unfolding decide_challenge
decide_challenge-Keeps job d = record {
  keeps = λ w. (challenged-Keeps d (challenge_result job w.challenges)).keeps w;
}

decide_redundant-Keeps :
    (job : String) (j : ChainJob) (hash : Option String) (d : Verdict)
    → Keeps (decide_redundant job j hash d)
unfolding decide_redundant
decide_redundant-Keeps job j hash d =
    bind-Keeps _ _ (record { keeps = λ w. refl })
      λ before.
        bind-Keeps _ _ (record { keeps = λ w. refl })
          λ replica.
            bind-Keeps _ _ (record { keeps = λ w. refl })
              λ written.
                bind-Keeps _ _ (record { keeps = λ w. refl })
                  λ after.
                    bind-Keeps _ _ (record { keeps = λ w. refl })
                      λ group.
                        bind-Keeps _ _ (record { keeps = λ w. refl })
                          λ enough.
                            bind-Keeps _ _ (record { keeps = λ w. refl })
                              λ redundant.
                                bind-Keeps _ _ (record { keeps = λ w. refl })
                                  λ settled.
                                    bind-Keeps _ _ (record { keeps = λ w. refl })
                                      λ recorded. record { keeps = λ w. refl }

pub decide-Keeps : (bundle : Bundle) (c : Checked) → Keeps (decide bundle c)
unfolding decide
decide-Keeps bundle c =
    if-Keeps (c.decision.passed && str_eq (policy_name c.spec.policy) "CHALLENGE") _ _
      (decide_challenge-Keeps c.job c.decision)
      (if-Keeps (c.decision.passed && str_eq (policy_name c.spec.policy) "REDUNDANT") _ _
        (decide_redundant-Keeps c.job c.chain_job
          (text_property "resultHash" bundle.envelope.payload) c.decision)
        (if-Keeps (c.decision.passed && c.decision.requires_additional_evidence) (throw _)
          (return c.decision) (record { keeps = λ w. refl }) (record { keeps = λ w. refl })))

module _ (libraries : Libraries) (services : Services) where
  pub reconcile_jobs-Keeps : Keeps (reconcile_jobs libraries services)
  reconcile_jobs-Keeps = record { keeps = λ w. go w (services.reconcile w.jobs) }
    where
      go : (w : World) (r : Result (List String)) → books (projected w r).1 ≡ books w
      go w (ok jobs) = refl
      go w (err e) = refl

  pub project_job-Keeps : (job : String) → Keeps (project_job libraries services job)
  project_job-Keeps job = record { keeps = λ w. go w (includes w.jobs job) }
    where
      go :
          (w : World) (b : Bool)
          → books (if b then (ok tt, w) else reconcile_jobs libraries services w).1 ≡ books w
      go w true = refl
      go w false = (reconcile_jobs-Keeps).keeps w

  pub keep_receipt-Keeps : (bundle : Bundle) → Keeps (keep_receipt libraries services bundle)
  keep_receipt-Keeps bundle = record {
    keeps = λ w. go w (
        store_receipt libraries services.upload (raw_job bundle) bundle.envelope.payload
          w.receipts);
  }
    where
      go : (w : World) (r : Result (ReceiptRow × List ReceiptRow)) → books (kept w r).1 ≡ books w
      go w (ok stored) = refl
      go w (err e) = refl
