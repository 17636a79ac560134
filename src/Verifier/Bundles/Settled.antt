-- ===== src/Verifier/Bundles/Settled.antt =====
-- How a decision is settled: recorded before, sent to the chain, or recovered from it.
use compute_markets.Prelude.{
  ◌≡◌, ◌≢◌, sym, ap, subst, ◌∙◌, String, Bool, true, not, ◌==◌, List, [], ◌∷◌, ◌++◌, Option, none,
  some, Result, ok, err, err_not_ok, require_holds, ok-injective, require, eq_iff, Bool-cases,
  arith, inl, inr, ◌⊎◌,
}
use compute_markets.Receipts.{Libraries, commitment}
use compute_markets.Verification.Receipt.{Verdict}
use compute_markets.Verifier.{Bundle, VerificationRow, Submission, World, Services, call, update}
use compute_markets.Verifier.Evidence.{Checked}
use compute_markets.Verifier.Settle.{
  Outcome, find_verification, put_verification, same_bool, agrees, settle_existing, reconcile_jobs,
  project_job, keep_receipt, send, submit, recover, submit_or_recover, verification_row, settle_new,
  sent,
}
use compute_markets.Verifier.Bundles.Actions.{returned, Books, books, books_kept, call_returned}
use compute_markets.Verifier.Bundles.Keeping.{
  project_job-Keeps, reconcile_jobs-Keeps, keep_receipt-Keeps,
}

module _ (libraries : Libraries) (services : Services) (bundle : Bundle) (c : Checked) where
  -- The decision is the one of the chain, which has the job as decided.
  pub record IsDecided (d : Verdict) : Type 0 where
    pub decided : c.chain_job.state ≢ 8
    pub passed : same_bool (c.chain_job.state == 9) d.passed ≡ true

  -- There was a row already, for this receipt, by this verifier and with this decision.
  pub record Recorded (before : Books) (after : World) (o : Outcome) : Type 0 where
    pub unchanged : books after ≡ before
    pub row : VerificationRow
    pub found : find_verification c.job before.1 ≡ some row
    pub hash : commitment libraries bundle.envelope.payload ≡ ok row.receipt_hash
    pub verifier : row.verifier ≡ services.signer
    pub passed : same_bool row.passed o.decision.passed ≡ true
    pub chain : IsDecided o.decision

  -- A row is there now, for the decision on this receipt.
  pub record Entered (before : Books) (after : World) (o : Outcome) (hash : String) : Type 0 where
    pub absent : find_verification c.job before.1 ≡ none
    pub commits : commitment libraries bundle.envelope.payload ≡ ok hash
    pub entered :
        find_verification c.job after.verifications
        ≡ some (verification_row libraries services c o.decision hash o.signature)

  -- The chain had the job as verifying, and exactly this decision was sent, once; or it had the job
  -- as decided the same way, and nothing was sent.
  pub record Sent (before : Books) (after : World) (o : Outcome) (hash : String) : Type 0 where
    pub verifying : c.chain_job.state ≡ 8
    pub sent_once :
        after.submissions
        ≡ before.0 ++ record { job = c.job; receipt_hash = hash; passed = o.decision.passed } ∷ []

  pub record NotSent (before : Books) (after : World) (o : Outcome) : Type 0 where
    pub chain : IsDecided o.decision
    pub unsent : after.submissions ≡ before.0

  abbrev pub Settled : Books → World → Outcome → Type 0
  Settled before after o =
      Recorded before after o
      ⊎ ((hash : String) × Entered before after o hash
          × (Sent before after o hash ⊎ NotSent before after o))

  pub existing_settled :
      (d : Verdict) (v : VerificationRow) (w after : World) (o : Outcome)
      → find_verification c.job w.verifications ≡ some v
      → settle_existing libraries services bundle c d v w ≡ (ok o, after)
      → Recorded (books w) after o
  unfolding settle_existing
  existing_settled d v w after o found h =
      returned (call (require (not (c.chain_job.state == 8)) _)) _ w after h λ u w1 e1 h1.
        returned (call (commitment libraries bundle.envelope.payload)) _ w1 after h1
          λ hash w2 e2 h2.
            returned (call (require (agrees hash services.signer d c.chain_job v) _)) _ w2 after h2
              λ u2 w3 e3 h3.
                let (open_job, same1) = call_returned _ w w1 u e1 in
                let (e_hash, same2) = call_returned _ w1 w2 hash e2 in
                let (agreed, same3) = call_returned _ w2 w3 u2 e3 in
                let agree = require_holds _ _ u2 agreed in
                subst (Recorded (books w) after) (ok-injective (ap (λ p. p.0) h3)) (record {
                  unchanged = sym (ap books (same1 ∙ same2 ∙ same3 ∙ ap (λ p. p.1) h3));
                  row = v;
                  found = found;
                  hash = e_hash ∙ ap ok (sym ((eq_iff v.receipt_hash hash).0 (ground arith)));
                  verifier = (eq_iff v.verifier services.signer).0 (ground arith);
                  passed = ground arith;
                  chain = record {
                    decided = ground (arith, require_holds _ _ u open_job);
                    passed = ground arith;
                  };
                })

  -- What sending or recovering a decision does.
  abbrev Delivered : Verdict → World → World → Type 0
  Delivered d w after =
      (hash : String) × (commitment libraries bundle.envelope.payload ≡ ok hash)
      × (after.verifications ≡ w.verifications)
      × ((c.chain_job.state ≡ 8)
          × (after.submissions
              ≡ w.submissions
                ++ record { job = c.job; receipt_hash = hash; passed = d.passed } ∷ []))

  submitted :
      (d : Verdict) (w after : World) (out : Option String × Bool)
      → submit libraries services bundle c d w ≡ (ok out, after)
      → c.chain_job.state ≡ 8
      → Delivered d w after
  unfolding submit
  submitted d w after out h verifying =
      returned (call (commitment libraries bundle.envelope.payload)) _ w after h λ hash w1 e1 h1.
        let s = submission hash d in
        returned (send libraries services s) _ w1 after h1 λ signature w2 e2 h2.
          returned (call (services.confirm signature)) _ w2 after h2 λ u w3 e3 h3.
            returned (reconcile_jobs libraries services) _ w3 after h3 λ u4 w4 e4 h4.
              let (e_hash, same1) = call_returned _ w w1 hash e1 in
              let last = ap (λ p. books p.1) h4 in
              let fourth = books_kept _ w3 w4 _ (reconcile_jobs-Keeps libraries services) e4 in
              let third = ap books (call_returned _ w2 w3 u e3).1 in
              let second = sent_books s w1 w2 signature (services.send_verification s) e2 in
              let total = sym last ∙ fourth ∙ sym third ∙ second in
              (
                hash,
                e_hash,
                ap (λ b. b.1) total ∙ ap (λ v. v.verifications) (sym same1),
                (verifying, ap (λ b. b.0) total ∙ ap (λ v. v.submissions ++ s ∷ []) (sym same1)),
              )
    where
      submission : String → Verdict → Submission
      submission hash d = record { job = c.job; receipt_hash = hash; passed = d.passed }

      sent_books :
          (s : Submission) (w1 w2 : World) (signature : String) (r : Result String)
          → sent s w1 r ≡ (ok signature, w2)
          → books w2 ≡ (w1.submissions ++ s ∷ [], w1.verifications)
      sent_books s w1 w2 signature (ok x) e = sym (ap (λ p. books p.1) e)
      sent_books s w1 w2 signature (err x) e = absurd (err_not_ok (ap (λ p. p.0) e))

  recovered :
      (d : Verdict) (w after : World) (out : Option String × Bool)
      → recover libraries services c d w ≡ (ok out, after)
      → c.chain_job.state ≢ 8
      → IsDecided d × (books after ≡ books w)
  unfolding recover
  recovered d w after out h decided =
      returned (call (require (same_bool (c.chain_job.state == 9) d.passed) _)) _ w after h
        λ u w1 e1 h1.
          let (agreed, same1) = call_returned _ w w1 u e1 in
          (
            record { decided = decided; passed = require_holds _ _ u agreed },
            ap books (sym (same1 ∙ ap (λ p. p.1) h1)),
          )

  delivered :
      (d : Verdict) (w after : World) (out : Option String × Bool)
      → submit_or_recover libraries services bundle c d w ≡ (ok out, after)
      → Delivered d w after ⊎ (IsDecided d × (books after ≡ books w))
  unfolding submit_or_recover
  delivered d w after out h = elim (Bool-cases (c.chain_job.state == 8)) [
    | inl verifying ↦ inl (submitted d w after out (rw verifying at h) (ground arith))
    | inr decided ↦ inr (recovered d w after out (rw decided at h) (ground arith))
  ]

  find_verification-put :
      (row : VerificationRow) (rows : List VerificationRow)
      → find_verification row.job_id (put_verification row rows) ≡ some row
  unfolding find_verification put_verification
  find_verification-put row [] = ground (arith, eq_iff row.job_id row.job_id)
  find_verification-put row (v ∷ rows) = ground (
    arith,
    eq_iff row.job_id row.job_id,
    eq_iff v.job_id row.job_id,
    find_verification-put row rows,
  )

  pub new_settled :
      (d : Verdict) (w after : World) (o : Outcome)
      → find_verification c.job w.verifications ≡ none
      → settle_new libraries services bundle c d w ≡ (ok o, after)
      → (hash : String) × Entered (books w) after o hash
        × (Sent (books w) after o hash ⊎ NotSent (books w) after o)
  unfolding settle_new verification_row
  new_settled d w after o absent h =
      returned (project_job libraries services c.job) _ w after h λ u1 w1 e1 h1.
        returned (keep_receipt libraries services bundle) _ w1 after h1 λ u2 w2 e2 h2.
          returned (submit_or_recover libraries services bundle c d) _ w2 after h2 λ out w3 e3 h3.
            returned (call (commitment libraries bundle.envelope.payload)) _ w3 after h3
              λ hash w4 e4 h4.
                returned
                  (update (λ v. record v {
                    verifications =
                        put_verification (verification_row libraries services c d hash out.0)
                          v.verifications;
                  }))
                  _ w4 after h4
                  λ u5 w5 e5 h5.
                    let (e_hash, same4) = call_returned _ w3 w4 hash e4 in
                    let last = ap (λ p. p.1) e5 ∙ ap (λ p. p.1) h5 in
                    let before =
                      books_kept _ w1 w2 _ (keep_receipt-Keeps libraries services bundle) e2
                      ∙ books_kept _ w w1 _ (project_job-Keeps libraries services c.job) e1 in
                    let unsent =
                      ap (λ v. v.submissions) (sym last) ∙ ap (λ v. v.submissions) (sym same4) in
                    subst
                      (λ x.
                        (k : String) × Entered (books w) after x k
                        × (Sent (books w) after x k ⊎ NotSent (books w) after x))
                      (ok-injective (ap (λ p. p.0) h5))
                      (
                        hash,
                        record {
                          absent = absent;
                          commits = e_hash;
                          entered =
                              ap (λ v. find_verification c.job v.verifications) (sym last)
                              ∙ find_verification-put
                                  (verification_row libraries services c d hash out.0)
                                  w4.verifications;
                        },
                        elim (delivered d w2 w3 out e3) [
                          | inl (k, e_k, _, (verifying, once)) ↦ inl (record {
                            verifying = verifying;
                            sent_once =
                                unsent
                                ∙ once
                                ∙ ap (λ b. b.0 ++ message d k ∷ []) before
                                ∙ ap (λ x. w.submissions ++ message d x ∷ [])
                                    (ok-injective (sym e_k ∙ e_hash));
                          })
                          | inr (decided, same3) ↦ inr (record {
                            chain = decided;
                            unsent = unsent ∙ ap (λ b. b.0) same3 ∙ ap (λ b. b.0) before;
                          })
                        ],
                      )
    where
      message : Verdict → String → Submission
      message v x = record { job = c.job; receipt_hash = x; passed = v.passed }
