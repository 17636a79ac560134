-- ===== src/Verifier/Bundles/Decided.antt =====
-- A run of `verifyBundle` that returns has settled its decision.
use compute_markets.Prelude.{◌≡◌, refl, sym, ap, subst, ◌∙◌, Option, none, some, ok, inl, inr}
use compute_markets.Receipts.{Libraries}
use compute_markets.Verification.Receipt.{Verdict}
use compute_markets.Verifier.{Bundle, VerificationRow, World, Services, call}
use compute_markets.Verifier.Evidence.{Checked, check_evidence}
use compute_markets.Verifier.Decide.{decide}
use compute_markets.Verifier.Settle.{Outcome, find_verification, settle, settle_by, verify_bundle}
use compute_markets.Verifier.Bundles.Actions.{returned, books, books_kept, call_returned}
use compute_markets.Verifier.Bundles.Keeping.{decide-Keeps}
use compute_markets.Verifier.Bundles.Settled.{Settled, existing_settled, new_settled}

module _ (libraries : Libraries) (services : Services) where
  -- A run that returns has checked the bundle's evidence for a job that the chain assigned to this
  -- verifier, and its decision is settled in one of three ways. Either a row of this verifier with
  -- this decision on this receipt was there, and nothing was sent or recorded; or none was, and
  -- there is one now. In that case, if the chain had the job as verifying, exactly this decision was
  -- sent, once, and otherwise nothing was sent. Without a transaction the chain's own decision on
  -- the job agrees with the run's.
  pub verify_bundle-Settled :
      (bundle : Bundle) (w after : World) (o : Outcome)
      → verify_bundle libraries services bundle w ≡ (ok o, after)
      → (c : Checked) × (check_evidence libraries services bundle ≡ ok c)
        × Settled libraries services bundle c (books w) after o
  unfolding verify_bundle settle
  verify_bundle-Settled bundle w after o h =
      returned (call (check_evidence libraries services bundle)) _ w after h λ c w1 e1 h1.
        returned (decide bundle c) _ w1 after h1 λ d w2 e2 h2.
          let (checked, same1) = call_returned _ w w1 c e1 in
          let kept_so_far =
            books_kept _ w1 w2 _ (decide-Keeps bundle c) e2 ∙ ap books (sym same1) in
          (
            c,
            checked,
            subst (λ b. Settled libraries services bundle c b after o) kept_so_far
                (by_row bundle c d w2 after o (find_verification c.job w2.verifications) refl h2),
          )
    where
      by_row :
          (bundle : Bundle) (c : Checked) (d : Verdict) (w after : World) (o : Outcome)
          (row : Option VerificationRow)
          → find_verification c.job w.verifications ≡ row
          → settle_by libraries services bundle c d row w ≡ (ok o, after)
          → Settled libraries services bundle c (books w) after o
      by_row bundle c d w after o (some v) found e =
          inl (existing_settled libraries services bundle c d v w after o found e)
      by_row bundle c d w after o none absent e =
          inr (new_settled libraries services bundle c d w after o absent e)
