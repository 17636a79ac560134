-- ===== src/Verifier/Daemon/Final.antt =====
-- A recorded decision is final: no run of the verifier and no pass of its daemon changes it.
use compute_markets.Prelude.{
  ◌≡◌, ◌≢◌, refl, sym, ap, subst, ◌∙◌, String, Bool, true, false, ◌==◌, List, [], ◌∷◌, includes,
  Option, none, some, Result, ok, err, eq_iff, if◌then◌else◌, arith,
}
use compute_markets.Json.{Json}
use compute_markets.Receipts.{Libraries}
use compute_markets.Receipts.Receipt.{SignedReceipt}
use compute_markets.Verification.Receipt.{Verdict}
use compute_markets.Verifier.{
  Bundle, VerificationRow, Submission, World, Services, Action, return, continue, update, ◌>>=◌,
}
use compute_markets.Verifier.Evidence.{Checked}
use compute_markets.Verifier.Settle.{
  Outcome, find_verification, put_verification, settle_existing, send, sent, submit, recover,
  submit_or_recover, verification_row, settle_new, settle_by, settle, verify_bundle,
}
use compute_markets.Verifier.Bundles.Actions.{Keeps}
use compute_markets.Verifier.Bundles.Keeping.{
  decide-Keeps, reconcile_jobs-Keeps, project_job-Keeps, keep_receipt-Keeps,
}
use compute_markets.Verifier.Daemon.{
  JobRow, Feed, bundle_of, caught, verify_file, with_spec, with_receipt, visit, visit_all,
  daemon_pass, open_jobs,
}

-- The action carries a property of the table over, whether it returns or throws.
record Carries (P : List VerificationRow → Type 0) {A : Type 0} (m : Action A) : Type 0 where
  carries : (w : World) → P w.verifications → P (m w).1.verifications

module _ (P : List VerificationRow → Type 0) where
  bind-Carries :
      {A B : Type 0} (m : Action A) (f : A → Action B)
      → Carries P m
      → ((a : A) → Carries P (f a))
      → Carries P (m >>= f)
  unfolding ◌>>=◌
  bind-Carries {A = A} m f first then_each = record {
    carries = λ w h. go (m w) (first.carries w h);
  }
    where
      go : (r : Result A × World) → P r.1.verifications → P (continue r f).1.verifications
      go (ok a, mid) h = (then_each a).carries mid h
      go (err e, mid) h = h

  if-Carries :
      {A : Type 0} (b : Bool) (m n : Action A)
      → Carries P m
      → Carries P n
      → Carries P (if b then m else n)
  if-Carries true m n h k = h
  if-Carries false m n h k = k

  Carries-kept : {A : Type 0} (m : Action A) → Keeps m → Carries P m
  Carries-kept m k = record { carries = λ w h. subst P (sym (ap (λ b. b.1) (k.keeps w))) h }

  caught-Carries : (m : Action (Unit {0})) → Carries P m → Carries P (caught m)
  caught-Carries m h = record { carries = h.carries }

module _ (libraries : Libraries) (services : Services) where
  module _ (P : List VerificationRow → Type 0) where
    send-Carries : (s : Submission) → Carries P (send libraries services s)
    send-Carries s = record { carries = λ w h. go w (services.send_verification s) h }
      where
        go : (w : World) (r : Result String) → P w.verifications → P (sent s w r).1.verifications
        go w (ok x) h = h
        go w (err x) h = h

    submit_or_recover-Carries :
        (bundle : Bundle) (c : Checked) (d : Verdict)
        → Carries P (submit_or_recover libraries services bundle c d)
    unfolding submit_or_recover submit recover
    submit_or_recover-Carries bundle c d =
        if-Carries P (c.chain_job.state == 8) (submit libraries services bundle c d)
          (recover libraries services c d)
          (bind-Carries P _ _ (record { carries = λ w h. h })
            λ hash. bind-Carries P _ _ (send-Carries _) λ signature.
              bind-Carries P _ _ (record { carries = λ w h. h })
                λ confirmed.
                  bind-Carries P _ _ (Carries-kept P _ (reconcile_jobs-Keeps libraries services))
                    λ reconciled. record { carries = λ w h. h })
          (bind-Carries P _ _ (record { carries = λ w h. h })
            λ agreed. record { carries = λ w h. h })

  -- The row of a job, which is kept.
  Has : String → VerificationRow → List VerificationRow → Type 0
  Has job v rows = find_verification job rows ≡ some v

  -- The row of one job is kept, and another job has none.
  HasNot : String → VerificationRow → String → List VerificationRow → Type 0
  HasNot job v free rows =
      (find_verification job rows ≡ some v) × (find_verification free rows ≡ none)

  -- Ends with a property that is weaker than the one it starts with.
  record Ends (P Q : List VerificationRow → Type 0) {A : Type 0} (m : Action A) : Type 0 where
    ends : (w : World) → P w.verifications → Q (m w).1.verifications

  bind-Ends :
      (P Q : List VerificationRow → Type 0) {A B : Type 0} (m : Action A) (f : A → Action B)
      → ((rows : List VerificationRow) → P rows → Q rows)
      → Carries P m
      → ((a : A) → Ends P Q (f a))
      → Ends P Q (m >>= f)
  unfolding ◌>>=◌
  bind-Ends P Q {A = A} m f weaken first then_each = record {
    ends = λ w h. go (m w) (first.carries w h);
  }
    where
      go : (r : Result A × World) → P r.1.verifications → Q (continue r f).1.verifications
      go (ok a, mid) h = (then_each a).ends mid h
      go (err e, mid) h = weaken mid.verifications h

  find_verification-put_other :
      (job : String) (row : VerificationRow) (rows : List VerificationRow)
      → row.job_id ≢ job
      → find_verification job (put_verification row rows) ≡ find_verification job rows
  unfolding find_verification put_verification
  find_verification-put_other job row [] h = ground (arith, eq_iff row.job_id job)
  find_verification-put_other job row (v ∷ rows) h = ground (
    arith,
    eq_iff row.job_id job,
    eq_iff v.job_id row.job_id,
    eq_iff v.job_id job,
    find_verification-put_other job row rows h,
  )

  some_not_none : {x : VerificationRow} → some x ≡ none → ⊥
  some_not_none e = cc

  written_Ends :
      (c : Checked) (d : Verdict) (job hash : String) (v : VerificationRow)
      (out : Option String × Bool)
      → Ends (HasNot job v c.job) (Has job v) (
          update (λ w. record w {
            verifications =
                put_verification
                  (verification_row libraries services c d hash out.0)
                  w.verifications;
          })
          >>= λ recorded. return {A = Outcome} (record {
            decision = d;
            signature = out.0;
            recovered = out.1;
            already_recorded = false;
          }))
  unfolding HasNot Has ◌>>=◌ verification_row
  written_Ends c d job hash v out = record {
    ends = λ w h.
        find_verification-put_other job (verification_row libraries services c d hash out.0)
          w.verifications
          (λ e.
            some_not_none (sym h.0 ∙ ap (λ j. find_verification j w.verifications) (sym e) ∙ h.1))
        ∙ h.0;
  }

  settle_new-Ends :
      (bundle : Bundle) (c : Checked) (d : Verdict) (job : String) (v : VerificationRow)
      → Ends (HasNot job v c.job) (Has job v) (settle_new libraries services bundle c d)
  unfolding settle_new HasNot Has
  settle_new-Ends bundle c d job v =
      let P = HasNot job v c.job in
      bind-Ends P (Has job v) _ _ (λ rows h. h.0)
        (Carries-kept P _ (project_job-Keeps libraries services c.job))
        λ projected.
          bind-Ends P (Has job v) _ _ (λ rows h. h.0)
            (Carries-kept P _ (keep_receipt-Keeps libraries services bundle))
            λ stored.
              bind-Ends P (Has job v) _ _ (λ rows h. h.0) (submit_or_recover-Carries P bundle c d)
                λ out.
                  bind-Ends P (Has job v) _ _ (λ rows h. h.0) (record { carries = λ w h. h })
                    λ hash. written_Ends c d job hash v out

  settle-Carries :
      (bundle : Bundle) (c : Checked) (d : Verdict) (job : String) (v : VerificationRow)
      → Carries (Has job v) (settle libraries services bundle c d)
  unfolding settle settle_existing HasNot Has
  settle-Carries bundle c d job v = record {
    carries = λ w h. go w (find_verification c.job w.verifications) refl h;
  }
    where
      existing :
          (old : VerificationRow)
          → Carries (Has job v) (settle_existing libraries services bundle c d old)
      existing old =
          bind-Carries (Has job v) _ _ (record { carries = λ w h. h })
            λ u1.
              bind-Carries (Has job v) _ _ (record { carries = λ w h. h })
                λ u2.
                  bind-Carries (Has job v) _ _ (record { carries = λ w h. h })
                    λ u3. record { carries = λ w h. h }

      go :
          (w : World) (row : Option VerificationRow)
          → find_verification c.job w.verifications ≡ row
          → find_verification job w.verifications ≡ some v
          → find_verification job (settle_by libraries services bundle c d row w).1.verifications
            ≡ some v
      go w (some old) e h = (existing old).carries w h
      go w none e h = (settle_new-Ends bundle c d job v).ends w (h, e)

  verify_bundle-Carries :
      (bundle : Bundle) (job : String) (v : VerificationRow)
      → Carries (Has job v) (verify_bundle libraries services bundle)
  unfolding verify_bundle
  verify_bundle-Carries bundle job v =
      bind-Carries (Has job v) _ _ (record { carries = λ w h. h })
        λ c.
          bind-Carries (Has job v) _ _ (Carries-kept (Has job v) _ (decide-Keeps bundle c))
            λ d. settle-Carries bundle c d job v

  module _ (feed : Feed) (job : String) (v : VerificationRow) where
    visit-Carries :
        (recorded : List String) (j : JobRow)
        → Carries (Has job v) (visit libraries services feed recorded j)
    unfolding visit verify_file
    visit-Carries recorded j =
        if-Carries (Has job v) (includes recorded j.id) (return tt) _
          (record { carries = λ w h. h })
          (caught-Carries (Has job v) _
            (bind-Carries (Has job v) _ _ (record { carries = λ w h. h }) of_receipt))
      where
        of_spec :
            (envelope : SignedReceipt) (key : String) (spec : Option Json)
            → Carries (Has job v) (with_spec libraries services feed envelope key spec)
        of_spec envelope key none = record { carries = λ w h. h }
        of_spec envelope key (some spec) =
            bind-Carries (Has job v) _ _ (record { carries = λ w h. h })
              λ file.
                bind-Carries (Has job v) _ _
                  (verify_bundle-Carries (bundle_of envelope spec file) job v)
                  λ outcome. record { carries = λ w h. h }

        of_receipt :
            (receipt : Option (SignedReceipt × String))
            → Carries (Has job v) (with_receipt libraries services feed j receipt)
        of_receipt none = record { carries = λ w h. h }
        of_receipt (some (envelope, key)) =
            bind-Carries (Has job v) _ _ (record { carries = λ w h. h })
              λ spec. of_spec envelope key spec

    visit_all-Carries :
        (recorded : List String) (jobs : List JobRow)
        → Carries (Has job v) (visit_all libraries services feed recorded jobs)
    unfolding visit_all
    visit_all-Carries recorded [] = record { carries = λ w h. h }
    visit_all-Carries recorded (j ∷ jobs) =
        bind-Carries (Has job v) _ _ (visit-Carries recorded j)
          λ visited. visit_all-Carries recorded jobs

  -- A recorded decision is final: whatever the jobs, the receipts and the outside services, and
  -- whether runs return or throw, a pass of the daemon over all open jobs leaves the row of a job
  -- that has one as it is.
  pub daemon_pass-keeps_row :
      (feed : Feed) (w : World) (job : String) (v : VerificationRow)
      → find_verification job w.verifications ≡ some v
      → find_verification job (daemon_pass libraries services feed w).1.verifications ≡ some v
  unfolding daemon_pass Has
  daemon_pass-keeps_row feed w job v h =
      (caught-Carries (Has job v) _ (
          bind-Carries (Has job v) _ _ (record { carries = λ w1 h1. h1 })
            λ jobs.
              bind-Carries (Has job v) _ _ (record { carries = λ w1 h1. h1 })
                λ recorded. visit_all-Carries feed job v recorded (open_jobs jobs))).carries
        w h
