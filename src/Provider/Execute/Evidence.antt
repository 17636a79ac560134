-- ===== src/Provider/Execute/Evidence.antt =====
-- The submitted receipts and the evidence file over a run of a worker past its checks.
use compute_markets.Prelude.{
  ◌≡◌, refl, sym, subst, String, Bool, true, false, not, ◌&&◌, ◌==◌, List, [], ◌∷◌, ◌++◌, Option,
  none, some, Result, ok, err, if◌then◌else◌, All, All-append,
}
use compute_markets.Prelude.Actions.{
  Exec, call, ◌>>=◌, Ensures, After, Ends, bind-Ends, call-Ends, stable-Ends,
}
use compute_markets.Json.{Json, str, field, end}
use compute_markets.Receipts.{Libraries, commitment, sign_payload}
use compute_markets.Receipts.Receipt.{receipt_json}
use compute_markets.Journal.{evidence_ready, read_evidence, evidence_path}
use compute_markets.Journal.Paths.{read_evidence-written}
use compute_markets.Provider.{submitted, World, Services, with_executor, read, send, note}
use compute_markets.Provider.Challenge.{upload_evidence}
use compute_markets.Provider.Bundle.{build_receipt, receipt_hash, bundle_json}
use compute_markets.Provider.Execute.{
  Task, is_execute, backend, cleanup, challenge_if_asked, upload_again, upload_only, resume,
  save_evidence, collect_evidence, submit_receipt, run_job, attempt, fail, finish, perform,
}
use compute_markets.Provider.Execute.Books.{
  submissions, submissions-append_submitted, SameBooks, read_keeps, with_executor_keeps, note_keeps,
  upload_keeps, cleanup-Keeps, challenge_if_asked-Keeps, resume-Keeps, upload_again-Keeps,
  fail-Keeps,
}
use compute_markets.Provider.Execute.Submitted.{
  IsReceiptOf, IsBacked, HasEvidence, backed, kept_evidence, kept_backed,
}

module _ {S : Type 0} (libraries : Libraries) (services : Services S) (t : Task) where
  abbrev E : World S → Type 0
  E = IsBacked libraries t.job

  -- A step that leaves the books alone, behind which the evidence is still known.
  step :
      {A B : Type 0} (e : Option Json) (m : Exec (World S) A) (f : A → Exec (World S) B)
      (T : B → World S → Type 0)
      → Ensures (SameBooks t.job) m
      → ((a : A) → Ends (HasEvidence libraries t.job e) (f a) T E)
      → Ends (HasEvidence libraries t.job e) (m >>= f) T E
  step e m f T kept each =
      bind-Ends E _ (λ _. HasEvidence libraries t.job e) T m f
        (stable-Ends E (SameBooks t.job) _ m kept (kept_evidence libraries t.job e)
          (backed libraries t.job e))
        each

  last_step :
      {A : Type 0} (e : Option Json) (m : Exec (World S) A)
      → Ensures (SameBooks t.job) m
      → Ends (HasEvidence libraries t.job e) m (λ _. E) E
  last_step {A = A} e m kept = record {
    ends = λ w h. go (m w) (kept_evidence libraries t.job e w (m w).1 h (kept.relates w));
  }
    where
      go : (r : Result A × World S) → HasEvidence libraries t.job e r.1 → After (λ _. E) E r
      go (ok a, w) h = backed libraries t.job e w h
      go (err x, w) h = backed libraries t.job e w h

  step_call :
      {A B : Type 0} (e : Option Json) (r : Result A) (f : A → Exec (World S) B)
      (T : B → World S → Type 0)
      → ((a : A) → r ≡ ok a → Ends (HasEvidence libraries t.job e) (f a) T E)
      → Ends (HasEvidence libraries t.job e) (call r >>= f) T E
  step_call e r f T each =
      call-Ends E (HasEvidence libraries t.job e) T r f (backed libraries t.job e) each

  -- The evidence is there whether the sending succeeds or not.
  sent-After :
      {e : Option Json} (r : Result String) (w : World S)
      → HasEvidence libraries t.job e w
      → After (λ _. HasEvidence libraries t.job e) E (r, w)
  sent-After {e = e} (ok signature) w h = h
  sent-After {e = e} (err message) w h = backed libraries t.job e w h

  submit_receipt-Ends :
      (bundle : Json)
      → Ends
          (HasEvidence libraries t.job (some bundle))
          (submit_receipt libraries services t bundle)
          (λ _. E)
          E
  unfolding submit_receipt
  submit_receipt-Ends bundle = step_call (some bundle) (receipt_hash libraries bundle) _ _ λ hash e.
      bind-Ends E _ (λ _. HasEvidence libraries t.job (some bundle)) _
        (send services (submitted t.job hash)) _
        (record {
          ends = λ w h. sent-After (services.send (submitted t.job hash)) _ (go hash e w h);
        })
        λ tx.
          step (some bundle) (call (services.confirm tx)) _ _
            (record { relates = λ w. (refl, refl) })
            λ confirmed.
              step (some bundle) (upload_evidence libraries services t.job bundle) _ _
                (upload_keeps t.job libraries services bundle)
                λ uploaded.
                  step (some bundle) (challenge_if_asked libraries services t bundle) _ _
                    (challenge_if_asked-Keeps libraries services t bundle)
                    λ challenged.
                      last_step (some bundle) _ (note_keeps t.job libraries services _ _)
    where
      go :
          (hash : String)
          → receipt_hash libraries bundle ≡ ok hash
          → (w : World S) → HasEvidence libraries t.job (some bundle) w
          → HasEvidence libraries t.job
              (some bundle)
              (record w { sent = w.sent ++ submitted t.job hash ∷ [] })
      go hash e w (found, all) = (
        found,
        subst (All (IsReceiptOf libraries (some bundle)))
            (sym (submissions-append_submitted t.job hash w.sent)) (All-append _ _ _ all (e, tt)),
      )

  no_submission : (hashes : List String) → All (IsReceiptOf libraries none) hashes → hashes ≡ []
  no_submission [] h = refl
  no_submission (hash ∷ hashes) h = absurd (h.0)

  save_evidence-Ends :
      (bundle : Json)
      → Ends
          (HasEvidence libraries t.job none)
          (save_evidence libraries services t bundle)
          (λ _. HasEvidence libraries t.job (some bundle))
          E
  save_evidence-Ends bundle = record {
    ends = λ w h. (
      read_evidence-written services.process_id t.job bundle w.files,
      subst (All (IsReceiptOf libraries (some bundle)))
          (sym (no_submission (submissions t.job w.sent) h.1)) tt,
    );
  }

  collect_evidence-Ends :
      (found : Option Json)
      → Ends
          (HasEvidence libraries t.job found)
          (collect_evidence libraries services t found)
          (λ bundle. HasEvidence libraries t.job (some bundle))
          E
  unfolding collect_evidence
  collect_evidence-Ends (some bundle) = record { ends = λ w h. h }
  collect_evidence-Ends none =
      step none (with_executor ((backend libraries services t).collect_result t.job)) _ _
        (with_executor_keeps t.job _)
        λ result. step_call none services.genesis_hash _ _ λ cluster e1.
          step none (read services.uuid) _ _ (read_keeps t.job services.uuid) λ nonce.
            step_call none
              (build_receipt libraries cluster services.program_id t.job t.account services.worker
                nonce t.spec t.hardware result)
              _ _
              λ receipt e2.
                step_call none (sign_payload libraries (receipt_json receipt) services.key) _ _
                  λ signed e3.
                    let bundle =
                      bundle_json services.to_base64 signed.0 signed.1 t.spec t.hardware result in
                    bind-Ends E _ (λ _. HasEvidence libraries t.job (some bundle)) _
                      (save_evidence libraries services t bundle) _ (save_evidence-Ends bundle)
                      λ saved.
                        step_call (some bundle) (commitment libraries (receipt_json receipt)) _ _
                          λ hash e4.
                            step (some bundle)
                              (note services t.job evidence_ready (
                                field "evidenceFile" (str (evidence_path t.job))
                                  (field "receiptHash" (str hash) end)))
                              _ _ (note_keeps t.job libraries services _ _)
                              λ noted. record { ends = λ w h. h }

  run_job-Ends :
      (found : Option Json)
      → Ends (HasEvidence libraries t.job found) (run_job libraries services t found) (λ _. E) E
  unfolding run_job
  run_job-Ends found =
      step found (resume libraries services t found) _ _ (resume-Keeps libraries services t found)
        λ resumed.
          bind-Ends E _ (λ bundle. HasEvidence libraries t.job (some bundle)) _
            (collect_evidence libraries services t found) _ (collect_evidence-Ends found)
            λ bundle.
              bind-Ends E _ (λ _. E) _ (submit_receipt libraries services t bundle) _
                (submit_receipt-Ends bundle) λ done. record { ends = λ w h. h }

  upload_only-Ends :
      (found : Option Json)
      → Ends (HasEvidence libraries t.job found) (upload_only libraries services t found) (λ _. E) E
  upload_only-Ends found =
      bind-Ends E _ (λ _. E) (λ _. E) (upload_again libraries services t found) _ (again found)
        (λ done. record { ends = λ w h. h })
    where
      again :
          (found : Option Json)
          → Ends
              (HasEvidence libraries t.job found)
              (upload_again libraries services t found)
              (λ _. E)
              E
      again none =
          last_step none (upload_again libraries services t none)
            (upload_again-Keeps libraries services t none)
      again (some bundle) =
          last_step (some bundle) (upload_again libraries services t (some bundle))
            (upload_again-Keeps libraries services t (some bundle))

  attempt-Ends : Ends E (attempt libraries services t) (λ _. E) E
  unfolding attempt ◌>>=◌
  attempt-Ends = record {
    ends = λ w h. go w h (not (is_execute t.command) && (t.account.state == 8));
  }
    where
      go :
          (w : World S)
          → E w
          → (b : Bool)
          → After
              (λ _. E)
              E
              ((if b
                  then upload_only libraries services t (read_evidence t.job w.files)
                  else run_job libraries services t (read_evidence t.job w.files))
                w)
      go w h true = (upload_only-Ends (read_evidence t.job w.files)).ends w (refl, h)
      go w h false = (run_job-Ends (read_evidence t.job w.files)).ends w (refl, h)

  pub perform-IsBacked : (w : World S) → E w → E (perform libraries services t w).1
  unfolding perform ◌>>=◌
  perform-IsBacked w h = finished (attempt libraries services t w) (attempt-Ends.ends w h)
    where
      noted : (message : String) (w : World S) → E w → E (fail libraries services t message w).1
      noted message w h =
          kept_backed libraries t.job w (fail libraries services t message w).1 h
            ((fail-Keeps libraries services t message).relates w)

      finished :
          (r : Result Bool × World S) → After (λ _. E) E r → E (finish libraries services t r).1
      finished (ok true, w) h =
          kept_backed libraries t.job w (cleanup libraries services t w).1 h
            ((cleanup-Keeps libraries services t).relates w)
      finished (ok false, w) h = h
      finished (err message, w) h = noted message w h
