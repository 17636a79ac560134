-- ===== src/Provider/Execute/Books.antt =====
-- The steps of a worker's run that leave the job's evidence and the receipts submitted for it alone.
use compute_markets.Prelude.{
  ℕ, suc, ◌≡◌, refl, ap, sym, ◌∙◌, String, Bool, true, false, List, [], ◌∷◌, ◌++◌, Option, none,
  some, Result, ok, err, str_eq, eq_iff, if◌then◌else◌, ◌==◌, not, ◌&&◌,
}
use compute_markets.Prelude.Actions.{
  Exec, return, throw, call, ◌>>=◌, Ensures, IsPreorder, bind-Ensures, call-Ensures,
}
use compute_markets.Json.{Json, Fields}
use compute_markets.JobSpec.{ComputeJobSpec}
use compute_markets.Receipts.{Libraries}
use compute_markets.Journal.{JournalState, Journal, Files, record_journal, read_evidence}
use compute_markets.Journal.Paths.{read_evidence-recorded}
use compute_markets.Provider.{
  Sent, started, submitted, World, Services, with_executor, ignoring_errors, read, journaled, send,
  note,
}
use compute_markets.Provider.Challenge.{upload_evidence, complete_challenge}
use compute_markets.Provider.Execute.{
  Task, is_execute, is_challenge, is_some, backend, cleanup, challenge_if_asked, start_job,
  recover_with, recover_job, resume, upload_again, fail,
}

-- The hashes of the receipts submitted for a job.
abbrev pub submissions : String → List Sent → List String
submissions job [] = []
submissions job (started j ∷ sent) = submissions job sent
submissions job (submitted j hash ∷ sent) =
    let rest = submissions job sent in if str_eq j job then hash ∷ rest else rest

pub submissions-append_started :
    (job j : String) (sent : List Sent)
    → submissions job (sent ++ started j ∷ []) ≡ submissions job sent
submissions-append_started job j [] = refl
submissions-append_started job j (started i ∷ sent) = submissions-append_started job j sent
submissions-append_started job j (submitted i hash ∷ sent) =
    ap (λ rest. if str_eq i job then hash ∷ rest else rest) (submissions-append_started job j sent)

pub submissions-append_submitted :
    (job hash : String) (sent : List Sent)
    → submissions job (sent ++ submitted job hash ∷ []) ≡ submissions job sent ++ hash ∷ []
submissions-append_submitted job hash [] = rw ((eq_iff job job).1 refl) refl
submissions-append_submitted job hash (started j ∷ sent) =
    submissions-append_submitted job hash sent
submissions-append_submitted job hash (submitted j h ∷ sent) =
    go (str_eq j job) (submissions-append_submitted job hash sent)
  where
    go :
        (b : Bool)
        → submissions job (sent ++ submitted job hash ∷ []) ≡ submissions job sent ++ hash ∷ []
        → (if b
            then h ∷ submissions job (sent ++ submitted job hash ∷ [])
            else submissions job (sent ++ submitted job hash ∷ []))
          ≡ (if b then h ∷ submissions job sent else submissions job sent) ++ hash ∷ []
    go true ih = ap (◌∷◌ h) ih
    go false ih = ih

module _ {S : Type 0} (job : String) where
  abbrev pub SameBooks : World S → World S → Type 0
  SameBooks a b =
      (read_evidence job a.files ≡ read_evidence job b.files)
      × (submissions job a.sent ≡ submissions job b.sent)

  pub SameBooks-order : IsPreorder SameBooks
  SameBooks-order = record { same = λ w. (refl, refl); then = λ a b c h k. (h.0 ∙ k.0, h.1 ∙ k.1) }

  bind_keeps :
      {A B : Type 0} (m : Exec (World S) A) (f : A → Exec (World S) B)
      → Ensures SameBooks m
      → ((a : A) → Ensures SameBooks (f a))
      → Ensures SameBooks (m >>= f)
  bind_keeps m f h k = bind-Ensures SameBooks SameBooks-order m f h k

  call_keeps : {A : Type 0} (r : Result A) → Ensures SameBooks (call r)
  call_keeps r = call-Ensures SameBooks SameBooks-order r

  pub read_keeps : {A : Type 0} (values : ℕ → A) → Ensures SameBooks (read values)
  read_keeps values = record { relates = λ w. (refl, refl) }

  pub with_executor_keeps : {A : Type 0} (m : Exec S A) → Ensures SameBooks (with_executor m)
  with_executor_keeps m = record { relates = λ w. (refl, refl) }

  ignoring_errors_keeps :
      (m : Exec (World S) (Unit {0})) → Ensures SameBooks m → Ensures SameBooks (ignoring_errors m)
  ignoring_errors_keeps m h = record { relates = h.relates }

  ruleset keeping = (bind_keeps, call_keeps, read_keeps, with_executor_keeps)

  module _ (libraries : Libraries) (services : Services S) where
    pub note_keeps :
        (state : JournalState) (content : Fields)
        → Ensures SameBooks (note services job state content)
    unfolding note
    note_keeps state content = record {
      relates = λ w.
          go w
            (record_journal services.process_id (services.now_text w.readings) job state content
              w.files)
            refl;
    }
      where
        go :
            (w : World S) (r : Result (Journal × Files))
            → record_journal services.process_id
                (services.now_text w.readings)
                job
                state
                content
                w.files
              ≡ r
            → SameBooks w (journaled (record w { readings = suc w.readings }) r).1
        go w (ok (j, files)) e = (
          sym (read_evidence-recorded services.process_id _ job state content w.files files j e),
          refl,
        )
        go w (err x) e = (refl, refl)

    start_keeps : Ensures SameBooks (send services (started job))
    start_keeps = record { relates = λ w. (refl, sym (submissions-append_started job job w.sent)) }

    pub upload_keeps :
        (bundle : Json) → Ensures SameBooks (upload_evidence libraries services job bundle)
    unfolding upload_evidence
    upload_keeps bundle = search keeping

    pub complete_challenge_keeps :
        (bundle : Json) → Ensures SameBooks (complete_challenge libraries services job bundle)
    unfolding complete_challenge
    complete_challenge_keeps bundle = search keeping depth 60

module _ {S : Type 0} (libraries : Libraries) (services : Services S) (t : Task) where
  abbrev Keeps : {A : Type 0} → Exec (World S) A → Type 0
  Keeps m = Ensures (SameBooks t.job) m

  if_Keeps :
      {A : Type 0} (b : Bool) (m n : Exec (World S) A)
      → Keeps m
      → Keeps n
      → Keeps (if b then m else n)
  if_Keeps true m n h k = h
  if_Keeps false m n h k = k

  return-Keeps : {A : Type 0} (a : A) → Keeps (return a)
  return-Keeps a = record { relates = λ w. (refl, refl) }

  throw-Keeps : {A : Type 0} (message : String) → Keeps (throw {A = A} message)
  throw-Keeps message = record { relates = λ w. (refl, refl) }

  pub cleanup-Keeps : Keeps (cleanup libraries services t)
  cleanup-Keeps = record { relates = λ w. (refl, refl) }

  pub challenge_if_asked-Keeps :
      (bundle : Json) → Keeps (challenge_if_asked libraries services t bundle)
  challenge_if_asked-Keeps bundle =
      if_Keeps (is_challenge t.spec.policy) _ _
        (complete_challenge_keeps t.job libraries services bundle) (return-Keeps tt)

  start_job-Keeps : Keeps (start_job libraries services t)
  unfolding start_job
  start_job-Keeps =
      bind_keeps t.job _ _ (if_Keeps (is_execute t.command) _ _ (return-Keeps tt) cleanup-Keeps)
        λ cleaned. bind_keeps t.job _ _ (note_keeps t.job libraries services _ _) λ noted.
          bind_keeps t.job _ _ (with_executor_keeps t.job _) λ prepared.
            bind_keeps t.job _ _ (start_keeps t.job libraries services) λ tx.
              bind_keeps t.job _ _ (with_executor_keeps t.job _)
                λ begun. note_keeps t.job libraries services _ _

  recover_with-Keeps :
      (again : Option (String → ComputeJobSpec → List String → Exec S (Unit {0})))
      → Keeps (recover_with libraries services t again)
  recover_with-Keeps none = throw-Keeps _
  recover_with-Keeps (some m) = with_executor_keeps t.job (m t.job t.spec t.gpus)

  recover_job-Keeps : Keeps (recover_job libraries services t)
  unfolding recover_job
  recover_job-Keeps =
      bind_keeps t.job _ _ (recover_with-Keeps (backend libraries services t).recover)
        (λ done. note_keeps t.job libraries services _ _)

  pub resume-Keeps : (found : Option Json) → Keeps (resume libraries services t found)
  unfolding resume
  resume-Keeps found = if_Keeps (t.account.state == 4) _ _ start_job-Keeps (
      if_Keeps ((t.account.state == 6) && not (is_some found)) _ _ recover_job-Keeps
        (if_Keeps (t.account.state == 6) _ _ (return-Keeps tt) (throw-Keeps _)))

  pub upload_again-Keeps : (found : Option Json) → Keeps (upload_again libraries services t found)
  unfolding upload_again
  upload_again-Keeps none = throw-Keeps _
  upload_again-Keeps (some bundle) =
      bind_keeps t.job _ _ (upload_keeps t.job libraries services bundle) λ uploaded.
        bind_keeps t.job _ _ (challenge_if_asked-Keeps bundle)
          λ challenged. note_keeps t.job libraries services _ _

  pub fail-Keeps : (message : String) → Keeps (fail libraries services t message)
  fail-Keeps message =
      bind_keeps t.job _ _ (note_keeps t.job libraries services _ _) (λ noted. throw-Keeps message)
