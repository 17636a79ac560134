-- ===== src/Provider/Execute/Outcome.antt =====
-- What a worker's command leaves in the journal.
use compute_markets.Prelude.{
  suc, ◌≡◌, refl, String, Bool, true, false, not, ◌&&◌, ◌==◌, Option, none, some, Result, ok, err,
  ◌⊎◌, inl, inr, if◌then◌else◌,
}
use compute_markets.Prelude.Actions.{Exec, return, throw, continue, ◌>>=◌, After, Ends, bind-Ends}
use compute_markets.Json.{Json, bool, str, Fields, end, field}
use compute_markets.Receipts.{Libraries}
use compute_markets.Journal.{
  JournalState, state_name, receipt_committed, failed, Journal, Files, load_journal, record_journal,
}
use compute_markets.Journal.Laws.{record_journal-IsRecorded}
use compute_markets.Provider.{World, Services, journaled, note}
use compute_markets.Provider.Execute.{
  Task, is_execute, upload_again, upload_only, submit_receipt, run_job, attempt, finish, perform,
}

module _ {S : Type 0} (services : Services S) (job : String) where
  -- The job's journal can be loaded, and has this state.
  abbrev pub HasState : JournalState → World S → Type 0
  HasState state w =
      (j : Journal) × (load_journal job w.files ≡ ok (some j)) × (j.state ≡ state_name state)

  -- The job's journal refuses a new entry.
  abbrev pub IsUnwritable : World S → Type 0
  IsUnwritable w =
      (at : String) × (content : Fields) × (e : String) × (record_journal services.process_id at job
          failed content w.files
        ≡ err e)

  abbrev Any : World S → Type 0
  Any w = Unit

  noted_state :
      (state : JournalState) (content : Fields) (w : World S) (r : Result (Journal × Files))
      → record_journal services.process_id (services.now_text w.readings) job state content w.files
        ≡ r
      → After (λ _. HasState state) Any (journaled (record w { readings = suc w.readings }) r)
  noted_state state content w (err e) h = tt
  noted_state state content w (ok (j, files)) h =
      let is =
        record_journal-IsRecorded services.process_id _ job state content w.files files j h in
      (j, is.loaded, is.named)

  note-Ends :
      (state : JournalState) (content : Fields)
      → Ends Any (note services job state content) (λ _. HasState state) Any
  unfolding note
  note-Ends state content = record { ends = λ w h. noted_state state content w _ refl }

module _ {S : Type 0} (libraries : Libraries) (services : Services S) (t : Task) where
  abbrev AnyWorld : World S → Type 0
  AnyWorld w = Unit

  abbrev IsCommitted : World S → Type 0
  IsCommitted = HasState services t.job receipt_committed

  -- Nothing is known after a step that is not the last.
  any : {A : Type 0} (m : Exec (World S) A) → Ends AnyWorld m (λ _. AnyWorld) AnyWorld
  any {A = A} m = record { ends = λ w h. go (m w) }
    where
      go : (r : Result A × World S) → After (λ (_ : A). AnyWorld) AnyWorld r
      go (ok a, w) = tt
      go (err e, w) = tt

  then_commits :
      {A B : Type 0} (m : Exec (World S) A) (f : A → Exec (World S) B)
      → ((a : A) → Ends AnyWorld (f a) (λ _. IsCommitted) AnyWorld)
      → Ends AnyWorld (m >>= f) (λ _. IsCommitted) AnyWorld
  then_commits m f each = bind-Ends AnyWorld _ (λ _. AnyWorld) _ m f (any m) each

  return-IsCommitted :
      {A B : Type 0} (m : Exec (World S) A) (b : B)
      → Ends AnyWorld m (λ _. IsCommitted) AnyWorld
      → Ends AnyWorld (m >>= (λ _. return b)) (λ _. IsCommitted) AnyWorld
  return-IsCommitted m b h =
      bind-Ends AnyWorld _ (λ _. IsCommitted) _ m _ h (λ a. record { ends = λ w c. c })

  submit_receipt-commits :
      (bundle : Json)
      → Ends AnyWorld (submit_receipt libraries services t bundle) (λ _. IsCommitted) AnyWorld
  unfolding submit_receipt
  submit_receipt-commits bundle = then_commits _ _ λ hash. then_commits _ _ λ tx.
      then_commits _ _ λ confirmed.
        then_commits _ _
          λ uploaded. then_commits _ _ λ challenged. note-Ends services t.job receipt_committed _

  run_job-commits :
      (found : Option Json)
      → Ends AnyWorld (run_job libraries services t found) (λ _. IsCommitted) AnyWorld
  unfolding run_job
  run_job-commits found = then_commits _ _ λ resumed. then_commits _ _ λ bundle.
      return-IsCommitted (submit_receipt libraries services t bundle) true
        (submit_receipt-commits bundle)

  upload_again-commits :
      (found : Option Json)
      → Ends AnyWorld (upload_again libraries services t found) (λ _. IsCommitted) AnyWorld
  unfolding upload_again
  upload_again-commits none = record { ends = λ w h. h }
  upload_again-commits (some bundle) =
      then_commits _ _
        λ uploaded. then_commits _ _ λ challenged. note-Ends services t.job receipt_committed _

  attempt-commits : Ends AnyWorld (attempt libraries services t) (λ _. IsCommitted) AnyWorld
  unfolding attempt
  attempt-commits =
      then_commits _ _ λ found. by (not (is_execute t.command) && (t.account.state == 8)) found
    where
      by :
          (b : Bool) (found : Option Json)
          → Ends AnyWorld
              (if b
                then upload_only libraries services t found
                else run_job libraries services t found)
              (λ _. IsCommitted)
              AnyWorld
      by true found =
          return-IsCommitted (upload_again libraries services t found) false
            (upload_again-commits found)
      by false found = run_job-commits found

  -- A run past the checks that returns leaves a journal of the job whose state is RECEIPT_COMMITTED;
  -- one that throws leaves a journal whose state is FAILED, unless the job's journal could not be
  -- written any more.
  pub perform-HasState :
      (w : World S)
      → After
          (λ _. HasState services t.job receipt_committed)
          (λ w'. HasState services t.job failed w' ⊎ IsUnwritable services t.job w')
          (perform libraries services t w)
  unfolding perform note ◌>>=◌
  perform-HasState w = finished (attempt libraries services t w) (attempt-commits.ends w tt)
    where
      failing :
          (message : String) (w : World S) (content : Fields) (r : Result (Journal × Files))
          → record_journal services.process_id
              (services.now_text w.readings)
              t.job
              failed
              content
              w.files
            ≡ r
          → After
              (λ (_ : Unit {0}). IsCommitted)
              (λ w'. HasState services t.job failed w' ⊎ IsUnwritable services t.job w')
              (continue (journaled (record w { readings = suc w.readings }) r) (λ _. throw message))
      failing message w content (err e) h = inr (services.now_text w.readings, content, e, h)
      failing message w content (ok (j, files)) h =
          inl (noted_state services t.job failed content w (ok (j, files)) h)

      finished :
          (r : Result Bool × World S)
          → After (λ _. IsCommitted) AnyWorld r
          → After
              (λ _. IsCommitted)
              (λ w'. HasState services t.job failed w' ⊎ IsUnwritable services t.job w')
              (finish libraries services t r)
      finished (ok true, w) h = h
      finished (ok false, w) h = h
      finished (err message, w) h =
          failing message w (field "message" (str message) (field "recoverable" (bool true) end)) _
            refl
