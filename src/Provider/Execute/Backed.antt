-- ===== src/Provider/Execute/Backed.antt =====
-- The submitted receipts and the evidence file over the whole command `execute` or `recover`.
use compute_markets.Prelude.{◌≡◌, refl, sym, subst, String, Result, ok, err}
use compute_markets.Prelude.Actions.{Exec, call, continue, ◌>>=◌, After, Ends, bind-Ends, call-Ends}
use compute_markets.Json.{Json}
use compute_markets.JobSpec.{ComputeJobSpec}
use compute_markets.Receipts.{Libraries}
use compute_markets.Provider.{Command, World, Services, read}
use compute_markets.Provider.Execute.{Task, perform, check_journal, check_task, run_command}
use compute_markets.Provider.Execute.Submitted.{IsBacked}
use compute_markets.Provider.Execute.Evidence.{perform-IsBacked}

module _ {S : Type 0} (libraries : Libraries) (services : Services S) (command : Command)
    (job : String) (spec : ComputeJobSpec) (hardware : Json) where
  abbrev Checked : Task → World S → Type 0
  Checked t w = (t.job ≡ job) × IsBacked libraries job w

  calls :
      {A : Type 0} (r : Result A) (f : A → Exec (World S) Task)
      → ((a : A) → Ends (IsBacked libraries job) (f a) Checked (IsBacked libraries job))
      → Ends (IsBacked libraries job) (call r >>= f) Checked (IsBacked libraries job)
  calls r f each =
      call-Ends (IsBacked libraries job) (IsBacked libraries job) Checked r f (λ w h. h)
        (λ a e. each a)

  check_journal-Ends :
      Ends
        (IsBacked libraries job)
        (check_journal libraries services command job)
        (λ _. IsBacked libraries job)
        (IsBacked libraries job)
  unfolding check_journal
  check_journal-Ends = record {
    ends = λ w h. go w h (check_journal libraries services command job w).0;
  }
    where
      go :
          (w : World S)
          → IsBacked libraries job w
          → (r : Result (Unit {0}))
          → After (λ _. IsBacked libraries job) (IsBacked libraries job) (r, w)
      go w h (ok a) = h
      go w h (err e) = h

  check_task-Ends :
      Ends
        (IsBacked libraries job)
        (check_task libraries services command job spec hardware)
        Checked
        (IsBacked libraries job)
  unfolding check_task
  check_task-Ends = calls (services.job_account job) _ λ j.
      calls (services.machine_hardware_hash j.machine) _ λ hardware_hash. calls _ _ λ assigned.
        calls _ _ λ matches. calls (services.authorization j.provider) _ λ auth.
          bind-Ends (IsBacked libraries job) _ (λ _. IsBacked libraries job) _
            (read services.now_ms) _ (record { ends = λ w h. h })
            λ now. calls _ _ λ authorized.
              bind-Ends (IsBacked libraries job) _ (λ _. IsBacked libraries job) _
                (check_journal libraries services command job) _ check_journal-Ends
                λ fresh. calls _ _ λ kind. calls _ _ λ gpus. record { ends = λ w h. (refl, h) }

  -- Let every receipt hash handed to the network for a job so far be that of the receipt in the job's
  -- evidence file. Then so it is after the command `execute` or `recover` on this job, whether it
  -- returns or throws, whatever the executor, the chain, the API and the disk's earlier content: a
  -- hash is submitted only with its bundle in the file, and evidence behind a submitted hash is not
  -- overwritten.
  pub run_command-IsBacked :
      (w : World S)
      → IsBacked libraries job w
      → IsBacked libraries job (run_command libraries services command job spec hardware w).1
  unfolding run_command ◌>>=◌
  run_command-IsBacked w h =
      go (check_task libraries services command job spec hardware w) (check_task-Ends.ends w h)
    where
      go :
          (r : Result Task × World S)
          → After Checked (IsBacked libraries job) r
          → IsBacked libraries job (continue r (λ t. perform libraries services t)).1
      go (err e, w) h = h
      go (ok t, w) (same, h) =
          subst (λ j. IsBacked libraries j (perform libraries services t w).1) same
            (perform-IsBacked libraries services t w
              (subst (λ j. IsBacked libraries j w) (sym same) h))
