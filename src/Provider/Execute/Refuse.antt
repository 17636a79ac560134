-- ===== src/Provider/Execute/Refuse.antt =====
-- The command `execute` on a job that has a journal.
use compute_markets.Prelude.{◌≡◌, refl, ap, ◌∙◌, String, some, Result, ok, err}
use compute_markets.Prelude.Actions.{Exec, call, continue, ◌>>=◌, After, Ends, bind-Ends, call-Ends}
use compute_markets.Json.{Json}
use compute_markets.JobSpec.{ComputeJobSpec}
use compute_markets.Receipts.{Libraries}
use compute_markets.Journal.{Journal, load_journal}
use compute_markets.Provider.{execute, World, Services, read}
use compute_markets.Provider.Execute.{Task, check_journal, check_task, perform, run_command}

module _ {S : Type 0} where
  -- Nothing was done: no file is written, no transaction sent, and the executor not called.
  abbrev pub IsUntouched : World S → World S → Type 0
  IsUntouched w after =
      (after.files ≡ w.files) × (after.executor ≡ w.executor) × (after.sent ≡ w.sent)

module _ {S : Type 0} (libraries : Libraries) (services : Services S) (job : String)
    (spec : ComputeJobSpec) (hardware : Json) where
  module _ (w : World S) (j : Journal) (known : load_journal job w.files ≡ ok (some j)) where
    abbrev Never : Task → World S → Type 0
    Never t after = ⊥

    calls :
        {A : Type 0} (r : Result A) (f : A → Exec (World S) Task)
        → ((a : A) → r ≡ ok a → Ends (IsUntouched w) (f a) Never (IsUntouched w))
        → Ends (IsUntouched w) (call r >>= f) Never (IsUntouched w)
    calls r f each = call-Ends (IsUntouched w) (IsUntouched w) Never r f (λ s h. h) each

    check_journal-refuses :
        Ends
          (IsUntouched w)
          (check_journal libraries services execute job)
          (λ fresh after. ⊥)
          (IsUntouched w)
    unfolding check_journal
    check_journal-refuses = record {
      ends = λ s h.
          let found : load_journal job s.files ≡ ok (some j) = ap (load_journal job) h.0 ∙ known in
          rw found h;
    }

    check_task-refuses :
        Ends
          (IsUntouched w)
          (check_task libraries services execute job spec hardware)
          Never
          (IsUntouched w)
    unfolding check_task
    check_task-refuses = calls (services.job_account job) _ λ a e1.
        calls (services.machine_hardware_hash a.machine) _ λ hardware_hash e2.
          calls _ _ λ assigned e3. calls _ _ λ matches e4.
            calls (services.authorization a.provider) _ λ auth e5.
              bind-Ends (IsUntouched w) _ (λ _. IsUntouched w) _ (read services.now_ms) _
                (record { ends = λ s h. h })
                λ now. calls _ _ λ authorized e6.
                  bind-Ends (IsUntouched w) _ (λ fresh after. ⊥) _
                    (check_journal libraries services execute job) _ check_journal-refuses
                    λ fresh. record { ends = λ s h. absurd h }

  -- While a job has a journal that can be loaded, the command `execute` throws, and has written no
  -- file, sent no transaction and not called the executor.
  pub run_command-refuses :
      (w : World S) (j : Journal)
      → load_journal job w.files ≡ ok (some j)
      → (message : String) × (after : World S) × (run_command libraries services execute job spec
            hardware w
          ≡ (err message, after))
        × IsUntouched w after
  unfolding run_command ◌>>=◌
  run_command-refuses w j known =
      go (check_task libraries services execute job spec hardware w)
        ((check_task-refuses w j known).ends w (refl, refl, refl))
    where
      go :
          (r : Result Task × World S)
          → After (λ t after. ⊥) (IsUntouched w) r
          → (message : String) × (after : World S) × (continue r (λ t. perform libraries services t)
              ≡ (err message, after))
            × IsUntouched w after
      go (ok t, after) h = absurd h
      go (err message, after) h = (message, after, refl, h)
