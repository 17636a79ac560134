-- ===== src/Indexer/Reconcile/Frame.antt =====
-- What every write of a reconciliation keeps is kept by the whole of it.
use compute_markets.Prelude.{Bool, true, false, Result, ok, if◌then◌else◌}
use compute_markets.Prelude.Sorting.{sort}
use compute_markets.Prelude.Actions.{
  Exec, call, update, for_each, Ensures, IsPreorder, bind-Ensures, for_each-Ensures, call-Ensures,
}
use compute_markets.Indexer.{Row, Snapshot, Cursor, Database}
use compute_markets.Indexer.Reconcile.{
  Services, Passes, last, again, table_order, project_all, write_row, write_cursor, pass,
  while_dirty, run_passes, busy, free, reconcile,
}

pub record KeptByWrites (services : Services) (R : Database → Database → Type 0) : Type 0 where
  pub order : IsPreorder R
  pub row : (row : Row) → Ensures R (write_row services row)
  pub cursor : (change : Cursor → Cursor) → Ensures R (write_cursor services "reconcile" change)
  pub dirty : (value : Bool) (db : Database) → R db (record db { dirty = value })
  pub running : (value : Bool) (db : Database) → R db (record db { running = value })

module _ (services : Services) (R : Database → Database → Type 0)
    (kept : KeptByWrites services R) where
  pass-Ensures :
      (called : Bool) (answer : Result Snapshot) → Ensures R (pass services called answer)
  unfolding pass
  pass-Ensures called answer =
      bind-Ensures R kept.order (update (λ (db : Database). record db { dirty = called })) _
        (record { relates = kept.dirty called })
        λ started.
          bind-Ensures R kept.order (call answer) _ (call-Ensures R kept.order _) λ response.
            bind-Ensures R kept.order (call (project_all services response.slot response.accounts))
              _ (call-Ensures R kept.order _)
              λ rows.
                bind-Ensures R kept.order (for_each (write_row services) (sort table_order rows)) _
                  (for_each-Ensures R kept.order _ _ kept.row) λ written. kept.cursor _

  while_dirty-Ensures :
      (rest : Exec Database (Unit {0})) → Ensures R rest → Ensures R (while_dirty rest)
  while_dirty-Ensures rest h = record { relates = λ db. go db db.dirty }
    where
      go : (db : Database) (dirty : Bool) → R db ((if dirty then rest db else (ok tt, db)).1)
      go db true = h.relates db
      go db false = kept.order.same db

  run_passes-Ensures : (passes : Passes) → Ensures R (run_passes services passes)
  unfolding run_passes
  run_passes-Ensures (last answer) = pass-Ensures false answer
  run_passes-Ensures (again answer passes) =
      bind-Ensures R kept.order (pass services true answer) _ (pass-Ensures true answer)
        (λ done. while_dirty-Ensures (run_passes services passes) (run_passes-Ensures passes))

  free-Ensures : (passes : Passes) → Ensures R (free services passes)
  free-Ensures passes =
      bind-Ensures R kept.order (update (λ (db : Database). record db { running = true })) _
        (record { relates = kept.running true })
        (λ started. record {
          relates = λ db.
              let ended = (run_passes services passes db).1 in
              kept.order.then db ended _ ((run_passes-Ensures passes).relates db)
                (kept.running false ended);
        })

  -- Whether it returns or throws.
  pub reconcile-Ensures : (passes : Passes) → Ensures R (reconcile services passes)
  unfolding reconcile
  reconcile-Ensures passes = record { relates = λ db. go db db.running }
    where
      go :
          (db : Database) (running : Bool)
          → R db ((if running then busy db else free services passes db).1)
      go db true = kept.dirty true db
      go db false = (free-Ensures passes).relates db
