-- ===== src/Indexer/Reconcile/Complete.antt =====
-- A reconciliation that returns has written the whole of its last answer.
use compute_markets.Prelude.{Bool, false, ◌≡◌, some, Result, ok, Occurs}
use compute_markets.Indexer.{Row, ProgramAccount, Snapshot, Database}
use compute_markets.Indexer.Reconcile.{Services, Passes, last, again, project_account}
use compute_markets.Indexer.Reconcile.Current.{HoldsRow}

-- The indexer's own flag.
abbrev SameDirty : Database → Database → Type 0
SameDirty a b = a.dirty ≡ b.dirty

-- The answer of the last pass.
abbrev pub final_answer : Passes → Result Snapshot
final_answer (last answer) = answer
final_answer (again answer passes) = final_answer passes

-- Every account of the answer that has a row stands in its table, at the answer's state or a later
-- one, and no call is left unserved.
pub record IsCurrent (services : Services) (response : Snapshot) (db : Database) : Type 0 where
  pub rows :
      (item : ProgramAccount) (row : Row)
      → Occurs item response.accounts
      → project_account services response.slot item ≡ ok (some row)
      → HoldsRow row db.rows
  pub served : db.dirty ≡ false

module _ (services : Services) where
  -- What a pass that returns has done.
  record HasPassed (called : Bool) (answer : Result Snapshot) (after : Database) : Type 0 where
    response : Snapshot
    answered : answer ≡ ok response
    rows :
        (item : ProgramAccount) (row : Row)
        → Occurs item response.accounts
        → project_account services response.slot item ≡ ok (some row)
        → HoldsRow row after.rows
    dirty : after.dirty ≡ called
