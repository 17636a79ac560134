-- ===== src/Indexer/Reconcile.antt =====
-- `Indexer.reconcile`: the program's accounts are read and written into the tables, once more for
-- as long as it is called meanwhile. The chain, the decoder of the program's interface and the
-- database's answers are the record `Services`.
pub mod Frame
pub mod Current
pub mod Complete
use compute_markets.Prelude.{
  ℕ, zero, suc, String, Bool, true, false, ◌&&◌, ◌==◌, List, [], ◌∷◌, Option, none, some, Result,
  ok, err, str_eq, if◌then◌else◌, find, chain,
}
use compute_markets.Prelude.Int.{ℤ, pos, negsuc, ◌-ℤ◌}
use compute_markets.Prelude.Sorting.{sort}
use compute_markets.Prelude.Actions.{Exec, return, call, gets, update, for_each, finally, ◌>>=◌}
use compute_markets.Policies.{index_of}
use compute_markets.Indexer.{
  Bytes, Account, Row, ProgramAccount, Snapshot, Transaction, FetchedTransaction, ChainEvent,
  Cursor, Market, PriceRow, Database,
}
use compute_markets.Indexer.Rows.{project}
use compute_markets.Indexer.Tables.{projection_tables, apply_projection}

pub record Services : Type 0 where
  -- `new Date().toISOString()`
  pub now : String
  -- the account kinds of the program's interface, with their discriminators
  pub definitions : List (String × Bytes)
  pub decode : String → Bytes → Result Account
  -- whether the database takes a write
  pub write_row : Row → Result (Unit {0})
  pub write_cursor : String → Result (Unit {0})
  pub write_events : List ChainEvent → Result (Unit {0})
  pub write_event : String → Result (Unit {0})
  pub write_prices : List PriceRow → Result (Unit {0})
  -- whether the database answers a query of a table
  pub read_table : String → Result (Unit {0})
  -- `getSignaturesForAddress` before a signature
  pub signatures : Option String → Result (List Transaction)
  -- `getTransaction`, and the events that the parser finds in its log
  pub transaction : String → Result (Option FetchedTransaction)
  -- the rows that the price history is made of
  pub market : Result Market
  -- `Math.floor(Date.now() / 1000)`
  pub now_seconds : ℕ

abbrev pub starts_with : Bytes → Bytes → Bool
starts_with [] bytes = true
starts_with (d ∷ ds) [] = false
starts_with (d ∷ ds) (b ∷ bytes) = d == b && starts_with ds bytes

abbrev table_index : Row → ℤ
table_index row = elim (index_of projection_tables row.table) [ none ↦ negsuc 0 | some n ↦ pos n ]

-- `order.indexOf(a.table) - order.indexOf(b.table)`.
abbrev pub table_order : Row → Row → ℤ
table_order a b = table_index a -ℤ table_index b

-- The upsert of a cursor by its id; what is not sent keeps its value, or has its default.
unfoldable pub put_cursor : String → (Cursor → Cursor) → List Cursor → List Cursor
put_cursor id change [] = change (record { id = id; slot = 0; signature = none }) ∷ []
put_cursor id change (c ∷ cursors) =
    let rest = put_cursor id change cursors in
    if str_eq c.id id then change c ∷ cursors else c ∷ rest

-- Each pass with the answer of the chain; `again` is a pass during which `reconcile` was called.
pub data Passes : Type 0 where
  last : Result Snapshot → Passes
  again : Result Snapshot → Passes → Passes

abbrev pub busy : Exec Database (Unit {0})
busy = update (λ db. record db { dirty = true })

-- `while (this.dirty)`.
abbrev pub while_dirty : Exec Database (Unit {0}) → Exec Database (Unit {0})
while_dirty rest db = if db.dirty then rest db else (ok tt, db)

module _ (services : Services) where
  abbrev project_decoded : ProgramAccount → ℕ → Option (String × Bytes) → Result (Option Row)
  project_decoded item slot none = ok none
  project_decoded item slot (some (name, discriminator)) =
      chain (project services.now item.pubkey slot) (services.decode name item.content)

  -- The body of `response.value.map`.
  unfoldable pub project_account : ℕ → ProgramAccount → Result (Option Row)
  project_account slot item =
      project_decoded item slot
        (find (λ definition. starts_with definition.1 item.content) services.definitions)

  abbrev pub add_row : Option Row → List Row → List Row
  add_row none rows = rows
  add_row (some row) rows = row ∷ rows

  -- `map`, and `filter` of what is not null.
  unfoldable pub project_all : ℕ → List ProgramAccount → Result (List Row)
  project_all slot [] = ok []
  project_all slot (item ∷ items) =
      chain (λ row. chain (λ rows. ok (add_row row rows)) (project_all slot items))
        (project_account slot item)

  abbrev pub stored : Database → Result (List Row) → Result (Unit {0}) × Database
  stored db (ok rows) = (ok tt, record db { rows = rows })
  stored db (err e) = (err e, db)

  unfoldable pub write_row : Row → Exec Database (Unit {0})
  write_row row = do
    accepted ← call (services.write_row row)
    λ db. stored db (apply_projection row db.rows)

  unfoldable pub write_cursor : String → (Cursor → Cursor) → Exec Database (Unit {0})
  write_cursor id change = do
    accepted ← call (services.write_cursor id)
    update (λ db. record db { cursors = put_cursor id change db.cursors })

  -- The body of the loop; `called` tells whether `dirty` is set while it runs.
  unfoldable pub pass : Bool → Result Snapshot → Exec Database (Unit {0})
  pass called answer = do
    started ← update (λ db. record db { dirty = called })
    response ← call answer
    rows ← call (project_all response.slot response.accounts)
    written ← for_each write_row (sort table_order rows)
    write_cursor "reconcile" (λ cursor. record cursor { slot = response.slot })

  -- `do … while (this.dirty)`; no further pass follows one during which nothing called.
  unfoldable pub run_passes : Passes → Exec Database (Unit {0})
  run_passes (last answer) = pass false answer
  run_passes (again answer passes) =
      let rest = run_passes passes in (do done ← pass true answer; while_dirty rest)

  abbrev pub free : Passes → Exec Database (Unit {0})
  free passes = do
    started ← update (λ db. record db { running = true })
    finally (run_passes passes) (λ db. record db { running = false })

  unfoldable pub reconcile : Passes → Exec Database (Unit {0})
  reconcile passes db = if db.running then busy db else free passes db
