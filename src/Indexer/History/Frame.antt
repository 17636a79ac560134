-- ===== src/Indexer/History/Frame.antt =====
-- What every write of a backfill keeps is kept by each of its parts.
use compute_markets.Prelude.{
  ℕ, zero, suc, String, Bool, true, false, ◌||◌, ltb, length, List, [], ◌∷◌, map, Option, none,
  some,
}
use compute_markets.Prelude.Actions.{
  Exec, call, gets, Ensures, IsPreorder, bind-Ensures, for_each-Ensures, call-Ensures, gets-Ensures,
}
use compute_markets.Indexer.{Transaction, ChainEvent, Cursor, PriceRow, Database}
use compute_markets.Indexer.Reconcile.{Services, write_cursor}
use compute_markets.Indexer.Prices.{store_prices, record_price_history}
use compute_markets.Indexer.History.{
  in_front, reaches, or_first, last_signature, pending_events, event_of, store_events, after_page,
  read_page, fetch, process_event, process_pending_events, advance,
}

pub record KeptByHistory (services : Services) (R : Database → Database → Type 0) : Type 0 where
  pub order : IsPreorder R
  pub store : (missing : List ChainEvent) → Ensures R (store_events services missing)
  pub process : (row : ChainEvent) → Ensures R (process_event services row)
  pub prices : (value : List PriceRow) (db : Database) → R db (record db { prices = value })
  pub cursors : (value : List Cursor) (db : Database) → R db (record db { cursors = value })

module _ (services : Services) (R : Database → Database → Type 0)
    (kept : KeptByHistory services R) where
  after_page-Ensures :
      (stops : Bool) (newest : Option String) (rest : Exec Database (Option String))
      → Ensures R rest
      → Ensures R (after_page services stops newest rest)
  after_page-Ensures true newest rest h = record { relates = λ db. kept.order.same db }
  after_page-Ensures false newest rest h = h

  read_page-Ensures :
      (limit : ℕ) (cursor : Option String)
      (more : Option String → Option String → Exec Database (Option String))
      (newest : Option String) (batch : List Transaction)
      → ((before known : Option String) → Ensures R (more before known))
      → Ensures R (read_page services limit cursor more newest batch)
  read_page-Ensures limit cursor more newest [] h = record { relates = λ db. kept.order.same db }
  read_page-Ensures limit cursor more newest (first ∷ others) h =
      bind-Ensures R kept.order
        (store_events services (map (event_of services) (in_front cursor (first ∷ others)))) _
        (kept.store _)
        (λ stored.
          after_page-Ensures
            (reaches cursor (first ∷ others) || ltb (length (first ∷ others)) limit)
            (or_first newest first) _
            (h (some (last_signature first others)) (or_first newest first)))

  pub fetch-Ensures :
      (limit : ℕ) (cursor : Option String) (fuel : ℕ) (before newest : Option String)
      → Ensures R (fetch services limit cursor fuel before newest)
  unfolding fetch
  fetch-Ensures limit cursor zero before newest = record { relates = λ db. kept.order.same db }
  fetch-Ensures limit cursor (suc fuel) before newest =
      bind-Ensures R kept.order (call (services.signatures before)) _ (call-Ensures R kept.order _)
        λ batch.
          read_page-Ensures limit cursor (fetch services limit cursor fuel) newest batch
            (fetch-Ensures limit cursor fuel)

  pub process_pending_events-Ensures : Ensures R (process_pending_events services)
  unfolding process_pending_events
  process_pending_events-Ensures =
      bind-Ensures R kept.order (call (services.read_table "chain_events")) _
        (call-Ensures R kept.order _)
        λ readable.
          bind-Ensures R kept.order (gets pending_events) _ (gets-Ensures R kept.order _)
            λ pending. for_each-Ensures R kept.order (process_event services) pending kept.process

  store_prices-Ensures : (rows : List PriceRow) → Ensures R (store_prices services rows)
  store_prices-Ensures [] = record { relates = λ db. kept.order.same db }
  store_prices-Ensures (row ∷ rows) =
      bind-Ensures R kept.order (call (services.write_prices (row ∷ rows))) _
        (call-Ensures R kept.order _) (λ accepted. record { relates = λ db. kept.prices _ db })

  pub record_price_history-Ensures : Ensures R (record_price_history services)
  unfolding record_price_history
  record_price_history-Ensures =
      bind-Ensures R kept.order (call services.market) _ (call-Ensures R kept.order _)
        (λ market. store_prices-Ensures _)

  pub advance-Ensures : (newest : Option String) → Ensures R (advance services newest)
  unfolding write_cursor
  advance-Ensures none = record { relates = λ db. kept.order.same db }
  advance-Ensures (some newest) =
      bind-Ensures R kept.order (call (services.write_cursor "history")) _
        (call-Ensures R kept.order _) (λ accepted. record { relates = λ db. kept.cursors _ db })
