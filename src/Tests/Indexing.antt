-- ===== src/Tests/Indexing.antt =====
-- The indexer at a small chain: two transactions, and one account with a row.
use compute_markets.Prelude.{
  take, drop, ℕ, zero, suc, ◌≤◌, ◌≡◌, refl, String, Bool, true, false, length, List, [], ◌∷◌, ◌++◌,
  Option, none, some, ok, str_eq, if◌then◌else◌, arith,
}
use compute_markets.Prelude.Int.{pos}
use compute_markets.Prelude.Sorting.{sort}
use compute_markets.Prelude.Actions.{◌>>=◌, for_each}
use compute_markets.Json.{num, str, end, field}
use compute_markets.Indexer.{
  OfferAccount, offer_account, Row, Snapshot, Transaction, Market, Database,
}
use compute_markets.Indexer.Rows.{project}
use compute_markets.Indexer.Tables.{overlay, updated, upsert, apply_projection, find_row}
use compute_markets.Indexer.Tables.Latest.{Version, view, upsert_all, replay, upsert_all_refines}
use compute_markets.Indexer.Tables.Newest.{Shows, upsert_all-Shows}
use compute_markets.Indexer.Reconcile.{
  Services, last, again, project_account, project_all, write_row, write_cursor, pass, run_passes,
  reconcile,
}
use compute_markets.Indexer.Prices.{price_rows, put_price, record_price_history}
use compute_markets.Indexer.History.{
  insert_events, in_front, reaches, history_cursor, decode_transaction, event_of, store_events,
  fetch, process_event, process_pending_events, backfill,
}
use compute_markets.Indexer.History.Events.{EventsGrow, AreRecorded}
use compute_markets.Indexer.History.Pages.{before_at, Lists}
use compute_markets.Indexer.History.Watermark.{IsAdvanced, backfill-IsComplete}
use compute_markets.Indexer.History.Busy.{backfill-advances_busy}
use compute_markets.Indexer.History.Returns.{fetch-returns}

abbrev row_at : ℕ → String → Row
row_at slot created = record {
  table = "offers";
  id = "offer";
  slot = slot;
  columns = field "rate" (num (pos slot)) (field "created_at" (str created) end);
}

abbrev bid_row : Row
bid_row = record { table = "bids"; id = "offer"; slot = 9; columns = end }

upsert_all_refines_example :
    view (upsert_all (row_at 7 "b" ∷ bid_row ∷ row_at 5 "c" ∷ []) (row_at 6 "a" ∷ []))
    ≡ replay (row_at 7 "b" ∷ bid_row ∷ row_at 5 "c" ∷ []) (view (row_at 6 "a" ∷ []))
upsert_all_refines_example =
    upsert_all_refines (row_at 7 "b" ∷ bid_row ∷ row_at 5 "c" ∷ []) (row_at 6 "a" ∷ [])

created_once :
    find_row "offers" "offer"
      (upsert_all (row_at 7 "b" ∷ bid_row ∷ row_at 5 "c" ∷ []) (row_at 6 "a" ∷ []))
    ≡ some (record (row_at 7 "a") { slot = 7 })
unfolding find_row upsert updated overlay
created_once = refl

upsert_all-Shows_example :
    (v : Version) × (view
        (upsert_all ((row_at 5 "c" ∷ []) ++ row_at 7 "b" ∷ (bid_row ∷ [])) (row_at 6 "a" ∷ []))
        "offers"
        "offer"
      ≡ some v)
    × Shows (row_at 7 "b") v
unfolding find_row
upsert_all-Shows_example =
    upsert_all-Shows (row_at 7 "b") (row_at 5 "c" ∷ []) (bid_row ∷ []) (row_at 6 "a" ∷ [])
      ((λ same. omega arith), tt) ((λ other. absurd (cc)), tt) (omega arith)

abbrev transaction_at : ℕ → String → Transaction
transaction_at slot signature = record { signature = signature; slot = slot; failure = none }

abbrev two : List Transaction
two = transaction_at 8 "s2" ∷ transaction_at 7 "s1" ∷ []

abbrev pages : Option String → List Transaction
pages none = two
pages (some signature) = if str_eq signature "s2" then transaction_at 7 "s1" ∷ [] else []

abbrev sample_offer : OfferAccount
sample_offer = record {
  machine = "machine";
  rate = 3;
  min_seconds = 60;
  max_seconds = 600;
  expires_at = pos 1000;
  active = true;
}

abbrev sample_market : Market
sample_market = record {
  offers = record { id = "offer"; machine_id = "machine"; rate = "3" } ∷ [];
  machines =
      record {
        id = "machine";
        gpu_model = "Undisclosed";
        region = "EU";
        hardware_hash = "hash";
        active = true;
        busy = false;
      }
      ∷ [];
  heartbeats = record { machine_id = "machine"; timestamp = pos 950; available_gpu_count = 1 } ∷ [];
  reports = [];
}

abbrev services : Services
services = record {
  now = "1970-01-01T00:16:40.000Z";
  definitions = ("Offer", 1 ∷ []) ∷ [];
  decode = λ name content. ok (offer_account sample_offer);
  write_row = λ row. ok tt;
  write_cursor = λ id. ok tt;
  write_events = λ events. ok tt;
  write_event = λ signature. ok tt;
  write_prices = λ rows. ok tt;
  read_table = λ table. ok tt;
  signatures = λ before. ok (pages before);
  transaction = λ signature.
      if str_eq signature "s2"
      then ok none
      else ok (some (record { block_time = some 1; events = ok [] }));
  market = ok sample_market;
  now_seconds = 1000;
}

two_listed : Lists services 1000 two
two_listed = record { page = at }
  where
    at :
        (n : ℕ)
        → n ≤ length two
        → services.signatures (before_at n two) ≡ ok (take 1000 (drop n two))
    at zero h = refl
    at (suc zero) h = refl
    at (suc (suc zero)) h = refl
    at (suc (suc (suc n))) h = absurd (omega arith)

abbrev snapshot : Snapshot
snapshot = record {
  slot = 9;
  accounts =
      record { pubkey = "offer"; content = 1 ∷ 2 ∷ [] }
      ∷ record { pubkey = "x"; content = [] }
      ∷ [];
}

abbrev database : Bool → Database
database running = record {
  rows = [];
  events = [];
  cursors = record { id = "history"; slot = 0; signature = some "s1" } ∷ [];
  prices = [];
  running = running;
  dirty = false;
}

abbrev reconciled : Database
reconciled = (reconcile services (again (ok snapshot) (last (ok snapshot))) (database false)).1

abbrev filled : Bool → Database
filled running = (backfill services 3 (last (ok snapshot)) (database running)).1

backfill_runs :
    (running : Bool)
    → backfill services 3 (last (ok snapshot)) (database running) ≡ (ok tt, filled running)
unfolding ◌>>=◌ for_each backfill fetch store_events in_front reaches insert_events event_of
    decode_transaction reconcile run_passes pass project_all project_account project write_row
    write_cursor apply_projection sort process_pending_events process_event record_price_history
    price_rows put_price
backfill_runs true = refl
backfill_runs false = refl

backfill-IsComplete_example :
    AreRecorded (in_front (some "s1") two) (filled false)
    × EventsGrow (database false) (filled false)
    × IsAdvanced services two two_listed (filled false)
backfill-IsComplete_example =
    backfill-IsComplete services two two_listed 3 (last (ok snapshot)) (database false)
      (filled false) (backfill_runs false)

backfill-advances_busy_example :
    ((filled true).rows ≡ []) × (history_cursor (filled true) ≡ some "s2")
backfill-advances_busy_example =
    backfill-advances_busy services two two_listed 3 (last (ok snapshot)) (database true)
      (filled true) (transaction_at 8 "s2") (transaction_at 7 "s1" ∷ []) refl refl
      (backfill_runs true)

fetch-returns_example :
    (found : Option String) × (after : Database) × (fetch services 1000 none 3 none none
        (database false)
      ≡ (ok found, after))
fetch-returns_example =
    fetch-returns services none 999 two two_listed (λ events. refl) 3 0 none (database false)
      (omega arith) (omega arith)
