-- ===== src/Indexer/History.antt =====
-- `Indexer.backfill`: the program's transactions are read backwards from the newest, a page at a
-- time, down to the one that the history cursor names; the loop runs on fuel. A message is cut by
-- whole characters.
pub mod Pages
pub mod Events
pub mod Fetched
pub mod Frame
pub mod Watermark
pub mod Busy
pub mod Returns
use Prim.Native.Char.{code}
use Prim.Native.String
use Prim.Native.String.{◌++◌ as text_append}
use compute_markets.Prelude.{
  ℕ, zero, suc, ◌+◌, ◌-◌, String, Bool, true, false, not, ◌||◌, ltb, leb, List, [], ◌∷◌, ◌++◌, map,
  length, take, filter, any, Option, none, some, Result, ok, err, str_eq, find, if◌then◌else◌,
}
use compute_markets.Prelude.Int.{ℤ, pos, ◌-ℤ◌}
use compute_markets.Prelude.Sorting.{sort}
use compute_markets.Prelude.Actions.{Exec, return, throw, call, gets, update, for_each, ◌>>=◌}
use compute_markets.Json.{Json}
use compute_markets.Indexer.{Transaction, FetchedTransaction, ChainEvent, Cursor, Database}
use compute_markets.Indexer.Reconcile.{Services, Passes, write_cursor, reconcile}
use compute_markets.Indexer.Prices.{record_price_history}

pub record Decoded : Type 0 where
  pub processed : Bool
  pub error : Option String
  pub block_time : Option ℕ
  pub events : List (String × Json)

-- `message.slice(0, n)`.
abbrev pub message_start : ℕ → String → String
message_start n String.[] = String.[]
message_start n (String.◌∷◌ c s) =
    let width = if ltb (code c) 65536 then 1 else 2 in
    let rest = String.◌∷◌ c (message_start (n - width) s) in if leb width n then rest else String.[]

abbrev undecoded : String → Decoded
undecoded message = record {
  processed = false;
  error = some message;
  block_time = none;
  events = [];
}

abbrev pub decoded_events : Option ℕ → Result (List (String × Json)) → Decoded
decoded_events time (err message) = undecoded (message_start 1000 message)
decoded_events time (ok events) = record {
  processed = true;
  error = none;
  block_time = time;
  events = events;
}

abbrev pub decoded_of : Result (Option FetchedTransaction) → Decoded
decoded_of (err message) = undecoded (message_start 1000 message)
decoded_of (ok none) = undecoded "Finalized transaction unavailable"
decoded_of (ok (some fetched)) = decoded_events fetched.block_time fetched.events

-- `names.join(",")`.
abbrev pub join_names : String → List (String × Json) → String
join_names name [] = name
join_names name ((next, content) ∷ rest) = text_append name (text_append "," (join_names next rest))

abbrev pub event_name_of : List (String × Json) → Option String
event_name_of [] = none
event_name_of ((name, content) ∷ rest) = some (join_names name rest)

-- `decoded.error ?? (tx.err ? … : null)`.
abbrev pub error_of : Option String → Option String → Option String
error_of none failure = failure
error_of (some message) failure = some message

abbrev pub has_event : String → List ChainEvent → Bool
has_event signature events = any (λ e. str_eq e.signature signature) events

-- The upsert that ignores duplicates.
unfoldable pub insert_events : List ChainEvent → List ChainEvent → List ChainEvent
insert_events [] events = events
insert_events (e ∷ missing) events =
    insert_events missing (if has_event e.signature events then events else events ++ e ∷ [])

abbrev is_cursor : Option String → Transaction → Bool
is_cursor none tx = false
is_cursor (some signature) tx = str_eq tx.signature signature

-- The transactions of a page in front of the cursor's, and whether it is there.
unfoldable pub in_front : Option String → List Transaction → List Transaction
in_front cursor [] = []
in_front cursor (tx ∷ batch) =
    let rest = in_front cursor batch in if is_cursor cursor tx then [] else tx ∷ rest

unfoldable pub reaches : Option String → List Transaction → Bool
reaches cursor batch = any (is_cursor cursor) batch

-- `newest ??= batch[0].signature`.
abbrev pub or_first : Option String → Transaction → Option String
or_first none tx = some tx.signature
or_first (some signature) tx = some signature

-- The signature of the last transaction.
abbrev pub last_signature : Transaction → List Transaction → String
last_signature tx [] = tx.signature
last_signature tx (next ∷ batch) = last_signature next batch

abbrev pub cursor_signature : Option Cursor → Option String
cursor_signature none = none
cursor_signature (some cursor) = cursor.signature

abbrev pub history_cursor : Database → Option String
history_cursor db = cursor_signature (find (λ c. str_eq c.id "history") db.cursors)

-- `.eq("processed", false).order("slot", { ascending: true }).limit(100)`.
abbrev pub pending_events : Database → List ChainEvent
pending_events db =
    take 100 (sort (λ a b. pos a.slot -ℤ pos b.slot) (filter (λ e. not e.processed) db.events))

abbrev redecoded : String → Decoded → ChainEvent → ChainEvent
redecoded signature d e =
    if str_eq e.signature signature
    then record e {
      processed = d.processed;
      error = d.error;
      block_time = d.block_time;
      event_name = event_name_of d.events;
      event_data = d.events;
    }
    else e

module _ (services : Services) where
  -- `decodeTransaction`, which catches what the chain and the parser throw.
  unfoldable pub decode_transaction : String → Decoded
  decode_transaction signature = decoded_of (services.transaction signature)

  unfoldable pub event_of : Transaction → ChainEvent
  event_of tx =
      let d = decode_transaction tx.signature in
      record {
        signature = tx.signature;
        slot = tx.slot;
        processed = d.processed;
        error = error_of d.error tx.failure;
        block_time = d.block_time;
        event_name = event_name_of d.events;
        event_data = d.events;
      }

  -- `if (missing.length) …`.
  unfoldable pub store_events : List ChainEvent → Exec Database (Unit {0})
  store_events [] = return tt
  store_events (e ∷ missing) = do
    accepted ← call (services.write_events (e ∷ missing))
    update (λ db. record db { events = insert_events (e ∷ missing) db.events })

  -- The two exits of the loop's body.
  abbrev pub after_page :
      Bool → Option String → Exec Database (Option String) → Exec Database (Option String)
  after_page true newest rest = return newest
  after_page false newest rest = rest

  -- What is done with a page; `more` reads the next one, from `before` and `newest` on.
  abbrev pub read_page :
      ℕ
      → Option String
      → (Option String → Option String → Exec Database (Option String))
      → Option String
      → List Transaction
      → Exec Database (Option String)
  read_page limit cursor more newest [] = return newest
  read_page limit cursor more newest (first ∷ others) =
      let rest = more (some (last_signature first others)) (or_first newest first) in
      (do
        stored ← store_events (map event_of (in_front cursor (first ∷ others)))
        after_page (reaches cursor (first ∷ others) || ltb (length (first ∷ others)) limit)
            (or_first newest first) rest)

  -- The loop, with the size of a page, the cursor, and `before` and `newest` so far.
  unfoldable pub fetch :
      ℕ → Option String → ℕ → Option String → Option String → Exec Database (Option String)
  fetch limit cursor zero before newest = throw "out of fuel"
  fetch limit cursor (suc fuel) before newest = do
    batch ← call (services.signatures before)
    read_page limit cursor (fetch limit cursor fuel) newest batch

  unfoldable pub process_event : ChainEvent → Exec Database (Unit {0})
  process_event row = do
    accepted ← call (services.write_event row.signature)
    update (λ db. record db {
      events = map (redecoded row.signature (decode_transaction row.signature)) db.events;
    })

  unfoldable pub process_pending_events : Exec Database (Unit {0})
  process_pending_events = do
    readable ← call (services.read_table "chain_events")
    pending ← gets pending_events
    for_each process_event pending

  abbrev pub advance : Option String → Exec Database (Unit {0})
  advance none = return tt
  advance (some newest) =
      write_cursor services "history" (λ c. record c { signature = some newest })

  unfoldable pub backfill : ℕ → Passes → Exec Database (Unit {0})
  backfill fuel passes = do
    readable ← call (services.read_table "indexer_cursors")
    cursor ← gets history_cursor
    newest ← fetch 1000 cursor fuel none none
    reconciled ← reconcile services passes
    processed ← process_pending_events
    recorded ← record_price_history services
    advance newest
