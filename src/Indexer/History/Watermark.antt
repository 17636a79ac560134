-- ===== src/Indexer/History/Watermark.antt =====
-- What holds when the history cursor has been advanced.
use compute_markets.Prelude.{
  ℕ, ◌≡◌, refl, ap, sym, ◌∙◌, String, List, [], ◌∷◌, map, Option, none, some, Result, ok, err,
  ok-injective, find, str_eq, eq_iff, arith, Bool-cases, inl, inr,
}
use compute_markets.Prelude.Actions.{
  call, gets, returned, related, Ensures, bind-Ensures, call-Ensures,
}
use compute_markets.Indexer.{Row, Transaction, ChainEvent, Cursor, Database}
use compute_markets.Indexer.Tables.{apply_projection}
use compute_markets.Indexer.Reconcile.{
  Services, Passes, put_cursor, stored, write_row, write_cursor, reconcile,
}
use compute_markets.Indexer.Reconcile.Frame.{KeptByWrites, reconcile-Ensures}
use compute_markets.Indexer.Prices.{record_price_history}
use compute_markets.Indexer.History.{
  has_event, in_front, history_cursor, cursor_signature, redecoded, decode_transaction, fetch,
  process_event, process_pending_events, advance, backfill,
}
use compute_markets.Indexer.History.Events.{
  EventsGrow, EventsGrow-order, AreRecorded, AreRecorded-EventsGrow, store_events-Ensures,
}
use compute_markets.Indexer.History.Pages.{Lists, or_head}
use compute_markets.Indexer.History.Fetched.{HasFetched, fetched}
use compute_markets.Indexer.History.Frame.{
  KeptByHistory, process_pending_events-Ensures, record_price_history-Ensures, advance-Ensures,
}

has_event-redecoded :
    (s signature : String) (d : _) (events : List ChainEvent)
    → has_event s (map (redecoded signature d) events) ≡ has_event s events
has_event-redecoded s signature d [] = refl
has_event-redecoded s signature d (e ∷ events) =
    ground (arith, eq_iff e.signature signature, has_event-redecoded s signature d events)

module _ (services : Services) where
  process_event-Ensures : (row : ChainEvent) → Ensures EventsGrow (process_event services row)
  unfolding process_event
  process_event-Ensures row =
      bind-Ensures EventsGrow EventsGrow-order (call (services.write_event row.signature)) _
        (call-Ensures EventsGrow EventsGrow-order _)
        (λ accepted. record {
          relates = λ db s h.
              has_event-redecoded s row.signature (decode_transaction services row.signature)
                db.events
              ∙ h;
        })

  EventsGrow-KeptByHistory : KeptByHistory services EventsGrow
  EventsGrow-KeptByHistory = record {
    order = EventsGrow-order;
    store = store_events-Ensures services;
    process = process_event-Ensures;
    prices = λ value db s h. h;
    cursors = λ value db s h. h;
  }

  EventsGrow-KeptByWrites : KeptByWrites services EventsGrow
  unfolding write_row write_cursor
  EventsGrow-KeptByWrites = record {
    order = EventsGrow-order;
    row = λ row.
        bind-Ensures EventsGrow EventsGrow-order (call (services.write_row row)) _
          (call-Ensures EventsGrow EventsGrow-order _)
          (λ accepted. record { relates = λ db. unchanged db (apply_projection row db.rows) });
    cursor = λ change.
        bind-Ensures EventsGrow EventsGrow-order (call (services.write_cursor "reconcile")) _
          (call-Ensures EventsGrow EventsGrow-order _)
          (λ accepted. record { relates = λ db s h. h });
    dirty = λ value db s h. h;
    running = λ value db s h. h;
  }
    where
      unchanged : (db : Database) (r : Result (List Row)) → EventsGrow db (stored services db r).1
      unchanged db (ok rows) s h = h
      unchanged db (err e) s h = h

  find-put_cursor :
      (id : String) (change : Cursor → Cursor) (cursors : List Cursor)
      → ((c : Cursor) → (change c).id ≡ c.id)
      → (old : Cursor) × (find (λ c. str_eq c.id id) (put_cursor id change cursors)
          ≡ some (change old))
  unfolding put_cursor
  find-put_cursor id change [] keeps = (
    record { id = id; slot = 0; signature = none },
    rw (keeps (record { id = id; slot = 0; signature = none }), (eq_iff id id).1 refl) refl,
  )
  find-put_cursor id change (c ∷ cursors) keeps =
      let (old, found) = find-put_cursor id change cursors keeps in
      elim (Bool-cases (str_eq c.id id)) [
        | inl same ↦ (c, rw (same, keeps c, same) refl)
        | inr different ↦ (old, rw (different, different, found) refl)
      ]

  advanced :
      (newest : String) (db after : Database)
      → advance services (some newest) db ≡ (ok tt, after)
      → history_cursor after ≡ some newest
  unfolding write_cursor
  advanced newest db after h =
      returned (call (services.write_cursor "history")) _ db after h λ accepted mid e h1.
        let (old, found) =
          find-put_cursor "history" (λ c. record c { signature = some newest }) mid.cursors
            (λ c. refl) in
        ap history_cursor (sym (ap (λ p. p.1) h1)) ∙ ap cursor_signature found

  -- A run that returns, part by part.
  pub record HasRun (fuel : ℕ) (passes : Passes) (db after : Database) : Type 0 where
    pub newest : Option String
    pub w1 : Database
    pub w2 : Database
    pub w3 : Database
    pub w4 : Database
    pub listed : fetch services 1000 (history_cursor db) fuel none none db ≡ (ok newest, w1)
    pub reconciled : reconcile services passes w1 ≡ (ok tt, w2)
    pub processed : process_pending_events services w2 ≡ (ok tt, w3)
    pub priced : record_price_history services w3 ≡ (ok tt, w4)
    pub ended : advance services newest w4 ≡ (ok tt, after)

  pub has_run :
      (fuel : ℕ) (passes : Passes) (db after : Database)
      → backfill services fuel passes db ≡ (ok tt, after)
      → HasRun fuel passes db after
  unfolding backfill
  has_run fuel passes db after h =
      returned (call (services.read_table "indexer_cursors")) _ db after h λ readable d1 e1 h1.
        returned (gets history_cursor) _ d1 after h1 λ cursor d2 e2 h2.
          returned (fetch services 1000 cursor fuel none none) _ d2 after h2 λ newest d3 e3 h3.
            returned (reconcile services passes) _ d3 after h3 λ done d4 e4 h4.
              returned (process_pending_events services) _ d4 after h4 λ processed d5 e5 h5.
                returned (record_price_history services) _ d5 after h5 λ recorded d6 e6 h6.
                  let start : db ≡ d2 = ap (λ p. p.1) e1 ∙ ap (λ p. p.1) e2 in
                  let from : history_cursor db ≡ cursor =
                    ap history_cursor (ap (λ p. p.1) e1) ∙ ok-injective (ap (λ p. p.0) e2) in
                  record {
                    newest = newest;
                    w1 = d3;
                    w2 = d4;
                    w3 = d5;
                    w4 = d6;
                    listed =
                        ap (λ c. fetch services 1000 c fuel none none db) from
                        ∙ ap (fetch services 1000 cursor fuel none none) start
                        ∙ e3;
                    reconciled = e4;
                    processed = e5;
                    priced = e6;
                    ended = h6;
                  }

  module _ (history : List Transaction) (lists : Lists services 1000 history) where
    -- The cursor names the newest transaction, if there is any.
    abbrev pub IsAdvanced : Database → Type 0
    IsAdvanced db =
        (tx : Transaction) (older : List Transaction)
        → history ≡ tx ∷ older
        → history_cursor db ≡ some tx.signature

    fetched_all :
        (fuel : ℕ) (passes : Passes) (db after : Database) (run : HasRun fuel passes db after)
        → HasFetched services
            (history_cursor db)
            999
            history
            lists
            history
            none
            run.newest
            db
            run.w1
    fetched_all fuel passes db after run =
        fetched services (history_cursor db) 999 history lists fuel 0 none run.newest db run.w1
          (omega arith) run.listed

    pub run_advances :
        (fuel : ℕ) (passes : Passes) (db after : Database)
        → HasRun fuel passes db after
        → IsAdvanced after
    run_advances fuel passes db after run tx older e =
        let newest : run.newest ≡ some tx.signature =
          (fetched_all fuel passes db after run).newest ∙ ap (or_head none) e in
        advanced tx.signature run.w4 after
          (ap (λ n. advance services n run.w4) (sym newest) ∙ run.ended)

    -- Let the chain list a history of transactions, the newest first, in pages of a thousand. A run
    -- of `backfill` that returns leaves an event row for every transaction in front of the one that
    -- the history cursor named, or for all if it named none of them; it removes no row; and the
    -- cursor then names the newest transaction, if there is any.
    pub backfill-IsComplete :
        (fuel : ℕ) (passes : Passes) (db after : Database)
        → backfill services fuel passes db ≡ (ok tt, after)
        → AreRecorded (in_front (history_cursor db) history) after
          × EventsGrow db after
          × IsAdvanced after
    backfill-IsComplete fuel passes db after h =
        let run = has_run fuel passes db after h in
        let got = fetched_all fuel passes db after run in
        let R = EventsGrow in
        let order = EventsGrow-order in
        let kept = EventsGrow-KeptByHistory in
        let s1 =
          related R _ run.w1 run.w2 _ (reconcile-Ensures services R EventsGrow-KeptByWrites passes)
            run.reconciled in
        let s2 =
          related R _ run.w2 run.w3 _ (process_pending_events-Ensures services R kept)
            run.processed in
        let s3 =
          related R _ run.w3 run.w4 _ (record_price_history-Ensures services R kept) run.priced in
        let s4 =
          related R _ run.w4 after _ (advance-Ensures services R kept run.newest) run.ended in
        let later =
          order.then run.w1 run.w2 after s1
            (order.then run.w2 run.w3 after s2 (order.then run.w3 run.w4 after s3 s4)) in
        (
          AreRecorded-EventsGrow _ run.w1 after got.recorded later,
          order.then db run.w1 after got.grown later,
          run_advances fuel passes db after run,
        )
