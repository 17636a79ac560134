-- ===== src/Indexer/History/Busy.antt =====
-- A backfill while a pass of the reconciliation is under way.
use compute_markets.Prelude.{
  ℕ, ◌≡◌, refl, ap, sym, ◌∙◌, Bool, true, List, [], ◌∷◌, some, ok, if◌then◌else◌,
}
use compute_markets.Prelude.Actions.{call, related, Ensures, IsPreorder, bind-Ensures, call-Ensures}
use compute_markets.Indexer.{Transaction, ChainEvent, Database}
use compute_markets.Indexer.Reconcile.{Services, Passes, busy, free, reconcile}
use compute_markets.Indexer.History.{history_cursor, store_events, process_event, backfill}
use compute_markets.Indexer.History.Pages.{Lists}
use compute_markets.Indexer.History.Frame.{
  KeptByHistory, fetch-Ensures, process_pending_events-Ensures, record_price_history-Ensures,
  advance-Ensures,
}
use compute_markets.Indexer.History.Watermark.{has_run, run_advances}

abbrev SameRows : Database → Database → Type 0
SameRows a b = (a.rows ≡ b.rows) × (a.running ≡ b.running)

module _ (services : Services) where
  SameRows-KeptByHistory : KeptByHistory services SameRows
  unfolding store_events process_event
  SameRows-KeptByHistory = record {
    order = order;
    store = stores;
    process = λ row.
        bind-Ensures SameRows order (call (services.write_event row.signature)) _
          (call-Ensures SameRows order _) (λ accepted. record { relates = λ db. (refl, refl) });
    prices = λ value db. (refl, refl);
    cursors = λ value db. (refl, refl);
  }
    where
      order : IsPreorder SameRows
      order = record { same = λ db. (refl, refl); then = λ a b c h k. (h.0 ∙ k.0, h.1 ∙ k.1) }

      stores : (missing : List ChainEvent) → Ensures SameRows (store_events services missing)
      stores [] = record { relates = λ db. (refl, refl) }
      stores (e ∷ missing) =
          bind-Ensures SameRows order (call (services.write_events (e ∷ missing))) _
            (call-Ensures SameRows order _) (λ accepted. record { relates = λ db. (refl, refl) })

  busy_rows :
      (passes : Passes) (db after : Database)
      → db.running ≡ true
      → reconcile services passes db ≡ (ok tt, after)
      → db.rows ≡ after.rows
  unfolding reconcile
  busy_rows passes db after running h =
      ap (λ p. p.1.rows)
        (ap (λ (b : Bool). if b then busy db else free services passes db) (sym running) ∙ h)

  -- While a pass of `reconcile` is under way, a run of `backfill` that returns has left the projected
  -- rows as they were, although the history cursor then names the newest transaction of the history
  -- that the chain lists: it has advanced whatever becomes of that pass.
  pub backfill-advances_busy :
      (history : List Transaction) (lists : Lists services 1000 history) (fuel : ℕ)
      (passes : Passes) (db after : Database) (tx : Transaction) (older : List Transaction)
      → db.running ≡ true
      → history ≡ tx ∷ older
      → backfill services fuel passes db ≡ (ok tt, after)
      → (after.rows ≡ db.rows) × (history_cursor after ≡ some tx.signature)
  backfill-advances_busy history lists fuel passes db after tx older running e h =
      let run = has_run services fuel passes db after h in
      let kept = SameRows-KeptByHistory in
      let s0 =
        related SameRows _ db run.w1 _ (fetch-Ensures services SameRows kept 1000 _ fuel _ _)
          run.listed in
      let s1 = busy_rows passes run.w1 run.w2 (sym s0.1 ∙ running) run.reconciled in
      let s2 =
        related SameRows _ run.w2 run.w3 _ (process_pending_events-Ensures services SameRows kept)
          run.processed in
      let s3 =
        related SameRows _ run.w3 run.w4 _ (record_price_history-Ensures services SameRows kept)
          run.priced in
      let s4 =
        related SameRows _ run.w4 after _ (advance-Ensures services SameRows kept run.newest)
          run.ended in
      (
        sym (s0.0 ∙ s1 ∙ s2.0 ∙ s3.0 ∙ s4.0),
        run_advances services history lists fuel passes db after run tx older e,
      )
