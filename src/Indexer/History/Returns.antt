-- ===== src/Indexer/History/Returns.antt =====
-- The loop over the pages ends.
use compute_markets.Prelude.{
  String, ℕ, zero, suc, ◌+◌, ◌≤◌, ◌<◌, ◌≡◌, refl, ltb, List, [], ◌∷◌, length, take, drop, map,
  Option, ok, arith, Bool-cases, inl, inr,
}
use compute_markets.Prelude.Actions.{◌>>=◌}
use compute_markets.Indexer.{Transaction, ChainEvent, Database}
use compute_markets.Indexer.Reconcile.{Services}
use compute_markets.Indexer.History.{
  insert_events, in_front, reaches, or_first, event_of, store_events, read_page, fetch,
}
use compute_markets.Indexer.History.Pages.{before_at, Lists}
use compute_markets.Indexer.History.Fetched.{next_place}

module _ (services : Services) where
  stores :
      ((es : List ChainEvent) → services.write_events es ≡ ok tt)
      → (missing : List ChainEvent) (db : Database)
      → (after : Database) × (store_events services missing db ≡ (ok tt, after))
  unfolding store_events ◌>>=◌
  stores writes [] db = (db, refl)
  stores writes (e ∷ missing) db =
      (record db { events = insert_events (e ∷ missing) db.events }, rw (writes (e ∷ missing)) refl)

  module _ (cursor : Option String) (k : ℕ) (history : List Transaction)
      (lists : Lists services (suc k) history)
      (writes : (es : List ChainEvent) → services.write_events es ≡ ok tt) where
    -- If the database takes the events, the loop returns from every place of the history, on more
    -- fuel than there are transactions behind it.
    pub fetch-returns :
        (fuel n : ℕ) (known : Option String) (db : Database)
        → n ≤ length history
        → length history < n + fuel
        → (found : Option String) × (after : Database) × (fetch services
              (suc k)
              cursor
              fuel
              (before_at n history)
              known
              db
            ≡ (ok found, after))
    unfolding fetch ◌>>=◌
    fetch-returns zero n known db le enough = absurd (omega arith)
    fetch-returns (suc fuel) n known db le enough = rw (lists.page n le) (
        by_batch fuel n known db le
          (λ known' mid (p : suc (n + k) ≤ length history).
            fetch-returns fuel (suc (n + k)) known' mid p (omega arith))
          (take (suc k) (drop n history)) refl)
      where
        by_batch :
            (fuel n : ℕ) (known : Option String) (db : Database)
            → n ≤ length history
            → ((known' : Option String) (mid : Database)
                → suc (n + k) ≤ length history
                → (found : Option String) × (after : Database) × (fetch services
                      (suc k)
                      cursor
                      fuel
                      (before_at (suc (n + k)) history)
                      known'
                      mid
                    ≡ (ok found, after)))
            → (batch : List Transaction) → batch ≡ take (suc k) (drop n history)
            → (found : Option String) × (after : Database) × (read_page services
                  (suc k)
                  cursor
                  (fetch services (suc k) cursor fuel)
                  known
                  batch
                  db
                ≡ (ok found, after))
        by_batch fuel n known db le ih [] page = (known, db, refl)
        by_batch fuel n known db le ih (first ∷ others) page =
            let (mid, e) =
              stores writes (map (event_of services) (in_front cursor (first ∷ others))) db in
            rw e (elim (Bool-cases (reaches cursor (first ∷ others))) [
              | inl reached ↦ rw reached (or_first known first, mid, refl)
              | inr missed ↦ elim (Bool-cases (ltb (length (first ∷ others)) (suc k))) [
                | inl short ↦ rw (missed, short) (or_first known first, mid, refl)
                | inr full ↦
                    let (within, place) =
                      next_place services cursor k history lists fuel n known known first others db
                        le page full in
                    rw (missed, full, place) (ih (or_first known first) mid within)
              ]
            ])
