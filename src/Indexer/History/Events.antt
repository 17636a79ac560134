-- ===== src/Indexer/History/Events.antt =====
-- The table of events keeps every signature, and gets those of the rows that are stored.
use compute_markets.Prelude.{
  ◌≡◌, refl, ap, subst, String, true, ◌||◌, List, [], ◌∷◌, ◌++◌, map, All, All-weaken, ok,
  if◌then◌else◌, arith, eq_iff,
}
use compute_markets.Prelude.Actions.{
  call, returned, Ensures, IsPreorder, bind-Ensures, call-Ensures,
}
use compute_markets.Indexer.{Transaction, ChainEvent, Database}
use compute_markets.Indexer.Reconcile.{Services}
use compute_markets.Indexer.History.{has_event, insert_events, event_of, store_events}

-- No event's signature disappears from the table.
abbrev pub EventsGrow : Database → Database → Type 0
EventsGrow a b =
    (signature : String) → has_event signature a.events ≡ true → has_event signature b.events ≡ true

pub EventsGrow-order : IsPreorder EventsGrow
EventsGrow-order = record { same = λ db s h. h; then = λ a b c h k s e. k s (h s e) }

abbrev pub AreRecorded : List Transaction → Database → Type 0
AreRecorded txs db = All (λ tx. has_event tx.signature db.events ≡ true) txs

pub AreRecorded-EventsGrow :
    (txs : List Transaction) (a b : Database)
    → AreRecorded txs a
    → EventsGrow a b
    → AreRecorded txs b
AreRecorded-EventsGrow txs a b h k = All-weaken _ _ (λ tx e. k tx.signature e) txs h

has_event-append :
    (s : String) (xs ys : List ChainEvent)
    → has_event s (xs ++ ys) ≡ (has_event s xs || has_event s ys)
has_event-append s [] ys = refl
has_event-append s (x ∷ xs) ys = ground (arith, has_event-append s xs ys)

insert_one-keeps :
    (s : String) (e : ChainEvent) (events : List ChainEvent)
    → has_event s events ≡ true
    → has_event s (if has_event e.signature events then events else events ++ e ∷ []) ≡ true
insert_one-keeps s e events h = ground (arith, has_event-append s events (e ∷ []))

insert_one-adds :
    (e : ChainEvent) (events : List ChainEvent)
    → has_event e.signature (if has_event e.signature events then events else events ++ e ∷ [])
      ≡ true
insert_one-adds e events =
    ground (arith, has_event-append e.signature events (e ∷ []), eq_iff e.signature e.signature)

insert_events-keeps :
    (s : String) (missing events : List ChainEvent)
    → has_event s events ≡ true
    → has_event s (insert_events missing events) ≡ true
unfolding insert_events
insert_events-keeps s [] events h = h
insert_events-keeps s (e ∷ missing) events h =
    insert_events-keeps s missing _ (insert_one-keeps s e events h)

insert_events-adds :
    (missing events : List ChainEvent)
    → All (λ e. has_event e.signature (insert_events missing events) ≡ true) missing
unfolding insert_events
insert_events-adds [] events = tt
insert_events-adds (e ∷ missing) events = (
  insert_events-keeps e.signature missing _ (insert_one-adds e events),
  insert_events-adds missing _,
)

module _ (services : Services) where
  pub store_events-Ensures :
      (missing : List ChainEvent) → Ensures EventsGrow (store_events services missing)
  unfolding store_events
  store_events-Ensures [] = record { relates = λ db s h. h }
  store_events-Ensures (e ∷ missing) =
      bind-Ensures EventsGrow EventsGrow-order (call (services.write_events (e ∷ missing))) _
        (call-Ensures EventsGrow EventsGrow-order _)
        (λ accepted. record { relates = λ db s h. insert_events-keeps s (e ∷ missing) db.events h })

  event_of-All :
      (txs : List Transaction) (events : List ChainEvent)
      → All (λ e. has_event e.signature events ≡ true) (map (event_of services) txs)
      → All (λ tx. has_event tx.signature events ≡ true) txs
  unfolding event_of
  event_of-All [] events h = tt
  event_of-All (tx ∷ txs) events (here, later) = (here, event_of-All txs events later)

  pub stored_all :
      (txs : List Transaction) (db after : Database)
      → store_events services (map (event_of services) txs) db ≡ (ok tt, after)
      → AreRecorded txs after
  unfolding store_events
  stored_all [] db after h = tt
  stored_all (tx ∷ txs) db after h =
      returned (call (services.write_events (map (event_of services) (tx ∷ txs)))) _ db after h
        λ accepted mid e h1. subst (AreRecorded (tx ∷ txs)) (ap (λ p. p.1) h1) (
          event_of-All (tx ∷ txs) _
            (insert_events-adds (map (event_of services) (tx ∷ txs)) mid.events))
