-- ===== src/Indexer/History/Fetched.antt =====
-- A run of the loop over the pages leaves every transaction in front of the cursor in the table of
-- events.
use mathlib.Core.Option
use compute_markets.Prelude.{
  ℕ, zero, suc, ◌+◌, ◌≤◌, ◌<◌, ◌≡◌, refl, ap, sym, subst, ◌∙◌, String, Bool, true, false, ◌||◌, ltb,
  ltb→lt, List, [], ◌∷◌, ◌++◌, length, length-drop, take, drop, map, All-append, Option, none, some,
  Result, ok, ok-injective, err_not_ok, arith, Bool-cases, inl, inr,
}
use compute_markets.Prelude.Actions.{Exec, call, returned, related}
use compute_markets.Indexer.{Transaction, Database}
use compute_markets.Indexer.Reconcile.{Services}
use compute_markets.Indexer.History.{
  in_front, reaches, or_first, last_signature, event_of, store_events, after_page, read_page, fetch,
}
use compute_markets.Indexer.History.Events.{
  EventsGrow, EventsGrow-order, AreRecorded, AreRecorded-EventsGrow, store_events-Ensures,
  stored_all,
}
use compute_markets.Indexer.History.Pages.{
  before_at, Lists, or_head, get_elem?-drop, drop-drop, take-append-drop, take_all, take_nil,
  length-take-le, last_of, last_of-take, in_front-reached, in_front-append,
}

nothing-AreRecorded : (cursor : Option String) (db : Database) → AreRecorded (in_front cursor []) db
unfolding in_front
nothing-AreRecorded cursor db = tt

or_head-found :
    (known : Option String) (first : Transaction) (txs : List Transaction)
    → or_head (or_first known first) txs ≡ or_first known first
or_head-found none first [] = refl
or_head-found none first (tx ∷ txs) = refl
or_head-found (some s) first [] = refl
or_head-found (some s) first (tx ∷ txs) = refl

module _ (services : Services) where
  module _ (cursor : Option String) (k : ℕ) (history : List Transaction)
      (lists : Lists services (suc k) history) where
    -- What the loop has done from a place of the history on, where `newest` was known before.
    pub record HasFetched (txs : List Transaction) (known found : Option String)
        (db after : Database) : Type 0 where
      pub recorded : AreRecorded (in_front cursor txs) after
      pub grown : EventsGrow db after
      pub newest : found ≡ or_head known txs

    module _ (fuel n : ℕ) (known found : Option String) (first : Transaction)
        (others : List Transaction) (after : Database) (le : n ≤ length history)
        (page : first ∷ others ≡ take (suc k) (drop n history)) where
      abbrev stops : Bool
      stops = reaches cursor (first ∷ others) || ltb (length (first ∷ others)) (suc k)

      abbrev rest : Exec Database (Option String)
      rest =
          fetch services (suc k) cursor fuel (some (last_signature first others))
            (or_first known first)

      whole : (first ∷ others) ++ drop (suc k) (drop n history) ≡ drop n history
      whole =
          ap (λ b. b ++ drop (suc k) (drop n history)) page
          ∙ take-append-drop (suc k) (drop n history)

      -- The loop ends with this page.
      last_page :
          (db mid : Database)
          → after_page services stops (or_first known first) rest mid ≡ (ok found, after)
          → AreRecorded (in_front cursor (first ∷ others)) mid
          → EventsGrow db mid
          → stops ≡ true
          → in_front cursor (drop n history) ≡ in_front cursor (first ∷ others)
          → HasFetched (drop n history) known found db after
      last_page db mid h1 here grown e front =
          let end : ◌≡◌ {A = Result (Option String) × Database} (ok (or_first known first), mid)
              (ok found, after) =
            ap (λ b. after_page services b (or_first known first) rest mid) (sym e) ∙ h1 in
          let same = ap (λ p. p.1) end in
          record {
            recorded =
                subst (λ t. AreRecorded t after) (sym front) (subst (AreRecorded _) same here);
            grown = subst (EventsGrow db) same grown;
            newest = ok-injective (sym (ap (λ p. p.0) end)) ∙ ap (or_head known) whole;
          }

      full_length : ltb (length (first ∷ others)) (suc k) ≡ false → suc k ≤ length (drop n history)
      full_length e =
          let long : suc k ≤ length (first ∷ others) = ground arith in
          omega (arith, length-take-le (suc k) (drop n history), ap length page)

      -- Behind a full page the next one starts at its place in the history.
      pub next_place :
          ltb (length (first ∷ others)) (suc k) ≡ false
          → (suc (n + k) ≤ length history)
            × (some (last_signature first others) ≡ before_at (suc (n + k)) history)
      next_place full =
          let long = full_length full in
          (
            omega (arith, length-drop n history),
            ap last_of page
                ∙ last_of-take k (drop n history) long
                ∙ ap (Option.map (λ tx. tx.signature)) (get_elem?-drop n k history),
          )

      -- The loop goes on behind this page.
      more_pages :
          (db mid : Database)
          → after_page services stops (or_first known first) rest mid ≡ (ok found, after)
          → AreRecorded (in_front cursor (first ∷ others)) mid
          → EventsGrow db mid
          → reaches cursor (first ∷ others) ≡ false
          → ltb (length (first ∷ others)) (suc k) ≡ false
          → ((m : ℕ)
              → m ≤ length history
              → fetch services (suc k) cursor fuel (before_at m history) (or_first known first) mid
                ≡ (ok found, after)
              → HasFetched (drop m history) (or_first known first) found mid after)
          → HasFetched (drop n history) known found db after
      more_pages db mid h1 here grown missed full ih =
          let (within, place) = next_place full in
          let on : stops ≡ false = rw (missed, full) refl in
          let goes_on : rest mid ≡ (ok found, after) =
            ap (λ b. after_page services b (or_first known first) rest mid) (sym on) ∙ h1 in
          let later = ih (suc (n + k)) within (
            ap (λ b. fetch services (suc k) cursor fuel b (or_first known first) mid) (sym place)
            ∙ goes_on) in
          let sum : n + suc k ≡ suc (n + k) = omega arith in
          let behind = drop-drop n (suc k) history ∙ ap (λ m. drop m history) sum in
          let front =
            ap (in_front cursor) (sym whole)
            ∙ in_front-append cursor (first ∷ others) _ missed
            ∙ ap (λ t. in_front cursor (first ∷ others) ++ in_front cursor t) behind in
          record {
            recorded =
                subst (λ t. AreRecorded t after) (sym front)
                  (All-append _ _ _ (AreRecorded-EventsGrow _ mid after here later.grown)
                    later.recorded);
            grown = EventsGrow-order.then db mid after grown later.grown;
            newest = later.newest ∙ or_head-found known first _ ∙ ap (or_head known) whole;
          }

      page_fetched :
          (db : Database)
          → ((mid : Database) (m : ℕ)
              → m ≤ length history
              → fetch services (suc k) cursor fuel (before_at m history) (or_first known first) mid
                ≡ (ok found, after)
              → HasFetched (drop m history) (or_first known first) found mid after)
          → read_page services
              (suc k)
              cursor
              (fetch services (suc k) cursor fuel)
              known
              (first ∷ others)
              db
            ≡ (ok found, after)
          → HasFetched (drop n history) known found db after
      page_fetched db ih h =
          returned
            (store_events services (map (event_of services) (in_front cursor (first ∷ others)))) _
            db after h
            λ done mid e h1.
              let here = stored_all services (in_front cursor (first ∷ others)) db mid e in
              let grown = related EventsGrow _ db mid _ (store_events-Ensures services _) e in
              elim (Bool-cases (reaches cursor (first ∷ others))) [
                | inl reached ↦
                    last_page db mid h1 here grown
                      (ap (λ b. b || ltb (length (first ∷ others)) (suc k)) reached)
                      (ap (in_front cursor) (sym whole)
                        ∙ in_front-reached cursor (first ∷ others) _ reached)
                | inr missed ↦ elim (Bool-cases (ltb (length (first ∷ others)) (suc k))) [
                  | inl short ↦
                      let less : length (take (suc k) (drop n history)) < suc k =
                        subst (λ b. length b < suc k) page (ltb→lt _ _ short) in
                      last_page db mid h1 here grown (rw (missed, short) refl)
                        (ap (in_front cursor) (sym (page ∙ take_all (suc k) _ less)))
                  | inr full ↦ more_pages db mid h1 here grown missed full (ih mid)
                ]
              ]

    -- From every place of the history on, a run of the loop that returns leaves what stands in front
    -- of the cursor in the table.
    pub fetched :
        (fuel n : ℕ) (known found : Option String) (db after : Database)
        → n ≤ length history
        → fetch services (suc k) cursor fuel (before_at n history) known db ≡ (ok found, after)
        → HasFetched (drop n history) known found db after
    unfolding fetch
    fetched zero n known found db after le h = absurd (err_not_ok (ap (λ p. p.0) h))
    fetched (suc fuel) n known found db after le h =
        returned (call (services.signatures (before_at n history))) _ db after h λ batch mid e h1.
          subst (λ d. HasFetched (drop n history) known found d after) (sym (ap (λ p. p.1) e))
            (by_batch fuel n known found after le
              (λ known' mid' m. fetched fuel m known' found mid' after) batch mid
              (ok-injective (sym (ap (λ p. p.0) e) ∙ lists.page n le)) h1)
      where
        by_batch :
            (fuel n : ℕ) (known found : Option String) (after : Database) (le : n ≤ length history)
            → ((known' : Option String) (mid : Database) (m : ℕ)
                → m ≤ length history
                → fetch services (suc k) cursor fuel (before_at m history) known' mid
                  ≡ (ok found, after)
                → HasFetched (drop m history) known' found mid after)
            → (batch : List Transaction) (mid : Database) → batch ≡ take (suc k) (drop n history)
            → read_page services (suc k) cursor (fetch services (suc k) cursor fuel) known batch mid
              ≡ (ok found, after)
            → HasFetched (drop n history) known found mid after
        by_batch fuel n known found after le ih [] mid page h1 =
            let none_left = take_nil k (drop n history) (sym page) in
            record {
              recorded =
                  subst (λ t. AreRecorded (in_front cursor t) after) (sym none_left)
                    (nothing-AreRecorded cursor after);
              grown = subst (EventsGrow mid) (ap (λ p. p.1) h1) (EventsGrow-order.same mid);
              newest = sym (ok-injective (ap (λ p. p.0) h1)) ∙ ap (or_head known) (sym none_left);
            }
        by_batch fuel n known found after le ih (first ∷ others) mid page h1 =
            page_fetched fuel n known found first others after le page mid
              (ih (or_first known first)) h1
