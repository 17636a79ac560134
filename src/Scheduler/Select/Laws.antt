-- ===== src/Scheduler/Select/Laws.antt =====
-- `selectBid` picks the cheapest usable bid, of those the best reputed, of those the first.
use compute_markets.Prelude.{
  ℕ, ◌≤◌, ◌<◌, ◌≡◌, sym, subst, ◌⊎◌, ◌↔◌, true, false, not, List, ◌∷◌, ◌++◌, some, arith, All,
  All-weaken, filter, unfilter, All-unfilter, head_of_Occurs, Occurs, Occurs-filter,
}
use compute_markets.Prelude.Int.{pos, ◌≤ℤ◌, leb_ℤ, ltb_ℤ}
use compute_markets.Prelude.Sorting.Laws.{IsFirstBest, first_best, sort-Occurs}
use compute_markets.Scheduler.Select.{OnChainBid, is_open, bid_order, select_bid}

-- A bid with a positive price within the budget, not expired, that can start by the deadline.
pub record IsUsable (budget deadline now : ℕ) (b : OnChainBid) : Type 0 where
  pub positive : 0 < b.price
  pub within : b.price ≤ budget
  pub unexpired : now < b.expires_at
  pub in_time : b.estimated_start ≤ deadline

-- `a` wins over `b` wherever they stand, and when `a` stands first.
abbrev pub Beats : OnChainBid → OnChainBid → Type 0
Beats a b =
    (a.price < b.price) ⊎ ((a.price ≡ b.price) × (b.provider_reputation < a.provider_reputation))

abbrev pub Holds : OnChainBid → OnChainBid → Type 0
Holds a b =
    (a.price < b.price) ⊎ ((a.price ≡ b.price) × (b.provider_reputation ≤ a.provider_reputation))

IsUsable-of_open :
    (budget deadline now : ℕ) (b : OnChainBid)
    → (is_open budget deadline now b ≡ true) ↔ IsUsable budget deadline now b
unfolding is_open
IsUsable-of_open budget deadline now b = ground arith

bid_order-total :
    (a b : OnChainBid) → ltb_ℤ (bid_order a b) (pos 0) ≡ not (leb_ℤ (bid_order b a) (pos 0))
unfolding bid_order
bid_order-total a b = ground arith

bid_order-trans :
    (a b c : OnChainBid) → bid_order a b ≤ℤ pos 0 → bid_order b c ≤ℤ pos 0 → bid_order a c ≤ℤ pos 0
unfolding bid_order
bid_order-trans a b c h k = ground arith

Beats-of_order : (a b : OnChainBid) → ltb_ℤ (bid_order a b) (pos 0) ≡ true → Beats a b
unfolding bid_order
Beats-of_order a b h = ground arith

Holds-of_order : (a b : OnChainBid) → bid_order a b ≤ℤ pos 0 → Holds a b
unfolding bid_order
Holds-of_order a b h = ground arith

-- How a chosen bid stands to the others of the list.
module _ (budget deadline now : ℕ) where
  pub record IsBest (bids : List OnChainBid) (b : OnChainBid) : Type 0 where
    pub earlier : List OnChainBid
    pub later : List OnChainBid
    pub split : bids ≡ earlier ++ b ∷ later
    pub usable : IsUsable budget deadline now b
    pub beats_earlier : All (λ x. (is_open budget deadline now x ≡ false) ⊎ Beats b x) earlier
    pub holds_later : All (λ x. (is_open budget deadline now x ≡ false) ⊎ Holds b x) later

  IsBest-of_filtered :
      (bids : List OnChainBid) (b : OnChainBid)
      → IsFirstBest bid_order (filter (is_open budget deadline now) bids) b
      → IsBest bids b
  IsBest-of_filtered bids b best =
      let place = unfilter (is_open budget deadline now) bids best.before best.after b best.split in
      record {
        earlier = place.pre;
        later = place.post;
        split = place.split;
        usable = (IsUsable-of_open budget deadline now b).0 place.kept;
        beats_earlier = All-unfilter (is_open budget deadline now) (Beats b) place.pre (
            subst (All (Beats b)) (sym place.kept_pre)
              (All-weaken _ (Beats b) (Beats-of_order b) best.before best.beats));
        holds_later = All-unfilter (is_open budget deadline now) (Holds b) place.post (
            subst (All (Holds b)) (sym place.kept_post)
              (All-weaken _ (Holds b) (Holds-of_order b) best.after best.leads));
      }

-- A bid that is chosen is usable, strictly better than every usable bid before it in the list, and
-- at least as good as every usable bid behind it: the cheapest wins, then the best reputed, then
-- the first.
pub select_bid-IsBest :
    (bids : List OnChainBid) (budget deadline now : ℕ) (b : OnChainBid)
    → select_bid bids budget deadline now ≡ some b
    → IsBest budget deadline now bids b
unfolding select_bid
select_bid-IsBest bids budget deadline now b e =
    IsBest-of_filtered budget deadline now bids b
      (first_best bid_order bid_order-total bid_order-trans _ b e)

-- A bid is chosen whenever some bid of the list is usable.
pub select_bid-finds :
    (bids : List OnChainBid) (budget deadline now : ℕ) (b : OnChainBid)
    → Occurs b bids
    → IsUsable budget deadline now b
    → (c : OnChainBid) × (select_bid bids budget deadline now ≡ some c)
unfolding select_bid
select_bid-finds bids budget deadline now b listed usable = head_of_Occurs b _ (
    sort-Occurs bid_order b _ (
      Occurs-filter (is_open budget deadline now) b bids
        ((IsUsable-of_open budget deadline now b).1 usable) listed))
