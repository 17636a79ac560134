-- ===== src/Scheduler/Select.antt =====
-- apps/scheduler/src/select.ts. Prices are the program's unsigned base units; times are whole
-- seconds.
pub mod Laws
use compute_markets.Prelude.{
  ℕ, String, Bool, ◌&&◌, List, Option, ltb, leb, ◌==◌, filter, head?, if◌then◌else◌,
}
use compute_markets.Prelude.Int.{ℤ, pos, negsuc, sub_ℕ}
use compute_markets.Prelude.Sorting.{sort}

pub record OnChainBid : Type 0 where
  pub id : String
  pub price : ℕ
  pub expires_at : ℕ
  pub provider_reputation : ℕ
  pub estimated_start : ℕ

unfoldable pub is_open : ℕ → ℕ → ℕ → OnChainBid → Bool
is_open budget deadline now b =
    ltb 0 b.price && leb b.price budget && ltb now b.expires_at && leb b.estimated_start deadline

unfoldable pub bid_order : OnChainBid → OnChainBid → ℤ
bid_order a b =
    if a.price == b.price
    then sub_ℕ b.provider_reputation a.provider_reputation
    else if ltb a.price b.price
    then negsuc 0
    else pos 1

-- `[0] ?? null`.
unfoldable pub select_bid : List OnChainBid → ℕ → ℕ → ℕ → Option OnChainBid
select_bid bids budget deadline now =
    head? (sort bid_order (filter (is_open budget deadline now) bids))
