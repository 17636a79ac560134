-- ===== src/Tests/Market.antt =====
-- Prices, quotes, bids, policies and specifications.
use compute_markets.Prelude.{
  ℕ, ◌≡◌, ◌↔◌, refl, String, true, List, [], ◌∷◌, none, some, ok, arith, All, Ordered, Occurs, inl,
}
use compute_markets.Prelude.Int.{pos, whole, ◌-ℤ◌, ◌*ℤ◌}
use compute_markets.Prelude.Sorting.{sort}
use compute_markets.Policies.{standard, policy_code}
use compute_markets.JobSpec.Parse.{parse}
use compute_markets.JobSpec.Encode.{job_spec_json}
use compute_markets.ExecutionPolicy.{enforce_execution_policy}
use compute_markets.ExecutionPolicy.Laws.{IsPlainContainer, enforce_execution_policy_iff}
use compute_markets.Pricing.{Supply, quote_of, quote_supply, Split, split_escrow}
use compute_markets.Pricing.Quotes.{
  Serves, IsPriced, Before, quote_supply_sound, quote_supply_complete,
}
use compute_markets.Pricing.Escrow.{IsFair, IsEscrow, split_escrow-IsFair, split_escrow-IsEscrow}
use compute_markets.Scheduler.Select.{OnChainBid, is_open, bid_order, select_bid}
use compute_markets.Scheduler.Select.Laws.{IsUsable, IsBest, select_bid-IsBest, select_bid-finds}
use compute_markets.Samples.{sample_spec, sample_key}

enforce_execution_policy_iff_example :
    (enforce_execution_policy (job_spec_json sample_spec) ("ghcr.io" ∷ []) ≡ ok sample_spec) ↔ (
      (parse (job_spec_json sample_spec) ≡ ok sample_spec)
      × IsPlainContainer ("ghcr.io" ∷ []) sample_spec)
enforce_execution_policy_iff_example =
    enforce_execution_policy_iff (job_spec_json sample_spec) ("ghcr.io" ∷ []) sample_spec

split_escrow-IsFair_example :
    (s : Split) × (split_escrow (pos 1000) (pos 777) (whole (pos 250)) ≡ ok s)
    × IsFair 1000 777 250 s
split_escrow-IsFair_example = split_escrow-IsFair 1000 777 250 (omega arith) (omega arith)

abbrev parts : Split
parts = record { provider = pos 758; fee = pos 19; refund = pos 223 }

parts_split : split_escrow (pos 1000) (pos 777) (whole (pos 250)) ≡ ok parts
unfolding split_escrow ◌-ℤ◌ ◌*ℤ◌
parts_split = refl

split_escrow-IsEscrow_example : IsEscrow (pos 1000) (pos 777) (whole (pos 250))
split_escrow-IsEscrow_example =
    split_escrow-IsEscrow (pos 1000) (pos 777) (whole (pos 250)) parts parts_split

abbrev supply : Supply
supply = record {
  id = "supply";
  provider = sample_key;
  machine = sample_key;
  gpu_model = "H100";
  gpu_count = 8;
  vram_mb = 81920;
  rate_base_units_per_second = 20;
  region = "eu";
  reputation = 900;
  stake_base_units = none;
  active = true;
  available = true;
  expires_at = 2000;
  heartbeat_at = 990;
  estimated_start_seconds = 30;
  verification = standard;
  max_seconds = 3600;
}

supply-Serves : Serves sample_spec 1000 (some "eu") supply
unfolding policy_code
supply-Serves = record {
  active = refl;
  available = refl;
  unexpired = omega arith;
  fresh = omega arith;
  not_ahead = omega arith;
  gpus = omega arith;
  vram = omega arith;
  model = inl refl;
  in_region = refl;
  start = omega arith;
  duration = omega arith;
  assurance = omega arith;
}

supply-IsPriced : IsPriced sample_spec 10000 (quote_of sample_spec supply)
supply-IsPriced = record { total = refl; positive = omega arith; within = omega arith }

quote_supply_sound_example :
    All
      (λ q. Serves sample_spec 1000 (some "eu") q.supply × IsPriced sample_spec 10000 q)
      (quote_supply (supply ∷ []) sample_spec 10000 1000 (some "eu"))
    × Ordered Before (quote_supply (supply ∷ []) sample_spec 10000 1000 (some "eu"))
quote_supply_sound_example = quote_supply_sound (supply ∷ []) sample_spec 10000 1000 (some "eu")

quote_supply_complete_example :
    Occurs
      (quote_of sample_spec supply)
      (quote_supply (supply ∷ []) sample_spec 10000 1000 (some "eu"))
quote_supply_complete_example =
    quote_supply_complete (supply ∷ []) sample_spec 10000 1000 (some "eu") supply (inl refl)
      supply-Serves supply-IsPriced

abbrev bid : String → ℕ → ℕ → OnChainBid
bid id price reputation = record {
  id = id;
  price = price;
  expires_at = 2000;
  provider_reputation = reputation;
  estimated_start = 1100;
}

abbrev bids : List OnChainBid
bids = bid "dear" 90 999 ∷ bid "first" 50 500 ∷ bid "free" 0 999 ∷ bid "second" 50 500 ∷ []

bid_selected : select_bid bids 100 1200 1000 ≡ some (bid "first" 50 500)
unfolding select_bid is_open bid_order sort
bid_selected = refl

select_bid-IsBest_example : IsBest 100 1200 1000 bids (bid "first" 50 500)
select_bid-IsBest_example = select_bid-IsBest bids 100 1200 1000 (bid "first" 50 500) bid_selected

dear-IsUsable : IsUsable 100 1200 1000 (bid "dear" 90 999)
dear-IsUsable = record {
  positive = omega arith;
  within = omega arith;
  unexpired = omega arith;
  in_time = omega arith;
}

select_bid-finds_example : (c : OnChainBid) × (select_bid bids 100 1200 1000 ≡ some c)
select_bid-finds_example =
    select_bid-finds bids 100 1200 1000 (bid "dear" 90 999) (inl refl) dear-IsUsable
