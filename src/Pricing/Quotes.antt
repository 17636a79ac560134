-- ===== src/Pricing/Quotes.antt =====
-- `quoteSupply`: which supplies are quoted, at which price and in which order.
use compute_markets.Prelude.{
  ℕ, ◌+◌, ◌*◌, ◌≤◌, ◌<◌, ◌≡◌, refl, ◌⊎◌, String, true, not, List, [], Option, arith, Ordered,
  Ordered-weaken, All, All-map, All-weaken, All-trivial, filter-All, Occurs, Occurs-filter,
  Occurs-map, includes_iff,
}
use compute_markets.Prelude.Int.{pos, ◌≤ℤ◌, leb_ℤ, ltb_ℤ}
use compute_markets.Prelude.Sorting.Laws.{sort-IsSorted, sort-All, sort-Occurs}
use compute_markets.Policies.{policy_code}
use compute_markets.JobSpec.{ComputeJobSpec}
use compute_markets.Pricing.{
  Supply, Quote, region_matches, is_eligible, quote_of, is_affordable, quote_order, quote_supply,
}

-- The hard requirements of a job on a supply, at a time.
pub record Serves (spec : ComputeJobSpec) (now : ℕ) (region : Option String) (s : Supply)
    : Type 0 where
  pub active : s.active ≡ true
  pub available : s.available ≡ true
  pub unexpired : now < s.expires_at
  pub fresh : now < s.heartbeat_at + 90
  pub not_ahead : s.heartbeat_at ≤ now + 5
  pub gpus : spec.resources.gpu.count ≤ s.gpu_count
  pub vram : spec.resources.gpu.minimum_vram_mb ≤ s.vram_mb
  pub model :
      (spec.resources.gpu.allowed_models ≡ [])
      ⊎ Occurs s.gpu_model spec.resources.gpu.allowed_models
  pub in_region : region_matches region s.region ≡ true
  pub start : s.estimated_start_seconds ≤ spec.execution.max_start_delay_seconds
  pub duration : spec.execution.timeout_seconds ≤ s.max_seconds
  pub assurance : policy_code spec.policy ≤ policy_code s.verification

module _ (spec : ComputeJobSpec) (now : ℕ) (region : Option String) (s : Supply) where
  Serves-of_eligible : is_eligible spec now region s ≡ true → Serves spec now region s
  unfolding is_eligible
  Serves-of_eligible h = ground (arith, includes_iff spec.resources.gpu.allowed_models s.gpu_model)

  eligible_of_Serves : Serves spec now region s → is_eligible spec now region s ≡ true
  unfolding is_eligible
  eligible_of_Serves h = ground (arith, includes_iff spec.resources.gpu.allowed_models s.gpu_model)

-- The price is positive and within the budget, and is the rate for the whole timeout.
pub record IsPriced (spec : ComputeJobSpec) (budget : ℕ) (q : Quote) : Type 0 where
  pub total :
      q.total_base_units ≡ q.supply.rate_base_units_per_second * spec.execution.timeout_seconds
  pub positive : 0 < q.total_base_units
  pub within : q.total_base_units ≤ budget

-- Cheaper, or as cheap with at least the reputation.
abbrev pub Before : Quote → Quote → Type 0
Before a b =
    (a.total_base_units < b.total_base_units)
    ⊎ ((a.total_base_units ≡ b.total_base_units) × (b.supply.reputation ≤ a.supply.reputation))

quote_order-total :
    (a b : Quote) → ltb_ℤ (quote_order a b) (pos 0) ≡ not (leb_ℤ (quote_order b a) (pos 0))
unfolding quote_order
quote_order-total a b = ground arith

quote_order-trans :
    (a b c : Quote) → quote_order a b ≤ℤ pos 0 → quote_order b c ≤ℤ pos 0 → quote_order a c ≤ℤ pos 0
unfolding quote_order
quote_order-trans a b c h k = ground arith

Before-of_order : (a b : Quote) → quote_order a b ≤ℤ pos 0 → Before a b
unfolding quote_order
Before-of_order a b h = ground arith

-- Every quote is for a supply that meets the job's requirements, at its rate for the whole
-- timeout, a positive price within the budget; and the quotes are in order of price, those of one
-- price in falling order of reputation.
pub quote_supply_sound :
    (supplies : List Supply) (spec : ComputeJobSpec) (budget now : ℕ) (region : Option String)
    → All
        (λ q. Serves spec now region q.supply × IsPriced spec budget q)
        (quote_supply supplies spec budget now region)
      × Ordered Before (quote_supply supplies spec budget now region)
unfolding quote_supply
quote_supply_sound supplies spec budget now region = (
  sort-All quote_order _ _ (
      All-weaken _ _
        (λ q h. (h.0.0, record { total = h.0.1; positive = ground arith; within = ground arith })) _
        (filter-All (λ q. Serves spec now region q.supply × Total q) (is_affordable budget) _
          (All-map (λ q. Serves spec now region q.supply × Total q) (quote_of spec) _
            (All-weaken _ _ (λ s h. (Serves-of_eligible spec now region s h.1, refl)) _
              (filter-All (λ _. Unit {0}) (is_eligible spec now region) supplies
                (All-trivial supplies)))))),
  Ordered-weaken _ Before Before-of_order _
      (sort-IsSorted quote_order quote_order-total quote_order-trans _),
)
  where
    Total : Quote → Type 0
    Total q =
        q.total_base_units ≡ q.supply.rate_base_units_per_second * spec.execution.timeout_seconds

-- Every supply that meets the requirements, and whose price for the whole timeout is positive and
-- within the budget, is quoted.
pub quote_supply_complete :
    (supplies : List Supply) (spec : ComputeJobSpec) (budget now : ℕ) (region : Option String)
    (s : Supply)
    → Occurs s supplies
    → Serves spec now region s
    → IsPriced spec budget (quote_of spec s)
    → Occurs (quote_of spec s) (quote_supply supplies spec budget now region)
unfolding quote_supply
quote_supply_complete supplies spec budget now region s listed serves priced =
    sort-Occurs quote_order (quote_of spec s) _ (
      Occurs-filter (is_affordable budget) (quote_of spec s) _ (ground arith) (
        Occurs-map (quote_of spec) s _ (
          Occurs-filter (is_eligible spec now region) s supplies
            (eligible_of_Serves spec now region s serves) listed)))
