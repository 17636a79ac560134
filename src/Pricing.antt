-- ===== src/Pricing.antt =====
-- packages/pricing/index.ts. Amounts of base units are decimal strings or `bigint` in the source;
-- a rate is here the number that `BigInt` reads from its string. Times are whole seconds.
pub mod Quotes
pub mod Escrow
use compute_markets.Prelude.{
  ℕ, ◌+◌, ◌-◌, ◌*◌, String, Bool, true, false, not, ◌&&◌, ◌||◌, List, map, Option, none, some, ltb,
  leb, ◌==◌, str_eq, includes, is_empty, filter, Result, ok, err, if◌then◌else◌,
}
use compute_markets.Prelude.Int.{
  ℤ, pos, negsuc, sub_ℕ, ltb_ℤ, ◌-ℤ◌, ◌*ℤ◌, div_ℤ, Number, whole, other,
}
use compute_markets.Prelude.Sorting.{sort}
use compute_markets.Policies.{VerificationPolicy, policy_code}
use compute_markets.JobSpec.{ComputeJobSpec}

pub record Supply : Type 0 where
  pub id : String
  pub provider : String
  pub machine : String
  pub gpu_model : String
  pub gpu_count : ℕ
  pub vram_mb : ℕ
  pub rate_base_units_per_second : ℕ
  pub region : String
  pub reputation : ℕ
  pub stake_base_units : Option String
  pub active : Bool
  pub available : Bool
  pub expires_at : ℕ
  pub heartbeat_at : ℕ
  pub estimated_start_seconds : ℕ
  pub verification : VerificationPolicy
  pub max_seconds : ℕ

pub record Quote : Type 0 where
  pub supply : Supply
  pub total_base_units : ℕ

-- `!region || s.region === region`; the empty string is no region.
abbrev pub region_matches : Option String → String → Bool
region_matches none s = true
region_matches (some region) s = str_eq region "" || str_eq s region

-- The first filter. `runtime` is always "oci" on both sides; `now - heartbeatAt < 90` is written
-- without the difference, which may be negative.
unfoldable pub is_eligible : ComputeJobSpec → ℕ → Option String → Supply → Bool
is_eligible spec now region s =
    s.active
    && s.available
    && ltb now s.expires_at
    && ltb now (s.heartbeat_at + 90)
    && leb s.heartbeat_at (now + 5)
    && leb spec.resources.gpu.count s.gpu_count
    && leb spec.resources.gpu.minimum_vram_mb s.vram_mb
    && (is_empty spec.resources.gpu.allowed_models
        || includes spec.resources.gpu.allowed_models s.gpu_model)
    && region_matches region s.region
    && leb s.estimated_start_seconds spec.execution.max_start_delay_seconds
    && leb spec.execution.timeout_seconds s.max_seconds
    && leb (policy_code spec.policy) (policy_code s.verification)

abbrev pub quote_of : ComputeJobSpec → Supply → Quote
quote_of spec s = record {
  supply = s;
  total_base_units = s.rate_base_units_per_second * spec.execution.timeout_seconds;
}

abbrev pub is_affordable : ℕ → Quote → Bool
is_affordable budget q = ltb 0 q.total_base_units && leb q.total_base_units budget

-- The comparator: the cheaper first, and of equal prices the better reputation.
unfoldable pub quote_order : Quote → Quote → ℤ
quote_order a b =
    if a.total_base_units == b.total_base_units
    then sub_ℕ b.supply.reputation a.supply.reputation
    else if ltb a.total_base_units b.total_base_units
    then negsuc 0
    else pos 1

unfoldable pub quote_supply : List Supply → ComputeJobSpec → ℕ → ℕ → Option String → List Quote
quote_supply supplies spec budget now region = sort quote_order (
    filter (is_affordable budget)
      (map (quote_of spec) (filter (is_eligible spec now region) supplies)))

pub record Split : Type 0 where
  pub provider : ℤ
  pub fee : ℤ
  pub refund : ℤ

-- `!Number.isInteger(feeBps) || feeBps < 0 || feeBps > 300`.
abbrev pub is_bad_fee : Number → Bool
is_bad_fee other = true
is_bad_fee (whole bps) = ltb_ℤ bps (pos 0) || ltb_ℤ (pos 300) bps

abbrev split_at : ℤ → ℤ → Number → Result Split
split_at deposit price other = err "Invalid escrow accounting"
split_at deposit price (whole bps) =
    let fee = div_ℤ (price *ℤ bps) 10000 in
    ok (record { provider = price -ℤ fee; fee = fee; refund = deposit -ℤ price })

unfoldable pub split_escrow : ℤ → ℤ → Number → Result Split
split_escrow deposit price fee_bps =
    if ltb_ℤ deposit (pos 0) || ltb_ℤ price (pos 0) || ltb_ℤ deposit price || is_bad_fee fee_bps
    then err "Invalid escrow accounting"
    else split_at deposit price fee_bps
