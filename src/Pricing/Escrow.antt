-- ===== src/Pricing/Escrow.antt =====
-- `splitEscrow`: no base unit is lost or made.
use compute_markets.Prelude.{ℕ, ◌*◌, ◌/◌, ◌≤◌, ◌≡◌, ok, arith}
use compute_markets.Prelude.Int.{ℤ, pos, ◌+ℤ◌, ◌-ℤ◌, ◌*ℤ◌, ◌≤ℤ◌, Number, whole}
use compute_markets.Pricing.{Split, split_escrow}

-- What a split owes: the parts are not negative and add up to the deposit, and the fee is the
-- price's share, rounded down.
pub record IsFair (deposit price bps : ℕ) (s : Split) : Type 0 where
  pub adds_up : s.provider +ℤ s.fee +ℤ s.refund ≡ pos deposit
  pub fee : s.fee ≡ pos (price * bps / 10000)
  pub provider_paid : pos 0 ≤ℤ s.provider
  pub refund : s.refund +ℤ pos price ≡ pos deposit
  pub refunded : pos 0 ≤ℤ s.refund

share_le : (price bps : ℕ) → bps ≤ 300 → price * bps / 10000 ≤ price
share_le price bps h = grind arith

-- For every deposit, every price up to it and every fee of at most 300 basis points the split
-- succeeds: provider, fee and refund are not negative and add up to the deposit, and the fee is
-- the price times the basis points over 10000, rounded down.
pub split_escrow-IsFair :
    (deposit price bps : ℕ)
    → price ≤ deposit
    → bps ≤ 300
    → (s : Split) × (split_escrow (pos deposit) (pos price) (whole (pos bps)) ≡ ok s)
      × IsFair deposit price bps s
unfolding split_escrow ◌-ℤ◌ ◌*ℤ◌ ◌+ℤ◌
split_escrow-IsFair deposit price bps h k = (
  record {
    provider = pos price -ℤ pos (price * bps / 10000);
    fee = pos (price * bps / 10000);
    refund = pos deposit -ℤ pos price;
  },
  ground arith,
  ground (arith, share_le price bps k),
)

-- Amounts and fees that the split is defined for.
pub data IsEscrow : ℤ → ℤ → Number → Type 0 where
  escrow :
      {deposit price bps : ℕ}
      → price ≤ deposit
      → bps ≤ 300
      → IsEscrow (pos deposit) (pos price) (whole (pos bps))

-- The split succeeds only there: a negative amount, a price above the deposit, and a fee that is
-- negative, above 300 basis points or no integer are all refused.
pub split_escrow-IsEscrow :
    (deposit price : ℤ) (fee_bps : Number) (s : Split)
    → split_escrow deposit price fee_bps ≡ ok s
    → IsEscrow deposit price fee_bps
unfolding split_escrow
split_escrow-IsEscrow (pos d) (pos p) (whole (pos b)) s h = escrow (ground arith) (ground arith)
split_escrow-IsEscrow deposit price fee s h = absurd (ground arith)
