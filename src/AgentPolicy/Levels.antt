-- ===== src/AgentPolicy/Levels.antt =====
-- The tree ends in one root, and is built for every list of different hashes that is not too long.
use compute_markets.Prelude.{
  ℕ, zero, suc, ◌+◌, ◌*◌, ◌≤◌, ◌≡◌, String, true, false, List, [], ◌∷◌, map, length, All, ltb,
  Bool-cases, inl, inr, arith,
}
use compute_markets.Receipts.{Libraries}
use compute_markets.Prelude.Text.{are_hash_codes}
use compute_markets.AgentPolicy.{Bytes, Trace, join, pair_up, climb, normalized, has_repeat}

module _ (libraries : Libraries) where
  pub length-pair_up :
      (level : List Bytes) (t : Trace)
      → (length ((pair_up libraries level t).0) * 2 ≤ length level + 1)
        × (length level ≤ length ((pair_up libraries level t).0) * 2)
  unfolding pair_up
  length-pair_up [] t = (omega arith, omega arith)
  length-pair_up (left ∷ []) t = (omega arith, omega arith)
  length-pair_up (left ∷ right ∷ level) t =
      let (most, least) = length-pair_up level (join libraries left right t) in
      (omega arith, omega arith)

  -- With as much fuel as nodes the loop ends at a single node.
  pub climb-single :
      (fuel : ℕ) (level : List Bytes) (t : Trace)
      → 1 ≤ length level
      → length level ≤ fuel
      → length ((climb libraries fuel level t).0) ≡ 1
  unfolding climb
  climb-single zero level t least most = absurd (omega arith)
  climb-single (suc fuel) level t least most =
      let (shorter, filled) = length-pair_up level t in
      let up = pair_up libraries level t in
      elim (Bool-cases (ltb 1 (length level))) [
        | inl more ↦ rw more (climb-single fuel up.0 up.1 (ground arith) (ground arith))
        | inr single ↦ rw single (ground arith)
      ]

-- Some specification hashes, of 64 hexadecimal digits each, no two the same up to case, and at
-- most 65536.
pub record IsAllowlist (spec_hashes : List String) : Type 0 where
  pub some_hash : 1 ≤ length spec_hashes
  pub each : All (λ s. are_hash_codes (normalized s) ≡ true) spec_hashes
  pub different : has_repeat (map normalized spec_hashes) ≡ false
  pub bounded : length spec_hashes ≤ 65536
