-- ===== src/AgentPolicy/Pairs.antt =====
-- The hash of a pair does not depend on the order of its two nodes.
use compute_markets.Prelude.{◌≡◌, refl, ap, ap, true, false, [], ◌∷◌, Bool-cases, inl, inr, arith}
use compute_markets.Prelude.Int.{pos, leb_ℤ}
use compute_markets.Prelude.Hex.{from_hex}
use compute_markets.Receipts.{Libraries, bytes, sha256}
use compute_markets.AgentPolicy.{Bytes, compare_bytes, ordered, hash_pair}

both_ways :
    (a b : Bytes)
    → leb_ℤ (compare_bytes a b) (pos 0) ≡ true
    → leb_ℤ (compare_bytes b a) (pos 0) ≡ true
    → a ≡ b
both_ways [] [] h k = refl
both_ways [] (b ∷ bs) h k = absurd (cc)
both_ways (a ∷ xs) [] h k = absurd (cc)
both_ways (a ∷ xs) (b ∷ bs) h k = ground (arith, both_ways xs bs)

one_way :
    (a b : Bytes)
    → leb_ℤ (compare_bytes a b) (pos 0) ≡ false
    → leb_ℤ (compare_bytes b a) (pos 0) ≡ true
one_way [] [] h = refl
one_way [] (b ∷ bs) h = absurd (cc)
one_way (a ∷ xs) [] h = refl
one_way (a ∷ xs) (b ∷ bs) h = ground (arith, one_way xs bs)

ordered_comm : (a b : Bytes) → ordered a b ≡ ordered b a
ordered_comm a b = elim (Bool-cases (leb_ℤ (compare_bytes a b) (pos 0))) [
  | inr above ↦ rw (above, one_way a b above) refl
  | inl below ↦ elim (Bool-cases (leb_ℤ (compare_bytes b a) (pos 0))) [
    | inr above ↦ rw (below, above) refl
    | inl again ↦ rw (both_ways a b below again) refl
  ]
]

-- Two nodes have the same parent in either order, so a proof need not say on which side a sibling
-- stands.
pub hash_pair_comm :
    (libraries : Libraries) (left right : Bytes)
    → hash_pair libraries left right ≡ hash_pair libraries right left
unfolding hash_pair
hash_pair_comm libraries left right =
    ap (λ content. from_hex (sha256 libraries (bytes content))) (ordered_comm left right)
