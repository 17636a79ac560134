-- ===== src/Tests/Allowlist.antt =====
-- An allowlist of two specification hashes, over libraries with one digest for every content.
use compute_markets.Prelude.{
  ◌≡◌, ◌≢◌, refl, sym, String, true, List, [], ◌∷◌, map, ok, ok-injective, inl, inr, subst, str_eq,
  eq_iff, false, length, ◌∙◌,
}
use compute_markets.Prelude.Text.{is_hash}
use compute_markets.Prelude.Hex.{from_hex, to_hex}
use compute_markets.Prelude.Sorting.{sort}
use compute_markets.Receipts.{sha256}
use compute_markets.Receipts.Laws.{WritesHashes}
use compute_markets.AgentPolicy.{
  Bytes, SpecAllowlist, compare_bytes, hash_pair, normalized, parse_hash, parse_all, lookup, start,
  push_sibling, join, pair_up, climb, build_spec_allowlist, verify_spec_proof,
}
use compute_markets.AgentPolicy.Proofs.{IsCollisionFree, NoCollision}
use compute_markets.AgentPolicy.Allowed.{build_spec_allowlist-proves}
use compute_markets.Samples.{sample_libraries, sample_hash}

abbrev high : String
high = "cccccccccccccccccccccccccccccccccccccccccccccccccccccccccccccccc"

abbrev low : String
low = "BBBBBBBBBBBBBBBBBBBBBBBBBBBBBBBBBBBBBBBBBBBBBBBBBBBBBBBBBBBBBBBB"

abbrev low_id : String
low_id = "bbbbbbbbbbbbbbbbbbbbbbbbbbbbbbbbbbbbbbbbbbbbbbbbbbbbbbbbbbbbbbbb"

abbrev listed : List String
listed = high ∷ low ∷ []

abbrev tree : SpecAllowlist
tree = record { root = sample_hash; proofs = (low_id, high ∷ []) ∷ (high, low_id ∷ []) ∷ [] }

tree_built : build_spec_allowlist sample_libraries listed ≡ ok tree
unfolding build_spec_allowlist start push_sibling join pair_up climb hash_pair from_hex to_hex sort
    sha256
tree_built = refl

unequal : (a b : String) → str_eq a b ≡ false → a ≢ b
unequal a b h e = cc (h, (eq_iff a b).1 e)

abbrev leaves : List Bytes
leaves = from_hex high ∷ from_hex low_id ∷ []

leaves_apart : NoCollision sample_libraries 2 (sort compare_bytes leaves)
unfolding sort to_hex from_hex hash_pair sha256
leaves_apart = (
  (
    ((unequal low_id high refl, (unequal low_id sample_hash refl, tt))),
    ((unequal high sample_hash refl, tt), (tt, tt)),
  ),
  ((tt, tt), tt),
)

listed_parsed : parse_all (map normalized listed) ≡ ok leaves
unfolding from_hex
listed_parsed = refl

listed-IsCollisionFree : IsCollisionFree sample_libraries listed
listed-IsCollisionFree found e =
    subst (λ ls. NoCollision sample_libraries (length ls) (sort compare_bytes ls))
      (ok-injective (sym listed_parsed ∙ e)) leaves_apart

hashes_written : WritesHashes sample_libraries
unfolding is_hash
hashes_written content = refl

build_spec_allowlist-proves_example :
    (leaf : Bytes) × (parse_hash low ≡ ok leaf)
    × (verify_spec_proof sample_libraries low (lookup (to_hex leaf) [] tree.proofs) tree.root
        ≡ ok true)
build_spec_allowlist-proves_example =
    build_spec_allowlist-proves sample_libraries hashes_written listed tree tree_built
      listed-IsCollisionFree low (inr (inl refl))
