-- ===== src/AgentPolicy/Allowed.antt =====
-- The specification hashes of an allowlist, and their proofs at `verifySpecProof`.
use compute_markets.Prelude.{
  ℕ, ◌≤◌, ◌≡◌, refl, sym, ap, ◌∙◌, String, true, false, not, List, [], ◌∷◌, map, length, length-map,
  includes_iff, leb, ltb, is_empty, ok, ok-injective, require, require_holds, bind_ok, inl, inr,
  All, All-Occurs, Occurs, subst, Occurs-map, arith,
}
use compute_markets.Prelude.Text.{same_codes}
use compute_markets.Prelude.Hex.{to_hex}
use compute_markets.Prelude.Sorting.{sort}
use compute_markets.Prelude.Sorting.Laws.{length-sort, sort-All, sort-Occurs}
use compute_markets.Receipts.{Libraries}
use compute_markets.Receipts.Laws.{WritesHashes}
use compute_markets.AgentPolicy.{
  Bytes, SpecAllowlist, Trace, compare_bytes, hash_pair, normalized, has_repeat, parse_normalized,
  parse_hash, parse_all, lookup, start, root_of, tree_of, build_spec_allowlist, fold_proof,
  verify_spec_proof,
}
use compute_markets.AgentPolicy.Levels.{climb-single}
use compute_markets.AgentPolicy.Nodes.{
  IsNode, parse_hash-to_hex, to_hex-injective, parse_normalized-IsNode,
}
use compute_markets.AgentPolicy.Maps.{lookup-map, proof_of}
use compute_markets.AgentPolicy.Paths.{above, Fits}
use compute_markets.AgentPolicy.Rounds.{At}
use compute_markets.AgentPolicy.Proofs.{IsCollisionFree, NoCollision, climb-Fits, empty, start-Fits}

parse_all-IsNode :
    (hashes : List (List ℕ)) (leaves : List Bytes)
    → parse_all hashes ≡ ok leaves
    → All IsNode leaves
parse_all-IsNode [] [] h = tt
parse_all-IsNode [] (leaf ∷ leaves) h = absurd (cc)
parse_all-IsNode (cs ∷ rest) leaves h = bind_ok (parse_normalized cs) _ h λ leaf e h1.
    bind_ok (parse_all rest) _ h1 λ others e' h2.
      rw (sym (ok-injective h2))
        (parse_normalized-IsNode cs leaf e, parse_all-IsNode rest others e')

leaf_of :
    (h : String) (spec_hashes : List String) (leaves : List Bytes)
    → Occurs h spec_hashes
    → parse_all (map normalized spec_hashes) ≡ ok leaves
    → (leaf : Bytes) × (parse_hash h ≡ ok leaf) × Occurs leaf leaves
unfolding parse_hash
leaf_of h [] leaves o e = elim o [ ]
leaf_of h (s ∷ rest) leaves o e = bind_ok (parse_normalized (normalized s)) _ e λ leaf e1 h1.
    bind_ok (parse_all (map normalized rest)) _ h1 λ others e2 h2. elim o [
      | inl same ↦ (
        leaf,
        ap parse_normalized (ap normalized same) ∙ e1,
        rw (sym (ok-injective h2)) (inl refl),
      )
      | inr later ↦
          let (found, parsed, place) = leaf_of h rest others later e2 in
          (found, parsed, rw (sym (ok-injective h2)) (inr place))
    ]

same_codes_refl : (cs : List ℕ) → same_codes cs cs ≡ true
same_codes_refl [] = refl
same_codes_refl (c ∷ cs) = ground (arith, same_codes_refl cs)

some_leaf : (leaves : List Bytes) (leaf : Bytes) → Occurs leaf leaves → 1 ≤ length leaves
some_leaf [] leaf o = elim o [ ]
some_leaf (x ∷ xs) leaf o = omega arith

module _ (libraries : Libraries) where
  fold_proof-above :
      (n : Bytes) (siblings : List Bytes)
      → All IsNode siblings
      → fold_proof libraries n (map to_hex siblings) ≡ ok (above libraries n siblings)
  unfolding fold_proof
  fold_proof-above n [] h = refl
  fold_proof-above n (s ∷ ss) (here, later) =
      rw (parse_hash-to_hex s here) (fold_proof-above (hash_pair libraries n s) ss later)

  verify_spec_proof-above :
      (h : String) (leaf root : Bytes) (siblings : List Bytes)
      → parse_hash h ≡ ok leaf
      → All IsNode siblings
      → length siblings ≤ 16
      → IsNode root
      → above libraries leaf siblings ≡ root
      → verify_spec_proof libraries h (map to_hex siblings) (to_hex root) ≡ ok true
  unfolding verify_spec_proof
  verify_spec_proof-above h leaf root siblings parsed nodes few root_node path =
      let short : ltb 16 (length (map to_hex siblings)) ≡ false =
        rw (length-map to_hex siblings) (ground (arith, few)) in
      rw
        (
          parsed,
          short,
          fold_proof-above leaf siblings nodes,
          parse_hash-to_hex root root_node,
          path,
          same_codes_refl root,
        )
        refl

  -- A leaf at the end of the rounds.
  finished :
      (leaves : List Bytes) (leaf : Bytes) (h : String) (d : ℕ) (out : List Bytes × Trace)
      (a : SpecAllowlist)
      → parse_hash h ≡ ok leaf
      → IsNode leaf
      → Occurs leaf leaves
      → d ≤ 16
      → length out.0 ≡ 1
      → Fits libraries (map to_hex leaves) (At libraries out.0 d) out.1
      → root_of libraries out ≡ ok a
      → verify_spec_proof libraries h (lookup (to_hex leaf) [] a.proofs) a.root ≡ ok true
  finished leaves leaf h d ([], t) a parsed node o bound one fits built = absurd (omega arith)
  finished leaves leaf h d (root ∷ x ∷ xs, t) a parsed node o bound one fits built =
      absurd (omega arith)
  finished leaves leaf h d (root ∷ [], t) a parsed node o bound one fits built =
      let id = to_hex leaf in
      let (n, e, place, under) =
        fits.covers id
          ((includes_iff (map to_hex leaves) id).1 (Occurs-map to_hex leaf leaves o)) in
      let r = fits.reach n e place id under in
      let at_root : n ≡ root = elim place.0 [ inl same ↦ same | inr none ↦ elim none [ ] ] in
      let same : leaf ≡ r.leaf = to_hex-injective leaf r.leaf node r.leaf_node r.named in
      let path : above libraries leaf (proof_of libraries t id) ≡ root =
        ap (λ x. above libraries x (proof_of libraries t id)) same ∙ r.path ∙ at_root in
      let found : lookup id [] (map (λ e. (e.0, map to_hex e.1)) t.proofs)
          ≡ map to_hex (proof_of libraries t id) =
        lookup-map (map to_hex) id [] t.proofs in
      rw (sym (ok-injective built), found)
        (verify_spec_proof-above h leaf root (proof_of libraries t id) parsed r.nodes
          (omega (arith, r.short, place.1, bound)) (fits.node root d (inl refl, refl)) path)

  -- Let the tree be built over some specification hashes, the hash write 64 hexadecimal digits, and
  -- no two nodes of a round be the same. Then the proof that comes with each of the hashes verifies
  -- against the root; in particular it has at most 16 siblings.
  pub build_spec_allowlist-proves :
      WritesHashes libraries
      → (spec_hashes : List String) (a : SpecAllowlist)
      → build_spec_allowlist libraries spec_hashes ≡ ok a
      → IsCollisionFree libraries spec_hashes
      → (h : String) → Occurs h spec_hashes
      → (leaf : Bytes) × (parse_hash h ≡ ok leaf)
        × (verify_spec_proof libraries h (lookup (to_hex leaf) [] a.proofs) a.root ≡ ok true)
  unfolding build_spec_allowlist
  build_spec_allowlist-proves hashes spec_hashes a built free h o =
      bind_ok (require (not (is_empty spec_hashes)) "At least one spec hash is required") _ built
        λ filled e1 h1.
          bind_ok
            (require (not (has_repeat (map normalized spec_hashes)))
              "Duplicate spec hashes are not allowed")
            _ h1
            λ unique e2 h2. bind_ok (parse_all (map normalized spec_hashes)) _ h2 λ leaves e3 h3.
              bind_ok (require (leb (length leaves) 65536) "Spec allowlist is too large") _ h3
                λ small e4 h4.
                  let (leaf, parsed, place) = leaf_of h spec_hashes leaves o e3 in
                  (
                    leaf,
                    parsed,
                    proved leaves leaf parsed place
                        (sort-All compare_bytes IsNode leaves
                          (parse_all-IsNode (map normalized spec_hashes) leaves e3))
                        (ground (arith, require_holds _ _ small e4)) (free leaves e3) h4,
                  )
    where
      proved :
          (leaves : List Bytes) (leaf : Bytes)
          → parse_hash h ≡ ok leaf
          → Occurs leaf leaves
          → All IsNode (sort compare_bytes leaves)
          → length leaves ≤ 65536
          → NoCollision libraries (length leaves) (sort compare_bytes leaves)
          → root_of libraries (tree_of libraries (sort compare_bytes leaves)) ≡ ok a
          → verify_spec_proof libraries h (lookup (to_hex leaf) [] a.proofs) a.root ≡ ok true
      proved leaves leaf parsed place nodes few distinct made =
          let sorted = sort compare_bytes leaves in
          let long = length-sort compare_bytes leaves in
          let here = sort-Occurs compare_bytes leaf leaves place in
          let (d, fits, bound) =
            climb-Fits libraries hashes (map to_hex sorted) (length sorted) 16 0 sorted
              (start sorted empty) (omega arith)
              (subst (λ k. NoCollision libraries k sorted) (sym long) distinct)
              (start-Fits libraries sorted nodes) in
          finished sorted leaf h d (tree_of libraries sorted) a parsed
            (All-Occurs IsNode leaf sorted nodes here) here (omega arith)
            (climb-single libraries (length sorted) sorted _ (some_leaf sorted leaf here)
              (omega arith))
            fits made
