-- ===== src/AgentPolicy/Proofs.antt =====
-- The proofs that come with the tree, at `verifySpecProof`.
use compute_markets.Prelude.{
  ℕ, zero, suc, ◌+◌, ◌*◌, ◌≤◌, ◌≡◌, refl, sym, ap, subst, ◌∙◌, String, Bool, true, false, ◌||◌,
  List, [], ◌∷◌, map, length, includes, includes_iff, eq_iff, ltb, ok, Bool-cases, inl, inr, All,
  All-Occurs, Occurs, Occurs-map, Ordered, arith,
}
use compute_markets.Prelude.Hex.{to_hex}
use compute_markets.Prelude.Sorting.{sort}
use compute_markets.Receipts.{Libraries}
use compute_markets.Receipts.Laws.{WritesHashes}
use compute_markets.AgentPolicy.{
  Bytes, Trace, compare_bytes, hash_pair, normalized, parse_all, start, pair_up, climb,
}
use compute_markets.AgentPolicy.Levels.{length-pair_up}
use compute_markets.AgentPolicy.Nodes.{IsNode, to_hex-injective}
use compute_markets.AgentPolicy.Maps.{ids_of, start-lookup, start-no_proofs}
use compute_markets.AgentPolicy.Paths.{Reaches, Fits, Fits-iff}
use compute_markets.AgentPolicy.Rounds.{Differ, round, At, pair_up-Fits}

-- The leaves that so many rounds bring to one node.
abbrev capacity : ℕ → ℕ
capacity zero = 1
capacity (suc k) = 2 * capacity k

Occurs-unmap :
    (id : String) (nodes : List Bytes)
    → Occurs id (map to_hex nodes)
    → (n : Bytes) × Occurs n nodes × (id ≡ to_hex n)
Occurs-unmap id [] o = elim o [ ]
Occurs-unmap id (n ∷ nodes) (inl e) = (n, inl refl, e)
Occurs-unmap id (n ∷ nodes) (inr o) =
    let (m, later, e) = Occurs-unmap id nodes o in (m, inr later, e)

unit_right : (b : Bool) → (b || false) ≡ true → b ≡ true
unit_right b k = ground arith

abbrev pub empty : Trace
empty = record { proofs = []; descendants = [] }

module _ (libraries : Libraries) where
  -- The next level.
  abbrev pub next : List Bytes → List Bytes
  next [] = []
  next (n ∷ []) = n ∷ []
  next (left ∷ right ∷ level) = hash_pair libraries left right ∷ next level

  pair_up-next : (level : List Bytes) (t : Trace) → (pair_up libraries level t).0 ≡ next level
  unfolding pair_up
  pair_up-next [] t = refl
  pair_up-next (n ∷ []) t = refl
  pair_up-next (left ∷ right ∷ level) t =
      ap (◌∷◌ (hash_pair libraries left right)) (pair_up-next level _)

  -- In none of so many rounds two nodes have the same text.
  abbrev pub NoCollision : ℕ → List Bytes → Type 0
  NoCollision zero level = Unit
  NoCollision (suc fuel) level =
      Ordered Differ (round libraries level) × NoCollision fuel (next level)

  -- The hash does not collide in the tree over these specification hashes.
  abbrev pub IsCollisionFree : List String → Type 0
  IsCollisionFree spec_hashes =
      (leaves : List Bytes)
      → parse_all (map normalized spec_hashes) ≡ ok leaves
      → NoCollision (length leaves) (sort compare_bytes leaves)

  module _ (hashes : WritesHashes libraries) (leaves : List String) where
    round-Fits :
        (level : List Bytes) (d : ℕ) (t : Trace)
        → Ordered Differ (round libraries level)
        → Fits libraries leaves (At libraries level d) t
        → Fits libraries leaves
            (At libraries ((pair_up libraries level t).0) (suc d))
            ((pair_up libraries level t).1)
    round-Fits level d t apart h =
        Fits-iff libraries leaves _ (At libraries ((pair_up libraries level t).0) (suc d)) _
          (λ n b (o, e). (suc d, (inr o, refl), omega arith))
          (λ n b (o, e). elim o [ inl none ↦ elim none [ ] | inr new ↦ (suc d, (new, refl)) ])
          (pair_up-Fits libraries hashes leaves level [] d t apart tt (
            Fits-iff libraries leaves (At libraries level d) _ t
              (λ n b o. elim o [
                | inl (none, e) ↦ elim none [ ]
                | inr (here, e) ↦ (d, (here, refl), omega arith)
              ])
              (λ n b (o, e). (d, inr (o, refl))) h))

    pub climb-Fits :
        (fuel k d : ℕ) (level : List Bytes) (t : Trace)
        → length level ≤ capacity k
        → NoCollision fuel level
        → Fits libraries leaves (At libraries level d) t
        → (e : ℕ) × Fits libraries leaves
            (At libraries ((climb libraries fuel level t).0) e)
            ((climb libraries fuel level t).1)
          × (e ≤ d + k)
    unfolding climb
    climb-Fits zero k d level t few free h = (d, h, omega arith)
    climb-Fits (suc fuel) zero d level t few (apart, free) h =
        elim (Bool-cases (ltb 1 (length level))) [
          | inr single ↦ rw single (d, h, omega arith)
          | inl more ↦ absurd (ground arith)
        ]
    climb-Fits (suc fuel) (suc k) d level t few (apart, free) h =
        elim (Bool-cases (ltb 1 (length level))) [
          | inr single ↦ rw single (d, h, omega arith)
          | inl more ↦
              let made = pair_up libraries level t in
              let (shorter, filled) = length-pair_up libraries level t in
              let (e, fits, bound) =
                climb-Fits fuel k (suc d) made.0 made.1 (omega arith)
                  (subst (NoCollision fuel) (sym (pair_up-next level t)) free)
                  (round-Fits level d t apart h) in
              rw more (e, fits, omega arith)
        ]

  pub start-Fits :
      (nodes : List Bytes)
      → All IsNode nodes
      → Fits libraries (map to_hex nodes) (At libraries nodes 0) (start nodes empty)
  start-Fits nodes h = record {
    node = λ n d (o, e). All-Occurs IsNode n nodes h o;
    reach = λ n d (o, e) id k.
        let named = only n o id k in
        subst (Reaches libraries n d id) (sym (start-no_proofs nodes empty (λ k. refl) id))
          (record {
            leaf = n;
            leaf_node = All-Occurs IsNode n nodes h o;
            named = named;
            path = refl;
            nodes = tt;
            short = omega arith;
          });
    once = λ n d (o, e). rw (ids n o) (refl, tt);
    apart = λ n m d e (o, _) (o', _) id k l.
        to_hex-injective n m (All-Occurs IsNode n nodes h o) (All-Occurs IsNode m nodes h o')
          (sym (only n o id k) ∙ only m o' id l);
    covers = λ id k.
        let (n, o, e) = Occurs-unmap id nodes ((includes_iff (map to_hex nodes) id).0 k) in
        (n, 0, (o, refl), rw (ids n o, e, (eq_iff (to_hex n) (to_hex n)).1 refl) refl);
  }
    where
      ids : (n : Bytes) → Occurs n nodes → ids_of libraries (start nodes empty) n ≡ to_hex n ∷ []
      ids n o =
          start-lookup nodes empty (to_hex n)
          ∙ rw ((includes_iff (map to_hex nodes) (to_hex n)).1 (Occurs-map to_hex n nodes o)) refl

      only :
          (n : Bytes)
          → Occurs n nodes
          → (id : String) → includes (ids_of libraries (start nodes empty) n) id ≡ true
          → id ≡ to_hex n
      only n o id k = sym ((eq_iff (to_hex n) id).0 (unit_right _ (rw (ids n o) at k)))
