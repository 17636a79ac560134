-- ===== src/AgentPolicy/Rounds.antt =====
-- The rounds of the outer loop, if no two nodes of a round have the same text.
use compute_markets.Prelude.{
  ℕ, suc, ◌≡◌, ◌≢◌, refl, sym, ap, String, List, [], ◌∷◌, ◌++◌, ◌⊎◌, inl, inr, All, Occurs,
  All-Occurs, All-weaken, Ordered, arith,
}
use compute_markets.Prelude.Hex.{to_hex}
use compute_markets.Receipts.{Libraries}
use compute_markets.Receipts.Laws.{WritesHashes}
use compute_markets.AgentPolicy.{Bytes, Trace, hash_pair, join, pair_up}
use compute_markets.AgentPolicy.Paths.{Fits, Fits-iff}
use compute_markets.AgentPolicy.Joining.{Joins, join-Fits}

module _ {A : Type 0} where
  All-middle :
      (P : A → Type 0) (xs ys : List A) (y : A) → All P (xs ++ y ∷ ys) → P y × All P (xs ++ ys)
  All-middle P [] ys y h = h
  All-middle P (x ∷ xs) ys y (here, later) =
      let (at_y, rest) = All-middle P xs ys y later in (at_y, (here, rest))

  Ordered-middle :
      (R : A → A → Type 0)
      → ((a b : A) → R a b → R b a)
      → (xs ys : List A) (y : A) → Ordered R (xs ++ y ∷ ys)
      → All (R y) (xs ++ ys) × Ordered R (xs ++ ys)
  Ordered-middle R back [] ys y h = h
  Ordered-middle R back (x ∷ xs) ys y (here, later) =
      let (at_y, rest) = All-middle (R x) xs ys y here in
      let (others, ordered) = Ordered-middle R back xs ys y later in
      ((back x y at_y, others), (rest, ordered))

  Occurs-append : (a : A) (xs ys : List A) → Occurs a xs → Occurs a (xs ++ ys)
  Occurs-append a [] ys o = elim o [ ]
  Occurs-append a (x ∷ xs) ys (inl e) = inl e
  Occurs-append a (x ∷ xs) ys (inr o) = inr (Occurs-append a xs ys o)

-- Two nodes have different texts.
abbrev pub Differ : Bytes → Bytes → Type 0
Differ a b = to_hex a ≢ to_hex b

different : (a b : Bytes) → Differ a b → a ≢ b
different a b ne e = ne (ap to_hex e)

back : (a b : Bytes) → Differ a b → Differ b a
back a b ne e = ne (sym e)

module _ (libraries : Libraries) where
  -- The nodes that a round makes.
  abbrev pub parents : List Bytes → List Bytes
  parents [] = []
  parents (left ∷ []) = []
  parents (left ∷ right ∷ level) = hash_pair libraries left right ∷ parents level

  -- The nodes of a round: those of the level and those it makes.
  abbrev pub round : List Bytes → List Bytes
  round level = level ++ parents level

  -- In the middle of a round: the nodes that are done, and those that are left.
  abbrev Between : List Bytes → List Bytes → ℕ → Bytes → ℕ → Type 0
  Between done rest d n b = (Occurs n done × (b ≡ suc d)) ⊎ (Occurs n rest × (b ≡ d))

  -- The nodes of a level, with a bound.
  abbrev pub At : List Bytes → ℕ → Bytes → ℕ → Type 0
  At level d n b = Occurs n level × (b ≡ d)

  module _ (hashes : WritesHashes libraries) (leaves : List String) where
    joined :
        (left right : Bytes) (done rest : List Bytes) (d : ℕ)
        → Ordered Differ (round (left ∷ right ∷ rest))
        → All (λ n. All (Differ n) (round (left ∷ right ∷ rest))) done
        → Joins libraries hashes leaves left right d
            (Between done (left ∷ right ∷ rest) d)
            (Between (hash_pair libraries left right ∷ done) rest d)
    joined left right done rest d ((apart, of_left), (of_right, others)) done_apart =
        let p = hash_pair libraries left right in
        let of_p = (Ordered-middle Differ back rest (parents rest) p others).0 in
        let rest_left : (n : Bytes) → Occurs n rest → n ≢ left = λ n o.
          different n left
            (back left n (All-Occurs (Differ left) n _ of_left (Occurs-append n rest _ o))) in
        let rest_right : (n : Bytes) → Occurs n rest → n ≢ right = λ n o.
          different n right
            (back right n (All-Occurs (Differ right) n _ of_right (Occurs-append n rest _ o))) in
        let rest_p : (n : Bytes) → Occurs n rest → Differ p n =
          λ n o. All-Occurs (Differ p) n _ of_p (Occurs-append n rest _ o) in
        let from_done : (n : Bytes) → Occurs n done → (n ≢ left) × (n ≢ right) × Differ p n = λ n o.
          let (l, (r, later)) =
            All-Occurs (λ n. All (Differ n) (round (left ∷ right ∷ rest))) n done done_apart o in
          (
            different n left l,
            different n right r,
            back n p (All-middle (Differ n) rest (parents rest) p later).0,
          ) in
        record {
          left_in = inr (inl refl, refl);
          right_in = inr (inr (inl refl), refl);
          different = different left right apart;
          from = λ n e i. elim i [
            | inl (inl same, bound) ↦ inl (same, bound)
            | inl (inr o, bound) ↦ let (l, r, u) = from_done n o in inr (inl (o, bound), u, l, r)
            | inr (o, bound) ↦
                inr (inr (inr (inr o), bound), rest_p n o, rest_left n o, rest_right n o)
          ];
          to_parent = inl (inl refl, refl);
          to = λ n e i. elim i [
            | inl (o, bound) ↦ inr (inr ((from_done n o).2, inl (inr o, bound)))
            | inr (inl same, bound) ↦ inl same
            | inr (inr (inl same), bound) ↦ inr (inl same)
            | inr (inr (inr o), bound) ↦ inr (inr (rest_p n o, inr (o, bound)))
          ];
        }

    pub pair_up-Fits :
        (rest done : List Bytes) (d : ℕ) (t : Trace)
        → Ordered Differ (round rest)
        → All (λ n. All (Differ n) (round rest)) done
        → Fits libraries leaves (Between done rest d) t
        → Fits libraries leaves
            (λ n b. (Occurs n done ⊎ Occurs n ((pair_up libraries rest t).0)) × (b ≡ suc d))
            ((pair_up libraries rest t).1)
    unfolding pair_up
    pair_up-Fits [] done d t ordered apart h =
        Fits-iff libraries leaves (Between done [] d) _ t
          (λ n b (o, e). elim o [
            | inl old ↦ (suc d, inl (old, refl), omega arith)
            | inr new ↦ elim new [ ]
          ])
          (λ n b o. elim o [
            | inl (old, e) ↦ (suc d, (inl old, refl))
            | inr (new, e) ↦ elim new [ ]
          ])
          h
    pair_up-Fits (x ∷ []) done d t ordered apart h =
        Fits-iff libraries leaves (Between done (x ∷ []) d) _ t
          (λ n b (o, e). elim o [
            | inl old ↦ (suc d, inl (old, refl), omega arith)
            | inr new ↦ (d, inr (new, refl), omega arith)
          ])
          (λ n b o. elim o [
            | inl (old, e) ↦ (suc d, (inl old, refl))
            | inr (new, e) ↦ (suc d, (inr new, refl))
          ])
          h
    pair_up-Fits (left ∷ right ∷ rest) done d t ordered apart h =
        let p = hash_pair libraries left right in
        let (of_p, ordered_rest) = Ordered-middle Differ back rest (parents rest) p ordered.1.1 in
        let apart_rest =
          All-weaken (λ n. All (Differ n) (round (left ∷ right ∷ rest)))
            (λ n. All (Differ n) (round rest))
            (λ n a. (All-middle (Differ n) rest (parents rest) p a.1.1).1) done apart in
        let joined_fits =
          join-Fits libraries hashes leaves left right d (Between done (left ∷ right ∷ rest) d)
            (Between (p ∷ done) rest d) (joined left right done rest d ordered apart) t h in
        Fits-iff libraries leaves _ _ _
          (λ n b (o, e). elim o [
            | inl old ↦ (suc d, (inl (inr old), refl), omega arith)
            | inr (inl new) ↦ (suc d, (inl (inl new), refl), omega arith)
            | inr (inr later) ↦ (suc d, (inr later, refl), omega arith)
          ])
          (λ n b (o, e). elim o [
            | inl (inl new) ↦ (suc d, (inr (inl new), refl))
            | inl (inr old) ↦ (suc d, (inl old, refl))
            | inr later ↦ (suc d, (inr (inr later), refl))
          ])
          (pair_up-Fits rest (p ∷ done) d (join libraries left right t) ordered_rest
            (of_p, apart_rest) joined_fits)
