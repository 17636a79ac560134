-- ===== src/AgentPolicy/Joining.antt =====
-- One pair of nodes is replaced by its parent.
use compute_markets.Prelude.{
  ℕ, suc, ◌≡◌, ◌≢◌, refl, sym, ap, subst, ◌∙◌, String, Bool, true, false, ◌||◌, List, [], ◌∷◌, ◌++◌,
  includes, str_eq, eq_iff, ◌⊎◌, inl, inr, if◌then◌else◌, arith,
}
use compute_markets.Prelude.Hex.{to_hex}
use compute_markets.Receipts.{Libraries}
use compute_markets.Receipts.Laws.{WritesHashes}
use compute_markets.AgentPolicy.{Bytes, Trace, hash_pair, join}
use compute_markets.AgentPolicy.Pairs.{hash_pair_comm}
use compute_markets.AgentPolicy.Nodes.{IsNode, hash_pair-IsNode}
use compute_markets.AgentPolicy.Maps.{
  Once, Once-append, includes-append, ids_of, proof_of, ids_of-join, proof_of-join,
}
use compute_markets.AgentPolicy.Paths.{Reaches, Reaches-append, Fits}

differs : (a b : String) → a ≢ b → str_eq a b ≡ false
differs a b ne = ground (arith, eq_iff a b)

either : (a b : Bool) → (a || b) ≡ true → (a ≡ true) ⊎ (b ≡ true)
either a b h = ground arith

not_true : (a : Bool) → (a ≡ true → ⊥) → a ≡ false
not_true true h = absurd (h refl)
not_true false h = refl

module _ (libraries : Libraries) (hashes : WritesHashes libraries) (leaves : List String)
    (left right : Bytes) (d : ℕ) where
  abbrev parent : Bytes
  parent = hash_pair libraries left right

  -- The nodes before and after, told apart by their texts.
  pub record Joins (In In' : Bytes → ℕ → Type 0) : Type 0 where
    pub left_in : In left d
    pub right_in : In right d
    pub different : left ≢ right
    pub from :
        (n : Bytes) (e : ℕ)
        → In' n e
        → ((n ≡ parent) × (e ≡ suc d))
          ⊎ (In n e × (to_hex parent ≢ to_hex n) × (n ≢ left) × (n ≢ right))
    pub to_parent : In' parent (suc d)
    pub to :
        (n : Bytes) (e : ℕ)
        → In n e
        → (n ≡ left) ⊎ ((n ≡ right) ⊎ ((to_hex parent ≢ to_hex n) × In' n e))

  module _ (In In' : Bytes → ℕ → Type 0) (j : Joins In In') (t : Trace)
      (h : Fits libraries leaves In t) where
    abbrev after : Trace
    after = join libraries left right t

    left_only :
        (id : String)
        → includes (ids_of libraries t left) id ≡ true
        → includes (ids_of libraries t right) id ≡ false
    left_only id k =
        not_true _ (λ r. j.different (h.apart left right d d j.left_in j.right_in id k r))

    ids_parent : ids_of libraries after parent ≡ ids_of libraries t left ++ ids_of libraries t right
    ids_parent =
        ids_of-join libraries left right t parent
        ∙ rw ((eq_iff (to_hex parent) (to_hex parent)).1 refl) refl

    ids_other :
        (n : Bytes) → to_hex parent ≢ to_hex n → ids_of libraries after n ≡ ids_of libraries t n
    ids_other n ne = ids_of-join libraries left right t n ∙ rw (differs _ _ ne) refl

    in_parent :
        (id : String)
        → includes (ids_of libraries after parent) id ≡ true
        → (includes (ids_of libraries t left) id ≡ true)
          ⊎ (includes (ids_of libraries t right) id ≡ true)
    in_parent id k = either _ _ (
        sym (includes-append (ids_of libraries t left) (ids_of libraries t right) id)
        ∙ ap (λ ids. includes ids id) (sym ids_parent)
        ∙ k)

    proofs :
        (id : String)
        → proof_of libraries after id ≡ (
            if includes (ids_of libraries t left) id
            then proof_of libraries t id ++ right ∷ []
            else if includes (ids_of libraries t right) id
            then proof_of libraries t id ++ left ∷ []
            else proof_of libraries t id)
    proofs id =
        proof_of-join libraries left right t id (h.once left d j.left_in)
          (h.once right d j.right_in) (left_only id)

    reach_parent :
        (id : String)
        → includes (ids_of libraries after parent) id ≡ true
        → Reaches libraries parent (suc d) id (proof_of libraries after id)
    reach_parent id k = elim (in_parent id k) [
      | inl l ↦ subst (Reaches libraries parent (suc d) id) (sym (proofs id ∙ rw l refl)) (
          Reaches-append libraries left right parent d id _ refl (h.node right d j.right_in)
            (h.reach left d j.left_in id l))
      | inr r ↦
          let absent : includes (ids_of libraries t left) id ≡ false =
            not_true _ (λ l. j.different (h.apart left right d d j.left_in j.right_in id l r)) in
          subst (Reaches libraries parent (suc d) id) (sym (proofs id ∙ rw (absent, r) refl)) (
            Reaches-append libraries right left parent d id _ (hash_pair_comm libraries right left)
              (h.node left d j.left_in) (h.reach right d j.right_in id r))
    ]

    reach_other :
        (n : Bytes) (e : ℕ)
        → In n e
        → n ≢ left
        → n ≢ right
        → (id : String) → includes (ids_of libraries t n) id ≡ true
        → Reaches libraries n e id (proof_of libraries after id)
    reach_other n e i nl nr id k =
        let no_left : includes (ids_of libraries t left) id ≡ false =
          not_true _ (λ l. nl (h.apart n left e d i j.left_in id k l)) in
        let no_right : includes (ids_of libraries t right) id ≡ false =
          not_true _ (λ r. nr (h.apart n right e d i j.right_in id k r)) in
        subst (Reaches libraries n e id) (sym (proofs id ∙ rw (no_left, no_right) refl))
          (h.reach n e i id k)

    record Fact (n : Bytes) (e : ℕ) : Type 0 where
      node : IsNode n
      reach :
          (id : String)
          → includes (ids_of libraries after n) id ≡ true
          → Reaches libraries n e id (proof_of libraries after id)
      once : Once (ids_of libraries after n)

    parent-Fact : Fact parent (suc d)
    parent-Fact = record {
      node = hash_pair-IsNode libraries hashes left right;
      reach = reach_parent;
      once =
          subst Once (sym ids_parent)
            (Once-append _ _ (h.once left d j.left_in) (h.once right d j.right_in) left_only);
    }

    fact : (n : Bytes) (e : ℕ) → In' n e → Fact n e
    fact n e i = elim (j.from n e i) [
      | inl (same, bound) ↦ rw (same, bound) parent-Fact
      | inr (old, ne, nl, nr) ↦ record {
        node = h.node n e old;
        reach = λ id k.
            reach_other n e old nl nr id (ap (λ ids. includes ids id) (sym (ids_other n ne)) ∙ k);
        once = subst Once (sym (ids_other n ne)) (h.once n e old);
      }
    ]

    -- A node that stays shares no leaf with the parent.
    not_under :
        (m : Bytes) (e : ℕ)
        → In m e
        → to_hex parent ≢ to_hex m
        → m ≢ left
        → m ≢ right
        → (id : String) → includes (ids_of libraries after parent) id ≡ true
        → includes (ids_of libraries after m) id ≡ true
        → ⊥
    not_under m e i ne nl nr id k l =
        let under_m : includes (ids_of libraries t m) id ≡ true =
          ap (λ ids. includes ids id) (sym (ids_other m ne)) ∙ l in
        elim (in_parent id k) [
          | inl x ↦ nl (h.apart m left e d i j.left_in id under_m x)
          | inr x ↦ nr (h.apart m right e d i j.right_in id under_m x)
        ]

    apart_after :
        (n m : Bytes) (e f : ℕ)
        → In' n e
        → In' m f
        → (id : String) → includes (ids_of libraries after n) id ≡ true
        → includes (ids_of libraries after m) id ≡ true
        → n ≡ m
    apart_after n m e f i i' id k l = elim (j.from n e i) [
      | inl (n_new, _) ↦ elim (j.from m f i') [
        | inl (m_new, _) ↦ n_new ∙ sym m_new
        | inr (old, ne, nl, nr) ↦ absurd (not_under m f old ne nl nr id (rw n_new at k) l)
      ]
      | inr (old, ne, nl, nr) ↦ elim (j.from m f i') [
        | inl (m_new, _) ↦ absurd (not_under n e old ne nl nr id (rw m_new at l) k)
        | inr (old', ne', _, _) ↦
            h.apart n m e f old old' id (ap (λ ids. includes ids id) (sym (ids_other n ne)) ∙ k)
              (ap (λ ids. includes ids id) (sym (ids_other m ne')) ∙ l)
      ]
    ]

    covers_after :
        (id : String)
        → includes leaves id ≡ true
        → (n : Bytes) × (e : ℕ) × In' n e × (includes (ids_of libraries after n) id ≡ true)
    covers_after id k =
        let (n, e, i, found) = h.covers id k in
        elim (j.to n e i) [
          | inl same ↦ (parent, suc d, j.to_parent, under id (ground (arith, rw same at found)))
          | inr (inl same) ↦
              (parent, suc d, j.to_parent, under id (ground (arith, rw same at found)))
          | inr (inr (ne, stays)) ↦
              (n, e, stays, ap (λ ids. includes ids id) (ids_other n ne) ∙ found)
        ]
      where
        under :
            (id : String)
            → (includes (ids_of libraries t left) id || includes (ids_of libraries t right) id)
              ≡ true
            → includes (ids_of libraries after parent) id ≡ true
        under id x =
            ap (λ ids. includes ids id) ids_parent
            ∙ includes-append (ids_of libraries t left) (ids_of libraries t right) id
            ∙ x

    pub join-Fits : Fits libraries leaves In' after
    join-Fits = record {
      node = λ n e i. (fact n e i).node;
      reach = λ n e i. (fact n e i).reach;
      once = λ n e i. (fact n e i).once;
      apart = apart_after;
      covers = covers_after;
    }
