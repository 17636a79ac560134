-- ===== src/AgentPolicy/Paths.antt =====
-- The siblings that are collected for a leaf lead from it to a node.
use compute_markets.Prelude.{
  ℕ, suc, ◌≤◌, ◌≡◌, refl, ap, ◌∙◌, String, true, List, [], ◌∷◌, ◌++◌, length, includes, arith, All,
  All-append, length-append,
}
use compute_markets.Prelude.Hex.{to_hex}
use compute_markets.Receipts.{Libraries}
use compute_markets.AgentPolicy.{Bytes, Trace, hash_pair}
use compute_markets.AgentPolicy.Nodes.{IsNode}
use compute_markets.AgentPolicy.Maps.{Once, ids_of, proof_of}

module _ (libraries : Libraries) where
  -- The node above a node and its siblings.
  abbrev pub above : Bytes → List Bytes → Bytes
  above n [] = n
  above n (s ∷ ss) = above (hash_pair libraries n s) ss

  above-append :
      (n s : Bytes) (ss : List Bytes) → above n (ss ++ s ∷ []) ≡ hash_pair libraries (above n ss) s
  above-append n s [] = refl
  above-append n s (x ∷ ss) = above-append (hash_pair libraries n x) s ss

  -- The proof of a leaf leads from it to the node, in so many steps at most.
  pub record Reaches (n : Bytes) (depth : ℕ) (id : String) (siblings : List Bytes) : Type 0 where
    pub leaf : Bytes
    pub leaf_node : IsNode leaf
    pub named : id ≡ to_hex leaf
    pub path : above leaf siblings ≡ n
    pub nodes : All IsNode siblings
    pub short : length siblings ≤ depth

  pub Reaches-append :
      (n s parent : Bytes) (depth : ℕ) (id : String) (siblings : List Bytes)
      → hash_pair libraries n s ≡ parent
      → IsNode s
      → Reaches n depth id siblings
      → Reaches parent (suc depth) id (siblings ++ s ∷ [])
  Reaches-append n s parent depth id siblings e node h = record {
    leaf = h.leaf;
    leaf_node = h.leaf_node;
    named = h.named;
    path = above-append h.leaf s siblings ∙ ap (λ x. hash_pair libraries x s) h.path ∙ e;
    nodes = All-append IsNode siblings (s ∷ []) h.nodes (node, tt);
    short = omega (arith, length-append siblings (s ∷ []), h.short);
  }

  -- The maps fit the nodes that `In` names, each with a bound on the lengths of the proofs below it:
  -- every leaf is below one node, and its proof leads there.
  pub record Fits (leaves : List String) (In : Bytes → ℕ → Type 0) (t : Trace) : Type 0 where
    pub node : (n : Bytes) (d : ℕ) → In n d → IsNode n
    pub reach :
        (n : Bytes) (d : ℕ)
        → In n d
        → (id : String) → includes (ids_of libraries t n) id ≡ true
        → Reaches n d id (proof_of libraries t id)
    pub once : (n : Bytes) (d : ℕ) → In n d → Once (ids_of libraries t n)
    pub apart :
        (n m : Bytes) (d e : ℕ)
        → In n d
        → In m e
        → (id : String) → includes (ids_of libraries t n) id ≡ true
        → includes (ids_of libraries t m) id ≡ true
        → n ≡ m
    pub covers :
        (id : String)
        → includes leaves id ≡ true
        → (n : Bytes) × (d : ℕ) × In n d × (includes (ids_of libraries t n) id ≡ true)

  pub Fits-iff :
      (leaves : List String) (In In' : Bytes → ℕ → Type 0) (t : Trace)
      → ((n : Bytes) (d : ℕ) → In' n d → (e : ℕ) × In n e × (e ≤ d))
      → ((n : Bytes) (d : ℕ) → In n d → (e : ℕ) × In' n e)
      → Fits leaves In t
      → Fits leaves In' t
  Fits-iff leaves In In' t from to h = record {
    node = λ n d i. let (e, j, le) = from n d i in h.node n e j;
    reach = λ n d i id k.
        let (e, j, le) = from n d i in
        let r = h.reach n e j id k in
        record {
          leaf = r.leaf;
          leaf_node = r.leaf_node;
          named = r.named;
          path = r.path;
          nodes = r.nodes;
          short = omega (arith, r.short, le);
        };
    once = λ n d i. let (e, j, le) = from n d i in h.once n e j;
    apart = λ n m d e i j. h.apart n m _ _ (from n d i).1 (from m e j).1;
    covers =
        λ id k. let (n, d, i, found) = h.covers id k in let (e, j) = to n d i in (n, e, j, found);
  }
