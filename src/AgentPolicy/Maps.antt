-- ===== src/AgentPolicy/Maps.antt =====
-- What the two maps of a tree under construction hold.
use compute_markets.Prelude.{
  ◌≡◌, refl, sym, ap, ◌∙◌, String, true, false, ◌||◌, List, [], ◌∷◌, ◌++◌, map, includes, str_eq,
  eq_iff, Bool-cases, inl, inr, if◌then◌else◌, arith,
}
use compute_markets.Prelude.Hex.{to_hex}
use compute_markets.Receipts.{Libraries}
use compute_markets.AgentPolicy.{Bytes, Trace, set, lookup, start, push_sibling, hash_pair, join}

lookup-set :
    {A : Type 0} (key k : String) (a otherwise : A) (entries : List (String × A))
    → lookup k otherwise (set key a entries)
      ≡ (if str_eq key k then a else lookup k otherwise entries)
lookup-set key k a otherwise [] = refl
lookup-set key k a otherwise ((j, b) ∷ entries) =
    ground (arith, eq_iff key k, eq_iff j key, eq_iff j k, lookup-set key k a otherwise entries)

pub lookup-map :
    {A B : Type 0} (f : A → B) (k : String) (otherwise : A) (entries : List (String × A))
    → lookup k (f otherwise) (map (λ e. (e.0, f e.1)) entries) ≡ f (lookup k otherwise entries)
lookup-map f k otherwise [] = refl
lookup-map f k otherwise ((j, b) ∷ entries) = elim (Bool-cases (str_eq j k)) [
  | inl here ↦ rw here refl
  | inr there ↦ rw there (lookup-map f k otherwise entries)
]

-- No text stands twice in the list.
abbrev pub Once : List String → Type 0
Once [] = Unit
Once (s ∷ ss) = (includes ss s ≡ false) × Once ss

pub includes-append :
    (xs ys : List String) (s : String) → includes (xs ++ ys) s ≡ (includes xs s || includes ys s)
includes-append [] ys s = refl
includes-append (x ∷ xs) ys s = ground (arith, includes-append xs ys s)

pub Once-append :
    (xs ys : List String)
    → Once xs
    → Once ys
    → ((s : String) → includes xs s ≡ true → includes ys s ≡ false)
    → Once (xs ++ ys)
Once-append [] ys h k apart = k
Once-append (x ∷ xs) ys (new, h) k apart = (
  includes-append xs ys x ∙ rw (new, apart x (ground (arith, eq_iff x x))) refl,
  Once-append xs ys h k (λ s i. apart s (ground arith)),
)

lookup-push_sibling :
    (ids : List String) (sibling : Bytes) (proofs : List (String × List Bytes)) (id : String)
    → Once ids
    → lookup id [] (push_sibling ids sibling proofs)
      ≡ (if includes ids id then lookup id [] proofs ++ sibling ∷ [] else lookup id [] proofs)
unfolding push_sibling
lookup-push_sibling [] sibling proofs id h = refl
lookup-push_sibling (i ∷ ids) sibling proofs id (new, h) =
    let longer = lookup i [] proofs ++ sibling ∷ [] in
    let rest = lookup-push_sibling ids sibling (set i longer proofs) id h in
    let there = lookup-set i id longer [] proofs in
    elim (Bool-cases (str_eq i id)) [
      | inl same ↦
          let e : i ≡ id = (eq_iff i id).0 same in
          let absent : includes ids id ≡ false = ap (includes ids) (sym e) ∙ new in
          rest ∙ rw (absent, there, same, e) refl
      | inr other ↦ rest ∙ rw (there, other) refl
    ]

module _ (libraries : Libraries) where
  abbrev pub ids_of : Trace → Bytes → List String
  ids_of t n = lookup (to_hex n) [] t.descendants

  abbrev pub proof_of : Trace → String → List Bytes
  proof_of t id = lookup id [] t.proofs

  module _ (left right : Bytes) (t : Trace) where
    pub ids_of-join :
        (n : Bytes)
        → ids_of (join libraries left right t) n ≡ (
            if str_eq (to_hex (hash_pair libraries left right)) (to_hex n)
            then ids_of t left ++ ids_of t right
            else ids_of t n)
    unfolding join
    ids_of-join n = lookup-set _ (to_hex n) _ [] t.descendants

    pub proof_of-join :
        (id : String)
        → Once (ids_of t left)
        → Once (ids_of t right)
        → (includes (ids_of t left) id ≡ true → includes (ids_of t right) id ≡ false)
        → proof_of (join libraries left right t) id ≡ (
            if includes (ids_of t left) id
            then proof_of t id ++ right ∷ []
            else if includes (ids_of t right) id
            then proof_of t id ++ left ∷ []
            else proof_of t id)
    unfolding join
    proof_of-join id once_left once_right apart =
        let pushed = lookup-push_sibling (ids_of t left) right t.proofs id once_left in
        lookup-push_sibling (ids_of t right) left _ id once_right
        ∙ elim (Bool-cases (includes (ids_of t left) id)) [
          | inl in_left ↦ rw (apart in_left, pushed, in_left) refl
          | inr elsewhere ↦ rw (pushed, elsewhere) refl
        ]

-- The maps before the first round.
pub start-lookup :
    (leaves : List Bytes) (t : Trace) (k : String)
    → lookup k [] (start leaves t).descendants
      ≡ (if includes (map to_hex leaves) k then k ∷ [] else lookup k [] t.descendants)
unfolding start
start-lookup [] t k = refl
start-lookup (leaf ∷ leaves) t k =
    start-lookup leaves _ k
    ∙ (let here = lookup-set (to_hex leaf) k (to_hex leaf ∷ []) [] t.descendants in
        elim (Bool-cases (includes (map to_hex leaves) k)) [
          | inl later ↦ rw later (elim (Bool-cases (str_eq (to_hex leaf) k)) [
            | inl first ↦ rw first refl
            | inr other ↦ rw other refl
          ])
          | inr absent ↦
              rw (absent, here)
                (elim (Bool-cases (str_eq (to_hex leaf) k)) [
                  | inl first ↦ rw (first, (eq_iff (to_hex leaf) k).0 first) refl
                  | inr other ↦ rw other refl
                ])
        ])

pub start-no_proofs :
    (leaves : List Bytes) (t : Trace)
    → ((k : String) → lookup k [] t.proofs ≡ [])
    → (k : String) → lookup k [] (start leaves t).proofs ≡ []
unfolding start
start-no_proofs [] t h k = h k
start-no_proofs (leaf ∷ leaves) t h k =
    start-no_proofs leaves _
      (λ j. lookup-set (to_hex leaf) j [] [] t.proofs ∙ elim (Bool-cases (str_eq (to_hex leaf) j)) [
        | inl first ↦ rw first refl
        | inr other ↦ rw other (h j)
      ])
      k
