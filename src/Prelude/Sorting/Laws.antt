-- ===== src/Prelude/Sorting/Laws.antt =====
-- The sorted list has the same elements, is in order, and starts with the first of the best.
use compute_markets.Prelude.Tests.{Bool-cases, if◌then◌else◌}
use compute_markets.Prelude.Lists.{Ordered, All, All-append, All-weaken, Occurs, head?, length}
use compute_markets.Prelude.Int.{ℤ, pos, ◌≤ℤ◌, leb_ℤ, ltb_ℤ}
use compute_markets.Prelude.Sorting.{insert, sort}
use Prim.Native.Nat.{suc}
use mathlib.Core.Path.{◌≡◌, refl, sym, ap, subst, ◌∙◌}
use mathlib.Core.Logic.{◌⊎◌, inl, inr}
use mathlib.Core.Bool.{true, not}
use mathlib.Core.Option.{some}
use mathlib.Core.List.{List, [], ◌∷◌, ◌++◌, Perm}
use mathlib.Core.List.Perm
use native.Mathlib.Omega.{arith}

module _ {A : Type 0} (compare : A → A → ℤ) where
  abbrev pub Leads : A → A → Type 0
  Leads a b = compare a b ≤ℤ pos 0

  abbrev pub IsSorted : List A → Type 0
  IsSorted = Ordered Leads

  insert-perm : (x : A) (xs : List A) → Perm (insert compare x xs) (x ∷ xs)
  unfolding insert
  insert-perm x [] = Perm.refl _
  insert-perm x (y ∷ ys) = elim (Bool-cases (leb_ℤ (compare x y) (pos 0))) [
    | inl e ↦ rw e (Perm.refl _)
    | inr e ↦ rw e (Perm.trans (Perm.cons y (insert-perm x ys)) (Perm.swap x y ys))
  ]

  pub sort-perm : (xs : List A) → Perm (sort compare xs) xs
  unfolding sort
  sort-perm [] = Perm.refl _
  sort-perm (x ∷ xs) = Perm.trans (insert-perm x (sort compare xs)) (Perm.cons x (sort-perm xs))

  module _ (P : A → Type 0) where
    insert-All : (x : A) (xs : List A) → P x → All P xs → All P (insert compare x xs)
    unfolding insert
    insert-All x [] p h = (p, tt)
    insert-All x (y ∷ ys) p h = ground (arith, insert-All x ys p h.1)

    -- What holds of all elements holds of all of them after sorting.
    pub sort-All : (xs : List A) → All P xs → All P (sort compare xs)
    unfolding sort
    sort-All [] h = tt
    sort-All (x ∷ xs) (p, h) = insert-All x (sort compare xs) p (sort-All xs h)

  insert-Occurs : (a x : A) (xs : List A) → (a ≡ x) ⊎ Occurs a xs → Occurs a (insert compare x xs)
  unfolding insert
  insert-Occurs a x [] h = h
  insert-Occurs a x (y ∷ ys) h = ground (arith, insert-Occurs a x ys)

  -- No element is lost.
  pub sort-Occurs : (a : A) (xs : List A) → Occurs a xs → Occurs a (sort compare xs)
  unfolding sort
  sort-Occurs a [] h = elim h [ ]
  sort-Occurs a (x ∷ xs) (inl e) = insert-Occurs a x (sort compare xs) (inl e)
  sort-Occurs a (x ∷ xs) (inr h) = insert-Occurs a x (sort compare xs) (inr (sort-Occurs a xs h))

module _ {ℓ} {A : Type ℓ} (compare : A → A → ℤ) where
  length-insert : (x : A) (xs : List A) → length (insert compare x xs) ≡ suc (length xs)
  unfolding insert
  length-insert x [] = refl
  length-insert x (y ∷ ys) = ground (arith, length-insert x ys)

  pub length-sort : (xs : List A) → length (sort compare xs) ≡ length xs
  unfolding sort
  length-sort [] = refl
  length-sort (x ∷ xs) = length-insert x (sort compare xs) ∙ ap suc (length-sort xs)

-- The first element that leads all others: those before it come strictly behind it.
pub record IsFirstBest {A : Type 0} (compare : A → A → ℤ) (xs : List A) (a : A) : Type 0 where
  pub before : List A
  pub after : List A
  pub split : xs ≡ before ++ a ∷ after
  pub beats : All (λ x. ltb_ℤ (compare a x) (pos 0) ≡ true) before
  pub leads : All (λ x. compare a x ≤ℤ pos 0) after

-- A comparator that orders its arguments totally, as `sort` expects of it: swapping the arguments
-- swaps the sign.
module _ {A : Type 0} (compare : A → A → ℤ)
    (total : (a b : A) → ltb_ℤ (compare a b) (pos 0) ≡ not (leb_ℤ (compare b a) (pos 0)))
    (trans : (a b c : A) → compare a b ≤ℤ pos 0 → compare b c ≤ℤ pos 0 → compare a c ≤ℤ pos 0) where
  Leads-All :
      (x y : A) (ys : List A)
      → Leads compare x y
      → All (Leads compare y) ys
      → All (Leads compare x) ys
  Leads-All x y [] h k = tt
  Leads-All x y (z ∷ zs) h (p, k) = (trans x y z h p, Leads-All x y zs h k)

  insert-IsSorted :
      (x : A) (xs : List A) → IsSorted compare xs → IsSorted compare (insert compare x xs)
  unfolding insert
  insert-IsSorted x [] s = (tt, tt)
  insert-IsSorted x (y ∷ ys) (h, s) = elim (Bool-cases (leb_ℤ (compare x y) (pos 0))) [
    | inl e ↦ rw e ((ground arith, Leads-All x y ys (ground arith) h), (h, s))
    | inr e ↦ rw e (
      insert-All compare (Leads compare y) x ys (ground (arith, total y x)) h,
      insert-IsSorted x ys s,
    )
  ]

  pub sort-IsSorted : (xs : List A) → IsSorted compare (sort compare xs)
  unfolding sort
  sort-IsSorted [] = tt
  sort-IsSorted (x ∷ xs) = insert-IsSorted x (sort compare xs) (sort-IsSorted xs)

  pub best-Leads : (xs : List A) (b : A) → IsFirstBest compare xs b → All (Leads compare b) xs
  best-Leads xs b best = rw best.split (
      All-append (Leads compare b) best.before (b ∷ best.after)
        (All-weaken _ _ (λ x h. ground arith) best.before best.beats) (self, best.leads))
    where
      self : Leads compare b b
      self = ground (arith, total b b)

  head-insert :
      (x b : A) (ys : List A)
      → head? ys ≡ some b
      → head? (insert compare x ys) ≡ some (if leb_ℤ (compare x b) (pos 0) then x else b)
  unfolding insert
  head-insert x b [] e = cc
  head-insert x b (y ∷ ys) e = ground arith

  sort_has_head : (x : A) (xs : List A) → (b : A) × (head? (sort compare (x ∷ xs)) ≡ some b)
  unfolding sort insert
  sort_has_head x [] = (x, refl)
  sort_has_head x (y ∷ ys) =
      let (b, e) = sort_has_head y ys in (_, head-insert x b (sort compare (y ∷ ys)) e)

  extend_best :
      (x b : A) (xs : List A)
      → IsFirstBest compare xs b
      → IsFirstBest compare (x ∷ xs) (if leb_ℤ (compare x b) (pos 0) then x else b)
  extend_best x b xs best = elim (Bool-cases (leb_ℤ (compare x b) (pos 0))) [
    | inl e ↦ rw e (record {
      before = [];
      after = xs;
      split = refl;
      beats = tt;
      leads = Leads-All x b xs (ground arith) (best-Leads xs b best);
    })
    | inr e ↦ rw e (record {
      before = x ∷ best.before;
      after = best.after;
      split = ap (◌∷◌ x) best.split;
      beats = (ground (arith, total b x), best.beats);
      leads = best.leads;
    })
  ]

  value_of_some : {a b : A} → some a ≡ some b → a ≡ b
  value_of_some e = cc

  -- The head of the sorted list is the first of the best.
  pub first_best :
      (xs : List A) (a : A) → head? (sort compare xs) ≡ some a → IsFirstBest compare xs a
  unfolding sort insert
  first_best [] a e = absurd (cc)
  first_best (x ∷ []) a e =
      subst (IsFirstBest compare (x ∷ [])) (value_of_some e)
        (record { before = []; after = []; split = refl; beats = tt; leads = tt })
  first_best (x ∷ y ∷ ys) a e =
      let (b, eb) = sort_has_head y ys in
      subst (IsFirstBest compare (x ∷ y ∷ ys))
        (value_of_some (sym (head-insert x b (sort compare (y ∷ ys)) eb) ∙ e))
        (extend_best x b (y ∷ ys) (first_best (y ∷ ys) b eb))
