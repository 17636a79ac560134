-- ===== src/Prelude/Lists.antt =====
-- Lists measured by native numbers, Boolean searches and filters, and predicates by recursion.
use Prim.Native.Nat.{ℕ, zero, suc, ◌+◌, ◌-◌, ◌≤◌}
use Prim.Native.String.{String}
use mathlib.Core.Path.{◌≡◌, refl, sym, ap, subst}
use mathlib.Core.Logic.{◌↔◌, ◌⊎◌, inl, inr}
use mathlib.Core.Bool.{Bool, true, false, ◌&&◌, ◌||◌}
use mathlib.Core.Option.{Option, none, some}
use mathlib.Core.List.{List, [], ◌∷◌, ◌++◌, map}
use native.Mathlib.Omega.{arith}
use text.Mathlib.Text.{◌==◌ as str_eq}
use text.Mathlib.TextEquality.{eq_iff}
use compute_markets.Prelude.Tests.{if◌then◌else◌, Bool-cases}

module _ {ℓ} {A : Type ℓ} where
  abbrev pub length : List A → ℕ
  length [] = 0
  length (x ∷ xs) = suc (length xs)

  abbrev pub head? : List A → Option A
  head? [] = none
  head? (x ∷ xs) = some x

  abbrev pub get_elem? : List A → ℕ → Option A
  get_elem? [] i = none
  get_elem? (x ∷ xs) zero = some x
  get_elem? (x ∷ xs) (suc i) = get_elem? xs i

  abbrev pub take : ℕ → List A → List A
  take zero xs = []
  take (suc n) [] = []
  take (suc n) (x ∷ xs) = x ∷ take n xs

  abbrev pub drop : ℕ → List A → List A
  drop zero xs = xs
  drop (suc n) [] = []
  drop (suc n) (x ∷ xs) = drop n xs

  abbrev pub is_empty : List A → Bool
  is_empty [] = true
  is_empty (x ∷ xs) = false

  abbrev pub any : (A → Bool) → List A → Bool
  any p [] = false
  any p (x ∷ xs) = p x || any p xs

  abbrev pub all : (A → Bool) → List A → Bool
  all p [] = true
  all p (x ∷ xs) = p x && all p xs

  -- `Array.prototype.filter`.
  abbrev pub filter : (A → Bool) → List A → List A
  filter p [] = []
  filter p (x ∷ xs) = let rest = filter p xs in if p x then x ∷ rest else rest

  -- `Array.prototype.find`.
  abbrev pub find : (A → Bool) → List A → Option A
  find p [] = none
  find p (x ∷ xs) = let rest = find p xs in if p x then some x else rest

  pub length-append : (xs ys : List A) → length (xs ++ ys) ≡ length xs + length ys
  length-append [] ys = omega arith
  length-append (x ∷ xs) ys = omega (arith, length-append xs ys)

  pub length-drop : (n : ℕ) (xs : List A) → length (drop n xs) ≡ length xs - n
  length-drop zero xs = omega arith
  length-drop (suc n) [] = omega arith
  length-drop (suc n) (x ∷ xs) = omega (arith, length-drop n xs)

  pub length-filter-le : (p : A → Bool) (xs : List A) → length (filter p xs) ≤ length xs
  length-filter-le p [] = omega arith
  length-filter-le p (x ∷ xs) = ground (arith, length-filter-le p xs)

-- `values.includes(value)` on an array of strings.
abbrev pub includes : List String → String → Bool
includes xs s = any (λ x. str_eq x s) xs

pub length-map {ℓ κ} :
    {A : Type ℓ} {B : Type κ} (f : A → B) (xs : List A) → length (map f xs) ≡ length xs
length-map f [] = refl
length-map f (x ∷ xs) = ap suc (length-map f xs)

module _ {A : Type 0} where
  -- The value stands in the list, with its place as the witness.
  abbrev pub Occurs : A → List A → Type 0
  Occurs a [] = ⊥
  Occurs a (x ∷ xs) = (a ≡ x) ⊎ Occurs a xs

module _ {ℓ κ} {A : Type ℓ} (P : A → Type κ) where
  abbrev pub All : List A → Type κ
  All [] = Unit
  All (x ∷ xs) = P x × All xs

pub includes_iff : (xs : List String) (s : String) → (includes xs s ≡ true) ↔ Occurs s xs
includes_iff [] s = ((λ h. cc), λ h. elim h [ ])
includes_iff (x ∷ xs) s = (
  (λ h. ground (arith, eq_iff x s, (includes_iff xs s).0)),
  λ h. ground (arith, eq_iff x s, (includes_iff xs s).1),
)

-- What `filter` keeps passes its test, and keeps what held before.
pub filter-All {ℓ κ} :
    {A : Type ℓ} (P : A → Type κ) (p : A → Bool) (xs : List A)
    → All P xs
    → All (λ x. P x × (p x ≡ true)) (filter p xs)
filter-All P p [] h = tt
filter-All P p (x ∷ xs) (here, later) = ground (arith, filter-All P p xs later)

pub All-trivial {ℓ} : {A : Type ℓ} (xs : List A) → All (λ _. Unit {0}) xs
All-trivial [] = tt
All-trivial (x ∷ xs) = (tt, All-trivial xs)

pub All-map {ℓ κ μ} :
    {A : Type ℓ} {B : Type κ} (P : B → Type μ) (f : A → B) (xs : List A)
    → All (λ x. P (f x)) xs
    → All P (map f xs)
All-map P f [] h = tt
All-map P f (x ∷ xs) (here, later) = (here, All-map P f xs later)

pub All-weaken {ℓ κ μ} :
    {A : Type ℓ} (P : A → Type κ) (Q : A → Type μ)
    → ((x : A) → P x → Q x)
    → (xs : List A) → All P xs
    → All Q xs
All-weaken P Q f [] h = tt
All-weaken P Q f (x ∷ xs) (here, later) = (f x here, All-weaken P Q f xs later)

pub All-append {ℓ κ} :
    {A : Type ℓ} (P : A → Type κ) (xs ys : List A) → All P xs → All P ys → All P (xs ++ ys)
All-append P [] ys h k = k
All-append P (x ∷ xs) ys (here, later) k = (here, All-append P xs ys later k)

pub All-append_iff {ℓ κ} :
    {A : Type ℓ} (P : A → Type κ) (xs ys : List A) → All P (xs ++ ys) ↔ (All P xs × All P ys)
All-append_iff P [] ys = ((λ h. (tt, h)), λ h. h.1)
All-append_iff P (x ∷ xs) ys =
    let (split, join) = All-append_iff P xs ys in
    ((λ h. let (h1, h2) = split h.1 in ((h.0, h1), h2)), λ h. (h.0.0, join (h.0.1, h.1)))

pub Occurs-filter :
    {A : Type 0} (p : A → Bool) (a : A) (xs : List A)
    → p a ≡ true
    → Occurs a xs
    → Occurs a (filter p xs)
Occurs-filter p a [] h o = elim o [ ]
Occurs-filter p a (x ∷ xs) h o = ground (arith, Occurs-filter p a xs h)

pub Occurs-map :
    {A B : Type 0} (f : A → B) (a : A) (xs : List A) → Occurs a xs → Occurs (f a) (map f xs)
Occurs-map f a [] o = elim o [ ]
Occurs-map f a (x ∷ xs) (inl e) = inl (ap f e)
Occurs-map f a (x ∷ xs) (inr o) = inr (Occurs-map f a xs o)

pub All-Occurs : {A : Type 0} (P : A → Type 0) (a : A) (xs : List A) → All P xs → Occurs a xs → P a
All-Occurs P a [] h o = elim o [ ]
All-Occurs P a (x ∷ xs) (here, later) (inl e) = subst P (sym e) here
All-Occurs P a (x ∷ xs) (here, later) (inr o) = All-Occurs P a xs later o

pub Occurs-middle : {A : Type 0} (a : A) (before after : List A) → Occurs a (before ++ a ∷ after)
Occurs-middle a [] after = inl refl
Occurs-middle a (b ∷ before) after = inr (Occurs-middle a before after)

-- Each element is related to all that come behind it.
module _ {A : Type 0} (R : A → A → Type 0) where
  abbrev pub Ordered : List A → Type 0
  Ordered [] = Unit
  Ordered (x ∷ xs) = All (R x) xs × Ordered xs

pub Ordered-weaken :
    {A : Type 0} (R S : A → A → Type 0)
    → ((x y : A) → R x y → S x y)
    → (xs : List A) → Ordered R xs
    → Ordered S xs
Ordered-weaken R S f [] h = tt
Ordered-weaken R S f (x ∷ xs) (here, later) =
    (All-weaken (R x) (S x) (f x) xs here, Ordered-weaken R S f xs later)

-- Where an element of a filtered list stands in the whole list.
pub record Unfiltered {A : Type 0} (p : A → Bool) (xs before after : List A) (a : A) : Type 0 where
  pub pre : List A
  pub post : List A
  pub split : xs ≡ pre ++ a ∷ post
  pub kept_pre : filter p pre ≡ before
  pub kept_post : filter p post ≡ after
  pub kept : p a ≡ true

module _ {A : Type 0} (p : A → Bool) where
  pub unfilter :
      (xs before after : List A) (a : A)
      → filter p xs ≡ before ++ a ∷ after
      → Unfiltered p xs before after a
  unfilter [] [] after a e = absurd (cc)
  unfilter [] (b ∷ before) after a e = absurd (cc)
  unfilter (x ∷ xs) before after a e = elim (Bool-cases (p x)) [
    | inl kept ↦ keep (λ bs. unfilter xs bs after a) before (rw kept at e) kept
    | inr dropped ↦
        let rest = unfilter xs before after a (rw dropped at e) in
        record {
          pre = x ∷ rest.pre;
          post = rest.post;
          split = ap (◌∷◌ x) rest.split;
          kept_pre = rw dropped rest.kept_pre;
          kept_post = rest.kept_post;
          kept = rest.kept;
        }
  ]
    where
      keep :
          ((bs : List A) → filter p xs ≡ bs ++ a ∷ after → Unfiltered p xs bs after a)
          → (bs : List A) → x ∷ filter p xs ≡ bs ++ a ∷ after
          → p x ≡ true
          → Unfiltered p (x ∷ xs) bs after a
      keep ih [] same k = record {
        pre = [];
        post = xs;
        split = ap (λ y. y ∷ xs) (cc);
        kept_pre = refl;
        kept_post = cc;
        kept = ground arith;
      }
      keep ih (b ∷ bs) same k =
          let rest = ih bs (cc) in
          record {
            pre = x ∷ rest.pre;
            post = rest.post;
            split = ap (◌∷◌ x) rest.split;
            kept_pre = rw (k, rest.kept_pre) (cc);
            kept_post = rest.kept_post;
            kept = rest.kept;
          }

  pub All-unfilter :
      (Q : A → Type 0) (xs : List A) → All Q (filter p xs) → All (λ x. (p x ≡ false) ⊎ Q x) xs
  All-unfilter Q [] h = tt
  All-unfilter Q (x ∷ xs) h = ground (arith, All-unfilter Q xs)

pub head_of_Occurs :
    {A : Type 0} (a : A) (xs : List A) → Occurs a xs → (b : A) × (head? xs ≡ some b)
head_of_Occurs a [] o = elim o [ ]
head_of_Occurs a (x ∷ xs) o = (x, refl)
