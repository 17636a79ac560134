-- ===== src/Indexer/History/Pages.antt =====
-- The pages of a history, and what stands in front of the cursor in it.
use mathlib.Core.Option
use compute_markets.Prelude.{
  ℕ, zero, suc, ◌+◌, ◌≤◌, ◌<◌, ◌≡◌, refl, ap, sym, ◌∙◌, String, true, false, ◌||◌, List, [], ◌∷◌,
  ◌++◌, length, take, drop, get_elem?, any, Option, none, some, ok, arith, Bool-cases, inl, inr,
}
use compute_markets.Indexer.{Transaction}
use compute_markets.Indexer.Reconcile.{Services}
use compute_markets.Indexer.History.{in_front, reaches, is_cursor, last_signature, or_first}

-- The signature behind which a page starts that follows the first `n` transactions.
abbrev pub before_at : ℕ → List Transaction → Option String
before_at zero history = none
before_at (suc n) history = Option.map (λ tx. tx.signature) (get_elem? history n)

-- The chain lists this history, the newest transaction first: before the n-th transaction's
-- signature come those that follow it, at most as many as the page holds.
pub record Lists (services : Services) (limit : ℕ) (history : List Transaction) : Type 0 where
  pub page :
      (n : ℕ)
      → n ≤ length history
      → services.signatures (before_at n history) ≡ ok (take limit (drop n history))

abbrev pub or_head : Option String → List Transaction → Option String
or_head newest [] = newest
or_head newest (tx ∷ txs) = or_first newest tx

module _ {A : Type 0} where
  pub get_elem?-drop : (n k : ℕ) (xs : List A) → get_elem? (drop n xs) k ≡ get_elem? xs (n + k)
  get_elem?-drop zero k xs = let e : k ≡ 0 + k = omega arith in ap (get_elem? xs) e
  get_elem?-drop (suc n) k [] = refl
  get_elem?-drop (suc n) k (x ∷ xs) =
      let e : suc (n + k) ≡ suc n + k = omega arith in
      get_elem?-drop n k xs ∙ ap (get_elem? (x ∷ xs)) e

  drop-nil : (n : ℕ) → drop {A = A} n [] ≡ []
  drop-nil zero = refl
  drop-nil (suc n) = refl

  pub drop-drop : (n k : ℕ) (xs : List A) → drop k (drop n xs) ≡ drop (n + k) xs
  drop-drop zero k xs = let e : k ≡ 0 + k = omega arith in ap (λ m. drop m xs) e
  drop-drop (suc n) k [] = drop-nil k ∙ sym (drop-nil (suc n + k))
  drop-drop (suc n) k (x ∷ xs) =
      let e : suc (n + k) ≡ suc n + k = omega arith in
      drop-drop n k xs ∙ ap (λ m. drop m (x ∷ xs)) e

  pub take-append-drop : (k : ℕ) (xs : List A) → take k xs ++ drop k xs ≡ xs
  take-append-drop zero xs = refl
  take-append-drop (suc k) [] = refl
  take-append-drop (suc k) (x ∷ xs) = ap (◌∷◌ x) (take-append-drop k xs)

  pub take_all : (k : ℕ) (xs : List A) → length (take k xs) < k → take k xs ≡ xs
  take_all zero xs h = absurd (omega arith)
  take_all (suc k) [] h = refl
  take_all (suc k) (x ∷ xs) h = ap (◌∷◌ x) (take_all k xs (omega arith))

  pub take_nil : (k : ℕ) (xs : List A) → take (suc k) xs ≡ [] → xs ≡ []
  take_nil k [] h = refl
  take_nil k (x ∷ xs) h = absurd (cc)

  pub length-take-le : (k : ℕ) (xs : List A) → length (take k xs) ≤ length xs
  length-take-le zero xs = omega arith
  length-take-le (suc k) [] = omega arith
  length-take-le (suc k) (x ∷ xs) = omega (arith, length-take-le k xs)

abbrev pub last_of : List Transaction → Option String
last_of [] = none
last_of (tx ∷ txs) = some (last_signature tx txs)

-- The last transaction of a full page is the one behind which the next page starts.
pub last_of-take :
    (k : ℕ) (xs : List Transaction)
    → suc k ≤ length xs
    → last_of (take (suc k) xs) ≡ Option.map (λ tx. tx.signature) (get_elem? xs k)
last_of-take k [] h = absurd (omega arith)
last_of-take zero (x ∷ xs) h = refl
last_of-take (suc k) (x ∷ []) h = absurd (omega arith)
last_of-take (suc k) (x ∷ y ∷ xs) h = last_of-take k (y ∷ xs) (omega arith)

module _ (cursor : Option String) where
  -- A page that reaches the cursor holds all that is in front of it.
  pub in_front-reached :
      (xs ys : List Transaction)
      → reaches cursor xs ≡ true
      → in_front cursor (xs ++ ys) ≡ in_front cursor xs
  unfolding in_front reaches
  in_front-reached [] ys h = absurd (cc)
  in_front-reached (x ∷ xs) ys h = elim (Bool-cases (is_cursor cursor x)) [
    | inl here ↦ rw here refl
    | inr past ↦ rw past (ap (◌∷◌ x) (in_front-reached xs ys (rw past at h)))
  ]

  pub in_front-append :
      (xs ys : List Transaction)
      → reaches cursor xs ≡ false
      → in_front cursor (xs ++ ys) ≡ in_front cursor xs ++ in_front cursor ys
  unfolding in_front reaches
  in_front-append [] ys h = refl
  in_front-append (x ∷ xs) ys h = elim (Bool-cases (is_cursor cursor x)) [
    | inl here ↦ absurd (cc (ap (λ b. b || any (is_cursor cursor) xs) (sym here) ∙ h))
    | inr past ↦ rw past (ap (◌∷◌ x) (in_front-append xs ys (rw past at h)))
  ]
