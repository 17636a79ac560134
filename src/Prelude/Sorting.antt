-- ===== src/Prelude/Sorting.antt =====
-- `Array.prototype.sort` with a comparator: a stable sort, here by insertion.
pub mod Laws
use mathlib.Core.List.{List, [], ◌∷◌}
use compute_markets.Prelude.Tests.{if◌then◌else◌}
use compute_markets.Prelude.Int.{ℤ, pos, leb_ℤ}

module _ {ℓ} {A : Type ℓ} (compare : A → A → ℤ) where
  -- Before the first element that it may stand in front of. `x` comes from further left, so it
  -- goes before its equals.
  pub insert : A → List A → List A
  insert x [] = x ∷ []
  insert x (y ∷ ys) = if leb_ℤ (compare x y) (pos 0) then x ∷ y ∷ ys else y ∷ insert x ys

  unfoldable pub sort : List A → List A
  unfolding insert
  sort [] = []
  sort (x ∷ xs) = insert x (sort xs)
