-- ===== src/Prelude/Distinct.antt =====
-- A `Set` of strings: its `size` is that of the array it was made of exactly when no value repeats.
use compute_markets.Prelude.Tests.{if◌then◌else◌, ◌==◌}
use compute_markets.Prelude.Lists.{All, Ordered, includes, length}
use Prim.Native.Nat.{◌≤◌}
use Prim.Native.String.{String}
use mathlib.Core.Path.{◌≡◌, refl}
use mathlib.Core.Logic.{◌≢◌, ◌↔◌}
use mathlib.Core.Bool.{true, false}
use mathlib.Core.List.{List, [], ◌∷◌}
use native.Mathlib.Omega.{arith}
use text.Mathlib.TextEquality.{eq_iff}

-- `new Set(values)`, in the order of the last occurrences; `size` is its length.
unfoldable pub distinct : List String → List String
distinct [] = []
distinct (s ∷ ss) = let rest = distinct ss in if includes rest s then rest else s ∷ rest

abbrev pub IsDistinct : List String → Type 0
IsDistinct = Ordered (λ a b. a ≢ b)

length-distinct-le : (xs : List String) → length (distinct xs) ≤ length xs
unfolding distinct
length-distinct-le [] = omega arith
length-distinct-le (x ∷ xs) = ground (arith, length-distinct-le xs)

includes-distinct : (s : String) (xs : List String) → includes (distinct xs) s ≡ includes xs s
unfolding distinct
includes-distinct s [] = refl
includes-distinct s (x ∷ xs) =
    ground (arith, includes-distinct s xs, includes-distinct x xs, eq_iff x s)

absent_iff : (x : String) (xs : List String) → (includes xs x ≡ false) ↔ All (λ y. x ≢ y) xs
absent_iff x [] = ((λ h. tt), λ h. refl)
absent_iff x (y ∷ ys) = ground (arith, eq_iff y x, absent_iff x ys)

pub distinct_iff : (xs : List String) → ((length (distinct xs) == length xs) ≡ true) ↔ IsDistinct xs
unfolding distinct
distinct_iff [] = ((λ h. tt), λ h. refl)
distinct_iff (x ∷ xs) =
    ground (arith, absent_iff x xs, distinct_iff xs, includes-distinct x xs, length-distinct-le xs)
