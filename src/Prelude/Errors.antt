-- ===== src/Prelude/Errors.antt =====
-- `throw new Error(message)` as a value, and the list of reasons that a verifier collects.
use Prim.Native.String.{String}
use mathlib.Core.Path.{◌≡◌, refl}
use mathlib.Core.Logic.{◌↔◌}
use mathlib.Core.Bool.{Bool, true, false}
use mathlib.Core.List.{List, [], ◌∷◌, ◌++◌}
use compute_markets.Prelude.Tests.{if◌then◌else◌}
use compute_markets.Prelude.Lists.{All, All-append_iff, is_empty}

-- What a function returns, or the message that it throws.
pub data Result {ℓ} (A : Type ℓ) : Type ℓ where
  err : String → Result A
  ok : A → Result A

-- A thrown message ends the chain.
abbrev pub chain {κ ℓ} : {B : Type κ} {A : Type ℓ} → (A → Result B) → Result A → Result B
chain next (err message) = err message
chain next (ok value) = next value

infixl 5 ◌>>=◌
abbrev pub ◌>>=◌ {ℓ κ} : {A : Type ℓ} {B : Type κ} (_ : Result A) (_ : A → Result B) → Result B
first >>= next = chain next first

infixl 5 ◌>>◌
abbrev pub ◌>>◌ {κ} : {B : Type κ} → Result (Unit {0}) → Result B → Result B
check >> after = chain (λ passed. after) check

-- `if (!holds) throw new Error(message)`.
abbrev pub require : (holds : Bool) (message : String) → Result (Unit {0})
require false message = err message
require true message = ok tt

-- `a && b` where `b` may throw and is evaluated only if `a` holds.
abbrev pub and_then : Bool → Result Bool → Result Bool
and_then true b = b
and_then false b = ok false

-- The verifiers' local `check(ok, reason)`: the reasons of the checks that do not hold, in order.
abbrev pub failures_of : List (Bool × String) → List String
failures_of [] = []
failures_of ((holds, reason) ∷ checks) =
    let rest = failures_of checks in if holds then rest else reason ∷ rest

-- Every check of the list holds.
abbrev pub Holds : List (Bool × String) → Type 0
Holds = All (λ c. c.0 ≡ true)

pub Holds-append_iff : (xs ys : List (Bool × String)) → Holds (xs ++ ys) ↔ (Holds xs × Holds ys)
Holds-append_iff xs ys = All-append_iff (λ c. c.0 ≡ true) xs ys

-- No reason is collected exactly when every check holds.
pub failures_of-empty_iff :
    (checks : List (Bool × String)) → (is_empty (failures_of checks) ≡ true) ↔ Holds checks
failures_of-empty_iff [] = ((λ _. tt), λ _. refl)
failures_of-empty_iff ((true, reason) ∷ checks) =
    ((λ h. (refl, (failures_of-empty_iff checks).0 h)), λ h. (failures_of-empty_iff checks).1 h.1)
failures_of-empty_iff ((false, reason) ∷ checks) = ((λ h. cc), λ h. cc (h.0))

pub ok-injective {ℓ} : {A : Type ℓ} {a b : A} → ok a ≡ ok b → a ≡ b
ok-injective e = cc

-- The same, handed on to a continuation.
pub bind_ok {ℓ κ μ} :
    {A : Type ℓ} {B : Type κ} {P : Type μ} (m : Result A) (f : A → Result B) {b : B}
    → (m >>= f) ≡ ok b
    → ((a : A) → m ≡ ok a → f a ≡ ok b → P)
    → P
bind_ok (ok a) f h k = k a refl h
bind_ok (err e) f h k = absurd (cc)

pub err_not_ok {ℓ} : {A : Type ℓ} {e : String} {a : A} → err e ≡ ok a → ⊥
err_not_ok h = cc

pub require_holds :
    (b : Bool) (message : String) (u : Unit {0}) → require b message ≡ ok u → b ≡ true
require_holds true message u h = refl
require_holds false message u h = absurd (err_not_ok h)
