-- ===== src/Prelude/Actions.antt =====
-- `async` functions as actions on a state: one returns or throws, and what it wrote before it threw
-- stays written.
use Prim.Native.String.{String}
use mathlib.Core.Path.{◌≡◌, refl, sym, ap, subst, ◌∙◌}
use mathlib.Core.List.{List, [], ◌∷◌}
use compute_markets.Prelude.Errors.{Result, ok, err, err_not_ok}

abbrev pub Exec : Type 0 → Type 0 → Type 0
Exec S A = S → Result A × S

module _ {S A : Type 0} where
  abbrev pub return : A → Exec S A
  return a s = (ok a, s)

  abbrev pub throw : String → Exec S A
  throw e s = (err e, s)

  -- A call that does not change the state.
  abbrev pub call : Result A → Exec S A
  call r s = (r, s)

  -- A read of the state.
  abbrev pub gets : (S → A) → Exec S A
  gets f s = (ok (f s), s)

-- A write.
abbrev pub update : {S : Type 0} → (S → S) → Exec S (Unit {0})
update f s = (ok tt, f s)

-- `try { … } finally { … }`.
abbrev pub finally : {S A : Type 0} → Exec S A → (S → S) → Exec S A
finally m f s = let (r, after) = m s in (r, f after)

module _ {S A B : Type 0} where
  -- What was thrown, or what comes next in the state so far.
  abbrev pub continue : Result A × S → (A → Exec S B) → Result B × S
  continue (ok a, s) f = f a s
  continue (err e, s) f = (err e, s)

  infixl 5 ◌>>=◌
  unfoldable pub ◌>>=◌ : Exec S A → (A → Exec S B) → Exec S B
  (m >>= f) s = continue (m s) f

  -- An action that returned went through its first step.
  pub returned :
      {P : Type 0} (m : Exec S A) (f : A → Exec S B) (s after : S) {b : B}
      → (m >>= f) s ≡ (ok b, after)
      → ((a : A) (mid : S) → m s ≡ (ok a, mid) → f a mid ≡ (ok b, after) → P)
      → P
  unfolding ◌>>=◌
  returned {P = P} m f s after h k = go (m s) refl
    where
      go : (r : Result A × S) → m s ≡ r → P
      go (ok a, mid) e = k a mid e (ap (λ r. continue r f) (sym e) ∙ h)
      go (err x, mid) e = absurd (err_not_ok (ap (λ r. r.0) (ap (λ r. continue r f) (sym e) ∙ h)))

-- `for (const x of xs) await body(x)`.
unfoldable pub for_each : {S A : Type 0} → (A → Exec S (Unit {0})) → List A → Exec S (Unit {0})
for_each body [] = return tt
for_each body (x ∷ xs) = do done ← body x; for_each body xs

-- Whether the action returns or throws, the relation holds between its two states.
pub record Ensures {S A : Type 0} (R : S → S → Type 0) (m : Exec S A) : Type 0 where
  pub relates : (s : S) → R s (m s).1

-- A relation between states that every step may rely on.
pub record IsPreorder {S : Type 0} (R : S → S → Type 0) : Type 0 where
  pub same : (s : S) → R s s
  pub then : (a b c : S) → R a b → R b c → R a c

module _ {S : Type 0} (R : S → S → Type 0) (order : IsPreorder R) where
  pub call-Ensures : {A : Type 0} (r : Result A) → Ensures R (call r)
  call-Ensures r = record { relates = λ s. order.same s }

  pub gets-Ensures : {A : Type 0} (f : S → A) → Ensures R (gets f)
  gets-Ensures f = record { relates = λ s. order.same s }

  pub bind-Ensures :
      {A B : Type 0} (m : Exec S A) (f : A → Exec S B)
      → Ensures R m
      → ((a : A) → Ensures R (f a))
      → Ensures R (m >>= f)
  unfolding ◌>>=◌
  bind-Ensures {A = A} m f first each = record { relates = λ s. go s (m s) (first.relates s) }
    where
      go : (s : S) (r : Result A × S) → R s r.1 → R s (continue r f).1
      go s (ok a, mid) h = order.then s mid _ h ((each a).relates mid)
      go s (err x, mid) h = h

  pub for_each-Ensures :
      {A : Type 0} (body : A → Exec S (Unit {0})) (xs : List A)
      → ((x : A) → Ensures R (body x))
      → Ensures R (for_each body xs)
  unfolding for_each
  for_each-Ensures body [] each = record { relates = λ s. order.same s }
  for_each-Ensures body (x ∷ xs) each =
      bind-Ensures (body x) _ (each x) (λ done. for_each-Ensures body xs each)

-- What a call was given is what it returns, and the state stays.
pub called {ℓ} :
    {S A : Type 0} {P : Type ℓ} (r : Result A) (s mid : S) (a : A)
    → call r s ≡ (ok a, mid)
    → (r ≡ ok a → s ≡ mid → P)
    → P
called r s mid a e k = k (ap (λ p. p.0) e) (ap (λ p. p.1) e)

pub related :
    {S A : Type 0} (R : S → S → Type 0) (m : Exec S A) (s after : S) (r : Result A)
    → Ensures R m
    → m s ≡ (r, after)
    → R s after
related R m s after r h e = subst (λ p. R s p.1) e (h.relates s)

-- What holds when an action has returned or thrown.
abbrev pub After : {S A : Type 0} → (A → S → Type 0) → (S → Type 0) → Result A × S → Type 0
After Q E (ok a, s) = Q a s
After Q E (err e, s) = E s

-- From a state where `P` holds the action returns where `Q` holds, or throws where `E` holds.
pub record Ends {S A : Type 0} (P : S → Type 0) (m : Exec S A) (Q : A → S → Type 0) (E : S → Type 0)
    : Type 0 where
  pub ends : (s : S) → P s → After Q E (m s)

module _ {S : Type 0} (E : S → Type 0) where
  pub bind-Ends :
      {A B : Type 0} (P : S → Type 0) (Q : A → S → Type 0) (T : B → S → Type 0) (m : Exec S A)
      (f : A → Exec S B)
      → Ends P m Q E
      → ((a : A) → Ends (Q a) (f a) T E)
      → Ends P (m >>= f) T E
  unfolding ◌>>=◌
  bind-Ends {A = A} P Q T m f first each = record { ends = λ s p. go (m s) (first.ends s p) }
    where
      go : (r : Result A × S) → After Q E r → After T E (continue r f)
      go (ok a, s) q = (each a).ends s q
      go (err e, s) h = h

  -- A call's value is known where it goes on.
  pub call-Ends :
      {A B : Type 0} (P : S → Type 0) (T : B → S → Type 0) (r : Result A) (f : A → Exec S B)
      → ((s : S) → P s → E s)
      → ((a : A) → r ≡ ok a → Ends P (f a) T E)
      → Ends P (call r >>= f) T E
  unfolding ◌>>=◌
  call-Ends {A = A} P T r f fails each = record { ends = λ s p. go s p r refl }
    where
      go : (s : S) → P s → (r' : Result A) → r ≡ r' → After T E (continue (r', s) f)
      go s p (ok a) e = (each a e).ends s p
      go s p (err x) e = fails s p

  -- What no step changes is left.
  pub stable-Ends :
      {A : Type 0} (R : S → S → Type 0) (P : S → Type 0) (m : Exec S A)
      → Ensures R m
      → ((a b : S) → P a → R a b → P b)
      → ((s : S) → P s → E s)
      → Ends P m (λ _. P) E
  stable-Ends {A = A} R P m kept stays fails = record {
    ends = λ s p. go (m s) (stays s (m s).1 p (kept.relates s));
  }
    where
      go : (r : Result A × S) → P r.1 → After (λ _. P) E r
      go (ok a, s) p = p
      go (err e, s) p = fails s p
