-- ===== src/Verifier/Bundles/Actions.antt =====
-- Actions step by step, and those that leave the recorded decisions and the sent ones alone.
use compute_markets.Prelude.{
  ◌≡◌, refl, sym, ap, ◌∙◌, Bool, true, false, List, Result, ok, err, err_not_ok, if◌then◌else◌,
}
use compute_markets.Verifier.{VerificationRow, Submission, World, Action, call, continue, ◌>>=◌}

-- An action that returned went through its first step.
pub returned {ℓ} :
    {A B : Type 0} {P : Type ℓ} (m : Action A) (f : A → Action B) (w after : World) {b : B}
    → (m >>= f) w ≡ (ok b, after)
    → ((a : A) (mid : World) → m w ≡ (ok a, mid) → f a mid ≡ (ok b, after) → P)
    → P
unfolding ◌>>=◌
returned {A = A} {P = P} m f w after h k = go (m w) refl
  where
    go : (r : Result A × World) → m w ≡ r → P
    go (ok a, mid) e = k a mid e (ap (λ r. continue r f) (sym e) ∙ h)
    go (err x, mid) e = absurd (err_not_ok (ap (λ r. r.0) (ap (λ r. continue r f) (sym e) ∙ h)))

-- What was sent, and what was recorded.
abbrev pub Books : Type 0
Books = List Submission × List VerificationRow

abbrev pub books : World → Books
books w = (w.submissions, w.verifications)

-- The action leaves both as they are, whether it returns or throws.
pub record Keeps {A : Type 0} (m : Action A) : Type 0 where
  pub keeps : (w : World) → books (m w).1 ≡ books w

module _ {A B : Type 0} (m : Action A) (f : A → Action B) where
  pub bind-Keeps : Keeps m → ((a : A) → Keeps (f a)) → Keeps (m >>= f)
  unfolding ◌>>=◌
  bind-Keeps first then_each = record { keeps = λ w. go w (m w) (first.keeps w) }
    where
      go :
          (w : World) (r : Result A × World)
          → books r.1 ≡ books w
          → books (continue r f).1 ≡ books w
      go w (ok a, mid) e = (then_each a).keeps mid ∙ e
      go w (err x, mid) e = e

pub if-Keeps :
    {A : Type 0} (b : Bool) (m n : Action A) → Keeps m → Keeps n → Keeps (if b then m else n)
if-Keeps true m n h k = h
if-Keeps false m n h k = k

pub books_kept :
    {A : Type 0} (m : Action A) (w mid : World) (r : Result A)
    → Keeps m
    → m w ≡ (r, mid)
    → books mid ≡ books w
books_kept m w mid r k e = sym (ap (λ p. books p.1) e) ∙ k.keeps w

-- A call leaves the state and returns what it was given.
pub call_returned :
    {A : Type 0} (r : Result A) (w mid : World) (a : A)
    → call r w ≡ (ok a, mid)
    → (r ≡ ok a) × (w ≡ mid)
call_returned r w mid a e = (ap (λ p. p.0) e, ap (λ p. p.1) e)
