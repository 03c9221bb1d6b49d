-- ===== src/Prelude/Actions.antt =====
-- What a Go call comes to: a value, an error value, or a panic. Errors are their messages.
use mathlib.Core.Path.{◌≡◌, refl}
use mathlib.Core.Logic.{◌⊎◌, inl, inr}
use mathlib.Core.Bool.{Bool, true, false}
use pipie.Prelude.Tests.{if◌then◌else◌}
use pipie.Prelude.Slices.{Bytes}

pub data Outcome {ℓ} (A : Type ℓ) : Type ℓ where
  ok : A → Outcome A
  err : Bytes → Outcome A
  panic : Bytes → Outcome A

-- A failure is an error or a panic.
abbrev pub IsFailure {ℓ} : {A : Type ℓ} → Outcome A → Type 0
IsFailure (ok a) = ⊥
IsFailure (err e) = Unit
IsFailure (panic e) = Unit

pub Outcome-cases {ℓ} : {A : Type ℓ} (r : Outcome A) → ((a : A) × (r ≡ ok a)) ⊎ IsFailure r
Outcome-cases (ok a) = inl (a, refl)
Outcome-cases (err e) = inr tt
Outcome-cases (panic e) = inr tt

-- An action over a state. What was done before an error or a panic stays done.
abbrev pub Action : Type 0 → Type 0 → Type 0
Action S A = S → Outcome A × S

module _ {S A : Type 0} where
  abbrev pub pure : A → Action S A
  pure a s = (ok a, s)

  abbrev pub fail : Bytes → Action S A
  fail message s = (err message, s)

  abbrev pub lift : Outcome A → Action S A
  lift r s = (r, s)

module _ {S A B : Type 0} where
  abbrev pub continue : Outcome A → (A → Action S B) → Action S B
  continue (ok a) f s = f a s
  continue (err e) f s = (err e, s)
  continue (panic e) f s = (panic e, s)

  infixl 10 ◌>>=◌ ◌>>◌
  abbrev pub ◌>>=◌ : Action S A → (A → Action S B) → Action S B
  ◌>>=◌ m f s = let (r, s') = m s in continue r f s'

  abbrev pub ◌>>◌ : Action S A → Action S B → Action S B
  m >> k = m >>= λ _. k

-- `m` keeps `P`, whether it returns, fails or panics.
abbrev pub Keeps : {S A : Type 0} → (S → Type 0) → Action S A → Type 0
Keeps {S} P m = (s : S) → P s → P (m s).1

module _ {S A : Type 0} (P : S → Type 0) where
  pub Keeps-if :
      (b : Bool) (m n : Action S A) → Keeps P m → Keeps P n → Keeps P (if b then m else n)
  Keeps-if true m n km kn = km
  Keeps-if false m n km kn = kn

module _ {S A B : Type 0} (P : S → Type 0) where
  pub Keeps-lift_bind :
      (r : Outcome A) (f : A → Action S B)
      → ((a : A) → Keeps P (f a))
      → Keeps P (lift {S = S} r >>= f)
  Keeps-lift_bind (ok a) f k s h = k a s h
  Keeps-lift_bind (err e) f k s h = h
  Keeps-lift_bind (panic e) f k s h = h
