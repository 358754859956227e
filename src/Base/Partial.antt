-- ===== src/Base/Partial.antt =====
-- Computations that may fault: `none` is undefined behaviour (a read through a bad pointer, a
-- division by zero) or, for a loop on fuel, that the fuel ran out.
use mathlib.Core.Path.{◌≡◌, refl}
use mathlib.Core.Option.{Option, none, some}

infixl 5 ◌>>=◌
abbrev pub ◌>>=◌ {ℓ κ} : {A : Type ℓ} {B : Type κ} → Option A → (A → Option B) → Option B
none >>= f = none
some a >>= f = f a

-- Total correctness: the computation yields a result, and the result satisfies `P`.
pub data Returns {A : Type 0} (P : A → Type 0) : Option A → Type 0 where
  returns : {a : A} → P a → Returns P (some a)

module _ {A : Type 0} {P : A → Type 0} where
  pub bind :
      {B : Type 0} {Q : B → Type 0} {m : Option A} {f : A → Option B}
      → Returns P m
      → ((a : A) → P a → Returns Q (f a))
      → Returns Q (m >>= f)
  bind (returns p) next = next _ p

  pub mono : {Q : A → Type 0} {m : Option A} → Returns P m → ((a : A) → P a → Q a) → Returns Q m
  mono (returns p) weaken = returns (weaken _ p)

  -- The result of a computation that returns.
  pub returned : {m : Option A} → Returns P m → (a : A) × (m ≡ some a) × P a
  returned (returns {a} p) = (a, refl, p)

-- Partial correctness: the result, if there is one, satisfies `P`.
abbrev pub IfAny : {A : Type 0} → (A → Type 0) → Option A → Type 0
IfAny P none = Unit
IfAny P (some a) = P a

pub IfAny-bind :
    {A B : Type 0} (P : B → Type 0) (m : Option A) (f : A → Option B)
    → ((a : A) → IfAny P (f a))
    → IfAny P (m >>= f)
IfAny-bind P none f h = tt
IfAny-bind P (some a) f h = h a
