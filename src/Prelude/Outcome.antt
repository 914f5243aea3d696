-- ===== src/Prelude/Outcome.antt =====
-- Outcomes of code that can go wrong: a `usize` subtraction below zero, a raw bucket that holds no
-- element, a loop whose fuel ran out, or a panic.
use mathlib.Core.Path.{◌≡◌, refl}
use native.Mathlib.Omega.{arith}
use Prim.Native.Nat.{ℕ, zero, suc}

pub data Fault : Type 0 where
  underflow : Fault
  dangling : Fault
  no_fuel : Fault
  panic : Fault

-- What a piece of code ends in: a fault, or its result.
pub data Run {ℓ} (R : Type ℓ) : Type ℓ where
  fault : Fault → Run R
  ok : R → Run R

module _ {ℓ κ} {R : Type ℓ} where
  infixl 5 ◌>>=◌
  abbrev pub ◌>>=◌ : {Q : Type κ} → Run R → (R → Run Q) → Run Q
  fault why >>= next = fault why
  ok x >>= next = next x

  -- The code ends without a fault, in a result that has the property.
  abbrev pub Returns : Run R → (R → Type κ) → Type (ℓ ⊔ κ)
  Returns code Post = (x : R) × (code ≡ ok x) × Post x

-- `n -= 1` on `usize`.
abbrev pub decrement : ℕ → Run ℕ
decrement zero = fault underflow
decrement (suc n) = ok n

-- The parts of a sequence of codes that returns.
pub bind-ok :
    {A B : Type 0} (r : Run A) (f : A → Run B) (y : B)
    → (r >>= f) ≡ ok y
    → (x : A) × (r ≡ ok x) × (f x ≡ ok y)
bind-ok (fault why) f y h = absurd (ground (arith, h))
bind-ok (ok x) f y h = (x, refl, h)
