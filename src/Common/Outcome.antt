-- ===== src/Common/Outcome.antt =====
-- How a call of a C function ends: with a value, with an error code (`err n` is the return value
-- -n), or outside of what C defines (an access out of a buffer's bounds, a NULL dereference).
use jklibs.Common.{ℕ}

pub data Outcome {ℓ} (A : Type ℓ) : Type ℓ where
  done : A → Outcome A
  err : ℕ → Outcome A
  fault : Outcome A

infixl 5 ◌>>=◌
abbrev pub ◌>>=◌ {ℓ κ} : {A : Type ℓ} {B : Type κ} → Outcome A → (A → Outcome B) → Outcome B
done a >>= f = f a
err n >>= f = err n
fault >>= f = fault
