-- ===== src/Base/Halting.antt =====
-- What a routine ends in. A failed `ASSERT` of include/common.h goes to `panic_assert` of
-- sys/common.c, which disables interrupts and halts, so nothing after it runs.
use mathlib.Core.Bool.{Bool, true, false}
use mathlib.Core.Option.{Option, none, some}

-- `undefined` is behaviour that C leaves undefined; `out_of_fuel` is the model's own.
pub data Outcome {ℓ} (A : Type ℓ) : Type ℓ where
  ok : A → Outcome A
  halted : Outcome A
  undefined : Outcome A
  out_of_fuel : Outcome A

infixl 5 ◌>>=◌ ◌>>◌
abbrev pub ◌>>=◌ {ℓ κ} : {A : Type ℓ} {B : Type κ} → Outcome A → (A → Outcome B) → Outcome B
ok a >>= f = f a
halted >>= f = halted
undefined >>= f = undefined
out_of_fuel >>= f = out_of_fuel

abbrev pub ◌>>◌ {ℓ} : {B : Type ℓ} → Outcome (Unit {0}) → Outcome B → Outcome B
m >> k = m >>= λ _. k

abbrev pub defined {ℓ} : {A : Type ℓ} → Option A → Outcome A
defined none = undefined
defined (some a) = ok a

-- The macro `ASSERT`.
abbrev pub assert : Bool → Outcome (Unit {0})
assert true = ok tt
assert false = halted
