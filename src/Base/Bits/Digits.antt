-- ===== src/Base/Bits/Digits.antt =====
-- The recursion of the native bit operations on the lowest digit, freed of its fuel.
use Prim.Native.Nat.{
  ℕ, zero, suc, ◌+◌, ◌-◌, ◌*◌, ◌/◌, ◌%◌, ◌≤◌, min, max, differ, bit_and, bit_or, bit_xor, digits,
  bitwise, bit_and-bitwise, bit_or-bitwise, bit_xor-bitwise,
}
use mathlib.Core.Path.{◌≡◌, refl, ap, ◌∙◌}
use native.Mathlib.Omega.{arith}

module _ (rest : ℕ → ℕ) (digit : ℕ → ℕ → ℕ) where
  one_more :
      (fuel a b : ℕ) → a ≤ fuel → digits rest digit (suc fuel) a b ≡ digits rest digit fuel a b
  one_more zero zero b h = refl
  one_more zero (suc a) b h = absurd (omega arith)
  one_more (suc fuel) zero b h = refl
  one_more (suc fuel) (suc a) b h =
      ap (λ k. k * 2 + digit (suc a % 2) (b % 2)) (one_more fuel (suc a / 2) (b / 2) (omega arith))

  -- Any fuel that is no less than the first number gives the same digits.
  enough :
      (more a b : ℕ) (fuel : ℕ)
      → fuel ≡ more + a
      → digits rest digit fuel a b ≡ digits rest digit a a b
  enough zero a b fuel e = let e' : fuel ≡ a = omega arith in rw e'
  enough (suc more) a b zero e = absurd (omega arith)
  enough (suc more) a b (suc fuel) e =
      one_more fuel a b (omega arith) ∙ enough more a b fuel (omega arith)

  step :
      (a b : ℕ)
      → bitwise rest digit (suc a) b
        ≡ bitwise rest digit (suc a / 2) (b / 2) * 2 + digit (suc a % 2) (b % 2)
  step a b =
      ap (λ k. k * 2 + digit (suc a % 2) (b % 2))
        (enough (a - suc a / 2) (suc a / 2) (b / 2) a (omega arith))

pub bit_and_step : (a b : ℕ) → bit_and a b ≡ bit_and (a / 2) (b / 2) * 2 + min (a % 2) (b % 2)
bit_and_step zero b = omega (arith, bit_and-bitwise 0 b, bit_and-bitwise 0 (b / 2))
bit_and_step (suc a) b =
    omega
      (arith, bit_and-bitwise (suc a) b, bit_and-bitwise (suc a / 2) (b / 2), step (λ y. 0) min a b)

pub bit_or_step : (a b : ℕ) → bit_or a b ≡ bit_or (a / 2) (b / 2) * 2 + max (a % 2) (b % 2)
bit_or_step zero b = omega (arith, bit_or-bitwise 0 b, bit_or-bitwise 0 (b / 2))
bit_or_step (suc a) b =
    omega
      (arith, bit_or-bitwise (suc a) b, bit_or-bitwise (suc a / 2) (b / 2), step (λ y. y) max a b)

pub bit_xor_step : (a b : ℕ) → bit_xor a b ≡ bit_xor (a / 2) (b / 2) * 2 + differ (a % 2) (b % 2)
bit_xor_step zero b = omega (arith, bit_xor-bitwise 0 b, bit_xor-bitwise 0 (b / 2))
bit_xor_step (suc a) b = omega (
  arith,
  bit_xor-bitwise (suc a) b,
  bit_xor-bitwise (suc a / 2) (b / 2),
  step (λ y. y) differ a b,
)
