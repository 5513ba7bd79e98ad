-- ===== src/Base/Bits.antt =====
-- The bits of a number, and the native `bit_and`, `bit_or` and `bit_xor` bit by bit and field by
-- field. The masks and shifts of the program are read through these laws.
mod Digits
use Prim.Native.Nat.{
  ℕ, zero, suc, ◌+◌, ◌-◌, ◌*◌, ◌/◌, ◌%◌, ◌^◌, ◌≤◌, ◌<◌, min, max, differ, bit_and, bit_or, bit_xor,
  bit_or-bitwise, bit_and-bitwise,
}
use mathlib.Core.Path.{◌≡◌, refl, ap, ◌∙◌}
use mathlib.Core.Logic.{◌≢◌}
use mathlib.Core.Bool.{Bool, true, false, ◌&&◌}
use native.Mathlib.Omega.{arith}
use native.Mathlib.Nat.{pow-suc, one-le-pow}
use Digits.{bit_and_step, bit_or_step, bit_xor_step}
use fotix.Base.Checks.{◌==◌, if◌then◌else◌, ==_iff}

-- `(x >> i) & 1`.
unfoldable pub bit : ℕ → ℕ → ℕ
bit zero x = x % 2
bit (suc i) x = bit i (x / 2)

pub bit_bound : (i x : ℕ) → bit i x < 2
unfolding bit
bit_bound zero x = omega arith
bit_bound (suc i) x = bit_bound i (x / 2)

pub bit-bit_and : (i x y : ℕ) → bit i (bit_and x y) ≡ min (bit i x) (bit i y)
unfolding bit
bit-bit_and zero x y = omega (arith, bit_and_step x y)
bit-bit_and (suc i) x y =
    let halves : bit_and x y / 2 ≡ bit_and (x / 2) (y / 2) = omega (arith, bit_and_step x y) in
    rw halves (bit-bit_and i (x / 2) (y / 2))

pub bit-bit_or : (i x y : ℕ) → bit i (bit_or x y) ≡ max (bit i x) (bit i y)
unfolding bit
bit-bit_or zero x y = omega (arith, bit_or_step x y)
bit-bit_or (suc i) x y =
    let halves : bit_or x y / 2 ≡ bit_or (x / 2) (y / 2) = omega (arith, bit_or_step x y) in
    rw halves (bit-bit_or i (x / 2) (y / 2))

differ_digits : (a b : ℕ) → a < 2 → b < 2 → differ a b < 2
differ_digits zero b p q = q
differ_digits (suc zero) zero p q = omega arith
differ_digits (suc zero) (suc b) p q = omega arith
differ_digits (suc (suc a)) b p q = absurd (omega arith)

pub bit-bit_xor : (i x y : ℕ) → bit i (bit_xor x y) ≡ differ (bit i x) (bit i y)
unfolding bit
bit-bit_xor zero x y =
    omega (arith, bit_xor_step x y, differ_digits (x % 2) (y % 2) (omega arith) (omega arith))
bit-bit_xor (suc i) x y =
    let halves : bit_xor x y / 2 ≡ bit_xor (x / 2) (y / 2) =
      omega (arith, bit_xor_step x y, differ_digits (x % 2) (y % 2) (omega arith) (omega arith)) in
    rw halves (bit-bit_xor i (x / 2) (y / 2))

pub bit-zero : (i : ℕ) → bit i 0 ≡ 0
unfolding bit
bit-zero zero = refl
bit-zero (suc i) = bit-zero i

-- `1 << j` has one bit.
pub bit-pow : (i j : ℕ) → bit i (2 ^ j) ≡ (if i == j then 1 else 0)
unfolding bit
bit-pow zero zero = refl
bit-pow zero (suc j) = ground (arith, pow-suc 2 j)
bit-pow (suc i) zero = bit-zero i ∙ ground arith
bit-pow (suc i) (suc j) =
    let half : 2 ^ suc j / 2 ≡ 2 ^ j = omega (arith, pow-suc 2 j) in
    rw half (bit-pow i j ∙ ground arith)

mul-pow-suc : (a k : ℕ) → a * 2 ^ suc k ≡ 2 * (a * 2 ^ k)
mul-pow-suc a k = omega (arith, ap (λ (t : ℕ). a * t) (pow-suc 2 k))

-- Zero on one side.
pub bit_and-zero : (fuel a : ℕ) → a ≤ fuel → bit_and a 0 ≡ 0
bit_and-zero zero a h = let e : a ≡ 0 = omega arith in rw e
bit_and-zero (suc fuel) zero h = refl
bit_and-zero (suc fuel) (suc a) h =
    omega (arith, bit_and_step (suc a) 0, bit_and-zero fuel (suc a / 2) (omega arith))

pub bit_or-zero : (fuel a : ℕ) → a ≤ fuel → bit_or a 0 ≡ a
bit_or-zero zero a h = let e : a ≡ 0 = omega arith in rw e
bit_or-zero (suc fuel) zero h = refl
bit_or-zero (suc fuel) (suc a) h =
    omega (arith, bit_or_step (suc a) 0, bit_or-zero fuel (suc a / 2) (omega arith))

-- `&` of two numbers that are split at bit `k`.
pub bit_and_split :
    (k a b c d : ℕ)
    → b < 2 ^ k
    → d < 2 ^ k
    → bit_and (a * 2 ^ k + b) (c * 2 ^ k + d) ≡ bit_and a c * 2 ^ k + bit_and b d
bit_and_split zero a b c d p q =
    let eb : b ≡ 0 = omega arith in
    let ed : d ≡ 0 = omega arith in
    let ea : a * 1 + 0 ≡ a = omega arith in
    let ec : c * 1 + 0 ≡ c = omega arith in rw (eb, ed, ea, ec) (omega arith)
bit_and_split (suc k) a b c d p q = ground (
  arith,
  bit_and_step (a * 2 ^ suc k + b) (c * 2 ^ suc k + d),
  bit_and_step b d,
  mul-pow-suc a k,
  mul-pow-suc c k,
  mul-pow-suc (bit_and a c) k,
  pow-suc 2 k,
  bit_and_split k a (b / 2) c (d / 2),
)

-- `|` of two numbers that are split at bit `k`.
pub bit_or_split :
    (k a b c d : ℕ)
    → b < 2 ^ k
    → d < 2 ^ k
    → bit_or (a * 2 ^ k + b) (c * 2 ^ k + d) ≡ bit_or a c * 2 ^ k + bit_or b d
bit_or_split zero a b c d p q =
    let eb : b ≡ 0 = omega arith in
    let ed : d ≡ 0 = omega arith in
    let ea : a * 1 + 0 ≡ a = omega arith in
    let ec : c * 1 + 0 ≡ c = omega arith in rw (eb, ed, ea, ec) (omega arith)
bit_or_split (suc k) a b c d p q = ground (
  arith,
  bit_or_step (a * 2 ^ suc k + b) (c * 2 ^ suc k + d),
  bit_or_step b d,
  mul-pow-suc a k,
  mul-pow-suc c k,
  mul-pow-suc (bit_or a c) k,
  pow-suc 2 k,
  bit_or_split k a (b / 2) c (d / 2),
)

-- A number below `2 ^ k` is left alone by the mask of its `k` bits.
pub bit_and_low : (k b : ℕ) → b < 2 ^ k → bit_and b (2 ^ k - 1) ≡ b
bit_and_low zero b h = let e : b ≡ 0 = omega arith in rw e
bit_and_low (suc k) b h =
    ground
      (arith, one-le-pow k 2, pow-suc 2 k, bit_and_step b (2 ^ suc k - 1), bit_and_low k (b / 2))

-- `x & (2^k - 1)` is the remainder.
pub bit_and_mask : (k x : ℕ) → bit_and x (2 ^ k - 1) ≡ x % 2 ^ k
bit_and_mask k x = ground (
  arith,
  one-le-pow k 2,
  bit_and_split k (x / 2 ^ k) (x % 2 ^ k) 0 (2 ^ k - 1),
  bit_and-zero (x / 2 ^ k) (x / 2 ^ k),
  bit_and_low k (x % 2 ^ k),
)

-- `x & ~(2^k - 1)` of a number of `k + w` bits clears the lowest `k`.
pub bit_and_high :
    (k w x : ℕ) → x / 2 ^ k < 2 ^ w → bit_and x ((2 ^ w - 1) * 2 ^ k) ≡ x / 2 ^ k * 2 ^ k
bit_and_high k w x h = ground (
  arith,
  one-le-pow k 2,
  bit_and_split k (x / 2 ^ k) (x % 2 ^ k) (2 ^ w - 1) 0,
  bit_and-zero (x % 2 ^ k) (x % 2 ^ k),
  bit_and_low w (x / 2 ^ k),
)

-- `(q << k) | r` is a sum where `r` fits in `k` bits.
pub bit_or_fields : (k q r : ℕ) → r < 2 ^ k → bit_or (q * 2 ^ k) r ≡ q * 2 ^ k + r
bit_or_fields k q r h =
    ground (arith, one-le-pow k 2, bit_or_split k q 0 0 r, bit_or-zero q q, bit_or-bitwise 0 r)

-- A statement about the numbers below `n`, checked at each.
abbrev pub all_below : ℕ → (ℕ → Bool) → Bool
all_below zero p = true
all_below (suc n) p = p n && all_below n p

pub all_below_sound : (n : ℕ) (p : ℕ → Bool) (x : ℕ) → all_below n p ≡ true → x < n → p x ≡ true
all_below_sound zero p x h lt = absurd (omega arith)
all_below_sound (suc n) p x h lt = ground (arith, all_below_sound n p x)

-- `~x` of a `u32int`.
unfoldable pub not32 : ℕ → ℕ
not32 x = bit_xor x 0xffff_ffff

ones : (i : ℕ) → i < 32 → bit i 0xffff_ffff ≡ 1
unfolding bit
ones i h = (==_iff _ _).0 (all_below_sound 32 (λ i. bit i 0xffff_ffff == 1) i refl h)

differ_one : (b : ℕ) → b < 2 → differ b 1 ≡ 1 - b
differ_one zero h = refl
differ_one (suc zero) h = refl
differ_one (suc (suc b)) h = absurd (omega arith)

pub bit-not32 : (i x : ℕ) → i < 32 → bit i (not32 x) ≡ 1 - bit i x
unfolding not32
bit-not32 i x h = rw (bit-bit_xor i x 0xffff_ffff, ones i h) (differ_one (bit i x) (bit_bound i x))

-- `|` stays within the width of its operands, and `&` below the first.
pub bit_or-lt : (k x y : ℕ) → x < 2 ^ k → y < 2 ^ k → bit_or x y < 2 ^ k
bit_or-lt zero x y p q =
    let ex : x ≡ 0 = omega arith in let ey : y ≡ 0 = omega arith in rw (ex, ey) (omega arith)
bit_or-lt (suc k) x y p q =
    ground (arith, pow-suc 2 k, bit_or_step x y, bit_or-lt k (x / 2) (y / 2))

pub bit_and-le : (fuel x y : ℕ) → x ≤ fuel → bit_and x y ≤ x
bit_and-le zero x y h = ground (arith, bit_and-bitwise 0 y)
bit_and-le (suc fuel) zero y h = ground (arith, bit_and-bitwise 0 y)
bit_and-le (suc fuel) (suc x) y h =
    omega (arith, bit_and_step (suc x) y, bit_and-le fuel (suc x / 2) (y / 2) (omega arith))

-- `1 << off` of a `u32int`.
pub pow-lt : (i k : ℕ) → i < k → 2 ^ i < 2 ^ k
pow-lt i zero h = absurd (omega arith)
pow-lt zero (suc k) h = omega (arith, pow-suc 2 k, one-le-pow k 2 (omega arith))
pow-lt (suc i) (suc k) h = omega (arith, pow-suc 2 k, pow-suc 2 i, pow-lt i k (omega arith))

-- The test `x & (1 << i)`.
pub bit_and-pow : (i x : ℕ) → bit_and x (2 ^ i) ≡ bit i x * 2 ^ i
unfolding bit
bit_and-pow zero x = omega (arith, bit_and_step x 1, bit_and-zero (x / 2) (x / 2) (omega arith))
bit_and-pow (suc i) x = ground (
  arith,
  pow-suc 2 i,
  bit_and_step x (2 ^ suc i),
  bit_and-pow i (x / 2),
  ap (λ (t : ℕ). bit i (x / 2) * t) (pow-suc 2 i),
)

-- The test `(x & (1 << i)) == 0` is that of the bit.
pub bit_and-pow_test : (i x : ℕ) → (bit_and x (2 ^ i) == 0) ≡ (bit i x == 0)
bit_and-pow_test i x = go (bit i x) refl (bit_bound i x)
  where
    go : (b : ℕ) → bit i x ≡ b → b < 2 → (bit_and x (2 ^ i) == 0) ≡ (bit i x == 0)
    go zero e h = ground (arith, bit_and-pow i x)
    go (suc zero) e h = ground (arith, bit_and-pow i x, one-le-pow i 2)
    go (suc (suc b)) e h = absurd (omega arith)
