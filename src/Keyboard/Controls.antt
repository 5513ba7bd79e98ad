-- ===== src/Keyboard/Controls.antt =====
-- What the two loops over `control_map` do to the bits of the control keys.
use fotix.Base.{
  ℕ, zero, suc, ◌+◌, ◌^◌, ◌≤◌, ◌<◌, ◌≡◌, ◌≢◌, refl, ap, ◌∙◌, arith, true, false, Bool-cases, inl,
  inr, ◌==◌, ==_iff, if◌then◌else◌, get_or, bit_and, bit_or, u8,
}
use fotix.Base.Bits.{
  bit, bit_bound, bit-bit_and, bit-bit_or, bit-not32, bit-pow, bit_and-pow_test, bit_or-lt,
  bit_and-le, pow-lt, not32,
}
use fotix.Keyboard.{press_loop, release_loop, released_mask}
use fotix.Keyboard.Layout.{Keymap}

-- `code` stands in `control_map` at place `i`, and at no other of the places `from` to `to - 1`.
pub record OnlyAt (l : Keymap) (code i from to : ℕ) : Type 0 where
  pub inside : i < to
  pub here : get_or l.control_map i 0 ≡ code
  pub elsewhere : (j : ℕ) → from ≤ j → j < to → j ≢ i → get_or l.control_map j 0 ≢ code

abbrev pub Nowhere : Keymap → (code from to : ℕ) → Type 0
Nowhere l code from to = (j : ℕ) → from ≤ j → j < to → get_or l.control_map j 0 ≢ code

abbrev pub cleared : Keymap → ℕ → Keymap
cleared l i = record l { controls = u8 (bit_and l.controls (not32 (2 ^ i))) }

abbrev pub turned : Keymap → ℕ → Keymap
turned l i = record l { controls = u8 (bit_or l.controls (2 ^ i)) }

-- Turning a key's bit off and on leaves the other bits.
pub bit-cleared :
    (l : Keymap) (i j : ℕ)
    → l.controls < 2 ^ 8
    → i < 8
    → j < 8
    → bit j (cleared l i).controls ≡ (if i == j then 0 else bit j l.controls)
bit-cleared l i j small hi hj =
    let mask = not32 (2 ^ i) in
    let fits : u8 (bit_and l.controls mask) ≡ bit_and l.controls mask =
      omega (arith, bit_and-le l.controls l.controls mask (omega arith)) in
    ap (bit j) fits
    ∙ ground (
      arith,
      bit-bit_and j l.controls mask,
      bit-not32 j (2 ^ i),
      bit-pow j i,
      bit_bound j l.controls,
    )

pub bit-turned :
    (l : Keymap) (i j : ℕ)
    → l.controls < 2 ^ 8
    → i < 8
    → j < 8
    → bit j (turned l i).controls ≡ (if i == j then 1 else bit j l.controls)
bit-turned l i j small hi hj =
    let fits : u8 (bit_or l.controls (2 ^ i)) ≡ bit_or l.controls (2 ^ i) =
      omega (arith, bit_or-lt 8 l.controls (2 ^ i) small (pow-lt i 8 hi)) in
    ap (bit j) fits
    ∙ ground (arith, bit-bit_or j l.controls (2 ^ i), bit-pow j i, bit_bound j l.controls)

pub press_loop-Nowhere :
    (l : Keymap) (code rounds i to : ℕ)
    → to ≡ i + rounds
    → Nowhere l code i to
    → press_loop l code rounds i ≡ (l, false)
unfolding press_loop
press_loop-Nowhere l code zero i to e out = refl
press_loop-Nowhere l code (suc rounds) i to e out =
    let miss : (get_or l.control_map i 0 == code) ≡ false =
      ground (arith, out i (omega arith) (omega arith)) in
    rw miss
      (press_loop-Nowhere l code rounds (i + 1) to (omega arith) (λ j p q. out j (omega arith) q))

press_loop-hit :
    (l : Keymap) (code i rounds to : ℕ)
    → to ≡ i + suc rounds
    → OnlyAt l code i i to
    → press_loop l code (suc rounds) i
      ≡ (if bit i l.controls == 0 then (turned l i, true) else (cleared l i, false))
unfolding press_loop
press_loop-hit l code i rounds to e at =
    let found : (get_or l.control_map i 0 == code) ≡ true = (==_iff _ _).1 at.here in
    rw (found, bit_and-pow_test i l.controls)
      (ap (λ r. if bit i l.controls == 0 then (turned l i, true) else r)
        (press_loop-Nowhere (cleared l i) code rounds (i + 1) to (omega arith)
          (λ j p q. at.elsewhere j (omega arith) q (omega arith))))

-- A pressed control key turns its bit on and leaves the handler, or turns it off and goes on.
pub press_loop_lem :
    (l : Keymap) (code i rounds from to : ℕ)
    → to ≡ from + rounds
    → from ≤ i
    → OnlyAt l code i from to
    → press_loop l code rounds from
      ≡ (if bit i l.controls == 0 then (turned l i, true) else (cleared l i, false))
unfolding press_loop
press_loop_lem l code i zero from to e le at = absurd (omega (arith, at.inside))
press_loop_lem l code i (suc rounds) from to e le at = elim (Bool-cases (from == i)) [
  | inl t ↦
      let same : from ≡ i = (==_iff _ _).0 t in
      ap (press_loop l code (suc rounds)) same
      ∙ press_loop-hit l code i rounds to (omega arith) (record {
        inside = at.inside;
        here = at.here;
        elsewhere = λ j p q ne. at.elsewhere j (omega arith) q ne;
      })
  | inr f ↦
      let miss : (get_or l.control_map from 0 == code) ≡ false =
        ground (arith, at.elsewhere from) in
      rw miss (
        press_loop_lem l code i rounds (from + 1) to (omega arith) (ground arith) (record {
          inside = at.inside;
          here = at.here;
          elsewhere = λ j p q ne. at.elsewhere j (omega arith) q ne;
        }))
]

release_loop-hit :
    (l : Keymap) (scancode i rounds : ℕ)
    → get_or l.control_map i 0 ≡ bit_and scancode (not32 released_mask)
    → release_loop l scancode (suc rounds) i ≡ cleared l i
unfolding release_loop
release_loop-hit l scancode i rounds here = rw ((==_iff _ _).1 here)

-- A released control key turns its bit off, whether it was on or not.
pub release_loop_lem :
    (l : Keymap) (scancode i rounds from to : ℕ)
    → to ≡ from + rounds
    → from ≤ i
    → OnlyAt l (bit_and scancode (not32 released_mask)) i from to
    → release_loop l scancode rounds from ≡ cleared l i
unfolding release_loop
release_loop_lem l scancode i zero from to e le at = absurd (omega (arith, at.inside))
release_loop_lem l scancode i (suc rounds) from to e le at = elim (Bool-cases (from == i)) [
  | inl t ↦
      let same : from ≡ i = (==_iff _ _).0 t in
      ap (release_loop l scancode (suc rounds)) same ∙ release_loop-hit l scancode i rounds at.here
  | inr f ↦
      let miss : (get_or l.control_map from 0 == bit_and scancode (not32 released_mask)) ≡ false =
        ground (arith, at.elsewhere from) in
      rw miss (
        release_loop_lem l scancode i rounds (from + 1) to (omega arith) (ground arith) (record {
          inside = at.inside;
          here = at.here;
          elsewhere = λ j p q ne. at.elsewhere j (omega arith) q ne;
        }))
]

pub release_loop-Nowhere :
    (l : Keymap) (scancode rounds i to : ℕ)
    → to ≡ i + rounds
    → Nowhere l (bit_and scancode (not32 released_mask)) i to
    → release_loop l scancode rounds i ≡ l
unfolding release_loop
release_loop-Nowhere l scancode zero i to e out = refl
release_loop-Nowhere l scancode (suc rounds) i to e out =
    let miss : (get_or l.control_map i 0 == bit_and scancode (not32 released_mask)) ≡ false =
      ground (arith, out i (omega arith) (omega arith)) in
    rw miss (
      release_loop-Nowhere l scancode rounds (i + 1) to (omega arith)
        (λ j p q. out j (omega arith) q))
