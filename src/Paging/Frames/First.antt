-- ===== src/Paging/Frames/First.antt =====
-- `first_frame` finds the least frame that is free.
use fotix.Base.{
  ℕ, zero, suc, ◌+◌, ◌-◌, ◌*◌, ◌/◌, ◌^◌, ◌≤◌, ◌<◌, ◌≡◌, refl, ap, ◌∙◌, arith, true, false, ◌⊎◌, inl,
  inr, Bool-cases, ltb, Option, none, some, ◌==◌, ==_iff, bit_and,
}
use fotix.Base.Bits.{bit, bit_bound, bit_and-pow, all_below_sound}
use native.Mathlib.Nat.{one-le-pow}
use fotix.Memory.{Memory, load32}
use fotix.Paging.Frames.{
  FrameSet, index_from_bit, offset_from_bit, word_at, return_or, find_bit, find_word, first_frame,
}
use fotix.Paging.Frames.Used.{used}

-- The least index from `lo` on with a clear bit, below `hi`; or no index there has one.
abbrev pub Least : (ℕ → ℕ) → ℕ → ℕ → Option ℕ → Type 0
Least bits lo hi none = (i : ℕ) → lo ≤ i → i < hi → bits i ≡ 1
Least bits lo hi (some n) =
    (lo ≤ n) × (n < hi) × (bits n ≡ 0) × ((i : ℕ) → lo ≤ i → i < n → bits i ≡ 1)

bit_test :
    (j word : ℕ)
    → (((bit_and word (2 ^ j) == 0) ≡ true) × (bit j word ≡ 0))
      ⊎ (((bit_and word (2 ^ j) == 0) ≡ false) × (bit j word ≡ 1))
bit_test j word = go (bit j word) refl (bit_bound j word)
  where
    go :
        (b : ℕ)
        → bit j word ≡ b
        → b < 2
        → (((bit_and word (2 ^ j) == 0) ≡ true) × (bit j word ≡ 0))
          ⊎ (((bit_and word (2 ^ j) == 0) ≡ false) × (bit j word ≡ 1))
    go zero e h = inl (ground (arith, bit_and-pow j word), e)
    go (suc zero) e h = inr (ground (arith, bit_and-pow j word, one-le-pow j 2), e)
    go (suc (suc b)) e h = absurd (omega arith)

-- Taking in one more index, whose bit is set.
Least-down :
    (bits : ℕ → ℕ) (lo hi : ℕ) (r : Option ℕ)
    → bits lo ≡ 1
    → Least bits (lo + 1) hi r
    → Least bits lo hi r
Least-down bits lo hi none one below = λ i p q. elim (Bool-cases (i == lo)) [
  | inl t ↦ rw ((==_iff i lo).0 t) one
  | inr f ↦ below i (ground arith) q
]
Least-down bits lo hi (some n) one (p, q, clear, below) = (
  omega arith,
  q,
  clear,
  λ i a b. elim (Bool-cases (i == lo)) [
    | inl t ↦ rw ((==_iff i lo).0 t) one
    | inr f ↦ below i (ground arith) b
  ],
)

find_bit-Least :
    (word rounds j hi : ℕ) → hi ≡ j + rounds → Least (λ i. bit i word) j hi (find_bit word rounds j)
unfolding find_bit
find_bit-Least word zero j hi e = λ i p q. absurd (omega arith)
find_bit-Least word (suc rounds) j hi e = elim (bit_test j word) [
  | inl (t, clear) ↦ rw t (omega arith, omega arith, clear, λ i p q. absurd (omega arith))
  | inr (f, one) ↦ rw f (
      Least-down (λ i. bit i word) j hi (find_bit word rounds (j + 1)) one
        (find_bit-Least word rounds (j + 1) hi (omega arith)))
]

-- A word of the bitset is 32 frames.
used_of_word :
    (m : Memory) (s : FrameSet) (i j : ℕ)
    → j < 32
    → used m s (i * 4 * 8 + j) ≡ bit j (load32 m (word_at s i))
unfolding used
used_of_word m s i j h =
    let at : index_from_bit (i * 4 * 8 + j) ≡ i = omega arith in
    let off : offset_from_bit (i * 4 * 8 + j) ≡ j = omega arith in rw (at, off)

all_ones : (i : ℕ) → i < 32 → bit i 0xffff_ffff ≡ 1
unfolding bit
all_ones i h = (==_iff _ _).0 (all_below_sound 32 (λ i. bit i 0xffff_ffff == 1) i refl h)

-- The first `n` frames of a word, and those behind it.
frames_below :
    (m : Memory) (s : FrameSet) (i n hi : ℕ)
    → n ≤ 32
    → ((j : ℕ) → 0 ≤ j → j < n → bit j (load32 m (word_at s i)) ≡ 1)
    → ((k : ℕ) → 32 * i + n ≤ k → k < hi → used m s k ≡ 1)
    → (k : ℕ) → 32 * i ≤ k
    → k < hi
    → used m s k ≡ 1
frames_below m s i n hi fits word more k p q = elim (Bool-cases (ltb k (32 * i + n))) [
  | inl t ↦
      ap (used m s) {y = i * 4 * 8 + (k - 32 * i)} (omega arith)
      ∙ used_of_word m s i (k - 32 * i) (ground arith)
      ∙ word (k - 32 * i) (omega arith) (ground arith)
  | inr f ↦ more k (ground arith) q
]

-- What a round learns of one word carries over to the frames.
Least-return_or :
    (m : Memory) (s : FrameSet) (i hi : ℕ) (found rest : Option ℕ)
    → 32 * i + 32 ≤ hi
    → Least (λ j. bit j (load32 m (word_at s i))) 0 32 found
    → Least (used m s) (32 * (i + 1)) hi rest
    → Least (used m s) (32 * i) hi (return_or rest i found)
Least-return_or m s i hi none none room word more =
    frames_below m s i 32 hi (omega arith) word (λ k p q. more k (omega arith) q)
Least-return_or m s i hi none (some n) room word more = (
  omega arith,
  more.1,
  more.2,
  frames_below m s i 32 n (omega arith) word (λ k p q. more.3 k (omega arith) q),
)
Least-return_or m s i hi (some j) rest room word more = (
  omega arith,
  omega arith,
  used_of_word m s i j word.1 ∙ word.2,
  frames_below m s i j (i * 4 * 8 + j) (omega arith) word.3 (λ k p q. absurd (omega arith)),
)

find_word-Least :
    (m : Memory) (s : FrameSet) (rounds i hi : ℕ)
    → hi ≡ 32 * (i + rounds)
    → Least (used m s) (32 * i) hi (find_word m s rounds i)
unfolding find_word
find_word-Least m s zero i hi e = λ k p q. absurd (omega arith)
find_word-Least m s (suc rounds) i hi e = elim (Bool-cases (word == 0xffff_ffff)) [
  | inl t ↦ rw t (
      Least-return_or m s i hi none (find_word m s rounds (i + 1)) (omega arith) (full t)
        (find_word-Least m s rounds (i + 1) hi (omega arith)))
  | inr f ↦ rw f (
      Least-return_or m s i hi (find_bit word 32 0) (find_word m s rounds (i + 1)) (omega arith)
        (find_bit-Least word 32 0 32 refl) (find_word-Least m s rounds (i + 1) hi (omega arith)))
]
  where
    word : ℕ
    word = load32 m (word_at s i)

    full : (word == 0xffff_ffff) ≡ true → Least (λ j. bit j word) 0 32 none
    full t = λ j p q. ap (bit j) ((==_iff _ _).0 t) ∙ all_ones j q

-- `first_frame` returns the least free frame among the whole words of the bitset, or reaches the
-- end of its body without a value where all of those frames are in use.
pub first_frame_lem :
    (m : Memory) (s : FrameSet) → Least (used m s) 0 (32 * (s.nframes / 32)) (first_frame m s)
unfolding first_frame
first_frame_lem m s = find_word-Least m s (s.nframes / 32) 0 (32 * (s.nframes / 32)) (omega arith)
