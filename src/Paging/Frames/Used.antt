-- ===== src/Paging/Frames/Used.antt =====
-- `set_frame`, `clear_frame` and `test_frame` on the bit of each frame.
use fotix.Base.{
  ℕ, zero, suc, ◌*◌, ◌/◌, ◌^◌, ◌<◌, ◌≡◌, ◌≢◌, ◌↔◌, refl, ap, ◌∙◌, arith, inl, inr, Bool-cases, ◌==◌,
  ==_iff, if◌then◌else◌, bit_and, bit_or,
}
use fotix.Base.Bits.{
  bit, bit_bound, bit-bit_and, bit-bit_or, bit-not32, bit-pow, bit_or-lt, bit_and-le, pow-lt,
  bit_and-pow, not32,
}
use native.Mathlib.Nat.{one-le-pow}
use fotix.Memory.{Memory, load32, store32}
use fotix.Memory.Words.{load32-lt, load32-store32, load32-store32_apart}
use fotix.Paging.Frames.{
  FrameSet, index_from_bit, offset_from_bit, word_at, set_frame, clear_frame, test_frame,
}

-- 1 where frame `i` is in use.
unfoldable pub used : Memory → FrameSet → ℕ → ℕ
used m s i = bit (offset_from_bit i) (load32 m (word_at s (index_from_bit i)))

pub used_bound : (m : Memory) (s : FrameSet) (i : ℕ) → used m s i < 2
unfolding used
used_bound m s i = bit_bound (offset_from_bit i) (load32 m (word_at s (index_from_bit i)))

-- A new word at `frame / 32` shows in the bits of that word, and in no other.
used-store32 :
    (m : Memory) (s : FrameSet) (frame v j : ℕ)
    → v < 2 ^ 32
    → used (store32 m (word_at s (index_from_bit frame)) v) s j
      ≡ (if index_from_bit frame == index_from_bit j then bit (offset_from_bit j) v else used m s j)
unfolding used
used-store32 m s frame v j small = elim (Bool-cases (index_from_bit frame == index_from_bit j)) [
  | inl t ↦
      let e : index_from_bit frame ≡ index_from_bit j = (==_iff _ _).0 t in
      rw t (
        ap (bit (offset_from_bit j)) (
          ap (λ k. load32 (store32 m (word_at s k) v) (word_at s (index_from_bit j))) e
          ∙ load32-store32 m (word_at s (index_from_bit j)) v small))
  | inr f ↦ rw f (
      ap (bit (offset_from_bit j)) (
        load32-store32_apart m (word_at s (index_from_bit frame)) v (word_at s (index_from_bit j))
          (ground arith)))
]

-- `set_frame` marks the frame of its address, and no other.
pub used-set_frame :
    (m : Memory) (s : FrameSet) (frame_addr j : ℕ)
    → used (set_frame m s frame_addr) s j ≡ (if frame_addr / 0x1000 == j then 1 else used m s j)
unfolding set_frame used
used-set_frame m s frame_addr j =
    let frame = frame_addr / 0x1000 in
    let off = offset_from_bit frame in
    let word = load32 m (word_at s (index_from_bit frame)) in
    ground (
      arith,
      used-store32 m s frame (bit_or word (2 ^ off)) j,
      bit_or-lt 32 word (2 ^ off),
      pow-lt off 32,
      load32-lt m (word_at s (index_from_bit frame)),
      bit-bit_or (offset_from_bit j) word (2 ^ off),
      bit-pow (offset_from_bit j) off,
      bit_bound (offset_from_bit j) word,
    )

-- `clear_frame` gives the frame of its address back, and no other.
pub used-clear_frame :
    (m : Memory) (s : FrameSet) (frame_addr j : ℕ)
    → used (clear_frame m s frame_addr) s j ≡ (if frame_addr / 0x1000 == j then 0 else used m s j)
unfolding clear_frame used
used-clear_frame m s frame_addr j =
    let frame = frame_addr / 0x1000 in
    let off = offset_from_bit frame in
    let word = load32 m (word_at s (index_from_bit frame)) in
    let mask = not32 (2 ^ off) in
    ground (
      arith,
      used-store32 m s frame (bit_and word mask) j,
      bit_and-le word word mask,
      load32-lt m (word_at s (index_from_bit frame)),
      bit-bit_and (offset_from_bit j) word mask,
      bit-not32 (offset_from_bit j) (2 ^ off),
      bit-pow (offset_from_bit j) off,
      bit_bound (offset_from_bit j) word,
    )

times_bit : (b p : ℕ) → b < 2 → 0 < p → (b * p ≢ 0) ↔ (b ≡ 1)
times_bit zero p h k = (λ ne. absurd (ne (omega arith)), λ e. absurd (omega arith))
times_bit (suc zero) p h k = (λ ne. refl, λ e z. omega arith)
times_bit (suc (suc b)) p h k = absurd (omega arith)

-- `test_frame` is nonzero exactly on a frame in use.
pub test_frame_iff :
    (m : Memory) (s : FrameSet) (frame_addr : ℕ)
    → (test_frame m s frame_addr ≢ 0) ↔ (used m s (frame_addr / 0x1000) ≡ 1)
unfolding test_frame used
test_frame_iff m s frame_addr =
    let off = offset_from_bit (frame_addr / 0x1000) in
    let word = load32 m (word_at s (index_from_bit (frame_addr / 0x1000))) in
    rw (bit_and-pow off word)
      (times_bit (bit off word) (2 ^ off) (bit_bound off word) (one-le-pow off 2 (omega arith)))
