-- ===== src/Paging/Frames.antt =====
-- The bitset of physical frames of sys/paging.c: one bit for each frame of 0x1000 bytes, in words
-- of 32 bits. `frames` is the address of the first word.
pub mod Used
pub mod First
mod Tests
use fotix.Base.{
  ℕ, zero, suc, ◌+◌, ◌*◌, ◌/◌, ◌%◌, ◌^◌, Bool, true, false, Option, none, some, ◌==◌, if◌then◌else◌,
  u32, bit_and, bit_or,
}
use fotix.Base.Bits.{not32}
use fotix.Memory.{Memory, load32, store32}

-- The globals `frames` and `nframes`.
pub record FrameSet : Type 0 where
  pub frames : ℕ
  pub nframes : ℕ

abbrev pub index_from_bit : ℕ → ℕ
index_from_bit a = a / (8 * 4)

abbrev pub offset_from_bit : ℕ → ℕ
offset_from_bit a = a % (8 * 4)

-- `&frames[idx]`.
abbrev pub word_at : FrameSet → ℕ → ℕ
word_at s idx = s.frames + 4 * idx

unfoldable pub set_frame : Memory → FrameSet → (frame_addr : ℕ) → Memory
set_frame m s frame_addr =
    let frame = frame_addr / 0x1000 in
    let idx = index_from_bit frame in
    let off = offset_from_bit frame in
    store32 m (word_at s idx) (bit_or (load32 m (word_at s idx)) (2 ^ off))

unfoldable pub clear_frame : Memory → FrameSet → (frame_addr : ℕ) → Memory
clear_frame m s frame_addr =
    let frame = frame_addr / 0x1000 in
    let idx = index_from_bit frame in
    let off = offset_from_bit frame in
    store32 m (word_at s idx) (bit_and (load32 m (word_at s idx)) (not32 (2 ^ off)))

unfoldable pub test_frame : Memory → FrameSet → (frame_addr : ℕ) → ℕ
test_frame m s frame_addr =
    let frame = frame_addr / 0x1000 in
    let idx = index_from_bit frame in
    let off = offset_from_bit frame in bit_and (load32 m (word_at s idx)) (2 ^ off)

-- The inner loop of `first_frame`, with the rounds that `j < 32` allows.
unfoldable pub find_bit : (word rounds j : ℕ) → Option ℕ
find_bit word zero j = none
find_bit word (suc rounds) j =
    let rest = find_bit word rounds (j + 1) in if bit_and word (2 ^ j) == 0 then some j else rest

-- What the inner loop returns from word `i`, or else the rest of the outer loop.
abbrev pub return_or : Option ℕ → ℕ → Option ℕ → Option ℕ
return_or rest i none = rest
return_or rest i (some j) = some (i * 4 * 8 + j)

-- The outer loop, with the rounds that `i < INDEX_FROM_BIT(nframes)` allows. `none` is the end of
-- the function without a `return`, whose value is undefined.
unfoldable pub find_word : Memory → FrameSet → (rounds i : ℕ) → Option ℕ
find_word m s zero i = none
find_word m s (suc rounds) i =
    let rest = find_word m s rounds (i + 1) in
    let word = load32 m (word_at s i) in
    let here = return_or rest i (find_bit word 32 0) in if word == 0xffff_ffff then rest else here

unfoldable pub first_frame : Memory → FrameSet → Option ℕ
first_frame m s = find_word m s (index_from_bit s.nframes) 0
