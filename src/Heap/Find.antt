-- ===== src/Heap/Find.antt =====
-- `find_smallest_hole` of sys/kheap.c, and the predicate that orders the index.
use fotix.Base.{
  ℕ, zero, suc, ◌+◌, ◌-◌, ◌%◌, ◌^◌, Bool, Option, none, some, ◌==◌, not, ltb, leb, if◌then◌else◌,
  Outcome, ok, ◌>>=◌, u32, sub32, bit_and,
}
use fotix.Memory.{Memory}
use fotix.OrderedArray.{OrderedArray, LessThan, lookup_ordered_array}
use fotix.Kernel.{Heap, header_size, header_block_size}

unfoldable pub header_t_less_than : LessThan
header_t_less_than m a b = ltb (header_block_size m a) (header_block_size m b)

-- `a <= b` of two `s32int`, given by their bit patterns.
abbrev pub leb_s32 : ℕ → ℕ → Bool
leb_s32 a b = leb ((a + 2 ^ 31) % 2 ^ 32) ((b + 2 ^ 31) % 2 ^ 32)

-- `location + sizeof (header_t) & 0xFFFFF000 != 0`: in C `!=` binds tighter than `&`, so the test
-- is of the lowest bit.
unfoldable pub hole_offset : (location : ℕ) → ℕ
hole_offset location =
    if not (bit_and (u32 (location + header_size)) 1 == 0)
    then 0x1000 - u32 (location + header_size) % 0x1000
    else 0

-- Whether the loop stops at this header.
unfoldable pub hole_fits : Memory → (header size : ℕ) (page_align : Bool) → Bool
unfolding hole_offset
hole_fits m header size page_align =
    if page_align
    then leb_s32 size (sub32 (header_block_size m header) (hole_offset header))
    else leb size (header_block_size m header)

-- The loop, with the rounds that `iterator < heap->index.size` allows; -1 is `none`.
unfoldable pub find_hole_loop :
    Memory
    → OrderedArray
    → (size : ℕ) (page_align : Bool) (rounds iterator : ℕ) → Outcome (Option ℕ)
find_hole_loop m index size page_align zero iterator = ok none
find_hole_loop m index size page_align (suc rounds) iterator =
    let rest = find_hole_loop m index size page_align rounds (iterator + 1) in
    (do
      header ← lookup_ordered_array m iterator index
      if hole_fits m header size page_align then ok (some iterator) else rest)

unfoldable pub find_smallest_hole :
    Memory → Heap → (size : ℕ) (page_align : Bool) → Outcome (Option ℕ)
unfolding find_hole_loop
find_smallest_hole m heap size page_align =
    find_hole_loop m heap.index size page_align heap.index.size 0
