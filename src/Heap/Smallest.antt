-- ===== src/Heap/Smallest.antt =====
-- `find_smallest_hole` finds the first header of the index that fits.
use fotix.Base.{
  ℕ, zero, suc, ◌+◌, ◌-◌, ◌%◌, ◌^◌, ◌≤◌, ◌<◌, ◌≡◌, refl, arith, Bool, true, false, Bool-cases, inl,
  inr, Option, none, some, ◌==◌, ==_iff, if◌then◌else◌, leb, ok, u32, ◌&&◌,
}
use fotix.Memory.{Memory, load32}
use fotix.OrderedArray.{OrderedArray, slot, lookup_ordered_array}
use fotix.Kernel.{Heap, header_block_size}
use fotix.Base.Bits.{bit_and_mask}
use fotix.Heap.Find.{hole_offset, hole_fits, find_hole_loop, find_smallest_hole}

pub lookup_in_range :
    (m : Memory) (i : ℕ) (a : OrderedArray)
    → i < a.size
    → lookup_ordered_array m i a ≡ ok (load32 m (slot a i))
unfolding lookup_ordered_array
lookup_in_range m i a h = ground arith

-- Whether the header at place `i` of the index fits.
abbrev pub fits_at : Memory → OrderedArray → (size : ℕ) (page_align : Bool) → ℕ → Bool
fits_at m index size page_align i = hole_fits m (load32 m (slot index i)) size page_align

-- The first place from `lo` on, below `hi`, where a test holds; or it holds nowhere there.
abbrev pub FirstAt : (ℕ → Bool) → ℕ → ℕ → Option ℕ → Type 0
FirstAt test lo hi none = (i : ℕ) → lo ≤ i → i < hi → test i ≡ false
FirstAt test lo hi (some n) =
    (lo ≤ n) × (n < hi) × (test n ≡ true) × ((i : ℕ) → lo ≤ i → i < n → test i ≡ false)

FirstAt-down :
    (test : ℕ → Bool) (lo hi : ℕ) (r : Option ℕ)
    → test lo ≡ false
    → FirstAt test (lo + 1) hi r
    → FirstAt test lo hi r
FirstAt-down test lo hi none no_fit later = λ i p q. elim (Bool-cases (i == lo)) [
  | inl t ↦ rw ((==_iff i lo).0 t) no_fit
  | inr f ↦ later i (ground arith) q
]
FirstAt-down test lo hi (some n) no_fit (p, q, hit, later) = (
  omega arith,
  q,
  hit,
  λ i a b. elim (Bool-cases (i == lo)) [
    | inl t ↦ rw ((==_iff i lo).0 t) no_fit
    | inr f ↦ later i (ground arith) b
  ],
)

module _ (m : Memory) (index : OrderedArray) (size : ℕ) (page_align : Bool) where
  find_hole_loop-FirstAt :
      (rounds i : ℕ)
      → index.size ≡ i + rounds
      → (r : Option ℕ) × (find_hole_loop m index size page_align rounds i ≡ ok r)
        × FirstAt (fits_at m index size page_align) i index.size r
  unfolding find_hole_loop
  find_hole_loop-FirstAt zero i e = (none, refl, λ k p q. absurd (omega arith))
  find_hole_loop-FirstAt (suc rounds) i e =
      rw (lookup_in_range m i index (omega arith))
        (elim (Bool-cases (fits_at m index size page_align i)) [
          | inl t ↦
              rw t (some i, refl, (omega arith, omega arith, t, λ k p q. absurd (omega arith)))
          | inr f ↦
              let (r, done, first) = find_hole_loop-FirstAt rounds (i + 1) (omega arith) in
              rw f (r, done, FirstAt-down (fits_at m index size page_align) i index.size r f first)
        ])

-- `find_smallest_hole` always returns: the first place of the index whose header is large enough,
-- or -1 where no header of the index is.
pub find_smallest_hole_lem :
    (m : Memory) (heap : Heap) (size : ℕ) (page_align : Bool)
    → (r : Option ℕ) × (find_smallest_hole m heap size page_align ≡ ok r)
      × FirstAt (fits_at m heap.index size page_align) 0 heap.index.size r
unfolding find_smallest_hole
find_smallest_hole_lem m heap size page_align =
    find_hole_loop-FirstAt m heap.index size page_align heap.index.size 0 (omega arith)

-- What a header has to hold beside the request, where the data is to be aligned: the distance from
-- the data to the next page boundary, but only where the data has an odd address.
abbrev pub lost_to_alignment : (page_align : Bool) (header : ℕ) → ℕ
lost_to_alignment page_align header =
    if page_align && ((header + 12) % 2 == 1) then 0x1000 - (header + 12) % 0x1000 else 0

hole_offset_lem :
    (header : ℕ) → header + 12 < 2 ^ 32 → hole_offset header ≡ lost_to_alignment true header
unfolding hole_offset
hole_offset_lem header h = ground (arith, bit_and_mask 1 (u32 (header + 12)))

-- For sizes below 2^31 a header fits exactly where it holds the request and what alignment takes.
pub hole_fits_lem :
    (m : Memory) (header size : ℕ) (page_align : Bool)
    → header + 12 < 2 ^ 32
    → size < 2 ^ 31
    → header_block_size m header < 2 ^ 31
    → hole_fits m header size page_align
      ≡ leb (size + lost_to_alignment page_align header) (header_block_size m header)
unfolding hole_fits
hole_fits_lem m header size false h small fits = ground arith
hole_fits_lem m header size true h small fits = ground (arith, hole_offset_lem header)
