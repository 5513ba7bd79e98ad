-- ===== src/Heap/Placement.antt =====
-- The placement allocator, which serves until there is a heap.
use fotix.Base.{
  ℕ, ◌+◌, ◌*◌, ◌/◌, ◌%◌, ◌^◌, ◌≤◌, ◌<◌, ◌≡◌, refl, arith, Bool, true, false, if◌then◌else◌, ok,
  bit_and,
}
use fotix.Base.Bits.{bit_and_high}
use fotix.Kernel.{Kernel}
use fotix.Heap.Kmalloc.{align_placement, place, kmalloc_int}

page_mask : (x : ℕ) → x < 2 ^ 32 → bit_and x 0xFFFFF000 ≡ x / 0x1000 * 0x1000
page_mask x h = bit_and_high 12 20 x (omega arith)

-- The next page boundary above, for an address that is on one as well.
pub align_placement_lem :
    (p : ℕ) → 0x1000 ≤ p → p < 0xFFFFF000 → align_placement true p ≡ p / 0x1000 * 0x1000 + 0x1000
unfolding align_placement
align_placement_lem p lo hi = ground (arith, page_mask p)

align_placement-false : (p : ℕ) → align_placement false p ≡ p
unfolding align_placement
align_placement-false p = refl

-- Without a heap `kmalloc_int` returns, and its physical address is the address. The block lies at or
-- above the old placement address and ends at the new one, so that blocks do not overlap; memory and
-- the rest of the kernel stay. An aligned block starts on a page boundary, at most a page further on.
pub kmalloc_int_placed :
    (fuel sz : ℕ) (align : Bool) (k : Kernel)
    → k.heap_ready ≡ false
    → 0x1000 ≤ k.placement_address
    → k.placement_address + 0x1000 + sz < 2 ^ 32
    → (addr : ℕ) × (kmalloc_int fuel sz align k
        ≡ ok (addr, addr, record k { placement_address = addr + sz }))
      × (k.placement_address ≤ addr)
      × (addr ≤ k.placement_address + 0x1000)
      × (if align then addr % 0x1000 ≡ 0 else addr ≡ k.placement_address)
unfolding kmalloc_int place
kmalloc_int_placed fuel sz true k off lo hi = (
  align_placement true k.placement_address,
  ground (arith, align_placement_lem k.placement_address),
  omega (arith, align_placement_lem k.placement_address lo (omega arith)),
  omega (arith, align_placement_lem k.placement_address lo (omega arith)),
  omega (arith, align_placement_lem k.placement_address lo (omega arith)),
)
kmalloc_int_placed fuel sz false k off lo hi = (
  k.placement_address,
  ground (arith, align_placement-false k.placement_address),
  omega arith,
  omega arith,
  refl,
)
