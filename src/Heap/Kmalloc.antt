-- ===== src/Heap/Kmalloc.antt =====
-- `kmalloc_int` of sys/kheap.c with its callers, and `create_heap`.
use fotix.Base.{
  ℕ, ◌+◌, ◌*◌, ◌%◌, Bool, true, false, Option, some, ◌&&◌, ◌==◌, not, if◌then◌else◌, Outcome, ok,
  assert, ◌>>=◌, ◌>>◌, u32, sub32, bit_and,
}
use fotix.Memory.{memset}
use fotix.OrderedArray.{OrderedArray, LessThan, insert_ordered_array, place_ordered_array}
use fotix.Kernel.{Heap, Kernel, heap_index_size, write_header}
use fotix.Heap.Find.{header_t_less_than}
use fotix.Heap.Alloc.{alloc, kmalloc_on_heap}
use fotix.Heap.Free.{free}

-- The placement address, rounded up to a page. Below 0x1000 it stays, and an aligned one moves on
-- by a whole page.
unfoldable pub align_placement : (align : Bool) (placement_address : ℕ) → ℕ
align_placement align placement_address =
    if align && not (bit_and placement_address 0xFFFFF000 == 0)
    then u32 (bit_and placement_address 0xFFFFF000 + 0x1000)
    else placement_address

-- The branch of `kmalloc_int` before there is a heap: the address, which is the physical one too.
unfoldable pub place : (sz : ℕ) (align : Bool) → Kernel → ℕ × ℕ × Kernel
unfolding align_placement
place sz align k =
    let tmp = align_placement align k.placement_address in
    (tmp, tmp, record k { placement_address = u32 (tmp + sz) })

-- The physical address goes back whether or not the caller wants it.
unfoldable pub kmalloc_int : (fuel sz : ℕ) (align : Bool) → Kernel → Outcome (ℕ × ℕ × Kernel)
kmalloc_int fuel sz align k =
    if k.heap_ready then kmalloc_on_heap (alloc fuel) sz align k else ok (place sz align k)

-- `kmalloc_a`, `kmalloc_p`, `kmalloc_ap`, `kmalloc` and `kfree`.
unfoldable pub kmalloc_a : (fuel sz : ℕ) → Kernel → Outcome (ℕ × Kernel)
kmalloc_a fuel sz k = do (addr, _, k') ← kmalloc_int fuel sz true k; ok (addr, k')

unfoldable pub kmalloc_p : (fuel sz : ℕ) → Kernel → Outcome (ℕ × ℕ × Kernel)
kmalloc_p fuel sz k = kmalloc_int fuel sz false k

unfoldable pub kmalloc_ap : (fuel : ℕ) → Kernel → (sz : ℕ) → Outcome (ℕ × ℕ × Kernel)
kmalloc_ap fuel k sz = kmalloc_int fuel sz true k

unfoldable pub kmalloc : (fuel sz : ℕ) → Kernel → Outcome (ℕ × Kernel)
kmalloc fuel sz k = do (addr, _, k') ← kmalloc_int fuel sz false k; ok (addr, k')

unfoldable pub kfree : (fuel p : ℕ) → Kernel → Outcome Kernel
kfree fuel p k = free (kmalloc_ap fuel) p k

-- `create_ordered_array` of sys/ordered_array.c, which gets its room from `kmalloc`.
unfoldable pub create_ordered_array :
    (fuel max_size : ℕ) → Option LessThan → Kernel → Outcome (OrderedArray × Kernel)
create_ordered_array fuel max_size less_than k = do
  (array, k') ← kmalloc fuel (u32 (max_size * 4)) k
  ok (
    record { array = array; size = 0; max_size = max_size; less_than = less_than },
    record k' { memory = memset k'.memory array 0 (u32 (max_size * 4)) },
  )

-- `start & 0xFFFFF000 != 0` tests the lowest bit, as in `expand`.
unfoldable pub align_start : (start : ℕ) → ℕ
align_start start =
    if not (bit_and start 1 == 0) then u32 (bit_and start 0xFFFFF000 + 0x1000) else start

-- `create_heap`: the new `heap_t` goes back beside the kernel, which does not use it yet.
unfoldable pub create_heap :
    (fuel start end_addr max : ℕ) (supervisor readonly : Bool) → Kernel → Outcome (Heap × Kernel)
unfolding align_start
create_heap fuel start end_addr max supervisor readonly k = do
  (_, k') ← kmalloc fuel 32 k
  assert (start % 0x1000 == 0)
  assert (end_addr % 0x1000 == 0)
  let (m, index) = place_ordered_array k'.memory start heap_index_size (some header_t_less_than)
  let hole = align_start (u32 (start + 4 * heap_index_size))
  let m1 = write_header m hole 1 (sub32 end_addr hole)
  (m2, index') ← insert_ordered_array m1 index hole
  ok (
    record {
      index = index';
      start_address = hole;
      end_address = end_addr;
      max_address = max;
      supervisor = supervisor;
      readonly = readonly;
    },
    record k' { memory = m2 },
  )
