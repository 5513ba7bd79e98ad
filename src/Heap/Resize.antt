-- ===== src/Heap/Resize.antt =====
-- `expand` and `contract` of sys/kheap.c: whole pages are mapped at the end of the heap, or given
-- back.
use fotix.Base.{
  ℕ, zero, suc, ◌+◌, ◌-◌, ◌/◌, ◌^◌, true, false, ◌==◌, not, ltb, leb, if◌then◌else◌, Outcome, ok,
  assert, defined, ◌>>=◌, ◌>>◌, u32, sub32, bit_and,
}
use fotix.Kernel.{Kernel, heap_min_size}
use fotix.Paging.Page.{alloc_frame, free_frame}
use fotix.Paging.Directory.{Kmalloc, get_page}

-- One round of the loop of `expand`.
unfoldable pub map_page : Kmalloc → Kernel → (address : ℕ) → Outcome Kernel
map_page kmalloc_ap k address = do
  (page, k') ← get_page kmalloc_ap k address true k.kernel_directory
  m ← defined (alloc_frame k'.memory k'.frame_set page k'.kheap.supervisor (not k'.kheap.readonly))
  ok (record k' { memory = m })

-- `while (i < new_size)`, with the pages that are left to map.
unfoldable pub map_pages : Kmalloc → Kernel → (pages i : ℕ) → Outcome Kernel
map_pages kmalloc_ap k zero i = ok k
map_pages kmalloc_ap k (suc pages) i = do
  k' ← map_page kmalloc_ap k (u32 (k.kheap.start_address + i))
  map_pages kmalloc_ap k' pages (i + 0x1000)

-- The size that `expand` rounds: `new_size & 0xFFFFF000 != 0` tests the lowest bit, as in
-- `find_smallest_hole`.
unfoldable pub round_up : (new_size : ℕ) → ℕ
round_up new_size =
    if not (bit_and new_size 1 == 0) then u32 (bit_and new_size 0xFFFFF000 + 0x1000) else new_size

-- The number of rounds from `i` up to `new_size` in steps of a page.
abbrev pub pages_between : (i new_size : ℕ) → ℕ
pages_between i new_size = (new_size - i + 0xFFF) / 0x1000

unfoldable pub expand : Kmalloc → (new_size : ℕ) → Kernel → Outcome Kernel
expand kmalloc_ap new_size k =
    let heap = k.kheap in
    let old_size = sub32 heap.end_address heap.start_address in
    let size = round_up new_size in
    do
      assert (ltb old_size new_size)
      assert (leb (u32 (heap.start_address + size)) heap.max_address)
      k' ← map_pages kmalloc_ap k (pages_between old_size size) old_size
      ok (record k' { kheap = record k'.kheap { end_address = u32 (heap.start_address + size) } })

-- The size that `contract` keeps: its rounding looks at bit 12 alone.
unfoldable pub round_down : (new_size : ℕ) → ℕ
round_down new_size =
    let rounded =
      if not (bit_and new_size 0x1000 == 0)
      then u32 (bit_and new_size 0x1000 + 0x1000)
      else new_size in
    if ltb rounded heap_min_size then heap_min_size else rounded

-- `while (new_size < i)`, with a bound on the rounds. `free_frame` of a page with no table reads
-- the page at address 0.
unfoldable pub unmap_pages : Kmalloc → Kernel → (new_size rounds i : ℕ) → Outcome Kernel
unmap_pages kmalloc_ap k new_size zero i = ok k
unmap_pages kmalloc_ap k new_size (suc rounds) i =
    let round : Outcome Kernel = (do
      (page, k') ← get_page kmalloc_ap k (u32 (k.kheap.start_address + i)) false k.kernel_directory
      unmap_pages kmalloc_ap (record k' { memory = free_frame k'.memory k'.frame_set page })
          new_size rounds (sub32 i 0x1000)) in
    if ltb new_size i then round else ok k

-- The size goes back beside the kernel.
unfoldable pub contract : Kmalloc → (new_size : ℕ) → Kernel → Outcome (ℕ × Kernel)
contract kmalloc_ap new_size k =
    let heap = k.kheap in
    let old_size = sub32 heap.end_address heap.start_address in
    let size = round_down new_size in
    do
      assert (ltb new_size old_size)
      k' ← unmap_pages kmalloc_ap k size (2 ^ 20) (sub32 old_size 0x1000)
      ok (
        size,
        record k' { kheap = record k'.kheap { end_address = u32 (heap.start_address + size) } },
      )
