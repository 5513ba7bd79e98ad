-- ===== src/Heap/Alloc.antt =====
-- `alloc` of sys/kheap.c, in the parts that its comments mark. The recursion, of `alloc` itself and
-- of the page tables that `expand` may need, runs on fuel.
use fotix.Base.{
  ℕ, zero, suc, ◌+◌, ◌*◌, Bool, true, false, Option, none, some, ◌&&◌, ◌==◌, not, ltb,
  if◌then◌else◌, Outcome, ok, out_of_fuel, ◌>>=◌, u32, sub32, bit_and,
}
use fotix.Memory.{Memory, store32}
use fotix.OrderedArray.{
  OrderedArray, insert_ordered_array, lookup_ordered_array, remove_ordered_array,
}
use fotix.Kernel.{Kernel, header_size, footer_size, header_block_size, write_header, write_footer}
use fotix.Heap.Find.{find_smallest_hole}
use fotix.Heap.Resize.{expand}
use fotix.Paging.Directory.{Kmalloc, get_page}
use fotix.Paging.Page.{load_page}

-- Memory and index, which most parts change together.
abbrev pub Store : Type 0
Store = Memory × OrderedArray

abbrev pub with_store : Kernel → Store → Kernel
with_store k (m, index) = record k { memory = m; kheap = record k.kheap { index = index } }

-- The loop that looks for the endmost header: its index, or `none` for the -1 that `idx` begins
-- with, and its address.
unfoldable pub endmost :
    Memory → OrderedArray → (rounds iterator : ℕ) (idx : Option ℕ) (value : ℕ) → Outcome (Option ℕ)
endmost m index zero iterator idx value = ok idx
endmost m index (suc rounds) iterator idx value = do
  tmp ← lookup_ordered_array m iterator index
  let higher = ltb value tmp
  endmost m index rounds (iterator + 1) (if higher then some iterator else idx)
      (if higher then tmp else value)

-- After an expansion: a new last header, or a longer one.
unfoldable pub extend_last :
    Store → (idx : Option ℕ) (old_end_address old_length new_length : ℕ) → Outcome Store
extend_last (m, index) none old_end_address old_length new_length =
    let size = sub32 new_length old_length in
    let m1 = write_header m old_end_address 1 size in
    let m2 = write_footer m1 (sub32 (u32 (old_end_address + size)) footer_size) old_end_address in
    insert_ordered_array m2 index old_end_address
extend_last (m, index) (some i) old_end_address old_length new_length = do
  header ← lookup_ordered_array m i index
  let size = u32 (header_block_size m header + sub32 new_length old_length)
  let m1 = store32 m (header + 8) size
  ok (write_footer m1 (sub32 (u32 (header + size)) footer_size) header, index)

-- The branch of `alloc` that found no hole, up to its recursive call.
unfoldable pub grow : Kmalloc → (new_size : ℕ) → Kernel → Outcome Kernel
grow kmalloc_ap new_size k =
    let old_length = sub32 k.kheap.end_address k.kheap.start_address in
    let old_end_address = k.kheap.end_address in
    do
      k' ← expand kmalloc_ap (u32 (old_length + new_size)) k
      let new_length = sub32 k'.kheap.end_address k'.kheap.start_address
      idx ← endmost k'.memory k'.kheap.index k'.kheap.index.size 0 none 0
      s ← extend_last (k'.memory, k'.kheap.index) idx old_end_address old_length new_length
      ok (with_store k' s)

-- A hole too small to split is taken whole: the sizes of the request and of its block.
unfoldable pub fit : (size new_size orig_hole_size : ℕ) → ℕ × ℕ
fit size new_size orig_hole_size =
    let left = sub32 orig_hole_size new_size in
    if ltb left (header_size + footer_size)
    then (u32 (size + left), orig_hole_size)
    else (size, new_size)

-- For aligned data the front of the hole stays a hole; else the hole leaves the index. The position
-- and the size of what is left to cut the block from go back as well.
unfoldable pub take_hole :
    Store → (iterator pos orig_hole_size : ℕ) (page_align : Bool) → Store × ℕ × ℕ
take_hole (m, index) iterator pos orig_hole_size page_align =
    let new_location = sub32 (u32 (pos + 0x1000)) (u32 (bit_and pos 0xFFF + header_size)) in
    let front = sub32 0x1000 (u32 (bit_and pos 0xFFF + header_size)) in
    let m1 = write_header m pos 1 front in
    let m2 = write_footer m1 (sub32 new_location footer_size) pos in
    if page_align && not (bit_and pos 0xFFFFF000 == 0)
    then ((m2, index), new_location, sub32 orig_hole_size (header_block_size m2 pos))
    else (remove_ordered_array m iterator index, pos, orig_hole_size)

-- The header and the footer of the block.
unfoldable pub write_block : Memory → (pos size new_size : ℕ) → Memory
write_block m pos size new_size =
    write_footer (write_header m pos 0 new_size) (u32 (pos + header_size + size)) pos

-- What is left behind the block becomes a hole.
unfoldable pub split_rest :
    Store → (end_address pos size new_size orig_hole_size : ℕ) → Outcome Store
split_rest (m, index) end_address pos size new_size orig_hole_size =
    let rest = sub32 orig_hole_size new_size in
    let hole_header = u32 (pos + header_size + size + footer_size) in
    let hole_footer = sub32 (u32 (hole_header + rest)) footer_size in
    let m1 = write_header m hole_header 1 rest in
    let m2 = if ltb hole_footer end_address then write_footer m1 hole_footer hole_header else m1 in
    if rest == 0 then ok (m, index) else insert_ordered_array m2 index hole_header

-- `alloc` from the hole at `iterator` on.
unfoldable pub alloc_from :
    (size new_size : ℕ) (page_align : Bool) → Kernel → (iterator : ℕ) → Outcome (ℕ × Kernel)
alloc_from size new_size page_align k iterator = do
  header ← lookup_ordered_array k.memory iterator k.kheap.index
  let hole_size = header_block_size k.memory header
  let (size', new_size') = fit size new_size hole_size
  let ((m, index), pos, left) =
      take_hole (k.memory, k.kheap.index) iterator header hole_size page_align
  s ←
      split_rest (write_block m pos size' new_size', index) k.kheap.end_address pos size' new_size'
        left
  ok (u32 (pos + header_size), with_store k s)

-- `kmalloc_int` while the heap is on, given `alloc`; the physical address comes from the page's entry.
unfoldable pub kmalloc_on_heap :
    ((size : ℕ) → Bool → Kernel → Outcome (ℕ × Kernel))
    → (sz : ℕ) (align : Bool) → Kernel
    → Outcome (ℕ × ℕ × Kernel)
kmalloc_on_heap alloc sz align k = do
  (addr, k') ← alloc sz align k
  (page, k'') ← get_page (λ k _. ok (0, 0, k)) k' addr false k'.kernel_directory
  ok (addr, u32 ((load_page k''.memory page).frame * 0x1000 + bit_and addr 0xFFF), k'')

unfoldable pub alloc : (fuel size : ℕ) (page_align : Bool) → Kernel → Outcome (ℕ × Kernel)
alloc zero size page_align k = out_of_fuel
alloc (suc fuel) size page_align k =
    let new_size = u32 (size + header_size + footer_size) in
    let again = alloc fuel size page_align in
    let kmalloc_ap = λ (k : Kernel) (sz : ℕ). kmalloc_on_heap (alloc fuel) sz true k in
    do
      found ← find_smallest_hole k.memory k.kheap new_size page_align
      elim found [
        | none ↦ grow kmalloc_ap new_size k >>= again
        | some iterator ↦ alloc_from size new_size page_align k iterator
      ]
