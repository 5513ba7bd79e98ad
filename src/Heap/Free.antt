-- ===== src/Heap/Free.antt =====
-- `free` of sys/kheap.c, in the parts that its comments mark.
use fotix.Base.{
  ℕ, zero, suc, ◌+◌, Bool, true, false, ◌&&◌, ◌==◌, not, ltb, if◌then◌else◌, Outcome, ok, assert,
  ◌>>=◌, ◌>>◌, u32, sub32,
}
use fotix.Memory.{Memory, store8, store32}
use fotix.OrderedArray.{
  OrderedArray, insert_ordered_array, lookup_ordered_array, remove_ordered_array,
}
use fotix.Kernel.{
  Kernel, heap_magic, header_size, footer_size, header_magic, header_is_hole, header_block_size,
  footer_magic, footer_header, write_footer,
}
use fotix.Heap.Resize.{contract}
use fotix.Heap.Alloc.{Store, with_store}
use fotix.Paging.Directory.{Kmalloc}

-- A block that is being freed: where its header and its footer are by now.
pub record Block : Type 0 where
  pub header : ℕ
  pub footer : ℕ

-- The footer of a block, by the size in its header.
abbrev pub footer_of : Memory → ℕ → ℕ
footer_of m header = sub32 (u32 (header + header_block_size m header)) footer_size

-- The hole on the left takes the block over; the flag is `do_add`.
unfoldable pub unify_left : Memory → Block → Memory × Block × Bool
unify_left m b =
    let test_footer = sub32 b.header footer_size in
    let left = footer_header m test_footer in
    let cache_size = header_block_size m b.header in
    let m1 = store32 m (b.footer + 4) left in
    let m2 = store32 m1 (left + 8) (u32 (header_block_size m1 left + cache_size)) in
    if (footer_magic m test_footer == heap_magic) && (header_is_hole m left == 1)
    then (m2, record b { header = left }, false)
    else (m, b, true)

-- The search for a header in the index, with the rounds that `iterator < heap->index.size` allows:
-- its place, or the size where it is not there.
unfoldable pub find_header : Memory → OrderedArray → (header rounds iterator : ℕ) → Outcome ℕ
find_header m index header zero iterator = ok iterator
find_header m index header (suc rounds) iterator =
    let rest = find_header m index header rounds (iterator + 1) in
    (do item ← lookup_ordered_array m iterator index; if item == header then ok iterator else rest)

-- The hole on the right is taken in, and leaves the index.
unfoldable pub take_right : Store → (test_header : ℕ) → Block → Outcome (Store × Block)
take_right (m, index) test_header b =
    let grown = u32 (header_block_size m b.header + header_block_size m test_header) in
    let m1 = store32 m (b.header + 8) grown in
    let test_footer = footer_of m1 test_header in
    do
      iterator ← find_header m1 index test_header index.size 0
      assert (ltb iterator index.size)
      ok (remove_ordered_array m1 iterator index, record b { footer = test_footer })

unfoldable pub unify_right : Store → Block → Outcome (Store × Block)
unify_right (m, index) b =
    let test_header = u32 (b.footer + footer_size) in
    let taken = take_right (m, index) test_header b in
    if (header_magic m test_header == heap_magic) && not (header_is_hole m test_header == 0)
    then taken
    else ok ((m, index), b)

-- After `contract`: the header is resized, or else the index is searched for `test_header`, the
-- address behind the footer of before the right side was unified.
unfoldable pub shrink_last :
    Store → (test_header : ℕ) → Block → (old_length new_length : ℕ) → Outcome Store
shrink_last (m, index) test_header b old_length new_length =
    let lost = sub32 old_length new_length in
    let left = sub32 (header_block_size m b.header) lost in
    let m1 = store32 m (b.header + 8) left in
    let resized : Outcome Store = ok (write_footer m1 (footer_of m1 b.header) b.header, index) in
    let removed : Outcome Store = (do
      iterator ← find_header m index test_header index.size 0
      if ltb iterator index.size
          then ok (remove_ordered_array m iterator index)
          else ok (m, index)) in
    if left == 0 then removed else resized

unfoldable pub contract_end : Kmalloc → Kernel → (test_header : ℕ) → Block → Outcome Kernel
contract_end kmalloc_ap k test_header b =
    let heap = k.kheap in
    let old_length = sub32 heap.end_address heap.start_address in
    let contracted : Outcome Kernel = (do
      (new_length, k') ← contract kmalloc_ap (sub32 b.header heap.start_address) k
      s ← shrink_last (k'.memory, k'.kheap.index) test_header b old_length new_length
      ok (with_store k' s)) in
    if u32 (b.footer + footer_size) == heap.end_address then contracted else ok k

-- If required, the header joins the index.
unfoldable pub add_hole : Bool → Kernel → (header : ℕ) → Outcome Kernel
add_hole do_add k header =
    let added : Outcome Kernel = (do
      s ← insert_ordered_array k.memory k.kheap.index header
      ok (with_store k s)) in
    if do_add then added else ok k

unfoldable pub free_block : Kmalloc → (p : ℕ) → Kernel → Outcome Kernel
free_block kmalloc_ap p k =
    let m = k.memory in
    let header = sub32 p header_size in
    let footer = footer_of m header in
    do
      assert (header_magic m header == heap_magic)
      assert (footer_magic m footer == heap_magic)
      let (m1, b, do_add) =
          unify_left (store8 m (header + 4) 1) (record { header = header; footer = footer })
      (s, b') ← unify_right (m1, k.kheap.index) b
      k' ← contract_end kmalloc_ap (with_store k s) (u32 (b.footer + footer_size)) b'
      add_hole do_add k' b'.header

-- `free (p, kheap)`.
unfoldable pub free : Kmalloc → (p : ℕ) → Kernel → Outcome Kernel
free kmalloc_ap p k = let freed = free_block kmalloc_ap p k in if p == 0 then ok k else freed
