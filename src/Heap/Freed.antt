-- ===== src/Heap/Freed.antt =====
-- What `free` leaves behind.
use fotix.Base.{
  ℕ, ◌+◌, ◌*◌, ◌-◌, ◌^◌, ◌≤◌, ◌<◌, ◌≡◌, ◌≢◌, ap, sym, subst, ◌∙◌, arith, ◌⊎◌, some, ok, u32, sub32,
}
use fotix.Memory.{store8}
use fotix.OrderedArray.{OrderedArray, LessThan}
use fotix.OrderedArray.Items.{items, insert_by}
use fotix.OrderedArray.Frame.{Outside, insert-once}
use fotix.Kernel.{Kernel, heap_magic, footer_size, header_is_hole, footer_magic, footer_header}
use fotix.Paging.Directory.{Kmalloc}
use fotix.Heap.Alloc.{with_store}
use fotix.Heap.Free.{Block, free}
use fotix.Heap.Block.{IsBlock, IsBlock-same}
use fotix.Heap.Release.{
  LeftInUse, RightInUse, marked, free_block-alone, unify_left-alone, unify_right-alone,
  contract_end-inside, add_hole-inserts, words-store8_apart, marked-IsBlock, marked-LeftInUse,
  marked-RightInUse, free-block,
}

-- The array of the index, with room for one header more, lies apart from the block.
abbrev pub Clear : OrderedArray → (pos size : ℕ) → Type 0
Clear index pos size = (index.array + 4 * (index.size + 1) ≤ pos) ⊎ (pos + size ≤ index.array)

-- `free` of a block in use whose neighbours are no holes, that does not end the heap, and apart from
-- which the index lies: it returns; the block is a hole of the same extent, its header has joined the
-- index in front of the first that is not less, and no byte outside the block and the index changes.
pub free_lem :
    (kmalloc_ap : Kmalloc) (pos size : ℕ) (k : Kernel) (less : LessThan)
    → IsBlock k.memory pos 0 size
    → 20 ≤ size
    → 8 ≤ pos
    → pos + size < 2 ^ 32
    → LeftInUse k.memory pos
    → RightInUse k.memory (pos + size)
    → pos + size ≢ k.kheap.end_address
    → k.kheap.index.less_than ≡ some less
    → k.kheap.index.size + 1 < 2 ^ 32
    → Clear k.kheap.index pos size
    → (k' : Kernel) × (free kmalloc_ap (pos + 12) k ≡ ok k')
      × IsBlock k'.memory pos 1 size
      × (k'.kheap.index ≡ record k.kheap.index { size = k.kheap.index.size + 1 })
      × (items k'.memory k'.kheap.index
          ≡ insert_by (less (marked k.memory pos)) pos (items k.memory k.kheap.index))
      × ((b : ℕ)
          → Outside k.kheap.index (k.kheap.index.size + 1) b
          → (b < pos) ⊎ (pos + size ≤ b)
          → k'.memory b ≡ k.memory b)
unfolding store8
free_lem kmalloc_ap pos size k less v room low fits left right inner order count clear =
    let m = marked k.memory pos in
    let index = k.kheap.index in
    let b : Block = record { header = pos; footer = pos + size - 8 } in
    let (r, done, array, sorted, outside) =
      insert-once m index less pos order (omega arith) count in
    let k1 = with_store k (m, index) in
    let k' = with_store k1 r in
    let before : sub32 pos footer_size ≡ pos - 8 = omega arith in
    let behind : u32 (pos + size - 8 + footer_size) ≡ pos + size = omega arith in
    (
      k',
      free-block kmalloc_ap (pos + 12) k (omega arith)
          ∙ free_block-alone kmalloc_ap (pos + 12) pos (pos + size - 8) k k' (omega arith)
              (ap (λ (n : ℕ). sub32 (u32 (pos + n)) footer_size) v.extent ∙ omega arith)
              (ground (arith, v.magic)) (ground (arith, v.end_magic))
              (
                unify_left-alone m b (
                    subst
                      (λ (n : ℕ).
                        (footer_magic m n ≢ heap_magic)
                        ⊎ (header_is_hole m (footer_header m n) ≢ 1))
                      (sym before) (marked-LeftInUse k.memory pos size room low left)),
                unify_right-alone m index b (
                    subst (RightInUse m) (sym behind)
                      (marked-RightInUse k.memory pos size room right)),
                contract_end-inside kmalloc_ap k1 (u32 (pos + size - 8 + footer_size)) b
                    (λ e. inner (sym behind ∙ e)),
                add_hole-inserts k1 pos r done,
              ),
      IsBlock-same m r.0 pos 1 size room (λ n p q. outside n (omega arith))
          (marked-IsBlock k.memory pos size room v),
      array,
      sorted
          ∙ ap (insert_by (less m) pos)
              (words-store8_apart k.memory (pos + 4) 1 index.array index.size (omega arith)),
      λ n h h'. outside n h ∙ ground arith,
    )
