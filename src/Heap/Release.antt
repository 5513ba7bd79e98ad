-- ===== src/Heap/Release.antt =====
-- `free` of a block between blocks that are in use.
use fotix.Base.{
  ℕ, zero, suc, ◌∷◌, ap₂, ◌+◌, ◌*◌, ◌-◌, ◌≤◌, ◌<◌, ◌≡◌, ◌≢◌, refl, ap, sym, ◌∙◌, arith, ◌⊎◌, inl,
  inr, true, false, ◌==◌, ◌&&◌, not, ok, u32, sub32,
}
use fotix.Memory.{Memory, load8, store8}
use fotix.Memory.Words.{words}
use fotix.OrderedArray.{OrderedArray, insert_ordered_array}
use fotix.Kernel.{
  Kernel, heap_magic, header_size, footer_size, header_magic, header_is_hole, footer_magic,
  footer_header,
}
use fotix.Paging.Directory.{Kmalloc}
use fotix.Heap.Alloc.{Store, with_store}
use fotix.Heap.Free.{
  Block, footer_of, unify_left, unify_right, contract_end, add_hole, free_block, free,
}
use fotix.Heap.Block.{IsBlock, load8-store8, load32-store8_apart}

-- What stands before the block, and behind it, is no hole.
abbrev pub LeftInUse : Memory → (pos : ℕ) → Type 0
LeftInUse m pos =
    (footer_magic m (pos - 8) ≢ heap_magic)
    ⊎ ((footer_header m (pos - 8) ≢ pos) × (header_is_hole m (footer_header m (pos - 8)) ≢ 1))

abbrev pub RightInUse : Memory → (end : ℕ) → Type 0
RightInUse m end = (header_magic m end ≢ heap_magic) ⊎ (header_is_hole m end ≡ 0)

load8-store8_apart : (m : Memory) (a v b : ℕ) → b ≢ a → load8 (store8 m a v) b ≡ load8 m b
unfolding load8 store8
load8-store8_apart m a v b h = ground (arith, h)

-- The rounds of `free_block` where nothing is unified and the heap is not cut.
pub free_block-alone :
    (kmalloc_ap : Kmalloc) (p header footer : ℕ) (k k' : Kernel)
    → sub32 p header_size ≡ header
    → footer_of k.memory header ≡ footer
    → (header_magic k.memory header == heap_magic) ≡ true
    → (footer_magic k.memory footer == heap_magic) ≡ true
    → (let m = store8 k.memory (header + 4) 1 in
        let b : Block = record { header = header; footer = footer } in
        let s : Store = (m, k.kheap.index) in
        (unify_left m b ≡ (m, b, true))
        × (unify_right s b ≡ ok (s, b))
        × (contract_end kmalloc_ap (with_store k s) (u32 (footer + footer_size)) b
            ≡ ok (with_store k s))
        × (add_hole true (with_store k s) header ≡ ok k'))
    → free_block kmalloc_ap p k ≡ ok k'
unfolding free_block
free_block-alone kmalloc_ap p header footer k k' e1 e2 e3 e4 (left, right, cut, added) =
    rw (e1, e2, e3, e4, left, right, cut) added

pub unify_left-alone :
    (m : Memory) (b : Block)
    → (footer_magic m (sub32 b.header footer_size) ≢ heap_magic)
      ⊎ (header_is_hole m (footer_header m (sub32 b.header footer_size)) ≢ 1)
    → unify_left m b ≡ (m, b, true)
unfolding unify_left
unify_left-alone m b h =
    let no : ((footer_magic m (sub32 b.header footer_size) == heap_magic)
          && (header_is_hole m (footer_header m (sub32 b.header footer_size)) == 1))
        ≡ false =
      ground (arith, h) in
    rw no refl

pub unify_right-alone :
    (m : Memory) (index : OrderedArray) (b : Block)
    → RightInUse m (u32 (b.footer + footer_size))
    → unify_right (m, index) b ≡ ok ((m, index), b)
unfolding unify_right
unify_right-alone m index b h =
    let test = u32 (b.footer + footer_size) in
    let no : ((header_magic m test == heap_magic) && not (header_is_hole m test == 0)) ≡ false =
      ground (arith, h) in
    rw no refl

pub contract_end-inside :
    (kmalloc_ap : Kmalloc) (k : Kernel) (test_header : ℕ) (b : Block)
    → u32 (b.footer + footer_size) ≢ k.kheap.end_address
    → contract_end kmalloc_ap k test_header b ≡ ok k
unfolding contract_end
contract_end-inside kmalloc_ap k test_header b h =
    let no : (u32 (b.footer + footer_size) == k.kheap.end_address) ≡ false = ground (arith, h) in
    rw no refl

pub add_hole-inserts :
    (k : Kernel) (header : ℕ) (s : Store)
    → insert_ordered_array k.memory k.kheap.index header ≡ ok s
    → add_hole true k header ≡ ok (with_store k s)
unfolding add_hole
add_hole-inserts k header s done = rw done refl

pub words-store8_apart :
    (m : Memory) (a v b n : ℕ) → (b + 4 * n ≤ a) ⊎ (a < b) → words (store8 m a v) b n ≡ words m b n
words-store8_apart m a v b zero h = refl
words-store8_apart m a v b (suc n) h =
    ap₂ ◌∷◌ (load32-store8_apart m a v b (omega arith))
      (words-store8_apart m a v (b + 4) n (omega arith))

-- The memory in which the block at `pos` is marked as a hole.
abbrev pub marked : Memory → (pos : ℕ) → Memory
marked m pos = store8 m (pos + 4) 1

module _ (m : Memory) (pos size : ℕ) (room : 20 ≤ size) where
  pub marked-IsBlock : IsBlock m pos 0 size → IsBlock (marked m pos) pos 1 size
  marked-IsBlock v = record {
    magic = load32-store8_apart m (pos + 4) 1 pos (omega arith) ∙ v.magic;
    hole = load8-store8 m (pos + 4) 1 (omega arith);
    extent = load32-store8_apart m (pos + 4) 1 (pos + 8) (omega arith) ∙ v.extent;
    end_magic = load32-store8_apart m (pos + 4) 1 (pos + size - 8) (omega arith) ∙ v.end_magic;
    back = load32-store8_apart m (pos + 4) 1 (pos + size - 8 + 4) (omega arith) ∙ v.back;
  }

  pub marked-LeftInUse :
      8 ≤ pos
      → LeftInUse m pos
      → (footer_magic (marked m pos) (pos - 8) ≢ heap_magic)
        ⊎ (header_is_hole (marked m pos) (footer_header (marked m pos) (pos - 8)) ≢ 1)
  marked-LeftInUse h (inl other) =
      inl (λ e. other (sym (load32-store8_apart m (pos + 4) 1 (pos - 8) (omega arith)) ∙ e))
  marked-LeftInUse h (inr (ne, used)) =
      let left = footer_header m (pos - 8) in
      let back : footer_header (marked m pos) (pos - 8) ≡ left =
        load32-store8_apart m (pos + 4) 1 (pos - 8 + 4) (omega arith) in
      let flag : header_is_hole (marked m pos) left ≡ header_is_hole m left =
        load8-store8_apart m (pos + 4) 1 (left + 4) (λ e. ne (omega (arith, e))) in
      inr (λ e. used (sym flag ∙ ap (header_is_hole (marked m pos)) (sym back) ∙ e))

  pub marked-RightInUse : RightInUse m (pos + size) → RightInUse (marked m pos) (pos + size)
  marked-RightInUse (inl other) =
      inl (λ e. other (sym (load32-store8_apart m (pos + 4) 1 (pos + size) (omega arith)) ∙ e))
  marked-RightInUse (inr used) =
      inr (load8-store8_apart m (pos + 4) 1 (pos + size + 4) (omega arith) ∙ used)

pub free-block :
    (kmalloc_ap : Kmalloc) (p : ℕ) (k : Kernel)
    → p ≢ 0
    → free kmalloc_ap p k ≡ free_block kmalloc_ap p k
unfolding free
free-block kmalloc_ap p k h = let no : (p == 0) ≡ false = ground (arith, h) in rw no refl
