-- ===== src/Heap/Serve.antt =====
-- What `alloc` leaves in memory and in the index where a hole of the index serves the request.
use fotix.Base.{
  ℕ, ◌+◌, ◌-◌, ◌^◌, ◌≤◌, ◌<◌, ◌≡◌, refl, sym, ap, subst, ◌∙◌, arith, ◌⊎◌, List, [], ◌∷◌, ◌++◌, inl,
  inr, true, false, Bool-cases, some, ltb, ok, ◌>>=◌, u32, sub32,
}
use fotix.Memory.{Memory, load32}
use fotix.Memory.Words.{words-same}
use fotix.OrderedArray.{OrderedArray, LessThan, slot, remove_ordered_array}
use fotix.OrderedArray.Items.{items, insert_by, remove_nth, remove-items}
use fotix.OrderedArray.Frame.{Outside, remove-Outside}
use fotix.Kernel.{Kernel, header_block_size}
use fotix.Heap.Alloc.{Store, with_store, fit, take_hole, write_block, split_rest, alloc_from}
use fotix.Heap.Block.{IsBlock, IsBlock-same}
use fotix.Heap.Smallest.{lookup_in_range}
use fotix.Heap.Split.{write_block_lem, split_rest_lem}

-- The items that the removal of place `i` leaves: it takes the item out, but counts the array up, so
-- that the word behind the array stands at the end twice.
abbrev pub unlisted : Memory → OrderedArray → (i : ℕ) → List ℕ
unlisted m a i =
    let beyond = load32 m (slot a a.size) in remove_nth i (items m a) ++ (beyond ∷ beyond ∷ [])

removed :
    (m : Memory) (a : OrderedArray) (i : ℕ)
    → i < a.size
    → a.size + 1 < 2 ^ 32
    → (m' : Memory) × (remove_ordered_array m i a ≡ (m', record a { size = a.size + 1 }))
      × (items m' (record a { size = a.size + 1 }) ≡ unlisted m a i)
      × ((b : ℕ) → Outside a a.size b → m' b ≡ m b)
unfolding remove_ordered_array
removed m a i inside small =
    let (grown, left) = remove-items m a i inside small in
    let m' = (remove_ordered_array m i a).0 in
    (
      m',
      ap (λ (b : OrderedArray). (m', b)) grown,
      ap (items m') (sym grown) ∙ left,
      λ b h. remove-Outside m a i b (omega arith) h,
    )

-- `alloc_from` without alignment, at a header that is as large as the request: up to the rest.
module _ (k : Kernel) (iterator pos hs : ℕ) (m' : Memory) (a' : OrderedArray) (size : ℕ) where
  alloc_from-splits :
      iterator < k.kheap.index.size
      → load32 k.memory (slot k.kheap.index iterator) ≡ pos
      → header_block_size k.memory pos ≡ hs
      → remove_ordered_array k.memory iterator k.kheap.index ≡ (m', a')
      → size + 40 ≤ hs
      → pos + hs < 2 ^ 32
      → alloc_from size (size + 20) false k iterator ≡ (
          split_rest
            (write_block m' pos size (size + 20), a')
            k.kheap.end_address
            pos
            size
            (size + 20)
            hs
          >>= λ s. ok (pos + 12, with_store k s))
  unfolding alloc_from fit take_hole
  alloc_from-splits valid at_pos at_size rem room fits =
      let e1 = lookup_in_range k.memory iterator k.kheap.index valid in
      let e2 : ltb (sub32 hs (size + 20)) 20 ≡ false = ground arith in
      let e3 : u32 (pos + 12) ≡ pos + 12 = omega arith in rw (e1, at_pos, at_size, e2, rem, e3) refl

  alloc_from-whole :
      iterator < k.kheap.index.size
      → load32 k.memory (slot k.kheap.index iterator) ≡ pos
      → header_block_size k.memory pos ≡ hs
      → remove_ordered_array k.memory iterator k.kheap.index ≡ (m', a')
      → size + 20 ≤ hs
      → hs < size + 40
      → pos + hs < 2 ^ 32
      → alloc_from size (size + 20) false k iterator
        ≡ ok (pos + 12, with_store k (write_block m' pos (hs - 20) (hs - 20 + 20), a'))
  unfolding alloc_from fit take_hole split_rest
  alloc_from-whole valid at_pos at_size rem room tight fits =
      let e1 = lookup_in_range k.memory iterator k.kheap.index valid in
      let e2 : ltb (sub32 hs (size + 20)) 20 ≡ true = ground arith in
      let e3 : u32 (pos + 12) ≡ pos + 12 = omega arith in
      let e4 : u32 (size + sub32 hs (size + 20)) ≡ hs - 20 = omega arith in
      let e5 : sub32 hs hs ≡ 0 = omega arith in
      let e6 : hs - 20 + 20 ≡ hs = omega arith in
      rw (e1, at_pos, at_size, e2, rem, e3, e4, e5, e6) refl

-- How the request is served from place `i` of the index, where the hole at `pos` stood. Either the
-- whole hole became a block, and the index only lost it; or a block of the request stands there with a
-- hole of the rest behind it, and that hole has joined the index in front of the first that is not
-- less, by a memory that differs from the last one in the index alone.
abbrev pub Served : Kernel → LessThan → (i : ℕ) → Kernel → (pos hs size : ℕ) → Type 0
Served k less i k' pos hs size =
    let a = k.kheap.index in
    let left = unlisted k.memory a i in
    ((hs < size + 40)
      × IsBlock k'.memory pos 0 hs
      × (k'.kheap.index ≡ record a { size = a.size + 1 })
      × (items k'.memory k'.kheap.index ≡ left))
    ⊎ ((size + 40 ≤ hs)
        × IsBlock k'.memory pos 0 (size + 20)
        × IsBlock k'.memory (pos + (size + 20)) 1 (hs - (size + 20))
        × (k'.kheap.index ≡ record a { size = a.size + 1 + 1 })
        × ((m : Memory) × (items k'.memory k'.kheap.index
              ≡ insert_by (less m) (pos + (size + 20)) left)
            × ((b : ℕ) → Outside a (a.size + 2) b → k'.memory b ≡ m b)))

-- Nothing of the kernel's state changes but memory and the index of the heap.
abbrev pub OnlyIndex : Kernel → Kernel → Type 0
OnlyIndex k k' =
    k' ≡ record k { memory = k'.memory; kheap = record k.kheap { index = k'.kheap.index } }

with_store-OnlyIndex : (k : Kernel) (s : Store) → OnlyIndex k (with_store k s)
with_store-OnlyIndex k (m, a) = refl

-- `alloc` without alignment, from a hole of the index that is large enough and lies in the heap, the
-- index below it with room for two more words: it returns the address behind the header, and has
-- served the request; nothing but the index and the old hole is changed.
pub alloc_from_lem :
    (k : Kernel) (less : LessThan) (iterator pos hs size : ℕ)
    → k.kheap.index.less_than ≡ some less
    → iterator < k.kheap.index.size
    → load32 k.memory (slot k.kheap.index iterator) ≡ pos
    → header_block_size k.memory pos ≡ hs
    → size + 20 ≤ hs
    → slot k.kheap.index (k.kheap.index.size + 2) ≤ pos
    → pos + hs ≤ k.kheap.end_address
    → k.kheap.end_address < 2 ^ 32
    → (k' : Kernel) × (alloc_from size (size + 20) false k iterator ≡ ok (pos + 12, k'))
      × OnlyIndex k k'
      × Served k less iterator k' pos hs size
      × ((b : ℕ)
          → Outside k.kheap.index (k.kheap.index.size + 2) b
          → (b < pos) ⊎ (pos + hs ≤ b)
          → k'.memory b ≡ k.memory b)
alloc_from_lem k less iterator pos hs size order valid at_pos at_size room below inside fits =
    let index = k.kheap.index in
    let (m', gone, left, kept) = removed k.memory index iterator valid (omega arith) in
    let a' : OrderedArray = record index { size = index.size + 1 } in
    elim (Bool-cases (ltb hs (size + 40))) [
      | inl t ↦
          let m1 = write_block m' pos (hs - 20) (hs - 20 + 20) in
          let (block, outside) = write_block_lem m' pos (hs - 20) (omega arith) in
          (
            with_store k (m1, a'),
            alloc_from-whole k iterator pos hs m' a' size valid at_pos at_size gone room
                (ground arith) (omega arith),
            with_store-OnlyIndex k (m1, a'),
            inl (
              ground arith,
              subst (λ (n : ℕ). IsBlock m1 pos 0 n) {x = hs - 20 + 20} (omega arith) block,
              refl,
              words-same m' m1 index.array (index.size + 1) (λ b p q. outside b (inl (omega arith)))
                  ∙ left,
            ),
            λ b out apart. outside b (omega arith) ∙ kept b (omega arith),
          )
      | inr f ↦
          let large : size + 40 ≤ hs = ground arith in
          let m1 = write_block m' pos size (size + 20) in
          let (block, outside) = write_block_lem m' pos size (omega arith) in
          let (s, done, hole, grown, (m2, sorted, alike), same) =
            split_rest_lem m1 a' less k.kheap.end_address pos size hs order (omega arith) large
              inside fits in
          (
            with_store k s,
            alloc_from-splits k iterator pos hs m' a' size valid at_pos at_size gone large
                  (omega arith)
                ∙ ap (λ o. o >>= λ s. ok (pos + 12, with_store k s)) done,
            with_store-OnlyIndex k s,
            inr (
              large,
              IsBlock-same m1 s.0 pos 0 (size + 20) (omega arith)
                  (λ b p q. same b (inr (omega arith)) (inl (omega arith))) block,
              hole,
              grown,
              (
                m2,
                sorted
                    ∙ ap (insert_by (less m2) (pos + (size + 20))) (
                        words-same m' m1 index.array (index.size + 1)
                          (λ b p q. outside b (inl (omega arith)))
                        ∙ left),
                λ b out. alike b (omega arith),
              ),
            ),
            λ b out apart.
                same b (omega arith) (omega arith) ∙ outside b (omega arith) ∙ kept b (omega arith),
          )
    ]
