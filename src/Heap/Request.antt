-- ===== src/Heap/Request.antt =====
-- `alloc` on a heap whose index has a hole for the request.
use fotix.Base.{
  ℕ, suc, ◌+◌, ◌^◌, ◌≤◌, ◌<◌, ◌≡◌, refl, ap, ◌∙◌, arith, ◌⊎◌, false, none, some, ok, u32,
}
use fotix.Memory.{load32}
use fotix.OrderedArray.{LessThan, slot}
use fotix.OrderedArray.Frame.{Outside}
use fotix.Kernel.{Kernel, header_size, footer_size, header_block_size}
use fotix.Heap.Find.{hole_fits, find_smallest_hole}
use fotix.Heap.Alloc.{alloc, alloc_from}
use fotix.Heap.Serve.{Served, OnlyIndex, alloc_from_lem}
use fotix.Heap.Smallest.{FirstAt, fits_at, find_smallest_hole_lem}

-- The header at a place of the index, and its size.
abbrev pub hole_at : Kernel → ℕ → ℕ
hole_at k i = load32 k.memory (slot k.kheap.index i)

abbrev pub size_at : Kernel → ℕ → ℕ
size_at k i = header_block_size k.memory (hole_at k i)

-- Every hole of the index lies between the index, with two more words, and the end of the heap.
pub record HolesInside (k : Kernel) : Type 0 where
  pub below :
      (i : ℕ) → i < k.kheap.index.size → slot k.kheap.index (k.kheap.index.size + 2) ≤ hole_at k i
  pub above : (i : ℕ) → i < k.kheap.index.size → hole_at k i + size_at k i ≤ k.kheap.end_address
  pub end_fits : k.kheap.end_address < 2 ^ 32

alloc-found :
    (fuel size iterator : ℕ) (k : Kernel)
    → let new_size = u32 (size + header_size + footer_size) in
      find_smallest_hole k.memory k.kheap new_size false ≡ ok (some iterator)
      → alloc (suc fuel) size false k ≡ alloc_from size new_size false k iterator
unfolding alloc
alloc-found fuel size iterator k found = rw found refl

-- What the search finds where place `i` holds the request: a place not behind it that does as well.
find-serves :
    (k : Kernel) (size i : ℕ)
    → i < k.kheap.index.size
    → size + 20 ≤ size_at k i
    → (iterator : ℕ) × (find_smallest_hole k.memory k.kheap (size + 20) false ≡ ok (some iterator))
      × (iterator ≤ i)
      × (size + 20 ≤ size_at k iterator)
      × ((j : ℕ) → j < iterator → size_at k j < size + 20)
unfolding hole_fits
find-serves k size i valid room =
    let (r, ran, first) = find_smallest_hole_lem k.memory k.kheap (size + 20) false in
    elim r
        as (λ r.
          find_smallest_hole k.memory k.kheap (size + 20) false ≡ ok r
          → FirstAt (fits_at k.memory k.kheap.index (size + 20) false) 0 k.kheap.index.size r
          → (iterator : ℕ) × (find_smallest_hole k.memory k.kheap (size + 20) false
              ≡ ok (some iterator))
            × (iterator ≤ i)
            × (size + 20 ≤ size_at k iterator)
            × ((j : ℕ) → j < iterator → size_at k j < size + 20)) [
              | none ↦ λ ran nowhere. absurd (ground (arith, nowhere i))
              | some n ↦ λ ran first.
                  let (lo, hi, hit, before) = first in
                  (n, ran, ground (arith, before i), ground arith, λ j p. ground (arith, before j))
            ]
      ran first

-- Where the index has a predicate, its holes lie between it, with room for two more words, and the
-- end of the heap, and some hole of it holds the request with its header and its footer, `alloc`
-- without alignment returns, with fuel 1 or more: it takes the first such hole of the index, returns
-- the address behind its header and leaves there a block, with a hole behind it where the rest has
-- room for one. The index has lost the old hole, but counts one item more, the word behind it twice at
-- its end; then the new hole has joined it in front of the first that is not less. No byte but those of
-- the index and of the old hole changes, and nothing else of the kernel's state.
pub alloc_lem :
    (fuel size i : ℕ) (k : Kernel) (less : LessThan)
    → HolesInside k
    → k.kheap.index.less_than ≡ some less
    → i < k.kheap.index.size
    → size + 20 ≤ size_at k i
    → (n : ℕ) × (k' : Kernel) × (alloc (suc fuel) size false k ≡ ok (hole_at k n + 12, k'))
      × (n ≤ i)
      × (size + 20 ≤ size_at k n)
      × ((j : ℕ) → j < n → size_at k j < size + 20)
      × OnlyIndex k k'
      × Served k less n k' (hole_at k n) (size_at k n) size
      × ((b : ℕ)
          → Outside k.kheap.index (k.kheap.index.size + 2) b
          → (b < hole_at k n) ⊎ (hole_at k n + size_at k n ≤ b)
          → k'.memory b ≡ k.memory b)
alloc_lem fuel size i k less inside order valid room =
    let (n, found, le, fits, first) = find-serves k size i valid room in
    let valid' : n < k.kheap.index.size = omega arith in
    let below = inside.below n valid' in
    let above = inside.above n valid' in
    let end_fits = inside.end_fits in
    let e : u32 (size + header_size + footer_size) ≡ size + 20 = omega arith in
    let (k', ran, only, served, kept) =
      alloc_from_lem k less n (hole_at k n) (size_at k n) size order valid' refl refl fits below
        above end_fits in
    (
      n,
      k',
      alloc-found fuel size n k
            (ap (λ (s : ℕ). find_smallest_hole k.memory k.kheap s false) e ∙ found)
          ∙ ap (λ (s : ℕ). alloc_from size s false k n) e
          ∙ ran,
      le,
      fits,
      first,
      only,
      served,
      kept,
    )
