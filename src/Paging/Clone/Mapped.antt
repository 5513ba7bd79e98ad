-- ===== src/Paging/Clone/Mapped.antt =====
-- The clone of a table that is full.
use fotix.Base.{
  ℕ, zero, suc, ◌+◌, ◌*◌, ◌≤◌, ◌<◌, ◌≡◌, ◌≢◌, refl, ap, arith, ◌⊎◌, ok, ◌&&◌, leb, ltb,
  if◌then◌else◌,
}
use fotix.Memory.{Memory, load32, memset}
use fotix.Memory.Blocks.{memset_lem, load32-memset_zero, load32-memset_apart}
use fotix.Kernel.{Kernel}
use fotix.Paging.Page.{load_page, page_of_word}
use fotix.Paging.Directory.{Kmalloc, table_size}
use fotix.Paging.Clone.{CopyPage, directory_size, clone_page, clone_pages, clone_table}

clone_page-mapped :
    (copy_page_physical : CopyPage) (src dest : ℕ) (k : Kernel)
    → (load_page k.memory src).frame ≢ 0
    → clone_page copy_page_physical src dest k ≡ ok k
unfolding clone_page
clone_page-mapped copy_page_physical src dest k h = ground arith

clone_pages-mapped :
    (copy_page_physical : CopyPage) (rounds i src table : ℕ) (k : Kernel)
    → ((j : ℕ) → j < i + rounds → (load_page k.memory (src + 4 * j)).frame ≢ 0)
    → clone_pages copy_page_physical rounds i src table k ≡ ok k
unfolding clone_pages
clone_pages-mapped copy_page_physical zero i src table k h = refl
clone_pages-mapped copy_page_physical (suc rounds) i src table k h =
    rw (clone_page-mapped copy_page_physical (src + 4 * i) (table + 4 * i) k (h i (omega arith)))
      (clone_pages-mapped copy_page_physical rounds (i + 1) src table k (λ j l. h j (omega arith)))

clone_table-eq :
    (kmalloc_ap : Kmalloc) (copy_page_physical : CopyPage) (src table phys : ℕ) (k k1 k2 : Kernel)
    → kmalloc_ap k table_size ≡ ok (table, phys, k1)
    → clone_pages copy_page_physical 1024 0 src table
        (record k1 { memory = memset k1.memory table 0 directory_size })
      ≡ ok k2
    → clone_table kmalloc_ap copy_page_physical src k ≡ ok (table, phys, k2)
unfolding clone_table
clone_table-eq kmalloc_ap copy_page_physical src table phys k k1 k2 got done = rw (got, done) refl

page-word : (m : Memory) (a w : ℕ) → load32 m a ≡ w → load_page m a ≡ page_of_word w
unfolding load_page
page-word m a w e = ap page_of_word e

frame-same :
    (m m' : Memory) (a : ℕ)
    → load32 m' a ≡ load32 m a
    → (load_page m a).frame ≢ 0
    → (load_page m' a).frame ≢ 0
unfolding load_page
frame-same m m' a same h = ground (arith, ap page_of_word same)

-- Where every page of the source has a frame, and the source lies apart from what is cleared:
-- `clone_table` returns a table with no page at all, takes no frame, and clears the 4100 bytes behind
-- the new table too; nothing else changes.
pub clone_table_lem :
    (kmalloc_ap : Kmalloc) (copy_page_physical : CopyPage) (src table phys : ℕ) (k k1 : Kernel)
    → kmalloc_ap k table_size ≡ ok (table, phys, k1)
    → (src + 4096 ≤ table) ⊎ (table + 8196 ≤ src)
    → ((j : ℕ) → j < 1024 → (load_page k1.memory (src + 4 * j)).frame ≢ 0)
    → (k2 : Kernel) × (clone_table kmalloc_ap copy_page_physical src k ≡ ok (table, phys, k2))
      × ((j : ℕ) → j < 1024 → load_page k2.memory (table + 4 * j) ≡ page_of_word 0)
      × ((b : ℕ)
          → k2.memory b ≡ (if leb table b && ltb b (table + 4096 + 4100) then 0 else k1.memory b))
clone_table_lem kmalloc_ap copy_page_physical src table phys k k1 got apart mapped =
    let cleared = memset k1.memory table 0 directory_size in
    let kept = λ (j : ℕ) (l : j < 1024).
      load32-memset_apart k1.memory table 0 directory_size (src + 4 * j) (omega arith) in
    (
      record k1 { memory = cleared },
      clone_table-eq kmalloc_ap copy_page_physical src table phys k k1
          (record k1 { memory = cleared }) got
          (clone_pages-mapped copy_page_physical 1024 0 src table (record k1 { memory = cleared })
            (λ j l.
              frame-same k1.memory cleared (src + 4 * j) (kept j (omega arith))
                (mapped j (omega arith)))),
      λ j l. page-word cleared (table + 4 * j) 0 (
          load32-memset_zero k1.memory table directory_size (table + 4 * j) (omega arith)
            (omega arith)),
      λ b. ground (arith, memset_lem k1.memory table 0 directory_size b),
    )
