-- ===== src/Paging/Clone/Shared.antt =====
-- The clone of a directory all of whose tables are the kernel's.
use fotix.Base.{
  ℕ, zero, suc, ◌+◌, ◌^◌, ◌≤◌, ◌<◌, ◌≡◌, refl, ◌∙◌, arith, ◌⊎◌, inl, inr, true, false, Bool-cases,
  ◌==◌, if◌then◌else◌, ok, u32,
}
use fotix.Memory.{Memory, load32, store32, memset}
use fotix.Memory.Words.{load32-store32, load32-store32_apart, store32-outside}
use fotix.Memory.Blocks.{memset_lem, load32-memset_zero, load32-memset_apart}
use fotix.Kernel.{Kernel}
use fotix.Paging.Directory.{Kmalloc, table_slot, physical_slot, get_page}
use fotix.Paging.Directory.Pages.{table_of}
use fotix.Paging.Clone.{
  CopyPage, directory_size, physical_address, clone_entry, clone_entries, clone_directory,
}
use fotix.Paging.Clone.Share.{
  Beside, share, share_all, share-word, share_all-outside, share_all-word, share_all-table,
  share_all-physical,
}

-- Every table that is there is the kernel's.
abbrev pub KernelOnly : Memory → (kernel_directory src : ℕ) → Type 0
KernelOnly m kernel_directory src =
    (j : ℕ)
    → j < 1024
    → (load32 m (table_slot src j) ≡ 0)
      ⊎ (load32 m (table_slot kernel_directory j) ≡ load32 m (table_slot src j))

clone_entry-share :
    (kmalloc_ap : Kmalloc) (copy_page_physical : CopyPage) (i src dir : ℕ) (k : Kernel)
    → (load32 k.memory (table_slot src i) ≡ 0)
      ⊎ (load32 k.memory (table_slot k.kernel_directory i) ≡ load32 k.memory (table_slot src i))
    → clone_entry kmalloc_ap copy_page_physical i src dir k
      ≡ ok (record k { memory = share k.memory src dir i })
unfolding clone_entry share
clone_entry-share kmalloc_ap copy_page_physical i src dir k h =
    let table = load32 k.memory (table_slot src i) in
    elim (Bool-cases (table == 0)) [
      | inl none ↦ rw none refl
      | inr some ↦
          let kernel : (load32 k.memory (table_slot k.kernel_directory i) == table) ≡ true =
            ground arith in
          rw (some, kernel) refl
    ]

clone_entries-share :
    (kmalloc_ap : Kmalloc) (copy_page_physical : CopyPage) (rounds i src dir : ℕ) (k : Kernel)
    → i + rounds ≤ 1024
    → Beside dir src
    → Beside dir k.kernel_directory
    → KernelOnly k.memory k.kernel_directory src
    → clone_entries kmalloc_ap copy_page_physical rounds i src dir k
      ≡ ok (record k { memory = share_all k.memory src dir rounds i })
unfolding clone_entries share_all
clone_entries-share kmalloc_ap copy_page_physical zero i src dir k h p q only = refl
clone_entries-share kmalloc_ap copy_page_physical (suc rounds) i src dir k h p q only =
    let m = share k.memory src dir i in
    let src_word = λ (j : ℕ) (l : j < 1024).
      share-word src dir p k.memory i (table_slot src j) (omega arith) (omega arith) in
    let kernel_word = λ (j : ℕ) (l : j < 1024).
      share-word src dir p k.memory i (table_slot k.kernel_directory j) (omega arith)
        (omega arith) in
    rw (clone_entry-share kmalloc_ap copy_page_physical i src dir k (only i (omega arith))) (
      clone_entries-share kmalloc_ap copy_page_physical rounds (i + 1) src dir
        (record k { memory = m }) (omega arith) p q
        (λ j l. ground (arith, only j l, src_word j l, kernel_word j l)))

clone_directory-eq :
    (kmalloc_ap : Kmalloc) (copy_page_physical : CopyPage) (src dir phys : ℕ) (k k1 k2 : Kernel)
    → kmalloc_ap k directory_size ≡ ok (dir, phys, k1)
    → (let m = memset k1.memory dir 0 directory_size in
        let m' = store32 m (physical_address dir) (u32 (phys + 4096)) in
        clone_entries kmalloc_ap copy_page_physical 1024 0 src dir (record k1 { memory = m' })
        ≡ ok k2)
    → clone_directory kmalloc_ap copy_page_physical src k ≡ ok (dir, k2)
unfolding clone_directory
clone_directory-eq kmalloc_ap copy_page_physical src dir phys k k1 k2 got done = rw (got, done) refl

get_page-same :
    (kmalloc_ap : Kmalloc) (k : Kernel) (address dir src : ℕ)
    → load32 k.memory (table_slot dir (table_of address))
      ≡ load32 k.memory (table_slot src (table_of address))
    → get_page kmalloc_ap k address false dir ≡ get_page kmalloc_ap k address false src
unfolding get_page
get_page-same kmalloc_ap k address dir src same = rw same refl

-- A directory of which every table is the kernel's, and memory for the clone beside both directories:
-- `clone_directory` returns a directory that leads each address to the same page as the source, by a
-- physical entry that is the source's where there is a table and empty elsewhere. Its physical
-- address is that of its physical entries. No byte outside the clone changes.
pub clone_directory_lem :
    (kmalloc_ap : Kmalloc) (copy_page_physical : CopyPage) (src dir phys : ℕ) (k k1 : Kernel)
    → kmalloc_ap k directory_size ≡ ok (dir, phys, k1)
    → Beside dir src
    → Beside dir k1.kernel_directory
    → KernelOnly k1.memory k1.kernel_directory src
    → (k2 : Kernel) × (clone_directory kmalloc_ap copy_page_physical src k ≡ ok (dir, k2))
      × ((address : ℕ)
          → address < 2 ^ 32
          → (get_page kmalloc_ap k2 address false dir ≡ get_page kmalloc_ap k2 address false src)
            × (load32 k2.memory (physical_slot dir (table_of address)) ≡ (
                if load32 k2.memory (table_slot src (table_of address)) == 0
                then 0
                else load32 k2.memory (physical_slot src (table_of address)))))
      × (load32 k2.memory (physical_address dir) ≡ u32 (phys + 4096))
      × ((b : ℕ) → (b < dir) ⊎ (dir + 8196 ≤ b) → k2.memory b ≡ k1.memory b)
clone_directory_lem kmalloc_ap copy_page_physical src dir phys k k1 got p q only = (
  record k1 { memory = after },
  clone_directory-eq kmalloc_ap copy_page_physical src dir phys k k1 (record k1 { memory = after })
      got shared,
  λ address h. (
    get_page-same kmalloc_ap (record k1 { memory = after }) address dir src
        (table_entry (table_of address) (omega arith)),
    physical_entry (table_of address) (omega arith),
  ),
  share_all-word src dir p before 1024 0 (physical_address dir) (omega arith) (omega arith)
      ∙ load32-store32 cleared (physical_address dir) (u32 (phys + 4096)) (omega arith),
  λ b out.
      share_all-outside src dir p before 1024 0 b (omega arith) (omega arith)
      ∙ store32-outside cleared (physical_address dir) (u32 (phys + 4096)) b (omega arith)
      ∙ ground (arith, memset_lem k1.memory dir 0 directory_size b),
)
  where
    cleared : Memory
    cleared = memset k1.memory dir 0 directory_size

    before : Memory
    before = store32 cleared (physical_address dir) (u32 (phys + 4096))

    after : Memory
    after = share_all before src dir 1024 0

    kept : (a : ℕ) → (a + 4 ≤ dir) ⊎ (dir + 8196 ≤ a) → load32 before a ≡ load32 k1.memory a
    kept a out =
        load32-store32_apart cleared (physical_address dir) (u32 (phys + 4096)) a (omega arith)
        ∙ load32-memset_apart k1.memory dir 0 directory_size a (omega arith)

    kept_kernel : KernelOnly before k1.kernel_directory src
    kept_kernel j l =
        let src_word = kept (table_slot src j) (omega arith) in
        let kernel_word = kept (table_slot k1.kernel_directory j) (omega arith) in
        ground (arith, only j l, src_word, kernel_word)

    shared :
        clone_entries kmalloc_ap copy_page_physical 1024 0 src dir (record k1 { memory = before })
        ≡ ok (record k1 { memory = after })
    shared =
        clone_entries-share kmalloc_ap copy_page_physical 1024 0 src dir
          (record k1 { memory = before }) (omega arith) p q kept_kernel

    empty : (a : ℕ) → dir ≤ a → a + 4 ≤ dir + 8192 → load32 before a ≡ 0
    empty a l h =
        load32-store32_apart cleared (physical_address dir) (u32 (phys + 4096)) a (omega arith)
        ∙ load32-memset_zero k1.memory dir directory_size a l (omega arith)

    src_same :
        (j : ℕ) → j < 1024 → load32 after (table_slot src j) ≡ load32 before (table_slot src j)
    src_same j l =
        share_all-word src dir p before 1024 0 (table_slot src j) (omega arith) (omega arith)

    phys_same :
        (j : ℕ)
        → j < 1024
        → load32 after (physical_slot src j) ≡ load32 before (physical_slot src j)
    phys_same j l =
        share_all-word src dir p before 1024 0 (physical_slot src j) (omega arith) (omega arith)

    table_entry :
        (j : ℕ) → j < 1024 → load32 after (table_slot dir j) ≡ load32 after (table_slot src j)
    table_entry j l = ground (
      arith,
      src_same j l,
      share_all-table src dir p before 1024 0 j (omega arith) l,
      empty (table_slot dir j) (omega arith) (omega arith),
    )

    physical_entry :
        (j : ℕ)
        → j < 1024
        → load32 after (physical_slot dir j)
          ≡ (if load32 after (table_slot src j) == 0 then 0 else load32 after (physical_slot src j))
    physical_entry j l = ground (
      arith,
      src_same j l,
      phys_same j l,
      share_all-physical src dir p before 1024 0 j (omega arith) l,
      empty (physical_slot dir j) (omega arith) (omega arith),
    )
