-- ===== src/Paging/Directory/Pages.antt =====
-- `get_page` makes a page table once.
use fotix.Base.{
  ℕ, ◌+◌, ◌*◌, ◌/◌, ◌%◌, ◌^◌, ◌≤◌, ◌<◌, ◌≡◌, ◌≢◌, ◌∙◌, arith, Bool, true, ◌⊎◌, ok, bit_or,
}
use fotix.Memory.{Memory, load32, store32, memset}
use fotix.Memory.Words.{load32-store32, load32-store32_apart}
use fotix.Memory.Blocks.{load32-memset_zero, load32-memset_apart}
use fotix.Base.Bits.{bit_or-lt}
use fotix.Kernel.{Kernel}
use fotix.Paging.Directory.{Kmalloc, table_slot, physical_slot, table_size, make_table, get_page}

-- The page that an address lies in, its table's place in the directory, and its place in the table.
abbrev pub table_of : ℕ → ℕ
table_of address = address / 0x1000 / 1024

abbrev pub page_in : (table address : ℕ) → ℕ
page_in table address = table + 4 * (address / 0x1000 % 1024)

-- A page whose table is there.
pub get_page-present :
    (kmalloc_ap : Kmalloc) (k : Kernel) (address : ℕ) (make : Bool) (dir table : ℕ)
    → load32 k.memory (table_slot dir (table_of address)) ≡ table
    → table ≢ 0
    → get_page kmalloc_ap k address make dir ≡ ok (page_in table address, k)
unfolding get_page
get_page-present kmalloc_ap k address make dir table entry there = ground arith

-- The memory after `make_table`, from the memory that the allocation left.
abbrev pub with_table : Memory → (dir i table phys : ℕ) → Memory
with_table m dir i table phys =
    store32 (memset (store32 m (table_slot dir i) table) table 0 0x1000) (physical_slot dir i)
      (bit_or phys 0x7)

pub get_page-made :
    (kmalloc_ap : Kmalloc) (k k' : Kernel) (address dir table phys : ℕ)
    → load32 k.memory (table_slot dir (table_of address)) ≡ 0
    → kmalloc_ap k table_size ≡ ok (table, phys, k')
    → get_page kmalloc_ap k address true dir
      ≡ ok (
        page_in table address,
        record k' { memory = with_table k'.memory dir (table_of address) table phys },
      )
unfolding get_page make_table
get_page-made kmalloc_ap k k' address dir table phys missing made = ground arith

-- What is read afterwards where the table lies apart from the directory: zeroes in the table, its
-- address in the directory, and all else as before.
module _ (m : Memory) (dir i table phys : ℕ) (inside : i < 1024)
    (apart : (dir + 8196 ≤ table) ⊎ (table + 4096 ≤ dir)) where
  pub with_table-zero :
      (a : ℕ) → table ≤ a → a + 4 ≤ table + 4096 → load32 (with_table m dir i table phys) a ≡ 0
  with_table-zero a lo hi =
      let entered = store32 m (table_slot dir i) table in
      load32-store32_apart (memset entered table 0 0x1000) (physical_slot dir i) (bit_or phys 0x7) a
        (omega arith)
      ∙ load32-memset_zero entered table 0x1000 a (omega arith) (omega arith)

  pub with_table-same :
      (a : ℕ)
      → (a + 4 ≤ table) ⊎ (table + 4096 ≤ a)
      → (a + 4 ≤ dir) ⊎ (dir + 8192 ≤ a)
      → load32 (with_table m dir i table phys) a ≡ load32 m a
  with_table-same a p q =
      let entered = store32 m (table_slot dir i) table in
      load32-store32_apart (memset entered table 0 0x1000) (physical_slot dir i) (bit_or phys 0x7) a
        (omega arith)
      ∙ load32-memset_apart entered table 0 0x1000 a (omega arith)
      ∙ load32-store32_apart m (table_slot dir i) table a (omega arith)

  pub with_table-other :
      (j : ℕ)
      → j < 1024
      → j ≢ i
      → load32 (with_table m dir i table phys) (table_slot dir j) ≡ load32 m (table_slot dir j)
  with_table-other j h ne =
      let entered = store32 m (table_slot dir i) table in
      load32-store32_apart (memset entered table 0 0x1000) (physical_slot dir i) (bit_or phys 0x7)
        (table_slot dir j) (omega arith)
      ∙ load32-memset_apart entered table 0 0x1000 (table_slot dir j) (omega arith)
      ∙ load32-store32_apart m (table_slot dir i) table (table_slot dir j) (omega (arith, ne))

  pub with_table-entry :
      table < 2 ^ 32 → load32 (with_table m dir i table phys) (table_slot dir i) ≡ table
  with_table-entry fits =
      let entered = store32 m (table_slot dir i) table in
      load32-store32_apart (memset entered table 0 0x1000) (physical_slot dir i) (bit_or phys 0x7)
        (table_slot dir i) (omega arith)
      ∙ load32-memset_apart entered table 0 0x1000 (table_slot dir i) (omega arith)
      ∙ load32-store32 m (table_slot dir i) table fits

-- Where the table of an address is missing, `get_page` with `make` enters the table that `kmalloc_ap`
-- gave it, which lies apart from the directory: every entry of the new table is zero, the physical
-- entry is marked present, writable and for users, and from then on `get_page` finds the same page,
-- whether or not it may make a table, and changes nothing.
pub get_page_lem :
    (kmalloc_ap : Kmalloc) (k k' : Kernel) (address dir table phys : ℕ)
    → load32 k.memory (table_slot dir (table_of address)) ≡ 0
    → kmalloc_ap k table_size ≡ ok (table, phys, k')
    → address < 2 ^ 32
    → table ≢ 0
    → table < 2 ^ 32
    → phys < 2 ^ 32
    → (dir + 8196 ≤ table) ⊎ (table + 4096 ≤ dir)
    → (k'' : Kernel) × (get_page kmalloc_ap k address true dir ≡ ok (page_in table address, k''))
      × ((i : ℕ) → i < 1024 → load32 k''.memory (table + 4 * i) ≡ 0)
      × (load32 k''.memory (physical_slot dir (table_of address)) ≡ bit_or phys 0x7)
      × ((other : Kmalloc) (make : Bool)
          → get_page other k'' address make dir ≡ ok (page_in table address, k''))
get_page_lem kmalloc_ap k k' address dir table phys missing made small there fits fits' apart = (
  after,
  get_page-made kmalloc_ap k k' address dir table phys missing made,
  λ i h.
      with_table-zero k'.memory dir n table phys (omega arith) apart (table + 4 * i) (omega arith)
        (omega arith),
  load32-store32 cleared (physical_slot dir n) (bit_or phys 0x7)
      (bit_or-lt 32 phys 0x7 fits' (omega arith)),
  λ other make.
      get_page-present other after address make dir table
        (with_table-entry k'.memory dir n table phys (omega arith) apart fits) there,
)
  where
    n : ℕ
    n = table_of address

    cleared : Memory
    cleared = memset (store32 k'.memory (table_slot dir n) table) table 0 0x1000

    after : Kernel
    after = record k' { memory = with_table k'.memory dir n table phys }
