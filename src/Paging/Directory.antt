-- ===== src/Paging/Directory.antt =====
-- `get_page` of sys/paging.c: the address of a page's entry, through a `page_directory_t` in memory.
-- Its `tables` are the first 1024 words, its `tablesPhysical` the next, and `physicalAddr` the last.
pub mod Pages
mod Tests
use fotix.Base.{
  ℕ, ◌+◌, ◌*◌, ◌/◌, ◌%◌, Bool, true, false, ◌==◌, not, if◌then◌else◌, Outcome, ok, ◌>>=◌, bit_or,
}
use fotix.Memory.{Memory, load32, store32, memset}
use fotix.Kernel.{Kernel}

-- `kmalloc_ap (sz, &phys)`: the address, the physical address, and the kernel afterwards.
abbrev pub Kmalloc : Type 0
Kmalloc = Kernel → (sz : ℕ) → Outcome (ℕ × ℕ × Kernel)

-- `&dir->tables[i]` and `&dir->tablesPhysical[i]`.
abbrev pub table_slot : (dir i : ℕ) → ℕ
table_slot dir i = dir + 4 * i

abbrev pub physical_slot : (dir i : ℕ) → ℕ
physical_slot dir i = dir + 4096 + 4 * i

-- `sizeof (page_table_t)`.
abbrev pub table_size : ℕ
table_size = 4096

-- A new, empty table is entered in the directory: PRESENT, RW, US.
unfoldable pub make_table : Kmalloc → Kernel → (dir table_idx : ℕ) → Outcome (ℕ × Kernel)
make_table kmalloc_ap k dir table_idx = do
  (table, phys, k') ← kmalloc_ap k table_size
  let m = memset (store32 k'.memory (table_slot dir table_idx) table) table 0 0x1000
  ok (table, record k' { memory = store32 m (physical_slot dir table_idx) (bit_or phys 0x7) })

unfoldable pub get_page :
    Kmalloc → Kernel → (address : ℕ) (make : Bool) (dir : ℕ) → Outcome (ℕ × Kernel)
get_page kmalloc_ap k address make dir =
    let page = address / 0x1000 in
    let table_idx = page / 1024 in
    let table = load32 k.memory (table_slot dir table_idx) in
    let made : Outcome (ℕ × Kernel) = (do
      (table', k') ← make_table kmalloc_ap k dir table_idx
      ok (table' + 4 * (page % 1024), k')) in
    if not (table == 0) then ok (table + 4 * (page % 1024), k) else if make then made else ok (0, k)
