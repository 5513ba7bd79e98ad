-- ===== src/Paging/Clone.antt =====
-- `clone_table` and `clone_directory` of sys/paging.c. `copy_page_physical` of sys/process.s, which
-- copies a frame while paging is off, is an argument: it reaches memory by physical addresses.
pub mod Share
pub mod Shared
pub mod Mapped
mod Tests
use fotix.Base.{
  ℕ, zero, suc, ◌+◌, ◌*◌, true, false, some, none, ◌==◌, not, if◌then◌else◌, Outcome, ok, defined,
  ◌>>=◌, u32, bit_or,
}
use fotix.Memory.{Memory, load32, store32, memset}
use fotix.Kernel.{Kernel}
use fotix.Paging.Page.{Page, load_page, store_page, alloc_frame}
use fotix.Paging.Directory.{Kmalloc, table_slot, physical_slot, table_size}

-- `copy_page_physical (src, dest)`, on the memory.
abbrev pub CopyPage : Type 0
CopyPage = (src dest : ℕ) → Memory → Memory

-- `sizeof (page_directory_t)`: two tables of 1024 words, and `physicalAddr`.
abbrev pub directory_size : ℕ
directory_size = 8196

abbrev pub physical_address : (dir : ℕ) → ℕ
physical_address dir = dir + 8192

-- The flags of the source that are set are set in the clone as well.
unfoldable pub clone_flags : (src dest : Page) → Page
clone_flags src dest = record dest {
  present = if src.present == 0 then dest.present else 1;
  rw = if src.rw == 0 then dest.rw else 1;
  user = if src.user == 0 then dest.user else 1;
  accessed = if src.accessed == 0 then dest.accessed else 1;
  dirty = if src.dirty == 0 then dest.dirty else 1;
}

-- A round of the loop of `clone_table`, for two entries: one that has a frame is passed over.
unfoldable pub clone_page : CopyPage → (src dest : ℕ) → Kernel → Outcome Kernel
clone_page copy_page_physical src dest k =
    let cloned : Outcome Kernel = (do
      m ← defined (alloc_frame k.memory k.frame_set dest false false)
      let m' = store_page m dest (clone_flags (load_page m src) (load_page m dest))
      ok (record k {
        memory =
            copy_page_physical (u32 ((load_page m' src).frame * 0x1000))
              (u32 ((load_page m' dest).frame * 0x1000)) m';
      })) in
    if not ((load_page k.memory src).frame == 0) then ok k else cloned

-- The loop, with the rounds that `i < 1024` allows.
unfoldable pub clone_pages : CopyPage → (rounds i src table : ℕ) → Kernel → Outcome Kernel
clone_pages copy_page_physical zero i src table k = ok k
clone_pages copy_page_physical (suc rounds) i src table k = do
  k' ← clone_page copy_page_physical (src + 4 * i) (table + 4 * i) k
  clone_pages copy_page_physical rounds (i + 1) src table k'

-- The new table and its physical address. As many bytes are cleared as a directory has.
unfoldable pub clone_table : Kmalloc → CopyPage → (src : ℕ) → Kernel → Outcome (ℕ × ℕ × Kernel)
clone_table kmalloc_ap copy_page_physical src k = do
  (table, phys, k1) ← kmalloc_ap k table_size
  k2 ←
      clone_pages copy_page_physical 1024 0 src table
        (record k1 { memory = memset k1.memory table 0 directory_size })
  ok (table, phys, k2)

-- A round of the loop of `clone_directory`: a table of the kernel's is shared, another one cloned.
unfoldable pub clone_entry : Kmalloc → CopyPage → (i src dir : ℕ) → Kernel → Outcome Kernel
clone_entry kmalloc_ap copy_page_physical i src dir k =
    let table = load32 k.memory (table_slot src i) in
    let m = store32 k.memory (table_slot dir i) table in
    let shared : Kernel = record k {
      memory = store32 m (physical_slot dir i) (load32 m (physical_slot src i));
    } in
    let cloned : Outcome Kernel = (do
      (table', phys, k') ← clone_table kmalloc_ap copy_page_physical table k
      let m' = store32 k'.memory (table_slot dir i) table'
      ok (record k' { memory = store32 m' (physical_slot dir i) (bit_or phys 0x07) })) in
    if table == 0
    then ok k
    else if load32 k.memory (table_slot k.kernel_directory i) == table
    then ok shared
    else cloned

unfoldable pub clone_entries : Kmalloc → CopyPage → (rounds i src dir : ℕ) → Kernel → Outcome Kernel
clone_entries kmalloc_ap copy_page_physical zero i src dir k = ok k
clone_entries kmalloc_ap copy_page_physical (suc rounds) i src dir k = do
  k' ← clone_entry kmalloc_ap copy_page_physical i src dir k
  clone_entries kmalloc_ap copy_page_physical rounds (i + 1) src dir k'

unfoldable pub clone_directory : Kmalloc → CopyPage → (src : ℕ) → Kernel → Outcome (ℕ × Kernel)
clone_directory kmalloc_ap copy_page_physical src k = do
  (dir, phys, k1) ← kmalloc_ap k directory_size
  let m = memset k1.memory dir 0 directory_size
  let m' = store32 m (physical_address dir) (u32 (phys + 4096))
  k2 ← clone_entries kmalloc_ap copy_page_physical 1024 0 src dir (record k1 { memory = m' })
  ok (dir, k2)
