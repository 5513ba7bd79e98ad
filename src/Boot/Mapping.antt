-- ===== src/Boot/Mapping.antt =====
-- `initialise_paging` and `switch_page_directory` of sys/paging.c. Loading the directory into the
-- processor is assembly.
use fotix.Base.{ℕ, zero, suc, ◌+◌, ◌/◌, true, false, Outcome, ok, defined, ◌>>=◌}
use fotix.Memory.{store32, memset}
use fotix.Kernel.{Kernel}
use fotix.Paging.Frames.{index_from_bit}
use fotix.Paging.Page.{alloc_frame}
use fotix.Paging.Directory.{Kmalloc, get_page}
use fotix.Paging.Clone.{CopyPage, directory_size, physical_address, clone_directory}
use fotix.Heap.Kmalloc.{kmalloc, kmalloc_a, kmalloc_ap, create_heap}
use fotix.Interrupts.{register}
use fotix.Interrupts.Registry.{at_page_fault}
use fotix.Interrupts.Handlers.{Machine}

abbrev pub kheap_start : ℕ
kheap_start = 0xC0000000

abbrev pub kheap_initial_size : ℕ
kheap_initial_size = 0x100000

-- The loops over the pages of a range, from address `i` on, with the rounds left. The first makes
-- their tables, the second maps the pages.
unfoldable pub make_pages : Kmalloc → (rounds i : ℕ) → Kernel → Outcome Kernel
make_pages kmalloc_ap zero i k = ok k
make_pages kmalloc_ap (suc rounds) i k = do
  (page, k') ← get_page kmalloc_ap k i true k.kernel_directory
  make_pages kmalloc_ap rounds (i + 0x1000) k'

unfoldable pub alloc_pages : Kmalloc → (rounds i : ℕ) → Kernel → Outcome Kernel
alloc_pages kmalloc_ap zero i k = ok k
alloc_pages kmalloc_ap (suc rounds) i k = do
  (page, k') ← get_page kmalloc_ap k i true k.kernel_directory
  m ← defined (alloc_frame k'.memory k'.frame_set page false false)
  alloc_pages kmalloc_ap rounds (i + 0x1000) (record k' { memory = m })

unfoldable pub switch_page_directory : (dir : ℕ) → Kernel → Kernel
switch_page_directory dir k = record k { current_directory = dir }

-- The first part: the bitset, which gets `INDEX_FROM_BIT(nframes)` bytes, one for each of its words;
-- the kernel's directory; and the tables for the heap.
unfoldable pub reserve : (fuel : ℕ) → Kernel → Outcome Kernel
reserve fuel k = do
  let nframes = 0x1000000 / 0x1000
  (frames, k1) ← kmalloc fuel (index_from_bit nframes) k
  let blank = memset k1.memory frames 0 (index_from_bit nframes)
  (dir, k2) ←
      kmalloc_a fuel directory_size
        (record k1 { memory = blank; frame_set = record { frames = frames; nframes = nframes } })
  let m = store32 (memset k2.memory dir 0 directory_size) (physical_address dir) (dir + 4096)
  make_pages (kmalloc_ap fuel) 0x100 kheap_start (record k2 { memory = m; kernel_directory = dir })

-- The part before the heap: after those, the mapping of the first 4 MB and of the heap.
unfoldable pub map_kernel : (fuel : ℕ) → Kernel → Outcome Kernel
map_kernel fuel k = do
  k1 ← reserve fuel k
  k2 ← alloc_pages (kmalloc_ap fuel) 0x400 0 k1
  alloc_pages (kmalloc_ap fuel) 0x100 kheap_start k2

unfoldable pub initialise_paging : (fuel : ℕ) → CopyPage → Machine → Outcome (ℕ × Machine)
initialise_paging fuel copy_page_physical m = do
  k ← map_kernel fuel m.tasking.kernel
  let registered = register 14 at_page_fault m
  (heap, k1) ←
      create_heap fuel kheap_start (kheap_start + kheap_initial_size) 0xCFFFF000 false false
        (switch_page_directory k.kernel_directory k)
  (dir, k2) ←
      clone_directory (kmalloc_ap fuel) copy_page_physical k1.kernel_directory
        (record k1 { kheap = heap; heap_ready = true })
  ok (
    0,
    record registered {
      tasking = record registered.tasking { kernel = switch_page_directory dir k2 };
    },
  )
