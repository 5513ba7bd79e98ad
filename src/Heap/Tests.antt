-- ===== src/Heap/Tests.antt =====
-- Runs of the heap, and its theorems at a concrete one.
use fotix.Base.{
  ℕ, zero, suc, ◌⊎◌, inl, Outcome, ◌<◌, ◌+◌, ◌*◌, ◌%◌, ◌≤◌, ◌≡◌, refl, arith, true, false, Option,
  some, leb, ok,
}
use fotix.Memory.{Memory, load8, store8, load32, store32}
use fotix.Kernel.{Heap, Kernel, header_block_size, write_header, write_footer}
use fotix.Heap.Find.{header_t_less_than, hole_fits, find_smallest_hole}
use fotix.Heap.Smallest.{FirstAt, fits_at, lost_to_alignment, find_smallest_hole_lem, hole_fits_lem}
use fotix.Heap.Kmalloc.{kmalloc_int}
use fotix.Heap.Alloc.{alloc}
use fotix.Heap.Serve.{Served, OnlyIndex}
use fotix.Heap.Free.{free}
use fotix.Heap.Block.{IsBlock}
use fotix.Heap.Release.{marked}
use fotix.Heap.Freed.{free_lem}
use fotix.OrderedArray.Items.{items, insert_by}
use fotix.Paging.Directory.{Kmalloc}
use fotix.Heap.Request.{HolesInside, hole_at, size_at, alloc_lem}
use fotix.OrderedArray.Frame.{Outside}
use fotix.Heap.Placement.{kmalloc_int_placed}

-- The index at 0x1000 holds one hole of 0x800 bytes at 0x2000.
abbrev memory : Memory
memory = write_footer (write_header (store32 (λ a. 0) 0x1000 0x2000) 0x2000 1 0x800) 0x27F8 0x2000

abbrev heap : Heap
heap = record {
  index = record { array = 0x1000; size = 1; max_size = 16; less_than = some header_t_less_than };
  start_address = 0x2000;
  end_address = 0x2800;
  max_address = 0x8000;
  supervisor = false;
  readonly = false;
}

abbrev kernel : Kernel
kernel = record {
  memory = memory;
  placement_address = 0x4010;
  heap_ready = false;
  kheap = heap;
  frame_set = record { frames = 0x3000; nframes = 64 };
  kernel_directory = 0;
  current_directory = 0;
}

find_smallest_hole_lem_example :
    (r : Option ℕ) × (find_smallest_hole memory heap 0x114 false ≡ ok r)
    × FirstAt (fits_at memory heap.index 0x114 false) 0 1 r
find_smallest_hole_lem_example = find_smallest_hole_lem memory heap 0x114 false

hole_fits_lem_example :
    hole_fits memory 0x2000 0x114 true
    ≡ leb (0x114 + lost_to_alignment true 0x2000) (header_block_size memory 0x2000)
unfolding write_header write_footer load32 store32 load8 store8
hole_fits_lem_example =
    hole_fits_lem memory 0x2000 0x114 true (omega arith) (omega arith) (omega arith)

kmalloc_int_placed_example :
    (addr : ℕ) × (kmalloc_int 0 100 true kernel
      ≡ ok (addr, addr, record kernel { placement_address = addr + 100 }))
    × (0x4010 ≤ addr)
    × (addr ≤ 0x4010 + 0x1000)
    × (addr % 0x1000 ≡ 0)
kmalloc_int_placed_example = kmalloc_int_placed 0 100 true kernel refl (omega arith) (omega arith)

kernel-HolesInside : HolesInside kernel
unfolding write_header write_footer load32 store32 load8 store8
kernel-HolesInside = record {
  below = λ i h. first_below i h;
  above = λ i h. first_above i h;
  end_fits = omega arith;
}
  where
    first_below : (i : ℕ) → i < 1 → 0x1000 + 4 * 3 ≤ hole_at kernel i
    first_below zero h = omega arith
    first_below (suc i) h = absurd (omega arith)

    first_above : (i : ℕ) → i < 1 → hole_at kernel i + size_at kernel i ≤ 0x2800
    first_above zero h = omega arith
    first_above (suc i) h = absurd (omega arith)

alloc_lem_example :
    (n : ℕ) × (k : Kernel) × (alloc 1 100 false kernel ≡ ok (hole_at kernel n + 12, k))
    × (n ≤ 0)
    × (120 ≤ size_at kernel n)
    × ((j : ℕ) → j < n → size_at kernel j < 120)
    × OnlyIndex kernel k
    × Served kernel header_t_less_than n k (hole_at kernel n) (size_at kernel n) 100
    × ((b : ℕ)
        → Outside heap.index 3 b
        → (b < hole_at kernel n) ⊎ (hole_at kernel n + size_at kernel n ≤ b)
        → k.memory b ≡ memory b)
unfolding write_header write_footer load32 store32 load8 store8
alloc_lem_example =
    alloc_lem 0 100 0 kernel header_t_less_than kernel-HolesInside refl (omega arith) (omega arith)

-- A block of 0x100 bytes in use at 0x2000, and an index without a hole.
abbrev in_use : Memory
in_use = write_footer (write_header (λ a. 0) 0x2000 0 0x100) 0x20F8 0x2000

abbrev full : Kernel
full = record kernel {
  memory = in_use;
  kheap = record heap { index = record heap.index { size = 0 } };
}

in_use-IsBlock : IsBlock in_use 0x2000 0 0x100
unfolding write_header write_footer load32 store32 load8 store8
in_use-IsBlock = record { magic = refl; hole = refl; extent = refl; end_magic = refl; back = refl }

abbrev no_pages : Kmalloc
no_pages k sz = Outcome.halted

free_lem_example :
    (k : Kernel) × (free no_pages 0x200C full ≡ ok k)
    × IsBlock k.memory 0x2000 1 0x100
    × (k.kheap.index ≡ record full.kheap.index { size = 1 })
    × (items k.memory k.kheap.index
        ≡ insert_by
            (header_t_less_than (marked in_use 0x2000))
            0x2000
            (items in_use full.kheap.index))
    × ((b : ℕ) → Outside full.kheap.index 1 b → (b < 0x2000) ⊎ (0x2100 ≤ b) → k.memory b ≡ in_use b)
unfolding write_header write_footer load32 store32 load8 store8
free_lem_example =
    free_lem no_pages 0x2000 0x100 full header_t_less_than in_use-IsBlock (omega arith)
      (omega arith) (omega arith) (inl (λ e. absurd (omega (arith, e))))
      (inl (λ e. absurd (omega (arith, e)))) (λ e. absurd (omega (arith, e))) refl (omega arith)
      (inl (omega arith))
