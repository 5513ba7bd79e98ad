-- ===== src/Paging/Directory/Tests.antt =====
-- The theorem on `get_page` at a concrete directory.
use fotix.Base.{ℕ, ◌+◌, ◌*◌, ◌<◌, ◌≡◌, refl, arith, Bool, true, false, none, inl, ok, bit_or}
use fotix.Memory.{load32, load8}
use fotix.Kernel.{Kernel}
use fotix.Paging.Directory.{Kmalloc, physical_slot, get_page}
use fotix.Paging.Directory.Pages.{page_in, get_page_lem}

-- All memory is zero, the directory lies at 0x10000.
abbrev kernel : Kernel
kernel = record {
  memory = λ a. 0;
  placement_address = 0x20000;
  heap_ready = false;
  kheap = record {
    index = record { array = 0; size = 0; max_size = 0; less_than = none };
    start_address = 0;
    end_address = 0;
    max_address = 0;
    supervisor = false;
    readonly = false;
  };
  frame_set = record { frames = 0; nframes = 0 };
  kernel_directory = 0x10000;
  current_directory = 0x10000;
}

-- An allocator that hands out the placement address.
abbrev bump : Kmalloc
bump k sz = ok (
  k.placement_address,
  k.placement_address,
  record k { placement_address = k.placement_address + sz },
)

get_page_lem_example :
    (k' : Kernel) × (get_page bump kernel 0x401000 true 0x10000 ≡ ok (page_in 0x20000 0x401000, k'))
    × ((i : ℕ) → i < 1024 → load32 k'.memory (0x20000 + 4 * i) ≡ 0)
    × (load32 k'.memory (physical_slot 0x10000 1) ≡ bit_or 0x20000 0x7)
    × ((other : Kmalloc) (make : Bool)
        → get_page other k' 0x401000 make 0x10000 ≡ ok (page_in 0x20000 0x401000, k'))
unfolding load32 load8
get_page_lem_example =
    get_page_lem bump kernel (record kernel { placement_address = 0x21000 }) 0x401000 0x10000
      0x20000 0x20000 refl refl (omega arith) (λ e. absurd (omega arith)) (omega arith)
      (omega arith) (inl (omega arith))
