-- ===== src/Paging/Clone/Tests.antt =====
-- Clones at concrete states.
use fotix.Base.{
  ℕ, ◌+◌, ◌*◌, ◌^◌, ◌<◌, ◌≡◌, ◌≤◌, refl, arith, none, ◌⊎◌, inl, inr, false, ok, ◌==◌, ◌&&◌, leb,
  ltb, if◌then◌else◌, u32,
}
use fotix.Memory.{Memory, load32, load8, store32}
use fotix.Kernel.{Kernel}
use fotix.Paging.Page.{load_page, page_of_word}
use fotix.Paging.Directory.{Kmalloc, physical_slot, table_slot, get_page}
use fotix.Paging.Directory.Pages.{table_of}
use fotix.Paging.Clone.{CopyPage, physical_address, clone_directory, clone_table}
use fotix.Paging.Clone.Shared.{clone_directory_lem}
use fotix.Paging.Clone.Mapped.{clone_table_lem}

-- The kernel's directory lies at 0x10000, and its second table at 0x5000.
abbrev kernel_with : (Memory) → (placement_address : ℕ) → Kernel
kernel_with m placement_address = record {
  memory = m;
  placement_address = placement_address;
  heap_ready = false;
  kheap = record {
    index = record { array = 0; size = 0; max_size = 0; less_than = none };
    start_address = 0;
    end_address = 0;
    max_address = 0;
    supervisor = false;
    readonly = false;
  };
  frame_set = record { frames = 0; nframes = 0 };
  kernel_directory = 0x10000;
  current_directory = 0x10000;
}

abbrev one_table : Memory
one_table = store32 (store32 (λ a. 0) 0x10004 0x5000) 0x11004 0x5007

abbrev bump : Kmalloc
bump k sz = ok (
  k.placement_address,
  k.placement_address,
  record k { placement_address = k.placement_address + sz },
)

abbrev not_called : CopyPage
not_called src dest m = m

clone_directory_lem_example :
    (k2 : Kernel) × (clone_directory bump not_called 0x10000 (kernel_with one_table 0x20000)
      ≡ ok (0x20000, k2))
    × ((address : ℕ)
        → address < 2 ^ 32
        → (get_page bump k2 address false 0x20000 ≡ get_page bump k2 address false 0x10000)
          × (load32 k2.memory (physical_slot 0x20000 (table_of address)) ≡ (
              if load32 k2.memory (table_slot 0x10000 (table_of address)) == 0
              then 0
              else load32 k2.memory (physical_slot 0x10000 (table_of address)))))
    × (load32 k2.memory (physical_address 0x20000) ≡ u32 (0x20000 + 4096))
    × ((b : ℕ) → (b < 0x20000) ⊎ (0x20000 + 8196 ≤ b) → k2.memory b ≡ one_table b)
clone_directory_lem_example =
    clone_directory_lem bump not_called 0x10000 0x20000 0x20000 (kernel_with one_table 0x20000)
      (kernel_with one_table 0x22004) refl (inr (omega arith)) (inr (omega arith)) (λ j l. inr refl)

-- Every page of the table at 0x5000 is present and has the last frame.
abbrev full : Memory
full = λ a. 255

clone_table_lem_example :
    (k2 : Kernel) × (clone_table bump not_called 0x5000 (kernel_with full 0x20000)
      ≡ ok (0x20000, 0x20000, k2))
    × ((j : ℕ) → j < 1024 → load_page k2.memory (0x20000 + 4 * j) ≡ page_of_word 0)
    × ((b : ℕ)
        → k2.memory b ≡ (if leb 0x20000 b && ltb b (0x20000 + 4096 + 4100) then 0 else full b))
unfolding load_page page_of_word load32 load8
clone_table_lem_example =
    clone_table_lem bump not_called 0x5000 0x20000 0x20000 (kernel_with full 0x20000)
      (kernel_with full 0x21000) refl (inl (omega arith)) (λ j l e. absurd (omega (arith, e)))
