-- ===== src/Boot/Reserved.antt =====
-- What `initialise_paging` has prepared at its second loop.
use fotix.Base.{
  ℕ, zero, suc, ◌+◌, ◌*◌, ◌^◌, ◌≤◌, ◌<◌, ◌≡◌, ◌≢◌, refl, ap, ◌∙◌, arith, ◌⊎◌, inl, true, false, ok,
}
use fotix.Base.Bits.{bit, bit-zero}
use fotix.Memory.{Memory, load32, store32, memset}
use fotix.Memory.Words.{load32-store32_apart}
use fotix.Memory.Blocks.{load32-memset_zero, load32-memset_apart}
use fotix.Kernel.{Kernel}
use fotix.Heap.Kmalloc.{kmalloc, kmalloc_a, kmalloc_ap, kmalloc_int}
use fotix.Heap.Placement.{kmalloc_int_placed}
use fotix.Paging.Frames.{FrameSet, index_from_bit, offset_from_bit, word_at}
use fotix.Paging.Frames.Used.{used}
use fotix.Paging.Directory.{Kmalloc, table_slot, get_page}
use fotix.Paging.Directory.Pages.{
  table_of, page_in, with_table, with_table-same, with_table-other, with_table-entry,
  get_page-present, get_page-made,
}
use fotix.Boot.Mapping.{make_pages, reserve}
use fotix.Boot.Pages.{UsedBelow}

-- The loop over the heap's pages where their table is there.
make_pages-present :
    (supply : Kmalloc) (rounds i table : ℕ) (k : Kernel)
    → load32 k.memory (table_slot k.kernel_directory 768) ≡ table
    → table ≢ 0
    → 0xC0000000 ≤ i
    → i + 0x1000 * rounds ≤ 0xC0400000
    → make_pages supply rounds i k ≡ ok k
unfolding make_pages
make_pages-present supply zero i table k entry there lo hi = refl
make_pages-present supply (suc rounds) i table k entry there lo hi =
    let at : table_of i ≡ 768 = omega arith in
    let page : get_page supply k i true k.kernel_directory ≡ ok (page_in table i, k) =
      get_page-present supply k i true k.kernel_directory table
        (ap (λ (n : ℕ). load32 k.memory (table_slot k.kernel_directory n)) at ∙ entry) there in
    rw page (
      make_pages-present supply rounds (i + 0x1000) table k entry there (omega arith) (omega arith))

make_pages-made :
    (supply : Kmalloc) (rounds i page : ℕ) (k k' : Kernel)
    → get_page supply k i true k.kernel_directory ≡ ok (page, k')
    → make_pages supply (suc rounds) i k ≡ make_pages supply rounds (i + 0x1000) k'
unfolding make_pages
make_pages-made supply rounds i page k k' made = rw made refl

-- The bitset and the directory, cleared, and the word that follows the directory's tables.
abbrev prepared : Memory → (frames dir : ℕ) → Memory
prepared m frames dir =
    store32 (memset (memset m frames 0 128) dir 0 8196) (dir + 8192) (dir + 4096)

module _ (m : Memory) (frames dir : ℕ) (order : frames + 128 ≤ dir) where
  prepared-bits : (a : ℕ) → frames ≤ a → a + 4 ≤ frames + 128 → load32 (prepared m frames dir) a ≡ 0
  prepared-bits a lo hi =
      load32-store32_apart (memset (memset m frames 0 128) dir 0 8196) (dir + 8192) (dir + 4096) a
        (omega arith)
      ∙ load32-memset_apart (memset m frames 0 128) dir 0 8196 a (omega arith)
      ∙ load32-memset_zero m frames 128 a lo hi

  prepared-slots : (i : ℕ) → i < 1024 → load32 (prepared m frames dir) (table_slot dir i) ≡ 0
  prepared-slots i h =
      load32-store32_apart (memset (memset m frames 0 128) dir 0 8196) (dir + 8192) (dir + 4096)
        (table_slot dir i) (omega arith)
      ∙ load32-memset_zero (memset m frames 0 128) dir 8196 (table_slot dir i) (omega arith)
          (omega arith)

-- Up to the first loop, the three allocations being as they are placed.
reserve-eq :
    (fuel frames dir : ℕ) (k k1 k2 : Kernel)
    → kmalloc_int fuel 128 false k ≡ ok (frames, frames, k1)
    → kmalloc_int fuel 8196 true (record k1 {
      memory = memset k1.memory frames 0 128;
      frame_set = record { frames = frames; nframes = 4096 };
    })
      ≡ ok (dir, dir, k2)
    → reserve fuel k
      ≡ make_pages (kmalloc_ap fuel) 0x100 0xC0000000 (record k2 {
        memory = store32 (memset k2.memory dir 0 8196) (dir + 8192) (dir + 4096);
        kernel_directory = dir;
      })
unfolding reserve kmalloc kmalloc_a
reserve-eq fuel frames dir k k1 k2 first second = rw (first, second) refl

no_bits :
    (m : Memory) (s : FrameSet) (j : ℕ)
    → load32 m (word_at s (index_from_bit j)) ≡ 0
    → used m s j ≡ 0
unfolding used
no_bits m s j zeroes = ap (bit (offset_from_bit j)) zeroes ∙ bit-zero (offset_from_bit j)

-- What the second loop finds.
pub record IsReserved (k : Kernel) : Type 0 where
  pub off : k.heap_ready ≡ false
  pub missing : load32 k.memory (table_slot k.kernel_directory 0) ≡ 0
  pub bits_first : k.frame_set.frames + 128 ≤ k.kernel_directory
  pub directory_next : k.kernel_directory + 8196 ≤ k.placement_address
  pub counts : k.frame_set.nframes ≡ 4096
  pub free : UsedBelow k.memory k.frame_set 0

-- Before there is a heap and with room behind the placement address, the first part returns, moves the
-- placement address by at most seven pages, and leaves what the second loop relies on.
pub reserve_lem :
    (fuel : ℕ) (k : Kernel)
    → k.heap_ready ≡ false
    → 0x1000 ≤ k.placement_address
    → k.placement_address + 0x9000 < 2 ^ 32
    → (k' : Kernel) × (reserve fuel k ≡ ok k')
      × IsReserved k'
      × (k'.placement_address ≤ k.placement_address + 0x7000)
unfolding kmalloc_ap
reserve_lem fuel k off low room =
    let (frames, first, above, near, _) =
      kmalloc_int_placed fuel 128 false k off low (omega arith) in
    let k1 = record k { placement_address = frames + 128 } in
    let s : FrameSet = record { frames = frames; nframes = 4096 } in
    let k1' = record k1 { memory = memset k.memory frames 0 128; frame_set = s } in
    let (dir, second, above2, near2, _) =
      kmalloc_int_placed fuel 8196 true k1' off (omega arith) (omega arith) in
    let m = prepared k.memory frames dir in
    let k2 = record k1' { placement_address = dir + 8196; memory = m; kernel_directory = dir } in
    let (table, third, above3, near3, _) =
      kmalloc_int_placed fuel 0x1000 true k2 off (omega arith) (omega arith) in
    let behind : (dir + 8196 ≤ table) ⊎ (table + 4096 ≤ dir) = inl (omega arith) in
    let there : table ≢ 0 = λ e. absurd (omega (arith, e)) in
    let k3 = record k2 {
      placement_address = table + 0x1000;
      memory = with_table m dir 768 table table;
    } in
    let made : get_page (kmalloc_ap fuel) k2 0xC0000000 true dir
        ≡ ok (page_in table 0xC0000000, k3) =
      get_page-made (kmalloc_ap fuel) k2 (record k2 { placement_address = table + 0x1000 })
        0xC0000000 dir table table (prepared-slots k.memory frames dir above2 768 (omega arith))
        third in
    let entry = with_table-entry m dir 768 table table (omega arith) behind (omega arith) in
    (
      k3,
      reserve-eq fuel frames dir k k1 (record k1' { placement_address = dir + 8196 }) first second
          ∙ make_pages-made (kmalloc_ap fuel) 255 0xC0000000 (page_in table 0xC0000000) k2 k3 made
          ∙ make_pages-present (kmalloc_ap fuel) 255 (0xC0000000 + 0x1000) table k3 entry there
              (omega arith) (omega arith),
      record {
        off = off;
        missing =
            with_table-other m dir 768 table table (omega arith) behind 0 (omega arith)
              (λ e. absurd (omega (arith, e)))
            ∙ prepared-slots k.memory frames dir above2 0 (omega arith);
        bits_first = above2;
        directory_next = omega arith;
        counts = refl;
        free = λ j h.
            no_bits k3.memory s j (
              with_table-same m dir 768 table table (omega arith) behind
                (word_at s (index_from_bit j)) (omega arith) (omega arith)
              ∙ prepared-bits k.memory frames dir above2 (word_at s (index_from_bit j))
                  (omega arith) (omega arith))
            ∙ ground arith;
      },
      omega arith,
    )
