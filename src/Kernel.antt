-- ===== src/Kernel.antt =====
-- The globals that sys/kheap.c, sys/paging.c and sys/task.c share, and the structures of
-- include/kheap.h that lie in memory.
use fotix.Base.{ℕ, ◌+◌, Bool}
use fotix.Memory.{Memory, load8, store8, load32, store32}
use fotix.OrderedArray.{OrderedArray}
use fotix.Paging.Frames.{FrameSet}

-- `heap_t`.
pub record Heap : Type 0 where
  pub index : OrderedArray
  pub start_address : ℕ
  pub end_address : ℕ
  pub max_address : ℕ
  pub supervisor : Bool
  pub readonly : Bool

-- `heap_ready` says that `kheap` is no longer null; `kheap` is then what it points to. The two
-- directories are addresses.
pub record Kernel : Type 0 where
  pub memory : Memory
  pub placement_address : ℕ
  pub heap_ready : Bool
  pub kheap : Heap
  pub frame_set : FrameSet
  pub kernel_directory : ℕ
  pub current_directory : ℕ

abbrev pub heap_magic : ℕ
heap_magic = 0x123890AB

abbrev pub heap_min_size : ℕ
heap_min_size = 0x70000

abbrev pub heap_index_size : ℕ
heap_index_size = 0x20000

-- `sizeof (header_t)`: a word, a byte with three bytes of padding, a word.
abbrev pub header_size : ℕ
header_size = 12

-- `sizeof (footer_t)`.
abbrev pub footer_size : ℕ
footer_size = 8

-- The fields of the `header_t` at an address.
abbrev pub header_magic : Memory → ℕ → ℕ
header_magic m a = load32 m a

abbrev pub header_is_hole : Memory → ℕ → ℕ
header_is_hole m a = load8 m (a + 4)

abbrev pub header_block_size : Memory → ℕ → ℕ
header_block_size m a = load32 m (a + 8)

-- The fields of the `footer_t` at an address.
abbrev pub footer_magic : Memory → ℕ → ℕ
footer_magic m a = load32 m a

abbrev pub footer_header : Memory → ℕ → ℕ
footer_header m a = load32 m (a + 4)

-- Writing all fields; the padding stays as it is.
unfoldable pub write_header : Memory → (a is_hole size : ℕ) → Memory
write_header m a is_hole size =
    store32 (store8 (store32 m a heap_magic) (a + 4) is_hole) (a + 8) size

unfoldable pub write_footer : Memory → (a header : ℕ) → Memory
write_footer m a header = store32 (store32 m a heap_magic) (a + 4) header
