-- ===== src/Paging/Page.antt =====
-- `page_t` of include/paging.h, and `alloc_frame` and `free_frame` of sys/paging.c, which give a
-- page of some page table its frame and take it away.
pub mod Fields
pub mod Alloc
pub mod Free
mod Tests
use fotix.Base.{ℕ, ◌+◌, ◌*◌, ◌/◌, ◌%◌, ◌^◌, Bool, Option, none, some, ◌==◌, if◌then◌else◌, u32}
use fotix.Memory.{Memory, load32, store32}
use fotix.Paging.Frames.{FrameSet, set_frame, clear_frame, first_frame}

-- The bit fields of `page_t`, in their order.
pub record Page : Type 0 where
  pub present : ℕ
  pub rw : ℕ
  pub user : ℕ
  pub accessed : ℕ
  pub dirty : ℕ
  pub unused : ℕ
  pub frame : ℕ

-- The compiler lays the fields out from the lowest bit of a word upwards: five of one bit, one of
-- seven, and one of twenty.
unfoldable pub page_of_word : ℕ → Page
page_of_word w = record {
  present = w % 2;
  rw = w / 2 % 2;
  user = w / 2 ^ 2 % 2;
  accessed = w / 2 ^ 3 % 2;
  dirty = w / 2 ^ 4 % 2;
  unused = w / 2 ^ 5 % 2 ^ 7;
  frame = w / 2 ^ 12 % 2 ^ 20;
}

unfoldable pub word_of_page : Page → ℕ
word_of_page p =
    p.present
    + 2 * p.rw
    + 2 ^ 2 * p.user
    + 2 ^ 3 * p.accessed
    + 2 ^ 4 * p.dirty
    + 2 ^ 5 * p.unused
    + 2 ^ 12 * p.frame

unfoldable pub load_page : Memory → ℕ → Page
load_page m a = page_of_word (load32 m a)

unfoldable pub store_page : Memory → ℕ → Page → Memory
store_page m a p = store32 m a (word_of_page p)

-- `alloc_frame (page, is_kernel, is_writeable)`. Where `first_frame` ends without a value the
-- behaviour is undefined, `none`; the test for `(u32int) - 1` guards an empty body.
unfoldable pub alloc_frame :
    Memory → FrameSet → (page : ℕ) → (is_kernel is_writeable : Bool) → Option Memory
alloc_frame m s page is_kernel is_writeable =
    let p = load_page m page in
    let allocated : Option Memory = elim (first_frame m s) [
      | none ↦ none
      | some idx ↦
          let m' = set_frame m s (u32 (idx * 0x1000)) in
          let p' = load_page m' page in
          some (
            store_page m' page (record p' {
              present = 1;
              rw = if is_writeable then 1 else 0;
              user = if is_kernel then 0 else 1;
              frame = idx % 2 ^ 20;
            }))
    ] in
    if p.frame == 0 then allocated else some m

-- `free_frame (page)`: the frame's number, not its address, goes to `clear_frame`.
unfoldable pub free_frame : Memory → FrameSet → (page : ℕ) → Memory
free_frame m s page =
    let frame = (load_page m page).frame in
    let m' = clear_frame m s frame in
    if frame == 0 then m else store_page m' page (record (load_page m' page) { frame = 0 })
