-- ===== src/Paging/Page/Tests.antt =====
-- Runs of `alloc_frame` and `free_frame`, and their theorems at a concrete page.
use fotix.Base.{ℕ, ◌/◌, ◌≡◌, refl, arith, true, false, some, ◌==◌, if◌then◌else◌, inr}
use fotix.Base.Bits.{bit}
use fotix.Memory.{Memory, load8, load32, store8, store32}
use fotix.Paging.Frames.{FrameSet}
use fotix.Paging.Frames.Used.{used}
use fotix.Paging.Frames.First.{Least}
use fotix.Paging.Page.{Page, page_of_word, word_of_page, load_page, alloc_frame, free_frame}
use fotix.Paging.Page.Fields.{page_of_word-word_of_page}
use fotix.Paging.Page.Alloc.{InSet, mapped, alloc_frame_lem}
use fotix.Paging.Page.Free.{free_frame_lem}

-- Frames 0 to 2 of 64 are in use; the page at 0x2000 is empty, that at 0x2004 has frame 2.
abbrev memory : Memory
memory = store32 (store32 (λ a. 0) 0x1000 7) 0x2004 0x2003

abbrev frame_set : FrameSet
frame_set = record { frames = 0x1000; nframes = 64 }

abbrev user_page : Page
user_page = record {
  present = 1;
  rw = 1;
  user = 1;
  accessed = 0;
  dirty = 0;
  unused = 0;
  frame = 0x12345;
}

page_of_word-word_of_page_example : page_of_word (word_of_page user_page) ≡ user_page
page_of_word-word_of_page_example = page_of_word-word_of_page user_page (omega arith)

user_page_word : word_of_page user_page ≡ 0x12345007
unfolding word_of_page
user_page_word = refl

alloc_frame_lem_example :
    (idx : ℕ) × (m : Memory) × (alloc_frame memory frame_set 0x2000 false true ≡ some m)
    × (load_page m 0x2000 ≡ mapped (load_page memory 0x2000) false true idx)
    × Least (used memory frame_set) 0 64 (some idx)
    × ((j : ℕ)
        → InSet frame_set j
        → used m frame_set j ≡ (if idx == j then 1 else used memory frame_set j))
unfolding used bit load_page page_of_word load32 load8 store32 store8
alloc_frame_lem_example =
    alloc_frame_lem memory frame_set 0x2000 false true 3 (inr (omega arith)) (omega arith) refl
      (omega arith) refl

free_frame_lem_example :
    let m = free_frame memory frame_set 0x2004 in
    (load_page m 0x2004 ≡ record (load_page memory 0x2004) { frame = 0 })
    × ((j : ℕ)
        → InSet frame_set j
        → used m frame_set j ≡ (if 2 / 0x1000 == j then 0 else used memory frame_set j))
    × (InSet frame_set 2 → used m frame_set 2 ≡ used memory frame_set 2)
unfolding load_page page_of_word load32 store32
free_frame_lem_example =
    free_frame_lem memory frame_set 0x2004 2 (inr (omega arith)) refl (omega arith) (omega arith)
