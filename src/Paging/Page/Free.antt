-- ===== src/Paging/Page/Free.antt =====
-- `free_frame`: what it gives back is not the frame of the page.
use fotix.Base.{ℕ, ◌/◌, ◌≡◌, ◌≢◌, ap, ◌∙◌, arith, ◌==◌, if◌then◌else◌}
use fotix.Memory.{Memory}
use fotix.Paging.Frames.{FrameSet, clear_frame}
use fotix.Paging.Frames.Used.{used, used-clear_frame}
use fotix.Paging.Page.{Page, load_page, store_page, free_frame}
use fotix.Paging.Page.Fields.{IsPage, load_page-IsPage, load_page-store_page}
use fotix.Paging.Page.Alloc.{Apart, InSet, used-store_page, load_page-clear_frame}

free_frame-eq :
    (m : Memory) (s : FrameSet) (page f : ℕ)
    → (load_page m page).frame ≡ f
    → f ≢ 0
    → let m' = clear_frame m s f in
      free_frame m s page ≡ store_page m' page (record (load_page m' page) { frame = 0 })
unfolding free_frame
free_frame-eq m s page f is_f mapped = ground arith

unmapped-IsPage : (p : Page) → IsPage p → IsPage (record p { frame = 0 })
unmapped-IsPage p v = ground arith

-- `free_frame` on a page with frame `f`, where the bitset holds frame `f / 0x1000`: the page is left
-- without a frame and otherwise as it was, but the frame that is given back is `f / 0x1000`; every
-- other frame, `f` itself among them, is as before.
pub free_frame_lem :
    (m : Memory) (s : FrameSet) (page f : ℕ)
    → Apart s page
    → (load_page m page).frame ≡ f
    → f ≢ 0
    → InSet s (f / 0x1000)
    → let m' = free_frame m s page in
      (load_page m' page ≡ record (load_page m page) { frame = 0 })
      × ((j : ℕ) → InSet s j → used m' s j ≡ (if f / 0x1000 == j then 0 else used m s j))
      × (InSet s f → used m' s f ≡ used m s f)
free_frame_lem m s page f apart is_f mapped inside =
    (page_after, used_after, λ in_set. used_after f in_set ∙ ground arith)
  where
    cleared : Memory
    cleared = clear_frame m s f

    after :
        free_frame m s page
        ≡ store_page cleared page (record (load_page cleared page) { frame = 0 })
    after = free_frame-eq m s page f is_f mapped

    page_after : load_page (free_frame m s page) page ≡ record (load_page m page) { frame = 0 }
    page_after =
        ap (λ m'. load_page m' page) after
        ∙ load_page-store_page cleared page _
            (unmapped-IsPage (load_page cleared page) (load_page-IsPage cleared page))
        ∙ ap (λ (p : Page). record p { frame = 0 }) (load_page-clear_frame m s page apart f inside)

    used_after :
        (j : ℕ)
        → InSet s j
        → used (free_frame m s page) s j ≡ (if f / 0x1000 == j then 0 else used m s j)
    used_after j in_set =
        ap (λ m'. used m' s j) after
        ∙ used-store_page cleared s page apart _ j in_set
        ∙ used-clear_frame m s f j
