-- ===== src/Paging/Page/Alloc.antt =====
-- `alloc_frame`: the page gets the least free frame, which is then in use.
use fotix.Base.{
  ℕ, ◌+◌, ◌*◌, ◌/◌, ◌%◌, ◌^◌, ◌≤◌, ◌<◌, ◌≡◌, ◌≢◌, ap, sym, ◌∙◌, subst, arith, ◌⊎◌, refl, Bool,
  Option, none, some, ◌==◌, if◌then◌else◌, u32,
}
use fotix.Base.Bits.{bit}
use fotix.Memory.{Memory, load32}
use fotix.Memory.Words.{load32-store32_apart}
use fotix.Paging.Frames.{
  FrameSet, index_from_bit, offset_from_bit, word_at, set_frame, clear_frame, first_frame,
}
use fotix.Paging.Frames.Used.{used, used-set_frame}
use fotix.Paging.Frames.First.{Least, first_frame_lem}
use fotix.Paging.Page.{Page, load_page, store_page, word_of_page, alloc_frame}
use fotix.Paging.Page.Fields.{IsPage, load_page-IsPage, load_page-store_page}

-- The word of the page does not overlap the bitset.
abbrev pub Apart : FrameSet → ℕ → Type 0
Apart s page = (page + 4 ≤ s.frames) ⊎ (s.frames + 4 * (s.nframes / 32) ≤ page)

-- Frame `i` has its bit in the bitset.
abbrev pub InSet : FrameSet → ℕ → Type 0
InSet s i = i / 32 < s.nframes / 32

module _ (m : Memory) (s : FrameSet) (page : ℕ) (apart : Apart s page) where
  pub used-store_page : (p : Page) (j : ℕ) → InSet s j → used (store_page m page p) s j ≡ used m s j
  unfolding used store_page
  used-store_page p j inside =
      ap (bit (offset_from_bit j))
        (load32-store32_apart m page (word_of_page p) (word_at s (index_from_bit j)) (omega arith))

  pub load_page-set_frame :
      (addr : ℕ) → InSet s (addr / 0x1000) → load_page (set_frame m s addr) page ≡ load_page m page
  unfolding load_page set_frame
  load_page-set_frame addr inside =
      rw (load32-store32_apart m (word_at s (index_from_bit (addr / 0x1000))) _ page (omega arith))

  pub load_page-clear_frame :
      (addr : ℕ)
      → InSet s (addr / 0x1000)
      → load_page (clear_frame m s addr) page ≡ load_page m page
  unfolding load_page clear_frame
  load_page-clear_frame addr inside =
      rw (load32-store32_apart m (word_at s (index_from_bit (addr / 0x1000))) _ page (omega arith))

-- The page that `alloc_frame` leaves.
abbrev pub mapped : Page → (is_kernel is_writeable : Bool) → ℕ → Page
mapped p is_kernel is_writeable idx = record p {
  present = 1;
  rw = if is_writeable then 1 else 0;
  user = if is_kernel then 0 else 1;
  frame = idx % 2 ^ 20;
}

mapped-IsPage :
    (p : Page) (is_kernel is_writeable : Bool) (idx : ℕ)
    → IsPage p
    → IsPage (mapped p is_kernel is_writeable idx)
mapped-IsPage p is_kernel is_writeable idx v = ground arith

pub alloc_frame-eq :
    (m : Memory) (s : FrameSet) (page : ℕ) (is_kernel is_writeable : Bool) (idx : ℕ)
    → (load_page m page).frame ≡ 0
    → first_frame m s ≡ some idx
    → let m' = set_frame m s (u32 (idx * 0x1000)) in
      alloc_frame m s page is_kernel is_writeable
      ≡ some (store_page m' page (mapped (load_page m' page) is_kernel is_writeable idx))
unfolding alloc_frame
alloc_frame-eq m s page is_kernel is_writeable idx empty free = ground arith

-- What `alloc_frame` does with the frame that `first_frame` found.
pub alloc_frame-found :
    (m : Memory) (s : FrameSet) (page : ℕ) (is_kernel is_writeable : Bool) (idx : ℕ)
    → Apart s page
    → s.nframes ≤ 2 ^ 20
    → (load_page m page).frame ≡ 0
    → first_frame m s ≡ some idx
    → (m' : Memory) × (alloc_frame m s page is_kernel is_writeable ≡ some m')
      × (load_page m' page ≡ mapped (load_page m page) is_kernel is_writeable idx)
      × Least (used m s) 0 (32 * (s.nframes / 32)) (some idx)
      × ((j : ℕ) → InSet s j → used m' s j ≡ (if idx == j then 1 else used m s j))
alloc_frame-found m s page is_kernel is_writeable idx apart small empty free = (
  store_page marked page (mapped (load_page marked page) is_kernel is_writeable idx),
  alloc_frame-eq m s page is_kernel is_writeable idx empty free,
  load_page-store_page marked page _ (
        mapped-IsPage (load_page marked page) is_kernel is_writeable idx
          (load_page-IsPage marked page))
      ∙ ap (λ p. mapped p is_kernel is_writeable idx) same,
  least,
  λ j inside.
      used-store_page marked s page apart _ j inside
      ∙ used-set_frame m s (u32 (idx * 0x1000)) j
      ∙ ap (λ (i : ℕ). if i == j then 1 else used m s j) address,
)
  where
    marked : Memory
    marked = set_frame m s (u32 (idx * 0x1000))

    least : Least (used m s) 0 (32 * (s.nframes / 32)) (some idx)
    least = subst (Least (used m s) 0 (32 * (s.nframes / 32))) free (first_frame_lem m s)

    address : u32 (idx * 0x1000) / 0x1000 ≡ idx
    address = omega (arith, least.1)

    same : load_page marked page ≡ load_page m page
    same = load_page-set_frame m s page apart (u32 (idx * 0x1000)) (omega (arith, least.1, address))

-- Some frame of the bitset is free, so the search finds one.
first_frame-finds :
    (m : Memory) (s : FrameSet) (free : ℕ)
    → InSet s free
    → used m s free ≡ 0
    → (idx : ℕ) × (first_frame m s ≡ some idx)
first_frame-finds m s free inside empty = found (first_frame m s) (first_frame_lem m s)
  where
    found :
        (r : Option ℕ) → Least (used m s) 0 (32 * (s.nframes / 32)) r → (idx : ℕ) × (r ≡ some idx)
    found none all = absurd (omega (arith, empty, all free (omega arith) (omega arith)))
    found (some idx) least = (idx, refl)

-- On a page with no frame, whose word lies apart from the bitset, while some frame among the whole
-- words of the bitset is free and the bitset has at most 2^20 frames: `alloc_frame` maps the page to
-- the least of those that are free, sets its flags as asked and keeps its other fields; that frame is
-- in use afterwards, and every other frame of the whole words is as before.
pub alloc_frame_lem :
    (m : Memory) (s : FrameSet) (page : ℕ) (is_kernel is_writeable : Bool) (free : ℕ)
    → Apart s page
    → s.nframes ≤ 2 ^ 20
    → (load_page m page).frame ≡ 0
    → InSet s free
    → used m s free ≡ 0
    → (idx : ℕ) × (m' : Memory) × (alloc_frame m s page is_kernel is_writeable ≡ some m')
      × (load_page m' page ≡ mapped (load_page m page) is_kernel is_writeable idx)
      × Least (used m s) 0 (32 * (s.nframes / 32)) (some idx)
      × ((j : ℕ) → InSet s j → used m' s j ≡ (if idx == j then 1 else used m s j))
alloc_frame_lem m s page is_kernel is_writeable free apart small empty inside is_free =
    let (idx, found) = first_frame-finds m s free inside is_free in
    let (m', done, page', least, others) =
      alloc_frame-found m s page is_kernel is_writeable idx apart small empty found in
    (idx, m', done, page', least, others)

-- A page that has a frame keeps it, and nothing changes.
pub alloc_frame_mapped :
    (m : Memory) (s : FrameSet) (page : ℕ) (is_kernel is_writeable : Bool)
    → (load_page m page).frame ≢ 0
    → alloc_frame m s page is_kernel is_writeable ≡ some m
unfolding alloc_frame
alloc_frame_mapped m s page is_kernel is_writeable mapped = ground arith

-- `alloc_frame` that takes frame `idx` writes the page and the word of the bitset, and nothing else.
pub load32-alloc_frame :
    (m m' : Memory) (s : FrameSet) (page : ℕ) (is_kernel is_writeable : Bool) (idx a : ℕ)
    → (load_page m page).frame ≡ 0
    → first_frame m s ≡ some idx
    → alloc_frame m s page is_kernel is_writeable ≡ some m'
    → idx < 2 ^ 20
    → InSet s idx
    → (a + 4 ≤ page) ⊎ (page + 4 ≤ a)
    → (a + 4 ≤ s.frames) ⊎ (s.frames + 4 * (s.nframes / 32) ≤ a)
    → load32 m' a ≡ load32 m a
unfolding store_page set_frame
load32-alloc_frame m m' s page is_kernel is_writeable idx a empty free done small inside p q =
    let marked = set_frame m s (u32 (idx * 0x1000)) in
    let p' = mapped (load_page marked page) is_kernel is_writeable idx in
    let eq : some (store_page marked page p') ≡ some m' =
      sym (alloc_frame-eq m s page is_kernel is_writeable idx empty free) ∙ done in
    let same : store_page marked page p' ≡ m' = cc eq in
    let frame = u32 (idx * 0x1000) / 0x1000 in
    ap (λ (n : Memory). load32 n a) (sym same)
    ∙ load32-store32_apart marked page (word_of_page p') a (omega arith)
    ∙ load32-store32_apart m (word_at s (index_from_bit frame)) _ a (omega arith)
