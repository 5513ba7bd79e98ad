-- ===== src/Boot/Pages.antt =====
-- The second loop of `initialise_paging` where the table of the first 4 MB is there and empty: round by
-- round each page gets the frame of its own number.
use fotix.Base.{
  ℕ, zero, suc, ◌+◌, ◌*◌, ◌/◌, ◌≤◌, ◌<◌, ◌≡◌, ◌≢◌, refl, sym, ap, subst, ◌∙◌, arith, ◌⊎◌, Option,
  none, some, false, true, ltb, leb, ◌&&◌, ◌==◌, if◌then◌else◌, Bool-cases, inl, inr, ==_iff, ok,
}
use fotix.Memory.{Memory, load32}
use fotix.Kernel.{Kernel}
use fotix.Paging.Frames.{FrameSet, set_frame, first_frame}
use fotix.Paging.Frames.Used.{used}
use fotix.Paging.Frames.First.{Least, first_frame_lem}
use fotix.Paging.Page.{Page, load_page, alloc_frame}
use fotix.Paging.Page.Alloc.{mapped, alloc_frame-eq, alloc_frame-found, load32-alloc_frame}
use fotix.Paging.Directory.{Kmalloc, table_slot, get_page}
use fotix.Paging.Directory.Pages.{table_of, page_in, get_page-present}
use fotix.Boot.Mapping.{alloc_pages}

Least-next :
    (bits : ℕ → ℕ) (hi i : ℕ) (r : Option ℕ)
    → Least bits 0 hi r
    → ((j : ℕ) → j < i → bits j ≡ 1)
    → bits i ≡ 0
    → i < hi
    → r ≡ some i
Least-next bits hi i none least below free h = absurd (ground (arith, least i))
Least-next bits hi i (some n) (p, q, clear, least) below free h =
    ap some (ground (arith, below n, clear, least i, free))

-- Of the frames of the first 4 MB those below `n` are in use, and those from `n` on are free.
abbrev pub UsedBelow : Memory → FrameSet → (n : ℕ) → Type 0
UsedBelow m s n = (j : ℕ) → j < 1024 → used m s j ≡ (if ltb j n then 1 else 0)

-- The table of the first 4 MB lies beside their bits and beside its entry in the directory, which lies
-- beside those bits.
abbrev pub Room : FrameSet → (dir table : ℕ) → Type 0
Room s dir table =
    ((table + 4096 ≤ s.frames) ⊎ (s.frames + 128 ≤ table))
    × ((dir + 4 ≤ s.frames) ⊎ (s.frames + 128 ≤ dir))
    × ((dir + 4 ≤ table) ⊎ (table + 4096 ≤ dir))

-- The bitset as far as it counts the first 4 MB.
abbrev low : FrameSet → FrameSet
low s = record s { nframes = 1024 }

used-low : (m : Memory) (s : FrameSet) (j : ℕ) → used m (low s) j ≡ used m s j
unfolding used
used-low m s j = refl

-- The rest of the bitset plays no part while a frame of the first 4 MB is free.
alloc_frame-low :
    (m : Memory) (s : FrameSet) (page i : ℕ)
    → (load_page m page).frame ≡ 0
    → first_frame m s ≡ some i
    → first_frame m (low s) ≡ some i
    → alloc_frame m s page false false ≡ alloc_frame m (low s) page false false
unfolding set_frame
alloc_frame-low m s page i empty free free' =
    alloc_frame-eq m s page false false i empty free
    ∙ sym (alloc_frame-eq m (low s) page false false i empty free')

-- A round maps page `i` to frame `i`.
map_page :
    (m : Memory) (s : FrameSet) (dir table i : ℕ)
    → Room s dir table
    → i < 1024
    → 1024 ≤ 32 * (s.nframes / 32)
    → UsedBelow m s i
    → (load_page m (table + 4 * i)).frame ≡ 0
    → (m' : Memory) × (alloc_frame m s (table + 4 * i) false false ≡ some m')
      × (load_page m' (table + 4 * i) ≡ mapped (load_page m (table + 4 * i)) false false i)
      × UsedBelow m' s (i + 1)
      × ((a : ℕ)
          → (a + 4 ≤ table + 4 * i) ⊎ (table + 4 * i + 4 ≤ a)
          → (a + 4 ≤ s.frames) ⊎ (s.frames + 128 ≤ a)
          → load32 m' a ≡ load32 m a)
map_page m s dir table i (r1, r2, r3) h room below empty =
    let free : first_frame m s ≡ some i =
      Least-next (used m s) (32 * (s.nframes / 32)) i (first_frame m s) (first_frame_lem m s)
        (λ j l. ground (arith, below j)) (ground (arith, below i)) (omega arith) in
    let free' : first_frame m (low s) ≡ some i =
      Least-next (used m (low s)) 1024 i (first_frame m (low s)) (first_frame_lem m (low s))
        (λ j l. used-low m s j ∙ ground (arith, below j)) (used-low m s i ∙ ground (arith, below i))
        h in
    let (m', done, page, _, now) =
      alloc_frame-found m (low s) (table + 4 * i) false false i (omega arith) (omega arith) empty
        free' in
    (
      m',
      alloc_frame-low m s (table + 4 * i) i empty free free' ∙ done,
      page,
      λ j inside.
          sym (used-low m' s j)
          ∙ now j (omega arith)
          ∙ ground (arith, used-low m s j, below j inside),
      λ a p q.
          load32-alloc_frame m m' (low s) (table + 4 * i) false false i a empty free' done
            (omega arith) (omega arith) p q,
    )

load_page-same : (m m' : Memory) (a : ℕ) → load32 m' a ≡ load32 m a → load_page m' a ≡ load_page m a
unfolding load_page
load_page-same m m' a same = rw same refl

-- The page for address `0x1000 * i`.
get_page-low :
    (supply : Kmalloc) (k : Kernel) (table i : ℕ)
    → load32 k.memory (table_slot k.kernel_directory 0) ≡ table
    → table ≢ 0
    → i < 1024
    → get_page supply k (0x1000 * i) true k.kernel_directory ≡ ok (table + 4 * i, k)
get_page-low supply k table i entry there h =
    let first : table_of (0x1000 * i) ≡ 0 = omega arith in
    let place : page_in table (0x1000 * i) ≡ table + 4 * i = omega arith in
    get_page-present supply k (0x1000 * i) true k.kernel_directory table
      (ap (λ (n : ℕ). load32 k.memory (table_slot k.kernel_directory n)) first ∙ entry) there
    ∙ ap (λ (p : ℕ). ok (p, k)) place

alloc_pages-step :
    (supply : Kmalloc) (rounds i table : ℕ) (k : Kernel) (m : Memory)
    → get_page supply k (0x1000 * i) true k.kernel_directory ≡ ok (table + 4 * i, k)
    → alloc_frame k.memory k.frame_set (table + 4 * i) false false ≡ some m
    → alloc_pages supply (suc rounds) (0x1000 * i) k
      ≡ alloc_pages supply rounds (0x1000 * (i + 1)) (record k { memory = m })
unfolding alloc_pages
alloc_pages-step supply rounds i table k m page done =
    let next : 0x1000 * i + 0x1000 ≡ 0x1000 * (i + 1) = omega arith in rw (page, done, next) refl

-- A round for `i`, then those after it.
pages_order :
    (old new : ℕ → Page) (f : ℕ → Page → Page) (rounds i j : ℕ)
    → new i ≡ f i (old i)
    → (j ≢ i → new j ≡ old j)
    → (if leb (i + 1) j && ltb j (i + 1 + rounds) then f j (new j) else new j)
      ≡ (if leb i j && ltb j (i + suc rounds) then f j (old j) else old j)
pages_order old new f rounds i j at_i other = elim (Bool-cases (i == j)) [
  | inl t ↦
      let here : new j ≡ f j (old j) =
        subst (λ (n : ℕ). new n ≡ f n (old n)) ((==_iff i j).0 t) at_i in
      let later : (leb (i + 1) j && ltb j (i + 1 + rounds)) ≡ false = ground arith in
      let now : (leb i j && ltb j (i + suc rounds)) ≡ true = ground arith in rw (later, now) here
  | inr f' ↦
      let same : (leb (i + 1) j && ltb j (i + 1 + rounds)) ≡ (leb i j && ltb j (i + suc rounds)) =
        ground arith in
      rw (same, other (λ e. ground (arith, e))) refl
]

-- The pages from `i` on are mapped in turn.
map_pages :
    (supply : Kmalloc) (rounds i table : ℕ) (k : Kernel)
    → load32 k.memory (table_slot k.kernel_directory 0) ≡ table
    → table ≢ 0
    → Room k.frame_set k.kernel_directory table
    → i + rounds ≤ 1024
    → 1024 ≤ 32 * (k.frame_set.nframes / 32)
    → UsedBelow k.memory k.frame_set i
    → ((j : ℕ) → i ≤ j → j < 1024 → (load_page k.memory (table + 4 * j)).frame ≡ 0)
    → (m : Memory) × (alloc_pages supply rounds (0x1000 * i) k ≡ ok (record k { memory = m }))
      × UsedBelow m k.frame_set (i + rounds)
      × ((j : ℕ)
          → j < 1024
          → load_page m (table + 4 * j) ≡ (
              if leb i j && ltb j (i + rounds)
              then mapped (load_page k.memory (table + 4 * j)) false false j
              else load_page k.memory (table + 4 * j)))
      × ((a : ℕ)
          → (a + 4 ≤ table) ⊎ (table + 4096 ≤ a)
          → (a + 4 ≤ k.frame_set.frames) ⊎ (k.frame_set.frames + 128 ≤ a)
          → load32 m a ≡ load32 k.memory a)
unfolding alloc_pages
map_pages supply zero i table k entry there r h room below empty =
    (k.memory, refl, λ j inside. ground (arith, below j inside), λ j l. ground arith, λ a p q. refl)
map_pages supply (suc rounds) i table k entry there r h room below empty =
    let (m1, done, page, below1, kept) =
      map_page k.memory k.frame_set k.kernel_directory table i r (omega arith) room below
        (empty i (omega arith) (omega arith)) in
    let other = λ (j : ℕ) (l : j < 1024) (n : j ≢ i).
      load_page-same k.memory m1 (table + 4 * j)
        (kept (table + 4 * j) (omega arith) (omega arith)) in
    let (m, rest, below', pages, same) =
      map_pages supply rounds (i + 1) table (record k { memory = m1 })
        (kept (table_slot k.kernel_directory 0) (omega arith) (omega arith) ∙ entry) there r
        (omega arith) room below1
        (λ j p q. ap (λ (p : Page). p.frame) (other j q (omega arith)) ∙ empty j (omega arith) q) in
    (
      m,
      alloc_pages-step supply rounds i table k m1
            (get_page-low supply k table i entry there (omega arith)) done
          ∙ rest,
      λ j inside. ground (arith, below' j inside),
      λ j l.
          pages j l
          ∙ pages_order (λ n. load_page k.memory (table + 4 * n))
              (λ n. load_page m1 (table + 4 * n)) (λ n p. mapped p false false n) rounds i j page
              (other j l),
      λ a p q. same a p q ∙ kept a (omega arith) q,
    )

-- The loop where the table of the first 4 MB is there and empty.
pub map_all :
    (supply : Kmalloc) (table : ℕ) (k : Kernel)
    → load32 k.memory (table_slot k.kernel_directory 0) ≡ table
    → table ≢ 0
    → Room k.frame_set k.kernel_directory table
    → 1024 ≤ 32 * (k.frame_set.nframes / 32)
    → UsedBelow k.memory k.frame_set 0
    → ((j : ℕ) → j < 1024 → (load_page k.memory (table + 4 * j)).frame ≡ 0)
    → (m : Memory) × (alloc_pages supply 0x400 0 k ≡ ok (record k { memory = m }))
      × UsedBelow m k.frame_set 1024
      × ((j : ℕ)
          → j < 1024
          → let p = load_page m (table + 4 * j) in
            (p.frame ≡ j) × (p.present ≡ 1) × (p.rw ≡ 0) × (p.user ≡ 1))
      × ((a : ℕ)
          → (a + 4 ≤ table) ⊎ (table + 4096 ≤ a)
          → (a + 4 ≤ k.frame_set.frames) ⊎ (k.frame_set.frames + 128 ≤ a)
          → load32 m a ≡ load32 k.memory a)
map_all supply table k entry there r room below empty =
    let (m, done, below', pages, same) =
      map_pages supply 1024 0 table k entry there r (omega arith) room below (λ j p q. empty j q) in
    (
      m,
      done,
      below',
      λ j l.
          let page : load_page m (table + 4 * j)
              ≡ mapped (load_page k.memory (table + 4 * j)) false false j =
            let inside : (leb 0 j && ltb j 1024) ≡ true = ground arith in
            pages j l ∙ rw inside refl in
          (
            ap (λ (p : Page). p.frame) page ∙ omega arith,
            ap (λ (p : Page). p.present) page,
            ap (λ (p : Page). p.rw) page,
            ap (λ (p : Page). p.user) page,
          ),
      same,
    )
