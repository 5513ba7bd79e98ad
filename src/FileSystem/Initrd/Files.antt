-- ===== src/FileSystem/Initrd/Files.antt =====
-- The loop of `initialise_initrd` over the files.
use fotix.Base.{
  ℕ, zero, suc, ◌+◌, ◌^◌, ◌≤◌, ◌<◌, ◌≡◌, refl, subst, ◌∙◌, ◌⊎◌, inl, inr, arith, Bool-cases, List,
  [], ◌∷◌, length, ok, u32, ◌==◌, ==_iff,
}
use fotix.Memory.{Memory, load8, load32}
use fotix.Memory.Words.{load32-lt, load32-same}
use fotix.Strings.Facts.{IsString}
use fotix.FileSystem.{fs_file}
use fotix.FileSystem.Initrd.{
  Initrd, Symbols, file_header, root_node, header_offset, header_length, make_files,
}
use fotix.FileSystem.Initrd.Image.{IsHeader, IsString-same, load8-same, IsHeader-same}
use fotix.FileSystem.Initrd.Fields.{HasFields, HasFields-same}
use fotix.FileSystem.Initrd.MakeFile.{
  Apart, made, copied, made-outside, made-extent, made-offset, made-name, made-HasFields,
}

-- A name that fits, and is not empty.
abbrev pub IsName : List ℕ → Type 0
IsName cs = (0 < length cs) × (length cs < 64)

-- Header `i` before its round, and node `i` where nothing has been written.
abbrev pub Waiting : Memory → Initrd → (i : ℕ) → (cs : List ℕ) → (at size : ℕ) → Type 0
Waiting m g i cs at size =
    IsHeader m (file_header g i) cs at size × ((d : ℕ) → d < 128 → load8 m (root_node g i + d) ≡ 0)

-- Header and node `i` after it.
pub record IsFile (m : Memory) (g : Initrd) (read i : ℕ) (cs : List ℕ) (at size : ℕ) : Type 0 where
  pub name : IsString m (root_node g i) cs
  pub fields : HasFields m (root_node g i) fs_file i size read 0 0
  pub offset : load32 m (header_offset (file_header g i)) ≡ at
  pub extent : load32 m (header_length (file_header g i)) ≡ size

-- The round changes one word of the header, and the node.
abbrev pub ChangedBy : Memory → Memory → Initrd → (lo hi : ℕ) → Type 0
ChangedBy m m' g lo hi =
    (b : ℕ)
    → (b < file_header g lo) ⊎ (file_header g hi ≤ b)
    → (b < root_node g lo) ⊎ (root_node g hi ≤ b)
    → m' b ≡ m b

-- The headers and the nodes of `n` files do not overlap.
abbrev pub Beside : Initrd → (n : ℕ) → Type 0
Beside g n = (file_header g n ≤ g.root_nodes) ⊎ (root_node g n ≤ g.file_headers)

make-IsFile :
    (fuel : ℕ) (at : Symbols) (g : Initrd) (location n i offset size : ℕ) (m : Memory) (cs : List ℕ)
    → IsName cs
    → i < n
    → n < 2 ^ 32
    → length cs < fuel
    → Beside g n
    → at.read < 2 ^ 32
    → Waiting m g i cs offset size
    → (m' : Memory) × ((rounds : ℕ)
        → make_files fuel at g location (suc rounds) i m
          ≡ make_files fuel at g location rounds (i + 1) m')
      × IsFile m' g at.read i cs (u32 (offset + location)) size
      × ChangedBy m m' g i (i + 1)
unfolding make_files
make-IsFile fuel at g location n i offset size m [] name inside few enough apart reads (h, blank) =
    absurd (omega arith)
make-IsFile fuel at g location n i offset size m (c ∷ cs) name inside few enough apart reads
      (h, blank) =
    let header = file_header g i in
    let node = root_node g i in
    let beside : Apart header node = omega arith in
    let m' = made m header node i offset size location at.read c cs h name.1 beside in
    let outside = made-outside m header node i offset size location at.read c cs h name.1 beside in
    let size_fits : size < 2 ^ 32 = omega (arith, load32-lt m (header + 72), h.extent) in
    (
      m',
      λ rounds.
          rw
            (
              h.offset,
              copied m header node i offset size location at.read c cs h name.1 beside fuel
                  (omega arith),
              made-extent m header node i offset size location at.read c cs h name.1 beside,
            )
            refl,
      record {
        name =
            made-name m header node i offset size location at.read c cs h name.1 beside
              (blank (suc (length cs)) (omega arith));
        fields =
            made-HasFields m header node i offset size location at.read c cs h name.1 beside
              size_fits (omega arith) reads;
        offset = made-offset m header node i offset size location at.read c cs h name.1 beside;
        extent =
            load32-same m m' (header + 72) (λ b p q. outside b (omega arith) (omega arith))
            ∙ h.extent;
      },
      λ b p q. outside b (omega arith) (omega arith),
    )

Waiting-same :
    (m m' : Memory) (g : Initrd) (i : ℕ) (cs : List ℕ) (offset size : ℕ)
    → length cs < 64
    → ((b : ℕ) → file_header g i ≤ b → b < file_header g (i + 1) → m' b ≡ m b)
    → ((b : ℕ) → root_node g i ≤ b → b < root_node g (i + 1) → m' b ≡ m b)
    → Waiting m g i cs offset size
    → Waiting m' g i cs offset size
Waiting-same m m' g i cs offset size short headers nodes (h, blank) = (
  IsHeader-same m m' (file_header g i) cs offset size short
      (λ b p q. headers b (omega arith) (omega arith)) h,
  λ d p.
      load8-same m m' (root_node g i + d) (nodes (root_node g i + d) (omega arith) (omega arith))
      ∙ blank d p,
)

IsFile-same :
    (m m' : Memory) (g : Initrd) (read i : ℕ) (cs : List ℕ) (offset size : ℕ)
    → length cs < 64
    → ((b : ℕ) → file_header g i ≤ b → b < file_header g (i + 1) → m' b ≡ m b)
    → ((b : ℕ) → root_node g i ≤ b → b < root_node g (i + 1) → m' b ≡ m b)
    → IsFile m g read i cs offset size
    → IsFile m' g read i cs offset size
IsFile-same m m' g read i cs offset size short headers nodes v = record {
  name =
      IsString-same m m' (root_node g i) (root_node g i) cs
        (λ d p.
          load8-same m m' (root_node g i + d)
            (nodes (root_node g i + d) (omega arith) (omega arith)))
        v.name;
  fields =
      HasFields-same m m' (root_node g i) fs_file i size read 0 0
        (λ o p. load32-same m m' (root_node g i + o) (λ b q r. nodes b (omega arith) (omega arith)))
        v.fields;
  offset =
      load32-same m m' (file_header g i + 68) (λ b p q. headers b (omega arith) (omega arith))
      ∙ v.offset;
  extent =
      load32-same m m' (file_header g i + 72) (λ b p q. headers b (omega arith) (omega arith))
      ∙ v.extent;
}

make_files-end :
    (fuel : ℕ) (at : Symbols) (g : Initrd) (location i : ℕ) (m : Memory)
    → make_files fuel at g location 0 i m ≡ ok m
unfolding make_files
make_files-end fuel at g location i m = refl

module _ (fuel : ℕ) (at : Symbols) (g : Initrd) (location n : ℕ) (names : ℕ → List ℕ)
    (offsets sizes : ℕ → ℕ) (named : (i : ℕ) → i < n → IsName (names i)) (few : n < 2 ^ 32)
    (enough : (i : ℕ) → i < n → length (names i) < fuel) (apart : Beside g n)
    (reads : at.read < 2 ^ 32) where
  -- The rounds from `i` on make a node of each header, and change nothing else.
  pub make_files_lem :
      (rounds i : ℕ) (m : Memory)
      → i + rounds ≡ n
      → ((j : ℕ) → i ≤ j → j < n → Waiting m g j (names j) (offsets j) (sizes j))
      → (m' : Memory) × (make_files fuel at g location rounds i m ≡ ok m')
        × ((j : ℕ)
            → i ≤ j
            → j < n
            → IsFile m' g at.read j (names j) (u32 (offsets j + location)) (sizes j))
        × ChangedBy m m' g i n
  make_files_lem zero i m e waiting =
      (m, make_files-end fuel at g location i m, (λ j p q. absurd (omega arith)), λ b p q. refl)
  make_files_lem (suc rounds) i m e waiting =
      let (m1, step, file, changed) =
        make-IsFile fuel at g location n i (offsets i) (sizes i) m (names i) (named i (omega arith))
          (omega arith) few (enough i (omega arith)) apart reads
          (waiting i (omega arith) (omega arith)) in
      let (m', rest, files, later) = make_files_lem rounds (i + 1) m1 (omega arith) (λ j p q.
        Waiting-same m m1 g j (names j) (offsets j) (sizes j) ((named j q).1)
          (λ b r s. changed b (omega arith) (omega arith))
          (λ b r s. changed b (omega arith) (omega arith)) (waiting j (omega arith) q)) in
      (
        m',
        step rounds ∙ rest,
        λ j p q. elim (Bool-cases (i == j)) [
          | inl t ↦
              subst
                (λ (k : ℕ). IsFile m' g at.read k (names k) (u32 (offsets k + location)) (sizes k))
                ((==_iff i j).0 t)
                (IsFile-same m1 m' g at.read i (names i) (u32 (offsets i + location)) (sizes i)
                  ((named i (omega arith)).1) (λ b r s. later b (omega arith) (omega arith))
                  (λ b r s. later b (omega arith) (omega arith)) file)
          | inr f ↦ files j (ground arith) q
        ],
        λ b p q. later b (omega arith) (omega arith) ∙ changed b (omega arith) (omega arith),
      )
