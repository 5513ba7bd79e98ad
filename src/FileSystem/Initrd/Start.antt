-- ===== src/FileSystem/Initrd/Start.antt =====
-- `initialise_initrd`: the two directories, and the nodes of the files.
use fotix.Base.{ℕ, suc, ◌+◌, ◌^◌, ◌≤◌, ◌<◌, ◌≡◌, refl, ◌∙◌, ◌⊎◌, arith, List, [], ◌∷◌, length, ok}
use fotix.Memory.{Memory, load8, load32, store32, memcpy}
use fotix.Memory.Words.{load32-store32, load32-same, store32-outside}
use fotix.Memory.Blocks.{memcpy-outside}
use fotix.Strings.Facts.{IsString, strcpy_lem}
use fotix.FileSystem.{fs_directory, node_ptr}
use fotix.FileSystem.Initrd.{Initrd, Symbols, set_fields, make_directory}
use fotix.FileSystem.Initrd.Image.{
  total, start, header_at, Stands, IsImage, total-le, IsString-same, load8-same, IsHeader-same,
  memcpy-IsString,
}
use fotix.FileSystem.Initrd.Fields.{
  HasFields, HasFields-same, set_fields-HasFields, set_fields-outside,
}
use fotix.FileSystem.Initrd.Files.{IsName, IsFile}

-- The node of a directory of the ramdisk.
pub record IsDirectory (m : Memory) (at : Symbols) (node : ℕ) (cs : List ℕ) : Type 0 where
  pub name : IsString m node cs
  pub fields : HasFields m node fs_directory 0 0 0 at.readdir at.finddir
  pub ptr : load32 m (node_ptr node) ≡ 0

-- What `make_directory` leaves, for a name of `len` characters.
abbrev pub directory : Symbols → (name len node : ℕ) → Memory → Memory
directory at name len node m =
    store32 (set_fields (memcpy m node name len) node 0 0 fs_directory 0 at.readdir at.finddir)
      (node_ptr node) 0

module _ (fuel : ℕ) (at : Symbols) (name node c : ℕ) (cs : List ℕ) (m : Memory)
    (s : IsString m name (c ∷ cs)) (short : suc (length cs) < 64)
    (apart : (node + 184 ≤ name) ⊎ (name + suc (length cs) < node)) where
  abbrev m' : Memory
  m' = directory at name (suc (length cs)) node m

  abbrev named : Memory
  named = memcpy m node name (suc (length cs))

  abbrev filled : Memory
  filled = set_fields named node 0 0 fs_directory 0 at.readdir at.finddir

  pub make_directory_lem : length cs < fuel → make_directory fuel at name node m ≡ ok m'
  unfolding make_directory
  make_directory_lem enough = rw (strcpy_lem fuel m node name c cs enough s (omega arith)) refl

  pub directory-outside : (b : ℕ) → (b < node) ⊎ (node + 184 ≤ b) → m' b ≡ m b
  directory-outside b out =
      store32-outside filled (node_ptr node) 0 b (omega arith)
      ∙ set_fields-outside named node 0 0 fs_directory 0 at.readdir at.finddir b (omega arith)
      ∙ memcpy-outside m node name (suc (length cs)) b (omega arith) (omega arith)

  pub directory-IsDirectory :
      at.readdir < 2 ^ 32
      → at.finddir < 2 ^ 32
      → load8 m (node + suc (length cs)) ≡ 0
      → IsDirectory m' at node (c ∷ cs)
  directory-IsDirectory p q blank = record {
    name =
        IsString-same named m' node node (c ∷ cs)
          (λ d r. load8-same named m' (node + d) (
            store32-outside filled (node_ptr node) 0 (node + d) (omega arith)
            ∙ set_fields-outside named node 0 0 fs_directory 0 at.readdir at.finddir (node + d)
                (omega arith)))
          (memcpy-IsString m node name c cs s (omega arith) blank);
    fields = HasFields-same filled m' node fs_directory 0 0 0 at.readdir at.finddir field had;
    ptr = load32-store32 filled (node_ptr node) 0 (omega arith);
  }
    where
      had : HasFields filled node fs_directory 0 0 0 at.readdir at.finddir
      had =
          set_fields-HasFields named node 0 0 fs_directory 0 at.readdir at.finddir (omega arith)
            (omega arith) (omega arith) (omega arith) p q

      field : (o : ℕ) → o ≤ 176 → load32 m' (node + o) ≡ load32 filled (node + o)
      field o r =
          load32-same filled m' (node + o)
            (λ b u v. store32-outside filled (node_ptr node) 0 b (omega arith))

pub IsDirectory-same :
    (m m' : Memory) (at : Symbols) (node : ℕ) (cs : List ℕ)
    → length cs < 64
    → ((b : ℕ) → node ≤ b → b < node + 184 → m' b ≡ m b)
    → IsDirectory m at node cs
    → IsDirectory m' at node cs
IsDirectory-same m m' at node cs short same v = record {
  name =
      IsString-same m m' node node cs
        (λ d p. load8-same m m' (node + d) (same (node + d) (omega arith) (omega arith))) v.name;
  fields =
      HasFields-same m m' node fs_directory 0 0 0 at.readdir at.finddir
        (λ o p. field o (omega arith)) v.fields;
  ptr = field 180 (omega arith) ∙ v.ptr;
}
  where
    field : (o : ℕ) → o ≤ 180 → load32 m' (node + o) ≡ load32 m (node + o)
    field o p = load32-same m m' (node + o) (λ b q r. same b (omega arith) (omega arith))

pub IsImage-same :
    (m m' : Memory) (location n : ℕ) (names contents : ℕ → List ℕ)
    → n ≤ 64
    → ((i : ℕ) → i < n → IsName (names i))
    → ((b : ℕ) → location ≤ b → b < location + 4868 + total contents n → m' b ≡ m b)
    → IsImage m location n names contents
    → IsImage m' location n names contents
IsImage-same m m' location n names contents most named same v = record {
  count = load32-same m m' location (λ b p q. same b (omega arith) (omega arith)) ∙ v.count;
  header = λ i p.
      IsHeader-same m m' (header_at location i) (names i) (start contents i) (length (contents i))
        ((named i p).1) (λ b q r. same b (omega arith) (omega arith)) (v.header i p);
  content = λ i p j q.
      load8-same m m' (location + start contents i + j) (
        same (location + start contents i + j) (omega arith)
          (omega (arith, total-le contents i n p)))
      ∙ v.content i p j q;
}

abbrev pub initrd_name : List ℕ
initrd_name = b'i' ∷ b'n' ∷ b'i' ∷ b't' ∷ b'r' ∷ b'd' ∷ []

abbrev pub dev_name : List ℕ
dev_name = b'd' ∷ b'e' ∷ b'v' ∷ []

-- An allocation keeps the bytes from `lo` up to `hi`, and its block lies beside them.
pub record Spares (m m' : Memory) (block size lo hi : ℕ) : Type 0 where
  pub apart : (block + size ≤ lo) ⊎ (hi ≤ block)
  pub kept : (b : ℕ) → lo ≤ b → b < hi → m' b ≡ m b

-- The bytes of a block are zero.
abbrev pub Blank : Memory → (block size : ℕ) → Type 0
Blank m block size = (d : ℕ) → d < size → load8 m (block + d) ≡ 0

-- The globals that `initialise_initrd` leaves.
abbrev pub globals : (location root dev nodes n : ℕ) → Initrd
globals location root dev nodes n = record {
  initrd_header = location;
  file_headers = location + 4;
  initrd_root = root;
  initrd_dev = dev;
  root_nodes = nodes;
  nroot_nodes = n;
}

-- The ramdisk once it has been initialised: its directories, its nodes, and the bytes of its files.
pub record IsMounted (m : Memory) (at : Symbols) (g : Initrd) (location : ℕ)
    (names contents : ℕ → List ℕ) : Type 0 where
  pub root : IsDirectory m at g.initrd_root initrd_name
  pub dev : IsDirectory m at g.initrd_dev dev_name
  pub file :
      (i : ℕ)
      → i < g.nroot_nodes
      → IsFile m g at.read i (names i) (location + start contents i) (length (contents i))
  pub content : (i : ℕ) → i < g.nroot_nodes → Stands m (location + start contents i) (contents i)
