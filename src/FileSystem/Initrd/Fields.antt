-- ===== src/FileSystem/Initrd/Fields.antt =====
-- The fields of a node after `set_fields`.
use fotix.Base.{
  ℕ, ◌+◌, ◌*◌, ◌^◌, ◌≤◌, ◌<◌, ◌≡◌, refl, ap, ◌∙◌, ◌⊎◌, inl, inr, arith, Bool, true, Bool-cases,
  ◌==◌, ==_iff, leb, ltb, ◌&&◌, if◌then◌else◌, List, [], ◌∷◌,
}
use fotix.Memory.{Memory, load32, store32}
use fotix.Memory.Words.{load32-store32, load32-store32_apart, store32-outside}
use fotix.FileSystem.{node_flags, node_inode, node_length, node_read, node_readdir, node_finddir}
use fotix.FileSystem.Initrd.{set_fields}

-- Words written into the node, by their number in it, the latest first.
unfoldable pub writes : Memory → (node : ℕ) → List (ℕ × ℕ) → Memory
writes m node [] = m
writes m node ((k, v) ∷ ws) = store32 (writes m node ws) (node + 4 * k) v

-- The word with number `k` afterwards.
abbrev pub written : List (ℕ × ℕ) → (k old : ℕ) → ℕ
written [] k old = old
written ((i, v) ∷ ws) k old = if i == k then v else written ws k old

abbrev pub Words32 : List (ℕ × ℕ) → Type 0
Words32 [] = Unit {0}
Words32 ((k, v) ∷ ws) = (v < 2 ^ 32) × Words32 ws

pub load32-writes :
    (m : Memory) (node k : ℕ) (ws : List (ℕ × ℕ))
    → Words32 ws
    → load32 (writes m node ws) (node + 4 * k) ≡ written ws k (load32 m (node + 4 * k))
unfolding writes
load32-writes m node k [] fits = refl
load32-writes m node k ((i, v) ∷ ws) (fit, fits) = elim (Bool-cases (i == k)) [
  | inl t ↦
      let same : node + 4 * k ≡ node + 4 * i = omega (arith, (==_iff i k).0 t) in
      rw t (
        ap (load32 (store32 (writes m node ws) (node + 4 * i) v)) same
        ∙ load32-store32 (writes m node ws) (node + 4 * i) v fit)
  | inr f ↦ rw f (
      load32-store32_apart (writes m node ws) (node + 4 * i) v (node + 4 * k) (ground arith)
      ∙ load32-writes m node k ws fits)
]

-- All numbers lie between `lo` and `hi`.
abbrev within : (lo hi : ℕ) → List (ℕ × ℕ) → Bool
within lo hi [] = true
within lo hi ((k, v) ∷ ws) = leb lo k && ltb k hi && within lo hi ws

pub writes-outside :
    (m : Memory) (node lo hi b : ℕ) (ws : List (ℕ × ℕ))
    → within lo hi ws ≡ true
    → (b < node + 4 * lo) ⊎ (node + 4 * hi ≤ b)
    → writes m node ws b ≡ m b
unfolding writes
writes-outside m node lo hi b [] all out = refl
writes-outside m node lo hi b ((k, v) ∷ ws) all out =
    store32-outside (writes m node ws) (node + 4 * k) v b (ground (arith, all, out))
    ∙ writes-outside m node lo hi b ws (ground (arith, all)) out

-- What `set_fields` writes.
abbrev fields : (size inode flags read readdir finddir : ℕ) → List (ℕ × ℕ)
fields size inode flags read readdir finddir =
    (38, 0)
    ∷ (44, finddir)
    ∷ (43, readdir)
    ∷ (42, 0)
    ∷ (41, 0)
    ∷ (40, 0)
    ∷ (39, read)
    ∷ (35, flags)
    ∷ (36, inode)
    ∷ (37, size)
    ∷ (32, 0)
    ∷ (33, 0)
    ∷ (34, 0)
    ∷ []

-- The node at `node` has these fields, and no other callback.
pub record HasFields (m : Memory) (node flags inode size read readdir finddir : ℕ) : Type 0 where
  pub flagged : load32 m (node_flags node) ≡ flags
  pub numbered : load32 m (node_inode node) ≡ inode
  pub extent : load32 m (node_length node) ≡ size
  pub reads : load32 m (node_read node) ≡ read
  pub lists : load32 m (node_readdir node) ≡ readdir
  pub finds : load32 m (node_finddir node) ≡ finddir

pub HasFields-same :
    (m m' : Memory) (node flags inode size read readdir finddir : ℕ)
    → ((o : ℕ) → o ≤ 176 → load32 m' (node + o) ≡ load32 m (node + o))
    → HasFields m node flags inode size read readdir finddir
    → HasFields m' node flags inode size read readdir finddir
HasFields-same m m' node flags inode size read readdir finddir same v = record {
  flagged = same 140 (omega arith) ∙ v.flagged;
  numbered = same 144 (omega arith) ∙ v.numbered;
  extent = same 148 (omega arith) ∙ v.extent;
  reads = same 156 (omega arith) ∙ v.reads;
  lists = same 172 (omega arith) ∙ v.lists;
  finds = same 176 (omega arith) ∙ v.finds;
}

set_fields-writes :
    (m : Memory) (node size inode flags read readdir finddir : ℕ)
    → set_fields m node size inode flags read readdir finddir
      ≡ writes m node (fields size inode flags read readdir finddir)
unfolding set_fields writes
set_fields-writes m node size inode flags read readdir finddir = refl

pub set_fields-HasFields :
    (m : Memory) (node size inode flags read readdir finddir : ℕ)
    → size < 2 ^ 32
    → inode < 2 ^ 32
    → flags < 2 ^ 32
    → read < 2 ^ 32
    → readdir < 2 ^ 32
    → finddir < 2 ^ 32
    → HasFields
        (set_fields m node size inode flags read readdir finddir)
        node
        flags
        inode
        size
        read
        readdir
        finddir
set_fields-HasFields m node size inode flags read readdir finddir p q r s t u =
    rw (set_fields-writes m node size inode flags read readdir finddir) (record {
      flagged = word 35;
      numbered = word 36;
      extent = word 37;
      reads = word 39;
      lists = word 43;
      finds = word 44;
    })
  where
    ws : List (ℕ × ℕ)
    ws = fields size inode flags read readdir finddir

    word :
        (k : ℕ) → load32 (writes m node ws) (node + 4 * k) ≡ written ws k (load32 m (node + 4 * k))
    word k = load32-writes m node k ws (
      omega arith,
      (
        u,
        (
          t,
          (
            omega arith,
            (
              omega arith,
              (omega arith, (s, (r, (q, (p, (omega arith, (omega arith, (omega arith, tt)))))))),
            ),
          ),
        ),
      ),
    )

pub set_fields-outside :
    (m : Memory) (node size inode flags read readdir finddir b : ℕ)
    → (b < node + 128) ⊎ (node + 180 ≤ b)
    → set_fields m node size inode flags read readdir finddir b ≡ m b
set_fields-outside m node size inode flags read readdir finddir b out =
    ap (λ (n : Memory). n b) (set_fields-writes m node size inode flags read readdir finddir)
    ∙ writes-outside m node 32 45 b (fields size inode flags read readdir finddir) refl out
