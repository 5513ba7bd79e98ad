-- ===== src/FileSystem/Initrd/Mount.antt =====
-- `initialise_initrd` as a whole, over the three blocks that `kmalloc` gives it.
use fotix.Base.{
  ℕ, suc, ◌+◌, ◌*◌, ◌^◌, ◌≤◌, ◌<◌, ◌≡◌, refl, ap, subst, ◌∙◌, ◌⊎◌, arith, List, [], ◌∷◌, length, ok,
  u32, Outcome,
}
use fotix.Memory.{Memory, load8, load32}
use fotix.Strings.Facts.{IsString}
use fotix.Kernel.{Kernel}
use fotix.FileSystem.{node_size}
use fotix.FileSystem.Initrd.{Symbols, make_directory, make_files, initialise_initrd}
use fotix.FileSystem.Initrd.Image.{total, start, IsImage, total-le, load8-same}
use fotix.FileSystem.Initrd.Files.{IsName, IsFile, ChangedBy, make_files_lem}
use fotix.FileSystem.Initrd.Start.{
  IsDirectory, directory, make_directory_lem, directory-outside, directory-IsDirectory,
  IsDirectory-same, IsImage-same, initrd_name, dev_name, Spares, Blank, globals, IsMounted,
}

-- The three blocks that `initialise_initrd` asks for: the root, `dev` and the nodes of `n` files. Each
-- is blank, and spares the ramdisk from `location` up to `end` and what was made before it; the two
-- literals stand where they are copied from.
pub record Grants (at : Symbols) (location end n : ℕ)
    (kmalloc : (sz : ℕ) → Kernel → Outcome (ℕ × Kernel)) (root dev nodes : ℕ) (k k1 k3 k5 : Kernel)
    : Type 0 where
  pub root_call : kmalloc node_size k ≡ ok (root, k1)
  pub root_disk : Spares k.memory k1.memory root 184 location end
  pub root_blank : Blank k1.memory root 184
  pub initrd_literal : IsString k1.memory at.initrd initrd_name
  pub initrd_apart : (root + 184 ≤ at.initrd) ⊎ (at.initrd + 6 < root)
  pub dev_call :
      kmalloc node_size (record k1 { memory = directory at at.initrd 6 root k1.memory })
      ≡ ok (dev, k3)
  pub dev_disk : Spares (directory at at.initrd 6 root k1.memory) k3.memory dev 184 location end
  pub dev_root :
      Spares (directory at at.initrd 6 root k1.memory) k3.memory dev 184 root (root + 184)
  pub dev_blank : Blank k3.memory dev 184
  pub dev_literal : IsString k3.memory at.dev dev_name
  pub dev_apart : (dev + 184 ≤ at.dev) ⊎ (at.dev + 3 < dev)
  pub nodes_call :
      kmalloc (184 * n) (record k3 { memory = directory at at.dev 3 dev k3.memory })
      ≡ ok (nodes, k5)
  pub nodes_disk :
      Spares (directory at at.dev 3 dev k3.memory) k5.memory nodes (184 * n) location end
  pub nodes_root :
      Spares (directory at at.dev 3 dev k3.memory) k5.memory nodes (184 * n) root (root + 184)
  pub nodes_dev :
      Spares (directory at at.dev 3 dev k3.memory) k5.memory nodes (184 * n) dev (dev + 184)
  pub nodes_blank : Blank k5.memory nodes (184 * n)

abbrev tail_of : List ℕ → List ℕ
tail_of [] = []
tail_of (c ∷ cs) = cs

module _ (fuel : ℕ) (at : Symbols) (location n : ℕ) (names contents : ℕ → List ℕ) (most : n ≤ 64)
    (named : (i : ℕ) → i < n → IsName (names i)) (low : location + 4868 + total contents n < 2 ^ 32)
    (enough : 64 ≤ fuel) (reads : at.read < 2 ^ 32) (lists : at.readdir < 2 ^ 32)
    (finds : at.finddir < 2 ^ 32) where
  abbrev end : ℕ
  end = location + 4868 + total contents n

  -- The loop, from the memory in which the third block has been given.
  IsMounted-files :
      (root dev nodes : ℕ) (m : Memory)
      → IsImage m location n names contents
      → IsDirectory m at root initrd_name
      → IsDirectory m at dev dev_name
      → Blank m nodes (184 * n)
      → (nodes + 184 * n ≤ location) ⊎ (end ≤ nodes)
      → (root + 184 ≤ location) ⊎ (end ≤ root)
      → (dev + 184 ≤ location) ⊎ (end ≤ dev)
      → (nodes + 184 * n ≤ root) ⊎ (root + 184 ≤ nodes)
      → (nodes + 184 * n ≤ dev) ⊎ (dev + 184 ≤ nodes)
      → let g = globals location root dev nodes n in
        (m' : Memory) × (make_files fuel at g location n 0 m ≡ ok m')
        × IsMounted m' at g location names contents
        × ChangedBy m m' g 0 n
  IsMounted-files root dev nodes m v is_root is_dev blank a b c d e =
      let g = globals location root dev nodes n in
      let (m', ran, files, changed) =
        make_files_lem fuel at g location n names (start contents) (λ i. length (contents i)) named
          (omega arith) (λ i p. omega (arith, (named i p).1)) (omega arith) reads n 0 m
          (omega arith)
          (λ j p q. (
            v.header j q,
            λ k r.
                ap (load8 m) {y = nodes + (184 * j + k)} (omega arith)
                ∙ blank (184 * j + k) (omega arith),
          )) in
      (
        m',
        ran,
        record {
          root =
              IsDirectory-same m m' at root initrd_name (omega arith)
                (λ x p q. changed x (omega arith) (omega arith)) is_root;
          dev =
              IsDirectory-same m m' at dev dev_name (omega arith)
                (λ x p q. changed x (omega arith) (omega arith)) is_dev;
          file = λ i p.
              subst (λ (o : ℕ). IsFile m' g at.read i (names i) o (length (contents i)))
                {x = u32 (start contents i + location)} (omega (arith, total-le contents i n p))
                (files i (omega arith) p);
          content = λ i p j q.
              load8-same m m' (location + start contents i + j) (
                changed (location + start contents i + j) (omega arith)
                  (omega (arith, total-le contents i n p)))
              ∙ v.content i p j q;
        },
        changed,
      )

  -- The ramdisk is the same once a directory has been allocated beside it and made.
  IsImage-directory :
      (name node c : ℕ) (cs : List ℕ) (m m1 : Memory)
      → IsString m1 name (c ∷ cs)
      → suc (length cs) < 64
      → (node + 184 ≤ name) ⊎ (name + suc (length cs) < node)
      → Spares m m1 node 184 location end
      → IsImage m location n names contents
      → IsImage (directory at name (suc (length cs)) node m1) location n names contents
  IsImage-directory name node c cs m m1 s short away spared v =
      let beside = spared.apart in
      IsImage-same m (directory at name (suc (length cs)) node m1) location n names contents most
        named
        (λ b p q.
          directory-outside fuel at name node c cs m1 s short away b (omega arith)
          ∙ spared.kept b p q)
        v

  IsDirectory-directory :
      (name node c : ℕ) (cs : List ℕ) (m m1 : Memory)
      → IsString m1 name (c ∷ cs)
      → suc (length cs) < 64
      → (node + 184 ≤ name) ⊎ (name + suc (length cs) < node)
      → (other : ℕ) (ds : List ℕ) → length ds < 64
      → Spares m m1 node 184 other (other + 184)
      → IsDirectory m at other ds
      → IsDirectory (directory at name (suc (length cs)) node m1) at other ds
  IsDirectory-directory name node c cs m m1 s short away other ds fits spared v =
      let beside = spared.apart in
      IsDirectory-same m (directory at name (suc (length cs)) node m1) at other ds fits
        (λ b p q.
          directory-outside fuel at name node c cs m1 s short away b (omega arith)
          ∙ spared.kept b p q)
        v

  initialise_initrd-steps :
      (kmalloc : (sz : ℕ) → Kernel → Outcome (ℕ × Kernel)) (root dev nodes : ℕ)
      (k k1 k3 k5 : Kernel) (m' m2 m4 : Memory)
      → kmalloc node_size k ≡ ok (root, k1)
      → make_directory fuel at at.initrd root k1.memory ≡ ok m2
      → kmalloc node_size (record k1 { memory = m2 }) ≡ ok (dev, k3)
      → make_directory fuel at at.dev dev k3.memory ≡ ok m4
      → load32 m4 location ≡ n
      → kmalloc (184 * n) (record k3 { memory = m4 }) ≡ ok (nodes, k5)
      → load32 k5.memory location ≡ n
      → make_files fuel at (globals location root dev nodes n) location n 0 k5.memory ≡ ok m'
      → initialise_initrd fuel at kmalloc location k
        ≡ ok (globals location root dev nodes n, record k5 { memory = m' })
  unfolding initialise_initrd
  initialise_initrd-steps kmalloc root dev nodes k k1 k3 k5 m' m2 m4 call1 made2 call3 made4 count4
        call5 count5 ran =
      let size : u32 (node_size * n) ≡ 184 * n = omega arith in
      rw (call1, made2, call3, made4, count4, size, call5, count5, ran) refl

  -- Given three blocks beside the ramdisk and each other, blank, and allocations that spare what
  -- was made before, `initialise_initrd` returns with the directories and the nodes in place, and
  -- the data of each file where the file's header says; after the last allocation only the headers
  -- and the nodes of the files change.
  pub initialise_initrd_lem :
      (kmalloc : (sz : ℕ) → Kernel → Outcome (ℕ × Kernel)) (root dev nodes : ℕ)
      (k k1 k3 k5 : Kernel)
      → IsImage k.memory location n names contents
      → Grants at location end n kmalloc root dev nodes k k1 k3 k5
      → let g = globals location root dev nodes n in
        (m' : Memory) × (initialise_initrd fuel at kmalloc location k
          ≡ ok (g, record k5 { memory = m' }))
        × IsMounted m' at g location names contents
        × ChangedBy k5.memory m' g 0 n
  initialise_initrd_lem kmalloc root dev nodes k k1 k3 k5 v t =
      let made_root =
        make_directory_lem fuel at at.initrd root b'i' (tail_of initrd_name) k1.memory
          t.initrd_literal (omega arith) t.initrd_apart (omega arith) in
      let made_dev =
        make_directory_lem fuel at at.dev dev b'd' (tail_of dev_name) k3.memory t.dev_literal
          (omega arith) t.dev_apart (omega arith) in
      let v2 =
        IsImage-directory at.initrd root b'i' (tail_of initrd_name) k.memory k1.memory
          t.initrd_literal (omega arith) t.initrd_apart t.root_disk v in
      let m2 = directory at at.initrd 6 root k1.memory in
      let v4 =
        IsImage-directory at.dev dev b'd' (tail_of dev_name) m2 k3.memory t.dev_literal
          (omega arith) t.dev_apart t.dev_disk v2 in
      let m4 = directory at at.dev 3 dev k3.memory in
      let v5 =
        IsImage-same m4 k5.memory location n names contents most named t.nodes_disk.kept v4 in
      let r2 =
        directory-IsDirectory fuel at at.initrd root b'i' (tail_of initrd_name) k1.memory
          t.initrd_literal (omega arith) t.initrd_apart lists finds
          (t.root_blank 6 (omega arith)) in
      let r4 =
        IsDirectory-directory at.dev dev b'd' (tail_of dev_name) m2 k3.memory t.dev_literal
          (omega arith) t.dev_apart root initrd_name (omega arith) t.dev_root r2 in
      let r5 =
        IsDirectory-same m4 k5.memory at root initrd_name (omega arith) t.nodes_root.kept r4 in
      let d4 =
        directory-IsDirectory fuel at at.dev dev b'd' (tail_of dev_name) k3.memory t.dev_literal
          (omega arith) t.dev_apart lists finds (t.dev_blank 3 (omega arith)) in
      let d5 = IsDirectory-same m4 k5.memory at dev dev_name (omega arith) t.nodes_dev.kept d4 in
      let (m', ran, mounted, changed) =
        IsMounted-files root dev nodes k5.memory v5 r5 d5 t.nodes_blank t.nodes_disk.apart
          t.root_disk.apart t.dev_disk.apart t.nodes_root.apart t.nodes_dev.apart in
      (
        m',
        initialise_initrd-steps kmalloc root dev nodes k k1 k3 k5 m' m2 m4 t.root_call made_root
            t.dev_call made_dev v4.count t.nodes_call v5.count ran,
        mounted,
        changed,
      )
