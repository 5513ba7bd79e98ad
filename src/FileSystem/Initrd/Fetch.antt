-- ===== src/FileSystem/Initrd/Fetch.antt =====
-- A file of the mounted ramdisk, found and read by the calls of sys/fs.c.
use fotix.Base.{
  ℕ, ◌+◌, ◌-◌, ◌^◌, ◌≤◌, ◌<◌, ◌≡◌, ◌≢◌, refl, ap, ◌∙◌, ◌⊎◌, inl, inr, arith, Bool-cases, false,
  List, length, get_or, ok, leb, ltb, ◌&&◌, ◌==◌, if◌then◌else◌, ◌>>=◌,
}
use fotix.Memory.{Memory, load8, load32}
use fotix.Strings.Facts.{IsString}
use fotix.FileSystem.{node_read, ReadType, FinddirType, read_fs, finddir_fs}
use fotix.FileSystem.Initrd.{Initrd, Symbols, root_node, initrd_finddir, initrd_read}
use fotix.FileSystem.Initrd.Lookup.{FoundFrom, initrd_finddir_lem}
use fotix.FileSystem.Initrd.Read.{delivered, file_length, file_start, initrd_read_lem}
use fotix.FileSystem.Initrd.Image.{start, load8-copied}
use fotix.FileSystem.Initrd.Files.{IsName}
use fotix.FileSystem.Initrd.Start.{IsDirectory, initrd_name, dev_name, IsMounted}

-- What the linker puts behind the two callbacks.
abbrev pub finddir_callback : (fuel : ℕ) → Symbols → Initrd → FinddirType
finddir_callback fuel at g node name m = do r ← initrd_finddir fuel at g node name m; ok (r, m)

abbrev pub read_callback : Initrd → ReadType
read_callback g node offset size buffer m = ok (initrd_read g node offset size buffer m)

finddir_fs-called :
    (call : ℕ → FinddirType) (at : Symbols) (node name : ℕ) (cs : List ℕ) (m : Memory)
    → IsDirectory m at node cs
    → 0 < at.finddir
    → finddir_fs call node name m ≡ call at.finddir node name m
unfolding finddir_fs
finddir_fs-called call at node name cs m v linked =
    let some_callback : (at.finddir == 0) ≡ false = ground arith in
    rw (v.fields.flagged, v.fields.finds, some_callback) refl

read_fs-called :
    (call : ℕ → ReadType) (node offset size buffer read : ℕ) (m : Memory)
    → load32 m (node_read node) ≡ read
    → 0 < read
    → read_fs call node offset size buffer m ≡ call read node offset size buffer m
unfolding read_fs
read_fs-called call node offset size buffer read m e linked =
    let some_callback : (read == 0) ≡ false = ground arith in rw (e, some_callback) refl

first_unique :
    (g : Initrd) (names : ℕ → List ℕ) (i n r : ℕ)
    → i < n
    → ((j : ℕ) → j < i → names j ≢ names i)
    → FoundFrom g names (names i) 0 n r
    → r ≡ root_node g i
first_unique g names i n r p first (inl (null, nowhere)) = absurd (nowhere i (omega arith) p refl)
first_unique g names i n r p first (inr (k, at, low, q, hit, before)) =
    elim (Bool-cases (ltb k i)) [
      | inl t ↦ absurd (first k (ground arith) hit)
      | inr t ↦ elim (Bool-cases (ltb i k)) [
        | inl u ↦ absurd (before i (omega arith) (ground arith) refl)
        | inr u ↦ at ∙ ap (root_node g) (ground arith)
      ]
    ]

module _ (fuel : ℕ) (at : Symbols) (g : Initrd) (location : ℕ) (names contents : ℕ → List ℕ)
    (m : Memory) (v : IsMounted m at g location names contents) (i : ℕ)
    (inside : i < g.nroot_nodes) where
  found :
      (name : ℕ)
      → 64 ≤ fuel
      → ((j : ℕ) → j < g.nroot_nodes → IsName (names j))
      → ((j : ℕ) → j < i → names j ≢ names i)
      → names i ≢ dev_name
      → IsString m name (names i)
      → IsString m at.dev dev_name
      → initrd_finddir fuel at g g.initrd_root name m ≡ ok (root_node g i)
  found name enough named first other s dev =
      let (low, short) = named i inside in
      let (r, ran, result) =
        initrd_finddir_lem fuel g name m (names i) names at g.initrd_root (omega arith) s dev
          (λ j p. (v.file j p).name) in
      ran ∙ elim result [
        | inl (here, is_dev, e) ↦ absurd (other is_dev)
        | inr (away, e) ↦ ap ok (first_unique g names i g.nroot_nodes r inside first e)
      ]

  place : file_start g m (root_node g i) ≡ location + start contents i
  place = rw ((v.file i inside).fields.numbered) ((v.file i inside).offset)

  extent : file_length g m (root_node g i) ≡ length (contents i)
  extent = rw ((v.file i inside).fields.numbered) ((v.file i inside).extent)

  byte :
      (offset size buffer : ℕ) (m' : Memory) (n : ℕ)
      → n ≡ delivered (length (contents i)) offset size
      → offset ≤ length (contents i)
      → ((a : ℕ)
          → m' a ≡ (
              if leb buffer a && ltb a (buffer + n)
              then load8 m (file_start g m (root_node g i) + offset + (a - buffer))
              else m a))
      → (j : ℕ) → j < n
      → load8 m' (buffer + j) ≡ get_or (contents i) (offset + j) 0
  byte offset size buffer m' n e fits bytes j p =
      let at_byte : m' (buffer + j) ≡ load8 m (location + start contents i + (offset + j)) =
        rw (bytes (buffer + j), place)
          (ground (
            arith,
            ap (load8 m) {x = location + start contents i + offset + (buffer + j - buffer)}
                {y = location + start contents i + (offset + j)} (omega arith),
          )) in
      load8-copied m m' (location + start contents i + (offset + j)) (buffer + j) at_byte
      ∙ v.content i inside (offset + j) (ground (arith, e))

  -- Once the ramdisk has been initialised, `finddir_fs` on its root finds each file by its name,
  -- where no file before it has that name, and `read_fs` on the node puts the bytes of the file
  -- from `offset` on, at most `size`, in the buffer, none behind its end, and returns their number.
  pub fetch :
      (find : ℕ → FinddirType) (read : ℕ → ReadType) (name offset size buffer : ℕ)
      → 64 ≤ fuel
      → ((j : ℕ) → j < g.nroot_nodes → IsName (names j))
      → ((j : ℕ) → j < i → names j ≢ names i)
      → names i ≢ dev_name
      → IsString m name (names i)
      → IsString m at.dev dev_name
      → find at.finddir ≡ finddir_callback fuel at g
      → read at.read ≡ read_callback g
      → 0 < at.finddir
      → 0 < at.read
      → offset ≤ length (contents i)
      → offset + size < 2 ^ 32
      → location + start contents i + offset < 2 ^ 32
      → (buffer ≤ location + start contents i + offset)
        ⊎ (location + start contents i + offset + size ≤ buffer)
      → (finddir_fs find g.initrd_root name m ≡ ok (root_node g i, m))
        × ((n : ℕ) × (m' : Memory) × (read_fs read (root_node g i) offset size buffer m
              ≡ ok (n, m'))
            × (n ≡ delivered (length (contents i)) offset size)
            × ((j : ℕ) → j < n → load8 m' (buffer + j) ≡ get_or (contents i) (offset + j) 0))
  fetch find read name offset size buffer enough named first other s dev finds reads f_linked
        r_linked fits nowrap low apart =
      let (n, m', ran, count, bytes) =
        initrd_read_lem g (root_node g i) offset size buffer m nowrap (omega (arith, place))
          (omega (arith, place)) in
      let count' : n ≡ delivered (length (contents i)) offset size =
        count ∙ ap (λ (l : ℕ). delivered l offset size) extent in
      (
        finddir_fs-called find at g.initrd_root name initrd_name m v.root f_linked
            ∙ ap (λ (f : FinddirType). f g.initrd_root name m) finds
            ∙ rw (found name enough named first other s dev) refl,
        (
          n,
          m',
          read_fs-called read (root_node g i) offset size buffer at.read m
                ((v.file i inside).fields.reads) r_linked
              ∙ ap (λ (f : ReadType). f (root_node g i) offset size buffer m) reads
              ∙ ap ok ran,
          count',
          byte offset size buffer m' n count' fits bytes,
        ),
      )
