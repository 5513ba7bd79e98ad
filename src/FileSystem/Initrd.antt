-- ===== src/FileSystem/Initrd.antt =====
-- The initial ramdisk of sys/initrd.c. Its globals and the addresses that the linker gives are a
-- record; the headers, the nodes and the static `dirent` lie in memory.
pub mod Read
pub mod Lookup
pub mod Image
pub mod Fields
pub mod MakeFile
pub mod Files
pub mod Start
pub mod Mount
pub mod Fetch
mod Tests
use fotix.Base.{
  ℕ, zero, suc, ◌+◌, ◌*◌, Bool, true, false, ◌&&◌, ◌==◌, leb, ltb, if◌then◌else◌, Outcome, ok,
  ◌>>=◌, u32, sub32,
}
use fotix.Memory.{Memory, load32, store8, store32, memcpy}
use fotix.Strings.{strlen, strcmp, strcpy}
use fotix.Kernel.{Kernel}
use fotix.FileSystem.{
  node_size, node_mask, node_uid, node_gid, node_flags, node_inode, node_length, node_impl,
  node_read, node_write, node_open, node_close, node_readdir, node_finddir, node_ptr, fs_file,
  fs_directory, dirent_ino,
}

-- Where the program's own objects lie: the static `dirent`, the literals "dev" and "initrd", and
-- the functions that nodes point to.
pub record Symbols : Type 0 where
  pub dirent : ℕ
  pub dev : ℕ
  pub initrd : ℕ
  pub read : ℕ
  pub readdir : ℕ
  pub finddir : ℕ

-- The globals that `initialise_initrd` sets.
pub record Initrd : Type 0 where
  pub initrd_header : ℕ
  pub file_headers : ℕ
  pub initrd_root : ℕ
  pub initrd_dev : ℕ
  pub root_nodes : ℕ
  pub nroot_nodes : ℕ

-- The fields of the `initrd_file_header_t` of a file: a byte, a name of 64 bytes, three bytes of
-- padding, two words.
abbrev pub file_header : Initrd → (i : ℕ) → ℕ
file_header g i = g.file_headers + 76 * i

abbrev pub header_name : ℕ → ℕ
header_name header = header + 1

abbrev pub header_offset : ℕ → ℕ
header_offset header = header + 68

abbrev pub header_length : ℕ → ℕ
header_length header = header + 72

-- `&root_nodes[i]`.
abbrev pub root_node : Initrd → (i : ℕ) → ℕ
root_node g i = g.root_nodes + node_size * i

unfoldable pub initrd_read : Initrd → (node offset size buffer : ℕ) → Memory → ℕ × Memory
initrd_read g node offset size buffer m =
    let header = file_header g (load32 m (node_inode node)) in
    let length = load32 m (header_length header) in
    let size' = if ltb length (u32 (offset + size)) then sub32 length offset else size in
    if ltb length offset
    then (0, m)
    else (size', memcpy m buffer (u32 (load32 m (header_offset header) + offset)) size')

-- The name of the node at an address goes into `dirent`, with the NUL that `strcpy` leaves out.
unfoldable pub fill_dirent : (fuel : ℕ) → Symbols → (node : ℕ) → Memory → Outcome (ℕ × Memory)
fill_dirent fuel at node m = do
  m1 ← strcpy fuel m at.dirent node
  n ← strlen fuel m1 node
  let m2 = store8 m1 (at.dirent + n) 0
  ok (at.dirent, store32 m2 (dirent_ino at.dirent) (load32 m2 (node_inode node)))

unfoldable pub initrd_readdir :
    (fuel : ℕ) → Symbols → Initrd → (node index : ℕ) → Memory → Outcome (ℕ × Memory)
initrd_readdir fuel at g node index m =
    let dev : Outcome (ℕ × Memory) = (do
      m1 ← strcpy fuel m at.dirent at.dev
      ok (at.dirent, store32 (store8 m1 (at.dirent + 3) 0) (dirent_ino at.dirent) 0)) in
    if (node == g.initrd_root) && (index == 0)
    then dev
    else if leb g.nroot_nodes (sub32 index 1)
    then ok (0, m)
    else fill_dirent fuel at (root_node g (sub32 index 1)) m

-- The loop over the nodes, with the rounds left.
unfoldable pub find_node :
    (fuel : ℕ) → Initrd → (name : ℕ) → Memory → (rounds counter : ℕ) → Outcome ℕ
find_node fuel g name m zero counter = ok 0
find_node fuel g name m (suc rounds) counter =
    let rest = find_node fuel g name m rounds (counter + 1) in
    (do
      failed ← strcmp fuel m name (root_node g counter)
      if failed == 0 then ok (root_node g counter) else rest)

unfoldable pub initrd_finddir : (fuel : ℕ) → Symbols → Initrd → (node name : ℕ) → Memory → Outcome ℕ
initrd_finddir fuel at g node name m =
    let search = find_node fuel g name m g.nroot_nodes 0 in
    let at_root : Outcome ℕ = (do
      failed ← strcmp fuel m name at.dev
      if failed == 0 then ok g.initrd_dev else search) in
    if node == g.initrd_root then at_root else search

-- The fields that all nodes of the ramdisk set, in the order of the source but for the chains.
unfoldable pub set_fields : Memory → (node length inode flags read readdir finddir : ℕ) → Memory
set_fields m node length inode flags read readdir finddir =
    let m1 = store32 (store32 (store32 m (node_gid node) 0) (node_uid node) 0) (node_mask node) 0 in
    let m2 = store32 (store32 m1 (node_length node) length) (node_inode node) inode in
    let m3 = store32 (store32 m2 (node_flags node) flags) (node_read node) read in
    let m4 = store32 (store32 m3 (node_write node) 0) (node_open node) 0 in
    let m5 = store32 (store32 m4 (node_close node) 0) (node_readdir node) readdir in
    store32 (store32 m5 (node_finddir node) finddir) (node_impl node) 0

-- A directory of the ramdisk: the root, and `dev`.
unfoldable pub make_directory : (fuel : ℕ) → Symbols → (name node : ℕ) → Memory → Outcome Memory
make_directory fuel at name node m = do
  m1 ← strcpy fuel m node name
  ok (store32 (set_fields m1 node 0 0 fs_directory 0 at.readdir at.finddir) (node_ptr node) 0)

-- The loop over the files, with the rounds left. `ptr` of a file's node is not set.
unfoldable pub make_files :
    (fuel : ℕ) → Symbols → Initrd → (location rounds counter : ℕ) → Memory → Outcome Memory
make_files fuel at g location zero counter m = ok m
make_files fuel at g location (suc rounds) counter m = do
  let header = file_header g counter
  let moved = u32 (load32 m (header_offset header) + location)
  m1 ←
      strcpy fuel (store32 m (header_offset header) moved) (root_node g counter)
        (header_name header)
  let length = load32 m1 (header_length header)
  make_files fuel at g location rounds (counter + 1)
      (set_fields m1 (root_node g counter) length counter fs_file at.read 0 0)

-- `initialise_initrd`, given `kmalloc`.
unfoldable pub initialise_initrd :
    (fuel : ℕ)
    → Symbols
    → (kmalloc : (sz : ℕ) → Kernel → Outcome (ℕ × Kernel)) → (location : ℕ) → Kernel
    → Outcome (Initrd × Kernel)
initialise_initrd fuel at kmalloc location k = do
  (root, k1) ← kmalloc node_size k
  m2 ← make_directory fuel at at.initrd root k1.memory
  (dev, k3) ← kmalloc node_size (record k1 { memory = m2 })
  m4 ← make_directory fuel at at.dev dev k3.memory
  (nodes, k5) ← kmalloc (u32 (node_size * load32 m4 location)) (record k3 { memory = m4 })
  let g : Initrd = record {
    initrd_header = location;
    file_headers = location + 4;
    initrd_root = root;
    initrd_dev = dev;
    root_nodes = nodes;
    nroot_nodes = load32 k5.memory location;
  }
  m6 ← make_files fuel at g location (load32 k5.memory location) 0 k5.memory
  ok (g, record k5 { memory = m6 })
