-- ===== src/FileSystem.antt =====
-- The virtual file system of sys/fs.c, with the nodes of include/fs.h in memory. A callback is an
-- address, 0 where a node has none, and `call` runs the function at an address.
pub mod Initrd
use fotix.Base.{ℕ, ◌+◌, ◌*◌, Bool, not, ◌&&◌, ◌==◌, if◌then◌else◌, Outcome, ok, ◌>>=◌, bit_and}
use fotix.Memory.{Memory, load32}

-- The fields of the `fs_node_t` at an address; its name takes the first 128 bytes.
abbrev pub node_size : ℕ
node_size = 184

abbrev pub node_mask : ℕ → ℕ
node_mask node = node + 128

abbrev pub node_uid : ℕ → ℕ
node_uid node = node + 132

abbrev pub node_gid : ℕ → ℕ
node_gid node = node + 136

abbrev pub node_flags : ℕ → ℕ
node_flags node = node + 140

abbrev pub node_inode : ℕ → ℕ
node_inode node = node + 144

abbrev pub node_length : ℕ → ℕ
node_length node = node + 148

abbrev pub node_impl : ℕ → ℕ
node_impl node = node + 152

abbrev pub node_read : ℕ → ℕ
node_read node = node + 156

abbrev pub node_write : ℕ → ℕ
node_write node = node + 160

abbrev pub node_open : ℕ → ℕ
node_open node = node + 164

abbrev pub node_close : ℕ → ℕ
node_close node = node + 168

abbrev pub node_readdir : ℕ → ℕ
node_readdir node = node + 172

abbrev pub node_finddir : ℕ → ℕ
node_finddir node = node + 176

abbrev pub node_ptr : ℕ → ℕ
node_ptr node = node + 180

abbrev pub fs_file : ℕ
fs_file = 1

abbrev pub fs_directory : ℕ
fs_directory = 2

-- The index of a `struct dirent`, behind its name.
abbrev pub dirent_ino : ℕ → ℕ
dirent_ino dirent = dirent + 128

-- `read_type_t` and the others, as functions that may change memory.
abbrev pub ReadType : Type 0
ReadType = (node offset size buffer : ℕ) → Memory → Outcome (ℕ × Memory)

abbrev pub OpenType : Type 0
OpenType = (node : ℕ) → Memory → Outcome Memory

abbrev pub ReaddirType : Type 0
ReaddirType = (node index : ℕ) → Memory → Outcome (ℕ × Memory)

abbrev pub FinddirType : Type 0
FinddirType = (node name : ℕ) → Memory → Outcome (ℕ × Memory)

unfoldable pub read_fs : (call : ℕ → ReadType) → ReadType
read_fs call node offset size buffer m =
    if not (load32 m (node_read node) == 0)
    then call (load32 m (node_read node)) node offset size buffer m
    else ok (0, m)

unfoldable pub write_fs : (call : ℕ → ReadType) → ReadType
write_fs call node offset size buffer m =
    if not (load32 m (node_write node) == 0)
    then call (load32 m (node_write node)) node offset size buffer m
    else ok (0, m)

-- The two flags of `open_fs` are not used.
unfoldable pub open_fs : (call : ℕ → OpenType) → (node read write : ℕ) → Memory → Outcome Memory
open_fs call node read write m =
    if not (load32 m (node_open node) == 0) then call (load32 m (node_open node)) node m else ok m

unfoldable pub close_fs : (call : ℕ → OpenType) → OpenType
close_fs call node m =
    if not (load32 m (node_close node) == 0) then call (load32 m (node_close node)) node m else ok m

unfoldable pub readdir_fs : (call : ℕ → ReaddirType) → ReaddirType
readdir_fs call node index m =
    if (bit_and (load32 m (node_flags node)) 0x7 == fs_directory)
      && not (load32 m (node_readdir node) == 0)
    then call (load32 m (node_readdir node)) node index m
    else ok (0, m)

unfoldable pub finddir_fs : (call : ℕ → FinddirType) → FinddirType
finddir_fs call node name m =
    if (bit_and (load32 m (node_flags node)) 0x7 == fs_directory)
      && not (load32 m (node_finddir node) == 0)
    then call (load32 m (node_finddir node)) node name m
    else ok (0, m)
