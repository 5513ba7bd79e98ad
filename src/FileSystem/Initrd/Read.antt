-- ===== src/FileSystem/Initrd/Read.antt =====
-- What the ramdisk reads.
use fotix.Base.{
  ℕ, ◌+◌, ◌-◌, ◌^◌, ◌≤◌, ◌<◌, ◌≡◌, refl, ◌⊎◌, inl, inr, arith, Bool, Bool-cases, ◌&&◌, leb, ltb,
  if◌then◌else◌,
}
use fotix.Memory.{Memory, load8, load32, memcpy}
use fotix.Memory.Words.{load32-lt}
use fotix.Memory.Blocks.{memcpy_lem}
use fotix.FileSystem.{node_inode}
use fotix.FileSystem.Initrd.{Initrd, file_header, header_offset, header_length, initrd_read}

-- The length of a node's file, and where its data begins.
abbrev pub file_length : Initrd → Memory → (node : ℕ) → ℕ
file_length g m node = load32 m (header_length (file_header g (load32 m (node_inode node))))

abbrev pub file_start : Initrd → Memory → (node : ℕ) → ℕ
file_start g m node = load32 m (header_offset (file_header g (load32 m (node_inode node))))

-- The bytes that a read delivers.
abbrev pub delivered : (length offset size : ℕ) → ℕ
delivered length offset size = if ltb (length - offset) size then length - offset else size

initrd_read-copies :
    (g : Initrd) (node offset size buffer : ℕ) (m : Memory)
    → offset + size < 2 ^ 32
    → file_start g m node + offset < 2 ^ 32
    → let n = delivered (file_length g m node) offset size in
      initrd_read g node offset size buffer m
      ≡ (n, memcpy m buffer (file_start g m node + offset) n)
unfolding initrd_read memcpy
initrd_read-copies g node offset size buffer m nowrap start =
    let len = file_length g m node in
    let bound = load32-lt m (header_length (file_header g (load32 m (node_inode node)))) in
    elim (Bool-cases (ltb len offset)) [
      | inl t ↦
          let none_left : delivered len offset size ≡ 0 = ground arith in rw (t, none_left) refl
      | inr f ↦ ground (arith, bound)
    ]

-- Where `offset + size` does not wrap, `initrd_read` returns as many bytes as the file has left, at
-- most `size`, none behind its end; those bytes are in the buffer, and all other memory is as before.
pub initrd_read_lem :
    (g : Initrd) (node offset size buffer : ℕ) (m : Memory)
    → offset + size < 2 ^ 32
    → file_start g m node + offset < 2 ^ 32
    → (buffer ≤ file_start g m node + offset) ⊎ (file_start g m node + offset + size ≤ buffer)
    → (n : ℕ) × (m' : Memory) × (initrd_read g node offset size buffer m ≡ (n, m'))
      × (n ≡ delivered (file_length g m node) offset size)
      × ((a : ℕ)
          → m' a ≡ (
              if leb buffer a && ltb a (buffer + n)
              then load8 m (file_start g m node + offset + (a - buffer))
              else m a))
initrd_read_lem g node offset size buffer m nowrap start apart =
    let n = delivered (file_length g m node) offset size in
    (
      n,
      memcpy m buffer (file_start g m node + offset) n,
      initrd_read-copies g node offset size buffer m nowrap start,
      refl,
      λ a. memcpy_lem m buffer (file_start g m node + offset) n a (ground (arith, apart)),
    )

-- The sum of `offset` and `size` wraps to a place inside the file, from a place inside the file.
abbrev pub wraps_inside : (length offset size : ℕ) → Bool
wraps_inside length offset size =
    leb offset length && (leb (2 ^ 32) (offset + size) && leb (offset + size) (2 ^ 32 + length))
