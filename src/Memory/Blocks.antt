-- ===== src/Memory/Blocks.antt =====
-- What `memcpy` and `memset` leave at each address.
use fotix.Base.{
  ◌<◌, ℕ, zero, suc, ◌+◌, ◌-◌, ◌≤◌, ◌≡◌, ◌⊎◌, arith, ◌&&◌, leb, ltb, if◌then◌else◌, u8,
}
use fotix.Memory.{Memory, load8, load32, store8, memcpy, memset}

-- `memset` writes `val` to the `len` bytes from `dest` on, and nothing else.
pub memset_lem :
    (m : Memory) (dest val len a : ℕ)
    → memset m dest val len a ≡ (if leb dest a && ltb a (dest + len) then u8 val else m a)
unfolding memset store8
memset_lem m dest val zero a = ground arith
memset_lem m dest val (suc len) a =
    ground (arith, memset_lem (store8 m dest val) (dest + 1) val len a)

-- Where the source does not start below the destination inside it, `memcpy` leaves in the `len`
-- bytes from `dest` on the bytes that the source had before the call, and writes nothing else.
pub memcpy_lem :
    (m : Memory) (dest src len a : ℕ)
    → (dest ≤ src) ⊎ (src + len ≤ dest)
    → memcpy m dest src len a
      ≡ (if leb dest a && ltb a (dest + len) then load8 m (src + (a - dest)) else m a)
unfolding memcpy store8 load8
memcpy_lem m dest src zero a h = ground arith
memcpy_lem m dest src (suc len) a h =
    ground (arith, memcpy_lem (store8 m dest (load8 m src)) (dest + 1) (src + 1) len a)

pub memcpy-outside :
    (m : Memory) (dest src len a : ℕ)
    → (dest ≤ src) ⊎ (src + len ≤ dest)
    → (a < dest) ⊎ (dest + len ≤ a)
    → memcpy m dest src len a ≡ m a
memcpy-outside m dest src len a apart out = ground (arith, memcpy_lem m dest src len a apart)

-- Words inside and outside a block that was cleared.
pub load32-memset_zero :
    (m : Memory) (dest len a : ℕ)
    → dest ≤ a
    → a + 4 ≤ dest + len
    → load32 (memset m dest 0 len) a ≡ 0
unfolding load32 load8
load32-memset_zero m dest len a p q = ground (
  arith,
  memset_lem m dest 0 len a,
  memset_lem m dest 0 len (a + 1),
  memset_lem m dest 0 len (a + 2),
  memset_lem m dest 0 len (a + 3),
)

pub load32-memset_apart :
    (m : Memory) (dest val len a : ℕ)
    → (a + 4 ≤ dest) ⊎ (dest + len ≤ a)
    → load32 (memset m dest val len) a ≡ load32 m a
unfolding load32 load8
load32-memset_apart m dest val len a h = ground (
  arith,
  memset_lem m dest val len a,
  memset_lem m dest val len (a + 1),
  memset_lem m dest val len (a + 2),
  memset_lem m dest val len (a + 3),
)
