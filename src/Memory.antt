-- ===== src/Memory.antt =====
-- The memory of the machine, and the routines of sys/common.c that move bytes in it. An address is
-- a number, and pointers do not wrap: a C pointer that leaves its object is undefined.
pub mod Words
pub mod Blocks
mod Tests
use fotix.Base.{ℕ, zero, suc, ◌+◌, ◌*◌, ◌/◌, ◌%◌, ◌^◌, ◌<◌, ◌≡◌, Bool, ◌==◌, if◌then◌else◌, u8}

-- The byte at each address.
abbrev pub Memory : Type 0
Memory = ℕ → ℕ

unfoldable pub load8 : Memory → ℕ → ℕ
load8 m a = u8 (m a)

unfoldable pub store8 : Memory → ℕ → ℕ → Memory
store8 m a v b = if b == a then u8 v else m b

-- A `u32int` stands with its lowest byte first.
unfoldable pub load32 : Memory → ℕ → ℕ
unfolding load8
load32 m a =
    load8 m a + 2 ^ 8 * load8 m (a + 1) + 2 ^ 16 * load8 m (a + 2) + 2 ^ 24 * load8 m (a + 3)

unfoldable pub store32 : Memory → ℕ → ℕ → Memory
unfolding store8
store32 m a v =
    store8 (store8 (store8 (store8 m a v) (a + 1) (v / 2 ^ 8)) (a + 2) (v / 2 ^ 16)) (a + 3)
      (v / 2 ^ 24)

-- `memcpy`: one byte a round, upwards.
unfoldable pub memcpy : Memory → (dest src len : ℕ) → Memory
memcpy m dest src zero = m
memcpy m dest src (suc len) = memcpy (store8 m dest (load8 m src)) (dest + 1) (src + 1) len

unfoldable pub memset : Memory → (dest val len : ℕ) → Memory
memset m dest val zero = m
memset m dest val (suc len) = memset (store8 m dest val) (dest + 1) val len
