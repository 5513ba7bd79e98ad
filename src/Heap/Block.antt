-- ===== src/Heap/Block.antt =====
-- Blocks and holes as they lie in memory: a header, and a footer at the end that points back.
use fotix.Base.{ℕ, ◌+◌, ◌-◌, ◌^◌, ◌≤◌, ◌<◌, ◌≡◌, ◌∙◌, arith, ◌⊎◌, inl}
use fotix.Memory.{Memory, load8, store8, load32, store32}
use fotix.Memory.Words.{load32-store32, load32-store32_apart, load32-same, store32-outside}
use fotix.Kernel.{
  heap_magic, header_magic, header_is_hole, header_block_size, footer_magic, footer_header,
  write_header, write_footer,
}

-- At `pos` stands a block of `size` bytes with its header and its footer.
pub record IsBlock (m : Memory) (pos is_hole size : ℕ) : Type 0 where
  pub magic : header_magic m pos ≡ heap_magic
  pub hole : header_is_hole m pos ≡ is_hole
  pub extent : header_block_size m pos ≡ size
  pub end_magic : footer_magic m (pos + size - 8) ≡ heap_magic
  pub back : footer_header m (pos + size - 8) ≡ pos

pub load8-store8 : (m : Memory) (a v : ℕ) → v < 2 ^ 8 → load8 (store8 m a v) a ≡ v
unfolding load8 store8
load8-store8 m a v h = ground arith

pub load32-store8_apart :
    (m : Memory) (a v b : ℕ) → (b + 4 ≤ a) ⊎ (a < b) → load32 (store8 m a v) b ≡ load32 m b
unfolding load32 load8 store8
load32-store8_apart m a v b h = ground arith

load8-store32_apart :
    (m : Memory) (a v b : ℕ) → (b < a) ⊎ (a + 4 ≤ b) → load8 (store32 m a v) b ≡ load8 m b
unfolding load8
load8-store32_apart m a v b h = ground (arith, store32-outside m a v b)

-- What the writes leave alone.
pub write_header-outside :
    (m : Memory) (a is_hole size b : ℕ)
    → (b < a) ⊎ (a + 12 ≤ b)
    → write_header m a is_hole size b ≡ m b
unfolding write_header store8
write_header-outside m a is_hole size b h = ground (
  arith,
  store32-outside m a heap_magic b,
  store32-outside (store8 (store32 m a heap_magic) (a + 4) is_hole) (a + 8) size b,
)

pub write_footer-outside :
    (m : Memory) (a header b : ℕ) → (b < a) ⊎ (a + 8 ≤ b) → write_footer m a header b ≡ m b
unfolding write_footer
write_footer-outside m a header b h = ground (
  arith,
  store32-outside m a heap_magic b,
  store32-outside (store32 m a heap_magic) (a + 4) header b,
)

-- A header and a footer written where they belong make a block.
pub written-IsBlock :
    (m : Memory) (pos is_hole size : ℕ)
    → 20 ≤ size
    → is_hole < 2 ^ 8
    → pos + size < 2 ^ 32
    → IsBlock (write_footer (write_header m pos is_hole size) (pos + size - 8) pos) pos is_hole size
unfolding write_header write_footer
written-IsBlock m pos is_hole size room flag fits =
    let m1 = store32 m pos heap_magic in
    let m2 = store8 m1 (pos + 4) is_hole in
    let m3 = store32 m2 (pos + 8) size in
    let foot = pos + size - 8 in
    let m4 = store32 m3 foot heap_magic in
    record {
      magic =
          load32-store32_apart m4 (foot + 4) pos pos (inl (omega arith))
          ∙ load32-store32_apart m3 foot heap_magic pos (inl (omega arith))
          ∙ load32-store32_apart m2 (pos + 8) size pos (inl (omega arith))
          ∙ load32-store8_apart m1 (pos + 4) is_hole pos (inl (omega arith))
          ∙ load32-store32 m pos heap_magic (omega arith);
      hole =
          load8-store32_apart m4 (foot + 4) pos (pos + 4) (inl (omega arith))
          ∙ load8-store32_apart m3 foot heap_magic (pos + 4) (inl (omega arith))
          ∙ load8-store32_apart m2 (pos + 8) size (pos + 4) (inl (omega arith))
          ∙ load8-store8 m1 (pos + 4) is_hole flag;
      extent =
          load32-store32_apart m4 (foot + 4) pos (pos + 8) (inl (omega arith))
          ∙ load32-store32_apart m3 foot heap_magic (pos + 8) (inl (omega arith))
          ∙ load32-store32 m2 (pos + 8) size (omega arith);
      end_magic =
          load32-store32_apart m4 (foot + 4) pos foot (inl (omega arith))
          ∙ load32-store32 m3 foot heap_magic (omega arith);
      back = load32-store32 m4 (foot + 4) pos (omega arith);
    }

-- A block stays where its bytes stay.
pub IsBlock-same :
    (m m' : Memory) (pos is_hole size : ℕ)
    → 20 ≤ size
    → ((b : ℕ) → pos ≤ b → b < pos + size → m' b ≡ m b)
    → IsBlock m pos is_hole size
    → IsBlock m' pos is_hole size
unfolding load8
IsBlock-same m m' pos is_hole size room same v = record {
  magic = load32-same m m' pos (λ b p q. same b (omega arith) (omega arith)) ∙ v.magic;
  hole = ground (arith, same (pos + 4));
  extent = load32-same m m' (pos + 8) (λ b p q. same b (omega arith) (omega arith)) ∙ v.extent;
  end_magic =
      load32-same m m' (pos + size - 8) (λ b p q. same b (omega arith) (omega arith)) ∙ v.end_magic;
  back =
      load32-same m m' (pos + size - 8 + 4) (λ b p q. same b (omega arith) (omega arith)) ∙ v.back;
}
