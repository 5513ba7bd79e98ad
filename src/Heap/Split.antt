-- ===== src/Heap/Split.antt =====
-- The two writes of `alloc` behind the search: the block, and the hole of what is left.
use fotix.Base.{
  ℕ, ◌+◌, ◌-◌, ◌^◌, ◌≤◌, ◌<◌, ◌≡◌, refl, ap, subst, ◌∙◌, arith, ◌⊎◌, inl, inr, true, false, some,
  ◌==◌, ltb, ok, u32, sub32,
}
use fotix.Memory.{Memory}
use fotix.Memory.Words.{words-same}
use fotix.OrderedArray.{OrderedArray, LessThan, slot, insert_ordered_array}
use fotix.OrderedArray.Items.{items, insert_by}
use fotix.OrderedArray.Frame.{Outside, insert-once}
use fotix.Kernel.{write_header, write_footer}
use fotix.Heap.Alloc.{Store, write_block, split_rest}
use fotix.Heap.Block.{
  IsBlock, IsBlock-same, written-IsBlock, write_header-outside, write_footer-outside,
}

-- A header with a footer at the end, as `alloc` writes them, changes nothing else.
pub write_block_lem :
    (m : Memory) (pos size : ℕ)
    → pos + size + 20 < 2 ^ 32
    → IsBlock (write_block m pos size (size + 20)) pos 0 (size + 20)
      × ((b : ℕ) → (b < pos) ⊎ (pos + size + 20 ≤ b) → write_block m pos size (size + 20) b ≡ m b)
unfolding write_block
write_block_lem m pos size fits =
    let foot : pos + (size + 20) - 8 ≡ u32 (pos + 12 + size) = omega arith in
    (
      subst
          (λ (f : ℕ).
            IsBlock (write_footer (write_header m pos 0 (size + 20)) f pos) pos 0 (size + 20))
          foot (written-IsBlock m pos 0 (size + 20) (omega arith) (omega arith) (omega arith)),
      λ b h.
          write_footer-outside (write_header m pos 0 (size + 20)) (u32 (pos + 12 + size)) pos b
            (omega arith)
          ∙ write_header-outside m pos 0 (size + 20) b (omega arith),
    )

split_rest-splits :
    (m : Memory) (index : OrderedArray) (end_address pos size left : ℕ)
    → size + 40 ≤ left
    → pos + left ≤ end_address
    → end_address < 2 ^ 32
    → split_rest (m, index) end_address pos size (size + 20) left
      ≡ insert_ordered_array
          (write_footer
            (write_header m (pos + (size + 20)) 1 (left - (size + 20)))
            (pos + (size + 20) + (left - (size + 20)) - 8)
            (pos + (size + 20)))
          index
          (pos + (size + 20))
unfolding split_rest
split_rest-splits m index end_address pos size left room inside fits =
    let at = pos + (size + 20) in
    let rest = left - (size + 20) in
    let e1 : u32 (pos + 12 + size + 8) ≡ at = omega arith in
    let e2 : sub32 left (size + 20) ≡ rest = omega arith in
    let e3 : sub32 (u32 (at + rest)) 8 ≡ at + rest - 8 = omega arith in
    let e4 : (rest == 0) ≡ false = ground arith in
    let e5 : ltb (at + rest - 8) end_address ≡ true = ground arith in rw (e1, e2, e3, e4, e5) refl

-- A rest with room for a header and a footer becomes a hole behind the block, and joins the index in
-- front of the first that is not less, which is asked of the memory `m2` before the insertion; the
-- block and what else does not belong to the index stay as they are.
pub split_rest_lem :
    (m : Memory) (index : OrderedArray) (less : LessThan) (end_address pos size left : ℕ)
    → index.less_than ≡ some less
    → slot index (index.size + 1) ≤ pos
    → size + 40 ≤ left
    → pos + left ≤ end_address
    → end_address < 2 ^ 32
    → (s : Store) × (split_rest (m, index) end_address pos size (size + 20) left ≡ ok s)
      × IsBlock s.0 (pos + (size + 20)) 1 (left - (size + 20))
      × (s.1 ≡ record index { size = index.size + 1 })
      × ((m2 : Memory) × (items s.0 s.1 ≡ insert_by (less m2) (pos + (size + 20)) (items m index))
          × ((b : ℕ) → Outside index (index.size + 1) b → s.0 b ≡ m2 b))
      × ((b : ℕ)
          → Outside index (index.size + 1) b
          → (b < pos + (size + 20)) ⊎ (pos + left ≤ b)
          → s.0 b ≡ m b)
split_rest_lem m index less end_address pos size left order below room inside fits =
    let at = pos + (size + 20) in
    let rest = left - (size + 20) in
    let m1 = write_header m at 1 rest in
    let m2 = write_footer m1 (at + rest - 8) at in
    let outside = λ (b : ℕ) (apart : (b < at) ⊎ (at + rest ≤ b)).
      write_footer-outside m1 (at + rest - 8) at b (omega arith)
      ∙ write_header-outside m at 1 rest b (omega arith) in
    let (s, done, grown, sorted, same) =
      insert-once m2 index less at order (omega arith) (omega arith) in
    (
      s,
      split_rest-splits m index end_address pos size left room inside fits ∙ done,
      IsBlock-same m2 s.0 at 1 rest (omega arith) (λ b p q. same b (inr (omega arith)))
          (written-IsBlock m at 1 rest (omega arith) (omega arith) (omega arith)),
      grown,
      (
        m2,
        sorted
            ∙ ap (insert_by (less m2) at)
                (words-same m m2 index.array index.size (λ b p q. outside b (inl (omega arith)))),
        same,
      ),
      λ b out apart. same b out ∙ outside b (omega arith),
    )
