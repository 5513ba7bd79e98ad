-- ===== src/Paging/Clone/Share.antt =====
-- The rounds of `clone_directory` that share a table, as a function of the memory.
use fotix.Base.{
  ℕ, zero, suc, ◌+◌, ◌≤◌, ◌<◌, ◌≡◌, refl, ap, ◌∙◌, arith, ◌⊎◌, inl, inr, Bool-cases, ◌&&◌, ◌==◌,
  ==_iff, leb, ltb, not, if◌then◌else◌,
}
use fotix.Memory.{Memory, load32, store32}
use fotix.Memory.Words.{
  load32-store32, load32-store32_apart, load32-same, load32-lt, store32-outside,
}
use fotix.Paging.Directory.{table_slot, physical_slot}

-- Two directories do not overlap.
abbrev pub Beside : (dir other : ℕ) → Type 0
Beside dir other = (dir + 8196 ≤ other) ⊎ (other + 8196 ≤ dir)

-- The memory after a round that shares a table, and after several.
unfoldable pub share : Memory → (src dir i : ℕ) → Memory
share m src dir i =
    let table = load32 m (table_slot src i) in
    let m' = store32 m (table_slot dir i) table in
    if table == 0 then m else store32 m' (physical_slot dir i) (load32 m' (physical_slot src i))

unfoldable pub share_all : Memory → (src dir rounds i : ℕ) → Memory
share_all m src dir zero i = m
share_all m src dir (suc rounds) i = share_all (share m src dir i) src dir rounds (i + 1)

-- A round for `i`, then those after it.
rounds_order :
    (tested value : ℕ → ℕ) (rounds i j old : ℕ)
    → (if leb (i + 1) j && ltb j (i + 1 + rounds) && not (tested j == 0)
        then value j
        else if (i == j) && not (tested i == 0)
        then value i
        else old)
      ≡ (if leb i j && ltb j (i + suc rounds) && not (tested j == 0) then value j else old)
rounds_order tested value rounds i j old = elim (Bool-cases (i == j)) [
  | inl t ↦
      let test : tested i ≡ tested j = ap tested ((==_iff i j).0 t) in
      let same : value i ≡ value j = ap value ((==_iff i j).0 t) in ground (arith, test, same)
  | inr f ↦ ground arith
]

module _ (src dir : ℕ) (apart : Beside dir src) where
  pub share-outside :
      (m : Memory) (i b : ℕ) → i < 1024 → (b < dir) ⊎ (dir + 8192 ≤ b) → share m src dir i b ≡ m b
  unfolding share
  share-outside m i b h out = elim (Bool-cases (load32 m (table_slot src i) == 0)) [
    | inl none ↦ rw none refl
    | inr some ↦
        let m' = store32 m (table_slot dir i) (load32 m (table_slot src i)) in
        rw some (
          store32-outside m' (physical_slot dir i) (load32 m' (physical_slot src i)) b (omega arith)
          ∙ store32-outside m (table_slot dir i) (load32 m (table_slot src i)) b (omega arith))
  ]

  -- A word outside the new directory.
  pub share-word :
      (m : Memory) (i a : ℕ)
      → i < 1024
      → (a + 4 ≤ dir) ⊎ (dir + 8192 ≤ a)
      → load32 (share m src dir i) a ≡ load32 m a
  share-word m i a h out =
      load32-same m (share m src dir i) a (λ b p q. share-outside m i b h (omega arith))

  share-table :
      (m : Memory) (i j : ℕ)
      → i < 1024
      → j < 1024
      → let table = load32 m (table_slot src i) in
        load32 (share m src dir i) (table_slot dir j)
        ≡ (if (i == j) && not (table == 0) then table else load32 m (table_slot dir j))
  unfolding share
  share-table m i j h k =
      let table = load32 m (table_slot src i) in
      let m' = store32 m (table_slot dir i) table in
      let other =
        load32-store32_apart m' (physical_slot dir i) (load32 m' (physical_slot src i))
          (table_slot dir j) (omega arith) in
      elim (Bool-cases (i == j)) [
        | inl t ↦
            let same : table_slot dir j ≡ table_slot dir i = omega (arith, (==_iff i j).0 t) in
            let here = load32-store32 m (table_slot dir i) table (load32-lt m (table_slot src i)) in
            elim (Bool-cases (table == 0)) [
              | inl none ↦ rw (none, t) refl
              | inr some ↦ rw (some, t) (other ∙ ap (load32 m') same ∙ here)
            ]
        | inr f ↦
            let apart' =
              load32-store32_apart m (table_slot dir i) table (table_slot dir j) (ground arith) in
            elim (Bool-cases (table == 0)) [
              | inl none ↦ rw (none, f) refl
              | inr some ↦ rw (some, f) (other ∙ apart')
            ]
      ]

  share-physical :
      (m : Memory) (i j : ℕ)
      → i < 1024
      → j < 1024
      → load32 (share m src dir i) (physical_slot dir j) ≡ (
          if (i == j) && not (load32 m (table_slot src i) == 0)
          then load32 m (physical_slot src i)
          else load32 m (physical_slot dir j))
  unfolding share
  share-physical m i j h k =
      let table = load32 m (table_slot src i) in
      let m' = store32 m (table_slot dir i) table in
      let phys = load32 m' (physical_slot src i) in
      let kept = load32-store32_apart m (table_slot dir i) table in
      elim (Bool-cases (i == j)) [
        | inl t ↦
            let same : physical_slot dir j ≡ physical_slot dir i =
              omega (arith, (==_iff i j).0 t) in
            let here =
              load32-store32 m' (physical_slot dir i) phys (load32-lt m' (physical_slot src i)) in
            elim (Bool-cases (table == 0)) [
              | inl none ↦ rw (none, t) refl
              | inr some ↦
                  rw (some, t)
                    (ap (load32 (store32 m' (physical_slot dir i) phys)) same
                      ∙ here
                      ∙ kept (physical_slot src i) (omega arith))
            ]
        | inr f ↦
            let other =
              load32-store32_apart m' (physical_slot dir i) phys (physical_slot dir j)
                (ground arith) in
            elim (Bool-cases (table == 0)) [
              | inl none ↦ rw (none, f) refl
              | inr some ↦ rw (some, f) (other ∙ kept (physical_slot dir j) (omega arith))
            ]
      ]

  pub share_all-outside :
      (m : Memory) (rounds i b : ℕ)
      → i + rounds ≤ 1024
      → (b < dir) ⊎ (dir + 8192 ≤ b)
      → share_all m src dir rounds i b ≡ m b
  unfolding share_all
  share_all-outside m zero i b h out = refl
  share_all-outside m (suc rounds) i b h out =
      share_all-outside (share m src dir i) rounds (i + 1) b (omega arith) out
      ∙ share-outside m i b (omega arith) out

  pub share_all-word :
      (m : Memory) (rounds i a : ℕ)
      → i + rounds ≤ 1024
      → (a + 4 ≤ dir) ⊎ (dir + 8192 ≤ a)
      → load32 (share_all m src dir rounds i) a ≡ load32 m a
  share_all-word m rounds i a h out =
      load32-same m (share_all m src dir rounds i) a
        (λ b p q. share_all-outside m rounds i b h (omega arith))

  pub share_all-table :
      (m : Memory) (rounds i j : ℕ)
      → i + rounds ≤ 1024
      → j < 1024
      → let table = load32 m (table_slot src j) in
        load32 (share_all m src dir rounds i) (table_slot dir j) ≡ (
          if leb i j && ltb j (i + rounds) && not (table == 0)
          then table
          else load32 m (table_slot dir j))
  unfolding share_all
  share_all-table m zero i j h k = ground arith
  share_all-table m (suc rounds) i j h k =
      let rest = share_all-table (share m src dir i) rounds (i + 1) j (omega arith) k in
      let kept = share-word m i (table_slot src j) (omega arith) (omega arith) in
      let tables = λ (n : ℕ). load32 m (table_slot src n) in
      rest
      ∙ rw (kept, share-table m i j (omega arith) k)
          (rounds_order tables tables rounds i j (load32 m (table_slot dir j)))

  pub share_all-physical :
      (m : Memory) (rounds i j : ℕ)
      → i + rounds ≤ 1024
      → j < 1024
      → load32 (share_all m src dir rounds i) (physical_slot dir j) ≡ (
          if leb i j && ltb j (i + rounds) && not (load32 m (table_slot src j) == 0)
          then load32 m (physical_slot src j)
          else load32 m (physical_slot dir j))
  unfolding share_all
  share_all-physical m zero i j h k = ground arith
  share_all-physical m (suc rounds) i j h k =
      let rest = share_all-physical (share m src dir i) rounds (i + 1) j (omega arith) k in
      let kept = share-word m i (table_slot src j) (omega arith) (omega arith) in
      let kept' = share-word m i (physical_slot src j) (omega arith) (omega arith) in
      rest
      ∙ rw (kept, kept', share-physical m i j (omega arith) k)
          (rounds_order (λ n. load32 m (table_slot src n)) (λ n. load32 m (physical_slot src n))
            rounds i j (load32 m (physical_slot dir j)))
