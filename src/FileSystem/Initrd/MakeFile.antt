-- ===== src/FileSystem/Initrd/MakeFile.antt =====
-- A round of the loop of `initialise_initrd`: the header of a file is moved, and its node made.
use fotix.Base.{ℕ, suc, ◌+◌, ◌^◌, ◌≤◌, ◌<◌, ◌≡◌, ◌∙◌, ◌⊎◌, arith, List, ◌∷◌, length, ok, u32}
use fotix.Memory.{Memory, load8, load32, store32, memcpy}
use fotix.Memory.Words.{load32-store32, load32-same, store32-outside}
use fotix.Memory.Blocks.{memcpy_lem}
use fotix.Strings.{strcpy}
use fotix.Strings.Facts.{IsString, strcpy_lem}
use fotix.FileSystem.{fs_file}
use fotix.FileSystem.Initrd.{set_fields}
use fotix.FileSystem.Initrd.Image.{IsHeader, IsString-same, load8-same, memcpy-IsString}
use fotix.FileSystem.Initrd.Fields.{HasFields, set_fields-HasFields, set_fields-outside}

-- The header does not overlap the node.
abbrev pub Apart : (header node : ℕ) → Type 0
Apart header node = (node + 184 ≤ header) ⊎ (header + 76 ≤ node)

module _ (m : Memory) (header node number offset size location read : ℕ) (c : ℕ) (cs : List ℕ)
    (h : IsHeader m header (c ∷ cs) offset size) (short : suc (length cs) < 64)
    (apart : Apart header node) where
  -- The memory after each part of the round.
  abbrev moved : Memory
  moved = store32 m (header + 68) (u32 (offset + location))

  abbrev named : Memory
  named = memcpy moved node (header + 1) (suc (length cs))

  abbrev pub made : Memory
  made = set_fields named node size number fs_file read 0 0

  moved-name : IsString moved (header + 1) (c ∷ cs)
  moved-name =
      IsString-same m moved (header + 1) (header + 1) (c ∷ cs)
        (λ d p. load8-same m moved (header + 1 + d) (
          store32-outside m (header + 68) (u32 (offset + location)) (header + 1 + d) (omega arith)))
        h.name

  pub copied : (fuel : ℕ) → length cs < fuel → strcpy fuel moved node (header + 1) ≡ ok named
  copied fuel enough = strcpy_lem fuel moved node (header + 1) c cs enough moved-name (omega arith)

  named-outside : (b : ℕ) → (b < node) ⊎ (node + suc (length cs) ≤ b) → named b ≡ moved b
  named-outside b out =
      ground (arith, memcpy_lem moved node (header + 1) (suc (length cs)) b (omega arith))

  pub made-outside :
      (b : ℕ) → (b < header + 68) ⊎ (header + 72 ≤ b) → (b < node) ⊎ (node + 180 ≤ b) → made b ≡ m b
  made-outside b p q =
      set_fields-outside named node size number fs_file read 0 0 b (omega arith)
      ∙ named-outside b (omega arith)
      ∙ store32-outside m (header + 68) (u32 (offset + location)) b (omega arith)

  pub made-extent : load32 named (header + 72) ≡ size
  made-extent =
      load32-same m named (header + 72) (λ b p q.
        named-outside b (omega arith)
        ∙ store32-outside m (header + 68) (u32 (offset + location)) b (omega arith))
      ∙ h.extent

  pub made-offset : load32 made (header + 68) ≡ u32 (offset + location)
  made-offset =
      load32-same moved made (header + 68) (λ b p q.
        set_fields-outside named node size number fs_file read 0 0 b (omega arith)
        ∙ named-outside b (omega arith))
      ∙ load32-store32 m (header + 68) (u32 (offset + location)) (omega arith)

  -- The name in the node ends where the node's memory was blank.
  pub made-name : load8 m (node + suc (length cs)) ≡ 0 → IsString made node (c ∷ cs)
  made-name blank =
      IsString-same named made node node (c ∷ cs)
        (λ d p.
          load8-same named made (node + d)
            (set_fields-outside named node size number fs_file read 0 0 (node + d) (omega arith)))
        (memcpy-IsString moved node (header + 1) c cs moved-name (omega arith) (
          load8-same m moved (node + suc (length cs)) (
            store32-outside m (header + 68) (u32 (offset + location)) (node + suc (length cs))
              (omega arith))
          ∙ blank))

  pub made-HasFields :
      size < 2 ^ 32
      → number < 2 ^ 32
      → read < 2 ^ 32
      → HasFields made node fs_file number size read 0 0
  made-HasFields p q r =
      set_fields-HasFields named node size number fs_file read 0 0 p q (omega arith) r (omega arith)
        (omega arith)
