-- ===== src/RamdiskTool/Exits.antt =====
-- How utils/mkinit.c ends.
use fotix.Base.{ℕ, ◌+◌, ◌*◌, ◌≤◌, ◌<◌, ◌≡◌, List, Option, none, some}
use fotix.Memory.{Memory}
use fotix.RamdiskTool.{FileTable, write_headers}

-- The files for the rounds from `lo` up to `hi` are there.
abbrev pub AllThere : FileTable → (argv : ℕ → List ℕ) → (lo hi : ℕ) → Type 0
AllThere fopen argv lo hi =
    (i : ℕ) → lo ≤ i → i < hi → (bytes : List ℕ) × (fopen (argv (i * 2 + 1)) ≡ some bytes)

-- One of them is not.
abbrev pub OneMissing : FileTable → (argv : ℕ → List ℕ) → (lo hi : ℕ) → Type 0
OneMissing fopen argv lo hi = (i : ℕ) × (lo ≤ i) × (i < hi) × (fopen (argv (i * 2 + 1)) ≡ none)

module _ (strcpy : (dest : ℕ) → List ℕ → Memory → Memory) (fopen : FileTable) (argv : ℕ → List ℕ)
    (headers : ℕ) where
  abbrev go_on : (rounds i : ℕ) → Option (Memory × ℕ) → Option (Memory × ℕ)
  go_on rounds i o = elim o [
    | none ↦ none
    | some (m', off') ↦ write_headers strcpy fopen argv headers rounds (i + 1) off' m'
  ]
