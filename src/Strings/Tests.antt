-- ===== src/Strings/Tests.antt =====
-- Runs of the string routines, and their theorems at concrete strings.
use fotix.Base.{ℕ, ◌≤◌, ◌≡◌, refl, arith, ◌↔◌, List, [], ◌∷◌, get_or, ok}
use fotix.Memory.{Memory, load8}
use fotix.Strings.{strlen, strcmp}
use fotix.Strings.Facts.{strlen_lem, strcmp_lem}

-- "dev" at 0, "den" at 4.
abbrev words : Memory
words a = get_or (b'd' ∷ b'e' ∷ b'v' ∷ 0 ∷ b'd' ∷ b'e' ∷ b'n' ∷ 0 ∷ []) a 0

abbrev dev : List ℕ
dev = b'd' ∷ b'e' ∷ b'v' ∷ []

abbrev den : List ℕ
den = b'd' ∷ b'e' ∷ b'n' ∷ []

strlen_lem_example : strlen 10 words 4 ≡ ok 3
unfolding load8
strlen_lem_example =
    strlen_lem 10 words 4 den (omega arith)
      (refl, omega arith, (refl, omega arith, (refl, omega arith, refl)))

strcmp_lem_example : (r : ℕ) × (strcmp 10 words 0 4 ≡ ok r) × (r ≤ 1) × ((r ≡ 0) ↔ (dev ≡ den))
unfolding load8
strcmp_lem_example =
    strcmp_lem 10 words 0 4 dev den (omega arith)
      (refl, omega arith, (refl, omega arith, (refl, omega arith, refl)))
      (refl, omega arith, (refl, omega arith, (refl, omega arith, refl)))
