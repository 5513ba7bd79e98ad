-- ===== src/Strings/Facts.antt =====
-- What the string routines return for C strings.
use fotix.Base.{
  ℕ, zero, suc, ◌+◌, ◌≤◌, ◌<◌, ◌≡◌, refl, ap, ap₂, get_or, ◌↔◌, ◌⊎◌, inl, inr, arith, Bool-cases,
  ◌==◌, ==_iff, List, [], ◌∷◌, length, ok,
}
use fotix.Memory.{Memory, load8, store8, memcpy}
use fotix.Strings.{strlen, strcmp, strcpy}

-- The bytes of a list stand from an address on, with a NUL behind them.
abbrev pub IsString : Memory → (a : ℕ) → List ℕ → Type 0
IsString m a [] = load8 m a ≡ 0
IsString m a (c ∷ cs) = (load8 m a ≡ c) × (0 < c) × IsString m (a + 1) cs

-- `strlen` returns the number of bytes before the NUL.
pub strlen_lem :
    (fuel : ℕ) (m : Memory) (a : ℕ) (cs : List ℕ)
    → length cs < fuel
    → IsString m a cs
    → strlen fuel m a ≡ ok (length cs)
unfolding strlen
strlen_lem zero m a cs enough s = absurd (omega arith)
strlen_lem (suc fuel) m a [] enough s = ground arith
strlen_lem (suc fuel) m a (c ∷ cs) enough (e, pos, s) =
    ground (arith, strlen_lem fuel m (a + 1) cs (omega arith) s)

abbrev rest_of : List ℕ → List ℕ
rest_of [] = []
rest_of (c ∷ cs) = cs

-- `strcmp` of two strings returns 0 or 1, and 0 exactly where they are equal.
pub strcmp_lem :
    (fuel : ℕ) (m : Memory) (a b : ℕ) (cs ds : List ℕ)
    → length cs < fuel
    → IsString m a cs
    → IsString m b ds
    → (r : ℕ) × (strcmp fuel m a b ≡ ok r) × (r ≤ 1) × ((r ≡ 0) ↔ (cs ≡ ds))
unfolding strcmp
strcmp_lem zero m a b cs ds enough s t = absurd (omega arith)
strcmp_lem (suc fuel) m a b [] [] enough s t =
    (0, ground arith, omega arith, ((λ e. refl), λ e. refl))
strcmp_lem (suc fuel) m a b [] (d ∷ ds) enough s (e, pos, t) = (
  1,
  ground arith,
  omega arith,
  ((λ h. absurd (omega arith)), λ h. absurd (omega (arith, ap length h))),
)
strcmp_lem (suc fuel) m a b (c ∷ cs) [] enough (e, pos, s) t = (
  1,
  ground arith,
  omega arith,
  ((λ h. absurd (omega arith)), λ h. absurd (omega (arith, ap length h))),
)
strcmp_lem (suc fuel) m a b (c ∷ cs) (d ∷ ds) enough (e, pos, s) (e', pos', t) =
    elim (Bool-cases (c == d)) [
      | inl same ↦
          let heads : c ≡ d = (==_iff c d).0 same in
          let (r, done, low, iff) = strcmp_lem fuel m (a + 1) (b + 1) cs ds (omega arith) s t in
          (
            r,
            ground arith,
            low,
            ((λ z. ap₂ (λ x xs. x ∷ xs) heads (iff.0 z)), λ h. iff.1 (ap rest_of h)),
          )
      | inr differ ↦ (
        1,
        ground arith,
        omega arith,
        (
          (λ h. absurd (omega arith)),
          λ h. absurd (ground (arith, ap (λ (xs : List ℕ). get_or xs 0 0) h)),
        ),
      )
    ]

IsString-store8 :
    (m : Memory) (a dest v : ℕ) (cs : List ℕ)
    → (dest < a) ⊎ (a + length cs < dest)
    → IsString m a cs
    → IsString (store8 m dest v) a cs
unfolding load8 store8
IsString-store8 m a dest v [] apart s = ground arith
IsString-store8 m a dest v (c ∷ cs) apart (e, pos, s) =
    (ground arith, pos, IsString-store8 m (a + 1) dest v cs (omega arith) s)

-- `strcpy` of a string that is not empty copies its characters, but not the NUL.
pub strcpy_lem :
    (fuel : ℕ) (m : Memory) (dest src c : ℕ) (cs : List ℕ)
    → length cs < fuel
    → IsString m src (c ∷ cs)
    → (dest ≤ src) ⊎ (src + suc (length cs) < dest)
    → strcpy fuel m dest src ≡ ok (memcpy m dest src (suc (length cs)))
unfolding strcpy memcpy
strcpy_lem zero m dest src c cs enough s apart = absurd (omega arith)
strcpy_lem (suc fuel) m dest src c [] enough (e, pos, s) apart =
    ground (arith, IsString-store8 m (src + 1) dest (load8 m src) [] (omega arith) s)
strcpy_lem (suc fuel) m dest src c (d ∷ ds) enough (e, pos, s) apart =
    let s' = IsString-store8 m (src + 1) dest (load8 m src) (d ∷ ds) (omega arith) s in
    ground (
      arith,
      s',
      strcpy_lem fuel (store8 m dest (load8 m src)) (dest + 1) (src + 1) d ds (omega arith) s'
          (omega arith),
    )
