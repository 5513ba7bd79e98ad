-- ===== src/FileSystem/Initrd/Lookup.antt =====
-- How a file is found by its name.
use fotix.Base.{
  ℕ, zero, suc, ◌+◌, ◌≤◌, ◌<◌, ◌≡◌, ◌≢◌, refl, sym, ap, ◌∙◌, ◌⊎◌, inl, inr, arith, Bool-cases, ◌==◌,
  ==_iff, List, [], ◌∷◌, length, ok,
}
use fotix.Memory.{Memory}
use fotix.Strings.Facts.{IsString, strcmp_lem}
use fotix.FileSystem.Initrd.{Initrd, Symbols, root_node, find_node, initrd_finddir}

-- `r` is the address of the first node from `lo` on, below `hi`, whose name is `cs`; or no node
-- there has that name, and it is null.
abbrev pub FoundFrom : Initrd → (names : ℕ → List ℕ) → List ℕ → (lo hi r : ℕ) → Type 0
FoundFrom g names cs lo hi r =
    ((r ≡ 0) × ((i : ℕ) → lo ≤ i → i < hi → names i ≢ cs))
    ⊎ ((i : ℕ) × (r ≡ root_node g i)
        × (lo ≤ i)
        × (i < hi)
        × (names i ≡ cs)
        × ((j : ℕ) → lo ≤ j → j < i → names j ≢ cs))

not_here :
    (g : Initrd) (names : ℕ → List ℕ) (cs : List ℕ) (lo i : ℕ)
    → names lo ≢ cs
    → (lo + 1 ≤ i → names i ≢ cs)
    → lo ≤ i
    → names i ≢ cs
not_here g names cs lo i other later p = elim (Bool-cases (i == lo)) [
  | inl t ↦ λ e. other (ap names (sym ((==_iff i lo).0 t)) ∙ e)
  | inr f ↦ later (ground arith)
]

FoundFrom-down :
    (g : Initrd) (names : ℕ → List ℕ) (cs : List ℕ) (lo hi r : ℕ)
    → names lo ≢ cs
    → FoundFrom g names cs (lo + 1) hi r
    → FoundFrom g names cs lo hi r
FoundFrom-down g names cs lo hi r other (inl (null, nowhere)) =
    inl (null, λ i p q. not_here g names cs lo i other (λ p'. nowhere i p' q) p)
FoundFrom-down g names cs lo hi r other (inr (i, at, p, q, hit, before)) =
    inr
      (i, at, omega arith, q, hit, λ j a b. not_here g names cs lo j other (λ a'. before j a' b) a)

module _ (fuel : ℕ) (g : Initrd) (name : ℕ) (m : Memory) (cs : List ℕ) (names : ℕ → List ℕ) where
  find_node_lem :
      (rounds counter hi : ℕ)
      → length cs < fuel
      → IsString m name cs
      → ((i : ℕ) → i < hi → IsString m (root_node g i) (names i))
      → hi ≡ counter + rounds
      → (r : ℕ) × (find_node fuel g name m rounds counter ≡ ok r)
        × FoundFrom g names cs counter hi r
  unfolding find_node
  find_node_lem zero counter hi enough s named e =
      (0, refl, inl (refl, λ i p q. absurd (omega arith)))
  find_node_lem (suc rounds) counter hi enough s named e =
      let (f, ran, low, iff) =
        strcmp_lem fuel m name (root_node g counter) cs (names counter) enough s
          (named counter (omega arith)) in
      let (r, later, found) = find_node_lem rounds (counter + 1) hi enough s named (omega arith) in
      rw ran (elim (Bool-cases (f == 0)) [
        | inl t ↦ rw t (
          root_node g counter,
          refl,
          inr (
            counter,
            refl,
            omega arith,
            omega arith,
            sym (iff.0 ((==_iff f 0).0 t)),
            λ j p q. absurd (omega arith),
          ),
        )
        | inr t ↦
            let other : names counter ≢ cs = λ h. ground (arith, iff.1 (sym h)) in
            rw t (r, later, FoundFrom-down g names cs counter hi r other found)
      ])

  -- With the name of a file in memory, and fuel for its characters, `initrd_finddir` returns: on the
  -- root and for "dev" the device directory, and else the first of the files with that name, or null
  -- where there is none.
  pub initrd_finddir_lem :
      (at : Symbols) (node : ℕ)
      → length cs < fuel
      → IsString m name cs
      → IsString m at.dev (b'd' ∷ b'e' ∷ b'v' ∷ [])
      → ((i : ℕ) → i < g.nroot_nodes → IsString m (root_node g i) (names i))
      → (r : ℕ) × (initrd_finddir fuel at g node name m ≡ ok r)
        × (((node ≡ g.initrd_root) × (cs ≡ b'd' ∷ b'e' ∷ b'v' ∷ []) × (r ≡ g.initrd_dev))
            ⊎ (((node ≢ g.initrd_root) ⊎ (cs ≢ b'd' ∷ b'e' ∷ b'v' ∷ []))
                × FoundFrom g names cs 0 g.nroot_nodes r))
  unfolding initrd_finddir
  initrd_finddir_lem at node enough s dev named =
      let (r, ran, found) =
        find_node_lem g.nroot_nodes 0 g.nroot_nodes enough s named (omega arith) in
      let (f, tried, low, iff) =
        strcmp_lem fuel m name at.dev cs (b'd' ∷ b'e' ∷ b'v' ∷ []) enough s dev in
      elim (Bool-cases (node == g.initrd_root)) [
        | inr away ↦ rw away (r, ran, inr (inl (λ e. absurd (ground (arith, e))), found))
        | inl here ↦
            rw (here, tried)
              (elim (Bool-cases (f == 0)) [
                | inl t ↦ rw t (
                  g.initrd_dev,
                  refl,
                  inl ((==_iff node g.initrd_root).0 here, iff.0 ((==_iff f 0).0 t), refl),
                )
                | inr t ↦ rw t (r, ran, inr (inr (λ e. absurd (ground (arith, iff.1 e))), found))
              ])
      ]
