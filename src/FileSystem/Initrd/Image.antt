-- ===== src/FileSystem/Initrd/Image.antt =====
-- A ramdisk as it lies in memory: the count of its files, 64 headers, and the data.
use fotix.Base.{
  ℕ, zero, suc, ◌+◌, ◌-◌, ◌*◌, true, u8, ltb, ◌⊎◌, ◌<◌, ◌≤◌, ◌≡◌, ◌∙◌, ap, sym, subst, List, [],
  ◌∷◌, length, get_or, Bool-cases, inl, inr, ◌==◌, ==_iff, arith,
}
use fotix.Memory.{Memory, load8, load32, memcpy}
use fotix.Memory.Words.{load32-same}
use fotix.Memory.Blocks.{memcpy_lem}
use fotix.Strings.Facts.{IsString}

-- The bytes of the first `i` files.
abbrev pub total : (contents : ℕ → List ℕ) → (i : ℕ) → ℕ
total contents zero = 0
total contents (suc i) = total contents i + length (contents i)

-- Where the data of file `i` begins: behind the count and the 64 headers, and the files before it.
abbrev pub start : (contents : ℕ → List ℕ) → (i : ℕ) → ℕ
start contents i = 4868 + total contents i

-- The header of file `i` of the ramdisk at `location`.
abbrev pub header_at : (location i : ℕ) → ℕ
header_at location i = location + 4 + 76 * i

pub record IsHeader (m : Memory) (header : ℕ) (cs : List ℕ) (at size : ℕ) : Type 0 where
  pub name : IsString m (header + 1) cs
  pub offset : load32 m (header + 68) ≡ at
  pub extent : load32 m (header + 72) ≡ size

-- The bytes of a list stand from an address on.
abbrev pub Stands : Memory → (a : ℕ) → List ℕ → Type 0
Stands m a bytes = (j : ℕ) → j < length bytes → load8 m (a + j) ≡ get_or bytes j 0

-- A ramdisk of `n` files at `location`, with offsets that count from its start.
pub record IsImage (m : Memory) (location n : ℕ) (names contents : ℕ → List ℕ) : Type 0 where
  pub count : load32 m location ≡ n
  pub header :
      (i : ℕ)
      → i < n
      → IsHeader m (header_at location i) (names i) (start contents i) (length (contents i))
  pub content : (i : ℕ) → i < n → Stands m (location + start contents i) (contents i)

-- The files before `n` have room below it.
pub total-le :
    (contents : ℕ → List ℕ) (i n : ℕ)
    → i < n
    → total contents i + length (contents i) ≤ total contents n
total-le contents i zero h = absurd (omega arith)
total-le contents i (suc n) h = elim (Bool-cases (i == n)) [
  | inl t ↦
      let same : i ≡ n = (==_iff i n).0 t in
      subst (λ (k : ℕ). total contents k + length (contents k) ≤ total contents (suc n)) (sym same)
        (omega arith)
  | inr f ↦ omega (arith, total-le contents i n (ground arith))
]

-- What is written elsewhere does not show.
pub IsString-same :
    (m m' : Memory) (a a' : ℕ) (cs : List ℕ)
    → ((d : ℕ) → d ≤ length cs → load8 m' (a' + d) ≡ load8 m (a + d))
    → IsString m a cs
    → IsString m' a' cs
IsString-same m m' a a' [] same s =
    ap (load8 m') (omega arith) ∙ same 0 (omega arith) ∙ ap (load8 m) (omega arith) ∙ s
IsString-same m m' a a' (c ∷ cs) same (e, pos, s) = (
  ap (load8 m') (omega arith) ∙ same 0 (omega arith) ∙ ap (load8 m) (omega arith) ∙ e,
  pos,
  IsString-same m m' (a + 1) (a' + 1) cs
      (λ d h.
        ap (load8 m') {y = a' + suc d} (omega arith)
        ∙ same (suc d) (omega arith)
        ∙ ap (load8 m) {x = a + suc d} (omega arith))
      s,
)

pub load32-moved :
    (m m' : Memory) (a a' : ℕ)
    → ((d : ℕ) → d < 4 → load8 m' (a' + d) ≡ load8 m (a + d))
    → load32 m' a' ≡ load32 m a
unfolding load32
load32-moved m m' a a' same = ground (arith, same 0, same 1, same 2, same 3)

pub load8-same : (m m' : Memory) (a : ℕ) → m' a ≡ m a → load8 m' a ≡ load8 m a
unfolding load8
load8-same m m' a e = ap u8 e

pub load8-copied : (m m' : Memory) (a b : ℕ) → m' b ≡ load8 m a → load8 m' b ≡ load8 m a
unfolding load8
load8-copied m m' a b e = ap u8 e ∙ omega arith

IsString-end : (m : Memory) (a : ℕ) (cs : List ℕ) → IsString m a cs → load8 m (a + length cs) ≡ 0
IsString-end m a [] s = ap (load8 m) (omega arith) ∙ s
IsString-end m a (c ∷ cs) (e, pos, s) =
    ap (load8 m) {x = a + suc (length cs)} (omega arith) ∙ IsString-end m (a + 1) cs s

-- A name that was copied without its NUL is a string where the byte behind it was blank.
pub memcpy-IsString :
    (m : Memory) (dest src c : ℕ) (cs : List ℕ)
    → IsString m src (c ∷ cs)
    → (dest ≤ src) ⊎ (src + suc (length cs) ≤ dest)
    → load8 m (dest + suc (length cs)) ≡ 0
    → IsString (memcpy m dest src (suc (length cs))) dest (c ∷ cs)
memcpy-IsString m dest src c cs s apart blank = IsString-same m m' src dest (c ∷ cs) same s
  where
    m' : Memory
    m' = memcpy m dest src (suc (length cs))

    byte : (d : ℕ) → ltb d (suc (length cs)) ≡ true → m' (dest + d) ≡ load8 m (src + d)
    byte d inside =
        let place : load8 m (src + (dest + d - dest)) ≡ load8 m (src + d) =
          ap (λ (n : ℕ). load8 m (src + n)) {y = d} (omega arith) in
        ground (arith, memcpy_lem m dest src (suc (length cs)) (dest + d) apart, place)

    behind : m' (dest + suc (length cs)) ≡ m (dest + suc (length cs))
    behind = ground (arith, memcpy_lem m dest src (suc (length cs)) (dest + suc (length cs)) apart)

    same : (d : ℕ) → d ≤ suc (length cs) → load8 m' (dest + d) ≡ load8 m (src + d)
    same d p = elim (Bool-cases (ltb d (suc (length cs)))) [
      | inl inside ↦ load8-copied m m' (src + d) (dest + d) (byte d inside)
      | inr outside ↦
          let last : d ≡ suc (length cs) = ground arith in
          ap (λ (n : ℕ). load8 m' (dest + n)) last
          ∙ load8-same m m' (dest + suc (length cs)) behind
          ∙ blank
          ∙ sym (IsString-end m src (c ∷ cs) s)
          ∙ ap (λ (n : ℕ). load8 m (src + n)) (sym last)
    ]

pub IsHeader-same :
    (m m' : Memory) (header : ℕ) (cs : List ℕ) (off size : ℕ)
    → length cs < 64
    → ((b : ℕ) → header ≤ b → b < header + 76 → m' b ≡ m b)
    → IsHeader m header cs off size
    → IsHeader m' header cs off size
IsHeader-same m m' header cs off size short same h = record {
  name =
      IsString-same m m' (header + 1) (header + 1) cs
        (λ d q.
          load8-same m m' (header + 1 + d) (same (header + 1 + d) (omega arith) (omega arith)))
        h.name;
  offset = load32-same m m' (header + 68) (λ b q r. same b (omega arith) (omega arith)) ∙ h.offset;
  extent = load32-same m m' (header + 72) (λ b q r. same b (omega arith) (omega arith)) ∙ h.extent;
}
