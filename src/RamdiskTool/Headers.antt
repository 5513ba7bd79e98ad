-- ===== src/RamdiskTool/Headers.antt =====
-- What the first loop of utils/mkinit.c leaves in the array `headers`.
use fotix.Base.{
  ℕ, zero, suc, ◌+◌, ◌*◌, ◌^◌, ◌≤◌, ◌<◌, ◌≡◌, refl, ap, subst, ◌∙◌, ◌⊎◌, inl, inr, arith,
  Bool-cases, ◌==◌, ==_iff, List, [], ◌∷◌, length, Option, none, some, u32,
}
use fotix.Memory.{Memory, store8, store32}
use fotix.Memory.Words.{load32-store32, load32-same, store32-outside}
use fotix.Strings.Facts.{IsString}
use fotix.FileSystem.Initrd.Image.{
  total, start, IsHeader, total-le, IsString-same, load8-same, IsHeader-same,
}
use fotix.RamdiskTool.{
  FileTable, header_name, header_offset, header_length, write_header, write_headers,
}

-- The bytes of a C string.
abbrev pub IsText : List ℕ → Type 0
IsText [] = Unit {0}
IsText (c ∷ cs) = (0 < c) × (c < 256) × IsText cs

-- `strcpy` of the C library: it copies the string with its NUL, and writes nothing else.
pub record CopiesStrings (strcpy : (dest : ℕ) → List ℕ → Memory → Memory) : Type 0 where
  pub string :
      (dest : ℕ) (cs : List ℕ) (m : Memory) → IsText cs → IsString (strcpy dest cs m) dest cs
  pub outside :
      (dest : ℕ) (cs : List ℕ) (m : Memory) (b : ℕ)
      → (b < dest) ⊎ (dest + length cs < b)
      → strcpy dest cs m b ≡ m b

store8-outside : (m : Memory) (a v b : ℕ) → (b < a) ⊎ (a < b) → store8 m a v b ≡ m b
unfolding store8
store8-outside m a v b h = ground arith

start-next :
    (contents : ℕ → List ℕ) (i : ℕ)
    → start contents i + length (contents i) ≡ start contents (i + 1)
start-next contents i =
    let same : suc i ≡ i + 1 = omega arith in
    subst (λ (k : ℕ). start contents i + length (contents i) ≡ start contents k) same (omega arith)

module _ (strcpy : (dest : ℕ) → List ℕ → Memory → Memory) (copies : CopiesStrings strcpy) where
  module _ (cs bytes : List ℕ) (header off : ℕ) (m : Memory) (text : IsText cs)
      (short : length cs < 64) (low : off + length bytes < 2 ^ 32) where
    abbrev named : Memory
    named = strcpy (header_name header) cs m

    abbrev placed : Memory
    placed = store32 named (header_offset header) off

    abbrev sized : Memory
    sized = store32 placed (header_length header) (length bytes)

    abbrev marked : Memory
    marked = store8 sized header 0xBF

    marked-outside : (b : ℕ) → (b < header) ⊎ (header + 76 ≤ b) → marked b ≡ m b
    marked-outside b out =
        store8-outside sized header 0xBF b (omega arith)
        ∙ store32-outside placed (header_length header) (length bytes) b (omega arith)
        ∙ store32-outside named (header_offset header) off b (omega arith)
        ∙ copies.outside (header_name header) cs m b (omega arith)

    marked-IsHeader : IsHeader marked header cs off (length bytes)
    marked-IsHeader = record {
      name =
          IsString-same named marked (header + 1) (header + 1) cs
            (λ d p. load8-same named marked (header + 1 + d) (
              store8-outside sized header 0xBF (header + 1 + d) (omega arith)
              ∙ store32-outside placed (header_length header) (length bytes) (header + 1 + d)
                  (omega arith)
              ∙ store32-outside named (header_offset header) off (header + 1 + d) (omega arith)))
            (copies.string (header_name header) cs m text);
      offset =
          load32-same placed marked (header + 68) (λ b p q.
            store8-outside sized header 0xBF b (omega arith)
            ∙ store32-outside placed (header_length header) (length bytes) b (omega arith))
          ∙ load32-store32 named (header + 68) off (omega arith);
      extent =
          load32-same sized marked (header + 72)
            (λ b p q. store8-outside sized header 0xBF b (omega arith))
          ∙ load32-store32 placed (header + 72) (length bytes) (omega arith);
    }

    write_header-eq :
        write_header strcpy (some bytes) cs header off m ≡ some (marked, off + length bytes)
    unfolding write_header
    write_header-eq =
        let size : u32 (length bytes) ≡ length bytes = omega arith in
        let next : u32 (off + length bytes) ≡ off + length bytes = omega arith in
        rw (size, load32-store32 placed (header_length header) (length bytes) (omega arith), next)
          refl

  write_headers-end :
      (fopen : FileTable) (argv : ℕ → List ℕ) (headers i off : ℕ) (m : Memory)
      → write_headers strcpy fopen argv headers 0 i off m ≡ some (m, off)
  unfolding write_headers
  write_headers-end fopen argv headers i off m = refl

  abbrev go_on :
      FileTable
      → (argv : ℕ → List ℕ) → (headers rounds i : ℕ) → Option (Memory × ℕ)
      → Option (Memory × ℕ)
  go_on fopen argv headers rounds i o = elim o [
    | none ↦ none
    | some (m', off') ↦ write_headers strcpy fopen argv headers rounds (i + 1) off' m'
  ]

  write_headers-step :
      (fopen : FileTable) (argv : ℕ → List ℕ) (headers rounds i off : ℕ) (m : Memory)
      (bytes : List ℕ) (m1 : Memory) (off1 : ℕ)
      → fopen (argv (i * 2 + 1)) ≡ some bytes
      → write_header strcpy (some bytes) (argv (i * 2 + 2)) (headers + 76 * i) off m
        ≡ some (m1, off1)
      → write_headers strcpy fopen argv headers (suc rounds) i off m
        ≡ write_headers strcpy fopen argv headers rounds (i + 1) off1 m1
  unfolding write_headers
  write_headers-step fopen argv headers rounds i off m bytes m1 off1 e e' =
      ap (go_on fopen argv headers rounds i) (
        ap
          (λ (o : Option (List ℕ)).
            write_header strcpy o (argv (i * 2 + 2)) (headers + 76 * i) off m)
          e
        ∙ e')

  module _ (fopen : FileTable) (argv : ℕ → List ℕ) (headers n : ℕ) (contents : ℕ → List ℕ)
      (text : (i : ℕ) → i < n → IsText (argv (i * 2 + 2)))
      (short : (i : ℕ) → i < n → length (argv (i * 2 + 2)) < 64)
      (there : (i : ℕ) → i < n → fopen (argv (i * 2 + 1)) ≡ some (contents i))
      (low : 4868 + total contents n < 2 ^ 32) where
    abbrev Done : Memory → (i : ℕ) → Type 0
    Done m i =
        IsHeader m (headers + 76 * i) (argv (i * 2 + 2)) (start contents i) (length (contents i))

    -- The rounds from `i` on fill in the headers from there on, and change nothing else.
    pub write_headers_lem :
        (rounds i : ℕ) (m : Memory)
        → i + rounds ≡ n
        → (m' : Memory) × (write_headers strcpy fopen argv headers rounds i (start contents i) m
            ≡ some (m', start contents n))
          × ((j : ℕ)
              → i ≤ j
              → j < n
              → IsHeader m'
                  (headers + 76 * j)
                  (argv (j * 2 + 2))
                  (start contents j)
                  (length (contents j)))
          × ((b : ℕ) → (b < headers + 76 * i) ⊎ (headers + 76 * n ≤ b) → m' b ≡ m b)
    write_headers_lem zero i m e =
        let same : i ≡ n = omega arith in
        (
          m,
          write_headers-end fopen argv headers i (start contents i) m
              ∙ ap (λ (k : ℕ). some (m, start contents k)) same,
          (λ j p q. absurd (omega arith)),
          λ b p. refl,
        )
    write_headers_lem (suc rounds) i m e =
        let inside : i < n = omega arith in
        let fits : start contents i + length (contents i) < 2 ^ 32 =
          omega (arith, total-le contents i n inside) in
        let m1 =
          marked (argv (i * 2 + 2)) (contents i) (headers + 76 * i) (start contents i) m
            (text i inside) (short i inside) fits in
        let made =
          marked-IsHeader (argv (i * 2 + 2)) (contents i) (headers + 76 * i) (start contents i) m
            (text i inside) (short i inside) fits in
        let outside =
          marked-outside (argv (i * 2 + 2)) (contents i) (headers + 76 * i) (start contents i) m
            (text i inside) (short i inside) fits in
        let (m', ran, done, kept) = write_headers_lem rounds (i + 1) m1 (omega arith) in
        (
          m',
          write_headers-step fopen argv headers rounds i (start contents i) m (contents i) m1
                (start contents i + length (contents i)) (there i inside)
                (write_header-eq (argv (i * 2 + 2)) (contents i) (headers + 76 * i)
                  (start contents i) m (text i inside) (short i inside) fits)
              ∙ ap (λ (off : ℕ). write_headers strcpy fopen argv headers rounds (i + 1) off m1)
                  (start-next contents i)
              ∙ ran,
          λ j p q. elim (Bool-cases (i == j)) [
            | inl t ↦ subst (Done m') ((==_iff i j).0 t) (
                IsHeader-same m1 m' (headers + 76 * i) (argv (i * 2 + 2)) (start contents i)
                  (length (contents i)) (short i inside) (λ b r s. kept b (omega arith)) made)
            | inr f ↦ done j (ground arith) q
          ],
          λ b p. kept b (omega arith) ∙ outside b (omega arith),
        )
