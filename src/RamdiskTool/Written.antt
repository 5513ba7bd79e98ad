-- ===== src/RamdiskTool/Written.antt =====
-- The file that utils/mkinit.c writes is the ramdisk that the kernel expects.
use fotix.Base.{
  ℕ, zero, suc, ◌+◌, ◌-◌, ◌*◌, ◌/◌, ◌^◌, ◌≤◌, ◌<◌, ◌≡◌, refl, sym, ap, subst, ◌∙◌, ◌⊎◌, inl, inr,
  arith, Bool-cases, ◌==◌, ==_iff, List, [], ◌∷◌, ◌++◌, length, true, get_or, get_or-append_left,
  get_or-append_right, length-append, some, ok,
}
use fotix.Memory.{Memory, load8, load32, store32}
use fotix.Memory.Words.{load32-store32, load32-same}
use fotix.FileSystem.Initrd.Image.{
  total, start, IsHeader, IsImage, Stands, header_at, total-le, IsString-same, load32-moved,
}
use fotix.RamdiskTool.{
  FileTable, Host, filled, success, nheaders, nrounds, bytes_of, write_headers, write_files,
  write_image, main,
}
use fotix.RamdiskTool.Headers.{IsText, CopiesStrings, write_headers_lem}

length-bytes_of : (m : Memory) (a n : ℕ) → length (bytes_of m a n) ≡ n
unfolding bytes_of
length-bytes_of m a zero = refl
length-bytes_of m a (suc n) = ap suc (length-bytes_of m (a + 1) n)

get_or-bytes_of : (m : Memory) (a n j : ℕ) → j < n → get_or (bytes_of m a n) j 0 ≡ load8 m (a + j)
unfolding bytes_of
get_or-bytes_of m a zero j h = absurd (omega arith)
get_or-bytes_of m a (suc n) zero h = ap (load8 m) (omega arith)
get_or-bytes_of m a (suc n) (suc j) h =
    get_or-bytes_of m (a + 1) n j (omega arith) ∙ ap (load8 m) (omega arith)

-- The bytes of the files from `i` on stand where the headers say.
abbrev IsData : (contents : ℕ → List ℕ) → (i n : ℕ) → List ℕ → Type 0
IsData contents i n data_bytes =
    (k j p : ℕ)
    → i ≤ k
    → k < n
    → j < length (contents k)
    → total contents i + p ≡ total contents k + j
    → get_or data_bytes p 0 ≡ get_or (contents k) j 0

filled_all : (cs : List ℕ) (before : ℕ → ℕ) → filled (length cs) cs before ≡ cs
unfolding filled
filled_all [] before = refl
filled_all (c ∷ cs) before = ap (λ (ds : List ℕ). c ∷ ds) (filled_all cs (λ j. before (suc j)))

module _ (fopen : FileTable) (malloc : ℕ → ℕ → ℕ) (argv : ℕ → List ℕ) (headers n : ℕ)
    (contents : ℕ → List ℕ) (m : Memory)
    (there : (i : ℕ) → i < n → fopen (argv (i * 2 + 1)) ≡ some (contents i))
    (sized : (i : ℕ) → i < n → load32 m (headers + 76 * i + 72) ≡ length (contents i)) where
  write_files-step :
      (rounds i : ℕ) (rest : List ℕ)
      → i < n
      → write_files fopen malloc argv headers rounds (i + 1) m ≡ ok rest
      → write_files fopen malloc argv headers (suc rounds) i m ≡ ok (contents i ++ rest)
  unfolding write_files
  write_files-step rounds i rest p e =
      rw (there i p, sized i p, e, filled_all (contents i) (malloc i)) refl

  write_files-end : (i : ℕ) → write_files fopen malloc argv headers 0 i m ≡ ok []
  unfolding write_files
  write_files-end i = refl

  total-next : (i : ℕ) → total contents i + length (contents i) ≡ total contents (i + 1)
  total-next i =
      let same : suc i ≡ i + 1 = omega arith in
      subst (λ (k : ℕ). total contents i + length (contents i) ≡ total contents k) same refl

  write_files_lem :
      (rounds i : ℕ)
      → i + rounds ≡ n
      → (files : List ℕ) × (write_files fopen malloc argv headers rounds i m ≡ ok files)
        × IsData contents i n files
        × (total contents i + length files ≡ total contents n)
  write_files_lem zero i e = (
    [],
    write_files-end i,
    (λ k j p a b c d. absurd (omega arith)),
    omega (arith, ap (total contents) {x = i} {y = n} (omega arith)),
  )
  write_files_lem (suc rounds) i e =
      let inside : i < n = omega arith in
      let (rest, ran, data_rest, all) = write_files_lem rounds (i + 1) (omega arith) in
      (
        contents i ++ rest,
        write_files-step rounds i rest inside ran,
        λ k j p a b c d. elim (Bool-cases (i == k)) [
          | inl t ↦
              let same : k ≡ i = omega (arith, (==_iff i k).0 t) in
              ap (λ (q : ℕ). get_or (contents i ++ rest) q 0) {y = j}
                (omega (arith, d, ap (total contents) same))
              ∙ get_or-append_left (contents i) rest j 0
                  (subst (λ (l : ℕ). j < length (contents l)) same c)
              ∙ ap (λ (l : ℕ). get_or (contents l) j 0) (sym same)
          | inr f ↦
              get_or-append_right (contents i) rest p (p - length (contents i)) 0
                (omega (arith, d, total-le contents i k (ground arith)))
              ∙ data_rest k j (p - length (contents i)) (ground arith) b c
                  (omega (arith, d, total-next i, total-le contents i k (ground arith)))
        ],
        omega (arith, length-append (contents i) rest, total-next i, all),
      )

-- The three parts of the file, loaded at an address.
module _ (m1 : Memory) (count headers : ℕ) (files : List ℕ) (m' : Memory) (location : ℕ)
    (s : Stands m' location (bytes_of m1 count 4 ++ (bytes_of m1 headers 4864 ++ files))) where
  sizes : length (bytes_of m1 count 4 ++ (bytes_of m1 headers 4864 ++ files)) ≡ 4868 + length files
  sizes = omega (
    arith,
    length-append (bytes_of m1 count 4) (bytes_of m1 headers 4864 ++ files),
    length-append (bytes_of m1 headers 4864) files,
    length-bytes_of m1 count 4,
    length-bytes_of m1 headers 4864,
  )

  count_byte : (d : ℕ) → d < 4 → load8 m' (location + d) ≡ load8 m1 (count + d)
  count_byte d p =
      s d (omega (arith, sizes))
      ∙ get_or-append_left (bytes_of m1 count 4) (bytes_of m1 headers 4864 ++ files) d 0
          (omega (arith, length-bytes_of m1 count 4))
      ∙ get_or-bytes_of m1 count 4 d p

  header_byte : (d : ℕ) → d < 4864 → load8 m' (location + 4 + d) ≡ load8 m1 (headers + d)
  header_byte d p =
      ap (load8 m') (omega arith)
      ∙ s (4 + d) (omega (arith, sizes))
      ∙ get_or-append_right (bytes_of m1 count 4) (bytes_of m1 headers 4864 ++ files) (4 + d) d 0
          (omega (arith, length-bytes_of m1 count 4))
      ∙ get_or-append_left (bytes_of m1 headers 4864) files d 0
          (omega (arith, length-bytes_of m1 headers 4864))
      ∙ get_or-bytes_of m1 headers 4864 d p

  file_byte : (d : ℕ) → d < length files → load8 m' (location + 4868 + d) ≡ get_or files d 0
  file_byte d p =
      ap (load8 m') (omega arith)
      ∙ s (4868 + d) (omega (arith, sizes))
      ∙ get_or-append_right (bytes_of m1 count 4) (bytes_of m1 headers 4864 ++ files) (4868 + d)
          (4864 + d) 0 (omega (arith, length-bytes_of m1 count 4))
      ∙ get_or-append_right (bytes_of m1 headers 4864) files (4864 + d) d 0
          (omega (arith, length-bytes_of m1 headers 4864))

  loaded-IsHeader :
      (i : ℕ) (cs : List ℕ) (off size : ℕ)
      → i < 64
      → length cs < 64
      → IsHeader m1 (headers + 76 * i) cs off size
      → IsHeader m' (header_at location i) cs off size
  loaded-IsHeader i cs off size inside short h = record {
    name =
        IsString-same m1 m' (headers + 76 * i + 1) (header_at location i + 1) cs
          (λ d p.
            byte (1 + d) (omega arith) (headers + 76 * i + 1 + d) (header_at location i + 1 + d)
              (omega arith) (omega arith))
          h.name;
    offset =
        load32-moved m1 m' (headers + 76 * i + 68) (header_at location i + 68) (λ d p.
          byte (68 + d) (omega arith) (headers + 76 * i + 68 + d) (header_at location i + 68 + d)
            (omega arith) (omega arith))
        ∙ h.offset;
    extent =
        load32-moved m1 m' (headers + 76 * i + 72) (header_at location i + 72) (λ d p.
          byte (72 + d) (omega arith) (headers + 76 * i + 72 + d) (header_at location i + 72 + d)
            (omega arith) (omega arith))
        ∙ h.extent;
  }
    where
      byte :
          (o : ℕ)
          → o < 76
          → (a a' : ℕ) → a ≡ headers + 76 * i + o
          → a' ≡ header_at location i + o
          → load8 m' a' ≡ load8 m1 a
      byte o p a a' e e' =
          ap (load8 m') {y = location + 4 + (76 * i + o)} (omega (arith, e'))
          ∙ header_byte (76 * i + o) (omega arith)
          ∙ ap (load8 m1) {x = headers + (76 * i + o)} (omega (arith, e))

  loaded-IsImage :
      (n : ℕ) (names contents : ℕ → List ℕ)
      → n < 64
      → ((i : ℕ) → i < n → length (names i) < 64)
      → load32 m1 count ≡ n
      → ((i : ℕ)
          → i < n
          → IsHeader m1 (headers + 76 * i) (names i) (start contents i) (length (contents i)))
      → IsData contents 0 n files
      → length files ≡ total contents n
      → IsImage m' location n names contents
  loaded-IsImage n names contents most short counted made is_data all = record {
    count = load32-moved m1 m' count location (λ d p. count_byte d p) ∙ counted;
    header = λ i p.
        loaded-IsHeader i (names i) (start contents i) (length (contents i)) (omega arith)
          (short i p) (made i p);
    content = λ i p j q.
        ap (load8 m') {y = location + 4868 + (total contents i + j)} (omega arith)
        ∙ file_byte (total contents i + j) (omega (arith, total-le contents i n p))
        ∙ is_data i j (total contents i + j) (omega arith) p q (omega arith);
  }

nheaders-small :
    (argc : ℕ) → argc < 128 → (nheaders argc ≡ (argc - 1) / 2) × (nrounds argc ≡ (argc - 1) / 2)
unfolding nheaders nrounds
nheaders-small argc few = (ground arith, ground arith)

main-steps :
    (strcpy : (dest : ℕ) → List ℕ → Memory → Memory) (host : Host) (argc : ℕ) (argv : ℕ → List ℕ)
    (count headers : ℕ) (m : Memory) (n : ℕ) (m1 : Memory) (off : ℕ) (files : List ℕ)
    → nheaders argc ≡ n
    → nrounds argc ≡ n
    → host.writable ≡ true
    → write_headers strcpy host.fopen argv headers n 0 4868 (store32 m count n) ≡ some (m1, off)
    → write_files host.reopen host.malloc argv headers n 0 m1 ≡ ok files
    → main strcpy host argc argv count headers m
      ≡ ok (success (bytes_of m1 count 4 ++ (bytes_of m1 headers 4864 ++ files)))
unfolding main write_image
main-steps strcpy host argc argv count headers m n m1 off files e e' can ran ran2 =
    rw (e', e, ran, can, e', ran2) refl

-- Called with at most 127 arguments, with files that exist and do not change between its loops, names
-- that fit, and an `initrd.img` that can be opened, where the image stays below 2^32 bytes and the
-- variables apart, `main` returns 0, and what it has written is, wherever it is loaded, the ramdisk of
-- the files under those names.
pub main_lem :
    (strcpy : (dest : ℕ) → List ℕ → Memory → Memory) (host : Host) (argc : ℕ) (argv : ℕ → List ℕ)
    (count headers : ℕ) (m : Memory) (contents : ℕ → List ℕ)
    → CopiesStrings strcpy
    → argc < 128
    → let n = (argc - 1) / 2 in
      (count + 4 ≤ headers) ⊎ (headers + 4864 ≤ count)
      → ((i : ℕ) → i < n → IsText (argv (i * 2 + 2)))
      → ((i : ℕ) → i < n → length (argv (i * 2 + 2)) < 64)
      → ((i : ℕ) → i < n → host.fopen (argv (i * 2 + 1)) ≡ some (contents i))
      → host.writable ≡ true
      → ((i : ℕ) → i < n → host.reopen (argv (i * 2 + 1)) ≡ some (contents i))
      → 4868 + total contents n < 2 ^ 32
      → (img : List ℕ) × (main strcpy host argc argv count headers m ≡ ok (success img))
        × ((m' : Memory) (location : ℕ)
            → Stands m' location img
            → IsImage m' location n (λ i. argv (i * 2 + 2)) contents)
main_lem strcpy host argc argv count headers m contents copies few apart text short there can again
      low =
    let n = (argc - 1) / 2 in
    let m0 = store32 m count n in
    let (m1, ran, made, kept) =
      write_headers_lem strcpy copies host.fopen argv headers n contents text short there low n 0 m0
        (omega arith) in
    let (files, ran2, is_data, all) =
      write_files_lem host.reopen host.malloc argv headers n contents m1 again
        (λ i p. (made i (omega arith) p).extent) n 0 (omega arith) in
    let counted : load32 m1 count ≡ n =
      load32-same m0 m1 count (λ b p q. kept b (omega arith))
      ∙ load32-store32 m count n (omega arith) in
    let (counts, rounds) = nheaders-small argc few in
    (
      bytes_of m1 count 4 ++ (bytes_of m1 headers 4864 ++ files),
      main-steps strcpy host argc argv count headers m n m1 (start contents n) files counts rounds
          can ran ran2,
      λ m' location s.
          loaded-IsImage m1 count headers files m' location s n (λ i. argv (i * 2 + 2)) contents
            (omega arith) short counted (λ i p. made i (omega arith) p) is_data
            (omega (arith, all)),
    )
