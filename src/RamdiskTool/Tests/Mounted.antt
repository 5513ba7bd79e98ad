-- ===== src/RamdiskTool/Tests/Mounted.antt =====
-- The ramdisk of the tests, loaded and mounted by a kernel whose allocations are consecutive.
use fotix.Base.{
  ℕ, zero, suc, ◌+◌, ◌-◌, ◌*◌, ◌≤◌, ◌<◌, ◌≡◌, refl, ap, ◌∙◌, ◌⊎◌, inl, inr, arith, leb, ltb, ◌&&◌,
  if◌then◌else◌, List, [], ◌∷◌, ◌++◌, length, length-append, get_or, none, Outcome, ok, u8, false,
}
use fotix.Memory.{Memory, load8, load32, store8, store32}
use fotix.Memory.Words.{load8-lt}
use fotix.Kernel.{Kernel}
use fotix.Strings.Facts.{IsString}
use fotix.FileSystem.Initrd.{Initrd, Symbols, initialise_initrd}
use fotix.FileSystem.Initrd.Start.{
  directory, directory-outside, initrd_name, dev_name, Spares, globals, IsMounted,
}
use fotix.FileSystem.Initrd.Mount.{Grants, initialise_initrd_lem}
use fotix.FileSystem.Initrd.Files.{ChangedBy}
use fotix.RamdiskTool.RoundTrip.{loaded}
use fotix.RamdiskTool.{
  success, nheaders, nrounds, write_header, write_headers, filled, write_files, write_image, main,
  bytes_of,
}
use fotix.FileSystem.Initrd.Image.{Stands, IsImage}
use fotix.RamdiskTool.Tests.{copy_string, argv, contents, blank, host, copies, text, fits, there}

abbrev AllBytes : List ℕ → Type 0
AllBytes xs = (j : ℕ) → get_or xs j 0 < 256

AllBytes-bytes_of : (m : Memory) (a n : ℕ) → AllBytes (bytes_of m a n)
unfolding bytes_of
AllBytes-bytes_of m a zero j = omega arith
AllBytes-bytes_of m a (suc n) zero = load8-lt m a
AllBytes-bytes_of m a (suc n) (suc j) = AllBytes-bytes_of m (a + 1) n j

AllBytes-append : (xs ys : List ℕ) → AllBytes xs → AllBytes ys → AllBytes (xs ++ ys)
AllBytes-append [] ys p q j = q j
AllBytes-append (x ∷ xs) ys p q zero = p 0
AllBytes-append (x ∷ xs) ys p q (suc j) = AllBytes-append xs ys (λ i. p (suc i)) q j

length-bytes : (m : Memory) (a n : ℕ) → length (bytes_of m a n) ≡ n
unfolding bytes_of
length-bytes m a zero = refl
length-bytes m a (suc n) = ap suc (length-bytes m (a + 1) n)

-- The tool's memory in the end, and its file.
abbrev host' : Memory
host' =
    store8 (store32 (store32 (copy_string 9 (b'a' ∷ []) (store32 blank 0 1)) 76 4868) 80 3) 8 0xBF

abbrev img : List ℕ
img = bytes_of host' 0 4 ++ (bytes_of host' 8 4864 ++ (7 ∷ 8 ∷ 9 ∷ []))

written : main copy_string host 3 argv 0 8 blank ≡ ok (success img)
unfolding main write_image write_headers write_header filled write_files nheaders nrounds load32
    load8 store32 store8
written = refl

bytes : AllBytes img
bytes =
    AllBytes-append (bytes_of host' 0 4) (bytes_of host' 8 4864 ++ (7 ∷ 8 ∷ 9 ∷ []))
      (AllBytes-bytes_of host' 0 4)
      (AllBytes-append (bytes_of host' 8 4864) (7 ∷ 8 ∷ 9 ∷ []) (AllBytes-bytes_of host' 8 4864)
        last)
  where
    last : AllBytes (7 ∷ 8 ∷ 9 ∷ [])
    last zero = omega arith
    last (suc zero) = omega arith
    last (suc (suc zero)) = omega arith
    last (suc (suc (suc j))) = omega arith

img_size : length img ≡ 4871
img_size = omega (
  arith,
  length-append (bytes_of host' 0 4) (bytes_of host' 8 4864 ++ (7 ∷ 8 ∷ 9 ∷ [])),
  length-append (bytes_of host' 8 4864) (7 ∷ 8 ∷ 9 ∷ []),
  length-bytes host' 0 4,
  length-bytes host' 8 4864,
)

-- The kernel's memory: the literals "initrd", "dev" and "a", and the ramdisk at 10000.
abbrev literals : List ℕ
literals = b'i' ∷ b'n' ∷ b'i' ∷ b't' ∷ b'r' ∷ b'd' ∷ 0 ∷ b'd' ∷ b'e' ∷ b'v' ∷ 0 ∷ b'a' ∷ 0 ∷ []

abbrev memory : Memory
memory b =
    if leb 10000 b && ltb b 14871
    then get_or img (b - 10000) 0
    else if leb 100 b && ltb b 113
    then get_or literals (b - 100) 0
    else 0

at_location : Stands memory 10000 img
unfolding load8
at_location j p =
    let place : get_or img (10000 + j - 10000) 0 ≡ get_or img j 0 =
      ap (λ (i : ℕ). get_or img i 0) {y = j} (omega arith) in
    let byte : memory (10000 + j) ≡ get_or img j 0 = ground (arith, img_size, place) in
    ap u8 byte ∙ omega (arith, bytes j)

clear : (b : ℕ) → 15000 ≤ b → memory b ≡ 0
clear b p = ground arith

abbrev kernel : Kernel
kernel = record {
  memory = memory;
  placement_address = 20000;
  heap_ready = false;
  kheap = record {
    index = record { array = 0; size = 0; max_size = 0; less_than = none };
    start_address = 0;
    end_address = 0;
    max_address = 0;
    supervisor = false;
    readonly = false;
  };
  frame_set = record { frames = 0; nframes = 0 };
  kernel_directory = 0;
  current_directory = 0;
}

abbrev kmalloc : (sz : ℕ) → Kernel → Outcome (ℕ × Kernel)
kmalloc sz k = ok (k.placement_address, record k { placement_address = k.placement_address + sz })

abbrev symbols : Symbols
symbols = record { dirent = 0; dev = 107; initrd = 100; read = 1; readdir = 2; finddir = 3 }

abbrev memory2 : Memory
memory2 = directory symbols 100 6 20000 memory

abbrev memory4 : Memory
memory4 = directory symbols 107 3 20184 memory2

initrd_there : IsString memory 100 initrd_name
unfolding load8
initrd_there = (
  refl,
  omega arith,
  (
    refl,
    omega arith,
    (refl, omega arith, (refl, omega arith, (refl, omega arith, (refl, omega arith, refl)))),
  ),
)

outside2 : (b : ℕ) → (b < 20000) ⊎ (20184 ≤ b) → memory2 b ≡ memory b
outside2 =
    directory-outside 64 symbols 100 20000 b'i' (b'n' ∷ b'i' ∷ b't' ∷ b'r' ∷ b'd' ∷ []) memory
      initrd_there (omega arith) (inr (omega arith))

text_at : (m : Memory) (a c : ℕ) → m a ≡ c → c < 256 → load8 m a ≡ c
unfolding load8
text_at m a c e p = ap u8 e ∙ omega arith

dev_there : IsString memory2 107 dev_name
dev_there = (
  text_at memory2 107 b'd' (outside2 107 (inl (omega arith))) (omega arith),
  omega arith,
  (
    text_at memory2 108 b'e' (outside2 108 (inl (omega arith))) (omega arith),
    omega arith,
    (
      text_at memory2 109 b'v' (outside2 109 (inl (omega arith))) (omega arith),
      omega arith,
      text_at memory2 110 0 (outside2 110 (inl (omega arith))) (omega arith),
    ),
  ),
)

outside4 : (b : ℕ) → (b < 20184) ⊎ (20368 ≤ b) → memory4 b ≡ memory2 b
outside4 =
    directory-outside 64 symbols 107 20184 b'd' (b'e' ∷ b'v' ∷ []) memory2 dev_there (omega arith)
      (inr (omega arith))

spares :
    (m : Memory) (block size lo hi : ℕ)
    → (block + size ≤ lo) ⊎ (hi ≤ block)
    → Spares m m block size lo hi
spares m block size lo hi p = record { apart = p; kept = λ b q r. refl }

abbrev kernel2 : Kernel
kernel2 = record kernel { placement_address = 20184 }

abbrev kernel4 : Kernel
kernel4 = record kernel { memory = memory2; placement_address = 20368 }

abbrev kernel6 : Kernel
kernel6 = record kernel { memory = memory4; placement_address = 20552 }

granted : Grants symbols 10000 14871 1 kmalloc 20000 20184 20368 kernel kernel2 kernel4 kernel6
granted = record {
  root_call = refl;
  root_disk = spares memory 20000 184 10000 14871 (inr (omega arith));
  root_blank = λ d p. text_at memory (20000 + d) 0 (clear (20000 + d) (omega arith)) (omega arith);
  initrd_literal = initrd_there;
  initrd_apart = inr (omega arith);
  dev_call = refl;
  dev_disk = spares memory2 20184 184 10000 14871 (inr (omega arith));
  dev_root = spares memory2 20184 184 20000 20184 (inr (omega arith));
  dev_blank = λ d p.
      text_at memory2 (20184 + d) 0
        (outside2 (20184 + d) (inr (omega arith)) ∙ clear (20184 + d) (omega arith)) (omega arith);
  dev_literal = dev_there;
  dev_apart = inr (omega arith);
  nodes_call = refl;
  nodes_disk = spares memory4 20368 184 10000 14871 (inr (omega arith));
  nodes_root = spares memory4 20368 184 20000 20184 (inr (omega arith));
  nodes_dev = spares memory4 20368 184 20184 20368 (inr (omega arith));
  nodes_blank = λ d p.
      text_at memory4 (20368 + d) 0
        (outside4 (20368 + d) (inr (omega arith))
          ∙ outside2 (20368 + d) (inr (omega arith))
          ∙ clear (20368 + d) (omega arith))
        (omega arith);
}

abbrev names : ℕ → List ℕ
names i = argv (i * 2 + 2)

is_image : IsImage memory 10000 1 names contents
is_image =
    loaded copy_string host 3 argv 0 8 blank contents img copies (omega arith) (inl (omega arith))
      text fits there refl there written memory 10000 (omega arith) at_location

abbrev mounted_disk : Initrd
mounted_disk = globals 10000 20000 20184 20368 1

initialise_initrd_lem_example :
    (m' : Memory) × (initialise_initrd 64 symbols kmalloc 10000 kernel
      ≡ ok (mounted_disk, record kernel6 { memory = m' }))
    × IsMounted m' symbols mounted_disk 10000 names contents
    × ChangedBy memory4 m' mounted_disk 0 1
initialise_initrd_lem_example =
    initialise_initrd_lem 64 symbols 10000 1 names contents (omega arith) fits (omega arith)
      (omega arith) (omega arith) (omega arith) (omega arith) kmalloc 20000 20184 20368 kernel
      kernel2 kernel4 kernel6 is_image granted

mounting :
    (m' : Memory) × (initialise_initrd 64 symbols kmalloc 10000 kernel
      ≡ ok (mounted_disk, record kernel6 { memory = m' }))
    × IsMounted m' symbols mounted_disk 10000 names contents
    × ChangedBy memory4 m' mounted_disk 0 1
mounting =
    initialise_initrd_lem 64 symbols 10000 1 names contents (omega arith) fits (omega arith)
      (omega arith) (omega arith) (omega arith) (omega arith) kmalloc 20000 20184 20368 kernel
      kernel2 kernel4 kernel6 is_image granted

-- The literals are where they were.
kept : (b : ℕ) → b < 10000 → mounting.0 b ≡ memory b
kept b p =
    mounting.3 b (inl (omega arith)) (inl (omega arith))
    ∙ outside4 b (inl (omega arith))
    ∙ outside2 b (inl (omega arith))
