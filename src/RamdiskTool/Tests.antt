-- ===== src/RamdiskTool/Tests.antt =====
-- Runs of the ramdisk tool, and its theorems at a concrete file.
mod Mounted
use fotix.Base.{
  ℕ, zero, suc, ◌+◌, ◌-◌, ◌*◌, ◌/◌, ◌^◌, ◌≤◌, ◌<◌, ◌≡◌, ◌≢◌, refl, sym, ap, ◌∙◌, subst, ◌⊎◌, inl,
  inr, arith, Bool-cases, leb, ltb, ◌&&◌, ◌==◌, if◌then◌else◌, List, [], ◌∷◌, ◌++◌, length, get_or,
  get_or-append_left, get_or-append_right, Option, none, some, Outcome, ok, u8, true,
}
use fotix.Memory.{Memory, load8, load32, store8, store32}
use fotix.Kernel.{Kernel}
use fotix.Strings.Facts.{IsString}
use fotix.FileSystem.Initrd.Image.{total, start, Stands, IsImage, load8-same}
use fotix.RamdiskTool.{
  FileTable, Host, Exit, success, nheaders, write_header, write_headers, write_files, write_image,
  main, bytes_of,
}
use fotix.RamdiskTool.Headers.{IsText, CopiesStrings}
use fotix.RamdiskTool.Written.{main_lem}

-- A `strcpy` of the C library.
abbrev pub copy_string : (dest : ℕ) → List ℕ → Memory → Memory
copy_string dest [] m = store8 m dest 0
copy_string dest (c ∷ cs) m = copy_string (dest + 1) cs (store8 m dest c)

copy_string-outside :
    (dest : ℕ) (cs : List ℕ) (m : Memory) (b : ℕ)
    → (b < dest) ⊎ (dest + length cs < b)
    → copy_string dest cs m b ≡ m b
unfolding store8
copy_string-outside dest [] m b out = ground arith
copy_string-outside dest (c ∷ cs) m b out =
    copy_string-outside (dest + 1) cs (store8 m dest c) b (omega arith) ∙ ground arith

copy_string-IsString :
    (dest : ℕ) (cs : List ℕ) (m : Memory) → IsText cs → IsString (copy_string dest cs m) dest cs
unfolding store8 load8
copy_string-IsString dest [] m text = ground arith
copy_string-IsString dest (c ∷ cs) m (low, byte, text) = (
  ap u8 (copy_string-outside (dest + 1) cs (store8 m dest c) dest (omega arith)) ∙ ground arith,
  low,
  copy_string-IsString (dest + 1) cs (store8 m dest c) text,
)

pub copies : CopiesStrings copy_string
copies = record { string = copy_string-IsString; outside = copy_string-outside }

-- One file, "f" on the host, with three bytes; its name in the ramdisk is "a".
abbrev pub argv : ℕ → List ℕ
argv i = if i == 1 then b'f' ∷ [] else b'a' ∷ []

abbrev pub fopen : FileTable
fopen name = if get_or name 0 0 == b'f' then some (7 ∷ 8 ∷ 9 ∷ []) else none

abbrev pub contents : ℕ → List ℕ
contents i = 7 ∷ 8 ∷ 9 ∷ []

abbrev pub blank : Memory
blank b = 0

-- Nothing happens to the files between the loops.
abbrev pub host : Host
host = record { fopen = fopen; writable = true; reopen = fopen; malloc = λ i j. 0 }

pub text : (i : ℕ) → i < (3 - 1) / 2 → IsText (argv (i * 2 + 2))
text zero p = (omega arith, omega arith, tt)
text (suc i) p = absurd (omega arith)

pub fits :
    (i : ℕ) → i < (3 - 1) / 2 → (0 < length (argv (i * 2 + 2))) × (length (argv (i * 2 + 2)) < 64)
fits zero p = (omega arith, omega arith)
fits (suc i) p = absurd (omega arith)

pub there : (i : ℕ) → i < (3 - 1) / 2 → fopen (argv (i * 2 + 1)) ≡ some (contents i)
there zero p = refl
there (suc i) p = absurd (omega arith)

main_lem_example :
    (img : List ℕ) × (main copy_string host 3 argv 0 8 blank ≡ ok (success img))
    × ((m' : Memory) (location : ℕ)
        → Stands m' location img
        → IsImage m' location 1 (λ i. argv (i * 2 + 2)) contents)
main_lem_example =
    main_lem copy_string host 3 argv 0 8 blank contents copies (omega arith) (inl (omega arith))
      text (λ i p. (fits i p).1) there refl there (omega arith)

-- A file that is not there.
abbrev missing_argv : ℕ → List ℕ
missing_argv i = b'g' ∷ []
