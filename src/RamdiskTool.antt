-- ===== src/RamdiskTool.antt =====
-- The host program utils/mkinit.c, which writes `initrd.img`. The library's `strcpy`, what `fopen`
-- and `fread` find in a file in each of the two loops, whether `initrd.img` can be opened, and what
-- `malloc` returns are parameters (`malloc` does not fail); the array `headers` lies in its memory,
-- which it does not clear.
pub mod Headers
pub mod Written
pub mod Exits
pub mod RoundTrip
mod Tests
use fotix.Base.{
  ℕ, zero, suc, ◌+◌, ◌-◌, ◌*◌, ◌/◌, ◌^◌, ltb, if◌then◌else◌, List, [], ◌∷◌, ◌++◌, length, Bool,
  true, false, Option, none, some, Outcome, ok, undefined, defined, ◌>>=◌, ◌>>◌, u8, u32, sub32,
}
use fotix.Memory.{Memory, load8, load32, store8, store32}

-- The fields of a `struct initrd_header`: a byte, a name of 64 bytes, three bytes of padding, two
-- words.
abbrev pub sizeof_initrd_header : ℕ
sizeof_initrd_header = 76

abbrev pub header_magic : ℕ → ℕ
header_magic header = header

abbrev pub header_name : ℕ → ℕ
header_name header = header + 1

abbrev pub header_offset : ℕ → ℕ
header_offset header = header + 68

abbrev pub header_length : ℕ → ℕ
header_length header = header + 72

-- `(argc-1)/2`, a division towards zero, of a signed byte; and the rounds that a loop below it makes.
unfoldable pub nheaders : (argc : ℕ) → ℕ
nheaders argc = if ltb (u8 argc) 128 then (u8 argc - 1) / 2 else sub32 0 ((257 - u8 argc) / 2)

unfoldable pub nrounds : (argc : ℕ) → ℕ
nrounds argc = if ltb (u8 argc) 128 then (u8 argc - 1) / 2 else 0

-- What the file with this name holds, where there is one.
abbrev pub FileTable : Type 0
FileTable = List ℕ → Option (List ℕ)

-- The body of the first loop, given what `fopen` finds: the header is filled in, and `off` moves on
-- by the length; or there is no file.
unfoldable pub write_header :
    (strcpy : (dest : ℕ) → List ℕ → Memory → Memory)
    → Option (List ℕ)
    → (name : List ℕ) → (header off : ℕ) → Memory
    → Option (Memory × ℕ)
write_header strcpy none name header off m = none
write_header strcpy (some bytes) name header off m =
    let m1 = store32 (strcpy (header_name header) name m) (header_offset header) off in
    let m2 = store32 m1 (header_length header) (u32 (length bytes)) in
    some (store8 m2 (header_magic header) 0xBF, u32 (off + load32 m2 (header_length header)))

-- The first loop, with the rounds left.
unfoldable pub write_headers :
    (strcpy : (dest : ℕ) → List ℕ → Memory → Memory)
    → FileTable
    → (argv : ℕ → List ℕ) → (headers rounds i off : ℕ) → Memory
    → Option (Memory × ℕ)
write_headers strcpy fopen argv headers zero i off m = some (m, off)
write_headers strcpy fopen argv headers (suc rounds) i off m =
    elim (write_header strcpy (fopen (argv (i * 2 + 1))) (argv (i * 2 + 2))
      (headers + sizeof_initrd_header * i) off m) [
        | none ↦ none
        | some (m', off') ↦ write_headers strcpy fopen argv headers rounds (i + 1) off' m'
      ]

-- The bytes that `fwrite` takes from memory.
unfoldable pub bytes_of : Memory → (a n : ℕ) → List ℕ
bytes_of m a zero = []
bytes_of m a (suc n) = load8 m a ∷ bytes_of m (a + 1) n

-- A buffer of `n` bytes behind `fread`: what the file has, and where it has less, what the buffer held
-- before.
unfoldable pub filled : (n : ℕ) (found : List ℕ) (before : ℕ → ℕ) → List ℕ
filled zero found before = []
filled (suc n) [] before = before 0 ∷ filled n [] (λ j. before (suc j))
filled (suc n) (c ∷ cs) before = c ∷ filled n cs (λ j. before (suc j))

-- The second loop: the files, one behind the other, as they are by then; `malloc i` is what the buffer
-- of round `i` holds. To read from a file that is missing by then is undefined.
unfoldable pub write_files :
    FileTable
    → (malloc : ℕ → ℕ → ℕ) (argv : ℕ → List ℕ) (headers rounds i : ℕ) → Memory
    → Outcome (List ℕ)
write_files fopen malloc argv headers zero i m = ok []
write_files fopen malloc argv headers (suc rounds) i m = do
  found ← defined (fopen (argv (i * 2 + 1)))
  let length = load32 m (header_length (headers + sizeof_initrd_header * i))
  rest ← write_files fopen malloc argv headers rounds (i + 1) m
  ok (filled length found (malloc i) ++ rest)

-- What the host does for the tool: the files as the first loop finds them, whether `initrd.img` can be
-- opened for writing, and the files and the buffers of the second loop.
pub record Host : Type 0 where
  pub fopen : FileTable
  pub writable : Bool
  pub reopen : FileTable
  pub malloc : ℕ → ℕ → ℕ

-- The stream of `initrd.img` is not tested, and to write to a null stream is undefined.
abbrev pub opened : Bool → Outcome (Unit {0})
opened true = ok tt
opened false = undefined

-- How `main` ends: it returns 1 before it has opened `initrd.img`, or 0 with that file written.
pub data Exit : Type 0 where
  failure : Exit
  success : (initrd_img : List ℕ) → Exit

-- `main` behind the first loop.
unfoldable pub write_image :
    Host → (argc : ℕ) (argv : ℕ → List ℕ) (count headers : ℕ) → Option (Memory × ℕ) → Outcome Exit
write_image host argc argv count headers none = ok failure
write_image host argc argv count headers (some (m, off)) = do
  opened host.writable
  files ← write_files host.reopen host.malloc argv headers (nrounds argc) 0 m
  ok (success (bytes_of m count 4 ++ (bytes_of m headers (sizeof_initrd_header * 64) ++ files)))

-- `main`, with the addresses of its variables `nheaders` and `headers`.
unfoldable pub main :
    (strcpy : (dest : ℕ) → List ℕ → Memory → Memory)
    → Host
    → (argc : ℕ) (argv : ℕ → List ℕ) (count headers : ℕ) → Memory
    → Outcome Exit
main strcpy host argc argv count headers m = write_image host argc argv count headers (
    write_headers strcpy host.fopen argv headers (nrounds argc) 0 (sizeof_initrd_header * 64 + 4)
      (store32 m count (nheaders argc)))
