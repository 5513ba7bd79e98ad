-- ===== src/FileSystem/Initrd/Tests.antt =====
-- Runs of the ramdisk, and its theorems at a concrete one.
use fotix.Base.{
  ℕ, zero, suc, ◌+◌, ◌-◌, ◌<◌, ◌≡◌, ◌≢◌, refl, arith, ◌⊎◌, inr, List, [], ◌∷◌, ◌==◌, ◌&&◌, leb, ltb,
  if◌then◌else◌, ok,
}
use fotix.Memory.{Memory, load8, load32}
use fotix.FileSystem.Initrd.{Initrd, Symbols, initrd_read, initrd_finddir, root_node}
use fotix.FileSystem.Initrd.Read.{delivered, initrd_read_lem}
use fotix.FileSystem.Initrd.Lookup.{FoundFrom, initrd_finddir_lem}

-- The header of file 0 lies at 100, with ten bytes from 20 on; its node, named "a", lies at 500.
-- The literal "dev" is at 2000 and the name sought, "a", at 2010.
abbrev disk : Memory
disk a =
    if a == 168
    then 20
    else if a == 172
    then 10
    else if a == 500
    then b'a'
    else if a == 2000
    then b'd'
    else if a == 2001
    then b'e'
    else if a == 2002
    then b'v'
    else if a == 2010
    then b'a'
    else 0

abbrev globals : Initrd
globals = record {
  initrd_header = 96;
  file_headers = 100;
  initrd_root = 900;
  initrd_dev = 1200;
  root_nodes = 500;
  nroot_nodes = 1;
}

abbrev symbols : Symbols
symbols = record { dirent = 3000; dev = 2000; initrd = 2100; read = 1; readdir = 2; finddir = 3 }

initrd_read_lem_example :
    (n : ℕ) × (m' : Memory) × (initrd_read globals 500 4 100 4000 disk ≡ (n, m'))
    × (n ≡ delivered 10 4 100)
    × ((a : ℕ)
        → m' a
          ≡ (if leb 4000 a && ltb a (4000 + n) then load8 disk (20 + 4 + (a - 4000)) else disk a))
unfolding load32 load8
initrd_read_lem_example =
    initrd_read_lem globals 500 4 100 4000 disk (omega arith) (omega arith) (inr (omega arith))

abbrev a_name : List ℕ
a_name = b'a' ∷ []

the_name :
    (i : ℕ)
    → i < 1
    → (load8 disk (root_node globals i) ≡ b'a')
      × (0 < b'a')
      × (load8 disk (root_node globals i + 1) ≡ 0)
unfolding load8
the_name zero h = (refl, omega arith, refl)
the_name (suc i) h = absurd (omega arith)

initrd_finddir_lem_example :
    (r : ℕ) × (initrd_finddir 20 symbols globals 900 2010 disk ≡ ok r)
    × (((globals.initrd_root ≡ globals.initrd_root)
          × (a_name ≡ b'd' ∷ b'e' ∷ b'v' ∷ [])
          × (r ≡ 1200))
        ⊎ (((globals.initrd_root ≢ globals.initrd_root) ⊎ (a_name ≢ b'd' ∷ b'e' ∷ b'v' ∷ []))
            × FoundFrom globals (λ i. a_name) a_name 0 1 r))
unfolding load8
initrd_finddir_lem_example =
    initrd_finddir_lem 20 globals 2010 disk a_name (λ i. a_name) symbols 900 (omega arith)
      (refl, omega arith, refl) (refl, omega arith, (refl, omega arith, (refl, omega arith, refl)))
      the_name
