-- ===== src/RamdiskTool/RoundTrip.antt =====
-- From the files of the host, through utils/mkinit.c, to what the kernel reads from its ramdisk.
use fotix.Base.{
  ℕ, ◌+◌, ◌-◌, ◌*◌, ◌/◌, ◌^◌, ◌≤◌, ◌<◌, ◌≡◌, sym, ap, ◌∙◌, subst, ◌⊎◌, arith, List, [], length,
  some, true, Outcome, ok,
}
use fotix.Memory.{Memory}
use fotix.Kernel.{Kernel}
use fotix.FileSystem.Initrd.{Initrd}
use fotix.FileSystem.Initrd.Image.{total, Stands, IsImage}
use fotix.RamdiskTool.{Host, Exit, success, main}
use fotix.RamdiskTool.Headers.{IsText, CopiesStrings}
use fotix.RamdiskTool.Written.{main_lem}

abbrev image_of : Outcome Exit → List ℕ
image_of (ok (success img)) = img
image_of o = []

abbrev globals_of : Outcome (Initrd × Kernel) → Initrd → Initrd
globals_of (ok (g, k)) d = g
globals_of o d = d

abbrev memory_of : Outcome (Initrd × Kernel) → Memory → Memory
memory_of (ok (g, k)) d = k.memory
memory_of o d = d

module _ (strcpy : (dest : ℕ) → List ℕ → Memory → Memory) (host : Host) (argc : ℕ)
    (argv : ℕ → List ℕ) (count headers : ℕ) (m0 : Memory) (contents : ℕ → List ℕ) (img : List ℕ)
    (copies : CopiesStrings strcpy) (few : argc < 128)
    (apart : (count + 4 ≤ headers) ⊎ (headers + 4864 ≤ count))
    (text : (i : ℕ) → i < (argc - 1) / 2 → IsText (argv (i * 2 + 2)))
    (fits : (i : ℕ)
      → i < (argc - 1) / 2
      → (0 < length (argv (i * 2 + 2))) × (length (argv (i * 2 + 2)) < 64))
    (there : (i : ℕ) → i < (argc - 1) / 2 → host.fopen (argv (i * 2 + 1)) ≡ some (contents i))
    (can : host.writable ≡ true)
    (again : (i : ℕ) → i < (argc - 1) / 2 → host.reopen (argv (i * 2 + 1)) ≡ some (contents i))
    (written : main strcpy host argc argv count headers m0 ≡ ok (success img)) where
  abbrev n : ℕ
  n = (argc - 1) / 2

  abbrev names : ℕ → List ℕ
  names i = argv (i * 2 + 2)

  pub loaded :
      (m : Memory) (location : ℕ)
      → location + 4868 + total contents n < 2 ^ 32
      → Stands m location img
      → IsImage m location n names contents
  loaded m location low s =
      let (img', ran, image) =
        main_lem strcpy host argc argv count headers m0 contents copies few apart text
          (λ i p. (fits i p).1) there can again (omega arith) in
      image m location
        (subst (λ (bytes : List ℕ). Stands m location bytes) (ap image_of (sym written ∙ ran)) s)
