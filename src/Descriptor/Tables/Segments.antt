-- ===== src/Descriptor/Tables/Segments.antt =====
-- The segments after `init_gdt`.
use fotix.Base.{
  ℕ, ◌+◌, ◌%◌, ◌^◌, ◌<◌, ◌≡◌, refl, sym, ◌∙◌, arith, subst, Bool-cases, inl, inr, ◌==◌, ==_iff,
  if◌then◌else◌, List, length, length-set, get_or, get_or-set_self, get_or-set_ne, u32,
}
use fotix.Descriptor.{GdtEntry, gdt_entry, gdt_set_gate}
use fotix.Descriptor.Gates.{gate_base, gate_limit, gate_flags, gdt_entry_lem}
use fotix.Descriptor.Tables.{Symbols, Descriptors, flat_segments, write_tss, init_gdt}

-- What the processor reads in the entry of a segment.
abbrev pub IsSegment : (e : GdtEntry) → (base limit flags access : ℕ) → Type 0
IsSegment e base limit flags access =
    (gate_base e ≡ base) × (gate_limit e ≡ limit) × (gate_flags e ≡ flags) × (e.access ≡ access)

length-gdt_set_gate :
    (g : List GdtEntry) (num base limit access gran : ℕ)
    → length (gdt_set_gate g num base limit access gran) ≡ length g
unfolding gdt_set_gate
length-gdt_set_gate g num base limit access gran =
    length-set g num (gdt_entry base limit access gran)

get_or-gdt_set_gate :
    (g : List GdtEntry) (blank : GdtEntry) (num base limit access gran j : ℕ)
    → num < length g
    → get_or (gdt_set_gate g num base limit access gran) j blank
      ≡ (if num == j then gdt_entry base limit access gran else get_or g j blank)
unfolding gdt_set_gate
get_or-gdt_set_gate g blank num base limit access gran j h = elim (Bool-cases (num == j)) [
  | inl t ↦
      rw (t, ← ((==_iff num j).0 t))
        (get_or-set_self g num (gdt_entry base limit access gran) blank h)
  | inr f ↦
      rw f (get_or-set_ne g num j (gdt_entry base limit access gran) blank (λ e. ground (arith, e)))
]

length-flat_segments : (g : List GdtEntry) → length (flat_segments g) ≡ length g
unfolding flat_segments
length-flat_segments g =
    let g0 = gdt_set_gate g 0 0 0 0 0 in
    let g1 = gdt_set_gate g0 1 0 0xFFFFFFFF 0x9A 0xCF in
    let g2 = gdt_set_gate g1 2 0 0xFFFFFFFF 0x92 0xCF in
    let g3 = gdt_set_gate g2 3 0 0xFFFFFFFF 0xFA 0xCF in
    length-gdt_set_gate g3 4 0 0xFFFFFFFF 0xF2 0xCF
    ∙ length-gdt_set_gate g2 3 0 0xFFFFFFFF 0xFA 0xCF
    ∙ length-gdt_set_gate g1 2 0 0xFFFFFFFF 0x92 0xCF
    ∙ length-gdt_set_gate g0 1 0 0xFFFFFFFF 0x9A 0xCF
    ∙ length-gdt_set_gate g 0 0 0 0 0

-- The flat segment that entry `j` is to be.
abbrev flat : ℕ → GdtEntry → GdtEntry
flat j other =
    if 4 == j
    then gdt_entry 0 0xFFFFFFFF 0xF2 0xCF
    else if 3 == j
    then gdt_entry 0 0xFFFFFFFF 0xFA 0xCF
    else if 2 == j
    then gdt_entry 0 0xFFFFFFFF 0x92 0xCF
    else if 1 == j
    then gdt_entry 0 0xFFFFFFFF 0x9A 0xCF
    else if 0 == j
    then gdt_entry 0 0 0 0
    else other

get_or-flat_segments :
    (g : List GdtEntry) (blank : GdtEntry) (j : ℕ)
    → 5 < length g
    → get_or (flat_segments g) j blank ≡ flat j (get_or g j blank)
unfolding flat_segments
get_or-flat_segments g blank j h =
    let g0 = gdt_set_gate g 0 0 0 0 0 in
    let g1 = gdt_set_gate g0 1 0 0xFFFFFFFF 0x9A 0xCF in
    let g2 = gdt_set_gate g1 2 0 0xFFFFFFFF 0x92 0xCF in
    let g3 = gdt_set_gate g2 3 0 0xFFFFFFFF 0xFA 0xCF in
    let n0 = length-gdt_set_gate g 0 0 0 0 0 in
    let n1 = length-gdt_set_gate g0 1 0 0xFFFFFFFF 0x9A 0xCF in
    let n2 = length-gdt_set_gate g1 2 0 0xFFFFFFFF 0x92 0xCF in
    let n3 = length-gdt_set_gate g2 3 0 0xFFFFFFFF 0xFA 0xCF in
    rw
      (
        get_or-gdt_set_gate g3 blank 4 0 0xFFFFFFFF 0xF2 0xCF j (omega (arith, n0, n1, n2, n3)),
        get_or-gdt_set_gate g2 blank 3 0 0xFFFFFFFF 0xFA 0xCF j (omega (arith, n0, n1, n2)),
        get_or-gdt_set_gate g1 blank 2 0 0xFFFFFFFF 0x92 0xCF j (omega (arith, n0, n1)),
        get_or-gdt_set_gate g0 blank 1 0 0xFFFFFFFF 0x9A 0xCF j (omega (arith, n0)),
        get_or-gdt_set_gate g blank 0 0 0 0 0 j (omega arith),
      )
      refl

get_or-init_gdt :
    (at : Symbols) (d : Descriptors) (blank : GdtEntry) (j : ℕ)
    → 5 < length d.gdt_entries
    → get_or (init_gdt at d).1.gdt_entries j blank ≡ (
        if 5 == j
        then gdt_entry at.tss_entry (u32 (at.tss_entry + 104)) 0xE9 0
        else flat j (get_or d.gdt_entries j blank))
unfolding init_gdt write_tss
get_or-init_gdt at d blank j h =
    let g = flat_segments d.gdt_entries in
    rw
      (
        get_or-gdt_set_gate g blank 5 at.tss_entry (u32 (at.tss_entry + 104)) 0xE9 0 j
            (omega (arith, length-flat_segments d.gdt_entries)),
        get_or-flat_segments d.gdt_entries blank j h,
      )
      refl

segment :
    {e e' : GdtEntry} {base limit flags access : ℕ}
    → e ≡ e'
    → IsSegment e' base limit flags access
    → IsSegment e base limit flags access
segment {base} {limit} {flags} {access} same p =
    subst (λ e. IsSegment e base limit flags access) (sym same) p

-- After `init_gdt`, where the table has six entries and the task state segment lies within 32 bits,
-- entries 1 to 4 are segments over all 4 GB in pages: the kernel's code and data, the user's code and
-- data. Entry 5 is the task state segment: it starts at the object, but its limit is that of the
-- address where the object ends. The segment holds the kernel's data selector for its stack.
pub init_gdt_lem :
    (at : Symbols) (d : Descriptors) (blank : GdtEntry)
    → 5 < length d.gdt_entries
    → at.tss_entry + 104 < 2 ^ 32
    → let d' = (init_gdt at d).1 in
      IsSegment (get_or d'.gdt_entries 1 blank) 0 0xFFFFF 0xC 0x9A
      × IsSegment (get_or d'.gdt_entries 2 blank) 0 0xFFFFF 0xC 0x92
      × IsSegment (get_or d'.gdt_entries 3 blank) 0 0xFFFFF 0xC 0xFA
      × IsSegment (get_or d'.gdt_entries 4 blank) 0 0xFFFFF 0xC 0xF2
      × IsSegment
          (get_or d'.gdt_entries 5 blank)
          at.tss_entry
          ((at.tss_entry + 104) % 2 ^ 20)
          0
          0xE9
      × (d'.gdt_ptr.limit ≡ 47)
      × (d'.tss_entry.ss0 ≡ 0x10)
unfolding init_gdt write_tss gdt_entry
init_gdt_lem at d blank h p =
    let entry = λ (j : ℕ). get_or-init_gdt at d blank j h in
    let (b, l, g) =
      gdt_entry_lem at.tss_entry (u32 (at.tss_entry + 104)) 0xE9 0 (omega arith) (omega arith)
        (omega arith) in
    (
      segment (entry 1) (refl, refl, refl, refl),
      segment (entry 2) (refl, refl, refl, refl),
      segment (entry 3) (refl, refl, refl, refl),
      segment (entry 4) (refl, refl, refl, refl),
      segment (entry 5) (b, l ∙ omega arith, g, refl),
      refl,
      refl,
    )
