-- ===== src/Descriptor/Gates.antt =====
-- What the processor reads in an entry is what was to be written.
use fotix.Base.{
  ℕ, ◌+◌, ◌*◌, ◌/◌, ◌%◌, ◌^◌, ◌<◌, ◌≡◌, ◌≢◌, refl, ap, ◌∙◌, arith, List, length, ◌==◌, ==_iff,
  get_or, set, get_or-set_self, get_or-set_ne, u8, bit_and, bit_or,
}
use fotix.Base.Bits.{all_below_sound, bit_and_mask, bit_and_high, bit_or_split, bit_or-zero}
use Prim.Native.Nat.{bit_or-bitwise}
use fotix.Descriptor.{GdtEntry, IdtEntry, gdt_entry, gdt_set_gate, idt_entry, idt_set_gate}

-- The base, the limit and the flags of a segment, as the processor puts them together.
abbrev pub gate_base : GdtEntry → ℕ
gate_base e = e.base_low + 2 ^ 16 * e.base_middle + 2 ^ 24 * e.base_high

abbrev pub gate_limit : GdtEntry → ℕ
gate_limit e = e.limit_low + 2 ^ 16 * (e.granularity % 16)

abbrev pub gate_flags : GdtEntry → ℕ
gate_flags e = e.granularity / 16

high_nibble : (gran : ℕ) → gran < 2 ^ 8 → bit_and gran 0xF0 ≡ gran / 16 * 16
high_nibble gran h = bit_and_high 4 4 gran (omega arith)

join_nibbles :
    (low gran : ℕ) → low < 16 → gran < 2 ^ 8 → bit_or low (gran / 16 * 16) ≡ low + gran / 16 * 16
join_nibbles low gran p q =
    ground
      (arith, bit_or_split 4 0 low (gran / 16) 0, bit_or-zero low low, bit_or-bitwise 0 (gran / 16))

pub gdt_entry_lem :
    (base limit access gran : ℕ)
    → base < 2 ^ 32
    → limit < 2 ^ 32
    → gran < 2 ^ 8
    → (gate_base (gdt_entry base limit access gran) ≡ base)
      × (gate_limit (gdt_entry base limit access gran) ≡ limit % 2 ^ 20)
      × (gate_flags (gdt_entry base limit access gran) ≡ gran / 16)
unfolding gdt_entry
gdt_entry_lem base limit access gran p q r =
    let nibble = join_nibbles (limit / 2 ^ 16 % 2 ^ 4) gran (omega arith) r in
    let e1 = bit_and_mask 16 base in
    let e2 = bit_and_mask 8 (base / 2 ^ 16) in
    let e3 = bit_and_mask 8 (base / 2 ^ 24) in
    let e4 = bit_and_mask 16 limit in
    let e5 = bit_and_mask 4 (limit / 2 ^ 16) in
    let e6 = high_nibble gran r in (ground arith, ground arith, ground arith)

-- `gdt_set_gate` of an entry of the table leaves there a segment with the base, the low 20 bits of
-- the limit, the high half of the flags and the access byte asked for, and no other entry changed.
pub gdt_set_gate_lem :
    (entries : List GdtEntry) (blank : GdtEntry) (num base limit access gran : ℕ)
    → num < length entries
    → base < 2 ^ 32
    → limit < 2 ^ 32
    → gran < 2 ^ 8
    → let entries' = gdt_set_gate entries num base limit access gran in
      let e = get_or entries' num blank in
      (gate_base e ≡ base)
      × (gate_limit e ≡ limit % 2 ^ 20)
      × (gate_flags e ≡ gran / 16)
      × (e.access ≡ access)
      × ((j : ℕ) → num ≢ j → get_or entries' j blank ≡ get_or entries j blank)
unfolding gdt_set_gate gdt_entry
gdt_set_gate_lem entries blank num base limit access gran valid p q r =
    let e = gdt_entry base limit access gran in
    let here : get_or (set entries num e) num blank ≡ e =
      get_or-set_self entries num e blank valid in
    let (b, l, f) = gdt_entry_lem base limit access gran p q r in
    (
      ap gate_base here ∙ b,
      ap gate_limit here ∙ l,
      ap gate_flags here ∙ f,
      ap (λ (e : GdtEntry). e.access) here,
      λ j ne. get_or-set_ne entries num j e blank ne,
    )

ring_three : (flags : ℕ) → flags < 2 ^ 8 → u8 (bit_or flags 0x60) / 32 % 4 ≡ 3
ring_three flags h =
    (==_iff _ _).0 (all_below_sound 256 (λ f. u8 (bit_or f 0x60) / 32 % 4 == 3) flags refl h)

-- `idt_set_gate` of an entry of the table leaves there a gate to the handler's address, with the
-- selector asked for, and with both bits of the privilege level set, so that user code may raise the
-- interrupt; no other entry is changed.
pub idt_set_gate_lem :
    (entries : List IdtEntry) (blank : IdtEntry) (num base sel flags : ℕ)
    → num < length entries
    → base < 2 ^ 32
    → flags < 2 ^ 8
    → let entries' = idt_set_gate entries num base sel flags in
      let e = get_or entries' num blank in
      (e.base_lo + 2 ^ 16 * e.base_hi ≡ base)
      × (e.sel ≡ sel)
      × (e.flags / 32 % 4 ≡ 3)
      × ((j : ℕ) → num ≢ j → get_or entries' j blank ≡ get_or entries j blank)
unfolding idt_set_gate idt_entry
idt_set_gate_lem entries blank num base sel flags valid p r =
    let e = idt_entry base sel flags in
    let here : get_or (set entries num e) num blank ≡ e =
      get_or-set_self entries num e blank valid in
    (
      ap (λ (e : IdtEntry). e.base_lo + 2 ^ 16 * e.base_hi) here
          ∙ ground (arith, bit_and_mask 16 base, bit_and_mask 16 (base / 2 ^ 16)),
      ap (λ (e : IdtEntry). e.sel) here,
      ap (λ (e : IdtEntry). e.flags / 32 % 4) here ∙ ring_three flags r,
      λ j ne. get_or-set_ne entries num j e blank ne,
    )
