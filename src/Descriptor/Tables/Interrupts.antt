-- ===== src/Descriptor/Tables/Interrupts.antt =====
-- Where each interrupt leads after `init_idt`.
use fotix.Base.{
  ℕ, zero, suc, ◌+◌, ◌-◌, ◌≤◌, ◌<◌, ◌≡◌, refl, ap, sym, subst, ◌∙◌, ◌∷◌, ◌*◌, ◌/◌, ◌%◌, ◌^◌, Option,
  none, some, arith, Bool-cases, inl, inr, ◌&&◌, ltb, leb, ◌==◌, ==_iff, if◌then◌else◌, List,
  length, length-set, length-replicate, replicate, get_or, get_or-replicate, get_or-set_self,
  get_or-set_ne,
}
use fotix.Base.Bits.{bit_and_mask}
use fotix.Descriptor.{IdtEntry, idt_entry, idt_set_gate}
use fotix.Descriptor.Tables.{Symbols, Descriptors, zero_gate, set_gates, init_idt, remap_irqs}

abbrev pub gate_at : List IdtEntry → ℕ → IdtEntry
gate_at entries j = get_or entries j zero_gate

length-idt_set_gate :
    (entries : List IdtEntry) (num base sel flags : ℕ)
    → length (idt_set_gate entries num base sel flags) ≡ length entries
unfolding idt_set_gate
length-idt_set_gate entries num base sel flags = length-set entries num (idt_entry base sel flags)

gate_at-idt_set_gate :
    (entries : List IdtEntry) (num base sel flags j : ℕ)
    → num < length entries
    → gate_at (idt_set_gate entries num base sel flags) j
      ≡ (if num == j then idt_entry base sel flags else gate_at entries j)
unfolding idt_set_gate
gate_at-idt_set_gate entries num base sel flags j h = elim (Bool-cases (num == j)) [
  | inl t ↦
      rw (t, ← ((==_iff num j).0 t))
        (get_or-set_self entries num (idt_entry base sel flags) zero_gate h)
  | inr f ↦
      rw f
        (get_or-set_ne entries num j (idt_entry base sel flags) zero_gate (λ e. ground (arith, e)))
]

length-set_gates :
    (base : ℕ → ℕ) (rounds num i : ℕ) (entries : List IdtEntry)
    → length (set_gates base rounds num i entries) ≡ length entries
unfolding set_gates
length-set_gates base zero num i entries = refl
length-set_gates base (suc rounds) num i entries =
    length-set_gates base rounds (num + 1) (i + 1) (idt_set_gate entries num (base i) 0x08 0x8E)
    ∙ length-idt_set_gate entries num (base i) 0x08 0x8E

-- The gate that the kernel's handlers get: the kernel's code segment, present.
abbrev pub kernel_gate : (base : ℕ) → IdtEntry
kernel_gate base = idt_entry base 0x08 0x8E

gate_at-set_gates :
    (base : ℕ → ℕ) (rounds num i : ℕ) (entries : List IdtEntry) (j : ℕ)
    → num + rounds ≤ length entries
    → gate_at (set_gates base rounds num i entries) j ≡ (
        if leb num j && ltb j (num + rounds)
        then kernel_gate (base (i + (j - num)))
        else gate_at entries j)
unfolding set_gates
gate_at-set_gates base zero num i entries j h = ground arith
gate_at-set_gates base (suc rounds) num i entries j h =
    let rest =
      gate_at-set_gates base rounds (num + 1) (i + 1) (idt_set_gate entries num (base i) 0x08 0x8E)
        j (omega (arith, length-idt_set_gate entries num (base i) 0x08 0x8E)) in
    let here = gate_at-idt_set_gate entries num (base i) 0x08 0x8E j (omega arith) in
    rest ∙ elim (Bool-cases (num == j)) [
      | inl t ↦
          let at : base (i + (j - num)) ≡ base i =
            ap base {x = i + (j - num)} (omega (arith, (==_iff num j).0 t)) in
          ground (arith, here)
      | inr f ↦ elim (Bool-cases (ltb num j)) [
        | inl later ↦
            let at : base (i + 1 + (j - (num + 1))) ≡ base (i + (j - num)) =
              ap base {x = i + 1 + (j - (num + 1))} {y = i + (j - num)} (ground arith) in
            ground (arith, here)
        | inr sooner ↦ ground (arith, here)
      ]
    ]

-- Which stub interrupt `j` is to lead to.
abbrev pub stub_gate : Symbols → ℕ → IdtEntry
stub_gate at j =
    if ltb j 32
    then kernel_gate (at.isr j)
    else if ltb j 48
    then kernel_gate (at.irq (j - 32))
    else if j == 128
    then kernel_gate (at.isr 128)
    else zero_gate

cases_order :
    (j : ℕ) (call request exception empty : IdtEntry)
    → (if 128 == j
        then call
        else if leb 32 j && ltb j 48
        then request
        else if leb 0 j && ltb j 32
        then exception
        else empty)
      ≡ (if ltb j 32
          then exception
          else if ltb j 48
          then request
          else if j == 128
          then call
          else empty)
cases_order j call request exception empty = ground arith

-- The address of the stub that interrupt `j` is to lead to, where there is one.
abbrev pub stub_of : Symbols → ℕ → Option ℕ
stub_of at j =
    if ltb j 32
    then some (at.isr j)
    else if ltb j 48
    then some (at.irq (j - 32))
    else if j == 128
    then some (at.isr 128)
    else none

-- What the processor reads in a gate: the address, put together from its halves, the kernel's code
-- segment, and an interrupt gate of 32 bits that is present and of privilege level 3 (0xEE). An entry
-- that leads nowhere is zero.
abbrev pub LeadsTo : IdtEntry → Option ℕ → Type 0
LeadsTo e none =
    (e.base_lo ≡ 0) × (e.base_hi ≡ 0) × (e.sel ≡ 0) × (e.always_zero ≡ 0) × (e.flags ≡ 0)
LeadsTo e (some base) =
    (e.base_lo < 2 ^ 16)
    × (e.base_lo + 2 ^ 16 * e.base_hi ≡ base % 2 ^ 32)
    × (e.sel ≡ 0x08)
    × (e.always_zero ≡ 0)
    × (e.flags ≡ 0xEE)

kernel_gate-LeadsTo : (base : ℕ) → LeadsTo (kernel_gate base) (some base)
unfolding idt_entry
kernel_gate-LeadsTo base =
    let low = bit_and_mask 16 base in
    let high = bit_and_mask 16 (base / 2 ^ 16) in (omega arith, omega arith, refl, refl, refl)

stub_gate-LeadsTo : (at : Symbols) (j : ℕ) → LeadsTo (stub_gate at j) (stub_of at j)
stub_gate-LeadsTo at j = elim (Bool-cases (ltb j 32)) [
  | inl t ↦ rw t (kernel_gate-LeadsTo (at.isr j))
  | inr f ↦ elim (Bool-cases (ltb j 48)) [
    | inl t ↦ rw (f, t) (kernel_gate-LeadsTo (at.irq (j - 32)))
    | inr f' ↦ elim (Bool-cases (j == 128)) [
      | inl t ↦ rw (f, f', t) (kernel_gate-LeadsTo (at.isr 128))
      | inr f'' ↦ rw (f, f', f'') (refl, refl, refl, refl, refl)
    ]
  ]
]

-- After `init_idt` each of the 256 entries is as it should be: the exceptions 0 to 31 lead to their
-- stubs, the interrupt requests to theirs from 32 on, 128 to the system calls', and the other entries
-- are empty. A gate that leads to a stub holds the 32 bits of its address, the kernel's code segment,
-- and the flags 0xEE. The controllers were told to start at 0x20 and 0x28, and the limit is that of 256
-- entries.
pub init_idt_lem :
    (at : Symbols) (d : Descriptors)
    → let d' = (init_idt at d).1 in
      (length d'.idt_entries ≡ 256)
      × ((j : ℕ) → LeadsTo (gate_at d'.idt_entries j) (stub_of at j))
      × (d'.idt_ptr.limit ≡ 2047)
      × (d'.idt_ptr.base ≡ at.idt_entries)
      × (d'.ports
          ≡ (0xA1, 0)
            ∷ (0x21, 0)
            ∷ (0xA1, 1)
            ∷ (0x21, 1)
            ∷ (0xA1, 2)
            ∷ (0x21, 4)
            ∷ (0xA1, 0x28)
            ∷ (0x21, 0x20)
            ∷ (0xA0, 0x11)
            ∷ (0x20, 0x11)
            ∷ d.ports)
unfolding init_idt remap_irqs
init_idt_lem at d =
    let cleared = replicate 256 zero_gate in
    let isrs = set_gates at.isr 32 0 0 cleared in
    let irqs = set_gates at.irq 16 32 0 isrs in
    let n0 = length-replicate 256 zero_gate in
    let n1 = length-set_gates at.isr 32 0 0 cleared in
    let n2 = length-set_gates at.irq 16 32 0 isrs in
    (
      omega (arith, n0, n1, n2, length-idt_set_gate irqs 128 (at.isr 128) 0x08 0x8E),
      λ j.
          let own =
            gate_at-idt_set_gate irqs 128 (at.isr 128) 0x08 0x8E j (omega (arith, n0, n1, n2)) in
          let irq = gate_at-set_gates at.irq 16 32 0 isrs j (omega (arith, n0, n1)) in
          let isr = gate_at-set_gates at.isr 32 0 0 cleared j (omega (arith, n0)) in
          let index : at.isr (0 + (j - 0)) ≡ at.isr j = ap at.isr {y = j} (omega arith) in
          let index' : at.irq (0 + (j - 32)) ≡ at.irq (j - 32) = ap at.irq (omega arith) in
          let all : gate_at (init_idt at d).1.idt_entries j ≡ stub_gate at j =
            own
            ∙ rw (irq, isr, index, index', get_or-replicate 256 j zero_gate)
                (cases_order j (kernel_gate (at.isr 128)) (kernel_gate (at.irq (j - 32)))
                  (kernel_gate (at.isr j)) zero_gate) in
          subst (λ (e : IdtEntry). LeadsTo e (stub_of at j)) (sym all) (stub_gate-LeadsTo at j),
      refl,
      refl,
      refl,
    )
