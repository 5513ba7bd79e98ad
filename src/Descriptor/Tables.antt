-- ===== src/Descriptor/Tables.antt =====
-- The tables as sys/descriptor_tables.c fills them at boot. Loading them into the processor is
-- assembly (sys/dt_asm.s).
pub mod Segments
pub mod Interrupts
mod Runs
use fotix.Base.{
  ℕ, zero, suc, ◌+◌, ◌*◌, ◌-◌, List, [], ◌∷◌, replicate, u8, u16, u32, not, ◌==◌, if◌then◌else◌,
}
use fotix.Interrupts.Registry.{Isr, null}
use fotix.Descriptor.{GdtEntry, IdtEntry, gdt_set_gate, idt_set_gate}

-- `tss_entry_t`.
pub record Tss : Type 0 where
  pub prev_tss : ℕ
  pub esp0 : ℕ
  pub ss0 : ℕ
  pub esp1 : ℕ
  pub ss1 : ℕ
  pub esp2 : ℕ
  pub ss2 : ℕ
  pub cr3 : ℕ
  pub eip : ℕ
  pub eflags : ℕ
  pub eax : ℕ
  pub ecx : ℕ
  pub edx : ℕ
  pub ebx : ℕ
  pub esp : ℕ
  pub ebp : ℕ
  pub esi : ℕ
  pub edi : ℕ
  pub es : ℕ
  pub cs : ℕ
  pub ss : ℕ
  pub ds : ℕ
  pub fs : ℕ
  pub gs : ℕ
  pub ldt : ℕ
  pub trap : ℕ
  pub iomap_base : ℕ

-- Where the program's own objects lie: the tables, and the stubs of sys/interrupt.s.
pub record Symbols : Type 0 where
  pub gdt_entries : ℕ
  pub idt_entries : ℕ
  pub tss_entry : ℕ
  pub isr : ℕ → ℕ
  pub irq : ℕ → ℕ

-- `gdt_ptr_t` and `idt_ptr_t`.
pub record TablePtr : Type 0 where
  pub limit : ℕ
  pub base : ℕ

-- The globals, the handlers of sys/isr.c, and what went out over the ports, latest first.
pub record Descriptors : Type 0 where
  pub gdt_entries : List GdtEntry
  pub gdt_ptr : TablePtr
  pub idt_entries : List IdtEntry
  pub idt_ptr : TablePtr
  pub tss_entry : Tss
  pub interrupt_handlers : List Isr
  pub ports : List (ℕ × ℕ)

abbrev pub outb : (port value : ℕ) → Descriptors → Descriptors
outb port value d = record d { ports = (port, u8 value) ∷ d.ports }

abbrev pub zero_tss : Tss
zero_tss = record {
  prev_tss = 0;
  esp0 = 0;
  ss0 = 0;
  esp1 = 0;
  ss1 = 0;
  esp2 = 0;
  ss2 = 0;
  cr3 = 0;
  eip = 0;
  eflags = 0;
  eax = 0;
  ecx = 0;
  edx = 0;
  ebx = 0;
  esp = 0;
  ebp = 0;
  esi = 0;
  edi = 0;
  es = 0;
  cs = 0;
  ss = 0;
  ds = 0;
  fs = 0;
  gs = 0;
  ldt = 0;
  trap = 0;
  iomap_base = 0;
}

abbrev pub zero_gate : IdtEntry
zero_gate = record { base_lo = 0; sel = 0; always_zero = 0; flags = 0; base_hi = 0 }

-- `sizeof (tss_entry)`, `sizeof (gdt_entry_t)` and `sizeof (idt_entry_t)`.
abbrev pub tss_size : ℕ
tss_size = 104

abbrev pub entry_size : ℕ
entry_size = 8

-- The limit that `write_tss` asks for is an address, not a size.
unfoldable pub write_tss : Symbols → (num ss0 esp0 : ℕ) → Descriptors → Descriptors
write_tss at num ss0 esp0 d =
    let base = at.tss_entry in
    let limit = u32 (base + tss_size) in
    record d {
      gdt_entries = gdt_set_gate d.gdt_entries num base limit 0xE9 0;
      tss_entry = record zero_tss {
        ss0 = ss0;
        esp0 = esp0;
        cs = 0x0b;
        ss = 0x13;
        ds = 0x13;
        es = 0x13;
        fs = 0x13;
        gs = 0x13;
      };
    }

unfoldable pub set_kernel_stack : (stack : ℕ) → Descriptors → Descriptors
set_kernel_stack stack d = record d { tss_entry = record d.tss_entry { esp0 = stack } }

-- The five segments that cover all memory.
unfoldable pub flat_segments : List GdtEntry → List GdtEntry
flat_segments g =
    let g0 = gdt_set_gate g 0 0 0 0 0 in
    let g1 = gdt_set_gate g0 1 0 0xFFFFFFFF 0x9A 0xCF in
    let g2 = gdt_set_gate g1 2 0 0xFFFFFFFF 0x92 0xCF in
    let g3 = gdt_set_gate g2 3 0 0xFFFFFFFF 0xFA 0xCF in gdt_set_gate g3 4 0 0xFFFFFFFF 0xF2 0xCF

unfoldable pub init_gdt : Symbols → Descriptors → ℕ × Descriptors
init_gdt at d =
    let pointed = record d {
      gdt_ptr = record { limit = u16 (entry_size * 6 - 1); base = at.gdt_entries };
      gdt_entries = flat_segments d.gdt_entries;
    } in
    (0, write_tss at 5 0x10 0 pointed)

-- The calls of `idt_set_gate` that the source writes out, with consecutive numbers from `num` on.
unfoldable pub set_gates : (base : ℕ → ℕ) → (rounds num i : ℕ) → List IdtEntry → List IdtEntry
set_gates base zero num i entries = entries
set_gates base (suc rounds) num i entries =
    set_gates base rounds (num + 1) (i + 1) (idt_set_gate entries num (base i) 0x08 0x8E)

-- The interrupt controllers: their interrupts move to the numbers from 0x20 and from 0x28 on.
unfoldable pub remap_irqs : Descriptors → Descriptors
remap_irqs d =
    let d1 = outb 0xA1 0x28 (outb 0x21 0x20 (outb 0xA0 0x11 (outb 0x20 0x11 d))) in
    let d2 = outb 0xA1 0x01 (outb 0x21 0x01 (outb 0xA1 0x02 (outb 0x21 0x04 d1))) in
    outb 0xA1 0x0 (outb 0x21 0x0 d2)

unfoldable pub init_idt : Symbols → Descriptors → ℕ × Descriptors
init_idt at d =
    let cleared = replicate 256 zero_gate in
    let isrs = set_gates at.isr 32 0 0 cleared in
    let irqs = set_gates at.irq 16 32 0 isrs in
    (
      0,
      record (remap_irqs d) {
        idt_ptr = record { limit = u16 (entry_size * 256 - 1); base = at.idt_entries };
        idt_entries = idt_set_gate irqs 128 (at.isr 128) 0x08 0x8E;
      },
    )

-- Both initialisations return `EXIT_SUCCESS`, so the failures that are tested for do not occur.
unfoldable pub init_descriptor_tables : Symbols → Descriptors → ℕ × Descriptors
init_descriptor_tables at d =
    let (success, d1) = init_gdt at d in
    let (success', d2) = init_idt at d1 in
    if not (success == 0)
    then (1, d1)
    else if not (success' == 0)
    then (1, d2)
    else (0, record d2 { interrupt_handlers = replicate 256 null })
