-- ===== src/Descriptor/Tables/Runs.antt =====
-- The tables of a kernel that is linked at 1 MB, at boot.
use fotix.Base.{ℕ, ◌+◌, ◌*◌, ◌%◌, ◌^◌, ◌≡◌, arith, [], ◌∷◌, length, get_or, replicate}
use fotix.Interrupts.Registry.{null}
use fotix.Descriptor.{GdtEntry}
use fotix.Descriptor.Tables.{Symbols, Descriptors, zero_gate, zero_tss, init_gdt, init_idt}
use fotix.Descriptor.Tables.Segments.{IsSegment, init_gdt_lem}
use fotix.Descriptor.Tables.Interrupts.{gate_at, stub_of, LeadsTo, init_idt_lem}

abbrev kernel_symbols : Symbols
kernel_symbols = record {
  gdt_entries = 0x104000;
  idt_entries = 0x105000;
  tss_entry = 0x106000;
  isr = λ n. 0x101000 + 10 * n;
  irq = λ n. 0x102000 + 10 * n;
}

abbrev zero_segment : GdtEntry
zero_segment = record {
  limit_low = 0;
  base_low = 0;
  base_middle = 0;
  access = 0;
  granularity = 0;
  base_high = 0;
}

abbrev at_boot : Descriptors
at_boot = record {
  gdt_entries = replicate 6 zero_segment;
  gdt_ptr = record { limit = 0; base = 0 };
  idt_entries = replicate 256 zero_gate;
  idt_ptr = record { limit = 0; base = 0 };
  tss_entry = zero_tss;
  interrupt_handlers = replicate 256 null;
  ports = [];
}

init_gdt_lem_example :
    let d' = (init_gdt kernel_symbols at_boot).1 in
    IsSegment (get_or d'.gdt_entries 1 zero_segment) 0 0xFFFFF 0xC 0x9A
    × IsSegment (get_or d'.gdt_entries 2 zero_segment) 0 0xFFFFF 0xC 0x92
    × IsSegment (get_or d'.gdt_entries 3 zero_segment) 0 0xFFFFF 0xC 0xFA
    × IsSegment (get_or d'.gdt_entries 4 zero_segment) 0 0xFFFFF 0xC 0xF2
    × IsSegment (get_or d'.gdt_entries 5 zero_segment) 0x106000 ((0x106000 + 104) % 2 ^ 20) 0 0xE9
    × (d'.gdt_ptr.limit ≡ 47)
    × (d'.tss_entry.ss0 ≡ 0x10)
init_gdt_lem_example = init_gdt_lem kernel_symbols at_boot zero_segment (omega arith) (omega arith)

init_idt_lem_example :
    let d' = (init_idt kernel_symbols at_boot).1 in
    (length d'.idt_entries ≡ 256)
    × ((j : ℕ) → LeadsTo (gate_at d'.idt_entries j) (stub_of kernel_symbols j))
    × (d'.idt_ptr.limit ≡ 2047)
    × (d'.idt_ptr.base ≡ 0x105000)
    × (d'.ports
        ≡ (0xA1, 0)
          ∷ (0x21, 0)
          ∷ (0xA1, 1)
          ∷ (0x21, 1)
          ∷ (0xA1, 2)
          ∷ (0x21, 4)
          ∷ (0xA1, 0x28)
          ∷ (0x21, 0x20)
          ∷ (0xA0, 0x11)
          ∷ (0x20, 0x11)
          ∷ [])
init_idt_lem_example = init_idt_lem kernel_symbols at_boot
