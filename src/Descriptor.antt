-- ===== src/Descriptor.antt =====
-- The gates of sys/descriptor_tables.c: how an entry of the two tables is put together.
pub mod Gates
pub mod Tables
use fotix.Base.{ℕ, ◌+◌, ◌*◌, ◌/◌, ◌^◌, List, set, u8, u16, bit_and, bit_or}

pub record GdtEntry : Type 0 where
  pub limit_low : ℕ
  pub base_low : ℕ
  pub base_middle : ℕ
  pub access : ℕ
  pub granularity : ℕ
  pub base_high : ℕ

pub record IdtEntry : Type 0 where
  pub base_lo : ℕ
  pub sel : ℕ
  pub always_zero : ℕ
  pub flags : ℕ
  pub base_hi : ℕ

-- What `gdt_set_gate` writes into an entry.
unfoldable pub gdt_entry : (base limit access gran : ℕ) → GdtEntry
gdt_entry base limit access gran = record {
  limit_low = u16 (bit_and limit 0xFFFF);
  base_low = u16 (bit_and base 0xFFFF);
  base_middle = u8 (bit_and (base / 2 ^ 16) 0xFF);
  access = access;
  granularity = u8 (bit_or (u8 (bit_and (limit / 2 ^ 16) 0x0F)) (bit_and gran 0xF0));
  base_high = u8 (bit_and (base / 2 ^ 24) 0xFF);
}

unfoldable pub gdt_set_gate : List GdtEntry → (num base limit access gran : ℕ) → List GdtEntry
gdt_set_gate entries num base limit access gran = set entries num (gdt_entry base limit access gran)

-- What `idt_set_gate` writes into an entry.
unfoldable pub idt_entry : (base sel flags : ℕ) → IdtEntry
idt_entry base sel flags = record {
  base_lo = u16 (bit_and base 0xFFFF);
  sel = sel;
  always_zero = 0;
  flags = u8 (bit_or flags 0x60);
  base_hi = u16 (bit_and (base / 2 ^ 16) 0xFFFF);
}

unfoldable pub idt_set_gate : List IdtEntry → (num base sel flags : ℕ) → List IdtEntry
idt_set_gate entries num base sel flags = set entries num (idt_entry base sel flags)
