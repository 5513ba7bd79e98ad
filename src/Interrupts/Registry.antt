-- ===== src/Interrupts/Registry.antt =====
-- The table of handlers of sys/isr.c, and the registers of include/isr.h.
use fotix.Base.{ℕ, List, set}

-- `isr_t`: null, or the address of a function that the kernel registers.
pub data Isr : Type 0 where
  null : Isr
  at_timer_callback : Isr
  at_page_fault : Isr
  at_keyboard_handler : Isr
  at_syscall_handler : Isr

-- `registers_t`.
pub record Registers : Type 0 where
  pub ds : ℕ
  pub edi : ℕ
  pub esi : ℕ
  pub ebp : ℕ
  pub esp : ℕ
  pub ebx : ℕ
  pub edx : ℕ
  pub ecx : ℕ
  pub eax : ℕ
  pub int_no : ℕ
  pub err_code : ℕ
  pub eip : ℕ
  pub cs : ℕ
  pub eflags : ℕ
  pub useresp : ℕ
  pub ss : ℕ

-- `IRQ0` and `IRQ1`.
abbrev pub irq0 : ℕ
irq0 = 32

abbrev pub irq1 : ℕ
irq1 = 33

-- The table has 256 places, and `num` is a byte.
unfoldable pub register_interrupt_handler : (num : ℕ) → Isr → List Isr → List Isr
register_interrupt_handler num handler interrupt_handlers = set interrupt_handlers num handler
