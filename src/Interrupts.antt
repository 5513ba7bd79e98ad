-- ===== src/Interrupts.antt =====
-- sys/isr.c, and the parts of sys/timer.c, sys/syscall.c, sys/keyboard.c and sys/paging.c that
-- register a handler. The stubs of sys/interrupt.s save the registers and call `isr_handler` or
-- `irq_handler`.
pub mod Registry
pub mod Handlers
pub mod Calls
pub mod States
mod Tests
use fotix.Base.{
  ℕ, ◌+◌, ◌*◌, ◌/◌, ◌%◌, ◌^◌, List, [], ◌∷◌, Bool, true, false, ◌==◌, leb, ltb, not, if◌then◌else◌,
  Outcome, ok, undefined, ◌>>=◌, u8, u32, get_or, codes,
}
use fotix.Monitor.{Monitor, monitor_put, monitor_write, monitor_write_hex, monitor_write_dec}
use fotix.Keyboard.{init_keyboard_driver}
use fotix.Panic.{panic}
use fotix.Descriptor.Tables.{Descriptors, outb}
use fotix.Interrupts.Registry.{
  Isr, null, at_timer_callback, at_page_fault, at_keyboard_handler, at_syscall_handler, Registers,
  irq0, irq1, register_interrupt_handler,
}
use fotix.Interrupts.Handlers.{Machine, Input, Ending, halts, returns, call}

abbrev pub register : (num : ℕ) → Isr → Machine → Machine
register num handler m = record m {
  descriptors = record m.descriptors {
    interrupt_handlers = register_interrupt_handler num handler m.descriptors.interrupt_handlers;
  };
}

abbrev pub handler_of : Machine → (num : ℕ) → Isr
handler_of m num = get_or m.descriptors.interrupt_handlers num null

abbrev pub is_null : Isr → Bool
is_null null = true
is_null at_timer_callback = false
is_null at_page_fault = false
is_null at_keyboard_handler = false
is_null at_syscall_handler = false

-- The message for an interrupt without a handler, up to the halt.
unfoldable pub unhandled : (int_no : ℕ) → Monitor → Monitor
unhandled int_no s =
    let s1 = monitor_write (codes "    hex: ") (monitor_write (codes "unhandled interrupt:\n") s) in
    let s2 = monitor_put 10 (monitor_write_hex int_no s1) in
    let s3 = monitor_write_dec int_no (monitor_write (codes "    dec: ") s2) in
    panic (codes "UNABLE TO FIND HANDLER FOR INTERRUPT") (codes "sys/isr.c") 44 (monitor_put 10 s3)

-- The number on the stack was extended with its sign.
unfoldable pub isr_handler : (fuel : ℕ) → Input → Registers → Machine → Outcome Ending
isr_handler fuel input regs m =
    let int_no = u8 regs.int_no in
    if is_null (handler_of m int_no)
    then ok (halts (record m { monitor = unhandled int_no m.monitor }))
    else call (handler_of m int_no) fuel input regs m

-- The end of the interrupt goes to the controllers before the handler is called.
unfoldable pub acknowledge : (int_no : ℕ) → Machine → Machine
acknowledge int_no m =
    let d = if leb 40 int_no then outb 0xA0 0x20 m.descriptors else m.descriptors in
    record m { descriptors = outb 0x20 0x20 d }

-- A number from 256 on is behind the table.
unfoldable pub irq_handler : (fuel : ℕ) → Input → Registers → Machine → Outcome Ending
irq_handler fuel input regs m =
    let m' = acknowledge regs.int_no m in
    let handler = handler_of m' regs.int_no in
    if leb 256 regs.int_no
    then undefined
    else if is_null handler
    then ok (returns regs m')
    else call handler fuel input regs m'

-- `init_timer`: a frequency of zero is divided by.
unfoldable pub init_timer : (frequency : ℕ) → Machine → Outcome (ℕ × Machine)
init_timer frequency m =
    let m' = register irq0 at_timer_callback m in
    let divisor = 1193180 / frequency in
    let d = outb 0x43 0x36 m'.descriptors in
    let d' = outb 0x40 (divisor / 2 ^ 8) (outb 0x40 divisor d) in
    if frequency == 0 then undefined else ok (0, record m' { descriptors = d' })

unfoldable pub initialise_syscalls : Machine → ℕ × Machine
initialise_syscalls m = (0, register 0x80 at_syscall_handler m)

-- `init_keyboard_driver` with the registration of its handler.
unfoldable pub start_keyboard : Machine → Machine
start_keyboard m =
    let m' = register irq1 at_keyboard_handler m in
    record m' { keyboard = init_keyboard_driver m'.keyboard }
