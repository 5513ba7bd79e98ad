-- ===== src/Interrupts/Handlers.antt =====
-- The functions that the kernel registers: `timer_callback` of sys/timer.c, `page_fault` of
-- sys/paging.c, `syscall_handler` of sys/syscall.c, and the keyboard's.
use fotix.Base.{
  ℕ, zero, suc, ◌+◌, ◌^◌, ◌/◌, ◌%◌, List, [], ◌∷◌, Option, none, some, ◌==◌, leb, if◌then◌else◌,
  Outcome, ok, out_of_fuel, undefined, ◌>>=◌, u32, codes,
}
use fotix.Memory.{Memory, load8}
use fotix.Panic.{panic}
use fotix.Monitor.{Monitor, monitor_write, monitor_write_hex, monitor_write_dec}
use fotix.Keyboard.{Keyboard, keyboard_handler}
use fotix.Task
use fotix.Task.{Tasking, switch_task}
use fotix.Descriptor.Tables.{Descriptors, set_kernel_stack}
use fotix.Interrupts.Registry.{
  Isr, null, at_timer_callback, at_page_fault, at_keyboard_handler, at_syscall_handler, Registers,
}

-- The state of all parts that a handler reaches. `tick` is the global of sys/timer.c.
pub record Machine : Type 0 where
  pub descriptors : Descriptors
  pub monitor : Monitor
  pub keyboard : Keyboard
  pub tasking : Tasking
  pub tick : ℕ

-- What a handler gets from the hardware: the byte at port 0x60, the address in cr2, the registers that
-- `switch_task` reads, with what `read_eip` returns, and what a system call leaves in eax.
pub record Input : Type 0 where
  pub scancode : ℕ
  pub faulting_address : ℕ
  pub esp : ℕ
  pub ebp : ℕ
  pub eip : ℕ
  pub ret : ℕ

-- What an interrupt ends in: the return to the interrupted code with the registers on the stack, the
-- jump into another task, or the halt after a panic.
pub data Ending : Type 0 where
  returns : Registers → Machine → Ending
  jumps : Task.Registers → Machine → Ending
  halts : Machine → Ending

-- `set_kernel_stack` has written the new stack into the task state segment.
abbrev pub after_switch : Registers → Machine → Tasking × Option Task.Registers → Ending
after_switch regs m (t, none) = returns regs (record m { tasking = t })
after_switch regs m (t, some r) =
    jumps r (record m { tasking = t; descriptors = set_kernel_stack t.esp0 m.descriptors })

unfoldable pub timer_callback : Input → Registers → Machine → Ending
timer_callback input regs m =
    after_switch regs (record m { tick = u32 (m.tick + 1) })
      (switch_task input.esp input.ebp input.eip m.tasking)

-- `monitor_write` of the string at an address, which runs until a NUL.
unfoldable pub string_at : (fuel : ℕ) → Memory → (c : ℕ) → Outcome (List ℕ)
string_at zero m c = out_of_fuel
string_at (suc fuel) m c =
    let rest = string_at fuel m (c + 1) in
    if load8 m c == 0 then ok [] else (do cs ← rest; ok (load8 m c ∷ cs))

-- Bit `i` of the error code.
abbrev pub err_bit : Registers → ℕ → ℕ
err_bit regs i = regs.err_code / 2 ^ i % 2

-- The flags that the message names. `present` is the negated bit.
unfoldable pub fault_flags : Registers → Monitor → Monitor
fault_flags regs s =
    let s1 = if err_bit regs 0 == 0 then monitor_write (codes "present ") s else s in
    let s2 = if err_bit regs 1 == 0 then s1 else monitor_write (codes "read-only ") s1 in
    let s3 = if err_bit regs 2 == 0 then s2 else monitor_write (codes "user-mode ") s2 in
    if err_bit regs 3 == 0 then s3 else monitor_write (codes "reserved ") s3

unfoldable pub page_fault : Input → Registers → Machine → Ending
page_fault input regs m =
    let s1 = fault_flags regs (monitor_write (codes "Page fault! ( ") m.monitor) in
    let s2 = monitor_write_hex input.faulting_address (monitor_write (codes ") at 0x") s1) in
    let s3 = monitor_write_hex regs.eip (monitor_write (codes " - EIP: ") s2) in
    let s4 = monitor_write (codes "\n") s3 in
    halts (record m { monitor = panic (codes "Page fault") (codes "sys/paging.c") 252 s4 })

-- The function at a place of `syscalls`, called with the argument in ebx.
unfoldable pub syscall : (fuel number argument : ℕ) → Machine → Outcome Monitor
syscall fuel number argument m =
    let written : Outcome Monitor = (do
      cs ← string_at fuel m.tasking.kernel.memory argument
      ok (monitor_write cs m.monitor)) in
    if number == 0
    then written
    else if number == 1
    then ok (monitor_write_hex argument m.monitor)
    else ok (monitor_write_dec argument m.monitor)

abbrev pub num_syscalls : ℕ
num_syscalls = 3

unfoldable pub syscall_handler : (fuel : ℕ) → Input → Registers → Machine → Outcome Ending
syscall_handler fuel input regs m =
    let called : Outcome Ending = (do
      monitor ← syscall fuel regs.eax regs.ebx m
      ok (returns (record regs { eax = input.ret }) (record m { monitor = monitor }))) in
    if leb num_syscalls regs.eax then ok (returns regs m) else called

-- A call through a pointer of the table.
unfoldable pub call : Isr → (fuel : ℕ) → Input → Registers → Machine → Outcome Ending
call null fuel input regs m = undefined
call at_timer_callback fuel input regs m = ok (timer_callback input regs m)
call at_page_fault fuel input regs m = ok (page_fault input regs m)
call at_keyboard_handler fuel input regs m =
    ok (returns regs (record m { keyboard = keyboard_handler input.scancode m.keyboard }))
call at_syscall_handler fuel input regs m = syscall_handler fuel input regs m
