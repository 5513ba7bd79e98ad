-- ===== src/Interrupts/Calls.antt =====
-- What an interrupt of the timer, and a system call, come to once their handlers are registered.
use fotix.Base.{
  ℕ, zero, suc, ◌+◌, ◌*◌, ◌/◌, ◌%◌, ◌^◌, ◌<◌, ◌≡◌, ◌≢◌, refl, ap, ◌∙◌, arith, Bool-cases, inl, inr,
  false, List, [], ◌∷◌, length, some, ◌==◌, ==_iff, leb, if◌then◌else◌, get_or-set_self,
  get_or-set_ne, ok, u8, u32,
}
use fotix.Memory.{Memory}
use fotix.Strings.Facts.{IsString}
use fotix.Monitor.{monitor_write, monitor_write_hex, monitor_write_dec}
use fotix.Task
use fotix.Task.{Tasking, resumed, switch_task}
use fotix.Task.Schedule.{Schedule, running, switched}
use fotix.Task.Switch.{Represents, Resumes, switch_task_refines}
use fotix.Interrupts.{
  register, handler_of, isr_handler, irq_handler, acknowledge, init_timer, initialise_syscalls,
}
use fotix.Descriptor.Tables.{set_kernel_stack}
use fotix.Interrupts.Registry.{
  Isr, null, at_timer_callback, at_syscall_handler, Registers, register_interrupt_handler,
}
use fotix.Interrupts.Handlers.{
  Machine, Input, returns, jumps, timer_callback, string_at, syscall, syscall_handler, call,
}

pub handler_of-register :
    (num j : ℕ) (handler : Isr) (m : Machine)
    → num < length m.descriptors.interrupt_handlers
    → handler_of (register num handler m) j ≡ (if num == j then handler else handler_of m j)
unfolding register_interrupt_handler
handler_of-register num j handler m h =
    let handlers = m.descriptors.interrupt_handlers in
    elim (Bool-cases (num == j)) [
      | inl t ↦ rw (t, ← ((==_iff num j).0 t)) (get_or-set_self handlers num handler null h)
      | inr f ↦ rw f (get_or-set_ne handlers num j handler null (λ e. ground (arith, e)))
    ]

string_at_lem :
    (fuel : ℕ) (m : Memory) (a : ℕ) (cs : List ℕ)
    → length cs < fuel
    → IsString m a cs
    → string_at fuel m a ≡ ok cs
unfolding string_at
string_at_lem zero m a cs enough s = absurd (omega arith)
string_at_lem (suc fuel) m a [] enough s = ground arith
string_at_lem (suc fuel) m a (c ∷ cs) enough (e, pos, s) =
    ground (arith, string_at_lem fuel m (a + 1) cs (omega arith) s)

syscall_handler_lem :
    (fuel : ℕ) (input : Input) (regs : Registers) (m : Machine) (cs : List ℕ)
    → (regs.eax ≡ 0 → IsString m.tasking.kernel.memory regs.ebx cs)
    → length cs < fuel
    → syscall_handler fuel input regs m
      ≡ ok (
          if leb 3 regs.eax
          then returns regs m
          else returns
              (record regs { eax = input.ret })
              (record m {
                monitor =
                    if regs.eax == 0
                    then monitor_write cs m.monitor
                    else if regs.eax == 1
                    then monitor_write_hex regs.ebx m.monitor
                    else monitor_write_dec regs.ebx m.monitor;
              }))
unfolding syscall_handler syscall
syscall_handler_lem fuel input regs m cs text enough = elim (Bool-cases (regs.eax == 0)) [
  | inl t ↦
      let at : string_at fuel m.tasking.kernel.memory regs.ebx ≡ ok cs =
        string_at_lem fuel m.tasking.kernel.memory regs.ebx cs enough
          (text ((==_iff regs.eax 0).0 t)) in
      let small : leb 3 regs.eax ≡ false = ground (arith, t) in rw (small, t, at) refl
  | inr f ↦ elim (Bool-cases (leb 3 regs.eax)) [
    | inl bad ↦ rw bad refl
    | inr small ↦ elim (Bool-cases (regs.eax == 1)) [
      | inl one ↦ rw (small, f, one) refl
      | inr two ↦ rw (small, f, two) refl
    ]
  ]
]

-- Once `initialise_syscalls` has run on a table of 256 places, an interrupt whose number ends in the
-- byte 0x80, its sign extended or not: a number in eax from 3 on changes nothing, and 0, 1 and 2 print
-- the string that ebx points to, ebx in hexadecimal, and ebx in decimal; eax alone is then replaced.
-- Fuel for the string is enough.
pub syscall_lem :
    (fuel : ℕ) (input : Input) (regs : Registers) (m : Machine) (cs : List ℕ)
    → length m.descriptors.interrupt_handlers ≡ 256
    → u8 regs.int_no ≡ 0x80
    → (regs.eax ≡ 0 → IsString m.tasking.kernel.memory regs.ebx cs)
    → length cs < fuel
    → let m' = (initialise_syscalls m).1 in
      isr_handler fuel input regs m'
      ≡ ok (
          if leb 3 regs.eax
          then returns regs m'
          else returns
              (record regs { eax = input.ret })
              (record m' {
                monitor =
                    if regs.eax == 0
                    then monitor_write cs m.monitor
                    else if regs.eax == 1
                    then monitor_write_hex regs.ebx m.monitor
                    else monitor_write_dec regs.ebx m.monitor;
              }))
unfolding isr_handler initialise_syscalls call
syscall_lem fuel input regs m cs size number text enough =
    rw (number, handler_of-register 0x80 0x80 at_syscall_handler m (omega arith))
      (syscall_handler_lem fuel input regs (register 0x80 at_syscall_handler m) cs text enough)

-- The timer's interrupt where its handler is registered.
irq_handler-timer :
    (fuel : ℕ) (input : Input) (regs : Registers) (m : Machine)
    → handler_of m 32 ≡ at_timer_callback
    → regs.int_no ≡ 32
    → irq_handler fuel input regs m ≡ ok (timer_callback input regs (acknowledge 32 m))
unfolding irq_handler acknowledge call
irq_handler-timer fuel input regs m registered number = rw (number, registered) refl

timer_callback-jumps :
    (input : Input) (regs : Registers) (m : Machine) (t : Tasking) (r : Task.Registers)
    → switch_task input.esp input.ebp input.eip m.tasking ≡ (t, some r)
    → timer_callback input regs m
      ≡ jumps r (record m {
        tick = u32 (m.tick + 1);
        tasking = t;
        descriptors = set_kernel_stack t.esp0 m.descriptors;
      })
unfolding timer_callback
timer_callback-jumps input regs m t r switch = rw switch refl

-- With a table of 256 places and a frequency other than zero, `init_timer` succeeds and sends the low
-- 16 bits of the divisor, lowest byte first. From then on an interrupt 32 that does not come from
-- `read_eip` returning to a resumed task counts one tick, and ends in the jump into the next task of
-- the round, as the scheduler has it, with its kernel stack in the task state segment; before that,
-- the end of the interrupt went to the first controller alone.
pub timer_lem :
    (frequency fuel : ℕ) (input : Input) (regs : Registers) (m : Machine) (s : Schedule)
    → frequency ≢ 0
    → length m.descriptors.interrupt_handlers ≡ 256
    → regs.int_no ≡ 32
    → Represents m.tasking s
    → input.esp < 2 ^ 32
    → input.ebp < 2 ^ 32
    → input.eip < 2 ^ 32
    → input.eip ≢ resumed
    → (m1 : Machine) × (m2 : Machine) × (r : Task.Registers) × (lower : ℕ) × (upper : ℕ)
      × (init_timer frequency m ≡ ok (0, m1))
      × (m1.descriptors.ports ≡ (0x40, upper) ∷ (0x40, lower) ∷ (0x43, 0x36) ∷ m.descriptors.ports)
      × (lower + 2 ^ 8 * upper ≡ 1193180 / frequency % 2 ^ 16)
      × (irq_handler fuel input regs m1 ≡ ok (jumps r m2))
      × (m2.descriptors.ports ≡ (0x20, 0x20) ∷ m1.descriptors.ports)
      × (m2.tick ≡ u32 (m.tick + 1))
      × (m2.descriptors.tss_entry.esp0 ≡ m2.tasking.esp0)
      × Represents m2.tasking (switched input.esp input.ebp input.eip s)
      × Resumes m2.tasking r (running (switched input.esp input.ebp input.eip s))
unfolding init_timer acknowledge set_kernel_stack
timer_lem frequency fuel input regs m s positive size number rep e b x fresh =
    let (t, r, switch, rep', resumes, _) =
      switch_task_refines m.tasking s input.esp input.ebp input.eip rep e b x fresh in
    let d = 1193180 / frequency in
    let ports = (0x40, u8 (d / 2 ^ 8)) ∷ (0x40, u8 d) ∷ (0x43, 0x36) ∷ m.descriptors.ports in
    let registered = register 32 at_timer_callback m in
    let m1 = record registered { descriptors = record registered.descriptors { ports = ports } } in
    let found : handler_of m1 32 ≡ at_timer_callback =
      handler_of-register 32 32 at_timer_callback m (omega arith) in
    (
      m1,
      record (acknowledge 32 m1) {
        tick = u32 (m.tick + 1);
        tasking = t;
        descriptors = set_kernel_stack t.esp0 (acknowledge 32 m1).descriptors;
      },
      r,
      u8 d,
      u8 (d / 2 ^ 8),
      ground (arith, positive),
      refl,
      omega arith,
      irq_handler-timer fuel input regs m1 found number
          ∙ ap ok (timer_callback-jumps input regs (acknowledge 32 m1) t r switch),
      refl,
      refl,
      refl,
      rep',
      resumes,
    )
