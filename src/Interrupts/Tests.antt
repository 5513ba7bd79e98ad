-- ===== src/Interrupts/Tests.antt =====
-- Interrupts on a concrete machine.
use fotix.Base.{ℕ, ◌+◌, ◌*◌, ◌%◌, ◌/◌, ◌^◌, ◌≡◌, refl, arith, [], ◌∷◌, get_or, ok, u32, ◌-◌}
use fotix.Memory.{Memory, load8}
use fotix.Monitor.{monitor_write}
use fotix.Task
use fotix.Task.States.{two, two_tasks, two-Represents}
use fotix.Task.Schedule.{running, switched}
use fotix.Task.Switch.{Represents, Resumes}
use fotix.Interrupts.{isr_handler, irq_handler, init_timer, initialise_syscalls}
use fotix.Interrupts.Registry.{Registers}
use fotix.Interrupts.Handlers.{Machine, returns, jumps}
use fotix.Interrupts.States.{zero_registers, input, machine}
use fotix.Interrupts.Calls.{syscall_lem, timer_lem}

timer_lem_example :
    (m1 : Machine) × (m2 : Machine) × (r : Task.Registers) × (lower : ℕ) × (upper : ℕ) × (init_timer
        50 machine
      ≡ ok (0, m1))
    × (m1.descriptors.ports ≡ (0x40, upper) ∷ (0x40, lower) ∷ (0x43, 0x36) ∷ [])
    × (lower + 2 ^ 8 * upper ≡ 1193180 / 50 % 2 ^ 16)
    × (irq_handler 0 input zero_registers m1 ≡ ok (jumps r m2))
    × (m2.descriptors.ports ≡ (0x20, 0x20) ∷ m1.descriptors.ports)
    × (m2.tick ≡ u32 (41 + 1))
    × (m2.descriptors.tss_entry.esp0 ≡ m2.tasking.esp0)
    × Represents m2.tasking (switched 0x8F00 0x8F10 0x400 two_tasks)
    × Resumes m2.tasking r (running (switched 0x8F00 0x8F10 0x400 two_tasks))
timer_lem_example =
    timer_lem 50 0 input zero_registers machine two_tasks (λ e. absurd (omega arith)) refl refl
      two-Represents (omega arith) (omega arith) (omega arith) (λ e. absurd (omega arith))

-- "hi" at 0x200, and a system call from it, as the stub pushes its number.
abbrev hi : Memory
hi a = get_or (b'h' ∷ b'i' ∷ []) (a - 0x200) 0

abbrev talking : Machine
talking = record machine { tasking = record two { kernel = record two.kernel { memory = hi } } }

abbrev call_registers : Registers
call_registers = record zero_registers { int_no = 0xFFFFFF80; ebx = 0x200 }

syscall_lem_example :
    isr_handler 5 input call_registers (initialise_syscalls talking).1
    ≡ ok (
        returns
          (record call_registers { eax = 7 })
          (record (initialise_syscalls talking).1 {
            monitor = monitor_write (b'h' ∷ b'i' ∷ []) machine.monitor;
          }))
unfolding load8
syscall_lem_example =
    syscall_lem 5 input call_registers talking (b'h' ∷ b'i' ∷ []) refl refl
      (λ e. (refl, omega arith, (refl, omega arith, refl))) (omega arith)
