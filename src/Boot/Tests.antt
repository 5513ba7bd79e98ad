-- ===== src/Boot/Tests.antt =====
-- The first 4 MB of a concrete machine, and a key typed at it.
use fotix.Base.{[], ◌≡◌, refl, arith, none, false, ok}
use fotix.Base.Bits.{bit}
use fotix.Memory.{Memory}
use fotix.Kernel.{Kernel}
use fotix.Monitor.{monitor_put}
use fotix.Keyboard.Layout.{us}
use fotix.Keyboard.Queue.{queue}
use fotix.Interrupts.{irq_handler, start_keyboard}
use fotix.Interrupts.Registry.{Registers}
use fotix.Interrupts.Handlers.{Machine, Input, returns}
use fotix.Interrupts.States.{zero_registers, input, machine}
use fotix.Boot.{echo}
use fotix.Boot.Typing.{typed_lem}

-- A kernel whose placement address is 0x100200, in memory that nothing has cleared.
abbrev kernel : Kernel
kernel = record {
  memory = λ b. 0xFF;
  placement_address = 0x100200;
  heap_ready = false;
  kheap = record {
    index = record { array = 0; size = 0; max_size = 0; less_than = none };
    start_address = 0;
    end_address = 0;
    max_address = 0;
    supervisor = false;
    readonly = false;
  };
  frame_set = record { frames = 0; nframes = 0 };
  kernel_directory = 0;
  current_directory = 0;
}

-- The key `a`.
abbrev a_key : Input
a_key = record input { scancode = 30 }

abbrev key_registers : Registers
key_registers = record zero_registers { int_no = 33 }

typed_lem_example :
    (m : Machine) × (irq_handler 0 a_key key_registers (start_keyboard machine)
      ≡ ok (returns key_registers m))
    × ((echo m).monitor ≡ monitor_put b'a' machine.monitor)
    × (queue (echo m).keyboard ≡ [])
unfolding us bit
typed_lem_example =
    typed_lem 0 a_key key_registers machine 0 refl (omega arith) refl refl refl (omega arith)
      (λ j p q. ground arith) (λ e. absurd (omega (arith, e)))
