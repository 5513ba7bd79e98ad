-- ===== src/Interrupts/States.antt =====
-- A concrete machine: two tasks run, and no handler is registered.
use fotix.Base.{[], replicate}
use fotix.Monitor.{blank}
use fotix.Keyboard.Layout.{us}
use fotix.Descriptor.Tables.{zero_gate, zero_tss}
use fotix.Task.States.{two}
use fotix.Interrupts.Registry.{null, Registers}
use fotix.Interrupts.Handlers.{Machine, Input}

abbrev pub zero_registers : Registers
zero_registers = record {
  ds = 0x10;
  edi = 0;
  esi = 0;
  ebp = 0;
  esp = 0;
  ebx = 0;
  edx = 0;
  ecx = 0;
  eax = 0;
  int_no = 32;
  err_code = 0;
  eip = 0x400;
  cs = 0x8;
  eflags = 0;
  useresp = 0;
  ss = 0;
}

abbrev pub input : Input
input = record {
  scancode = 0;
  faulting_address = 0;
  esp = 0x8F00;
  ebp = 0x8F10;
  eip = 0x400;
  ret = 7;
}

abbrev pub machine : Machine
machine = record {
  descriptors = record {
    gdt_entries = [];
    gdt_ptr = record { limit = 0; base = 0 };
    idt_entries = replicate 256 zero_gate;
    idt_ptr = record { limit = 0; base = 0 };
    tss_entry = zero_tss;
    interrupt_handlers = replicate 256 null;
    ports = [];
  };
  monitor = record { video_memory = λ i. blank; cursor_x = 0; cursor_y = 0; ports = [] };
  keyboard = record {
    current_layout = us;
    keyboard_buffer_start = 0;
    keyboard_buffer_end = 0;
    keyboard_buffer = replicate 256 0;
  };
  tasking = two;
  tick = 41;
}
