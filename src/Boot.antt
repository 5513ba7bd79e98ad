-- ===== src/Boot.antt =====
-- sys/main.c: the parts in the order in which they start.
pub mod Mapping
pub mod Pages
pub mod Reserved
pub mod Identity
pub mod Typing
mod Tests
use fotix.Base.{
  ℕ, ◌+◌, Bool, List, ◌==◌, ltb, if◌then◌else◌, Outcome, ok, assert, ◌>>=◌, ◌>>◌, u32, codes,
}
use fotix.Memory.{load32}
use fotix.Kernel.{Kernel}
use fotix.Monitor.{Monitor, monitor_clear, monitor_put, monitor_write, monitor_write_padded}
use fotix.Keyboard.{keyboard_getchar}
use fotix.Descriptor.Tables.{Symbols, init_descriptor_tables, set_kernel_stack}
use fotix.Paging.Clone.{CopyPage}
use fotix.Heap.Kmalloc.{kmalloc, kmalloc_ap}
use fotix.FileSystem.Initrd
use fotix.FileSystem.Initrd.{Initrd, initialise_initrd}
use fotix.Task.{initialise_tasking, task_kernel_stack, kernel_stack_size}
use fotix.Interrupts.{init_timer, initialise_syscalls, start_keyboard}
use fotix.Interrupts.Handlers.{Machine}
use fotix.Boot.Mapping.{initialise_paging}

-- What the linker, the loader and the processor supply: `stack n` is what the buffer of the `n`-th
-- `monitor_write_padded` holds, and what lies behind it.
pub record Loaded : Type 0 where
  pub symbols : Symbols
  pub initrd_symbols : Initrd.Symbols
  pub mboot_ptr : ℕ
  pub initial_stack : ℕ
  pub esp : ℕ
  pub ebp : ℕ
  pub stack : ℕ → List ℕ × List ℕ
  pub copy_page_physical : CopyPage

-- `mods_count` and `mods_addr` of the `struct multiboot` at an address.
abbrev pub mods_count : ℕ → ℕ
mods_count mboot_ptr = mboot_ptr + 20

abbrev pub mods_addr : ℕ → ℕ
mods_addr mboot_ptr = mboot_ptr + 24

-- The line for a step of the boot.
unfoldable pub report :
    (l : Loaded) (n : ℕ) (message : List ℕ) (failure : ℕ) → Machine → Outcome Machine
report l n message failure m = do
  s ← monitor_write_padded (l.stack n).0 (l.stack n).1 message (failure == 0) m.monitor
  ok (record m { monitor = s })

unfoldable pub banner : Monitor → Monitor
banner s =
    let s1 = monitor_write (codes "Fotix v0.1\n") (monitor_clear s) in
    let s2 = monitor_write (codes "Copyright (c) 2016 Fotis Koutoulakis\n") s1 in
    monitor_put 10 (monitor_write (codes "http://www.fotiskoutoulakis.com\n") s2)

-- Up to the timer.
unfoldable pub start_interrupts : Loaded → Machine → Outcome Machine
start_interrupts l m = do
  let (failure, d) = init_descriptor_tables l.symbols m.descriptors
  m1 ←
      report l 0 (codes "Initializing descriptor tables") failure
        (record m { monitor = banner m.monitor; descriptors = d })
  (failure', m2) ← init_timer 50 m1
  report l 1 (codes "Initializing timer") failure' m2

-- The place of the ramdisk, and the machine whose placement address lies behind it.
unfoldable pub find_ramdisk : Loaded → Machine → Outcome (ℕ × Machine)
find_ramdisk l m = do
  let memory = m.tasking.kernel.memory
  assert (ltb 0 (load32 memory (mods_count l.mboot_ptr)))
  let start = load32 memory (mods_addr l.mboot_ptr)
  let initrd_location = load32 memory start
  let initrd_end = load32 memory (start + 4)
  m1 ← report l 2 (codes "Looking for initial ramdisk") 0 m
  ok (
    initrd_location,
    record m1 {
      tasking = record m1.tasking {
        kernel = record m1.tasking.kernel { placement_address = initrd_end };
      };
    },
  )

-- Paging, and the tasks on a new stack.
unfoldable pub start_memory : (fuel : ℕ) → Loaded → Machine → Outcome Machine
start_memory fuel l m = do
  (failure, m1) ← initialise_paging fuel l.copy_page_physical m
  m2 ← report l 3 (codes "Initializing paging") failure m1
  (esp, ebp, t) ←
      initialise_tasking (kmalloc_ap fuel) (kmalloc fuel) fuel l.initial_stack l.esp l.ebp
        m2.tasking
  report l 4 (codes "Initializing scheduling") 0 (record m2 { tasking = t })

-- The ramdisk, whose root becomes `fs_root`, and the last two handlers.
unfoldable pub start_services :
    (fuel : ℕ) → Loaded → (initrd_location : ℕ) → Machine → Outcome (Initrd × Machine)
start_services fuel l initrd_location m = do
  (g, k) ← initialise_initrd fuel l.initrd_symbols (kmalloc fuel) initrd_location m.tasking.kernel
  m1 ←
      report l 5 (codes "Initializing ramdisk") (if g.initrd_root == 0 then 1 else 0)
        (record m { tasking = record m.tasking { kernel = k } })
  let (failure, m2) = initialise_syscalls m1
  m3 ← report l 6 (codes "Initializing kernel system call interface") failure m2
  ok (g, start_keyboard m3)

-- `switch_to_user_mode` up to its assembly.
unfoldable pub user_stack : Machine → Machine
user_stack m =
    let t = m.tasking in
    let stack = load32 t.kernel.memory (task_kernel_stack t.current_task) in
    record m {
      tasking = record t { esp0 = u32 (stack + kernel_stack_size) };
      descriptors = set_kernel_stack (u32 (stack + kernel_stack_size)) m.descriptors;
    }

-- `kernel_start` up to user mode. The greeting that follows is a system call.
unfoldable pub kernel_start : (fuel : ℕ) → Loaded → Machine → Outcome (Initrd × Machine)
kernel_start fuel l m = do
  m1 ← start_interrupts l m
  (initrd_location, m2) ← find_ramdisk l m1
  m3 ← start_memory fuel l m2
  (g, m4) ← start_services fuel l initrd_location m3
  ok (g, user_stack m4)

-- A round of the loop at its end.
unfoldable pub echo : Machine → Machine
echo m =
    let (c, keyboard) = keyboard_getchar m.keyboard in
    record m {
      keyboard = keyboard;
      monitor = if c == 0 then m.monitor else monitor_put c m.monitor;
    }
