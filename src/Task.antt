-- ===== src/Task.antt =====
-- The tasks of sys/task.c, with each `task_t` of include/task.h in memory. What the processor holds
-- when a routine reads its registers, and what `read_eip` of sys/process.s returns, are arguments.
pub mod Schedule
pub mod Queue
pub mod Switch
pub mod Rounds
pub mod Fork
pub mod Life
pub mod States
mod Tests
use fotix.Base.{
  ℕ, zero, suc, ◌+◌, ◌/◌, Bool, true, false, Option, none, some, ◌==◌, ltb, leb, ◌&&◌,
  if◌then◌else◌, Outcome, ok, out_of_fuel, defined, ◌>>=◌, u32, sub32,
}
use fotix.Memory.{Memory, load32, store32, memcpy}
use fotix.Kernel.{Kernel}
use fotix.Paging.Page.{alloc_frame}
use fotix.Paging.Directory.{Kmalloc, get_page}

-- The fields of the `task_t` at an address: seven words.
abbrev pub task_id : ℕ → ℕ
task_id task = task

abbrev pub task_esp : ℕ → ℕ
task_esp task = task + 4

abbrev pub task_ebp : ℕ → ℕ
task_ebp task = task + 8

abbrev pub task_eip : ℕ → ℕ
task_eip task = task + 12

abbrev pub task_page_directory : ℕ → ℕ
task_page_directory task = task + 16

abbrev pub task_kernel_stack : ℕ → ℕ
task_kernel_stack task = task + 20

abbrev pub task_next : ℕ → ℕ
task_next task = task + 24

-- `sizeof (task_t)`.
abbrev pub task_size : ℕ
task_size = 28

abbrev pub kernel_stack_size : ℕ
kernel_stack_size = 2048

-- The globals, and what `set_kernel_stack` last wrote into `tss_entry.esp0`; a machine has the segment
-- itself, and gets the same value there.
pub record Tasking : Type 0 where
  pub kernel : Kernel
  pub current_task : ℕ
  pub ready_queue : ℕ
  pub next_pid : ℕ
  pub esp0 : ℕ

-- What the jump at the end of `switch_task` loads into the registers.
pub record Registers : Type 0 where
  pub eip : ℕ
  pub esp : ℕ
  pub ebp : ℕ
  pub cr3 : ℕ
  pub eax : ℕ

-- The dummy that tells a task that was just resumed.
abbrev pub resumed : ℕ
resumed = 0x12345

abbrev pub with_memory : Tasking → Memory → Tasking
with_memory t m = record t { kernel = record t.kernel { memory = m } }

-- The registers of a task that is being left, in the order of the source.
unfoldable pub save : Memory → (task esp ebp eip : ℕ) → Memory
save m task esp ebp eip =
    store32 (store32 (store32 m (task_eip task) eip) (task_esp task) esp) (task_ebp task) ebp

-- The task after `task`: its `next`, or the start of the queue.
unfoldable pub next_task : Memory → (ready_queue task : ℕ) → ℕ
next_task m ready_queue task =
    let following = load32 m (task_next task) in if following == 0 then ready_queue else following

-- The second half of `switch_task`: `task` becomes the current one.
unfoldable pub enter : (task : ℕ) → Tasking → Tasking × Option Registers
enter task t =
    let m = t.kernel.memory in
    let directory = load32 m (task_page_directory task) in
    (
      record t {
        kernel = record t.kernel { current_directory = directory };
        current_task = task;
        esp0 = u32 (load32 m (task_kernel_stack task) + kernel_stack_size);
      },
      some (record {
        eip = load32 m (task_eip task);
        esp = load32 m (task_esp task);
        ebp = load32 m (task_ebp task);
        cr3 = load32 m (directory + 8192);
        eax = resumed;
      }),
    )

-- `none` is an ordinary return.
unfoldable pub switch_task : (esp ebp eip : ℕ) → Tasking → Tasking × Option Registers
switch_task esp ebp eip t =
    let m = save t.kernel.memory t.current_task esp ebp eip in
    if t.current_task == 0
    then (t, none)
    else if eip == resumed
    then (t, none)
    else enter (next_task m t.ready_queue t.current_task) (with_memory t m)

unfoldable pub getpid : Tasking → ℕ
getpid t = load32 t.kernel.memory (task_id t.current_task)

-- `task` gets its fields in the order of the source; `kernel_stack` is not set.
unfoldable pub make_task : Memory → (task id directory : ℕ) → Memory
make_task m task id directory =
    let m1 = store32 (store32 m (task_id task) id) (task_esp task) 0 in
    let m2 = store32 (store32 m1 (task_ebp task) 0) (task_eip task) 0 in
    store32 (store32 m2 (task_page_directory task) directory) (task_next task) 0

-- The loop of `fork` that looks for the end of the queue.
unfoldable pub find_last : (fuel : ℕ) → Memory → (task : ℕ) → Outcome ℕ
find_last zero m task = out_of_fuel
find_last (suc fuel) m task =
    let following = load32 m (task_next task) in
    let rest = find_last fuel m following in if following == 0 then ok task else rest

-- `fork` up to `read_eip`, given `clone_directory` and `kmalloc`: the new task joins the queue.
unfoldable pub fork_task :
    (clone_directory : (src : ℕ) → Kernel → Outcome (ℕ × Kernel))
    → (kmalloc : (sz : ℕ) → Kernel → Outcome (ℕ × Kernel)) → (fuel : ℕ) → Tasking
    → Outcome (ℕ × Tasking)
fork_task clone_directory kmalloc fuel t = do
  (directory, k1) ← clone_directory t.kernel.current_directory t.kernel
  (task, k2) ← kmalloc task_size k1
  let m = make_task k2.memory task t.next_pid directory
  last ← find_last fuel m t.ready_queue
  ok (
    task,
    record t {
      kernel = record k2 { memory = store32 m (task_next last) task };
      next_pid = u32 (t.next_pid + 1);
    },
  )

-- `fork` from `read_eip` on, which the parent reaches at once, and the child when it is resumed.
unfoldable pub fork_return : (parent_task new_task esp ebp eip : ℕ) → Tasking → ℕ × Tasking
fork_return parent_task new_task esp ebp eip t =
    let m = t.kernel.memory in
    let m' =
      store32 (store32 (store32 m (task_esp new_task) esp) (task_ebp new_task) ebp)
        (task_eip new_task) eip in
    if t.current_task == parent_task
    then (load32 m' (task_id new_task), with_memory t m')
    else (0, t)

-- `fork` as the parent runs it.
unfoldable pub fork :
    (clone_directory : (src : ℕ) → Kernel → Outcome (ℕ × Kernel))
    → (kmalloc : (sz : ℕ) → Kernel → Outcome (ℕ × Kernel)) → (fuel esp ebp eip : ℕ) → Tasking
    → Outcome (ℕ × Tasking)
fork clone_directory kmalloc fuel esp ebp eip t = do
  (new_task, t') ← fork_task clone_directory kmalloc fuel t
  ok (fork_return t.current_task new_task esp ebp eip t')

-- The loops of `move_stack`. The first maps the pages of the new stack, downwards.
unfoldable pub map_stack : Kmalloc → (fuel low i : ℕ) → Kernel → Outcome Kernel
map_stack kmalloc_ap zero low i k = out_of_fuel
map_stack kmalloc_ap (suc fuel) low i k =
    let round : Outcome Kernel = (do
      (page, k') ← get_page kmalloc_ap k i true k.current_directory
      m ← defined (alloc_frame k'.memory k'.frame_set page false true)
      map_stack kmalloc_ap fuel low (sub32 i 0x1000) (record k' { memory = m })) in
    if leb low i then round else ok k

-- The last loop moves along each word of the new stack that points into the old one. The rounds are
-- those left; `i` goes down by a word each.
unfoldable pub remap : (old_stack_pointer initial_esp offset rounds i : ℕ) → Memory → Memory
remap old_stack_pointer initial_esp offset zero i m = m
remap old_stack_pointer initial_esp offset (suc rounds) i m =
    let tmp = load32 m i in
    let m' =
      if ltb old_stack_pointer tmp && ltb tmp initial_esp
      then store32 m i (u32 (tmp + offset))
      else m in
    remap old_stack_pointer initial_esp offset rounds (sub32 i 4) m'

-- `move_stack`: the new `esp` and `ebp` go back as well. The rounds of the last loop are those of
-- `i > new_stack_start - size`.
unfoldable pub move_stack :
    Kmalloc
    → (fuel initial_esp new_stack_start size esp ebp : ℕ) → Kernel
    → Outcome (ℕ × ℕ × Kernel)
move_stack kmalloc_ap fuel initial_esp new_stack_start size esp ebp k = do
  k' ← map_stack kmalloc_ap fuel (sub32 new_stack_start size) new_stack_start k
  let offset = sub32 new_stack_start initial_esp
  let m = memcpy k'.memory (u32 (esp + offset)) esp (sub32 initial_esp esp)
  let m' = remap esp initial_esp offset ((size + 3) / 4) new_stack_start m
  ok (u32 (esp + offset), u32 (ebp + offset), record k' { memory = m' })

-- `initialise_tasking`, given `kmalloc`: the first task is the kernel's.
unfoldable pub initialise_tasking :
    Kmalloc
    → (kmalloc : (sz : ℕ) → Kernel → Outcome (ℕ × Kernel)) → (fuel initial_esp esp ebp : ℕ)
    → Tasking
    → Outcome (ℕ × ℕ × Tasking)
initialise_tasking kmalloc_ap kmalloc fuel initial_esp esp ebp t = do
  (esp', ebp', k1) ← move_stack kmalloc_ap fuel initial_esp 0xE0000000 0x2000 esp ebp t.kernel
  (task, k2) ← kmalloc task_size k1
  ok (
    esp',
    ebp',
    record t {
      kernel = record k2 { memory = make_task k2.memory task t.next_pid k2.current_directory };
      current_task = task;
      ready_queue = task;
      next_pid = u32 (t.next_pid + 1);
    },
  )
