-- ===== src/Task/Tests.antt =====
-- The theorems on tasks at a concrete kernel: it starts, forks, and switches.
use fotix.Base.{ℕ, ◌+◌, ◌<◌, ◌≡◌, ◌≢◌, refl, arith, inr, some, [], ◌∷◌, ◌++◌, Outcome, ok}
use fotix.Memory.{load32, memcpy}
use fotix.Kernel.{Kernel}
use fotix.Paging.Directory.{Kmalloc, get_page}
use fotix.Paging.Page.{alloc_frame, load_page, page_of_word}
use fotix.Task.{
  Tasking, Registers, switch_task, with_memory, move_stack, map_stack, remap, initialise_tasking,
  make_task, fork, fork_return, getpid,
}
use fotix.Task.Schedule.{Schedule, task_at, running, switched}
use fotix.Task.Switch.{Represents, Resumes, switch_task_refines}
use fotix.Task.Rounds.{Slice, IsSlice, tick, round_robin}
use fotix.Task.Fork.{fork_refines}
use fotix.Task.Fork.Ready.{child}
use fotix.Task.States.{kernel, booted, two_in_memory, two, two_tasks, two-Represents}
use fotix.Task.Life.{Life, starts, ticks, forks, Numbered, alone, Life-Numbered}

abbrev bump : (sz : ℕ) → Kernel → Outcome (ℕ × Kernel)
bump sz k = ok (k.placement_address, record k { placement_address = k.placement_address + sz })

abbrev no_tables : Kmalloc
no_tables k sz = Outcome.halted

abbrev cloned : (src : ℕ) → Kernel → Outcome (ℕ × Kernel)
cloned src k = ok (0x7000, k)

abbrev moved : Kernel
moved = record kernel { memory = remap 0x8000 0x8000 0xDFFF8000 2048 0xE0000000 (λ b. 1) }

abbrev first : Tasking
first = record booted {
  kernel = record moved {
    memory = make_task moved.memory 0x9000 1 0x4000;
    placement_address = 0x901C;
  };
  current_task = 0x9000;
  ready_queue = 0x9000;
  next_pid = 2;
}

abbrev one_task : Schedule
one_task = alone moved.memory 0x9000 1 0x4000

moved_lem :
    move_stack no_tables 5 0x8000 0xE0000000 0x2000 0x8000 0x8010 kernel
    ≡ ok (0xE0000000, 0xE0000010, moved)
unfolding move_stack map_stack get_page alloc_frame load_page page_of_word load32 memcpy
moved_lem = refl

start_lem :
    initialise_tasking no_tables bump 5 0x8000 0x8000 0x8010 booted
    ≡ ok (0xE0000000, 0xE0000010, first)
unfolding initialise_tasking
start_lem = rw moved_lem refl

life : Life no_tables bump cloned 5 first one_task
life =
    starts 0x8000 0x8000 0x8010 0xE0000000 0xE0000010 0x9000 booted first moved
      (record moved { placement_address = 0x901C }) moved_lem refl (λ e. absurd (omega arith))
      (omega arith) refl start_lem

-- The first task forks; the child gets the next block, and the directory 0x7000.
abbrev grown : Kernel
grown = record first.kernel { placement_address = 0x9038 }

abbrev both_tasks : Schedule
both_tasks = record one_task {
  tasks = one_task.tasks ++ child grown.memory 0x901C 2 0x8F00 0x8F10 0x400 0x7000 ∷ [];
}

forked_lem :
    (t : Tasking) × (fork cloned bump 5 0x8F00 0x8F10 0x400 first ≡ ok (2, t))
    × Represents t both_tasks
    × (t.next_pid ≡ 3)
    × ((esp ebp eip : ℕ) (u : Tasking)
        → u.current_task ≢ 0x9000
        → fork_return 0x9000 0x901C esp ebp eip u ≡ (0, u))
forked_lem =
    fork_refines cloned bump 5 0x8F00 0x8F10 0x400 0x7000 0x901C first one_task first.kernel grown
      (Life-Numbered first one_task life).0 refl refl ((λ b p q. refl), tt) (inr (omega arith), tt)
      (omega arith) (λ e. absurd (omega arith)) (omega arith) (omega arith) (omega arith)
      (omega arith) (omega arith) (omega arith)

abbrev forked : Tasking
forked = forked_lem.0

forked-life : Life no_tables bump cloned 5 forked both_tasks
forked-life =
    forks 0x8F00 0x8F10 0x400 0x7000 0x901C 2 first forked one_task first.kernel grown life refl
      refl ((λ b p q. refl), tt) (inr (omega arith), tt) (omega arith) (λ e. absurd (omega arith))
      (omega arith) (omega arith) (omega arith) (omega arith) (omega arith) (omega arith)
      forked_lem.1

-- A tick then leaves the parent for the child.
abbrev parent_slice : Slice
parent_slice = record { memory = forked.kernel.memory; esp = 0x8E00; ebp = 0x8E10; eip = 0x400 }

parent_slice-IsSlice : IsSlice forked both_tasks parent_slice
parent_slice-IsSlice = record {
  same = ((λ b p q. refl), ((λ b p q. refl), tt));
  esp = omega arith;
  ebp = omega arith;
  eip = omega arith;
  fresh = λ e. absurd (omega arith);
}

ticked-life :
    Life no_tables bump cloned 5
      (tick parent_slice forked)
      (switched 0x8E00 0x8E10 0x400 both_tasks)
ticked-life = ticks forked both_tasks parent_slice forked-life parent_slice-IsSlice

Life-Numbered_example :
    let t = tick parent_slice forked in
    let s = switched 0x8E00 0x8E10 0x400 both_tasks in
    Represents t s × Numbered 1 s.tasks × (t.next_pid ≡ 3) × (getpid t ≡ 2)
Life-Numbered_example =
    Life-Numbered (tick parent_slice forked) (switched 0x8E00 0x8E10 0x400 both_tasks) ticked-life

switch_task_refines_example :
    (t : Tasking) × (r : Registers) × (switch_task 0x8F00 0x8F10 0x400 two ≡ (t, some r))
    × Represents t (switched 0x8F00 0x8F10 0x400 two_tasks)
    × Resumes t r (running (switched 0x8F00 0x8F10 0x400 two_tasks))
    × (t.next_pid ≡ 3)
switch_task_refines_example =
    switch_task_refines two two_tasks 0x8F00 0x8F10 0x400 two-Represents (omega arith) (omega arith)
      (omega arith) (λ e. absurd (omega arith))

abbrev slice : Slice
slice = record { memory = two_in_memory; esp = 0x8F00; ebp = 0x8F10; eip = 0x400 }

slice-IsSlice : IsSlice two two_tasks slice
slice-IsSlice = record {
  same = ((λ b p q. refl), ((λ b p q. refl), tt));
  esp = omega arith;
  ebp = omega arith;
  eip = omega arith;
  fresh = λ e. absurd (omega arith);
}

round_robin_example :
    (t : Tasking) × (r : Registers) × (switch_task 0x8F00 0x8F10 0x400
        (with_memory two two_in_memory)
      ≡ (t, some r))
    × Represents t (switched 0x8F00 0x8F10 0x400 two_tasks)
    × (t.current_task ≡ 0x1020)
    × Resumes t r (task_at two_tasks.tasks 1)
    × (0 + 1 < 2)
round_robin_example =
    round_robin two two_tasks [] slice 1 two-Represents (omega arith) (omega arith) tt slice-IsSlice

fork_refines_example :
    (t : Tasking) × (fork cloned bump 2 0x8F00 0x8F10 0x400 two ≡ ok (3, t))
    × Represents t (record two_tasks {
      tasks = two_tasks.tasks ++ child two_in_memory 0x9000 3 0x8F00 0x8F10 0x400 0x7000 ∷ [];
    })
    × (t.next_pid ≡ 4)
    × ((esp ebp eip : ℕ) (u : Tasking)
        → u.current_task ≢ 0x1000
        → fork_return 0x1000 0x9000 esp ebp eip u ≡ (0, u))
fork_refines_example =
    fork_refines cloned bump 2 0x8F00 0x8F10 0x400 0x7000 0x9000 two two_tasks two.kernel
      (record two.kernel { placement_address = 0x901C }) two-Represents refl refl
      ((λ b p q. refl), ((λ b p q. refl), tt)) (inr (omega arith), (inr (omega arith), tt))
      (omega arith) (λ e. absurd (omega arith)) (omega arith) (omega arith) (omega arith)
      (omega arith) (omega arith) (omega arith)
