-- ===== src/Task/Schedule.antt =====
-- The schedule that sys/task.c implements: the tasks in the order of the queue, and the place of the
-- one that runs.
use fotix.Base.{ℕ, ◌+◌, ◌==◌, if◌then◌else◌, List, length, get_or, set}

-- A task: where its `task_t` lies, and what that holds.
pub record Task : Type 0 where
  pub address : ℕ
  pub id : ℕ
  pub esp : ℕ
  pub ebp : ℕ
  pub eip : ℕ
  pub page_directory : ℕ
  pub kernel_stack : ℕ

pub record Schedule : Type 0 where
  pub tasks : List Task
  pub current : ℕ

abbrev pub no_task : Task
no_task = record {
  address = 0;
  id = 0;
  esp = 0;
  ebp = 0;
  eip = 0;
  page_directory = 0;
  kernel_stack = 0;
}

abbrev pub task_at : List Task → ℕ → Task
task_at ts i = get_or ts i no_task

abbrev pub running : Schedule → Task
running s = task_at s.tasks s.current

-- The place after `i` in a round of `n`.
abbrev pub after : (n i : ℕ) → ℕ
after n i = if i + 1 == n then 0 else i + 1

-- The registers of a task that is left.
abbrev pub saved : (esp ebp eip : ℕ) → Task → Task
saved esp ebp eip t = record t { esp = esp; ebp = ebp; eip = eip }

-- The timer: the running task is left, and the one behind it in the round runs.
abbrev pub switched : (esp ebp eip : ℕ) → Schedule → Schedule
switched esp ebp eip s = record {
  tasks = set s.tasks s.current (saved esp ebp eip (running s));
  current = after (length s.tasks) s.current;
}
