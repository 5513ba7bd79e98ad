-- ===== src/Task/Life.antt =====
-- The tasks from `initialise_tasking` on, over the sequences of ticks and forks that spare the queue.
use fotix.Base.{
  ℕ, zero, suc, ◌+◌, ◌^◌, ◌≤◌, ◌<◌, ◌≡◌, ◌≢◌, refl, sym, ap, subst, ◌∙◌, arith, List, [], ◌∷◌, ◌++◌,
  length, length-append, length-set, set, Outcome, ok, u32,
}
use fotix.Memory.{Memory, load32}
use fotix.Kernel.{Kernel}
use fotix.Paging.Directory.{Kmalloc}
use fotix.Task.{
  Tasking, task_size, make_task, move_stack, initialise_tasking, fork, getpid, switch_task, enter,
}
use fotix.Task.Schedule.{Task, Schedule, task_at, running, saved, switched}
use fotix.Task.Queue.{Same, Clear, Queue, Queue-at}
use fotix.Task.Switch.{Represents}
use fotix.Task.Rounds.{Slice, IsSlice, tick, tick-Represents}
use fotix.Task.Fork.{fork_refines}
use fotix.Task.Fork.Ready.{child, make_task-words, make_task-registers}

-- The schedule of one task, whose `task_t` was just made.
abbrev pub alone : Memory → (address id directory : ℕ) → Schedule
alone m address id directory = record {
  tasks = child m address id 0 0 0 directory ∷ [];
  current = 0;
}

-- The states that the kernel goes through, each with the schedule that it is to stand for. The premises
-- of a step are what it relies on: that the allocations and the running tasks spare the queue.
pub data Life (kmalloc_ap : Kmalloc) (kmalloc : (sz : ℕ) → Kernel → Outcome (ℕ × Kernel))
    (clone_directory : (src : ℕ) → Kernel → Outcome (ℕ × Kernel)) (fuel : ℕ)
    : Tasking → Schedule → Type 0 where
  starts :
      (initial_esp esp ebp esp' ebp' a : ℕ) (t t' : Tasking) (k1 k2 : Kernel)
      → move_stack kmalloc_ap fuel initial_esp 0xE0000000 0x2000 esp ebp t.kernel
        ≡ ok (esp', ebp', k1)
      → kmalloc task_size k1 ≡ ok (a, k2)
      → a ≢ 0
      → k2.current_directory < 2 ^ 32
      → t.next_pid ≡ 1
      → initialise_tasking kmalloc_ap kmalloc fuel initial_esp esp ebp t ≡ ok (esp', ebp', t')
      → Life kmalloc_ap kmalloc clone_directory fuel t' (alone k2.memory a 1 k2.current_directory)
  ticks :
      (t : Tasking) (s : Schedule) (l : Slice)
      → Life kmalloc_ap kmalloc clone_directory fuel t s
      → IsSlice t s l
      → Life kmalloc_ap kmalloc clone_directory fuel (tick l t) (switched l.esp l.ebp l.eip s)
  forks :
      (esp ebp eip directory a pid : ℕ) (t t' : Tasking) (s : Schedule) (k1 k2 : Kernel)
      → Life kmalloc_ap kmalloc clone_directory fuel t s
      → clone_directory t.kernel.current_directory t.kernel ≡ ok (directory, k1)
      → kmalloc task_size k1 ≡ ok (a, k2)
      → Same t.kernel.memory k2.memory s.tasks
      → Clear a s.tasks
      → length s.tasks ≤ fuel
      → a ≢ 0
      → a < 2 ^ 32
      → t.next_pid + 1 < 2 ^ 32
      → directory < 2 ^ 32
      → esp < 2 ^ 32
      → ebp < 2 ^ 32
      → eip < 2 ^ 32
      → fork clone_directory kmalloc fuel esp ebp eip t ≡ ok (pid, t')
      → Life kmalloc_ap kmalloc clone_directory fuel t'
          (record s { tasks = s.tasks ++ child k2.memory a t.next_pid esp ebp eip directory ∷ [] })

-- The ids of the tasks count up from `i`.
abbrev pub Numbered : (i : ℕ) → List Task → Type 0
Numbered i [] = Unit
Numbered i (t ∷ ts) = (t.id ≡ i) × Numbered (i + 1) ts

Numbered-set :
    (i n esp ebp eip : ℕ) (ts : List Task)
    → Numbered i ts
    → Numbered i (set ts n (saved esp ebp eip (task_at ts n)))
Numbered-set i n esp ebp eip [] h = h
Numbered-set i zero esp ebp eip (t ∷ ts) h = h
Numbered-set i (suc n) esp ebp eip (t ∷ ts) (h, hs) = (h, Numbered-set (i + 1) n esp ebp eip ts hs)

Numbered-append :
    (i : ℕ) (ts : List Task) (u : Task)
    → Numbered i ts
    → u.id ≡ i + length ts
    → Numbered i (ts ++ u ∷ [])
Numbered-append i [] u h e = (omega (arith, e), tt)
Numbered-append i (t ∷ ts) u (h, hs) e = (h, Numbered-append (i + 1) ts u hs (omega (arith, e)))

Numbered-at :
    (i : ℕ) (ts : List Task) (n : ℕ) → n < length ts → Numbered i ts → (task_at ts n).id ≡ i + n
Numbered-at i [] n h v = absurd (omega arith)
Numbered-at i (t ∷ ts) zero h (v, vs) = omega (arith, v)
Numbered-at i (t ∷ ts) (suc n) h (v, vs) = omega (arith, Numbered-at (i + 1) ts n (omega arith) vs)

-- What holds all along.
record IsSound (t : Tasking) (s : Schedule) : Type 0 where
  represents : Represents t s
  numbered : Numbered 1 s.tasks
  next : t.next_pid ≡ length s.tasks + 1

tick-next_pid :
    (t : Tasking) (s : Schedule) (l : Slice)
    → IsSlice t s l
    → Represents t s
    → (tick l t).next_pid ≡ t.next_pid
unfolding switch_task enter
tick-next_pid t s l valid rep = ground arith

-- The first task, as `initialise_tasking` makes it.
alone-Represents :
    (m : Memory) (a directory : ℕ) (t : Tasking)
    → a ≢ 0
    → directory < 2 ^ 32
    → t.kernel.memory ≡ make_task m a 1 directory
    → t.current_task ≡ a
    → t.ready_queue ≡ a
    → Represents t (alone m a 1 directory)
alone-Represents m a directory t null dir memory current queue =
    let (id, made_dir, stack, next) = make_task-words m a 1 directory (omega arith) dir in
    let (esp, ebp, eip) = make_task-registers m a 1 directory in
    let q : Queue (make_task m a 1 directory) a (child m a 1 0 0 0 directory ∷ []) = (
      refl,
      record {
        null = null;
        id = id;
        esp = esp;
        ebp = ebp;
        eip = eip;
        page_directory = made_dir;
        kernel_stack = stack;
      },
      next,
    ) in
    record {
      queue =
          subst (λ (m' : Memory). Queue m' t.ready_queue (child m a 1 0 0 0 directory ∷ []))
            (sym memory)
            (subst
              (λ (p : ℕ). Queue (make_task m a 1 directory) p (child m a 1 0 0 0 directory ∷ []))
              (sym queue) q);
      distinct = (tt, tt);
      place = omega arith;
      current = current;
    }

started :
    (kmalloc_ap : Kmalloc) (kmalloc : (sz : ℕ) → Kernel → Outcome (ℕ × Kernel))
    (fuel initial_esp esp ebp esp' ebp' a : ℕ) (t t' : Tasking) (k1 k2 : Kernel)
    → move_stack kmalloc_ap fuel initial_esp 0xE0000000 0x2000 esp ebp t.kernel
      ≡ ok (esp', ebp', k1)
    → kmalloc task_size k1 ≡ ok (a, k2)
    → initialise_tasking kmalloc_ap kmalloc fuel initial_esp esp ebp t ≡ ok (esp', ebp', t')
    → (t'.kernel.memory ≡ make_task k2.memory a t.next_pid k2.current_directory)
      × (t'.current_task ≡ a)
      × (t'.ready_queue ≡ a)
      × (t'.next_pid ≡ u32 (t.next_pid + 1))
unfolding initialise_tasking
started kmalloc_ap kmalloc fuel initial_esp esp ebp esp' ebp' a t t' k1 k2 moved got done =
    let made : Tasking = record t {
      kernel = record k2 { memory = make_task k2.memory a t.next_pid k2.current_directory };
      current_task = a;
      ready_queue = a;
      next_pid = u32 (t.next_pid + 1);
    } in
    let ran : initialise_tasking kmalloc_ap kmalloc fuel initial_esp esp ebp t
        ≡ ok (esp', ebp', made) =
      rw (moved, got) refl in
    let same : t' ≡ made = cc in
    (
      ap (λ (t : Tasking). t.kernel.memory) same,
      ap (λ (t : Tasking). t.current_task) same,
      ap (λ (t : Tasking). t.ready_queue) same,
      ap (λ (t : Tasking). t.next_pid) same,
    )

module _ {kmalloc_ap : Kmalloc} {kmalloc : (sz : ℕ) → Kernel → Outcome (ℕ × Kernel)}
    {clone_directory : (src : ℕ) → Kernel → Outcome (ℕ × Kernel)} {fuel : ℕ} where
  Life-IsSound :
      {t : Tasking} {s : Schedule} → Life kmalloc_ap kmalloc clone_directory fuel t s → IsSound t s
  Life-IsSound (starts initial_esp esp ebp esp' ebp' a t t' k1 k2 moved got null dir pid done) =
      let (memory, current, queue, next) =
        started kmalloc_ap kmalloc fuel initial_esp esp ebp esp' ebp' a t t' k1 k2 moved got done in
      record {
        represents =
            alone-Represents k2.memory a k2.current_directory t' null dir
              (memory ∙ ap (λ (n : ℕ). make_task k2.memory a n k2.current_directory) pid) current
              queue;
        numbered = (refl, tt);
        next = omega (arith, next, pid);
      }
  Life-IsSound (ticks t s l life valid) =
      let v = Life-IsSound life in
      record {
        represents = tick-Represents t s l valid v.represents;
        numbered = Numbered-set 1 s.current l.esp l.ebp l.eip s.tasks v.numbered;
        next = omega (
          arith,
          tick-next_pid t s l valid v.represents,
          v.next,
          length-set s.tasks s.current (saved l.esp l.ebp l.eip (running s)),
        );
      }
  Life-IsSound
        (forks esp ebp eip directory a pid t t' s k1 k2 life cloned got same clear enough null fits
          few dir e b x done) =
      let v = Life-IsSound life in
      let (u, ran, rep, next, others) =
        fork_refines clone_directory kmalloc fuel esp ebp eip directory a t s k1 k2 v.represents
          cloned got same clear enough null fits (omega arith) dir e b x in
      let same_state : u ≡ t' = cc in
      let new = child k2.memory a t.next_pid esp ebp eip directory in
      record {
        represents =
            subst (λ t'. Represents t' (record s { tasks = s.tasks ++ new ∷ [] })) same_state rep;
        numbered = Numbered-append 1 s.tasks new v.numbered (omega (arith, v.next));
        next = omega (
          arith,
          ap (λ (t : Tasking). t.next_pid) same_state,
          next,
          v.next,
          length-append s.tasks (new ∷ []),
        );
      }

  -- From `initialise_tasking` on with process id 1 as the next one, over any sequence of ticks and forks
  -- as `Life` allows them: `kmalloc`, `clone_directory` and the running tasks leave the structures of
  -- the queue alone, a new task's block lies apart from them and not at 0, each `fork` has fuel for the
  -- queue, the process ids stay below 2^32, and no tick comes from `read_eip` returning to a resumed
  -- task. Then the memory holds the queue of the schedule, with the running task at its place in it; the
  -- process ids count the tasks from 1 in the order of their birth, so that no two tasks share one, and
  -- `getpid` tells the place of the running task.
  pub Life-Numbered :
      (t : Tasking) (s : Schedule)
      → Life kmalloc_ap kmalloc clone_directory fuel t s
      → Represents t s
        × Numbered 1 s.tasks
        × (t.next_pid ≡ length s.tasks + 1)
        × (getpid t ≡ s.current + 1)
  unfolding getpid
  Life-Numbered t s life =
      let v = Life-IsSound life in
      let rep = v.represents in
      let (w, _) = Queue-at t.kernel.memory t.ready_queue s.tasks s.current rep.place rep.queue in
      (
        rep,
        v.numbered,
        v.next,
        ap (λ (a : ℕ). load32 t.kernel.memory a) rep.current
            ∙ w.id
            ∙ Numbered-at 1 s.tasks s.current rep.place v.numbered
            ∙ omega arith,
      )
