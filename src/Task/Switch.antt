-- ===== src/Task/Switch.antt =====
-- `switch_task` implements the schedule.
use fotix.Base.{
  ℕ, zero, suc, ◌+◌, ◌^◌, ◌≤◌, ◌<◌, ◌≡◌, ◌≢◌, refl, sym, ap, ◌∙◌, arith, inl, inr, Bool-cases, some,
  List, [], ◌∷◌, length, length-set, set, ◌==◌, u32,
}
use fotix.Memory.{Memory, load32}
use fotix.Task.{
  Tasking, Registers, resumed, task_next, task_eip, task_esp, task_ebp, task_page_directory, save,
  next_task, enter, switch_task, with_memory, kernel_stack_size,
}
use fotix.Task.Schedule.{Task, Schedule, task_at, running, after, saved, switched}
use fotix.Task.Queue.{IsTask, Queue, Clear, Distinct, Queue-save, Queue-at, Queue-head}

-- The globals and the memory stand for a schedule.
pub record Represents (t : Tasking) (s : Schedule) : Type 0 where
  pub queue : Queue t.kernel.memory t.ready_queue s.tasks
  pub distinct : Distinct s.tasks
  pub place : s.current < length s.tasks
  pub current : t.current_task ≡ (running s).address

-- A set that keeps addresses keeps the tasks apart.
Clear-set :
    (a : ℕ) (ts : List Task) (i esp ebp eip : ℕ)
    → Clear a ts
    → Clear a (set ts i (saved esp ebp eip (task_at ts i)))
Clear-set a [] i esp ebp eip c = c
Clear-set a (t ∷ ts) zero esp ebp eip c = c
Clear-set a (t ∷ ts) (suc i) esp ebp eip (c, cs) = (c, Clear-set a ts i esp ebp eip cs)

Distinct-set :
    (ts : List Task) (i esp ebp eip : ℕ)
    → Distinct ts
    → Distinct (set ts i (saved esp ebp eip (task_at ts i)))
Distinct-set [] i esp ebp eip d = d
Distinct-set (t ∷ ts) zero esp ebp eip d = d
Distinct-set (t ∷ ts) (suc i) esp ebp eip (c, d) =
    (Clear-set t.address ts i esp ebp eip c, Distinct-set ts i esp ebp eip d)

address-set :
    (ts : List Task) (i j esp ebp eip : ℕ)
    → (task_at (set ts i (saved esp ebp eip (task_at ts i))) j).address ≡ (task_at ts j).address
address-set [] i j esp ebp eip = refl
address-set (t ∷ ts) zero zero esp ebp eip = refl
address-set (t ∷ ts) zero (suc j) esp ebp eip = refl
address-set (t ∷ ts) (suc i) zero esp ebp eip = refl
address-set (t ∷ ts) (suc i) (suc j) esp ebp eip = address-set ts i j esp ebp eip

-- Behind the last place there is no task.
no_task_behind : (ts : List Task) (i : ℕ) → length ts ≤ i → (task_at ts i).address ≡ 0
no_task_behind [] i h = refl
no_task_behind (t ∷ ts) zero h = absurd (omega arith)
no_task_behind (t ∷ ts) (suc i) h = no_task_behind ts i (omega arith)

-- The `next` field leads around the round.
next_task-after :
    (m : Memory) (p : ℕ) (ts : List Task) (i : ℕ)
    → i < length ts
    → Queue m p ts
    → next_task m p (task_at ts i).address ≡ (task_at ts (after (length ts) i)).address
unfolding next_task
next_task-after m p ts i h q =
    let (v, following) = Queue-at m p ts i h q in
    elim (Bool-cases (i + 1 == length ts)) [
      | inl t ↦
          let last : load32 m (task_next (task_at ts i).address) ≡ 0 =
            following ∙ no_task_behind ts (i + 1) (ground arith) in
          rw (t, last) (Queue-head m p ts q)
      | inr f ↦
          let (w, _) = Queue-at m p ts (i + 1) (ground arith) q in
          let there = w.null in rw f (ground (arith, following))
    ]

-- What is loaded into the registers is what the task had.
abbrev pub Resumes : Tasking → Registers → Task → Type 0
Resumes t r u =
    (r.eip ≡ u.eip)
    × (r.esp ≡ u.esp)
    × (r.ebp ≡ u.ebp)
    × (r.cr3 ≡ load32 t.kernel.memory (u.page_directory + 8192))
    × (r.eax ≡ resumed)
    × (t.kernel.current_directory ≡ u.page_directory)
    × (t.esp0 ≡ u32 (u.kernel_stack + kernel_stack_size))

enter_lem :
    (t : Tasking) (u : Task)
    → IsTask t.kernel.memory u
    → (r : Registers) × (enter u.address t ≡ ((enter u.address t).0, some r))
      × Resumes (enter u.address t).0 r u
unfolding enter
enter_lem t u v = (
  record {
    eip = load32 t.kernel.memory (task_eip u.address);
    esp = load32 t.kernel.memory (task_esp u.address);
    ebp = load32 t.kernel.memory (task_ebp u.address);
    cr3 = load32 t.kernel.memory (load32 t.kernel.memory (task_page_directory u.address) + 8192);
    eax = resumed;
  },
  refl,
  (
    v.eip,
    v.esp,
    v.ebp,
    ap (λ (d : ℕ). load32 t.kernel.memory (d + 8192)) v.page_directory,
    refl,
    v.page_directory,
    ap (λ (n : ℕ). u32 (n + kernel_stack_size)) v.kernel_stack,
  ),
)

switch_task-enters :
    (t : Tasking) (esp ebp eip : ℕ)
    → t.current_task ≢ 0
    → eip ≢ resumed
    → let m = save t.kernel.memory t.current_task esp ebp eip in
      switch_task esp ebp eip t ≡ enter (next_task m t.ready_queue t.current_task) (with_memory t m)
unfolding switch_task
switch_task-enters t esp ebp eip some_task fresh = ground arith

-- A tick that does not come from `read_eip` returning to a resumed task leaves the running task with
-- its registers, and enters the one behind it in the round, with the registers, the page directory
-- and the kernel stack that it had; the queue keeps its order, and no other task changes.
pub switch_task_refines :
    (t : Tasking) (s : Schedule) (esp ebp eip : ℕ)
    → Represents t s
    → esp < 2 ^ 32
    → ebp < 2 ^ 32
    → eip < 2 ^ 32
    → eip ≢ resumed
    → (t' : Tasking) × (r : Registers) × (switch_task esp ebp eip t ≡ (t', some r))
      × Represents t' (switched esp ebp eip s)
      × Resumes t' r (running (switched esp ebp eip s))
      × (t'.next_pid ≡ t.next_pid)
unfolding enter
switch_task_refines t s esp ebp eip rep e b x fresh = (
  (enter next.address saved_state).0,
  (enter_lem saved_state next (here.0)).0,
  switch_task-enters t esp ebp eip running_null fresh
      ∙ ap
          (λ (c : ℕ).
            let m = save t.kernel.memory c esp ebp eip in
            enter (next_task m t.ready_queue c) (with_memory t m))
          rep.current
      ∙ ap (λ (c : ℕ). enter c saved_state) following
      ∙ (enter_lem saved_state next (here.0)).1,
  record {
    queue = queue;
    distinct = Distinct-set ts i esp ebp eip rep.distinct;
    place = inside;
    current = refl;
  },
  (enter_lem saved_state next (here.0)).2,
  refl,
)
  where
    ts : List Task
    ts = s.tasks

    i : ℕ
    i = s.current

    ts' : List Task
    ts' = set ts i (saved esp ebp eip (task_at ts i))

    j : ℕ
    j = after (length ts) i

    next : Task
    next = task_at ts' j

    saved_memory : Memory
    saved_memory = save t.kernel.memory (task_at ts i).address esp ebp eip

    saved_state : Tasking
    saved_state = with_memory t saved_memory

    same_length : length ts' ≡ length ts
    same_length = length-set ts i (saved esp ebp eip (task_at ts i))

    inside : j < length ts'
    inside = ground (arith, same_length, rep.place)

    queue : Queue saved_memory t.ready_queue ts'
    queue =
        Queue-save t.kernel.memory t.ready_queue ts i esp ebp eip rep.place e b x rep.distinct
          rep.queue

    running_null : t.current_task ≢ 0
    running_null z =
        (Queue-at t.kernel.memory t.ready_queue ts i rep.place rep.queue).0.null
          (sym rep.current ∙ z)

    here :
        IsTask saved_memory next
        × (load32 saved_memory (task_next next.address) ≡ (task_at ts' (j + 1)).address)
    here = Queue-at saved_memory t.ready_queue ts' j inside queue

    following : next_task saved_memory t.ready_queue (task_at ts i).address ≡ next.address
    following =
        ap (next_task saved_memory t.ready_queue) (sym (address-set ts i i esp ebp eip))
        ∙ next_task-after saved_memory t.ready_queue ts' i (omega (arith, same_length, rep.place))
            queue
        ∙ ap (λ (n : ℕ). (task_at ts' (after n i)).address) same_length
