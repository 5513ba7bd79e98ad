-- ===== src/Task/Fork.antt =====
-- `fork`: the queue gets one task more, at its end.
pub mod Ready
pub mod Extend
use fotix.Base.{
  ℕ, zero, suc, ◌+◌, ◌-◌, ◌^◌, ◌≤◌, ◌<◌, ◌≡◌, ◌≢◌, refl, sym, ap, subst, ◌∙◌, arith, ◌⊎◌, inl, inr,
  Bool, true, false, Bool-cases, some, List, [], ◌∷◌, ◌++◌, length, length-append, get_or, ◌==◌,
  if◌then◌else◌, Outcome, ok, ◌>>=◌, u32,
}
use fotix.Memory.{Memory, load32, store32}
use fotix.Memory.Words.{load32-store32, load32-store32_apart, load32-same, store32-outside}
use fotix.Kernel.{Kernel}
use fotix.Task.{
  Tasking, task_id, task_esp, task_ebp, task_eip, task_next, task_size, make_task, find_last,
  fork_task, fork_return, fork, with_memory,
}
use fotix.Task.Schedule.{Task, Schedule, no_task, task_at, running}
use fotix.Task.Queue.{
  IsTask, Queue, Beside, Clear, Distinct, Same, SameTask, IsTask-same, Queue-same, Clear-Same,
  Clear-at, same_next,
}
use fotix.Task.Switch.{Represents}
use fotix.Task.Fork.Ready.{
  make_task-outside, ready, ready-words, ready-outside, child, child-IsTask,
}
use fotix.Task.Fork.Extend.{find_last_lem, Queue-extend, Distinct-append, task_at-append}

fork-eq :
    (clone_directory : (src : ℕ) → Kernel → Outcome (ℕ × Kernel))
    (kmalloc : (sz : ℕ) → Kernel → Outcome (ℕ × Kernel)) (fuel esp ebp eip directory a last : ℕ)
    (t : Tasking) (k1 k2 : Kernel)
    → clone_directory t.kernel.current_directory t.kernel ≡ ok (directory, k1)
    → kmalloc task_size k1 ≡ ok (a, k2)
    → let m = make_task k2.memory a t.next_pid directory in
      find_last fuel m t.ready_queue ≡ ok last
      → fork clone_directory kmalloc fuel esp ebp eip t
        ≡ ok (
          load32 (ready m a last esp ebp eip) a,
          record t {
            kernel = record k2 { memory = ready m a last esp ebp eip };
            next_pid = u32 (t.next_pid + 1);
          },
        )
unfolding fork fork_task fork_return
fork-eq clone_directory kmalloc fuel esp ebp eip directory a last t k1 k2 cloned got found =
    let same : (t.current_task == t.current_task) ≡ true = ground arith in
    rw (cloned, got, found, same) refl

-- The queue with the child at its end.
fork-Queue :
    (fuel esp ebp eip directory a id p : ℕ) (m : Memory) (ts : List Task)
    → 0 < length ts
    → length ts ≤ fuel
    → Queue m p ts
    → Distinct ts
    → Clear a ts
    → a ≢ 0
    → a < 2 ^ 32
    → id < 2 ^ 32
    → directory < 2 ^ 32
    → esp < 2 ^ 32
    → ebp < 2 ^ 32
    → eip < 2 ^ 32
    → let made = make_task m a id directory in
      (last : ℕ) × (find_last fuel made p ≡ ok last)
      × Queue (ready made a last esp ebp eip) p (ts ++ child m a id esp ebp eip directory ∷ [])
      × (load32 (ready made a last esp ebp eip) a ≡ id)
fork-Queue fuel esp ebp eip directory a id p m [] some_task enough q d clear null fits i dir e b x =
    absurd (omega arith)
fork-Queue fuel esp ebp eip directory a id p m (t ∷ ts) some_task enough q d clear null fits i dir e
      b x =
    let made = make_task m a id directory in
    let last = (task_at (t ∷ ts) (length ts)).address in
    let apart : Beside a last = Clear-at a (t ∷ ts) (length ts) (omega arith) clear in
    let made_queue : Queue made p (t ∷ ts) =
      Queue-same m made p (t ∷ ts)
        (Clear-Same m made a (t ∷ ts) (make_task-outside m a id directory) clear) q in
    let (v, end) = child-IsTask m a last id esp ebp eip directory null fits i dir e b x apart in
    let (_, _, _, link) = ready-words made a last esp ebp eip apart fits e b x in
    (
      last,
      find_last_lem fuel made p t ts (omega arith) made_queue,
      Queue-extend made (ready made a last esp ebp eip) p t ts (child m a id esp ebp eip directory)
          d clear (λ n h k. ready-outside made a last esp ebp eip n (omega arith) (omega arith))
          link v end made_queue,
      v.id,
    )

-- Where `clone_directory` and `kmalloc` deliver and leave the tasks alone, the new `task_t` lies apart
-- from the others, and there is fuel for the queue: `fork` returns the next process id to the parent,
-- and the queue has one task more, at its end, with that id, the parent's registers and the cloned
-- directory; the parent keeps running, and no other task changes. The new task has the kernel stack
-- that its memory happened to hold. To whomever else `fork` returns, it returns 0.
pub fork_refines :
    (clone_directory : (src : ℕ) → Kernel → Outcome (ℕ × Kernel))
    (kmalloc : (sz : ℕ) → Kernel → Outcome (ℕ × Kernel)) (fuel esp ebp eip directory a : ℕ)
    (t : Tasking) (s : Schedule) (k1 k2 : Kernel)
    → Represents t s
    → clone_directory t.kernel.current_directory t.kernel ≡ ok (directory, k1)
    → kmalloc task_size k1 ≡ ok (a, k2)
    → Same t.kernel.memory k2.memory s.tasks
    → Clear a s.tasks
    → length s.tasks ≤ fuel
    → a ≢ 0
    → a < 2 ^ 32
    → t.next_pid < 2 ^ 32
    → directory < 2 ^ 32
    → esp < 2 ^ 32
    → ebp < 2 ^ 32
    → eip < 2 ^ 32
    → (t' : Tasking) × (fork clone_directory kmalloc fuel esp ebp eip t ≡ ok (t.next_pid, t'))
      × Represents t'
          (record s { tasks = s.tasks ++ child k2.memory a t.next_pid esp ebp eip directory ∷ [] })
      × (t'.next_pid ≡ u32 (t.next_pid + 1))
      × ((esp' ebp' eip' : ℕ) (u : Tasking)
          → u.current_task ≢ t.current_task
          → fork_return t.current_task a esp' ebp' eip' u ≡ (0, u))
unfolding fork_return
fork_refines clone_directory kmalloc fuel esp ebp eip directory a t s k1 k2 rep cloned got same
      clear enough null fits i dir e b x =
    let (last, found, queue, id) =
      fork-Queue fuel esp ebp eip directory a t.next_pid t.ready_queue k2.memory s.tasks
        (omega (arith, rep.place)) enough
        (Queue-same t.kernel.memory k2.memory t.ready_queue s.tasks same rep.queue) rep.distinct
        clear null fits i dir e b x in
    let new = child k2.memory a t.next_pid esp ebp eip directory in
    let made = make_task k2.memory a t.next_pid directory in
    let t' : Tasking = record t {
      kernel = record k2 { memory = ready made a last esp ebp eip };
      next_pid = u32 (t.next_pid + 1);
    } in
    (
      t',
      fork-eq clone_directory kmalloc fuel esp ebp eip directory a last t k1 k2 cloned got found
          ∙ ap (λ (n : ℕ). ok (n, t')) id,
      record {
        queue = queue;
        distinct = Distinct-append s.tasks new rep.distinct clear;
        place = omega (arith, rep.place, length-append s.tasks (new ∷ []));
        current =
            rep.current
            ∙ ap (λ (u : Task). u.address) (sym (task_at-append s.tasks new s.current rep.place));
      },
      refl,
      λ esp' ebp' eip' u other. ground (arith, other),
    )
