-- ===== src/Task/Rounds.antt =====
-- The round robin: how long a task waits, and what it finds when it runs again.
use fotix.Base.{
  ℕ, ◌+◌, ◌-◌, ◌^◌, ◌≤◌, ◌<◌, ◌≡◌, ◌≢◌, refl, sym, ap, subst, ◌∙◌, arith, some, List, [], ◌∷◌,
  length, length-set, get_or-set_ne, leb, if◌then◌else◌,
}
use fotix.Memory.{Memory}
use fotix.Task.{Tasking, Registers, resumed, switch_task, with_memory}
use fotix.Task.Schedule.{Task, Schedule, no_task, task_at, running, saved, switched}
use fotix.Task.Queue.{Same, Queue-same}
use fotix.Task.Switch.{Represents, Resumes, switch_task_refines}

-- A turn of a task: the memory and the registers when the timer fires.
pub record Slice : Type 0 where
  pub memory : Memory
  pub esp : ℕ
  pub ebp : ℕ
  pub eip : ℕ

abbrev pub tick : Slice → Tasking → Tasking
tick l t = (switch_task l.esp l.ebp l.eip (with_memory t l.memory)).0

abbrev pub ticks : List Slice → Tasking → Tasking
ticks [] t = t
ticks (l ∷ ls) t = ticks ls (tick l t)

abbrev pub switches : List Slice → Schedule → Schedule
switches [] s = s
switches (l ∷ ls) s = switches ls (switched l.esp l.ebp l.eip s)

-- The task leaves the structures of the queue alone, holds words in its registers, and is not in the
-- middle of a switch.
pub record IsSlice (t : Tasking) (s : Schedule) (l : Slice) : Type 0 where
  pub same : Same t.kernel.memory l.memory s.tasks
  pub esp : l.esp < 2 ^ 32
  pub ebp : l.ebp < 2 ^ 32
  pub eip : l.eip < 2 ^ 32
  pub fresh : l.eip ≢ resumed

abbrev pub AreSlices : Tasking → Schedule → List Slice → Type 0
AreSlices t s [] = Unit
AreSlices t s (l ∷ ls) = IsSlice t s l × AreSlices (tick l t) (switched l.esp l.ebp l.eip s) ls

-- The places of a round of `n` from `i` on to `j`.
abbrev pub distance : (n i j : ℕ) → ℕ
distance n i j = if leb i j then j - i else n + j - i

works-Represents :
    (t : Tasking) (s : Schedule) (m : Memory)
    → Same t.kernel.memory m s.tasks
    → Represents t s
    → Represents (with_memory t m) s
works-Represents t s m same rep = record {
  queue = Queue-same t.kernel.memory m t.ready_queue s.tasks same rep.queue;
  distinct = rep.distinct;
  place = rep.place;
  current = rep.current;
}

pub tick-Represents :
    (t : Tasking) (s : Schedule) (l : Slice)
    → IsSlice t s l
    → Represents t s
    → Represents (tick l t) (switched l.esp l.ebp l.eip s)
tick-Represents t s l ok rep =
    let (t', r, done, rep', resumes, pid) =
      switch_task_refines (with_memory t l.memory) s l.esp l.ebp l.eip
        (works-Represents t s l.memory ok.same rep) ok.esp ok.ebp ok.eip ok.fresh in
    subst (λ t. Represents t (switched l.esp l.ebp l.eip s)) (sym (ap (λ p. p.0) done)) rep'

ticks-Represents :
    (ls : List Slice) (t : Tasking) (s : Schedule)
    → AreSlices t s ls
    → Represents t s
    → Represents (ticks ls t) (switches ls s)
ticks-Represents [] t s ok rep = rep
ticks-Represents (l ∷ ls) t s (ok, oks) rep =
    ticks-Represents ls (tick l t) (switched l.esp l.ebp l.eip s) oks (tick-Represents t s l ok rep)

-- A tick brings every other place one nearer and leaves its task alone.
distance-switched :
    (s : Schedule) (esp ebp eip j : ℕ)
    → s.current < length s.tasks
    → j < length s.tasks
    → 0 < distance (length s.tasks) s.current j
    → let s' = switched esp ebp eip s in
      (distance (length s'.tasks) s'.current j + 1 ≡ distance (length s.tasks) s.current j)
      × (task_at s'.tasks j ≡ task_at s.tasks j)
      × (s'.current < length s'.tasks)
      × (j < length s'.tasks)
distance-switched s esp ebp eip j place h far =
    let n = length-set s.tasks s.current (saved esp ebp eip (running s)) in
    (
      ground (arith, n),
      get_or-set_ne s.tasks s.current j (saved esp ebp eip (running s)) no_task
          (λ e. ground (arith, far, e)),
      ground (arith, n),
      omega (arith, n),
    )

switches-distance :
    (ls : List Slice) (s : Schedule) (j : ℕ)
    → s.current < length s.tasks
    → j < length s.tasks
    → length ls ≤ distance (length s.tasks) s.current j
    → let s' = switches ls s in
      (distance (length s'.tasks) s'.current j + length ls ≡ distance (length s.tasks) s.current j)
      × (task_at s'.tasks j ≡ task_at s.tasks j)
      × (s'.current < length s'.tasks)
      × (j < length s'.tasks)
switches-distance [] s j place h near = (omega arith, refl, place, h)
switches-distance (l ∷ ls) s j place h near =
    let (nearer, same, place', h') =
      distance-switched s l.esp l.ebp l.eip j place h (omega arith) in
    let (rest, same', place'', h'') =
      switches-distance ls (switched l.esp l.ebp l.eip s) j place' h' (omega (arith, nearer)) in
    (omega (arith, nearer, rest), same' ∙ same, place'', h'')

-- Every task of the queue runs again. The task at place `j` of a round of `n`, `d` places behind the
-- running one, is entered by the `d`-th tick from now on, fewer than `n`, with the registers, the
-- page directory and the kernel stack that it had, whatever the tasks before it do with memory
-- outside the queue; the queue keeps its tasks and their order.
pub round_robin :
    (t : Tasking) (s : Schedule) (ls : List Slice) (last : Slice) (j : ℕ)
    → Represents t s
    → j < length s.tasks
    → length ls + 1 ≡ distance (length s.tasks) s.current j
    → AreSlices t s ls
    → IsSlice (ticks ls t) (switches ls s) last
    → (t' : Tasking) × (r : Registers) × (switch_task last.esp last.ebp last.eip
          (with_memory (ticks ls t) last.memory)
        ≡ (t', some r))
      × Represents t' (switched last.esp last.ebp last.eip (switches ls s))
      × (t'.current_task ≡ (task_at s.tasks j).address)
      × Resumes t' r (task_at s.tasks j)
      × (length ls + 1 < length s.tasks)
round_robin t s ls last j rep h wait ok end =
    let s1 = switches ls s in
    let (near, same, place, h1) = switches-distance ls s j rep.place h (omega (arith, wait)) in
    let one : distance (length s1.tasks) s1.current j ≡ 1 = omega (arith, near, wait) in
    let (zero_away, same', place', h2) =
      distance-switched s1 last.esp last.ebp last.eip j place h1 (omega (arith, one)) in
    let s2 = switched last.esp last.ebp last.eip s1 in
    let here : s2.current ≡ j = ground (arith, zero_away, one, place', h2) in
    let same_task : running s2 ≡ task_at s.tasks j = ap (task_at s2.tasks) here ∙ same' ∙ same in
    let (t', r, done, rep', resumes, pid) =
      switch_task_refines (with_memory (ticks ls t) last.memory) s1 last.esp last.ebp last.eip
        (works-Represents (ticks ls t) s1 last.memory end.same (ticks-Represents ls t s ok rep))
        end.esp end.ebp end.eip end.fresh in
    (
      t',
      r,
      done,
      rep',
      rep'.current ∙ ap (λ (u : Task). u.address) same_task,
      subst (Resumes t' r) same_task resumes,
      ground (arith, wait, rep.place, h),
    )
