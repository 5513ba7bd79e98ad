-- ===== src/Task/Fork/Extend.antt =====
-- The queue with one task more at its end, and the loop of `fork` that looks for that end.
use fotix.Base.{
  ℕ, zero, suc, ◌+◌, ◌≤◌, ◌<◌, ◌≡◌, refl, sym, subst, arith, ◌⊎◌, List, [], ◌∷◌, ◌++◌, length, ok,
}
use fotix.Memory.{Memory, load32}
use fotix.Task.{task_next, find_last}
use fotix.Task.Schedule.{Task, task_at}
use fotix.Task.Queue.{
  IsTask, Queue, Beside, Clear, Distinct, SameTask, IsTask-same, Clear-at, same_next,
}

-- The end of the queue.
pub find_last_lem :
    (fuel : ℕ) (m : Memory) (p : ℕ) (t : Task) (ts : List Task)
    → length ts < fuel
    → Queue m p (t ∷ ts)
    → find_last fuel m p ≡ ok (task_at (t ∷ ts) (length ts)).address
unfolding find_last
find_last_lem zero m p t ts enough q = absurd (omega arith)
find_last_lem (suc fuel) m p t [] enough (at, v, q) = ground (arith, at, q)
find_last_lem (suc fuel) m p t (u ∷ ts) enough (at, v, q) =
    let there = q.1.null in
    let rest = find_last_lem fuel m (load32 m (task_next t.address)) u ts (omega arith) q in
    ground (arith, at, q.0, there, rest)

-- A memory that differs only in a new task and in the last `next`, which leads to it, holds the
-- longer queue.
pub Queue-extend :
    (m m' : Memory) (p : ℕ) (t : Task) (ts : List Task) (new : Task)
    → let last = (task_at (t ∷ ts) (length ts)).address in
      Distinct (t ∷ ts)
      → Clear new.address (t ∷ ts)
      → ((b : ℕ)
          → (b < last + 24) ⊎ (last + 28 ≤ b)
          → (b < new.address) ⊎ (new.address + 28 ≤ b)
          → m' b ≡ m b)
      → load32 m' (last + 24) ≡ new.address
      → IsTask m' new
      → load32 m' (new.address + 24) ≡ 0
      → Queue m p (t ∷ ts)
      → Queue m' p (t ∷ ts ++ new ∷ [])
Queue-extend m m' p t [] new d (c, _) same linked v end (at, w, q) =
    (at, IsTask-same m m' t (λ b p q. same b (omega arith) (omega arith)) w, (linked, v, end))
Queue-extend m m' p t (u ∷ ts) new ((b, bs), d) (c, cs) same linked v end (at, w, q) =
    let apart : Beside t.address (task_at (u ∷ ts) (length ts)).address =
      Clear-at t.address (u ∷ ts) (length ts) (omega arith) (b, bs) in
    let here : SameTask m m' t.address = (λ b p q. same b (omega arith) (omega arith)) in
    (
      at,
      IsTask-same m m' t (λ b p q. here b p (omega arith)) w,
      subst (λ (n : ℕ). Queue m' n (u ∷ ts ++ new ∷ [])) (sym (same_next m m' t.address here))
          (Queue-extend m m' (load32 m (task_next t.address)) u ts new d cs same linked v end q),
    )

pub Clear-end :
    (a : ℕ) (ts : List Task) (u : Task) → Clear a ts → Beside a u.address → Clear a (ts ++ u ∷ [])
Clear-end a [] u c b = (b, tt)
Clear-end a (t ∷ ts) u (c, cs) b = (c, Clear-end a ts u cs b)

pub Distinct-append :
    (ts : List Task) (u : Task) → Distinct ts → Clear u.address ts → Distinct (ts ++ u ∷ [])
Distinct-append [] u d c = (tt, tt)
Distinct-append (t ∷ ts) u (b, d) (c, cs) =
    (Clear-end t.address ts u b (omega arith), Distinct-append ts u d cs)

pub task_at-append :
    (ts : List Task) (u : Task) (i : ℕ) → i < length ts → task_at (ts ++ u ∷ []) i ≡ task_at ts i
task_at-append [] u i h = absurd (omega arith)
task_at-append (t ∷ ts) u zero h = refl
task_at-append (t ∷ ts) u (suc i) h = task_at-append ts u i (omega arith)
