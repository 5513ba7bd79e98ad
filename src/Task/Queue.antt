-- ===== src/Task/Queue.antt =====
-- The ready queue in memory: a chain of tasks through their `next` fields, none overlapping another.
use fotix.Base.{
  ℕ, zero, suc, ◌+◌, ◌^◌, ◌≤◌, ◌<◌, ◌≡◌, ◌≢◌, sym, ap, ◌∙◌, arith, ◌⊎◌, List, [], ◌∷◌, length,
  subst, set,
}
use fotix.Memory.{Memory, load32, store32}
use fotix.Memory.Words.{load32-store32, load32-store32_apart, load32-same, store32-outside}
use fotix.Task.{
  task_id, task_esp, task_ebp, task_eip, task_page_directory, task_kernel_stack, task_next, save,
}
use fotix.Task.Schedule.{Task, task_at, saved}

-- The `task_t` of a task, but for its `next`.
pub record IsTask (m : Memory) (t : Task) : Type 0 where
  pub null : t.address ≢ 0
  pub id : load32 m (task_id t.address) ≡ t.id
  pub esp : load32 m (task_esp t.address) ≡ t.esp
  pub ebp : load32 m (task_ebp t.address) ≡ t.ebp
  pub eip : load32 m (task_eip t.address) ≡ t.eip
  pub page_directory : load32 m (task_page_directory t.address) ≡ t.page_directory
  pub kernel_stack : load32 m (task_kernel_stack t.address) ≡ t.kernel_stack

-- From `p` the `next` fields lead through the tasks to the null pointer.
abbrev pub Queue : Memory → (p : ℕ) → List Task → Type 0
Queue m p [] = p ≡ 0
Queue m p (t ∷ ts) = (p ≡ t.address) × IsTask m t × Queue m (load32 m (task_next t.address)) ts

abbrev pub Beside : (a b : ℕ) → Type 0
Beside a b = (a + 28 ≤ b) ⊎ (b + 28 ≤ a)

-- No task of a list overlaps the one at `a`; and no two overlap.
abbrev pub Clear : (a : ℕ) → List Task → Type 0
Clear a [] = Unit
Clear a (t ∷ ts) = Beside a t.address × Clear a ts

abbrev pub Distinct : List Task → Type 0
Distinct [] = Unit
Distinct (t ∷ ts) = Clear t.address ts × Distinct ts

-- The bytes of the task at `a`, and of all tasks of a list, are the same in both memories.
abbrev pub SameTask : (m m' : Memory) (a : ℕ) → Type 0
SameTask m m' a = (b : ℕ) → a ≤ b → b < a + 28 → m' b ≡ m b

abbrev pub Same : (m m' : Memory) → List Task → Type 0
Same m m' [] = Unit
Same m m' (t ∷ ts) = SameTask m m' t.address × Same m m' ts

-- The `task_t` but for its `next` is as before where its first 24 bytes are.
pub IsTask-same :
    (m m' : Memory) (t : Task)
    → ((b : ℕ) → t.address ≤ b → b < t.address + 24 → m' b ≡ m b)
    → IsTask m t
    → IsTask m' t
IsTask-same m m' t same v =
    let word : (o : ℕ) → o + 4 ≤ 24 → load32 m' (t.address + o) ≡ load32 m (t.address + o) =
      (λ o h. load32-same m m' (t.address + o) (λ b p q. same b (omega arith) (omega arith))) in
    record {
      null = v.null;
      id = load32-same m m' t.address (λ b p q. same b (omega arith) (omega arith)) ∙ v.id;
      esp = word 4 (omega arith) ∙ v.esp;
      ebp = word 8 (omega arith) ∙ v.ebp;
      eip = word 12 (omega arith) ∙ v.eip;
      page_directory = word 16 (omega arith) ∙ v.page_directory;
      kernel_stack = word 20 (omega arith) ∙ v.kernel_stack;
    }

pub same_next :
    (m m' : Memory) (a : ℕ) → SameTask m m' a → load32 m' (task_next a) ≡ load32 m (task_next a)
same_next m m' a same = load32-same m m' (a + 24) (λ b p q. same b (omega arith) (omega arith))

pub Queue-same :
    (m m' : Memory) (p : ℕ) (ts : List Task) → Same m m' ts → Queue m p ts → Queue m' p ts
Queue-same m m' p [] same q = q
Queue-same m m' p (t ∷ ts) (here, rest) (at, v, q) = (
  at,
  IsTask-same m m' t (λ b p q. here b p (omega arith)) v,
  subst (λ (n : ℕ). Queue m' n ts) (sym (same_next m m' t.address here))
      (Queue-same m m' (load32 m (task_next t.address)) ts rest q),
)

-- A write to one task spares the others.
pub Clear-Same :
    (m m' : Memory) (a : ℕ) (ts : List Task)
    → ((b : ℕ) → (b < a) ⊎ (a + 28 ≤ b) → m' b ≡ m b)
    → Clear a ts
    → Same m m' ts
Clear-Same m m' a [] outside c = tt
Clear-Same m m' a (t ∷ ts) outside (c, cs) =
    ((λ b p q. outside b (omega arith)), Clear-Same m m' a ts outside cs)

pub save-outside :
    (m : Memory) (a esp ebp eip b : ℕ) → (b < a + 4) ⊎ (a + 16 ≤ b) → save m a esp ebp eip b ≡ m b
unfolding save
save-outside m a esp ebp eip b h =
    let m1 = store32 m (a + 12) eip in
    let m2 = store32 m1 (a + 4) esp in
    store32-outside m2 (a + 8) ebp b (omega arith)
    ∙ store32-outside m1 (a + 4) esp b (omega arith)
    ∙ store32-outside m (a + 12) eip b (omega arith)

saved_word :
    (m : Memory) (a esp ebp eip o : ℕ)
    → (o + 4 ≤ 4) ⊎ (16 ≤ o)
    → load32 (save m a esp ebp eip) (a + o) ≡ load32 m (a + o)
saved_word m a esp ebp eip o h =
    load32-same m (save m a esp ebp eip) (a + o)
      (λ b p q. save-outside m a esp ebp eip b (omega arith))

save-IsTask :
    (m : Memory) (t : Task) (esp ebp eip : ℕ)
    → esp < 2 ^ 32
    → ebp < 2 ^ 32
    → eip < 2 ^ 32
    → IsTask m t
    → IsTask (save m t.address esp ebp eip) (saved esp ebp eip t)
unfolding save
save-IsTask m t esp ebp eip p q r v =
    let a = t.address in
    let m1 = store32 m (a + 12) eip in
    let m2 = store32 m1 (a + 4) esp in
    record {
      null = v.null;
      id =
          load32-same m (save m a esp ebp eip) a
            (λ b p q. save-outside m a esp ebp eip b (omega arith))
          ∙ v.id;
      esp =
          load32-store32_apart m2 (a + 8) ebp (a + 4) (omega arith)
          ∙ load32-store32 m1 (a + 4) esp p;
      ebp = load32-store32 m2 (a + 8) ebp q;
      eip =
          load32-store32_apart m2 (a + 8) ebp (a + 12) (omega arith)
          ∙ load32-store32_apart m1 (a + 4) esp (a + 12) (omega arith)
          ∙ load32-store32 m (a + 12) eip r;
      page_directory = saved_word m a esp ebp eip 16 (omega arith) ∙ v.page_directory;
      kernel_stack = saved_word m a esp ebp eip 20 (omega arith) ∙ v.kernel_stack;
    }

pub Clear-at :
    (a : ℕ) (ts : List Task) (i : ℕ) → i < length ts → Clear a ts → Beside a (task_at ts i).address
Clear-at a [] i h c = absurd (omega arith)
Clear-at a (t ∷ ts) zero h (c, cs) = c
Clear-at a (t ∷ ts) (suc i) h (c, cs) = Clear-at a ts i (omega arith) cs

-- Saving the registers of the task at place `i` changes the queue at that place alone.
pub Queue-save :
    (m : Memory) (p : ℕ) (ts : List Task) (i esp ebp eip : ℕ)
    → i < length ts
    → esp < 2 ^ 32
    → ebp < 2 ^ 32
    → eip < 2 ^ 32
    → Distinct ts
    → Queue m p ts
    → Queue
        (save m (task_at ts i).address esp ebp eip)
        p
        (set ts i (saved esp ebp eip (task_at ts i)))
Queue-save m p [] i esp ebp eip h e b x d q = absurd (omega arith)
Queue-save m p (t ∷ ts) zero esp ebp eip h e b x (c, d) (at, v, q) =
    let m' = save m t.address esp ebp eip in
    (
      at,
      save-IsTask m t esp ebp eip e b x v,
      subst (λ (n : ℕ). Queue m' n ts) (sym (saved_word m t.address esp ebp eip 24 (omega arith)))
          (Queue-same m m' (load32 m (task_next t.address)) ts
            (Clear-Same m m' t.address ts
              (λ b h. save-outside m t.address esp ebp eip b (omega arith)) c)
            q),
    )
Queue-save m p (t ∷ ts) (suc i) esp ebp eip h e b x (c, d) (at, v, q) =
    let a = (task_at ts i).address in
    let m' = save m a esp ebp eip in
    let apart = Clear-at t.address ts i (omega arith) c in
    let same : SameTask m m' t.address = (λ b p q. save-outside m a esp ebp eip b (omega arith)) in
    (
      at,
      IsTask-same m m' t (λ b p q. same b p (omega arith)) v,
      subst (λ (n : ℕ). Queue m' n (set ts i (saved esp ebp eip (task_at ts i))))
          (sym (same_next m m' t.address same))
          (Queue-save m (load32 m (task_next t.address)) ts i esp ebp eip (omega arith) e b x d q),
    )

-- What the queue says of the task at place `i`, and of its `next`.
pub Queue-at :
    (m : Memory) (p : ℕ) (ts : List Task) (i : ℕ)
    → i < length ts
    → Queue m p ts
    → IsTask m (task_at ts i)
      × (load32 m (task_next (task_at ts i).address) ≡ (task_at ts (i + 1)).address)
Queue-at m p [] i h q = absurd (omega arith)
Queue-at m p (t ∷ []) zero h (at, v, q) = (v, q)
Queue-at m p (t ∷ u ∷ ts) zero h (at, v, (at', w, q)) = (v, at')
Queue-at m p (t ∷ ts) (suc i) h (at, v, q) =
    let (w, following) = Queue-at m (load32 m (task_next t.address)) ts i (omega arith) q in
    (w, following ∙ ap (λ (n : ℕ). (task_at (t ∷ ts) n).address) {x = suc (i + 1)} (omega arith))

pub Queue-head : (m : Memory) (p : ℕ) (ts : List Task) → Queue m p ts → p ≡ (task_at ts 0).address
Queue-head m p [] q = q
Queue-head m p (t ∷ ts) (at, v, q) = at
