-- ===== src/Task/Fork/Ready.antt =====
-- The `task_t` that `fork` makes, and what it holds when the parent returns.
use fotix.Base.{ℕ, ◌+◌, ◌^◌, ◌≤◌, ◌<◌, ◌≡◌, ◌≢◌, ◌∙◌, arith, ◌⊎◌}
use fotix.Memory.{Memory, load32, store32}
use fotix.Memory.Words.{load32-store32, load32-store32_apart, load32-same, store32-outside}
use fotix.Task.{make_task}
use fotix.Task.Schedule.{Task}
use fotix.Task.Queue.{IsTask, Beside}

-- The words of a task that was just made.
module _ (m : Memory) (task id directory : ℕ) where
  pub make_task-words :
      id < 2 ^ 32
      → directory < 2 ^ 32
      → let m' = make_task m task id directory in
        (load32 m' task ≡ id)
        × (load32 m' (task + 16) ≡ directory)
        × (load32 m' (task + 20) ≡ load32 m (task + 20))
        × (load32 m' (task + 24) ≡ 0)
  unfolding make_task
  make_task-words p q =
      let m1 = store32 m task id in
      let m2 = store32 m1 (task + 4) 0 in
      let m3 = store32 m2 (task + 8) 0 in
      let m4 = store32 m3 (task + 12) 0 in
      let m5 = store32 m4 (task + 16) directory in
      (
        load32-store32_apart m5 (task + 24) 0 task (omega arith)
            ∙ load32-store32_apart m4 (task + 16) directory task (omega arith)
            ∙ load32-store32_apart m3 (task + 12) 0 task (omega arith)
            ∙ load32-store32_apart m2 (task + 8) 0 task (omega arith)
            ∙ load32-store32_apart m1 (task + 4) 0 task (omega arith)
            ∙ load32-store32 m task id (omega arith),
        load32-store32_apart m5 (task + 24) 0 (task + 16) (omega arith)
            ∙ load32-store32 m4 (task + 16) directory (omega arith),
        load32-store32_apart m5 (task + 24) 0 (task + 20) (omega arith)
            ∙ load32-store32_apart m4 (task + 16) directory (task + 20) (omega arith)
            ∙ load32-store32_apart m3 (task + 12) 0 (task + 20) (omega arith)
            ∙ load32-store32_apart m2 (task + 8) 0 (task + 20) (omega arith)
            ∙ load32-store32_apart m1 (task + 4) 0 (task + 20) (omega arith)
            ∙ load32-store32_apart m task id (task + 20) (omega arith),
        load32-store32 m5 (task + 24) 0 (omega arith),
      )

  pub make_task-registers :
      let m' = make_task m task id directory in
      (load32 m' (task + 4) ≡ 0) × (load32 m' (task + 8) ≡ 0) × (load32 m' (task + 12) ≡ 0)
  unfolding make_task
  make_task-registers =
      let m1 = store32 m task id in
      let m2 = store32 m1 (task + 4) 0 in
      let m3 = store32 m2 (task + 8) 0 in
      let m4 = store32 m3 (task + 12) 0 in
      let m5 = store32 m4 (task + 16) directory in
      (
        load32-store32_apart m5 (task + 24) 0 (task + 4) (omega arith)
            ∙ load32-store32_apart m4 (task + 16) directory (task + 4) (omega arith)
            ∙ load32-store32_apart m3 (task + 12) 0 (task + 4) (omega arith)
            ∙ load32-store32_apart m2 (task + 8) 0 (task + 4) (omega arith)
            ∙ load32-store32 m1 (task + 4) 0 (omega arith),
        load32-store32_apart m5 (task + 24) 0 (task + 8) (omega arith)
            ∙ load32-store32_apart m4 (task + 16) directory (task + 8) (omega arith)
            ∙ load32-store32_apart m3 (task + 12) 0 (task + 8) (omega arith)
            ∙ load32-store32 m2 (task + 8) 0 (omega arith),
        load32-store32_apart m5 (task + 24) 0 (task + 12) (omega arith)
            ∙ load32-store32_apart m4 (task + 16) directory (task + 12) (omega arith)
            ∙ load32-store32 m3 (task + 12) 0 (omega arith),
      )

  pub make_task-outside :
      (b : ℕ) → (b < task) ⊎ (task + 28 ≤ b) → make_task m task id directory b ≡ m b
  unfolding make_task
  make_task-outside b h =
      let m1 = store32 m task id in
      let m2 = store32 m1 (task + 4) 0 in
      let m3 = store32 m2 (task + 8) 0 in
      let m4 = store32 m3 (task + 12) 0 in
      let m5 = store32 m4 (task + 16) directory in
      store32-outside m5 (task + 24) 0 b (omega arith)
      ∙ store32-outside m4 (task + 16) directory b (omega arith)
      ∙ store32-outside m3 (task + 12) 0 b (omega arith)
      ∙ store32-outside m2 (task + 8) 0 b (omega arith)
      ∙ store32-outside m1 (task + 4) 0 b (omega arith)
      ∙ store32-outside m task id b (omega arith)

-- The words of the new task when its registers are in place.
module _ (m : Memory) (a last esp ebp eip : ℕ) where
  abbrev linked : Memory
  linked = store32 m (last + 24) a

  abbrev pub ready : Memory
  ready = store32 (store32 (store32 linked (a + 4) esp) (a + 8) ebp) (a + 12) eip

  pub ready-words :
      Beside a last
      → a < 2 ^ 32
      → esp < 2 ^ 32
      → ebp < 2 ^ 32
      → eip < 2 ^ 32
      → (load32 ready (a + 4) ≡ esp)
        × (load32 ready (a + 8) ≡ ebp)
        × (load32 ready (a + 12) ≡ eip)
        × (load32 ready (last + 24) ≡ a)
  ready-words h p q r s =
      let m1 = store32 linked (a + 4) esp in
      let m2 = store32 m1 (a + 8) ebp in
      (
        load32-store32_apart m2 (a + 12) eip (a + 4) (omega arith)
            ∙ load32-store32_apart m1 (a + 8) ebp (a + 4) (omega arith)
            ∙ load32-store32 linked (a + 4) esp q,
        load32-store32_apart m2 (a + 12) eip (a + 8) (omega arith)
            ∙ load32-store32 m1 (a + 8) ebp r,
        load32-store32 m2 (a + 12) eip s,
        load32-store32_apart m2 (a + 12) eip (last + 24) (omega arith)
            ∙ load32-store32_apart m1 (a + 8) ebp (last + 24) (omega arith)
            ∙ load32-store32_apart linked (a + 4) esp (last + 24) (omega arith)
            ∙ load32-store32 m (last + 24) a p,
      )

  pub ready-outside :
      (b : ℕ) → (b < a + 4) ⊎ (a + 16 ≤ b) → (b < last + 24) ⊎ (last + 28 ≤ b) → ready b ≡ m b
  ready-outside b h h' =
      let m1 = store32 linked (a + 4) esp in
      let m2 = store32 m1 (a + 8) ebp in
      store32-outside m2 (a + 12) eip b (omega arith)
      ∙ store32-outside m1 (a + 8) ebp b (omega arith)
      ∙ store32-outside linked (a + 4) esp b (omega arith)
      ∙ store32-outside m (last + 24) a b (omega arith)

  ready-word :
      Beside a last
      → (o : ℕ) → (o ≡ 0) ⊎ (16 ≤ o)
      → o + 4 ≤ 28
      → load32 ready (a + o) ≡ load32 m (a + o)
  ready-word apart o h k =
      load32-same m ready (a + o) (λ b p q. ready-outside b (omega arith) (omega arith))

-- The new task of a `fork`: it has the parent's registers, and the kernel stack that its memory held
-- before.
abbrev pub child : Memory → (address id esp ebp eip directory : ℕ) → Task
child m address id esp ebp eip directory = record {
  address = address;
  id = id;
  esp = esp;
  ebp = ebp;
  eip = eip;
  page_directory = directory;
  kernel_stack = load32 m (address + 20);
}

pub child-IsTask :
    (m : Memory) (a last id esp ebp eip directory : ℕ)
    → a ≢ 0
    → a < 2 ^ 32
    → id < 2 ^ 32
    → directory < 2 ^ 32
    → esp < 2 ^ 32
    → ebp < 2 ^ 32
    → eip < 2 ^ 32
    → Beside a last
    → let m' = ready (make_task m a id directory) a last esp ebp eip in
      IsTask m' (child m a id esp ebp eip directory) × (load32 m' (a + 24) ≡ 0)
child-IsTask m a last id esp ebp eip directory null fits i d e b x apart =
    let m1 = make_task m a id directory in
    let (made_id, made_dir, made_stack, made_next) = make_task-words m a id directory i d in
    let (r_esp, r_ebp, r_eip, _) = ready-words m1 a last esp ebp eip apart fits e b x in
    let kept = ready-word m1 a last esp ebp eip apart in
    (
      record {
        null = null;
        id =
            load32-same m1 (ready m1 a last esp ebp eip) a
              (λ n p q. ready-outside m1 a last esp ebp eip n (omega arith) (omega arith))
            ∙ made_id;
        esp = r_esp;
        ebp = r_ebp;
        eip = r_eip;
        page_directory = kept 16 (omega arith) (omega arith) ∙ made_dir;
        kernel_stack = kept 20 (omega arith) (omega arith) ∙ made_stack;
      },
      kept 24 (omega arith) (omega arith) ∙ made_next,
    )
