-- ===== src/Task/States.antt =====
-- Two concrete states of the tasks: before `initialise_tasking`, and with two tasks.
use fotix.Base.{refl, arith, inl, false, none, [], ◌∷◌}
use fotix.Memory.{Memory, load8, load32, store8, store32}
use fotix.Kernel.{Kernel}
use fotix.Task.{Tasking}
use fotix.Task.Schedule.{Schedule}
use fotix.Task.Switch.{Represents}

-- Every byte is 1, so that every page has a frame.
abbrev pub kernel : Kernel
kernel = record {
  memory = λ b. 1;
  placement_address = 0x9000;
  heap_ready = false;
  kheap = record {
    index = record { array = 0; size = 0; max_size = 0; less_than = none };
    start_address = 0;
    end_address = 0;
    max_address = 0;
    supervisor = false;
    readonly = false;
  };
  frame_set = record { frames = 0; nframes = 0 };
  kernel_directory = 0x4000;
  current_directory = 0x4000;
}

abbrev pub booted : Tasking
booted = record { kernel = kernel; current_task = 0; ready_queue = 0; next_pid = 1; esp0 = 0 }

-- Two tasks, 1 at 0x1000 and 2 at 0x1020; the first runs, and the second was left at 0x500.
abbrev pub two_in_memory : Memory
two_in_memory =
    store32 (store32 (store32 (store32 (λ b. 0) 0x1000 1) 0x1018 0x1020) 0x1020 2) 0x102C 0x500

abbrev pub two : Tasking
two = record booted {
  kernel = record kernel { memory = two_in_memory };
  current_task = 0x1000;
  ready_queue = 0x1000;
  next_pid = 3;
}

abbrev pub two_tasks : Schedule
two_tasks = record {
  tasks =
      record {
        address = 0x1000;
        id = 1;
        esp = 0;
        ebp = 0;
        eip = 0;
        page_directory = 0;
        kernel_stack = 0;
      }
      ∷ record {
        address = 0x1020;
        id = 2;
        esp = 0;
        ebp = 0;
        eip = 0x500;
        page_directory = 0;
        kernel_stack = 0;
      }
      ∷ [];
  current = 0;
}

pub two-Represents : Represents two two_tasks
unfolding load32 load8 store32 store8
two-Represents = record {
  queue = (
    refl,
    record {
      null = λ e. absurd (omega arith);
      id = refl;
      esp = refl;
      ebp = refl;
      eip = refl;
      page_directory = refl;
      kernel_stack = refl;
    },
    (
      refl,
      record {
        null = λ e. absurd (omega arith);
        id = refl;
        esp = refl;
        ebp = refl;
        eip = refl;
        page_directory = refl;
        kernel_stack = refl;
      },
      refl,
    ),
  );
  distinct = ((inl (omega arith), tt), (tt, tt));
  place = omega arith;
  current = refl;
}
