-- ===== src/Tests/Samples.antt =====
-- A machine, tasks, a scheduler and an allocator to apply the theorems to.
use delta_os.Base.{ℕ, zero, suc, ◌+◌, ◌*◌, refl, true, false, none, some, [], ◌∷◌, arith}
use delta_os.Base.Bits.{bit, shl_one}
use delta_os.Task.{
  Machine, Task, TaskState, TaskForeground, ready, running, normal, kernel, foreground, ExitCode,
  no_registers, stack_region_start,
}
use delta_os.Scheduler.State.{Ref, Scheduler}
use delta_os.Scheduler.Invariant.Defs.{Inv}
use delta_os.Pmm.{Pmm, page_size, get_bit}
use delta_os.Pmm.Bitmap.{free_below}
use delta_os.Pmm.Pages.{IsPmm}

abbrev pub machine : Machine
machine = record { next_task_id = 1; next_stack = stack_region_start; memory = λ a. 0 }

-- A kernel task with two ticks left of its slice.
abbrev pub sample : ℕ → TaskState → TaskForeground → ℕ → Task
sample id st mode pending = record {
  id = id;
  name = "sample";
  state = st;
  priority = normal;
  task_type = kernel;
  mode = mode;
  stack_top = 0xA10000;
  kernel_stack = 0xA10000;
  entry_point = 0x200000;
  regs = no_registers;
  saved_rsp = 0xA0FF48;
  time_slice = 2;
  default_time_slice = 10;
  total_cpu_ticks = 0;
  start_tick = 0;
  exit_code = ExitCode.plus 0;
  parent_id = none;
  children = [];
  pml4_addr = 0;
  pgid = id;
  joining = false;
  pending_signals = pending;
  blocked_signals = 0;
}

-- The first task is as given, the others are ready.
abbrev pub three : Task → Ref → Task
three t zero = t
three t (suc r) = sample (r + 4) ready foreground 0

-- The first of three tasks is current, and the two others wait.
abbrev pub trio : Task → Scheduler
trio t = record {
  ready_queue = 1 ∷ 2 ∷ [];
  current = some 0;
  all_tasks = 0 ∷ 1 ∷ 2 ∷ [];
  task_count = 3;
  tick_count = 0;
  need_reschedule = false;
  preempt_enabled = true;
  scheduler_ticks = 0;
  context_switches = 0;
  tasks = three t;
  allocated = 3;
  machine = record { next_task_id = 7; next_stack = 0xA30000; memory = λ a. 0 };
  timer_ticks = 0;
  cpu = no_registers;
  dummy_regs = no_registers;
}

abbrev pub worker : Task
worker = sample 3 running foreground 0

pub trio-Inv : (t : Task) → Inv (trio t)
trio-Inv t = record {
  queue = record {
    ready = (refl, (refl, tt));
    distinct = ((omega arith, tt), (tt, tt));
    made = (omega arith, (omega arith, tt));
  };
  current = (omega arith, (omega arith, (omega arith, tt)));
  table = (omega arith, (omega arith, (omega arith, tt)));
}

-- Eight pages, of which the first and the third are taken.
abbrev pub eight : Pmm
eight = record {
  bitmap = 5 ∷ [];
  total_pages = 8;
  free_page_count = 6;
  base_addr = 0x100000;
  end_addr = 0x100000 + 8 * page_size;
}

pub eight-IsPmm : IsPmm eight
unfolding free_below get_bit bit shl_one
eight-IsPmm = record { counted = refl; covers = omega arith; range = refl; aligned = refl }
