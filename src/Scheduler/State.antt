-- ===== src/Scheduler/State.antt =====
-- src/sched/scheduler.rs: the scheduler's state and the creation of tasks. An `Arc<Mutex<Task>>` is
-- a number, its task is what `tasks` holds there, and locking it is a read or a write of that
-- cell: the kernel runs on one processor with the scheduler behind `&mut`, so no lock is
-- contended.
use Prim.Native.String.{String}
use delta_os.Base.{ℕ, suc, Bool, false, Option, none, List, [], ◌∷◌, ◌++◌, if◌then◌else◌, ◌==◌}
use delta_os.Base.Word.{add64}
use delta_os.Task.{
  Task, TaskPriority, low, SavedRegisters, no_registers, Machine, new_kernel, new_user,
  new_kernel_with_priority, new_kernel_background, setup_initial_stack,
}

abbrev pub Ref : Type 0
Ref = ℕ

-- The fields of `Scheduler`, and what it works on: the tasks that references point to (those
-- below `allocated` have been made), the statics of task.rs, the timer's TICK_COUNT, the
-- processor's callee-saved registers and DUMMY_REGS.
pub record Scheduler : Type 0 where
  pub ready_queue : List Ref
  pub current : Option Ref
  pub all_tasks : List Ref
  pub task_count : ℕ
  pub tick_count : ℕ
  pub need_reschedule : Bool
  pub preempt_enabled : Bool
  pub scheduler_ticks : ℕ
  pub context_switches : ℕ
  pub tasks : Ref → Task
  pub allocated : ℕ
  pub machine : Machine
  pub timer_ticks : ℕ
  pub cpu : SavedRegisters
  pub dummy_regs : SavedRegisters

-- `*arc.lock() = task`.
unfoldable pub put : (Ref → Task) → Ref → Task → Ref → Task
put tasks r t q = if r == q then t else tasks q

abbrev pub put_task : Scheduler → Ref → Task → Scheduler
put_task s r t = record s { tasks = put s.tasks r t }

abbrev pub push_ready : Scheduler → Ref → Scheduler
push_ready s r = record s { ready_queue = s.ready_queue ++ r ∷ [] }

-- `Scheduler::new`, on a machine where no task has been made; `blank` is what the unused cells
-- hold.
unfoldable pub new : Machine → Task → Scheduler
new m blank = record {
  ready_queue = [];
  current = none;
  all_tasks = [];
  task_count = 0;
  tick_count = 0;
  need_reschedule = false;
  preempt_enabled = false;
  scheduler_ticks = 0;
  context_switches = 0;
  tasks = λ r. blank;
  allocated = 0;
  machine = m;
  timer_ticks = 0;
  cpu = no_registers;
  dummy_regs = no_registers;
}

-- The part that the four `create_` functions share once the task is made: its first frame, its
-- start tick, an `Arc` for it, and its places in the queue and the table.
unfoldable pub enlist : Scheduler → Task × Machine → ℕ × Scheduler
unfolding put
enlist s (task, m) =
    let (framed, mem) = setup_initial_stack task m.memory in
    let r = s.allocated in
    (
      task.id,
      record s {
        ready_queue = s.ready_queue ++ r ∷ [];
        all_tasks = s.all_tasks ++ r ∷ [];
        task_count = add64 s.task_count 1;
        tasks = put s.tasks r (record framed { start_tick = s.timer_ticks });
        allocated = suc r;
        machine = record m { memory = mem };
      },
    )

unfoldable pub create_kernel_task : Scheduler → ℕ → String → ℕ × Scheduler
unfolding enlist
create_kernel_task s entry name = enlist s (new_kernel s.machine entry name)

unfoldable pub create_kernel_task_with_priority :
    Scheduler → ℕ → String → TaskPriority → ℕ × Scheduler
unfolding enlist
create_kernel_task_with_priority s entry name p =
    enlist s (new_kernel_with_priority s.machine entry name p)

unfoldable pub create_background_task : Scheduler → ℕ → String → ℕ × Scheduler
unfolding enlist
create_background_task s entry name = enlist s (new_kernel_background s.machine entry name)

unfoldable pub create_user_task : Scheduler → ℕ → String → ℕ × Scheduler
unfolding enlist
create_user_task s entry name = enlist s (new_user s.machine entry name)

-- `idle_addr` is the address of the function `idle_task`.
unfoldable pub create_idle_task : Scheduler → ℕ → ℕ × Scheduler
unfolding create_kernel_task_with_priority
create_idle_task s idle_addr = create_kernel_task_with_priority s idle_addr "idle" low
