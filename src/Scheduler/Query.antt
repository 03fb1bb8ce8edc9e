-- ===== src/Scheduler/Query.antt =====
-- src/sched/scheduler.rs: the queries.
use Prim.Native.String.{String}
use delta_os.Base.{ℕ, Bool, Option, List, map, length}
use delta_os.Task.{
  Task, TaskState, TaskPriority, TaskType, TaskForeground, foreground, background, stopped,
  ExitCode, state_as_str, priority_as_str,
}
use delta_os.Scheduler.State.{Scheduler}
use mathlib.Core.Option
use delta_os.Scheduler.Control.{find_task, has_id}

pub record TaskInfo : Type 0 where
  pub id : ℕ
  pub name : String
  pub state : TaskState
  pub priority : TaskPriority
  pub task_type : TaskType
  pub mode : TaskForeground
  pub entry_point : ℕ
  pub cpu_ticks : ℕ
  pub exit_code : ExitCode

unfoldable pub info_of : Task → TaskInfo
info_of t = record {
  id = t.id;
  name = t.name;
  state = t.state;
  priority = t.priority;
  task_type = t.task_type;
  mode = t.mode;
  entry_point = t.entry_point;
  cpu_ticks = t.total_cpu_ticks;
  exit_code = t.exit_code;
}

unfoldable pub fg_str : TaskInfo → String
fg_str i = elim i.mode [ foreground ↦ "FG" | background ↦ "BG" | stopped ↦ "STP" ]

unfoldable pub state_str : TaskInfo → String
unfolding state_as_str
state_str i = state_as_str i.state

unfoldable pub priority_str : TaskInfo → String
unfolding priority_as_str
priority_str i = priority_as_str i.priority

unfoldable pub current_task_id : Scheduler → Option ℕ
current_task_id s = Option.map (λ r. (s.tasks r).id) s.current

unfoldable pub current_task_name : Scheduler → Option String
current_task_name s = Option.map (λ r. (s.tasks r).name) s.current

unfoldable pub get_task_info : Scheduler → ℕ → Option TaskInfo
unfolding find_task info_of
get_task_info s id =
    Option.map (λ r. info_of (s.tasks r)) (find_task (has_id id) s.tasks s.all_tasks)

unfoldable pub list_tasks : Scheduler → List TaskInfo
unfolding info_of
list_tasks s = map (λ r. info_of (s.tasks r)) s.all_tasks

pub record SchedulerStats : Type 0 where
  pub total_tasks : ℕ
  pub ready_tasks : ℕ
  pub tick_count : ℕ
  pub context_switches : ℕ
  pub preemption_enabled : Bool
  pub current_task : String

unfoldable pub stats : Scheduler → SchedulerStats
unfolding current_task_name
stats s = record {
  total_tasks = s.task_count;
  ready_tasks = length s.ready_queue;
  tick_count = s.tick_count;
  context_switches = s.context_switches;
  preemption_enabled = s.preempt_enabled;
  current_task = Option.get_or (current_task_name s) "none";
}
