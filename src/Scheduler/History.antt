-- ===== src/Scheduler/History.antt =====
-- src/sched/scheduler.rs: the scheduler under any sequence of calls, from `Scheduler::new` on.
use Prim.Native.String.{String}
use delta_os.Base.{ℕ, ◌≡◌, ◌≢◌, refl, some}
use delta_os.Task.{
  Task, TaskPriority, ExitCode, Machine, new_kernel, new_user, new_kernel_with_priority,
  new_kernel_background,
}
use delta_os.Scheduler.State.{
  Ref, Scheduler, new, create_kernel_task, create_kernel_task_with_priority, create_background_task,
  create_user_task, create_idle_task,
}
use delta_os.Scheduler.Run.{schedule, tick, preempt_schedule}
use delta_os.Scheduler.Control.{
  block_current, find_task, has_id, unblock_task, terminate_current, terminate_task, signal_task,
  background_task, foreground_task, yield_current, enable_preemption, disable_preemption,
  cleanup_terminated,
}
use delta_os.Scheduler.Invariant.Defs.{Inv}
use delta_os.Scheduler.Invariant.Switch.{schedule-Inv, preempt_schedule-Inv}
use delta_os.Scheduler.Invariant.Keep.{
  enlist-Inv, tick-Inv, block_current-Inv, terminate_current-Inv, yield_current-Inv,
}
use delta_os.Scheduler.Invariant.Found.{
  MayQueue, unblock_task-Inv, terminate_task-Inv, signal_task-Inv, background_task-Inv,
  foreground_task-Inv, cleanup_terminated-Inv,
}

-- A call of a method that changes the scheduler.
pub data Call : Type 0 where
  creates_kernel creates_background creates_user : ℕ → String → Call
  creates_with_priority : ℕ → String → TaskPriority → Call
  creates_idle preempts unblocks backgrounds foregrounds : ℕ → Call
  schedules ticks blocks yields enables disables cleans : Call
  signals : ℕ → ℕ → Call
  terminates_current : ExitCode → Call
  terminates : ℕ → ExitCode → Call

unfoldable pub step : Scheduler → Call → Scheduler
step s (creates_kernel entry name) = (create_kernel_task s entry name).1
step s (creates_background entry name) = (create_background_task s entry name).1
step s (creates_user entry name) = (create_user_task s entry name).1
step s (creates_with_priority entry name p) = (create_kernel_task_with_priority s entry name p).1
step s (creates_idle addr) = (create_idle_task s addr).1
step s (preempts rsp) = (preempt_schedule s rsp).1
step s (terminates_current code) = terminate_current s code
step s (unblocks id) = (unblock_task s id).1
step s (backgrounds id) = (background_task s id).1
step s (foregrounds id) = (foreground_task s id).1
step s schedules = schedule s
step s ticks = tick s
step s blocks = block_current s
step s yields = yield_current s
step s enables = enable_preemption s
step s disables = disable_preemption s
step s cleans = cleanup_terminated s
step s (terminates id code) = (terminate_task s id code).1
step s (signals id n) = (signal_task s id n).1

-- Two calls are made only where they cannot queue a task twice or queue the current one: a task
-- is unblocked while another is current, and a stopped task is sent to the background while it
-- is neither ready nor current.
abbrev pub Allowed : Scheduler → Call → Type 0
Allowed s (unblocks id) = (r : Ref) → s.current ≡ some r → (s.tasks r).id ≢ id
Allowed s (backgrounds id) = MayQueue s (find_task (has_id id) s.tasks s.all_tasks)
Allowed s _ = Unit

pub new-Inv : (m : Machine) (blank : Task) → Inv (new m blank)
unfolding new
new-Inv m blank = record {
  queue = record { ready = tt; distinct = tt; made = tt };
  current = tt;
  table = tt;
}

pub step-Inv : {s : Scheduler} (c : Call) → Allowed s c → Inv s → Inv (step s c)
unfolding step create_kernel_task create_background_task create_user_task
    create_kernel_task_with_priority create_idle_task new_kernel new_user new_kernel_with_priority
    new_kernel_background enable_preemption disable_preemption
step-Inv (creates_kernel entry name) a v = enlist-Inv _ refl v
step-Inv (creates_background entry name) a v = enlist-Inv _ refl v
step-Inv (creates_user entry name) a v = enlist-Inv _ refl v
step-Inv (creates_with_priority entry name p) a v = enlist-Inv _ refl v
step-Inv (creates_idle addr) a v = enlist-Inv _ refl v
step-Inv (preempts rsp) a v = preempt_schedule-Inv rsp v
step-Inv (terminates_current code) a v = terminate_current-Inv _ v
step-Inv (unblocks id) a v = unblock_task-Inv id v a
step-Inv (backgrounds id) a v = background_task-Inv id v a
step-Inv (foregrounds id) a v = foreground_task-Inv id v
step-Inv schedules a v = schedule-Inv v
step-Inv ticks a v = tick-Inv v
step-Inv blocks a v = block_current-Inv v
step-Inv yields a v = yield_current-Inv v
step-Inv enables a v = record { queue = v.queue; current = v.current; table = v.table }
step-Inv disables a v = record { queue = v.queue; current = v.current; table = v.table }
step-Inv cleans a v = cleanup_terminated-Inv v
step-Inv (terminates id code) a v = terminate_task-Inv id _ v
step-Inv (signals id n) a v = signal_task-Inv id n v

-- The schedulers that allowed calls lead to.
pub data Reach (m : Machine) (blank : Task) : Scheduler → Type 0 where
  start : {s : Scheduler} → s ≡ new m blank → Reach m blank s
  call :
      {s t : Scheduler} (c : Call) → Reach m blank s → Allowed s c → t ≡ step s c → Reach m blank t

-- In every scheduler that a sequence of allowed calls leads to from `new`, the ready queue holds
-- ready tasks only, none of them twice, the current task is not in it, and all references point to
-- tasks that have been made. Every call is allowed but two: `unblock_task` for the id of the current
-- task, and `background_task` for the id of a task that is ready or current.
pub Reach-Inv : {m : Machine} {blank : Task} {s : Scheduler} → Reach m blank s → Inv s
Reach-Inv {m} {blank} (start e) = rw e (new-Inv m blank)
Reach-Inv (call c r a e) = rw e (step-Inv c a (Reach-Inv r))
