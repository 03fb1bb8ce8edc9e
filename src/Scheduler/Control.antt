-- ===== src/Scheduler/Control.antt =====
-- src/sched/scheduler.rs: the process control operations and the queries.
use delta_os.Base.{
  ℕ, Bool, true, false, not, ◌&&◌, Option, none, some, List, [], ◌∷◌, map, if◌then◌else◌, leb, ◌==◌,
  retain,
}
use delta_os.Kernel.Result.{KernelResult, ok, err, invalid_argument, access_denied}
use delta_os.Task.{
  Task, ready, blocked, terminated, foreground, background, is_blocked, is_terminated,
  is_stopped_mode, is_foreground_mode, ExitCode, send_signal, sigcont,
}
use delta_os.Scheduler.State.{Ref, Scheduler, put, put_task, push_ready}
use delta_os.Scheduler.Run.{schedule}

unfoldable pub block_at : Scheduler → Option Ref → Scheduler
unfolding put
block_at s none = s
block_at s (some c) = record (put_task s c (record (s.tasks c) { state = blocked })) {
  need_reschedule = true;
}

unfoldable pub block_current : Scheduler → Scheduler
unfolding block_at
block_current s = block_at s s.current

-- The loops over `all_tasks` return at the first task that passes their test.
unfoldable pub find_task : (Task → Bool) → (Ref → Task) → List Ref → Option Ref
find_task test tasks [] = none
find_task test tasks (r ∷ rs) = if test (tasks r) then some r else find_task test tasks rs

abbrev pub has_id : ℕ → Task → Bool
has_id id t = t.id == id

abbrev pub is_blocked_with : ℕ → Task → Bool
is_blocked_with id t = (t.id == id) && is_blocked t.state

-- A fallible operation: what it returns, and the scheduler after it.
abbrev pub Outcome : Type 0
Outcome = KernelResult (Unit {0}) × Scheduler

unfoldable pub unblock_found : Scheduler → Option Ref → Outcome
unfolding put
unblock_found s none = (err invalid_argument, s)
unblock_found s (some r) = (
  ok tt,
  record (push_ready (put_task s r (record (s.tasks r) { state = ready })) r) {
    need_reschedule = true;
  },
)

unfoldable pub unblock_task : Scheduler → ℕ → Outcome
unfolding unblock_found find_task
unblock_task s id = unblock_found s (find_task (is_blocked_with id) s.tasks s.all_tasks)

unfoldable pub terminate_at : Scheduler → Option Ref → ExitCode → Scheduler
unfolding put
terminate_at s none code = s
terminate_at s (some c) code =
    put_task s c (record (s.tasks c) { state = terminated; exit_code = code })

unfoldable pub terminate_current : Scheduler → ExitCode → Scheduler
unfolding terminate_at
terminate_current s code =
    schedule (record (terminate_at s s.current code) { need_reschedule = true })

unfoldable pub terminate_found : Scheduler → ℕ → ExitCode → Option Ref → Outcome
unfolding put
terminate_found s id code none = (err invalid_argument, s)
terminate_found s id code (some r) =
    let marked = put_task s r (record (s.tasks r) { state = terminated; exit_code = code }) in
    (
      ok tt,
      record marked {
        need_reschedule = true;
        ready_queue = retain (λ q. not (has_id id (marked.tasks q))) marked.ready_queue;
      },
    )

unfoldable pub terminate_task : Scheduler → ℕ → ExitCode → Outcome
unfolding terminate_found find_task
terminate_task s id code =
    if leb id 2
    then (err access_denied, s)
    else terminate_found s id code (find_task (has_id id) s.tasks s.all_tasks)

-- The method `send_signal` of the scheduler.
unfoldable pub signal_found : Scheduler → ℕ → Option Ref → Outcome
unfolding put
signal_found s signal none = (err invalid_argument, s)
signal_found s signal (some r) = (ok tt, put_task s r (send_signal (s.tasks r) signal))

unfoldable pub signal_task : Scheduler → ℕ → ℕ → Outcome
unfolding signal_found find_task
signal_task s id signal = signal_found s signal (find_task (has_id id) s.tasks s.all_tasks)

unfoldable pub background_found : Scheduler → Option Ref → Outcome
unfolding put
background_found s none = (err invalid_argument, s)
background_found s (some r) =
    if not (is_stopped_mode (s.tasks r).mode)
    then (err invalid_argument, s)
    else let resumed =
        send_signal (record (s.tasks r) { mode = background; state = ready }) sigcont in
      (ok tt, record (push_ready (put_task s r resumed) r) { need_reschedule = true })

unfoldable pub background_task : Scheduler → ℕ → Outcome
unfolding background_found find_task
background_task s id = background_found s (find_task (has_id id) s.tasks s.all_tasks)

-- The second test of the source reads the field that the line before it has set.
unfoldable pub foreground_found : Scheduler → Option Ref → Outcome
unfolding put
foreground_found s none = (err invalid_argument, s)
foreground_found s (some r) =
    if is_foreground_mode (s.tasks r).mode
    then (err invalid_argument, s)
    else let shown = record (s.tasks r) { mode = foreground } in
      if is_stopped_mode shown.mode
      then (
        ok tt,
        record (push_ready (put_task s r (send_signal (record shown { state = ready }) sigcont))
            r) { need_reschedule = true },
      )
      else (ok tt, put_task s r shown)

unfoldable pub foreground_task : Scheduler → ℕ → Outcome
unfolding foreground_found find_task
foreground_task s id = foreground_found s (find_task (has_id id) s.tasks s.all_tasks)

unfoldable pub yield_current : Scheduler → Scheduler
yield_current s = schedule (record s { need_reschedule = true })

unfoldable pub enable_preemption : Scheduler → Scheduler
enable_preemption s = record s { preempt_enabled = true }

unfoldable pub disable_preemption : Scheduler → Scheduler
disable_preemption s = record s { preempt_enabled = false }

-- The ids of the terminated tasks, in the order of the table.
unfoldable pub terminated_ids : (Ref → Task) → List Ref → List ℕ
terminated_ids tasks rs = map (λ r. (tasks r).id) (retain (λ r. is_terminated (tasks r).state) rs)

unfoldable pub forget_id : Scheduler → ℕ → Scheduler
forget_id s id = record s {
  all_tasks = retain (λ r. not (has_id id (s.tasks r))) s.all_tasks;
  ready_queue = retain (λ r. not (has_id id (s.tasks r))) s.ready_queue;
}

unfoldable pub forget_ids : Scheduler → List ℕ → Scheduler
unfolding forget_id
forget_ids s [] = s
forget_ids s (id ∷ ids) = forget_ids (forget_id s id) ids

unfoldable pub cleanup_terminated : Scheduler → Scheduler
unfolding forget_ids terminated_ids
cleanup_terminated s = forget_ids s (terminated_ids s.tasks s.all_tasks)
