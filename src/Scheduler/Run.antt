-- ===== src/Scheduler/Run.antt =====
-- src/sched/scheduler.rs: picking, switching, the timer tick and preemption.
use delta_os.Base.{
  ℕ, suc, ◌-◌, Bool, true, false, not, ◌&&◌, Option, none, some, List, [], ◌∷◌, if◌then◌else◌, ltb,
  ◌==◌, remove_at, get_or,
}
use delta_os.Base.Word.{add64}
use delta_os.Task.{
  Task, ready, running, blocked, terminated, background, stopped, is_ready, is_running,
  is_stopped_mode, rank, ExitCode, pop_signal, reset_time_slice, sigkill, sigtstp, sigcont,
}
use delta_os.Scheduler.State.{Ref, Scheduler, put, put_task, push_ready}

-- The loop of `pick_next_task`: the index of the first ready task of the highest priority above
-- `best`, or the index carried in.
unfoldable pub best_index : (Ref → Task) → List Ref → ℕ → ℕ → ℕ → ℕ
best_index tasks [] idx best_idx best = best_idx
best_index tasks (r ∷ rs) idx best_idx best =
    let better = is_ready (tasks r).state && ltb best (rank (tasks r).priority) in
    best_index tasks rs (suc idx) (if better then idx else best_idx)
      (if better then rank (tasks r).priority else best)

-- The queue without the picked reference, and that reference. A non-empty queue is indexed in
-- range; `get_or` falls back to the head.
unfoldable pub pick_next_task : (Ref → Task) → List Ref → Option (Ref × List Ref)
unfolding best_index
pick_next_task tasks [] = none
pick_next_task tasks (r ∷ rs) =
    let i = best_index tasks (r ∷ rs) 0 0 0 in
    let chosen = get_or (r ∷ rs) i r in
    if is_ready (tasks chosen).state then some (chosen, remove_at i (r ∷ rs)) else none

-- `context_switch` of context_switch.asm: the registers are saved where the outgoing task keeps
-- them, and loaded from the incoming one. The `ret` that follows goes on at the word under the new
-- stack pointer; the model goes on with the caller's next statement, as when the outgoing task
-- is resumed.
unfoldable pub do_context_switch : Scheduler → Option Ref → Ref → Scheduler
unfolding put
do_context_switch s (some c) n =
    let saved = put_task s c (record (s.tasks c) { regs = s.cpu }) in
    record saved { cpu = (saved.tasks n).regs }
do_context_switch s none n = record s { dummy_regs = s.cpu; cpu = (s.tasks n).regs }

-- `ptr_eq` of the outgoing reference, if any, and the incoming one.
abbrev pub same_task : Option Ref → Ref → Bool
same_task (some c) n = c == n
same_task none n = false

-- The first part of `schedule`: a current task that still runs goes to the back of the queue.
unfoldable pub requeue_current : Scheduler → Option Ref → Scheduler
unfolding put reset_time_slice
requeue_current s none = s
requeue_current s (some c) =
    if is_running (s.tasks c).state
    then push_ready (put_task s c (reset_time_slice (record (s.tasks c) { state = ready }))) c
    else s

-- The picked task `n` runs and is the current one, and `rest` is the queue.
unfoldable pub start : Scheduler → Ref → List Ref → Scheduler
unfolding put
start s n rest = record (put_task s n (record (s.tasks n) { state = running })) {
  ready_queue = rest;
  current = some n;
}

-- The context is switched, and the switch counted, if the task is another.
unfoldable pub switch_to : Scheduler → Option Ref → Ref → Scheduler
switch_to s old n =
    if same_task old n
    then s
    else let switched = do_context_switch s old n in
      record switched { context_switches = add64 switched.context_switches 1 }

-- The second part of `schedule`, with the result of `pick_next_task`.
unfoldable pub dispatch : Scheduler → Option Ref → Option (Ref × List Ref) → Scheduler
dispatch s old none = record s { current = old }
dispatch s old (some (n, rest)) = switch_to (start s n rest) old n

unfoldable pub schedule : Scheduler → Scheduler
schedule s =
    let queued = requeue_current (record s { need_reschedule = false; current = none }) s.current in
    dispatch queued s.current (pick_next_task queued.tasks queued.ready_queue)

-- What the signal taken in `tick` does to the task, and whether `tick` returns at once.
unfoldable pub handle_signal : Option ℕ → Task → Task × Bool
handle_signal none t = (t, false)
handle_signal (some signal) t =
    if signal == sigkill
    then (record t { state = terminated; exit_code = ExitCode.minus 9 }, true)
    else if signal == sigtstp
    then (record t { mode = stopped; state = blocked }, true)
    else if (signal == sigcont) && is_stopped_mode t.mode
    then (record t { mode = background; state = running }, false)
    else (t, false)

unfoldable pub deliver : Task → Task × Bool
deliver t =
    if t.pending_signals == 0
    then (t, false)
    else let (signal, t') = pop_signal t in handle_signal signal t'

-- One tick of CPU time and, if any is left, one of the time slice.
unfoldable pub charge : Task → Task
charge t = record t {
  total_cpu_ticks = add64 t.total_cpu_ticks 1;
  time_slice = if ltb 0 t.time_slice then t.time_slice - 1 else t.time_slice;
}

abbrev reschedule_if_needed : Scheduler → Scheduler
reschedule_if_needed s = if s.need_reschedule then schedule s else s

-- `tick` on the current task `c`, after its signals: the task as they left it, and whether one of
-- them ends the tick.
unfoldable pub tick_task : Scheduler → Ref → Task × Bool → Scheduler
tick_task s c (t, returned) =
    if returned
    then record (put_task s c t) { need_reschedule = true }
    else if not (is_running t.state)
    then record (put_task s c t) { need_reschedule = true }
    else let charged = put_task s c (charge t) in
      reschedule_if_needed
        (if (charge t).time_slice == 0 then record charged { need_reschedule = true } else charged)

unfoldable pub tick_current : Scheduler → Option Ref → Scheduler
tick_current s none = reschedule_if_needed s
tick_current s (some c) = tick_task s c (deliver (s.tasks c))

unfoldable pub tick : Scheduler → Scheduler
tick s =
    let counted = record s {
      tick_count = add64 s.tick_count 1;
      scheduler_ticks = add64 s.scheduler_ticks 1;
    } in
    if not counted.preempt_enabled then counted else tick_current counted counted.current

-- The first part of `preempt_schedule`: the current task, whatever its state, is marked ready and
-- goes to the back of the queue with the stack pointer at which it was interrupted.
unfoldable pub preempt_current : Scheduler → Option Ref → ℕ → Scheduler
unfolding put reset_time_slice
preempt_current s none rsp = s
preempt_current s (some c) rsp =
    push_ready
      (put_task s c (reset_time_slice (record (s.tasks c) { saved_rsp = rsp; state = ready }))) c

-- Where no task is picked, the current one runs on, still queued.
unfoldable pub run_on : Scheduler → Option Ref → Scheduler
unfolding put
run_on s none = s
run_on s (some c) = put_task s c (record (s.tasks c) { state = running })

-- The second part, with the result of `pick_next_task`; it returns the stack pointer to go on with.
unfoldable pub preempt_dispatch : Scheduler → Option (Ref × List Ref) → ℕ → ℕ × Scheduler
preempt_dispatch s none rsp = (rsp, run_on s s.current)
preempt_dispatch s (some (n, rest)) rsp =
    let started = start s n rest in
    ((s.tasks n).saved_rsp, record started { context_switches = add64 s.context_switches 1 })

unfoldable pub preempt_schedule : Scheduler → ℕ → ℕ × Scheduler
preempt_schedule s rsp =
    if not s.preempt_enabled
    then (rsp, s)
    else let queued = preempt_current s s.current rsp in
      preempt_dispatch queued (pick_next_task queued.tasks queued.ready_queue) rsp
