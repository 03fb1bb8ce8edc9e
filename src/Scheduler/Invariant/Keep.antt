-- ===== src/Scheduler/Invariant/Keep.antt =====
-- src/sched/scheduler.rs: creation, the tick and the control operations keep the invariant.
use delta_os.Base.{
  ℕ, suc, ◌≤◌, ◌<◌, ◌≡◌, ◌≢◌, refl, subst, Bool, true, not, Option, none, some, List, [], ◌∷◌, ◌++◌,
  arith, if◌then◌else◌, ◌==◌, if_elim, All-append, All-map,
}
use delta_os.Task.{Task, Machine, is_ready, is_running, ExitCode, setup_initial_stack}
use delta_os.Scheduler.State.{Ref, Scheduler, put_task, enlist}
use delta_os.Scheduler.Run.{schedule, deliver, charge, tick_task, tick_current, tick}
use delta_os.Scheduler.Control.{
  block_at, block_current, terminate_at, terminate_current, yield_current,
}
use delta_os.Scheduler.Invariant.Defs.{
  Fresh, Made, IsCurrent, Inv, put_self, IsQueue-put, IsQueue-push, IsQueue-le,
}
use delta_os.Scheduler.Invariant.Switch.{schedule-Inv}

Made-Fresh : (n : ℕ) (q : List Ref) → Made n q → Fresh n q
Made-Fresh n q m = All-map (λ x. x < n) (λ x. n ≢ x) q (λ x l e. omega arith) m

Made-le : (n m : ℕ) (q : List Ref) → n ≤ m → Made n q → Made m q
Made-le n m q h = All-map (λ x. x < n) (λ x. x < m) q (λ x l. omega arith)

pub state-setup_initial_stack :
    (t : Task) (mem : ℕ → ℕ) → (setup_initial_stack t mem).0.state ≡ t.state
unfolding setup_initial_stack
state-setup_initial_stack t mem = refl

-- A new ready task is queued behind the others.
pub enlist-Inv :
    {s : Scheduler} (p : Task × Machine) → is_ready p.0.state ≡ true → Inv s → Inv (enlist s p).1
unfolding enlist
enlist-Inv {s} (t, m) h v = record {
  queue =
      IsQueue-push (IsQueue-le (IsQueue-put v.queue n _ f) (suc n) (omega arith)) n
        (rw (put_self s.tasks n _, state-setup_initial_stack t m.memory) h) (omega arith) f;
  current = kept s.current v.current;
  table =
      All-append (λ x. x < suc n) s.all_tasks (n ∷ []) (Made-le n (suc n) _ (omega arith) v.table)
        (omega arith, tt);
}
  where
    n : ℕ
    n = s.allocated

    f : Fresh n s.ready_queue
    f = Made-Fresh n s.ready_queue v.queue.made

    kept :
        (o : Option Ref)
        → IsCurrent n s.ready_queue o
        → IsCurrent (suc n) (s.ready_queue ++ n ∷ []) o
    kept none k = tt
    kept (some c) k =
        (omega arith, All-append (λ x. c ≢ x) s.ready_queue (n ∷ []) k.1 (λ e. omega arith, tt))

pub flag-Inv : {s : Scheduler} (b : Bool) → Inv s → Inv (record s { need_reschedule = b })
flag-Inv b v = record { queue = v.queue; current = v.current; table = v.table }

-- The current task may change in any way: it is not queued.
current-Inv :
    (s : Scheduler) (c : Ref) (t : Task) → s.current ≡ some c → Inv s → Inv (put_task s c t)
current-Inv s c t e v =
    let k : IsCurrent s.allocated s.ready_queue (some c) =
      subst (IsCurrent s.allocated s.ready_queue) e v.current in
    record { queue = IsQueue-put v.queue c t k.1; current = v.current; table = v.table }

reschedule-Inv : (s : Scheduler) → Inv s → Inv (if s.need_reschedule then schedule s else s)
reschedule-Inv s v = if_elim Inv s.need_reschedule (λ _. schedule-Inv v) (λ _. v)

tick_task-Inv :
    (s : Scheduler) (c : Ref) (p : Task × Bool) → s.current ≡ some c → Inv s → Inv (tick_task s c p)
unfolding tick_task
tick_task-Inv s c (t, returned) e v =
    if_elim Inv returned (λ _. flag-Inv true (current-Inv s c t e v))
      λ _.
        if_elim Inv (not (is_running t.state)) (λ _. flag-Inv true (current-Inv s c t e v))
          λ _. reschedule-Inv _ (
            if_elim Inv ((charge t).time_slice == 0)
              (λ _. flag-Inv true (current-Inv s c (charge t) e v))
              (λ _. current-Inv s c (charge t) e v))

tick_current-Inv : (s : Scheduler) (o : Option Ref) → s.current ≡ o → Inv s → Inv (tick_current s o)
unfolding tick_current
tick_current-Inv s none e v = reschedule-Inv s v
tick_current-Inv s (some c) e v = tick_task-Inv s c (deliver (s.tasks c)) e v

pub tick-Inv : {s : Scheduler} → Inv s → Inv (tick s)
unfolding tick
tick-Inv {s} v =
    let counted : Inv _ = record { queue = v.queue; current = v.current; table = v.table } in
    if_elim Inv (not s.preempt_enabled) (λ _. counted)
      (λ _. tick_current-Inv _ s.current refl counted)

block_at-Inv : (s : Scheduler) (o : Option Ref) → s.current ≡ o → Inv s → Inv (block_at s o)
unfolding block_at
block_at-Inv s none e v = v
block_at-Inv s (some c) e v = flag-Inv true (current-Inv s c _ e v)

pub block_current-Inv : {s : Scheduler} → Inv s → Inv (block_current s)
unfolding block_current
block_current-Inv {s} v = block_at-Inv s s.current refl v

terminate_at-Inv :
    (s : Scheduler) (o : Option Ref) (code : ExitCode)
    → s.current ≡ o
    → Inv s
    → Inv (terminate_at s o code)
unfolding terminate_at
terminate_at-Inv s none code e v = v
terminate_at-Inv s (some c) code e v = current-Inv s c _ e v

pub terminate_current-Inv :
    {s : Scheduler} (code : ExitCode) → Inv s → Inv (terminate_current s code)
unfolding terminate_current
terminate_current-Inv {s} code v =
    schedule-Inv (flag-Inv true (terminate_at-Inv s s.current code refl v))

pub yield_current-Inv : {s : Scheduler} → Inv s → Inv (yield_current s)
unfolding yield_current
yield_current-Inv v = schedule-Inv (flag-Inv true v)
