-- ===== src/Scheduler/Invariant/Found.antt =====
-- src/sched/scheduler.rs: the operations on a task looked up by its id keep the invariant.
use delta_os.Base.{
  ℕ, ◌<◌, ◌≡◌, ◌≢◌, refl, ap, Bool, true, false, not, Option, none, some, List, [], ◌∷◌, ◌++◌,
  arith, leb, ==_iff, if_elim, All, All-append, All-retain, All-retain_map, retain,
}
use native.Mathlib.Decide.{ℕ_discrete}
use delta_os.Task.{
  Task, TaskState, is_ready, is_blocked, is_stopped_mode, is_foreground_mode, ExitCode, send_signal,
}
use delta_os.Scheduler.State.{Ref, Scheduler, put, put_task, push_ready}
use delta_os.Scheduler.Control.{
  find_task, has_id, is_blocked_with, unblock_found, unblock_task, terminate_found, terminate_task,
  signal_found, signal_task, background_found, background_task, foreground_found, foreground_task,
  forget_id, forget_ids, terminated_ids, cleanup_terminated, Outcome,
}
use delta_os.Scheduler.Lookup.{find_task-test, find_task-All}
use delta_os.Scheduler.Pick.{Ready}
use delta_os.Scheduler.Invariant.Defs.{
  Fresh, IsCurrent, Inv, put_self, put-ne, IsQueue-put, IsQueue-put_same, IsQueue-push,
  IsQueue-retain, IsQueue-tasks,
}

-- A task that is not ready is not in a queue of ready tasks.
idle-Fresh :
    (tasks : Ref → Task) (r : Ref) (q : List Ref)
    → is_ready (tasks r).state ≡ false
    → All (Ready tasks) q
    → Fresh r q
idle-Fresh tasks r [] h a = tt
idle-Fresh tasks r (x ∷ q) h a =
    ((λ e. cc (a.0, ap (λ (y : Ref). is_ready (tasks y).state) e)), idle-Fresh tasks r q h a.1)

-- A task made ready joins the queue, if it was not ready and is not the current one.
push-Inv :
    (s : Scheduler) (r : Ref) (t : Task)
    → Inv s
    → r < s.allocated
    → is_ready (s.tasks r).state ≡ false
    → is_ready t.state ≡ true
    → s.current ≢ some r
    → Inv (record (push_ready (put_task s r t) r) { need_reschedule = true })
push-Inv s r t v l idle h ne =
    let f = idle-Fresh s.tasks r s.ready_queue idle v.queue.ready in
    record {
      queue = IsQueue-push (IsQueue-put v.queue r t f) r (rw (put_self s.tasks r t) h) l f;
      current = kept s.current v.current ne;
      table = v.table;
    }
  where
    kept :
        (o : Option Ref)
        → IsCurrent s.allocated s.ready_queue o
        → o ≢ some r
        → IsCurrent s.allocated (s.ready_queue ++ r ∷ []) o
    kept none k n = tt
    kept (some c) k n = (
      k.0,
      All-append (λ x. c ≢ x) s.ready_queue (r ∷ []) k.1
          ((λ e. n (ap (λ (x : Ref). some x) e)), tt),
    )

-- A write that keeps the task's state.
same-Inv :
    (s : Scheduler) (r : Ref) (t : Task)
    → t.state ≡ (s.tasks r).state
    → Inv s
    → Inv (put_task s r t)
same-Inv s r t e v = record {
  queue = IsQueue-put_same v.queue r t e;
  current = v.current;
  table = v.table;
}

-- The found task may be made ready: it is not ready, and not the current one.
abbrev pub MayQueue : Scheduler → Option Ref → Type 0
MayQueue s o = (r : Ref) → o ≡ some r → (is_ready (s.tasks r).state ≡ false) × (s.current ≢ some r)

abbrev IsFound : Scheduler → Option Ref → Type 0
IsFound s o = (r : Ref) → o ≡ some r → r < s.allocated

found :
    {s : Scheduler} (test : Task → Bool) → Inv s → IsFound s (find_task test s.tasks s.all_tasks)
found {s} test v r e = find_task-All test s.tasks (λ x. x < s.allocated) s.all_tasks v.table e

unblock_found-Inv :
    (s : Scheduler) (o : Option Ref)
    → Inv s
    → IsFound s o
    → MayQueue s o
    → Inv (unblock_found s o).1
unfolding unblock_found
unblock_found-Inv s none v l m = v
unblock_found-Inv s (some r) v l m = push-Inv s r _ v (l r refl) (m r refl).0 refl (m r refl).1

blocked-idle : (s : TaskState) → is_blocked s ≡ true → is_ready s ≡ false
blocked-idle s h = ground arith

pub unblock_task-Inv :
    {s : Scheduler} (id : ℕ)
    → Inv s
    → ((r : Ref) → s.current ≡ some r → (s.tasks r).id ≢ id)
    → Inv (unblock_task s id).1
unfolding unblock_task
unblock_task-Inv {s} id v ne = unblock_found-Inv s _ v (found (is_blocked_with id) v) λ r e.
    let h = find_task-test (is_blocked_with id) s.tasks s.all_tasks e in
    (ground (arith, blocked-idle (s.tasks r).state), λ c. ne r c (ground arith))

IsCurrent-retain :
    (n : ℕ) (p : Ref → Bool) (q : List Ref) (o : Option Ref)
    → IsCurrent n q o
    → IsCurrent n (retain p q) o
IsCurrent-retain n p q none k = tt
IsCurrent-retain n p q (some c) k = (k.0, All-retain (λ x. c ≢ x) p q k.1)

terminate_found-Inv :
    (s : Scheduler) (id : ℕ) (code : ExitCode) (o : Option Ref)
    → Inv s
    → ((r : Ref) → o ≡ some r → (s.tasks r).id ≡ id)
    → Inv (terminate_found s id code o).1
unfolding terminate_found
terminate_found-Inv s id code none v h = v
terminate_found-Inv s id code (some r) v h = record {
  queue =
      IsQueue-tasks (IsQueue-retain v.queue keep) marked
        (All-retain_map keep (Ready s.tasks) (Ready marked) s.ready_queue others v.queue.ready);
  current = IsCurrent-retain s.allocated keep s.ready_queue s.current v.current;
  table = v.table;
}
  where
    marked : Ref → Task
    marked = put s.tasks r (record (s.tasks r) { state = TaskState.terminated; exit_code = code })

    keep : Ref → Bool
    keep q = not (has_id id (marked q))

    others : (x : Ref) → keep x ≡ true → Ready s.tasks x → Ready marked x
    others x k a = elim (ℕ_discrete r x) [
      | yes e ↦ ground (
        arith,
        h r refl,
        put_self s.tasks r (record (s.tasks r) { state = TaskState.terminated; exit_code = code }),
        ap (λ (y : Ref). (marked y).id) e,
      )
      | no ne ↦
          rw
            (put-ne s.tasks r x
              (record (s.tasks r) { state = TaskState.terminated; exit_code = code }) ne)
            a
    ]

pub terminate_task-Inv :
    {s : Scheduler} (id : ℕ) (code : ExitCode) → Inv s → Inv (terminate_task s id code).1
unfolding terminate_task
terminate_task-Inv {s} id code v =
    if_elim (λ (o : Outcome). Inv o.1) (leb id 2) (λ _. v)
      λ _.
        terminate_found-Inv s id code _ v
          λ r e. (==_iff _ _).0 (find_task-test (has_id id) s.tasks s.all_tasks e)

pub state-send_signal : (t : Task) (n : ℕ) → (send_signal t n).state ≡ t.state
unfolding send_signal
state-send_signal t n = ground arith

signal_found-Inv : (s : Scheduler) (n : ℕ) (o : Option Ref) → Inv s → Inv (signal_found s n o).1
unfolding signal_found
signal_found-Inv s n none v = v
signal_found-Inv s n (some r) v = same-Inv s r _ (state-send_signal (s.tasks r) n) v

pub signal_task-Inv : {s : Scheduler} (id n : ℕ) → Inv s → Inv (signal_task s id n).1
unfolding signal_task
signal_task-Inv {s} id n v = signal_found-Inv s n _ v

background_found-Inv :
    (s : Scheduler) (o : Option Ref)
    → Inv s
    → IsFound s o
    → MayQueue s o
    → Inv (background_found s o).1
unfolding background_found
background_found-Inv s none v l m = v
background_found-Inv s (some r) v l m =
    if_elim (λ (o : Outcome). Inv o.1) (not (is_stopped_mode (s.tasks r).mode)) (λ _. v)
      (λ _. push-Inv s r _ v (l r refl) (m r refl).0 (rw (state-send_signal _ _)) (m r refl).1)

pub background_task-Inv :
    {s : Scheduler} (id : ℕ)
    → Inv s
    → MayQueue s (find_task (has_id id) s.tasks s.all_tasks)
    → Inv (background_task s id).1
unfolding background_task
background_task-Inv {s} id v m = background_found-Inv s _ v (found (has_id id) v) m

foreground_found-Inv : (s : Scheduler) (o : Option Ref) → Inv s → Inv (foreground_found s o).1
unfolding foreground_found
foreground_found-Inv s none v = v
foreground_found-Inv s (some r) v =
    if_elim (λ (o : Outcome). Inv o.1) (is_foreground_mode (s.tasks r).mode) (λ _. v)
      (λ _. same-Inv s r _ refl v)

pub foreground_task-Inv : {s : Scheduler} (id : ℕ) → Inv s → Inv (foreground_task s id).1
unfolding foreground_task
foreground_task-Inv {s} id v = foreground_found-Inv s _ v

forget_id-Inv : (s : Scheduler) (id : ℕ) → Inv s → Inv (forget_id s id)
unfolding forget_id
forget_id-Inv s id v = record {
  queue = IsQueue-retain v.queue (λ r. not (has_id id (s.tasks r)));
  current = IsCurrent-retain s.allocated _ s.ready_queue s.current v.current;
  table = All-retain (λ x. x < s.allocated) _ s.all_tasks v.table;
}

forget_ids-Inv : (s : Scheduler) (ids : List ℕ) → Inv s → Inv (forget_ids s ids)
unfolding forget_ids
forget_ids-Inv s [] v = v
forget_ids-Inv s (id ∷ ids) v = forget_ids-Inv (forget_id s id) ids (forget_id-Inv s id v)

pub cleanup_terminated-Inv : {s : Scheduler} → Inv s → Inv (cleanup_terminated s)
unfolding cleanup_terminated
cleanup_terminated-Inv {s} v = forget_ids-Inv s (terminated_ids s.tasks s.all_tasks) v
