-- ===== src/Scheduler/Invariant/Switch.antt =====
-- src/sched/scheduler.rs: `schedule` and `preempt_schedule` keep the invariant.
use delta_os.Base.{
  ℕ, ◌<◌, ◌≡◌, refl, sym, subst, inl, inr, true, false, not, Option, none, some, List, [], ◌∷◌,
  ◌++◌, Bool-cases, if_elim, All,
}
use delta_os.Task.{Task, is_ready, is_running, reset_time_slice}
use delta_os.Scheduler.State.{Ref, Scheduler, put_task, push_ready}
use delta_os.Scheduler.Run.{
  pick_next_task, start, run_on, switch_to, do_context_switch, same_task, requeue_current, dispatch,
  schedule, preempt_current, preempt_dispatch, preempt_schedule,
}
use delta_os.Scheduler.Pick.{Ready, pick_next_task-Picks}
use delta_os.Scheduler.Invariant.Defs.{
  Fresh, Made, IsQueue, IsCurrent, Inv, put_self, IsQueue-put, IsQueue-put_same, IsQueue-push,
  IsQueue-take,
}

-- A reference that may be absent has been made.
abbrev pub IsMade : ℕ → Option Ref → Type 0
IsMade n none = Unit
IsMade n (some c) = c < n

-- From a queue of ready tasks none is picked only if it is empty.
pub pick-none :
    {tasks : Ref → Task} {n : ℕ} (q : List Ref)
    → IsQueue tasks n q
    → pick_next_task tasks q ≡ none
    → q ≡ []
pick-none {tasks} [] v e = refl
pick-none {tasks} (r ∷ rs) v e = elim (pick_next_task-Picks tasks (r ∷ rs)) [
  | inl (x, before, after, c, p) ↦ cc
  | inr (p, inl q) ↦ q
  | inr (p, inr (y, ys, q, h, m)) ↦ absurd (h (first v.ready q))
]
  where
    first : {y : Ref} {ys : List Ref} → All (Ready tasks) (r ∷ rs) → r ∷ rs ≡ y ∷ ys → Ready tasks y
    first {y} {ys} a q = (subst (All (Ready tasks)) q a).0

-- The picked task runs and leaves the queue.
pub start-Inv :
    (s : Scheduler) (n : Ref) (rest : List Ref)
    → IsQueue s.tasks s.allocated rest
    → Fresh n rest
    → n < s.allocated
    → Made s.allocated s.all_tasks
    → Inv (start s n rest)
unfolding start
start-Inv s n rest w f l table = record {
  queue = IsQueue-put w n _ f;
  current = (l, f);
  table = table;
}

do_context_switch-Inv :
    (s : Scheduler) (old : Option Ref) (n : Ref) → Inv s → Inv (do_context_switch s old n)
unfolding do_context_switch
do_context_switch-Inv s none n v = record { queue = v.queue; current = v.current; table = v.table }
do_context_switch-Inv s (some c) n v = record {
  queue = IsQueue-put_same v.queue c _ refl;
  current = v.current;
  table = v.table;
}

count-Inv : (s : Scheduler) (n : ℕ) → Inv s → Inv (record s { context_switches = n })
count-Inv s n v = record { queue = v.queue; current = v.current; table = v.table }

switch_to-Inv : (s : Scheduler) (old : Option Ref) (n : Ref) → Inv s → Inv (switch_to s old n)
unfolding switch_to
switch_to-Inv s old n v = elim (Bool-cases (same_task old n)) [
  | inl e ↦ rw e v
  | inr e ↦ rw e (count-Inv (do_context_switch s old n) _ (do_context_switch-Inv s old n v))
]

dispatch-Inv :
    (s : Scheduler) (old : Option Ref)
    → IsQueue s.tasks s.allocated s.ready_queue
    → Made s.allocated s.all_tasks
    → IsMade s.allocated old
    → Inv (dispatch s old (pick_next_task s.tasks s.ready_queue))
unfolding dispatch
dispatch-Inv s old v table made = elim (pick_next_task-Picks s.tasks s.ready_queue) [
  | inl (n, before, after, c, e) ↦
      let (w, f, l) = IsQueue-take v n before after c in
      rw e (switch_to-Inv (start s n (before ++ after)) old n (start-Inv s n _ w f l table))
  | inr (e, _) ↦
      rw e (record { queue = v; current = nobody old made (pick-none _ v e); table = table })
]
  where
    nobody :
        (o : Option Ref)
        → IsMade s.allocated o
        → s.ready_queue ≡ []
        → IsCurrent s.allocated s.ready_queue o
    nobody none m e = tt
    nobody (some c) m e = (m, rw e tt)

IsCurrent-IsMade : (n : ℕ) (q : List Ref) (o : Option Ref) → IsCurrent n q o → IsMade n o
IsCurrent-IsMade n q none c = tt
IsCurrent-IsMade n q (some r) c = c.0

-- What a scheduler with its current task taken out and perhaps requeued looks like.
pub record Requeued (s s' : Scheduler) : Type 0 where
  pub queue : IsQueue s'.tasks s'.allocated s'.ready_queue
  pub table : Made s'.allocated s'.all_tasks
  pub same : s'.allocated ≡ s.allocated

push_current-Requeued :
    (s : Scheduler) (c : Ref) (t : Task)
    → Inv s
    → IsCurrent s.allocated s.ready_queue (some c)
    → is_ready t.state ≡ true
    → Requeued s (push_ready (put_task s c t) c)
push_current-Requeued s c t v k h = record {
  queue = IsQueue-push (IsQueue-put v.queue c t k.1) c (rw (put_self s.tasks c t) h) k.0 k.1;
  table = v.table;
  same = refl;
}

pub requeue_current-Requeued :
    (s : Scheduler) (old : Option Ref)
    → Inv s
    → IsCurrent s.allocated s.ready_queue old
    → Requeued s (requeue_current s old)
unfolding requeue_current reset_time_slice
requeue_current-Requeued s none v k = record { queue = v.queue; table = v.table; same = refl }
requeue_current-Requeued s (some c) v k = elim (Bool-cases (is_running (s.tasks c).state)) [
  | inl e ↦ rw e (push_current-Requeued s c _ v k refl)
  | inr e ↦ rw e (record { queue = v.queue; table = v.table; same = refl })
]

pub schedule-Inv : {s : Scheduler} → Inv s → Inv (schedule s)
unfolding schedule
schedule-Inv {s} v =
    let s0 : Scheduler = record s { need_reschedule = false; current = none } in
    let v0 : Inv s0 = record { queue = v.queue; current = tt; table = v.table } in
    let r = requeue_current-Requeued s0 s.current v0 v.current in
    dispatch-Inv (requeue_current s0 s.current) s.current r.queue r.table
      (subst (λ n. IsMade n s.current) (sym r.same) (IsCurrent-IsMade _ _ s.current v.current))

pub preempt_current-Requeued :
    (s : Scheduler) (old : Option Ref) (rsp : ℕ)
    → Inv s
    → IsCurrent s.allocated s.ready_queue old
    → Requeued s (preempt_current s old rsp)
unfolding preempt_current reset_time_slice
preempt_current-Requeued s none rsp v k = record { queue = v.queue; table = v.table; same = refl }
preempt_current-Requeued s (some c) rsp v k = push_current-Requeued s c _ v k refl

current-preempt_current :
    (s : Scheduler) (old : Option Ref) (rsp : ℕ) → (preempt_current s old rsp).current ≡ s.current
unfolding preempt_current
current-preempt_current s none rsp = refl
current-preempt_current s (some c) rsp = refl

run_on-Inv :
    (s : Scheduler) (o : Option Ref)
    → s.current ≡ o
    → IsMade s.allocated o
    → IsQueue s.tasks s.allocated s.ready_queue
    → Made s.allocated s.all_tasks
    → s.ready_queue ≡ []
    → Inv (run_on s o)
unfolding run_on
run_on-Inv s none c m v table e = record { queue = v; current = rw c tt; table = table }
run_on-Inv s (some r) c m v table e = record {
  queue = IsQueue-put v r _ (rw e tt);
  current = rw c (m, rw e tt);
  table = table;
}

preempt_dispatch-Inv :
    (s : Scheduler) (rsp : ℕ)
    → IsMade s.allocated s.current
    → IsQueue s.tasks s.allocated s.ready_queue
    → Made s.allocated s.all_tasks
    → Inv (preempt_dispatch s (pick_next_task s.tasks s.ready_queue) rsp).1
unfolding preempt_dispatch
preempt_dispatch-Inv s rsp m v table = elim (pick_next_task-Picks s.tasks s.ready_queue) [
  | inl (n, before, after, c, e) ↦
      let (w, f, l) = IsQueue-take v n before after c in
      rw e (count-Inv (start s n (before ++ after)) _ (start-Inv s n _ w f l table))
  | inr (e, _) ↦ rw e (run_on-Inv s s.current refl m v table (pick-none _ v e))
]

pub preempt_schedule-Inv : {s : Scheduler} (rsp : ℕ) → Inv s → Inv (preempt_schedule s rsp).1
unfolding preempt_schedule
preempt_schedule-Inv {s} rsp v =
    let r = preempt_current-Requeued s s.current rsp v v.current in
    let made : IsMade s.allocated s.current = IsCurrent-IsMade _ _ s.current v.current in
    if_elim (λ (p : ℕ × Scheduler). Inv p.1) (not s.preempt_enabled) (λ _. v)
      (λ _.
        preempt_dispatch-Inv (preempt_current s s.current rsp) rsp
          (rw (current-preempt_current s s.current rsp, r.same) made) r.queue r.table)
