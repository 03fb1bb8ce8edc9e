-- ===== src/Scheduler/Dispatch.antt =====
-- src/sched/scheduler.rs: what `schedule` does with the current task and the queue.
use delta_os.Base.{
  ℕ, ◌≡◌, ◌≢◌, refl, ap, subst, ◌∙◌, ◌⊎◌, inl, inr, false, Option, none, some, List, [], ◌∷◌, ◌++◌,
  arith, if_elim, All, All-mid,
}
use delta_os.Task.{Task, ready, running, reset_time_slice, rank}
use delta_os.Scheduler.State.{Ref, Scheduler}
use delta_os.Scheduler.Run.{
  start, switch_to, do_context_switch, same_task, requeue_current, dispatch, schedule,
}
use delta_os.Scheduler.Pick.{Chosen, Ready, pick_next_task-Picks}
use delta_os.Scheduler.Invariant.Defs.{IsQueue, Inv, put_self, put-ne, put_field}
use delta_os.Scheduler.Invariant.Switch.{pick-none, requeue_current-Requeued}

-- What a context switch leaves alone.
pub record Kept (s s' : Scheduler) : Type 0 where
  pub queue : s'.ready_queue ≡ s.ready_queue
  pub current : s'.current ≡ s.current
  pub flag : s'.need_reschedule ≡ s.need_reschedule
  pub states : (r : Ref) → (s'.tasks r).state ≡ (s.tasks r).state
  pub priorities : (r : Ref) → (s'.tasks r).priority ≡ (s.tasks r).priority
  pub slices : (r : Ref) → (s'.tasks r).time_slice ≡ (s.tasks r).time_slice

do_context_switch-Kept :
    (s : Scheduler) (old : Option Ref) (n : Ref) → Kept s (do_context_switch s old n)
unfolding do_context_switch
do_context_switch-Kept s none n = record {
  queue = refl;
  current = refl;
  flag = refl;
  states = λ r. refl;
  priorities = λ r. refl;
  slices = λ r. refl;
}
do_context_switch-Kept s (some c) n = record {
  queue = refl;
  current = refl;
  flag = refl;
  states = λ r. put_field (λ t. t.state) s.tasks c _ r refl;
  priorities = λ r. put_field (λ t. t.priority) s.tasks c _ r refl;
  slices = λ r. put_field (λ t. t.time_slice) s.tasks c _ r refl;
}

pub switch_to-Kept : (s : Scheduler) (old : Option Ref) (n : Ref) → Kept s (switch_to s old n)
unfolding switch_to
switch_to-Kept s old n =
    if_elim (Kept s) (same_task old n)
      (λ _. record {
        queue = refl;
        current = refl;
        flag = refl;
        states = λ r. refl;
        priorities = λ r. refl;
        slices = λ r. refl;
      })
      (λ _.
        let k = do_context_switch-Kept s old n in
        record {
          queue = k.queue;
          current = k.current;
          flag = k.flag;
          states = k.states;
          priorities = k.priorities;
          slices = k.slices;
        })

-- A task has been picked: it is the current one and runs, and the queue has lost it alone.
pub record Dispatched (s s' : Scheduler) (n : Ref) (rest : List Ref) : Type 0 where
  pub queue : s'.ready_queue ≡ rest
  pub current : s'.current ≡ some n
  pub runs : (s'.tasks n).state ≡ running
  pub others : (r : Ref) → n ≢ r → (s'.tasks r).state ≡ (s.tasks r).state
  pub priorities : (r : Ref) → (s'.tasks r).priority ≡ (s.tasks r).priority
  pub slices : (r : Ref) → (s'.tasks r).time_slice ≡ (s.tasks r).time_slice
  pub flag : s'.need_reschedule ≡ s.need_reschedule

pub dispatch-Dispatched :
    (s : Scheduler) (old : Option Ref) (n : Ref) (rest : List Ref)
    → Dispatched s (dispatch s old (some (n, rest))) n rest
unfolding dispatch start
dispatch-Dispatched s old n rest =
    let k = switch_to-Kept (start s n rest) old n in
    record {
      queue = k.queue;
      current = k.current;
      runs = k.states n ∙ ap (λ (t : Task). t.state) (put_self s.tasks n _);
      others = λ r ne. k.states r ∙ ap (λ (t : Task). t.state) (put-ne s.tasks n r _ ne);
      priorities = λ r. k.priorities r ∙ put_field (λ t. t.priority) s.tasks n _ r refl;
      slices = λ r. k.slices r ∙ put_field (λ t. t.time_slice) s.tasks n _ r refl;
      flag = k.flag;
    }

-- The scheduler whose queue `schedule` picks from.
abbrev pub before_pick : Scheduler → Scheduler
before_pick s = requeue_current (record s { need_reschedule = false; current = none }) s.current

-- The state of the table, and who is waiting, when `schedule` picks: a running current task has
-- joined the queue as its last entry, ready and with a full slice.
pub requeue_current-running :
    (s : Scheduler) (c : Ref)
    → s.current ≡ some c
    → (s.tasks c).state ≡ running
    → ((before_pick s).ready_queue ≡ s.ready_queue ++ c ∷ [])
      × (((before_pick s).tasks c).state ≡ ready)
      × ((r : Ref) → ((before_pick s).tasks r).priority ≡ (s.tasks r).priority)
      × ((before_pick s).need_reschedule ≡ false)
unfolding requeue_current reset_time_slice
requeue_current-running s c e h =
    rw (e, requeue_current, h)
      (
        refl,
        ap (λ (t : Task). t.state) (put_self s.tasks c _),
        (λ r. put_field (λ t. t.priority) s.tasks c _ r refl),
        refl,
      )

pub before_pick-IsQueue :
    {s : Scheduler}
    → Inv s
    → IsQueue (before_pick s).tasks (before_pick s).allocated (before_pick s).ready_queue
before_pick-IsQueue {s} v =
    (requeue_current-Requeued (record s { need_reschedule = false; current = none }) s.current
      (record { queue = v.queue; current = tt; table = v.table }) v.current).queue

-- What `schedule` does to the scheduler it picks from.
pub schedule-before_pick :
    (s : Scheduler)
    → Inv s
    → (((before_pick s).ready_queue ≡ [])
        × (schedule s ≡ record (before_pick s) { current = s.current }))
      ⊎ ((n : Ref) × (before : List Ref) × (after : List Ref) × Chosen
            (before_pick s).tasks
            (before_pick s).ready_queue
            n
            before
            after
          × Dispatched (before_pick s) (schedule s) n (before ++ after))
unfolding schedule dispatch
schedule-before_pick s v =
    elim (pick_next_task-Picks (before_pick s).tasks (before_pick s).ready_queue) [
      | inl (n, before, after, c, e) ↦ inr (
        n,
        before,
        after,
        c,
        rw e (dispatch-Dispatched (before_pick s) s.current n (before ++ after)),
      )
      | inr (e, _) ↦ inl (pick-none _ (before_pick-IsQueue v) e, rw e)
    ]

-- Among ready tasks of one priority the head of the queue is chosen.
pub Chosen-head :
    (tasks : Ref → Task) (p : ℕ) (q : List Ref) (n : Ref) (before after : List Ref)
    → Chosen tasks q n before after
    → All (Ready tasks) q
    → All (λ r. rank (tasks r).priority ≡ p) q
    → q ≡ n ∷ before ++ after
Chosen-head tasks p q n [] after c a e = c.place
Chosen-head tasks p q n (x ∷ before) after c a e =
    let a' = subst (All (Ready tasks)) c.place a in
    let e' = subst (All (λ r. rank (tasks r).priority ≡ p)) c.place e in
    absurd (
      omega (
        arith,
        c.first.0 a'.0,
        e'.0,
        All-mid (λ r. rank (tasks r).priority ≡ p) before n after e'.1,
      ))
