-- ===== src/Scheduler/Ticks.antt =====
-- src/sched/scheduler.rs: how long a task keeps the processor under `tick`.
use delta_os.Base.{
  ℕ, zero, suc, ◌+◌, ◌≡◌, ◌≢◌, refl, ap, sym, subst, ◌∙◌, inl, inr, Bool, true, false, not, some,
  arith, if◌then◌else◌, ◌==◌, ==_iff, ==_ne, Bool-cases, if_elim,
}
use mathlib.Core.Bool.{false≢true}
use delta_os.Base.Word.{add64}
use delta_os.Task.{Task, TaskState, running, terminated, is_running, pop_signal, sigkill, ExitCode}
use delta_os.Scheduler.State.{Ref, Scheduler, put_task}
use delta_os.Scheduler.Run.{schedule, handle_signal, deliver, charge, tick_task, tick_current, tick}
use delta_os.Scheduler.Invariant.Defs.{put_self, put-ne}

abbrev pub counted : Scheduler → Scheduler
counted s = record s {
  tick_count = add64 s.tick_count 1;
  scheduler_ticks = add64 s.scheduler_ticks 1;
}

tick-enabled :
    (s : Scheduler) (c : Ref)
    → s.preempt_enabled ≡ true
    → s.current ≡ some c
    → tick s ≡ tick_task (counted s) c (deliver (s.tasks c))
unfolding tick tick_current
tick-enabled s c on cur =
    if_elim (λ (t : Scheduler). t ≡ tick_task (counted s) c (deliver (s.tasks c)))
      (not s.preempt_enabled) (λ e. absurd (false≢true (sym (ap not on) ∙ e)))
      (λ _. simp (cur, tick_current))

-- A tick that ends early: the current task keeps the processor, and no other task is touched.
pub record EndsEarly (s s' : Scheduler) (c : Ref) : Type 0 where
  pub current : s'.current ≡ some c
  pub queue : s'.ready_queue ≡ s.ready_queue
  pub flag : s'.need_reschedule ≡ true
  pub enabled : s'.preempt_enabled ≡ s.preempt_enabled
  pub others : (r : Ref) → c ≢ r → s'.tasks r ≡ s.tasks r

flagged-EndsEarly :
    (s : Scheduler) (c : Ref) (t : Task)
    → s.current ≡ some c
    → EndsEarly s (record (put_task (counted s) c t) { need_reschedule = true }) c
flagged-EndsEarly s c t cur = record {
  current = cur;
  queue = refl;
  flag = refl;
  enabled = refl;
  others = λ r ne. put-ne s.tasks c r t ne;
}

-- The current task does not run and no signal is pending for it.
pub record IsStuck (s : Scheduler) (c : Ref) (st : TaskState) : Type 0 where
  pub enabled : s.preempt_enabled ≡ true
  pub current : s.current ≡ some c
  pub state : (s.tasks c).state ≡ st
  pub idle : is_running st ≡ false
  pub quiet : (s.tasks c).pending_signals ≡ 0

deliver-none : (t : Task) → t.pending_signals ≡ 0 → deliver t ≡ (t, false)
unfolding deliver
deliver-none t e =
    if_elim (λ (p : Task × Bool). p ≡ (t, false)) (t.pending_signals == 0) (λ _. refl)
      (λ h. absurd (false≢true (sym h ∙ (==_iff _ _).1 e)))

tick_task-idle :
    (s : Scheduler) (c : Ref) (t : Task)
    → is_running t.state ≡ false
    → tick_task s c (t, false) ≡ record (put_task s c t) { need_reschedule = true }
unfolding tick_task
tick_task-idle s c t e =
    if_elim (λ (x : Scheduler). x ≡ record (put_task s c t) { need_reschedule = true })
      (not (is_running t.state)) (λ _. refl) (λ h. absurd (false≢true (sym h ∙ ap not e)))

tick-IsStuck :
    (s : Scheduler) (c : Ref) (st : TaskState)
    → IsStuck s c st
    → IsStuck (tick s) c st × EndsEarly s (tick s) c
tick-IsStuck s c st v =
    let e : tick s ≡ record (put_task (counted s) c (s.tasks c)) { need_reschedule = true } =
      tick-enabled s c v.enabled v.current
      ∙ ap (tick_task (counted s) c) (deliver-none (s.tasks c) v.quiet)
      ∙ tick_task-idle (counted s) c (s.tasks c) (ap is_running v.state ∙ v.idle) in
    rw e (
      record {
        enabled = v.enabled;
        current = v.current;
        state = ap (λ (t : Task). t.state) (put_self s.tasks c (s.tasks c)) ∙ v.state;
        idle = v.idle;
        quiet = ap (λ (t : Task). t.pending_signals) (put_self s.tasks c (s.tasks c)) ∙ v.quiet;
      },
      flagged-EndsEarly s c (s.tasks c) v.current,
    )

unfoldable pub ticks : ℕ → Scheduler → Scheduler
ticks zero s = s
ticks (suc n) s = ticks n (tick s)

-- With preemption enabled, no number of ticks takes the processor from a current task that does
-- not run and has no signal pending: it stays current in its state, and the queue stays as it is.
pub ticks-IsStuck :
    (n : ℕ) (s : Scheduler) (c : Ref) (st : TaskState)
    → IsStuck s c st
    → IsStuck (ticks n s) c st × ((ticks n s).ready_queue ≡ s.ready_queue)
unfolding ticks
ticks-IsStuck zero s c st v = (v, refl)
ticks-IsStuck (suc n) s c st v =
    let (w, early) = tick-IsStuck s c st v in
    let (x, q) = ticks-IsStuck n (tick s) c st w in (x, q ∙ early.queue)

-- With preemption enabled, a tick that takes SIGKILL for the current task marks it terminated with
-- code -9, and leaves it current: the queue is as it was, and the switch is only asked for.
pub tick-sigkill :
    (s : Scheduler) (c : Ref)
    → s.preempt_enabled ≡ true
    → s.current ≡ some c
    → (s.tasks c).pending_signals ≢ 0
    → (pop_signal (s.tasks c)).0 ≡ some sigkill
    → (((tick s).tasks c).state ≡ terminated)
      × (((tick s).tasks c).exit_code ≡ ExitCode.minus 9)
      × EndsEarly s (tick s) c
unfolding deliver handle_signal tick_task
tick-sigkill s c on cur pend kill =
    rw (tick-enabled s c on cur, ==_ne _ _ pend, kill)
      (
        ap (λ (t : Task). t.state) (put_self s.tasks c _),
        ap (λ (t : Task). t.exit_code) (put_self s.tasks c _),
        flagged-EndsEarly s c _ cur,
      )

-- The current task runs with `k` ticks left of its slice, and nothing asks for a switch.
pub record OnCpu (s : Scheduler) (c : Ref) (k : ℕ) : Type 0 where
  pub enabled : s.preempt_enabled ≡ true
  pub current : s.current ≡ some c
  pub state : (s.tasks c).state ≡ running
  pub quiet : (s.tasks c).pending_signals ≡ 0
  pub slice : (s.tasks c).time_slice ≡ k
  pub flag : s.need_reschedule ≡ false

abbrev pub charged : Scheduler → Ref → Scheduler
charged s c = put_task (counted s) c (charge (s.tasks c))

tick_task-running :
    (s : Scheduler) (c : Ref) (t : Task)
    → is_running t.state ≡ true
    → s.need_reschedule ≡ false
    → tick_task s c (t, false) ≡ (
        if (charge t).time_slice == 0
        then schedule (record (put_task s c (charge t)) { need_reschedule = true })
        else put_task s c (charge t))
unfolding tick_task
tick_task-running s c t run flag =
    if_elim (λ (x : Scheduler). x ≡ after) (not (is_running t.state))
      (λ h. absurd (false≢true (sym (ap not run) ∙ h)))
      (λ _. elim (Bool-cases ((charge t).time_slice == 0)) [
        | inl e ↦ rw e
        | inr e ↦ rw e (
            if_elim (λ (x : Scheduler). x ≡ put_task s c (charge t)) s.need_reschedule
              (λ h. absurd (false≢true (sym flag ∙ h))) (λ _. refl))
      ])
  where
    after : Scheduler
    after =
        if (charge t).time_slice == 0
        then schedule (record (put_task s c (charge t)) { need_reschedule = true })
        else put_task s c (charge t)

tick-charged :
    (s : Scheduler) (c : Ref) (k : ℕ)
    → OnCpu s c k
    → tick s ≡ (
        if (charge (s.tasks c)).time_slice == 0
        then schedule (record (charged s c) { need_reschedule = true })
        else charged s c)
tick-charged s c k v =
    tick-enabled s c v.enabled v.current
    ∙ ap (tick_task (counted s) c) (deliver-none (s.tasks c) v.quiet)
    ∙ tick_task-running (counted s) c (s.tasks c) (ap is_running v.state) v.flag

slice-charge : (t : Task) (k : ℕ) → t.time_slice ≡ suc k → (charge t).time_slice ≡ k
unfolding charge
slice-charge t k e = ground arith

tick-OnCpu :
    (s : Scheduler) (c : Ref) (k : ℕ)
    → OnCpu s c (suc (suc k))
    → OnCpu (tick s) c (suc k) × ((tick s).ready_queue ≡ s.ready_queue)
unfolding charge
tick-OnCpu s c k v =
    let left = slice-charge (s.tasks c) (suc k) v.slice in
    let e : tick s ≡ charged s c =
      tick-charged s c _ v
      ∙ if_elim (λ (x : Scheduler). x ≡ charged s c) ((charge (s.tasks c)).time_slice == 0)
          (λ h. absurd (omega (arith, (==_iff _ _).0 h, left))) (λ _. refl) in
    rw e (
      record {
        enabled = v.enabled;
        current = v.current;
        state = ap (λ (t : Task). t.state) (put_self s.tasks c _) ∙ v.state;
        quiet = ap (λ (t : Task). t.pending_signals) (put_self s.tasks c _) ∙ v.quiet;
        slice = ap (λ (t : Task). t.time_slice) (put_self s.tasks c _) ∙ left;
        flag = v.flag;
      },
      refl,
    )

ticks-OnCpu :
    (n : ℕ) (s : Scheduler) (c : Ref) (k : ℕ)
    → OnCpu s c (n + suc k)
    → OnCpu (ticks n s) c (suc k) × ((ticks n s).ready_queue ≡ s.ready_queue)
unfolding ticks
ticks-OnCpu zero s c k v =
    let shape : zero + suc k ≡ suc k = omega arith in (subst (OnCpu s c) shape v, refl)
ticks-OnCpu (suc n) s c k v =
    let shape : suc n + suc k ≡ suc (suc (n + k)) = omega arith in
    let (w, q) = tick-OnCpu s c (n + k) (subst (OnCpu s c) shape v) in
    let shape' : suc (n + k) ≡ n + suc k = omega arith in
    let (x, r) = ticks-OnCpu n (tick s) c k (subst (OnCpu (tick s) c) shape' w) in (x, r ∙ q)

tick_last :
    (s : Scheduler) (c : Ref)
    → OnCpu s c 1
    → tick s
      ≡ schedule (record (put_task (counted s) c (charge (s.tasks c))) { need_reschedule = true })
tick_last s c v =
    tick-charged s c 1 v
    ∙ if_elim (λ (x : Scheduler). x ≡ schedule (record (charged s c) { need_reschedule = true }))
        ((charge (s.tasks c)).time_slice == 0) (λ _. refl)
        (λ h. absurd (false≢true (sym h ∙ (==_iff _ _).1 (slice-charge (s.tasks c) 0 v.slice))))

ticks-suc : (n : ℕ) (s : Scheduler) → ticks (n + 1) s ≡ tick (ticks n s)
unfolding ticks
ticks-suc zero s = refl
ticks-suc (suc n) s =
    let shape : suc n + 1 ≡ suc (n + 1) = omega arith in rw shape (ticks-suc n (tick s))

-- With preemption enabled, a running current task with `n + 1` ticks of its slice left, no signal
-- pending and no switch asked for keeps the processor for `n` ticks, while the queue stays as it is; the tick after those charges
-- the task and calls `schedule`.
pub ticks_quantum :
    (n : ℕ) (s : Scheduler) (c : Ref)
    → OnCpu s c (n + 1)
    → OnCpu (ticks n s) c 1
      × ((ticks n s).ready_queue ≡ s.ready_queue)
      × (ticks (n + 1) s ≡ schedule (record (charged (ticks n s) c) { need_reschedule = true }))
ticks_quantum n s c v =
    let (w, q) = ticks-OnCpu n s c 0 v in (w, q, ticks-suc n s ∙ tick_last (ticks n s) c w)
