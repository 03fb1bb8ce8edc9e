-- ===== src/Scheduler/Preempt.antt =====
-- src/sched/scheduler.rs: the timer's two entry points, `preempt_schedule` and `tick`.
use delta_os.Base.{
  ℕ, ◌≡◌, ◌≢◌, refl, ap, sym, subst, ◌∙◌, ◌⊎◌, inl, inr, true, not, some, List, [], ◌∷◌, ◌++◌,
  if_elim,
}
use native.Mathlib.Decide.{ℕ_discrete}
use mathlib.Core.Bool.{false≢true}
use delta_os.Base.Word.{add64}
use delta_os.Task.{Task, ready, running, reset_time_slice}
use delta_os.Scheduler.State.{Ref, Scheduler}
use delta_os.Scheduler.Run.{
  pick_next_task, start, preempt_current, preempt_dispatch, preempt_schedule,
}
use delta_os.Scheduler.Pick.{Chosen, pick_next_task-Picks}
use delta_os.Scheduler.Invariant.Defs.{Inv, put_self, put-ne}
use delta_os.Scheduler.Invariant.Switch.{pick-none, preempt_current-Requeued}

append-ne-nil : (q : List Ref) (c : Ref) → q ++ c ∷ [] ≢ []
append-ne-nil [] c e = cc
append-ne-nil (x ∷ q) c e = cc

-- The scheduler from which `preempt_schedule` picks.
abbrev pub saved : Scheduler → ℕ → Scheduler
saved s rsp = preempt_current s s.current rsp

preempt_current_lem :
    (s : Scheduler) (c : Ref) (rsp : ℕ)
    → s.current ≡ some c
    → ((saved s rsp).ready_queue ≡ s.ready_queue ++ c ∷ [])
      × (((saved s rsp).tasks c).state ≡ ready)
      × (((saved s rsp).tasks c).saved_rsp ≡ rsp)
      × ((saved s rsp).context_switches ≡ s.context_switches)
unfolding preempt_current reset_time_slice
preempt_current_lem s c rsp e = rw e (
  refl,
  ap (λ (t : Task). t.state) (put_self s.tasks c _),
  ap (λ (t : Task). t.saved_rsp) (put_self s.tasks c _),
  refl,
)

-- The interrupted task `c` has been saved and queued, and `n` goes on from its own stack pointer.
pub record Preempted (s s' : Scheduler) (c : Ref) (rsp rsp' : ℕ) (n : Ref) (rest : List Ref)
    : Type 0 where
  pub saves : ((saved s rsp).tasks c).saved_rsp ≡ rsp
  pub resumes : rsp' ≡ ((saved s rsp).tasks n).saved_rsp
  pub current : s'.current ≡ some n
  pub runs : (s'.tasks n).state ≡ running
  pub others : (r : Ref) → n ≢ r → s'.tasks r ≡ (saved s rsp).tasks r
  pub queue : s'.ready_queue ≡ rest
  pub counted : s'.context_switches ≡ add64 s.context_switches 1

preempt_schedule-enabled :
    (s : Scheduler) (rsp : ℕ)
    → s.preempt_enabled ≡ true
    → preempt_schedule s rsp
      ≡ preempt_dispatch
          (saved s rsp)
          (pick_next_task (saved s rsp).tasks (saved s rsp).ready_queue)
          rsp
unfolding preempt_schedule
preempt_schedule-enabled s rsp on =
    if_elim
      (λ (p : ℕ × Scheduler).
        p
        ≡ preempt_dispatch (saved s rsp)
            (pick_next_task (saved s rsp).tasks (saved s rsp).ready_queue) rsp)
      (not s.preempt_enabled) (λ e. absurd (false≢true (sym (ap not on) ∙ e))) (λ _. refl)

preempt_dispatch-Preempted :
    (s : Scheduler) (c : Ref) (rsp : ℕ) (n : Ref) (rest : List Ref)
    → s.current ≡ some c
    → Preempted s
        (preempt_dispatch (saved s rsp) (some (n, rest)) rsp).1
        c
        rsp
        (preempt_dispatch (saved s rsp) (some (n, rest)) rsp).0
        n
        rest
unfolding preempt_dispatch start
preempt_dispatch-Preempted s c rsp n rest cur =
    let (q, st, sv, cs) = preempt_current_lem s c rsp cur in
    record {
      saves = sv;
      resumes = refl;
      current = refl;
      runs = ap (λ (t : Task). t.state) (put_self (saved s rsp).tasks n _);
      others = λ r ne. put-ne (saved s rsp).tasks n r _ ne;
      queue = refl;
      counted = ap (λ (k : ℕ). add64 k 1) cs;
    }

module _ (s : Scheduler) (c : Ref) (rsp : ℕ) (on : s.preempt_enabled ≡ true)
    (cur : s.current ≡ some c) (v : Inv s) where
  -- With preemption enabled, a current task and the invariant, `preempt_schedule` saves the interrupted task's stack pointer, puts
  -- the task behind the others, and goes on with the first of the ready tasks of the highest
  -- priority, from the stack pointer saved for that task.
  pub preempt_schedule_lem :
      let (rsp', s') = preempt_schedule s rsp in
      (n : Ref) × (before : List Ref) × (after : List Ref) × Chosen
        (saved s rsp).tasks
        (s.ready_queue ++ c ∷ [])
        n
        before
        after
      × Preempted s s' c rsp rsp' n (before ++ after)
  preempt_schedule_lem =
      let (q, st, sv, cs) = preempt_current_lem s c rsp cur in
      let w = preempt_current-Requeued s s.current rsp v v.current in
      elim (pick_next_task-Picks (saved s rsp).tasks (saved s rsp).ready_queue) [
        | inl (n, before, after, ch, e) ↦ (
          n,
          before,
          after,
          subst (λ x. Chosen (saved s rsp).tasks x n before after) q ch,
          rw (preempt_schedule-enabled s rsp on, e)
              (preempt_dispatch-Preempted s c rsp n (before ++ after) cur),
        )
        | inr (e, _) ↦ absurd (append-ne-nil s.ready_queue c (sym q ∙ pick-none _ w.queue e))
      ]

  -- With preemption enabled, a current task and the invariant, the current task is ready or running
  -- after `preempt_schedule`, whatever its state was, also blocked or terminated.
  pub preempt_schedule_revives :
      let s' = (preempt_schedule s rsp).1 in
      ((s'.tasks c).state ≡ ready) ⊎ ((s'.tasks c).state ≡ running)
  preempt_schedule_revives =
      let (q, st, sv, cs) = preempt_current_lem s c rsp cur in
      let (n, before, after, ch, p) = preempt_schedule_lem in
      elim (ℕ_discrete n c) [
        | yes e ↦ inr (subst (λ x. ((preempt_schedule s rsp).1.tasks x).state ≡ running) e p.runs)
        | no ne ↦ inl (ap (λ (t : Task). t.state) (p.others c ne) ∙ st)
      ]
