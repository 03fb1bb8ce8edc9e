-- ===== src/Scheduler/Rotation.antt =====
-- src/sched/scheduler.rs: tasks of one priority take turns.
use delta_os.Base.{
  ℕ, zero, suc, ◌≡◌, ◌≢◌, refl, ap, sym, subst, ◌∙◌, inl, inr, true, some, List, [], ◌∷◌, ◌++◌, All,
  All-append, All-map, length,
}
use mathlib.Core.List.{append_assoc, append-nil}
use delta_os.Task.{TaskPriority, running, rank}
use delta_os.Scheduler.State.{Ref, Scheduler}
use delta_os.Scheduler.Run.{schedule}
use delta_os.Scheduler.Control.{yield_current}
use delta_os.Scheduler.Invariant.Defs.{Inv}
use delta_os.Scheduler.Invariant.Keep.{yield_current-Inv, flag-Inv}
use delta_os.Scheduler.Dispatch.{
  before_pick, requeue_current-running, schedule-before_pick, Chosen-head, before_pick-IsQueue,
}

-- The task runs, and it and all that wait have one priority.
pub record ArePeers (p : TaskPriority) (s : Scheduler) (c : Ref) : Type 0 where
  pub inv : Inv s
  pub current : s.current ≡ some c
  pub runs : (s.tasks c).state ≡ running
  pub own : (s.tasks c).priority ≡ p
  pub peers : All (λ r. (s.tasks r).priority ≡ p) s.ready_queue

append-ne-nil : (q : List Ref) (c : Ref) → q ++ c ∷ [] ≢ []
append-ne-nil [] c e = cc
append-ne-nil (x ∷ q) c e = cc

module _ {p : TaskPriority} (s : Scheduler) (c : Ref) (v : ArePeers p s c) where
  flagged : Scheduler
  flagged = record s { need_reschedule = true }

  -- The next in line runs, and the one that yields is the last.
  pub yield_current-ArePeers :
      (n : Ref) (rest : List Ref)
      → s.ready_queue ++ c ∷ [] ≡ n ∷ rest
      → ArePeers p (yield_current s) n × ((yield_current s).ready_queue ≡ rest)
  unfolding yield_current flagged
  yield_current-ArePeers n rest e =
      let (q, r, pr, fl) = requeue_current-running flagged c v.current v.runs in
      elim (schedule-before_pick flagged (flag-Inv true v.inv)) [
        | inl (empty, _) ↦ absurd (append-ne-nil s.ready_queue c (sym q ∙ empty))
        | inr (m, before, after, ch, d) ↦
            let b : Scheduler = before_pick flagged in
            let whole : All (λ r. (b.tasks r).priority ≡ p) (n ∷ rest) =
              subst (All (λ r. (b.tasks r).priority ≡ p)) e (
                All-map (λ r. (s.tasks r).priority ≡ p) (λ r. (b.tasks r).priority ≡ p) _
                  (λ r h. pr r ∙ h)
                  (All-append (λ r. (s.tasks r).priority ≡ p) s.ready_queue (c ∷ []) v.peers
                    (v.own, tt))) in
            let line : b.ready_queue ≡ n ∷ rest = q ∙ e in
            let ranks =
              All-map (λ r. (b.tasks r).priority ≡ p) (λ r. rank (b.tasks r).priority ≡ rank p)
                (n ∷ rest) (λ r h. ap rank h) whole in
            let head =
              Chosen-head b.tasks (rank p) b.ready_queue m before after ch
                (before_pick-IsQueue (flag-Inv true v.inv)).ready
                (subst (All (λ r. rank (b.tasks r).priority ≡ rank p)) (sym line) ranks) in
            let k : m ∷ before ++ after ≡ n ∷ rest = sym head ∙ line in
            let mn : m ≡ n = cc in
            let ends : before ++ after ≡ rest = cc in
            let later =
              All-map (λ r. (b.tasks r).priority ≡ p)
                (λ r. ((yield_current s).tasks r).priority ≡ p) (n ∷ rest)
                (λ r h. d.priorities r ∙ h) whole in
            (
              record {
                inv = yield_current-Inv v.inv;
                current = d.current ∙ ap (λ (r : Ref). some r) mn;
                runs = subst (λ r. ((schedule flagged).tasks r).state ≡ running) mn d.runs;
                own = later.0;
                peers =
                    subst (All (λ r. ((yield_current s).tasks r).priority ≡ p))
                      (sym (d.queue ∙ ends)) later.1;
              },
              d.queue ∙ ends,
            )
      ]

-- The current task yields `n` times, whoever it is.
unfoldable pub yields : ℕ → Scheduler → Scheduler
yields zero s = s
yields (suc n) s = yields n (yield_current s)

first_of_append :
    (xs : List Ref) (x : Ref) (ys : List Ref)
    → (n : Ref) × (rest : List Ref) × (xs ++ x ∷ ys ≡ n ∷ rest)
first_of_append [] x ys = (x, ys, refl)
first_of_append (y ∷ xs) x ys = (y, xs ++ x ∷ ys, refl)

-- In a scheduler with the invariant whose current task runs and has the priority of all that wait,
-- each of them gets the processor after as many yields as there are tasks ahead of it, the running
-- one counted, and those tasks are then behind it in their order.
pub yields_turn :
    (p : TaskPriority) (before : List Ref) (s : Scheduler) (c r : Ref) (after : List Ref)
    → ArePeers p s c
    → c ∷ s.ready_queue ≡ before ++ r ∷ after
    → ((yields (length before) s).current ≡ some r)
      × ((yields (length before) s).ready_queue ≡ after ++ before)
      × ArePeers p (yields (length before) s) r
unfolding yields
yields_turn p [] s c r after v e =
    let cr : c ≡ r = cc in
    let q : s.ready_queue ≡ after = cc in
    (v.current ∙ ap (λ (x : Ref). some x) cr, q ∙ sym (append-nil after), subst (ArePeers p s) cr v)
yields_turn p (x ∷ before) s c r after v e =
    let cx : c ≡ x = cc in
    let q : s.ready_queue ≡ before ++ r ∷ after = cc in
    let line : s.ready_queue ++ c ∷ [] ≡ before ++ r ∷ (after ++ x ∷ []) =
      rw (q, cx) (append_assoc before (r ∷ after) (x ∷ [])) in
    let (n, rest, h) = first_of_append before r (after ++ x ∷ []) in
    let (next, queue) = yield_current-ArePeers s c v n rest (line ∙ h) in
    let (now, then', peers) =
      yields_turn p before (yield_current s) n r (after ++ x ∷ []) next
        (ap (◌∷◌ n) queue ∙ sym h) in
    (now, then' ∙ append_assoc after (x ∷ []) before, peers)
