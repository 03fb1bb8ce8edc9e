-- ===== src/Scheduler/Choice.antt =====
-- src/sched/scheduler.rs: `schedule` from the scheduler it is called on.
use delta_os.Base.{
  ℕ, ◌≤◌, ◌<◌, ◌≡◌, ◌≢◌, refl, sym, ap, subst, ◌∙◌, ◌⊎◌, inl, inr, true, false, Option, none, some,
  List, [], ◌∷◌, ◌++◌, if◌then◌else◌, arith, All, All-map, Bool-cases,
}
use mathlib.Core.List.{append-nil}
use mathlib.Core.Option.{some-injective}
use delta_os.Task.{Task, ready, running, is_running, reset_time_slice, rank}
use delta_os.Scheduler.State.{Ref, Scheduler, put}
use delta_os.Scheduler.Run.{requeue_current, schedule}
use delta_os.Scheduler.Pick.{Chosen, Ready, AtMost, Below}
use delta_os.Scheduler.Dispatch.{before_pick, before_pick-IsQueue, schedule-before_pick}
use delta_os.Scheduler.Invariant.Defs.{Inv, put_self, put-ne, put_field}

-- The current task, if there is one that runs.
abbrev pub running_of : (Ref → Task) → Option Ref → List Ref
running_of tasks none = []
running_of tasks (some c) = if is_running (tasks c).state then c ∷ [] else []

-- The tasks that could have the processor, in the order of their turns.
abbrev pub candidates : Scheduler → List Ref
candidates s = s.ready_queue ++ running_of s.tasks s.current

-- The first of the candidates of the highest priority.
pub record Selected (s : Scheduler) (n : Ref) (before after : List Ref) : Type 0 where
  pub place : candidates s ≡ before ++ n ∷ after
  pub first : All (λ r. rank (s.tasks r).priority < rank (s.tasks n).priority) before
  pub highest : All (λ r. rank (s.tasks r).priority ≤ rank (s.tasks n).priority) after

-- The selected task has the processor; the task that had it, if another, waits with a full slice.
pub record Switched (s s' : Scheduler) (n : Ref) (before after : List Ref) : Type 0 where
  pub queue : s'.ready_queue ≡ before ++ after
  pub current : s'.current ≡ some n
  pub runs : (s'.tasks n).state ≡ running
  pub waits :
      (c : Ref)
      → s.current ≡ some c
      → is_running (s.tasks c).state ≡ true
      → n ≢ c
      → ((s'.tasks c).state ≡ ready) × ((s'.tasks c).time_slice ≡ (s.tasks c).default_time_slice)
  pub others :
      (r : Ref)
      → n ≢ r
      → (s.current ≡ some r → is_running (s.tasks r).state ≡ false)
      → ((s'.tasks r).state ≡ (s.tasks r).state)
        × ((s'.tasks r).time_slice ≡ (s.tasks r).time_slice)
  pub priorities : (r : Ref) → (s'.tasks r).priority ≡ (s.tasks r).priority
  pub flag : s'.need_reschedule ≡ false

-- What `requeue_current` does with the task that was current.
record Joined (s : Scheduler) (old : Option Ref) (b : Scheduler) : Type 0 where
  queue : b.ready_queue ≡ s.ready_queue ++ running_of s.tasks old
  waits :
      (c : Ref)
      → old ≡ some c
      → is_running (s.tasks c).state ≡ true
      → ((b.tasks c).state ≡ ready) × ((b.tasks c).time_slice ≡ (s.tasks c).default_time_slice)
  others : (r : Ref) → (old ≡ some r → is_running (s.tasks r).state ≡ false) → b.tasks r ≡ s.tasks r
  priorities : (r : Ref) → (b.tasks r).priority ≡ (s.tasks r).priority
  flag : b.need_reschedule ≡ s.need_reschedule
  same : running_of s.tasks old ≡ [] → b ≡ s

requeue_current-Joined : (s : Scheduler) (old : Option Ref) → Joined s old (requeue_current s old)
unfolding requeue_current reset_time_slice
requeue_current-Joined s none = record {
  queue = sym (append-nil s.ready_queue);
  waits = λ c e h. absurd (cc);
  others = λ r h. refl;
  priorities = λ r. refl;
  flag = refl;
  same = λ e. refl;
}
requeue_current-Joined s (some c) = elim (Bool-cases (is_running (s.tasks c).state)) [
  | inl h ↦ rw h (record {
    queue = rw h refl;
    waits = λ d e k.
        let cd : c ≡ d = some-injective _ _ e in
        subst
          (λ x.
            ((put s.tasks c (reset_time_slice (record (s.tasks c) { state = ready })) x).state
              ≡ ready)
            × ((put s.tasks c (reset_time_slice (record (s.tasks c) { state = ready }))
                  x).time_slice
                ≡ (s.tasks x).default_time_slice))
          cd
          (
            ap (λ (t : Task). t.state) (put_self s.tasks c _),
            ap (λ (t : Task). t.time_slice) (put_self s.tasks c _),
          );
    others = λ r f.
        put-ne s.tasks c r _
          (λ e. cc (h, f (ap (λ (x : Ref). some x) e), ap (λ x. is_running (s.tasks x).state) e));
    priorities = λ r. put_field (λ t. t.priority) s.tasks c _ r refl;
    flag = refl;
    same = λ e. absurd (let q : c ∷ [] ≡ [] = rw h at e in cc);
  })
  | inr h ↦ rw h (record {
    queue = rw h (sym (append-nil s.ready_queue));
    waits = λ d e k. absurd (
        let cd : c ≡ d = some-injective _ _ e in
        cc (h, k, ap (λ x. is_running (s.tasks x).state) cd));
    others = λ r f. refl;
    priorities = λ r. refl;
    flag = refl;
    same = λ e. refl;
  })
]

-- Of ready tasks, what holds if they are ready holds.
settle :
    (tasks : Ref → Task) (P : Ref → Type 0) (xs : List Ref)
    → All (Ready tasks) xs
    → All (λ r. Ready tasks r → P r) xs
    → All P xs
settle tasks P [] a f = tt
settle tasks P (x ∷ xs) a f = (f.0 a.0, settle tasks P xs a.1 f.1)

All-split :
    (P : Ref → Type 0) (xs : List Ref) (n : Ref) (ys : List Ref)
    → All P (xs ++ n ∷ ys)
    → All P xs × All P ys
All-split P [] n ys a = (tt, a.1)
All-split P (x ∷ xs) n ys a = let (l, r) = All-split P xs n ys a.1 in ((a.0, l), r)

append-nothing : (xs ys : List Ref) → xs ++ ys ≡ [] → ys ≡ []
append-nothing [] ys e = e
append-nothing (x ∷ xs) ys e = absurd (cc)

-- The choice among ready tasks is the choice by priority alone.
Chosen-Selected :
    (s : Scheduler) (tasks : Ref → Task) (q : List Ref) (n : Ref) (before after : List Ref)
    → ((r : Ref) → (tasks r).priority ≡ (s.tasks r).priority)
    → q ≡ candidates s
    → All (Ready tasks) q
    → Chosen tasks q n before after
    → Selected s n before after
Chosen-Selected s tasks q n before after same e a c =
    let (l, r) = All-split (Ready tasks) before n after (subst (All (Ready tasks)) c.place a) in
    let Rank : Ref → ℕ = λ r. rank (s.tasks r).priority in
    record {
      place = sym e ∙ c.place;
      first =
          settle tasks (λ r. Rank r < Rank n) before l
            (All-map (Below tasks (rank (tasks n).priority)) _ before
              (λ r f k. omega (arith, f k, ap rank (same r), ap rank (same n))) c.first);
      highest =
          settle tasks (λ r. Rank r ≤ Rank n) after r
            (All-map (AtMost tasks (rank (tasks n).priority)) _ after
              (λ r f k. omega (arith, f k, ap rank (same r), ap rank (same n))) c.highest);
    }

-- In a scheduler with the invariant: its candidates are the queue and behind it the current task, if
-- that runs. Without candidates `schedule` changes nothing but the flag, which it clears. Otherwise the
-- first of the candidates of the highest priority leaves them, runs and is the current task, and the
-- others are the queue. A current task that ran and is not it is ready and has a full slice; every
-- other task keeps its state and its slice, and all keep their priorities.
pub schedule_lem :
    (s : Scheduler)
    → Inv s
    → ((candidates s ≡ []) × (schedule s ≡ record s { need_reschedule = false }))
      ⊎ ((n : Ref) × (before : List Ref) × (after : List Ref) × Selected s n before after
          × Switched s (schedule s) n before after)
schedule_lem s v =
    let taken : Scheduler = record s { need_reschedule = false; current = none } in
    let b : Scheduler = before_pick s in
    let j : Joined taken s.current b = requeue_current-Joined taken s.current in
    elim (schedule-before_pick s v) [
      | inl (e, same) ↦ inl (
        sym j.queue ∙ e,
        same
            ∙ ap (λ (x : Scheduler). record x { current = s.current })
                (j.same (append-nothing s.ready_queue _ (sym j.queue ∙ e))),
      )
      | inr (n, before, after, c, d) ↦ inr (
        n,
        before,
        after,
        Chosen-Selected s b.tasks b.ready_queue n before after j.priorities j.queue
            (before_pick-IsQueue v).ready c,
        record {
          queue = d.queue;
          current = d.current;
          runs = d.runs;
          waits = λ r e h ne. let (w, l) = j.waits r e h in (d.others r ne ∙ w, d.slices r ∙ l);
          others = λ r ne f.
              let same : b.tasks r ≡ s.tasks r = j.others r f in
              (
                d.others r ne ∙ ap (λ (t : Task). t.state) same,
                d.slices r ∙ ap (λ (t : Task). t.time_slice) same,
              );
          priorities = λ r. d.priorities r ∙ j.priorities r;
          flag = d.flag ∙ j.flag;
        },
      )
    ]
