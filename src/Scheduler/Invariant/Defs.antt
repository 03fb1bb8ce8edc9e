-- ===== src/Scheduler/Invariant/Defs.antt =====
-- src/sched/scheduler.rs: what a well-formed ready queue is, and how it is filled and emptied.
use delta_os.Base.{
  ℕ, ◌≤◌, ◌<◌, ◌≡◌, ◌≢◌, ap, sym, subst, Option, none, some, List, [], ◌∷◌, ◌++◌, arith, All,
  All-append, All-map, All-retain, retain, Bool,
}
use native.Mathlib.Decide.{ℕ_discrete}
use delta_os.Task.{Task}
use delta_os.Scheduler.State.{Ref, Scheduler, put}
use delta_os.Scheduler.Pick.{Chosen, Ready}

pub put_self : (tasks : Ref → Task) (r : Ref) (t : Task) → put tasks r t r ≡ t
unfolding put
put_self tasks r t = ground arith

pub put-ne : (tasks : Ref → Task) (r q : Ref) (t : Task) → r ≢ q → put tasks r t q ≡ tasks q
unfolding put
put-ne tasks r q t ne = ground arith

-- The reference does not occur in the list.
abbrev pub Fresh : Ref → List Ref → Type 0
Fresh r q = All (λ x. r ≢ x) q

abbrev pub Distinct : List Ref → Type 0
Distinct [] = Unit
Distinct (x ∷ xs) = Fresh x xs × Distinct xs

abbrev pub Made : ℕ → List Ref → Type 0
Made n q = All (λ r. r < n) q

-- Every entry points to a ready task that has been made, and no task is queued twice.
pub record IsQueue (tasks : Ref → Task) (n : ℕ) (q : List Ref) : Type 0 where
  pub ready : All (Ready tasks) q
  pub distinct : Distinct q
  pub made : Made n q

-- The current task has been made and is not in the queue.
abbrev pub IsCurrent : ℕ → List Ref → Option Ref → Type 0
IsCurrent n q none = Unit
IsCurrent n q (some c) = (c < n) × Fresh c q

pub record Inv (s : Scheduler) : Type 0 where
  pub queue : IsQueue s.tasks s.allocated s.ready_queue
  pub current : IsCurrent s.allocated s.ready_queue s.current
  pub table : Made s.allocated s.all_tasks

pub Fresh-sym : (r : Ref) (q : List Ref) → Fresh r q → All (λ x. x ≢ r) q
Fresh-sym r q f = All-map (λ x. r ≢ x) (λ x. x ≢ r) q (λ x ne e. ne (sym e)) f

Distinct-snoc : (q : List Ref) (r : Ref) → Distinct q → Fresh r q → Distinct (q ++ r ∷ [])
Distinct-snoc [] r d f = (tt, tt)
Distinct-snoc (x ∷ q) r d f =
    (All-append (λ y. x ≢ y) q (r ∷ []) d.0 (λ e. f.0 (sym e), tt), Distinct-snoc q r d.1 f.1)

All-drop {κ} :
    (P : Ref → Type κ) (before after : List Ref) (r : Ref)
    → All P (before ++ r ∷ after)
    → P r × All P (before ++ after)
All-drop P [] after r a = a
All-drop P (x ∷ before) after r a = let (h, t) = All-drop P before after r a.1 in (h, (a.0, t))

Distinct-drop :
    (before after : List Ref) (r : Ref)
    → Distinct (before ++ r ∷ after)
    → Distinct (before ++ after) × Fresh r (before ++ after)
Distinct-drop [] after r d = (d.1, d.0)
Distinct-drop (x ∷ before) after r d =
    let (d', f) = Distinct-drop before after r d.1 in
    let (ne, f') = All-drop (λ y. x ≢ y) before after r d.0 in ((f', d'), (λ e. ne (sym e), f))

Distinct-retain : (p : Ref → Bool) (q : List Ref) → Distinct q → Distinct (retain p q)
Distinct-retain p [] d = tt
Distinct-retain p (x ∷ q) d =
    ground (arith, Distinct-retain p q d.1, All-retain (λ y. x ≢ y) p q d.0)

module _ {tasks : Ref → Task} {n : ℕ} {q : List Ref} (v : IsQueue tasks n q) where
  -- A change that leaves the queued tasks ready.
  pub IsQueue-tasks : (tasks' : Ref → Task) → All (Ready tasks') q → IsQueue tasks' n q
  IsQueue-tasks tasks' a = record { ready = a; distinct = v.distinct; made = v.made }

  pub IsQueue-put : (r : Ref) (t : Task) → Fresh r q → IsQueue (put tasks r t) n q
  IsQueue-put r t f = IsQueue-tasks (put tasks r t) (keep q v.ready f)
    where
      keep : (xs : List Ref) → All (Ready tasks) xs → Fresh r xs → All (Ready (put tasks r t)) xs
      keep [] a f = tt
      keep (x ∷ xs) a f = (rw (put-ne tasks r x t f.0) a.0, keep xs a.1 f.1)

  -- A write that keeps the state of the task.
  pub IsQueue-put_same :
      (r : Ref) (t : Task) → t.state ≡ (tasks r).state → IsQueue (put tasks r t) n q
  IsQueue-put_same r t e =
      IsQueue-tasks (put tasks r t) (All-map (Ready tasks) _ q (λ x h. same x h) v.ready)
    where
      same : (x : Ref) → Ready tasks x → Ready (put tasks r t) x
      same x h = elim (ℕ_discrete r x) [
        | yes p ↦ let e' : put tasks r t x ≡ t = rw (← p) (put_self tasks r t) in rw (e', e, p) h
        | no ne ↦ rw (put-ne tasks r x t ne) h
      ]

  pub IsQueue-push : (r : Ref) → Ready tasks r → r < n → Fresh r q → IsQueue tasks n (q ++ r ∷ [])
  IsQueue-push r h l f = record {
    ready = All-append (Ready tasks) q (r ∷ []) v.ready (h, tt);
    distinct = Distinct-snoc q r v.distinct f;
    made = All-append (λ x. x < n) q (r ∷ []) v.made (l, tt);
  }

  pub IsQueue-retain : (p : Ref → Bool) → IsQueue tasks n (retain p q)
  IsQueue-retain p = record {
    ready = All-retain (Ready tasks) p q v.ready;
    distinct = Distinct-retain p q v.distinct;
    made = All-retain (λ x. x < n) p q v.made;
  }

  pub IsQueue-le : (m : ℕ) → n ≤ m → IsQueue tasks m q
  IsQueue-le m h = record {
    ready = v.ready;
    distinct = v.distinct;
    made = All-map (λ x. x < n) (λ x. x < m) q (λ x l. omega arith) v.made;
  }

  pub IsQueue-take :
      (r : Ref) (before after : List Ref)
      → Chosen tasks q r before after
      → IsQueue tasks n (before ++ after) × Fresh r (before ++ after) × (r < n)
  IsQueue-take r before after c =
      let (d, f) = Distinct-drop before after r (subst Distinct c.place v.distinct) in
      let (l, m) = All-drop (λ x. x < n) before after r (subst (Made n) c.place v.made) in
      let (h, a) =
        All-drop (Ready tasks) before after r (subst (All (Ready tasks)) c.place v.ready) in
      (record { ready = a; distinct = d; made = m }, f, l)

-- A write that keeps a field keeps it for every reference.
pub put_field {ℓ} :
    {A : Type ℓ} (f : Task → A) (tasks : Ref → Task) (r : Ref) (t : Task) (x : Ref)
    → f t ≡ f (tasks r)
    → f (put tasks r t x) ≡ f (tasks x)
put_field f tasks r t x e = elim (ℕ_discrete r x) [
  | yes p ↦ let e' : put tasks r t x ≡ t = rw (← p) (put_self tasks r t) in rw (e', e, p)
  | no ne ↦ ap f (put-ne tasks r x t ne)
]
