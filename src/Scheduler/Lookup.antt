-- ===== src/Scheduler/Lookup.antt =====
-- src/sched/scheduler.rs: the loops over `all_tasks` that stop at the first task passing a test.
use delta_os.Base.{
  inl, inr, subst, ◌≡◌, Bool, true, false, none, some, List, [], ◌∷◌, arith, Bool-cases, All,
}
use delta_os.Task.{Task}
use delta_os.Scheduler.State.{Ref}
use delta_os.Scheduler.Control.{find_task}

module _ (test : Task → Bool) (tasks : Ref → Task) where
  -- What is found passes the test.
  pub find_task-test :
      (rs : List Ref) {r : Ref} → find_task test tasks rs ≡ some r → test (tasks r) ≡ true
  unfolding find_task
  find_task-test [] e = cc
  find_task-test (x ∷ rs) {r} e = ground (arith, find_task-test rs {r = r})

  -- What is found is in the table.
  pub find_task-All {κ} :
      (P : Ref → Type κ) (rs : List Ref) {r : Ref}
      → All P rs
      → find_task test tasks rs ≡ some r
      → P r
  unfolding find_task
  find_task-All P [] a e = absurd (cc)
  find_task-All P (x ∷ rs) {r} a e = elim (Bool-cases (test (tasks x))) [
    | inl h ↦ let q : x ≡ r = ground arith in subst P q a.0
    | inr h ↦ find_task-All P rs a.1 (rw h at e)
  ]

  -- Nothing is found exactly when no task of the table passes the test.
  pub find_task-none :
      (rs : List Ref) → find_task test tasks rs ≡ none → All (λ r. test (tasks r) ≡ false) rs
  unfolding find_task
  find_task-none [] e = tt
  find_task-none (x ∷ rs) e = ground (arith, find_task-none rs)
