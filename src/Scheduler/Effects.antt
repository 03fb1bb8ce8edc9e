-- ===== src/Scheduler/Effects.antt =====
-- src/sched/scheduler.rs: what the control operations change, and when they fail.
use delta_os.Base.{
  ℕ, ◌≤◌, ◌<◌, ◌≡◌, ◌≢◌, refl, ap, ◌⊎◌, inl, inr, true, false, not, some, List, [], ◌∷◌, ◌++◌,
  arith, ==_iff, leb, leb→le, Bool-cases, All, retain, Option-cases,
}
use delta_os.Kernel.Result.{ok, err, invalid_argument, access_denied}
use delta_os.Task.{Task, ExitCode, ready, terminated, stopped, is_foreground_mode, send_signal}
use delta_os.Scheduler.State.{Ref, Scheduler, put}
use delta_os.Scheduler.Control.{
  find_task, has_id, terminate_found, terminate_task, background_found, background_task,
  foreground_found, foreground_task,
}
use delta_os.Scheduler.Lookup.{find_task-none}
use delta_os.Scheduler.Invariant.Defs.{put_self, put-ne, put_field}

-- No task of the table has the id.
abbrev pub Unknown : Scheduler → ℕ → Type 0
Unknown s id = All (λ r. has_id id (s.tasks r) ≡ false) s.all_tasks

-- The first task of the table with the id.
abbrev pub Holds : Scheduler → ℕ → Ref → Type 0
Holds s id r = find_task (has_id id) s.tasks s.all_tasks ≡ some r

-- A task has been terminated with a code: it alone has changed, and no queue entry has its id.
pub record Terminated (s s' : Scheduler) (r : Ref) (id : ℕ) (code : ExitCode) : Type 0 where
  pub state : (s'.tasks r).state ≡ terminated
  pub exit : (s'.tasks r).exit_code ≡ code
  pub others : (q : Ref) → r ≢ q → s'.tasks q ≡ s.tasks q
  pub unqueued : All (λ q. (s'.tasks q).id ≢ id) s'.ready_queue
  pub flag : s'.need_reschedule ≡ true

retain-not :
    (tasks : Ref → Task) (id : ℕ) (q : List Ref)
    → All (λ r. (tasks r).id ≢ id) (retain (λ r. not (has_id id (tasks r))) q)
retain-not tasks id [] = tt
retain-not tasks id (x ∷ q) = elim (Bool-cases (has_id id (tasks x))) [
  | inl e ↦ rw e (retain-not tasks id q)
  | inr e ↦ rw e ((λ h. cc (e, (==_iff _ _).1 h)), retain-not tasks id q)
]

-- `terminate_task` refuses the ids 0, 1 and 2 and unknown ids, and then changes nothing; any
-- other task it terminates, and takes out of the ready queue.
pub terminate_task_lem :
    (s : Scheduler) (id : ℕ) (code : ExitCode)
    → ((id ≤ 2) × (terminate_task s id code ≡ (err access_denied, s)))
      ⊎ ((2 < id) × Unknown s id × (terminate_task s id code ≡ (err invalid_argument, s)))
      ⊎ ((2 < id)
          × ((r : Ref) × Holds s id r
              × ((terminate_task s id code).0 ≡ ok tt)
              × Terminated s (terminate_task s id code).1 r id code))
unfolding terminate_task terminate_found
terminate_task_lem s id code = elim (Bool-cases (leb id 2)) [
  | inl e ↦ inl (leb→le _ _ e, rw e)
  | inr e ↦ inr (elim (Option-cases (find_task (has_id id) s.tasks s.all_tasks)) [
    | inl n ↦ inl (ground arith, find_task-none (has_id id) s.tasks s.all_tasks n, rw (e, n))
    | inr (r, f) ↦ inr (
      ground arith,
      (
        r,
        f,
        rw (e, f),
        rw (e, f)
            (record {
              state = ap (λ (t : Task). t.state) (put_self s.tasks r _);
              exit = ap (λ (t : Task). t.exit_code) (put_self s.tasks r _);
              others = λ q ne. put-ne s.tasks r q _ ne;
              unqueued =
                  retain-not
                    (put s.tasks r (record (s.tasks r) { state = terminated; exit_code = code })) id
                    s.ready_queue;
              flag = refl;
            }),
      ),
    )
  ])
]

-- `foreground_task` never makes a task ready: whatever it returns, the queue, the flag and the
-- states of all tasks are as they were, also for a stopped task.
pub foreground_task_resumes_none :
    (s : Scheduler) (id : ℕ)
    → let s' = (foreground_task s id).1 in
      (s'.ready_queue ≡ s.ready_queue)
      × (s'.need_reschedule ≡ s.need_reschedule)
      × ((r : Ref) → (s'.tasks r).state ≡ (s.tasks r).state)
unfolding foreground_task foreground_found
foreground_task_resumes_none s id =
    elim (Option-cases (find_task (has_id id) s.tasks s.all_tasks)) [
      | inl n ↦ rw n (refl, refl, λ r. refl)
      | inr (r, f) ↦ rw f (elim (Bool-cases (is_foreground_mode (s.tasks r).mode)) [
        | inl e ↦ rw e (refl, refl, λ q. refl)
        | inr e ↦ rw e (refl, refl, λ q. put_field (λ t. t.state) s.tasks r _ q refl)
      ])
    ]

-- `background_task`, given the id of a stopped task, makes the task ready and queues it, whatever
-- its state was.
pub background_task_resumes :
    (s : Scheduler) (id : ℕ) (r : Ref)
    → Holds s id r
    → (s.tasks r).mode ≡ stopped
    → let (result, s') = background_task s id in
      (result ≡ ok tt) × ((s'.tasks r).state ≡ ready) × (s'.ready_queue ≡ s.ready_queue ++ r ∷ [])
unfolding background_task background_found send_signal
background_task_resumes s id r f m =
    rw (f, m) (refl, ap (λ (t : Task). t.state) (put_self s.tasks r _), refl)
