-- ===== src/Scheduler/Table.antt =====
-- src/sched/scheduler.rs: the table of all tasks, as creation, lookup and clean-up see it.
use Prim.Native.String.{String}
use delta_os.Base.{
  ℕ, ◌<◌, ◌≡◌, refl, ap, sym, subst, ◌∙◌, Bool, true, false, not, ◌&&◌, ◌||◌, some, List, [], ◌∷◌,
  ◌++◌, arith, if◌then◌else◌, ◌==◌, ==_iff, ==_ne, if_elim, All, All-map, All-retain_map, retain,
}
use mathlib.Core.Bool.{false≢true}
use delta_os.Task.{
  Task, ready, normal, kernel, foreground, is_terminated, ExitCode, new_kernel, build,
  setup_initial_stack, Machine,
}
use delta_os.Scheduler.State.{Ref, Scheduler, put, enlist, create_kernel_task}
use delta_os.Scheduler.Control.{
  find_task, has_id, terminated_ids, forget_id, forget_ids, cleanup_terminated,
}
use delta_os.Scheduler.Query.{TaskInfo, info_of, get_task_info}
use delta_os.Scheduler.Invariant.Defs.{Made, put_self, put-ne}

-- All ids of the table have been given out, and the references made.
pub record IsTable (s : Scheduler) : Type 0 where
  pub ids : All (λ r. (s.tasks r).id < s.machine.next_task_id) s.all_tasks
  pub made : Made s.allocated s.all_tasks

-- A search that fails in the table finds a new last entry that passes.
find_task-snoc :
    (test : Task → Bool) (tasks : Ref → Task) (rs : List Ref) (n : Ref)
    → All (λ r. test (tasks r) ≡ false) rs
    → test (tasks n) ≡ true
    → find_task test tasks (rs ++ n ∷ []) ≡ some n
unfolding find_task
find_task-snoc test tasks [] n a h = rw h
find_task-snoc test tasks (x ∷ rs) n a h = rw a.0 (find_task-snoc test tasks rs n a.1 h)

other-id :
    (s : Scheduler) (t : Task) (id : ℕ) (rs : List Ref)
    → All (λ r. (s.tasks r).id < id) rs
    → Made s.allocated rs
    → All (λ r. has_id id (put s.tasks s.allocated t r) ≡ false) rs
other-id s t id [] a m = tt
other-id s t id (x ∷ rs) a m = (
  rw (put-ne s.tasks s.allocated x t (λ e. absurd (omega arith)))
      (==_ne _ _ (λ e. absurd (omega arith))),
  other-id s t id rs a.1 m.1,
)

-- The task that `enlist` puts into the table.
abbrev enlisted : Scheduler → Task × Machine → Task
enlisted s (t, m) = record ((setup_initial_stack t m.memory).0) { start_tick = s.timer_ticks }

info_of-enlisted : (s : Scheduler) (p : Task × Machine) → info_of (enlisted s p) ≡ info_of p.0
unfolding info_of setup_initial_stack
info_of-enlisted s (t, m) = refl

id-enlisted : (s : Scheduler) (p : Task × Machine) → (enlisted s p).id ≡ p.0.id
unfolding setup_initial_stack
id-enlisted s (t, m) = refl

get_task_info-enlist :
    (s : Scheduler) (p : Task × Machine)
    → All (λ r. (s.tasks r).id < p.0.id) s.all_tasks
    → Made s.allocated s.all_tasks
    → get_task_info (enlist s p).1 p.0.id ≡ some (info_of p.0)
unfolding get_task_info enlist info_of
get_task_info-enlist s (t, m) a made =
    let new = enlisted s (t, m) in
    let self = put_self s.tasks s.allocated new in
    let hit : has_id t.id (put s.tasks s.allocated new s.allocated) ≡ true =
      rw self ((==_iff _ _).1 (id-enlisted s (t, m))) in
    rw
      (
        find_task-snoc (has_id t.id) (put s.tasks s.allocated new) s.all_tasks s.allocated
            (other-id s new t.id s.all_tasks a made) hit,
        self,
      )
      (ap (λ (i : TaskInfo). some i) (info_of-enlisted s (t, m)))

abbrev pub fresh_info : ℕ → ℕ → String → TaskInfo
fresh_info id entry name = record {
  id = id;
  name = name;
  state = ready;
  priority = normal;
  task_type = kernel;
  mode = foreground;
  entry_point = entry;
  cpu_ticks = 0;
  exit_code = ExitCode.plus 0;
}

info_of-new_kernel :
    (m : Machine) (entry : ℕ) (name : String)
    → info_of (new_kernel m entry name).0 ≡ fresh_info m.next_task_id entry name
unfolding info_of new_kernel build
info_of-new_kernel m entry name = refl

id-enlist : (s : Scheduler) (p : Task × Machine) → (enlist s p).0 ≡ p.0.id
unfolding enlist
id-enlist s (t, m) = refl

id-new_kernel :
    (m : Machine) (entry : ℕ) (name : String) → (new_kernel m entry name).0.id ≡ m.next_task_id
unfolding new_kernel build
id-new_kernel m entry name = refl

-- In a scheduler whose table holds only ids given out before, a kernel task that is created is
-- found under the id that the call returns, with its name and entry point, ready, of normal
-- priority and with no CPU time; and the id is the next one.
pub get_task_info-create_kernel_task :
    (s : Scheduler) (entry : ℕ) (name : String)
    → IsTable s
    → let (id, s') = create_kernel_task s entry name in
      (id ≡ s.machine.next_task_id) × (get_task_info s' id ≡ some (fresh_info id entry name))
unfolding create_kernel_task new_kernel
get_task_info-create_kernel_task s entry name v =
    let p = new_kernel s.machine entry name in
    let e = id-new_kernel s.machine entry name in
    (
      id-enlist s p ∙ e,
      rw (id-enlist s p) (
          get_task_info-enlist s p
            (subst (λ i. All (λ r. (s.tasks r).id < i) s.all_tasks) (sym e) v.ids) v.made
          ∙ ap (λ (i : TaskInfo). some i) (info_of-new_kernel s.machine entry name)),
    )

-- The table with each of the ids removed in turn.
pub contains : List ℕ → ℕ → Bool
contains [] id = false
contains (x ∷ xs) id = (id == x) || contains xs id

retain-retain :
    (p q : Ref → Bool) (rs : List Ref) → retain p (retain q rs) ≡ retain (λ r. q r && p r) rs
retain-retain p q [] = refl
retain-retain p q (x ∷ rs) = ground (arith, retain-retain p q rs)

retain_ext :
    (p q : Ref → Bool) (rs : List Ref) → ((r : Ref) → p r ≡ q r) → retain p rs ≡ retain q rs
retain_ext p q [] h = refl
retain_ext p q (x ∷ rs) h = ground (arith, h x, retain_ext p q rs h)

retain-true : (rs : List Ref) → retain (λ (r : Ref). true) rs ≡ rs
retain-true [] = refl
retain-true (x ∷ rs) = ap (◌∷◌ x) (retain-true rs)

abbrev pub without : (Ref → Task) → List ℕ → List Ref → List Ref
without tasks ids rs = retain (λ r. not (contains ids (tasks r).id)) rs

forget_ids_lem :
    (s : Scheduler) (ids : List ℕ)
    → ((forget_ids s ids).tasks ≡ s.tasks)
      × ((forget_ids s ids).all_tasks ≡ without s.tasks ids s.all_tasks)
      × ((forget_ids s ids).ready_queue ≡ without s.tasks ids s.ready_queue)
unfolding forget_ids forget_id contains
forget_ids_lem s [] = (refl, sym (retain-true s.all_tasks), sym (retain-true s.ready_queue))
forget_ids_lem s (id ∷ ids) =
    let (t, a, q) = forget_ids_lem (forget_id s id) ids in
    (t, a ∙ join s.all_tasks, q ∙ join s.ready_queue)
  where
    join :
        (rs : List Ref)
        → without s.tasks ids (retain (λ r. not (has_id id (s.tasks r))) rs)
          ≡ without s.tasks (id ∷ ids) rs
    join rs =
        retain-retain (λ r. not (contains ids (s.tasks r).id)) (λ r. not (has_id id (s.tasks r))) rs
        ∙ retain_ext (λ r. not (has_id id (s.tasks r)) && not (contains ids (s.tasks r).id))
            (λ r. not (contains (id ∷ ids) (s.tasks r).id)) rs (λ r. ground arith)

abbrev Caught : (Ref → Task) → List ℕ → Ref → Type 0
Caught tasks ids x = is_terminated (tasks x).state ≡ true → contains ids (tasks x).id ≡ true

contains-cons : (id x : ℕ) (ids : List ℕ) → contains ids x ≡ true → contains (id ∷ ids) x ≡ true
unfolding contains
contains-cons id x ids e = ground arith

contains_self : (id : ℕ) (ids : List ℕ) → contains (id ∷ ids) id ≡ true
unfolding contains
contains_self id ids = ground arith

terminated_ids-cons :
    (tasks : Ref → Task) (x : Ref) (rs : List Ref)
    → terminated_ids tasks (x ∷ rs) ≡ (
        if is_terminated (tasks x).state
        then (tasks x).id ∷ terminated_ids tasks rs
        else terminated_ids tasks rs)
unfolding terminated_ids
terminated_ids-cons tasks x rs = ground arith

terminated_ids-Caught :
    (tasks : Ref → Task) (rs : List Ref) → All (Caught tasks (terminated_ids tasks rs)) rs
terminated_ids-Caught tasks [] = tt
terminated_ids-Caught tasks (x ∷ rs) =
    let ids = terminated_ids tasks rs in
    let id = (tasks x).id in
    let rest = terminated_ids-Caught tasks rs in
    subst (λ l. All (Caught tasks l) (x ∷ rs)) (sym (terminated_ids-cons tasks x rs))
      (if_elim (λ l. All (Caught tasks l) (x ∷ rs)) (is_terminated (tasks x).state)
        (λ e. (
          (λ h. contains_self id ids),
          All-map (Caught tasks ids) (Caught tasks (id ∷ ids)) rs
              (λ y h k. contains-cons id (tasks y).id ids (h k)) rest,
        ))
        (λ e. ((λ h. absurd (false≢true (sym e ∙ h))), rest)))

-- After `cleanup_terminated` no task of the table is terminated. The table and the ready queue
-- keep, in order, exactly the entries whose id no terminated task of the table had, and no task
-- changes.
pub cleanup_terminated_lem :
    (s : Scheduler)
    → let s' = cleanup_terminated s in
      let ids = terminated_ids s.tasks s.all_tasks in
      All (λ r. is_terminated (s'.tasks r).state ≡ false) s'.all_tasks
      × (s'.all_tasks ≡ without s.tasks ids s.all_tasks)
      × (s'.ready_queue ≡ without s.tasks ids s.ready_queue)
      × (s'.tasks ≡ s.tasks)
unfolding cleanup_terminated
cleanup_terminated_lem s =
    let ids = terminated_ids s.tasks s.all_tasks in
    let (t, a, q) = forget_ids_lem s ids in
    (
      rw (t, a)
          (All-retain_map (λ r. not (contains ids (s.tasks r).id)) (Caught s.tasks ids)
            (λ r. is_terminated (s.tasks r).state ≡ false) s.all_tasks (λ r k h. ground arith)
            (terminated_ids-Caught s.tasks s.all_tasks)),
      a,
      q,
      t,
    )
