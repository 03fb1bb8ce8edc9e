-- ===== src/Shell/Spares.antt =====
-- src/lib.rs: what the shell's commands can do to the scheduler's tasks.
use Prim.Native.String.{String}
use mathlib.Core.Option.{some-injective}
use native.Mathlib.Decide.{ℕ_discrete}
use delta_os.Base.{
  ℕ, ◌≤◌, ◌<◌, ◌≡◌, ◌≢◌, refl, sym, subst, ◌∙◌, true, false, not, ◌&&◌, ◌||◌, List, [], ◌∷◌, Option,
  none, some, ◌==◌, leb, if_elim, arith, inl, inr, Bool-cases, Option-cases,
}
use delta_os.Vfs.Path.{Text, is_empty, text_eq}
use delta_os.Task.{
  Task, ready, terminated, ExitCode, new_kernel, is_ready, is_stopped_mode, is_foreground_mode,
}
use delta_os.Scheduler.State.{Ref, Scheduler, put, enlist, create_kernel_task}
use delta_os.Scheduler.Control.{
  Outcome, find_task, has_id, terminate_found, terminate_task, background_found, background_task,
  foreground_found, foreground_task,
}
use delta_os.Scheduler.Lookup.{find_task-test}
use delta_os.Scheduler.Invariant.Defs.{Inv, put_self, put-ne}
use delta_os.Scheduler.Invariant.Keep.{state-setup_initial_stack, enlist-Inv}
use delta_os.Scheduler.Invariant.Found.{
  state-send_signal, terminate_task-Inv, background_task-Inv, foreground_task-Inv,
}
use delta_os.Console.{parse_int}
use delta_os.Shell.{
  Shell, Entries, trim, words, cmd_kill, cmd_bg, cmd_fg, cmd_run, cmd_dev, task_entry, run_entry,
  run_found, run_command, run_words, execute_command, is_among, plain_words, dev_words, dev_word,
  kill_word, run_word, bg_word, fg_word,
}

-- A stopped task is neither ready nor current.
abbrev pub Rested : Scheduler → Type 0
Rested s =
    (r : Ref)
    → is_stopped_mode (s.tasks r).mode ≡ true
    → (is_ready (s.tasks r).state ≡ false) × (s.current ≢ some r)

-- No task with one of the ids 0, 1 and 2 has been terminated on the way.
abbrev pub Spares : Scheduler → Scheduler → Type 0
Spares s s' =
    (r : Ref)
    → (s.tasks r).id ≤ 2
    → (s'.tasks r).state ≡ terminated
    → (s.tasks r).state ≡ terminated

ready_ends : ready ≢ terminated
ready_ends e = cc

put-Spares :
    (tasks : Ref → Task) (r : Ref) (t : Task)
    → ((tasks r).id ≤ 2 → t.state ≡ terminated → (tasks r).state ≡ terminated)
    → (x : Ref) → (tasks x).id ≤ 2
    → (put tasks r t x).state ≡ terminated
    → (tasks x).state ≡ terminated
put-Spares tasks r t f x le e = elim (ℕ_discrete r x) [
  | yes p ↦
      subst
        (λ y.
          (tasks y).id ≤ 2 → (put tasks r t y).state ≡ terminated → (tasks y).state ≡ terminated)
        p (λ le e. f le (rw (put_self tasks r t) at e)) le e
  | no ne ↦ rw (← put-ne tasks r x t ne) e
]

terminate_found-Spares :
    (s : Scheduler) (id : ℕ) (code : ExitCode) (o : Option Ref)
    → ((r : Ref) → o ≡ some r → 2 < (s.tasks r).id)
    → Spares s (terminate_found s id code o).1
unfolding terminate_found
terminate_found-Spares s id code none h = λ r le e. e
terminate_found-Spares s id code (some q) h =
    put-Spares s.tasks q _ λ le _. absurd (let lt = h q refl in omega arith)

terminate_task-Spares :
    (s : Scheduler) (id : ℕ) (code : ExitCode) → Spares s (terminate_task s id code).1
unfolding terminate_task
terminate_task-Spares s id code =
    if_elim (λ (o : Outcome). Spares s o.1) (leb id 2) (λ _ r le e. e)
      λ h. terminate_found-Spares s id code _ λ r f.
        let found = find_task-test (has_id id) s.tasks s.all_tasks f in ground (arith, found, h)

background_found-Spares : (s : Scheduler) (o : Option Ref) → Spares s (background_found s o).1
unfolding background_found
background_found-Spares s none = λ r le e. e
background_found-Spares s (some q) =
    if_elim (λ (o : Outcome). Spares s o.1) (not (is_stopped_mode (s.tasks q).mode)) (λ _ r le e. e)
      λ _. put-Spares s.tasks q _ λ le e. absurd (ready_ends (sym (state-send_signal _ _) ∙ e))

foreground_found-Spares : (s : Scheduler) (o : Option Ref) → Spares s (foreground_found s o).1
unfolding foreground_found
foreground_found-Spares s none = λ r le e. e
foreground_found-Spares s (some q) =
    if_elim (λ (o : Outcome). Spares s o.1) (is_foreground_mode (s.tasks q).mode) (λ _ r le e. e)
      λ _. put-Spares s.tasks q _ λ le e. e

create_kernel_task-Spares :
    (s : Scheduler) (entry : ℕ) (name : String) → Spares s (create_kernel_task s entry name).1
unfolding create_kernel_task enlist new_kernel
create_kernel_task-Spares s entry name = put-Spares s.tasks s.allocated _ λ le e. absurd (
    ready_ends (
      sym (
        state-setup_initial_stack (new_kernel s.machine entry name).0
          (new_kernel s.machine entry name).1.memory)
      ∙ e))

-- Only a stopped task is sent to the background, so a rested scheduler keeps its invariant.
background_task-Rested : (s : Scheduler) (id : ℕ) → Inv s → Rested s → Inv (background_task s id).1
unfolding background_task background_found
background_task-Rested s id v rest =
    elim (Option-cases (find_task (has_id id) s.tasks s.all_tasks)) [
      | inl n ↦ rw n v
      | inr (r, f) ↦ elim (Bool-cases (is_stopped_mode (s.tasks r).mode)) [
        | inl h ↦ background_task-Inv id v λ q g.
            let same : r ≡ q = some-injective _ _ (sym f ∙ g) in
            rest q (subst (λ y. is_stopped_mode (s.tasks y).mode ≡ true) same h)
        | inr h ↦ rw (f, h) v
      ]
    ]

-- The scheduler after a command has the invariant, and the first tasks are spared.
abbrev Kept : Scheduler → Option Scheduler → Type 0
Kept s o = (s' : Scheduler) × (o ≡ some s') × Inv s' × Spares s s'

same-Kept : (s : Scheduler) (o : Option Scheduler) → o ≡ some s → Inv s → Kept s o
same-Kept s o e v = (s, e, v, λ r le h. h)

abbrev After : Scheduler → Shell → Type 0
After s sh = Kept s sh.scheduler

module _ (entries : Entries) (s : Scheduler) (sh : Shell) (e : sh.scheduler ≡ some s)
    (v : Inv s) where
  cmd_kill-Kept : (args : List Text) → After s (cmd_kill sh args)
  unfolding cmd_kill
  cmd_kill-Kept [] = same-Kept s sh.scheduler e v
  cmd_kill-Kept (arg ∷ args) =
      if_elim (After s) (parse_int arg == 0) (λ _. same-Kept s sh.scheduler e v)
        λ _. rw e (
          _,
          refl,
          terminate_task-Inv (parse_int arg) (ExitCode.minus 9) v,
          terminate_task-Spares s (parse_int arg) (ExitCode.minus 9),
        )

  cmd_bg-Kept : Rested s → (args : List Text) → After s (cmd_bg sh args)
  unfolding cmd_bg background_task
  cmd_bg-Kept rest [] = same-Kept s sh.scheduler e v
  cmd_bg-Kept rest (arg ∷ args) = rw e (
    _,
    refl,
    background_task-Rested s (parse_int arg) v rest,
    background_found-Spares s (find_task (has_id (parse_int arg)) s.tasks s.all_tasks),
  )

  cmd_fg-Kept : (args : List Text) → After s (cmd_fg sh args)
  unfolding cmd_fg foreground_task
  cmd_fg-Kept [] = same-Kept s sh.scheduler e v
  cmd_fg-Kept (arg ∷ args) = rw e (
    _,
    refl,
    foreground_task-Inv (parse_int arg) v,
    foreground_found-Spares s (find_task (has_id (parse_int arg)) s.tasks s.all_tasks),
  )

  run_found-Kept : (word : Text) (o : Option (ℕ × String)) → After s (run_found sh word o)
  unfolding run_found run_entry create_kernel_task new_kernel
  run_found-Kept word none = same-Kept s sh.scheduler e v
  run_found-Kept word (some (entry, name)) =
      rw e (_, refl, enlist-Inv _ refl v, create_kernel_task-Spares s entry name)

  cmd_run-Kept : (args : List Text) → After s (cmd_run entries sh args)
  unfolding cmd_run
  cmd_run-Kept [] = same-Kept s sh.scheduler e v
  cmd_run-Kept (word ∷ args) = run_found-Kept word (task_entry entries word)

  run_command-Kept :
      Rested s → (cmd : Text) (args : List Text) → After s (run_command entries sh cmd args)
  unfolding run_command cmd_dev
  run_command-Kept rest cmd args =
      if_elim (After s) (text_eq cmd dev_word) (λ _. same-Kept s sh.scheduler e v)
        λ _.
          if_elim (After s) (text_eq cmd kill_word) (λ _. cmd_kill-Kept args)
            λ _.
              if_elim (After s) (text_eq cmd run_word) (λ _. cmd_run-Kept args)
                λ _.
                  if_elim (After s) (text_eq cmd bg_word) (λ _. cmd_bg-Kept rest args)
                    λ _.
                      if_elim (After s) (text_eq cmd fg_word) (λ _. cmd_fg-Kept args)
                        λ _.
                          if_elim (After s)
                            (is_among cmd plain_words || (is_among cmd dev_words && sh.dev_mode))
                            (λ _. same-Kept s sh.scheduler e v) λ _. same-Kept s sh.scheduler e v

  run_words-Kept : Rested s → (line : List Text) → After s (run_words entries sh line)
  unfolding run_words
  run_words-Kept rest [] = same-Kept s sh.scheduler e v
  run_words-Kept rest (cmd ∷ args) = run_command-Kept rest cmd args

-- Whatever line is typed, on a scheduler with its invariant whose stopped tasks are neither ready nor
-- current: the scheduler behind the command has the invariant, and no task with one of the ids 0, 1 and
-- 2 is terminated that was not terminated before.
pub execute_command-Spares :
    (entries : Entries) (s : Scheduler) (sh : Shell) (input : Text)
    → sh.scheduler ≡ some s
    → Inv s
    → Rested s
    → (s' : Scheduler) × ((execute_command entries sh input).scheduler ≡ some s')
      × Inv s'
      × Spares s s'
unfolding execute_command
execute_command-Spares entries s sh input e v rest =
    if_elim (After s) (is_empty (trim input)) (λ _. same-Kept s sh.scheduler e v)
      λ _. run_words-Kept entries s sh e v rest (words (trim input))
