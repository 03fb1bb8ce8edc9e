-- ===== src/Tests/Scheduling.antt =====
-- src/sched/scheduler.rs: the scheduler's theorems on three tasks.
use delta_os.Base.{◌≤◌, ◌<◌, ◌≡◌, refl, ◌⊎◌, true, false, some, List, [], ◌∷◌, ◌++◌}
use delta_os.Base.Bits.{bit, shl_one, complement, trailing_zeros}
use delta_os.Kernel.Result.{ok, err, access_denied, invalid_argument}
use delta_os.Task.{
  Task, ready, running, blocked, terminated, normal, foreground, ExitCode, pop_signal, deliverable,
}
use delta_os.Scheduler.State.{Ref, new}
use delta_os.Scheduler.Run.{pick_next_task, schedule, preempt_schedule}
use delta_os.Scheduler.Control.{find_task, terminate_task}
use delta_os.Scheduler.Pick.{Chosen, Picks, pick_next_task-Picks}
use delta_os.Scheduler.Invariant.Defs.{Inv}
use delta_os.Scheduler.History.{start, call, step, schedules, creates_kernel, Reach-Inv}
use delta_os.Scheduler.Choice.{candidates, Selected, Switched, schedule_lem}
use delta_os.Scheduler.Rotation.{ArePeers, yields, yields_turn}
use delta_os.Scheduler.Effects.{Unknown, Holds, Terminated, terminate_task_lem}
use delta_os.Scheduler.Preempt.{saved, Preempted, preempt_schedule_lem, preempt_schedule_revives}
use delta_os.Scheduler.Ticks.{IsStuck, OnCpu, charged, ticks, ticks-IsStuck, ticks_quantum}
use delta_os.Tests.Samples.{machine, sample, three, trio, worker, trio-Inv}

Reach-Inv_example : Inv (step (step (new machine worker) (creates_kernel 4096 "shell")) schedules)
Reach-Inv_example =
    Reach-Inv (call schedules (call (creates_kernel 4096 "shell") (start refl) tt refl) tt refl)

pick_next_task-Picks_example :
    Picks (three worker) (1 ∷ 2 ∷ []) (pick_next_task (three worker) (1 ∷ 2 ∷ []))
pick_next_task-Picks_example = pick_next_task-Picks (three worker) (1 ∷ 2 ∷ [])

schedule_lem_example :
    ((candidates (trio worker) ≡ [])
      × (schedule (trio worker) ≡ record (trio worker) { need_reschedule = false }))
    ⊎ ((n : Ref) × (before : List Ref) × (after : List Ref) × Selected (trio worker) n before after
        × Switched (trio worker) (schedule (trio worker)) n before after)
schedule_lem_example = schedule_lem (trio worker) (trio-Inv worker)

preempt_schedule_lem_example :
    let (rsp', s') = preempt_schedule (trio worker) 0xA0F000 in
    (n : Ref) × (before : List Ref) × (after : List Ref) × Chosen
      (saved (trio worker) 0xA0F000).tasks
      (1 ∷ 2 ∷ 0 ∷ [])
      n
      before
      after
    × Preempted (trio worker) s' 0 0xA0F000 rsp' n (before ++ after)
preempt_schedule_lem_example =
    preempt_schedule_lem (trio worker) 0 0xA0F000 refl refl (trio-Inv worker)

preempt_schedule_revives_example :
    let s' = (preempt_schedule (trio (sample 3 terminated foreground 0)) 0xA0F000).1 in
    ((s'.tasks 0).state ≡ ready) ⊎ ((s'.tasks 0).state ≡ running)
preempt_schedule_revives_example =
    preempt_schedule_revives (trio (sample 3 terminated foreground 0)) 0 0xA0F000 refl refl
      (trio-Inv (sample 3 terminated foreground 0))

trio-ArePeers : ArePeers normal (trio worker) 0
trio-ArePeers = record {
  inv = trio-Inv worker;
  current = refl;
  runs = refl;
  own = refl;
  peers = (refl, (refl, tt));
}

yields_turn_example :
    ((yields 2 (trio worker)).current ≡ some 2)
    × ((yields 2 (trio worker)).ready_queue ≡ 0 ∷ 1 ∷ [])
    × ArePeers normal (yields 2 (trio worker)) 2
yields_turn_example = yields_turn normal (0 ∷ 1 ∷ []) (trio worker) 0 2 [] trio-ArePeers refl

trio-OnCpu : OnCpu (trio worker) 0 2
trio-OnCpu = record {
  enabled = refl;
  current = refl;
  state = refl;
  quiet = refl;
  slice = refl;
  flag = refl;
}

ticks_quantum_example :
    OnCpu (ticks 1 (trio worker)) 0 1
    × ((ticks 1 (trio worker)).ready_queue ≡ 1 ∷ 2 ∷ [])
    × (ticks 2 (trio worker)
        ≡ schedule (record (charged (ticks 1 (trio worker)) 0) { need_reschedule = true }))
ticks_quantum_example = ticks_quantum 1 (trio worker) 0 trio-OnCpu

ticks-IsStuck_example :
    IsStuck (ticks 100 (trio (sample 3 blocked foreground 0))) 0 blocked
    × ((ticks 100 (trio (sample 3 blocked foreground 0))).ready_queue ≡ 1 ∷ 2 ∷ [])
ticks-IsStuck_example =
    ticks-IsStuck 100 (trio (sample 3 blocked foreground 0)) 0 blocked
      (record { enabled = refl; current = refl; state = refl; idle = refl; quiet = refl })

kill-first : (pop_signal (sample 3 running foreground 512)).0 ≡ some 9
unfolding pop_signal deliverable trailing_zeros bit shl_one complement
kill-first = refl

terminate_task_lem_example :
    let s = trio worker in
    let code = ExitCode.plus 1 in
    ((3 ≤ 2) × (terminate_task s 3 code ≡ (err access_denied, s)))
    ⊎ ((2 < 3) × Unknown s 3 × (terminate_task s 3 code ≡ (err invalid_argument, s)))
    ⊎ ((2 < 3)
        × ((r : Ref) × Holds s 3 r
            × ((terminate_task s 3 code).0 ≡ ok tt)
            × Terminated s (terminate_task s 3 code).1 r 3 code))
terminate_task_lem_example = terminate_task_lem (trio worker) 3 (ExitCode.plus 1)

trio-Holds : (t : Task) → t.id ≡ 3 → Holds (trio t) 3 0
unfolding find_task
trio-Holds t e = rw e
