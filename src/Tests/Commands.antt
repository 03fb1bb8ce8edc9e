-- ===== src/Tests/Commands.antt =====
-- src/lib.rs: the theorems on the shell's commands, with three tasks.
use delta_os.Base.{zero, suc, ◌≡◌, refl, false, [], some, arith}
use delta_os.Task.{ExitCode}
use delta_os.Scheduler.State.{Scheduler}
use delta_os.Scheduler.Control.{terminate_task}
use delta_os.Scheduler.Invariant.Defs.{Inv}
use delta_os.Console.Numbers.{decimal}
use delta_os.Shell.{Shell, Entries, kprintln, kill_word, kill_message, execute_command}
use delta_os.Shell.Lines.{line, execute_command-kill}
use delta_os.Shell.Spares.{Rested, Spares, execute_command-Spares}
use delta_os.Tests.Samples.{trio, worker, trio-Inv}

abbrev entries : Entries
entries = record { demo = 0x101000; counter = 0x102000; idle_test = 0x103000 }

abbrev shell : Shell
shell = record { scheduler = some (trio worker); dev_mode = false; printed = [] }

execute_command-kill_example :
    let (result, s') = terminate_task (trio worker) 7 (ExitCode.minus 9) in
    execute_command entries shell (line 2 kill_word 1 (decimal 20 7) 3)
    ≡ kprintln (record shell { scheduler = some s' }) (kill_message 7 result)
execute_command-kill_example =
    execute_command-kill entries (trio worker) shell 2 1 3 7 refl (omega arith) (omega arith)

rested : Rested (trio worker)
rested zero e = cc
rested (suc r) e = cc

execute_command-Spares_example :
    (s' : Scheduler) × ((execute_command entries shell
        (line 0 kill_word 0 (decimal 20 3) 0)).scheduler
      ≡ some s')
    × Inv s'
    × Spares (trio worker) s'
execute_command-Spares_example =
    execute_command-Spares entries (trio worker) shell (line 0 kill_word 0 (decimal 20 3) 0) refl
      (trio-Inv worker) rested
