-- ===== src/Shell.antt =====
-- src/lib.rs: the shell's commands, `execute_command` and the ones that act on the scheduler. Words are
-- the bytes of their text. What is printed is a value of a data type, one constructor for each message
-- of one or several lines, instead of the text on the screen.
pub mod Lines
pub mod Spares
use Prim.Native.String.{String}
use delta_os.Base.{
  ℕ, ◌+◌, Bool, true, false, not, ◌&&◌, ◌||◌, List, [], ◌∷◌, ◌++◌, Option, none, some,
  if◌then◌else◌, ◌==◌, leb, retain,
}
use delta_os.Kernel.Result.{KernelError, KernelResult, ok, err, access_denied, invalid_argument}
use delta_os.Vfs.Path.{Text, is_empty, text_eq, join_first}
use delta_os.Task.{ExitCode}
use delta_os.Scheduler.State.{Scheduler, create_kernel_task}
use delta_os.Scheduler.Control.{Outcome, terminate_task, background_task, foreground_task}
use delta_os.Console.{parse_int}

pub data Message : Type 0 where
  usage_kill usage_run usage_bg usage_fg invalid_pid no_scheduler dev_on dev_off : Message
  killed cannot_kill not_found in_background not_stopped in_foreground not_background : ℕ → Message
  failed : KernelError → Message
  started : String → ℕ → Message
  unknown_task unknown_command : Text → Message
  -- One of the other commands, which print reports or write to devices, with its arguments.
  carried_out : Text → List Text → Message

-- KERNEL_SCHEDULER, DEV_MODE, and what has been printed, the newest last.
pub record Shell : Type 0 where
  pub scheduler : Option Scheduler
  pub dev_mode : Bool
  pub printed : List Message

-- The addresses the linker gives `demo_task`, `counter_task` and `idle_test_task`.
pub record Entries : Type 0 where
  pub demo : ℕ
  pub counter : ℕ
  pub idle_test : ℕ

abbrev pub kprintln : Shell → Message → Shell
kprintln sh m = record sh { printed = sh.printed ++ m ∷ [] }

-- `char::is_whitespace` on the characters of ASCII.
abbrev pub is_whitespace : ℕ → Bool
is_whitespace c = leb 9 c && leb c 13 || c == 32

unfoldable pub trim_start : Text → Text
trim_start [] = []
trim_start (c ∷ s) = let rest = trim_start s in if is_whitespace c then rest else c ∷ s

unfoldable pub trim_end : Text → Text
trim_end [] = []
trim_end (c ∷ s) =
    let rest = trim_end s in if is_whitespace c && is_empty rest then [] else c ∷ rest

abbrev pub trim : Text → Text
trim s = trim_end (trim_start s)

-- `input.split(' ')`
unfoldable pub split_space : Text → List Text
split_space [] = [] ∷ []
split_space (c ∷ s) = let rest = split_space s in if c == 32 then [] ∷ rest else join_first c rest

-- `input.split(' ').filter(|s| !s.is_empty()).collect()`
unfoldable pub words : Text → List Text
words s = retain (λ w. not (is_empty w)) (split_space s)

abbrev pub info_word : Text
info_word = 105 ∷ 110 ∷ 102 ∷ 111 ∷ []

abbrev pub time_word : Text
time_word = 116 ∷ 105 ∷ 109 ∷ 101 ∷ []

abbrev pub dev_word : Text
dev_word = 100 ∷ 101 ∷ 118 ∷ []

abbrev pub help_word : Text
help_word = 104 ∷ 101 ∷ 108 ∷ 112 ∷ []

abbrev pub clear_word : Text
clear_word = 99 ∷ 108 ∷ 101 ∷ 97 ∷ 114 ∷ []

abbrev pub reboot_word : Text
reboot_word = 114 ∷ 101 ∷ 98 ∷ 111 ∷ 111 ∷ 116 ∷ []

abbrev pub ps_word : Text
ps_word = 112 ∷ 115 ∷ []

abbrev pub kill_word : Text
kill_word = 107 ∷ 105 ∷ 108 ∷ 108 ∷ []

abbrev pub run_word : Text
run_word = 114 ∷ 117 ∷ 110 ∷ []

abbrev pub bg_word : Text
bg_word = 98 ∷ 103 ∷ []

abbrev pub fg_word : Text
fg_word = 102 ∷ 103 ∷ []

abbrev pub sched_word : Text
sched_word = 115 ∷ 99 ∷ 104 ∷ 101 ∷ 100 ∷ []

abbrev pub mem_word : Text
mem_word = 109 ∷ 101 ∷ 109 ∷ []

abbrev pub regs_word : Text
regs_word = 114 ∷ 101 ∷ 103 ∷ 115 ∷ []

abbrev pub io_word : Text
io_word = 105 ∷ 111 ∷ []

abbrev pub pmm_word : Text
pmm_word = 112 ∷ 109 ∷ 109 ∷ []

abbrev pub apic_word : Text
apic_word = 97 ∷ 112 ∷ 105 ∷ 99 ∷ []

abbrev pub demo_name : Text
demo_name = 100 ∷ 101 ∷ 109 ∷ 111 ∷ []

abbrev pub counter_name : Text
counter_name = 99 ∷ 111 ∷ 117 ∷ 110 ∷ 116 ∷ 101 ∷ 114 ∷ []

abbrev pub idle_test_name : Text
idle_test_name = 105 ∷ 100 ∷ 108 ∷ 101 ∷ 95 ∷ 116 ∷ 101 ∷ 115 ∷ 116 ∷ []

-- What is printed for the outcome of a kill; likewise below.
abbrev pub kill_message : ℕ → KernelResult (Unit {0}) → Message
kill_message pid (ok _) = killed pid
kill_message pid (err access_denied) = cannot_kill pid
kill_message pid (err invalid_argument) = not_found pid
kill_message pid (err e) = failed e

abbrev pub bg_message : ℕ → KernelResult (Unit {0}) → Message
bg_message pid (ok _) = in_background pid
bg_message pid (err invalid_argument) = not_stopped pid
bg_message pid (err e) = failed e

abbrev pub fg_message : ℕ → KernelResult (Unit {0}) → Message
fg_message pid (ok _) = in_foreground pid
fg_message pid (err invalid_argument) = not_background pid
fg_message pid (err e) = failed e

-- A call of the scheduler, if there is one, and the message for its result.
abbrev pub with_scheduler :
    Shell → Option Scheduler → (Scheduler → Outcome) → (KernelResult (Unit {0}) → Message) → Shell
with_scheduler sh none call message = sh
with_scheduler sh (some s) call message =
    kprintln (record sh { scheduler = some (call s).1 }) (message (call s).0)

unfoldable pub cmd_kill : Shell → List Text → Shell
cmd_kill sh [] = kprintln sh usage_kill
cmd_kill sh (arg ∷ args) =
    if parse_int arg == 0
    then kprintln sh invalid_pid
    else with_scheduler sh sh.scheduler (λ s. terminate_task s (parse_int arg) (ExitCode.minus 9))
        (kill_message (parse_int arg))

unfoldable pub cmd_bg : Shell → List Text → Shell
cmd_bg sh [] = kprintln sh usage_bg
cmd_bg sh (arg ∷ args) =
    with_scheduler sh sh.scheduler (λ s. background_task s (parse_int arg))
      (bg_message (parse_int arg))

unfoldable pub cmd_fg : Shell → List Text → Shell
cmd_fg sh [] = kprintln sh usage_fg
cmd_fg sh (arg ∷ args) =
    with_scheduler sh sh.scheduler (λ s. foreground_task s (parse_int arg))
      (fg_message (parse_int arg))

unfoldable pub task_entry : Entries → Text → Option (ℕ × String)
task_entry entries name =
    if text_eq name demo_name
    then some (entries.demo, "demo")
    else if text_eq name counter_name
    then some (entries.counter, "counter")
    else if text_eq name idle_test_name
    then some (entries.idle_test, "idle_test")
    else none

unfoldable pub run_entry : Shell → Option Scheduler → ℕ → String → Shell
run_entry sh none entry name = kprintln sh no_scheduler
run_entry sh (some s) entry name =
    kprintln (record sh { scheduler = some (create_kernel_task s entry name).1 })
      (started name (create_kernel_task s entry name).0)

unfoldable pub run_found : Shell → Text → Option (ℕ × String) → Shell
run_found sh word none = kprintln sh (unknown_task word)
run_found sh word (some (entry, name)) = run_entry sh sh.scheduler entry name

unfoldable pub cmd_run : Entries → Shell → List Text → Shell
cmd_run entries sh [] = kprintln sh usage_run
cmd_run entries sh (word ∷ args) = run_found sh word (task_entry entries word)

unfoldable pub cmd_dev : Shell → Shell
cmd_dev sh =
    kprintln (record sh { dev_mode = not sh.dev_mode }) (if sh.dev_mode then dev_off else dev_on)

abbrev pub is_among : Text → List Text → Bool
is_among w [] = false
is_among w (v ∷ vs) = text_eq w v || is_among w vs

-- The commands that leave the state of this model as it is: the first are always there, the others in
-- the developer mode only.
abbrev pub plain_words : List Text
plain_words =
    info_word ∷ time_word ∷ help_word ∷ clear_word ∷ reboot_word ∷ ps_word ∷ sched_word ∷ []

abbrev pub dev_words : List Text
dev_words = mem_word ∷ regs_word ∷ io_word ∷ pmm_word ∷ apic_word ∷ []

unfoldable pub run_command : Entries → Shell → Text → List Text → Shell
run_command entries sh cmd args =
    if text_eq cmd dev_word
    then cmd_dev sh
    else if text_eq cmd kill_word
    then cmd_kill sh args
    else if text_eq cmd run_word
    then cmd_run entries sh args
    else if text_eq cmd bg_word
    then cmd_bg sh args
    else if text_eq cmd fg_word
    then cmd_fg sh args
    else if is_among cmd plain_words || (is_among cmd dev_words && sh.dev_mode)
    then kprintln sh (carried_out cmd args)
    else kprintln sh (unknown_command cmd)

unfoldable pub run_words : Entries → Shell → List Text → Shell
run_words entries sh [] = sh
run_words entries sh (cmd ∷ args) = run_command entries sh cmd args

-- An empty line has no words either.
unfoldable pub execute_command : Entries → Shell → Text → Shell
execute_command entries sh input =
    if is_empty (trim input) then sh else run_words entries sh (words (trim input))
