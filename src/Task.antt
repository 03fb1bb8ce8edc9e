-- ===== src/Task.antt =====
-- src/sched/task.rs: tasks, the statics behind their ids and stacks, and their signals. A pointer is
-- a number, and memory is read and written by 64-bit words at multiples of 8, as all of this code does.
pub mod Signals
pub mod Stack
pub mod Frame
use Prim.Native.Nat.{bit_and, bit_or}
use Prim.Native.String.{String}
use delta_os.Base.{
  ℕ, zero, suc, ◌+◌, ◌*◌, ◌%◌, Bool, true, false, not, ◌&&◌, Option, none, some, List, [],
  if◌then◌else◌, ltb, leb, ◌==◌,
}
use delta_os.Base.Word.{add64, sub64}
use delta_os.Base.Bits.{shl_one, complement, trailing_zeros}

pub data TaskState : Type 0 where
  ready running blocked terminated zombie : TaskState

pub data TaskPriority : Type 0 where
  low normal high real_time : TaskPriority

pub data TaskType : Type 0 where
  kernel user : TaskType

pub data TaskForeground : Type 0 where
  foreground background stopped : TaskForeground

-- `==` of the derived `PartialEq`, at the states and modes that the code compares with.
abbrev pub is_ready : TaskState → Bool
is_ready ready = true
is_ready _ = false

abbrev pub is_running : TaskState → Bool
is_running running = true
is_running _ = false

abbrev pub is_blocked : TaskState → Bool
is_blocked blocked = true
is_blocked _ = false

abbrev pub is_terminated : TaskState → Bool
is_terminated terminated = true
is_terminated _ = false

abbrev pub is_stopped_mode : TaskForeground → Bool
is_stopped_mode stopped = true
is_stopped_mode _ = false

abbrev pub is_foreground_mode : TaskForeground → Bool
is_foreground_mode foreground = true
is_foreground_mode _ = false

unfoldable pub state_as_str : TaskState → String
state_as_str ready = "READY"
state_as_str running = "RUNNING"
state_as_str blocked = "BLOCKED"
state_as_str terminated = "TERM"
state_as_str zombie = "ZOMBIE"

unfoldable pub priority_as_str : TaskPriority → String
priority_as_str low = "LOW"
priority_as_str normal = "NORM"
priority_as_str high = "HIGH"
priority_as_str real_time = "RT"

-- The discriminant, by which `PartialOrd` orders the priorities.
abbrev pub rank : TaskPriority → ℕ
rank low = 0
rank normal = 1
rank high = 2
rank real_time = 3

pub record SavedRegisters : Type 0 where
  pub rbx : ℕ
  pub rbp : ℕ
  pub r12 : ℕ
  pub r13 : ℕ
  pub r14 : ℕ
  pub r15 : ℕ
  pub rsp : ℕ

abbrev pub no_registers : SavedRegisters
no_registers = record { rbx = 0; rbp = 0; r12 = 0; r13 = 0; r14 = 0; r15 = 0; rsp = 0 }

-- An `i64`: the number and, for `minus n`, its negative.
pub data ExitCode : Type 0 where
  plus minus : ℕ → ExitCode

pub record Task : Type 0 where
  pub id : ℕ
  pub name : String
  pub state : TaskState
  pub priority : TaskPriority
  pub task_type : TaskType
  pub mode : TaskForeground  -- the field `foreground`
  pub stack_top : ℕ
  pub kernel_stack : ℕ
  pub entry_point : ℕ
  pub regs : SavedRegisters
  pub saved_rsp : ℕ
  pub time_slice : ℕ
  pub default_time_slice : ℕ
  pub total_cpu_ticks : ℕ
  pub start_tick : ℕ
  pub exit_code : ExitCode
  pub parent_id : Option ℕ
  pub children : List ℕ
  pub pml4_addr : ℕ
  pub pgid : ℕ
  pub joining : Bool
  pub pending_signals : ℕ
  pub blocked_signals : ℕ

abbrev pub task_stack_size : ℕ
task_stack_size = 64 * 1024

abbrev pub default_time_slice : ℕ
default_time_slice = 10

abbrev pub sigkill : ℕ
sigkill = 9

abbrev pub sigcont : ℕ
sigcont = 18

abbrev pub sigtstp : ℕ
sigtstp = 20

-- The statics NEXT_TASK_ID and NEXT_STACK, and the memory that stacks lie in.
pub record Machine : Type 0 where
  pub next_task_id : ℕ
  pub next_stack : ℕ
  pub memory : ℕ → ℕ

abbrev pub stack_region_start : ℕ
stack_region_start = 0xA00000

abbrev pub stack_region_end : ℕ
stack_region_end = 0x2000000

unfoldable pub write : (ℕ → ℕ) → ℕ → ℕ → ℕ → ℕ
write mem a v b = if a == b then v else mem b

unfoldable pub zero_fill : (ℕ → ℕ) → ℕ → ℕ → ℕ → ℕ
zero_fill mem a size b = if leb a b && ltb b (a + size) then 0 else mem b

-- `alloc_stack`: the top of a fresh stack, or 0 when the region is used up. The sums are of words.
unfoldable pub alloc_stack : Machine → ℕ → ℕ × Machine
alloc_stack m size = if ltb stack_region_end (add64 m.next_stack size) then (0, m) else (
  add64 m.next_stack size,
  record m { next_stack = add64 m.next_stack size; memory = zero_fill m.memory m.next_stack size },
)

-- The record that both constructors build, on the stacks they have taken.
unfoldable pub build : TaskType → ℕ → ℕ → ℕ → ℕ → String → Task
build kind id stack kstack entry name = record {
  id = id;
  name = name;
  state = ready;
  priority = normal;
  task_type = kind;
  mode = foreground;
  stack_top = stack;
  kernel_stack = kstack;
  entry_point = entry;
  regs = record no_registers { rsp = stack; rbp = stack };
  saved_rsp = stack;
  time_slice = default_time_slice;
  default_time_slice = default_time_slice;
  total_cpu_ticks = 0;
  start_tick = 0;
  exit_code = ExitCode.plus 0;
  parent_id = none;
  children = [];
  pml4_addr = 0;
  pgid = id;
  joining = false;
  pending_signals = 0;
  blocked_signals = 0;
}

-- `NEXT_TASK_ID.fetch_add(1)` returns the old value; an atomic add wraps.
abbrev fetch_id : Machine → ℕ × Machine
fetch_id m = (m.next_task_id, record m { next_task_id = add64 m.next_task_id 1 })

unfoldable pub new_kernel : Machine → ℕ → String → Task × Machine
unfolding alloc_stack build
new_kernel m entry name =
    let (id, m1) = fetch_id m in
    let (stack_top, m2) = alloc_stack m1 task_stack_size in
    (build kernel id stack_top stack_top entry name, m2)

unfoldable pub new_user : Machine → ℕ → String → Task × Machine
unfolding alloc_stack build
new_user m entry name =
    let (id, m1) = fetch_id m in
    let (user_stack, m2) = alloc_stack m1 task_stack_size in
    let (kernel_stack, m3) = alloc_stack m2 task_stack_size in
    (build user id user_stack kernel_stack entry name, m3)

unfoldable pub new_kernel_with_priority : Machine → ℕ → String → TaskPriority → Task × Machine
unfolding new_kernel
new_kernel_with_priority m entry name p =
    let (task, m') = new_kernel m entry name in (record task { priority = p }, m')

unfoldable pub new_kernel_background : Machine → ℕ → String → Task × Machine
unfolding new_kernel
new_kernel_background m entry name =
    let (task, m') = new_kernel m entry name in (record task { mode = background }, m')

-- `rsp -= 8; write(rsp, v)`, on a stack pointer and memory.
abbrev pub Cursor : Type 0
Cursor = ℕ × (ℕ → ℕ)

unfoldable pub push : Cursor → ℕ → Cursor
unfolding write
push (rsp, mem) v = (sub64 rsp 8, write mem (sub64 rsp 8) v)

unfoldable pub push_zeros : ℕ → Cursor → Cursor
push_zeros zero c = c
push_zeros (suc n) c = push_zeros n (push c 0)

-- The pushes of `setup_initial_stack`, from the top of the stack: ss, rsp, rflags, cs, rip, error
-- code, vector, ds, and the fifteen general registers.
unfoldable pub initial_frame : ℕ → ℕ → (ℕ → ℕ) → Cursor
unfolding push push_zeros
initial_frame stack_top entry mem = push_zeros 15 (
    push
      (push
        (push (push (push (push (push (push (stack_top, mem) 0x10) stack_top) 0x202) 0x08) entry) 0)
        0x20)
      0x10)

unfoldable pub setup_initial_stack : Task → (ℕ → ℕ) → Task × (ℕ → ℕ)
setup_initial_stack t mem =
    let (rsp, mem') = initial_frame t.stack_top t.entry_point mem in
    (record t { saved_rsp = rsp; regs = record (t.regs) { rsp = rsp } }, mem')

unfoldable pub set_time_slice : Task → ℕ → Task
set_time_slice t slices = record t { time_slice = slices; default_time_slice = slices }

unfoldable pub reset_time_slice : Task → Task
reset_time_slice t = record t { time_slice = t.default_time_slice }

unfoldable pub send_signal : Task → ℕ → Task
send_signal t signal =
    if ltb signal 32
    then record t { pending_signals = bit_or t.pending_signals (shl_one signal) }
    else t

unfoldable pub has_signal : Task → ℕ → Bool
has_signal t signal =
    if ltb signal 32 then not (bit_and t.pending_signals (shl_one signal) == 0) else false

-- `pending_signals & !blocked_signals`
unfoldable pub deliverable : Task → ℕ
deliverable t = bit_and t.pending_signals (complement 32 t.blocked_signals)

unfoldable pub pop_signal : Task → Option ℕ × Task
unfolding deliverable
pop_signal t =
    let signal = trailing_zeros 32 (deliverable t) in
    if deliverable t == 0 then (none, t) else (
      some signal,
      record t { pending_signals = bit_and t.pending_signals (complement 32 (shl_one signal)) },
    )

unfoldable pub is_foreground : Task → Bool
is_foreground t = is_foreground_mode t.mode

unfoldable pub is_stopped : Task → Bool
is_stopped t = is_stopped_mode t.mode
