-- ===== src/Interrupts.antt =====
-- src/interrupts.rs: the handlers that the assembly stubs call, on the parts of the kernel that they
-- touch. A write to a port and the local APIC's end of interrupt are listed in their order; the text
-- of an exception's message is its vector. The keyboard's port gives the scancode `port60`.
pub mod Eoi
use delta_os.Base.{
  ℕ, ◌+◌, ◌-◌, Bool, true, false, not, ◌&&◌, Option, none, some, List, [], ◌∷◌, ◌++◌, if◌then◌else◌,
  ltb, leb, ◌==◌,
}
use delta_os.Keyboard.{Keyboard, handle_keyboard_scancode}
use delta_os.Scheduler.State.{Scheduler}
use delta_os.Scheduler.Run.{tick, preempt_schedule}
use delta_os.Syscall.{rust_syscall_handler}
use delta_os.Timer.{Timer, on_timer_tick}

pub data Write : Type 0 where
  lapic_eoi : Write
  outb : ℕ → ℕ → Write

pub record InterruptContext : Type 0 where
  pub r15 : ℕ
  pub r14 : ℕ
  pub r13 : ℕ
  pub r12 : ℕ
  pub r11 : ℕ
  pub r10 : ℕ
  pub r9 : ℕ
  pub r8 : ℕ
  pub rbp : ℕ
  pub rdi : ℕ
  pub rsi : ℕ
  pub rdx : ℕ
  pub rcx : ℕ
  pub rbx : ℕ
  pub rax : ℕ
  pub vector : ℕ
  pub error_code : ℕ
  pub rip : ℕ
  pub cs : ℕ
  pub rflags : ℕ
  pub rsp : ℕ
  pub ss : ℕ

-- What the handlers work on: `faults` are the vectors of the messages printed, `screen` the bytes
-- that system calls have printed.
pub record System : Type 0 where
  pub timer : Timer
  pub scheduler : Option Scheduler
  pub keyboard : Keyboard
  pub using_apic : Bool
  pub memory : ℕ → ℕ
  pub screen : List ℕ
  pub faults : List ℕ
  pub writes : List Write

unfoldable pub eoi_writes : Bool → ℕ → List Write
eoi_writes using_apic irq =
    if using_apic
    then lapic_eoi ∷ []
    else if leb 8 irq
    then outb 0xA0 0x20 ∷ outb 0x20 0x20 ∷ []
    else outb 0x20 0x20 ∷ []

unfoldable pub send_eoi : System → ℕ → System
unfolding eoi_writes
send_eoi s irq = record s { writes = s.writes ++ eoi_writes s.using_apic irq }

unfoldable pub tick_scheduler : Option Scheduler → Option Scheduler
tick_scheduler none = none
tick_scheduler (some s) = some (tick s)

-- Vector 32; none where the timer's division panics.
unfoldable pub on_timer : System → Option Timer → Option System
unfolding send_eoi tick_scheduler
on_timer s none = none
on_timer s (some t) =
    some (send_eoi (record s { timer = t; scheduler = tick_scheduler s.scheduler }) 0)

-- Vector 128: the result is left in `rax`. None where the call does not return.
unfoldable pub on_syscall :
    System → InterruptContext → Option (ℕ × List ℕ) → Option (InterruptContext × System)
on_syscall s ctx none = none
on_syscall s ctx (some (result, screen)) =
    some (record ctx { rax = result }, record s { screen = screen })

abbrev pub back_with : InterruptContext → Option System → Option (InterruptContext × System)
back_with ctx none = none
back_with ctx (some s) = some (ctx, s)

abbrev fault : System → ℕ → System
fault s vector = record s { faults = s.faults ++ vector ∷ [] }

-- The `match` on the vector. A double fault halts.
unfoldable pub dispatch_vector : System → InterruptContext → ℕ → Option (InterruptContext × System)
unfolding on_timer on_syscall send_eoi
dispatch_vector s ctx port60 =
    if ctx.vector == 8
    then none
    else if ctx.vector == 32
    then back_with ctx (on_timer s (on_timer_tick s.timer))
    else if ctx.vector == 33
    then some (ctx, send_eoi (record s { keyboard = handle_keyboard_scancode s.keyboard port60 }) 1)
    else if ctx.vector == 128
    then on_syscall s ctx (rust_syscall_handler s.memory s.screen ctx.rax ctx.rdi ctx.rsi ctx.rdx)
    else if ltb ctx.vector 32
    then some (ctx, fault s ctx.vector)
    else some (ctx, s)

-- The end of the handler: the end of interrupt for the lines that the `match` has not ended.
unfoldable pub end_of_irq :
    ℕ → Option (InterruptContext × System) → Option (InterruptContext × System)
unfolding send_eoi
end_of_irq vector none = none
end_of_irq vector (some (ctx, s)) =
    if leb 34 vector && ltb vector 48 then some (ctx, send_eoi s (vector - 32)) else some (ctx, s)

unfoldable pub rust_isr_handler : System → InterruptContext → ℕ → Option (InterruptContext × System)
unfolding dispatch_vector end_of_irq
rust_isr_handler s ctx port60 = end_of_irq ctx.vector (dispatch_vector s ctx port60)

-- The stack pointer to go on with, and the scheduler after it.
unfoldable pub preempt : Option Scheduler → ℕ → ℕ × Option Scheduler
preempt none saved_state_ptr = (saved_state_ptr, none)
preempt (some s) saved_state_ptr =
    if s.preempt_enabled
    then (let (rsp, s') = preempt_schedule s saved_state_ptr in (rsp, some s'))
    else (saved_state_ptr, some s)

unfoldable pub timer_ticked : System → ℕ → Option Timer → Option (ℕ × System)
unfolding send_eoi preempt
timer_ticked s saved_state_ptr none = none
timer_ticked s saved_state_ptr (some t) =
    let (rsp, sched) = preempt s.scheduler saved_state_ptr in
    some (rsp, send_eoi (record s { timer = t; scheduler = sched }) 0)

unfoldable pub rust_timer_handler : System → ℕ → Option (ℕ × System)
unfolding timer_ticked
rust_timer_handler s saved_state_ptr = timer_ticked s saved_state_ptr (on_timer_tick s.timer)
