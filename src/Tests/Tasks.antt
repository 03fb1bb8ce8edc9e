-- ===== src/Tests/Tasks.antt =====
-- src/sched/task.rs: the theorems on tasks at a concrete task and machine.
use delta_os.Base.{ℕ, ◌+◌, ◌-◌, ◌≤◌, ◌<◌, ◌≡◌, refl, ◌⊎◌, some, arith}
use delta_os.Base.Bits.{bit, shl_one, complement, trailing_zeros}
use delta_os.Base.Word.{u64_mod}
use delta_os.Task.{
  running, foreground, alloc_stack, setup_initial_stack, pop_signal, deliverable, stack_region_end,
}
use delta_os.Task.Signals.{HasWords, Pops, pop_signal-Pops}
use delta_os.Task.Stack.{Taken, alloc_stack-Taken}
use delta_os.Task.Frame.{
  read_frame, fresh_frame, timer_isr_resume, read_frame-setup_initial_stack,
  timer_isr_resume-setup_initial_stack,
}
use delta_os.Tests.Samples.{machine, sample, worker}

signalled-HasWords : HasWords (sample 3 running foreground 0x40200)
unfolding shl_one
signalled-HasWords = record { pending = omega arith; blocked = omega arith }

pop_signal-Pops_example : Pops (sample 3 running foreground 0x40200)
pop_signal-Pops_example = pop_signal-Pops (sample 3 running foreground 0x40200) signalled-HasWords

-- Signals 9 and 18 are pending, and 9 comes first.
pop_signal-lowest : (pop_signal (sample 3 running foreground 0x40200)).0 ≡ some 9
unfolding pop_signal deliverable trailing_zeros bit shl_one complement
pop_signal-lowest = refl

alloc_stack-Taken_example :
    let (top, m') = alloc_stack machine 0x10000 in
    ((machine.next_stack + 0x10000 ≤ stack_region_end) × Taken machine m' top 0x10000)
    ⊎ ((stack_region_end < machine.next_stack + 0x10000)
        × (machine.next_stack + 0x10000 < u64_mod)
        × (top ≡ 0)
        × (m' ≡ machine))
    ⊎ ((u64_mod ≤ machine.next_stack + 0x10000)
        × (top ≡ machine.next_stack + 0x10000 - u64_mod)
        × (top < machine.next_stack)
        × (m'.next_stack ≡ top))
alloc_stack-Taken_example = alloc_stack-Taken machine 0x10000 (omega arith) (omega arith)

read_frame-setup_initial_stack_example :
    let (t', mem') = setup_initial_stack worker machine.memory in
    (read_frame mem' t'.saved_rsp ≡ fresh_frame 0x200000 0xA10000)
    × (t'.saved_rsp + 184 ≡ 0xA10000)
    × ((a : ℕ) → (a < t'.saved_rsp) ⊎ (0xA10000 ≤ a) → mem' a ≡ 0)
read_frame-setup_initial_stack_example =
    read_frame-setup_initial_stack worker machine.memory (omega arith) (omega arith)

timer_isr_resume-setup_initial_stack_example :
    let (t', mem') = setup_initial_stack worker machine.memory in
    ((timer_isr_resume mem' t'.saved_rsp).rip ≡ 0x20)
    × ((timer_isr_resume mem' t'.saved_rsp).cs ≡ 0)
    × ((timer_isr_resume mem' t'.saved_rsp).rflags ≡ 0x200000)
    × (mem' t'.regs.rsp ≡ 0)
timer_isr_resume-setup_initial_stack_example =
    timer_isr_resume-setup_initial_stack worker machine.memory (omega arith) (omega arith)
