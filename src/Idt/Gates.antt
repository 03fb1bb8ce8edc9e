-- ===== src/Idt/Gates.antt =====
-- src/arch/idt.rs: which handler each vector reaches.
use native.Mathlib.Decide.{ℕ_discrete}
use delta_os.Base.{
  ℕ, zero, suc, ◌+◌, ◌-◌, ◌*◌, ◌^◌, ◌<◌, ◌≤◌, ◌≡◌, ◌≢◌, ◌∙◌, ◌&&◌, arith, if◌then◌else◌, ltb, leb,
  ◌==◌,
}
use delta_os.Base.Word.{u64_mod}
use delta_os.Idt.{
  Idt, IdtEntry, no_entry, kernel_gate, user_gate, entry_for, set_handler, isr_stub_table,
  set_stubs, init,
}

-- The address in an entry, as the processor puts it together.
abbrev pub target : IdtEntry → ℕ
target e = e.offset_low + e.offset_middle * 2 ^ 16 + e.offset_high * 2 ^ 32

pub target-entry_for :
    (addr attributes : ℕ) → addr < u64_mod → target (entry_for addr attributes) ≡ addr
unfolding entry_for
target-entry_for addr attributes h = omega arith

set_handler_self :
    (idt : Idt) (i v a attributes : ℕ)
    → i < 256
    → i ≡ v
    → set_handler idt i a attributes v ≡ entry_for a attributes
unfolding set_handler
set_handler_self idt i v a attributes h e = ground arith

set_handler-ne :
    (idt : Idt) (i v a attributes : ℕ) → i ≢ v → set_handler idt i a attributes v ≡ idt v
unfolding set_handler
set_handler-ne idt i v a attributes ne = ground arith

set_stubs_lem :
    (table : ℕ → ℕ) (back count i : ℕ) (idt : Idt) (v : ℕ)
    → i + count ≤ 256
    → set_stubs table back count i idt v
      ≡ (if leb i v && ltb v (i + count) then entry_for (table (v - back)) kernel_gate else idt v)
unfolding set_stubs
set_stubs_lem table back zero i idt v h = ground arith
set_stubs_lem table back (suc count) i idt v h =
    set_stubs_lem table back count (suc i) (set_handler idt i (table (i - back)) kernel_gate) v
      (omega arith)
    ∙ elim (ℕ_discrete i v) [
      | yes e ↦
          rw (set_handler_self idt i v (table (i - back)) kernel_gate (omega arith) e, ← e)
            (ground arith)
      | no ne ↦ rw (set_handler-ne idt i v (table (i - back)) kernel_gate ne) (ground arith)
    ]

-- The handler that the table should give for a vector, with the attributes of its gate.
abbrev pub gate_of : (ℕ → ℕ) → ℕ → ℕ → ℕ → IdtEntry
gate_of isr timer spurious v =
    if ltb v 32
    then entry_for (isr v) kernel_gate
    else if v == 32
    then entry_for timer kernel_gate
    else if ltb v 48
    then entry_for (isr (v - 1)) kernel_gate
    else if v == 0x80
    then entry_for (isr 128) user_gate
    else if v == 0xFF
    then entry_for spurious kernel_gate
    else no_entry

-- The table that `init` loads has, for each of the 256 vectors: an exception's stub below 32, the
-- timer's handler at 32, the stub of the vector before it from 33 to 47, the system call stub at
-- 0x80 with the privilege of user code, and the spurious handler at 0xFF; no other entry is present.
pub init_lem :
    (isr : ℕ → ℕ) (timer spurious v : ℕ)
    → v < 256
    → init (isr_stub_table isr) timer spurious v ≡ gate_of isr timer spurious v
unfolding init isr_stub_table set_handler
init_lem isr timer spurious v h =
    let table : ℕ → ℕ = isr_stub_table isr in
    let exceptions : Idt = set_stubs table 0 32 0 (λ v. no_entry) in
    let with_timer : Idt = set_handler exceptions 32 timer kernel_gate in
    rw
      (
        set_stubs_lem table 1 15 33 with_timer v (omega arith),
        set_stubs_lem table 0 32 0 (λ v. no_entry) v (omega arith),
      )
      (ground arith)
