-- ===== src/Idt.antt =====
-- src/arch/idt.rs: the interrupt descriptor table that `init` loads, as a function of the vector, and
-- src/boot/long_mode.asm: the order of its stubs. `lidt`, which hands the table to the processor, is
-- not modelled.
pub mod Gates
use Prim.Native.Nat.{bit_or}
use delta_os.Base.{
  ℕ, zero, suc, ◌+◌, ◌-◌, ◌*◌, ◌/◌, ◌%◌, ◌^◌, Bool, true, false, if◌then◌else◌, ltb, leb, ◌==◌,
}

abbrev pub idt_entries : ℕ
idt_entries = 256

pub record IdtEntry : Type 0 where
  pub offset_low : ℕ
  pub selector : ℕ
  pub ist : ℕ
  pub attributes : ℕ
  pub offset_middle : ℕ
  pub offset_high : ℕ
  pub reserved : ℕ

abbrev pub no_entry : IdtEntry
no_entry = record {
  offset_low = 0;
  selector = 0;
  ist = 0;
  attributes = 0;
  offset_middle = 0;
  offset_high = 0;
  reserved = 0;
}

abbrev pub Idt : Type 0
Idt = ℕ → IdtEntry

-- `IDT_PRESENT | IDT_INTERRUPT_GATE | IDT_DPL_KERNEL`
abbrev pub kernel_gate : ℕ
kernel_gate = bit_or (bit_or 0x80 0x0E) 0x00

-- `IDT_PRESENT | IDT_TRAP_GATE | IDT_DPL_USER`
abbrev pub user_gate : ℕ
user_gate = bit_or (bit_or 0x80 0x0F) 0x60

-- The entry for the address of a handler; `& 0xFFFF` is the remainder by 2 ^ 16, and `>>` a quotient.
unfoldable pub entry_for : ℕ → ℕ → IdtEntry
entry_for handler_addr attributes = record {
  offset_low = handler_addr % 2 ^ 16;
  selector = 0x08;
  ist = 0;
  attributes = attributes;
  offset_middle = handler_addr / 2 ^ 16 % 2 ^ 16;
  offset_high = handler_addr / 2 ^ 32 % 2 ^ 32;
  reserved = 0;
}

unfoldable pub set_handler : Idt → ℕ → ℕ → ℕ → Idt
set_handler idt vector handler_addr attributes v =
    if leb idt_entries vector
    then idt v
    else if vector == v
    then entry_for handler_addr attributes
    else idt v

-- The table of the assembly's stubs: `isr n` is the address of the stub that reports vector `n`.
unfoldable pub isr_stub_table : (ℕ → ℕ) → ℕ → ℕ
isr_stub_table isr i = if ltb i 48 then isr i else isr 128

-- The two loops, over `count` vectors from `i` on; `back` is what the index into the table lags.
unfoldable pub set_stubs : (ℕ → ℕ) → ℕ → ℕ → ℕ → Idt → Idt
set_stubs table back zero i idt = idt
set_stubs table back (suc count) i idt =
    set_stubs table back count (suc i) (set_handler idt i (table (i - back)) kernel_gate)

-- `timer` and `spurious` are the addresses of `timer_isr` and `spurious_isr`.
unfoldable pub init : (ℕ → ℕ) → ℕ → ℕ → Idt
init table timer spurious =
    let exceptions = set_stubs table 0 32 0 (λ v. no_entry) in
    let with_timer = set_handler exceptions 32 timer kernel_gate in
    let hardware = set_stubs table 1 15 33 with_timer in
    let system = set_handler hardware 0x80 (table 48) user_gate in
    set_handler system 0xFF spurious kernel_gate
