-- ===== src/Tests/Devices.antt =====
-- src/interrupts.rs, src/syscall.rs, src/timer/mod.rs, src/arch/idt.rs and src/memory/heap.rs: their
-- theorems at concrete systems.
use delta_os.Base.{
  ℕ, ◌+◌, ◌-◌, ◌*◌, ◌/◌, ◌%◌, ◌≡◌, ◌≢◌, refl, inl, false, some, List, [], ◌∷◌, arith, length, min,
  All,
}
use delta_os.Keyboard.{Keyboard, start_up, scancode_to_ascii, scancode_to_ascii_shift}
use delta_os.Keyboard.Ring.{IsRing}
use delta_os.Keyboard.Typing.{scan, text, reads, reads-scan}
use delta_os.Idt.{init, isr_stub_table}
use delta_os.Idt.Gates.{gate_of, init_lem}
use delta_os.Syscall.{rust_syscall_handler}
use delta_os.Syscall.Dispatch.{Answers, rust_syscall_handler_lem}
use delta_os.Timer.{Timer}
use delta_os.Interrupts.{InterruptContext, System, rust_isr_handler}
use delta_os.Interrupts.Eoi.{Ended, rust_isr_handler_lem}
use delta_os.Heap.{SlabAllocator, slab_at}
use delta_os.Heap.Slabs.{IsSpent, attempts, alloc_from_slab_capped}
use delta_os.Tests.Samples.{trio, worker}

-- Two characters wait across the end of the buffer.
wrapped : Keyboard
wrapped = record (start_up) { head = 1; tail = 255 }

wrapped-IsRing : IsRing wrapped
unfolding wrapped
wrapped-IsRing = record { size = refl; head_in = omega arith; tail_in = omega arith }

-- Shift and `a`, then `b` without shift, with the releases.
abbrev keys : List ℕ
keys = 0x2A ∷ 0x1E ∷ 0x9E ∷ 0xAA ∷ 0x30 ∷ []

text-keys : text false keys ≡ 65 ∷ 98 ∷ []
unfolding scancode_to_ascii scancode_to_ascii_shift
text-keys = refl

reads-scan_example : reads (length (text false keys)) (scan keys start_up) ≡ text false keys
unfolding scancode_to_ascii scancode_to_ascii_shift
reads-scan_example =
    reads-scan keys (omega arith, (omega arith, (omega arith, (omega arith, (omega arith, tt)))))
      (omega arith)

abbrev stubs : ℕ → ℕ
stubs n = 0x100000 + 16 * (n % 256)

init_lem_example :
    init (isr_stub_table stubs) 0x200000 0x200100 0x80 ≡ gate_of stubs 0x200000 0x200100 0x80
init_lem_example = init_lem stubs 0x200000 0x200100 0x80 (omega arith)

rust_syscall_handler_lem_example :
    Answers (λ a. a % 256) [] 1 0x1000 5 1 (rust_syscall_handler (λ a. a % 256) [] 1 1 0x1000 5)
rust_syscall_handler_lem_example = rust_syscall_handler_lem (λ a. a % 256) [] 1 0x1000 5 1

abbrev clock : Timer
clock = record { tick_count = 0; timer_hz = 100; uptime_ms = 0 }

abbrev kernel_system : System
kernel_system = record {
  timer = clock;
  scheduler = some (trio worker);
  keyboard = start_up;
  using_apic = false;
  memory = λ a. 0;
  screen = [];
  faults = [];
  writes = [];
}

abbrev at_vector : ℕ → InterruptContext
at_vector v = record {
  r15 = 0;
  r14 = 0;
  r13 = 0;
  r12 = 0;
  r11 = 0;
  r10 = 0;
  r9 = 0;
  r8 = 0;
  rbp = 0;
  rdi = 0;
  rsi = 0;
  rdx = 0;
  rcx = 0;
  rbx = 0;
  rax = 0;
  vector = v;
  error_code = 0;
  rip = 0;
  cs = 0;
  rflags = 0;
  rsp = 0;
  ss = 0;
}

rust_isr_handler_lem_example :
    Ended kernel_system (at_vector 33) 0x1E (rust_isr_handler kernel_system (at_vector 33) 0x1E)
rust_isr_handler_lem_example =
    rust_isr_handler_lem kernel_system (at_vector 33) 0x1E
      (record { no_double_fault = omega arith; no_exit = inl (omega arith); ticking = omega arith })

-- One class, with all its blocks in use.
abbrev full_heap : SlabAllocator
full_heap = record {
  heap_start = 0x800000;
  heap_size = 0x200000;
  bump_offset = 0xA000;
  slabs =
      record {
        block_size = 8;
        free_list = [];
        free_count = 0;
        total_count = 1024;
        next_page = 0x800000;
      }
      ∷ [];
}

alloc_from_slab_capped_example :
    let (ptrs, a') = attempts 3 full_heap 0 in
    All (λ ptr. ptr ≡ 0) ptrs
    × (length ptrs ≡ 3)
    × IsSpent (slab_at a' 0)
    × ((j : ℕ) → 0 ≢ j → slab_at a' j ≡ slab_at full_heap j)
    × (a'.bump_offset ≡ 0xA000 + 4096 * min 3 ((0x200000 - 0xA000) / 4096))
alloc_from_slab_capped_example = alloc_from_slab_capped 3 full_heap 0 (omega arith) (refl, refl)
