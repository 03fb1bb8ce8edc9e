-- ===== src/Tests/Routing.antt =====
-- src/apic/mod.rs: the theorem on an IO APIC with 24 inputs, and an override of the timer's interrupt.
use Prim.Native.Nat.{bit_and}
use delta_os.Base.{
  ℕ, ◌+◌, ◌*◌, ◌%◌, ◌<◌, ◌≡◌, refl, sym, ap, ◌∙◌, Bool, true, false, ◌&&◌, [], ◌∷◌, if◌then◌else◌,
  ◌==◌, leb, ltb, arith,
}
use delta_os.Acpi.Tables.{IntOverride, AcpiInfo, new}
use delta_os.Apic.{Bus, Apic, init_io}
use delta_os.Apic.Entries.{IsIoApic, shown, written, low, high, writable_low, writable_high}
use delta_os.Apic.Redirects.{routed, routed_all, init_io_lem}

-- The register that is selected, and what the registers hold. The version is fixed, and only the entries
-- of the inputs can be written.
abbrev Chip : Type 0
Chip = ℕ × (ℕ → ℕ)

abbrev base : ℕ
base = 0xFEC00000

abbrev is_entry : ℕ → Bool
is_entry r = leb 0x10 r && ltb r 0x40

abbrev bus : Bus Chip
bus = record {
  read32 = λ (d : Chip) (addr : ℕ). if d.0 == 1 then 0x170011 else d.1 d.0;
  write32 = λ (d : Chip) (addr v : ℕ).
      if addr == base
      then (v % 256, d.1)
      else if is_entry d.0
      then (d.0, λ q. if d.0 == q then v else d.1 q)
      else d;
  inb = λ (d : Chip) (port : ℕ). 0;
  outb = λ (d : Chip) (port v : ℕ). d;
  terminal_count = λ (d : Chip). d;
}

shown-entry : (d : Chip) (r : ℕ) → is_entry r ≡ true → shown bus base d r ≡ d.1 r
shown-entry d r e =
    let small : r % 256 ≡ r = ground (arith, e) in
    let other : (r == 1) ≡ false = ground (arith, e) in rw (small, other) refl

shown-written :
    (d : Chip) (r v q : ℕ)
    → is_entry r ≡ true
    → is_entry q ≡ true
    → shown bus base (written bus base d r v) q ≡ (if r == q then v else shown bus base d q)
shown-written d r v q e f =
    let small : r % 256 ≡ r = ground (arith, e) in
    rw (small, e)
      (shown-entry (r, λ x. if r == x then v else d.1 x) q f
        ∙ ap (λ w. if r == q then v else w) (sym (shown-entry d q f)))

low_in : (g : ℕ) → g < 24 → is_entry (0x10 + g * 2) ≡ true
low_in g l = ground arith

high_in : (g : ℕ) → g < 24 → is_entry (0x10 + g * 2 + 1) ≡ true
high_in g l = ground arith

io : IsIoApic bus base 24
io = record {
  few = omega arith;
  version = λ d. refl;
  low_low = λ d i v g l k lt.
      ap (λ w. bit_and w writable_low)
        (shown-written d (0x10 + i * 2) v (0x10 + g * 2) (low_in i l) (low_in g k))
      ∙ ground arith;
  low_high = λ d i v g l k lt.
      ap (λ w. bit_and w writable_high)
        (shown-written d (0x10 + i * 2) v (0x10 + g * 2 + 1) (low_in i l) (high_in g k))
      ∙ ground arith;
  high_low = λ d i v g l k lt.
      ap (λ w. bit_and w writable_low)
        (shown-written d (0x10 + i * 2 + 1) v (0x10 + g * 2) (high_in i l) (low_in g k))
      ∙ ground arith;
  high_high = λ d i v g l k lt.
      ap (λ w. bit_and w writable_high)
        (shown-written d (0x10 + i * 2 + 1) v (0x10 + g * 2 + 1) (high_in i l) (high_in g k))
      ∙ ground arith;
}

abbrev apic : Apic Chip
apic = record {
  lapic_base = 0;
  ioapic_base = 0;
  apic_initialized = false;
  using_apic = false;
  devices = (0, λ q. 0);
}

abbrev timer_override : IntOverride
timer_override = record { bus_source = 0; irq_source = 0; global_system_interrupt = 2; flags = 0 }

abbrev info : AcpiInfo
info = record new { int_overrides = timer_override ∷ []; int_override_count = 1 }

init_io_lem_example :
    (low bus base (init_io bus apic info).devices 2
      ≡ routed_all (timer_override ∷ []) 2 (if 1 == 2 then 0x21 else 0x10000))
    × (high bus base (init_io bus apic info).devices 2 ≡ 0)
unfolding new
init_io_lem_example =
    init_io_lem bus base 24 io apic info 2 refl (omega arith) (omega arith) (omega arith)
      (λ e. omega arith, tt)

timer_input : routed_all (timer_override ∷ []) 2 0x10000 ≡ 0x20
unfolding routed routed_all
timer_input = refl
