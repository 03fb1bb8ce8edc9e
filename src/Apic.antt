-- ===== src/Apic.antt =====
-- src/apic/mod.rs: the local APIC and the IO APIC. Memory-mapped registers and ports are those of a bus, a
-- parameter; the statics are the fields of a record.
pub mod Entries
pub mod Redirects
pub mod Registers
use Prim.Native.Nat.{bit_and, bit_or}
use delta_os.Base.{
  ℕ, zero, suc, ◌+◌, ◌-◌, ◌*◌, ◌/◌, ◌%◌, ◌^◌, Bool, true, false, not, List, [], ◌∷◌, Option, none,
  some, if◌then◌else◌, ◌==◌, take,
}
use delta_os.Base.Word.{u8_mod, u32_mod}
use delta_os.Base.Bits.{complement}
use delta_os.Apic.Registers.{
  lapic_id, lapic_eoi_offset, lapic_svr, lapic_esr, lapic_icr_low, lapic_icr_high, lapic_lvt_timer,
  lapic_lvt_all, lapic_timer_icr, lapic_timer_ccr, lapic_timer_dcr, lapic_svr_enable,
  lapic_spurious_vector, lapic_timer_vector, lapic_timer_mode_periodic, lapic_lvt_masked,
  lapic_timer_divide_by_16, icr_delivery_init, icr_delivery_startup, icr_level_assert,
  ioapic_reg_version, ioapic_reg_redirect, ioapic_redirect_masked, ioapic_redirect_level,
  calibration_ticks,
}
use delta_os.Acpi.Tables.{IntOverride, AcpiInfo}

-- The devices: a state, volatile reads and writes of 32 bits at an address, and ports. `terminal_count` is
-- the state in which the loop on bit 5 of port 0x61 ends.
pub record Bus (D : Type 0) : Type 0 where
  pub read32 : D → ℕ → ℕ
  pub write32 : D → ℕ → ℕ → D
  pub inb : D → ℕ → ℕ
  pub outb : D → ℕ → ℕ → D
  pub terminal_count : D → D

-- LAPIC_BASE, IOAPIC_BASE, APIC_INITIALIZED and USING_APIC, with the devices.
pub record Apic (D : Type 0) : Type 0 where
  pub lapic_base : ℕ
  pub ioapic_base : ℕ
  pub apic_initialized : Bool
  pub using_apic : Bool
  pub devices : D

module _ {D : Type 0} (bus : Bus D) where
  unfoldable pub read_reg : Apic D → ℕ → ℕ
  read_reg a offset = bus.read32 a.devices (a.lapic_base + offset)

  unfoldable pub write_reg : Apic D → ℕ → ℕ → Apic D
  write_reg a offset value = record a {
    devices = bus.write32 a.devices (a.lapic_base + offset) value;
  }

  -- `write_reg` of one value to registers in turn.
  unfoldable pub write_each : Apic D → List ℕ → ℕ → Apic D
  write_each a [] value = a
  write_each a (offset ∷ offsets) value = write_each (write_reg a offset value) offsets value

  -- `LocalApic::init`: false for the error "Failed to enable Local APIC".
  unfoldable pub init_local : Apic D → AcpiInfo → Bool × Apic D
  init_local a info =
      let set_up =
        write_reg
          (write_each
            (write_each (record a { lapic_base = info.local_apic_address }) lapic_lvt_all
              lapic_lvt_masked)
            (lapic_esr ∷ lapic_esr ∷ []) 0)
          lapic_svr (bit_or lapic_svr_enable lapic_spurious_vector) in
      if bit_and (read_reg set_up lapic_svr) lapic_svr_enable == 0
      then (false, set_up)
      else (true, record set_up { apic_initialized = true; using_apic = true })

  unfoldable pub out_port : Apic D → ℕ → ℕ → Apic D
  out_port a port value = record a { devices = bus.outb a.devices port value }

  -- `outb(0x61, (inb_legacy(0x61) & 0x0D) | 0x01)`
  unfoldable pub enable_channel : Apic D → Apic D
  enable_channel a = out_port a 0x61 (bit_or (bit_and (bus.inb a.devices 0x61) 0x0D) 1)

  -- `elapsed` and the count that is read are words of 32 bits.
  unfoldable pub calibrate_timer : Apic D → ℕ × Apic D
  calibrate_timer a =
      let programmed =
        out_port
          (out_port (out_port (enable_channel a) 0x43 0xB2) 0x42 (calibration_ticks % u8_mod)) 0x42
          (calibration_ticks / u8_mod % u8_mod) in
      let counting = enable_channel (
        write_reg
          (write_reg (write_reg programmed lapic_lvt_timer lapic_timer_vector) lapic_timer_dcr
            lapic_timer_divide_by_16)
          lapic_timer_icr 0xFFFFFFFF) in
      let ended = record counting { devices = bus.terminal_count counting.devices } in
      let elapsed = 0xFFFFFFFF - read_reg ended lapic_timer_ccr in
      (elapsed * 16 * 1000 / 50, write_reg ended lapic_lvt_timer lapic_lvt_masked)

  -- A frequency of 0 makes the source panic on the division; here the count is then what `/` gives.
  unfoldable pub setup_timer : Apic D → ℕ → Apic D
  setup_timer a frequency_hz =
      let (bus_freq, calibrated) =
        calibrate_timer (write_reg a lapic_timer_dcr lapic_timer_divide_by_16) in
      let initial_count = bus_freq / 16 / frequency_hz in
      if a.apic_initialized
      then write_reg
          (write_reg calibrated lapic_lvt_timer
            (bit_or lapic_timer_mode_periodic lapic_timer_vector))
          lapic_timer_icr (initial_count % u32_mod)
      else a

  unfoldable pub eoi : Apic D → Apic D
  eoi a = if a.apic_initialized then write_reg a lapic_eoi_offset 0 else a

  unfoldable pub local_id : Apic D → ℕ
  local_id a = if a.apic_initialized then read_reg a lapic_id / 2 ^ 24 else 0

  -- `wait_icr` reads only, and ends after 1000 rounds at most.
  unfoldable pub send_init : Apic D → ℕ → Apic D
  send_init a apic_id =
      write_reg (write_reg a lapic_icr_high (apic_id * 2 ^ 24)) lapic_icr_low
        (bit_or icr_delivery_init icr_level_assert)

  unfoldable pub send_startup : Apic D → ℕ → ℕ → Apic D
  send_startup a apic_id vector =
      write_reg (write_reg a lapic_icr_high (apic_id * 2 ^ 24)) lapic_icr_low
        (bit_or icr_delivery_startup (bit_and vector 0xFF))

  unfoldable pub stop_timer : Apic D → Apic D
  stop_timer a =
      if a.apic_initialized
      then write_reg (write_reg a lapic_lvt_timer lapic_lvt_masked) lapic_timer_icr 0
      else a

  unfoldable pub disable_pic : Apic D → Apic D
  disable_pic a = out_port (out_port a 0x21 0xFF) 0xA1 0xFF

  -- `IoApic::read`, which selects the register first.
  unfoldable pub read_register : Apic D → ℕ → ℕ × Apic D
  read_register a register =
      let selected = bus.write32 a.devices a.ioapic_base register in
      (bus.read32 selected (a.ioapic_base + 0x10), record a { devices = selected })

  unfoldable pub write_register : Apic D → ℕ → ℕ → Apic D
  write_register a register value = record a {
    devices =
        bus.write32 (bus.write32 a.devices a.ioapic_base register) (a.ioapic_base + 0x10) value;
  }

  unfoldable pub read_redirect : Apic D → ℕ → ℕ × Apic D
  unfolding read_register
  read_redirect a entry =
      let (low, a') = read_register a (ioapic_reg_redirect + entry * 2) in
      let (high, a'') = read_register a' (ioapic_reg_redirect + entry * 2 + 1) in
      (bit_or (high * u32_mod) low, a'')

  unfoldable pub write_redirect : Apic D → ℕ → ℕ → Apic D
  write_redirect a entry value =
      write_register (write_register a (ioapic_reg_redirect + entry * 2) (value % u32_mod))
        (ioapic_reg_redirect + entry * 2 + 1) (value / u32_mod % u32_mod)

  unfoldable pub setup_irq : Apic D → ℕ → ℕ → Bool → Apic D
  setup_irq a irq vector level_triggered =
      write_redirect a irq (if level_triggered then bit_or vector ioapic_redirect_level else vector)

  unfoldable pub mask_irq : Apic D → ℕ → Apic D
  unfolding read_redirect
  mask_irq a irq =
      let (entry, a') = read_redirect a irq in
      write_redirect a' irq (bit_or entry ioapic_redirect_masked)

  unfoldable pub unmask_irq : Apic D → ℕ → Apic D
  unfolding read_redirect
  unmask_irq a irq =
      let (entry, a') = read_redirect a irq in
      write_redirect a' irq (bit_and entry (complement 64 ioapic_redirect_masked))

  -- `for i in 0..max_entries`, `count` entries from `i` on.
  unfoldable pub mask_all : ℕ → ℕ → Apic D → Apic D
  mask_all zero i a = a
  mask_all (suc count) i a = mask_all count (suc i) (write_redirect a i ioapic_redirect_masked)

  unfoldable pub route : IntOverride → Apic D → Apic D
  route o a =
      if o.irq_source == 0
      then setup_irq a (o.global_system_interrupt % u8_mod) lapic_timer_vector
          (not (bit_and o.flags 0x0A == 0))
      else a

  unfoldable pub route_all : List IntOverride → Apic D → Apic D
  route_all [] a = a
  route_all (o ∷ os) a = route_all os (route o a)

  -- `IoApic::init`, which returns Ok on every path.
  unfoldable pub init_io : Apic D → AcpiInfo → Apic D
  unfolding read_register
  init_io a info =
      let (version, found) =
        read_register (record a { ioapic_base = info.io_apic_address }) ioapic_reg_version in
      if info.io_apic_address == 0
      then a
      else route_all (take info.int_override_count info.int_overrides)
          (setup_irq (mask_all (version / 2 ^ 16 % u8_mod + 1) 0 found) 1 0x21 false)
