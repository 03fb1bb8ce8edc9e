-- ===== src/Apic/Registers.antt =====
-- src/apic/mod.rs: the offsets, flags and vectors of the two APICs.
use delta_os.Base.{ℕ, ◌*◌, ◌/◌, ◌%◌, ◌^◌, List, [], ◌∷◌}

abbrev pub lapic_id : ℕ
lapic_id = 0x020

abbrev pub lapic_eoi_offset : ℕ
lapic_eoi_offset = 0x0B0

abbrev pub lapic_svr : ℕ
lapic_svr = 0x0F0

abbrev pub lapic_esr : ℕ
lapic_esr = 0x280

abbrev pub lapic_icr_low : ℕ
lapic_icr_low = 0x300

abbrev pub lapic_icr_high : ℕ
lapic_icr_high = 0x310

abbrev pub lapic_lvt_timer : ℕ
lapic_lvt_timer = 0x320

-- LAPIC_LVT_TIMER to LAPIC_LVT_ERROR, in the order in which they are masked.
abbrev pub lapic_lvt_all : List ℕ
lapic_lvt_all = 0x320 ∷ 0x330 ∷ 0x340 ∷ 0x350 ∷ 0x360 ∷ 0x370 ∷ []

abbrev pub lapic_timer_icr : ℕ
lapic_timer_icr = 0x380

abbrev pub lapic_timer_ccr : ℕ
lapic_timer_ccr = 0x390

abbrev pub lapic_timer_dcr : ℕ
lapic_timer_dcr = 0x3E0

abbrev pub lapic_svr_enable : ℕ
lapic_svr_enable = 0x100

abbrev pub lapic_spurious_vector : ℕ
lapic_spurious_vector = 0xFF

abbrev pub lapic_timer_vector : ℕ
lapic_timer_vector = 0x20

abbrev pub lapic_timer_mode_periodic : ℕ
lapic_timer_mode_periodic = 0x20000

abbrev pub lapic_lvt_masked : ℕ
lapic_lvt_masked = 0x10000

abbrev pub lapic_timer_divide_by_16 : ℕ
lapic_timer_divide_by_16 = 3

abbrev pub icr_delivery_init : ℕ
icr_delivery_init = 0x500000

abbrev pub icr_delivery_startup : ℕ
icr_delivery_startup = 0x600000

abbrev pub icr_level_assert : ℕ
icr_level_assert = 0x4000

abbrev pub ioapic_reg_version : ℕ
ioapic_reg_version = 1

abbrev pub ioapic_reg_redirect : ℕ
ioapic_reg_redirect = 0x10

abbrev pub ioapic_redirect_masked : ℕ
ioapic_redirect_masked = 0x10000

abbrev pub ioapic_redirect_level : ℕ
ioapic_redirect_level = 0x8000

-- PIT_FREQUENCY * CALIBRATION_MS / 1000
abbrev pub calibration_ticks : ℕ
calibration_ticks = 1193182 * 50 / 1000 % 2 ^ 16
