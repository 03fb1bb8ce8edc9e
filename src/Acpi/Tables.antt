-- ===== src/Acpi/Tables.antt =====
-- src/acpi/mod.rs: reads of memory, the search for the root pointer, and what is collected.
use delta_os.Base.{
  ℕ, zero, suc, ◌+◌, ◌*◌, ◌/◌, ◌%◌, Bool, false, not, ◌&&◌, List, [], ◌∷◌, Option, none, some,
  if◌then◌else◌, ◌==◌, ltb, leb, replicate,
}
use delta_os.Base.Word.{u8_mod}
use delta_os.Vfs.Path.{Text, text_eq}

abbrev pub Ram : Type 0
Ram = ℕ → ℕ

unfoldable pub bytes_at : Ram → ℕ → ℕ → List ℕ
bytes_at ram addr zero = []
bytes_at ram addr (suc count) = ram addr ∷ bytes_at ram (suc addr) count

-- A little-endian field of `count` bytes.
unfoldable pub field : Ram → ℕ → ℕ → ℕ
field ram addr zero = 0
field ram addr (suc count) = ram addr + 256 * field ram (suc addr) count

-- "RSD PTR "
abbrev pub rsdp_signature : Text
rsdp_signature = 82 ∷ 83 ∷ 68 ∷ 32 ∷ 80 ∷ 84 ∷ 82 ∷ 32 ∷ []

abbrev pub xsdt_signature : Text
xsdt_signature = 88 ∷ 83 ∷ 68 ∷ 84 ∷ []

abbrev pub rsdt_signature : Text
rsdt_signature = 82 ∷ 83 ∷ 68 ∷ 84 ∷ []

abbrev pub madt_signature : Text
madt_signature = 65 ∷ 80 ∷ 73 ∷ 67 ∷ []

abbrev pub hpet_signature : Text
hpet_signature = 72 ∷ 80 ∷ 69 ∷ 84 ∷ []

-- `size_of` the structs Rsdp, SdtHeader and Madt.
abbrev pub rsdp_size : ℕ
rsdp_size = 36

abbrev pub sdt_header_size : ℕ
sdt_header_size = 36

abbrev pub madt_size : ℕ
madt_size = 44

-- `fold(0, wrapping_add)`, and the test of it.
unfoldable pub sum_bytes : ℕ → List ℕ → ℕ
sum_bytes acc [] = acc
sum_bytes acc (b ∷ bytes) = sum_bytes ((acc + b) % u8_mod) bytes

unfoldable pub sums_to_zero : Ram → ℕ → ℕ → Bool
sums_to_zero ram addr size = sum_bytes 0 (bytes_at ram addr size) == 0

-- `Rsdp::validate_checksum`, over the whole struct whatever the revision.
unfoldable pub validate_checksum : Ram → ℕ → Bool
validate_checksum ram rsdp = sums_to_zero ram rsdp rsdp_size

-- `SdtHeader::validate`
unfoldable pub validate : Ram → ℕ → Bool
validate ram table = sums_to_zero ram table (field ram (table + 4) 4)

-- The loop of `search_region` over `count` offsets, 16 apart.
unfoldable pub search_from : Ram → ℕ → ℕ → ℕ → ℕ → Option ℕ
search_from ram start size zero offset = none
search_from ram start size (suc count) offset =
    let p : ℕ = start + offset in
    let rest = search_from ram start size count (offset + 16) in
    if not (ram p == 82)
    then rest
    else if ltb size (offset + 8)
    then none
    else if text_eq (bytes_at ram p 8) rsdp_signature && validate_checksum ram p
    then some p
    else rest

unfoldable pub search_region : Ram → ℕ → ℕ → Option ℕ
search_region ram start size = search_from ram start size ((size + 15) / 16) 0

abbrev pub or_else : Option ℕ → Option ℕ → Option ℕ
or_else (some a) o = some a
or_else none o = o

-- `Rsdp::find`
unfoldable pub find : Ram → Option ℕ
find ram =
    let ebda_ptr : ℕ = field ram 0x40E 2 in
    or_else (if not (ebda_ptr == 0) then search_region ram ebda_ptr 1024 else none)
      (search_region ram 0xE0000 0x20000)

unfoldable pub xsdt_address : Ram → ℕ → Option ℕ
xsdt_address ram rsdp =
    if leb 2 (ram (rsdp + 15)) && not (field ram (rsdp + 24) 8 == 0)
    then some (field ram (rsdp + 24) 8)
    else none

unfoldable pub rsdt_address : Ram → ℕ → ℕ
rsdt_address ram rsdp = field ram (rsdp + 16) 4

pub data MadtEntryType : Type 0 where
  local_apic io_apic interrupt_source_override nmi_source local_apic_nmi : MadtEntryType
  local_apic_address_override io_sapic local_sapic platform_interrupt_source : MadtEntryType
  unknown : MadtEntryType

-- `MadtEntryType::from`, by the place in the enum.
unfoldable pub entry_type : ℕ → List MadtEntryType → MadtEntryType
entry_type v [] = unknown
entry_type zero (t ∷ types) = t
entry_type (suc v) (t ∷ types) = entry_type v types

abbrev pub entry_types : List MadtEntryType
entry_types =
    local_apic ∷ io_apic ∷ interrupt_source_override ∷ nmi_source ∷ local_apic_nmi
    ∷ local_apic_address_override ∷ io_sapic ∷ local_sapic ∷ platform_interrupt_source ∷ []

pub record ProcessorInfo : Type 0 where
  pub processor_id : ℕ
  pub apic_id : ℕ
  pub is_enabled : Bool

pub record IntOverride : Type 0 where
  pub bus_source : ℕ
  pub irq_source : ℕ
  pub global_system_interrupt : ℕ
  pub flags : ℕ

pub record AcpiInfo : Type 0 where
  pub local_apic_address : ℕ
  pub io_apic_address : ℕ
  pub io_apic_gsi_base : ℕ
  pub hpet_address : ℕ
  pub hpet_number : ℕ
  pub hpet_min_tick : ℕ
  pub processor_count : ℕ
  pub processors : List ProcessorInfo
  pub int_overrides : List IntOverride
  pub int_override_count : ℕ
  pub is_acpi_2 : Bool

unfoldable pub new : AcpiInfo
new = record {
  local_apic_address = 0xFEE00000;
  io_apic_address = 0xFEC00000;
  io_apic_gsi_base = 0;
  hpet_address = 0;
  hpet_number = 0;
  hpet_min_tick = 0;
  processor_count = 0;
  processors = replicate 256 (record { processor_id = 0; apic_id = 0; is_enabled = false });
  int_overrides =
      replicate 16
        (record { bus_source = 0; irq_source = 0; global_system_interrupt = 0; flags = 0 });
  int_override_count = 0;
  is_acpi_2 = false;
}
