-- ===== src/Acpi.antt =====
-- src/acpi/mod.rs: the tables that the firmware leaves in memory, read byte by byte. Fields of the packed
-- structs are at their offsets; what the code prints is left out, and so are fields that nothing reads.
pub mod Tables
pub mod Bounds
use delta_os.Base.{
  ℕ, zero, suc, ◌+◌, ◌*◌, ◌/◌, ◌%◌, Bool, true, false, not, ◌&&◌, ◌||◌, List, [], ◌∷◌, Option, none,
  some, if◌then◌else◌, ◌==◌, ltb, leb, replicate, set,
}
use delta_os.Base.Word.{u8_mod, sub64}
use delta_os.Vfs.Path.{Text, text_eq}
use delta_os.Acpi.Tables.{
  Ram, bytes_at, field, xsdt_signature, rsdt_signature, madt_signature, hpet_signature,
  sdt_header_size, madt_size, validate, find, xsdt_address, rsdt_address, MadtEntryType, local_apic,
  io_apic, interrupt_source_override, local_apic_address_override, entry_type, entry_types,
  ProcessorInfo, IntOverride, AcpiInfo,
}

-- The count is a u8, whose sum wraps.
unfoldable pub add_processor : Ram → ℕ → AcpiInfo → AcpiInfo
add_processor ram entry info =
    let p : ProcessorInfo = record {
      processor_id = ram (entry + 2);
      apic_id = ram (entry + 3);
      is_enabled = not (field ram (entry + 4) 4 % 2 == 0);
    } in
    if ltb info.processor_count 256
    then record info {
      processors = set info.processors info.processor_count p;
      processor_count = (info.processor_count + 1) % u8_mod;
    }
    else info

unfoldable pub add_override : Ram → ℕ → AcpiInfo → AcpiInfo
add_override ram entry info =
    let o : IntOverride = record {
      bus_source = ram (entry + 2);
      irq_source = ram (entry + 3);
      global_system_interrupt = field ram (entry + 4) 4;
      flags = field ram (entry + 8) 2;
    } in
    if ltb info.int_override_count 16
    then record info {
      int_overrides = set info.int_overrides info.int_override_count o;
      int_override_count = info.int_override_count + 1;
    }
    else info

unfoldable pub read_entry : Ram → ℕ → AcpiInfo → MadtEntryType → AcpiInfo
read_entry ram entry info local_apic = add_processor ram entry info
read_entry ram entry info io_apic = record info {
  io_apic_address = field ram (entry + 4) 4;
  io_apic_gsi_base = field ram (entry + 8) 4;
}
read_entry ram entry info interrupt_source_override = add_override ram entry info
read_entry ram entry info local_apic_address_override = record info {
  local_apic_address = field ram (entry + 4) 8;
}
read_entry ram entry info _ = info

-- The loop of `parse_madt`, on fuel.
unfoldable pub madt_entries : ℕ → Ram → ℕ → ℕ → ℕ → AcpiInfo → Option AcpiInfo
madt_entries zero ram addr total_length offset info = none
madt_entries (suc fuel) ram addr total_length offset info =
    let entry : ℕ = addr + offset in
    let info' : AcpiInfo = read_entry ram entry info (entry_type (ram entry) entry_types) in
    let rest = madt_entries fuel ram addr total_length (offset + ram (entry + 1)) info' in
    if not (ltb offset total_length)
    then some info
    else if ram (entry + 1) == 0
    then some info'
    else rest

unfoldable pub parse_madt : Ram → ℕ → AcpiInfo → Option AcpiInfo
parse_madt ram addr info =
    let total_length : ℕ = field ram (addr + 4) 4 in
    madt_entries (total_length + 1) ram addr total_length madt_size
      (record info { local_apic_address = field ram (addr + 36) 4 })

unfoldable pub parse_hpet : Ram → ℕ → AcpiInfo → AcpiInfo
parse_hpet ram addr info = record info {
  hpet_address = field ram (addr + 44) 8;
  hpet_number = ram (addr + 52);
  hpet_min_tick = field ram (addr + 53) 2;
}

-- A table with another signature, the FADT's among them, is passed over.
unfoldable pub parse_table : Ram → ℕ → AcpiInfo → Option AcpiInfo
parse_table ram addr info =
    let signature : Text = bytes_at ram addr 4 in
    if text_eq signature madt_signature
    then parse_madt ram addr info
    else if text_eq signature hpet_signature
    then some (parse_hpet ram addr info)
    else some info

abbrev pub try_some : Option AcpiInfo → (AcpiInfo → Option AcpiInfo) → Option AcpiInfo
try_some none f = none
try_some (some info) f = f info

-- The loops of `parse_xsdt` and `parse_rsdt` over `count` pointers of `width` bytes.
unfoldable pub parse_entries : Ram → ℕ → ℕ → ℕ → AcpiInfo → Option AcpiInfo
parse_entries ram width zero at info = some info
parse_entries ram width (suc count) at info =
    let addr : ℕ = field ram at width in
    try_some (if addr == 0 then some info else parse_table ram addr info)
      λ info'. parse_entries ram width count (at + width) info'

pub data AcpiError : Type 0 where
  rsdp_not_found invalid_xsdt_signature xsdt_checksum_invalid : AcpiError
  invalid_rsdt_signature rsdt_checksum_invalid : AcpiError

pub data Outcome : Type 0 where
  ended : Option AcpiError → AcpiInfo → Outcome
  out_of_fuel : Outcome

unfoldable pub finished : Option AcpiInfo → Outcome
finished none = out_of_fuel
finished (some info) = ended none info

-- The subtraction wraps for a table that is shorter than its header.
unfoldable pub parse_sdt : Ram → ℕ → Text → ℕ → AcpiError → AcpiError → AcpiInfo → Outcome
parse_sdt ram addr signature width bad_signature bad_checksum info =
    if not (text_eq (bytes_at ram addr 4) signature)
    then ended (some bad_signature) info
    else if not (validate ram addr)
    then ended (some bad_checksum) info
    else finished (
        parse_entries ram width (sub64 (field ram (addr + 4) 4) sdt_header_size / width)
          (addr + sdt_header_size) info)

unfoldable pub parse_xsdt : Ram → ℕ → AcpiInfo → Outcome
parse_xsdt ram addr =
    parse_sdt ram addr xsdt_signature 8 invalid_xsdt_signature xsdt_checksum_invalid

unfoldable pub parse_rsdt : Ram → ℕ → AcpiInfo → Outcome
parse_rsdt ram addr =
    parse_sdt ram addr rsdt_signature 4 invalid_rsdt_signature rsdt_checksum_invalid

unfoldable pub parse_tables : Ram → ℕ → Option ℕ → AcpiInfo → Outcome
parse_tables ram rsdp (some xsdt) info = parse_xsdt ram xsdt info
parse_tables ram rsdp none info = parse_rsdt ram (rsdt_address ram rsdp) info

unfoldable pub parse_from : Ram → Option ℕ → AcpiInfo → Outcome
parse_from ram none info = ended (some rsdp_not_found) info
parse_from ram (some rsdp) info =
    parse_tables ram rsdp (xsdt_address ram rsdp)
      (record info { is_acpi_2 = leb 2 (ram (rsdp + 15)) })

-- `AcpiParser::parse`, for the info that it holds.
unfoldable pub parse : Ram → AcpiInfo → Outcome
parse ram info = parse_from ram (find ram) info
