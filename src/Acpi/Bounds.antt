-- ===== src/Acpi/Bounds.antt =====
-- src/acpi/mod.rs: the parser ends, and keeps within its arrays.
use delta_os.Base.{
  ℕ, zero, suc, ◌+◌, ◌≤◌, ◌<◌, ◌≡◌, refl, sym, ap, subst, ◌∙◌, false, not, Option, none, some,
  if◌then◌else◌, ◌==◌, ltb, length, length-set, if_elim, arith,
}
use delta_os.Vfs.Path.{Text, text_eq}
use delta_os.Acpi.Tables.{
  Ram, bytes_at, field, find, validate, xsdt_address, rsdt_address, MadtEntryType, local_apic,
  io_apic, interrupt_source_override, nmi_source, local_apic_nmi, local_apic_address_override,
  io_sapic, local_sapic, platform_interrupt_source, unknown, entry_type, entry_types, AcpiInfo, new,
  madt_size, madt_signature, hpet_signature, sdt_header_size,
}
use delta_os.Acpi.{
  add_processor, add_override, read_entry, madt_entries, parse_madt, parse_hpet, parse_table,
  try_some, parse_entries, AcpiError, Outcome, ended, finished, parse_sdt, parse_xsdt, parse_rsdt,
  parse_tables, parse_from, parse,
}

-- The arrays have their sizes, and the counts are places in them or their ends.
unfoldable pub IsInfo : AcpiInfo → Type 0
IsInfo info =
    (length info.processors ≡ 256)
    × (info.processor_count < 256)
    × (length info.int_overrides ≡ 16)
    × (info.int_override_count ≤ 16)

pub new-IsInfo : IsInfo new
unfolding IsInfo new
new-IsInfo = (refl, omega arith, refl, omega arith)

add_processor-IsInfo :
    (ram : Ram) (entry : ℕ) (info : AcpiInfo) → IsInfo info → IsInfo (add_processor ram entry info)
unfolding IsInfo add_processor
add_processor-IsInfo ram entry info (a, b, c, d) =
    if_elim IsInfo (ltb info.processor_count 256)
      (λ _. (length-set info.processors info.processor_count _ ∙ a, omega arith, c, d))
      (λ _. (a, b, c, d))

add_override-IsInfo :
    (ram : Ram) (entry : ℕ) (info : AcpiInfo) → IsInfo info → IsInfo (add_override ram entry info)
unfolding IsInfo add_override
add_override-IsInfo ram entry info (a, b, c, d) =
    if_elim IsInfo (ltb info.int_override_count 16)
      (λ lt.
        (a, b, length-set info.int_overrides info.int_override_count _ ∙ c, ground (arith, lt)))
      (λ _. (a, b, c, d))

read_entry-IsInfo :
    (ram : Ram) (entry : ℕ) (info : AcpiInfo) (t : MadtEntryType)
    → IsInfo info
    → IsInfo (read_entry ram entry info t)
unfolding IsInfo read_entry
read_entry-IsInfo ram entry info local_apic i = add_processor-IsInfo ram entry info i
read_entry-IsInfo ram entry info io_apic i = i
read_entry-IsInfo ram entry info interrupt_source_override i = add_override-IsInfo ram entry info i
read_entry-IsInfo ram entry info nmi_source i = i
read_entry-IsInfo ram entry info local_apic_nmi i = i
read_entry-IsInfo ram entry info local_apic_address_override i = i
read_entry-IsInfo ram entry info io_sapic i = i
read_entry-IsInfo ram entry info local_sapic i = i
read_entry-IsInfo ram entry info platform_interrupt_source i = i
read_entry-IsInfo ram entry info unknown i = i

-- There is a result, and it is within bounds.
Sound : Option AcpiInfo → Type 0
Sound o = (info : AcpiInfo) × (o ≡ some info) × IsInfo info

madt_entries-Sound :
    (fuel : ℕ) (ram : Ram) (addr total_length offset : ℕ) (info : AcpiInfo)
    → total_length ≤ offset + fuel
    → IsInfo info
    → Sound (madt_entries (suc fuel) ram addr total_length offset info)
unfolding madt_entries Sound
madt_entries-Sound zero ram addr total_length offset info h i =
    let out : ltb offset total_length ≡ false = ground arith in rw out (info, refl, i)
madt_entries-Sound (suc fuel) ram addr total_length offset info h i =
    let entry : ℕ = addr + offset in
    let info' : AcpiInfo = read_entry ram entry info (entry_type (ram entry) entry_types) in
    let i' = read_entry-IsInfo ram entry info (entry_type (ram entry) entry_types) i in
    if_elim Sound (not (ltb offset total_length)) (λ _. (info, refl, i))
      λ _.
        if_elim Sound (ram (entry + 1) == 0) (λ _. (info', refl, i'))
          λ more.
            madt_entries-Sound fuel ram addr total_length (offset + ram (entry + 1)) info'
              (ground (arith, more)) i'

parse_table-Sound :
    (ram : Ram) (addr : ℕ) (info : AcpiInfo) → IsInfo info → Sound (parse_table ram addr info)
unfolding parse_table parse_madt parse_hpet Sound IsInfo
parse_table-Sound ram addr info i =
    let total_length : ℕ = field ram (addr + 4) 4 in
    let fuel : total_length + 1 ≡ suc total_length = omega arith in
    if_elim Sound (text_eq (bytes_at ram addr 4) madt_signature)
      (λ _. rw fuel (
        madt_entries-Sound total_length ram addr total_length madt_size
          (record info { local_apic_address = field ram (addr + 36) 4 }) (omega arith) i))
      λ _.
        if_elim Sound (text_eq (bytes_at ram addr 4) hpet_signature)
          (λ _. (parse_hpet ram addr info, refl, i)) λ _. (info, refl, i)

try_some-Sound :
    (o : Option AcpiInfo) (f : AcpiInfo → Option AcpiInfo)
    → Sound o
    → ((info : AcpiInfo) → IsInfo info → Sound (f info))
    → Sound (try_some o f)
unfolding Sound
try_some-Sound o f (info, e, i) h =
    subst (λ (p : Option AcpiInfo). Sound (try_some p f)) (sym e) (h info i)

parse_entries-Sound :
    (ram : Ram) (width count at : ℕ) (info : AcpiInfo)
    → IsInfo info
    → Sound (parse_entries ram width count at info)
unfolding parse_entries Sound
parse_entries-Sound ram width zero at info i = (info, refl, i)
parse_entries-Sound ram width (suc count) at info i =
    let addr : ℕ = field ram at width in
    try_some-Sound (if addr == 0 then some info else parse_table ram addr info) _
      (if_elim Sound (addr == 0) (λ _. (info, refl, i)) (λ _. parse_table-Sound ram addr info i))
      (λ info' i'. parse_entries-Sound ram width count (at + width) info' i')

unfoldable pub SoundOutcome : Outcome → Type 0
SoundOutcome o = (e : Option AcpiError) × (info : AcpiInfo) × (o ≡ ended e info) × IsInfo info

finished-SoundOutcome : (o : Option AcpiInfo) → Sound o → SoundOutcome (finished o)
unfolding Sound SoundOutcome finished
finished-SoundOutcome o (info, e, i) = (none, info, ap finished e, i)

parse_sdt-SoundOutcome :
    (ram : Ram) (addr : ℕ) (signature : Text) (width : ℕ) (bad_signature bad_checksum : AcpiError)
    (info : AcpiInfo)
    → IsInfo info
    → SoundOutcome (parse_sdt ram addr signature width bad_signature bad_checksum info)
unfolding parse_sdt SoundOutcome
parse_sdt-SoundOutcome ram addr signature width bad_signature bad_checksum info i =
    if_elim SoundOutcome (not (text_eq (bytes_at ram addr 4) signature))
      (λ _. (some bad_signature, info, refl, i))
      λ _.
        if_elim SoundOutcome (not (validate ram addr)) (λ _. (some bad_checksum, info, refl, i))
          λ _.
            finished-SoundOutcome _
              (parse_entries-Sound ram width _ (addr + sdt_header_size) info i)

parse_tables-SoundOutcome :
    (ram : Ram) (rsdp : ℕ) (o : Option ℕ) (info : AcpiInfo)
    → IsInfo info
    → SoundOutcome (parse_tables ram rsdp o info)
unfolding parse_tables parse_xsdt parse_rsdt
parse_tables-SoundOutcome ram rsdp (some xsdt) info i =
    parse_sdt-SoundOutcome ram xsdt _ _ _ _ info i
parse_tables-SoundOutcome ram rsdp none info i =
    parse_sdt-SoundOutcome ram (rsdt_address ram rsdp) _ _ _ _ info i

parse_from-SoundOutcome :
    (ram : Ram) (o : Option ℕ) (info : AcpiInfo)
    → IsInfo info
    → SoundOutcome (parse_from ram o info)
unfolding parse_from SoundOutcome IsInfo
parse_from-SoundOutcome ram none info i = (some _, info, refl, i)
parse_from-SoundOutcome ram (some rsdp) info i =
    parse_tables-SoundOutcome ram rsdp (xsdt_address ram rsdp) _ i

-- Whatever the memory holds, `parse` comes to an end: with or without an error, after tables of any
-- content and length, with entries of length 0 among them. It then has 256 processors and 16 overrides in
-- its arrays as before, a count below 256 of the first and of at most 16 of the second.
pub parse-SoundOutcome : (ram : Ram) (info : AcpiInfo) → IsInfo info → SoundOutcome (parse ram info)
unfolding parse
parse-SoundOutcome ram info i = parse_from-SoundOutcome ram (find ram) info i
