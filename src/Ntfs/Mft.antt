-- ===== src/Ntfs/Mft.antt =====
-- src/fs/ntfs.rs: `parse_mft_record`.
use delta_os.Base.{
  ℕ, zero, suc, ◌+◌, ◌-◌, ◌*◌, Bool, not, ◌&&◌, ◌||◌, Option, none, some, List, [], ◌∷◌, ◌++◌,
  if◌then◌else◌, ◌==◌, ltb, leb, length, take, drop,
}
use delta_os.Kernel.Result.{KernelResult, ok, err, io_error}
use delta_os.Ntfs.{
  DataRun, NtfsAttribute, MftRecord, from_u32, mft_record_size, mft_record_signature,
}
use delta_os.Ntfs.Bytes.{byte, le_word, chars_at}
use delta_os.Ntfs.Runs.{parse_run_list}
use delta_os.Vfs.Path.{Text}

-- The loop's end, a slice out of bounds that panics, or the fuel's end.
pub data Parsed (A : Type 0) : Type 0 where
  parsed : A → Parsed A
  panicked out_of_fuel : Parsed A

unfoldable pub attribute_name : List ℕ → ℕ → ℕ → Option Text
attribute_name bytes offset total_size =
    let name_length : ℕ = byte bytes (offset + 9) in
    let name_offset : ℕ = le_word bytes (offset + 10) 2 in
    if ltb 0 name_length && leb (name_offset + name_length * 2) total_size
    then some (chars_at bytes (length bytes) (offset + name_offset) name_length)
    else none

unfoldable pub empty_attribute : List ℕ → ℕ → ℕ → NtfsAttribute
empty_attribute bytes offset total_size = record {
  attr_type = from_u32 (le_word bytes offset 4);
  total_size = total_size;
  non_resident = not (byte bytes (offset + 8) == 0);
  name = attribute_name bytes offset total_size;
  resident_data = none;
  run_list = [];
  data_size = 0;
  initialized_size = 0;
}

abbrev pub slice : List ℕ → ℕ → ℕ → List ℕ
slice bytes from to = take (to - from) (drop from bytes)

-- The runs of `&data[offset + run_offset..offset + total_size]`.
unfoldable pub with_runs :
    NtfsAttribute → List ℕ → ℕ → ℕ → Option (List DataRun) → Parsed NtfsAttribute
with_runs attr bytes offset total_size none = out_of_fuel
with_runs attr bytes offset total_size (some runs) = parsed (record attr {
  data_size = le_word bytes (offset + 0x30) 8;
  initialized_size = le_word bytes (offset + 0x38) 8;
  run_list = runs;
})

unfoldable pub fill_non_resident : NtfsAttribute → List ℕ → ℕ → ℕ → Parsed NtfsAttribute
fill_non_resident attr bytes offset total_size =
    let run_offset : ℕ = le_word bytes (offset + 0x20) 2 in
    if ltb (length bytes) (offset + 0x40)
    then parsed attr
    else if ltb total_size run_offset
    then panicked
    else with_runs attr bytes offset total_size
        (parse_run_list (slice bytes (offset + run_offset) (offset + total_size)))

unfoldable pub fill_resident : NtfsAttribute → List ℕ → ℕ → NtfsAttribute
fill_resident attr bytes offset =
    let content_size : ℕ = le_word bytes (offset + 0x10) 4 in
    let content_offset : ℕ = le_word bytes (offset + 0x14) 2 in
    let start : ℕ = offset + content_offset in
    if ltb (length bytes) (offset + 0x16) then attr else record attr {
      data_size = content_size;
      initialized_size = content_size;
      resident_data =
          if leb (start + content_size) (length bytes)
          then some (slice bytes start (start + content_size))
          else none;
    }

unfoldable pub parse_attribute : List ℕ → ℕ → ℕ → Parsed NtfsAttribute
parse_attribute bytes offset total_size =
    let attr : NtfsAttribute = empty_attribute bytes offset total_size in
    if attr.non_resident
    then fill_non_resident attr bytes offset total_size
    else parsed (fill_resident attr bytes offset)

unfoldable pub then_push :
    (List NtfsAttribute → Parsed (List NtfsAttribute))
    → List NtfsAttribute
    → Parsed NtfsAttribute
    → Parsed (List NtfsAttribute)
then_push more attributes (parsed attr) = more (attributes ++ attr ∷ [])
then_push more attributes panicked = panicked
then_push more attributes out_of_fuel = out_of_fuel

-- Whether the loop is left at an offset.
unfoldable pub no_attribute : List ℕ → ℕ → Bool
no_attribute bytes offset =
    let total_size : ℕ = le_word bytes (offset + 4) 4 in
    (le_word bytes offset 4 == 0xFFFFFFFF)
    || ltb (length bytes) (offset + 24)
    || (total_size == 0)
    || ltb (length bytes) (offset + total_size)

-- The loop over the attributes, on fuel.
unfoldable pub parse_attributes : ℕ → List ℕ → ℕ → List NtfsAttribute → Parsed (List NtfsAttribute)
parse_attributes zero bytes offset attributes = out_of_fuel
parse_attributes (suc fuel) bytes offset attributes =
    let total_size : ℕ = le_word bytes (offset + 4) 4 in
    let next =
      then_push (λ more. parse_attributes fuel bytes (offset + total_size) more) attributes
        (parse_attribute bytes offset total_size) in
    if not (ltb (offset + 4) (length bytes)) || no_attribute bytes offset
    then parsed attributes
    else next

unfoldable pub to_record : List ℕ → Parsed (List NtfsAttribute) → Parsed (KernelResult MftRecord)
to_record bytes (parsed attributes) = parsed (
    ok (record {
      record_number = 0;
      flags = le_word bytes 0x16 2;
      sequence_number = le_word bytes 0x10 2;
      attributes = attributes;
      bytes_in_use = le_word bytes 0x18 4;
    }))
to_record bytes panicked = panicked
to_record bytes out_of_fuel = out_of_fuel

unfoldable pub parse_mft_record : List ℕ → Parsed (KernelResult MftRecord)
parse_mft_record bytes =
    if ltb (length bytes) mft_record_size
    then parsed (err io_error)
    else if not (le_word bytes 0 4 == mft_record_signature)
    then parsed (err io_error)
    else to_record bytes (parse_attributes (length bytes + 1) bytes (le_word bytes 0x14 2) [])
