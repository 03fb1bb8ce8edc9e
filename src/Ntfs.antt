-- ===== src/Ntfs.antt =====
-- src/fs/ntfs.rs: the types of an NTFS volume, its boot sector and its journal. Bytes and code units are
-- numbers, text the numbers of its characters; an i8 or i64 is its bits.
pub mod Bytes
pub mod Runs
pub mod Mft
pub mod Volume
pub mod Journal
pub mod RunLists
pub mod RoundTrip
pub mod Parsing
use delta_os.Base.{
  ℕ, zero, suc, ◌+◌, ◌-◌, ◌*◌, ◌/◌, ◌%◌, ◌^◌, Bool, true, false, not, ◌&&◌, ◌||◌, List, [], ◌∷◌,
  ◌++◌, map, Option, none, some, if◌then◌else◌, ◌==◌, ltb, leb, length, get_or, take, drop,
}
use delta_os.Base.Word.{add64}
use delta_os.Base.Bits.{shl_one}
use delta_os.Base.Map.{Map}
use delta_os.Kernel.Result.{KernelResult, ok, err, io_error, file_system_not_found}
use delta_os.Vfs.Path.{Text, text_eq}
use delta_os.Vfs.Types.{FileMetadata}
use delta_os.Ntfs.Bytes.{byte, le_word}

-- "NTFS    "
abbrev pub ntfs_signature : Text
ntfs_signature = 78 ∷ 84 ∷ 70 ∷ 83 ∷ 32 ∷ 32 ∷ 32 ∷ 32 ∷ []

abbrev pub mft_number_root : ℕ
mft_number_root = 5

abbrev pub mft_record_size : ℕ
mft_record_size = 1024

abbrev pub mft_record_signature : ℕ
mft_record_signature = 0x454C4946

pub data NtfsAttributeType : Type 0 where
  standard_information attribute_list file_name object_id security_descriptor : NtfsAttributeType
  volume_name volume_information file_data index_root index_allocation : NtfsAttributeType
  bitmap reparse_point ea_information ea logged_utility_stream end : NtfsAttributeType

-- `NtfsAttributeType::from`, with the numbers in the order of the enum.
abbrev pub type_codes : List (ℕ × NtfsAttributeType)
type_codes =
    (0x10, standard_information)
    ∷ (0x20, attribute_list)
    ∷ (0x30, file_name)
    ∷ (0x40, object_id)
    ∷ (0x50, security_descriptor)
    ∷ (0x60, volume_name)
    ∷ (0x70, volume_information)
    ∷ (0x80, file_data)
    ∷ (0x90, index_root)
    ∷ (0xA0, index_allocation)
    ∷ (0xB0, bitmap)
    ∷ (0xC0, reparse_point)
    ∷ (0xD0, ea_information)
    ∷ (0xE0, ea)
    ∷ (0x100, logged_utility_stream)
    ∷ (0xFFFFFFFF, end)
    ∷ []

unfoldable pub find_type : List (ℕ × NtfsAttributeType) → ℕ → NtfsAttributeType
find_type [] v = end
find_type ((code, t) ∷ rest) v = let later = find_type rest v in if code == v then t else later

unfoldable pub from_u32 : ℕ → NtfsAttributeType
from_u32 v = find_type type_codes v

abbrev pub in_use_flag : ℕ
in_use_flag = 0x0001

abbrev pub is_directory_flag : ℕ
is_directory_flag = 0x0002

pub record NtfsBpb : Type 0 where
  pub bytes_per_sector : ℕ
  pub sectors_per_cluster : ℕ
  pub total_sectors : ℕ
  pub mft_start_cluster : ℕ
  pub mftmirr_start_cluster : ℕ
  pub record_size : ℕ
  pub index_record_size : ℕ
  pub volume_serial : ℕ
  pub cluster_size : ℕ

-- `NtfsBpb::parse`. The code also computes the size of a record, and does not use it.
unfoldable pub parse_bpb : List ℕ → KernelResult NtfsBpb
parse_bpb boot_sector =
    if ltb (length boot_sector) 512
    then err io_error
    else if not (text_eq (take 8 (drop 3 boot_sector)) ntfs_signature)
    then err file_system_not_found
    else ok (record {
      bytes_per_sector = le_word boot_sector 11 2;
      sectors_per_cluster = byte boot_sector 13;
      total_sectors = le_word boot_sector 40 8;
      mft_start_cluster = le_word boot_sector 48 8;
      mftmirr_start_cluster = le_word boot_sector 56 8;
      record_size = byte boot_sector 64;
      index_record_size = byte boot_sector 68;
      volume_serial = le_word boot_sector 72 8;
      cluster_size = le_word boot_sector 11 2 * byte boot_sector 13;
    })

-- A positive i8 counts sectors; `1 << -size` otherwise, a shift by the count's lowest six bits.
unfoldable pub mft_record_size_bytes : NtfsBpb → ℕ
mft_record_size_bytes bpb =
    if ltb 0 bpb.record_size && ltb bpb.record_size 128
    then bpb.record_size * bpb.bytes_per_sector
    else shl_one ((256 - bpb.record_size) % 64)

-- An offset counts clusters from the run before.
pub record DataRun : Type 0 where
  pub run_length : ℕ
  pub offset : ℕ

pub record NtfsAttribute : Type 0 where
  pub attr_type : NtfsAttributeType
  pub total_size : ℕ
  pub non_resident : Bool
  pub name : Option Text
  pub resident_data : Option (List ℕ)
  pub run_list : List DataRun
  pub data_size : ℕ
  pub initialized_size : ℕ

pub record MftRecord : Type 0 where
  pub record_number : ℕ
  pub flags : ℕ
  pub sequence_number : ℕ
  pub attributes : List NtfsAttribute
  pub bytes_in_use : ℕ

pub data JournalOperation : Type 0 where
  file_create file_delete file_write file_rename attribute_change : JournalOperation
  directory_create make_checkpoint : JournalOperation

pub record JournalEntry : Type 0 where
  pub lsn : ℕ
  pub operation : JournalOperation
  pub file_name : Text
  pub contents : List ℕ
  pub timestamp : ℕ

pub record NtfsJournal : Type 0 where
  pub entries : List JournalEntry
  pub max_entries : ℕ
  pub current_lsn : ℕ

unfoldable pub new_journal : NtfsJournal
new_journal = record { entries = []; max_entries = 1024; current_lsn = 0 }

unfoldable pub log : NtfsJournal → JournalOperation → Text → List ℕ → NtfsJournal
log j operation name contents =
    let entry : JournalEntry = record {
      lsn = j.current_lsn;
      operation = operation;
      file_name = name;
      contents = contents;
      timestamp = 0;
    } in
    let kept : List JournalEntry =
      if leb j.max_entries (length j.entries) then drop 1 j.entries else j.entries in
    record j { entries = kept ++ entry ∷ []; current_lsn = add64 j.current_lsn 1 }

unfoldable pub checkpoint : NtfsJournal → NtfsJournal
unfolding log
checkpoint j = log j make_checkpoint [] []

pub record NtfsVolume : Type 0 where
  pub bpb : NtfsBpb
  pub mft_cache : Map ℕ MftRecord
  pub journal : NtfsJournal
  pub disk_id : ℕ

pub record NtfsInode : Type 0 where
  pub record_number : ℕ
  pub metadata : FileMetadata
  pub attributes : List NtfsAttribute
  pub volume : NtfsVolume
