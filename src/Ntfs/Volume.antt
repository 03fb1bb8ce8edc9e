-- ===== src/Ntfs/Volume.antt =====
-- src/fs/ntfs.rs: the inodes of a volume, its records and the two traits. The pointer of an inode to its
-- volume is the volume, which no inode changes.
use delta_os.Base.{
  ℕ, ◌+◌, ◌-◌, ◌*◌, ◌/◌, ◌%◌, ◌^◌, min, Bool, true, false, not, ◌&&◌, ◌||◌, Option, none, some,
  List, [], ◌∷◌, ◌++◌, if◌then◌else◌, ◌==◌, ltb, leb, length, drop, replicate,
}
use Prim.Native.Nat.{bit_and, bit_or}
use delta_os.Base.Word.{add64, sub64, u64_mod}
use delta_os.Base.Map.{nat_key, get, insert}
use delta_os.Kernel.Result.{KernelResult, ok, err, ◌>>=◌, io_error, file_not_found}
use delta_os.Vfs.{Vfs, mount, default_mount_flags}
use delta_os.Vfs.Path.{Text, root_path}
use delta_os.Vfs.Types.{
  ntfs, directory, regular, default_permissions, FileSystemStats, InodeOps, FileSystemOps,
}
use delta_os.Ntfs.{
  NtfsAttributeType, standard_information, file_data, DataRun, NtfsAttribute, MftRecord, NtfsVolume,
  NtfsInode, is_directory_flag, in_use_flag, mft_number_root, mft_record_size,
  mft_record_size_bytes, parse_bpb, new_journal, ntfs_signature,
}
use delta_os.Ntfs.Bytes.{byte, le_word, chars_at}
use delta_os.Ntfs.Mft.{Parsed, parsed, panicked, out_of_fuel, slice, parse_mft_record}

-- Seconds since 1970, from tenths of a microsecond since 1601; 0 where there is no stamp.
unfoldable pub parse_timestamp : List ℕ → ℕ → ℕ
parse_timestamp bytes offset =
    let seconds : ℕ = le_word bytes offset 8 / 10000000 in
    if ltb (length bytes) (offset + 8)
    then 0
    else if ltb 11644473600 seconds
    then seconds - 11644473600
    else 0

-- "unknown"
abbrev pub unknown_name : Text
unknown_name = 117 ∷ 110 ∷ 107 ∷ 110 ∷ 111 ∷ 119 ∷ 110 ∷ []

unfoldable pub parse_file_name : List ℕ → Text
parse_file_name bytes =
    let name_len : ℕ = byte bytes 64 in
    if ltb (length bytes) 66 || ltb (length bytes) (66 + name_len * 2)
    then unknown_name
    else chars_at bytes (length bytes) 66 name_len

-- What the loop of `from_mft_record` collects: the size, and the times of creation and change.
pub record Collected : Type 0 where
  pub size : ℕ
  pub created : ℕ
  pub modified : ℕ

unfoldable pub collect_one :
    NtfsAttribute → NtfsAttributeType → Option (List ℕ) → Collected → Collected
collect_one attr standard_information (some bytes) c = record c {
  created = parse_timestamp bytes 0;
  modified = parse_timestamp bytes 8;
}
collect_one attr file_data contents c = record c { size = attr.data_size }
collect_one attr _ contents c = c

unfoldable pub collect : List NtfsAttribute → Collected → Collected
collect [] c = c
collect (attr ∷ rest) c = collect rest (collect_one attr attr.attr_type attr.resident_data c)

-- The file's name is parsed and not used.
unfoldable pub from_mft_record : MftRecord → NtfsVolume → NtfsInode
from_mft_record r volume =
    let c : Collected = collect r.attributes (record { size = 0; created = 0; modified = 0 }) in
    record {
      record_number = r.record_number;
      metadata = record {
        inode = r.record_number;
        file_type = if not (bit_and r.flags is_directory_flag == 0) then directory else regular;
        size = c.size;
        permissions = default_permissions;
        created = c.created;
        modified = c.modified;
        accessed = c.modified;
        nlinks = 1;
        uid = 0;
        gid = 0;
      };
      attributes = r.attributes;
      volume = volume;
    }

abbrev pub is_file_data : NtfsAttributeType → Bool
is_file_data file_data = true
is_file_data _ = false

abbrev pub is_unnamed : Option Text → Bool
is_unnamed none = true
is_unnamed (some name) = false

unfoldable pub get_data_attribute : List NtfsAttribute → Option NtfsAttribute
get_data_attribute [] = none
get_data_attribute (a ∷ rest) =
    let later = get_data_attribute rest in
    if is_file_data a.attr_type && is_unnamed a.name then some a else later

-- The loop of `read_from_runs`: the position on the disk, the bytes read and the file offset. Each byte
-- read is put as 0. Products and sums wrap, as in a release build.
pub record Progress : Type 0 where
  pub current_cluster : ℕ
  pub bytes_read : ℕ
  pub file_offset : ℕ

abbrev pub mul64 : ℕ → ℕ → ℕ
mul64 a b = a * b % u64_mod

unfoldable pub read_run : ℕ → ℕ → DataRun → Progress → Progress
read_run cluster_size wanted run p =
    let cluster : ℕ = add64 p.current_cluster run.offset in
    let start : ℕ = mul64 cluster cluster_size in
    let size : ℕ = mul64 run.run_length cluster_size in
    let skipped : ℕ = if ltb start p.file_offset then p.file_offset - start else 0 in
    let read_len : ℕ = min (sub64 size skipped) (wanted - p.bytes_read) in
    if leb (add64 start size) p.file_offset
    then record p { current_cluster = cluster }
    else record {
      current_cluster = cluster;
      bytes_read = p.bytes_read + read_len;
      file_offset = add64 p.file_offset read_len;
    }

unfoldable pub read_runs : ℕ → ℕ → List DataRun → Progress → Progress
read_runs cluster_size wanted [] p = p
read_runs cluster_size wanted (run ∷ runs) p =
    let p' : Progress = read_run cluster_size wanted run p in
    let rest = read_runs cluster_size wanted runs p' in
    if leb wanted p'.bytes_read then p' else rest

unfoldable pub read_from_runs : NtfsInode → List DataRun → ℕ → List ℕ → KernelResult ℕ × List ℕ
read_from_runs node runs offset buffer =
    let p : Progress =
      read_runs node.volume.bpb.cluster_size (length buffer) runs
        (record { current_cluster = 0; bytes_read = 0; file_offset = offset }) in
    (ok p.bytes_read, replicate p.bytes_read 0 ++ drop p.bytes_read buffer)

unfoldable pub read_resident : List ℕ → ℕ → List ℕ → KernelResult ℕ × List ℕ
read_resident contents start buffer =
    let end : ℕ = min (start + length buffer) (length contents) in
    if leb (length contents) start
    then (ok 0, buffer)
    else (ok (end - start), slice contents start end ++ drop (end - start) buffer)

unfoldable pub read_attribute :
    NtfsInode → Option NtfsAttribute → ℕ → List ℕ → KernelResult ℕ × List ℕ
read_attribute node none offset buffer = (err file_not_found, buffer)
read_attribute node (some attr) offset buffer = elim attr.resident_data [
  | some contents ↦ read_resident contents offset buffer
  | none ↦ read_from_runs node attr.run_list offset buffer
]

-- `impl Inode for NtfsInode`
abbrev pub ntfs_inode_ops : InodeOps NtfsInode
ntfs_inode_ops = record {
  metadata = λ node. ok node.metadata;
  read_at =
      λ node offset buffer. read_attribute node (get_data_attribute node.attributes) offset buffer;
  write_at = λ node offset sent. (err io_error, node);
  list_dir = λ node. ok [];
  lookup = λ node name. err file_not_found;
}

unfoldable pub root_directory_record : MftRecord
root_directory_record = record {
  record_number = mft_number_root;
  flags = bit_or in_use_flag is_directory_flag;
  sequence_number = 1;
  attributes = [];
  bytes_in_use = mft_record_size;
}

-- `impl FileSystem for NtfsVolume`
unfoldable pub statfs : NtfsVolume → KernelResult FileSystemStats
statfs v = ok (record {
  total_size = mul64 v.bpb.total_sectors v.bpb.bytes_per_sector;
  free_space = 0;
  total_inodes = 0;
  free_inodes = 0;
  block_size = v.bpb.cluster_size;
  max_name_length = 255;
})

abbrev pub ntfs_ops : FileSystemOps NtfsVolume NtfsInode
ntfs_ops = record {
  fs_type = λ v. ntfs;
  root_inode = λ v. from_mft_record root_directory_record v;
  stats = statfs;
}

unfoldable pub new_volume : List ℕ → ℕ → KernelResult NtfsVolume
new_volume boot_sector disk_id = parse_bpb boot_sector >>= λ bpb.
    ok (record { bpb = bpb; mft_cache = []; journal = new_journal; disk_id = disk_id })

unfoldable pub all_zero : List ℕ → Bool
all_zero [] = true
all_zero (b ∷ bytes) = b == 0 && all_zero bytes

unfoldable pub store_record :
    NtfsVolume → ℕ → Parsed (KernelResult MftRecord) → Parsed (KernelResult MftRecord × NtfsVolume)
store_record v number (parsed (ok r)) =
    let numbered : MftRecord = record r { record_number = number % 2 ^ 32 } in
    parsed (ok numbered, record v { mft_cache = insert v.mft_cache number numbered })
store_record v number (parsed (err e)) = parsed (err e, v)
store_record v number panicked = panicked
store_record v number out_of_fuel = out_of_fuel

-- The buffer of a record is zero bytes; nothing is read into it.
unfoldable pub fetch_record :
    NtfsVolume → ℕ → Option MftRecord → Parsed (KernelResult MftRecord × NtfsVolume)
fetch_record v number (some r) = parsed (ok r, v)
fetch_record v number none =
    let buffer : List ℕ = replicate (mft_record_size_bytes v.bpb) 0 in
    if all_zero buffer
    then parsed
        ((if number == mft_number_root then ok root_directory_record else err file_not_found), v)
    else store_record v number (parse_mft_record buffer)

unfoldable pub get_mft_record : NtfsVolume → ℕ → Parsed (KernelResult MftRecord × NtfsVolume)
get_mft_record v number = fetch_record v number (get v.mft_cache number)

-- The sector that `mount_ntfs` makes up: the signature, 512 bytes a sector, 8 sectors a cluster.
abbrev pub made_up_sector : List ℕ
made_up_sector = replicate 3 0 ++ ntfs_signature ++ 0 ∷ 2 ∷ 8 ∷ replicate 498 0

unfoldable pub mount_ntfs :
    {I : Type 0} → Vfs NtfsVolume I → ℕ → KernelResult (Unit {0}) × Vfs NtfsVolume I
mount_ntfs vfs disk_id = elim (new_volume made_up_sector disk_id) [
  | ok volume ↦ mount vfs root_path volume default_mount_flags
  | err e ↦ (err e, vfs)
]
