-- ===== src/Vfs/Types.antt =====
-- src/fs/vfs.rs: the types of files and file systems, and the two traits.
use Prim.Native.Nat.{bit_and}
use Prim.Native.String.{String}
use delta_os.Base.{ℕ, Bool, true, false, List, ◌==◌}
use delta_os.Kernel.Result.{KernelResult}
use delta_os.Vfs.Path.{Text}

pub data FileSystemType : Type 0 where
  ntfs fat32 ram_fs proc_fs dev_fs unknown : FileSystemType

unfoldable pub fs_type_name : FileSystemType → String
fs_type_name ntfs = "ntfs"
fs_type_name fat32 = "fat32"
fs_type_name ram_fs = "ramfs"
fs_type_name proc_fs = "procfs"
fs_type_name dev_fs = "devfs"
fs_type_name unknown = "unknown"

pub data FileType : Type 0 where
  regular directory symlink device pipe unknown_type : FileType

pub record FilePermissions : Type 0 where
  pub owner_read : Bool
  pub owner_write : Bool
  pub owner_execute : Bool
  pub group_read : Bool
  pub group_write : Bool
  pub group_execute : Bool
  pub others_read : Bool
  pub others_write : Bool
  pub others_execute : Bool

abbrev pub default_permissions : FilePermissions
default_permissions = record {
  owner_read = true;
  owner_write = true;
  owner_execute = false;
  group_read = true;
  group_write = false;
  group_execute = false;
  others_read = true;
  others_write = false;
  others_execute = false;
}

pub record FileMetadata : Type 0 where
  pub inode : ℕ
  pub file_type : FileType
  pub size : ℕ
  pub permissions : FilePermissions
  pub created : ℕ
  pub modified : ℕ
  pub accessed : ℕ
  pub nlinks : ℕ
  pub uid : ℕ
  pub gid : ℕ

pub record DirEntry : Type 0 where
  pub name : Text
  pub inode : ℕ
  pub file_type : FileType

pub record FileSystemStats : Type 0 where
  pub total_size : ℕ
  pub free_space : ℕ
  pub total_inodes : ℕ
  pub free_inodes : ℕ
  pub block_size : ℕ
  pub max_name_length : ℕ

-- `OpenFlags`, as its bits.
abbrev pub read_only_flag : ℕ
read_only_flag = 0x01

abbrev pub write_only_flag : ℕ
write_only_flag = 0x02

abbrev pub read_write_flag : ℕ
read_write_flag = 0x03

abbrev pub create_flag : ℕ
create_flag = 0x10

-- `flags.contains(flag)`
unfoldable pub contains : ℕ → ℕ → Bool
contains flags flag = bit_and flags flag == flag

-- The methods of the trait `Inode` that the code calls; a read gives the buffer after it.
pub record InodeOps (I : Type 0) : Type 0 where
  pub metadata : I → KernelResult FileMetadata
  pub read_at : I → ℕ → List ℕ → KernelResult ℕ × List ℕ
  pub write_at : I → ℕ → List ℕ → KernelResult ℕ × I
  pub list_dir : I → KernelResult (List DirEntry)
  pub lookup : I → Text → KernelResult I

-- The methods of the trait `FileSystem` that the code calls.
pub record FileSystemOps (F I : Type 0) : Type 0 where
  pub fs_type : F → FileSystemType
  pub root_inode : F → I
  pub stats : F → KernelResult FileSystemStats
