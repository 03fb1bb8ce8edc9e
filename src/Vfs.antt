-- ===== src/Vfs.antt =====
-- src/fs/vfs.rs: mount points, path resolution and file descriptors. File systems and their inodes are
-- trait objects, whose methods are parameters; a method on `&mut self` gives the changed object.
pub mod Path
pub mod Types
pub mod Mounts
pub mod Walks
pub mod Files
use Prim.Native.Nat.{bit_and}
use Prim.Native.String.{String}
use delta_os.Base.{
  ℕ, zero, suc, ◌+◌, ◌<◌, Bool, true, false, not, ◌&&◌, ◌||◌, List, [], ◌∷◌, map, Option, none,
  some, if◌then◌else◌, ◌==◌, ltb, length, drop, retain,
}
use delta_os.Base.Word.{add64}
use delta_os.Base.Map.{Map, Key, nat_key, get, insert, remove}
use delta_os.Kernel.Result.{
  KernelResult, ok, err, ◌>>=◌, ok_or, page_already_mapped, invalid_argument, file_system_not_found,
  access_denied,
}
use delta_os.Vfs.Types.{
  FileSystemType, DirEntry, FileSystemStats, InodeOps, FileSystemOps, contains, read_only_flag,
  write_only_flag, read_write_flag,
}
use delta_os.Vfs.Path.{Text, text_key, root_path, is_empty, text_eq, starts_with, split}

pub record MountFlags : Type 0 where
  pub read_only : Bool
  pub no_exec : Bool
  pub no_suid : Bool

abbrev pub default_mount_flags : MountFlags
default_mount_flags = record { read_only = false; no_exec = false; no_suid = false }

pub record MountPoint (F : Type 0) : Type 0 where
  pub path : Text
  pub fs : F
  pub flags : MountFlags

-- An offset is an i64, as its 64 bits.
pub record FileDescriptor (I : Type 0) : Type 0 where
  pub inode : I
  pub flags : ℕ
  pub offset : ℕ

pub record Vfs (F I : Type 0) : Type 0 where
  pub mount_points : Map Text (MountPoint F)
  pub next_fd : ℕ
  pub open_files : Map ℕ (FileDescriptor I)

-- The loop of `resolve_mount_point` over the keys, with `best_mount` and `best_len`.
unfoldable pub best_mount : {F : Type 0} → Text → List (Text × MountPoint F) → Text × ℕ → Text × ℕ
best_mount path [] best = best
best_mount path ((mount_path, _) ∷ m) best = best_mount path m (
    if starts_with path mount_path && ltb best.1 (length mount_path)
    then (mount_path, length mount_path)
    else best)

module _ {F I : Type 0} where
  unfoldable pub start_up : Vfs F I
  start_up = record { mount_points = []; next_fd = 3; open_files = [] }

  unfoldable pub mount_at :
      Vfs F I → Text → F → MountFlags → Option (MountPoint F) → KernelResult (Unit {0}) × Vfs F I
  mount_at v path fs flags (some _) = (err page_already_mapped, v)
  mount_at v path fs flags none =
      let point : MountPoint F = record { path = path; fs = fs; flags = flags } in
      (ok tt, record v { mount_points = insert v.mount_points path point })

  unfoldable pub mount : Vfs F I → Text → F → MountFlags → KernelResult (Unit {0}) × Vfs F I
  unfolding mount_at
  mount v path fs flags = mount_at v path fs flags (get v.mount_points path)

  unfoldable pub unmount_found :
      Vfs F I → Text → Option (MountPoint F) → KernelResult (Unit {0}) × Vfs F I
  unmount_found v path none = (err file_system_not_found, v)
  unmount_found v path (some _) = (ok tt, record v { mount_points = remove v.mount_points path })

  unfoldable pub unmount : Vfs F I → Text → KernelResult (Unit {0}) × Vfs F I
  unfolding unmount_found
  unmount v path = unmount_found v path (get v.mount_points path)

  unfoldable pub resolve_mount_point : Vfs F I → Text → KernelResult (Text × Text)
  resolve_mount_point v path =
      let (best, best_len) = best_mount path v.mount_points ([], 0) in
      if is_empty best
      then elim (get v.mount_points root_path) [
        | some _ ↦ ok (root_path, path)
        | none ↦ err file_system_not_found
      ]
      else ok (best, drop best_len path)

-- The parts of a path that are not empty.
unfoldable pub components : Text → List Text
components path = retain (λ (part : Text). not (is_empty part)) (split path)

module _ {I : Type 0} (inodes : InodeOps I) where
  unfoldable pub walk : I → List Text → KernelResult I
  walk current [] = ok current
  walk current (component ∷ rest) = inodes.lookup current component >>= λ next. walk next rest

  unfoldable pub traverse_path : I → Text → KernelResult I
  traverse_path root path =
      if is_empty path || text_eq path root_path then ok root else walk root (components path)

  abbrev pub advance : FileDescriptor I → I → ℕ → FileDescriptor I
  advance f node bytes = record f { inode = node; offset = add64 f.offset bytes }

  -- `FileDescriptor::read`, with the buffer after it.
  unfoldable pub read_file : FileDescriptor I → List ℕ → KernelResult ℕ × FileDescriptor I × List ℕ
  read_file f buffer =
      let (result, filled) = inodes.read_at f.inode f.offset buffer in
      if not (contains f.flags read_only_flag) && not (contains f.flags read_write_flag)
      then (err access_denied, f, buffer)
      else elim result [
        | ok bytes ↦ (ok bytes, advance f f.inode bytes, filled)
        | err e ↦ (err e, f, filled)
      ]

  -- `FileDescriptor::write`
  unfoldable pub write_file : FileDescriptor I → List ℕ → KernelResult ℕ × FileDescriptor I
  write_file f bytes_in =
      let (result, node) = inodes.write_at f.inode f.offset bytes_in in
      if not (contains f.flags write_only_flag) && not (contains f.flags read_write_flag)
      then (err access_denied, f)
      else elim result [
        | ok bytes ↦ (ok bytes, advance f node bytes)
        | err e ↦ (err e, record f { inode = node })
      ]

unfoldable pub seek : {I : Type 0} → FileDescriptor I → ℕ → KernelResult ℕ × FileDescriptor I
seek f offset = (ok offset, record f { offset = offset })

module _ {F I : Type 0} (inodes : InodeOps I) (systems : FileSystemOps F I) where
  -- The mount point and the rest of a path that `open`, `readdir` and `statfs` begin with.
  unfoldable pub find_mount : Vfs F I → Text → KernelResult (MountPoint F × Text)
  find_mount v path = resolve_mount_point v path >>= λ (mount_path, relative).
      ok_or (get v.mount_points mount_path) file_system_not_found >>= λ point. ok (point, relative)

  unfoldable pub find_inode : Vfs F I → Text → KernelResult I
  find_inode v path = find_mount v path >>= λ (point, relative).
      traverse_path inodes (systems.root_inode point.fs) relative

  unfoldable pub open_inode : Vfs F I → ℕ → I → Vfs F I
  open_inode v flags node =
      let file : FileDescriptor I = record { inode = node; flags = flags; offset = 0 } in
      record v { next_fd = add64 v.next_fd 1; open_files = insert v.open_files v.next_fd file }

  unfoldable pub open_found : Vfs F I → ℕ → KernelResult I → KernelResult ℕ × Vfs F I
  open_found v flags (ok node) = (ok v.next_fd, open_inode v flags node)
  open_found v flags (err e) = (err e, v)

  unfoldable pub open_file : Vfs F I → Text → ℕ → KernelResult ℕ × Vfs F I
  unfolding open_found
  open_file v path flags = open_found v flags (find_inode v path)

  unfoldable pub readdir : Vfs F I → Text → KernelResult (List DirEntry)
  readdir v path = find_inode v path >>= inodes.list_dir

  unfoldable pub statfs : Vfs F I → Text → KernelResult FileSystemStats
  statfs v path = find_mount v path >>= λ (point, _). systems.stats point.fs

  unfoldable pub list_mounts : Vfs F I → List (Text × FileSystemType)
  list_mounts v =
      map (λ (e : Text × MountPoint F). (e.1.path, systems.fs_type e.1.fs)) v.mount_points

module _ {F I : Type 0} where
  unfoldable pub close_found :
      Vfs F I → ℕ → Option (FileDescriptor I) → KernelResult (Unit {0}) × Vfs F I
  close_found v fd none = (err invalid_argument, v)
  close_found v fd (some _) = (ok tt, record v { open_files = remove v.open_files fd })

  unfoldable pub close : Vfs F I → ℕ → KernelResult (Unit {0}) × Vfs F I
  unfolding close_found
  close v fd = close_found v fd (get v.open_files fd)

  abbrev pub put_file : Vfs F I → ℕ → FileDescriptor I → Vfs F I
  put_file v fd file = record v { open_files = insert v.open_files fd file }

  unfoldable pub read_found :
      InodeOps I
      → Vfs F I
      → ℕ
      → List ℕ
      → Option (FileDescriptor I)
      → KernelResult ℕ × Vfs F I × List ℕ
  read_found inodes v fd buffer none = (err invalid_argument, v, buffer)
  read_found inodes v fd buffer (some file) =
      let (result, file', filled) = read_file inodes file buffer in
      (result, put_file v fd file', filled)

  unfoldable pub read : InodeOps I → Vfs F I → ℕ → List ℕ → KernelResult ℕ × Vfs F I × List ℕ
  unfolding read_found
  read inodes v fd buffer = read_found inodes v fd buffer (get v.open_files fd)

  unfoldable pub write_found :
      InodeOps I → Vfs F I → ℕ → List ℕ → Option (FileDescriptor I) → KernelResult ℕ × Vfs F I
  write_found inodes v fd bytes_in none = (err invalid_argument, v)
  write_found inodes v fd bytes_in (some file) =
      let (result, file') = write_file inodes file bytes_in in (result, put_file v fd file')

  unfoldable pub write : InodeOps I → Vfs F I → ℕ → List ℕ → KernelResult ℕ × Vfs F I
  unfolding write_found
  write inodes v fd bytes_in = write_found inodes v fd bytes_in (get v.open_files fd)
