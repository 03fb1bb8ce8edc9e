-- ===== src/Tests/Files.antt =====
-- src/fs/vfs.rs: the theorems on a small file system. An inode is a number; a name leads from it to the
-- number ten times as large plus the name's length, and a name of more than nine bytes is not found.
use delta_os.Base.{
  ℕ, ◌+◌, ◌*◌, ◌≤◌, ◌<◌, ◌≡◌, ◌≢◌, refl, ◌⊎◌, List, [], ◌∷◌, ◌++◌, none, some, ltb, length,
  if◌then◌else◌,
}
use delta_os.Base.Map.{nat_key, get, insert}
use delta_os.Kernel.Result.{ok, err, ◌>>=◌, file_system_not_found, file_not_found, access_denied}
use delta_os.Vfs.Path.{Text, slash, text_key, root_path, starts_with, split, join_first}
use delta_os.Vfs.Types.{InodeOps, FileSystemOps, ram_fs, read_only_flag}
use delta_os.Vfs.{
  Vfs, mount_at, find_mount, best_mount, walk, components, default_mount_flags, start_up, mount,
  resolve_mount_point, traverse_path, find_inode, open_file,
}
use delta_os.Vfs.Mounts.{HasKey, NoneLonger, resolve_mount_point_lem}
use delta_os.Vfs.Walks.{traverse_path-append}
use delta_os.Vfs.Files.{started, mounted, open_file_fresh}

abbrev numbers : InodeOps ℕ
numbers = record {
  metadata = λ (i : ℕ). err access_denied;
  read_at = λ (i offset : ℕ) (buffer : List ℕ). (ok 0, buffer);
  write_at = λ (i offset : ℕ) (sent : List ℕ). (ok 0, i);
  list_dir = λ (i : ℕ). ok [];
  lookup = λ (i : ℕ) (name : Text).
      if ltb 9 (length name) then err file_not_found else ok (10 * i + length name);
}

abbrev systems : FileSystemOps ℕ ℕ
systems = record {
  fs_type = λ (f : ℕ). ram_fs;
  root_inode = λ (f : ℕ). f;
  stats = λ (f : ℕ). err access_denied;
}

-- "/mnt", and a path below it.
abbrev mnt : Text
mnt = 47 ∷ 109 ∷ 110 ∷ 116 ∷ []

abbrev below : Text
below = 97 ∷ 98 ∷ []

abbrev mounts : Vfs ℕ ℕ
mounts = (mount start_up mnt 7 default_mount_flags).1

resolve_mount_point_lem_example :
    ((m relative : Text) × (resolve_mount_point mounts (mnt ++ slash ∷ below) ≡ ok (m, relative))
      × (m ++ relative ≡ mnt ++ slash ∷ below)
      × (0 < length m)
      × HasKey mounts.mount_points m
      × NoneLonger (mnt ++ slash ∷ below) (length m) mounts.mount_points)
    ⊎ ((resolve_mount_point mounts (mnt ++ slash ∷ below) ≡ ok (root_path, mnt ++ slash ∷ below))
        × HasKey mounts.mount_points root_path
        × NoneLonger (mnt ++ slash ∷ below) 0 mounts.mount_points)
    ⊎ ((resolve_mount_point mounts (mnt ++ slash ∷ below) ≡ err file_system_not_found)
        × (get mounts.mount_points root_path ≡ none)
        × NoneLonger (mnt ++ slash ∷ below) 0 mounts.mount_points)
resolve_mount_point_lem_example = resolve_mount_point_lem mounts (mnt ++ slash ∷ below)

traverse_path-append_example :
    traverse_path numbers 1 (below ++ slash ∷ mnt)
    ≡ (traverse_path numbers 1 below >>= λ next. traverse_path numbers next mnt)
traverse_path-append_example = traverse_path-append numbers 1 below mnt

open_file_fresh_example :
    let (result, v') = open_file numbers systems mounts (mnt ++ slash ∷ below) read_only_flag in
    (result ≡ ok mounts.next_fd)
    × (3 ≤ mounts.next_fd)
    × (get mounts.open_files mounts.next_fd ≡ none)
    × (get v'.open_files mounts.next_fd
        ≡ some (record { inode = 72; flags = read_only_flag; offset = 0 }))
    × ((fd : ℕ) → fd ≢ mounts.next_fd → get v'.open_files fd ≡ get mounts.open_files fd)
unfolding find_inode mount mount_at start_up find_mount resolve_mount_point best_mount get insert
    starts_with traverse_path walk components split join_first
open_file_fresh_example =
    open_file_fresh numbers systems mounts (mnt ++ slash ∷ below) read_only_flag 72
      (mounted mnt 7 default_mount_flags started) refl
