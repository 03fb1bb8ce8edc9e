-- ===== src/Vfs/Files.antt =====
-- src/fs/vfs.rs: the table of open files over all sequences of calls.
use delta_os.Base.{
  ℕ, ◌+◌, ◌^◌, ◌≤◌, ◌<◌, ◌≡◌, ◌≢◌, refl, sym, ◌∙◌, inl, inr, false, List, [], ◌∷◌, Option, none,
  some, All, All-map, All-retain, Option-cases, Bool-cases, ==_iff, ◌==◌, subst, arith,
}
use delta_os.Base.Word.{add64}
use delta_os.Base.Map.{
  Map, nat_key, get, insert, remove, get-insert_self, get-insert_ne, All-insert,
}
use delta_os.Kernel.Result.{KernelResult, ok, err}
use delta_os.Vfs.Path.{Text}
use delta_os.Vfs.Types.{InodeOps, FileSystemOps}
use delta_os.Vfs.{
  MountPoint, MountFlags, FileDescriptor, Vfs, mount_at, unmount_found, open_found, close_found,
  read_found, write_found, start_up, mount, unmount, find_inode, open_inode, open_file, close, read,
  write,
}

module _ {F I : Type 0} (inodes : InodeOps I) (systems : FileSystemOps F I) where
  -- The states after any sequence of calls, with fewer than 2 ^ 64 files opened.
  pub data Reach : Vfs F I → Type 0 where
    started : Reach start_up
    mounted :
        {v : Vfs F I} (path : Text) (fs : F) (flags : MountFlags)
        → Reach v
        → Reach (mount v path fs flags).1
    unmounted : {v : Vfs F I} (path : Text) → Reach v → Reach (unmount v path).1
    opened :
        {v : Vfs F I} (path : Text) (flags : ℕ)
        → v.next_fd + 1 < 2 ^ 64
        → Reach v
        → Reach (open_file inodes systems v path flags).1
    closed : {v : Vfs F I} (fd : ℕ) → Reach v → Reach (close v fd).1
    was_read :
        {v : Vfs F I} (fd : ℕ) (buffer : List ℕ) → Reach v → Reach (read inodes v fd buffer).1
    written : {v : Vfs F I} (fd : ℕ) (sent : List ℕ) → Reach v → Reach (write inodes v fd sent).1

  -- Each descriptor was given out: it is 3 or more and below the next.
  Given : ℕ → Map ℕ (FileDescriptor I) → Type 0
  Given next files = (3 ≤ next) × All (λ (e : ℕ × FileDescriptor I). (3 ≤ e.0) × (e.0 < next)) files

  abbrev GivenOut : Vfs F I → Type 0
  GivenOut v = Given v.next_fd v.open_files

  Given-remove :
      (next : ℕ) (files : Map ℕ (FileDescriptor I)) (fd : ℕ)
      → Given next files
      → Given next (remove files fd)
  unfolding Given remove
  Given-remove next files fd (a, g) = (a, All-retain _ _ files g)

  -- A descriptor that is in the table may be put back.
  All-key :
      (P : ℕ → Type 0) (files : Map ℕ (FileDescriptor I)) (fd : ℕ) (file : FileDescriptor I)
      → get files fd ≡ some file
      → All (λ (e : ℕ × FileDescriptor I). P e.0) files
      → P fd
  unfolding get
  All-key P [] fd file e g = absurd (grind (arith, e))
  All-key P ((j, f) ∷ files) fd file e g = elim (Bool-cases (j == fd)) [
    | inl s ↦ subst P ((==_iff j fd).0 s) g.0
    | inr s ↦ All-key P files fd file (sym (there s) ∙ e) g.1
  ]
    where
      there : (j == fd) ≡ false → get ((j, f) ∷ files) fd ≡ get files fd
      there s = rw s refl

  Given-insert :
      (next : ℕ) (files : Map ℕ (FileDescriptor I)) (fd : ℕ) (file file' : FileDescriptor I)
      → get files fd ≡ some file
      → Given next files
      → Given next (insert files fd file')
  unfolding Given
  Given-insert next files fd file file' e (a, g) =
      let p = All-key (λ (k : ℕ). (3 ≤ k) × (k < next)) files fd file e g in
      (a, All-insert (λ (d : ℕ × FileDescriptor I). (3 ≤ d.0) × (d.0 < next)) files fd file' p g)

  mount-Given :
      (v : Vfs F I) (path : Text) (fs : F) (flags : MountFlags) (o : Option (MountPoint F))
      → GivenOut v
      → GivenOut (mount_at v path fs flags o).1
  unfolding mount_at
  mount-Given v path fs flags none g = g
  mount-Given v path fs flags (some p) g = g

  unmount-Given :
      (v : Vfs F I) (path : Text) (o : Option (MountPoint F))
      → GivenOut v
      → GivenOut (unmount_found v path o).1
  unfolding unmount_found
  unmount-Given v path none g = g
  unmount-Given v path (some p) g = g

  close-Given :
      (v : Vfs F I) (fd : ℕ) (o : Option (FileDescriptor I))
      → GivenOut v
      → GivenOut (close_found v fd o).1
  unfolding close_found
  close-Given v fd none g = g
  close-Given v fd (some f) g = Given-remove v.next_fd v.open_files fd g

  read-Given :
      (v : Vfs F I) (fd : ℕ) (buffer : List ℕ) (o : Option (FileDescriptor I))
      → get v.open_files fd ≡ o
      → GivenOut v
      → GivenOut (read_found inodes v fd buffer o).1
  unfolding read_found
  read-Given v fd buffer none e g = g
  read-Given v fd buffer (some f) e g = Given-insert v.next_fd v.open_files fd f _ e g

  write-Given :
      (v : Vfs F I) (fd : ℕ) (sent : List ℕ) (o : Option (FileDescriptor I))
      → get v.open_files fd ≡ o
      → GivenOut v
      → GivenOut (write_found inodes v fd sent o).1
  unfolding write_found
  write-Given v fd sent none e g = g
  write-Given v fd sent (some f) e g = Given-insert v.next_fd v.open_files fd f _ e g

  open_inode-Given :
      (v : Vfs F I) (flags : ℕ) (node : I)
      → v.next_fd + 1 < 2 ^ 64
      → GivenOut v
      → GivenOut (open_inode inodes systems v flags node)
  unfolding open_inode Given
  open_inode-Given v flags node h (a, g) =
      let next : add64 v.next_fd 1 ≡ v.next_fd + 1 = omega arith in
      let file : FileDescriptor I = record { inode = node; flags = flags; offset = 0 } in
      let wider =
        All-map (λ (d : ℕ × FileDescriptor I). (3 ≤ d.0) × (d.0 < v.next_fd))
          (λ (d : ℕ × FileDescriptor I). (3 ≤ d.0) × (d.0 < v.next_fd + 1)) v.open_files
          (λ d (p, q). (p, omega arith)) g in
      rw next (
        omega arith,
        All-insert (λ (d : ℕ × FileDescriptor I). (3 ≤ d.0) × (d.0 < v.next_fd + 1)) v.open_files
            v.next_fd file (a, omega arith) wider,
      )

  open_file-Given :
      (v : Vfs F I) (flags : ℕ) (r : KernelResult I)
      → v.next_fd + 1 < 2 ^ 64
      → GivenOut v
      → GivenOut (open_found inodes systems v flags r).1
  unfolding open_found
  open_file-Given v flags (ok node) h g = open_inode-Given v flags node h g
  open_file-Given v flags (err e) h g = g

  Reach-Given : {v : Vfs F I} → Reach v → GivenOut v
  unfolding Given start_up mount unmount open_file close read write
  Reach-Given started = (omega arith, tt)
  Reach-Given (mounted {v = v} path fs flags r) = mount-Given v path fs flags _ (Reach-Given r)
  Reach-Given (unmounted {v = v} path r) = unmount-Given v path _ (Reach-Given r)
  Reach-Given (opened {v = v} path flags h r) = open_file-Given v flags _ h (Reach-Given r)
  Reach-Given (closed {v = v} fd r) = close-Given v fd _ (Reach-Given r)
  Reach-Given (was_read {v = v} fd buffer r) = read-Given v fd buffer _ refl (Reach-Given r)
  Reach-Given (written {v = v} fd sent r) = write-Given v fd sent _ refl (Reach-Given r)

  get_fresh :
      (next : ℕ) (files : Map ℕ (FileDescriptor I)) → Given next files → get files next ≡ none
  unfolding Given
  get_fresh next files g = elim (Option-cases (get files next)) [
    | inl e ↦ e
    | inr (f, e) ↦
        let (_, lt) = All-key (λ (k : ℕ). (3 ≤ k) × (k < next)) files next f e g.1 in
        absurd (omega arith)
  ]

  -- In every state that calls lead to, fewer than 2 ^ 64 files opened: a file that is opened gets a
  -- descriptor of at least 3 that no open file has. It is then the file of the inode that the path
  -- leads to, at offset 0 with the flags given, and each other descriptor's file is as before.
  pub open_file_fresh :
      (v : Vfs F I) (path : Text) (flags : ℕ) (node : I)
      → Reach v
      → find_inode inodes systems v path ≡ ok node
      → let (result, v') = open_file inodes systems v path flags in
        (result ≡ ok v.next_fd)
        × (3 ≤ v.next_fd)
        × (get v.open_files v.next_fd ≡ none)
        × (get v'.open_files v.next_fd ≡ some (record { inode = node; flags = flags; offset = 0 }))
        × ((fd : ℕ) → fd ≢ v.next_fd → get v'.open_files fd ≡ get v.open_files fd)
  unfolding open_file open_found open_inode Given
  open_file_fresh v path flags node r e =
      let g = Reach-Given r in
      rw e (
        refl,
        g.0,
        get_fresh v.next_fd v.open_files g,
        get-insert_self v.open_files v.next_fd _,
        λ fd ne. get-insert_ne v.open_files fd v.next_fd _ ne,
      )
