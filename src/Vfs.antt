-- ===== src/Vfs.antt =====
-- The virtual file system, src/fs/vfs/vfs_core.c with src/include/vfs.h: types of file systems, mounts and
-- open files. `S` is the state of the Simple File System, whose functions are an argument, and `P` is what a
-- block device keeps. A mounted file system is known by a number, the order of mounting; a mount by its
-- slot. Text output and the freeing of memory, which `kfree` does not do, are left out.
pub mod Slots
pub mod Mounts
pub mod Ops
pub mod Files
pub mod Names
mod Tests
use build_your_own_os.Prelude.{
  ℕ, zero, suc, ◌+◌, ◌-◌, ◌%◌, ◌^◌, Bool, true, false, ◌&&◌, ◌||◌, not, Option, none, some, List,
  [], ◌∷◌, Str, same_name, ltb, leb, ◌==◌, if◌then◌else◌, length, get_or, set, replicate, ℤ, pos,
  negsuc,
}
use build_your_own_os.Paths.{
  slash, vfs_max_path, vfs_is_absolute_path, vfs_path_is_prefix, vfs_path_within_mount,
}
use build_your_own_os.Ramfs.{
  RamfsFsData, vfs_success, vfs_error, vfs_einval, vfs_enoent, vfs_enomem,
}
use build_your_own_os.Ramfs.File.{Inode, File, Dirent}
use build_your_own_os.Block.{BlockDevice, block_device_find}

-- what the code calls of src/fs/sfs/sfs_core.c
pub record SfsOps (S : Type 0) : Type 0 where
  pub resolve_path : S → (path : Str) → Option Inode × S
  pub put_inode : S → Inode → S
  pub create_file : S → (path : Str) → (mode : ℕ) → ℤ × S
  pub truncate_file : S → Inode → (size : ℕ) → ℤ × (Inode × S)
  pub delete_file : S → (path : Str) → ℤ × S
  pub open_file : S → File → ℤ × (File × S)
  pub close_file : S → File → S
  pub read : S → File → (count offset : ℕ) → ℤ × (List ℕ × S)
  pub write : S → File → (buf : List ℕ) → (offset : ℕ) → ℤ × (File × S)
  pub seek : S → File → (offset : ℤ) → (whence : ℕ) → ℤ × (File × S)
  pub sync : S → File → ℤ × S
  pub readdir : S → File → (room offset : ℕ) → ℤ × (List Dirent × (ℕ × S))
  pub mkdir : S → (path : Str) → (mode : ℕ) → ℤ × S
  pub rmdir : S → (path : Str) → ℤ × S

pub data FileSystem (S : Type 0) : Type 0 where
  ramfs : RamfsFsData → FileSystem S
  sfs : S → FileSystem S

pub record FsType (S P : Type 0) : Type 0 where
  pub name : Str
  pub mount : Option (BlockDevice P) → (flags : ℕ) → Option (FileSystem S)

pub record Mount : Type 0 where
  pub mountpoint : Str
  pub fs : ℕ
  pub flags : ℕ

pub record OpenFile : Type 0 where
  pub file : File
  pub fs : ℕ

pub record Vfs (S P : Type 0) : Type 0 where
  pub initialized : Bool
  pub fs_types : List (Option (FsType S P))
  pub mounts : List (Option Mount)
  pub root_mount : Option ℕ
  pub filesystems : ℕ → FileSystem S
  pub fs_made : ℕ
  pub open_files : List (Option OpenFile)
  pub fs_types_registered : ℕ
  pub mounts_active : ℕ
  pub files_opened : ℕ
  pub files_closed : ℕ

abbrev pub max_fs_types : ℕ
max_fs_types = 16

abbrev pub max_mounts : ℕ
max_mounts = 16

abbrev pub vfs_fd_base : ℕ
vfs_fd_base = 3

abbrev pub vfs_max_open_files : ℕ
vfs_max_open_files = 32

-- the first slot from `i` on that is NULL
unfoldable pub free_slot {ℓ} : {A : Type ℓ} → (i : ℕ) → List (Option A) → Option ℕ
free_slot i [] = none
free_slot i (none ∷ slots) = some i
free_slot i (some x ∷ slots) = free_slot (i + 1) slots

unfoldable pub vfs_allocate_fd : List (Option OpenFile) → Option ℕ
vfs_allocate_fd (a ∷ b ∷ c ∷ slots) = free_slot vfs_fd_base slots
vfs_allocate_fd slots = none

unfoldable pub vfs_get_open_file : List (Option OpenFile) → (fd : ℤ) → Option OpenFile
vfs_get_open_file files (negsuc n) = none
vfs_get_open_file files (pos fd) =
    if ltb fd vfs_fd_base || leb vfs_max_open_files fd then none else get_or files fd none

unfoldable pub vfs_release_fd : List (Option OpenFile) → (fd : ℤ) → List (Option OpenFile)
vfs_release_fd files (negsuc n) = files
vfs_release_fd files (pos fd) =
    if leb vfs_fd_base fd && ltb fd vfs_max_open_files then set files fd none else files

-- one round of the search: the longer mount point, and the first of two that are as long
abbrev pub better : (path : Str) → (best : Option Mount) → Mount → Option Mount
better path none m = if vfs_path_is_prefix path m.mountpoint then some m else none
better path (some b) m =
    if vfs_path_is_prefix path m.mountpoint && ltb (length b.mountpoint) (length m.mountpoint)
    then some m
    else some b

unfoldable pub best_mount :
    (path : Str) → (best : Option Mount) → List (Option Mount) → Option Mount
best_mount path best [] = best
best_mount path best (none ∷ mounts) = best_mount path best mounts
best_mount path best (some m ∷ mounts) = best_mount path (better path best m) mounts

module _ {S P : Type 0} where
  unfoldable pub vfs_find_mount_for_path : Vfs S P → (path : Str) → Option Mount
  vfs_find_mount_for_path v path =
      if not v.initialized then none else elim (best_mount path none v.mounts) [
        | some m ↦ some m
        | none ↦ elim v.root_mount [
          | none ↦ none
          | some slot ↦ if vfs_is_absolute_path path then get_or v.mounts slot none else none
        ]
      ]

  unfoldable pub vfs_init : Vfs S P → ℤ × Vfs S P
  vfs_init v = if v.initialized then (vfs_success, v) else (
    vfs_success,
    record v {
      initialized = true;
      fs_types = replicate max_fs_types none;
      mounts = replicate max_mounts none;
      root_mount = none;
      open_files = replicate vfs_max_open_files none;
      fs_types_registered = 0;
      mounts_active = 0;
      files_opened = 0;
      files_closed = 0;
    },
  )

  unfoldable pub vfs_register_filesystem : Vfs S P → FsType S P → ℤ × Vfs S P
  vfs_register_filesystem v fs_type =
      if not v.initialized then (vfs_einval, v) else elim (free_slot 0 v.fs_types) [
        | none ↦ (vfs_enomem, v)
        | some i ↦ (
          vfs_success,
          record v {
            fs_types = set v.fs_types i (some fs_type);
            fs_types_registered = v.fs_types_registered + 1;
          },
        )
      ]

  -- the slot of the first type of that name
  unfoldable pub find_type :
      (i : ℕ) → List (Option (FsType S P)) → (name : Str) → Option (ℕ × FsType S P)
  find_type i [] name = none
  find_type i (none ∷ types) name = find_type (i + 1) types name
  find_type i (some t ∷ types) name =
      let rest = find_type (i + 1) types name in if same_name t.name name then some (i, t) else rest

  unfoldable pub vfs_unregister_filesystem : Vfs S P → (name : Str) → ℤ × Vfs S P
  vfs_unregister_filesystem v name =
      if not v.initialized then (vfs_einval, v) else elim (find_type 0 v.fs_types name) [
        | none ↦ (vfs_enoent, v)
        | some (i, t) ↦ (
          vfs_success,
          record v {
            fs_types = set v.fs_types i none;
            fs_types_registered = v.fs_types_registered - 1;
          },
        )
      ]
