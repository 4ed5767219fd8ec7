-- ===== src/Vfs/Mounts.antt =====
-- Mounting and unmounting, src/fs/vfs/vfs_core.c. What a file system does when it is unmounted is left out:
-- its instance is no longer used. `none` is a fault: `strncpy` overwrites all memory behind the mount
-- point if the string is 1023 bytes or longer.
pub mod Longest
pub mod Root
use build_your_own_os.Prelude.{
  ℕ, zero, suc, ◌+◌, ◌-◌, Bool, true, false, not, Option, none, some, List, [], ◌∷◌, Str, same_name,
  leb, ◌==◌, if◌then◌else◌, length, set, replicate, is_success, ℤ, pos, negsuc,
}
use build_your_own_os.Paths.{slash, vfs_max_path}
use build_your_own_os.Ramfs.{vfs_success, vfs_error, vfs_einval, vfs_enoent, vfs_enomem}
use build_your_own_os.Ramfs.Entries.{ramfs_mount}
use build_your_own_os.Block.{BlockDevice, block_device_find}
use build_your_own_os.Vfs.{
  Vfs, FsType, FileSystem, ramfs, vfs_register_filesystem, Mount, free_slot, find_type,
  max_fs_types,
}

-- the block device that a mount names: `none` if it is not there, `some none` for "none" and NULL
unfoldable pub mount_device :
    {P : Type 0} → List (BlockDevice P) → (device : Option Str) → Option (Option (BlockDevice P))
mount_device devices none = some none
mount_device devices (some name) =
    if same_name name (110 ∷ 111 ∷ 110 ∷ 101 ∷ [])
    then some none
    else elim (block_device_find devices name) [ none ↦ none | some dev ↦ some (some dev) ]

-- the slot of the first mount at that place
unfoldable pub find_mounted : (i : ℕ) → List (Option Mount) → (mountpoint : Str) → Option ℕ
find_mounted i [] mountpoint = none
find_mounted i (none ∷ mounts) mountpoint = find_mounted (i + 1) mounts mountpoint
find_mounted i (some m ∷ mounts) mountpoint =
    let rest = find_mounted (i + 1) mounts mountpoint in
    if same_name m.mountpoint mountpoint then some i else rest

abbrev pub clear_root : Option ℕ → (slot : ℕ) → Option ℕ
clear_root none slot = none
clear_root (some root) slot = if root == slot then none else some root

-- the type "ramfs"
abbrev pub ramfs_fs_type : {S P : Type 0} → (granted : Bool) → FsType S P
ramfs_fs_type granted = record {
  name = 114 ∷ 97 ∷ 109 ∷ 102 ∷ 115 ∷ [];
  mount = λ dev flags. elim (ramfs_mount granted) [ none ↦ none | some fs ↦ some (ramfs fs) ];
}

-- `granted` is for the mounts.
unfoldable pub ramfs_init : {S P : Type 0} → Vfs S P → (granted : Bool) → ℤ × Vfs S P
ramfs_init v granted =
    let (result, v1) = vfs_register_filesystem v (ramfs_fs_type granted) in
    (if is_success result then vfs_success else vfs_error, v1)

module _ {S P : Type 0} where
  -- the new mount in its slot
  abbrev pub add_mount :
      Vfs S P → (slot : ℕ) → (mountpoint : Str) → (flags : ℕ) → FileSystem S → Vfs S P
  add_mount v slot mountpoint flags fs = record v {
    mounts =
        set v.mounts slot
          (some (record { mountpoint = mountpoint; fs = v.fs_made; flags = flags }));
    filesystems = λ i. if v.fs_made == i then fs else v.filesystems i;
    fs_made = v.fs_made + 1;
    mounts_active = v.mounts_active + 1;
    root_mount = if same_name mountpoint (slash ∷ []) then some slot else v.root_mount;
  }

  -- from the empty slot on
  unfoldable pub mount_in :
      Vfs S P
      → (mountpoint : Str) → (flags : ℕ) → FileSystem S
      → (granted : Bool) → Option (ℤ × Vfs S P)
  mount_in v mountpoint flags fs granted = elim (free_slot 0 v.mounts) [
    | none ↦ some (vfs_enomem, v)
    | some slot ↦
        if not granted
        then some (vfs_enomem, v)
        else if leb (vfs_max_path - 1) (length mountpoint)
        then none
        else some (vfs_success, add_mount v slot mountpoint flags fs)
  ]

  unfoldable pub vfs_mount :
      Vfs S P
      → List (BlockDevice P)
      → (device : Option Str) → (mountpoint fstype : Str) → (flags : ℕ) → (granted : Bool)
      → Option (ℤ × Vfs S P)
  vfs_mount v devices device mountpoint fstype flags granted =
      if not v.initialized then some (vfs_einval, v) else elim (find_type 0 v.fs_types fstype) [
        | none ↦ some (vfs_enoent, v)
        | some (i, fs_type) ↦ elim (mount_device devices device) [
          | none ↦ some (vfs_enoent, v)
          | some dev ↦ elim (fs_type.mount dev flags) [
            | none ↦ some (vfs_error, v)
            | some fs ↦ mount_in v mountpoint flags fs granted
          ]
        ]
      ]

  unfoldable pub vfs_unmount : Vfs S P → (mountpoint : Str) → ℤ × Vfs S P
  vfs_unmount v mountpoint =
      if not v.initialized then (vfs_einval, v) else elim (find_mounted 0 v.mounts mountpoint) [
        | none ↦ (vfs_enoent, v)
        | some slot ↦ (
          vfs_success,
          record v {
            mounts = set v.mounts slot none;
            root_mount = clear_root v.root_mount slot;
            mounts_active = v.mounts_active - 1;
          },
        )
      ]

  -- the loop of vfs_shutdown over the slots: each mount is unmounted by its name
  unfoldable pub unmount_all : Vfs S P → List (Option Mount) → Vfs S P
  unmount_all v [] = v
  unmount_all v (none ∷ mounts) = unmount_all v mounts
  unmount_all v (some m ∷ mounts) = unmount_all (vfs_unmount v m.mountpoint).1 mounts

  unfoldable pub vfs_shutdown : Vfs S P → ℤ × Vfs S P
  vfs_shutdown v = if not v.initialized then (vfs_success, v) else (
    vfs_success,
    record (unmount_all v v.mounts) {
      fs_types = replicate max_fs_types none;
      initialized = false;
      root_mount = none;
    },
  )
