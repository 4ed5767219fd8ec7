-- ===== src/Vfs/Names.antt =====
-- What the virtual file system does with paths, src/fs/vfs/vfs_core.c.
use build_your_own_os.Prelude.{
  ℕ, zero, suc, Bool, true, false, ◌&&◌, ◌||◌, not, Option, none, some, List, [], Str, ◌==◌,
  if◌then◌else◌, has_bit, ℤ, pos, negsuc, is_success, is_negative, is_positive,
}
use build_your_own_os.Paths.{vfs_path_within_mount}
use build_your_own_os.Ramfs.{
  RamfsFsData, is_directory, vfs_success, vfs_error, vfs_einval, vfs_enoent, vfs_eperm,
}
use build_your_own_os.Ramfs.Entries.{ramfs_create_directory, ramfs_dir_rmdir, ramfs_remove_child}
use build_your_own_os.Ramfs.File.{Inode, File, Dirent, inode_of, ramfs_dir_readdir}
use build_your_own_os.Vfs.{
  SfsOps, FileSystem, ramfs, sfs, Mount, Vfs, vfs_get_open_file, vfs_find_mount_for_path,
}
use build_your_own_os.Vfs.Ops.{Grants, vfs_ramfs_resolve, drop_inode}
use build_your_own_os.Vfs.Files.{
  put_fs, put_file, fd_number, vfs_open, vfs_read, vfs_write, vfs_close,
}

unfoldable pub unlink_ramfs : RamfsFsData → (path : Str) → ℤ × RamfsFsData
unlink_ramfs fs path = elim (vfs_ramfs_resolve fs path) [
  | none ↦ (vfs_enoent, fs)
  | some i ↦ if is_directory (fs.node i) then (vfs_einval, fs) else elim (fs.node i).parent [
    | none ↦ (vfs_eperm, fs)
    | some parent ↦ ramfs_remove_child fs parent (fs.node i).name
  ]
]

abbrev pub same_fs : Option Mount → Option Mount → Bool
same_fs none b = false
same_fs (some a) none = false
same_fs (some a) (some b) = a.fs == b.fs

abbrev pub is_ramfs : {S : Type 0} → FileSystem S → Bool
is_ramfs (ramfs fs) = true
is_ramfs (sfs s) = false

abbrev pub same_number : ℤ → ℤ → Bool
same_number (pos m) (pos n) = m == n
same_number (pos m) (negsuc n) = false
same_number (negsuc m) (pos n) = false
same_number (negsuc m) (negsuc n) = m == n

-- the index of the file system of a mount
abbrev pub mounted_fs : Option Mount → ℕ
mounted_fs none = 0
mounted_fs (some m) = m.fs

-- The file of a path that is no directory; it is looked up by the whole path, in the RAM file system only.
unfoldable pub rename_source : {S : Type 0} → FileSystem S → (path : Str) → Option ℤ
rename_source (sfs s) path = some vfs_einval
rename_source (ramfs fs) path = elim (vfs_ramfs_resolve fs path) [
  | none ↦ some vfs_enoent
  | some i ↦ if is_directory (fs.node i) then some vfs_einval else none
]

module _ {S : Type 0} (ops : SfsOps S) where
  unfoldable pub op_mkdir :
      FileSystem S
      → (path : Str) → (mode : ℕ) → (path_granted node_granted : Bool) → Option (ℤ × FileSystem S)
  op_mkdir (ramfs fs) path mode path_granted node_granted =
      elim (ramfs_create_directory fs path mode path_granted node_granted) [
        | none ↦ none
        | some (result, fs1) ↦ some (result, ramfs fs1)
      ]
  op_mkdir (sfs s) path mode path_granted node_granted =
      let (result, s1) = ops.mkdir s path mode in some (result, sfs s1)

  unfoldable pub op_rmdir : FileSystem S → (path : Str) → ℤ × FileSystem S
  op_rmdir (ramfs fs) path = let (result, fs1) = ramfs_dir_rmdir fs path in (result, ramfs fs1)
  op_rmdir (sfs s) path = let (result, s1) = ops.rmdir s path in (result, sfs s1)

  unfoldable pub op_readdir :
      FileSystem S → File → (room offset : ℕ) → Option (ℤ × (List Dirent × (ℕ × FileSystem S)))
  op_readdir (ramfs fs) dir room offset = elim (ramfs_dir_readdir fs dir room offset) [
    | none ↦ none
    | some (result, r) ↦ some (result, (r.0, (r.1, ramfs fs)))
  ]
  op_readdir (sfs s) dir room offset =
      let (result, r) = ops.readdir s dir room offset in some (result, (r.0, (r.1.0, sfs r.1.1)))

  unfoldable pub op_unlink : FileSystem S → (path : Str) → ℤ × FileSystem S
  op_unlink (ramfs fs) path = let (result, fs1) = unlink_ramfs fs path in (result, ramfs fs1)
  op_unlink (sfs s) path = let (result, s1) = ops.delete_file s path in (result, sfs s1)

  -- the inode of a path
  unfoldable pub op_lookup : FileSystem S → (path : Str) → Option Inode × FileSystem S
  op_lookup (ramfs fs) path = elim (vfs_ramfs_resolve fs path) [
    | none ↦ (none, ramfs fs)
    | some i ↦ (some (inode_of fs i), ramfs fs)
  ]
  op_lookup (sfs s) path = let (o, s1) = ops.resolve_path s path in (o, sfs s1)

module _ {S P : Type 0} (ops : SfsOps S) where
  unfoldable pub vfs_mkdir :
      Vfs S P
      → (path : Str) → (mode : ℕ) → (path_granted node_granted : Bool) → Option (ℤ × Vfs S P)
  vfs_mkdir v path mode path_granted node_granted =
      if not v.initialized then some (vfs_einval, v) else elim (vfs_find_mount_for_path v path) [
        | none ↦ some (vfs_enoent, v)
        | some m ↦
            elim (op_mkdir ops (v.filesystems m.fs) (vfs_path_within_mount m.mountpoint path) mode
              path_granted node_granted) [
                | none ↦ none
                | some (result, fs1) ↦ some (result, put_fs v m.fs fs1)
              ]
      ]

  unfoldable pub vfs_rmdir : Vfs S P → (path : Str) → ℤ × Vfs S P
  vfs_rmdir v path =
      if not v.initialized then (vfs_einval, v) else elim (vfs_find_mount_for_path v path) [
        | none ↦ (vfs_enoent, v)
        | some m ↦
            let (result, fs1) =
              op_rmdir ops (v.filesystems m.fs) (vfs_path_within_mount m.mountpoint path) in
            (result, put_fs v m.fs fs1)
      ]

  unfoldable pub vfs_readdir :
      Vfs S P → (fd : ℤ) → (count : ℕ) → Option (ℤ × (List Dirent × Vfs S P))
  vfs_readdir v fd count = elim (vfs_get_open_file v.open_files fd) [
    | none ↦ some (vfs_einval, ([], v))
    | some o ↦
        if count == 0 || not (has_bit o.file.inode.mode 14)
        then some (vfs_einval, ([], v))
        else elim (op_readdir ops (v.filesystems o.fs) o.file count o.file.position) [
          | none ↦ none
          | some (result, r) ↦
              let v1 = put_fs v o.fs r.1.1 in
              if is_negative result
              then some (result, (r.0, v1))
              else some (
                result,
                (r.0, put_file v1 (fd_number fd) (record o.file { position = r.1.0 }) o.fs),
              )
        ]
  ]

  unfoldable pub vfs_unlink : Vfs S P → (path : Str) → ℤ × Vfs S P
  vfs_unlink v path =
      if not v.initialized then (vfs_einval, v) else elim (vfs_find_mount_for_path v path) [
        | none ↦ (vfs_enoent, v)
        | some m ↦
            let (result, fs1) =
              op_unlink ops (v.filesystems m.fs) (vfs_path_within_mount m.mountpoint path) in
            (result, put_fs v m.fs fs1)
      ]

  -- while ((bytes_read = vfs_read(...)) > 0): VFS_SUCCESS, or VFS_ERROR after a short write. `granted` says of
  -- the writes, by the rounds left, whether there is memory.
  unfoldable pub copy_file :
      (fuel : ℕ) → Vfs S P → (src_fd dst_fd : ℤ) → (granted : ℕ → Bool) → Option (ℤ × Vfs S P)
  copy_file zero v src_fd dst_fd granted = none
  copy_file (suc fuel) v src_fd dst_fd granted = elim (vfs_read ops v src_fd 512) [
    | none ↦ none
    | some (bytes_read, r) ↦ elim (is_positive bytes_read) [
      | false ↦ some (vfs_success, r.1)
      | true ↦ elim (vfs_write ops r.1 dst_fd r.0 (granted fuel)) [
        | none ↦ none
        | some (bytes_written, v2) ↦ elim (same_number bytes_written bytes_read) [
          | true ↦ copy_file fuel v2 src_fd dst_fd granted
          | false ↦ some (vfs_error, v2)
        ]
      ]
    ]
  ]

  -- from the open source on
  unfoldable pub rename_open :
      Vfs S P
      → (oldpath newpath : Str) → (src_fd : ℤ) → Grants
      → (granted : ℕ → Bool) → (fuel : ℕ) → Option (ℤ × Vfs S P)
  rename_open v oldpath newpath src_fd dst_grants granted fuel =
      elim (vfs_open ops v newpath 4353 420 dst_grants) [
        | none ↦ none
        | some (dst_fd, v2) ↦
            if is_negative dst_fd
            then some (dst_fd, (vfs_close ops v2 src_fd).1)
            else elim (copy_file fuel v2 src_fd dst_fd granted) [
              | none ↦ none
              | some (result, v3) ↦
                  let v4 = (vfs_close ops (vfs_close ops v3 src_fd).1 dst_fd).1 in
                  if is_success result
                  then some (vfs_unlink v4 oldpath)
                  else some (result, (vfs_unlink v4 newpath).1)
            ]
      ]

  unfoldable pub vfs_rename :
      Vfs S P
      → (oldpath newpath : Str) → (src_grants dst_grants : Grants) → (granted : ℕ → Bool)
      → (fuel : ℕ) → Option (ℤ × Vfs S P)
  vfs_rename v oldpath newpath src_grants dst_grants granted fuel =
      let old_mount = vfs_find_mount_for_path v oldpath in
      if not v.initialized
      then some (vfs_einval, v)
      else if not (same_fs old_mount (vfs_find_mount_for_path v newpath))
      then some (vfs_einval, v)
      else elim (rename_source (v.filesystems (mounted_fs old_mount)) oldpath) [
        | some e ↦ some (e, v)
        | none ↦ elim (vfs_open ops v oldpath 0 0 src_grants) [
          | none ↦ none
          | some (src_fd, v1) ↦
              if is_negative src_fd
              then some (src_fd, v1)
              else rename_open v1 oldpath newpath src_fd dst_grants granted fuel
        ]
      ]

  -- what vfs_stat fills in, or NULL
  unfoldable pub vfs_stat : Vfs S P → (path : Str) → ℤ × (Option Inode × Vfs S P)
  vfs_stat v path =
      if not v.initialized then (vfs_einval, (none, v)) else elim (vfs_find_mount_for_path v path) [
        | none ↦ (vfs_enoent, (none, v))
        | some m ↦
            let (o, fs1) =
              op_lookup ops (v.filesystems m.fs) (vfs_path_within_mount m.mountpoint path) in
            elim o [
              | none ↦ (vfs_enoent, (none, put_fs v m.fs fs1))
              | some inode ↦ (
                vfs_success,
                (some (record inode { ref_count = 1 }), put_fs v m.fs (drop_inode ops fs1 inode)),
              )
            ]
      ]

  unfoldable pub vfs_lookup : Vfs S P → (path : Str) → (granted : Bool) → Option Inode × Vfs S P
  vfs_lookup v path granted =
      if not v.initialized then (none, v) else elim (vfs_find_mount_for_path v path) [
        | none ↦ (none, v)
        | some m ↦
            let (o, fs1) =
              op_lookup ops (v.filesystems m.fs) (vfs_path_within_mount m.mountpoint path) in
            (if is_ramfs fs1 && not granted then none else o, put_fs v m.fs fs1)
      ]
