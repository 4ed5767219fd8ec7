-- ===== src/Vfs/Files.antt =====
-- Open files of the virtual file system, src/fs/vfs/vfs_core.c. A buffer is the bytes that it holds, or for a
-- read their number; NULL buffers are left out. `none` is a fault in the file system below.
pub mod Laws
pub mod Open
use build_your_own_os.Prelude.{
  ℕ, zero, suc, ◌+◌, Bool, true, false, ◌&&◌, ◌||◌, not, Option, none, some, List, [], ◌∷◌, Str,
  same_name, ◌==◌, if◌then◌else◌, length, set, has_bit, ℤ, pos, negsuc, ◌+ℤ◌, is_success,
  is_positive,
}
use build_your_own_os.Paths.{slash, vfs_path_within_mount}
use build_your_own_os.Ramfs.{
  RamfsNode, RamfsFsData, put_node, is_directory, ramfs_resolve_path, vfs_success, vfs_error,
  vfs_einval, vfs_enoent, vfs_eexist, vfs_enomem,
}
use build_your_own_os.Ramfs.Entries.{ramfs_create_file}
use build_your_own_os.Ramfs.File.{
  Inode, File, Dirent, u32_next, inode_of, ramfs_file_open, ramfs_file_read, ramfs_file_write,
  ramfs_file_seek, ramfs_dir_readdir,
}
use build_your_own_os.Vfs.Ops.{
  Grants, Opened, refused, ready, vfs_enospc, new_file, op_open, op_close, op_read, op_write,
  op_seek, op_sync, drop_inode, open_in,
}
use build_your_own_os.Vfs.{
  SfsOps, FileSystem, ramfs, sfs, Mount, OpenFile, Vfs, vfs_allocate_fd, vfs_get_open_file,
  vfs_release_fd, vfs_find_mount_for_path,
}

-- if (result > 0) file->position += result
abbrev pub advance : File → ℤ → File
advance file (pos n) = record file { position = file.position + n }
advance file (negsuc n) = file

abbrev pub fd_number : ℤ → ℕ
fd_number (pos n) = n
fd_number (negsuc n) = 0

module _ {S P : Type 0} where
  abbrev pub put_fs : Vfs S P → ℕ → FileSystem S → Vfs S P
  put_fs v i fs = record v { filesystems = λ j. if i == j then fs else v.filesystems j }

  abbrev pub put_file : Vfs S P → (fd : ℕ) → File → (fs : ℕ) → Vfs S P
  put_file v fd file fs = record v {
    open_files = set v.open_files fd (some (record { file = file; fs = fs }));
  }

module _ {S P : Type 0} (ops : SfsOps S) where
  -- from the inode to the descriptor
  unfoldable pub open_file_on :
      FileSystem S → Vfs S P → (i : ℕ) → Inode → (flags mode : ℕ) → (granted : Bool) → ℤ × Vfs S P
  open_file_on fs v i inode flags mode granted =
      if not granted
      then (vfs_enomem, put_fs v i (drop_inode ops fs inode))
      else (let (result, r) = op_open ops fs (new_file inode flags mode) in
          if not (is_success result)
          then (result, put_fs v i (drop_inode ops r.1 r.0.inode))
          else elim (vfs_allocate_fd v.open_files) [
            | none ↦ (vfs_enospc, put_fs v i (drop_inode ops (op_close ops r.1 r.0) r.0.inode))
            | some fd ↦ (
              pos fd,
              record (put_file (put_fs v i r.1) fd r.0 i) { files_opened = v.files_opened + 1 },
            )
          ])

  unfoldable pub open_file :
      Vfs S P → (i : ℕ) → Inode → (flags mode : ℕ) → (granted : Bool) → ℤ × Vfs S P
  open_file v i inode flags mode granted =
      open_file_on (v.filesystems i) v i inode flags mode granted

  unfoldable pub vfs_open :
      Vfs S P → (path : Str) → (flags mode : ℕ) → Grants → Option (ℤ × Vfs S P)
  vfs_open v path flags mode g =
      if not v.initialized then some (vfs_einval, v) else elim (vfs_find_mount_for_path v path) [
        | none ↦ some (vfs_enoent, v)
        | some m ↦
            elim (open_in ops (v.filesystems m.fs) (vfs_path_within_mount m.mountpoint path) flags
              mode g) [
                | none ↦ none
                | some (o, fs1) ↦ elim o [
                  | refused e ↦ some (e, put_fs v m.fs fs1)
                  | ready inode ↦ some (open_file (put_fs v m.fs fs1) m.fs inode flags mode g.file)
                ]
              ]
      ]

  unfoldable pub vfs_read : Vfs S P → (fd : ℤ) → (count : ℕ) → Option (ℤ × (List ℕ × Vfs S P))
  vfs_read v fd count = elim (vfs_get_open_file v.open_files fd) [
    | none ↦ some (vfs_einval, ([], v))
    | some o ↦
        if count == 0
        then some (vfs_einval, ([], v))
        else elim (op_read ops (v.filesystems o.fs) o.file count o.file.position) [
          | none ↦ none
          | some (result, r) ↦ some (
            result,
            (r.0, put_file (put_fs v o.fs r.1) (fd_number fd) (advance o.file result) o.fs),
          )
        ]
  ]

  unfoldable pub vfs_write :
      Vfs S P → (fd : ℤ) → (buf : List ℕ) → (granted : Bool) → Option (ℤ × Vfs S P)
  vfs_write v fd buf granted = elim (vfs_get_open_file v.open_files fd) [
    | none ↦ some (vfs_einval, v)
    | some o ↦
        if length buf == 0
        then some (vfs_einval, v)
        else elim (op_write ops (v.filesystems o.fs) o.file buf o.file.position granted) [
          | none ↦ none
          | some (result, r) ↦
              some (result, put_file (put_fs v o.fs r.1) (fd_number fd) (advance r.0 result) o.fs)
        ]
  ]

  unfoldable pub vfs_seek : Vfs S P → (fd : ℤ) → (offset : ℤ) → (whence : ℕ) → ℤ × Vfs S P
  vfs_seek v fd offset whence = elim (vfs_get_open_file v.open_files fd) [
    | none ↦ (vfs_einval, v)
    | some o ↦
        let (result, r) = op_seek ops (v.filesystems o.fs) o.file offset whence in
        (result, put_file (put_fs v o.fs r.1) (fd_number fd) r.0 o.fs)
  ]

  unfoldable pub vfs_sync : Vfs S P → (fd : ℤ) → ℤ × Vfs S P
  vfs_sync v fd = elim (vfs_get_open_file v.open_files fd) [
    | none ↦ (vfs_einval, v)
    | some o ↦
        let (result, fs1) = op_sync ops (v.filesystems o.fs) o.file in (result, put_fs v o.fs fs1)
  ]

  unfoldable pub vfs_close : Vfs S P → (fd : ℤ) → ℤ × Vfs S P
  vfs_close v fd = elim (vfs_get_open_file v.open_files fd) [
    | none ↦ (vfs_einval, v)
    | some o ↦ (
      vfs_success,
      record (put_fs v o.fs
          (drop_inode ops (op_close ops (v.filesystems o.fs) o.file) o.file.inode)) {
            open_files = vfs_release_fd v.open_files fd;
            files_closed = v.files_closed + 1;
          },
    )
  ]
