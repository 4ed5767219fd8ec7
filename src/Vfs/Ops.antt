-- ===== src/Vfs/Ops.antt =====
-- The two types of file systems behind the virtual file system, src/fs/vfs/vfs_core.c: opening a path, and
-- the operations that a file has. A buffer is the bytes that it holds, or for a
-- read their number; NULL buffers are left out. `none` is a fault in the file system below.
use build_your_own_os.Prelude.{
  ℕ, Bool, ◌&&◌, ◌||◌, not, Option, none, some, List, [], ◌∷◌, Str, same_name, ◌==◌, if◌then◌else◌,
  length, has_bit, ℤ, pos, negsuc, is_success,
}
use build_your_own_os.Paths.{slash}
use build_your_own_os.Ramfs.{
  RamfsFsData, put_node, is_directory, ramfs_resolve_path, vfs_success, vfs_error, vfs_einval,
  vfs_enoent, vfs_eexist, vfs_enomem,
}
use build_your_own_os.Ramfs.Entries.{ramfs_create_file}
use build_your_own_os.Ramfs.File.{
  Inode, File, u32_next, inode_of, ramfs_file_open, ramfs_file_read, ramfs_file_write,
  ramfs_file_seek,
}
use build_your_own_os.Vfs.{SfsOps, FileSystem, ramfs, sfs}

abbrev pub vfs_enospc : ℤ
vfs_enospc = negsuc 6

-- which of the calls of `kmalloc` return memory
pub record Grants : Type 0 where
  pub node : Bool
  pub inode : Bool
  pub file : Bool

-- what has become of a path: an error, or the inode for the file
pub data Opened : Type 0 where
  refused : ℤ → Opened
  ready : Inode → Opened

unfoldable pub vfs_ramfs_resolve : RamfsFsData → (path : Str) → Option ℕ
vfs_ramfs_resolve fs path =
    if same_name path (slash ∷ []) then some fs.root else ramfs_resolve_path fs path

unfoldable pub vfs_ramfs_truncate_node : RamfsFsData → ℕ → RamfsFsData
vfs_ramfs_truncate_node fs i =
    if is_directory (fs.node i)
    then fs
    else put_node fs i (record (fs.node i) {
      content = none;
      size = 0;
      modified_time = u32_next (fs.node i).modified_time;
    })

-- flags & (VFS_O_WRONLY | VFS_O_RDWR)
abbrev pub for_writing : (flags : ℕ) → Bool
for_writing flags = has_bit flags 0 || has_bit flags 1

-- flags & VFS_O_CREAT, VFS_O_EXCL, VFS_O_TRUNC, VFS_O_APPEND
abbrev pub creates : (flags : ℕ) → Bool
creates flags = has_bit flags 8

abbrev pub excludes : (flags : ℕ) → Bool
excludes flags = has_bit flags 9

abbrev pub truncates : (flags : ℕ) → Bool
truncates flags = has_bit flags 12

abbrev pub appends : (flags : ℕ) → Bool
appends flags = has_bit flags 13

-- mode ? (uint32_t)mode : 0644
abbrev pub create_mode : (mode : ℕ) → ℕ
create_mode mode = if mode == 0 then 420 else mode

-- the part of vfs_open for a node of the RAM file system
unfoldable pub open_node : RamfsFsData → (i flags : ℕ) → (granted : Bool) → Opened × RamfsFsData
open_node fs i flags granted =
    if is_directory (fs.node i) && for_writing flags
    then (refused vfs_einval, fs)
    else (let fs1 = if truncates flags then vfs_ramfs_truncate_node fs i else fs in
        if granted then (ready (inode_of fs1 i), fs1) else (refused vfs_enomem, fs1))

unfoldable pub open_ramfs :
    RamfsFsData → (path : Str) → (flags mode : ℕ) → Grants → Option (Opened × RamfsFsData)
open_ramfs fs path flags mode g = elim (vfs_ramfs_resolve fs path) [
  | some i ↦ some (open_node fs i flags g.inode)
  | none ↦
      if not (creates flags)
      then some (refused vfs_enoent, fs)
      else elim (ramfs_create_file fs path (create_mode mode) g.node) [
        | none ↦ none
        | some (result, fs1) ↦
            if not (is_success result)
            then some (refused vfs_error, fs1)
            else elim (vfs_ramfs_resolve fs1 path) [
              | none ↦ some (refused vfs_enoent, fs1)
              | some i ↦ some (open_node fs1 i flags g.inode)
            ]
      ]
]

abbrev pub new_file : Inode → (flags mode : ℕ) → File
new_file inode flags mode = record {
  inode = inode;
  position = if appends flags then inode.size else 0;
  flags = flags;
  mode = mode;
  ref_count = 1;
}

module _ {S : Type 0} (ops : SfsOps S) where
  unfoldable pub truncate_sfs : S → Inode → (flags : ℕ) → Opened × S
  truncate_sfs s inode flags =
      if truncates flags && not (has_bit inode.mode 14)
      then (let (result, r) = ops.truncate_file s inode 0 in
          if is_success result then (ready r.0, r.1) else (refused result, ops.put_inode r.1 r.0))
      else (ready inode, s)

  -- the part of vfs_open for the Simple File System
  unfoldable pub open_sfs : S → (path : Str) → (flags mode : ℕ) → Opened × S
  open_sfs s path flags mode =
      let (existing, s1) = ops.resolve_path s path in
      elim existing [
        | some inode ↦
            if creates flags && excludes flags
            then (refused vfs_eexist, ops.put_inode s1 inode)
            else if has_bit inode.mode 14 && for_writing flags
            then (refused vfs_einval, ops.put_inode s1 inode)
            else truncate_sfs s1 inode flags
        | none ↦
            if not (creates flags)
            then (refused vfs_enoent, s1)
            else (let (result, s2) = ops.create_file s1 path (create_mode mode) in
                if not (is_success result)
                then (refused result, s2)
                else (let (made, s3) = ops.resolve_path s2 path in
                    elim made [
                      | none ↦ (refused vfs_enoent, s3)
                      | some inode ↦ truncate_sfs s3 inode flags
                    ]))
      ]

  -- the file operations of the two types
  unfoldable pub op_open : FileSystem S → File → ℤ × (File × FileSystem S)
  op_open (ramfs fs) file =
      let (result, fs1) = ramfs_file_open fs file in (result, (file, ramfs fs1))
  op_open (sfs s) file = let (result, r) = ops.open_file s file in (result, (r.0, sfs r.1))

  unfoldable pub op_close : FileSystem S → File → FileSystem S
  op_close (ramfs fs) file = ramfs fs
  op_close (sfs s) file = sfs (ops.close_file s file)

  -- the bytes for the caller are those that the result counts
  unfoldable pub op_read :
      FileSystem S → File → (count offset : ℕ) → Option (ℤ × (List ℕ × FileSystem S))
  op_read (ramfs fs) file count offset = elim (ramfs_file_read fs file count offset) [
    | none ↦ none
    | some (bytes, fs1) ↦ some (pos (length bytes), (bytes, ramfs fs1))
  ]
  op_read (sfs s) file count offset =
      let (result, r) = ops.read s file count offset in some (result, (r.0, sfs r.1))

  unfoldable pub op_write :
      FileSystem S
      → File
      → (buf : List ℕ) → (offset : ℕ) → (granted : Bool) → Option (ℤ × (File × FileSystem S))
  op_write (ramfs fs) file buf offset granted = elim (ramfs_file_write fs file buf offset granted) [
    | none ↦ none
    | some (result, r) ↦ some (result, (r.1, ramfs r.0))
  ]
  op_write (sfs s) file buf offset granted =
      let (result, r) = ops.write s file buf offset in some (result, (r.0, sfs r.1))

  unfoldable pub op_seek :
      FileSystem S → File → (offset : ℤ) → (whence : ℕ) → ℤ × (File × FileSystem S)
  op_seek (ramfs fs) file offset whence =
      let (result, file1) = ramfs_file_seek file offset whence in (result, (file1, ramfs fs))
  op_seek (sfs s) file offset whence =
      let (result, r) = ops.seek s file offset whence in (result, (r.0, sfs r.1))

  unfoldable pub op_sync : FileSystem S → File → ℤ × FileSystem S
  op_sync (ramfs fs) file = (vfs_success, ramfs fs)
  op_sync (sfs s) file = let (result, s1) = ops.sync s file in (result, sfs s1)

  -- sfs_put_inode, or kfree
  unfoldable pub drop_inode : FileSystem S → Inode → FileSystem S
  drop_inode (ramfs fs) inode = ramfs fs
  drop_inode (sfs s) inode = sfs (ops.put_inode s inode)

  unfoldable pub open_in :
      FileSystem S → (path : Str) → (flags mode : ℕ) → Grants → Option (Opened × FileSystem S)
  open_in (ramfs fs) path flags mode g = elim (open_ramfs fs path flags mode g) [
    | none ↦ none
    | some (o, fs1) ↦ some (o, ramfs fs1)
  ]
  open_in (sfs s) path flags mode g = let (o, s1) = open_sfs s path flags mode in some (o, sfs s1)
