-- ===== src/Vfs/Tests.antt =====
-- A VFS with the RAM file system at "/", a second one at "/m", and the file "/a" open.
use build_your_own_os.Prelude.{
  ℕ, ◌+◌, ◌≡◌, refl, true, none, some, List, [], ◌∷◌, Str, replicate, has_bit, with_bit, arith, pos,
  negsuc,
}
use build_your_own_os.Paths.{slash}
use build_your_own_os.Ramfs.{RamfsFsData, new_node}
use build_your_own_os.Ramfs.Entries.Laws.{created}
use build_your_own_os.Ramfs.File.{
  File, inode_of, overwrite, make_room, copy_in, written, ramfs_file_write,
}
use build_your_own_os.Ramfs.File.Laws.{IsValidNode}
use build_your_own_os.Vfs.{
  SfsOps, ramfs, FsType, OpenFile, Vfs, free_slot, find_type, vfs_find_mount_for_path,
  vfs_get_open_file,
}
use build_your_own_os.Vfs.Mounts.{mount_device, mount_in, add_mount, vfs_mount}
use build_your_own_os.Vfs.Mounts.Longest.{FoundMount}
use build_your_own_os.Vfs.Mounts.Root.{
  MountCall, call_mount, perform_mounts, perform_mounts-FoundMount,
}
use build_your_own_os.Vfs.Ops.{op_write}
use build_your_own_os.Vfs.Files.{
  put_fs, put_file, advance, vfs_write, vfs_read, vfs_seek, open_file,
}
use build_your_own_os.Vfs.Files.Laws.{IsOpen, bytes_read, vfs_read-vfs_seek-vfs_write}
use build_your_own_os.Vfs.Files.Open.{Opening, open_file-Opening}

-- no Simple File System is mounted
abbrev nothing_below : SfsOps ℕ
nothing_below = record {
  resolve_path = λ s path. (none, s);
  put_inode = λ s inode. s;
  create_file = λ s path mode. (negsuc 0, s);
  truncate_file = λ s inode size. (negsuc 0, (inode, s));
  delete_file = λ s path. (negsuc 0, s);
  open_file = λ s file. (negsuc 0, (file, s));
  close_file = λ s file. s;
  read = λ s file count offset. (negsuc 0, ([], s));
  write = λ s file buf offset. (negsuc 0, (file, s));
  seek = λ s file offset whence. (negsuc 0, (file, s));
  sync = λ s file. (negsuc 0, s);
  readdir = λ s file room offset. (negsuc 0, ([], (0, s)));
  mkdir = λ s path mode. (negsuc 0, s);
  rmdir = λ s path. (negsuc 0, s);
}

abbrev started : RamfsFsData
started = record {
  node = λ i. new_node (slash ∷ []) (16384 + 493) 1;
  root = 0;
  next_ino = 2;
  file_count = 1;
  used_memory = 0;
  allocated = 1;
}

abbrev with_a : RamfsFsData
with_a = created started 0 (97 ∷ []) (with_bit 420 12)

abbrev ramfs_name : Str
ramfs_name = 114 ∷ 97 ∷ 109 ∷ 102 ∷ 115 ∷ []

abbrev ram_type : FsType ℕ ℕ
ram_type = record { name = ramfs_name; mount = λ dev flags. some (ramfs with_a) }

abbrev initial : Vfs ℕ ℕ
initial = record {
  initialized = true;
  fs_types = some ram_type ∷ replicate 15 none;
  mounts = replicate 16 none;
  root_mount = none;
  filesystems = λ i. ramfs with_a;
  fs_made = 0;
  open_files = replicate 32 none;
  fs_types_registered = 1;
  mounts_active = 0;
  files_opened = 0;
  files_closed = 0;
}

abbrev mounts : List (MountCall ℕ)
mounts =
    call_mount [] none (slash ∷ []) ramfs_name 0 true
    ∷ call_mount [] none (slash ∷ 109 ∷ []) ramfs_name 0 true
    ∷ []

abbrev mounted : Vfs ℕ ℕ
mounted =
    add_mount (add_mount initial 0 (slash ∷ []) 0 (ramfs with_a)) 1 (slash ∷ 109 ∷ []) 0
      (ramfs with_a)

run_mounts : perform_mounts initial mounts ≡ some mounted
unfolding perform_mounts vfs_mount find_type mount_device mount_in free_slot
run_mounts = refl

abbrev sought : Str
sought = slash ∷ 109 ∷ slash ∷ 97 ∷ []

perform_mounts-FoundMount_example :
    FoundMount sought mounted.mounts (vfs_find_mount_for_path mounted sought)
perform_mounts-FoundMount_example =
    perform_mounts-FoundMount initial mounted mounts sought refl run_mounts refl

open_file-Opening_example :
    Opening mounted 0
      (inode_of with_a 1)
      2
      420
      true
      (open_file nothing_below mounted 0 (inode_of with_a 1) 2 420 true)
open_file-Opening_example =
    open_file-Opening nothing_below mounted 0 with_a (inode_of with_a 1) 2 420 true refl refl

abbrev a_file : File
a_file = record { inode = inode_of with_a 1; position = 0; flags = 2; mode = 420; ref_count = 1 }

abbrev a_open : OpenFile
a_open = record { file = a_file; fs = 0 }

abbrev opened : Vfs ℕ ℕ
opened = put_file mounted 3 a_file 0

opened-IsOpen : IsOpen opened.open_files 3 a_open
opened-IsOpen = record {
  low = omega arith;
  high = omega arith;
  in_table = omega arith;
  there = refl;
}

with_a-IsValidNode : IsValidNode (with_a.node 1)
with_a-IsValidNode = record {
  small = omega arith;
  stored = λ bytes e. omega arith;
  bare = λ e. refl;
}

abbrev after_write : RamfsFsData × File
after_write = written with_a a_file (7 ∷ 8 ∷ []) 2

abbrev wrote : Vfs ℕ ℕ
wrote = put_file (put_fs opened 0 (ramfs after_write.0)) 3 (advance after_write.1 (pos 2)) 0

run_write : vfs_write nothing_below opened (pos 3) (7 ∷ 8 ∷ []) true ≡ some (pos 2, wrote)
unfolding vfs_write vfs_get_open_file op_write ramfs_file_write copy_in make_room overwrite has_bit
run_write = refl

vfs_read-vfs_seek-vfs_write_example :
    bytes_read (vfs_read nothing_below (vfs_seek nothing_below wrote (pos 3) (pos 0) 0).1 (pos 3) 2)
    ≡ some (7 ∷ 8 ∷ [])
vfs_read-vfs_seek-vfs_write_example =
    vfs_read-vfs_seek-vfs_write nothing_below opened wrote 3 a_open with_a 7 (8 ∷ []) true 2
      opened-IsOpen refl with_a-IsValidNode (omega arith) run_write
