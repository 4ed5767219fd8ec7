-- ===== src/Ramfs/Tests.antt =====
-- Concrete trees: the empty file system, and one with the file "/a".
use build_your_own_os.Prelude.{
  Option, none, ℕ, ◌+◌, ◌-◌, ◌^◌, ◌≡◌, ◌⊎◌, refl, true, none, some, [], ◌∷◌, Str, has_bit, with_bit,
  take, drop, arith, pos,
}
use build_your_own_os.Paths.{slash, split_last, vfs_get_dirname, vfs_get_filename}
use build_your_own_os.Ramfs.{
  walk_path, RamfsFsData, new_node, find_child, ramfs_find_node, ramfs_create_node,
  ramfs_resolve_path, vfs_success, vfs_enoent,
}
use build_your_own_os.Ramfs.Start.{
  ramfs_populate_initial_files, create_directories, write_welcome, welcome_path,
}
use build_your_own_os.Ramfs.Resolve.{descend, components, ramfs_resolve_path-descend}
use build_your_own_os.Ramfs.Entries.{
  ramfs_create_directory, ramfs_add_child, create_in, file_place, ramfs_create_file, ramfs_mount,
  ramfs_remove_child,
}
use build_your_own_os.Ramfs.Entries.Laws.{IsTree, created}
use build_your_own_os.Ramfs.Entries.Files.{IsNewFile, ramfs_create_file-IsNewFile}
use build_your_own_os.Ramfs.Entries.Remove.{Removed, ramfs_remove_child-Removed}
use build_your_own_os.Ramfs.File.{
  File, inode_of, copy_out, read_content, read_node, ramfs_file_read, ramfs_file_write, overwrite,
  make_room, copy_in, written,
}
use build_your_own_os.Ramfs.File.Contents.{contents}
use build_your_own_os.Ramfs.File.Laws.{IsValidNode, FileWrite, ramfs_file_write-FileWrite}
use build_your_own_os.Ramfs.File.Read.{ramfs_file_read-contents}

abbrev started : RamfsFsData
started = record {
  node = λ i. new_node (slash ∷ []) (16384 + 493) 1;
  root = 0;
  next_ino = 2;
  file_count = 1;
  used_memory = 0;
  allocated = 1;
}

ramfs_mount-started : ramfs_mount true ≡ some started
unfolding ramfs_mount
ramfs_mount-started = refl

started-IsTree : IsTree started
started-IsTree = record { rooted = omega arith; below = λ i h. tt; distinct = λ i h. tt }

abbrev a_name : Str
a_name = 97 ∷ []

abbrev a_path : Str
a_path = slash ∷ a_name

abbrev with_a : RamfsFsData
with_a = created started 0 a_name (with_bit 420 12)

run_create : ramfs_create_file started a_path 420 true ≡ some (vfs_success, with_a)
unfolding ramfs_create_file file_place split_last create_in ramfs_find_node find_child
    ramfs_create_node ramfs_add_child has_bit with_bit
run_create = refl

ramfs_create_file-IsNewFile_example : IsNewFile started a_path 420 with_a
ramfs_create_file-IsNewFile_example =
    ramfs_create_file-IsNewFile started with_a a_path 420 started-IsTree run_create

with_a-IsTree : IsTree with_a
with_a-IsTree =
    (ramfs_create_file-IsNewFile started with_a a_path 420 started-IsTree run_create).tree

ramfs_resolve_path-descend_example :
    ramfs_resolve_path with_a a_path ≡ descend with_a 0 (components a_path)
ramfs_resolve_path-descend_example = ramfs_resolve_path-descend with_a a_path

ramfs_remove_child-Removed_example :
    ((ramfs_find_node with_a 0 a_name ≡ none)
      × (ramfs_remove_child with_a 0 a_name ≡ (vfs_enoent, with_a)))
    ⊎ ((child : ℕ) × (fs' : RamfsFsData) × (ramfs_find_node with_a 0 a_name ≡ some child)
        × (ramfs_remove_child with_a 0 a_name ≡ (vfs_success, fs'))
        × Removed with_a 0 a_name fs')
unfolding has_bit
ramfs_remove_child-Removed_example =
    ramfs_remove_child-Removed with_a 0 a_name with_a-IsTree (omega arith) refl

abbrev a_file : File
a_file = record { inode = inode_of with_a 1; position = 0; flags = 2; mode = 420; ref_count = 1 }

with_a-IsValidNode : IsValidNode (with_a.node 1)
with_a-IsValidNode = record {
  small = omega arith;
  stored = λ bytes e. omega arith;
  bare = λ e. refl;
}

ramfs_file_write-FileWrite_example :
    FileWrite with_a a_file (7 ∷ 8 ∷ []) 2 true (ramfs_file_write with_a a_file (7 ∷ 8 ∷ []) 2 true)
ramfs_file_write-FileWrite_example =
    ramfs_file_write-FileWrite with_a a_file 2 7 (8 ∷ []) true with_a-IsValidNode (omega arith)

ramfs_file_read-contents_example :
    (fs' : RamfsFsData) × (ramfs_file_read with_a a_file 4 1
      ≡ some (take 4 (drop 1 (contents (with_a.node 1))), fs'))
    × ((j : ℕ) → contents (fs'.node j) ≡ contents (with_a.node j))
ramfs_file_read-contents_example =
    ramfs_file_read-contents with_a a_file 4 1 with_a-IsValidNode (omega arith)

abbrev after_write : RamfsFsData × File
after_write = written with_a a_file (0 ∷ 0 ∷ 7 ∷ 8 ∷ []) 4

run_write : ramfs_file_write with_a a_file (7 ∷ 8 ∷ []) 2 true ≡ some (pos 2, after_write)
unfolding ramfs_file_write copy_in make_room overwrite
run_write = refl

-- "/etc" and "/welcome.txt" after the start
abbrev look_up : (path : Str) → Option RamfsFsData → Option ℕ
look_up path none = none
look_up path (some fs) = ramfs_resolve_path fs path

populated :
    (look_up (47 ∷ 101 ∷ 116 ∷ 99 ∷ []) (ramfs_populate_initial_files started (λ call. true))
      ≡ some 2)
    × (look_up welcome_path (ramfs_populate_initial_files started (λ call. true)) ≡ some 6)
unfolding ramfs_populate_initial_files create_directories write_welcome ramfs_create_directory
    ramfs_create_file vfs_get_dirname vfs_get_filename file_place split_last create_in
    ramfs_find_node find_child ramfs_create_node ramfs_add_child ramfs_resolve_path walk_path
    has_bit with_bit
populated = (refl, refl)

-- A count of 2 ^ 64 - 1 is not cut, and the copy runs behind the data.
huge_count : ramfs_file_read after_write.0 after_write.1 (2 ^ 64 - 1) 0 ≡ none
unfolding ramfs_file_read read_node read_content copy_out
huge_count = refl
