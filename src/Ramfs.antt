-- ===== src/Ramfs.antt =====
-- The RAM file system, src/fs/ramfs/ramfs_core.c with src/include/ramfs.h: the tree of nodes. A node is
-- known by the number of its allocation, and all nodes are one function from numbers. The children of a
-- directory, which the code links from `children` by `next`, are a list; names are strings. `kfree`
-- keeps what it is given, so a freed node stays readable. `granted` says whether `kmalloc` returned
-- memory; `none` is a fault: a `strncpy` that overwrites all memory behind its target.
pub mod Resolve
pub mod Entries
pub mod File
pub mod Start
mod Tests
use build_your_own_os.Prelude.{
  ℕ, zero, suc, ◌+◌, ◌%◌, ◌^◌, Bool, true, false, ◌||◌, not, Option, none, some, List, [], ◌∷◌,
  ◌++◌, Str, same_name, ltb, leb, ◌==◌, if◌then◌else◌, has_bit, with_bit, length, ℤ, pos, negsuc,
}
use build_your_own_os.Paths.{slash, vfs_max_path, split_last, vfs_get_filename, vfs_get_dirname}

abbrev pub ramfs_max_name : ℕ
ramfs_max_name = 255

abbrev pub ramfs_max_file_size : ℕ
ramfs_max_file_size = 65536

abbrev pub vfs_success : ℤ
vfs_success = pos 0

abbrev pub vfs_error : ℤ
vfs_error = negsuc 0

abbrev pub vfs_einval : ℤ
vfs_einval = negsuc 1

abbrev pub vfs_enoent : ℤ
vfs_enoent = negsuc 2

abbrev pub vfs_eexist : ℤ
vfs_eexist = negsuc 3

abbrev pub vfs_eperm : ℤ
vfs_eperm = negsuc 4

abbrev pub vfs_enomem : ℤ
vfs_enomem = negsuc 5

-- `content` is `data`, the bytes of the allocation.
pub record RamfsNode : Type 0 where
  pub name : Str
  pub mode : ℕ
  pub size : ℕ
  pub ino : ℕ
  pub content : Option (List ℕ)
  pub parent : Option ℕ
  pub children : List ℕ
  pub created_time : ℕ
  pub modified_time : ℕ
  pub accessed_time : ℕ

-- `allocated` is the number of the next allocation.
pub record RamfsFsData : Type 0 where
  pub node : ℕ → RamfsNode
  pub root : ℕ
  pub next_ino : ℕ
  pub file_count : ℕ
  pub used_memory : ℕ
  pub allocated : ℕ

abbrev pub new_node : (name : Str) → (mode ino : ℕ) → RamfsNode
new_node name mode ino = record {
  name = name;
  mode = mode;
  size = 0;
  ino = ino;
  content = none;
  parent = none;
  children = [];
  created_time = 0;
  modified_time = 0;
  accessed_time = 0;
}

abbrev pub put_node : RamfsFsData → ℕ → RamfsNode → RamfsFsData
put_node fs i n = record fs { node = λ j. if i == j then n else fs.node j }

-- mode & VFS_FILE_DIRECTORY
abbrev pub is_directory : RamfsNode → Bool
is_directory n = has_bit n.mode 14

-- The new node is the one that `allocated` counts.
unfoldable pub ramfs_create_node :
    RamfsFsData → (name : Str) → (mode : ℕ) → (granted : Bool) → Option (Option ℕ × RamfsFsData)
ramfs_create_node fs name mode granted =
    if not granted
    then some (none, fs)
    else if leb ramfs_max_name (length name)
    then none
    else some (
      some fs.allocated,
      record (put_node fs fs.allocated (new_node name mode fs.next_ino)) {
        next_ino = (fs.next_ino + 1) % 2 ^ 32;
        file_count = (fs.file_count + 1) % 2 ^ 32;
        allocated = fs.allocated + 1;
      },
    )

-- the calls for the children
unfoldable pub destroy_each : (RamfsFsData → ℕ → RamfsFsData) → RamfsFsData → List ℕ → RamfsFsData
destroy_each destroy fs [] = fs
destroy_each destroy fs (child ∷ rest) = destroy_each destroy (destroy fs child) rest

-- The node loses its data, and so do those below it. A tree is no deeper than it has nodes.
unfoldable pub ramfs_destroy_node : (fuel : ℕ) → RamfsFsData → ℕ → RamfsFsData
ramfs_destroy_node zero fs i = fs
ramfs_destroy_node (suc fuel) fs i =
    destroy_each (ramfs_destroy_node fuel) (put_node fs i (record (fs.node i) { content = none }))
      (fs.node i).children

unfoldable pub find_child : RamfsFsData → List ℕ → (name : Str) → Option ℕ
find_child fs [] name = none
find_child fs (child ∷ rest) name =
    let later = find_child fs rest name in
    if same_name (fs.node child).name name then some child else later

unfoldable pub ramfs_find_node : RamfsFsData → (parent : ℕ) → (name : Str) → Option ℕ
ramfs_find_node fs parent name =
    if is_directory (fs.node parent) then find_child fs (fs.node parent).children name else none

-- if (comp_idx < RAMFS_MAX_NAME) component[comp_idx++] = *path
abbrev pub add_char : Str → ℕ → Str
add_char component c =
    if ltb (length component) ramfs_max_name then component ++ c ∷ [] else component

-- the loop over the path
unfoldable pub walk_path : RamfsFsData → (current : ℕ) → (component : Str) → (path : Str) → Option ℕ
walk_path fs current [] [] = some current
walk_path fs current (d ∷ ds) [] = ramfs_find_node fs current (d ∷ ds)
walk_path fs current component (c ∷ cs) = elim (c == slash) [
  | true ↦ elim component [
    | [] ↦ walk_path fs current [] cs
    | d ∷ ds ↦ elim (ramfs_find_node fs current (d ∷ ds)) [
      | none ↦ none
      | some n ↦ walk_path fs n [] cs
    ]
  ]
  | false ↦ walk_path fs current (add_char component c) cs
]

abbrev pub skip_slash : Str → Str
skip_slash [] = []
skip_slash (c ∷ cs) = if c == slash then cs else c ∷ cs

unfoldable pub ramfs_resolve_path : RamfsFsData → (path : Str) → Option ℕ
ramfs_resolve_path fs path =
    if same_name path (slash ∷ []) then some fs.root else walk_path fs fs.root [] (skip_slash path)
