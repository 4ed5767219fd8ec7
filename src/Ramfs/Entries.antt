-- ===== src/Ramfs/Entries.antt =====
-- What puts nodes into directories of the RAM file system and takes them out, and its start,
-- src/fs/ramfs/ramfs_core.c.
pub mod Laws
pub mod Create
pub mod Place
pub mod Below
pub mod Files
pub mod Unlink
pub mod Remove
use build_your_own_os.Prelude.{
  ℕ, suc, ◌+◌, is_success, Bool, true, false, not, Option, none, some, List, [], ◌∷◌, Str,
  same_name, leb, ◌==◌, if◌then◌else◌, with_bit, length, ℤ, pos, negsuc,
}
use build_your_own_os.Paths.{slash, vfs_max_path, split_last, vfs_get_filename, vfs_get_dirname}
use build_your_own_os.Ramfs.{
  RamfsNode, RamfsFsData, new_node, put_node, is_directory, ramfs_create_node, ramfs_destroy_node,
  ramfs_find_node, ramfs_resolve_path, vfs_success, vfs_einval, vfs_enoent, vfs_eexist, vfs_eperm,
  vfs_enomem,
}

-- The child's parent is set, and then the two lists: the parent is read again behind the first write.
unfoldable pub ramfs_add_child : RamfsFsData → (parent child : ℕ) → ℤ × RamfsFsData
ramfs_add_child fs parent child =
    if is_directory (fs.node parent)
    then (let fs1 = put_node fs child (record (fs.node child) { parent = some parent }) in
        (
          vfs_success,
          put_node fs1 parent
              (record (fs1.node parent) { children = child ∷ (fs1.node parent).children }),
        ))
    else (vfs_einval, fs)

-- the first child of that name, and the others
unfoldable pub unlink_child : RamfsFsData → List ℕ → (name : Str) → Option (ℕ × List ℕ)
unlink_child fs [] name = none
unlink_child fs (child ∷ rest) name =
    let later = unlink_child fs rest name in
    if same_name (fs.node child).name name
    then some (child, rest)
    else elim later [ none ↦ none | some (found, others) ↦ some (found, child ∷ others) ]

unfoldable pub ramfs_remove_child : RamfsFsData → (parent : ℕ) → (name : Str) → ℤ × RamfsFsData
ramfs_remove_child fs parent name = elim (unlink_child fs (fs.node parent).children name) [
  | none ↦ (vfs_enoent, fs)
  | some (child, others) ↦ (
    vfs_success,
    ramfs_destroy_node (suc fs.allocated)
        (put_node fs parent (record (fs.node parent) { children = others })) child,
  )
]

-- The end of both functions that create: the new node becomes a child of `parent`.
unfoldable pub create_in :
    RamfsFsData
    → (parent : ℕ) → (name : Str) → (mode : ℕ) → (granted : Bool) → Option (ℤ × RamfsFsData)
create_in fs parent name mode granted = elim (ramfs_find_node fs parent name) [
  | some there ↦ some (vfs_eexist, fs)
  | none ↦ elim (ramfs_create_node fs name mode granted) [
    | none ↦ none
    | some (none, fs1) ↦ some (vfs_enomem, fs1)
    | some (some child, fs1) ↦
        let (result, fs2) = ramfs_add_child fs1 parent child in
        if is_success result
        then some (vfs_success, fs2)
        else some (result, ramfs_destroy_node (suc fs2.allocated) fs2 child)
  ]
]

unfoldable pub ramfs_create_directory :
    RamfsFsData
    → (path : Str) → (mode : ℕ) → (path_granted node_granted : Bool) → Option (ℤ × RamfsFsData)
ramfs_create_directory fs path mode path_granted node_granted =
    elim (vfs_get_dirname path path_granted) [
      | none ↦ none
      | some none ↦ some (vfs_enomem, fs)
      | some (some parent_path) ↦ elim (ramfs_resolve_path fs parent_path) [
        | none ↦ some (vfs_enoent, fs)
        | some parent ↦ create_in fs parent (vfs_get_filename path) (with_bit mode 14) node_granted
      ]
    ]

-- the directory that a path names, and the name in it
unfoldable pub file_place : RamfsFsData → (path : Str) → Option ℕ × Str
file_place fs path = elim (split_last path) [
  | none ↦ (some fs.root, path)
  | some ([], name) ↦ (some fs.root, name)
  | some (d ∷ ds, name) ↦ (ramfs_resolve_path fs (d ∷ ds), name)
]

unfoldable pub ramfs_create_file :
    RamfsFsData → (path : Str) → (mode : ℕ) → (granted : Bool) → Option (ℤ × RamfsFsData)
ramfs_create_file fs path mode granted =
    if leb vfs_max_path (length path)
    then none
    else (let (parent, name) = file_place fs path in
        elim parent [
          | none ↦ some (vfs_einval, fs)
          | some p ↦
              if length name == 0
              then some (vfs_einval, fs)
              else create_in fs p name (with_bit mode 12) granted
        ])

unfoldable pub ramfs_dir_rmdir : RamfsFsData → (path : Str) → ℤ × RamfsFsData
ramfs_dir_rmdir fs path = elim (ramfs_resolve_path fs path) [
  | none ↦ (vfs_enoent, fs)
  | some i ↦
      let n = fs.node i in
      if not (is_directory n)
      then (vfs_einval, fs)
      else if not (length n.children == 0)
      then (vfs_einval, fs)
      else elim n.parent [
        | none ↦ (vfs_eperm, fs)
        | some parent ↦ ramfs_remove_child fs parent n.name
      ]
]

-- The root is the first node, and has the number 1.
unfoldable pub ramfs_mount : (granted : Bool) → Option RamfsFsData
ramfs_mount granted =
    if granted
    then some (record {
      node = λ i. new_node (slash ∷ []) (16384 + 493) 1;
      root = 0;
      next_ino = 2;
      file_count = 1;
      used_memory = 0;
      allocated = 1;
    })
    else none
