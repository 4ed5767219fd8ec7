-- ===== src/Ramfs/File.antt =====
-- The operations on an open file of the RAM file system, src/fs/ramfs/ramfs_core.c, with struct inode and
-- struct file of src/include/vfs.h. A buffer is the bytes that it holds; `none` is a fault, a copy behind
-- the end of an allocation. A position is never
-- negative: the only function that sets one freely refuses it.
pub mod Contents
pub mod Laws
pub mod Read
use build_your_own_os.Prelude.{
  ℕ, zero, suc, ◌+◌, ◌-◌, ◌%◌, ◌^◌, Bool, true, false, ◌&&◌, ◌||◌, not, Option, none, some, List,
  [], ◌∷◌, ◌++◌, Str, ltb, leb, ◌==◌, if◌then◌else◌, length, take, drop, replicate, ℤ, pos, negsuc,
  ◌+ℤ◌, bit_and,
}
use build_your_own_os.Paths.{vfs_max_name}
use build_your_own_os.Ramfs.{
  RamfsNode, RamfsFsData, put_node, is_directory, ramfs_find_node, ramfs_max_file_size, vfs_success,
}

-- `node` is `private_data`, and the file system is the one that a call gets.
pub record Inode : Type 0 where
  pub ino : ℕ
  pub mode : ℕ
  pub size : ℕ
  pub blocks : ℕ
  pub created_time : ℕ
  pub modified_time : ℕ
  pub accessed_time : ℕ
  pub node : ℕ
  pub ref_count : ℕ

pub record File : Type 0 where
  pub inode : Inode
  pub position : ℕ
  pub flags : ℕ
  pub mode : ℕ
  pub ref_count : ℕ

pub record Dirent : Type 0 where
  pub ino : ℕ
  pub file_type : ℕ
  pub name_len : ℕ
  pub name : Str

abbrev pub u32_next : ℕ → ℕ
u32_next n = (n + 1) % 2 ^ 32

unfoldable pub ramfs_file_open : RamfsFsData → File → ℤ × RamfsFsData
ramfs_file_open fs file =
    let i = file.inode.node in
    (
      vfs_success,
      put_node fs i (record (fs.node i) { accessed_time = u32_next (fs.node i).accessed_time }),
    )

-- offset + (off_t)count > (off_t)size: the sum is a signed number of 64 bits, and one of 2 ^ 63 or more is
-- negative there
abbrev pub ends_behind : (size count offset : ℕ) → Bool
ends_behind size count offset =
    let sum = (offset + count) % 2 ^ 64 in ltb sum (2 ^ 63) && ltb size sum

-- memcpy of `count` bytes from `offset` of the allocation
unfoldable pub copy_out : (bytes : List ℕ) → (offset count : ℕ) → Option (List ℕ)
copy_out bytes offset count =
    if leb (offset + count) (length bytes) then some (take count (drop offset bytes)) else none

-- the bytes for the caller, from an offset in front of the end
unfoldable pub read_content : (bytes : List ℕ) → (size count offset : ℕ) → Option (List ℕ)
read_content bytes size count offset =
    copy_out bytes offset (if ends_behind size count offset then size - offset else count)

-- node `i`, whose data is `content`; the number of the bytes is the result
unfoldable pub read_node :
    RamfsFsData
    → (i : ℕ) → (content : Option (List ℕ)) → (count offset : ℕ) → Option (List ℕ × RamfsFsData)
read_node fs i none count offset = some ([], fs)
read_node fs i (some bytes) count offset =
    let n = fs.node i in
    if leb n.size offset then some ([], fs) else elim (read_content bytes n.size count offset) [
      | none ↦ none
      | some part ↦
          some (part, put_node fs i (record n { accessed_time = u32_next n.accessed_time }))
    ]

unfoldable pub ramfs_file_read :
    RamfsFsData → File → (count offset : ℕ) → Option (List ℕ × RamfsFsData)
unfolding read_node
ramfs_file_read fs file count offset =
    read_node fs file.inode.node (fs.node file.inode.node).content count offset

-- memcpy of `buf` to `offset` in the allocation
unfoldable pub overwrite : (bytes : List ℕ) → (offset : ℕ) → (buf : List ℕ) → Option (List ℕ)
overwrite bytes zero [] = some bytes
overwrite [] zero (b ∷ buf) = none
overwrite (x ∷ bytes) zero (b ∷ buf) = elim (overwrite bytes zero buf) [
  | none ↦ none
  | some rest ↦ some (b ∷ rest)
]
overwrite [] (suc offset) [] = some []
overwrite [] (suc offset) (b ∷ buf) = none
overwrite (x ∷ bytes) (suc offset) buf = elim (overwrite bytes offset buf) [
  | none ↦ none
  | some rest ↦ some (x ∷ rest)
]

-- The allocation that takes the bytes: a new one of zeros, a longer one with the old bytes and zeros behind,
-- or the old one.
unfoldable pub make_room : (content : Option (List ℕ)) → (size new_size : ℕ) → List ℕ
make_room none size new_size = replicate new_size 0
make_room (some bytes) size new_size =
    if ltb size new_size then take size bytes ++ replicate (new_size - size) 0 else bytes

-- `kmalloc` is called unless there is data and it is large enough.
abbrev pub needs_memory : (content : Option (List ℕ)) → (size new_size : ℕ) → Bool
needs_memory none size new_size = true
needs_memory (some bytes) size new_size = ltb size new_size

abbrev pub grow_inode : File → (new_size : ℕ) → File
grow_inode file new_size = record file { inode = record file.inode { size = new_size } }

-- the node and the file after the copy
abbrev pub written : RamfsFsData → File → (bytes : List ℕ) → (new_size : ℕ) → RamfsFsData × File
written fs file bytes new_size =
    let i = file.inode.node in
    let n = record (fs.node i) {
      content = some bytes;
      modified_time = u32_next (fs.node i).modified_time;
    } in
    if ltb (fs.node i).size new_size
    then (put_node fs i (record n { size = new_size }), grow_inode file new_size)
    else (put_node fs i n, file)

-- the copy into that room, and the new size
unfoldable pub copy_in :
    RamfsFsData → File → (buf : List ℕ) → (offset new_size : ℕ) → Option (ℤ × (RamfsFsData × File))
copy_in fs file buf offset new_size =
    let n = fs.node file.inode.node in
    elim (overwrite (make_room n.content n.size new_size) offset buf) [
      | none ↦ none
      | some bytes ↦ some (pos (length buf), written fs file bytes new_size)
    ]

unfoldable pub ramfs_file_write :
    RamfsFsData
    → File
    → (buf : List ℕ) → (offset : ℕ) → (granted : Bool) → Option (ℤ × (RamfsFsData × File))
ramfs_file_write fs file buf offset granted =
    let n = fs.node file.inode.node in
    let new_size = (offset + length buf) % 2 ^ 64 in
    if ltb ramfs_max_file_size new_size
    then some (negsuc 0, (fs, file))
    else if needs_memory n.content n.size new_size && not granted
    then some (negsuc 0, (fs, file))
    else copy_in fs file buf offset new_size

-- VFS_SEEK_SET, VFS_SEEK_CUR and VFS_SEEK_END, and where they start
unfoldable pub seek_base : File → (whence : ℕ) → Option ℕ
seek_base file zero = some 0
seek_base file (suc zero) = some file.position
seek_base file (suc (suc zero)) = some file.inode.size
seek_base file (suc (suc (suc whence))) = none

unfoldable pub ramfs_file_seek : File → (offset : ℤ) → (whence : ℕ) → ℤ × File
ramfs_file_seek file offset whence = elim (seek_base file whence) [
  | none ↦ (negsuc 0, file)
  | some base ↦ elim (pos base +ℤ offset) [
    | pos new_pos ↦ (pos new_pos, record file { position = new_pos })
    | negsuc n ↦ (negsuc 0, file)
  ]
]

-- the entries for at most `room` of the nodes; `none` where a name overruns its field
unfoldable pub list_entries : RamfsFsData → (room : ℕ) → List ℕ → Option (List Dirent)
list_entries fs zero nodes = some []
list_entries fs (suc room) [] = some []
list_entries fs (suc room) (child ∷ rest) =
    let later = list_entries fs room rest in
    let n = fs.node child in
    if leb vfs_max_name (length n.name) then none else elim later [
      | none ↦ none
      | some entries ↦ some (
          record {
            ino = n.ino;
            file_type = bit_and n.mode 61440;
            name_len = length n.name;
            name = n.name;
          }
          ∷ entries)
    ]

-- `room` is the number of entries that fit the buffer. With the entries, the offset behind them is returned.
unfoldable pub ramfs_dir_readdir :
    RamfsFsData → File → (room offset : ℕ) → Option (ℤ × (List Dirent × ℕ))
ramfs_dir_readdir fs file room offset =
    let n = fs.node file.inode.node in
    if not (is_directory n)
    then some (negsuc 0, ([], offset))
    else elim (list_entries fs room (drop offset n.children)) [
      | none ↦ none
      | some entries ↦ some (pos (length entries), (entries, offset + length entries))
    ]

abbrev pub inode_of : RamfsFsData → ℕ → Inode
inode_of fs i =
    let n = fs.node i in
    record {
      ino = n.ino;
      mode = n.mode;
      size = n.size;
      blocks = 0;
      created_time = n.created_time;
      modified_time = n.modified_time;
      accessed_time = n.accessed_time;
      node = i;
      ref_count = 1;
    }

unfoldable pub ramfs_dir_lookup :
    RamfsFsData → (parent : Inode) → (name : Str) → (granted : Bool) → Option Inode
ramfs_dir_lookup fs parent name granted = elim (ramfs_find_node fs parent.node name) [
  | none ↦ none
  | some child ↦ if granted then some (inode_of fs child) else none
]
