-- ===== src/Sfs/Inodes.antt =====
-- Inodes on the disk and in memory, src/fs/sfs/sfs_core.c. `granted` says whether `kmalloc` returned memory,
-- or both calls of it.
pub mod Place
pub mod Laws
use build_your_own_os.Prelude.{
  ℕ, zero, suc, ◌+◌, ◌-◌, ◌*◌, ◌/◌, ◌%◌, ◌^◌, Bool, true, false, ◌||◌, not, Option, none, some,
  List, [], ◌∷◌, leb, ◌==◌, if◌then◌else◌, get_or, replicate, take, drop, ℤ, pos, negsuc,
  is_success, has_bit, bit_and, bit_or,
}
use build_your_own_os.Ramfs.{vfs_success, vfs_einval, vfs_enomem}
use build_your_own_os.Sfs.{
  Device, Superblock, SfsInode, decode_words, inode_bytes, inode_of_bytes, put_bytes, inode_size,
  sfs_inodes_per_block, vfs_eio,
}
use build_your_own_os.Sfs.Blocks.{SfsFsData, sfs_read_block, sfs_write_block, sfs_sync_superblock}

-- struct inode with its `private_data`, struct sfs_inode_data
pub record SfsVfsInode : Type 0 where
  pub ino : ℕ
  pub mode : ℕ
  pub size : ℕ
  pub blocks : ℕ
  pub created_time : ℕ
  pub modified_time : ℕ
  pub accessed_time : ℕ
  pub disk_inode : SfsInode
  pub inode_num : ℕ
  pub dirty : Bool

pub data Reading (A : Type 0) : Type 0 where
  failed : ℤ → Reading A
  got : A → Reading A

-- the block of an inode, and its place there
unfoldable pub sfs_inode_location : Superblock → (inode_num : ℕ) → Option (ℕ × ℕ)
sfs_inode_location sb inode_num =
    if inode_num == 0
    then none
    else (let index = inode_num - 1 in
        let block_index = index / sfs_inodes_per_block in
        if leb sb.inode_blocks block_index
        then none
        else some (
          ((sb.first_data_block + 2 ^ 32 - sb.inode_blocks) % 2 ^ 32 + block_index) % 2 ^ 32,
          index % sfs_inodes_per_block,
        ))

-- the bytes of inode `entry` in a block
abbrev pub inode_slice : (bytes : List ℕ) → (entry : ℕ) → List ℕ
inode_slice bytes entry = take inode_size (drop (entry * inode_size) bytes)

abbrev pub empty_inode : SfsInode
empty_inode = record {
  mode = 0;
  size = 0;
  blocks = 0;
  direct = replicate 12 0;
  indirect = 0;
  created_time = 0;
  modified_time = 0;
  accessed_time = 0;
  links = 0;
  flags = 0;
  reserved = 0;
}

abbrev pub new_inode : (mode : ℕ) → SfsInode
new_inode mode = record empty_inode { mode = mode; links = 1 }

unfoldable pub sfs_mode_to_vfs : ℕ → ℕ
sfs_mode_to_vfs sfs_mode =
    bit_or (if has_bit sfs_mode 14 then 0x4000 else if has_bit sfs_mode 15 then 0x8000 else 0x1000)
      (bit_and sfs_mode 0x0FFF)

unfoldable pub sfs_allocate_vfs_inode :
    (inode_num : ℕ) → SfsInode → (granted : Bool) → Option SfsVfsInode
sfs_allocate_vfs_inode inode_num disk_inode granted =
    if granted
    then some (record {
      ino = inode_num;
      mode = sfs_mode_to_vfs disk_inode.mode;
      size = disk_inode.size;
      blocks = disk_inode.blocks;
      created_time = disk_inode.created_time;
      modified_time = disk_inode.modified_time;
      accessed_time = disk_inode.accessed_time;
      disk_inode = disk_inode;
      inode_num = inode_num;
      dirty = false;
    })
    else none

unfoldable pub sfs_calculate_mode : (requested_mode type_flag : ℕ) → ℕ
sfs_calculate_mode requested_mode type_flag =
    let readable = if has_bit requested_mode 8 then bit_or type_flag 4 else type_flag in
    let writable = if has_bit requested_mode 7 then bit_or readable 2 else readable in
    if has_bit requested_mode 6 then bit_or writable 1 else writable

-- from the inode in memory to the one for the disk
abbrev pub sfs_sync_inode_data_safe : SfsVfsInode → SfsInode
sfs_sync_inode_data_safe inode = record inode.disk_inode {
  size = inode.size;
  blocks = inode.blocks;
  modified_time = inode.modified_time;
  accessed_time = inode.accessed_time;
}

-- the first entry from `entry` on that has the mode 0
unfoldable pub free_entry : (rounds : ℕ) → (bytes : List ℕ) → (entry : ℕ) → Option ℕ
free_entry zero bytes entry = none
free_entry (suc rounds) bytes entry =
    let later = free_entry rounds bytes (entry + 1) in
    if (inode_of_bytes (inode_slice bytes entry)).mode == 0 then some entry else later

module _ {D : Type 0} (dev : Device D) where
  unfoldable pub sfs_read_inode_raw :
      SfsFsData D → (inode_num : ℕ) → (granted : Bool) → Reading SfsInode
  sfs_read_inode_raw s inode_num granted = elim (sfs_inode_location s.superblock inode_num) [
    | none ↦ failed vfs_einval
    | some (block_num, entry) ↦
        if not granted then failed vfs_enomem else elim (sfs_read_block dev s block_num) [
          | none ↦ failed vfs_einval
          | some none ↦ failed vfs_eio
          | some (some bytes) ↦ got (inode_of_bytes (inode_slice bytes entry))
        ]
  ]

  unfoldable pub sfs_write_inode_raw :
      SfsFsData D → (inode_num : ℕ) → SfsInode → (granted : Bool) → ℤ × SfsFsData D
  sfs_write_inode_raw s inode_num inode granted = elim (sfs_inode_location s.superblock inode_num) [
    | none ↦ (vfs_einval, s)
    | some (block_num, entry) ↦
        if not granted then (vfs_enomem, s) else elim (sfs_read_block dev s block_num) [
          | none ↦ (vfs_einval, s)
          | some none ↦ (vfs_eio, s)
          | some (some bytes) ↦
              sfs_write_block dev s block_num
                (put_bytes bytes (entry * inode_size) (inode_bytes inode))
        ]
  ]

  unfoldable pub sfs_get_inode :
      SfsFsData D → (inode_num : ℕ) → (read_granted granted : Bool) → Option SfsVfsInode
  sfs_get_inode s inode_num read_granted granted =
      elim (sfs_read_inode_raw s inode_num read_granted) [
        | failed e ↦ none
        | got disk_inode ↦
            if disk_inode.mode == 0
            then none
            else sfs_allocate_vfs_inode inode_num disk_inode granted
      ]

  -- from the free entry of a block on
  unfoldable pub take_entry :
      SfsFsData D
      → (block_num inode_num entry : ℕ) → (bytes : List ℕ) → (mode : ℕ) → (granted : Bool)
      → Option SfsVfsInode × SfsFsData D
  take_entry s block_num inode_num entry bytes mode granted =
      let (result, s1) =
        sfs_write_block dev s block_num
          (put_bytes bytes (entry * inode_size) (inode_bytes (new_inode mode))) in
      if not (is_success result)
      then (none, s1)
      else (let s2 = record s1 {
        superblock = record s1.superblock { free_inodes = s1.superblock.free_inodes - 1 };
      } in
          (
            sfs_allocate_vfs_inode inode_num (new_inode mode) granted,
            (sfs_sync_superblock dev s2).1,
          ))

  -- the loop over the blocks of inodes
  unfoldable pub alloc_in_blocks :
      (rounds : ℕ)
      → SfsFsData D
      → (block_index mode : ℕ) → (granted : Bool) → Option SfsVfsInode × SfsFsData D
  alloc_in_blocks zero s block_index mode granted = (none, s)
  alloc_in_blocks (suc rounds) s block_index mode granted =
      let later = alloc_in_blocks rounds s (block_index + 1) mode granted in
      let block_num =
        ((s.superblock.first_data_block + 2 ^ 32 - s.superblock.inode_blocks) % 2 ^ 32
          + block_index)
        % 2 ^ 32 in
      elim (sfs_read_block dev s block_num) [
        | none ↦ later
        | some none ↦ later
        | some (some bytes) ↦ elim (free_entry sfs_inodes_per_block bytes 0) [
          | none ↦ later
          | some entry ↦
              take_entry s block_num (block_index * sfs_inodes_per_block + entry + 1) entry bytes
                mode granted
        ]
      ]

  -- The number of inodes is taken to fit 32 bits.
  unfoldable pub sfs_alloc_inode :
      SfsFsData D → (mode : ℕ) → (buffer_granted granted : Bool) → Option SfsVfsInode × SfsFsData D
  sfs_alloc_inode s mode buffer_granted granted =
      if buffer_granted
      then alloc_in_blocks s.superblock.inode_blocks s 0 mode granted
      else (none, s)

  unfoldable pub sfs_free_inode : SfsFsData D → SfsVfsInode → (granted : Bool) → SfsFsData D
  sfs_free_inode s inode granted =
      let s1 = (sfs_write_inode_raw s inode.ino empty_inode granted).1 in
      (sfs_sync_superblock dev (record s1 {
        superblock = record s1.superblock {
          free_inodes = (s1.superblock.free_inodes + 1) % 2 ^ 32;
        };
      })).1

  unfoldable pub sfs_sync_inode :
      SfsFsData D → SfsVfsInode → (granted : Bool) → ℤ × (SfsVfsInode × SfsFsData D)
  sfs_sync_inode s inode granted =
      if not inode.dirty
      then (vfs_success, (inode, s))
      else (let disk = sfs_sync_inode_data_safe inode in
          let (result, s1) = sfs_write_inode_raw s inode.inode_num disk granted in
          (result, (record inode { disk_inode = disk; dirty = not (is_success result) }, s1)))

  unfoldable pub sfs_put_inode : SfsFsData D → SfsVfsInode → (granted : Bool) → ℤ × SfsFsData D
  sfs_put_inode s inode granted = let (result, r) = sfs_sync_inode s inode granted in (result, r.1)
