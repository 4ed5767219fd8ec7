-- ===== src/Sfs/Blocks.antt =====
-- The blocks of the Simple File System and their bitmap, src/fs/sfs/sfs_core.c. The bitmap in memory has
-- `bitmap_blocks` blocks; a bit behind its end reads as 0. `granted` says whether `kmalloc` returned memory.
pub mod Search
pub mod Laws
pub mod Free
pub mod Mirror
use build_your_own_os.Prelude.{
  ℕ, zero, suc, ◌+◌, ◌-◌, ◌*◌, ◌/◌, ◌%◌, ◌^◌, Bool, true, false, ◌||◌, not, Option, none, some,
  List, [], ◌∷◌, ◌++◌, ltb, leb, ◌==◌, if◌then◌else◌, get_or, set, replicate, take, drop, ℤ, pos,
  negsuc, is_success, with_bit, without_bit, bitmap_bit,
}
use build_your_own_os.Ramfs.{vfs_success, vfs_einval}
use build_your_own_os.Sfs.{
  Device, Superblock, superblock_bytes, superblock_of_bytes, sfs_validate_superblock,
  sfs_block_size, sfs_bitmap_start, vfs_eio,
}

-- the cached superblock, the device and the bitmap
pub record SfsFsData (D : Type 0) : Type 0 where
  pub superblock : Superblock
  pub device : D
  pub block_bitmap : List ℕ

abbrev pub sfs_test_bit : (bitmap : List ℕ) → (bit : ℕ) → Bool
sfs_test_bit = bitmap_bit

unfoldable pub sfs_set_bit : (bitmap : List ℕ) → (bit : ℕ) → List ℕ
sfs_set_bit bitmap bit = set bitmap (bit / 8) (with_bit (get_or bitmap (bit / 8) 0) (bit % 8))

unfoldable pub sfs_clear_bit : (bitmap : List ℕ) → (bit : ℕ) → List ℕ
sfs_clear_bit bitmap bit =
    set bitmap (bit / 8) (without_bit 8 (get_or bitmap (bit / 8) 0) (bit % 8))

-- (uint32_t)-1
abbrev pub no_bit : ℕ
no_bit = 0xFFFFFFFF

-- the loop from `i` on
unfoldable pub find_bit : (rounds : ℕ) → (bitmap : List ℕ) → (i : ℕ) → ℕ
find_bit zero bitmap i = no_bit
find_bit (suc rounds) bitmap i =
    let later = find_bit rounds bitmap (i + 1) in if not (sfs_test_bit bitmap i) then i else later

unfoldable pub sfs_find_free_bit : (bitmap : List ℕ) → (size : ℕ) → ℕ
sfs_find_free_bit bitmap size = find_bit size bitmap 0

abbrev pub result_of_write : Bool → ℤ
result_of_write done = if done then vfs_success else vfs_eio

abbrev pub mark_block : {D : Type 0} → SfsFsData D → (block_num : ℕ) → SfsFsData D
mark_block s block_num = record s {
  block_bitmap = sfs_set_bit s.block_bitmap block_num;
  superblock = record s.superblock {
    free_blocks = (s.superblock.free_blocks + 2 ^ 32 - 1) % 2 ^ 32;
  };
}

abbrev pub unmark_block : {D : Type 0} → SfsFsData D → (block_num : ℕ) → SfsFsData D
unmark_block s block_num = record s {
  block_bitmap = sfs_clear_bit s.block_bitmap block_num;
  superblock = record s.superblock { free_blocks = (s.superblock.free_blocks + 1) % 2 ^ 32 };
}

module _ {D : Type 0} (dev : Device D) where
  unfoldable pub sfs_read_superblock : D → Option Superblock
  sfs_read_superblock d = elim (dev.read d 0) [
    | none ↦ none
    | some bytes ↦ some (superblock_of_bytes bytes)
  ]

  unfoldable pub sfs_write_superblock : D → Superblock → ℤ × D
  sfs_write_superblock d sb =
      let (done, d1) = dev.write d 0 (superblock_bytes sb) in (result_of_write done, d1)

  -- `some none` is a read that failed, and `none` a block that is not there.
  unfoldable pub sfs_read_block : SfsFsData D → (block_num : ℕ) → Option (Option (List ℕ))
  sfs_read_block s block_num =
      if leb s.superblock.total_blocks block_num then none else some (dev.read s.device block_num)

  unfoldable pub sfs_write_block :
      SfsFsData D → (block_num : ℕ) → (bytes : List ℕ) → ℤ × SfsFsData D
  sfs_write_block s block_num bytes =
      if leb s.superblock.total_blocks block_num
      then (vfs_einval, s)
      else (let (done, d) = dev.write s.device block_num bytes in
          (result_of_write done, record s { device = d }))

  unfoldable pub sfs_sync_superblock : SfsFsData D → ℤ × SfsFsData D
  sfs_sync_superblock s =
      let (result, d) = sfs_write_superblock s.device s.superblock in
      (result, record s { device = d })

  -- the block of the bitmap that has the bit
  unfoldable pub sfs_flush_bitmap_bit : SfsFsData D → (bit_index : ℕ) → ℤ × SfsFsData D
  sfs_flush_bitmap_bit s bit_index =
      let bitmap_block = bit_index / (sfs_block_size * 8) in
      if leb s.superblock.bitmap_blocks bitmap_block
      then (vfs_einval, s)
      else (let (done, d) =
            dev.write s.device (sfs_bitmap_start + bitmap_block)
              (take sfs_block_size (drop (bitmap_block * sfs_block_size) s.block_bitmap)) in
          (result_of_write done, record s { device = d }))

  -- the zeros for the new block
  unfoldable pub clear_block : SfsFsData D → (block_num : ℕ) → (granted : Bool) → SfsFsData D
  clear_block s block_num granted =
      if granted then (sfs_write_block s block_num (replicate sfs_block_size 0)).1 else s

  unfoldable pub sfs_alloc_block : SfsFsData D → (granted : Bool) → ℕ × SfsFsData D
  sfs_alloc_block s granted =
      let block_num = sfs_find_free_bit s.block_bitmap s.superblock.total_blocks in
      if block_num == no_bit || leb s.superblock.total_blocks block_num
      then (0, s)
      else (let (result, s1) = sfs_flush_bitmap_bit (mark_block s block_num) block_num in
          if is_success result
          then (block_num, clear_block (sfs_sync_superblock s1).1 block_num granted)
          else (0, unmark_block s1 block_num))

  unfoldable pub sfs_free_block : SfsFsData D → (block_num : ℕ) → SfsFsData D
  sfs_free_block s block_num =
      if block_num == 0
      then s
      else if leb s.superblock.total_blocks block_num
      then s
      else (sfs_sync_superblock (sfs_flush_bitmap_bit (unmark_block s block_num) block_num).1).1

  -- The blocks of the bitmap, from block `i` of it on, into an allocation of `size` bytes: `none` is a fault, a
  -- copy behind its end, and `some none` a read that failed.
  unfoldable pub read_bitmap : (rounds : ℕ) → D → (size i : ℕ) → Option (Option (List ℕ))
  read_bitmap zero d size i = some (some [])
  read_bitmap (suc rounds) d size i =
      let later = read_bitmap rounds d size (i + 1) in
      if ltb size ((i + 1) * sfs_block_size)
      then none
      else elim (dev.read d (sfs_bitmap_start + i)) [
        | none ↦ some none
        | some bytes ↦ elim later [
          | none ↦ none
          | some none ↦ some none
          | some (some rest) ↦ some (some (bytes ++ rest))
        ]
      ]

  -- The instance, or `some none` for NULL; `none` is a fault. `granted` says whether there is memory for the three
  -- calls of kmalloc, which returns NULL for no bytes. The size of the bitmap has 32 bits.
  unfoldable pub sfs_mount : D → (granted : Bool) → Option (Option (SfsFsData D))
  sfs_mount d granted = if not granted then some none else elim (sfs_read_superblock d) [
    | none ↦ some none
    | some sb ↦
        let bitmap_size = sb.bitmap_blocks * sfs_block_size % 2 ^ 32 in
        if not (is_success (sfs_validate_superblock sb)) || bitmap_size == 0
        then some none
        else elim (read_bitmap sb.bitmap_blocks d bitmap_size 0) [
          | none ↦ none
          | some none ↦ some none
          | some (some bitmap) ↦ some (
              some (
                (sfs_sync_superblock (record {
                  superblock = record sb { mount_count = (sb.mount_count + 1) % 2 ^ 32 };
                  device = d;
                  block_bitmap = bitmap;
                })).1))
        ]
  ]
