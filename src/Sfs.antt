-- ===== src/Sfs.antt =====
-- The Simple File System, src/fs/sfs/sfs_core.c with src/include/sfs.h: what is stored on the disk, and how
-- it is laid out in bytes. `D` is the state of the block device; its functions are an argument. Text output
-- and the statistics of the device are left out.
pub mod Codec
pub mod Blocks
pub mod Inodes
pub mod Disk
mod Tests
use build_your_own_os.Prelude.{
  ℕ, zero, suc, ◌+◌, ◌*◌, ◌/◌, ◌%◌, Bool, Option, List, [], ◌∷◌, ◌++◌, ◌==◌, if◌then◌else◌, get_or,
  take, drop, ℤ, pos, negsuc,
}
use build_your_own_os.Ramfs.{vfs_success, vfs_error}

abbrev pub sfs_magic : ℕ
sfs_magic = 0x53465300

abbrev pub sfs_version : ℕ
sfs_version = 1

abbrev pub sfs_block_size : ℕ
sfs_block_size = 4096

abbrev pub sfs_bitmap_start : ℕ
sfs_bitmap_start = 1

-- sizeof(struct sfs_inode), and how many fit a block
abbrev pub inode_size : ℕ
inode_size = 88

abbrev pub sfs_inodes_per_block : ℕ
sfs_inodes_per_block = 46

abbrev pub vfs_eio : ℤ
vfs_eio = negsuc 7

-- block_device_read and block_device_write: the bytes of a block, or an error; and whether a write succeeded
pub record Device (D : Type 0) : Type 0 where
  pub read : D → (block : ℕ) → Option (List ℕ)
  pub write : D → (block : ℕ) → (bytes : List ℕ) → Bool × D

pub record Superblock : Type 0 where
  pub magic : ℕ
  pub version : ℕ
  pub block_size : ℕ
  pub total_blocks : ℕ
  pub inode_blocks : ℕ
  pub data_blocks : ℕ
  pub free_blocks : ℕ
  pub free_inodes : ℕ
  pub root_inode : ℕ
  pub first_data_block : ℕ
  pub bitmap_blocks : ℕ
  pub created_time : ℕ
  pub modified_time : ℕ
  pub mount_count : ℕ
  pub label : List ℕ
  pub reserved : List ℕ

-- `reserved` is four bytes, and stands here as one word.
pub record SfsInode : Type 0 where
  pub mode : ℕ
  pub size : ℕ
  pub blocks : ℕ
  pub direct : List ℕ
  pub indirect : ℕ
  pub created_time : ℕ
  pub modified_time : ℕ
  pub accessed_time : ℕ
  pub links : ℕ
  pub flags : ℕ
  pub reserved : ℕ

-- A 32-bit word, the lowest byte first.
abbrev pub word_bytes : ℕ → List ℕ
word_bytes w = w % 256 ∷ w / 256 % 256 ∷ w / 65536 % 256 ∷ w / 16777216 % 256 ∷ []

abbrev pub encode_words : List ℕ → List ℕ
encode_words [] = []
encode_words (w ∷ ws) = word_bytes w ++ encode_words ws

abbrev pub decode_words : (n : ℕ) → List ℕ → List ℕ
decode_words zero bytes = []
decode_words (suc n) (a ∷ b ∷ c ∷ d ∷ bytes) =
    (a + 256 * b + 65536 * c + 16777216 * d) ∷ decode_words n bytes
decode_words (suc n) bytes = []

abbrev pub inode_words : SfsInode → List ℕ
inode_words i =
    i.mode ∷ i.size ∷ i.blocks ∷ i.direct
    ++ i.indirect ∷ i.created_time ∷ i.modified_time ∷ i.accessed_time ∷ i.links ∷ i.flags
      ∷ i.reserved ∷ []

abbrev pub inode_of_words : List ℕ → SfsInode
inode_of_words ws =
    let rest = drop 12 (drop 3 ws) in
    record {
      mode = get_or ws 0 0;
      size = get_or ws 1 0;
      blocks = get_or ws 2 0;
      direct = take 12 (drop 3 ws);
      indirect = get_or rest 0 0;
      created_time = get_or rest 1 0;
      modified_time = get_or rest 2 0;
      accessed_time = get_or rest 3 0;
      links = get_or rest 4 0;
      flags = get_or rest 5 0;
      reserved = get_or rest 6 0;
    }

unfoldable pub inode_bytes : SfsInode → List ℕ
inode_bytes i = encode_words (inode_words i)

unfoldable pub inode_of_bytes : List ℕ → SfsInode
inode_of_bytes bytes = inode_of_words (decode_words 22 bytes)

abbrev pub superblock_words : Superblock → List ℕ
superblock_words sb =
    sb.magic ∷ sb.version ∷ sb.block_size ∷ sb.total_blocks ∷ sb.inode_blocks ∷ sb.data_blocks
    ∷ sb.free_blocks ∷ sb.free_inodes ∷ sb.root_inode ∷ sb.first_data_block ∷ sb.bitmap_blocks
    ∷ sb.created_time ∷ sb.modified_time ∷ sb.mount_count ∷ []

unfoldable pub superblock_bytes : Superblock → List ℕ
superblock_bytes sb = encode_words (superblock_words sb) ++ sb.label ++ sb.reserved

-- from the words and what stands behind them
abbrev pub superblock_of_words : (ws rest : List ℕ) → Superblock
superblock_of_words ws rest = record {
  magic = get_or ws 0 0;
  version = get_or ws 1 0;
  block_size = get_or ws 2 0;
  total_blocks = get_or ws 3 0;
  inode_blocks = get_or ws 4 0;
  data_blocks = get_or ws 5 0;
  free_blocks = get_or ws 6 0;
  free_inodes = get_or ws 7 0;
  root_inode = get_or ws 8 0;
  first_data_block = get_or ws 9 0;
  bitmap_blocks = get_or ws 10 0;
  created_time = get_or ws 11 0;
  modified_time = get_or ws 12 0;
  mount_count = get_or ws 13 0;
  label = take 32 rest;
  reserved = drop 32 rest;
}

unfoldable pub superblock_of_bytes : List ℕ → Superblock
superblock_of_bytes bytes = superblock_of_words (decode_words 14 bytes) (drop 56 bytes)

unfoldable pub sfs_validate_superblock : Superblock → ℤ
sfs_validate_superblock sb =
    if sb.magic == sfs_magic
    then (if sb.version == sfs_version
        then (if sb.block_size == sfs_block_size then vfs_success else vfs_error)
        else vfs_error)
    else vfs_error

-- memcpy of `values` to `offset` in a block
abbrev pub put_bytes : (bytes : List ℕ) → (offset : ℕ) → (values : List ℕ) → List ℕ
put_bytes [] offset values = []
put_bytes (x ∷ bytes) zero [] = x ∷ bytes
put_bytes (x ∷ bytes) zero (d ∷ values) = d ∷ put_bytes bytes 0 values
put_bytes (x ∷ bytes) (suc offset) values = x ∷ put_bytes bytes offset values
