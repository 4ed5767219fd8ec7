-- ===== src/Block/Ramdisk.antt =====
-- The RAM disk, src/fs/block/ramdisk.c. `memory` is an address, NULL is 0.
use build_your_own_os.Prelude.{
  is_success, ℕ, zero, suc, ◌+◌, ◌*◌, ◌/◌, ◌%◌, ◌^◌, Bool, ◌||◌, not, Option, none, some, List, ltb,
  leb, ◌==◌, if◌then◌else◌, ℤ, length,
}
use build_your_own_os.Text.{Mem, store, memcpy}
use build_your_own_os.Block.{
  BlockOps, BlockDevice, block_success, block_einval, block_eio, block_device_register,
}

abbrev pub block_size_4096 : ℕ
block_size_4096 = 4096

pub record RamdiskData : Type 0 where
  pub memory : ℕ
  pub size : ℕ
  pub block_size : ℕ
  pub num_blocks : ℕ

-- The disk's data, if it has memory.
abbrev pub disk_of : Option RamdiskData → Option RamdiskData
disk_of none = none
disk_of (some disk) = if disk.memory == 0 then none else some disk

-- Offsets are products of 32-bit numbers, and wrap.
unfoldable pub ramdisk_read_block : Option RamdiskData → (block_num buffer : ℕ) → Mem → ℤ × Mem
ramdisk_read_block private_data block_num buffer mem =
    if buffer == 0 then (block_einval, mem) else elim (disk_of private_data) [
      | none ↦ (block_eio, mem)
      | some disk ↦ if leb disk.num_blocks block_num then (block_einval, mem) else (
        block_success,
        memcpy mem buffer (disk.memory + block_num * disk.block_size % 2 ^ 32) disk.block_size,
      )
    ]

unfoldable pub ramdisk_write_block : Option RamdiskData → (block_num buffer : ℕ) → Mem → ℤ × Mem
ramdisk_write_block private_data block_num buffer mem =
    if buffer == 0 then (block_einval, mem) else elim (disk_of private_data) [
      | none ↦ (block_eio, mem)
      | some disk ↦ if leb disk.num_blocks block_num then (block_einval, mem) else (
        block_success,
        memcpy mem (disk.memory + block_num * disk.block_size % 2 ^ 32) buffer disk.block_size,
      )
    ]

unfoldable pub ramdisk_read_blocks :
    Option RamdiskData → (start_block count buffer : ℕ) → Mem → ℤ × Mem
ramdisk_read_blocks private_data start_block count buffer mem =
    if buffer == 0 || count == 0 then (block_einval, mem) else elim (disk_of private_data) [
      | none ↦ (block_eio, mem)
      | some disk ↦
          if ltb disk.num_blocks ((start_block + count) % 2 ^ 32) then (block_einval, mem) else (
            block_success,
            memcpy mem buffer (disk.memory + start_block * disk.block_size % 2 ^ 32)
                (count * disk.block_size % 2 ^ 32),
          )
    ]

unfoldable pub ramdisk_write_blocks :
    Option RamdiskData → (start_block count buffer : ℕ) → Mem → ℤ × Mem
ramdisk_write_blocks private_data start_block count buffer mem =
    if buffer == 0 || count == 0 then (block_einval, mem) else elim (disk_of private_data) [
      | none ↦ (block_eio, mem)
      | some disk ↦
          if ltb disk.num_blocks ((start_block + count) % 2 ^ 32) then (block_einval, mem) else (
            block_success,
            memcpy mem (disk.memory + start_block * disk.block_size % 2 ^ 32) buffer
                (count * disk.block_size % 2 ^ 32),
          )
    ]

unfoldable pub ramdisk_sync : Option RamdiskData → Mem → ℤ × Mem
ramdisk_sync private_data mem = (block_success, mem)

abbrev pub ramdisk_ops : BlockOps RamdiskData
ramdisk_ops = record {
  read_block = some ramdisk_read_block;
  write_block = some ramdisk_write_block;
  read_blocks = some ramdisk_read_blocks;
  write_blocks = some ramdisk_write_blocks;
  sync = some ramdisk_sync;
}

-- the device that `ramdisk_create` sets up for `memory`
abbrev pub new_ramdisk : (name : List ℕ) → (size memory : ℕ) → BlockDevice RamdiskData
new_ramdisk name size memory = record {
  name = name;
  device_type = 0;
  block_size = block_size_4096;
  num_blocks = size / block_size_4096 % 2 ^ 32;
  flags = 3;
  ops = some ramdisk_ops;
  private_data = some (record {
    memory = memory;
    size = size;
    block_size = block_size_4096;
    num_blocks = size / block_size_4096 % 2 ^ 32;
  });
  reads = 0;
  writes = 0;
  bytes_read = 0;
  bytes_written = 0;
}

-- the loop of `ramdisk_format_test`
unfoldable pub fill_pattern : (rounds : ℕ) → Mem → (memory i : ℕ) → Mem
fill_pattern zero mem memory i = mem
fill_pattern (suc rounds) mem memory i =
    fill_pattern rounds (store mem (memory + i) (i % 2 ^ 8)) memory (i + 1)

unfoldable pub ramdisk_format_test : BlockDevice RamdiskData → Mem → ℤ × Mem
ramdisk_format_test dev mem =
    if not (dev.device_type == 0) then (block_einval, mem) else elim (disk_of dev.private_data) [
      | none ↦ (block_eio, mem)
      | some disk ↦ (block_success, fill_pattern disk.size mem disk.memory 0)
    ]

-- `structs` says whether both calls of `kmalloc` returned memory, and `memory` is what `memory_alloc`
-- returned. The outer `none` is a name so long that `strncpy` overwrites the whole memory.
unfoldable pub ramdisk_create :
    List (BlockDevice RamdiskData) × ℕ
    → Option (List ℕ)
    → (size : ℕ) → (structs : Bool) → (memory : ℕ)
    → Option (Option (BlockDevice RamdiskData) × List (BlockDevice RamdiskData) × ℕ)
ramdisk_create registry none size structs memory = some (none, registry.0, registry.1)
ramdisk_create registry (some name) size structs memory =
    if size == 0 || not structs || memory == 0
    then some (none, registry.0, registry.1)
    else if leb 63 (length name)
    then none
    else (let dev = new_ramdisk name size memory in
        let r = block_device_register registry dev in
        some (if is_success r.0 then some dev else none, r.1, r.2))
