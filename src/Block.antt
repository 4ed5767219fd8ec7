-- ===== src/Block.antt =====
-- Block devices, src/fs/block/block_device.c with src/include/block_device.h, and the RAM disk. `P` is
-- what a driver keeps in `private_data`; a driver's operations get it, and memory. A device is a
-- value; the registered devices are the list that `next` links. Text output is left out.
pub mod Ramdisk
pub mod Disk
pub mod Multi
pub mod Registry
pub mod Cache
mod Tests
use build_your_own_os.Prelude.{
  ℕ, zero, suc, ◌+◌, ◌-◌, ◌*◌, ◌%◌, ◌^◌, Bool, true, false, ◌&&◌, ◌||◌, not, Option, none, some,
  List, [], ◌∷◌, ltb, leb, ◌==◌, if◌then◌else◌, has_bit, ℤ, pos, negsuc, length, is_success,
  same_name,
}
use build_your_own_os.Text.{Mem}

abbrev pub block_success : ℤ
block_success = pos 0

abbrev pub block_error : ℤ
block_error = negsuc 0

abbrev pub block_einval : ℤ
block_einval = negsuc 1

abbrev pub block_eio : ℤ
block_eio = negsuc 2

abbrev pub block_eperm : ℤ
block_eperm = negsuc 5

-- The operations of a driver; a missing one is NULL. A buffer is its address.
pub record BlockOps (P : Type 0) : Type 0 where
  pub read_block : Option (Option P → (block_num buffer : ℕ) → Mem → ℤ × Mem)
  pub write_block : Option (Option P → (block_num buffer : ℕ) → Mem → ℤ × Mem)
  pub read_blocks : Option (Option P → (start_block count buffer : ℕ) → Mem → ℤ × Mem)
  pub write_blocks : Option (Option P → (start_block count buffer : ℕ) → Mem → ℤ × Mem)
  pub sync : Option (Option P → Mem → ℤ × Mem)

pub record BlockDevice (P : Type 0) : Type 0 where
  pub name : List ℕ
  pub device_type : ℕ
  pub block_size : ℕ
  pub num_blocks : ℕ
  pub flags : ℕ
  pub ops : Option (BlockOps P)
  pub private_data : Option P
  pub reads : ℕ
  pub writes : ℕ
  pub bytes_read : ℕ
  pub bytes_written : ℕ

-- what an operation returns, with the device and memory after it
abbrev pub Outcome : Type 0 → Type 0
Outcome P = ℤ × BlockDevice P × Mem

module _ {P : Type 0} where
  unfoldable pub block_device_find : List (BlockDevice P) → (name : List ℕ) → Option (BlockDevice P)
  block_device_find [] name = none
  block_device_find (dev ∷ devices) name =
      let rest = block_device_find devices name in
      if same_name dev.name name then some dev else rest

  abbrev pub no_statistics : BlockDevice P → BlockDevice P
  no_statistics dev = record dev { reads = 0; writes = 0; bytes_read = 0; bytes_written = 0 }

  -- the devices and `device_count`
  unfoldable pub block_device_register :
      List (BlockDevice P) × ℕ → BlockDevice P → ℤ × List (BlockDevice P) × ℕ
  block_device_register (devices, device_count) dev = elim dev.ops [
    | none ↦ (block_einval, devices, device_count)
    | some ops ↦
        if length dev.name == 0
        then (block_einval, devices, device_count)
        else elim (block_device_find devices dev.name) [
          | some other ↦ (block_error, devices, device_count)
          | none ↦ (block_success, no_statistics dev ∷ devices, (device_count + 1) % 2 ^ 32)
        ]
  ]

  abbrev pub read_op :
      Option (BlockOps P) → Option (Option P → (block_num buffer : ℕ) → Mem → ℤ × Mem)
  read_op none = none
  read_op (some ops) = ops.read_block

  abbrev pub write_op :
      Option (BlockOps P) → Option (Option P → (block_num buffer : ℕ) → Mem → ℤ × Mem)
  write_op none = none
  write_op (some ops) = ops.write_block

  -- the statistics of `count` blocks read, and written
  abbrev pub count_reads : BlockDevice P → (count : ℕ) → BlockDevice P
  count_reads dev count = record dev {
    reads = (dev.reads + count) % 2 ^ 64;
    bytes_read = (dev.bytes_read + count * dev.block_size % 2 ^ 32) % 2 ^ 64;
  }

  abbrev pub count_writes : BlockDevice P → (count : ℕ) → BlockDevice P
  count_writes dev count = record dev {
    writes = (dev.writes + count) % 2 ^ 64;
    bytes_written = (dev.bytes_written + count * dev.block_size % 2 ^ 32) % 2 ^ 64;
  }

  unfoldable pub block_device_read : BlockDevice P → Mem → (block buffer : ℕ) → Outcome P
  block_device_read dev mem block buffer = elim (read_op dev.ops) [
    | none ↦ (block_einval, dev, mem)
    | some read_block ↦
        if buffer == 0 || leb dev.num_blocks block
        then (block_einval, dev, mem)
        else if not (has_bit dev.flags 0)
        then (block_eperm, dev, mem)
        else (let r = read_block dev.private_data block buffer mem in
            (r.0, if is_success r.0 then count_reads dev 1 else dev, r.1))
  ]

  unfoldable pub block_device_write : BlockDevice P → Mem → (block buffer : ℕ) → Outcome P
  block_device_write dev mem block buffer = elim (write_op dev.ops) [
    | none ↦ (block_einval, dev, mem)
    | some write_block ↦
        if buffer == 0 || leb dev.num_blocks block
        then (block_einval, dev, mem)
        else if not (has_bit dev.flags 1)
        then (block_eperm, dev, mem)
        else (let r = write_block dev.private_data block buffer mem in
            (r.0, if is_success r.0 then count_writes dev 1 else dev, r.1))
  ]

  -- the loop of single-block calls, from block `start_block + i` on
  unfoldable pub each_block :
      (call : BlockDevice P → Mem → (block buffer : ℕ) → Outcome P)
      → (rounds : ℕ) → BlockDevice P
      → Mem
      → (start_block buffer i : ℕ) → Outcome P
  each_block call zero dev mem start_block buffer i = (block_success, dev, mem)
  each_block call (suc rounds) dev mem start_block buffer i =
      let r = call dev mem ((start_block + i) % 2 ^ 32) (buffer + i * dev.block_size % 2 ^ 32) in
      elim (is_success r.0) [
        | true ↦ each_block call rounds r.1 r.2 start_block buffer (i + 1)
        | false ↦ r
      ]

  abbrev pub read_blocks_op :
      Option (BlockOps P) → Option (Option P → (start_block count buffer : ℕ) → Mem → ℤ × Mem)
  read_blocks_op none = none
  read_blocks_op (some ops) = ops.read_blocks

  abbrev pub write_blocks_op :
      Option (BlockOps P) → Option (Option P → (start_block count buffer : ℕ) → Mem → ℤ × Mem)
  write_blocks_op none = none
  write_blocks_op (some ops) = ops.write_blocks

  -- A registered device has operations: `dev->ops` is not NULL.
  unfoldable pub block_device_read_blocks :
      BlockDevice P → Mem → (start_block count buffer : ℕ) → Outcome P
  block_device_read_blocks dev mem start_block count buffer =
      if buffer == 0 || count == 0
      then (block_einval, dev, mem)
      else if ltb dev.num_blocks ((start_block + count) % 2 ^ 32)
      then (block_einval, dev, mem)
      else elim (read_blocks_op dev.ops) [
        | none ↦ each_block block_device_read count dev mem start_block buffer 0
        | some read_blocks ↦
            let r = read_blocks dev.private_data start_block count buffer mem in
            (r.0, if is_success r.0 then count_reads dev count else dev, r.1)
      ]

  unfoldable pub block_device_write_blocks :
      BlockDevice P → Mem → (start_block count buffer : ℕ) → Outcome P
  block_device_write_blocks dev mem start_block count buffer =
      if buffer == 0 || count == 0
      then (block_einval, dev, mem)
      else if ltb dev.num_blocks ((start_block + count) % 2 ^ 32)
      then (block_einval, dev, mem)
      else elim (write_blocks_op dev.ops) [
        | none ↦ each_block block_device_write count dev mem start_block buffer 0
        | some write_blocks ↦
            let r = write_blocks dev.private_data start_block count buffer mem in
            (r.0, if is_success r.0 then count_writes dev count else dev, r.1)
      ]

  abbrev pub sync_op : Option (BlockOps P) → Option (Option P → Mem → ℤ × Mem)
  sync_op none = none
  sync_op (some ops) = ops.sync

  unfoldable pub block_device_sync : BlockDevice P → Mem → ℤ × Mem
  block_device_sync dev mem = elim dev.ops [
    | none ↦ (block_einval, mem)
    | some ops ↦ elim (sync_op dev.ops) [
      | none ↦ (block_success, mem)
      | some sync ↦ sync dev.private_data mem
    ]
  ]

  unfoldable pub block_device_get_size : BlockDevice P → ℕ
  block_device_get_size dev = dev.num_blocks * dev.block_size % 2 ^ 64
