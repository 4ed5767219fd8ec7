-- ===== src/Block/Multi.antt =====
-- Several blocks at once: the bound on the blocks is a sum of 32 bits.
use build_your_own_os.Prelude.{
  ℕ, ◌+◌, ◌-◌, ◌*◌, ◌%◌, ◌^◌, ◌≤◌, ◌<◌, ◌≡◌, ap, false, ◌||◌, some, arith, ltb, ◌==◌,
}
use build_your_own_os.Text.{Mem, memcpy}
use build_your_own_os.Block.{
  BlockDevice, block_success, block_device_write_blocks, count_writes, write_blocks_op,
}
use build_your_own_os.Block.Ramdisk.{RamdiskData, ramdisk_write_blocks}
use build_your_own_os.Block.Disk.{IsRamdisk}

module _ (dev : BlockDevice RamdiskData) (base n size : ℕ) (d : IsRamdisk dev base n size)
    (mem : Mem) (start count buffer : ℕ) (given : 0 < buffer) (some_blocks : 0 < count)
    (passes : (start + count) % 2 ^ 32 ≤ n) where
  ramdisk_write_blocks-copy :
      ramdisk_write_blocks dev.private_data start count buffer mem
      ≡ (block_success, memcpy mem (base + start * 4096 % 2 ^ 32) buffer (count * 4096 % 2 ^ 32))
  unfolding ramdisk_write_blocks
  ramdisk_write_blocks-copy =
      let there : (buffer == 0 || count == 0) ≡ false = ground arith in
      let disk_there : (base == 0) ≡ false = ground (arith, d.based) in
      let inside : ltb n ((start + count) % 2 ^ 32) ≡ false = ground arith in
      rw (there, d.disk, disk_there, inside)

  -- What passes the tests of `block_device_write_blocks` on a RAM disk is copied.
  pub block_device_write_blocks-copy : block_device_write_blocks dev mem start count buffer ≡ (
    block_success,
    count_writes dev count,
    memcpy mem (base + start * 4096 % 2 ^ 32) buffer (count * 4096 % 2 ^ 32),
  )
  unfolding block_device_write_blocks
  block_device_write_blocks-copy =
      let run = ramdisk_write_blocks-copy in
      let there : (buffer == 0 || count == 0) ≡ false = ground arith in
      let inside : ltb dev.num_blocks ((start + count) % 2 ^ 32) ≡ false =
        ground (arith, d.blocks) in
      let op : write_blocks_op dev.ops ≡ some ramdisk_write_blocks = ap write_blocks_op d.ops in
      ground (arith, op, run, there, inside)

-- A write of two blocks that starts at the last number of 32 bits passes the bound of every RAM disk of
-- less than 4 GB with a block, and goes to the 8192 bytes from 2 ^ 32 - 4096 behind the start of the
-- disk, which are not part of it.
pub block_device_write_blocks_wraps :
    (dev : BlockDevice RamdiskData) (base n size : ℕ)
    → IsRamdisk dev base n size
    → 0 < n
    → (mem : Mem) (buffer : ℕ) → 0 < buffer
    → (block_device_write_blocks dev mem (2 ^ 32 - 1) 2 buffer
        ≡ (block_success, count_writes dev 2, memcpy mem (base + (2 ^ 32 - 4096)) buffer 8192))
      × (base + n * 4096 ≤ base + (2 ^ 32 - 4096))
block_device_write_blocks_wraps dev base n size d some_block mem buffer given = (
  block_device_write_blocks-copy dev base n size d mem (2 ^ 32 - 1) 2 buffer given (omega arith)
      (omega arith),
  omega (arith, d.small),
)
