-- ===== src/Block/Disk.antt =====
-- A RAM disk behind the block device layer: what is written to a block is read from it.
use build_your_own_os.Prelude.{
  ℕ, ◌+◌, ◌*◌, ◌%◌, ◌^◌, ◌<◌, ◌≡◌, refl, ◌∙◌, ap, inl, inr, true, false, ◌||◌, some, arith, leb,
  ◌==◌, if◌then◌else◌, has_bit, Bool-cases, ℤ,
}
use build_your_own_os.Text.{Mem, memcpy}
use build_your_own_os.Text.Copy.{within, Apart, memcpy_lem}
use build_your_own_os.Block.{
  BlockDevice, block_success, block_device_read, block_device_write, count_reads, count_writes,
  read_op, write_op,
}
use build_your_own_os.Block.Ramdisk.{
  RamdiskData, ramdisk_ops, ramdisk_read_block, ramdisk_write_block,
}

-- A RAM disk of `n` blocks at `base`, of less than 4 GB in all.
pub record IsRamdisk (dev : BlockDevice RamdiskData) (base n size : ℕ) : Type 0 where
  pub ops : dev.ops ≡ some ramdisk_ops
  pub disk :
      dev.private_data
      ≡ some (record { memory = base; size = size; block_size = 4096; num_blocks = n })
  pub blocks : dev.num_blocks ≡ n
  pub based : 0 < base
  pub small : n * 4096 < 2 ^ 32
  pub readable : has_bit dev.flags 0 ≡ true
  pub writable : has_bit dev.flags 1 ≡ true

-- a buffer of one block outside the disk
pub record IsBuffer (base n buffer : ℕ) : Type 0 where
  pub given : 0 < buffer
  pub apart : Apart buffer 4096 base (n * 4096)

module _ (dev : BlockDevice RamdiskData) (base n size : ℕ) (d : IsRamdisk dev base n size) where
  ramdisk_write_block-copy :
      (mem : Mem) (block buffer : ℕ)
      → block < n
      → 0 < buffer
      → ramdisk_write_block dev.private_data block buffer mem
        ≡ (block_success, memcpy mem (base + block * 4096) buffer 4096)
  unfolding ramdisk_write_block
  ramdisk_write_block-copy mem block buffer low given =
      let offset : block * 4096 % 2 ^ 32 ≡ block * 4096 = omega (arith, d.small) in
      let there : (buffer == 0) ≡ false = ground arith in
      let disk_there : (base == 0) ≡ false = ground (arith, d.based) in
      let inside : leb n block ≡ false = ground arith in
      rw (there, d.disk, disk_there, inside, offset)

  ramdisk_read_block-copy :
      (mem : Mem) (block buffer : ℕ)
      → block < n
      → 0 < buffer
      → ramdisk_read_block dev.private_data block buffer mem
        ≡ (block_success, memcpy mem buffer (base + block * 4096) 4096)
  unfolding ramdisk_read_block
  ramdisk_read_block-copy mem block buffer low given =
      let offset : block * 4096 % 2 ^ 32 ≡ block * 4096 = omega (arith, d.small) in
      let there : (buffer == 0) ≡ false = ground arith in
      let disk_there : (base == 0) ≡ false = ground (arith, d.based) in
      let inside : leb n block ≡ false = ground arith in
      rw (there, d.disk, disk_there, inside, offset)

  pub block_device_write-copy :
      (mem : Mem) (block buffer : ℕ)
      → block < n
      → 0 < buffer
      → block_device_write dev mem block buffer
        ≡ (block_success, count_writes dev 1, memcpy mem (base + block * 4096) buffer 4096)
  unfolding block_device_write
  block_device_write-copy mem block buffer low given =
      let run = ramdisk_write_block-copy mem block buffer low given in
      let guard : (buffer == 0 || leb dev.num_blocks block) ≡ false = ground (arith, d.blocks) in
      let op : write_op dev.ops ≡ some ramdisk_write_block = ap write_op d.ops in
      ground (arith, op, run, guard, d.writable)

  pub block_device_read-copy :
      (mem : Mem) (block buffer : ℕ)
      → block < n
      → 0 < buffer
      → block_device_read dev mem block buffer
        ≡ (block_success, count_reads dev 1, memcpy mem buffer (base + block * 4096) 4096)
  unfolding block_device_read
  block_device_read-copy mem block buffer low given =
      let run = ramdisk_read_block-copy mem block buffer low given in
      let guard : (buffer == 0 || leb dev.num_blocks block) ≡ false = ground (arith, d.blocks) in
      let op : read_op dev.ops ≡ some ramdisk_read_block = ap read_op d.ops in
      ground (arith, op, run, guard, d.readable)

  -- the block of the disk is outside the buffer
  pub block-Apart :
      (block buffer : ℕ)
      → block < n
      → IsBuffer base n buffer
      → Apart buffer 4096 (base + block * 4096) 4096
  block-Apart block buffer low b = from b.apart
    where
      from : Apart buffer 4096 base (n * 4096) → Apart buffer 4096 (base + block * 4096) 4096
      from (inl below) = inl (omega arith)
      from (inr above) = inr (omega arith)

  pub turned : (a b : ℕ) → Apart a 4096 b 4096 → Apart b 4096 a 4096
  turned a b (inl below) = inr below
  turned a b (inr above) = inl above

-- the bytes of block `c` after block `b` is written from `src`
abbrev pub block_byte : Mem → (base b c src i : ℕ) → ℕ
block_byte mem base b c src i = if b == c then mem (src + i) else mem (base + c * 4096 + i)

-- What a write and then a read on the device leave.
pub record WroteAndRead (mem : Mem) (base b c src dst : ℕ) (written read : ℤ) (mem' : Mem)
    : Type 0 where
  pub wrote : written ≡ block_success
  pub got : read ≡ block_success
  pub bytes : (i : ℕ) → i < 4096 → mem' (dst + i) ≡ block_byte mem base b c src i

module _ (dev : BlockDevice RamdiskData) (base n size : ℕ) (d : IsRamdisk dev base n size) where
  -- the bytes that a block has after a write
  written_byte :
      (mem : Mem) (b c src i : ℕ)
      → b < n
      → c < n
      → IsBuffer base n src
      → i < 4096
      → memcpy mem (base + b * 4096) src 4096 (base + c * 4096 + i) ≡ block_byte mem base b c src i
  written_byte mem b c src i low low' buf h =
      let copy = memcpy_lem mem (base + b * 4096) src 4096 (omega (arith, d.based)) buf.given (
        turned dev base n size d src (base + b * 4096)
          (block-Apart dev base n size d b src low buf)) in
      elim (Bool-cases (b == c)) [
        | inl same ↦ let e : c ≡ b = ground arith in rw (same, e) (copy.0 i h)
        | inr other ↦
            let out : within (base + b * 4096) 4096 (base + c * 4096 + i) ≡ false =
              ground (arith, other) in
            rw other (copy.1 (base + c * 4096 + i) out)
      ]

  IsRamdisk-count_writes : IsRamdisk (count_writes dev 1) base n size
  IsRamdisk-count_writes = record {
    ops = d.ops;
    disk = d.disk;
    blocks = d.blocks;
    based = d.based;
    small = d.small;
    readable = d.readable;
    writable = d.writable;
  }

  -- On a RAM disk of less than 4 GB, with buffers outside it: writing block `b` and then reading block
  -- `c` both succeed; the read gives the bytes that were written if it is the same block, and the
  -- bytes that the disk had there before if it is another one.
  pub block_device_read-block_device_write :
      (mem : Mem) (b c src dst : ℕ)
      → b < n
      → c < n
      → IsBuffer base n src
      → IsBuffer base n dst
      → let w = block_device_write dev mem b src in
        let r = block_device_read w.1 w.2 c dst in WroteAndRead mem base b c src dst w.0 r.0 r.2
  block_device_read-block_device_write mem b c src dst low low' from to =
      let mem1 : Mem = memcpy mem (base + b * 4096) src 4096 in
      let dev1 : BlockDevice RamdiskData = count_writes dev 1 in
      let wrote = block_device_write-copy dev base n size d mem b src low from.given in
      let got =
        block_device_read-copy dev1 base n size IsRamdisk-count_writes mem1 c dst low' to.given in
      let copy =
        memcpy_lem mem1 dst (base + c * 4096) 4096 to.given (omega (arith, d.based))
          (block-Apart dev base n size d c dst low' to) in
      rw (wrote, got)
        (record {
          wrote = refl;
          got = refl;
          bytes = λ i h. copy.0 i h ∙ written_byte mem b c src i low low' from h;
        })
