-- ===== src/Sfs/Tests.antt =====
-- A disk of ten blocks, the first three in use, on a device that is a function from blocks to bytes.
use build_your_own_os.Prelude.{
  ℕ, zero, suc, ◌+◌, ◌^◌, ◌≤◌, ◌<◌, ◌≡◌, ◌≢◌, All, sym, refl, inl, inr, ap, Bool, true, false, ◌&&◌,
  some, List, [], ◌∷◌, ltb, ltb→lt, ◌==◌, if◌then◌else◌, length, length-replicate, replicate, take,
  has_bit, arith, Bool-cases,
}
use build_your_own_os.Ramfs.{vfs_success, vfs_enomem}
use build_your_own_os.Sfs.{Device, Superblock, inode_words, sfs_block_size}
use build_your_own_os.Block.{BlockDevice}
use build_your_own_os.Block.Ramdisk.{RamdiskData, new_ramdisk}
use build_your_own_os.Block.Disk.{IsRamdisk}
use build_your_own_os.Sfs.Disk.{disk_device, disk_device-IsDevice}
use build_your_own_os.Sfs.Codec.{IsInode}
use build_your_own_os.Sfs.Blocks.{
  SfsFsData, sfs_test_bit, find_bit, sfs_find_free_bit, sfs_flush_bitmap_bit, sfs_alloc_block,
  sfs_free_block,
}
use build_your_own_os.Sfs.Blocks.Laws.{
  IsDevice, IsMounted, BlockAllocation, sfs_alloc_block-BlockAllocation,
}
use build_your_own_os.Sfs.Blocks.Free.{SameUse, sfs_free_block-sfs_alloc_block}
use build_your_own_os.Sfs.Blocks.Mirror.{IsReserved, Mirrored, sfs_alloc_block-Mirrored}
use build_your_own_os.Sfs.Inodes.{got, new_inode, sfs_read_inode_raw, sfs_write_inode_raw}
use build_your_own_os.Sfs.Inodes.Laws.{HasInodes, sfs_read_inode_raw-sfs_write_inode_raw}

abbrev Blocks : Type 0
Blocks = ℕ → List ℕ

abbrev table : Device Blocks
table = record {
  read = λ d b. some (d b);
  write = λ d b bytes. (true, λ c. if b == c then bytes else d c);
}

table-IsDevice : IsDevice table 100
table-IsDevice = record {
  written = λ d b bytes done size. let e : (b == b) ≡ true = ground arith in rw e refl;
  others = λ d b bytes c ne size. let e : (b == c) ≡ false = ground (arith, ne) in rw e refl;
  succeeds = λ d b bytes low size. refl;
}

abbrev small : Superblock
small = record {
  magic = 0x53465300;
  version = 1;
  block_size = 4096;
  total_blocks = 10;
  inode_blocks = 1;
  data_blocks = 7;
  free_blocks = 6;
  free_inodes = 45;
  root_inode = 1;
  first_data_block = 3;
  bitmap_blocks = 1;
  created_time = 0;
  modified_time = 0;
  mount_count = 1;
  label = replicate 32 0;
  reserved = replicate 4008 0;
}

-- blocks 0, 1 and 2 are in use
abbrev bitmap : List ℕ
bitmap = 7 ∷ replicate 4095 0

abbrev mounted : SfsFsData Blocks
mounted = record {
  superblock = small;
  device = λ b. if b == 1 then bitmap else replicate 4096 0;
  block_bitmap = bitmap;
}

length-bitmap : length bitmap ≡ 4096
length-bitmap = omega (arith, length-replicate {A = ℕ} 4095 0)

mounted-IsMounted : IsMounted mounted
mounted-IsMounted = record {
  bits = omega (arith, length-bitmap);
  covered = omega arith;
  word = omega arith;
  counted = omega arith;
}

sfs_alloc_block-BlockAllocation_example :
    BlockAllocation table mounted (sfs_alloc_block table mounted true)
sfs_alloc_block-BlockAllocation_example =
    sfs_alloc_block-BlockAllocation table mounted true mounted-IsMounted

alloc_three : (sfs_alloc_block table mounted true).0 ≡ 3
unfolding sfs_alloc_block sfs_find_free_bit find_bit sfs_flush_bitmap_bit has_bit
alloc_three = refl

three_not_zero : (sfs_alloc_block table mounted true).0 ≢ 0
three_not_zero e = absurd (omega (arith, e, alloc_three))

sfs_free_block-sfs_alloc_block_example : SameUse mounted (
    sfs_free_block table
      (sfs_alloc_block table mounted true).1
      (sfs_alloc_block table mounted true).0)
sfs_free_block-sfs_alloc_block_example =
    sfs_free_block-sfs_alloc_block table mounted true mounted-IsMounted three_not_zero

mounted-IsReserved : IsReserved mounted 100
unfolding has_bit
mounted-IsReserved = record { fits = omega arith; there = omega arith; sized = sized; used = used }
  where
    sized : length (replicate {A = ℕ} 32 0) + length (replicate {A = ℕ} 4008 0) ≡ 4040
    sized = omega (arith, length-replicate {A = ℕ} 32 0, length-replicate {A = ℕ} 4008 0)

    used : (j : ℕ) → j ≤ 1 → sfs_test_bit bitmap j ≡ true
    used zero low = refl
    used (suc zero) low = refl
    used (suc (suc j)) low = absurd (omega (arith, low))

take-all : (xs : List ℕ) (n : ℕ) → length xs ≡ n → take n xs ≡ xs
take-all [] zero h = refl
take-all [] (suc n) h = refl
take-all (x ∷ xs) zero h = absurd (omega arith)
take-all (x ∷ xs) (suc n) h = ap (λ t. x ∷ t) (take-all xs n (omega arith))

mounted-Mirrored : Mirrored table mounted
mounted-Mirrored zero low = ap some (sym (take-all bitmap 4096 length-bitmap))
mounted-Mirrored (suc k) low = absurd (omega (arith, low))

sfs_alloc_block-Mirrored_example :
    Mirrored table (sfs_alloc_block table mounted true).1
    × (table.read
          (sfs_alloc_block table mounted true).1.device
          (sfs_alloc_block table mounted true).0
        ≡ (if true
            then some (replicate sfs_block_size 0)
            else table.read mounted.device (sfs_alloc_block table mounted true).0))
sfs_alloc_block-Mirrored_example =
    sfs_alloc_block-Mirrored table 100 table-IsDevice mounted true mounted-IsMounted
      mounted-IsReserved mounted-Mirrored three_not_zero

mounted-HasInodes : HasInodes table 100 mounted
mounted-HasInodes = record {
  before = omega arith;
  within = omega arith;
  fits = omega arith;
  word = omega arith;
  readable = λ b low. (mounted.device b, refl, full b);
}
  where
    full : (b : ℕ) → length (mounted.device b) ≡ 4096
    full b = elim (Bool-cases (b == 1)) [
      | inl e ↦ rw e length-bitmap
      | inr e ↦ rw e (length-replicate {A = ℕ} 4096 0)
    ]

abbrev are_words : List ℕ → Bool
are_words [] = true
are_words (w ∷ ws) = ltb w (2 ^ 32) && are_words ws

fit_words : (ws : List ℕ) → are_words ws ≡ true → All (λ w. w < 2 ^ 32) ws
fit_words [] h = tt
fit_words (w ∷ ws) h = elim (Bool-cases (ltb w (2 ^ 32))) [
  | inl low ↦ (ltb→lt w (2 ^ 32) low, fit_words ws (rw low at h))
  | inr high ↦ let e : false ≡ true = rw high at h in absurd (cc)
]

new_inode-IsInode : IsInode (new_inode 16384)
new_inode-IsInode = record { twelve = refl; fit = fit_words (inode_words (new_inode 16384)) refl }

sfs_read_inode_raw-sfs_write_inode_raw_example :
    ((sfs_write_inode_raw table mounted 2 (new_inode 16384) true).0 ≡ vfs_success)
    × (sfs_read_inode_raw table
          (sfs_write_inode_raw table mounted 2 (new_inode 16384) true).1
          5
          true
        ≡ (if 2 == 5 then got (new_inode 16384) else sfs_read_inode_raw table mounted 5 true))
    × (sfs_write_inode_raw table mounted 2 (new_inode 16384) false ≡ (vfs_enomem, mounted))
sfs_read_inode_raw-sfs_write_inode_raw_example =
    sfs_read_inode_raw-sfs_write_inode_raw table 100 table-IsDevice mounted mounted-HasInodes 2
      (new_inode 16384) new_inode-IsInode (omega arith) (omega arith) 5

-- a RAM disk of two blocks at address 65536, and a buffer below it
abbrev ram0 : BlockDevice RamdiskData
ram0 = new_ramdisk (114 ∷ 48 ∷ []) 8192 65536

ram0-IsRamdisk : IsRamdisk ram0 65536 2 8192
unfolding has_bit
ram0-IsRamdisk = record {
  ops = refl;
  disk = refl;
  blocks = refl;
  based = omega arith;
  small = omega arith;
  readable = refl;
  writable = refl;
}

disk_device-IsDevice_example : IsDevice (disk_device ram0 4096) 2
disk_device-IsDevice_example =
    disk_device-IsDevice ram0 65536 2 8192 ram0-IsRamdisk 4096
      (record { given = omega arith; apart = inl (omega arith) })
