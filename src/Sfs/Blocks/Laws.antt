-- ===== src/Sfs/Blocks/Laws.antt =====
-- What sfs_alloc_block and sfs_free_block do to the bitmap, in memory and on the disk.
use build_your_own_os.Prelude.{
  ℕ, ◌+◌, ◌-◌, ◌*◌, ◌/◌, ◌%◌, ◌^◌, ◌≤◌, ◌<◌, ◌≡◌, ◌≢◌, refl, ◌∙◌, inl, inr, ap, Bool, true, false,
  ◌||◌, some, List, sym, take, drop, leb, ◌==◌, if◌then◌else◌, length, length-set, replicate,
  is_success, bitmap_bit-with_bit, bitmap_bit-without_bit, arith, Bool-cases,
}
use build_your_own_os.Sfs.{Device, Superblock, sfs_block_size}
use build_your_own_os.Sfs.Blocks.{
  SfsFsData, sfs_test_bit, sfs_set_bit, sfs_clear_bit, find_bit, sfs_find_free_bit, no_bit,
  sfs_write_block, sfs_sync_superblock, sfs_flush_bitmap_bit, mark_block, unmark_block, clear_block,
  sfs_alloc_block, result_of_write,
}
use build_your_own_os.Sfs.Blocks.Search.{all_set, clear, find_bit-FreeBit}

-- A device with `n` blocks of 4096 bytes, of which a write that succeeds changes one.
pub record IsDevice {D : Type 0} (dev : Device D) (n : ℕ) : Type 0 where
  pub written :
      (d : D) (b : ℕ) (bytes : List ℕ)
      → (dev.write d b bytes).0 ≡ true
      → length bytes ≡ 4096
      → dev.read (dev.write d b bytes).1 b ≡ some bytes
  pub others :
      (d : D) (b : ℕ) (bytes : List ℕ) (c : ℕ)
      → b ≢ c
      → length bytes ≡ 4096
      → dev.read (dev.write d b bytes).1 c ≡ dev.read d c
  pub succeeds :
      (d : D) (b : ℕ) (bytes : List ℕ)
      → b < n
      → length bytes ≡ 4096
      → (dev.write d b bytes).0 ≡ true

-- The bitmap has a bit for each block, and the counts are words.
pub record IsMounted {D : Type 0} (s : SfsFsData D) : Type 0 where
  pub bits : s.superblock.bitmap_blocks * 4096 ≡ length s.block_bitmap
  pub covered : s.superblock.total_blocks ≤ 32768 * s.superblock.bitmap_blocks
  pub word : s.superblock.total_blocks < 2 ^ 32 - 1
  pub counted : s.superblock.free_blocks < 2 ^ 32

-- Nothing but the device differs.
pub record SameMemory {D : Type 0} (s s' : SfsFsData D) : Type 0 where
  pub bitmap : s'.block_bitmap ≡ s.block_bitmap
  pub superblock : s'.superblock ≡ s.superblock

module _ {D : Type 0} (dev : Device D) where
  pub sync-SameMemory : (s : SfsFsData D) → SameMemory s (sfs_sync_superblock dev s).1
  unfolding sfs_sync_superblock
  sync-SameMemory s = record { bitmap = refl; superblock = refl }

  pub write-SameMemory :
      (s : SfsFsData D) (b : ℕ) (bytes : List ℕ) → SameMemory s (sfs_write_block dev s b bytes).1
  unfolding sfs_write_block
  write-SameMemory s b bytes = elim (Bool-cases (leb s.superblock.total_blocks b)) [
    | inl out ↦ rw out (record { bitmap = refl; superblock = refl })
    | inr within ↦ rw within (record { bitmap = refl; superblock = refl })
  ]

  pub clear-SameMemory :
      (s : SfsFsData D) (b : ℕ) (granted : Bool) → SameMemory s (clear_block dev s b granted)
  unfolding clear_block
  clear-SameMemory s b true = write-SameMemory s b (replicate sfs_block_size 0)
  clear-SameMemory s b false = record { bitmap = refl; superblock = refl }

  pub flush-SameMemory : (s : SfsFsData D) (b : ℕ) → SameMemory s (sfs_flush_bitmap_bit dev s b).1
  unfolding sfs_flush_bitmap_bit
  flush-SameMemory s b =
      elim (Bool-cases (leb s.superblock.bitmap_blocks (b / (sfs_block_size * 8)))) [
        | inl out ↦ rw out (record { bitmap = refl; superblock = refl })
        | inr within ↦ rw within (record { bitmap = refl; superblock = refl })
      ]

pub SameMemory-trans :
    {D : Type 0} {a b c : SfsFsData D} → SameMemory a b → SameMemory b c → SameMemory a c
SameMemory-trans p q = record {
  bitmap = q.bitmap ∙ p.bitmap;
  superblock = q.superblock ∙ p.superblock;
}

-- The bit of one block has changed, and so has the number of free blocks; the layout is as it was.
pub record Marked {D : Type 0} (s s' : SfsFsData D) (b free : ℕ) (mark : Bool) : Type 0 where
  pub bit :
      (j : ℕ)
      → j < s.superblock.total_blocks
      → sfs_test_bit s'.block_bitmap j ≡ (if b == j then mark else sfs_test_bit s.block_bitmap j)
  pub superblock : s'.superblock ≡ record s.superblock { free_blocks = free }
  pub bytes : length s'.block_bitmap ≡ length s.block_bitmap

pub byte_in_bitmap :
    {D : Type 0} (s : SfsFsData D) (b : ℕ)
    → IsMounted s
    → b < s.superblock.total_blocks
    → b / 8 < length s.block_bitmap
byte_in_bitmap s b m h = omega (arith, m.bits, m.covered, h)

pub mark_block-Marked :
    {D : Type 0} (s s' : SfsFsData D) (b : ℕ)
    → IsMounted s
    → b < s.superblock.total_blocks
    → SameMemory (mark_block s b) s'
    → Marked s s' b ((s.superblock.free_blocks + 2 ^ 32 - 1) % 2 ^ 32) true
unfolding sfs_set_bit
mark_block-Marked s s' b m h same = record {
  bit = λ j low.
      ap (λ t. sfs_test_bit t j) same.bitmap
      ∙ bitmap_bit-with_bit s.block_bitmap b j (byte_in_bitmap s b m h)
      ∙ ground arith;
  superblock = same.superblock;
  bytes = ap length same.bitmap ∙ length-set s.block_bitmap (b / 8) _;
}

pub unmark_block-Marked :
    {D : Type 0} (s s' : SfsFsData D) (b : ℕ)
    → IsMounted s
    → b < s.superblock.total_blocks
    → SameMemory (unmark_block s b) s'
    → Marked s s' b ((s.superblock.free_blocks + 1) % 2 ^ 32) false
unfolding sfs_clear_bit
unmark_block-Marked s s' b m h same = record {
  bit = λ j low.
      ap (λ t. sfs_test_bit t j) same.bitmap
      ∙ bitmap_bit-without_bit s.block_bitmap b j (byte_in_bitmap s b m h)
      ∙ ground arith;
  superblock = same.superblock;
  bytes = ap length same.bitmap ∙ length-set s.block_bitmap (b / 8) _;
}

abbrev pub with_free : ℕ → Superblock → Superblock
with_free free sb = record sb { free_blocks = free }

-- a bit that was clear, set and cleared again
taken_back :
    {D : Type 0} (s s1 : SfsFsData D) (b : ℕ)
    → IsMounted s
    → b < s.superblock.total_blocks
    → sfs_test_bit s.block_bitmap b ≡ false
    → SameMemory (mark_block s b) s1
    → Marked s (unmark_block s1 b) b s.superblock.free_blocks false
unfolding sfs_clear_bit
taken_back s s1 b m h off same =
    let k = mark_block-Marked s s1 b m h same in
    let room : b / 8 < length s1.block_bitmap = omega (arith, byte_in_bitmap s b m h, k.bytes) in
    let free : s1.superblock.free_blocks ≡ (s.superblock.free_blocks + 2 ^ 32 - 1) % 2 ^ 32 =
      ap (λ t. t.free_blocks) k.superblock in
    let back : (s1.superblock.free_blocks + 1) % 2 ^ 32 ≡ s.superblock.free_blocks =
      omega (arith, free, m.counted) in
    record {
      bit = λ j low. bitmap_bit-without_bit s1.block_bitmap b j room ∙ ground (arith, k.bit j low);
      superblock =
          ap (with_free ((s1.superblock.free_blocks + 1) % 2 ^ 32)) k.superblock
          ∙ ap (λ t. with_free t s.superblock) back;
      bytes = length-set s1.block_bitmap (b / 8) _ ∙ k.bytes;
    }

-- The device takes the block of the bitmap that has bit `b`, with that bit set.
abbrev pub takes_bitmap : {D : Type 0} → Device D → SfsFsData D → (b : ℕ) → Bool
takes_bitmap dev s b =
    (dev.write s.device (1 + b / 32768)
      (take 4096 (drop (b / 32768 * 4096) (sfs_set_bit s.block_bitmap b)))).0

-- Block `b` is the lowest one that is free.
pub record LowestFree {D : Type 0} (s : SfsFsData D) (b : ℕ) : Type 0 where
  pub low : b < s.superblock.total_blocks
  pub off : sfs_test_bit s.block_bitmap b ≡ false
  pub lower : (j : ℕ) → j < b → sfs_test_bit s.block_bitmap j ≡ true

-- The outcomes of an allocation: all blocks are in use; the device refuses the bitmap with the bit of the
-- lowest free block, and the bits stay; or it takes it, and that block is marked.
pub data BlockAllocation {D : Type 0} (dev : Device D) (s : SfsFsData D) (r : ℕ × SfsFsData D)
    : Type 0 where
  all_used :
      ((j : ℕ) → j < s.superblock.total_blocks → sfs_test_bit s.block_bitmap j ≡ true)
      → r ≡ (0, s)
      → BlockAllocation dev s r
  not_flushed :
      (b : ℕ)
      → LowestFree s b
      → takes_bitmap dev s b ≡ false
      → r.0 ≡ 0
      → Marked s r.1 b s.superblock.free_blocks false
      → BlockAllocation dev s r
  allocated :
      LowestFree s r.0
      → takes_bitmap dev s r.0 ≡ true
      → Marked s r.1 r.0 ((s.superblock.free_blocks + 2 ^ 32 - 1) % 2 ^ 32) true
      → BlockAllocation dev s r

is_success-result_of_write : (done : Bool) → is_success (result_of_write done) ≡ done
is_success-result_of_write true = refl
is_success-result_of_write false = refl

module _ {D : Type 0} (dev : Device D) where
  flush-takes_bitmap :
      (s : SfsFsData D) (b : ℕ)
      → IsMounted s
      → b < s.superblock.total_blocks
      → is_success (sfs_flush_bitmap_bit dev (mark_block s b) b).0 ≡ takes_bitmap dev s b
  unfolding sfs_flush_bitmap_bit
  flush-takes_bitmap s b m low =
      let within : leb s.superblock.bitmap_blocks (b / 32768) ≡ false =
        ground (arith, m.covered, low) in
      rw within (is_success-result_of_write (takes_bitmap dev s b))

  allocated_block :
      (s : SfsFsData D) (b : ℕ) (granted : Bool) (done : Bool)
      → IsMounted s
      → LowestFree s b
      → is_success (sfs_flush_bitmap_bit dev (mark_block s b) b).0 ≡ done
      → BlockAllocation dev s (
          if done
          then (
            b,
            clear_block dev
                (sfs_sync_superblock dev (sfs_flush_bitmap_bit dev (mark_block s b) b).1).1
                b
                granted,
          )
          else (0, unmark_block (sfs_flush_bitmap_bit dev (mark_block s b) b).1 b))
  allocated_block s b granted true m free done =
      let s1 = (sfs_flush_bitmap_bit dev (mark_block s b) b).1 in
      let s2 = (sfs_sync_superblock dev s1).1 in
      allocated free (sym (flush-takes_bitmap s b m free.low) ∙ done) (
        mark_block-Marked s (clear_block dev s2 b granted) b m free.low (
          SameMemory-trans (flush-SameMemory dev (mark_block s b) b)
            (SameMemory-trans (sync-SameMemory dev s1) (clear-SameMemory dev s2 b granted))))
  allocated_block s b granted false m free refusal =
      let s1 = (sfs_flush_bitmap_bit dev (mark_block s b) b).1 in
      let same = flush-SameMemory dev (mark_block s b) b in
      not_flushed b free (sym (flush-takes_bitmap s b m free.low) ∙ refusal) refl
        (taken_back s s1 b m free.low free.off same)

  -- sfs_alloc_block on a mounted file system, with a bit in its bitmap for each block and counts of 32 bits: all
  -- blocks are in use and nothing changes; the device refuses the
  -- block of the bitmap with the bit of the lowest free block set, 0 is returned, and the bits and the cached
  -- superblock stay; or the device takes it, the lowest free block is returned and marked, no other bit changes,
  -- and the count of free blocks goes down by one in 32 bits.
  pub sfs_alloc_block-BlockAllocation :
      (s : SfsFsData D) (granted : Bool)
      → IsMounted s
      → BlockAllocation dev s (sfs_alloc_block dev s granted)
  unfolding sfs_alloc_block sfs_find_free_bit
  sfs_alloc_block-BlockAllocation s granted m =
      let b = find_bit s.superblock.total_blocks s.block_bitmap 0 in
      elim (find_bit-FreeBit s.superblock.total_blocks s.block_bitmap 0) [
        | all_set e h ↦
            let guard : (b == no_bit || leb s.superblock.total_blocks b) ≡ true =
              ground (arith, e) in
            rw guard (all_used (λ j low. h j (omega arith) (omega (arith, low))) refl)
        | clear low high off h ↦
            let guard : (b == no_bit || leb s.superblock.total_blocks b) ≡ false =
              ground (arith, high, m.word) in
            rw guard (
              allocated_block s b granted
                (is_success (sfs_flush_bitmap_bit dev (mark_block s b) b).0) m
                (record {
                  low = omega (arith, high);
                  off = off;
                  lower = λ j lt. h j (omega arith) lt;
                })
                refl)
      ]
