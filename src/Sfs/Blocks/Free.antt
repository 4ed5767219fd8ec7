-- ===== src/Sfs/Blocks/Free.antt =====
-- Freeing a block of the Simple File System takes back its allocation.
use build_your_own_os.Prelude.{
  ℕ, ◌+◌, ◌-◌, ◌%◌, ◌^◌, ◌<◌, ◌≡◌, ◌≢◌, ◌∙◌, ap, Bool, true, false, leb, ◌==◌, arith,
}
use build_your_own_os.Sfs.{Device}
use build_your_own_os.Sfs.Blocks.{
  SfsFsData, sfs_test_bit, sfs_sync_superblock, sfs_flush_bitmap_bit, unmark_block, sfs_alloc_block,
  sfs_free_block,
}
use build_your_own_os.Sfs.Blocks.Laws.{
  IsMounted, SameMemory-trans, flush-SameMemory, sync-SameMemory, unmark_block-Marked, Marked,
  with_free, all_used, not_flushed, allocated, sfs_alloc_block-BlockAllocation,
}

-- The bits of all blocks and the cached superblock are the same.
pub record SameUse {D : Type 0} (s s' : SfsFsData D) : Type 0 where
  pub bits :
      (j : ℕ)
      → j < s.superblock.total_blocks
      → sfs_test_bit s'.block_bitmap j ≡ sfs_test_bit s.block_bitmap j
  pub superblock : s'.superblock ≡ s.superblock

module _ {D : Type 0} (dev : Device D) where
  sfs_free_block-Marked :
      (s : SfsFsData D) (b : ℕ)
      → IsMounted s
      → 0 < b
      → b < s.superblock.total_blocks
      → Marked s (sfs_free_block dev s b) b ((s.superblock.free_blocks + 1) % 2 ^ 32) false
  unfolding sfs_free_block
  sfs_free_block-Marked s b m positive low =
      let e : (b == 0) ≡ false = ground (arith, positive) in
      let f : leb s.superblock.total_blocks b ≡ false = ground (arith, low) in
      let s1 = unmark_block s b in
      let s2 = (sfs_flush_bitmap_bit dev s1 b).1 in
      rw (e, f)
        (unmark_block-Marked s (sfs_sync_superblock dev s2).1 b m low
          (SameMemory-trans (flush-SameMemory dev s1 b) (sync-SameMemory dev s2)))

  freed :
      (s s1 : SfsFsData D) (b : ℕ)
      → IsMounted s
      → 0 < b
      → b < s.superblock.total_blocks
      → sfs_test_bit s.block_bitmap b ≡ false
      → Marked s s1 b ((s.superblock.free_blocks + 2 ^ 32 - 1) % 2 ^ 32) true
      → SameUse s (sfs_free_block dev s1 b)
  freed s s1 b m positive low off k =
      let e : s1.superblock.bitmap_blocks ≡ s.superblock.bitmap_blocks =
        ap (λ t. t.bitmap_blocks) k.superblock in
      let f : s1.superblock.total_blocks ≡ s.superblock.total_blocks =
        ap (λ t. t.total_blocks) k.superblock in
      let free : s1.superblock.free_blocks ≡ (s.superblock.free_blocks + 2 ^ 32 - 1) % 2 ^ 32 =
        ap (λ t. t.free_blocks) k.superblock in
      let m1 : IsMounted s1 = record {
        bits = omega (arith, e, m.bits, k.bytes);
        covered = omega (arith, e, f, m.covered);
        word = omega (arith, f, m.word);
        counted = omega (arith, free);
      } in
      let back : (s1.superblock.free_blocks + 1) % 2 ^ 32 ≡ s.superblock.free_blocks =
        omega (arith, free, m.counted) in
      let k1 = sfs_free_block-Marked s1 b m1 positive (omega (arith, f, low)) in
      record {
        bits = λ j h. k1.bit j (omega (arith, f, h)) ∙ ground (arith, k.bit j h, off);
        superblock =
            k1.superblock
            ∙ ap (with_free ((s1.superblock.free_blocks + 1) % 2 ^ 32)) k.superblock
            ∙ ap (λ t. with_free t s.superblock) back;
      }

  -- On a mounted file system, freeing the block that an allocation has returned brings back the state of every block
  -- and the superblock.
  pub sfs_free_block-sfs_alloc_block :
      (s : SfsFsData D) (granted : Bool)
      → IsMounted s
      → (sfs_alloc_block dev s granted).0 ≢ 0
      → SameUse s
          (sfs_free_block dev (sfs_alloc_block dev s granted).1 (sfs_alloc_block dev s granted).0)
  sfs_free_block-sfs_alloc_block s granted m ne =
      elim (sfs_alloc_block-BlockAllocation dev s granted m) [
        | all_used h e ↦ absurd (ne (ap (λ t. t.0) e))
        | not_flushed b free refusal e k ↦ absurd (ne e)
        | allocated free done k ↦
            freed s (sfs_alloc_block dev s granted).1 (sfs_alloc_block dev s granted).0 m
              (omega (arith, ne)) free.low free.off k
      ]
