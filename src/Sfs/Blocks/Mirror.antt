-- ===== src/Sfs/Blocks/Mirror.antt =====
-- The bitmap on the disk keeps up with the one in memory, and a new block is zero.
use build_your_own_os.Prelude.{
  ℕ, zero, suc, ◌+◌, ◌*◌, ◌/◌, ◌≤◌, ◌<◌, ◌≡◌, ◌≢◌, ◌⊎◌, refl, sym, ◌∙◌, inl, inr, ap, Bool, true,
  false, Option, if◌then◌else◌, ◌||◌, some, List, [], ◌∷◌, leb, ◌==◌, set, length, length-set,
  length-replicate, replicate, take, drop, is_success, leb_of_lt, ltb, ltb→lt, arith, Bool-cases,
}
use build_your_own_os.Sfs.Codec.{length-superblock_bytes}
use build_your_own_os.Sfs.{Device, superblock_bytes, sfs_block_size}
use build_your_own_os.Sfs.Blocks.{
  SfsFsData, sfs_test_bit, sfs_set_bit, find_bit, sfs_find_free_bit, no_bit, sfs_write_block,
  sfs_write_superblock, sfs_sync_superblock, sfs_flush_bitmap_bit, mark_block, clear_block,
  sfs_alloc_block,
}
use build_your_own_os.Sfs.Blocks.Search.{all_set, clear, find_bit-FreeBit}
use build_your_own_os.Sfs.Blocks.Laws.{
  IsDevice, IsMounted, SameMemory, SameMemory-trans, flush-SameMemory, sync-SameMemory,
  clear-SameMemory,
}

-- block `k` of the bitmap
abbrev bitmap_slice : (bitmap : List ℕ) → (k : ℕ) → List ℕ
bitmap_slice bitmap k = take sfs_block_size (drop (k * sfs_block_size) bitmap)

-- The blocks of the bitmap are on the disk.
abbrev pub Mirrored : {D : Type 0} → Device D → SfsFsData D → Type 0
Mirrored dev s =
    (k : ℕ)
    → k < s.superblock.bitmap_blocks
    → dev.read s.device (1 + k) ≡ some (bitmap_slice s.block_bitmap k)

-- The blocks of the superblock and the bitmap are in use, the superblock fills a block, and the device has all blocks.
pub record IsReserved {D : Type 0} (s : SfsFsData D) (n : ℕ) : Type 0 where
  pub fits : s.superblock.total_blocks ≤ n
  pub there : s.superblock.bitmap_blocks < n
  pub sized : length s.superblock.label + length s.superblock.reserved ≡ 4040
  pub used : (j : ℕ) → j ≤ s.superblock.bitmap_blocks → sfs_test_bit s.block_bitmap j ≡ true

take-drop-set :
    (xs : List ℕ) (i v k n : ℕ)
    → (i < k) ⊎ (k + n ≤ i)
    → take n (drop k (set xs i v)) ≡ take n (drop k xs)
take-drop-set [] i v k n h = refl
take-drop-set (x ∷ xs) zero v zero zero h = refl
take-drop-set (x ∷ xs) zero v zero (suc n) (inl h) = absurd (omega arith)
take-drop-set (x ∷ xs) zero v zero (suc n) (inr h) = absurd (omega arith)
take-drop-set (x ∷ xs) zero v (suc k) n h = refl
take-drop-set (x ∷ xs) (suc i) v zero zero h = refl
take-drop-set (x ∷ xs) (suc i) v zero (suc n) (inl h) = absurd (omega arith)
take-drop-set (x ∷ xs) (suc i) v zero (suc n) (inr h) =
    ap (λ t. x ∷ t) (take-drop-set xs i v 0 n (inr (omega arith)))
take-drop-set (x ∷ xs) (suc i) v (suc k) n (inl h) = take-drop-set xs i v k n (inl (omega arith))
take-drop-set (x ∷ xs) (suc i) v (suc k) n (inr h) = take-drop-set xs i v k n (inr (omega arith))

length-take-drop : (xs : List ℕ) (k n : ℕ) → k + n ≤ length xs → length (take n (drop k xs)) ≡ n
length-take-drop xs zero zero h = refl
length-take-drop [] zero (suc n) h = absurd (omega arith)
length-take-drop (x ∷ xs) zero (suc n) h = ap suc (length-take-drop xs 0 n (omega arith))
length-take-drop [] (suc k) n h = absurd (omega arith)
length-take-drop (x ∷ xs) (suc k) n h = length-take-drop xs k n (omega arith)

-- a byte of another block of the bitmap
apart : (b k : ℕ) → k ≢ b / 32768 → (b / 8 < k * 4096) ⊎ (k * 4096 + 4096 ≤ b / 8)
apart b k ne = elim (Bool-cases (ltb (b / 32768) k)) [
  | inl low ↦ inl (omega (arith, ltb→lt (b / 32768) k low))
  | inr high ↦ let above : k ≤ b / 32768 = ground (arith, high) in inr (omega (arith, above, ne))
]

true_not_false : true ≢ false
true_not_false e = absurd (cc)

module _ {D : Type 0} (dev : Device D) (n : ℕ) (law : IsDevice dev n) where
  sync_other :
      (s : SfsFsData D) (c : ℕ)
      → 0 < c
      → length s.superblock.label + length s.superblock.reserved ≡ 4040
      → dev.read (sfs_sync_superblock dev s).1.device c ≡ dev.read s.device c
  unfolding sfs_sync_superblock sfs_write_superblock
  sync_other s c h sized =
      law.others s.device 0 (superblock_bytes s.superblock) c (λ e. absurd (omega (arith, e, h)))
        (omega (arith, sized, length-superblock_bytes s.superblock))

  clear_zero :
      (s : SfsFsData D) (b : ℕ)
      → b < s.superblock.total_blocks
      → b < n
      → dev.read (clear_block dev s b true).device b ≡ some (replicate sfs_block_size 0)
  unfolding clear_block sfs_write_block
  clear_zero s b low there =
      let f : leb s.superblock.total_blocks b ≡ false = leb_of_lt s.superblock.total_blocks b low in
      let zeros : List ℕ = replicate sfs_block_size 0 in
      let size : length zeros ≡ 4096 = length-replicate {A = ℕ} sfs_block_size 0 in
      rw f (law.written s.device b zeros (law.succeeds s.device b zeros there size) size)

  clear_other :
      (s : SfsFsData D) (b c : ℕ) (granted : Bool)
      → b < s.superblock.total_blocks
      → b ≢ c
      → dev.read (clear_block dev s b granted).device c ≡ dev.read s.device c
  unfolding clear_block sfs_write_block
  clear_other s b c false low ne = refl
  clear_other s b c true low ne =
      let f : leb s.superblock.total_blocks b ≡ false = leb_of_lt s.superblock.total_blocks b low in
      rw f (
        law.others s.device b (replicate sfs_block_size 0) c ne
          (length-replicate {A = ℕ} sfs_block_size 0))

  -- the new block: zeros, or what it had
  clear_block-bytes :
      (s : SfsFsData D) (b : ℕ) (granted : Bool) (old : Option (List ℕ))
      → b < s.superblock.total_blocks
      → b < n
      → dev.read s.device b ≡ old
      → dev.read (clear_block dev s b granted).device b
        ≡ (if granted then some (replicate sfs_block_size 0) else old)
  unfolding clear_block
  clear_block-bytes s b true old low there before = clear_zero s b low there
  clear_block-bytes s b false old low there before = before

  -- the write of the block of the bitmap with the bit
  flushed :
      (s : SfsFsData D) (b k : ℕ)
      → k ≡ b / 32768
      → k < s.superblock.bitmap_blocks
      → 1 + k < n
      → length (bitmap_slice s.block_bitmap k) ≡ 4096
      → (is_success (sfs_flush_bitmap_bit dev s b).0 ≡ true)
        × (dev.read (sfs_flush_bitmap_bit dev s b).1.device (1 + k)
            ≡ some (bitmap_slice s.block_bitmap k))
        × ((c : ℕ)
            → 1 + k ≢ c
            → dev.read (sfs_flush_bitmap_bit dev s b).1.device c ≡ dev.read s.device c)
  unfolding sfs_flush_bitmap_bit
  flushed s b k at low there size =
      let e : b / (sfs_block_size * 8) ≡ k = omega (arith, at) in
      let f : leb s.superblock.bitmap_blocks k ≡ false =
        leb_of_lt s.superblock.bitmap_blocks k low in
      let bytes = bitmap_slice s.block_bitmap k in
      let done : (dev.write s.device (1 + k) bytes).0 ≡ true =
        law.succeeds s.device (1 + k) bytes there size in
      (
        rw (e, f, done) refl,
        rw (e, f) (law.written s.device (1 + k) bytes done size),
        λ c ne. rw (e, f) (law.others s.device (1 + k) bytes c ne size),
      )

  -- block `k` of the bitmap after block `k0` was written
  in_place :
      (s s1 : SfsFsData D) (b k k0 : ℕ)
      → k0 ≡ b / 32768
      → dev.read s1.device (1 + k0) ≡ some (bitmap_slice (sfs_set_bit s.block_bitmap b) k0)
      → ((c : ℕ) → 1 + k0 ≢ c → dev.read s1.device c ≡ dev.read s.device c)
      → dev.read s.device (1 + k) ≡ some (bitmap_slice s.block_bitmap k)
      → dev.read s1.device (1 + k) ≡ some (bitmap_slice (sfs_set_bit s.block_bitmap b) k)
  unfolding sfs_set_bit
  in_place s s1 b k k0 at here others before = elim (Bool-cases (k0 == k)) [
    | inl e ↦ let w : k ≡ k0 = ground arith in rw w here
    | inr ne ↦
        others (1 + k) (λ q. absurd (ground (arith, q)))
        ∙ before
        ∙ ap some (
            sym (
              take-drop-set s.block_bitmap (b / 8) _ (k * sfs_block_size) sfs_block_size
                (apart b k (ground (arith, at)))))
  ]

  -- from the lowest free block on
  stored :
      (s : SfsFsData D) (b : ℕ) (granted : Bool)
      → IsMounted s
      → IsReserved s n
      → Mirrored dev s
      → b < s.superblock.total_blocks
      → sfs_test_bit s.block_bitmap b ≡ false
      → (is_success (sfs_flush_bitmap_bit dev (mark_block s b) b).0 ≡ true)
        × (let s1 = (sfs_flush_bitmap_bit dev (mark_block s b) b).1 in
            let s2 = clear_block dev (sfs_sync_superblock dev s1).1 b granted in
            Mirrored dev s2
            × (dev.read s2.device b
                ≡ (if granted then some (replicate sfs_block_size 0) else dev.read s.device b)))
  unfolding sfs_set_bit
  stored s b granted m r mirror low off =
      let k0 : ℕ = b / 32768 in
      let s0 = mark_block s b in
      let s1 = (sfs_flush_bitmap_bit dev s0 b).1 in
      let s2 = (sfs_sync_superblock dev s1).1 in
      let s3 = clear_block dev s2 b granted in
      let bytes : length s0.block_bitmap ≡ length s.block_bitmap =
        length-set s.block_bitmap (b / 8) _ in
      let k_low : k0 < s.superblock.bitmap_blocks = omega (arith, m.covered, low) in
      let slice : length (bitmap_slice s0.block_bitmap k0) ≡ 4096 =
        length-take-drop s0.block_bitmap (k0 * sfs_block_size) sfs_block_size
          (omega (arith, bytes, m.bits, k_low)) in
      let (done, here, others) = flushed s0 b k0 refl k_low (omega (arith, r.there, k_low)) slice in
      let same : SameMemory s0 s3 =
        SameMemory-trans (flush-SameMemory dev s0 b)
          (SameMemory-trans (sync-SameMemory dev s1) (clear-SameMemory dev s2 b granted)) in
      let total : s2.superblock.total_blocks ≡ s.superblock.total_blocks =
        ap (λ t. t.total_blocks)
          (SameMemory-trans (flush-SameMemory dev s0 b) (sync-SameMemory dev s1)).superblock in
      let first : s1.superblock ≡ s0.superblock = (flush-SameMemory dev s0 b).superblock in
      let sized : length s1.superblock.label + length s1.superblock.reserved ≡ 4040 =
        ap (λ t. length t.label + length t.reserved) first ∙ r.sized in
      let low2 : b < s2.superblock.total_blocks = omega (arith, total, low) in
      let bits : s3.block_bitmap ≡ s0.block_bitmap = same.bitmap in
      let not_reserved : (c : ℕ) → c ≤ s.superblock.bitmap_blocks → b ≢ c = λ c le e.
        true_not_false (sym (r.used c le) ∙ ap (sfs_test_bit s.block_bitmap) (sym e) ∙ off) in
      let positive : b ≢ 0 = not_reserved 0 (omega arith) in
      let before : dev.read s2.device b ≡ dev.read s.device b =
        sync_other s1 b (omega (arith, positive)) sized
        ∙ others b (λ e. not_reserved (1 + k0) (omega (arith, k_low)) (sym e)) in
      let blocks : s3.superblock.bitmap_blocks ≡ s.superblock.bitmap_blocks =
        ap (λ t. t.bitmap_blocks) same.superblock in
      (
        done,
        (
          λ k h.
              let kl : k < s.superblock.bitmap_blocks = omega (arith, h, blocks) in
              clear_other s2 b (1 + k) granted low2 (not_reserved (1 + k) (omega (arith, kl)))
              ∙ sync_other s1 (1 + k) (omega arith) sized
              ∙ in_place s s1 b k k0 (omega arith) here (λ c apart. others c apart) (mirror k kl)
              ∙ ap (λ t. some (bitmap_slice t k)) (sym bits),
          clear_block-bytes s2 b granted _ low2 (omega (arith, low, r.fits)) before,
        ),
      )

  -- A mounted file system, with a bit in its bitmap for each block and counts of 32 bits, is on a device whose writes of its blocks succeed and change one block each, and which has
  -- all blocks of the file system and its bitmap; the blocks of the superblock and the bitmap are marked, the
  -- superblock fills a block, and the bitmap on the disk is as in memory. When sfs_alloc_block returns a block, the
  -- bitmap on the disk is again as in memory, and the block on the disk is zero where kmalloc returns memory, and as
  -- it was where it does not.
  pub sfs_alloc_block-Mirrored :
      (s : SfsFsData D) (granted : Bool)
      → IsMounted s
      → IsReserved s n
      → Mirrored dev s
      → (sfs_alloc_block dev s granted).0 ≢ 0
      → Mirrored dev (sfs_alloc_block dev s granted).1
        × (dev.read (sfs_alloc_block dev s granted).1.device (sfs_alloc_block dev s granted).0 ≡ (
            if granted
            then some (replicate sfs_block_size 0)
            else dev.read s.device (sfs_alloc_block dev s granted).0))
  unfolding sfs_alloc_block sfs_find_free_bit
  sfs_alloc_block-Mirrored s granted m r mirror ne =
      let b = find_bit s.superblock.total_blocks s.block_bitmap 0 in
      elim (find_bit-FreeBit s.superblock.total_blocks s.block_bitmap 0) [
        | all_set e h ↦
            let guard : (b == no_bit || leb s.superblock.total_blocks b) ≡ true =
              ground (arith, e) in
            absurd (ne (rw guard refl))
        | clear low high off h ↦
            let guard : (b == no_bit || leb s.superblock.total_blocks b) ≡ false =
              ground (arith, high, m.word) in
            let (done, rest) = stored s b granted m r mirror (omega (arith, high)) off in
            rw (guard, done) rest
      ]
