-- ===== src/Sfs/Inodes/Laws.antt =====
-- An inode that is written to the disk is read back, and the others are not touched.
use build_your_own_os.Prelude.{
  ℕ, ◌+◌, ◌-◌, ◌*◌, ◌/◌, ◌%◌, ◌^◌, ◌≤◌, ◌<◌, ◌≡◌, ◌≢◌, ◌⊎◌, refl, sym, ◌∙◌, inl, inr, ap, true,
  false, ◌||◌, none, some, List, leb, leb_of_lt, ◌==◌, ==-ne, if◌then◌else◌, length, take, drop,
  arith, Bool-cases,
}
use build_your_own_os.Ramfs.{vfs_success, vfs_enomem, vfs_einval}
use build_your_own_os.Sfs.{Device, SfsInode, inode_bytes, inode_of_bytes, put_bytes}
use build_your_own_os.Sfs.Codec.{
  IsInode, inode_of_bytes-inode_bytes, length-inode_bytes, length-put_bytes, take-drop-put_bytes,
  take-drop-put_bytes_other,
}
use build_your_own_os.Sfs.Blocks.{SfsFsData, sfs_read_block, sfs_write_block}
use build_your_own_os.Sfs.Blocks.Laws.{IsDevice}
use build_your_own_os.Sfs.Inodes.Place.{
  block_of, location, location_out, in_range, out_of_range, slices_apart,
}
use build_your_own_os.Sfs.Inodes.{
  failed, got, inode_slice, sfs_inode_location, sfs_read_inode_raw, sfs_write_inode_raw,
}

-- The inodes stand in front of the data, on blocks of 4096 bytes that the device can read.
pub record HasInodes {D : Type 0} (dev : Device D) (n : ℕ) (s : SfsFsData D) : Type 0 where
  pub before : s.superblock.inode_blocks ≤ s.superblock.first_data_block
  pub within : s.superblock.first_data_block ≤ s.superblock.total_blocks
  pub fits : s.superblock.total_blocks ≤ n
  pub word : s.superblock.total_blocks < 2 ^ 32
  pub readable :
      (b : ℕ)
      → b < s.superblock.total_blocks
      → (bytes : List ℕ) × (dev.read s.device b ≡ some bytes) × (length bytes ≡ 4096)

swap : {A B : Type 0} → A ⊎ B → B ⊎ A
swap (inl a) = inr a
swap (inr b) = inl b

module _ {D : Type 0} (dev : Device D) (n : ℕ) (law : IsDevice dev n) (s : SfsFsData D)
    (h : HasInodes dev n s) where
  read_at :
      (s' : SfsFsData D) (j : ℕ) (bytes : List ℕ)
      → s'.superblock ≡ s.superblock
      → 0 < j
      → (j - 1) / 46 < s.superblock.inode_blocks
      → dev.read s'.device (block_of s.superblock j) ≡ some bytes
      → sfs_read_inode_raw dev s' j true ≡ got (inode_of_bytes (inode_slice bytes ((j - 1) % 46)))
  unfolding sfs_read_inode_raw sfs_read_block
  read_at s' j bytes same positive low there =
      let at =
        ap (λ sb. sfs_inode_location sb j) same
        ∙ location s.superblock j h.before (omega (arith, h.within, h.word)) positive low in
      let total : s'.superblock.total_blocks ≡ s.superblock.total_blocks =
        ap (λ sb. sb.total_blocks) same in
      let f : leb s'.superblock.total_blocks (block_of s.superblock j) ≡ false =
        leb_of_lt s'.superblock.total_blocks (block_of s.superblock j)
          (omega (arith, total, low, h.before, h.within)) in
      rw (at, sfs_read_inode_raw, f, there) refl

  read_none :
      (s' : SfsFsData D) (j : ℕ)
      → sfs_inode_location s'.superblock j ≡ none
      → sfs_read_inode_raw dev s' j true ≡ failed vfs_einval
  unfolding sfs_read_inode_raw
  read_none s' j e = rw (e, sfs_read_inode_raw) refl

  without_memory :
      (k : ℕ) (inode : SfsInode)
      → 0 < k
      → (k - 1) / 46 < s.superblock.inode_blocks
      → sfs_write_inode_raw dev s k inode false ≡ (vfs_enomem, s)
  unfolding sfs_write_inode_raw
  without_memory k inode positive low =
      let at = location s.superblock k h.before (omega (arith, h.within, h.word)) positive low in
      rw (at, sfs_write_inode_raw)

  module _ (k : ℕ) (inode : SfsInode) (bytes : List ℕ) (i : IsInode inode) (positive : 0 < k)
      (low : (k - 1) / 46 < s.superblock.inode_blocks)
      (there : dev.read s.device (block_of s.superblock k) ≡ some bytes)
      (size : length bytes ≡ 4096) where
    with_inode : List ℕ
    with_inode = put_bytes bytes ((k - 1) % 46 * 88) (inode_bytes inode)

    after : SfsFsData D
    after = record s { device = (dev.write s.device (block_of s.superblock k) with_inode).1 }

    block_low : block_of s.superblock k < s.superblock.total_blocks
    block_low = omega (arith, low, h.before, h.within)

    size_after : length with_inode ≡ 4096
    unfolding with_inode
    size_after = length-put_bytes bytes ((k - 1) % 46 * 88) (inode_bytes inode) ∙ size

    done : (dev.write s.device (block_of s.superblock k) with_inode).0 ≡ true
    done =
        law.succeeds s.device (block_of s.superblock k) with_inode
          (omega (arith, block_low, h.fits)) size_after

    write_step : sfs_write_inode_raw dev s k inode true ≡ (vfs_success, after)
    unfolding sfs_write_inode_raw sfs_read_block sfs_write_block after with_inode
    write_step =
        let at = location s.superblock k h.before (omega (arith, h.within, h.word)) positive low in
        let f : leb s.superblock.total_blocks (block_of s.superblock k) ≡ false =
          leb_of_lt s.superblock.total_blocks (block_of s.superblock k) block_low in
        rw (at, sfs_write_inode_raw, f, there, done, f) refl

    -- an inode of the same block
    read_same :
        (j : ℕ)
        → 0 < j
        → (j - 1) / 46 ≡ (k - 1) / 46
        → sfs_read_inode_raw dev after j true
          ≡ got (inode_of_bytes (inode_slice with_inode ((j - 1) % 46)))
    unfolding after
    read_same j pos_j same =
        let block : block_of s.superblock j ≡ block_of s.superblock k =
          ap (λ t. s.superblock.first_data_block - s.superblock.inode_blocks + t) same in
        read_at after j with_inode refl pos_j (omega (arith, same, low)) (
          ap (dev.read after.device) block
          ∙ law.written s.device (block_of s.superblock k) with_inode done size_after)

    slice_same :
        (j : ℕ)
        → (k - 1) % 46 ≢ (j - 1) % 46
        → inode_slice with_inode ((j - 1) % 46) ≡ inode_slice bytes ((j - 1) % 46)
    unfolding with_inode
    slice_same j ne =
        take-drop-put_bytes_other bytes ((k - 1) % 46 * 88) (inode_bytes inode) ((j - 1) % 46 * 88)
          88
          (rw (length-inode_bytes inode i) (swap (slices_apart ((k - 1) % 46) ((j - 1) % 46) ne)))

    slice_own : inode_slice with_inode ((k - 1) % 46) ≡ inode_bytes inode
    unfolding with_inode
    slice_own =
        let room : (k - 1) % 46 * 88 + length (inode_bytes inode) ≤ length bytes =
          omega (arith, length-inode_bytes inode i, size) in
        ap (λ t. take t (drop ((k - 1) % 46 * 88) with_inode)) (sym (length-inode_bytes inode i))
        ∙ take-drop-put_bytes bytes ((k - 1) % 46 * 88) (inode_bytes inode) room

    read_other_block :
        (j : ℕ)
        → 0 < j
        → (j - 1) / 46 < s.superblock.inode_blocks
        → (j - 1) / 46 ≢ (k - 1) / 46
        → sfs_read_inode_raw dev after j true ≡ sfs_read_inode_raw dev s j true
    unfolding after
    read_other_block j pos_j low_j ne =
        let (found, read, full) =
          h.readable (block_of s.superblock j) (omega (arith, low_j, h.before, h.within)) in
        let apart : block_of s.superblock k ≢ block_of s.superblock j =
          λ e. ne (omega (arith, e)) in
        read_at after j found refl pos_j low_j (
          law.others s.device (block_of s.superblock k) with_inode (block_of s.superblock j) apart
            size_after
          ∙ read)
        ∙ sym (read_at s j found refl pos_j low_j read)

    -- what is read of inode `j` after the write
    read_after :
        (j : ℕ)
        → sfs_read_inode_raw dev after j true
          ≡ (if k == j then got inode else sfs_read_inode_raw dev s j true)
    read_after j = elim (Bool-cases ((j == 0) || leb s.superblock.inode_blocks ((j - 1) / 46))) [
      | inl out ↦ rw (out_of_range s.superblock.inode_blocks k j positive low out) (
          read_none after j (unfold after in location_out s.superblock j out)
          ∙ sym (read_none s j (location_out s.superblock j out)))
      | inr ok ↦
          let (pos_j, low_j) = in_range s.superblock.inode_blocks j ok in
          elim (Bool-cases ((j - 1) / 46 == (k - 1) / 46)) [
            | inr ne ↦
                let other : (k == j) ≡ false = ground (arith, ne) in
                rw other (read_other_block j pos_j low_j (==-ne _ _ ne))
            | inl e ↦
                let same : (j - 1) / 46 ≡ (k - 1) / 46 = ground arith in
                elim (Bool-cases (k == j)) [
                  | inl own ↦
                      let w : j ≡ k = ground arith in
                      rw own (
                        read_same j pos_j same
                        ∙ ap (λ t. got (inode_of_bytes (inode_slice with_inode ((t - 1) % 46)))) w
                        ∙ ap (λ t. got (inode_of_bytes t)) slice_own
                        ∙ ap got (inode_of_bytes-inode_bytes inode i))
                  | inr other ↦
                      let apart : (k - 1) % 46 ≢ (j - 1) % 46 =
                        λ q. ==-ne _ _ other (omega (arith, q, same, positive, pos_j)) in
                      let block : block_of s.superblock j ≡ block_of s.superblock k =
                        ap (λ t. s.superblock.first_data_block - s.superblock.inode_blocks + t)
                          same in
                      rw other (
                        read_same j pos_j same
                        ∙ ap (λ t. got (inode_of_bytes t)) (slice_same j apart)
                        ∙ sym (
                            read_at s j bytes refl pos_j low_j
                              (ap (dev.read s.device) block ∙ there)))
                ]
          ]
    ]

  -- On a device whose writes of its blocks succeed and change one block each, with the blocks of the inodes in front
  -- of the data, the data start within the file system, all its blocks on the device, and each of them readable with
  -- 4096 bytes, less than 2 ^ 32 of them: where kmalloc returns memory, writing an inode of the table, with twelve
  -- direct blocks and numbers of 32 bits, succeeds, and then every inode, read with memory, reads as before but for
  -- the written one, which reads as it was written; where kmalloc returns none for the write, it gives VFS_ENOMEM and
  -- changes nothing.
  pub sfs_read_inode_raw-sfs_write_inode_raw :
      (k : ℕ) (inode : SfsInode)
      → IsInode inode
      → 0 < k
      → (k - 1) / 46 < s.superblock.inode_blocks
      → (j : ℕ)
      → ((sfs_write_inode_raw dev s k inode true).0 ≡ vfs_success)
        × (sfs_read_inode_raw dev (sfs_write_inode_raw dev s k inode true).1 j true
            ≡ (if k == j then got inode else sfs_read_inode_raw dev s j true))
        × (sfs_write_inode_raw dev s k inode false ≡ (vfs_enomem, s))
  sfs_read_inode_raw-sfs_write_inode_raw k inode i positive low j =
      let (bytes, there, size) =
        h.readable (block_of s.superblock k) (omega (arith, low, h.before, h.within)) in
      let step = write_step k inode bytes i positive low there size in
      (
        ap (λ t. t.0) step,
        ap (λ t. sfs_read_inode_raw dev t.1 j true) step
            ∙ read_after k inode bytes i positive low there size j,
        without_memory k inode positive low,
      )
