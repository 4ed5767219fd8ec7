-- ===== src/Sfs/Inodes/Place.antt =====
-- Where an inode stands on the disk.
use build_your_own_os.Prelude.{
  ℕ, ◌+◌, ◌-◌, ◌*◌, ◌/◌, ◌%◌, ◌^◌, ◌≤◌, ◌<◌, ◌≡◌, ◌≢◌, ◌⊎◌, refl, inl, inr, true, false, ◌||◌, none,
  some, leb, ltb, ltb→lt, leb_of_lt, ◌==◌, arith, Bool-cases,
}
use build_your_own_os.Sfs.{Superblock}
use build_your_own_os.Sfs.Inodes.{sfs_inode_location}

-- the block of inode `k`
abbrev pub block_of : Superblock → ℕ → ℕ
block_of sb k = sb.first_data_block - sb.inode_blocks + (k - 1) / 46

pub location :
    (sb : Superblock) (k : ℕ)
    → sb.inode_blocks ≤ sb.first_data_block
    → sb.first_data_block < 2 ^ 32
    → 0 < k
    → (k - 1) / 46 < sb.inode_blocks
    → sfs_inode_location sb k ≡ some (block_of sb k, (k - 1) % 46)
unfolding sfs_inode_location
location sb k before word positive low =
    let e : (k == 0) ≡ false = ground (arith, positive) in
    let f : leb sb.inode_blocks ((k - 1) / 46) ≡ false =
      leb_of_lt sb.inode_blocks ((k - 1) / 46) low in
    let block : ((sb.first_data_block + 2 ^ 32 - sb.inode_blocks) % 2 ^ 32 + (k - 1) / 46) % 2 ^ 32
        ≡ block_of sb k =
      omega (arith, before, word, low) in
    rw (e, f, block) refl

pub location_out :
    (sb : Superblock) (k : ℕ)
    → ((k == 0) || leb sb.inode_blocks ((k - 1) / 46)) ≡ true
    → sfs_inode_location sb k ≡ none
unfolding sfs_inode_location
location_out sb k out = elim (Bool-cases (k == 0)) [
  | inl e ↦ rw e refl
  | inr ne ↦
      let f : leb sb.inode_blocks ((k - 1) / 46) ≡ true = ground (arith, out, ne) in rw (ne, f) refl
]

pub in_range : (m j : ℕ) → ((j == 0) || leb m ((j - 1) / 46)) ≡ false → (0 < j) × ((j - 1) / 46 < m)
in_range m j ok =
    let a : 0 < j = ground (arith, ok) in let b : (j - 1) / 46 < m = ground (arith, ok) in (a, b)

pub out_of_range :
    (m k j : ℕ)
    → 0 < k
    → (k - 1) / 46 < m
    → ((j == 0) || leb m ((j - 1) / 46)) ≡ true
    → (k == j) ≡ false
out_of_range m k j positive low out = elim (Bool-cases (k == j)) [
  | inr ne ↦ ne
  | inl e ↦ let w : j ≡ k = ground arith in absurd (not_out m k positive low (rw w at out))
]
  where
    not_out : (m k : ℕ) → 0 < k → (k - 1) / 46 < m → ((k == 0) || leb m ((k - 1) / 46)) ≢ true
    not_out m k positive low e =
        let f : leb m ((k - 1) / 46) ≡ false = leb_of_lt m ((k - 1) / 46) low in
        let z : (k == 0) ≡ false = ground (arith, positive) in
        let w : false ≡ true = rw (z, f) at e in absurd (cc)

-- the slices of two inodes of a block
pub slices_apart : (a b : ℕ) → a ≢ b → (a * 88 + 88 ≤ b * 88) ⊎ (b * 88 + 88 ≤ a * 88)
slices_apart a b ne = elim (Bool-cases (ltb a b)) [
  | inl low ↦ inl (omega (arith, ltb→lt a b low))
  | inr high ↦ let above : b ≤ a = ground (arith, high) in inr (omega (arith, above, ne))
]
