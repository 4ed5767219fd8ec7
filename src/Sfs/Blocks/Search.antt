-- ===== src/Sfs/Blocks/Search.antt =====
-- The search for a clear bit.
use build_your_own_os.Prelude.{
  ℕ, zero, suc, ◌+◌, ◌≤◌, ◌<◌, ◌≡◌, refl, inl, inr, true, false, List, ◌==◌, arith, Bool-cases,
}
use build_your_own_os.Sfs.Blocks.{sfs_test_bit, find_bit, no_bit}

-- The first bit that is clear, or the value that says there is none.
pub data FreeBit (bitmap : List ℕ) (i size r : ℕ) : Type 0 where
  all_set :
      r ≡ no_bit
      → ((j : ℕ) → i ≤ j → j < i + size → sfs_test_bit bitmap j ≡ true)
      → FreeBit bitmap i size r
  clear :
      i ≤ r
      → r < i + size
      → sfs_test_bit bitmap r ≡ false
      → ((j : ℕ) → i ≤ j → j < r → sfs_test_bit bitmap j ≡ true)
      → FreeBit bitmap i size r

pub find_bit-FreeBit :
    (size : ℕ) (bitmap : List ℕ) (i : ℕ) → FreeBit bitmap i size (find_bit size bitmap i)
unfolding find_bit
find_bit-FreeBit zero bitmap i = all_set refl (λ j low high. absurd (omega arith))
find_bit-FreeBit (suc size) bitmap i = elim (Bool-cases (sfs_test_bit bitmap i)) [
  | inr off ↦ rw off (clear (omega arith) (omega arith) off (λ j low high. absurd (omega arith)))
  | inl on ↦ rw on (
      from_next size bitmap i (find_bit size bitmap (i + 1)) on
        (find_bit-FreeBit size bitmap (i + 1)))
]
  where
    from_next :
        (size : ℕ) (bitmap : List ℕ) (i r : ℕ)
        → sfs_test_bit bitmap i ≡ true
        → FreeBit bitmap (i + 1) size r
        → FreeBit bitmap i (suc size) r
    from_next size bitmap i r on (all_set e h) = all_set e (λ j low high.
        elim (Bool-cases (i == j)) [
          | inl same ↦ let w : j ≡ i = ground arith in rw w on
          | inr other ↦ h j (ground arith) (omega arith)
        ])
    from_next size bitmap i r on (clear low high off h) =
        clear (omega arith) (omega arith) off (λ j low' high'. elim (Bool-cases (i == j)) [
          | inl same ↦ let w : j ≡ i = ground arith in rw w on
          | inr other ↦ h j (ground arith) high'
        ])
