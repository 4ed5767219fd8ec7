-- ===== src/Fd/Table/Destroy.antt =====
-- `fd_table_destroy` gives every reference of the table back.
use build_your_own_os.Prelude.{
  ℕ, zero, suc, ◌+◌, ◌<◌, ◌≡◌, refl, ◌∙◌, ap, false, List, [], ◌∷◌, arith, ◌==◌, length, get_or,
  has_bit, has_bit-zero, Bool-cases, inl, inr, pos,
}
use build_your_own_os.Fd.Table.{
  Files, Fd, FdTable, used, unused, max_open_files, fd_free, free_fds, fd_table_destroy,
}
use build_your_own_os.Fd.Table.Refs.{refs}
use build_your_own_os.Fd.Table.Balance.{Balanced}
use build_your_own_os.Fd.Table.Free.{fd_free-Freed}

-- A table in which nothing is used holds no file.
refs-none_used :
    (p : ℕ) (fds : List Fd)
    → ((j : ℕ) → j < length fds → has_bit (get_or fds j unused).flags 0 ≡ false)
    → refs p fds ≡ 0
refs-none_used p [] off = refl
refs-none_used p (f ∷ fs) off =
    let rest = refs-none_used p fs (λ j h. off (suc j) (omega arith)) in
    let head : has_bit f.flags 0 ≡ false = off 0 (omega arith) in ground (arith, rest, head)

module _ {W : Type 0} (elsewhere : ℕ → ℕ) where
  free_fds-Balanced :
      (rounds : ℕ) (s : Files W) (table : FdTable) (i : ℕ)
      → i + rounds ≡ max_open_files
      → Balanced elsewhere s table
      → ((j : ℕ) → j < i → used table j ≡ false)
      → Balanced elsewhere (free_fds rounds s table i).0 (free_fds rounds s table i).1
        × ((j : ℕ) → j < max_open_files → used (free_fds rounds s table i).1 j ≡ false)
  unfolding free_fds
  free_fds-Balanced zero s table i all b off = (b, λ j h. off j (omega arith))
  free_fds-Balanced (suc rounds) s table i all b off = elim (Bool-cases (used table i)) [
    | inr idle ↦
        rw (idle, free_fds)
          (free_fds-Balanced rounds s table (i + 1) (omega arith) b (λ j h.
            elim (Bool-cases (i == j)) [
              | inl same ↦ let e : j ≡ i = ground arith in rw e idle
              | inr apart ↦ off j (ground arith)
            ]))
    | inl on ↦
        let f = fd_free-Freed elsewhere s table i b (omega arith) on in
        rw (on, free_fds)
          (free_fds-Balanced rounds (fd_free s table (pos i)).0 (fd_free s table (pos i)).1 (i + 1)
            (omega arith) f.balanced
            (λ j h. elim (Bool-cases (i == j)) [
              | inl same ↦
                  let e : j ≡ i = ground arith in
                  rw e (ap (λ d. has_bit d.flags 0) f.gone ∙ has_bit-zero 0)
              | inr apart ↦ ap (λ d. has_bit d.flags 0) (f.others j apart) ∙ off j (ground arith)
            ]))
  ]

  -- After `fd_table_destroy` every file is counted for the descriptors of the other tables alone.
  pub fd_table_destroy-refs :
      (s : Files W) (table : FdTable)
      → Balanced elsewhere s table
      → (p : ℕ) → ((fd_table_destroy s table).file_at p).ref_count ≡ elsewhere p
  unfolding fd_table_destroy
  fd_table_destroy-refs s table b p =
      let (b', off) =
        free_fds-Balanced max_open_files s table 0 refl b (λ j h. absurd (omega arith)) in
      let none_left =
        refs-none_used p (free_fds max_open_files s table 0).1.fds
          (λ j h. off j (omega (arith, b'.shape.sized))) in
      omega (arith, b'.counts p, none_left)
