-- ===== src/Fd/Table/Alloc.antt =====
-- `fd_allocate` goes once round the table.
use build_your_own_os.Prelude.{
  ℕ, zero, suc, ◌+◌, ◌-◌, ◌%◌, ◌<◌, ◌≡◌, refl, ◌≢◌, ◌∙◌, ap, true, false, Option, some, arith, ◌==◌,
  length, length-set, get_or-set_self, get_or-set_ne, with_bit, has_bit-with_bit, Bool-cases, inl,
  inr, ℤ, pos, negsuc,
}
use build_your_own_os.Fd.Table.{
  FdTable, max_open_files, fd_at, used, unused, put_fd, search_fd, fd_allocate,
}

-- A table has its 32 descriptors, and the hint is one of them.
pub record IsTable (table : FdTable) : Type 0 where
  pub sized : length table.fds ≡ max_open_files
  pub hint : table.next_fd < max_open_files

-- The descriptor is handed out.
unfoldable pub take_fd : FdTable → ℕ → FdTable
take_fd table fd =
    record (put_fd table fd
      (record (fd_at table fd) { flags = with_bit (fd_at table fd).flags 0 })) {
        next_fd = (fd + 1) % max_open_files;
      }

-- What the search from `start` gives: the first descriptor from there on, round the end of the table,
-- that is not in use.
pub data Searched (table : FdTable) (start : ℕ) (r : Option (ℤ × FdTable)) : Type 0 where
  all_used :
      r ≡ some (negsuc 0, table)
      → ((e : ℕ) → e < max_open_files → used table ((start + e) % max_open_files) ≡ true)
      → Searched table start r
  taken :
      (d : ℕ)
      → r ≡ some (pos ((start + d) % max_open_files), take_fd table ((start + d) % max_open_files))
      → d < max_open_files
      → used table ((start + d) % max_open_files) ≡ false
      → ((e : ℕ) → e < d → used table ((start + e) % max_open_files) ≡ true)
      → Searched table start r

module _ (table : FdTable) (start : ℕ) where
  used_to :
      (d : ℕ)
      → used table ((start + d) % max_open_files) ≡ true
      → ((e : ℕ) → e < d → used table ((start + e) % max_open_files) ≡ true)
      → (e : ℕ) → e < d + 1
      → used table ((start + e) % max_open_files) ≡ true
  used_to d here before e h = elim (Bool-cases (e == d)) [
    | inl same ↦ let same' : e ≡ d = ground arith in rw same' here
    | inr apart ↦ before e (ground arith)
  ]

  search_fd-Searched :
      (fuel d : ℕ)
      → start < max_open_files
      → d + fuel ≡ max_open_files
      → ((e : ℕ) → e < d → used table ((start + e) % max_open_files) ≡ true)
      → d < max_open_files
      → Searched table start (search_fd fuel table start ((start + d) % max_open_files))
  unfolding search_fd take_fd
  search_fd-Searched zero d inside fuel before low = absurd (omega arith)
  search_fd-Searched (suc fuel) d inside enough before low =
      let fd : ℕ = (start + d) % max_open_files in
      elim (Bool-cases (used table fd)) [
        | inr free ↦ taken d (rw (free, search_fd)) low free before
        | inl busy ↦
            let before' = used_to d busy before in
            elim (Bool-cases ((fd + 1) % max_open_files == start)) [
              | inl back ↦
                  all_used (rw (busy, back, search_fd)) (λ e h. before' e (ground (arith, back)))
              | inr on ↦
                  let next : (fd + 1) % max_open_files ≡ (start + (d + 1)) % max_open_files =
                    omega arith in
                  let far : d + 1 < max_open_files = ground (arith, on) in
                  rw (busy, on, search_fd, next)
                    (search_fd-Searched fuel (d + 1) inside (omega arith) before' far)
            ]
      ]

-- The table after descriptor `fd` was handed out.
pub record Took (table : FdTable) (fd : ℕ) (table' : FdTable) : Type 0 where
  pub shape : IsTable table'
  pub now_used : used table' fd ≡ true
  pub file : (fd_at table' fd).file ≡ (fd_at table fd).file
  pub others : (j : ℕ) → fd ≢ j → fd_at table' j ≡ fd_at table j

take_fd-Took :
    (table : FdTable) (fd : ℕ)
    → IsTable table
    → fd < max_open_files
    → Took table fd (take_fd table fd)
unfolding take_fd
take_fd-Took table fd t low =
    let fdesc = record (fd_at table fd) { flags = with_bit (fd_at table fd).flags 0 } in
    let at : fd_at (take_fd table fd) fd ≡ fdesc =
      get_or-set_self table.fds fd fdesc unused (omega (arith, t.sized)) in
    record {
      shape = record { sized = length-set table.fds fd fdesc ∙ t.sized; hint = omega arith };
      now_used = rw (at, has_bit-with_bit (fd_at table fd).flags 0 0);
      file = ap (λ f. f.file) at;
      others = λ j apart. get_or-set_ne table.fds fd j fdesc unused apart;
    }

-- what `fd_allocate` does with a table
pub data Allocated (table : FdTable) (r : Option (ℤ × FdTable)) : Type 0 where
  none_free :
      r ≡ some (negsuc 0, table)
      → ((j : ℕ) → j < max_open_files → used table j ≡ true)
      → Allocated table r
  handed_out :
      (d : ℕ) (table' : FdTable)
      → r ≡ some (pos ((table.next_fd + d) % max_open_files), table')
      → used table ((table.next_fd + d) % max_open_files) ≡ false
      → ((e : ℕ) → e < d → used table ((table.next_fd + e) % max_open_files) ≡ true)
      → Took table ((table.next_fd + d) % max_open_files) table'
      → Allocated table r

-- On a table with its 32 descriptors, `fd_allocate` ends. It returns the first descriptor from the
-- hint on, round the end of the table, that is not in use, marks it as used and changes no other; it
-- returns -1, and changes nothing, only if all are in use.
pub fd_allocate-Allocated : (table : FdTable) → IsTable table → Allocated table (fd_allocate table)
unfolding fd_allocate
fd_allocate-Allocated table t =
    let hint : (table.next_fd + 0) % max_open_files ≡ table.next_fd = omega (arith, t.hint) in
    from (
      rw hint at (
        search_fd-Searched table table.next_fd max_open_files 0 t.hint refl
          (λ e h. absurd (omega arith)) (omega arith)))
  where
    from : {r : Option (ℤ × FdTable)} → Searched table table.next_fd r → Allocated table r
    from (all_used e all) = none_free e (λ j h.
        let back : (table.next_fd + (j + max_open_files - table.next_fd) % max_open_files)
              % max_open_files
            ≡ j =
          omega (arith, t.hint) in
        rw back at (all ((j + max_open_files - table.next_fd) % max_open_files) (omega arith)))
    from (taken d e low free before) =
        handed_out d _ e free before
          (take_fd-Took table ((table.next_fd + d) % max_open_files) t (omega arith))
