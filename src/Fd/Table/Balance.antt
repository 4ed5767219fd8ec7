-- ===== src/Fd/Table/Balance.antt =====
-- The reference count of every file is the number of descriptors that hold it: kept by `fd_assign`,
-- `fd_free` and `fd_allocate`.
use build_your_own_os.Prelude.{
  ℕ, ◌+◌, ◌-◌, ◌<◌, ◌≡◌, refl, ◌∙◌, sym, ap, true, false, none, some, arith, ltb, ◌==◌,
  if◌then◌else◌, length-set, get_or-set_self, get_or-set_ne, has_bit, Bool-cases, inl, inr, pos,
}
use build_your_own_os.Fd.Table.{
  Files, Fd, FdTable, fd_at, used, unused, put_fd, max_open_files, fd_assign, drop_reference,
  add_reference,
}
use build_your_own_os.Fd.Table.Alloc.{IsTable}
use build_your_own_os.Fd.Table.Refs.{ref, refs, refs-set, ref-some, ref-none}

-- Every file is counted once for each descriptor of the table that holds it, and for the `elsewhere`
-- descriptors of other tables; a descriptor that is not in use holds no file.
pub record Balanced {W : Type 0} (elsewhere : ℕ → ℕ) (s : Files W) (table : FdTable) : Type 0 where
  pub shape : IsTable table
  pub tidy : (j : ℕ) → used table j ≡ false → (fd_at table j).file ≡ none
  pub counts : (p : ℕ) → (s.file_at p).ref_count ≡ elsewhere p + refs p table.fds

pub fd_at-put_fd_self :
    (table : FdTable) (fd : ℕ) (v : Fd)
    → IsTable table
    → fd < max_open_files
    → fd_at (put_fd table fd v) fd ≡ v
fd_at-put_fd_self table fd v t low = get_or-set_self table.fds fd v unused (omega (arith, t.sized))

pub fd_at-put_fd_ne :
    (table : FdTable) (fd j : ℕ) (v : Fd)
    → (fd == j) ≡ false
    → fd_at (put_fd table fd v) j ≡ fd_at table j
fd_at-put_fd_ne table fd j v apart =
    get_or-set_ne table.fds fd j v unused (λ e. ground (arith, apart))

module _ {W : Type 0} (elsewhere : ℕ → ℕ) (s s' : Files W) (table : FdTable) where
  -- A write of one descriptor keeps the balance if the counts change by what it held and holds.
  pub Balanced-put_fd :
      (fd : ℕ) (v : Fd)
      → fd < max_open_files
      → (has_bit v.flags 0 ≡ false → v.file ≡ none)
      → ((p : ℕ)
          → (s'.file_at p).ref_count + ref p (fd_at table fd) ≡ (s.file_at p).ref_count + ref p v)
      → Balanced elsewhere s table
      → Balanced elsewhere s' (put_fd table fd v)
  Balanced-put_fd fd v low neat change b = record {
    shape = record { sized = length-set table.fds fd v ∙ b.shape.sized; hint = b.shape.hint };
    tidy = λ j off. elim (Bool-cases (fd == j)) [
      | inl same ↦
          let e : j ≡ fd = ground arith in
          let at : fd_at (put_fd table fd v) j ≡ v =
            rw e (fd_at-put_fd_self table fd v b.shape low) in
          ap (λ f. f.file) at ∙ neat (sym (ap (λ f. has_bit f.flags 0) at) ∙ off)
      | inr apart ↦
          let at = fd_at-put_fd_ne table fd j v apart in
          ap (λ f. f.file) at ∙ b.tidy j (sym (ap (λ f. has_bit f.flags 0) at) ∙ off)
    ];
    counts = λ p.
        omega
          (arith, change p, b.counts p, refs-set p table.fds fd v (omega (arith, b.shape.sized)));
  }

module _ {W : Type 0} (s : Files W) where
  pub add_reference-count :
      (p q : ℕ)
      → ((add_reference s p).file_at q).ref_count
        ≡ (s.file_at q).ref_count + (if p == q then 1 else 0)
  add_reference-count p q = ground arith

  pub drop_reference-count :
      (p q : ℕ)
      → ((drop_reference s p).file_at q).ref_count
        ≡ (s.file_at q).ref_count - (if p == q then 1 else 0)
  unfolding drop_reference
  drop_reference-count p q = ground arith

-- what `fd_assign` does with a descriptor that holds no file yet
pub record Assigned {W : Type 0} (elsewhere : ℕ → ℕ) (table : FdTable) (fd p flags : ℕ)
    (s' : Files W) (table' : FdTable) : Type 0 where
  pub balanced : Balanced elsewhere s' table'
  pub file : (fd_at table' fd).file ≡ some p
  pub flagged : (fd_at table' fd).open_flags ≡ flags
  pub still : used table' fd ≡ true
  pub others : (j : ℕ) → (fd == j) ≡ false → fd_at table' j ≡ fd_at table j

module _ {W : Type 0} (elsewhere : ℕ → ℕ) (s : Files W) (table : FdTable) (fd : ℕ)
    (b : Balanced elsewhere s table) (low : fd < max_open_files) (on : used table fd ≡ true) where
  -- `fd_assign` to a descriptor that is in use and holds no file succeeds: the descriptor holds the
  -- file, no other descriptor changes, and the reference counts stay right.
  pub fd_assign-Assigned :
      (p flags : ℕ)
      → (fd_at table fd).file ≡ none
      → (r : Files W × FdTable) × (fd_assign s table (pos fd) (some p) flags ≡ some r)
        × Assigned elsewhere table fd p flags r.0 r.1
  unfolding fd_assign
  fd_assign-Assigned p flags empty =
      let v = record (fd_at table fd) { file = some p; open_flags = flags; mode = 420 } in
      let at = fd_at-put_fd_self table fd v b.shape low in
      let inside : ltb fd max_open_files ≡ true = ground arith in
      (
        (add_reference s p, put_fd table fd v),
        rw (inside, on),
        record {
          balanced =
              Balanced-put_fd elsewhere s (add_reference s p) table fd v low
                (λ off. absurd (ground arith))
                (λ q. omega (
                  arith,
                  add_reference-count s p q,
                  ref-some v p q on refl,
                  ref-none (fd_at table fd) q empty,
                ))
                b;
          file = ap (λ f. f.file) at;
          flagged = ap (λ f. f.open_flags) at;
          still = ap (λ f. has_bit f.flags 0) at ∙ on;
          others = λ j apart. fd_at-put_fd_ne table fd j v apart;
        },
      )
