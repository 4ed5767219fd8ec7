-- ===== src/Fd/Table/Clone.antt =====
-- `fd_table_clone`: the copy holds the same files, and each is counted once more for it.
use build_your_own_os.Prelude.{
  ℕ, zero, suc, ◌+◌, ◌<◌, ◌≤◌, ◌≡◌, refl, ◌∙◌, ap, true, false, Option, none, some, arith, ◌==◌,
  if◌then◌else◌, get_or, replicate, Bool-cases, inl, inr,
}
use build_your_own_os.Fd.Table.{
  Files, Fd, FdTable, fd_at, used, unused, put_fd, max_open_files, add_if, copy_fds,
  fd_table_create, fd_table_clone,
}
use build_your_own_os.Fd.Table.Alloc.{IsTable}
use build_your_own_os.Fd.Table.Refs.{eq_file, ref, refs, refs-unused, ref-unused}
use build_your_own_os.Fd.Table.Balance.{
  Balanced, Balanced-put_fd, fd_at-put_fd_self, fd_at-put_fd_ne,
}

-- what becomes of descriptor `j`
abbrev pub copy_of : FdTable → ℕ → Fd
copy_of src j = if used src j then fd_at src j else unused

-- Descriptors below `i` are copied, the others are still unused.
record Copying (src new_table : FdTable) (i : ℕ) : Type 0 where
  done : (j : ℕ) → j < i → fd_at new_table j ≡ copy_of src j
  rest : (j : ℕ) → i ≤ j → j < max_open_files → fd_at new_table j ≡ unused

module _ (src : FdTable) where
  Copying-next :
      (new_table : FdTable) (i : ℕ)
      → IsTable new_table
      → i < max_open_files
      → used src i ≡ true
      → Copying src new_table i
      → Copying src (put_fd new_table i (fd_at src i)) (i + 1)
  Copying-next new_table i t low on c = record {
    done = λ j h. elim (Bool-cases (i == j)) [
      | inl same ↦
          let e : j ≡ i = ground arith in
          rw e (fd_at-put_fd_self new_table i (fd_at src i) t low ∙ rw on)
      | inr apart ↦ fd_at-put_fd_ne new_table i j (fd_at src i) apart ∙ c.done j (ground arith)
    ];
    rest = λ j h low'.
        fd_at-put_fd_ne new_table i j (fd_at src i) (ground arith) ∙ c.rest j (omega arith) low';
  }

  Copying-skip :
      (new_table : FdTable) (i : ℕ)
      → i < max_open_files
      → used src i ≡ false
      → Copying src new_table i
      → Copying src new_table (i + 1)
  Copying-skip new_table i low off c = record {
    done = λ j h. elim (Bool-cases (i == j)) [
      | inl same ↦ let e : j ≡ i = ground arith in rw e (c.rest i (omega arith) low ∙ rw off)
      | inr apart ↦ c.done j (ground arith)
    ];
    rest = λ j h. c.rest j (omega arith);
  }

-- the references once a descriptor with file `o` is copied
add_if-count :
    {W : Type 0} (s : Files W) (o : Option ℕ) (q : ℕ)
    → ((add_if s o).file_at q).ref_count ≡ (s.file_at q).ref_count + (if eq_file o q then 1 else 0)
add_if-count s none q = ground arith
add_if-count s (some p) q = ground arith

-- The copy of the table, and the balance.
pub record Copied {W : Type 0} (held : ℕ → ℕ) (src : FdTable) (s : Files W) (new_table : FdTable)
    : Type 0 where
  pub balanced : Balanced held s new_table
  pub same : (j : ℕ) → j < max_open_files → fd_at new_table j ≡ copy_of src j

module _ {W : Type 0} (held : ℕ → ℕ) (src : FdTable) where
  Balanced-copy :
      (s : Files W) (new_table : FdTable) (i : ℕ)
      → i < max_open_files
      → used src i ≡ true
      → Balanced held s new_table
      → Copying src new_table i
      → Balanced held (add_if s (fd_at src i).file) (put_fd new_table i (fd_at src i))
  Balanced-copy s new_table i low on b c =
      Balanced-put_fd held s (add_if s (fd_at src i).file) new_table i (fd_at src i) low
        (λ off. absurd (ground (arith, on, off)))
        (λ q.
          let before : ref q (fd_at new_table i) ≡ 0 =
            ap (ref q) (c.rest i (omega arith) low) ∙ ref-unused q in
          let after : ref q (fd_at src i) ≡ (if eq_file (fd_at src i).file q then 1 else 0) =
            rw on in
          omega (arith, add_if-count s (fd_at src i).file q, before, after))
        b

  copy_fds-Copied :
      (rounds : ℕ) (s : Files W) (new_table : FdTable) (i : ℕ)
      → i + rounds ≡ max_open_files
      → Balanced held s new_table
      → Copying src new_table i
      → Copied held src (copy_fds rounds s src new_table i).0 (copy_fds rounds s src new_table i).1
  unfolding copy_fds
  copy_fds-Copied zero s new_table i all b c = record {
    balanced = b;
    same = λ j low. c.done j (omega arith);
  }
  copy_fds-Copied (suc rounds) s new_table i all b c = elim (Bool-cases (used src i)) [
    | inl on ↦
        rw (on, copy_fds)
          (copy_fds-Copied rounds _ (put_fd new_table i (fd_at src i)) (i + 1) (omega arith)
            (Balanced-copy s new_table i (omega arith) on b c)
            (Copying-next src new_table i b.shape (omega arith) on c))
    | inr off ↦
        rw (off, copy_fds)
          (copy_fds-Copied rounds s new_table (i + 1) (omega arith) b
            (Copying-skip src new_table i (omega arith) off c))
  ]

-- a table in which nothing is used
abbrev pub fresh_table : FdTable
fresh_table = record { fds = replicate max_open_files unused; next_fd = 0; ref_count = 1 }

get_or-unused : (n j : ℕ) → get_or (replicate n unused) j unused ≡ unused
get_or-unused zero j = refl
get_or-unused (suc n) zero = refl
get_or-unused (suc n) (suc j) = get_or-unused n j

pub fresh_table-Balanced :
    {W : Type 0} (s : Files W) → Balanced (λ q. (s.file_at q).ref_count) s fresh_table
fresh_table-Balanced s = record {
  shape = record { sized = refl; hint = omega arith };
  tidy = λ j off. ap (λ f. f.file) (get_or-unused max_open_files j);
  counts = λ q. omega (arith, refs-unused q max_open_files);
}

-- Both tables hold the files of `src`, and each file is counted for both.
pub record Cloned {W : Type 0} (elsewhere : ℕ → ℕ) (src : FdTable) (s' : Files W)
    (new_table : FdTable) : Type 0 where
  pub source : Balanced (λ q. elsewhere q + refs q new_table.fds) s' src
  pub copy : Balanced (λ q. elsewhere q + refs q src.fds) s' new_table
  pub same : (j : ℕ) → j < max_open_files → fd_at new_table j ≡ copy_of src j
  pub hint : new_table.next_fd ≡ src.next_fd

-- If memory is granted, `fd_table_clone` gives a table with the used descriptors of the source, and
-- the reference counts are right for the two tables together.
pub fd_table_clone-Cloned :
    {W : Type 0} (elsewhere : ℕ → ℕ) (s : Files W) (src : FdTable)
    → Balanced elsewhere s src
    → (r : Files W × FdTable) × (fd_table_clone true s src ≡ some r) × Cloned elsewhere src r.0 r.1
unfolding fd_table_clone fd_table_create
fd_table_clone-Cloned elsewhere s src b =
    let held : ℕ → ℕ = λ q. (s.file_at q).ref_count in
    let c =
      copy_fds-Copied held src max_open_files s fresh_table 0 refl (fresh_table-Balanced s)
        (record {
          done = λ j h. absurd (omega arith);
          rest = λ j h low. get_or-unused max_open_files j;
        }) in
    let copied = copy_fds max_open_files s src fresh_table 0 in
    (
      (copied.0, record copied.1 { next_fd = src.next_fd }),
      refl,
      record {
        source = record {
          shape = b.shape;
          tidy = b.tidy;
          counts = λ q. omega (arith, c.balanced.counts q, b.counts q);
        };
        copy = record {
          shape = record { sized = c.balanced.shape.sized; hint = b.shape.hint };
          tidy = c.balanced.tidy;
          counts = λ q. omega (arith, c.balanced.counts q, b.counts q);
        };
        same = c.same;
        hint = refl;
      },
    )
