-- ===== src/Fd/Table/Free.antt =====
-- `fd_free` gives a descriptor back, and its file's last reference closes the file.
use build_your_own_os.Prelude.{
  ℕ, ◌+◌, ◌-◌, ◌<◌, ◌≡◌, refl, true, false, none, some, arith, ltb, ◌==◌, has_bit, Bool-cases,
  Option-cases, inl, inr, pos,
}
use build_your_own_os.Fd.Table.{
  Files, FdTable, fd_at, used, unused, put_fd, max_open_files, fd_free, drop_reference, close_with,
  close_op,
}
use build_your_own_os.Fd.Table.Refs.{ref, refs, refs-set, ref-unused, ref-some, ref-none}
use build_your_own_os.Fd.Table.Balance.{
  Balanced, Balanced-put_fd, fd_at-put_fd_self, fd_at-put_fd_ne, drop_reference-count,
}

-- the file system's part in the end of file `p`
abbrev pub closed : {W : Type 0} → Files W → ℕ → W
closed s p = close_with (close_op (s.file_at p).ops) p s.world

-- Descriptor `fd` is free again; `close` was called only if there is no other reference to its file.
pub record Freed {W : Type 0} (elsewhere : ℕ → ℕ) (s : Files W) (table : FdTable) (fd : ℕ)
    (s' : Files W) (table' : FdTable) : Type 0 where
  pub balanced : Balanced elsewhere s' table'
  pub gone : fd_at table' fd ≡ unused
  pub others : (j : ℕ) → (fd == j) ≡ false → fd_at table' j ≡ fd_at table j
  pub empty : (fd_at table fd).file ≡ none → s' ≡ s
  pub last :
      (p : ℕ)
      → (fd_at table fd).file ≡ some p
      → elsewhere p + refs p table'.fds ≡ 0
      → s'.world ≡ closed s p
  pub shared :
      (p : ℕ)
      → (fd_at table fd).file ≡ some p
      → 0 < elsewhere p + refs p table'.fds
      → s'.world ≡ s.world

fd_free-pos :
    {W : Type 0} (s : Files W) (table : FdTable) (fd : ℕ)
    → fd < max_open_files
    → used table fd ≡ true
    → fd_free s table (pos fd) ≡ (
      elim (fd_at table fd).file [ none ↦ s | some p ↦ drop_reference s p ],
      put_fd table fd unused,
    )
unfolding fd_free
fd_free-pos s table fd low on =
    let inside : ltb fd max_open_files ≡ true = ground arith in rw (inside, on)

module _ {W : Type 0} (elsewhere : ℕ → ℕ) (s : Files W) (table : FdTable) (fd : ℕ)
    (b : Balanced elsewhere s table) (low : fd < max_open_files) (on : used table fd ≡ true) where
  off_unused : has_bit unused.flags 0 ≡ false → unused.file ≡ none
  off_unused off = refl

  -- what is left of the references to `p`
  left : (p : ℕ) → refs p (put_fd table fd unused).fds + ref p (fd_at table fd) ≡ refs p table.fds
  left p =
      omega (arith, refs-set p table.fds fd unused (omega (arith, b.shape.sized)), ref-unused p)

  Freed-none : (fd_at table fd).file ≡ none → Freed elsewhere s table fd s (put_fd table fd unused)
  Freed-none empty = record {
    balanced =
        Balanced-put_fd elsewhere s s table fd unused low off_unused
          (λ q. omega (arith, ref-unused q, ref-none (fd_at table fd) q empty)) b;
    gone = fd_at-put_fd_self table fd unused b.shape low;
    others = λ j apart. fd_at-put_fd_ne table fd j unused apart;
    empty = λ _. refl;
    last = λ p e. absurd (ground (arith, empty, e));
    shared = λ p e. absurd (ground (arith, empty, e));
  }

  -- the references to the file of the descriptor
  held :
      (p : ℕ)
      → (fd_at table fd).file ≡ some p
      → (s.file_at p).ref_count ≡ elsewhere p + refs p (put_fd table fd unused).fds + 1
  held p e = ground (arith, b.counts p, left p, ref-some (fd_at table fd) p p on e)

  drop_reference-balance :
      (p q : ℕ)
      → (fd_at table fd).file ≡ some p
      → ((drop_reference s p).file_at q).ref_count + ref q (fd_at table fd)
        ≡ (s.file_at q).ref_count + ref q unused
  drop_reference-balance p q e = elim (Bool-cases (p == q)) [
    | inl same ↦
        let e' : q ≡ p = ground arith in
        rw e' (
          ground (
            arith,
            drop_reference-count s p p,
            ref-some (fd_at table fd) p p on e,
            ref-unused p,
            held p e,
          ))
    | inr apart ↦
        ground (arith, drop_reference-count s p q, ref-some (fd_at table fd) p q on e, ref-unused q)
  ]

  drop_reference-last :
      (p : ℕ)
      → (fd_at table fd).file ≡ some p
      → elsewhere p + refs p (put_fd table fd unused).fds ≡ 0
      → (drop_reference s p).world ≡ closed s p
  unfolding drop_reference
  drop_reference-last p e none_left =
      let zero_left : ((s.file_at p).ref_count - 1 == 0) ≡ true = ground (arith, held p e) in
      rw zero_left

  drop_reference-shared :
      (p : ℕ)
      → (fd_at table fd).file ≡ some p
      → 0 < elsewhere p + refs p (put_fd table fd unused).fds
      → (drop_reference s p).world ≡ s.world
  unfolding drop_reference
  drop_reference-shared p e more =
      let some_left : ((s.file_at p).ref_count - 1 == 0) ≡ false = ground (arith, held p e) in
      rw some_left

  Freed-some :
      (p : ℕ)
      → (fd_at table fd).file ≡ some p
      → Freed elsewhere s table fd (drop_reference s p) (put_fd table fd unused)
  Freed-some p e = record {
    balanced =
        Balanced-put_fd elsewhere s (drop_reference s p) table fd unused low off_unused
          (λ q. drop_reference-balance p q e) b;
    gone = fd_at-put_fd_self table fd unused b.shape low;
    others = λ j apart. fd_at-put_fd_ne table fd j unused apart;
    empty = λ none_there. absurd (ground (arith, none_there, e));
    last = λ q e' none_left.
        let same : q ≡ p = ground (arith, e, e') in
        rw same (drop_reference-last p e (rw same at none_left));
    shared = λ q e' more.
        let same : q ≡ p = ground (arith, e, e') in drop_reference-shared p e (rw same at more);
  }

  -- `fd_free` of a descriptor that is in use frees it and no other, and the reference counts stay
  -- right. The file system's `close` is called exactly if no other descriptor holds the file.
  pub fd_free-Freed :
      Freed elsewhere s table fd (fd_free s table (pos fd)).0 (fd_free s table (pos fd)).1
  fd_free-Freed = elim (Option-cases (fd_at table fd).file) [
    | inl e ↦ rw (fd_free-pos s table fd low on, e) (Freed-none e)
    | inr (p, e) ↦ rw (fd_free-pos s table fd low on, e) (Freed-some p e)
  ]
