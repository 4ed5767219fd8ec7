-- ===== src/Fd/Calls/Laws.antt =====
-- The calls on descriptors in any order: each ends, and the reference counts stay right.
use build_your_own_os.Prelude.{
  ℕ, ◌≡◌, refl, ◌∙◌, Bool, true, ◌&&◌, ◌||◌, not, Option, none, some, arith, ltb, ◌==◌, bit_and,
  Bool-cases, Option-cases, inl, inr, ℤ, pos, negsuc, ◌+ℤ◌, is_positive,
}
use build_your_own_os.Fd.Table.{Files, FdTable, max_open_files, used, fd_free, fd_is_valid}
use build_your_own_os.Fd.Table.Balance.{Balanced}
use build_your_own_os.Fd.Table.Free.{fd_free-Freed}
use build_your_own_os.Fd.Calls.{
  Vfs, FdSystem, lookup, with_world, advance, transfer, fd_read, move_to, seek_at, fd_seek,
  fd_close, sync_with, fd_sync, seek_op, sync_op, vfs_seek_set, vfs_seek_cur, vfs_seek_end,
  vfs_o_wronly,
}

-- The system is up, and the reference counts are right.
pub record IsSound {W : Type 0} (elsewhere : ℕ → ℕ) (s : FdSystem W) : Type 0 where
  pub up : s.fd_initialized ≡ true
  pub own : (t : FdTable) × (s.table ≡ some t) × Balanced elsewhere s.files t

module _ {W : Type 0} (elsewhere : ℕ → ℕ) where
  pub Balanced-files :
      (s s' : Files W) (t : FdTable)
      → ((p : ℕ) → (s'.file_at p).ref_count ≡ (s.file_at p).ref_count)
      → Balanced elsewhere s t
      → Balanced elsewhere s' t
  Balanced-files s s' t same b = record {
    shape = b.shape;
    tidy = b.tidy;
    counts = λ p. same p ∙ b.counts p;
  }

  -- A change of the files that keeps the reference counts.
  pub IsSound-files :
      (s s' : FdSystem W)
      → s'.fd_initialized ≡ s.fd_initialized
      → s'.table ≡ s.table
      → ((p : ℕ) → (s'.files.file_at p).ref_count ≡ (s.files.file_at p).ref_count)
      → IsSound elsewhere s
      → IsSound elsewhere s'
  IsSound-files s s' up table same i =
      let (t, e, b) = i.own in
      record { up = up ∙ i.up; own = (t, table ∙ e, Balanced-files s.files s'.files t same b) }

  advance-IsSound :
      (s : FdSystem W) (p : ℕ) (result : ℤ)
      → IsSound elsewhere s
      → IsSound elsewhere (advance s p result)
  advance-IsSound s p result i = elim (Bool-cases (is_positive result)) [
    | inl more ↦ rw more (IsSound-files s _ refl refl (λ q. ground arith) i)
    | inr rest ↦ rw rest i
  ]

  transfer-IsSound :
      (s : FdSystem W) (p : ℕ) (op : Option (ℕ → ℕ → ℤ → W → ℤ × W)) (placeholder : W → ℤ × W)
      (count : ℕ)
      → IsSound elsewhere s
      → IsSound elsewhere (transfer s p op placeholder count).1
  unfolding transfer
  transfer-IsSound s p none placeholder count i = IsSound-files s _ refl refl (λ q. refl) i
  transfer-IsSound s p (some op) placeholder count i =
      let r = op p count (s.files.file_at p).position s.files.world in
      advance-IsSound (with_world s r.1) p r.0 (IsSound-files s _ refl refl (λ q. refl) i)

  seek_at-IsSound :
      (s : FdSystem W) (p : ℕ) (op : Option (ℕ → ℤ → ℤ → ℕ → W → ℤ × (ℤ × W))) (offset : ℤ)
      (whence : ℕ)
      → IsSound elsewhere s
      → IsSound elsewhere (seek_at s p op offset whence).1
  unfolding seek_at
  seek_at-IsSound s p (some op) offset whence i = IsSound-files s _ refl refl (λ q. ground arith) i
  seek_at-IsSound s p none offset whence i =
      let moved : (z : ℤ) → IsSound elsewhere (move_to s p z).1 =
        λ z. IsSound-files s _ refl refl (λ q. ground arith) i in
      elim (Bool-cases (whence == vfs_seek_set)) [
        | inl e ↦ rw e (moved offset)
        | inr n ↦ elim (Bool-cases (whence == vfs_seek_cur)) [
          | inl e ↦ rw (n, e) (moved ((s.files.file_at p).position +ℤ offset))
          | inr n' ↦ elim (Bool-cases (whence == vfs_seek_end)) [
            | inl e ↦ rw (n, n', e) (moved offset)
            | inr n'' ↦ rw (n, n', n'') i
          ]
        ]
      ]

  sync_with-IsSound :
      (s : FdSystem W) (p : ℕ) (op : Option (ℕ → W → ℤ × W))
      → IsSound elsewhere s
      → IsSound elsewhere (sync_with s p op).1
  unfolding sync_with
  sync_with-IsSound s p none i = i
  sync_with-IsSound s p (some op) i = IsSound-files s _ refl refl (λ q. refl) i

  pub fd_read-IsSound :
      (vfs : Vfs W) (s : FdSystem W) (fd : ℤ) (buf : Bool) (count : ℕ)
      → IsSound elsewhere s
      → IsSound elsewhere (fd_read vfs s fd buf count).1
  unfolding fd_read
  fd_read-IsSound vfs s fd buf count i = elim (Bool-cases (not buf || count == 0)) [
    | inl bad ↦ rw (bad, fd_read) i
    | inr good ↦ elim (Option-cases (lookup s fd)) [
      | inl e ↦ rw (good, e, fd_read) i
      | inr (r, e) ↦ elim (Bool-cases (bit_and r.0.open_flags vfs_o_wronly == vfs_o_wronly)) [
        | inl w ↦ rw (good, e, w, fd_read) i
        | inr rd ↦ rw (good, e, rd, fd_read) (transfer-IsSound s r.1 _ _ count i)
      ]
    ]
  ]

  pub fd_seek-IsSound :
      (s : FdSystem W) (fd offset : ℤ) (whence : ℕ)
      → IsSound elsewhere s
      → IsSound elsewhere (fd_seek s fd offset whence).1
  unfolding fd_seek
  fd_seek-IsSound s fd offset whence i = elim (Option-cases (lookup s fd)) [
    | inl e ↦ rw (e, fd_seek) i
    | inr (r, e) ↦
        rw (e, fd_seek) (seek_at-IsSound s r.1 (seek_op (s.files.file_at r.1).ops) offset whence i)
  ]

  pub fd_sync-IsSound :
      (s : FdSystem W) (fd : ℤ) → IsSound elsewhere s → IsSound elsewhere (fd_sync s fd).1
  unfolding fd_sync
  fd_sync-IsSound s fd i = elim (Option-cases (lookup s fd)) [
    | inl e ↦ rw (e, fd_sync) i
    | inr (r, e) ↦ rw (e, fd_sync) (sync_with-IsSound s r.1 (sync_op (s.files.file_at r.1).ops) i)
  ]

  pub fd_free-Balanced :
      (s : Files W) (t : FdTable) (fd : ℤ)
      → Balanced elsewhere s t
      → Balanced elsewhere (fd_free s t fd).0 (fd_free s t fd).1
  unfolding fd_free
  fd_free-Balanced s t (negsuc n) b = b
  fd_free-Balanced s t (pos fd) b = elim (Bool-cases (ltb fd max_open_files && used t fd)) [
    | inl on ↦ (fd_free-Freed elsewhere s t fd b (ground arith) (ground arith)).balanced
    | inr off ↦ rw (off, fd_free) b
  ]

  pub fd_close-IsSound :
      (s : FdSystem W) (fd : ℤ) → IsSound elsewhere s → IsSound elsewhere (fd_close s fd).1
  unfolding fd_close
  fd_close-IsSound s fd i =
      let (t, e, b) = i.own in
      elim (Bool-cases (fd_is_valid t fd)) [
        | inl valid ↦
            rw (i.up, e, valid, fd_close)
              (record { up = i.up; own = (_, refl, fd_free-Balanced s.files t fd b) })
        | inr other ↦ rw (i.up, e, other, fd_close) i
      ]
