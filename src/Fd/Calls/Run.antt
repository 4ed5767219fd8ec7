-- ===== src/Fd/Calls/Run.antt =====
-- `fd_open` and `fd_write`, and programs that make any calls in any order.
use build_your_own_os.Prelude.{
  ℕ, ◌+◌, ◌%◌, ◌<◌, ◌≡◌, refl, ◌∙◌, sym, ap, Bool, true, false, ◌||◌, not, Option, none, some, List,
  [], ◌∷◌, arith, ◌==◌, bit_and, has_bit, Bool-cases, Option-cases, inl, inr, ℤ, pos, negsuc,
  is_negative, bit_and-zero,
}
use build_your_own_os.Fd.Table.{Files, Fd, FdTable, max_open_files, used, fd_at, put_fd, fd_get}
use build_your_own_os.Fd.Table.Alloc.{none_free, handed_out, Took, fd_allocate-Allocated}
use build_your_own_os.Fd.Table.Refs.{ref, refs-cong, ref-none}
use build_your_own_os.Fd.Table.Balance.{Balanced, Balanced-put_fd, fd_at-put_fd_self}
use build_your_own_os.Fd.Calls.{
  Vfs, FdSystem, minus_1, lookup, with_world, open_at, fd_open, fd_read, fd_write, fd_seek,
  fd_close, fd_sync, vfs_o_rdonly,
}
use build_your_own_os.Fd.Calls.Laws.{
  IsSound, fd_read-IsSound, fd_seek-IsSound, fd_close-IsSound, fd_sync-IsSound, fd_free-Balanced,
}

-- `fd_write` returns -1 and writes nothing, whatever the descriptor, the file and its open flags: its
-- test for a read-only file, with VFS_O_RDONLY = 0, holds of every file.
pub fd_write-refuses :
    {W : Type 0} (vfs : Vfs W) (s : FdSystem W) (fd : ℤ) (buf : Bool) (count : ℕ)
    → fd_write vfs s fd buf count ≡ (minus_1, s)
unfolding fd_write
fd_write-refuses vfs s fd buf count = elim (Bool-cases (not buf || count == 0)) [
  | inl bad ↦ rw (bad, fd_write)
  | inr good ↦ elim (Option-cases (lookup s fd)) [
    | inl e ↦ rw (good, e, fd_write)
    | inr (r, e) ↦
        let always : (bit_and r.0.open_flags vfs_o_rdonly == vfs_o_rdonly) ≡ true =
          rw (bit_and-zero r.0.open_flags) in
        rw (good, e, always, fd_write)
  ]
]

module _ {W : Type 0} (elsewhere : ℕ → ℕ) where
  -- A descriptor that is handed out holds no file yet.
  Balanced-Took :
      (s : Files W) (t t' : FdTable) (fd : ℕ)
      → used t fd ≡ false
      → Took t fd t'
      → Balanced elsewhere s t
      → Balanced elsewhere s t'
  Balanced-Took s t t' fd free k b = record {
    shape = k.shape;
    tidy = λ j off. elim (Bool-cases (fd == j)) [
      | inl same ↦
          let e : j ≡ fd = ground arith in
          absurd (let o = rw e at off in ground (arith, k.now_used, o))
      | inr apart ↦
          let at = k.others j (λ e. ground (arith, apart)) in
          ap (λ f. f.file) at ∙ b.tidy j (sym (ap (λ f. has_bit f.flags 0) at) ∙ off)
    ];
    counts = λ p.
        b.counts p
        ∙ ap (λ n. elsewhere p + n)
            (refs-cong p t.fds t'.fds (omega (arith, b.shape.sized, k.shape.sized)) (λ j h.
              elim (Bool-cases (fd == j)) [
                | inl same ↦
                    let e : j ≡ fd = ground arith in
                    let here = b.tidy fd free in
                    rw e (
                      ref-none (fd_at t fd) p here ∙ sym (ref-none (fd_at t' fd) p (k.file ∙ here)))
                | inr apart ↦ ap (ref p) (sym (k.others j (λ e. ground (arith, apart))))
              ]));
  }

  -- What `fd_open` does: -1, or a descriptor that is now in use and holds no file.
  data Opened (s : FdSystem W) : Option (ℤ × FdSystem W) → Type 0 where
    failed : (s' : FdSystem W) → IsSound elsewhere s' → Opened s (some (minus_1, s'))
    opened :
        (fd : ℕ) (s' : FdSystem W)
        → fd < max_open_files
        → IsSound elsewhere s'
        → lookup s' (pos fd) ≡ none
        → Opened s (some (pos fd, s'))

  Balanced-flags :
      (s : Files W) (t : FdTable) (fd flags mode : ℕ)
      → fd < max_open_files
      → used t fd ≡ true
      → Balanced elsewhere s t
      → Balanced elsewhere s (put_fd t fd (record (fd_at t fd) { open_flags = flags; mode = mode }))
  Balanced-flags s t fd flags mode low on b =
      Balanced-put_fd elsewhere s s t fd _ low (λ off. absurd (ground (arith, on, off))) (λ p. refl)
        b

  lookup-empty :
      (s : FdSystem W) (t : FdTable) (fd : ℕ)
      → s.table ≡ some t
      → (fd_at t fd).file ≡ none
      → lookup s (pos fd) ≡ none
  unfolding lookup fd_get
  lookup-empty s t fd e empty = ground arith

  open_at-Opened :
      (vfs : Vfs W) (s : FdSystem W) (t t' : FdTable) (path : List ℕ) (flags mode fd : ℕ)
      → s.fd_initialized ≡ true
      → fd < max_open_files
      → used t fd ≡ false
      → Took t fd t'
      → Balanced elsewhere s.files t
      → Opened s (some (open_at vfs s t' path flags mode (pos fd)))
  unfolding open_at
  open_at-Opened vfs s t t' path flags mode fd up low free k b =
      let r = vfs.vfs_open path flags mode s.files.world in
      let s' = with_world s r.1 in
      let b0 = Balanced-Took s.files t t' fd free k b in
      let b' : Balanced elsewhere s'.files t' = record {
        shape = b0.shape;
        tidy = b0.tidy;
        counts = b0.counts;
      } in
      elim (Bool-cases (is_negative r.0)) [
        | inl bad ↦ rw bad (
            failed _ (record {
              up = up;
              own = (_, refl, fd_free-Balanced elsewhere s'.files t' (pos fd) b');
            }))
        | inr good ↦
            let at =
              fd_at-put_fd_self t' fd (record (fd_at t' fd) { open_flags = flags; mode = mode })
                b'.shape low in
            rw good (
              opened fd _ low
                (record {
                  up = up;
                  own = (_, refl, Balanced-flags s'.files t' fd flags mode low k.now_used b');
                })
                (lookup-empty _ _ fd refl (ap (λ f. f.file) at ∙ k.file ∙ b.tidy fd free)))
      ]

  fd_open-Opened :
      (vfs : Vfs W) (s : FdSystem W) (path : List ℕ) (flags mode : ℕ)
      → IsSound elsewhere s
      → Opened s (fd_open vfs s (some path) flags mode)
  unfolding fd_open open_at
  fd_open-Opened vfs s path flags mode i =
      let (t, e, b) = i.own in
      elim (fd_allocate-Allocated t b.shape) [
        | none_free run all ↦
            let at : fd_open vfs s (some path) flags mode
                ≡ some (open_at vfs s t path flags mode (negsuc 0)) =
              ground (arith, i.up, e, run) in
            rw at (failed _ (record { up = i.up; own = (t, refl, b) }))
        | handed_out d t' run free before k ↦
            let at : fd_open vfs s (some path) flags mode
                ≡ some (open_at vfs s t' path flags mode (pos ((t.next_fd + d) % max_open_files))) =
              ground (arith, i.up, e, run) in
            rw at (
              open_at-Opened vfs s t t' path flags mode ((t.next_fd + d) % max_open_files) i.up
                (omega arith) free k b)
      ]

  -- what the descriptor that came back leads to
  lookup_of : Option (ℤ × FdSystem W) → Option (Fd × ℕ)
  lookup_of none = none
  lookup_of (some r) = lookup r.1 r.0

  lookup-minus_1 : (s : FdSystem W) → lookup s minus_1 ≡ none
  unfolding lookup fd_get
  lookup-minus_1 s = elim (Option-cases s.table) [
    | inl e ↦ ground arith
    | inr (t, e) ↦ ground arith
  ]

  Opened-lookup_of :
      (s : FdSystem W) (r : Option (ℤ × FdSystem W)) → Opened s r → lookup_of r ≡ none
  unfolding lookup_of
  Opened-lookup_of s r (failed s' i) = lookup-minus_1 s'
  Opened-lookup_of s r (opened fd s' low i empty) = empty

  -- A descriptor that `fd_open` returns holds no file: `fd_read` from it returns -1 and reads nothing.
  pub fd_read-fd_open :
      (vfs : Vfs W) (s s' : FdSystem W) (path : List ℕ) (flags mode fd : ℕ) (buf : Bool) (count : ℕ)
      → IsSound elsewhere s
      → fd_open vfs s (some path) flags mode ≡ some (pos fd, s')
      → fd_read vfs s' (pos fd) buf count ≡ (minus_1, s')
  unfolding fd_read lookup_of
  fd_read-fd_open vfs s s' path flags mode fd buf count i run =
      let empty : lookup s' (pos fd) ≡ none =
        sym (ap lookup_of run) ∙ Opened-lookup_of s _ (fd_open-Opened vfs s path flags mode i) in
      elim (Bool-cases (not buf || count == 0)) [
        | inl bad ↦ rw (bad, fd_read)
        | inr good ↦ rw (good, empty, fd_read)
      ]

-- one call of a program
pub data Call : Type 0 where
  call_open : Option (List ℕ) → (flags mode : ℕ) → Call
  call_read : ℤ → Bool → (count : ℕ) → Call
  call_write : ℤ → Bool → (count : ℕ) → Call
  call_seek : ℤ → (offset : ℤ) → (whence : ℕ) → Call
  call_close : ℤ → Call
  call_sync : ℤ → Call

module _ {W : Type 0} (vfs : Vfs W) where
  unfoldable pub perform : Call → FdSystem W → Option (ℤ × FdSystem W)
  perform (call_open path flags mode) s = fd_open vfs s path flags mode
  perform (call_read fd buf count) s = some (fd_read vfs s fd buf count)
  perform (call_write fd buf count) s = some (fd_write vfs s fd buf count)
  perform (call_seek fd offset whence) s = some (fd_seek s fd offset whence)
  perform (call_close fd) s = some (fd_close s fd)
  perform (call_sync fd) s = some (fd_sync s fd)

  unfoldable pub perform_all : List Call → FdSystem W → Option (FdSystem W)
  perform_all [] s = some s
  perform_all (c ∷ cs) s = elim (perform c s) [ none ↦ none | some r ↦ perform_all cs r.1 ]

  perform-IsSound :
      (elsewhere : ℕ → ℕ) (c : Call) (s : FdSystem W)
      → IsSound elsewhere s
      → (r : ℤ × FdSystem W) × (perform c s ≡ some r) × IsSound elsewhere r.1
  unfolding perform
  perform-IsSound elsewhere (call_open none flags mode) s i =
      ((minus_1, s), unfold fd_open in refl, i)
  perform-IsSound elsewhere (call_open (some path) flags mode) s i =
      ended (fd_open-Opened elsewhere vfs s path flags mode i)
    where
      ended :
          {r : Option (ℤ × FdSystem W)}
          → Opened elsewhere s r
          → (q : ℤ × FdSystem W) × (r ≡ some q) × IsSound elsewhere q.1
      ended (failed s' i') = ((minus_1, s'), refl, i')
      ended (opened fd s' low i' empty) = ((pos fd, s'), refl, i')
  perform-IsSound elsewhere (call_read fd buf count) s i =
      (fd_read vfs s fd buf count, refl, fd_read-IsSound elsewhere vfs s fd buf count i)
  perform-IsSound elsewhere (call_write fd buf count) s i =
      (fd_write vfs s fd buf count, refl, rw (fd_write-refuses vfs s fd buf count) i)
  perform-IsSound elsewhere (call_seek fd offset whence) s i =
      (fd_seek s fd offset whence, refl, fd_seek-IsSound elsewhere s fd offset whence i)
  perform-IsSound elsewhere (call_close fd) s i =
      (fd_close s fd, refl, fd_close-IsSound elsewhere s fd i)
  perform-IsSound elsewhere (call_sync fd) s i =
      (fd_sync s fd, refl, fd_sync-IsSound elsewhere s fd i)

  perform_all-step :
      (c : Call) (cs : List Call) (s : FdSystem W) (r : ℤ × FdSystem W)
      → perform c s ≡ some r
      → perform_all (c ∷ cs) s ≡ perform_all cs r.1
  unfolding perform_all
  perform_all-step c cs s r run = ground arith

  -- Any sequence of calls on descriptors ends, and after it the reference count of every file is
  -- still the number of descriptors that hold it.
  pub perform_all-IsSound :
      (elsewhere : ℕ → ℕ) (cs : List Call) (s : FdSystem W)
      → IsSound elsewhere s
      → (s' : FdSystem W) × (perform_all cs s ≡ some s') × IsSound elsewhere s'
  unfolding perform_all
  perform_all-IsSound elsewhere [] s i = (s, refl, i)
  perform_all-IsSound elsewhere (c ∷ cs) s i =
      let (r, run, i') = perform-IsSound elsewhere c s i in
      let (s', run', i'') = perform_all-IsSound elsewhere cs r.1 i' in
      (s', perform_all-step c cs s r run ∙ run', i'')
