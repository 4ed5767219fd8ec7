-- ===== src/Fd/Tests.antt =====
-- Concrete tables: one descriptor of file 7, which a file system that counts its closes keeps.
use build_your_own_os.Prelude.{
  ℕ, ◌+◌, ◌≡◌, refl, true, none, some, [], ◌∷◌, arith, has_bit, pos, negsuc,
}
use build_your_own_os.Fd.Table.{
  FileOps, Files, Fd, FdTable, unused, put_fd, add_reference, fd_allocate, fd_free, fd_table_clone,
}
use build_your_own_os.Fd.Table.Alloc.{Allocated, fd_allocate-Allocated}
use build_your_own_os.Fd.Table.Refs.{ref-some, ref-unused}
use build_your_own_os.Fd.Table.Balance.{Balanced, Balanced-put_fd}
use build_your_own_os.Fd.Table.Free.{Freed, fd_free-Freed}
use build_your_own_os.Fd.Table.Clone.{
  fresh_table, fresh_table-Balanced, Cloned, fd_table_clone-Cloned,
}
use build_your_own_os.Fd.Calls.{Vfs, FdSystem, minus_1, fd_write}
use build_your_own_os.Fd.Calls.Laws.{IsSound}
use build_your_own_os.Fd.Calls.Run.{
  call_open, call_close, perform_all, perform_all-IsSound, fd_write-refuses,
}

abbrev counting : FileOps ℕ
counting = record {
  close = some (λ p w. w + 1);
  read = some (λ p count position w. (pos count, w));
  write = none;
  seek = none;
  sync = none;
}

abbrev no_files : Files ℕ
no_files = record {
  file_at = λ p. record { position = pos 0; ref_count = 0; ops = some counting };
  world = 0;
}

abbrev no_others : ℕ → ℕ
no_others q = 0

abbrev of_seven : Fd
of_seven = record { flags = 1; file = some 7; open_flags = 2; mode = 420 }

abbrev one_file : Files ℕ
one_file = add_reference no_files 7

abbrev one_open : FdTable
one_open = put_fd fresh_table 0 of_seven

one_open-Balanced : Balanced no_others one_file one_open
unfolding has_bit
one_open-Balanced =
    Balanced-put_fd no_others no_files one_file fresh_table 0 of_seven (omega arith)
      (λ off. absurd (ground arith))
      (λ p. ground (arith, ref-some of_seven 7 p refl refl, ref-unused p))
      (fresh_table-Balanced no_files)

-- descriptor 0 is reserved, and holds no file
abbrev reserved : FdTable
reserved = put_fd fresh_table 0 (record unused { flags = 1 })

reserved-Balanced : Balanced no_others no_files reserved
unfolding has_bit
reserved-Balanced =
    Balanced-put_fd no_others no_files no_files fresh_table 0 (record unused { flags = 1 })
      (omega arith) (λ off. refl) (λ p. ground (arith, ref-unused p))
      (fresh_table-Balanced no_files)

abbrev vfs : Vfs ℕ
vfs = record {
  vfs_open = λ path flags mode w. (pos 3, w);
  vfs_read = λ fd count w. (negsuc 0, w);
  vfs_write = λ fd count w. (negsuc 0, w);
}

abbrev system : FdSystem ℕ
system = record { fd_initialized = true; table = some one_open; files = one_file }

system-IsSound : IsSound no_others system
system-IsSound = record { up = refl; own = (one_open, refl, one_open-Balanced) }

fd_allocate-Allocated_example : Allocated one_open (fd_allocate one_open)
fd_allocate-Allocated_example = fd_allocate-Allocated one_open one_open-Balanced.shape

fd_free-Freed_example :
    Freed no_others one_file one_open 0
      (fd_free one_file one_open (pos 0)).0
      (fd_free one_file one_open (pos 0)).1
fd_free-Freed_example =
    fd_free-Freed no_others one_file one_open 0 one_open-Balanced (omega arith)
      (unfold has_bit in refl)

fd_table_clone-Cloned_example :
    (r : Files ℕ × FdTable) × (fd_table_clone true one_file one_open ≡ some r)
    × Cloned no_others one_open r.0 r.1
fd_table_clone-Cloned_example = fd_table_clone-Cloned no_others one_file one_open one_open-Balanced

fd_write-refuses_example : fd_write vfs system (pos 0) true 5 ≡ (minus_1, system)
fd_write-refuses_example = fd_write-refuses vfs system (pos 0) true 5

perform_all-IsSound_example :
    (s' : FdSystem ℕ) × (perform_all vfs
        (call_open (some (47 ∷ [])) 0 0 ∷ call_close (pos 0) ∷ [])
        system
      ≡ some s')
    × IsSound no_others s'
perform_all-IsSound_example =
    perform_all-IsSound vfs no_others (call_open (some (47 ∷ [])) 0 0 ∷ call_close (pos 0) ∷ [])
      system system-IsSound

-- the system after descriptor 1 is opened
abbrev with_one_more : FdSystem ℕ
with_one_more = record system {
  table = some (record (put_fd one_open 1 (record unused { flags = 1; open_flags = 2; mode = 3 })) {
    next_fd = 2;
  });
}
