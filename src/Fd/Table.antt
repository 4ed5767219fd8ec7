-- ===== src/Fd/Table.antt =====
-- The table of file descriptors: src/kernel/fd/fd_table.c, lines 50 to 210 and 453 to 467.
pub mod Alloc
pub mod Refs
pub mod Balance
pub mod Free
pub mod Clone
pub mod Destroy
use build_your_own_os.Prelude.{
  ℕ, zero, suc, ◌+◌, ◌-◌, ◌%◌, Bool, true, false, ◌&&◌, ◌||◌, not, Option, none, some, List, [],
  ◌∷◌, ltb, ◌==◌, if◌then◌else◌, length, get_or, set, replicate, has_bit, with_bit, ℤ, pos, negsuc,
}

abbrev pub max_open_files : ℕ
max_open_files = 32

-- What a file system puts in `file->ops`; a missing operation is NULL. `read` and `write` are given the
-- file, the number of bytes and the position; `seek` is given the file, its position, the offset and the
-- origin, and gives the new position with its result. The operations change nothing else of a file.
pub record FileOps (W : Type 0) : Type 0 where
  pub close : Option (ℕ → W → W)
  pub read : Option (ℕ → ℕ → ℤ → W → ℤ × W)
  pub write : Option (ℕ → ℕ → ℤ → W → ℤ × W)
  pub seek : Option (ℕ → ℤ → ℤ → ℕ → W → ℤ × (ℤ × W))
  pub sync : Option (ℕ → W → ℤ × W)

pub record File (W : Type 0) : Type 0 where
  pub position : ℤ
  pub ref_count : ℕ
  pub ops : Option (FileOps W)

pub record Fd : Type 0 where
  pub flags : ℕ
  pub file : Option ℕ
  pub open_flags : ℕ
  pub mode : ℕ

abbrev pub unused : Fd
unused = record { flags = 0; file = none; open_flags = 0; mode = 0 }

pub record FdTable : Type 0 where
  pub fds : List Fd
  pub next_fd : ℕ
  pub ref_count : ℕ

-- the files, and the rest of the system
pub record Files (W : Type 0) : Type 0 where
  pub file_at : ℕ → File W
  pub world : W

abbrev pub fd_at : FdTable → ℕ → Fd
fd_at table fd = get_or table.fds fd unused

-- table->fds[fd].flags & FD_FLAG_USED
abbrev pub used : FdTable → ℕ → Bool
used table fd = has_bit (fd_at table fd).flags 0

abbrev pub put_fd : FdTable → ℕ → Fd → FdTable
put_fd table fd v = record table { fds = set table.fds fd v }

abbrev pub put_file : {W : Type 0} → Files W → ℕ → File W → Files W
put_file s p f = record s { file_at = λ q. if p == q then f else s.file_at q }

-- `granted` says whether `memory_alloc` returned memory.
unfoldable pub fd_table_create : (granted : Bool) → Option FdTable
fd_table_create false = none
fd_table_create true =
    some (record { fds = replicate max_open_files unused; next_fd = 0; ref_count = 1 })

-- The loop of `fd_allocate`, on fuel; the outer `none` is a loop that has not ended.
unfoldable pub search_fd : (fuel : ℕ) → FdTable → (start fd : ℕ) → Option (ℤ × FdTable)
search_fd zero table start fd = none
search_fd (suc fuel) table start fd = elim (used table fd) [
  | false ↦
      let fdesc = fd_at table fd in
      some (
        pos fd,
        record (put_fd table fd (record fdesc { flags = with_bit fdesc.flags 0 })) {
          next_fd = (fd + 1) % max_open_files;
        },
      )
  | true ↦ elim ((fd + 1) % max_open_files == start) [
    | true ↦ some (negsuc 0, table)
    | false ↦ search_fd fuel table start ((fd + 1) % max_open_files)
  ]
]

unfoldable pub fd_allocate : FdTable → Option (ℤ × FdTable)
fd_allocate table = search_fd max_open_files table table.next_fd table.next_fd

-- file->ops && file->ops->close
abbrev pub close_op : {W : Type 0} → Option (FileOps W) → Option (ℕ → W → W)
close_op none = none
close_op (some ops) = ops.close

abbrev pub close_with : {W : Type 0} → Option (ℕ → W → W) → ℕ → W → W
close_with none p w = w
close_with (some close) p w = close p w

-- the file loses a reference, and is closed with the last one
unfoldable pub drop_reference : {W : Type 0} → Files W → ℕ → Files W
drop_reference s p =
    let file = s.file_at p in
    let left = file.ref_count - 1 in
    record (put_file s p (record file { ref_count = left })) {
      world = if left == 0 then close_with (close_op file.ops) p s.world else s.world;
    }

unfoldable pub fd_free : {W : Type 0} → Files W → FdTable → ℤ → Files W × FdTable
fd_free s table (negsuc n) = (s, table)
fd_free s table (pos fd) =
    if ltb fd max_open_files && used table fd
    then (
      elim (fd_at table fd).file [ none ↦ s | some p ↦ drop_reference s p ],
      put_fd table fd unused,
    )
    else (s, table)

unfoldable pub fd_get : FdTable → ℤ → Option Fd
fd_get table (negsuc n) = none
fd_get table (pos fd) =
    if ltb fd max_open_files && used table fd then some (fd_at table fd) else none

unfoldable pub fd_is_valid : FdTable → ℤ → Bool
fd_is_valid table (negsuc n) = false
fd_is_valid table (pos fd) = ltb fd max_open_files && used table fd

abbrev pub add_reference : {W : Type 0} → Files W → ℕ → Files W
add_reference s p = put_file s p (record (s.file_at p) { ref_count = (s.file_at p).ref_count + 1 })

-- if (file) file->ref_count++
abbrev pub add_if : {W : Type 0} → Files W → Option ℕ → Files W
add_if s none = s
add_if s (some p) = add_reference s p

-- `none` is VFS_EINVAL.
unfoldable pub fd_assign :
    {W : Type 0} → Files W → FdTable → ℤ → Option ℕ → (flags : ℕ) → Option (Files W × FdTable)
fd_assign s table fd none flags = none
fd_assign s table (negsuc n) (some p) flags = none
fd_assign s table (pos fd) (some p) flags =
    if ltb fd max_open_files && used table fd
    then some (
      add_reference s p,
      put_fd table fd (record (fd_at table fd) { file = some p; open_flags = flags; mode = 420 }),
    )
    else none

-- the loop of `fd_table_destroy`, from descriptor `i` on
unfoldable pub free_fds :
    {W : Type 0} → (rounds : ℕ) → Files W → FdTable → (i : ℕ) → Files W × FdTable
free_fds zero s table i = (s, table)
free_fds (suc rounds) s table i =
    let (s', table') = (if used table i then fd_free s table (pos i) else (s, table)) in
    free_fds rounds s' table' (i + 1)

-- the files that the table leaves behind when its memory is freed
unfoldable pub fd_table_destroy : {W : Type 0} → Files W → FdTable → Files W
fd_table_destroy s table = (free_fds max_open_files s table 0).0

-- The loop of `fd_table_clone`.
unfoldable pub copy_fds :
    {W : Type 0} → (rounds : ℕ) → Files W → (src new_table : FdTable) → (i : ℕ) → Files W × FdTable
copy_fds zero s src new_table i = (s, new_table)
copy_fds (suc rounds) s src new_table i =
    if used src i
    then copy_fds rounds (add_if s (fd_at src i).file) src (put_fd new_table i (fd_at src i))
        (i + 1)
    else copy_fds rounds s src new_table (i + 1)

unfoldable pub fd_table_clone :
    {W : Type 0} → (granted : Bool) → Files W → FdTable → Option (Files W × FdTable)
fd_table_clone granted s src = elim (fd_table_create granted) [
  | none ↦ none
  | some new_table ↦
      let (s', copied) = copy_fds max_open_files s src new_table 0 in
      some (s', record copied { next_fd = src.next_fd })
]

-- the loop of `fd_count_open`, from descriptor `i` on
unfoldable pub count_fds : (rounds : ℕ) → FdTable → (i count : ℕ) → ℕ
count_fds zero table i count = count
count_fds (suc rounds) table i count =
    count_fds rounds table (i + 1) (if used table i then count + 1 else count)

unfoldable pub fd_count_open : FdTable → ℕ
fd_count_open table = count_fds max_open_files table 0 0
