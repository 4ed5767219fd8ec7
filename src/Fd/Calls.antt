-- ===== src/Fd/Calls.antt =====
-- The calls on descriptors that use the current table: src/kernel/fd/fd_table.c, lines 17 to 48 and 212
-- to 401. The VFS functions that they call are an argument, `Vfs`.
pub mod Laws
pub mod Run
use build_your_own_os.Prelude.{
  ℕ, zero, suc, ◌+◌, Bool, true, false, ◌&&◌, ◌||◌, not, Option, none, some, List, [], ◌∷◌, ltb,
  ◌==◌, if◌then◌else◌, bit_and, ℤ, pos, negsuc, ◌+ℤ◌, is_negative, is_positive,
}
use build_your_own_os.Fd.Table.{
  FileOps, File, Files, Fd, FdTable, max_open_files, unused, fd_at, put_fd, put_file,
  fd_table_create, fd_allocate, fd_free, fd_get, fd_is_valid,
}

abbrev pub vfs_o_rdonly : ℕ
vfs_o_rdonly = 0

abbrev pub vfs_o_wronly : ℕ
vfs_o_wronly = 1

abbrev pub vfs_seek_set : ℕ
vfs_seek_set = 0

abbrev pub vfs_seek_cur : ℕ
vfs_seek_cur = 1

abbrev pub vfs_seek_end : ℕ
vfs_seek_end = 2

-- what the calls use of the VFS
pub record Vfs (W : Type 0) : Type 0 where
  pub vfs_open : List ℕ → ℕ → ℕ → W → ℤ × W
  pub vfs_read : ℤ → ℕ → W → ℤ × W
  pub vfs_write : ℤ → ℕ → W → ℤ × W

-- `table` is `current_fd_table`.
pub record FdSystem (W : Type 0) : Type 0 where
  pub fd_initialized : Bool
  pub table : Option FdTable
  pub files : Files W

abbrev pub minus_1 : ℤ
minus_1 = negsuc 0

-- `granted` says whether `kmalloc` returned memory; the other VFS code is VFS_ENOMEM.
unfoldable pub fd_init : {W : Type 0} → (granted : Bool) → FdSystem W → ℤ × FdSystem W
fd_init granted s =
    if s.fd_initialized
    then (pos 0, s)
    else if granted
    then (pos 0, record s { fd_initialized = true; table = fd_table_create true })
    else (negsuc 5, record s { table = none })

-- The descriptor, with its file, that the calls work on: their common guards.
unfoldable pub lookup : {W : Type 0} → FdSystem W → ℤ → Option (Fd × ℕ)
lookup s fd =
    if s.fd_initialized
    then elim s.table [
      | none ↦ none
      | some table ↦ elim (fd_get table fd) [
        | none ↦ none
        | some fdesc ↦ elim fdesc.file [ none ↦ none | some p ↦ some (fdesc, p) ]
      ]
    ]
    else none

module _ {W : Type 0} where
  abbrev pub with_world : FdSystem W → W → FdSystem W
  with_world s w = record s { files = record (s.files) { world = w } }

  -- fd_open, once a descriptor is allocated
  unfoldable pub open_at :
      Vfs W → FdSystem W → FdTable → List ℕ → (flags mode : ℕ) → ℤ → ℤ × FdSystem W
  open_at vfs s table path flags mode (negsuc n) = (minus_1, record s { table = some table })
  open_at vfs s table path flags mode (pos fd) =
      let (vfs_fd, w) = vfs.vfs_open path flags mode s.files.world in
      let s' = with_world s w in
      if is_negative vfs_fd
      then (let (files, table') = fd_free s'.files table (pos fd) in
          (minus_1, record s' { files = files; table = some table' }))
      else (
        pos fd,
        record s' {
          table =
              some (put_fd table fd (record (fd_at table fd) { open_flags = flags; mode = mode }));
        },
      )

  -- The outer `none` is the loop of `fd_allocate` out of fuel.
  unfoldable pub fd_open :
      Vfs W → FdSystem W → Option (List ℕ) → (flags mode : ℕ) → Option (ℤ × FdSystem W)
  fd_open vfs s none flags mode = some (minus_1, s)
  fd_open vfs s (some path) flags mode =
      if s.fd_initialized
      then elim s.table [
        | none ↦ some (minus_1, s)
        | some table ↦ elim (fd_allocate table) [
          | none ↦ none
          | some r ↦ some (open_at vfs s r.1 path flags mode r.0)
        ]
      ]
      else some (minus_1, s)

  -- if (result > 0) file->position += result
  abbrev pub advance : FdSystem W → ℕ → ℤ → FdSystem W
  advance s p result =
      if is_positive result
      then record s {
        files =
            put_file s.files p
              (record (s.files.file_at p) { position = (s.files.file_at p).position +ℤ result });
      }
      else s

  -- file->ops && file->ops->read
  abbrev pub read_op : Option (FileOps W) → Option (ℕ → ℕ → ℤ → W → ℤ × W)
  read_op none = none
  read_op (some ops) = ops.read

  abbrev pub write_op : Option (FileOps W) → Option (ℕ → ℕ → ℤ → W → ℤ × W)
  write_op none = none
  write_op (some ops) = ops.write

  abbrev pub seek_op : Option (FileOps W) → Option (ℕ → ℤ → ℤ → ℕ → W → ℤ × (ℤ × W))
  seek_op none = none
  seek_op (some ops) = ops.seek

  abbrev pub sync_op : Option (FileOps W) → Option (ℕ → W → ℤ × W)
  sync_op none = none
  sync_op (some ops) = ops.sync

  -- the transfer at the position of the file, or by the VFS where the file has no operation
  unfoldable pub transfer :
      FdSystem W
      → ℕ
      → (op : Option (ℕ → ℕ → ℤ → W → ℤ × W)) → (placeholder : W → ℤ × W) → (count : ℕ)
      → ℤ × FdSystem W
  transfer s p none placeholder count =
      let (result, w) = placeholder s.files.world in (result, with_world s w)
  transfer s p (some op) placeholder count =
      let (result, w) = op p count (s.files.file_at p).position s.files.world in
      (result, advance (with_world s w) p result)

  -- `buf` says whether the buffer is not NULL; its bytes are part of `W`.
  unfoldable pub fd_read : Vfs W → FdSystem W → ℤ → (buf : Bool) → (count : ℕ) → ℤ × FdSystem W
  fd_read vfs s fd buf count = if not buf || count == 0 then (minus_1, s) else elim (lookup s fd) [
    | none ↦ (minus_1, s)
    | some r ↦
        if bit_and r.0.open_flags vfs_o_wronly == vfs_o_wronly
        then (minus_1, s)
        else transfer s r.1 (read_op (s.files.file_at r.1).ops) (vfs.vfs_read fd count) count
  ]

  unfoldable pub fd_write : Vfs W → FdSystem W → ℤ → (buf : Bool) → (count : ℕ) → ℤ × FdSystem W
  fd_write vfs s fd buf count = if not buf || count == 0 then (minus_1, s) else elim (lookup s fd) [
    | none ↦ (minus_1, s)
    | some r ↦
        if bit_and r.0.open_flags vfs_o_rdonly == vfs_o_rdonly
        then (minus_1, s)
        else transfer s r.1 (write_op (s.files.file_at r.1).ops) (vfs.vfs_write fd count) count
  ]

  abbrev pub move_to : FdSystem W → ℕ → ℤ → ℤ × FdSystem W
  move_to s p position = (
    position,
    record s { files = put_file s.files p (record (s.files.file_at p) { position = position }) },
  )

  unfoldable pub seek_at :
      FdSystem W → ℕ → Option (ℕ → ℤ → ℤ → ℕ → W → ℤ × (ℤ × W)) → ℤ → ℕ → ℤ × FdSystem W
  seek_at s p (some seek) offset whence =
      let (result, r) = seek p (s.files.file_at p).position offset whence s.files.world in
      (result, with_world (move_to s p r.0).1 r.1)
  seek_at s p none offset whence =
      if whence == vfs_seek_set
      then move_to s p offset
      else if whence == vfs_seek_cur
      then move_to s p ((s.files.file_at p).position +ℤ offset)
      else if whence == vfs_seek_end
      then move_to s p offset
      else (minus_1, s)

  unfoldable pub fd_seek : FdSystem W → ℤ → (offset : ℤ) → (whence : ℕ) → ℤ × FdSystem W
  fd_seek s fd offset whence = elim (lookup s fd) [
    | none ↦ (minus_1, s)
    | some r ↦ seek_at s r.1 (seek_op (s.files.file_at r.1).ops) offset whence
  ]

  unfoldable pub fd_close : FdSystem W → ℤ → ℤ × FdSystem W
  fd_close s fd =
      if s.fd_initialized
      then elim s.table [
        | none ↦ (minus_1, s)
        | some table ↦
            if fd_is_valid table fd
            then (let (files, table') = fd_free s.files table fd in
                (pos 0, record s { files = files; table = some table' }))
            else (minus_1, s)
      ]
      else (minus_1, s)

  unfoldable pub sync_with : FdSystem W → ℕ → Option (ℕ → W → ℤ × W) → ℤ × FdSystem W
  sync_with s p none = (pos 0, s)
  sync_with s p (some sync) = let (result, w) = sync p s.files.world in (result, with_world s w)

  unfoldable pub fd_sync : FdSystem W → ℤ → ℤ × FdSystem W
  fd_sync s fd = elim (lookup s fd) [
    | none ↦ (minus_1, s)
    | some r ↦ sync_with s r.1 (sync_op (s.files.file_at r.1).ops)
  ]

-- The first number is VFS_SUCCESS or VFS_ERROR; `none` is a search that does not end.
unfoldable pub fd_setup_stdio : {W : Type 0} → FdSystem W → Option (ℤ × FdSystem W)
fd_setup_stdio s = elim s.table [
  | none ↦ some (minus_1, s)
  | some table ↦ elim (fd_allocate table) [
    | none ↦ none
    | some r1 ↦ elim (fd_allocate r1.1) [
      | none ↦ none
      | some r2 ↦ elim (fd_allocate r2.1) [
        | none ↦ none
        | some r3 ↦ some (pos 0, record s { table = some r3.1 })
      ]
    ]
  ]
]
