-- ===== src/Vfs/Files/Laws.antt =====
-- Writing, seeking and reading through a descriptor of the virtual file system, on the RAM file system.
use build_your_own_os.Prelude.{
  ℕ, suc, ◌+◌, ◌^◌, ◌≤◌, ◌<◌, ◌≡◌, refl, sym, ◌∙◌, ap, Bool, true, false, ◌||◌, Option, none, some,
  List, ◌∷◌, ◌==◌, ltb, leb, length, get_or, set, length-set, get_or-set_self, arith, ℤ, pos,
  negsuc,
}
use build_your_own_os.Ramfs.{RamfsFsData}
use build_your_own_os.Ramfs.File.{
  File, seek_base, read_node, ramfs_file_read, ramfs_file_write, ramfs_file_seek,
}
use build_your_own_os.Ramfs.File.Laws.{
  IsValidNode, too_large, no_memory, done, ramfs_file_write-FileWrite,
}
use build_your_own_os.Ramfs.File.Read.{ramfs_file_read-ramfs_file_write}
use build_your_own_os.Vfs.{SfsOps, FileSystem, ramfs, OpenFile, Vfs, vfs_get_open_file}
use build_your_own_os.Vfs.Ops.{op_read, op_write, op_seek}
use build_your_own_os.Vfs.Files.{put_fs, put_file, advance, vfs_read, vfs_write, vfs_seek}

-- The descriptor is one that an open file can have, and has this one.
pub record IsOpen (files : List (Option OpenFile)) (fd : ℕ) (o : OpenFile) : Type 0 where
  pub low : 3 ≤ fd
  pub high : fd < 32
  pub in_table : fd < length files
  pub there : get_or files fd none ≡ some o

pub vfs_get_open_file-IsOpen :
    (files : List (Option OpenFile)) (fd : ℕ) (o : OpenFile)
    → IsOpen files fd o
    → vfs_get_open_file files (pos fd) ≡ some o
unfolding vfs_get_open_file
vfs_get_open_file-IsOpen files fd o h =
    let e : (ltb fd 3 || leb 32 fd) ≡ false = ground (arith, h.low, h.high) in rw e h.there

set-IsOpen :
    (files : List (Option OpenFile)) (fd : ℕ) (o o' : OpenFile)
    → IsOpen files fd o
    → IsOpen (set files fd (some o')) fd o'
set-IsOpen files fd o o' h = record {
  low = h.low;
  high = h.high;
  in_table = rw (length-set files fd (some o')) h.in_table;
  there = get_or-set_self files fd (some o') none h.in_table;
}

-- the bytes that a read has given; `none` is a fault
abbrev pub bytes_read : {S P : Type 0} → Option (ℤ × (List ℕ × Vfs S P)) → Option (List ℕ)
bytes_read none = none
bytes_read (some r) = some r.1.0

module _ {S P : Type 0} (ops : SfsOps S) (v : Vfs S P) (fd : ℕ) (o : OpenFile) (fs : RamfsFsData)
    (open_ : IsOpen v.open_files fd o) (at_fs : v.filesystems o.fs ≡ ramfs fs) where
  write_step :
      (b : ℕ) (buf : List ℕ) (granted : Bool) (r : ℤ) (fs' : RamfsFsData) (file' : File)
      → ramfs_file_write fs o.file (b ∷ buf) o.file.position granted ≡ some (r, (fs', file'))
      → vfs_write ops v (pos fd) (b ∷ buf) granted
        ≡ some (r, put_file (put_fs v o.fs (ramfs fs')) fd (advance file' r) o.fs)
  unfolding vfs_write op_write
  write_step b buf granted r fs' file' e =
      let z : (suc (length buf) == 0) ≡ false = ground arith in
      rw (vfs_get_open_file-IsOpen v.open_files fd o open_, vfs_write, z, at_fs, op_write, e)

  seek_step :
      (p : ℕ)
      → vfs_seek ops v (pos fd) (pos p) 0 ≡ (
        pos (0 + p),
        put_file (put_fs v o.fs (ramfs fs)) fd (record o.file { position = 0 + p }) o.fs,
      )
  unfolding vfs_seek op_seek ramfs_file_seek seek_base
  seek_step p = rw (vfs_get_open_file-IsOpen v.open_files fd o open_, vfs_seek, at_fs, op_seek)

  read_step :
      (n : ℕ) (bytes : List ℕ) (fs' : RamfsFsData)
      → ramfs_file_read fs o.file (suc n) o.file.position ≡ some (bytes, fs')
      → bytes_read (vfs_read ops v (pos fd) (suc n)) ≡ some bytes
  unfolding vfs_read op_read
  read_step n bytes fs' e =
      let z : (suc n == 0) ≡ false = ground arith in
      rw (vfs_get_open_file-IsOpen v.open_files fd o open_, vfs_read, z, at_fs, op_read, e)

fs_same :
    {S P : Type 0} (v : Vfs S P) (i : ℕ) (fs : FileSystem S) → (put_fs v i fs).filesystems i ≡ fs
fs_same v i fs = let e : (i == i) ≡ true = ground arith in rw e

same_read :
    (fs : RamfsFsData) (file file' : File) (count offset : ℕ)
    → file'.inode.node ≡ file.inode.node
    → ramfs_file_read fs file' count offset ≡ ramfs_file_read fs file count offset
unfolding ramfs_file_read
same_read fs file file' count offset e = ap (λ i. read_node fs i (fs.node i).content count offset) e

-- what `vfs_read` gives after the descriptor went back to `p`
seek_and_read :
    {S P : Type 0} (ops : SfsOps S) (v : Vfs S P) (fd : ℕ) (o : OpenFile) (fs fs' : RamfsFsData)
    (p n : ℕ) (bytes : List ℕ)
    → IsOpen v.open_files fd o
    → v.filesystems o.fs ≡ ramfs fs
    → ramfs_file_read fs o.file (suc n) p ≡ some (bytes, fs')
    → bytes_read (vfs_read ops (vfs_seek ops v (pos fd) (pos p) 0).1 (pos fd) (suc n)) ≡ some bytes
seek_and_read ops v fd o fs fs' p n bytes open_ at_fs read =
    let file : File = record o.file { position = 0 + p } in
    let v2 = put_file (put_fs v o.fs (ramfs fs)) fd file o.fs in
    let o2 : OpenFile = record { file = file; fs = o.fs } in
    let e : 0 + p ≡ p = omega arith in
    ap (λ t. bytes_read (vfs_read ops t.1 (pos fd) (suc n))) (seek_step ops v fd o fs open_ at_fs p)
    ∙ read_step ops v2 fd o2 fs (set-IsOpen v.open_files fd o o2 open_) (fs_same v o.fs (ramfs fs))
        n bytes fs'
        (same_read fs o.file file (suc n) (0 + p) refl
          ∙ ap (λ q. ramfs_file_read fs o.file (suc n) q) e
          ∙ read)

abbrev state_or : {S P : Type 0} → Vfs S P → Option (ℤ × Vfs S P) → Vfs S P
state_or v none = v
state_or v (some r) = r.1

-- Some bytes are written through a descriptor of a valid file of the RAM file system, the descriptor seeks back, and as many
-- are read: they are the bytes that were written.
pub vfs_read-vfs_seek-vfs_write :
    {S P : Type 0} (ops : SfsOps S) (v v1 : Vfs S P) (fd : ℕ) (o : OpenFile) (fs : RamfsFsData)
    (b : ℕ) (buf : List ℕ) (granted : Bool) (k : ℕ)
    → IsOpen v.open_files fd o
    → v.filesystems o.fs ≡ ramfs fs
    → IsValidNode (fs.node o.file.inode.node)
    → o.file.position + length (b ∷ buf) < 2 ^ 64
    → vfs_write ops v (pos fd) (b ∷ buf) granted ≡ some (pos k, v1)
    → bytes_read (
        vfs_read ops
          (vfs_seek ops v1 (pos fd) (pos o.file.position) 0).1
          (pos fd)
          (length (b ∷ buf)))
      ≡ some (b ∷ buf)
vfs_read-vfs_seek-vfs_write ops v v1 fd o fs b buf granted k open_ at_fs valid fits run =
    let p : ℕ = o.file.position in
    let step = write_step ops v fd o fs open_ at_fs b buf granted in
    elim (ramfs_file_write-FileWrite fs o.file p b buf granted valid fits) [
      | too_large large r ↦ absurd (cc (run, step (negsuc 0) fs o.file r))
      | no_memory refusal r ↦ absurd (cc (run, step (negsuc 0) fs o.file r))
      | done fs' file' r bytes valid' same others ↦
          let n : ℤ = pos (length (b ∷ buf)) in
          let o1 : OpenFile = record { file = advance file' n; fs = o.fs } in
          let w = put_file (put_fs v o.fs (ramfs fs')) fd (advance file' n) o.fs in
          let e : w ≡ v1 = ap (state_or v) (sym (step n fs' file' r) ∙ run) in
          let (fs2, read) =
            ramfs_file_read-ramfs_file_write fs fs' o.file file' p b buf granted (length (b ∷ buf))
              valid fits r in
          ap
            (λ t.
              bytes_read
                (vfs_read ops (vfs_seek ops t (pos fd) (pos p) 0).1 (pos fd) (length (b ∷ buf))))
            (sym e)
          ∙ seek_and_read ops w fd o1 fs' fs2 p (length buf) (b ∷ buf)
              (set-IsOpen v.open_files fd o o1 open_) (fs_same v o.fs (ramfs fs'))
              (same_read fs' file' (advance file' n) (length (b ∷ buf)) p refl ∙ read)
    ]
