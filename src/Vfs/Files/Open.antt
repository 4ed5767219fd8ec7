-- ===== src/Vfs/Files/Open.antt =====
-- The descriptor that vfs_open gives to an inode of the RAM file system.
use build_your_own_os.Prelude.{
  ℕ, suc, ◌+◌, ◌-◌, ◌≤◌, ◌<◌, ◌≡◌, ◌≢◌, refl, sym, true, has_bit, if◌then◌else◌, ◌∙◌, inl, inr, ap,
  Bool, false, Option, none, some, List, [], ◌∷◌, length, get_or, length-set, get_or-set_self,
  get_or-set_ne, arith, Bool-cases, ℤ, pos,
}
use build_your_own_os.Ramfs.{RamfsFsData, vfs_enomem}
use build_your_own_os.Ramfs.File.{Inode, File, ramfs_file_open}
use build_your_own_os.Vfs.{SfsOps, ramfs, OpenFile, Vfs, vfs_allocate_fd}
use build_your_own_os.Vfs.Slots.{full, first, free_slot-FirstFree}
use build_your_own_os.Vfs.Ops.{vfs_enospc, new_file, op_open, op_close, drop_inode}
use build_your_own_os.Vfs.Files.{open_file_on, open_file}
use build_your_own_os.Vfs.Files.Laws.{IsOpen}

-- The open file of an inode: no one else holds it, and it stands at the start or, with bit 13 of the flags,
-- 0x2000, at the end.
pub record IsFresh (inode : Inode) (flags mode : ℕ) (file : File) : Type 0 where
  pub same_inode : file.inode ≡ inode
  pub position : file.position ≡ (if has_bit flags 13 then inode.size else 0)
  pub same_flags : file.flags ≡ flags
  pub same_mode : file.mode ≡ mode
  pub ref_count : file.ref_count ≡ 1

-- The outcomes of giving a descriptor: no memory; all are in use; or the lowest that is not in use.
pub data Opening {S P : Type 0} (v : Vfs S P) (i : ℕ) (inode : Inode) (flags mode : ℕ)
    (granted : Bool) (r : ℤ × Vfs S P) : Type 0 where
  no_memory :
      granted ≡ false
      → r.0 ≡ vfs_enomem
      → r.1.open_files ≡ v.open_files
      → Opening v i inode flags mode granted r
  all_open :
      granted ≡ true
      → ((d : ℕ) → 3 ≤ d → d < 32 → get_or v.open_files d none ≢ none)
      → r.0 ≡ vfs_enospc
      → r.1.open_files ≡ v.open_files
      → Opening v i inode flags mode granted r
  opened :
      (fd : ℕ) (file : File)
      → granted ≡ true
      → r.0 ≡ pos fd
      → get_or v.open_files fd none ≡ none
      → ((d : ℕ) → 3 ≤ d → d < fd → get_or v.open_files d none ≢ none)
      → IsFresh inode flags mode file
      → IsOpen r.1.open_files fd (record { file = file; fs = i })
      → ((d : ℕ) → d ≢ fd → get_or r.1.open_files d none ≡ get_or v.open_files d none)
      → r.1.files_opened ≡ v.files_opened + 1
      → Opening v i inode flags mode granted r

data LowestFd (files : List (Option OpenFile)) (r : Option ℕ) : Type 0 where
  none_left : r ≡ none → ((d : ℕ) → 3 ≤ d → d < 32 → get_or files d none ≢ none) → LowestFd files r
  lowest :
      (fd : ℕ)
      → r ≡ some fd
      → 3 ≤ fd
      → fd < 32
      → get_or files fd none ≡ none
      → ((d : ℕ) → 3 ≤ d → d < fd → get_or files d none ≢ none)
      → LowestFd files r

behind_three :
    (a b c : Option OpenFile) (slots : List (Option OpenFile)) (j : ℕ)
    → get_or (a ∷ b ∷ c ∷ slots) (3 + j) none ≡ get_or slots j none
behind_three a b c slots j = let e : 3 + j ≡ suc (suc (suc j)) = omega arith in rw e

busy_behind_three :
    (a b c : Option OpenFile) (slots : List (Option OpenFile)) (n : ℕ)
    → ((l : ℕ) → l < n → get_or slots l none ≢ none)
    → (d : ℕ) → 3 ≤ d
    → d < 3 + n
    → get_or (a ∷ b ∷ c ∷ slots) d none ≢ none
busy_behind_three a b c slots n busy d low high free =
    let e : d ≡ 3 + (d - 3) = omega arith in
    busy (d - 3) (omega arith) (
      sym (behind_three a b c slots (d - 3))
      ∙ ap (λ t. get_or (a ∷ b ∷ c ∷ slots) t none) (sym e)
      ∙ free)

vfs_allocate_fd-LowestFd :
    (files : List (Option OpenFile)) → length files ≡ 32 → LowestFd files (vfs_allocate_fd files)
unfolding vfs_allocate_fd
vfs_allocate_fd-LowestFd [] h = absurd (omega arith)
vfs_allocate_fd-LowestFd (a ∷ []) h = absurd (omega arith)
vfs_allocate_fd-LowestFd (a ∷ b ∷ []) h = absurd (omega arith)
vfs_allocate_fd-LowestFd (a ∷ b ∷ c ∷ slots) h = elim (free_slot-FirstFree slots 3) [
  | full r busy ↦
      none_left r
        (λ d low high. busy_behind_three a b c slots (length slots) busy d low (omega arith))
  | first j r l free busy ↦
      lowest (3 + j) r (omega arith) (omega (arith, l, h)) (behind_three a b c slots j ∙ free)
        (busy_behind_three a b c slots j busy)
]

open_file_on-Opening :
    {S P : Type 0} (ops : SfsOps S) (v : Vfs S P) (i : ℕ) (fs : RamfsFsData) (inode : Inode)
    (flags mode : ℕ) (granted : Bool)
    → length v.open_files ≡ 32
    → Opening v i inode flags mode granted
        (open_file_on ops (ramfs fs) v i inode flags mode granted)
unfolding open_file_on op_open op_close drop_inode ramfs_file_open
open_file_on-Opening ops v i fs inode flags mode granted size = elim (Bool-cases granted) [
  | inr refusal ↦ no_memory refusal (rw refusal) (rw refusal)
  | inl given ↦ elim (vfs_allocate_fd-LowestFd v.open_files size) [
    | none_left r busy ↦ all_open given busy (rw (given, r)) (rw (given, r))
    | lowest fd r low high free below ↦
        let o : OpenFile = record { file = new_file inode flags mode; fs = i } in
        opened fd (new_file inode flags mode) given (rw (given, r)) free below
          (record {
            same_inode = refl;
            position = refl;
            same_flags = refl;
            same_mode = refl;
            ref_count = refl;
          })
          (rw (given, r)
            record {
              low = low;
              high = high;
              in_table = rw (length-set v.open_files fd (some o)) (omega (arith, size, high));
              there = get_or-set_self v.open_files fd (some o) none (omega (arith, size, high));
            })
          (λ d ne. rw (given, r) (get_or-set_ne v.open_files fd d (some o) none (λ e. ne (sym e))))
          (rw (given, r))
  ]
]

-- With a table of 32 descriptors, an inode of the RAM file system gets the lowest descriptor from 3 on that is not
-- in use: there is then an open file with this inode, these flags and this mode that is held once, with its
-- position at 0 or, if the flags have bit 13, VFS_O_APPEND, at the size of the inode; the other descriptors keep
-- what they have. Without memory, or if all descriptors are in use, no descriptor changes.
pub open_file-Opening :
    {S P : Type 0} (ops : SfsOps S) (v : Vfs S P) (i : ℕ) (fs : RamfsFsData) (inode : Inode)
    (flags mode : ℕ) (granted : Bool)
    → v.filesystems i ≡ ramfs fs
    → length v.open_files ≡ 32
    → Opening v i inode flags mode granted (open_file ops v i inode flags mode granted)
unfolding open_file
open_file-Opening ops v i fs inode flags mode granted at_fs size =
    rw at_fs (open_file_on-Opening ops v i fs inode flags mode granted size)
