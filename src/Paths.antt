-- ===== src/Paths.antt =====
-- The path functions of src/fs/vfs/vfs_core.c on strings, which are their bytes: the name and the
-- directory of a path, and where a path lies below a mount point.
pub mod Laws
mod Tests
use build_your_own_os.Prelude.{
  ℕ, Bool, true, false, Option, none, some, List, [], ◌∷◌, Str, same_name, ◌==◌, if◌then◌else◌,
  length, drop,
}

-- '/'
abbrev pub slash : ℕ
slash = 47

abbrev pub vfs_max_name : ℕ
vfs_max_name = 255

abbrev pub vfs_max_path : ℕ
vfs_max_path = 1024

-- where `strrchr` finds the last '/': what stands before it and what stands behind
unfoldable pub split_last : Str → Option (Str × Str)
split_last [] = none
split_last (c ∷ cs) = elim (split_last cs) [
  | some (before, behind) ↦ some (c ∷ before, behind)
  | none ↦ if c == slash then some ([], cs) else none
]

unfoldable pub vfs_get_filename : (path : Str) → Str
vfs_get_filename path = elim (split_last path) [ none ↦ path | some (before, behind) ↦ behind ]

-- `some none` is NULL. `none` is a fault: `strncpy` gets the length of the directory part, finds no end
-- in it and overwrites the memory behind. `granted` says whether `kmalloc` returned memory.
unfoldable pub vfs_get_dirname : (path : Str) → (granted : Bool) → Option (Option Str)
vfs_get_dirname [] granted = some none
vfs_get_dirname (c ∷ cs) granted = elim (split_last (c ∷ cs)) [
  | none ↦ if granted then some (some (46 ∷ [])) else some none
  | some ([], behind) ↦ if granted then some (some (slash ∷ [])) else some none
  | some (d ∷ ds, behind) ↦ if granted then none else some none
]

-- the test of strncmp for 0, with the length of the second string, and what it leaves of the first
unfoldable pub strip : (prefix path : Str) → Option Str
strip [] path = some path
strip (d ∷ ds) [] = none
strip (d ∷ ds) (c ∷ cs) = let rest = strip ds cs in if d == c then rest else none

-- path[0] == '/'
unfoldable pub vfs_is_absolute_path : (path : Str) → Bool
vfs_is_absolute_path [] = false
vfs_is_absolute_path (c ∷ cs) = c == slash

-- at the end of a path, or at a '/'
abbrev pub at_boundary : Str → Bool
at_boundary [] = true
at_boundary (c ∷ cs) = c == slash

unfoldable pub vfs_path_is_prefix : (path prefix : Str) → Bool
vfs_path_is_prefix path [] = false
vfs_path_is_prefix path (d ∷ ds) =
    if same_name (d ∷ ds) (slash ∷ [])
    then vfs_is_absolute_path path
    else elim (strip (d ∷ ds) path) [ none ↦ false | some rest ↦ at_boundary rest ]

-- `path[mount_len]` and the path from there
abbrev pub from_boundary : (path rest : Str) → Str
from_boundary path [] = slash ∷ []
from_boundary path (c ∷ cs) = if c == slash then c ∷ cs else path

unfoldable pub vfs_path_within_mount : (mountpoint path : Str) → Str
vfs_path_within_mount mountpoint path =
    if same_name mountpoint (slash ∷ [])
    then path
    else if length mountpoint == 0
    then path
    else if vfs_path_is_prefix path mountpoint
    then from_boundary path (drop (length mountpoint) path)
    else path
