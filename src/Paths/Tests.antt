-- ===== src/Paths/Tests.antt =====
-- Concrete paths: "/m/a" below the mount point "/m".
use build_your_own_os.Prelude.{◌≡◌, ◌⊎◌, refl, [], ◌∷◌, ◌++◌, Str}
use build_your_own_os.Paths.{slash, strip, vfs_path_is_prefix, vfs_path_within_mount}
use build_your_own_os.Paths.Laws.{append-vfs_path_within_mount}

abbrev mount_path : Str
mount_path = 47 ∷ 109 ∷ []

abbrev file_path : Str
file_path = 47 ∷ 109 ∷ 47 ∷ 97 ∷ []

append-vfs_path_within_mount_example :
    ((rest : Str) × (vfs_path_within_mount mount_path file_path ≡ slash ∷ rest)
      × (file_path ≡ mount_path ++ slash ∷ rest))
    ⊎ ((vfs_path_within_mount mount_path file_path ≡ slash ∷ []) × (file_path ≡ mount_path))
unfolding vfs_path_is_prefix strip
append-vfs_path_within_mount_example = append-vfs_path_within_mount mount_path file_path refl refl
