-- ===== src/Ramfs/Start.antt =====
-- The first files of the RAM file system and its end, src/fs/ramfs/ramfs_core.c. `granted` says of each call of
-- `kmalloc`, in their order, whether it returned memory: two for each directory, then two for the file.
use build_your_own_os.Prelude.{
  ℕ, suc, ◌+◌, Bool, Option, none, some, List, [], ◌∷◌, ◌++◌, Str, if◌then◌else◌, length,
}
use build_your_own_os.Ramfs.{RamfsFsData, put_node, ramfs_destroy_node, ramfs_resolve_path}
use build_your_own_os.Ramfs.Entries.{ramfs_create_directory, ramfs_create_file}

-- every node loses its data
unfoldable pub ramfs_unmount : RamfsFsData → RamfsFsData
ramfs_unmount fs = ramfs_destroy_node (suc fs.allocated) fs fs.root

-- /bin, /etc, /tmp, /home and /dev, with their modes
abbrev first_directories : List (Str × ℕ)
first_directories =
    (47 ∷ 98 ∷ 105 ∷ 110 ∷ [], 493)
    ∷ (47 ∷ 101 ∷ 116 ∷ 99 ∷ [], 493)
    ∷ (47 ∷ 116 ∷ 109 ∷ 112 ∷ [], 511)
    ∷ (47 ∷ 104 ∷ 111 ∷ 109 ∷ 101 ∷ [], 493)
    ∷ (47 ∷ 100 ∷ 101 ∷ 118 ∷ [], 493)
    ∷ []

-- /welcome.txt
abbrev pub welcome_path : Str
welcome_path = 47 ∷ 119 ∷ 101 ∷ 108 ∷ 99 ∷ 111 ∷ 109 ∷ 101 ∷ 46 ∷ 116 ∷ 120 ∷ 116 ∷ []

abbrev welcome_text : List ℕ
welcome_text =
    87 ∷ 101 ∷ 108 ∷ 99 ∷ 111 ∷ 109 ∷ 101 ∷ 32 ∷ 116 ∷ 111 ∷ 32 ∷ 77 ∷ 105 ∷ 110 ∷ 105 ∷ 79 ∷ 83
    ∷ 33 ∷ 10 ∷ 10 ∷ 84 ∷ 104 ∷ 105 ∷ 115 ∷ 32 ∷ 105 ∷ 115 ∷ 32 ∷ 97 ∷ 32 ∷ 102 ∷ 117 ∷ 108 ∷ 108
    ∷ 121 ∷ 32 ∷ 102 ∷ 117 ∷ 110 ∷ 99 ∷ 116 ∷ 105 ∷ 111 ∷ 110 ∷ 97 ∷ 108 ∷ 32 ∷ 82 ∷ 65 ∷ 77 ∷ 32
    ∷ 100 ∷ 105 ∷ 115 ∷ 107 ∷ 32 ∷ 102 ∷ 105 ∷ 108 ∷ 101 ∷ 32 ∷ 115 ∷ 121 ∷ 115 ∷ 116 ∷ 101 ∷ 109
    ∷ 46 ∷ 10 ∷ 84 ∷ 114 ∷ 121 ∷ 32 ∷ 116 ∷ 104 ∷ 101 ∷ 115 ∷ 101 ∷ 32 ∷ 99 ∷ 111 ∷ 109 ∷ 109 ∷ 97
    ∷ 110 ∷ 100 ∷ 115 ∷ 58 ∷ 10 ∷ 32 ∷ 32 ∷ 108 ∷ 115 ∷ 10 ∷ 32 ∷ 32 ∷ 99 ∷ 97 ∷ 116 ∷ 32 ∷ 119
    ∷ 101 ∷ 108 ∷ 99 ∷ 111 ∷ 109 ∷ 101 ∷ 46 ∷ 116 ∷ 120 ∷ 116 ∷ 10 ∷ 32 ∷ 32 ∷ 109 ∷ 107 ∷ 100 ∷ 105
    ∷ 114 ∷ 32 ∷ 116 ∷ 101 ∷ 115 ∷ 116 ∷ 10 ∷ 32 ∷ 32 ∷ 99 ∷ 100 ∷ 32 ∷ 116 ∷ 101 ∷ 115 ∷ 116 ∷ 10
    ∷ 32 ∷ 32 ∷ 112 ∷ 119 ∷ 100 ∷ 10 ∷ 10 ∷ 69 ∷ 110 ∷ 106 ∷ 111 ∷ 121 ∷ 32 ∷ 101 ∷ 120 ∷ 112 ∷ 108
    ∷ 111 ∷ 114 ∷ 105 ∷ 110 ∷ 103 ∷ 33 ∷ 10 ∷ []

unfoldable pub create_directories :
    RamfsFsData → List (Str × ℕ) → (granted : ℕ → Bool) → (call : ℕ) → Option RamfsFsData
create_directories fs [] granted call = some fs
create_directories fs ((path, mode) ∷ rest) granted call =
    elim (ramfs_create_directory fs path mode (granted call) (granted (call + 1))) [
      | none ↦ none
      | some (result, fs1) ↦ create_directories fs1 rest granted (call + 2)
    ]

unfoldable pub write_welcome : RamfsFsData → (granted : Bool) → RamfsFsData
write_welcome fs granted = elim (ramfs_resolve_path fs welcome_path) [
  | none ↦ fs
  | some i ↦
      if granted
      then put_node fs i (record (fs.node i) {
        content = some (welcome_text ++ 0 ∷ []);
        size = length welcome_text;
      })
      else put_node fs i (record (fs.node i) { content = none })
]

unfoldable pub ramfs_populate_initial_files :
    RamfsFsData → (granted : ℕ → Bool) → Option RamfsFsData
ramfs_populate_initial_files fs granted = elim (create_directories fs first_directories granted 0) [
  | none ↦ none
  | some fs1 ↦ elim (ramfs_create_file fs1 welcome_path 420 (granted 10)) [
    | none ↦ none
    | some (result, fs2) ↦ some (write_welcome fs2 (granted 11))
  ]
]
