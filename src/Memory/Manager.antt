-- ===== src/Memory/Manager.antt =====
-- The memory interface of src/kernel/memory.c over the page allocator. What the architecture code
-- answers (`arch_memory_init`, `arch_memory_map_pages`) is an argument: true for success.
pub mod Laws
mod Tests
use build_your_own_os.Prelude.{
  ℕ, ◌+◌, ◌-◌, ◌/◌, ◌%◌, ◌^◌, Bool, true, false, ◌&&◌, ◌||◌, not, Option, none, some, List, [], ◌∷◌,
  ◌==◌, if◌then◌else◌,
}
use build_your_own_os.Memory.Pages.{
  Pages, MapEntry, page_size, memory_alloc_pages, memory_free_pages, arch_memory_allocator_init,
}

pub record Memory : Type 0 where
  pub memory_initialized : Bool
  pub pages : Pages

-- what the manager reads of the boot information; `memory_map` is `none` for NULL
pub record BootInfo : Type 0 where
  pub magic : ℕ
  pub version : ℕ
  pub memory_map : Option (List MapEntry)

abbrev pub boot_protocol_magic : ℕ
boot_protocol_magic = 0x4D696E694F53

unfoldable pub boot_info_valid : BootInfo → Bool
boot_info_valid info = info.magic == boot_protocol_magic && info.version == 1

-- The pointer (0 for NULL) and the new state; `none` is a search that does not end.
unfoldable pub memory_alloc : Memory → (size : ℕ) → Option (ℕ × Memory)
memory_alloc m size =
    if not m.memory_initialized
    then some (0, m)
    else elim (memory_alloc_pages m.pages ((size + page_size + 2 ^ 64 - 1) % 2 ^ 64 / page_size)) [
      | none ↦ none
      | some (ptr, pages) ↦ some (ptr, record m { pages = pages })
    ]

unfoldable pub memory_free : Memory → (ptr : ℕ) → Memory
memory_free m ptr =
    if not m.memory_initialized || ptr == 0
    then m
    else record m { pages = memory_free_pages m.pages ptr 1 }

-- the test allocation at the end of `memory_init`; true is the return value 0
unfoldable pub memory_test : Memory → Option (Bool × Memory)
memory_test m = elim (memory_alloc m page_size) [
  | none ↦ none
  | some (ptr, m') ↦
      if ptr == 0
      then some (false, record m' { memory_initialized = false })
      else some (true, memory_free m' ptr)
]

-- the part that needs the memory map; one with no entries counts as missing
unfoldable pub memory_setup : Memory → Option (List MapEntry) → Option (Bool × Memory)
memory_setup m none = some (false, m)
memory_setup m (some []) = some (false, m)
memory_setup m (some (e ∷ es)) =
    memory_test
      (record m { memory_initialized = true; pages = arch_memory_allocator_init m.pages (e ∷ es) })

unfoldable pub memory_init :
    Memory → Option BootInfo → (arch_memory_init : Bool) → Option (Bool × Memory)
memory_init m boot_info arch_memory_init =
    if m.memory_initialized then some (true, m) else elim boot_info [
      | none ↦ some (false, m)
      | some info ↦
          if not (boot_info_valid info)
          then some (false, m)
          else if not arch_memory_init
          then some (false, m)
          else memory_setup m info.memory_map
    ]

-- The address that is returned, 0 for NULL.
unfoldable pub memory_map : Memory → (phys_addr size : ℕ) → (arch_memory_map_pages : Bool) → ℕ
memory_map m phys_addr size arch_memory_map_pages =
    if not m.memory_initialized || size == 0
    then 0
    else if not arch_memory_map_pages
    then 0
    else phys_addr

unfoldable pub memory_allocator_is_ready : Memory → Bool
memory_allocator_is_ready m = m.memory_initialized
