-- ===== src/Memory/Pages.antt =====
-- The bitmap page allocator, src/arch/arm64/memory/allocator.c. (src/arch/x86_64/memory/allocator.c
-- has the same functions, but for its initialisation, its limit and `memory_get_stats`.)
-- A pointer is its address and NULL is 0. A bit that is set marks a page in use.
pub mod Bitmap
pub mod Count
pub mod Run
pub mod Find
pub mod Alloc
pub mod Free
pub mod Init
pub mod Region
pub mod Valid
mod Tests
use build_your_own_os.Prelude.{
  ℕ, zero, suc, ◌+◌, ◌-◌, ◌*◌, ◌/◌, ◌%◌, ◌^◌, Bool, true, false, ◌&&◌, ◌||◌, not, Option, none,
  some, List, [], ◌∷◌, ltb, leb, ◌==◌, if◌then◌else◌, get_or, set, length, has_bit, with_bit,
  without_bit,
}

abbrev pub page_size : ℕ
page_size = 0x1000

abbrev pub max_pages : ℕ
max_pages = 4096

-- what `find_free_pages` returns when there is no run
abbrev pub not_found : ℕ
not_found = 0xFFFFFFFF

pub record Stats : Type 0 where
  pub total_memory : ℕ
  pub used_memory : ℕ
  pub free_memory : ℕ
  pub total_regions : ℕ
  pub free_regions : ℕ

-- the static variables of the file
pub record Pages : Type 0 where
  pub bitmap : List ℕ
  pub total_pages : ℕ
  pub free_pages : ℕ
  pub memory_base : ℕ
  pub current_stats : Stats

unfoldable pub set_page_used : Pages → ℕ → Pages
set_page_used m page_num = if leb m.total_pages page_num then m else record m {
  bitmap = set m.bitmap (page_num / 8) (with_bit (get_or m.bitmap (page_num / 8) 0) (page_num % 8));
}

unfoldable pub set_page_free : Pages → ℕ → Pages
set_page_free m page_num = if leb m.total_pages page_num then m else record m {
  bitmap =
      set m.bitmap (page_num / 8) (without_bit 8 (get_or m.bitmap (page_num / 8) 0) (page_num % 8));
}

unfoldable pub is_page_free : Pages → ℕ → Bool
is_page_free m page_num =
    if leb m.total_pages page_num
    then false
    else not (has_bit (get_or m.bitmap (page_num / 8) 0) (page_num % 8))

-- The inner loop of `find_free_pages`, `i` running up to `stop`; it has at most `rounds` rounds.
unfoldable pub count_run : ℕ → Pages → (i stop found : ℕ) → ℕ
count_run zero m i stop found = found
count_run (suc rounds) m i stop found =
    elim (ltb i stop && ltb i m.total_pages && is_page_free m i) [
      | true ↦ count_run rounds m (i + 1) stop (found + 1)
      | false ↦ found
    ]

-- The outer loop, on fuel; `none` is a loop that has not ended. `start` and `start + count` are
-- 32-bit, `total_pages - count` is 64-bit.
unfoldable pub find_from : ℕ → Pages → (count start : ℕ) → Option ℕ
find_from zero m count start = none
find_from (suc fuel) m count start = elim (leb start ((m.total_pages + 2 ^ 64 - count) % 2 ^ 64)) [
  | false ↦ some not_found
  | true ↦ elim (count_run count m start ((start + count) % 2 ^ 32) 0 == count) [
    | true ↦ some start
    | false ↦ find_from fuel m count ((start + 1) % 2 ^ 32)
  ]
]

unfoldable pub find_free_pages : Pages → ℕ → Option ℕ
find_free_pages m count = find_from (m.total_pages + 2) m count 0

-- for (i = start; i < start + num_pages; i++) set_page_used(i)
unfoldable pub mark_used : (rounds : ℕ) → Pages → ℕ → Pages
mark_used zero m i = m
mark_used (suc rounds) m i = mark_used rounds (set_page_used m i) (i + 1)

unfoldable pub update_stats : Pages → Pages
update_stats m = record m {
  current_stats = record (m.current_stats) {
    free_memory = m.free_pages * page_size % 2 ^ 64;
    used_memory = (m.total_pages + 2 ^ 64 - m.free_pages) * page_size % 2 ^ 64;
    free_regions = m.free_pages % 2 ^ 32;
  };
}

-- The pointer and the new state; `none` is a search that does not end.
unfoldable pub memory_alloc_pages : Pages → ℕ → Option (ℕ × Pages)
memory_alloc_pages m num_pages =
    if num_pages == 0 || ltb m.free_pages num_pages
    then some (0, m)
    else elim (find_free_pages m (num_pages % 2 ^ 32)) [
      | none ↦ none
      | some start_page ↦
          if start_page == not_found
          then some (0, m)
          else some (
            (m.memory_base + start_page * page_size % 2 ^ 32) % 2 ^ 64,
            update_stats (
                let m' = mark_used num_pages m start_page in
                record m' { free_pages = m'.free_pages - num_pages }),
          )
    ]

-- the body of the loop of `memory_free_pages`
unfoldable pub release_page : Pages → ℕ → Pages
release_page m i =
    if is_page_free m i
    then m
    else let m' = set_page_free m i in record m' { free_pages = m'.free_pages + 1 }

-- for (i = start; i < start + num_pages; i++)
unfoldable pub release : (rounds : ℕ) → Pages → ℕ → Pages
release zero m i = m
release (suc rounds) m i = release rounds (release_page m i) (i + 1)

unfoldable pub memory_free_pages : Pages → (ptr num_pages : ℕ) → Pages
memory_free_pages m ptr num_pages =
    if ptr == 0 || num_pages == 0
    then m
    else if ltb ptr m.memory_base
    then m
    else let start_page = (ptr - m.memory_base) / page_size % 2 ^ 32 in
      let stop = (start_page + num_pages) % 2 ^ 64 in
      if leb m.total_pages start_page || ltb m.total_pages stop
      then m
      else update_stats (release (stop - start_page) m start_page)

unfoldable pub memory_get_stats : Pages → Stats
memory_get_stats m = record {
  total_memory = m.total_pages * page_size % 2 ^ 64;
  used_memory = (m.total_pages + 2 ^ 64 - m.free_pages) * page_size % 2 ^ 64;
  free_memory = m.free_pages * page_size % 2 ^ 64;
  total_regions = 1;
  free_regions = m.free_pages % 2 ^ 32;
}

abbrev pub memory_type_available : ℕ
memory_type_available = 1

pub record MapEntry : Type 0 where
  pub base : ℕ
  pub length : ℕ
  pub type : ℕ

-- for (i = 0; i < BITMAP_SIZE; i++) bitmap[i] = 0xFF
unfoldable pub fill_bitmap : List ℕ → List ℕ
fill_bitmap [] = []
fill_bitmap (b ∷ bs) = 0xFF ∷ fill_bitmap bs

-- The largest available region so far, as its base and size.
unfoldable pub largest_region : List MapEntry → (ℕ × ℕ) → ℕ × ℕ
largest_region [] best = best
largest_region (e ∷ es) (largest_base, largest_size) = largest_region es (
    if e.type == memory_type_available && ltb largest_size e.length
    then (e.base, e.length)
    else (largest_base, largest_size))

-- for (i = 0; i < total_pages; i++) set_page_free(i)
unfoldable pub mark_free : (rounds : ℕ) → Pages → ℕ → Pages
mark_free zero m i = m
mark_free (suc rounds) m i = mark_free rounds (set_page_free m i) (i + 1)

-- From "Calculate number of pages" on, with the usable size found.
unfoldable pub setup_pages : Pages → (usable_size map_entries : ℕ) → Pages
setup_pages m usable_size map_entries =
    let pages =
      if ltb max_pages (usable_size / page_size) then max_pages else usable_size / page_size in
    let m' = mark_free pages (record m { total_pages = pages }) 0 in
    record m' {
      free_pages = pages;
      current_stats = record {
        total_memory = pages * page_size % 2 ^ 64;
        used_memory = 0;
        free_memory = pages * page_size % 2 ^ 64;
        total_regions = map_entries;
        free_regions = pages % 2 ^ 32;
      };
    }

-- From "No available memory found" on. The first megabyte is left to the firmware.
unfoldable pub setup_region : Pages → (largest_base largest_size map_entries : ℕ) → Pages
setup_region m largest_base largest_size map_entries =
    let m1 = record m { memory_base = largest_base } in
    let offset = 0x100000 - largest_base in
    if largest_size == 0
    then m
    else if leb 0x100000 largest_base
    then setup_pages m1 largest_size map_entries
    else if ltb offset largest_size
    then setup_pages (record m { memory_base = largest_base + offset }) (largest_size - offset)
        map_entries
    else m1

unfoldable pub arch_memory_allocator_init : Pages → List MapEntry → Pages
arch_memory_allocator_init m memory_map =
    let m0 = record m { bitmap = fill_bitmap m.bitmap; total_pages = 0; free_pages = 0 } in
    let (largest_base, largest_size) = largest_region memory_map (0, 0) in
    setup_region m0 largest_base largest_size (length memory_map)
