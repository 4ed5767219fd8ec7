-- ===== src/Memory/Pages/Tests.antt =====
-- A small allocator, runs of its operations, and the theorems at it.
use build_your_own_os.Prelude.{
  ℕ, ◌≡◌, refl, some, List, [], ◌∷◌, arith, replicate, has_bit, with_bit,
}
use build_your_own_os.Memory.Pages.{
  Pages, MapEntry, is_page_free, set_page_used, count_run, find_from, find_free_pages, mark_used,
  update_stats, memory_alloc_pages, memory_free_pages, arch_memory_allocator_init,
}
use build_your_own_os.Memory.Pages.Count.{free_below}
use build_your_own_os.Memory.Pages.Valid.{IsValid}
use build_your_own_os.Memory.Pages.Alloc.{AllocOutcome, memory_alloc_pages-AllocOutcome}
use build_your_own_os.Memory.Pages.Free.{
  memory_free_pages-IsValid, memory_free_pages-memory_alloc_pages,
}
use build_your_own_os.Memory.Pages.Region.{IsInitialised, arch_memory_allocator_init-IsInitialised}

-- ten pages from 1 MiB on, of which pages 0 and 3 are in use
abbrev small : Pages
small = record {
  bitmap = 0x09 ∷ 0xfc ∷ [];
  total_pages = 10;
  free_pages = 8;
  memory_base = 0x100000;
  current_stats = record {
    total_memory = 40960;
    used_memory = 8192;
    free_memory = 32768;
    total_regions = 1;
    free_regions = 8;
  };
}

small-IsValid : IsValid small
unfolding free_below is_page_free has_bit
small-IsValid = record {
  shaped = omega arith;
  small = omega arith;
  counted = refl;
  placed = omega arith;
  high = omega arith;
}

-- The first three pages in a row that are free are 4, 5 and 6.
abbrev after : Pages
after = record small {
  bitmap = 0x79 ∷ 0xfc ∷ [];
  free_pages = 5;
  current_stats = record {
    total_memory = 40960;
    used_memory = 20480;
    free_memory = 20480;
    total_regions = 1;
    free_regions = 5;
  };
}

alloc_three : memory_alloc_pages small 3 ≡ some (0x104000, after)
unfolding memory_alloc_pages find_free_pages find_from count_run mark_used set_page_used
    update_stats is_page_free has_bit with_bit
alloc_three = refl

memory_alloc_pages-AllocOutcome_example : AllocOutcome small 3 (memory_alloc_pages small 3)
memory_alloc_pages-AllocOutcome_example = memory_alloc_pages-AllocOutcome small 3 small-IsValid

memory_free_pages-IsValid_example : IsValid (memory_free_pages small 0x103000 2)
memory_free_pages-IsValid_example = memory_free_pages-IsValid small small-IsValid 0x103000 2

memory_free_pages-memory_alloc_pages_example :
    let m' = memory_free_pages after 0x104000 3 in
    ((j : ℕ) → is_page_free m' j ≡ is_page_free small j)
    × (m'.free_pages ≡ 8)
    × (m'.total_pages ≡ 10)
memory_free_pages-memory_alloc_pages_example =
    memory_free_pages-memory_alloc_pages small 3 small-IsValid 0x104000 after alloc_three
      (omega arith)

-- 16 MiB at 0x40000000, beside a reserved region
abbrev map16 : List MapEntry
map16 =
    record { base = 0; length = 0x9fc00; type = 2 }
    ∷ record { base = 0x40000000; length = 0x1000000; type = 1 }
    ∷ []

abbrev blank : Pages
blank = record small { bitmap = replicate 512 0; total_pages = 0; free_pages = 0; memory_base = 0 }

arch_memory_allocator_init-IsInitialised_example :
    IsInitialised map16 (arch_memory_allocator_init blank map16)
arch_memory_allocator_init-IsInitialised_example =
    arch_memory_allocator_init-IsInitialised blank map16 (omega arith) (omega arith) (omega arith)
