-- ===== src/Memory/Manager/Tests.antt =====
-- A boot with 16 MiB of memory, an allocation of two pages, and the theorems at them.
use build_your_own_os.Prelude.{
  ◌+◌, ◌≡◌, refl, Bool, true, false, some, [], ◌∷◌, arith, replicate, has_bit, with_bit,
}
use build_your_own_os.Memory.Pages.{
  MapEntry, memory_alloc_pages, find_free_pages, find_from, count_run, mark_used, set_page_used,
  update_stats, is_page_free,
}
use build_your_own_os.Memory.Pages.Count.{free_below}
use build_your_own_os.Memory.Pages.Valid.{IsValid}
use build_your_own_os.Memory.Manager.{
  Memory, BootInfo, boot_protocol_magic, boot_info_valid, memory_alloc, memory_free, memory_init,
}
use build_your_own_os.Memory.Manager.Laws.{IsUp, memory_init-IsUp, memory_free-memory_alloc}

abbrev ram : MapEntry
ram = record { base = 0x40000000; length = 0x1000000; type = 1 }

abbrev down : Memory
down = record {
  memory_initialized = false;
  pages = record {
    bitmap = replicate 512 0;
    total_pages = 0;
    free_pages = 0;
    memory_base = 0;
    current_stats = record {
      total_memory = 0;
      used_memory = 0;
      free_memory = 0;
      total_regions = 0;
      free_regions = 0;
    };
  };
}

abbrev info : BootInfo
info = record { magic = boot_protocol_magic; version = 1; memory_map = some (ram ∷ []) }

memory_init-IsUp_example :
    (done : Bool) × (m' : Memory) × (memory_init down (some info) true ≡ some (done, m'))
    × IsUp (ram ∷ []) done m'
unfolding boot_info_valid
memory_init-IsUp_example =
    memory_init-IsUp down info ram []
      (record { uninitialised = refl; bits = omega arith; base = omega arith }) refl refl
      (omega arith)

-- ten pages from 1 MiB on, of which pages 0 and 3 are in use
abbrev up : Memory
up = record {
  memory_initialized = true;
  pages = record {
    bitmap = 0x09 ∷ 0xfc ∷ [];
    total_pages = 10;
    free_pages = 8;
    memory_base = 0x100000;
    current_stats = down.pages.current_stats;
  };
}

up-IsValid : IsValid up.pages
unfolding free_below is_page_free has_bit
up-IsValid = record {
  shaped = omega arith;
  small = omega arith;
  counted = refl;
  placed = omega arith;
  high = omega arith;
}

-- after an allocation of two pages: 1 and 2
abbrev taken : Memory
taken = record up {
  pages = record (up.pages) {
    bitmap = 0x0f ∷ 0xfc ∷ [];
    free_pages = 6;
    current_stats = record (up.pages.current_stats) {
      used_memory = 16384;
      free_memory = 24576;
      free_regions = 6;
    };
  };
}

alloc_two : memory_alloc up 8192 ≡ some (0x101000, taken)
unfolding memory_alloc memory_alloc_pages find_free_pages find_from count_run mark_used
    set_page_used update_stats is_page_free has_bit with_bit
alloc_two = refl

memory_free-memory_alloc_example : (memory_free taken 0x101000).pages.free_pages + 2 ≡ 8 + 1
memory_free-memory_alloc_example =
    memory_free-memory_alloc up 8192 refl up-IsValid 0x101000 taken alloc_two (omega arith)
