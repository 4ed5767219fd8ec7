-- ===== src/Memory/Pages/Valid.antt =====
-- The invariant of the page allocator.
use build_your_own_os.Prelude.{◌+◌, ◌*◌, ◌^◌, ◌≤◌, ◌<◌, ◌≡◌, ◌⊎◌}
use build_your_own_os.Memory.Pages.{Pages, page_size}
use build_your_own_os.Memory.Pages.Bitmap.{IsShaped}
use build_your_own_os.Memory.Pages.Count.{free_below}

-- The bitmap covers the pages, the counter agrees with it, and the managed memory lies above the
-- first megabyte and in the address space. 32768 is the larger of the two limits on pages.
pub record IsValid (m : Pages) : Type 0 where
  pub shaped : IsShaped m
  pub small : m.total_pages ≤ 32768
  pub counted : m.free_pages ≡ free_below m m.total_pages
  pub placed : m.memory_base + m.total_pages * page_size < 2 ^ 64
  pub high : (m.total_pages ≡ 0) ⊎ (0x100000 ≤ m.memory_base)
