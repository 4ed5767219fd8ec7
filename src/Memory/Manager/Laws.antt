-- ===== src/Memory/Manager/Laws.antt =====
-- What `memory_init` leaves, and what `memory_alloc` followed by `memory_free` keeps and loses.
use build_your_own_os.Prelude.{
  ℕ, ◌+◌, ◌-◌, ◌*◌, ◌/◌, ◌%◌, ◌^◌, ◌≤◌, ◌<◌, ◌≡◌, refl, ◌∙◌, ◌≢◌, ◌↔◌, inl, inr, Bool, true, false,
  some, List, ◌∷◌, arith, ◌==◌, if◌then◌else◌, length, All, Bool-cases,
}
use build_your_own_os.Memory.Pages.{
  Pages, MapEntry, page_size, max_pages, is_page_free, memory_alloc_pages, memory_free_pages,
  arch_memory_allocator_init,
}
use build_your_own_os.Memory.Pages.Run.{AllFree}
use build_your_own_os.Memory.Pages.Valid.{IsValid}
use build_your_own_os.Memory.Pages.Init.{Fresh}
use build_your_own_os.Memory.Pages.Alloc.{
  Taken, page_address, AllocOutcome, granted, refused, memory_alloc_pages-AllocOutcome,
}
use build_your_own_os.Memory.Pages.Free.{memory_free_pages-IsValid, free-Taken, free_one}
use build_your_own_os.Memory.Pages.Region.{Fits, arch_memory_allocator_init-IsInitialised}
use build_your_own_os.Memory.Manager.{
  Memory, BootInfo, boot_info_valid, memory_alloc, memory_free, memory_test, memory_setup,
  memory_init,
}

-- The outcome of the test allocation on a fresh allocator: it succeeds exactly if there is a page,
-- and then every page is free again.
record Tested (m : Memory) (done : Bool) (m' : Memory) : Type 0 where
  ready : m'.memory_initialized ≡ done
  decided : (done ≡ true) ↔ (0 < m.pages.total_pages)
  valid : IsValid m'.pages
  same : (j : ℕ) → is_page_free m'.pages j ≡ is_page_free m.pages j
  free : m'.pages.free_pages ≡ m.pages.free_pages
  total : m'.pages.total_pages ≡ m.pages.total_pages

memory_alloc-some :
    (m : Memory) (ptr : ℕ) (p : Pages)
    → m.memory_initialized ≡ true
    → memory_alloc_pages m.pages 1 ≡ some (ptr, p)
    → memory_alloc m page_size ≡ some (ptr, record m { pages = p })
unfolding memory_alloc
memory_alloc-some m ptr p on e = ground arith

memory_test-some :
    (m m' : Memory) (ptr : ℕ)
    → memory_alloc m page_size ≡ some (ptr, m')
    → memory_test m ≡ (
        if ptr == 0
        then some (false, record m' { memory_initialized = false })
        else some (true, memory_free m' ptr))
unfolding memory_test
memory_test-some m m' ptr e = rw (e, memory_test)

memory_free_on :
    (m : Memory) (ptr : ℕ)
    → m.memory_initialized ≡ true
    → (ptr == 0) ≡ false
    → memory_free m ptr ≡ record m { pages = memory_free_pages m.pages ptr 1 }
unfolding memory_free
memory_free_on m ptr on h = ground arith

no_page :
    (m : Pages) → Fresh m → ((t : ℕ) → t + 1 ≤ m.total_pages → ¬ AllFree m t 1) → m.total_pages ≡ 0
no_page m f h = elim (Bool-cases (m.total_pages == 0)) [
  | inl z ↦ ground arith
  | inr nz ↦
      absurd
        (h 0 (ground arith) (λ j a b. let e : j ≡ 0 = omega arith in rw e (f 0 (ground arith))))
]

memory_test-Tested :
    (m : Memory)
    → m.memory_initialized ≡ true
    → IsValid m.pages
    → Fresh m.pages
    → (done : Bool) × (m' : Memory) × (memory_test m ≡ some (done, m')) × Tested m done m'
memory_test-Tested m on v f = go (memory_alloc_pages-AllocOutcome m.pages 1 v)
  where
    go :
        AllocOutcome m.pages 1 (memory_alloc_pages m.pages 1)
        → (done : Bool) × (m' : Memory) × (memory_test m ≡ some (done, m')) × Tested m done m'
    go (granted start p e pos t v') =
        let ptr = page_address m.pages start in
        let back = free-Taken m.pages 1 v start p t.asked t v' in
        let not_null : (ptr == 0) ≡ false = ground arith in
        (
          true,
          record m { pages = memory_free_pages p ptr 1 },
          memory_test-some m (record m { pages = p }) ptr (memory_alloc-some m ptr p on e)
              ∙ rw (not_null, memory_free_on (record m { pages = p }) ptr on not_null),
          record {
            ready = on;
            decided = ((λ _. omega (arith, t.in_range)), (λ _. refl));
            valid = memory_free_pages-IsValid p v' ptr 1;
            same = back.0;
            free = back.1;
            total = back.2;
          },
        )
    go (refused e why) =
        let none_there : m.pages.total_pages ≡ 0 = elim why [
          | inl z ↦ absurd (omega arith)
          | inr h ↦ no_page m.pages f h
        ] in
        (
          false,
          record m { memory_initialized = false },
          memory_test-some m m 0 (memory_alloc-some m 0 m.pages on e),
          record {
            ready = refl;
            decided = ((λ h. cc), (λ h. absurd (omega arith)));
            valid = v;
            same = λ j. refl;
            free = refl;
            total = refl;
          },
        )

-- The memory manager is up with the pages of the map: valid and all free, as the page allocator's
-- initialisation leaves them. It is ready exactly if the call returned 0, which it does exactly if
-- there is a page.
pub record IsUp (es : List MapEntry) (done : Bool) (m' : Memory) : Type 0 where
  pub ready : m'.memory_initialized ≡ done
  pub decided : (done ≡ true) ↔ (0 < m'.pages.total_pages)
  pub valid : IsValid m'.pages
  pub fresh : Fresh m'.pages

-- the manager before its first use, with the bitmap's 4096 bits
pub record IsDown (m : Memory) : Type 0 where
  pub uninitialised : m.memory_initialized ≡ false
  pub bits : max_pages ≤ 8 * length m.pages.bitmap
  pub base : m.pages.memory_base < 2 ^ 64

module _ (m : Memory) (info : BootInfo) (e : MapEntry) (es : List MapEntry) (down : IsDown m)
    (good : boot_info_valid info ≡ true) (mapped : info.memory_map ≡ some (e ∷ es))
    (fit : All Fits (e ∷ es)) where
  abbrev set_up : Memory
  set_up = record m {
    memory_initialized = true;
    pages = arch_memory_allocator_init m.pages (e ∷ es);
  }

  init_reaches_test : memory_init m (some info) true ≡ memory_test set_up
  unfolding memory_init memory_setup
  init_reaches_test = rw (down.uninitialised, good, mapped)

  -- With valid boot information, a memory map with entries in the address space and working
  -- architecture code, the first `memory_init` returns, and leaves the manager as `IsUp` says.
  pub memory_init-IsUp :
      (done : Bool) × (m' : Memory) × (memory_init m (some info) true ≡ some (done, m'))
      × IsUp (e ∷ es) done m'
  memory_init-IsUp =
      let i = arch_memory_allocator_init-IsInitialised m.pages (e ∷ es) down.bits down.base fit in
      let (done, m', run, t) = memory_test-Tested set_up refl i.valid i.fresh in
      (
        done,
        m',
        init_reaches_test ∙ run,
        record {
          ready = t.ready;
          decided = (
            (λ h. omega (arith, t.decided.0 h, t.total)),
            (λ h. t.decided.1 (omega (arith, t.total))),
          );
          valid = t.valid;
          fresh = λ j h. t.same j ∙ i.fresh j (omega (arith, t.total));
        },
      )

abbrev pub pages_for : ℕ → ℕ
pages_for size = (size + page_size + 2 ^ 64 - 1) % 2 ^ 64 / page_size

module _ (m : Memory) (size : ℕ) (on : m.memory_initialized ≡ true) (v : IsValid m.pages) where
  memory_free-Taken :
      (start : ℕ) (p : Pages)
      → 0 < page_address m.pages start
      → Taken m.pages (pages_for size) start p
      → IsValid p
      → (memory_free (record m { pages = p }) (page_address m.pages start)).pages.free_pages
        ≡ p.free_pages + 1
  memory_free-Taken start p pos t v' =
      let address : page_address m.pages start ≡ page_address p start =
        omega (arith, t.memory_base) in
      let not_null : (page_address p start == 0) ≡ false = ground (arith, t.memory_base) in
      let used : is_page_free p start ≡ false = ground (arith, t.pages start, t.asked) in
      rw (address, memory_free_on (record m { pages = p }) (page_address p start) on not_null)
        (free_one p v' start (omega (arith, t.in_range, t.total_pages, t.asked)) used)

  -- `memory_free` gives one page back, however many `memory_alloc` took: of an allocation of `n`
  -- pages all but one stay in use.
  pub memory_free-memory_alloc :
      (ptr : ℕ) (m' : Memory)
      → memory_alloc m size ≡ some (ptr, m')
      → ptr ≢ 0
      → (memory_free m' ptr).pages.free_pages + pages_for size ≡ m.pages.free_pages + 1
  memory_free-memory_alloc ptr m' e ne =
      go (memory_alloc_pages-AllocOutcome m.pages (pages_for size) v)
    where
      called :
          (q : ℕ) (p : Pages)
          → memory_alloc_pages m.pages (pages_for size) ≡ some (q, p)
          → memory_alloc m size ≡ some (q, record m { pages = p })
      called q p f = unfold memory_alloc in ground arith

      go :
          AllocOutcome m.pages (pages_for size) (memory_alloc_pages m.pages (pages_for size))
          → (memory_free m' ptr).pages.free_pages + pages_for size ≡ m.pages.free_pages + 1
      go (granted start p f pos t v') =
          let c = called (page_address m.pages start) p f in
          let same_ptr : ptr ≡ page_address m.pages start = ground arith in
          let same_state : m' ≡ record m { pages = p } = cc in
          rw (same_ptr, same_state)
            (omega (arith, memory_free-Taken start p pos t v', t.free_pages))
      go (refused f why) = let c = called 0 m.pages f in absurd (ne (ground arith))
