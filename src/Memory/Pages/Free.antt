-- ===== src/Memory/Pages/Free.antt =====
-- `memory_free_pages`: whatever it is called with, and the round trip with `memory_alloc_pages`.
use build_your_own_os.Prelude.{
  ℕ, zero, suc, ◌+◌, ◌-◌, ◌/◌, ◌%◌, ◌^◌, ◌≤◌, ◌<◌, ◌≡◌, refl, ◌∙◌, sym, ap, ◌≢◌, inl, inr, Bool,
  false, ◌||◌, some, arith, ltb, leb, ◌==◌, if◌then◌else◌, Bool-cases, length,
}
use build_your_own_os.Memory.Pages.{
  Pages, page_size, is_page_free, set_page_free, release_page, release, update_stats,
  memory_free_pages, memory_alloc_pages,
}
use build_your_own_os.Memory.Pages.Bitmap.{
  IsShaped, set_page_free-SameShape, is_page_free-set_page_free,
}
use build_your_own_os.Memory.Pages.Count.{free_below, free_below-ext, free_below-set_page_free}
use build_your_own_os.Memory.Pages.Run.{within}
use build_your_own_os.Memory.Pages.Valid.{IsValid}
use build_your_own_os.Memory.Pages.Alloc.{
  Taken, page_address, AllocOutcome, granted, refused, memory_alloc_pages-AllocOutcome,
}

-- From `m` to `m'` the `n` pages from `i` on were released, and the counter rose by as much as the
-- number of free pages.
record Released (m : Pages) (n i : ℕ) (m' : Pages) : Type 0 where
  total : m'.total_pages ≡ m.total_pages
  base : m'.memory_base ≡ m.memory_base
  bytes : length m'.bitmap ≡ length m.bitmap
  pages : (j : ℕ) → is_page_free m' j ≡ (within i n j || is_page_free m j)
  balance : m'.free_pages + free_below m m.total_pages ≡ m.free_pages + free_below m' m.total_pages

module _ (m : Pages) (i : ℕ) (s : IsShaped m) (l : i < m.total_pages) where
  abbrev freed : Pages
  freed = let m' = set_page_free m i in record m' { free_pages = m'.free_pages + 1 }

  freed_state : (j : ℕ) → is_page_free freed j ≡ is_page_free (set_page_free m i) j
  unfolding is_page_free
  freed_state j = refl

  release_page-Released : Released m 1 i (release_page m i)
  unfolding release_page
  release_page-Released = elim (Bool-cases (is_page_free m i)) [
    | inl f ↦ rw f record {
      total = refl;
      base = refl;
      bytes = refl;
      pages = λ j. elim (Bool-cases (i == j)) [
        | inl e ↦ let e' : i ≡ j = ground arith in let g = rw e' at f in rw g (ground arith)
        | inr ne ↦ ground arith
      ];
      balance = refl;
    }
    | inr u ↦
        let same = set_page_free-SameShape m i in
        rw u record {
          total = same.total;
          base = same.base;
          bytes = same.bytes;
          pages = λ j. freed_state j ∙ is_page_free-set_page_free m i j s ∙ ground arith;
          balance = omega (
            arith,
            same.free,
            free_below-set_page_free m i m.total_pages s l l u,
            free_below-ext freed (set_page_free m i) m.total_pages freed_state,
          );
        }
  ]

Released-suc :
    (m m' m'' : Pages) (n i : ℕ)
    → Released m 1 i m'
    → Released m' n (i + 1) m''
    → Released m (suc n) i m''
Released-suc m m' m'' n i p q = record {
  total = q.total ∙ p.total;
  base = q.base ∙ p.base;
  bytes = q.bytes ∙ p.bytes;
  pages = λ j. ground (arith, p.pages j, q.pages j);
  balance =
      omega (arith, p.balance, q.balance, ap (free_below m') p.total, ap (free_below m'') p.total);
}

release-Released :
    (n : ℕ) (m : Pages) (i : ℕ)
    → IsShaped m
    → i + n ≤ m.total_pages
    → Released m n i (release n m i)
unfolding release
release-Released zero m i s h = record {
  total = refl;
  base = refl;
  bytes = refl;
  pages = λ j. ground arith;
  balance = refl;
}
release-Released (suc n) m i s h =
    let first = release_page-Released m i s (omega arith) in
    Released-suc m (release_page m i) (release n (release_page m i) (i + 1)) n i first (
      release-Released n (release_page m i) (i + 1)
        (record { covered = omega (arith, s.covered, first.total, first.bytes) })
        (omega (arith, first.total)))

module _ (m : Pages) (v : IsValid m) where
  update_stats_state : (m' : Pages) (j : ℕ) → is_page_free (update_stats m') j ≡ is_page_free m' j
  unfolding update_stats is_page_free
  update_stats_state m' j = refl

  Released-IsValid : (n i : ℕ) (m' : Pages) → Released m n i m' → IsValid (update_stats m')
  unfolding update_stats
  Released-IsValid n i m' r = record {
    shaped = record { covered = omega (arith, v.shaped.covered, r.total, r.bytes) };
    small = omega (arith, v.small, r.total);
    counted =
        balanced
        ∙ sym (ap (free_below m') r.total)
        ∙ sym (free_below-ext (update_stats m') m' m'.total_pages (update_stats_state m'));
    placed = omega (arith, v.placed, r.total, r.base);
    high = omega (arith, v.high, r.total, r.base);
  }
    where
      balanced : m'.free_pages ≡ free_below m' m.total_pages
      balanced = omega (arith, v.counted, r.balance)

  -- what a call does when it passes the checks: the arguments of the loop
  abbrev first_page : ℕ → ℕ
  first_page ptr = (ptr - m.memory_base) / page_size % 2 ^ 32

  abbrev rounds : ℕ → ℕ → ℕ
  rounds ptr n = (first_page ptr + n) % 2 ^ 64 - first_page ptr

  abbrev refuses : ℕ → ℕ → Bool
  refuses ptr n =
      (ptr == 0 || n == 0)
      || (ltb ptr m.memory_base
          || (leb m.total_pages (first_page ptr)
              || ltb m.total_pages ((first_page ptr + n) % 2 ^ 64)))

  free_cases :
      (ptr n : ℕ)
      → memory_free_pages m ptr n
        ≡ (if refuses ptr n then m else update_stats (release (rounds ptr n) m (first_page ptr)))
  unfolding memory_free_pages
  free_cases ptr n = ground arith

  released :
      (ptr n : ℕ)
      → refuses ptr n ≡ false
      → Released m (rounds ptr n) (first_page ptr) (release (rounds ptr n) m (first_page ptr))
  released ptr n h = release-Released (rounds ptr n) m (first_page ptr) v.shaped (ground arith)

  -- Freeing keeps the allocator valid, whatever the pointer and the number of pages.
  pub memory_free_pages-IsValid : (ptr n : ℕ) → IsValid (memory_free_pages m ptr n)
  memory_free_pages-IsValid ptr n = rw (free_cases ptr n) (elim (Bool-cases (refuses ptr n)) [
    | inl h ↦ rw h v
    | inr h ↦ rw h (
        Released-IsValid (rounds ptr n) (first_page ptr) (release (rounds ptr n) m (first_page ptr))
          (released ptr n h))
  ])

  free_run :
      (start n : ℕ)
      → 0 < n
      → start + n ≤ m.total_pages
      → memory_free_pages m (page_address m start) n ≡ update_stats (release n m start)
  free_run start n pos h =
      let first : first_page (page_address m start) ≡ start = omega (arith, v.small) in
      let count : (start + n) % 2 ^ 64 - start ≡ n = omega (arith, v.small) in
      let passes : refuses (page_address m start) n ≡ false =
        rw first (ground (arith, v.high, v.small)) in
      rw (free_cases (page_address m start) n, passes, first, count)

  -- Freeing a run of managed pages makes its pages free and changes no other page, nor the number
  -- of pages or their place.
  pub memory_free_pages_lem :
      (start n : ℕ)
      → 0 < n
      → start + n ≤ m.total_pages
      → let m' = memory_free_pages m (page_address m start) n in
        ((j : ℕ) → is_page_free m' j ≡ (within start n j || is_page_free m j))
        × (m'.total_pages ≡ m.total_pages)
        × (m'.memory_base ≡ m.memory_base)
  memory_free_pages_lem start n pos h =
      let r = release-Released n m start v.shaped h in
      rw (free_run start n pos h) (
        (λ j. update_stats_state (release n m start) j ∙ r.pages j),
        unfold update_stats in r.total,
        unfold update_stats in r.base,
      )

  pub free_one :
      (start : ℕ)
      → start < m.total_pages
      → is_page_free m start ≡ false
      → (memory_free_pages m (page_address m start) 1).free_pages ≡ m.free_pages + 1
  unfolding release release_page update_stats
  free_one start h used =
      rw (free_run start 1 (omega arith) (omega arith), used)
        (omega (arith, (set_page_free-SameShape m start).free))

module _ (m : Pages) (n : ℕ) (v : IsValid m) where
  pub free-Taken :
      (start : ℕ) (m' : Pages)
      → 0 < n
      → Taken m n start m'
      → IsValid m'
      → let m'' = memory_free_pages m' (page_address m start) n in
        ((j : ℕ) → is_page_free m'' j ≡ is_page_free m j)
        × (m''.free_pages ≡ m.free_pages)
        × (m''.total_pages ≡ m.total_pages)
  free-Taken start m' pos t v' =
      let address : page_address m start ≡ page_address m' start = omega (arith, t.memory_base) in
      let freed =
        memory_free_pages_lem m' v' start n pos (omega (arith, t.in_range, t.total_pages)) in
      let back : (j : ℕ)
          → is_page_free (memory_free_pages m' (page_address m' start) n) j ≡ is_page_free m j =
        (λ j. ground (arith, freed.0 j, t.pages j, t.was_free j)) in
      rw address (
        back,
        (memory_free_pages-IsValid m' v' (page_address m' start) n).counted
            ∙ free_below-ext (memory_free_pages m' (page_address m' start) n) m _ back
            ∙ ap (free_below m) (freed.1 ∙ t.total_pages)
            ∙ sym v.counted,
        freed.1 ∙ t.total_pages,
      )

  -- Allocating pages and freeing them again brings back the state of every page and the counter,
  -- and keeps the number of pages.
  pub memory_free_pages-memory_alloc_pages :
      (ptr : ℕ) (m' : Pages)
      → memory_alloc_pages m n ≡ some (ptr, m')
      → ptr ≢ 0
      → let m'' = memory_free_pages m' ptr n in
        ((j : ℕ) → is_page_free m'' j ≡ is_page_free m j)
        × (m''.free_pages ≡ m.free_pages)
        × (m''.total_pages ≡ m.total_pages)
  memory_free_pages-memory_alloc_pages ptr m' e ne = go (memory_alloc_pages-AllocOutcome m n v)
    where
      go :
          AllocOutcome m n (memory_alloc_pages m n)
          → let m'' = memory_free_pages m' ptr n in
            ((j : ℕ) → is_page_free m'' j ≡ is_page_free m j)
            × (m''.free_pages ≡ m.free_pages)
            × (m''.total_pages ≡ m.total_pages)
      go (granted start m1 e1 pos t v1) =
          let p : ptr ≡ page_address m start = ground arith in
          let q : m' ≡ m1 = cc in rw (p, q) (free-Taken start m1 t.asked t v1)
      go (refused e1 why) = absurd (ne (ground arith))
