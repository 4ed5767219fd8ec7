-- ===== src/Memory/Pages/Alloc.antt =====
-- `memory_alloc_pages`: what it grants, and when it refuses.
use build_your_own_os.Prelude.{
  ℕ, ◌+◌, ◌-◌, ◌*◌, ◌%◌, ◌^◌, ◌≤◌, ◌<◌, ◌≡◌, refl, ◌∙◌, sym, ap, ◌≢◌, ◌⊎◌, inl, inr, true, false,
  ◌&&◌, ◌||◌, not, Option, some, none, arith, ltb, ◌==◌, if◌then◌else◌, Bool-cases,
}
use build_your_own_os.Memory.Pages.{
  Pages, page_size, not_found, is_page_free, find_free_pages, mark_used, update_stats,
  memory_alloc_pages,
}
use build_your_own_os.Memory.Pages.Count.{free_below, free_below-ext, free_below-le}
use build_your_own_os.Memory.Pages.Run.{
  AllFree, within, mark_used-SameShape, is_page_free-mark_used, free_below-mark_used,
}
use build_your_own_os.Memory.Pages.Find.{FirstFit, fits, no_fit, find_free_pages-FirstFit}
use build_your_own_os.Memory.Pages.Valid.{IsValid}

-- From `m` to `m'` the `n` pages from `start` on were taken: all free before, and the lowest such
-- run. No other page has changed.
pub record Taken (m : Pages) (n start : ℕ) (m' : Pages) : Type 0 where
  pub asked : 0 < n
  pub in_range : start + n ≤ m.total_pages
  pub was_free : AllFree m start n
  pub lowest : (t : ℕ) → t < start → ¬ AllFree m t n
  pub pages : (j : ℕ) → is_page_free m' j ≡ (not (within start n j) && is_page_free m j)
  pub free_pages : m'.free_pages + n ≡ m.free_pages
  pub total_pages : m'.total_pages ≡ m.total_pages
  pub memory_base : m'.memory_base ≡ m.memory_base

abbrev pub page_address : Pages → ℕ → ℕ
page_address m start = m.memory_base + start * page_size

-- the outcomes of a request for `n` pages
pub data AllocOutcome (m : Pages) (n : ℕ) (r : Option (ℕ × Pages)) : Type 0 where
  granted :
      (start : ℕ) (m' : Pages)
      → r ≡ some (page_address m start, m')
      → 0 < page_address m start
      → Taken m n start m'
      → IsValid m'
      → AllocOutcome m n r
  refused :
      r ≡ some (0, m)
      → (n ≡ 0) ⊎ ((t : ℕ) → t + n ≤ m.total_pages → ¬ AllFree m t n)
      → AllocOutcome m n r

-- the state when the run from `start` on is granted
abbrev taken : Pages → ℕ → ℕ → Pages
taken m n start =
    update_stats (let m' = mark_used n m start in record m' { free_pages = m'.free_pages - n })

module _ (m : Pages) (n : ℕ) (v : IsValid m) where
  le_free_of_AllFree : (t : ℕ) → t + n ≤ m.total_pages → AllFree m t n → n ≤ m.free_pages
  le_free_of_AllFree t h f =
      omega (arith, v.counted, free_below-mark_used n m t m.total_pages v.shaped f h)

  -- the statistics and the counter are no part of a page's state
  is_page_free-taken_marked :
      (start j : ℕ) → is_page_free (taken m n start) j ≡ is_page_free (mark_used n m start) j
  unfolding update_stats is_page_free
  is_page_free-taken_marked start j = refl

  taken-Taken :
      (start : ℕ)
      → n ≢ 0
      → start + n ≤ m.total_pages
      → AllFree m start n
      → ((t : ℕ) → t < start → ¬ AllFree m t n)
      → Taken m n start (taken m n start)
  unfolding update_stats
  taken-Taken start ne h f least =
      let same = mark_used-SameShape n m start in
      record {
        asked = omega arith;
        in_range = h;
        was_free = f;
        lowest = least;
        pages =
            λ j. is_page_free-taken_marked start j ∙ is_page_free-mark_used n m start j v.shaped;
        free_pages = omega (arith, le_free_of_AllFree start h f);
        total_pages = same.total;
        memory_base = same.base;
      }

  taken-IsValid :
      (start : ℕ) → start + n ≤ m.total_pages → AllFree m start n → IsValid (taken m n start)
  unfolding update_stats
  taken-IsValid start h f =
      let same = mark_used-SameShape n m start in
      let c = free_below-mark_used n m start m.total_pages v.shaped f h in
      let t : (mark_used n m start).total_pages ≡ m.total_pages = same.total in
      record {
        shaped = omega arith;
        small = omega arith;
        counted =
            fewer start (le_free_of_AllFree start h f) c
            ∙ sym (ap (free_below (mark_used n m start)) same.total)
            ∙ sym (
                free_below-ext (taken m n start) (mark_used n m start) _
                  (is_page_free-taken_marked start));
        placed = omega arith;
        high = omega arith;
      }
    where
      fewer :
          (start : ℕ)
          → n ≤ m.free_pages
          → free_below (mark_used n m start) m.total_pages + n ≡ free_below m m.total_pages
          → (mark_used n m start).free_pages - n ≡ free_below (mark_used n m start) m.total_pages
      fewer start l c = omega (arith, v.counted, (mark_used-SameShape n m start).free)

  le_total : n ≤ m.free_pages → n ≤ m.total_pages
  le_total h = omega (arith, v.counted, v.small, free_below-le m m.total_pages)

  -- the call when the search has the outcome `r`
  alloc_of_found :
      (r : Option ℕ)
      → n ≢ 0
      → n ≤ m.free_pages
      → find_free_pages m n ≡ r
      → memory_alloc_pages m n ≡ elim r [
        | none ↦ none
        | some start ↦
            if start == not_found
            then some (0, m)
            else some ((m.memory_base + start * page_size % 2 ^ 32) % 2 ^ 64, taken m n start)
      ]
  unfolding memory_alloc_pages
  alloc_of_found r ne le e =
      let low : n % 2 ^ 32 ≡ n = omega (arith, le_total le, v.small) in
      let enough : (n == 0 || ltb m.free_pages n) ≡ false = ground arith in rw (enough, low, e)

  AllocOutcome-of_found :
      n ≢ 0
      → n ≤ m.free_pages
      → FirstFit m n 0 (find_free_pages m n)
      → AllocOutcome m n (memory_alloc_pages m n)
  AllocOutcome-of_found ne le (fits s e ge in_range f least) =
      let address : (m.memory_base + s * page_size % 2 ^ 32) % 2 ^ 64 ≡ page_address m s =
        omega (arith, v.small, v.placed) in
      let found : (s == not_found) ≡ false = ground (arith, v.small) in
      granted s (taken m n s) (rw (alloc_of_found (some s) ne le e, found, address))
        (omega (arith, v.high)) (taken-Taken s ne in_range f (λ t l. least t (omega arith) l))
        (taken-IsValid s in_range f)
  AllocOutcome-of_found ne le (no_fit e none_left) =
      refused (rw (alloc_of_found (some not_found) ne le e)) (inr (λ t. none_left t (omega arith)))

  -- From a valid state the search ends. A request for `n` pages is granted with the lowest run of
  -- `n` free pages, at a pointer that is not NULL: exactly that run is taken, the counter falls by
  -- `n` and the state stays valid. It is refused, with NULL and nothing changed, only for `n = 0`
  -- or where no `n` pages in a row are free.
  pub memory_alloc_pages-AllocOutcome : AllocOutcome m n (memory_alloc_pages m n)
  memory_alloc_pages-AllocOutcome = elim (Bool-cases (n == 0)) [
    | inl zero_pages ↦ refused (nothing zero_pages) (inl (ground arith))
    | inr some_pages ↦ elim (Bool-cases (ltb m.free_pages n)) [
      | inl short ↦
          refused (too_many short)
            (inr (λ t h f. absurd (ground (arith, le_free_of_AllFree t h f))))
      | inr room ↦
          AllocOutcome-of_found (ground arith) (ground arith)
            (find_free_pages-FirstFit m n (le_total (ground arith)) (omega (arith, v.small)))
    ]
  ]
    where
      nothing : (n == 0) ≡ true → memory_alloc_pages m n ≡ some (0, m)
      nothing h = unfold memory_alloc_pages in rw h

      too_many : ltb m.free_pages n ≡ true → memory_alloc_pages m n ≡ some (0, m)
      too_many h = unfold memory_alloc_pages in ground arith
