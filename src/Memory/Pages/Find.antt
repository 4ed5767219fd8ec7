-- ===== src/Memory/Pages/Find.antt =====
-- `find_free_pages` is a first fit: it ends, and finds the lowest run of free pages if there is one.
use build_your_own_os.Prelude.{
  ℕ, zero, suc, ◌+◌, ◌-◌, ◌%◌, ◌^◌, ◌≤◌, ◌<◌, ◌≡◌, refl, Option, some, arith, leb, ◌==◌,
  if◌then◌else◌, inl, inr, Bool-cases,
}
use build_your_own_os.Memory.Pages.{Pages, not_found, count_run, find_from, find_free_pages}
use build_your_own_os.Memory.Pages.Run.{AllFree, AllFree-of_count_run, count_run_full}

-- the outcome of a search for `count` free pages from page `start` on
pub data FirstFit (m : Pages) (count start : ℕ) (r : Option ℕ) : Type 0 where
  fits :
      (s : ℕ)
      → r ≡ some s
      → start ≤ s
      → s + count ≤ m.total_pages
      → AllFree m s count
      → ((t : ℕ) → start ≤ t → t < s → ¬ AllFree m t count)
      → FirstFit m count start r
  no_fit :
      r ≡ some not_found
      → ((t : ℕ) → start ≤ t → t + count ≤ m.total_pages → ¬ AllFree m t count)
      → FirstFit m count start r

module _ (m : Pages) (count : ℕ) (le : count ≤ m.total_pages) (small : m.total_pages < 2 ^ 31) where
  -- a search that goes on from the next page
  FirstFit-next :
      {start : ℕ} {r : Option ℕ}
      → ¬ AllFree m start count
      → FirstFit m count (start + 1) r
      → FirstFit m count start r
  FirstFit-next {start} no_run (fits s e ge in_range free least) =
      fits s e (omega arith) in_range free (λ t p q f. elim (Bool-cases (start == t)) [
        | inl d ↦ let d' : start ≡ t = ground arith in no_run (rw d' f)
        | inr d ↦ least t (ground arith) q f
      ])
  FirstFit-next {start} no_run (no_fit e none_left) = no_fit e (λ t p q f.
      elim (Bool-cases (start == t)) [
        | inl d ↦ let d' : start ≡ t = ground arith in no_run (rw d' f)
        | inr d ↦ none_left t (ground arith) q f
      ])

  find_from-suc :
      (fuel start : ℕ)
      → start ≤ m.total_pages + 1
      → find_from (suc fuel) m count start ≡ (
          if leb start (m.total_pages - count)
          then (if count_run count m start (start + count) 0 == count
              then some start
              else find_from fuel m count (start + 1))
          else some not_found)
  unfolding find_from
  find_from-suc fuel start h =
      let limit : (m.total_pages + 2 ^ 64 - count) % 2 ^ 64 ≡ m.total_pages - count = omega arith in
      let stop : (start + count) % 2 ^ 32 ≡ start + count = omega arith in
      let up : (start + 1) % 2 ^ 32 ≡ start + 1 = omega arith in ground arith

  find_from-FirstFit :
      (fuel start : ℕ)
      → start ≤ m.total_pages - count + 1
      → start ≤ m.total_pages + 1
      → m.total_pages - count + 2 ≤ start + fuel
      → FirstFit m count start (find_from fuel m count start)
  find_from-FirstFit zero start h b k = absurd (omega arith)
  find_from-FirstFit (suc fuel) start h b k =
      rw (find_from-suc fuel start b) (elim (Bool-cases (leb start (m.total_pages - count))) [
        | inl go ↦ rw go (elim (Bool-cases (count_run count m start (start + count) 0 == count)) [
          | inl full ↦ rw full (
              fits start refl (omega arith) (ground arith)
                (AllFree-of_count_run count m start (start + count) 0 refl (ground arith))
                (λ t p q. absurd (omega arith)))
          | inr part ↦ rw part (
              FirstFit-next
                (λ f.
                  absurd (ground (arith, count_run_full count m start (start + count) 0 refl f)))
                (find_from-FirstFit fuel (start + 1) (ground arith) (ground arith) (omega arith)))
        ])
        | inr over ↦ rw over (no_fit refl (λ t p q f. absurd (ground arith)))
      ])

  pub find_free_pages-FirstFit : FirstFit m count 0 (find_free_pages m count)
  unfolding find_free_pages
  find_free_pages-FirstFit =
      find_from-FirstFit (m.total_pages + 2) 0 (omega arith) (omega arith) (omega arith)
