-- ===== src/Memory/Pages/Run.antt =====
-- Runs of pages: the loops that mark them in use, and the loop that counts free pages.
use build_your_own_os.Prelude.{
  ℕ, zero, suc, ◌+◌, ◌≤◌, ◌<◌, ◌≡◌, Bool, true, ◌&&◌, not, arith, ltb, leb, ◌==◌, inl, inr,
  Bool-cases,
}
use build_your_own_os.Memory.Pages.{Pages, set_page_used, is_page_free, mark_used, count_run}
use build_your_own_os.Memory.Pages.Bitmap.{
  IsShaped, SameShape, SameShape-trans, SameShape-IsShaped, set_page_used-SameShape,
  is_page_free-set_page_used, lt_of_free,
}
use build_your_own_os.Memory.Pages.Count.{free_below, free_below-set_page_used}

-- the `n` pages from `i` on are free
abbrev pub AllFree : Pages → ℕ → ℕ → Type 0
AllFree m i n = (j : ℕ) → i ≤ j → j < i + n → is_page_free m j ≡ true

abbrev pub within : ℕ → ℕ → ℕ → Bool
within i n j = leb i j && ltb j (i + n)

pub mark_used-SameShape : (n : ℕ) (m : Pages) (i : ℕ) → SameShape m (mark_used n m i)
unfolding mark_used
mark_used-SameShape zero m i = omega arith
mark_used-SameShape (suc n) m i =
    SameShape-trans (set_page_used-SameShape m i)
      (mark_used-SameShape n (set_page_used m i) (i + 1))

-- The loop takes exactly its own pages from the free ones.
pub is_page_free-mark_used :
    (n : ℕ) (m : Pages) (i j : ℕ)
    → IsShaped m
    → is_page_free (mark_used n m i) j ≡ (not (within i n j) && is_page_free m j)
unfolding mark_used
is_page_free-mark_used zero m i j s = ground arith
is_page_free-mark_used (suc n) m i j s = ground (
  arith,
  is_page_free-mark_used n (set_page_used m i) (i + 1) j
      (SameShape-IsShaped (set_page_used-SameShape m i) s),
  is_page_free-set_page_used m i j s,
)

pub free_below-mark_used :
    (n : ℕ) (m : Pages) (i k : ℕ)
    → IsShaped m
    → AllFree m i n
    → i + n ≤ k
    → free_below (mark_used n m i) k + n ≡ free_below m k
unfolding mark_used
free_below-mark_used zero m i k s f h = omega arith
free_below-mark_used (suc n) m i k s f h = omega (
  arith,
  free_below-set_page_used m i k s (omega arith) (f i (omega arith) (omega arith)),
  free_below-mark_used n (set_page_used m i) (i + 1) k
      (SameShape-IsShaped (set_page_used-SameShape m i) s)
      (λ j p q. ground (arith, is_page_free-set_page_used m i j s, f j)) (omega arith),
)

-- The count is full exactly if every page of the run is free.
pub AllFree-of_count_run :
    (n : ℕ) (m : Pages) (i stop found : ℕ)
    → stop ≡ i + n
    → count_run n m i stop found ≡ found + n
    → AllFree m i n
unfolding count_run
AllFree-of_count_run zero m i stop found e h j p q = absurd (omega arith)
AllFree-of_count_run (suc n) m i stop found e h j p q = elim (Bool-cases (is_page_free m i)) [
  | inl f ↦ elim (Bool-cases (i == j)) [
    | inl d ↦ let d' : i ≡ j = ground arith in rw (← d') f
    | inr d ↦
        AllFree-of_count_run n m (i + 1) stop (found + 1) (omega arith)
          (ground (arith, lt_of_free m i f)) j (ground arith) (omega arith)
  ]
  | inr f ↦ absurd (ground arith)
]

pub count_run_full :
    (n : ℕ) (m : Pages) (i stop found : ℕ)
    → stop ≡ i + n
    → AllFree m i n
    → count_run n m i stop found ≡ found + n
unfolding count_run
count_run_full zero m i stop found e f = omega arith
count_run_full (suc n) m i stop found e f =
    let here : is_page_free m i ≡ true = f i (omega arith) (omega arith) in
    ground (
      arith,
      lt_of_free m i here,
      count_run_full n m (i + 1) stop (found + 1) (omega arith)
          (λ j p q. f j (omega arith) (omega arith)),
    )
