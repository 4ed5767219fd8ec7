-- ===== src/Memory/Pages/Count.antt =====
-- The number of free pages, and how a write to the bitmap changes it.
use build_your_own_os.Prelude.{
  ℕ, zero, suc, ◌+◌, ◌≤◌, ◌<◌, ◌≡◌, refl, Bool, true, false, ◌&&◌, not, arith, ◌==◌, if◌then◌else◌,
  inl, inr, Bool-cases,
}
use build_your_own_os.Memory.Pages.{Pages, set_page_used, set_page_free, is_page_free}
use build_your_own_os.Memory.Pages.Bitmap.{
  IsShaped, is_page_free-set_page_used, is_page_free-set_page_free,
}

-- how many of the numbers below `k` pass the test
count_below : (ℕ → Bool) → ℕ → ℕ
count_below p zero = 0
count_below p (suc k) = count_below p k + (if p k then 1 else 0)

count_below-ext :
    (p q : ℕ → Bool) (k : ℕ) → ((j : ℕ) → j < k → p j ≡ q j) → count_below p k ≡ count_below q k
unfolding count_below
count_below-ext p q zero h = refl
count_below-ext p q (suc k) h =
    ground (arith, h k, count_below-ext p q k (λ j l. h j (omega arith)))

count_below-remove :
    (p q : ℕ → Bool) (i k : ℕ)
    → i < k
    → p i ≡ true
    → ((j : ℕ) → q j ≡ (not (i == j) && p j))
    → count_below q k + 1 ≡ count_below p k
unfolding count_below
count_below-remove p q i zero l t h = absurd (omega arith)
count_below-remove p q i (suc k) l t h = elim (Bool-cases (i == k)) [
  | inl e ↦
      let e' : i ≡ k = ground arith in
      let same : count_below q k ≡ count_below p k =
        count_below-ext q p k (λ j g. ground (arith, h j)) in
      let last : p k ≡ true = rw (← e') t in ground (arith, h k)
  | inr ne ↦ ground (arith, h k, count_below-remove p q i k (ground arith) t h)
]

unfoldable pub free_below : Pages → ℕ → ℕ
unfolding count_below
free_below m k = count_below (is_page_free m) k

pub free_below-le : (m : Pages) (k : ℕ) → free_below m k ≤ k
unfolding free_below count_below
free_below-le m zero = omega arith
free_below-le m (suc k) = ground (arith, free_below-le m k)

pub free_below-set_page_used :
    (m : Pages) (i k : ℕ)
    → IsShaped m
    → i < k
    → is_page_free m i ≡ true
    → free_below (set_page_used m i) k + 1 ≡ free_below m k
unfolding free_below
free_below-set_page_used m i k s l f =
    count_below-remove (is_page_free m) (is_page_free (set_page_used m i)) i k l f
      (λ j. is_page_free-set_page_used m i j s)

pub free_below-set_page_free :
    (m : Pages) (i k : ℕ)
    → IsShaped m
    → i < k
    → i < m.total_pages
    → is_page_free m i ≡ false
    → free_below m k + 1 ≡ free_below (set_page_free m i) k
unfolding free_below
free_below-set_page_free m i k s l t f =
    count_below-remove (is_page_free (set_page_free m i)) (is_page_free m) i k l
      (ground (arith, is_page_free-set_page_free m i i s))
      (λ j. elim (Bool-cases (i == j)) [
        | inl e ↦ let e' : i ≡ j = ground arith in rw (← e') (ground arith)
        | inr ne ↦ ground (arith, is_page_free-set_page_free m i j s)
      ])

pub free_below-all :
    (m : Pages) (k : ℕ) → ((j : ℕ) → j < k → is_page_free m j ≡ true) → free_below m k ≡ k
unfolding free_below count_below
free_below-all m zero h = refl
free_below-all m (suc k) h = ground (arith, h k, free_below-all m k (λ j l. h j (omega arith)))

pub free_below-ext :
    (m m' : Pages) (k : ℕ)
    → ((j : ℕ) → is_page_free m j ≡ is_page_free m' j)
    → free_below m k ≡ free_below m' k
unfolding free_below
free_below-ext m m' k h = count_below-ext (is_page_free m) (is_page_free m') k (λ j _. h j)
