-- ===== src/Memory/Pages/Init.antt =====
-- `arch_memory_allocator_init`: the allocator that it sets up from the boot loader's memory map.
use build_your_own_os.Prelude.{
  ℕ, zero, suc, ◌+◌, ◌*◌, ◌/◌, ◌^◌, ◌≤◌, ◌<◌, ◌≡◌, refl, ap, ◌⊎◌, inl, inr, true, ◌&&◌, ◌||◌, List,
  [], ◌∷◌, arith, ltb, ◌==◌, if◌then◌else◌, Bool-cases, length, All, Any,
}
use build_your_own_os.Memory.Pages.{
  Pages, MapEntry, page_size, max_pages, memory_type_available, is_page_free, set_page_free,
  mark_free, fill_bitmap, largest_region, setup_pages,
}
use build_your_own_os.Memory.Pages.Bitmap.{
  IsShaped, SameShape, SameShape-trans, SameShape-IsShaped, set_page_free-SameShape,
  is_page_free-set_page_free,
}
use build_your_own_os.Memory.Pages.Count.{free_below-all}
use build_your_own_os.Memory.Pages.Run.{within}
use build_your_own_os.Memory.Pages.Valid.{IsValid}

-- the entry is available memory
abbrev pub IsAvailable : MapEntry → Type 0
IsAvailable e = e.type ≡ memory_type_available

abbrev pub IsSource : ℕ × ℕ → MapEntry → Type 0
IsSource r e = IsAvailable e × (e.base ≡ r.0) × (e.length ≡ r.1)

-- the search keeps the best so far or finds an entry, and never gets smaller
pub record Largest (es : List MapEntry) (best r : ℕ × ℕ) : Type 0 where
  pub found : (r ≡ best) ⊎ Any (IsSource r) es
  pub grows : best.1 ≤ r.1
  pub bound : All (λ e. IsAvailable e → e.length ≤ r.1) es

pub largest_region-Largest :
    (es : List MapEntry) (base size : ℕ) → Largest es (base, size) (largest_region es (base, size))
unfolding largest_region
largest_region-Largest [] base size = record { found = inl refl; grows = omega arith; bound = tt }
largest_region-Largest (e ∷ es) base size =
    elim (Bool-cases (e.type == memory_type_available && ltb size e.length)) [
      | inl better ↦
          let rest = largest_region-Largest es e.base e.length in
          rw better record {
            found = elim (rest.found) [
              | inl same ↦ inr (inl (ground (arith, same)))
              | inr later ↦ inr (inr later)
            ];
            grows = ground (arith, rest.grows);
            bound = ((λ _. rest.grows), rest.bound);
          }
      | inr worse ↦
          let rest = largest_region-Largest es base size in
          rw worse record {
            found = elim (rest.found) [ inl same ↦ inl same | inr later ↦ inr (inr later) ];
            grows = rest.grows;
            bound = ((λ a. ground (arith, rest.grows)), rest.bound);
          }
    ]

mark_free-SameShape : (n : ℕ) (m : Pages) (i : ℕ) → SameShape m (mark_free n m i)
unfolding mark_free
mark_free-SameShape zero m i = omega arith
mark_free-SameShape (suc n) m i =
    SameShape-trans (set_page_free-SameShape m i)
      (mark_free-SameShape n (set_page_free m i) (i + 1))

is_page_free-mark_free :
    (n : ℕ) (m : Pages) (i j : ℕ)
    → IsShaped m
    → is_page_free (mark_free n m i) j ≡ ((within i n j && ltb j m.total_pages) || is_page_free m j)
unfolding mark_free
is_page_free-mark_free zero m i j s = ground arith
is_page_free-mark_free (suc n) m i j s = ground (
  arith,
  is_page_free-mark_free n (set_page_free m i) (i + 1) j
      (SameShape-IsShaped (set_page_free-SameShape m i) s),
  is_page_free-set_page_free m i j s,
  (set_page_free-SameShape m i).total,
)

pub length-fill_bitmap : (bs : List ℕ) → length (fill_bitmap bs) ≡ length bs
unfolding fill_bitmap
length-fill_bitmap [] = refl
length-fill_bitmap (b ∷ bs) = ap suc (length-fill_bitmap bs)

-- Every managed page is free.
abbrev pub Fresh : Pages → Type 0
Fresh m = (j : ℕ) → j < m.total_pages → is_page_free m j ≡ true

abbrev pub page_limit : ℕ → ℕ
page_limit usable_size =
    if ltb max_pages (usable_size / page_size) then max_pages else usable_size / page_size

module _ (m : Pages) (usable_size entries : ℕ) (wide : max_pages ≤ 8 * length m.bitmap) where
  abbrev pub pages : ℕ
  pages = page_limit usable_size

  abbrev marked : Pages
  marked = mark_free pages (record m { total_pages = pages }) 0

  pub pages_bound : (pages ≤ max_pages) × (pages * page_size ≤ usable_size)
  pages_bound = ground arith

  sized-IsShaped : IsShaped (record m { total_pages = pages })
  sized-IsShaped = record { covered = omega (arith, wide, pages_bound) }

  marked-SameShape : SameShape (record m { total_pages = pages }) marked
  marked-SameShape = mark_free-SameShape pages (record m { total_pages = pages }) 0

  setup_state : (j : ℕ) → is_page_free (setup_pages m usable_size entries) j ≡ is_page_free marked j
  unfolding setup_pages is_page_free
  setup_state j = refl

  pub setup_fields :
      let r = setup_pages m usable_size entries in
      (r.total_pages ≡ pages)
      × (r.memory_base ≡ m.memory_base)
      × (r.free_pages ≡ pages)
      × (length r.bitmap ≡ length m.bitmap)
  unfolding setup_pages
  setup_fields = (marked-SameShape.total, marked-SameShape.base, refl, marked-SameShape.bytes)

  pub setup-Fresh : Fresh (setup_pages m usable_size entries)
  setup-Fresh j h = ground (
    arith,
    setup_state j,
    setup_fields,
    is_page_free-mark_free pages (record m { total_pages = pages }) 0 j sized-IsShaped,
  )

  pub setup_pages-IsValid :
      m.memory_base + usable_size < 2 ^ 64
      → 0x100000 ≤ m.memory_base
      → IsValid (setup_pages m usable_size entries)
  setup_pages-IsValid h k = record {
    shaped = record { covered = omega (arith, setup_fields, pages_bound, wide) };
    small = omega (arith, setup_fields, pages_bound);
    counted = omega (
      arith,
      setup_fields,
      free_below-all (setup_pages m usable_size entries)
          (setup_pages m usable_size entries).total_pages setup-Fresh,
    );
    placed = omega (arith, setup_fields, pages_bound);
    high = omega (arith, setup_fields);
  }
