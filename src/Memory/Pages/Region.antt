-- ===== src/Memory/Pages/Region.antt =====
-- `arch_memory_allocator_init` on a memory map: the region that it chooses and what it makes of it.
use build_your_own_os.Prelude.{
  ℕ, ◌+◌, ◌-◌, ◌*◌, ◌^◌, ◌≤◌, ◌<◌, ◌≡◌, refl, ◌∙◌, sym, ap, ◌⊎◌, inl, inr, List, arith, ltb, leb,
  ◌==◌, Bool-cases, length, All, Any, All-map, Any-map, Any-All,
}
use build_your_own_os.Memory.Pages.{
  Pages, MapEntry, page_size, max_pages, setup_pages, setup_region, fill_bitmap, largest_region,
  arch_memory_allocator_init,
}
use build_your_own_os.Memory.Pages.Count.{free_below, free_below-all}
use build_your_own_os.Memory.Pages.Valid.{IsValid}
use build_your_own_os.Memory.Pages.Init.{
  IsAvailable, IsSource, Largest, Fresh, largest_region-Largest, length-fill_bitmap, pages_bound,
  setup_fields, setup-Fresh, setup_pages-IsValid,
}

-- no memory to manage
empty-IsValid :
    (m : Pages) → m.total_pages ≡ 0 → m.free_pages ≡ 0 → m.memory_base < 2 ^ 64 → IsValid m
empty-IsValid m t f b = record {
  shaped = record { covered = omega arith };
  small = omega arith;
  counted = f ∙ sym (free_below-all m 0 (λ j h. absurd (omega arith))) ∙ ap (free_below m) (sym t);
  placed = omega arith;
  high = inl t;
}

-- What a region of `size` bytes at `base` is made into: all pages valid and free, inside the region,
-- and as many as fit above the first megabyte, up to the limit.
record IsSetUp (base size : ℕ) (r : Pages) : Type 0 where
  valid : IsValid r
  fresh : Fresh r
  counter : r.free_pages ≡ r.total_pages
  inside :
      (r.total_pages ≡ 0)
      ⊎ (0 < size)
        × (base ≤ r.memory_base)
        × (r.memory_base + r.total_pages * page_size ≤ base + size)
  full : (r.total_pages ≡ max_pages) ⊎ (size < (r.total_pages + 1) * page_size + 0x100000)

module _ (m : Pages) (base size entries : ℕ) (wide : max_pages ≤ 8 * length m.bitmap)
    (none_yet : m.total_pages ≡ 0) (none_free : m.free_pages ≡ 0) (low : m.memory_base < 2 ^ 64)
    (fits : base + size < 2 ^ 64) where
  unused : (b : ℕ) → b < 2 ^ 64 → size ≤ 0x100000 → IsSetUp base size (record m { memory_base = b })
  unused b h k = record {
    valid = empty-IsValid (record m { memory_base = b }) none_yet none_free h;
    fresh = λ j l. absurd (omega arith);
    counter = omega arith;
    inside = inl none_yet;
    full = inr (omega arith);
  }

  used :
      (b s : ℕ)
      → base ≤ b
      → b + s ≡ base + size
      → 0x100000 ≤ b
      → size ≤ s + 0x100000
      → 0 < size
      → IsSetUp base size (setup_pages (record m { memory_base = b }) s entries)
  used b s h e k g pos =
      let at : Pages = record m { memory_base = b } in
      let f = setup_fields at s entries wide in
      let p = pages_bound at s entries wide in
      record {
        valid = setup_pages-IsValid at s entries wide (omega arith) k;
        fresh = setup-Fresh at s entries wide;
        counter = omega (arith, f);
        inside = inr (omega (arith, f, p));
        full = ground (arith, f);
      }

  setup_region-IsSetUp : IsSetUp base size (setup_region m base size entries)
  unfolding setup_region
  setup_region-IsSetUp = elim (Bool-cases (size == 0)) [
    | inl z ↦ rw z (unused m.memory_base low (ground arith))
    | inr nz ↦ elim (Bool-cases (leb 0x100000 base)) [
      | inl above ↦
          rw (nz, above)
            (used base size (omega arith) refl (ground arith) (omega arith) (ground arith))
      | inr below ↦ elim (Bool-cases (ltb (0x100000 - base) size)) [
        | inl room ↦
            rw (nz, below, room)
              (used (base + (0x100000 - base)) (size - (0x100000 - base)) (omega arith)
                (ground arith) (omega arith) (omega arith) (ground arith))
        | inr tight ↦ rw (nz, below, tight) (unused base (omega arith) (ground arith))
      ]
    ]
  ]

-- The pages lie in the entry, and no available entry of the map is larger.
pub record InLargest (es : List MapEntry) (r : Pages) (e : MapEntry) : Type 0 where
  pub available : IsAvailable e
  pub starts : e.base ≤ r.memory_base
  pub ends : r.memory_base + r.total_pages * page_size ≤ e.base + e.length
  pub largest : All (λ e'. IsAvailable e' → e'.length ≤ e.length) es

-- what the initialisation makes of a memory map
pub record IsInitialised (es : List MapEntry) (r : Pages) : Type 0 where
  pub valid : IsValid r
  pub fresh : Fresh r
  pub counter : r.free_pages ≡ r.total_pages
  pub inside : (r.total_pages ≡ 0) ⊎ Any (InLargest es r) es
  pub full :
      (r.total_pages ≡ max_pages)
      ⊎ All (λ e. IsAvailable e → e.length < (r.total_pages + 1) * page_size + 0x100000) es

module _ (es : List MapEntry) (r : Pages) (base size : ℕ) (big : Largest es (0, 0) (base, size))
    (set_up : IsSetUp base size r) where
  InLargest-of_source :
      (e : MapEntry)
      → (base ≤ r.memory_base) × (r.memory_base + r.total_pages * page_size ≤ base + size)
      → IsSource (base, size) e
      → InLargest es r e
  InLargest-of_source e h (a, b, s) = record {
    available = a;
    starts = omega arith;
    ends = omega arith;
    largest = rw s big.bound;
  }

  located : (r.total_pages ≡ 0) ⊎ Any (InLargest es r) es
  located = elim set_up.inside [
    | inl z ↦ inl z
    | inr h ↦ elim big.found [
      | inl e ↦ absurd (omega (arith, ap (λ (p : ℕ × ℕ). p.1) e))
      | inr s ↦ inr (
          Any-map (IsSource (base, size)) (InLargest es r) es
            (λ x. InLargest-of_source x (h.1, h.2)) s)
    ]
  ]

  IsInitialised-of_region : IsInitialised es r
  IsInitialised-of_region = record {
    valid = set_up.valid;
    fresh = set_up.fresh;
    counter = set_up.counter;
    inside = located;
    full = elim set_up.full [
      | inl f ↦ inl f
      | inr l ↦ inr (
          All-map (λ e. IsAvailable e → e.length ≤ size)
            (λ e. IsAvailable e → e.length < (r.total_pages + 1) * page_size + 0x100000) es
            (λ e h a. omega (arith, h a)) big.bound)
    ];
  }

abbrev pub Fits : MapEntry → Type 0
Fits e = e.base + e.length < 2 ^ 64

-- a region of the map that fits the address space
source-Fits :
    (es : List MapEntry) (base size : ℕ)
    → All Fits es
    → Largest es (0, 0) (base, size)
    → base + size < 2 ^ 64
source-Fits es base size h big = elim big.found [
  | inl e ↦ omega (arith, ap (λ (p : ℕ × ℕ). p.0) e, ap (λ (p : ℕ × ℕ). p.1) e)
  | inr s ↦
      Any-All (IsSource (base, size)) Fits (base + size < 2 ^ 64) es (λ e (a, b, c) f. omega arith)
        s h
]

-- Whatever state the allocator is in, if its bitmap has a bit for each of the 4096 pages and the
-- map's entries lie in the address space, initialisation leaves it valid, with every page free and
-- counted as free. Unless there are none, the pages lie in an available entry of the map that no
-- other exceeds; and there are 4096, or fewer than one more would fit beyond the first megabyte.
pub arch_memory_allocator_init-IsInitialised :
    (m : Pages) (memory_map : List MapEntry)
    → max_pages ≤ 8 * length m.bitmap
    → m.memory_base < 2 ^ 64
    → All Fits memory_map
    → IsInitialised memory_map (arch_memory_allocator_init m memory_map)
unfolding arch_memory_allocator_init
arch_memory_allocator_init-IsInitialised m es wide low h =
    let r = largest_region es (0, 0) in
    let big = largest_region-Largest es 0 0 in
    IsInitialised-of_region es _ r.0 r.1 big (
      setup_region-IsSetUp
        (record m { bitmap = fill_bitmap m.bitmap; total_pages = 0; free_pages = 0 }) r.0 r.1
        (length es) (omega (arith, wide, length-fill_bitmap m.bitmap)) refl refl low
        (source-Fits es r.0 r.1 h big))
