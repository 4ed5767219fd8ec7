-- ===== src/Prelude/Bitmap.antt =====
-- The bits of a list of bytes, eight in each.
use Prim.Native.Nat.{ℕ, ◌/◌, ◌%◌, ◌<◌}
use mathlib.Core.Path.{◌≡◌}
use mathlib.Core.Bool.{Bool, ◌&&◌, ◌||◌, not}
use mathlib.Core.Logic.{inl, inr}
use mathlib.Core.List.{List}
use native.Mathlib.Omega.{arith}
use build_your_own_os.Prelude.Tests.{◌==◌, ==-ne, Bool-cases}
use build_your_own_os.Prelude.Lists.{length, get_or, set, get_or-set_self, get_or-set_ne}
use build_your_own_os.Prelude.Bits.{
  has_bit, with_bit, without_bit, has_bit-with_bit, has_bit-without_bit,
}

abbrev pub bitmap_bit : List ℕ → ℕ → Bool
bitmap_bit bs j = has_bit (get_or bs (j / 8) 0) (j % 8)

module _ (bs : List ℕ) (i j : ℕ) (h : i / 8 < length bs) where
  pub bitmap_bit-with_bit :
      bitmap_bit (set bs (i / 8) (with_bit (get_or bs (i / 8) 0) (i % 8))) j
      ≡ ((i == j) || bitmap_bit bs j)
  bitmap_bit-with_bit = elim (Bool-cases (i / 8 == j / 8)) [
    | inl e ↦
        let e' : j / 8 ≡ i / 8 = ground arith in
        rw
          (
            e',
            get_or-set_self bs (i / 8) (with_bit (get_or bs (i / 8) 0) (i % 8)) 0 h,
            has_bit-with_bit (get_or bs (i / 8) 0) (i % 8) (j % 8),
          )
          (ground arith)
    | inr ne ↦
        rw
          (get_or-set_ne bs (i / 8) (j / 8) (with_bit (get_or bs (i / 8) 0) (i % 8)) 0
            (==-ne _ _ ne))
          (ground arith)
  ]

  pub bitmap_bit-without_bit :
      bitmap_bit (set bs (i / 8) (without_bit 8 (get_or bs (i / 8) 0) (i % 8))) j
      ≡ (not (i == j) && bitmap_bit bs j)
  bitmap_bit-without_bit = elim (Bool-cases (i / 8 == j / 8)) [
    | inl e ↦
        let e' : j / 8 ≡ i / 8 = ground arith in
        rw
          (
            e',
            get_or-set_self bs (i / 8) (without_bit 8 (get_or bs (i / 8) 0) (i % 8)) 0 h,
            has_bit-without_bit 8 (get_or bs (i / 8) 0) (i % 8) (j % 8) (omega arith) (omega arith),
          )
          (ground arith)
    | inr ne ↦
        rw
          (get_or-set_ne bs (i / 8) (j / 8) (without_bit 8 (get_or bs (i / 8) 0) (i % 8)) 0
            (==-ne _ _ ne))
          (ground arith)
  ]
