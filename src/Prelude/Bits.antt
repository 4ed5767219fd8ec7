-- ===== src/Prelude/Bits.antt =====
-- Single bits of a word: `w & (1 << i)`, `w |= (1 << i)` and `w &= ~(1 << i)`, at every width.
use Prim.Native.Nat.{
  ℕ, zero, suc, ◌+◌, ◌-◌, ◌*◌, ◌/◌, ◌%◌, ◌^◌, ◌≤◌, ◌<◌, min, max, bit_and, bit_or, digits,
  bit_and-bitwise, bit_or-bitwise,
}
use mathlib.Core.Path.{◌≡◌, refl}
use mathlib.Core.Bool.{Bool, true, false, not, ◌&&◌, ◌||◌}
use mathlib.Core.Logic.{inl, inr}
use native.Mathlib.Nat.{le_refl, pow-suc, one-le-pow}
use native.Mathlib.Omega.{arith}
use build_your_own_os.Prelude.Tests.{◌==◌, if◌then◌else◌, Bool-cases}

-- `w & (1 << i)` is not zero.
unfoldable pub has_bit : ℕ → ℕ → Bool
has_bit w i = not (bit_and w (2 ^ i) == 0)

-- `w | (1 << i)`
unfoldable pub with_bit : ℕ → ℕ → ℕ
with_bit w i = bit_or w (2 ^ i)

-- `w & ~(1 << i)` on a word of `width` bits
unfoldable pub without_bit : ℕ → ℕ → ℕ → ℕ
without_bit width w i = bit_and w (2 ^ width - 1 - 2 ^ i)

-- the digit at place `i`
bit : ℕ → ℕ → ℕ
bit w zero = w % 2
bit w (suc i) = bit (w / 2) i

bit-lt : (w i : ℕ) → bit w i < 2
unfolding bit
bit-lt w zero = omega arith
bit-lt w (suc i) = bit-lt (w / 2) i

bit-zero : (i : ℕ) → bit 0 i ≡ 0
unfolding bit
bit-zero zero = refl
bit-zero (suc i) = bit-zero i

-- A digit-wise operation acts on each digit by itself, if it does so once a number has run out.
module _ (z : ℕ → ℕ) (f : ℕ → ℕ → ℕ) (stays : (x y : ℕ) → x < 2 → y < 2 → f x y < 2)
    (ends : (b i : ℕ) → bit (z b) i ≡ f 0 (bit b i)) where
  bit-ended : (b i : ℕ) → bit (z b) i ≡ f (bit 0 i) (bit b i)
  bit-ended b i = rw (bit-zero i) (ends b i)

  bit-digits : (i fuel a b : ℕ) → a ≤ fuel → bit (digits z f fuel a b) i ≡ f (bit a i) (bit b i)
  unfolding bit
  bit-digits i zero zero b h = bit-ended b i
  bit-digits i zero (suc a) b h = absurd (omega arith)
  bit-digits i (suc fuel) zero b h = bit-ended b i
  bit-digits zero (suc fuel) (suc a) b h =
      omega (arith, stays (suc a % 2) (b % 2) (omega arith) (omega arith))
  bit-digits (suc i) (suc fuel) (suc a) b h =
      let rest : ℕ = digits z f fuel (suc a / 2) (b / 2) in
      let low : ℕ = f (suc a % 2) (b % 2) in
      let half : (rest * 2 + low) / 2 ≡ rest =
        omega (arith, stays (suc a % 2) (b % 2) (omega arith) (omega arith)) in
      rw half (bit-digits i fuel (suc a / 2) (b / 2) (omega arith))

bit-bit_or : (i a b : ℕ) → bit (bit_or a b) i ≡ max (bit a i) (bit b i)
bit-bit_or i a b =
    simp bit_or-bitwise
      (bit-digits (λ y. y) max (λ x y p q. omega arith) (λ y j. omega arith) i a a b (le_refl a))

bit-bit_and : (i a b : ℕ) → bit (bit_and a b) i ≡ min (bit a i) (bit b i)
bit-bit_and i a b = simp bit_and-bitwise (
    bit-digits (λ y. 0) min (λ x y p q. omega arith) (λ y j. omega (arith, bit-zero j)) i a a b
      (le_refl a))

-- A number with no digit set is 0.
zero_of_bits : (fuel w : ℕ) → w ≤ fuel → ((i : ℕ) → bit w i ≡ 0) → w ≡ 0
unfolding bit
zero_of_bits zero w h none = omega arith
zero_of_bits (suc fuel) w h none =
    let half = zero_of_bits fuel (w / 2) (omega arith) (λ i. none (suc i)) in
    let low : w % 2 ≡ 0 = none 0 in omega arith

pow-step : (i : ℕ) → 2 ^ suc i ≡ 2 ^ i * 2
pow-step i = omega (arith, pow-suc 2 i)

bit-two_pow : (i j : ℕ) → bit (2 ^ i) j ≡ (if i == j then 1 else 0)
unfolding bit
bit-two_pow zero zero = refl
bit-two_pow zero (suc j) = ground (arith, bit-zero j)
bit-two_pow (suc i) zero = ground (arith, pow-step i)
bit-two_pow (suc i) (suc j) =
    let e : 2 ^ suc i / 2 ≡ 2 ^ i = omega (arith, pow-step i) in
    rw (e, bit-two_pow i j) (ground arith)

has_bit-eq : (w i : ℕ) → has_bit w i ≡ (bit w i == 1)
unfolding has_bit
has_bit-eq w i = elim (Bool-cases (bit w i == 1)) [
  | inl one ↦ elim (Bool-cases (bit_and w (2 ^ i) == 0)) [
    | inl z ↦
        let gone : bit_and w (2 ^ i) ≡ 0 = ground arith in
        let digit = rw gone at (bit-bit_and i w (2 ^ i)) in
        absurd (ground (arith, digit, bit-zero i, bit-two_pow i i))
    | inr nz ↦ rw (one, nz)
  ]
  | inr off ↦
      let gone : bit_and w (2 ^ i) ≡ 0 =
        zero_of_bits (bit_and w (2 ^ i)) (bit_and w (2 ^ i)) (le_refl _) (λ j.
          elim (Bool-cases (i == j)) [
            | inl e ↦
                let e' : j ≡ i = ground arith in
                rw e' (ground (arith, bit-bit_and i w (2 ^ i), bit-lt w i))
            | inr ne ↦ ground (arith, bit-bit_and j w (2 ^ i), bit-two_pow i j)
          ]) in
      rw (off, gone)
]

pow-lt : (width i : ℕ) → i < width → 2 ^ i < 2 ^ width
pow-lt zero i h = absurd (omega arith)
pow-lt (suc width) zero h = omega (arith, pow-step width, one-le-pow width 2)
pow-lt (suc width) (suc i) h =
    omega (arith, pow-step width, pow-step i, pow-lt width i (omega arith))

bit-ones : (width j : ℕ) → j < width → bit (2 ^ width - 1) j ≡ 1
unfolding bit
bit-ones zero j h = absurd (omega arith)
bit-ones (suc width) zero h = omega (arith, pow-step width, one-le-pow width 2)
bit-ones (suc width) (suc j) h =
    let e : (2 ^ suc width - 1) / 2 ≡ 2 ^ width - 1 =
      omega (arith, pow-step width, one-le-pow width 2) in
    rw (e, bit-ones width j (omega arith))

-- all ones below `width`, but for bit `i`
bit-mask :
    (width i j : ℕ)
    → i < width
    → j < width
    → bit (2 ^ width - 1 - 2 ^ i) j ≡ (if i == j then 0 else 1)
unfolding bit
bit-mask zero i j hi hj = absurd (omega arith)
bit-mask (suc width) zero zero hi hj = ground (arith, pow-step width, one-le-pow width 2)
bit-mask (suc width) zero (suc j) hi hj =
    let e : (2 ^ suc width - 1 - 2 ^ 0) / 2 ≡ 2 ^ width - 1 =
      omega (arith, pow-step width, one-le-pow width 2) in
    rw (e, bit-ones width j (omega arith)) (ground arith)
bit-mask (suc width) (suc i) zero hi hj = ground (arith, pow-step width, pow-step i, pow-lt width i)
bit-mask (suc width) (suc i) (suc j) hi hj =
    let e : (2 ^ suc width - 1 - 2 ^ suc i) / 2 ≡ 2 ^ width - 1 - 2 ^ i =
      omega (arith, pow-step width, pow-step i, pow-lt width i (omega arith)) in
    rw (e, bit-mask width i j (omega arith) (omega arith)) (ground arith)

-- Setting bit `i` sets that bit and leaves the others.
pub has_bit-with_bit : (w i j : ℕ) → has_bit (with_bit w i) j ≡ ((i == j) || has_bit w j)
unfolding with_bit
has_bit-with_bit w i j =
    rw (has_bit-eq (bit_or w (2 ^ i)) j, has_bit-eq w j, bit-bit_or j w (2 ^ i), bit-two_pow i j)
      (ground (arith, bit-lt w j))

-- Clearing bit `i` of a word clears that bit and leaves the others.
pub has_bit-without_bit :
    (width w i j : ℕ)
    → i < width
    → j < width
    → has_bit (without_bit width w i) j ≡ (not (i == j) && has_bit w j)
unfolding without_bit
has_bit-without_bit width w i j hi hj =
    rw
      (
        has_bit-eq (bit_and w (2 ^ width - 1 - 2 ^ i)) j,
        has_bit-eq w j,
        bit-bit_and j w (2 ^ width - 1 - 2 ^ i),
        bit-mask width i j hi hj,
      )
      (ground (arith, bit-lt w j))

pub has_bit-zero : (i : ℕ) → has_bit 0 i ≡ false
has_bit-zero i = rw (has_bit-eq 0 i, bit-zero i)

pub has_bit-ones : (width i : ℕ) → i < width → has_bit (2 ^ width - 1) i ≡ true
has_bit-ones width i h = rw (has_bit-eq (2 ^ width - 1) i, bit-ones width i h)

pub bit_and-zero : (w : ℕ) → bit_and w 0 ≡ 0
bit_and-zero w =
    zero_of_bits (bit_and w 0) (bit_and w 0) (le_refl _)
      (λ i. omega (arith, bit-bit_and i w 0, bit-zero i))
