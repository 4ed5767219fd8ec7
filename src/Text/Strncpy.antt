-- ===== src/Text/Strncpy.antt =====
-- `strncpy` on a string that fits, and on one that does not.
use build_your_own_os.Prelude.{
  ℕ, zero, suc, ◌+◌, ◌-◌, ◌^◌, ◌≤◌, ◌<◌, ◌≡◌, ◌≢◌, ◌∙◌, inl, inr, true, false, ◌||◌, arith, ◌==◌,
  if◌then◌else◌, Bool-cases,
}
use build_your_own_os.Text.{Mem, store, copy_bytes, fill_bytes, copy_string, strncpy}
use build_your_own_os.Text.Copy.{
  within, Apart, fill_bytes-get, copy_bytes-outside, copy_bytes-inside,
}

-- The first `n` bytes at `s` are no end of a string.
abbrev pub NoEnd : Mem → (s n : ℕ) → Type 0
NoEnd mem s n = (i : ℕ) → i < n → mem (s + i) ≢ 0

NoEnd-store :
    (mem : Mem) (d s n v : ℕ)
    → Apart d (suc n) s (suc n)
    → NoEnd mem s (suc n)
    → NoEnd (store mem d v) (s + 1) n
NoEnd-store mem d s n v apart chars i h =
    let at : s + 1 + i ≡ s + suc i = omega arith in
    let other : (d == s + suc i) ≡ false = ground (arith, apart) in
    rw (at, other) (chars (suc i) (omega arith))

pub Apart-next : (d s n : ℕ) → Apart d (suc n) s (suc n) → Apart (d + 1) n (s + 1) n
Apart-next d s n (inl below) = inl (omega arith)
Apart-next d s n (inr above) = inr (omega arith)

-- With no end in sight the loop copies all `n` bytes, and leaves SIZE_MAX.
copy_string-long :
    (n : ℕ) (mem : Mem) (d s : ℕ)
    → Apart d n s n
    → NoEnd mem s n
    → copy_string n mem d s ≡ (2 ^ 64 - 1, copy_bytes n mem d s, d + n)
unfolding copy_string copy_bytes
copy_string-long zero mem d s apart chars = let at : d + 0 ≡ d = omega arith in rw at
copy_string-long (suc n) mem d s apart chars =
    let at : d + suc n ≡ d + 1 + n = omega arith in
    let same : s + 0 ≡ s = omega arith in
    let first : (mem s == 0) ≡ false =
      let c : mem s ≢ 0 = rw same at (chars 0 (omega arith)) in ground (arith, c) in
    rw (first, copy_string, at)
      (copy_string-long n (store mem d (mem s)) (d + 1) (s + 1) (Apart-next d s n apart)
        (NoEnd-store mem d s n (mem s) apart chars))

-- With the end at `k` the loop copies it, and leaves what is to be padded.
copy_string-short :
    (k n : ℕ) (mem : Mem) (d s : ℕ)
    → Apart d (suc k) s (suc k)
    → NoEnd mem s k
    → mem (s + k) ≡ 0
    → k < n
    → copy_string n mem d s ≡ (n - suc k, copy_bytes (suc k) mem d s, d + suc k)
unfolding copy_string copy_bytes
copy_string-short k zero mem d s apart chars end h = absurd (omega arith)
copy_string-short zero (suc n) mem d s apart chars end h =
    let same : s + 0 ≡ s = omega arith in
    let stop : (mem s == 0) ≡ true = let e = rw same at end in ground (arith, e) in
    let left : suc n - 1 ≡ n = omega arith in rw (stop, copy_string, left)
copy_string-short (suc k) (suc n) mem d s apart chars end h =
    let same : s + 0 ≡ s = omega arith in
    let first : (mem s == 0) ≡ false =
      let c : mem s ≢ 0 = rw same at (chars 0 (omega arith)) in ground (arith, c) in
    let at : d + suc (suc k) ≡ d + 1 + suc k = omega arith in
    let left : suc n - suc (suc k) ≡ n - suc k = omega arith in
    let at_end : s + 1 + k ≡ s + suc k = omega arith in
    let other : (d == s + suc k) ≡ false = ground (arith, apart) in
    rw (first, copy_string, at, left)
      (copy_string-short k n (store mem d (mem s)) (d + 1) (s + 1) (Apart-next d s (suc k) apart)
        (NoEnd-store mem d s k (mem s) (shorter apart) (λ i l. chars i (omega arith)))
        (rw (at_end, other) end) (omega arith))
  where
    shorter : Apart d (suc (suc k)) s (suc (suc k)) → Apart d (suc k) s (suc k)
    shorter (inl below) = inl (omega arith)
    shorter (inr above) = inr (omega arith)

module _ (mem : Mem) (dest src n : ℕ) (to : 0 < dest) (from : 0 < src) where
  given : (dest == 0 || src == 0) ≡ false
  given = ground arith

  -- `strncpy` of a string with its end within `n` bytes, to a place that has no byte in common with it:
  -- the string is copied, the rest of the `n` bytes is zero, and nothing else changes.
  pub strncpy_short :
      (k : ℕ)
      → Apart dest (suc k) src (suc k)
      → NoEnd mem src k
      → mem (src + k) ≡ 0
      → k < n
      → ((i : ℕ) → i < k → strncpy mem dest src n (dest + i) ≡ mem (src + i))
        × ((i : ℕ) → k ≤ i → i < n → strncpy mem dest src n (dest + i) ≡ 0)
        × ((q : ℕ) → within dest n q ≡ false → strncpy mem dest src n q ≡ mem q)
  unfolding strncpy
  strncpy_short k apart chars end h =
      let copied : Mem = copy_bytes (suc k) mem dest src in
      let pad : (q : ℕ)
          → fill_bytes (n - suc k) copied (dest + suc k) 0 q
            ≡ (if within (dest + suc k) (n - suc k) q then 0 else copied q) =
        λ q. fill_bytes-get (n - suc k) copied (dest + suc k) 0 q in
      rw (given, copy_string-short k n mem dest src apart chars end h)
        (
          λ i l.
              let out : within (dest + suc k) (n - suc k) (dest + i) ≡ false = ground arith in
              pad (dest + i)
              ∙ rw out (copy_bytes-inside (suc k) mem dest src i apart (omega arith)),
          λ i a b.
              pad (dest + i) ∙ elim (Bool-cases (within (dest + suc k) (n - suc k) (dest + i))) [
                | inl in_pad ↦ rw in_pad
                | inr out ↦
                    let e : i ≡ k = ground arith in
                    rw (out, e) (copy_bytes-inside (suc k) mem dest src k apart (omega arith) ∙ end)
              ],
          λ q out.
              let out' : within (dest + suc k) (n - suc k) q ≡ false = ground arith in
              pad q ∙ rw out' (copy_bytes-outside (suc k) mem dest src q (ground arith)),
        )

  -- `strncpy` of a string with no end in its first `n` bytes does not stop there: it goes on and
  -- writes 2 ^ 64 - 1 zeros behind them.
  pub strncpy_long :
      Apart dest n src n
      → NoEnd mem src n
      → (q : ℕ) → within (dest + n) (2 ^ 64 - 1) q ≡ true
      → strncpy mem dest src n q ≡ 0
  unfolding strncpy
  strncpy_long apart chars q inside =
      rw (given, copy_string-long n mem dest src apart chars)
        (fill_bytes-get (2 ^ 64 - 1) (copy_bytes n mem dest src) (dest + n) 0 q ∙ rw inside)
