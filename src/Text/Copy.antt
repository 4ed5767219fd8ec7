-- ===== src/Text/Copy.antt =====
-- What `memcpy` and `memset` leave in memory.
use build_your_own_os.Prelude.{
  ℕ, zero, suc, ◌+◌, ◌≤◌, ◌<◌, ◌≡◌, refl, ◌∙◌, ◌⊎◌, inl, inr, Bool, false, ◌&&◌, ◌||◌, arith, leb,
  ltb, ◌==◌, if◌then◌else◌,
}
use build_your_own_os.Text.{Mem, store, copy_bytes, memcpy, fill_bytes}

-- the address is in the `n` bytes from `a` on
abbrev pub within : (a n q : ℕ) → Bool
within a n q = leb a q && ltb q (a + n)

-- Two stretches of memory have no byte in common.
abbrev pub Apart : (a n b m : ℕ) → Type 0
Apart a n b m = (a + n ≤ b) ⊎ (b + m ≤ a)

pub fill_bytes-get :
    (n : ℕ) (mem : Mem) (p c q : ℕ) → fill_bytes n mem p c q ≡ (if within p n q then c else mem q)
unfolding fill_bytes
fill_bytes-get zero mem p c q = ground arith
fill_bytes-get (suc n) mem p c q = ground (arith, fill_bytes-get n (store mem p c) (p + 1) c q)

pub copy_bytes-outside :
    (n : ℕ) (mem : Mem) (d s q : ℕ) → within d n q ≡ false → copy_bytes n mem d s q ≡ mem q
unfolding copy_bytes
copy_bytes-outside zero mem d s q out = refl
copy_bytes-outside (suc n) mem d s q out =
    copy_bytes-outside n (store mem d (mem s)) (d + 1) (s + 1) q (ground arith) ∙ ground arith

pub copy_bytes-inside :
    (n : ℕ) (mem : Mem) (d s i : ℕ)
    → Apart d n s n
    → i < n
    → copy_bytes n mem d s (d + i) ≡ mem (s + i)
unfolding copy_bytes
copy_bytes-inside zero mem d s i apart h = absurd (omega arith)
copy_bytes-inside (suc n) mem d s zero apart h =
    let at_d : d + 0 ≡ d = omega arith in
    let at_s : s + 0 ≡ s = omega arith in
    rw (at_d, at_s)
      (copy_bytes-outside n (store mem d (mem s)) (d + 1) (s + 1) d (ground arith) ∙ ground arith)
copy_bytes-inside (suc n) mem d s (suc i) apart h =
    let at_d : d + suc i ≡ d + 1 + i = omega arith in
    let at_s : s + suc i ≡ s + 1 + i = omega arith in
    let other : (d == s + 1 + i) ≡ false = ground (arith, apart) in
    rw (at_d, at_s)
      (copy_bytes-inside n (store mem d (mem s)) (d + 1) (s + 1) i (shift apart) (omega arith)
        ∙ rw other)
  where
    shift : Apart d (suc n) s (suc n) → Apart (d + 1) n (s + 1) n
    shift (inl below) = inl (omega arith)
    shift (inr above) = inr (omega arith)

-- `memcpy` between two stretches that have no byte in common: the target gets the source's bytes, and
-- nothing else changes.
pub memcpy_lem :
    (mem : Mem) (dest src n : ℕ)
    → 0 < dest
    → 0 < src
    → Apart dest n src n
    → ((i : ℕ) → i < n → memcpy mem dest src n (dest + i) ≡ mem (src + i))
      × ((q : ℕ) → within dest n q ≡ false → memcpy mem dest src n q ≡ mem q)
unfolding memcpy
memcpy_lem mem dest src n d s apart =
    let there : (dest == 0 || src == 0) ≡ false = ground arith in
    rw there (
      λ i h. copy_bytes-inside n mem dest src i apart h,
      λ q out. copy_bytes-outside n mem dest src q out,
    )
