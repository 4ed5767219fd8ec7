-- ===== src/Text/Concat.antt =====
-- `strlen` and `strcat`.
use build_your_own_os.Prelude.{
  ℕ, zero, suc, ◌+◌, ◌-◌, ◌^◌, ◌<◌, ◌≡◌, ◌≢◌, ◌∙◌, ap, inl, inr, true, false, ◌||◌, some, arith,
  ◌==◌, ltb, Bool-cases,
}
use build_your_own_os.Text.{
  Mem, store, copy_bytes, count_chars, strlen, copy_to_end, find_end, strcat,
}
use build_your_own_os.Text.Copy.{within, Apart, copy_bytes-outside, copy_bytes-inside}
use build_your_own_os.Text.Strncpy.{NoEnd, Apart-next}

-- A string of `n` characters stands at `s`.
pub record IsString (mem : Mem) (s n : ℕ) : Type 0 where
  pub chars : NoEnd mem s n
  pub end : mem (s + n) ≡ 0

IsString-stop : (mem : Mem) (s : ℕ) → IsString mem s 0 → (mem s == 0) ≡ true
IsString-stop mem s h =
    let same : s + 0 ≡ s = omega arith in let e : mem s ≡ 0 = rw same at h.end in ground (arith, e)

IsString-go : (mem : Mem) (s n : ℕ) → IsString mem s (suc n) → (mem s == 0) ≡ false
IsString-go mem s n h =
    let same : s + 0 ≡ s = omega arith in
    let c : mem s ≢ 0 = rw same at (h.chars 0 (omega arith)) in ground (arith, c)

IsString-next : (mem : Mem) (s n : ℕ) → IsString mem s (suc n) → IsString mem (s + 1) n
IsString-next mem s n h = record {
  chars =
      λ i l. let at : s + 1 + i ≡ s + suc i = omega arith in rw at (h.chars (suc i) (omega arith));
  end = let at : s + 1 + n ≡ s + suc n = omega arith in rw at h.end;
}

find_end-IsString :
    (fuel n : ℕ) (mem : Mem) (s : ℕ)
    → IsString mem s n
    → n < fuel
    → find_end fuel mem s ≡ some (s + n)
unfolding find_end
find_end-IsString zero n mem s h l = absurd (omega arith)
find_end-IsString (suc fuel) zero mem s h l =
    let same : s + 0 ≡ s = omega arith in rw (IsString-stop mem s h, find_end, same)
find_end-IsString (suc fuel) (suc n) mem s h l =
    let at : s + suc n ≡ s + 1 + n = omega arith in
    rw (IsString-go mem s n h, find_end, at)
      (find_end-IsString fuel n mem (s + 1) (IsString-next mem s n h) (omega arith))

count_chars-IsString :
    (fuel n : ℕ) (mem : Mem) (s len : ℕ)
    → IsString mem (s + len) n
    → n < fuel
    → len + n < 2 ^ 31
    → count_chars fuel mem s len ≡ some (len + n)
unfolding count_chars
count_chars-IsString zero n mem s len h l int = absurd (omega arith)
count_chars-IsString (suc fuel) zero mem s len h l int =
    let same : len + 0 ≡ len = omega arith in rw (IsString-stop mem (s + len) h, count_chars, same)
count_chars-IsString (suc fuel) (suc n) mem s len h l int =
    let at : len + suc n ≡ len + 1 + n = omega arith in
    let at_s : s + len + 1 ≡ s + (len + 1) = omega arith in
    let fits : ltb (len + 1) (2 ^ 31) ≡ true = ground arith in
    rw (IsString-go mem (s + len) n h, count_chars, fits, at)
      (count_chars-IsString fuel n mem s (len + 1) (rw at_s at (IsString-next mem (s + len) n h))
        (omega arith) (omega arith))

IsString-store :
    (mem : Mem) (d s n v : ℕ)
    → Apart d (suc (suc n)) s (suc (suc n))
    → IsString mem s (suc n)
    → IsString (store mem d v) (s + 1) n
IsString-store mem d s n v apart h = record {
  chars = λ i l.
      let at : s + 1 + i ≡ s + suc i = omega arith in
      let other : (d == s + suc i) ≡ false = ground (arith, apart) in
      rw (at, other) (h.chars (suc i) (omega arith));
  end =
      let at : s + 1 + n ≡ s + suc n = omega arith in
      let other : (d == s + suc n) ≡ false = ground (arith, apart) in rw (at, other) h.end;
}

copy_to_end-IsString :
    (fuel n : ℕ) (mem : Mem) (d s : ℕ)
    → Apart d (suc n) s (suc n)
    → IsString mem s n
    → n < fuel
    → copy_to_end fuel mem d s ≡ some (copy_bytes (suc n) mem d s)
unfolding copy_to_end copy_bytes
copy_to_end-IsString zero n mem d s apart h l = absurd (omega arith)
copy_to_end-IsString (suc fuel) zero mem d s apart h l = rw (IsString-stop mem s h, copy_to_end)
copy_to_end-IsString (suc fuel) (suc n) mem d s apart h l =
    rw (IsString-go mem s n h, copy_to_end)
      (copy_to_end-IsString fuel n (store mem d (mem s)) (d + 1) (s + 1)
        (Apart-next d s (suc n) apart) (IsString-store mem d s n (mem s) apart h) (omega arith))

copy_bytes-IsString :
    (mem : Mem) (d s a n : ℕ)
    → Apart (d + a) (suc n) s (suc n)
    → NoEnd mem d a
    → IsString mem s n
    → IsString (copy_bytes (suc n) mem (d + a) s) d (a + n)
copy_bytes-IsString mem d s a n apart first h = record {
  chars = λ i l. elim (Bool-cases (ltb i a)) [
    | inl before ↦
        rw (copy_bytes-outside (suc n) mem (d + a) s (d + i) (ground arith))
          (first i (ground arith))
    | inr behind ↦
        let at : d + i ≡ d + a + (i - a) = ground arith in
        rw (at, copy_bytes-inside (suc n) mem (d + a) s (i - a) apart (ground arith))
          (h.chars (i - a) (ground arith))
  ];
  end =
      let at : d + (a + n) ≡ d + a + n = omega arith in
      rw (at, copy_bytes-inside (suc n) mem (d + a) s n apart (omega arith)) h.end;
}

-- strcat of a string of `n` characters behind one of `a`, where the bytes it writes are not those of the
-- source, with `a + n` less than 2 ^ 31, so that an int holds it, and more than `a + n` rounds for each loop: it
-- ends, strlen of the result is `a + n`, its last `n` characters are the source's, and no byte but these and the
-- end behind them changes.
pub strlen-strcat :
    (fuel : ℕ) (mem : Mem) (d s a n : ℕ)
    → 0 < d
    → 0 < s
    → IsString mem d a
    → IsString mem s n
    → Apart (d + a) (suc n) s (suc n)
    → a + n < fuel
    → a + n < 2 ^ 31
    → (mem' : Mem) × (strcat fuel mem d s ≡ some mem')
      × (strlen fuel mem' d ≡ some (a + n))
      × ((i : ℕ) → i < n → mem' (d + a + i) ≡ mem (s + i))
      × ((q : ℕ) → within (d + a) (suc n) q ≡ false → mem' q ≡ mem q)
unfolding strcat strlen
strlen-strcat fuel mem d s a n to from first second apart enough int =
    let given : (d == 0 || s == 0) ≡ false = ground (arith, to, from) in
    let there : (d == 0) ≡ false = ground (arith, to) in
    let same : d + 0 ≡ d = omega arith in
    let sum : 0 + (a + n) ≡ a + n = omega arith in
    let joined : IsString (copy_bytes (suc n) mem (d + a) s) (d + 0) (a + n) =
      rw same (copy_bytes-IsString mem d s a n apart first.chars second) in
    (
      copy_bytes (suc n) mem (d + a) s,
      rw (given, find_end-IsString fuel a mem d first (omega (arith, enough)))
          (copy_to_end-IsString fuel n mem (d + a) s apart second (omega (arith, enough))),
      rw there (
          count_chars-IsString fuel (a + n) _ d 0 joined enough (omega (arith, int)) ∙ ap some sum),
      λ i l. copy_bytes-inside (suc n) mem (d + a) s i apart (omega arith),
      λ q out. copy_bytes-outside (suc n) mem (d + a) s q out,
    )
