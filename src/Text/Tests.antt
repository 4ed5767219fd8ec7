-- ===== src/Text/Tests.antt =====
-- Concrete memory: the string "ab" at 100, "ab" at 200, and bytes that are all 7 elsewhere.
use build_your_own_os.Prelude.{
  ℕ, zero, suc, ◌+◌, ◌≡◌, refl, ◌<◌, inl, Bool-cases, inr, false, some, arith, ◌==◌, if◌then◌else◌,
}
use build_your_own_os.Text.{Mem, strncpy, strlen, strcat}
use build_your_own_os.Text.Copy.{within}
use build_your_own_os.Text.Strncpy.{NoEnd, strncpy_long}
use build_your_own_os.Text.Concat.{IsString, strlen-strcat}

abbrev bytes : Mem
bytes q = if q == 102 then 0 else if q == 202 then 0 else 7

bytes-NoEnd : NoEnd bytes 100 2
bytes-NoEnd zero h e = ground arith
bytes-NoEnd (suc zero) h e = ground arith
bytes-NoEnd (suc (suc i)) h e = absurd (omega arith)

sevens-NoEnd : NoEnd bytes 300 4
sevens-NoEnd i h e = ground arith

ab_100 : IsString bytes 100 2
ab_100 = record { chars = bytes-NoEnd; end = refl }

ab_200 : IsString bytes 200 2
ab_200 = record {
  chars = λ i h e. elim (Bool-cases (i == 0)) [
    | inl first ↦ let z : i ≡ 0 = ground arith in absurd (ground arith)
    | inr later ↦ let z : i ≡ 1 = ground arith in absurd (ground arith)
  ];
  end = refl;
}

strlen-strcat_example :
    (mem' : Mem) × (strcat 10 bytes 100 200 ≡ some mem')
    × (strlen 10 mem' 100 ≡ some 4)
    × ((i : ℕ) → i < 2 → mem' (102 + i) ≡ bytes (200 + i))
    × ((q : ℕ) → within 102 3 q ≡ false → mem' q ≡ bytes q)
strlen-strcat_example =
    strlen-strcat 10 bytes 100 200 2 2 (omega arith) (omega arith) ab_100 ab_200 (inl (omega arith))
      (omega arith) (omega arith)

strncpy_long_example : strncpy bytes 400 300 4 1000000 ≡ 0
strncpy_long_example =
    strncpy_long bytes 400 300 4 (omega arith) (omega arith) (inr (omega arith)) sevens-NoEnd
      1000000 refl
