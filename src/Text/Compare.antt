-- ===== src/Text/Compare.antt =====
-- `strcmp` ends at the end of its first string, and tells equal strings from others.
use build_your_own_os.Prelude.{
  ℕ, zero, suc, ◌+◌, ◌≤◌, ◌<◌, ◌≡◌, ◌↔◌, ◌∙◌, inl, inr, Bool, true, false, ◌&&◌, ◌||◌, not, Option,
  some, arith, ◌==◌, Bool-cases, ℤ, pos, minus,
}
use build_your_own_os.Text.{Mem, common_prefix, strcmp}
use build_your_own_os.Text.Strncpy.{NoEnd}

-- both strings go on alike at this place
abbrev alike : Mem → (s1 s2 : ℕ) → Bool
alike mem s1 s2 = not (mem s1 == 0) && mem s1 == mem s2

-- The loop stops `j` bytes on: before, the strings are alike, and there they are not.
record Stopped (mem : Mem) (s1 s2 k : ℕ) (r : Option (ℕ × ℕ)) : Type 0 where
  at : ℕ
  low : at ≤ k
  result : r ≡ some (s1 + at, s2 + at)
  before : (i : ℕ) → i < at → mem (s1 + i) ≡ mem (s2 + i)
  here : alike mem (s1 + at) (s2 + at) ≡ false

Stopped-next :
    (mem : Mem) (s1 s2 k : ℕ) (r : Option (ℕ × ℕ))
    → alike mem s1 s2 ≡ true
    → Stopped mem (s1 + 1) (s2 + 1) k r
    → Stopped mem s1 s2 (suc k) r
Stopped-next mem s1 s2 k r same t = record {
  at = suc t.at;
  low = omega (arith, t.low);
  result = t.result ∙ rw (step s1, step s2);
  before = before;
  here = rw (step s1, step s2) t.here;
}
  where
    step : (s : ℕ) → s + suc t.at ≡ s + 1 + t.at
    step s = omega arith

    before : (i : ℕ) → i < suc t.at → mem (s1 + i) ≡ mem (s2 + i)
    before zero h =
        let a1 : s1 + 0 ≡ s1 = omega arith in
        let a2 : s2 + 0 ≡ s2 = omega arith in rw (a1, a2) (ground (arith, same))
    before (suc i) h =
        let a1 : s1 + suc i ≡ s1 + 1 + i = omega arith in
        let a2 : s2 + suc i ≡ s2 + 1 + i = omega arith in rw (a1, a2) (t.before i (omega arith))

Stopped-here :
    (mem : Mem) (s1 s2 k : ℕ) → alike mem s1 s2 ≡ false → Stopped mem s1 s2 k (some (s1, s2))
Stopped-here mem s1 s2 k stop =
    let a1 : s1 + 0 ≡ s1 = omega arith in
    let a2 : s2 + 0 ≡ s2 = omega arith in
    record {
      at = 0;
      low = omega arith;
      result = rw (a1, a2);
      before = λ i l. absurd (omega arith);
      here = rw (a1, a2) stop;
    }

common_prefix-Stopped :
    (fuel k : ℕ) (mem : Mem) (s1 s2 : ℕ)
    → mem (s1 + k) ≡ 0
    → k < fuel
    → Stopped mem s1 s2 k (common_prefix fuel mem s1 s2)
unfolding common_prefix
common_prefix-Stopped zero k mem s1 s2 end h = absurd (omega arith)
common_prefix-Stopped (suc fuel) zero mem s1 s2 end h =
    let a1 : s1 + 0 ≡ s1 = omega arith in
    let stop : alike mem s1 s2 ≡ false = let e = rw a1 at end in ground (arith, e) in
    rw (stop, common_prefix) (Stopped-here mem s1 s2 0 stop)
common_prefix-Stopped (suc fuel) (suc k) mem s1 s2 end h = elim (Bool-cases (alike mem s1 s2)) [
  | inr stop ↦ rw (stop, common_prefix) (Stopped-here mem s1 s2 (suc k) stop)
  | inl go ↦
      let a1 : s1 + suc k ≡ s1 + 1 + k = omega arith in
      rw (go, common_prefix)
        (Stopped-next mem s1 s2 k _ go
          (common_prefix-Stopped fuel k mem (s1 + 1) (s2 + 1) (rw a1 at end) (omega arith)))
]

minus-zero : (a b : ℕ) → (minus a b ≡ pos 0) ↔ (a ≡ b)
minus-zero a b = ground arith

-- the strings at `s1` and `s2` are the same, up to the end of the first at `k`
abbrev pub SameString : Mem → (s1 s2 k : ℕ) → Type 0
SameString mem s1 s2 k = (i : ℕ) → i ≤ k → mem (s1 + i) ≡ mem (s2 + i)

-- Strings that agree where the loop stops are the same: it stopped at their end.
Stopped-same :
    (mem : Mem) (s1 s2 k : ℕ) {r : Option (ℕ × ℕ)} (t : Stopped mem s1 s2 k r)
    → mem (s1 + t.at) ≡ mem (s2 + t.at)
    → NoEnd mem s1 k
    → SameString mem s1 s2 k
Stopped-same mem s1 s2 k t e chars i h = elim (Bool-cases (i == t.at)) [
  | inl there ↦ let e' : i ≡ t.at = ground arith in rw e' e
  | inr apart ↦
      let over : mem (s1 + t.at) ≡ 0 = ground (arith, e, t.here) in
      elim (Bool-cases (t.at == k)) [
        | inl at_end ↦ t.before i (ground (arith, t.low))
        | inr early ↦ absurd (chars t.at (ground (arith, t.low)) over)
      ]
]

-- Where the first string has its end after `k` bytes, `strcmp` ends within `k + 1` rounds, and returns 0
-- exactly if the two strings are the same.
pub strcmp_lem :
    (fuel k : ℕ) (mem : Mem) (s1 s2 : ℕ)
    → 0 < s1
    → 0 < s2
    → NoEnd mem s1 k
    → mem (s1 + k) ≡ 0
    → k < fuel
    → (r : ℤ) × (strcmp fuel mem s1 s2 ≡ some r) × ((r ≡ pos 0) ↔ SameString mem s1 s2 k)
unfolding strcmp
strcmp_lem fuel k mem s1 s2 p1 p2 chars end h =
    let t = common_prefix-Stopped fuel k mem s1 s2 end h in
    let there : (s1 == 0 || s2 == 0) ≡ false = ground arith in
    (
      minus (mem (s1 + t.at)) (mem (s2 + t.at)),
      rw (there, t.result),
      (
        λ zero_diff. Stopped-same mem s1 s2 k t ((minus-zero _ _).0 zero_diff) chars,
        λ same. (minus-zero _ _).1 (same t.at t.low),
      ),
    )
