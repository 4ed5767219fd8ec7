-- ===== src/Text.antt =====
-- Bytes and strings in memory, src/kernel/string.c. Memory gives the byte at each address; an address
-- is a natural number with no end, and NULL is 0. Loops that count `n` down run on it; those that look
-- for the end of a string run on fuel.
pub mod Copy
pub mod Strncpy
pub mod Compare
pub mod Concat
mod Tests
use build_your_own_os.Prelude.{
  ℕ, zero, suc, ◌+◌, ◌-◌, ◌%◌, ◌^◌, Bool, true, false, ◌&&◌, ◌||◌, not, Option, none, some, ltb,
  ◌==◌, if◌then◌else◌, ℤ, pos, negsuc, minus,
}

abbrev pub Mem : Type 0
Mem = ℕ → ℕ

abbrev pub store : Mem → ℕ → ℕ → Mem
store mem a v q = if a == q then v else mem q

-- while (n--) *d++ = *s++
unfoldable pub copy_bytes : (n : ℕ) → Mem → (d s : ℕ) → Mem
copy_bytes zero mem d s = mem
copy_bytes (suc n) mem d s = copy_bytes n (store mem d (mem s)) (d + 1) (s + 1)

unfoldable pub memcpy : Mem → (dest src n : ℕ) → Mem
memcpy mem dest src n = if dest == 0 || src == 0 then mem else copy_bytes n mem dest src

-- while (n--) *p++ = c
unfoldable pub fill_bytes : (n : ℕ) → Mem → (p c : ℕ) → Mem
fill_bytes zero mem p c = mem
fill_bytes (suc n) mem p c = fill_bytes n (store mem p c) (p + 1) c

unfoldable pub memset : Mem → (s c n : ℕ) → Mem
memset mem s c n = if s == 0 then mem else fill_bytes n mem s (c % 2 ^ 8)

-- while (n-- && (*dest++ = *src++)): what is left in `n`, memory and `dest`. The `n--` that ends the
-- loop leaves SIZE_MAX.
unfoldable pub copy_string : (n : ℕ) → Mem → (dest src : ℕ) → ℕ × Mem × ℕ
copy_string zero mem dest src = (2 ^ 64 - 1, mem, dest)
copy_string (suc n) mem dest src = elim (mem src == 0) [
  | true ↦ (n, store mem dest (mem src), dest + 1)
  | false ↦ copy_string n (store mem dest (mem src)) (dest + 1) (src + 1)
]

unfoldable pub strncpy : Mem → (dest src n : ℕ) → Mem
strncpy mem dest src n =
    if dest == 0 || src == 0
    then mem
    else (let (left, mem', end) = copy_string n mem dest src in fill_bytes left mem' end 0)

-- the loop of `strcmp`: the two addresses where it stops; `none` is out of fuel
unfoldable pub common_prefix : (fuel : ℕ) → Mem → (s1 s2 : ℕ) → Option (ℕ × ℕ)
common_prefix zero mem s1 s2 = none
common_prefix (suc fuel) mem s1 s2 = elim (not (mem s1 == 0) && mem s1 == mem s2) [
  | true ↦ common_prefix fuel mem (s1 + 1) (s2 + 1)
  | false ↦ some (s1, s2)
]

unfoldable pub strcmp : (fuel : ℕ) → Mem → (s1 s2 : ℕ) → Option ℤ
strcmp fuel mem s1 s2 =
    if s1 == 0 || s2 == 0 then some (negsuc 0) else elim (common_prefix fuel mem s1 s2) [
      | none ↦ none
      | some r ↦ some (minus (mem r.0) (mem r.1))
    ]

-- the loop of `memcmp`
unfoldable pub compare_bytes : (n : ℕ) → Mem → (p1 p2 : ℕ) → ℤ
compare_bytes zero mem p1 p2 = pos 0
compare_bytes (suc n) mem p1 p2 = elim (mem p1 == mem p2) [
  | true ↦ compare_bytes n mem (p1 + 1) (p2 + 1)
  | false ↦ minus (mem p1) (mem p2)
]

unfoldable pub memcmp : Mem → (s1 s2 n : ℕ) → ℤ
memcmp mem s1 s2 n = if s1 == 0 || s2 == 0 then pos 0 else compare_bytes n mem s1 s2

-- while (str[len]) len++; `len` is an int, and `none` is also its overflow, which C leaves undefined
unfoldable pub count_chars : (fuel : ℕ) → Mem → (str len : ℕ) → Option ℕ
count_chars zero mem str len = none
count_chars (suc fuel) mem str len = elim (mem (str + len) == 0) [
  | true ↦ some len
  | false ↦ elim (ltb (len + 1) (2 ^ 31)) [
    | true ↦ count_chars fuel mem str (len + 1)
    | false ↦ none
  ]
]

unfoldable pub strlen : (fuel : ℕ) → Mem → (str : ℕ) → Option ℕ
strlen fuel mem str = if str == 0 then some 0 else count_chars fuel mem str 0

-- while ((*dest++ = *src++))
unfoldable pub copy_to_end : (fuel : ℕ) → Mem → (dest src : ℕ) → Option Mem
copy_to_end zero mem dest src = none
copy_to_end (suc fuel) mem dest src = elim (mem src == 0) [
  | true ↦ some (store mem dest (mem src))
  | false ↦ copy_to_end fuel (store mem dest (mem src)) (dest + 1) (src + 1)
]

unfoldable pub strcpy : (fuel : ℕ) → Mem → (dest src : ℕ) → Option Mem
strcpy fuel mem dest src = if dest == 0 || src == 0 then some mem else copy_to_end fuel mem dest src

-- while (*dest) dest++
unfoldable pub find_end : (fuel : ℕ) → Mem → (dest : ℕ) → Option ℕ
find_end zero mem dest = none
find_end (suc fuel) mem dest = elim (mem dest == 0) [
  | true ↦ some dest
  | false ↦ find_end fuel mem (dest + 1)
]

unfoldable pub strcat : (fuel : ℕ) → Mem → (dest src : ℕ) → Option Mem
strcat fuel mem dest src =
    if dest == 0 || src == 0
    then some mem
    else elim (find_end fuel mem dest) [ none ↦ none | some end ↦ copy_to_end fuel mem end src ]
