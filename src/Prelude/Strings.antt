-- ===== src/Prelude/Strings.antt =====
-- Strings as their bytes, without the NUL.
use Prim.Native.Nat.{ℕ, zero, suc}
use mathlib.Core.Path.{◌≡◌, refl}
use mathlib.Core.Bool.{Bool, true, false, ◌&&◌}
use mathlib.Core.List.{List, [], ◌∷◌}
use native.Mathlib.Omega.{arith}
use build_your_own_os.Prelude.Tests.{◌==◌}

abbrev pub Str : Type 0
Str = List ℕ

-- the test of strcmp for 0
abbrev pub same_name : Str → Str → Bool
same_name [] [] = true
same_name [] (d ∷ ds) = false
same_name (c ∷ cs) [] = false
same_name (c ∷ cs) (d ∷ ds) = c == d && same_name cs ds

pub same_name_refl : (name : Str) → same_name name name ≡ true
same_name_refl [] = refl
same_name_refl (c ∷ cs) = ground (arith, same_name_refl cs)

pub eq_of_same_name : (s t : Str) → same_name s t ≡ true → s ≡ t
eq_of_same_name [] [] h = refl
eq_of_same_name [] (d ∷ ds) h = absurd (cc)
eq_of_same_name (c ∷ cs) [] h = absurd (cc)
eq_of_same_name (c ∷ cs) (d ∷ ds) h = ground (arith, eq_of_same_name cs ds)

-- at most `n` elements
abbrev pub take {ℓ} : {A : Type ℓ} → ℕ → List A → List A
take zero xs = []
take (suc n) [] = []
take (suc n) (x ∷ xs) = x ∷ take n xs

abbrev pub drop {ℓ} : {A : Type ℓ} → ℕ → List A → List A
drop zero xs = xs
drop (suc n) [] = []
drop (suc n) (x ∷ xs) = drop n xs

pub same_name_comm : (s t : Str) → same_name s t ≡ same_name t s
same_name_comm [] [] = refl
same_name_comm [] (d ∷ ds) = refl
same_name_comm (c ∷ cs) [] = refl
same_name_comm (c ∷ cs) (d ∷ ds) = ground (arith, same_name_comm cs ds)
