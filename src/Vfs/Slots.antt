-- ===== src/Vfs/Slots.antt =====
-- The search for an empty slot in the tables of the virtual file system, src/fs/vfs/vfs_core.c.
use build_your_own_os.Prelude.{
  ℕ, zero, suc, ◌+◌, ◌<◌, ◌≡◌, ◌≢◌, refl, sym, ◌∙◌, ap, Option, none, some, List, [], ◌∷◌, length,
  get_or, arith,
}
use build_your_own_os.Vfs.{free_slot}

-- The first slot that is free, or none.
pub data FirstFree {A : Type 0} (slots : List (Option A)) (i : ℕ) (r : Option ℕ) : Type 0 where
  full : r ≡ none → ((l : ℕ) → l < length slots → get_or slots l none ≢ none) → FirstFree slots i r
  first :
      (j : ℕ)
      → r ≡ some (i + j)
      → j < length slots
      → get_or slots j none ≡ none
      → ((l : ℕ) → l < j → get_or slots l none ≢ none)
      → FirstFree slots i r

pub free_slot-FirstFree :
    {A : Type 0} (slots : List (Option A)) (i : ℕ) → FirstFree slots i (free_slot i slots)
unfolding free_slot
free_slot-FirstFree [] i = full refl (λ l h e. absurd (omega arith))
free_slot-FirstFree (none ∷ slots) i =
    let e : i + 0 ≡ i = omega arith in
    first 0 (rw e) (omega arith) refl (λ l h e. absurd (omega arith))
free_slot-FirstFree (some x ∷ slots) i = elim (free_slot-FirstFree slots (i + 1)) [
  | full r busy ↦ full r (some_before x slots busy)
  | first j r h free busy ↦
      let e : i + suc j ≡ i + 1 + j = omega arith in
      first (suc j) (r ∙ ap some (sym e)) (omega (arith, h)) free (some_below x slots j busy)
]
  where
    some_before :
        {B : Type 0} (x : B) (slots : List (Option B))
        → ((l : ℕ) → l < length slots → get_or slots l none ≢ none)
        → (l : ℕ) → l < suc (length slots)
        → get_or (some x ∷ slots) l none ≢ none
    some_before x slots busy zero h e = absurd (cc)
    some_before x slots busy (suc l) h e = busy l (omega (arith, h)) e

    some_below :
        {B : Type 0} (x : B) (slots : List (Option B)) (j : ℕ)
        → ((l : ℕ) → l < j → get_or slots l none ≢ none)
        → (l : ℕ) → l < suc j
        → get_or (some x ∷ slots) l none ≢ none
    some_below x slots j busy zero h e = absurd (cc)
    some_below x slots j busy (suc l) h e = busy l (omega (arith, h)) e
