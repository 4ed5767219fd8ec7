-- ===== src/Fd/Table/Refs.antt =====
-- The references to a file that a table of descriptors holds.
use build_your_own_os.Prelude.{
  ℕ, zero, suc, ◌+◌, ◌<◌, ◌≡◌, refl, Bool, true, false, ◌&&◌, Option, none, some, List, [], ◌∷◌,
  arith, ◌==◌, if◌then◌else◌, length, get_or, set, replicate, has_bit, has_bit-zero,
}
use build_your_own_os.Fd.Table.{Fd, unused}

abbrev pub eq_file : Option ℕ → ℕ → Bool
eq_file none p = false
eq_file (some q) p = q == p

-- one for a descriptor of file `p`
abbrev pub ref : ℕ → Fd → ℕ
ref p f = if has_bit f.flags 0 && eq_file f.file p then 1 else 0

abbrev pub refs : ℕ → List Fd → ℕ
refs p [] = 0
refs p (f ∷ fs) = ref p f + refs p fs

-- Writing descriptor `i` changes the count by what it held and holds.
pub refs-set :
    (p : ℕ) (fds : List Fd) (i : ℕ) (v : Fd)
    → i < length fds
    → refs p (set fds i v) + ref p (get_or fds i unused) ≡ refs p fds + ref p v
refs-set p [] i v h = absurd (omega arith)
refs-set p (f ∷ fs) zero v h = omega arith
refs-set p (f ∷ fs) (suc i) v h = omega (arith, refs-set p fs i v (omega arith))

pub ref-unused : (p : ℕ) → ref p unused ≡ 0
ref-unused p = rw (has_bit-zero 0)

pub refs-unused : (p n : ℕ) → refs p (replicate n unused) ≡ 0
refs-unused p zero = refl
refs-unused p (suc n) = omega (arith, ref-unused p, refs-unused p n)

-- A descriptor that holds file `p` counts for it, and for no other.
pub ref-some :
    (f : Fd) (q p : ℕ)
    → has_bit f.flags 0 ≡ true
    → f.file ≡ some q
    → ref p f ≡ (if q == p then 1 else 0)
ref-some f q p on e = rw (on, e)

pub ref-none : (f : Fd) (p : ℕ) → f.file ≡ none → ref p f ≡ 0
ref-none f p e = rw e (ground arith)

pub refs-cong :
    (p : ℕ) (fds fds' : List Fd)
    → length fds ≡ length fds'
    → ((j : ℕ) → j < length fds → ref p (get_or fds j unused) ≡ ref p (get_or fds' j unused))
    → refs p fds ≡ refs p fds'
refs-cong p [] [] e same = refl
refs-cong p [] (g ∷ gs) e same = absurd (omega arith)
refs-cong p (f ∷ fs) [] e same = absurd (omega arith)
refs-cong p (f ∷ fs) (g ∷ gs) e same = omega (
  arith,
  same 0 (omega arith),
  refs-cong p fs gs (omega arith) (λ j h. same (suc j) (omega arith)),
)
