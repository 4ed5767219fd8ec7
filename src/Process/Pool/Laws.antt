-- ===== src/Process/Pool/Laws.antt =====
-- What the pools of task slots and stacks give out and take back.
use build_your_own_os.Prelude.{
  ℕ, zero, suc, ◌+◌, ◌*◌, ◌/◌, ◌≤◌, ◌<◌, ◌≡◌, refl, true, false, ◌||◌, Option, none, some, arith,
  ltb, leb, ◌==◌, Bool-cases, inl, inr, has_bit, with_bit, without_bit, has_bit-with_bit,
  has_bit-without_bit,
}
use build_your_own_os.Process.State.{Kernel, max_tasks, task_stack_size}
use build_your_own_os.Process.Pool.{first_clear, allocate_task_stack, free_task_stack}

-- The search gives the lowest slot that is free, if there is one.
pub data Lowest (bitmap from rounds : ℕ) (r : Option ℕ) : Type 0 where
  full :
      r ≡ none
      → ((j : ℕ) → from ≤ j → j < from + rounds → has_bit bitmap j ≡ true)
      → Lowest bitmap from rounds r
  slot :
      (i : ℕ)
      → r ≡ some i
      → i < from + rounds
      → has_bit bitmap i ≡ false
      → ((j : ℕ) → from ≤ j → j < i → has_bit bitmap j ≡ true)
      → Lowest bitmap from rounds r

-- What holds at `from` and behind it holds from there on.
pub from_on :
    (P : ℕ → Type 0) (from bound : ℕ)
    → P from
    → ((j : ℕ) → from + 1 ≤ j → j < bound → P j)
    → (j : ℕ) → from ≤ j
    → j < bound
    → P j
from_on P from bound here later j a b = elim (Bool-cases (j == from)) [
  | inl e ↦ let e' : j ≡ from = ground arith in rw e' here
  | inr ne ↦ later j (ground arith) b
]

Lowest-later :
    (bitmap from rounds : ℕ) {r : Option ℕ}
    → has_bit bitmap from ≡ true
    → Lowest bitmap (from + 1) rounds r
    → Lowest bitmap from (suc rounds) r
Lowest-later bitmap from rounds used (full e all) = full e (
    from_on (λ j. has_bit bitmap j ≡ true) from (from + suc rounds) used
      (λ j a b. all j a (omega arith)))
Lowest-later bitmap from rounds used (slot i e b free before) =
    slot i e (omega arith) free (from_on (λ j. has_bit bitmap j ≡ true) from i used before)

pub first_clear-Lowest :
    (rounds bitmap from : ℕ) → Lowest bitmap from rounds (first_clear rounds bitmap from)
unfolding first_clear
first_clear-Lowest zero bitmap from = full refl (λ j a b. absurd (omega arith))
first_clear-Lowest (suc rounds) bitmap from = elim (Bool-cases (has_bit bitmap from)) [
  | inl used ↦
      rw (used, first_clear)
        (Lowest-later bitmap from rounds used (first_clear-Lowest rounds bitmap (from + 1)))
  | inr free ↦
      rw (free, first_clear) (slot from refl (omega arith) free (λ j a b. absurd (omega arith)))
]

-- A stack comes from the lowest free slot, and only for the one size that there is; giving it back
-- frees that slot and no other.
pub data StackOutcome (k : Kernel) (size : ℕ) : Option ℕ × Kernel → Type 0 where
  refused :
      (size ≡ task_stack_size → (j : ℕ) → j < max_tasks → has_bit k.stack_pool_bitmap j ≡ true)
      → StackOutcome k size (none, k)
  granted :
      (i bitmap : ℕ)
      → size ≡ task_stack_size
      → i < max_tasks
      → has_bit k.stack_pool_bitmap i ≡ false
      → ((j : ℕ) → j < i → has_bit k.stack_pool_bitmap j ≡ true)
      → ((j : ℕ) → has_bit bitmap j ≡ ((i == j) || has_bit k.stack_pool_bitmap j))
      → StackOutcome k size (some (i * task_stack_size), record k { stack_pool_bitmap = bitmap })

pub allocate_task_stack-StackOutcome :
    (k : Kernel) (size : ℕ) → StackOutcome k size (allocate_task_stack k size)
unfolding allocate_task_stack
allocate_task_stack-StackOutcome k size = elim (Bool-cases (size == task_stack_size)) [
  | inr other ↦ rw (other, allocate_task_stack) (refused (λ e. ground arith))
  | inl same ↦ elim (first_clear-Lowest max_tasks k.stack_pool_bitmap 0) [
    | full e all ↦ rw (same, e, allocate_task_stack) (refused (λ _ j h. all j (omega arith) h))
    | slot i e b free before ↦
        rw (same, e, allocate_task_stack)
          (granted i (with_bit k.stack_pool_bitmap i) (ground arith) b free
            (λ j h. before j (omega arith) h) (has_bit-with_bit k.stack_pool_bitmap i))
  ]
]

-- `k'` is `k` once the stack at `p` is back in the pool.
pub record GaveBack (k k' : Kernel) : Type 0 where
  pub slots :
      (j : ℕ) → j < max_tasks → has_bit k'.stack_pool_bitmap j ≡ has_bit k.stack_pool_bitmap j
  pub rest : record k' { stack_pool_bitmap = k.stack_pool_bitmap } ≡ k

free_task_stack-slot :
    (k : Kernel) (i : ℕ)
    → i < max_tasks
    → free_task_stack k (some (i * task_stack_size)) task_stack_size
      ≡ record k { stack_pool_bitmap = without_bit 32 k.stack_pool_bitmap i }
unfolding free_task_stack
free_task_stack-slot k i b =
    let at : (i * task_stack_size) / task_stack_size ≡ i = omega arith in
    let inside : leb (max_tasks * task_stack_size) (i * task_stack_size) ≡ false = ground arith in
    let low : ltb i max_tasks ≡ true = ground arith in rw (inside, at, low)

StackOutcome-GaveBack :
    (k : Kernel) (size p : ℕ) (r : Option ℕ × Kernel)
    → StackOutcome k size r
    → r.0 ≡ some p
    → GaveBack k (free_task_stack r.1 (some p) size)
StackOutcome-GaveBack k size p r (refused all_used) e = absurd (ground arith)
StackOutcome-GaveBack k size p r (granted i bitmap fits b free before bits) e =
    let at : p ≡ i * task_stack_size = ground arith in
    rw (at, fits, free_task_stack-slot (record k { stack_pool_bitmap = bitmap }) i b)
      (record {
        slots = λ j h. rw (has_bit-without_bit 32 bitmap i j b h, bits j) (ground arith);
        rest = refl;
      })

-- A stack that was handed out and comes back leaves every slot as it was, and nothing else of the
-- kernel is touched.
pub free_task_stack-allocate_task_stack :
    (k : Kernel) (size p : ℕ)
    → (allocate_task_stack k size).0 ≡ some p
    → GaveBack k (free_task_stack (allocate_task_stack k size).1 (some p) size)
free_task_stack-allocate_task_stack k size p e =
    StackOutcome-GaveBack k size p (allocate_task_stack k size)
      (allocate_task_stack-StackOutcome k size) e
