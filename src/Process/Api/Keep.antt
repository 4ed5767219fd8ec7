-- ===== src/Process/Api/Keep.antt =====
-- Changes of the kernel that leave the queue as it is.
use build_your_own_os.Prelude.{
  ℕ, ◌<◌, ◌≡◌, refl, ◌∙◌, true, false, List, [], ◌∷◌, arith, ◌==◌, has_bit, Bool-cases, inl, inr,
}
use build_your_own_os.Process.State.{Task, Kernel, max_tasks, put}
use build_your_own_os.Process.Scheduler.Ring.{has, SameLinks, Ring-frame}
use build_your_own_os.Process.Scheduler.Add.{IsQueue, Queue}

module _ (k k' : Kernel) where
  Queue-frame :
      (xs : List ℕ)
      → k'.ready_queue ≡ k.ready_queue
      → SameLinks k.tasks k'.tasks xs
      → Queue k xs
      → Queue k' xs
  Queue-frame [] e s q = e ∙ q
  Queue-frame (x ∷ xs) e s q = (e ∙ q.0, Ring-frame k.tasks k'.tasks x xs s q.1)

  pub IsQueue-frame :
      (xs : List ℕ)
      → k'.ready_queue ≡ k.ready_queue
      → k'.num_tasks ≡ k.num_tasks
      → SameLinks k.tasks k'.tasks xs
      → IsQueue k xs
      → IsQueue k' xs
  IsQueue-frame xs e n s q = record {
    links = Queue-frame xs e s q.links;
    counted = n ∙ q.counted;
    few = q.few;
  }

-- a task that is not in the queue may change at will
pub SameLinks-put :
    (k : Kernel) (p : ℕ) (t : Task) (xs : List ℕ)
    → has p xs ≡ false
    → SameLinks k.tasks (put k.tasks p t) xs
SameLinks-put k p t xs out y inside = elim (Bool-cases (p == y)) [
  | inl same ↦ let e : p ≡ y = ground arith in absurd (let gone = rw e at out in ground arith)
  | inr apart ↦ rw apart (refl, refl)
]

-- The queue holds tasks of the pool, each in a slot that is in use.
pub record IsPooled (k : Kernel) (xs : List ℕ) : Type 0 where
  pub queue : IsQueue k xs
  pub inside : (y : ℕ) → has y xs ≡ true → (y < max_tasks) × (has_bit k.task_pool_bitmap y ≡ true)
