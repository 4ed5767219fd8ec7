-- ===== src/Process/Scheduler/Reap.antt =====
-- One round of the loop of `cleanup_terminated_tasks`.
use build_your_own_os.Prelude.{
  ℕ, suc, ◌≡◌, refl, ◌∙◌, sym, subst, true, false, Option, none, some, List, ◌∷◌, arith, ◌==◌,
}
use build_your_own_os.Process.State.{Tasks, Kernel, ok, terminated}
use build_your_own_os.Process.Pool.{free_task_stack}
use build_your_own_os.Process.Scheduler.{reap, cleanup_loop}
use build_your_own_os.Process.Scheduler.Ring.{Ring}
use build_your_own_os.Process.Scheduler.Add.{Removed, SameTasks, scheduler_remove_task-Removed}

abbrev pub IsTerminated : Tasks → ℕ → Type 0
IsTerminated t y = ((t y).state == terminated) ≡ true

abbrev pub IsAlive : Tasks → ℕ → Type 0
IsAlive t y = ((t y).state == terminated) ≡ false

-- Freeing a stack is no change of the tasks or the queue.
free_task_stack_queue :
    (k : Kernel) (p : Option ℕ) (size : ℕ)
    → ((free_task_stack k p size).tasks ≡ k.tasks)
      × ((free_task_stack k p size).ready_queue ≡ k.ready_queue)
      × ((free_task_stack k p size).num_tasks ≡ k.num_tasks)
      × ((free_task_stack k p size).current_task ≡ k.current_task)
unfolding free_task_stack
free_task_stack_queue k none size = (refl, refl, refl, refl)
free_task_stack_queue k (some p) size = ground arith

Removed-free_task_stack :
    (k k' : Kernel) (a b : ℕ) (bs : List ℕ) (p : Option ℕ) (size : ℕ)
    → Removed k a b bs k'
    → Removed k a b bs (free_task_stack k' p size)
Removed-free_task_stack k k' a b bs p size r =
    let same = free_task_stack_queue k' p size in
    record {
      ring = subst (λ t. Ring t b bs) (sym same.0) r.ring;
      same = subst (λ t. SameTasks k.tasks t) (sym same.0) r.same;
      head = λ h e. same.1 ∙ r.head h e;
      counted = same.2 ∙ r.counted;
      current = same.3 ∙ r.current;
    }

pub reap-Removed :
    (k : Kernel) (h a b : ℕ) (bs : List ℕ)
    → k.ready_queue ≡ some h
    → Ring k.tasks a (b ∷ bs)
    → IsTerminated k.tasks a
    → (k' : Kernel) × (reap k a ≡ ok k') × Removed k a b bs k'
unfolding reap
reap-Removed k h a b bs queued r dead =
    let (k', run, rem) = scheduler_remove_task-Removed k h a b bs queued r in
    (
      free_task_stack k' (k'.tasks a).stack_base (k'.tasks a).stack_size,
      rw (dead, run),
      Removed-free_task_stack k k' a b bs (k'.tasks a).stack_base (k'.tasks a).stack_size rem,
    )

pub reap-alive : (k : Kernel) (a : ℕ) → IsAlive k.tasks a → reap k a ≡ ok k
unfolding reap
reap-alive k a h = rw h

module _ (fuel : ℕ) (k k' : Kernel) (cur next start h : ℕ) (forth : (k.tasks cur).next ≡ some next)
    (done : reap k cur ≡ ok k') (queued : k'.ready_queue ≡ some h) where
  -- the loop goes on unless it is back at its start
  pub cleanup_loop-next :
      (next == start) ≡ false
      → cleanup_loop (suc fuel) k (some cur) start ≡ cleanup_loop fuel k' (some next) start
  unfolding cleanup_loop
  cleanup_loop-next far = ground arith

  pub cleanup_loop-end : (next == start) ≡ true → cleanup_loop (suc fuel) k (some cur) start ≡ ok k'
  unfolding cleanup_loop
  cleanup_loop-end back = ground arith
