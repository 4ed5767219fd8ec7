-- ===== src/Process/Scheduler/Pick.antt =====
-- `scheduler_pick_next_task` on a well-formed queue whose head is not terminated.
use build_your_own_os.Prelude.{
  ℕ, ◌+◌, ◌≤◌, ◌<◌, ◌≡◌, refl, ◌∙◌, sym, ap, subst, Option, none, some, List, [], ◌∷◌, ◌++◌, arith,
  length, length-append, All, All-map,
}
use mathlib.Core.List.{append-nil, append_assoc}
use build_your_own_os.Process.State.{Tasks, Kernel, ok, priority_idle}
use build_your_own_os.Process.Scheduler.{
  pick_loop, cleanup_terminated_tasks, scheduler_pick_next_task,
}
use build_your_own_os.Process.Scheduler.Ring.{Ring, Ring-rotate}
use build_your_own_os.Process.Scheduler.Add.{SameTasks, IsQueue, Queue}
use build_your_own_os.Process.Scheduler.Reap.{IsAlive}
use build_your_own_os.Process.Scheduler.Keep.{alive, Cleaned, cleanup_terminated_tasks-Cleaned}
use build_your_own_os.Process.Scheduler.Choice.{
  choose, Choice, kept, found, choose-Choice, pick_loop-choose, IsReady,
}

-- the ring through the tasks of the list, seen from its first
abbrev RingOf : Tasks → List ℕ → Type 0
RingOf t [] = Unit
RingOf t (x ∷ xs) = Ring t x xs

RingOf-turn : (t : Tasks) (x : ℕ) (xs : List ℕ) → RingOf t (x ∷ xs) → RingOf t (xs ++ x ∷ [])
RingOf-turn t x [] r = r
RingOf-turn t x (y ∷ xs) r = Ring-rotate t x y xs r

-- The ring seen from the task where the list is split.
RingOf-rotate : (t : Tasks) (xs ys : List ℕ) → RingOf t (xs ++ ys) → RingOf t (ys ++ xs)
RingOf-rotate t [] ys r = subst (λ zs. RingOf t zs) (sym (append-nil ys)) r
RingOf-rotate t (x ∷ xs) ys r =
    let turned =
      subst (λ zs. RingOf t zs) (append_assoc xs ys (x ∷ [])) (RingOf-turn t x (xs ++ ys) r) in
    subst (λ zs. RingOf t zs) (append_assoc ys (x ∷ []) xs)
      (RingOf-rotate t xs (ys ++ x ∷ []) turned)

-- The queue moved past its first task.
Queue-past :
    (k : Kernel) (b : ℕ) (bs : List ℕ)
    → Ring k.tasks b bs
    → Queue (record k { ready_queue = (k.tasks b).next }) (bs ++ b ∷ [])
Queue-past k b [] r = (r.closed.forth, r)
Queue-past k b (c ∷ bs) r = (r.chain.0.forth, Ring-rotate k.tasks b c bs r)

-- The task `b` of the queue `xs` is picked, or nothing is.
pub data Picked (k : Kernel) (xs : List ℕ) (r : Option ℕ × Kernel) : Type 0 where
  picked :
      (pre post : List ℕ) (b : ℕ) (k' : Kernel)
      → r ≡ (some b, k')
      → xs ≡ pre ++ b ∷ post
      → IsReady k.tasks b
      → (k.tasks b).priority ≤ priority_idle
      → All (λ y. IsReady k.tasks y → (k.tasks b).priority < (k.tasks y).priority) pre
      → All (λ y. IsReady k.tasks y → (k.tasks b).priority ≤ (k.tasks y).priority) post
      → Cleaned k ((post ++ pre) ++ b ∷ []) k'
      → Picked k xs r
  idle :
      (k' : Kernel)
      → r ≡ (none, k')
      → All (λ y. IsReady k.tasks y → priority_idle < (k.tasks y).priority) xs
      → Cleaned k xs k'
      → Picked k xs r

choose-cong :
    (t t' : Tasks) (xs : List ℕ) (best : Option ℕ) (p : ℕ)
    → SameTasks t t'
    → choose t' xs best p ≡ choose t xs best p
unfolding choose
choose-cong t t' [] best p s = refl
choose-cong t t' (x ∷ xs) best p s = rw ((s x).state, (s x).priority) (choose-cong t t' xs _ _ s)

-- the search on a queue
pick_loop-queue :
    (k : Kernel) (h : ℕ) (bs : List ℕ)
    → IsQueue k (h ∷ bs)
    → pick_loop (k.num_tasks + 1) k.tasks h h none (priority_idle + 1)
      ≡ ok (choose k.tasks (h ∷ bs) none (priority_idle + 1))
pick_loop-queue k h bs q =
    let r = q.links.1 in
    pick_loop-choose (k.num_tasks + 1) k.tasks h h bs none (priority_idle + 1) r.chain r.closed
      r.distinct.0 (omega (arith, q.counted))

-- what is returned once the search is done
after : Kernel → Option ℕ → Option ℕ × Kernel
after k none = (none, k)
after k (some b) = (some b, record k { ready_queue = (k.tasks b).next })

scheduler_pick_next_task-after :
    (k k1 : Kernel) (h : ℕ) (best : Option ℕ)
    → cleanup_terminated_tasks k ≡ ok k1
    → k1.ready_queue ≡ some h
    → pick_loop (k1.num_tasks + 1) k1.tasks h h none (priority_idle + 1) ≡ ok best
    → scheduler_pick_next_task k ≡ ok (after k1 best)
unfolding scheduler_pick_next_task after
scheduler_pick_next_task-after k k1 h none clean queued search = ground arith
scheduler_pick_next_task-after k k1 h (some b) clean queued search = ground arith

Queue-RingOf : (k : Kernel) (xs : List ℕ) → Queue k xs → RingOf k.tasks xs
Queue-RingOf k [] q = tt
Queue-RingOf k (x ∷ xs) q = q.1

Cleaned-past :
    (k k1 : Kernel) (pre post : List ℕ) (b : ℕ)
    → Cleaned k (pre ++ b ∷ post) k1
    → Cleaned k ((post ++ pre) ++ b ∷ []) (record k1 { ready_queue = (k1.tasks b).next })
Cleaned-past k k1 pre post b c =
    let whole = Queue-RingOf k1 (pre ++ b ∷ post) c.queue.links in
    let counts : length ((post ++ pre) ++ b ∷ []) ≡ length (pre ++ b ∷ post) = omega (
      arith,
      length-append (post ++ pre) (b ∷ []),
      length-append post pre,
      length-append pre (b ∷ post),
    ) in
    record {
      queue = record {
        links = Queue-past k1 b (post ++ pre) (RingOf-rotate k1.tasks pre (b ∷ post) whole);
        counted = c.queue.counted ∙ sym counts;
        few = omega (arith, counts, c.queue.few);
      };
      same = c.same;
      current = c.current;
    }

-- The search on the queue `xs` that the cleanup left.
after-Picked :
    (k k1 : Kernel) (xs : List ℕ) (best : Option ℕ)
    → Cleaned k xs k1
    → Choice k.tasks xs none (priority_idle + 1) best
    → Picked k xs (after k1 best)
unfolding after
after-Picked k k1 xs best c (kept e none_ready) =
    rw e (idle k1 refl (All-map _ _ xs (λ y f here. omega (arith, f here)) none_ready) c)
after-Picked k k1 xs best c (found pre post b e split here less before behind) = rw e (
    picked pre post b (record k1 { ready_queue = (k1.tasks b).next }) refl split here (omega arith)
      before behind (Cleaned-past k k1 pre post b (subst (λ zs. Cleaned k zs k1) split c)))

-- If the task at the head of the queue is not terminated, `scheduler_pick_next_task` ends. Terminated
-- tasks leave the queue. Of the others it returns the first ready one of the best priority, and moves
-- the queue past it, so that this task comes last; it returns NULL, and leaves the queue in its
-- order, only if no task is ready with a priority of at most PRIORITY_IDLE.
pub scheduler_pick_next_task-Picked :
    (k : Kernel) (h : ℕ) (bs : List ℕ)
    → IsQueue k (h ∷ bs)
    → IsAlive k.tasks h
    → (r : Option ℕ × Kernel) × (scheduler_pick_next_task k ≡ ok r)
      × Picked k (alive k.tasks (h ∷ bs)) r
unfolding alive
scheduler_pick_next_task-Picked k h bs q live =
    let (k1, clean, c) = cleanup_terminated_tasks-Cleaned k h bs q live in
    let xs : List ℕ = h ∷ alive k.tasks bs in
    let c' : Cleaned k xs k1 = rw live at c in
    let best : Option ℕ = choose k.tasks xs none (priority_idle + 1) in
    let search =
      pick_loop-queue k1 h (alive k.tasks bs) c'.queue
      ∙ ap ok (choose-cong k.tasks k1.tasks xs none (priority_idle + 1) c'.same) in
    (
      after k1 best,
      scheduler_pick_next_task-after k k1 h best clean c'.queue.links.0 search,
      rw live (after-Picked k k1 xs best c' (choose-Choice k.tasks xs none (priority_idle + 1))),
    )
