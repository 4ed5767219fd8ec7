-- ===== src/Process/Scheduler/Add.antt =====
-- `scheduler_add_task` and `scheduler_remove_task` on a well-formed queue.
use build_your_own_os.Prelude.{
  ℕ, ◌+◌, ◌-◌, ◌%◌, ◌^◌, ◌<◌, ◌≡◌, refl, ◌∙◌, false, Option, none, some, List, [], ◌∷◌, ◌++◌, arith,
  ◌==◌, if◌then◌else◌, length, length-append,
}
use build_your_own_os.Process.State.{Task, Tasks, Kernel, ok, set_next, set_prev}
use build_your_own_os.Process.Scheduler.{
  scheduler_add_task, scheduler_remove_task, clear_links, link_in, link_out,
}
use build_your_own_os.Process.Scheduler.Ring.{
  Ring, has, last, Ring-frame, Ring-link_in, Ring-link_out,
}

-- the tasks of the queue in order, from `ready_queue` on
abbrev pub Queue : Kernel → List ℕ → Type 0
Queue k [] = k.ready_queue ≡ none
Queue k (a ∷ bs) = (k.ready_queue ≡ some a) × Ring k.tasks a bs

-- The links of a queue and the counter of its tasks.
pub record IsQueue (k : Kernel) (xs : List ℕ) : Type 0 where
  pub links : Queue k xs
  pub counted : k.num_tasks ≡ length xs
  pub few : length xs < 2 ^ 31

-- The fields that the queue operations do not write.
pub record SameTask (x y : Task) : Type 0 where
  pub pid : y.pid ≡ x.pid
  pub state : y.state ≡ x.state
  pub priority : y.priority ≡ x.priority
  pub stack_base : y.stack_base ≡ x.stack_base
  pub stack_size : y.stack_size ≡ x.stack_size

abbrev pub SameTasks : Tasks → Tasks → Type 0
SameTasks t t' = (y : ℕ) → SameTask (t y) (t' y)

pub SameTasks-refl : (t : Tasks) → SameTasks t t
SameTasks-refl t y = record {
  pid = refl;
  state = refl;
  priority = refl;
  stack_base = refl;
  stack_size = refl;
}

pub SameTasks-trans : (t u v : Tasks) → SameTasks t u → SameTasks u v → SameTasks t v
SameTasks-trans t u v p q y = record {
  pid = (q y).pid ∙ (p y).pid;
  state = (q y).state ∙ (p y).state;
  priority = (q y).priority ∙ (p y).priority;
  stack_base = (q y).stack_base ∙ (p y).stack_base;
  stack_size = (q y).stack_size ∙ (p y).stack_size;
}

module _ {t : Tasks} (t' : Tasks) where
  SameTasks-set_next : (p : ℕ) (v : Option ℕ) → SameTasks t t' → SameTasks t (set_next t' p v)
  SameTasks-set_next p v s y = ground (arith, s y)

  SameTasks-set_prev : (p : ℕ) (v : Option ℕ) → SameTasks t t' → SameTasks t (set_prev t' p v)
  SameTasks-set_prev p v s y = ground (arith, s y)

SameTasks-clear : {t : Tasks} (t' : Tasks) (p : ℕ) → SameTasks t t' → SameTasks t (clear_links t' p)
SameTasks-clear t' p s =
    SameTasks-set_prev (set_next t' p none) p none (SameTasks-set_next t' p none s)

pub SameTasks-clear_links : (t : Tasks) (p : ℕ) → SameTasks t (clear_links t p)
SameTasks-clear_links t p = SameTasks-clear t p (λ y. record {
  pid = refl;
  state = refl;
  priority = refl;
  stack_base = refl;
  stack_size = refl;
})

SameTasks-link_in : (t t' : Tasks) (n a l : ℕ) → SameTasks t t' → SameTasks t (link_in t' n a l)
SameTasks-link_in t t' n a l s =
    let t1 = set_next t' n (some a) in
    let t2 = set_prev t1 n (some l) in
    SameTasks-set_prev (set_next t2 l (some n)) a (some n) (
      SameTasks-set_next t2 l (some n)
        (SameTasks-set_prev t1 n (some l) (SameTasks-set_next t' n (some a) s)))

pub SameTasks-removed : (t : Tasks) (p l b : ℕ) → SameTasks t (clear_links (link_out t p l b) p)
SameTasks-removed t p l b = SameTasks-clear (link_out t p l b) p (
    SameTasks-set_prev (set_next t l (some b)) b (some l) (
      SameTasks-set_next t l (some b) (λ y. record {
        pid = refl;
        state = refl;
        priority = refl;
        stack_base = refl;
        stack_size = refl;
      })))

-- A task that is not in the queue goes to its end; the others keep their order, and no state or
-- priority changes.
pub record Added (k : Kernel) (xs : List ℕ) (n : ℕ) (k' : Kernel) : Type 0 where
  pub queue : IsQueue k' (xs ++ n ∷ [])
  pub same : SameTasks k.tasks k'.tasks
  pub current : k'.current_task ≡ k.current_task
  pub slots : k'.task_pool_bitmap ≡ k.task_pool_bitmap
  pub stacks : k'.stack_pool_bitmap ≡ k.stack_pool_bitmap
  pub pids : k'.next_pid ≡ k.next_pid

pub scheduler_add_task-Added :
    (k : Kernel) (xs : List ℕ) (n : ℕ)
    → IsQueue k xs
    → has n xs ≡ false
    → length xs + 1 < 2 ^ 31
    → (k' : Kernel) × (scheduler_add_task k n ≡ ok k') × Added k xs n k'
unfolding scheduler_add_task
scheduler_add_task-Added k [] n q out room =
    let bare = clear_links k.tasks n in
    (
      record k {
        tasks = set_prev (set_next bare n (some n)) n (some n);
        ready_queue = some n;
        num_tasks = (k.num_tasks + 1) % 2 ^ 32;
      },
      ground (arith, q.links),
      record {
        queue = record {
          links = (
            refl,
            record {
              chain = tt;
              closed = record { forth = ground arith; back = ground arith };
              distinct = (refl, tt);
            },
          );
          counted = omega (arith, q.counted);
          few = omega arith;
        };
        same =
            SameTasks-set_prev (set_next bare n (some n)) n (some n)
              (SameTasks-set_next bare n (some n) (SameTasks-clear_links k.tasks n));
        current = refl;
        slots = refl;
        stacks = refl;
        pids = refl;
      },
    )
scheduler_add_task-Added k (a ∷ bs) n q out room =
    let bare = clear_links k.tasks n in
    let r : Ring bare a bs = Ring-frame k.tasks bare a bs (λ y h. ground arith) q.links.1 in
    let tail : (bare a).prev ≡ some (last a bs) = r.closed.back in
    let r' = Ring-link_in bare a n bs r out in
    (
      record k { tasks = link_in bare n a (last a bs); num_tasks = (k.num_tasks + 1) % 2 ^ 32 },
      ground (arith, q.links.0, tail),
      record {
        queue = record {
          links = (q.links.0, r');
          counted = omega (arith, q.counted, length-append bs (n ∷ []));
          few = omega (arith, length-append bs (n ∷ []));
        };
        same = SameTasks-link_in k.tasks bare n a (last a bs) (SameTasks-clear_links k.tasks n);
        current = refl;
        slots = refl;
        stacks = refl;
        pids = refl;
      },
    )

-- What taking task `a` out of the ring `a ∷ b ∷ bs` leaves, whichever task of the ring is the head.
pub record Removed (k : Kernel) (a b : ℕ) (bs : List ℕ) (k' : Kernel) : Type 0 where
  pub ring : Ring k'.tasks b bs
  pub same : SameTasks k.tasks k'.tasks
  pub head : (h : ℕ) → k.ready_queue ≡ some h → k'.ready_queue ≡ (if h == a then some b else some h)
  pub counted : k'.num_tasks ≡ (k.num_tasks + 2 ^ 32 - 1) % 2 ^ 32
  pub current : k'.current_task ≡ k.current_task

pub scheduler_remove_task-Removed :
    (k : Kernel) (h a b : ℕ) (bs : List ℕ)
    → k.ready_queue ≡ some h
    → Ring k.tasks a (b ∷ bs)
    → (k' : Kernel) × (scheduler_remove_task k a ≡ ok k') × Removed k a b bs k'
unfolding scheduler_remove_task
scheduler_remove_task-Removed k h a b bs queued r =
    let forth : (k.tasks a).next ≡ some b = r.chain.0.forth in
    let back : (k.tasks a).prev ≡ some (last b bs) = r.closed.back in
    let apart : (b == a) ≡ false = ground (arith, r.distinct.0) in
    (
      record k {
        tasks = clear_links (link_out k.tasks a (last b bs) b) a;
        ready_queue = if h == a then some b else some h;
        num_tasks = (k.num_tasks + 2 ^ 32 - 1) % 2 ^ 32;
      },
      ground arith,
      record {
        ring = Ring-link_out k.tasks a b bs r;
        same = SameTasks-removed k.tasks a (last b bs) b;
        head = λ g e. ground arith;
        counted = refl;
        current = refl;
      },
    )
