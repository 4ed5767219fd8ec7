-- ===== src/Process/Api/Create.antt =====
-- `process_create`: the new process, or why there is none.
use build_your_own_os.Prelude.{
  ℕ, ◌+◌, ◌*◌, ◌%◌, ◌^◌, ◌<◌, ◌≡◌, refl, ◌∙◌, ap, true, false, ◌||◌, none, some, List, [], ◌∷◌,
  ◌++◌, arith, ltb, ◌==◌, has_bit, with_bit, without_bit, has_bit-with_bit, has_bit-without_bit,
  Bool-cases, inl, inr, length,
}
use build_your_own_os.Process.State.{Kernel, max_tasks, task_stack_size, ready, Run, ok, put}
use build_your_own_os.Process.Pool.{
  first_clear, allocate_task, free_task, allocate_task_stack, zero_task,
}
use build_your_own_os.Process.Pool.Laws.{full, slot, first_clear-Lowest}
use build_your_own_os.Process.Scheduler.Ring.{has, has-append}
use build_your_own_os.Process.Scheduler.Add.{IsQueue, SameTask, Added, scheduler_add_task-Added}
use build_your_own_os.Process.Api.{process_create, start_task, new_task, minus_one}
use build_your_own_os.Process.Api.Keep.{IsPooled, IsQueue-frame, SameLinks-put}

-- Every slot that the bitmap has is in use.
abbrev pub AllUsed : ℕ → Type 0
AllUsed bitmap = (j : ℕ) → j < max_tasks → has_bit bitmap j ≡ true

-- A new process in slot `s`, with the stack of slot `i`, at the end of the queue.
pub record Created (k : Kernel) (xs : List ℕ) (s i priority : ℕ) (k' : Kernel) : Type 0 where
  pub pooled : IsPooled k' (xs ++ s ∷ [])
  pub pid : (k'.tasks s).pid ≡ k.next_pid
  pub state : (k'.tasks s).state ≡ ready
  pub prior : (k'.tasks s).priority ≡ priority
  pub stack_base : (k'.tasks s).stack_base ≡ some (i * task_stack_size)
  pub others : (y : ℕ) → (s == y) ≡ false → SameTask (k.tasks y) (k'.tasks y)
  pub slots : (j : ℕ) → has_bit k'.task_pool_bitmap j ≡ ((s == j) || has_bit k.task_pool_bitmap j)
  pub stacks :
      (j : ℕ) → has_bit k'.stack_pool_bitmap j ≡ ((i == j) || has_bit k.stack_pool_bitmap j)
  pub next_pid : k'.next_pid ≡ (k.next_pid + 1) % 2 ^ 32

-- what `process_create` gives
pub data Creation (k : Kernel) (xs : List ℕ) (priority : ℕ) (r : Run (ℕ × Kernel)) : Type 0 where
  no_slot : r ≡ ok (minus_one, k) → AllUsed k.task_pool_bitmap → Creation k xs priority r
  no_stack :
      (k' : Kernel)
      → r ≡ ok (minus_one, k')
      → AllUsed k.stack_pool_bitmap
      → IsPooled k' xs
      → ((y : ℕ) → has y xs ≡ true → k'.tasks y ≡ k.tasks y)
      → ((j : ℕ) → j < max_tasks → has_bit k'.task_pool_bitmap j ≡ has_bit k.task_pool_bitmap j)
      → Creation k xs priority r
  created :
      (s i : ℕ) (k' : Kernel)
      → r ≡ ok (k.next_pid, k')
      → s < max_tasks
      → has_bit k.task_pool_bitmap s ≡ false
      → i < max_tasks
      → has_bit k.stack_pool_bitmap i ≡ false
      → Created k xs s i priority k'
      → Creation k xs priority r

-- A free slot is not in the queue.
fresh :
    (k : Kernel) (xs : List ℕ) (s : ℕ)
    → IsPooled k xs
    → has_bit k.task_pool_bitmap s ≡ false
    → has s xs ≡ false
fresh k xs s p free = elim (Bool-cases (has s xs)) [
  | inl inside ↦ absurd (ground (arith, p.inside s inside))
  | inr out ↦ out
]

IsPooled-snoc :
    (k k' : Kernel) (xs : List ℕ) (s : ℕ)
    → IsPooled k xs
    → s < max_tasks
    → ((j : ℕ) → has_bit k'.task_pool_bitmap j ≡ ((s == j) || has_bit k.task_pool_bitmap j))
    → IsQueue k' (xs ++ s ∷ [])
    → IsPooled k' (xs ++ s ∷ [])
IsPooled-snoc k k' xs s p low bits q = record {
  queue = q;
  inside = λ y h. elim (Bool-cases (s == y)) [
    | inl same ↦ let e : y ≡ s = ground arith in (rw e low, bits y ∙ rw same)
    | inr apart ↦
        let within : has y xs ≡ true = ground (arith, h, has-append y xs (s ∷ [])) in
        ((p.inside y within).0, ground (arith, bits y, p.inside y within))
  ];
}

module _ (k : Kernel) (xs : List ℕ) (s i priority slots stacks : ℕ) (name : List ℕ)
    (p : IsPooled k xs) (low : s < max_tasks) (free : has_bit k.task_pool_bitmap s ≡ false)
    (room : length xs + 1 < 2 ^ 31) (short : length name < 31)
    (slot_bits : (j : ℕ) → has_bit slots j ≡ ((s == j) || has_bit k.task_pool_bitmap j))
    (stack_bits : (j : ℕ) → has_bit stacks j ≡ ((i == j) || has_bit k.stack_pool_bitmap j)) where
  -- what `process_create` hands to the scheduler
  given : Kernel
  given = record k {
    tasks = put k.tasks s (new_task k (k.tasks s) name priority (i * task_stack_size));
    next_pid = (k.next_pid + 1) % 2 ^ 32;
    task_pool_bitmap = slots;
    stack_pool_bitmap = stacks;
  }

  Added-Created : (k' : Kernel) → Added given xs s k' → Created k xs s i priority k'
  unfolding given
  Added-Created k' a =
      let own = a.same s in
      record {
        pooled =
            IsPooled-snoc k k' xs s p low (λ j. ap (λ w. has_bit w j) a.slots ∙ slot_bits j)
              a.queue;
        pid = own.pid ∙ ground arith;
        state = own.state ∙ ground arith;
        prior = own.priority ∙ ground arith;
        stack_base = own.stack_base ∙ ground arith;
        others = λ y apart. rw apart at (a.same y);
        slots = λ j. ap (λ w. has_bit w j) a.slots ∙ slot_bits j;
        stacks = λ j. ap (λ w. has_bit w j) a.stacks ∙ stack_bits j;
        next_pid = a.pids;
      }

  start_task-Created :
      (k' : Kernel) × (start_task
          (record k { task_pool_bitmap = slots; stack_pool_bitmap = stacks })
          s
          (i * task_stack_size)
          name
          priority
        ≡ ok (k.next_pid, k'))
      × Created k xs s i priority k'
  unfolding start_task given
  start_task-Created =
      let out = fresh k xs s p free in
      let q : IsQueue given xs =
        IsQueue-frame k given xs refl refl (SameLinks-put k s _ xs out) p.queue in
      let (k', run, a) = scheduler_add_task-Added given xs s q out room in
      let c = Added-Created k' a in
      let fits : ltb (length name) 31 ≡ true = ground arith in (k', rw (fits, run, c.pid), c)

-- Setting a bit that was clear and clearing it again changes nothing.
has_bit-back :
    (w s j : ℕ)
    → has_bit w s ≡ false
    → s < max_tasks
    → j < max_tasks
    → has_bit (without_bit max_tasks (with_bit w s) s) j ≡ has_bit w j
has_bit-back w s j free low h =
    rw (has_bit-without_bit max_tasks (with_bit w s) s j low h, has_bit-with_bit w s j)
      (elim (Bool-cases (s == j)) [
        | inl same ↦ let e : j ≡ s = ground arith in rw (e, free) (ground arith)
        | inr apart ↦ rw apart
      ])

-- What is in a list differs from what is not.
pub outside : (xs : List ℕ) (s y : ℕ) → has s xs ≡ false → has y xs ≡ true → (s == y) ≡ false
outside xs s y out inside = elim (Bool-cases (s == y)) [
  | inl same ↦ let e : s ≡ y = ground arith in absurd (let gone = rw e at out in ground arith)
  | inr apart ↦ apart
]

module _ (k : Kernel) (entry : ℕ) (name : List ℕ) (priority : ℕ) where
  process_create-full :
      first_clear max_tasks k.task_pool_bitmap 0 ≡ none
      → process_create k (some entry) (some name) priority ≡ ok (minus_one, k)
  unfolding process_create allocate_task
  process_create-full e = ground arith

  process_create-stackless :
      (s : ℕ)
      → first_clear max_tasks k.task_pool_bitmap 0 ≡ some s
      → first_clear max_tasks k.stack_pool_bitmap 0 ≡ none
      → process_create k (some entry) (some name) priority
        ≡ ok (
          minus_one,
          free_task (record k { task_pool_bitmap = with_bit k.task_pool_bitmap s }) (some s),
        )
  unfolding process_create allocate_task allocate_task_stack
  process_create-stackless s e e' = ground arith

  process_create-start :
      (s i : ℕ)
      → first_clear max_tasks k.task_pool_bitmap 0 ≡ some s
      → first_clear max_tasks k.stack_pool_bitmap 0 ≡ some i
      → process_create k (some entry) (some name) priority
        ≡ start_task
            (record k {
              task_pool_bitmap = with_bit k.task_pool_bitmap s;
              stack_pool_bitmap = with_bit k.stack_pool_bitmap i;
            })
            s
            (i * task_stack_size)
            name
            priority
  unfolding process_create allocate_task allocate_task_stack
  process_create-start s i e e' = ground arith

  -- the slot goes back when there is no stack
  Creation-stackless :
      (xs : List ℕ) (s : ℕ)
      → IsPooled k xs
      → s < max_tasks
      → has_bit k.task_pool_bitmap s ≡ false
      → first_clear max_tasks k.task_pool_bitmap 0 ≡ some s
      → first_clear max_tasks k.stack_pool_bitmap 0 ≡ none
      → AllUsed k.stack_pool_bitmap
      → Creation k xs priority (process_create k (some entry) (some name) priority)
  unfolding free_task
  Creation-stackless xs s p low free e e' all_used =
      let k' = record k {
        task_pool_bitmap = without_bit 32 (with_bit k.task_pool_bitmap s) s;
        tasks = put k.tasks s zero_task;
      } in
      let out = fresh k xs s p free in
      let bits : (j : ℕ)
          → j < max_tasks
          → has_bit k'.task_pool_bitmap j ≡ has_bit k.task_pool_bitmap j =
        λ j h. has_bit-back k.task_pool_bitmap s j free low h in
      no_stack k' (process_create-stackless s e e' ∙ ground arith) all_used
        (record {
          queue = IsQueue-frame k k' xs refl refl (SameLinks-put k s zero_task xs out) p.queue;
          inside = λ y h. ((p.inside y h).0, bits y (p.inside y h).0 ∙ (p.inside y h).1);
        })
        (λ y h. rw (outside xs s y out h)) bits

  -- `process_create` with an entry point and a name of at most 30 bytes, on a queue of tasks of the
  -- pool with room in its counter: it ends. It returns -1 only if every task slot, or every stack, is in
  -- use, and then the queue, the tasks in it and the slots in use are as before. Otherwise the process
  -- gets the next PID, a slot and a stack that were free and are now taken, the priority asked for, the
  -- state READY, and the last place in the queue; the other tasks keep their states and priorities.
  pub process_create-Creation :
      (xs : List ℕ)
      → IsPooled k xs
      → length xs + 1 < 2 ^ 31
      → length name < 31
      → Creation k xs priority (process_create k (some entry) (some name) priority)
  process_create-Creation xs p room short =
      elim (first_clear-Lowest max_tasks k.task_pool_bitmap 0) [
        | full e all ↦ no_slot (process_create-full e) (λ j h. all j (omega arith) h)
        | slot s e low free before ↦ elim (first_clear-Lowest max_tasks k.stack_pool_bitmap 0) [
          | full e' all ↦ Creation-stackless xs s p low free e e' (λ j h. all j (omega arith) h)
          | slot i e' low' free' before' ↦
              let (k', run, c) =
                start_task-Created k xs s i priority (with_bit k.task_pool_bitmap s)
                  (with_bit k.stack_pool_bitmap i) name p low free room short
                  (has_bit-with_bit k.task_pool_bitmap s)
                  (has_bit-with_bit k.stack_pool_bitmap i) in
              created s i k' (process_create-start s i e e' ∙ run) low free low' free' c
        ]
      ]
