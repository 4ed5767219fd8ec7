-- ===== src/Process/Api/Tick.antt =====
-- `scheduler_tick` and the calls that force it: `process_yield`, `process_sleep`, `process_exit`.
use build_your_own_os.Prelude.{
  ℕ, zero, suc, ◌≡◌, refl, ◌≢◌, ◌∙◌, sym, ap, subst, false, Option, none, some, List, ◌∷◌, arith,
  ◌==◌, Bool-cases, Option-cases, inl, inr,
}
use build_your_own_os.Process.State.{
  Kernel, ready, running, blocked, terminated, Run, ok, set_state,
}
use build_your_own_os.Process.Scheduler.{scheduler_tick, scheduler_pick_next_task, switch_if}
use build_your_own_os.Process.Scheduler.Add.{IsQueue}
use build_your_own_os.Process.Scheduler.Reap.{IsAlive}
use build_your_own_os.Process.Scheduler.Keep.{alive}
use build_your_own_os.Process.Scheduler.Pick.{scheduler_pick_next_task-Picked}
use build_your_own_os.Process.Api.{process_yield, process_sleep, process_exit, end_task}
use build_your_own_os.Process.Api.Keep.{IsQueue-frame}
use build_your_own_os.Process.Api.Exclusive.{
  IsExclusive, IsScheduled, scheduler_switch_to_task-IsScheduled, reschedule-IsScheduled,
  Picked-IsScheduled, ticked, charged, expired, scheduler_tick-none, scheduler_tick-expired,
  scheduler_tick-charged,
}

-- The queue has a task at its head that is not terminated, and only the current task is RUNNING.
pub record IsReadyToTick (k : Kernel) (h : ℕ) (bs : List ℕ) : Type 0 where
  pub queue : IsQueue k (h ∷ bs)
  pub live : IsAlive k.tasks h
  pub exclusive : IsExclusive k

-- the run ends in a kernel that is scheduled
abbrev pub EndsScheduled : Run Kernel → Type 0
EndsScheduled r = (k' : Kernel) × (r ≡ ok k') × IsScheduled k'

IsReadyToTick-charged :
    (k : Kernel) (now current h : ℕ) (bs : List ℕ)
    → IsReadyToTick k h bs
    → IsReadyToTick (charged k now current) h bs
unfolding charged
IsReadyToTick-charged k now current h bs s = record {
  queue = IsQueue-frame k _ (h ∷ bs) refl refl (λ y inside. ground arith) s.queue;
  live = ground (arith, s.live);
  exclusive = λ y runs. s.exclusive y (ground arith);
}

switch_if-IsScheduled :
    (k : Kernel) (now : ℕ) (task : Option ℕ) → IsScheduled k → IsScheduled (switch_if k now task)
switch_if-IsScheduled k now none s = s
switch_if-IsScheduled k now (some task) s = scheduler_switch_to_task-IsScheduled k now task s

-- A pick from a queue that is ready gives a kernel that is scheduled.
pick-IsScheduled :
    (k : Kernel) (h : ℕ) (bs : List ℕ)
    → IsReadyToTick k h bs
    → (r : Option ℕ × Kernel) × (scheduler_pick_next_task k ≡ ok r) × IsScheduled r.1
pick-IsScheduled k h bs s =
    let (r, run, p) = scheduler_pick_next_task-Picked k h bs s.queue s.live in
    (r, run, Picked-IsScheduled k (alive k.tasks (h ∷ bs)) r s.exclusive p)

-- A tick on a queue whose head is not terminated ends: the queue is again a ring of tasks that it
-- counts, and still no task but the current one is RUNNING.
pub scheduler_tick-IsScheduled :
    (k : Kernel) (now h : ℕ) (bs : List ℕ)
    → IsReadyToTick k h bs
    → EndsScheduled (scheduler_tick k now)
unfolding ticked
scheduler_tick-IsScheduled k now h bs s = elim (Option-cases k.current_task) [
  | inl no_task ↦
      let (r, run, s') = pick-IsScheduled (ticked k now) h bs (record {
        queue = IsQueue-frame k _ (h ∷ bs) refl refl (λ y i. (refl, refl)) s.queue;
        live = s.live;
        exclusive = s.exclusive;
      }) in
      (_, scheduler_tick-none k now r no_task run, switch_if-IsScheduled r.1 now r.0 s')
  | inr (current, e) ↦ elim (Bool-cases (expired k now current)) [
    | inl over ↦
        let (r, run, s') =
          pick-IsScheduled (charged k now current) h bs
            (IsReadyToTick-charged k now current h bs s) in
        (
          _,
          scheduler_tick-expired k now current r e over run,
          reschedule-IsScheduled r.1 now current r.0 s',
        )
    | inr time_left ↦
        let s' = IsReadyToTick-charged k now current h bs s in
        (
          _,
          scheduler_tick-charged k now current e time_left,
          record { queue = (h ∷ bs, s'.queue); exclusive = s'.exclusive },
        )
  ]
]

IsReadyToTick-end_task :
    (k : Kernel) (current code h : ℕ) (bs : List ℕ)
    → (h == current) ≡ false
    → IsReadyToTick k h bs
    → IsReadyToTick (record k { tasks = end_task k.tasks current code }) h bs
IsReadyToTick-end_task k current code h bs apart s = record {
  queue = IsQueue-frame k _ (h ∷ bs) refl refl (λ y inside. ground arith) s.queue;
  live = ground (arith, s.live);
  exclusive = λ y runs. s.exclusive y (ground arith);
}

IsReadyToTick-set_state :
    (k : Kernel) (current state h : ℕ) (bs : List ℕ)
    → (state == terminated) ≡ false
    → (state == running) ≡ false
    → IsReadyToTick k h bs
    → IsReadyToTick (record k { tasks = set_state k.tasks current state }) h bs
IsReadyToTick-set_state k current state h bs here quiet s = record {
  queue = IsQueue-frame k _ (h ∷ bs) refl refl (λ y inside. ground arith) s.queue;
  live = ground (arith, s.live);
  exclusive = λ y runs. s.exclusive y (ground arith);
}

ends : (r r' : Run Kernel) → r ≡ r' → EndsScheduled r' → EndsScheduled r
ends r r' e t = subst (λ q. EndsScheduled q) (sym e) t

module _ (k : Kernel) (now h : ℕ) (bs : List ℕ) (s : IsReadyToTick k h bs) where
  unmoved : EndsScheduled (ok k)
  unmoved = (k, refl, record { queue = (h ∷ bs, s.queue); exclusive = s.exclusive })

  -- `process_exit` of a task that is not at the head of the queue ends, as a tick does: the queue is a
  -- ring of tasks that it counts, and no task but the current one is RUNNING.
  pub process_exit-IsScheduled :
      (code : ℕ) → k.current_task ≢ some h → EndsScheduled (process_exit k now code)
  unfolding process_exit
  process_exit-IsScheduled code apart = elim (Option-cases k.current_task) [
    | inl e ↦ ends _ (ok k) (ground arith) unmoved
    | inr (c, e) ↦
        let far : (h == c) ≡ false = elim (Bool-cases (h == c)) [
          | inl same ↦ let e' : c ≡ h = ground arith in absurd (apart (e ∙ ap some e'))
          | inr ne ↦ ne
        ] in
        ends _ (scheduler_tick (record k { tasks = end_task k.tasks c code }) now) (ground arith)
          (scheduler_tick-IsScheduled _ now h bs (IsReadyToTick-end_task k c code h bs far s))
  ]

  -- `process_yield` ends, as a tick does, whichever task is current.
  pub process_yield-IsScheduled : EndsScheduled (process_yield k now)
  unfolding process_yield
  process_yield-IsScheduled = elim (Option-cases k.current_task) [
    | inl e ↦ ends _ (ok k) (ground arith) unmoved
    | inr (c, e) ↦
        ends _ (scheduler_tick (record k { tasks = set_state k.tasks c ready }) now) (ground arith)
          (scheduler_tick-IsScheduled _ now h bs
            (IsReadyToTick-set_state k c ready h bs refl refl s))
  ]

  -- So does `process_sleep`.
  pub process_sleep-IsScheduled : (ticks : ℕ) → EndsScheduled (process_sleep k now ticks)
  unfolding process_sleep
  process_sleep-IsScheduled zero = elim (Option-cases k.current_task) [
    | inl e ↦ ends _ (ok k) (ground arith) unmoved
    | inr (c, e) ↦ ends _ (ok k) (ground arith) unmoved
  ]
  process_sleep-IsScheduled (suc ticks) = elim (Option-cases k.current_task) [
    | inl e ↦ ends _ (ok k) (ground arith) unmoved
    | inr (c, e) ↦
        ends _ (scheduler_tick (record k { tasks = set_state k.tasks c blocked }) now)
          (ground arith)
          (scheduler_tick-IsScheduled _ now h bs
            (IsReadyToTick-set_state k c blocked h bs refl refl s))
  ]
