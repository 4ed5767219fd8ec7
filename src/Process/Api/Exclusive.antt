-- ===== src/Process/Api/Exclusive.antt =====
-- At most one task is RUNNING, and it is the current one: kept by every tick.
use build_your_own_os.Prelude.{
  ℕ, ◌+◌, ◌%◌, ◌^◌, ◌≡◌, refl, ◌≢◌, ◌∙◌, sym, ap, Bool, true, false, ◌||◌, not, Option, none, some,
  List, [], ◌∷◌, ◌++◌, arith, ◌==◌, Bool-cases, inl, inr,
}
use build_your_own_os.Process.State.{Tasks, Kernel, running, ok, put}
use build_your_own_os.Process.Scheduler.{
  scheduler_tick, scheduler_pick_next_task, scheduler_switch_to_task, reschedule, charge, eq_ptr,
  demote, dispatch, switch_if,
}
use build_your_own_os.Process.Scheduler.Add.{IsQueue}
use build_your_own_os.Process.Scheduler.Keep.{Cleaned}
use build_your_own_os.Process.Scheduler.Pick.{Picked, picked, idle}
use build_your_own_os.Process.Api.Keep.{IsQueue-frame}

-- Only the current task is RUNNING.
abbrev pub IsExclusive : Kernel → Type 0
IsExclusive k = (y : ℕ) → (k.tasks y).state ≡ running → k.current_task ≡ some y

-- The tasks of the queue are in a ring, and only the current task is RUNNING.
pub record IsScheduled (k : Kernel) : Type 0 where
  pub queue : (xs : List ℕ) × IsQueue k xs
  pub exclusive : IsExclusive k

IsScheduled-Cleaned :
    (k : Kernel) (xs : List ℕ) (k' : Kernel) → IsExclusive k → Cleaned k xs k' → IsScheduled k'
IsScheduled-Cleaned k xs k' only c = record {
  queue = (xs, c.queue);
  exclusive = λ y runs. c.current ∙ only y (sym (c.same y).state ∙ runs);
}

-- A change that keeps the links, and that makes nothing RUNNING but the current task.
pub IsScheduled-frame :
    (k k' : Kernel)
    → k'.ready_queue ≡ k.ready_queue
    → k'.num_tasks ≡ k.num_tasks
    → ((y : ℕ) → ((k'.tasks y).next ≡ (k.tasks y).next) × ((k'.tasks y).prev ≡ (k.tasks y).prev))
    → IsExclusive k'
    → IsScheduled k
    → IsScheduled k'
IsScheduled-frame k k' head count links only s =
    let (xs, q) = s.queue in
    record { queue = (xs, IsQueue-frame k k' xs head count (λ y h. links y) q); exclusive = only }

demote-state :
    (t : Tasks) (old : Option ℕ) (y : ℕ)
    → ((t y).state ≡ running → old ≡ some y)
    → (demote t old y).state ≢ running
demote-state t none y only runs = ground (arith, only runs)
demote-state t (some old) y only runs = ground arith

demote-links :
    (t : Tasks) (old : Option ℕ) (y : ℕ)
    → ((demote t old y).next ≡ (t y).next) × ((demote t old y).prev ≡ (t y).prev)
demote-links t none y = (refl, refl)
demote-links t (some old) y = ground arith

dispatch-links :
    (t : Tasks) (quantum now task y : ℕ)
    → ((dispatch t quantum now task y).next ≡ (t y).next)
      × ((dispatch t quantum now task y).prev ≡ (t y).prev)
dispatch-links t quantum now task y = ground arith

dispatch-state :
    (t : Tasks) (quantum now task y : ℕ)
    → (t y).state ≢ running
    → (dispatch t quantum now task y).state ≡ running
    → task ≡ y
dispatch-state t quantum now task y quiet runs = elim (Bool-cases (task == y)) [
  | inl same ↦ ground arith
  | inr apart ↦ absurd (quiet (rw apart at runs))
]

pub scheduler_switch_to_task-IsScheduled :
    (k : Kernel) (now task : ℕ) → IsScheduled k → IsScheduled (scheduler_switch_to_task k now task)
unfolding scheduler_switch_to_task
scheduler_switch_to_task-IsScheduled k now task s = elim (Bool-cases (eq_ptr k.current_task task)) [
  | inl already ↦ rw (already, scheduler_switch_to_task) s
  | inr other ↦
      let calm = demote k.tasks k.current_task in
      let k' = record k {
        tasks = dispatch calm k.time_slice_quantum now task;
        current_task = some task;
        context_switches = (k.context_switches + 1) % 2 ^ 64;
      } in
      rw (other, scheduler_switch_to_task)
        (IsScheduled-frame k k' refl refl
          (λ y.
            let d = dispatch-links calm k.time_slice_quantum now task y in
            let e = demote-links k.tasks k.current_task y in (d.0 ∙ e.0, d.1 ∙ e.1))
          (λ y runs. ap some (
            dispatch-state calm k.time_slice_quantum now task y
              (demote-state k.tasks k.current_task y (s.exclusive y)) runs))
          s)
]

-- The current task goes on with a new time slice.
IsScheduled-renewed :
    (k : Kernel) (current : ℕ)
    → IsScheduled k
    → IsScheduled (record k {
      tasks = put k.tasks current (record (k.tasks current) { time_slice = k.time_slice_quantum });
    })
IsScheduled-renewed k current s =
    IsScheduled-frame k _ refl refl (λ y. ground arith) (λ y runs. s.exclusive y (ground arith)) s

pub reschedule-IsScheduled :
    (k : Kernel) (now current : ℕ) (next_task : Option ℕ)
    → IsScheduled k
    → IsScheduled (reschedule k now current next_task)
unfolding reschedule
reschedule-IsScheduled k now current none s =
    elim (Bool-cases ((k.tasks current).state == running)) [
      | inl runs ↦ rw runs (IsScheduled-renewed k current s)
      | inr stopped ↦ rw stopped s
    ]
reschedule-IsScheduled k now current (some task) s = elim (Bool-cases (task == current)) [
  | inr other ↦ rw other (scheduler_switch_to_task-IsScheduled k now task s)
  | inl same ↦ elim (Bool-cases ((k.tasks current).state == running)) [
    | inl runs ↦ rw (same, runs) (IsScheduled-renewed k current s)
    | inr stopped ↦ rw (same, stopped) s
  ]
]

-- what `scheduler_pick_next_task` leaves
pub Picked-IsScheduled :
    (k : Kernel) (xs : List ℕ) (r : Option ℕ × Kernel)
    → IsExclusive k
    → Picked k xs r
    → IsScheduled r.1
Picked-IsScheduled k xs r only (picked pre post b k' e split here low before behind c) =
    rw e (IsScheduled-Cleaned k ((post ++ pre) ++ b ∷ []) k' only c)
Picked-IsScheduled k xs r only (idle k' e none_ready c) = rw e (IsScheduled-Cleaned k xs k' only c)

module _ (k : Kernel) (now : ℕ) where
  -- the counters of a tick
  unfoldable pub ticked : Kernel
  ticked = record k {
    tick_count = (k.tick_count + 1) % 2 ^ 64;
    total_ticks = (k.total_ticks + 1) % 2 ^ 64;
  }

  unfoldable pub charged : ℕ → Kernel
  charged current = record k {
    tick_count = (k.tick_count + 1) % 2 ^ 64;
    total_ticks = (k.total_ticks + 1) % 2 ^ 64;
    tasks = charge k.tasks current;
  }

  -- The current task has no time left, or may not go on.
  unfoldable pub expired : ℕ → Bool
  expired current =
      ((charge k.tasks current) current).time_slice == 0
      || not (((charge k.tasks current) current).state == running)

  pub scheduler_tick-none :
      (r : Option ℕ × Kernel)
      → k.current_task ≡ none
      → scheduler_pick_next_task ticked ≡ ok r
      → scheduler_tick k now ≡ ok (switch_if r.1 now r.0)
  unfolding scheduler_tick ticked
  scheduler_tick-none r e run = ground arith

  pub scheduler_tick-expired :
      (current : ℕ) (r : Option ℕ × Kernel)
      → k.current_task ≡ some current
      → expired current ≡ true
      → scheduler_pick_next_task (charged current) ≡ ok r
      → scheduler_tick k now ≡ ok (reschedule r.1 now current r.0)
  unfolding scheduler_tick charged expired
  scheduler_tick-expired current r e over run = ground arith

  pub scheduler_tick-charged :
      (current : ℕ)
      → k.current_task ≡ some current
      → expired current ≡ false
      → scheduler_tick k now ≡ ok (charged current)
  unfolding scheduler_tick charged expired
  scheduler_tick-charged current e time_left = ground arith
