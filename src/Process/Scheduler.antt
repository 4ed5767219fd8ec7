-- ===== src/Process/Scheduler.antt =====
-- The round-robin scheduler, src/kernel/process/scheduler.c. `ready_queue` is a circular list
-- through the `next` and `prev` fields of the tasks. The loops run on fuel.
pub mod Ring
pub mod Add
pub mod Reap
pub mod Keep
pub mod Choice
pub mod Cleanup
pub mod Pick
-- mod Tests
use build_your_own_os.Prelude.{
  ℕ, zero, suc, ◌+◌, ◌-◌, ◌%◌, ◌^◌, Bool, true, false, ◌&&◌, ◌||◌, not, Option, none, some, ltb,
  ◌==◌, if◌then◌else◌,
}
use build_your_own_os.Process.State.{
  Task, Tasks, Kernel, ready, running, terminated, priority_high, priority_idle, Run, ok, fault,
  out_of_fuel, ◌>>=◌, deref, put, set_next, set_prev, set_state,
}
use build_your_own_os.Process.Pool.{free_task_stack}

-- The writes of the else branch of `scheduler_add_task`.
abbrev pub link_in : Tasks → (task head tail : ℕ) → Tasks
link_in tasks task head tail =
    let t1 = set_next tasks task (some head) in
    let t2 = set_prev t1 task (some tail) in
    let t3 = set_next t2 tail (some task) in set_prev t3 head (some task)

unfoldable pub scheduler_add_task : Kernel → ℕ → Run Kernel
scheduler_add_task k task =
    let bare = set_prev (set_next k.tasks task none) task none in
    let counted = (k.num_tasks + 1) % 2 ^ 32 in
    elim k.ready_queue [
      | none ↦ ok (record k {
        tasks = set_prev (set_next bare task (some task)) task (some task);
        ready_queue = some task;
        num_tasks = counted;
      })
      | some head ↦ deref (bare head).prev >>= λ tail.
          ok (record k { tasks = link_in bare task head tail; num_tasks = counted })
    ]

-- task->prev->next = task->next; task->next->prev = task->prev
abbrev pub link_out : Tasks → (task prev next : ℕ) → Tasks
link_out tasks task prev next = set_prev (set_next tasks prev (some next)) next (some prev)

abbrev pub clear_links : Tasks → ℕ → Tasks
clear_links tasks task = set_prev (set_next tasks task none) task none

abbrev pub eq_ptr : Option ℕ → ℕ → Bool
eq_ptr none p = false
eq_ptr (some q) p = q == p

unfoldable pub scheduler_remove_task : Kernel → ℕ → Run Kernel
scheduler_remove_task k task = elim k.ready_queue [
  | none ↦ ok k
  | some head ↦
      if eq_ptr (k.tasks task).next task
      then ok (record k {
        tasks = clear_links k.tasks task;
        ready_queue = none;
        num_tasks = (k.num_tasks + 2 ^ 32 - 1) % 2 ^ 32;
      })
      else deref (k.tasks task).prev >>= λ prev. deref (k.tasks task).next >>= λ next.
          ok (record k {
            tasks = clear_links (link_out k.tasks task prev next) task;
            ready_queue = if head == task then some next else some head;
            num_tasks = (k.num_tasks + 2 ^ 32 - 1) % 2 ^ 32;
          })
]

-- The body of the loop of `cleanup_terminated_tasks`: a terminated task leaves the queue and its
-- stack is freed.
unfoldable pub reap : Kernel → ℕ → Run Kernel
reap k current =
    if (k.tasks current).state == terminated
    then (scheduler_remove_task k current >>= λ k'.
        ok (free_task_stack k' (k'.tasks current).stack_base (k'.tasks current).stack_size))
    else ok k

abbrev pub is_some : Option ℕ → Bool
is_some none = false
is_some (some p) = true

-- do { next = current->next; ... current = next; } while (current != start && ready_queue)
unfoldable pub cleanup_loop : (fuel : ℕ) → Kernel → (current : Option ℕ) → (start : ℕ) → Run Kernel
cleanup_loop zero k current start = out_of_fuel
cleanup_loop (suc fuel) k current start = deref current >>= λ cur.
    let next = (k.tasks cur).next in
    reap k cur >>= λ k'. elim (not (eq_ptr next start) && is_some k'.ready_queue) [
      | true ↦ cleanup_loop fuel k' next start
      | false ↦ ok k'
    ]

unfoldable pub cleanup_terminated_tasks : Kernel → Run Kernel
cleanup_terminated_tasks k = elim k.ready_queue [
  | none ↦ ok k
  | some start ↦ cleanup_loop (k.num_tasks + 1) k (some start) start
]

-- The task is ready and better than the best so far.
abbrev pub beats : Tasks → ℕ → ℕ → Bool
beats tasks current best_priority =
    (tasks current).state == ready && ltb (tasks current).priority best_priority

-- The search of `scheduler_pick_next_task`; it stops at the highest priority.
unfoldable pub pick_loop :
    (fuel : ℕ) → Tasks → (current start : ℕ) → Option ℕ → (best_priority : ℕ) → Run (Option ℕ)
pick_loop zero tasks current start best best_priority = out_of_fuel
pick_loop (suc fuel) tasks current start best best_priority =
    let better = beats tasks current best_priority in
    let best' = if better then some current else best in
    let best_priority' = if better then (tasks current).priority else best_priority in
    elim (better && (best_priority' == priority_high)) [
      | true ↦ ok best'
      | false ↦ deref (tasks current).next >>= λ next. elim (next == start) [
        | true ↦ ok best'
        | false ↦ pick_loop fuel tasks next start best' best_priority'
      ]
    ]

-- The task to run next, and the queue moved past it.
unfoldable pub scheduler_pick_next_task : Kernel → Run (Option ℕ × Kernel)
scheduler_pick_next_task k0 = cleanup_terminated_tasks k0 >>= λ k. elim k.ready_queue [
  | none ↦ ok (none, k)
  | some head ↦ pick_loop (k.num_tasks + 1) k.tasks head head none (priority_idle + 1) >>= λ best.
      elim best [
        | none ↦ ok (none, k)
        | some task ↦ ok (some task, record k { ready_queue = (k.tasks task).next })
      ]
]

-- The task that gives up the CPU is ready again.
abbrev pub demote : Tasks → (old_task : Option ℕ) → Tasks
demote tasks none = tasks
demote tasks (some old) = if (tasks old).state == running then set_state tasks old ready else tasks

-- the task that gets the CPU
abbrev pub dispatch : Tasks → (quantum now task : ℕ) → Tasks
dispatch tasks quantum now task =
    put tasks task
      (record (tasks task) { state = running; time_slice = quantum; last_scheduled = now })

-- `now` is what `timer_get_ticks` returns. The switch of CPU contexts is left out.
unfoldable pub scheduler_switch_to_task : Kernel → (now : ℕ) → (task : ℕ) → Kernel
scheduler_switch_to_task k now task = if eq_ptr k.current_task task then k else record k {
  tasks = dispatch (demote k.tasks k.current_task) k.time_slice_quantum now task;
  current_task = some task;
  context_switches = (k.context_switches + 1) % 2 ^ 64;
}

-- if (next_task) scheduler_switch_to_task(next_task)
abbrev pub switch_if : Kernel → (now : ℕ) → Option ℕ → Kernel
switch_if k now none = k
switch_if k now (some task) = scheduler_switch_to_task k now task

-- the task that runs has used one more tick
abbrev pub charge : Tasks → ℕ → Tasks
charge tasks current = put tasks current (record (tasks current) {
  total_runtime = ((tasks current).total_runtime + 1) % 2 ^ 64;
  time_slice = (tasks current).time_slice - 1;
})

-- what follows the choice of `next_task` while `current` runs
unfoldable pub reschedule : Kernel → (now : ℕ) → (current : ℕ) → Option ℕ → Kernel
reschedule k now current next_task =
    let keep =
      (if (k.tasks current).state == running
        then record k {
          tasks =
              put k.tasks current (record (k.tasks current) { time_slice = k.time_slice_quantum });
        }
        else k) in
    elim next_task [
      | none ↦ keep
      | some task ↦ if task == current then keep else scheduler_switch_to_task k now task
    ]

unfoldable pub scheduler_tick : Kernel → (now : ℕ) → Run Kernel
scheduler_tick k0 now =
    let k = record k0 {
      tick_count = (k0.tick_count + 1) % 2 ^ 64;
      total_ticks = (k0.total_ticks + 1) % 2 ^ 64;
    } in
    elim k0.current_task [
      | none ↦ scheduler_pick_next_task k >>= λ (next_task, k'). ok (switch_if k' now next_task)
      | some current ↦
          let k1 = record k { tasks = charge k0.tasks current } in
          elim ((k1.tasks current).time_slice == 0 || not ((k1.tasks current).state == running)) [
            | true ↦ scheduler_pick_next_task k1 >>= λ (next_task, k').
                ok (reschedule k' now current next_task)
            | false ↦ ok k1
          ]
    ]

unfoldable pub scheduler_start : Kernel → (now : ℕ) → Run Kernel
scheduler_start k now =
    scheduler_pick_next_task k >>= λ (first_task, k'). ok (switch_if k' now first_task)
