-- ===== src/Process/Tests.antt =====
-- Concrete kernels: two tasks in the queue, and what the operations make of them.
use build_your_own_os.Prelude.{
  ℕ, zero, suc, ◌-◌, ◌*◌, has_bit, ◌≡◌, refl, ◌<◌, true, Option, none, some, [], ◌∷◌, arith, ◌==◌,
  if◌then◌else◌,
}
use build_your_own_os.Process.State.{
  Task, Kernel, max_tasks, task_stack_size, ready, running, terminated, ok, out_of_fuel,
}
use build_your_own_os.Process.Pool.{zero_task}
use build_your_own_os.Process.Scheduler.{
  cleanup_loop, cleanup_terminated_tasks, scheduler_pick_next_task, scheduler_tick,
}
use build_your_own_os.Process.Scheduler.Ring.{has, Ring}
use build_your_own_os.Process.Scheduler.Add.{IsQueue}
use build_your_own_os.Process.Scheduler.Cleanup.{cleanup_loop_diverges}
use build_your_own_os.Process.Scheduler.Keep.{alive, Cleaned, cleanup_terminated_tasks-Cleaned}
use build_your_own_os.Process.Scheduler.Pick.{Picked, scheduler_pick_next_task-Picked}
use build_your_own_os.Process.Api.{process_create, process_kill}
use build_your_own_os.Process.Api.Keep.{IsPooled}
use build_your_own_os.Process.Api.Create.{Creation, process_create-Creation}
use build_your_own_os.Process.Api.Kill.{Kill, process_kill-Kill}
use build_your_own_os.Process.Api.Tick.{IsReadyToTick, EndsScheduled, scheduler_tick-IsScheduled}

-- tasks 0 and 1, with these states
abbrev task_in : (state next : ℕ) → Task
task_in state next = record zero_task {
  pid = 2 - next;
  state = state;
  priority = next;
  stack_base = some ((1 - next) * task_stack_size);
  stack_size = task_stack_size;
  time_slice = 1;
  next = some next;
  prev = some next;
}

abbrev two : (state0 state1 : ℕ) → Option ℕ → Kernel
two state0 state1 current = record {
  tasks = λ y. if y == 0 then task_in state0 1 else if y == 1 then task_in state1 0 else zero_task;
  task_pool_bitmap = 3;
  stack_pool_bitmap = 3;
  current_task = current;
  ready_queue = some 0;
  num_tasks = 2;
  next_pid = 3;
  tick_count = 0;
  time_slice_quantum = 10;
  context_switches = 0;
  total_ticks = 0;
}

two-Ring :
    (state0 state1 : ℕ) (current : Option ℕ) → Ring (two state0 state1 current).tasks 0 (1 ∷ [])
two-Ring state0 state1 current = record {
  chain = (record { forth = refl; back = refl }, tt);
  closed = record { forth = refl; back = refl };
  distinct = (refl, (refl, tt));
}

two-IsQueue :
    (state0 state1 : ℕ) (current : Option ℕ) → IsQueue (two state0 state1 current) (0 ∷ 1 ∷ [])
two-IsQueue state0 state1 current = record {
  links = (refl, two-Ring state0 state1 current);
  counted = refl;
  few = omega arith;
}

abbrev both_ready : Kernel
both_ready = two ready ready none

abbrev one_runs : Kernel
one_runs = two ready running (some 1)

both_ready-IsPooled : IsPooled both_ready (0 ∷ 1 ∷ [])
both_ready-IsPooled = record { queue = two-IsQueue ready ready none; inside = inside }
  where
    inside :
        (y : ℕ)
        → has y (0 ∷ 1 ∷ []) ≡ true
        → (y < max_tasks) × (has_bit both_ready.task_pool_bitmap y ≡ true)
    inside zero h = (omega arith, unfold has_bit in refl)
    inside (suc zero) h = (omega arith, unfold has_bit in refl)
    inside (suc (suc y)) h = absurd (ground arith)

one_runs-IsReadyToTick : IsReadyToTick one_runs 0 (1 ∷ [])
one_runs-IsReadyToTick = record {
  queue = two-IsQueue ready running (some 1);
  live = refl;
  exclusive = only;
}
  where
    only : (y : ℕ) → (one_runs.tasks y).state ≡ running → one_runs.current_task ≡ some y
    only zero runs = absurd (ground arith)
    only (suc zero) runs = refl
    only (suc (suc y)) runs = absurd (ground arith)

cleanup_loop_diverges_example :
    cleanup_loop 100 (two terminated ready none) (some 0) 0 ≡ out_of_fuel
cleanup_loop_diverges_example =
    cleanup_loop_diverges 100 (two terminated ready none) 0 1 (1 ∷ [])
      (two-IsQueue terminated ready none) refl refl refl

cleanup_terminated_tasks-Cleaned_example :
    (k' : Kernel) × (cleanup_terminated_tasks (two ready terminated none) ≡ ok k')
    × Cleaned (two ready terminated none) (alive (two ready terminated none).tasks (0 ∷ 1 ∷ [])) k'
cleanup_terminated_tasks-Cleaned_example =
    cleanup_terminated_tasks-Cleaned (two ready terminated none) 0 (1 ∷ [])
      (two-IsQueue ready terminated none) refl

scheduler_pick_next_task-Picked_example :
    (r : Option ℕ × Kernel) × (scheduler_pick_next_task both_ready ≡ ok r)
    × Picked both_ready (alive both_ready.tasks (0 ∷ 1 ∷ [])) r
scheduler_pick_next_task-Picked_example =
    scheduler_pick_next_task-Picked both_ready 0 (1 ∷ []) (two-IsQueue ready ready none) refl

process_create-Creation_example :
    Creation both_ready (0 ∷ 1 ∷ []) 1 (process_create both_ready (some 4096) (some (105 ∷ [])) 1)
process_create-Creation_example =
    process_create-Creation both_ready 4096 (105 ∷ []) 1 (0 ∷ 1 ∷ []) both_ready-IsPooled
      (omega arith) (omega arith)

process_kill-Kill_example : Kill both_ready (0 ∷ 1 ∷ []) 2 (process_kill both_ready 7 2)
process_kill-Kill_example =
    process_kill-Kill both_ready 7 2 (0 ∷ 1 ∷ []) both_ready-IsPooled (λ p e. absurd (ground arith))

scheduler_tick-IsScheduled_example : EndsScheduled (scheduler_tick one_runs 7)
scheduler_tick-IsScheduled_example =
    scheduler_tick-IsScheduled one_runs 7 0 (1 ∷ []) one_runs-IsReadyToTick
