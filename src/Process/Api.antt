-- ===== src/Process/Api.antt =====
-- Processes, src/kernel/process/process.c: creating, finding, killing and ending them. CPU contexts
-- (`arch_setup_task_context`, `context_switch`) and the text printed are left out; `now` is what
-- `timer_get_ticks` returns when the scheduler asks for it.
pub mod Keep
pub mod Create
pub mod Exclusive
pub mod Tick
pub mod Kill
use build_your_own_os.Prelude.{
  ℕ, zero, suc, ◌+◌, ◌-◌, ◌%◌, ◌^◌, Bool, true, false, ◌&&◌, ◌||◌, Option, none, some, List, [],
  ◌∷◌, ltb, ◌==◌, if◌then◌else◌, has_bit, length,
}
use build_your_own_os.Process.State.{
  Task, Tasks, Kernel, max_tasks, task_stack_size, ready, running, blocked, terminated, Run, ok,
  fault, ◌>>=◌, put, set_state,
}
use build_your_own_os.Process.Pool.{allocate_task, free_task, allocate_task_stack, first_clear}
use build_your_own_os.Process.Scheduler.{scheduler_add_task, scheduler_tick, eq_ptr}

-- the bit pattern of the int -1
abbrev pub minus_one : ℕ
minus_one = 2 ^ 32 - 1

unfoldable pub process_init : Kernel → Kernel
process_init k = record k {
  time_slice_quantum = 10;
  next_pid = 1;
  task_pool_bitmap = 0;
  stack_pool_bitmap = 0;
}

unfoldable pub scheduler_init : Kernel → Kernel
scheduler_init k = record k { time_slice_quantum = 10; next_pid = 1 }

unfoldable pub scheduler_get_current_task : Kernel → Option ℕ
scheduler_get_current_task k = k.current_task

-- the fields that `process_create` writes
abbrev pub new_task : Kernel → (old : Task) → (name : List ℕ) → (priority stack_base : ℕ) → Task
new_task k old name priority stack_base = record old {
  pid = k.next_pid;
  state = ready;
  priority = priority;
  name = name;
  stack_base = some stack_base;
  stack_size = task_stack_size;
  time_slice = k.time_slice_quantum;
  total_runtime = 0;
  last_scheduled = 0;
}

-- `process_create`, once it has a slot and a stack. The `strncpy` of src/kernel/string.c does not stop
-- behind the 31 bytes that it is given if the name has no end in them: then the whole memory is
-- overwritten.
unfoldable pub start_task :
    Kernel → (task stack_base : ℕ) → (name : List ℕ) → (priority : ℕ) → Run (ℕ × Kernel)
start_task k task stack_base name priority =
    if ltb (length name) 31
    then (scheduler_add_task
          (record k {
            tasks = put k.tasks task (new_task k (k.tasks task) name priority stack_base);
            next_pid = (k.next_pid + 1) % 2 ^ 32;
          })
          task
        >>= λ k'. ok ((k'.tasks task).pid, k'))
    else fault

unfoldable pub process_create :
    Kernel → (entry : Option ℕ) → (name : Option (List ℕ)) → (priority : ℕ) → Run (ℕ × Kernel)
process_create k none name priority = ok (minus_one, k)
process_create k (some entry) none priority = ok (minus_one, k)
process_create k (some entry) (some name) priority =
    let (slot, k1) = allocate_task k in
    elim slot [
      | none ↦ ok (minus_one, k1)
      | some task ↦
          let (stack, k2) = allocate_task_stack k1 task_stack_size in
          elim stack [
            | none ↦ ok (minus_one, free_task k2 (some task))
            | some stack_base ↦ start_task k2 task stack_base name priority
          ]
    ]

unfoldable pub process_yield : Kernel → (now : ℕ) → Run Kernel
process_yield k now = elim k.current_task [
  | none ↦ ok k
  | some current ↦ scheduler_tick (record k { tasks = set_state k.tasks current ready }) now
]

unfoldable pub process_sleep : Kernel → (now ticks : ℕ) → Run Kernel
process_sleep k now ticks = elim k.current_task [
  | none ↦ ok k
  | some current ↦
      if ltb 0 ticks
      then scheduler_tick (record k { tasks = set_state k.tasks current blocked }) now
      else ok k
]

-- the task is over
abbrev pub end_task : Tasks → ℕ → (exit_code : ℕ) → Tasks
end_task tasks p exit_code =
    put tasks p (record (tasks p) { state = terminated; exit_code = exit_code })

unfoldable pub process_exit : Kernel → (now exit_code : ℕ) → Run Kernel
process_exit k now exit_code = elim k.current_task [
  | none ↦ ok k
  | some current ↦ scheduler_tick (record k { tasks = end_task k.tasks current exit_code }) now
]

-- the loop of `task_find_by_pid`, from slot `i` on
unfoldable pub find_pid : (rounds : ℕ) → Kernel → (pid i : ℕ) → Option ℕ
find_pid zero k pid i = none
find_pid (suc rounds) k pid i = elim (has_bit k.task_pool_bitmap i && (k.tasks i).pid == pid) [
  | true ↦ some i
  | false ↦ find_pid rounds k pid (i + 1)
]

unfoldable pub task_find_by_pid : Kernel → (pid : ℕ) → Option ℕ
task_find_by_pid k pid = find_pid max_tasks k pid 0

unfoldable pub process_kill : Kernel → (now pid : ℕ) → Run (ℕ × Kernel)
process_kill k now pid = elim (task_find_by_pid k pid) [
  | none ↦ ok (minus_one, k)
  | some task ↦
      let k1 = record k { tasks = end_task k.tasks task minus_one } in
      if eq_ptr k.current_task task
      then (scheduler_tick k1 now >>= λ k'. ok (0, k'))
      else ok (0, k1)
]

pub record ProcessStats : Type 0 where
  pub total_tasks : ℕ
  pub ready_tasks : ℕ
  pub blocked_tasks : ℕ
  pub context_switches : ℕ
  pub scheduler_ticks : ℕ
  pub current_pid : ℕ

-- one round of the loop of `process_get_stats`
abbrev pub count_task : Kernel → ℕ → ProcessStats → ProcessStats
count_task k i s =
    if has_bit k.task_pool_bitmap i
    then record s {
      total_tasks = s.total_tasks + 1;
      ready_tasks =
          if (k.tasks i).state == ready || (k.tasks i).state == running
          then s.ready_tasks + 1
          else s.ready_tasks;
      blocked_tasks = if (k.tasks i).state == blocked then s.blocked_tasks + 1 else s.blocked_tasks;
    }
    else s

unfoldable pub count_tasks : (rounds : ℕ) → Kernel → ℕ → ProcessStats → ProcessStats
count_tasks zero k i s = s
count_tasks (suc rounds) k i s = count_tasks rounds k (i + 1) (count_task k i s)

abbrev pub pid_of : Kernel → Option ℕ → ℕ
pid_of k none = 0
pid_of k (some p) = (k.tasks p).pid

unfoldable pub process_get_stats : Kernel → ProcessStats
process_get_stats k =
    let s : ProcessStats = count_tasks max_tasks k 0 (record {
      total_tasks = 0;
      ready_tasks = 0;
      blocked_tasks = 0;
      context_switches = 0;
      scheduler_ticks = 0;
      current_pid = 0;
    }) in
    record s {
      context_switches = k.context_switches;
      scheduler_ticks = k.total_ticks;
      current_pid = pid_of k k.current_task;
    }
