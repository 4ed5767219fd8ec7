-- ===== src/Process/State.antt =====
-- The state of src/kernel/process: the task pool, the two pool bitmaps and the scheduler. A task is
-- known by its index in `g_task_pool`, a pointer is `none` for NULL, and a stack by its offset in
-- `g_stack_pool`. CPU contexts, the unused heap fields and the unused
-- `blocked_queue` are left out.
use build_your_own_os.Prelude.{ℕ, Option, none, some, List, ◌==◌, if◌then◌else◌}

abbrev pub max_tasks : ℕ
max_tasks = 32

abbrev pub task_stack_size : ℕ
task_stack_size = 8192

abbrev pub ready : ℕ
ready = 0

abbrev pub running : ℕ
running = 1

abbrev pub blocked : ℕ
blocked = 2

abbrev pub terminated : ℕ
terminated = 3

abbrev pub priority_high : ℕ
priority_high = 0

abbrev pub priority_idle : ℕ
priority_idle = 3

-- `exit_code` is the bit pattern of the int.
pub record Task : Type 0 where
  pub pid : ℕ
  pub state : ℕ
  pub priority : ℕ
  pub name : List ℕ
  pub stack_base : Option ℕ
  pub stack_size : ℕ
  pub time_slice : ℕ
  pub total_runtime : ℕ
  pub last_scheduled : ℕ
  pub next : Option ℕ
  pub prev : Option ℕ
  pub exit_code : ℕ

abbrev pub Tasks : Type 0
Tasks = ℕ → Task

pub record Kernel : Type 0 where
  pub tasks : Tasks
  pub task_pool_bitmap : ℕ
  pub stack_pool_bitmap : ℕ
  pub current_task : Option ℕ
  pub ready_queue : Option ℕ
  pub num_tasks : ℕ
  pub next_pid : ℕ
  pub tick_count : ℕ
  pub time_slice_quantum : ℕ
  pub context_switches : ℕ
  pub total_ticks : ℕ

-- `fault` is a use of NULL, `out_of_fuel` a loop that has not ended.
pub data Run (A : Type 0) : Type 0 where
  ok : A → Run A
  fault : Run A
  out_of_fuel : Run A

infixl 5 ◌>>=◌
abbrev pub ◌>>=◌ : {A B : Type 0} → Run A → (A → Run B) → Run B
ok a >>= f = f a
fault >>= f = fault
out_of_fuel >>= f = out_of_fuel

abbrev pub deref : Option ℕ → Run ℕ
deref none = fault
deref (some p) = ok p

abbrev pub put : Tasks → ℕ → Task → Tasks
put tasks p t q = if p == q then t else tasks q

abbrev pub set_next : Tasks → ℕ → Option ℕ → Tasks
set_next tasks p v = put tasks p (record (tasks p) { next = v })

abbrev pub set_prev : Tasks → ℕ → Option ℕ → Tasks
set_prev tasks p v = put tasks p (record (tasks p) { prev = v })

abbrev pub set_state : Tasks → ℕ → ℕ → Tasks
set_state tasks p v = put tasks p (record (tasks p) { state = v })
