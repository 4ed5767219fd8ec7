-- ===== src/Process/Pool.antt =====
-- The pools of task slots and stacks, src/kernel/process/process.c: bit `i` of a bitmap is set while
-- slot `i` is in use.
pub mod Laws
use build_your_own_os.Prelude.{
  ℕ, zero, suc, ◌+◌, ◌*◌, ◌/◌, Bool, true, false, ◌&&◌, ◌||◌, not, Option, none, some, [], ltb, leb,
  ◌==◌, if◌then◌else◌, has_bit, with_bit, without_bit,
}
use build_your_own_os.Process.State.{Task, Kernel, max_tasks, task_stack_size, put}

-- The loops of `allocate_task` and `allocate_task_stack`: the first slot from `i` on that is free.
unfoldable pub first_clear : (rounds bitmap i : ℕ) → Option ℕ
first_clear zero bitmap i = none
first_clear (suc rounds) bitmap i = elim (has_bit bitmap i) [
  | true ↦ first_clear rounds bitmap (i + 1)
  | false ↦ some i
]

unfoldable pub allocate_task : Kernel → Option ℕ × Kernel
allocate_task k = elim (first_clear max_tasks k.task_pool_bitmap 0) [
  | none ↦ (none, k)
  | some i ↦ (some i, record k { task_pool_bitmap = with_bit k.task_pool_bitmap i })
]

-- memset(task, 0, sizeof(struct task))
abbrev pub zero_task : Task
zero_task = record {
  pid = 0;
  state = 0;
  priority = 0;
  name = [];
  stack_base = none;
  stack_size = 0;
  time_slice = 0;
  total_runtime = 0;
  last_scheduled = 0;
  next = none;
  prev = none;
  exit_code = 0;
}

unfoldable pub free_task : Kernel → Option ℕ → Kernel
free_task k none = k
free_task k (some index) =
    if ltb index max_tasks
    then record k {
      task_pool_bitmap = without_bit 32 k.task_pool_bitmap index;
      tasks = put k.tasks index zero_task;
    }
    else k

unfoldable pub allocate_task_stack : Kernel → (size : ℕ) → Option ℕ × Kernel
allocate_task_stack k size =
    if not (size == task_stack_size)
    then (none, k)
    else elim (first_clear max_tasks k.stack_pool_bitmap 0) [
      | none ↦ (none, k)
      | some i ↦ (
        some (i * task_stack_size),
        record k { stack_pool_bitmap = with_bit k.stack_pool_bitmap i },
      )
    ]

-- A pointer outside the pool is an offset past its end.
unfoldable pub free_task_stack : Kernel → Option ℕ → (size : ℕ) → Kernel
free_task_stack k none size = k
free_task_stack k (some stack_base) size =
    if not (size == task_stack_size)
    then k
    else if leb (max_tasks * task_stack_size) stack_base
    then k
    else if ltb (stack_base / task_stack_size) max_tasks
    then record k {
      stack_pool_bitmap = without_bit 32 k.stack_pool_bitmap (stack_base / task_stack_size);
    }
    else k
