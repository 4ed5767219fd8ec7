-- ===== src/Process/Api/Kill.antt =====
-- `task_find_by_pid` finds the process, and `process_kill` marks it.
use build_your_own_os.Prelude.{
  ℕ, zero, suc, ◌+◌, ◌<◌, ◌≤◌, ◌≡◌, refl, Bool, true, false, ◌&&◌, Option, none, some, List, arith,
  ◌==◌, has_bit, Bool-cases, inl, inr,
}
use build_your_own_os.Process.State.{Kernel, max_tasks, terminated, Run, ok}
use build_your_own_os.Process.Pool.Laws.{from_on}
use build_your_own_os.Process.Scheduler.{eq_ptr}
use build_your_own_os.Process.Api.{find_pid, task_find_by_pid, process_kill, end_task, minus_one}
use build_your_own_os.Process.Api.Keep.{IsPooled, IsQueue-frame}

-- Slot `j` is in use by a process with this PID.
abbrev pub holds : Kernel → (pid j : ℕ) → Bool
holds k pid j = has_bit k.task_pool_bitmap j && (k.tasks j).pid == pid

-- The search gives the lowest slot with the PID, if there is one.
pub data Located (k : Kernel) (pid from rounds : ℕ) (r : Option ℕ) : Type 0 where
  absent :
      r ≡ none
      → ((j : ℕ) → from ≤ j → j < from + rounds → holds k pid j ≡ false)
      → Located k pid from rounds r
  at_slot :
      (i : ℕ)
      → r ≡ some i
      → i < from + rounds
      → holds k pid i ≡ true
      → ((j : ℕ) → from ≤ j → j < i → holds k pid j ≡ false)
      → Located k pid from rounds r

Located-later :
    (k : Kernel) (pid from rounds : ℕ) {r : Option ℕ}
    → holds k pid from ≡ false
    → Located k pid (from + 1) rounds r
    → Located k pid from (suc rounds) r
Located-later k pid from rounds other (absent e all) = absent e (
    from_on (λ j. holds k pid j ≡ false) from (from + suc rounds) other
      (λ j a b. all j a (omega arith)))
Located-later k pid from rounds other (at_slot i e b here before) =
    at_slot i e (omega arith) here (from_on (λ j. holds k pid j ≡ false) from i other before)

find_pid-Located :
    (rounds : ℕ) (k : Kernel) (pid from : ℕ)
    → Located k pid from rounds (find_pid rounds k pid from)
unfolding find_pid
find_pid-Located zero k pid from = absent refl (λ j a b. absurd (omega arith))
find_pid-Located (suc rounds) k pid from = elim (Bool-cases (holds k pid from)) [
  | inl here ↦
      rw (here, find_pid) (at_slot from refl (omega arith) here (λ j a b. absurd (omega arith)))
  | inr other ↦
      rw (other, find_pid)
        (Located-later k pid from rounds other (find_pid-Located rounds k pid (from + 1)))
]

-- `task_find_by_pid` returns the task in the lowest slot that is in use with the PID, and NULL only if
-- no slot is.
pub task_find_by_pid-Located :
    (k : Kernel) (pid : ℕ) → Located k pid 0 max_tasks (task_find_by_pid k pid)
unfolding task_find_by_pid
task_find_by_pid-Located k pid = find_pid-Located max_tasks k pid 0

-- Process `p` of the kernel is over, with all else of its task, the other tasks and the queue `xs` as they were.
pub record Killed (k : Kernel) (xs : List ℕ) (p : ℕ) (k' : Kernel) : Type 0 where
  pub pooled : IsPooled k' xs
  pub task : k'.tasks p ≡ record (k.tasks p) { state = terminated; exit_code = minus_one }
  pub others : (y : ℕ) → (p == y) ≡ false → k'.tasks y ≡ k.tasks y
  pub rest : record k' { tasks = k.tasks } ≡ k

IsPooled-end_task :
    (k : Kernel) (xs : List ℕ) (p code : ℕ)
    → IsPooled k xs
    → IsPooled (record k { tasks = end_task k.tasks p code }) xs
IsPooled-end_task k xs p code pooled = record {
  queue = IsQueue-frame k _ xs refl refl (λ y h. ground arith) pooled.queue;
  inside = pooled.inside;
}

-- What `process_kill` does with a PID that is not that of the current task: -1 and nothing changed
-- if no process has it, else the process is marked.
pub data Kill (k : Kernel) (xs : List ℕ) (pid : ℕ) (r : Run (ℕ × Kernel)) : Type 0 where
  unknown :
      r ≡ ok (minus_one, k) → ((j : ℕ) → j < max_tasks → holds k pid j ≡ false) → Kill k xs pid r
  marked :
      (p : ℕ) (k' : Kernel)
      → r ≡ ok (0, k')
      → p < max_tasks
      → holds k pid p ≡ true
      → ((j : ℕ) → j < p → holds k pid j ≡ false)
      → Killed k xs p k'
      → Kill k xs pid r

not_current :
    (k : Kernel) (pid p : ℕ) (current : Option ℕ)
    → ((q : ℕ) → current ≡ some q → holds k pid q ≡ false)
    → holds k pid p ≡ true
    → eq_ptr current p ≡ false
not_current k pid p none apart here = refl
not_current k pid p (some q) apart here = elim (Bool-cases (q == p)) [
  | inl same ↦
      let e : p ≡ q = ground arith in
      absurd (let own = rw e at here in ground (arith, apart q refl, own))
  | inr ne ↦ ne
]

module _ (k : Kernel) (now pid : ℕ) where
  process_kill-unknown : task_find_by_pid k pid ≡ none → process_kill k now pid ≡ ok (minus_one, k)
  unfolding process_kill
  process_kill-unknown e = ground arith

  process_kill-marked :
      (p : ℕ)
      → task_find_by_pid k pid ≡ some p
      → eq_ptr k.current_task p ≡ false
      → process_kill k now pid ≡ ok (0, record k { tasks = end_task k.tasks p minus_one })
  unfolding process_kill
  process_kill-marked p e apart = ground arith

  -- With a queue of processes in slots of the pool, and no process with the PID the current one, `process_kill`
  -- returns -1 and changes nothing where
  -- no process has the PID; else it returns 0, the lowest process with that PID is TERMINATED with exit code -1
  -- and still has its place in the queue, and nothing else of it, of the other processes or of the kernel has changed.
  pub process_kill-Kill :
      (xs : List ℕ)
      → IsPooled k xs
      → ((p : ℕ) → k.current_task ≡ some p → holds k pid p ≡ false)
      → Kill k xs pid (process_kill k now pid)
  process_kill-Kill xs pooled apart = elim (task_find_by_pid-Located k pid) [
    | absent e all ↦ unknown (process_kill-unknown e) (λ j h. all j (omega arith) h)
    | at_slot p e low here before ↦
        marked p _ (process_kill-marked p e (not_current k pid p k.current_task apart here)) low
          here (λ j h. before j (omega arith) h)
          (record {
            pooled = IsPooled-end_task k xs p minus_one pooled;
            task = let same : (p == p) ≡ true = ground arith in rw same;
            others = λ y far. rw far;
            rest = refl;
          })
  ]
