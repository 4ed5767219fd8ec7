-- ===== src/Process/Scheduler/Keep.antt =====
-- `cleanup_terminated_tasks` where the head of the queue is alive: it ends and takes out exactly the
-- terminated tasks.
use build_your_own_os.Prelude.{
  ℕ, zero, suc, ◌+◌, ◌^◌, ◌<◌, ◌≡◌, refl, ◌∙◌, subst, false, some, List, [], ◌∷◌, ◌++◌, arith, ◌==◌,
  if◌then◌else◌, length, length-append, Bool-cases, inl, inr,
}
use mathlib.Core.List.{append-nil, append_assoc}
use build_your_own_os.Process.State.{Tasks, Kernel, ok, terminated}
use build_your_own_os.Process.Scheduler.{cleanup_loop, cleanup_terminated_tasks}
use build_your_own_os.Process.Scheduler.Ring.{Ring, has-append, Ring-rotate}
use build_your_own_os.Process.Scheduler.Add.{
  Removed, SameTasks, SameTasks-refl, SameTasks-trans, IsQueue,
}
use build_your_own_os.Process.Scheduler.Reap.{
  IsAlive, reap-Removed, reap-alive, cleanup_loop-next, cleanup_loop-end,
}

-- the tasks of the list that are not terminated
unfoldable pub alive : Tasks → List ℕ → List ℕ
alive t [] = []
alive t (y ∷ ys) = if (t y).state == terminated then alive t ys else y ∷ alive t ys

alive-same : (t t' : Tasks) (ys : List ℕ) → SameTasks t t' → alive t' ys ≡ alive t ys
unfolding alive
alive-same t t' [] s = refl
alive-same t t' (y ∷ ys) s = rw ((s y).state, alive-same t t' ys s)

-- the queue, seen from `cur`, with `h` at its head
record Focus (k : Kernel) (h cur : ℕ) (bs : List ℕ) : Type 0 where
  queued : k.ready_queue ≡ some h
  ring : Ring k.tasks cur bs
  counted : k.num_tasks ≡ length (cur ∷ bs)
  few : length (cur ∷ bs) < 2 ^ 31

-- From `k` to `k'` the queue became `xs`, and no task but for its links changed.
pub record Cleaned (k : Kernel) (xs : List ℕ) (k' : Kernel) : Type 0 where
  pub queue : IsQueue k' xs
  pub same : SameTasks k.tasks k'.tasks
  pub current : k'.current_task ≡ k.current_task

Focus-Cleaned : (k : Kernel) (h : ℕ) (bs : List ℕ) → Focus k h h bs → Cleaned k (h ∷ bs) k
Focus-Cleaned k h bs f = record {
  queue = record { links = (f.queued, f.ring); counted = f.counted; few = f.few };
  same = SameTasks-refl k.tasks;
  current = refl;
}

Focus-rotate :
    (k : Kernel) (h cur b : ℕ) (bs : List ℕ) → Focus k h cur (b ∷ bs) → Focus k h b (bs ++ cur ∷ [])
Focus-rotate k h cur b bs f = record {
  queued = f.queued;
  ring = Ring-rotate k.tasks cur b bs f.ring;
  counted = omega (arith, f.counted, length-append bs (cur ∷ []));
  few = omega (arith, f.few, length-append bs (cur ∷ []));
}

Focus-Removed :
    (k k' : Kernel) (h cur b : ℕ) (bs : List ℕ)
    → Focus k h cur (b ∷ bs)
    → (h == cur) ≡ false
    → Removed k cur b bs k'
    → Focus k' h b bs
Focus-Removed k k' h cur b bs f ne r = record {
  queued = r.head h f.queued ∙ rw ne;
  ring = r.ring;
  counted = omega (arith, r.counted, f.counted, f.few);
  few = omega (arith, f.few);
}

-- After a first change that keeps the tasks, and a cleanup of what is left.
Cleaned-trans :
    (k k1 k' : Kernel) (xs ys : List ℕ)
    → SameTasks k.tasks k1.tasks
    → k1.current_task ≡ k.current_task
    → xs ≡ ys
    → Cleaned k1 xs k'
    → Cleaned k ys k'
Cleaned-trans k k1 k' xs ys s c e r = record {
  queue = subst (λ zs. IsQueue k' zs) e r.queue;
  same = SameTasks-trans k.tasks k1.tasks k'.tasks s r.same;
  current = r.current ∙ c;
}

abbrev Ends : ℕ → Kernel → ℕ → ℕ → List ℕ → Type 0
Ends fuel k cur h xs = (k' : Kernel) × (cleanup_loop fuel k (some cur) h ≡ ok k') × Cleaned k xs k'

-- The loop from a task behind the head on, with `vis` the tasks that it has kept so far.
cleanup_loop-Cleaned :
    (fuel : ℕ) (k : Kernel) (h cur : ℕ) (rest vis : List ℕ)
    → Focus k h cur (rest ++ h ∷ vis)
    → length rest < fuel
    → Ends fuel k cur h (h ∷ vis ++ alive k.tasks (cur ∷ rest))
unfolding alive
cleanup_loop-Cleaned zero k h cur rest vis f l = absurd (omega arith)
cleanup_loop-Cleaned (suc fuel) k h cur [] vis f l =
    let apart : (h == cur) ≡ false = ground (arith, f.ring.distinct.0) in
    elim (Bool-cases ((k.tasks cur).state == terminated)) [
      | inl dead ↦
          let (k', run, rem) = reap-Removed k h cur h vis f.queued f.ring dead in
          let f' = Focus-Removed k k' h cur h vis f apart rem in
          (
            k',
            cleanup_loop-end fuel k k' cur h h h f.ring.chain.0.forth run f'.queued (ground arith),
            Cleaned-trans k k' k' (h ∷ vis) _ rem.same rem.current (rw (dead, append-nil))
                (Focus-Cleaned k' h vis f'),
          )
      | inr here ↦ (
        k,
        cleanup_loop-end fuel k k cur h h h f.ring.chain.0.forth (reap-alive k cur here) f.queued
            (ground arith),
        Cleaned-trans k k k (h ∷ vis ++ cur ∷ []) _ (SameTasks-refl k.tasks) refl (rw here)
            (Focus-Cleaned k h (vis ++ cur ∷ []) (Focus-rotate k h cur h vis f)),
      )
    ]
cleanup_loop-Cleaned (suc fuel) k h cur (b ∷ rest) vis f l =
    let apart : (h == cur) ≡ false =
      ground (arith, f.ring.distinct.0, has-append cur rest (h ∷ vis)) in
    let far : (b == h) ≡ false = ground (arith, f.ring.distinct.1.0, has-append b rest (h ∷ vis)) in
    elim (Bool-cases ((k.tasks cur).state == terminated)) [
      | inl dead ↦
          let (k', run, rem) = reap-Removed k h cur b (rest ++ h ∷ vis) f.queued f.ring dead in
          let f' = Focus-Removed k k' h cur b (rest ++ h ∷ vis) f apart rem in
          let (k'', run', c) = cleanup_loop-Cleaned fuel k' h b rest vis f' (omega arith) in
          (
            k'',
            cleanup_loop-next fuel k k' cur b h h f.ring.chain.0.forth run f'.queued far ∙ run',
            Cleaned-trans k k' k'' _ _ rem.same rem.current
                (rw (dead, alive-same k.tasks k'.tasks (b ∷ rest) rem.same)) c,
          )
      | inr here ↦
          let f' =
            subst (λ zs. Focus k h b zs) (append_assoc rest (h ∷ vis) (cur ∷ []))
              (Focus-rotate k h cur b (rest ++ h ∷ vis) f) in
          let (k'', run', c) =
            cleanup_loop-Cleaned fuel k h b rest (vis ++ cur ∷ []) f' (omega arith) in
          (
            k'',
            cleanup_loop-next fuel k k cur b h h f.ring.chain.0.forth (reap-alive k cur here)
                  f.queued far
                ∙ run',
            Cleaned-trans k k k'' _ _ (SameTasks-refl k.tasks) refl
                (rw (here, append_assoc vis (cur ∷ []) (alive k.tasks (b ∷ rest)))) c,
          )
    ]

cleanup_terminated_tasks-loop :
    (k : Kernel) (h : ℕ)
    → k.ready_queue ≡ some h
    → cleanup_terminated_tasks k ≡ cleanup_loop (k.num_tasks + 1) k (some h) h
unfolding cleanup_terminated_tasks
cleanup_terminated_tasks-loop k h queued = ground arith

-- With a task at the head of the queue that is not terminated, the cleanup ends: exactly the
-- terminated tasks leave the queue, the others stay in order and are counted, and no task's state or
-- priority changes.
pub cleanup_terminated_tasks-Cleaned :
    (k : Kernel) (h : ℕ) (bs : List ℕ)
    → IsQueue k (h ∷ bs)
    → IsAlive k.tasks h
    → (k' : Kernel) × (cleanup_terminated_tasks k ≡ ok k') × Cleaned k (alive k.tasks (h ∷ bs)) k'
unfolding alive
cleanup_terminated_tasks-Cleaned k h bs q live =
    let (k', run, c) = from_head bs q in
    let fuel : suc (length (h ∷ bs)) ≡ k.num_tasks + 1 = omega (arith, q.counted) in
    (k', cleanup_terminated_tasks-loop k h q.links.0 ∙ rw fuel at run, rw live c)
  where
    from_head :
        (bs : List ℕ)
        → IsQueue k (h ∷ bs)
        → Ends (suc (length (h ∷ bs))) k h h (h ∷ alive k.tasks bs)
    from_head [] q = (
      k,
      cleanup_loop-end 1 k k h h h h q.links.1.closed.forth (reap-alive k h live) q.links.0
          (ground arith),
      Focus-Cleaned k h []
          (record { queued = q.links.0; ring = q.links.1; counted = q.counted; few = q.few }),
    )
    from_head (b ∷ bs) q =
        let r = q.links.1 in
        let f : Focus k h h (b ∷ bs) = record {
          queued = q.links.0;
          ring = r;
          counted = q.counted;
          few = q.few;
        } in
        let far : (b == h) ≡ false = ground (arith, r.distinct.0) in
        let (k', run, c) =
          cleanup_loop-Cleaned (suc (length (b ∷ bs))) k h b bs [] (Focus-rotate k h h b bs f)
            (omega arith) in
        (
          k',
          cleanup_loop-next (suc (length (b ∷ bs))) k k h b h h r.chain.0.forth
                (reap-alive k h live) q.links.0 far
              ∙ run,
          c,
        )
