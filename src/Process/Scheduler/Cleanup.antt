-- ===== src/Process/Scheduler/Cleanup.antt =====
-- `cleanup_terminated_tasks`: when it ends, and when it does not.
use build_your_own_os.Prelude.{
  ℕ, zero, suc, ◌≡◌, refl, ◌∙◌, true, false, some, List, [], ◌∷◌, ◌++◌, arith, ◌==◌, if◌then◌else◌,
  Bool-cases, inl, inr,
}
use build_your_own_os.Process.State.{Kernel, out_of_fuel, terminated}
use build_your_own_os.Process.Scheduler.{cleanup_loop}
use build_your_own_os.Process.Scheduler.Ring.{Ring, has, has-append, Ring-rotate}
use build_your_own_os.Process.Scheduler.Add.{IsQueue}
use build_your_own_os.Process.Scheduler.Reap.{
  IsTerminated, IsAlive, reap-Removed, reap-alive, cleanup_loop-next,
}

-- Once the loop is in a ring that its start is not part of, with a task that lives, it never ends.
cleanup_loop_lost :
    (fuel : ℕ) (k : Kernel) (h cur start z : ℕ) (bs : List ℕ)
    → k.ready_queue ≡ some h
    → Ring k.tasks cur bs
    → has start (cur ∷ bs) ≡ false
    → has z (cur ∷ bs) ≡ true
    → IsAlive k.tasks z
    → cleanup_loop fuel k (some cur) start ≡ out_of_fuel
cleanup_loop_lost zero k h cur start z bs queued r out inside live = unfold cleanup_loop in refl
cleanup_loop_lost (suc fuel) k h cur start z [] queued r out inside live =
    let e : z ≡ cur = ground arith in
    let here : IsAlive k.tasks cur = rw e at live in
    cleanup_loop-next fuel k k cur cur start h r.closed.forth (reap-alive k cur here) queued
      (ground arith)
    ∙ cleanup_loop_lost fuel k h cur start z [] queued r out inside live
cleanup_loop_lost (suc fuel) k h cur start z (b ∷ bs) queued r out inside live =
    elim (Bool-cases ((k.tasks cur).state == terminated)) [
      | inl dead ↦
          let (k', run, rem) = reap-Removed k h cur b bs queued r dead in
          let h' : ℕ = if h == cur then b else h in
          let queued' : k'.ready_queue ≡ some h' = rem.head h queued ∙ ground arith in
          let stays : IsAlive k'.tasks z = rw ((rem.same z).state) live in
          let other : (z == cur) ≡ false = elim (Bool-cases (z == cur)) [
            | inl e ↦
                let e' : z ≡ cur = ground arith in absurd (let l = rw e' at live in ground arith)
            | inr ne ↦ ne
          ] in
          cleanup_loop-next fuel k k' cur b start h' r.chain.0.forth run queued' (ground arith)
          ∙ cleanup_loop_lost fuel k' h' b start z bs queued' rem.ring (ground arith) (ground arith)
              stays
      | inr here ↦
          cleanup_loop-next fuel k k cur b start h r.chain.0.forth (reap-alive k cur here) queued
            (ground arith)
          ∙ cleanup_loop_lost fuel k h b start z (bs ++ cur ∷ []) queued
              (Ring-rotate k.tasks cur b bs r) (ground (arith, has-append start bs (cur ∷ [])))
              (ground (arith, has-append z bs (cur ∷ []))) live
    ]

-- If the task at the head of the queue is terminated and another one in the queue is not, the loop of
-- `cleanup_terminated_tasks` does not end, however long it runs: it takes its own start out of the
-- queue and waits to see it again.
pub cleanup_loop_diverges :
    (fuel : ℕ) (k : Kernel) (h z : ℕ) (bs : List ℕ)
    → IsQueue k (h ∷ bs)
    → IsTerminated k.tasks h
    → has z bs ≡ true
    → IsAlive k.tasks z
    → cleanup_loop fuel k (some h) h ≡ out_of_fuel
cleanup_loop_diverges zero k h z bs q dead inside live = unfold cleanup_loop in refl
cleanup_loop_diverges (suc fuel) k h z [] q dead inside live = absurd (ground arith)
cleanup_loop_diverges (suc fuel) k h z (b ∷ bs) q dead inside live =
    let queued = q.links.0 in
    let r = q.links.1 in
    let (k', run, rem) = reap-Removed k h h b bs queued r dead in
    let queued' : k'.ready_queue ≡ some b = rem.head h queued ∙ ground arith in
    let stays : IsAlive k'.tasks z = rw ((rem.same z).state) live in
    cleanup_loop-next fuel k k' h b h b r.chain.0.forth run queued' (ground (arith, r.distinct.0))
    ∙ cleanup_loop_lost fuel k' b b h z bs queued' rem.ring (ground (arith, r.distinct.0)) inside
        stays
