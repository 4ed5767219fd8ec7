-- ===== src/Process/Scheduler/Choice.antt =====
-- The search of `scheduler_pick_next_task`: which task of the queue it finds.
use build_your_own_os.Prelude.{
  ℕ, zero, suc, ◌≤◌, ◌<◌, ◌≡◌, refl, ◌∙◌, sym, ap, true, false, ◌&&◌, Option, some, List, [], ◌∷◌,
  ◌++◌, arith, ◌==◌, if◌then◌else◌, length, Bool-cases, inl, inr, All,
}
use build_your_own_os.Process.State.{Tasks, ok, ready, priority_high}
use build_your_own_os.Process.Scheduler.{beats, pick_loop}
use build_your_own_os.Process.Scheduler.Ring.{Chain, Link, has, last}

-- the search as a pass over the list, with no early end
unfoldable pub choose : Tasks → List ℕ → Option ℕ → ℕ → Option ℕ
choose t [] best best_priority = best
choose t (y ∷ ys) best best_priority =
    choose t ys (if beats t y best_priority then some y else best)
      (if beats t y best_priority then (t y).priority else best_priority)

-- Nothing beats the highest priority.
choose-high : (t : Tasks) (ys : List ℕ) (best : Option ℕ) → choose t ys best 0 ≡ best
unfolding choose
choose-high t [] best = refl
choose-high t (y ∷ ys) best =
    let no : beats t y 0 ≡ false = ground arith in rw no (choose-high t ys best)

module _ (fuel : ℕ) (t : Tasks) (cur next start : ℕ) (best : Option ℕ) (best_priority : ℕ)
    (forth : (t cur).next ≡ some next) where
  abbrev best' : Option ℕ
  best' = if beats t cur best_priority then some cur else best

  abbrev priority' : ℕ
  priority' = if beats t cur best_priority then (t cur).priority else best_priority

  pick_loop-next :
      (next == start) ≡ false
      → pick_loop (suc fuel) t cur start best best_priority ≡ (
          if beats t cur best_priority && (priority' == priority_high)
          then ok best'
          else pick_loop fuel t next start best' priority')
  unfolding pick_loop
  pick_loop-next far = ground (arith, forth, far)

  pick_loop-end :
      (next == start) ≡ true → pick_loop (suc fuel) t cur start best best_priority ≡ ok best'
  unfolding pick_loop
  pick_loop-end back = ground (arith, forth, back)

-- The loop goes once round the ring.
pub pick_loop-choose :
    (fuel : ℕ) (t : Tasks) (cur start : ℕ) (rest : List ℕ) (best : Option ℕ) (best_priority : ℕ)
    → Chain t cur rest
    → Link t (last cur rest) start
    → has start rest ≡ false
    → length rest < fuel
    → pick_loop fuel t cur start best best_priority ≡ ok (choose t (cur ∷ rest) best best_priority)
unfolding choose
pick_loop-choose zero t cur start rest best bp c l out h = absurd (omega arith)
pick_loop-choose (suc fuel) t cur start [] best bp c l out h =
    pick_loop-end fuel t cur start start best bp l.forth (ground arith)
pick_loop-choose (suc fuel) t cur start (b ∷ rest) best bp c l out h =
    let far : (b == start) ≡ false = ground arith in
    let b' = best' fuel t cur b start best bp c.0.forth in
    let p' = priority' fuel t cur b start best bp c.0.forth in
    let go = pick_loop-choose fuel t b start rest b' p' c.1 l (ground arith) (omega arith) in
    pick_loop-next fuel t cur b start best bp c.0.forth far
    ∙ elim (Bool-cases (beats t cur bp && (p' == priority_high))) [
      | inl stop ↦
          let top : p' ≡ 0 = ground arith in
          rw stop (ap ok (rw top (sym (choose-high t (b ∷ rest) b'))))
      | inr on ↦ rw on go
    ]

abbrev pub IsReady : Tasks → ℕ → Type 0
IsReady t y = (t y).state ≡ ready

-- What the search gives on the list: the first ready task of the best priority, if one is better
-- than `best_priority`.
pub data Choice (t : Tasks) (ys : List ℕ) (best : Option ℕ) (best_priority : ℕ) (r : Option ℕ)
    : Type 0 where
  kept :
      r ≡ best
      → All (λ y. IsReady t y → best_priority ≤ (t y).priority) ys
      → Choice t ys best best_priority r
  found :
      (pre post : List ℕ) (b : ℕ)
      → r ≡ some b
      → ys ≡ pre ++ b ∷ post
      → IsReady t b
      → (t b).priority < best_priority
      → All (λ y. IsReady t y → (t b).priority < (t y).priority) pre
      → All (λ y. IsReady t y → (t b).priority ≤ (t y).priority) post
      → Choice t ys best best_priority r

module _ {t : Tasks} (y : ℕ) (ys : List ℕ) (best : Option ℕ) (best_priority : ℕ) where
  -- the task is the best so far
  Choice-take :
      beats t y best_priority ≡ true
      → {r : Option ℕ} → Choice t ys (some y) (t y).priority r
      → Choice t (y ∷ ys) best best_priority r
  Choice-take better (kept e a) = found [] ys y e refl (ground arith) (ground arith) tt a
  Choice-take better (found pre post b e split here less before after) =
      found (y ∷ pre) post b e (ap (λ zs. y ∷ zs) split) here (ground arith) (λ _. less, before)
        after

  -- the task is no better
  Choice-skip :
      beats t y best_priority ≡ false
      → {r : Option ℕ} → Choice t ys best best_priority r
      → Choice t (y ∷ ys) best best_priority r
  Choice-skip worse (kept e a) = kept e (λ here. ground arith, a)
  Choice-skip worse (found pre post b e split here less before after) =
      found (y ∷ pre) post b e (ap (λ zs. y ∷ zs) split) here less (λ own. ground arith, before)
        after

pub choose-Choice :
    (t : Tasks) (ys : List ℕ) (best : Option ℕ) (best_priority : ℕ)
    → Choice t ys best best_priority (choose t ys best best_priority)
unfolding choose
choose-Choice t [] best bp = kept refl tt
choose-Choice t (y ∷ ys) best bp = elim (Bool-cases (beats t y bp)) [
  | inl better ↦
      rw better (Choice-take y ys best bp better (choose-Choice t ys (some y) (t y).priority))
  | inr worse ↦ rw worse (Choice-skip y ys best bp worse (choose-Choice t ys best bp))
]
