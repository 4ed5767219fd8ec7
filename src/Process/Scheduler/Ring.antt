-- ===== src/Process/Scheduler/Ring.antt =====
-- The circular list of tasks as a list of indices, seen from one task of it.
use build_your_own_os.Prelude.{
  ℕ, ◌≡◌, refl, ◌≢◌, ◌∙◌, sym, subst, Bool, true, false, ◌||◌, some, List, [], ◌∷◌, ◌++◌, arith,
  ◌==◌,
}
use build_your_own_os.Process.State.{Tasks}
use build_your_own_os.Process.Scheduler.{link_in, link_out, clear_links}

abbrev pub has : ℕ → List ℕ → Bool
has a [] = false
has a (x ∷ xs) = a == x || has a xs

abbrev pub Distinct : List ℕ → Type 0
Distinct [] = Unit
Distinct (x ∷ xs) = (has x xs ≡ false) × Distinct xs

-- the last of `a ∷ xs`
abbrev pub last : ℕ → List ℕ → ℕ
last a [] = a
last a (x ∷ xs) = last x xs

-- `b` follows `a`
pub record Link (t : Tasks) (a b : ℕ) : Type 0 where
  pub forth : (t a).next ≡ some b
  pub back : (t b).prev ≡ some a

-- from `a` on through the tasks of the list
abbrev pub Chain : Tasks → ℕ → List ℕ → Type 0
Chain t a [] = Unit
Chain t a (b ∷ bs) = Link t a b × Chain t b bs

-- From `a` the links lead through the tasks of the list and back to `a`; no task occurs twice.
pub record Ring (t : Tasks) (a : ℕ) (bs : List ℕ) : Type 0 where
  pub chain : Chain t a bs
  pub closed : Link t (last a bs) a
  pub distinct : Distinct (a ∷ bs)

pub has-append : (a : ℕ) (xs ys : List ℕ) → has a (xs ++ ys) ≡ (has a xs || has a ys)
has-append a [] ys = refl
has-append a (x ∷ xs) ys = ground (arith, has-append a xs ys)

pub has-last : (a : ℕ) (xs : List ℕ) → has (last a xs) (a ∷ xs) ≡ true
has-last a [] = ground arith
has-last a (x ∷ xs) = ground (arith, has-last x xs)

pub last-append : (a n : ℕ) (xs : List ℕ) → last a (xs ++ n ∷ []) ≡ n
last-append a n [] = refl
last-append a n (x ∷ xs) = last-append x n xs

Distinct-snoc : (n : ℕ) (xs : List ℕ) → Distinct xs → has n xs ≡ false → Distinct (xs ++ n ∷ [])
Distinct-snoc n [] d h = (refl, tt)
Distinct-snoc n (x ∷ xs) d h =
    (ground (arith, has-append x xs (n ∷ []), d.0), Distinct-snoc n xs d.1 (ground arith))

Chain-snoc :
    (t : Tasks) (a n : ℕ) (xs : List ℕ)
    → Chain t a xs
    → Link t (last a xs) n
    → Chain t a (xs ++ n ∷ [])
Chain-snoc t a n [] c l = (l, tt)
Chain-snoc t a n (x ∷ xs) c l = (c.0, Chain-snoc t x n xs c.1 l)

-- A chain survives changes to the `next` of its last task and to the `prev` of its first.
Chain-frame :
    (t t' : Tasks) (a : ℕ) (xs : List ℕ)
    → Distinct (a ∷ xs)
    → ((y : ℕ) → has y (a ∷ xs) ≡ true → y ≢ last a xs → (t' y).next ≡ (t y).next)
    → ((y : ℕ) → has y xs ≡ true → (t' y).prev ≡ (t y).prev)
    → Chain t a xs
    → Chain t' a xs
Chain-frame t t' a [] d n p c = tt
Chain-frame t t' a (x ∷ xs) d n p c = (
  record {
    forth = n a (ground arith) (λ e. ground (arith, has-last x xs, d.0)) ∙ c.0.forth;
    back = p x (ground arith) ∙ c.0.back;
  },
  Chain-frame t t' x xs d.1 (λ y h. n y (ground arith)) (λ y h. p y (ground arith)) c.1,
)

-- The links are those of `t` at every task of the list.
abbrev pub SameLinks : Tasks → Tasks → List ℕ → Type 0
SameLinks t t' xs =
    (y : ℕ) → has y xs ≡ true → ((t' y).next ≡ (t y).next) × ((t' y).prev ≡ (t y).prev)

-- A ring survives every change that leaves the links of its tasks alone.
pub Ring-frame :
    (t t' : Tasks) (a : ℕ) (bs : List ℕ) → SameLinks t t' (a ∷ bs) → Ring t a bs → Ring t' a bs
Ring-frame t t' a bs same r = record {
  chain =
      Chain-frame t t' a bs r.distinct (λ y h _. (same y h).0) (λ y h. (same y (ground arith)).1)
        r.chain;
  closed = record {
    forth = (same (last a bs) (has-last a bs)).0 ∙ r.closed.forth;
    back = (same a (ground arith)).1 ∙ r.closed.back;
  };
  distinct = r.distinct;
}

module _ (t : Tasks) where
  -- The ring seen from the next task.
  pub Ring-rotate : (a b : ℕ) (bs : List ℕ) → Ring t a (b ∷ bs) → Ring t b (bs ++ a ∷ [])
  Ring-rotate a b bs r = record {
    chain = Chain-snoc t b a bs r.chain.1 r.closed;
    closed = rw (last-append b a bs) r.chain.0;
    distinct = Distinct-snoc a (b ∷ bs) r.distinct.1 r.distinct.0;
  }

  -- `scheduler_add_task` puts the new task behind the last one.
  pub Ring-link_in :
      (a n : ℕ) (bs : List ℕ)
      → Ring t a bs
      → has n (a ∷ bs) ≡ false
      → Ring (link_in t n a (last a bs)) a (bs ++ n ∷ [])
  Ring-link_in a n bs r out =
      let t' = link_in t n a (last a bs) in
      let inside = has-last a bs in
      record {
        chain =
            Chain-snoc t' a n bs
              (Chain-frame t t' a bs r.distinct (λ y h ne. ground arith)
                (λ y h. ground (arith, r.distinct.0)) r.chain)
              (record { forth = ground arith; back = ground arith });
        closed =
            subst (λ z. Link t' z a) (sym (last-append a n bs))
              (record { forth = ground arith; back = ground arith });
        distinct = Distinct-snoc n (a ∷ bs) r.distinct out;
      }

  -- Taking out the first task leaves the ring of the others.
  pub Ring-link_out :
      (a b : ℕ) (bs : List ℕ)
      → Ring t a (b ∷ bs)
      → Ring (clear_links (link_out t a (last b bs) b) a) b bs
  Ring-link_out a b bs r =
      let t' = clear_links (link_out t a (last b bs) b) a in
      let inside = has-last b bs in
      record {
        chain =
            Chain-frame t t' b bs r.distinct.1 (λ y h ne. ground (arith, r.distinct.0))
              (λ y h. ground (arith, r.distinct.0, r.distinct.1.0)) r.chain.1;
        closed = record {
          forth = ground (arith, r.distinct.0);
          back = ground (arith, r.distinct.0);
        };
        distinct = r.distinct.1;
      }
