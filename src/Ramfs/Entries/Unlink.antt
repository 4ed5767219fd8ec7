-- ===== src/Ramfs/Entries/Unlink.antt =====
-- What destroying a node keeps, and the children of a directory without one.
use build_your_own_os.Prelude.{
  ℕ, zero, suc, ◌≡◌, refl, sym, ◌∙◌, inl, inr, ap, subst, true, false, Option, none, some, List, [],
  ◌∷◌, Str, same_name, same_name_comm, eq_of_same_name, ◌==◌, if◌then◌else◌, All, arith, Bool-cases,
}
use build_your_own_os.Ramfs.{
  RamfsNode, RamfsFsData, put_node, find_child, destroy_each, ramfs_destroy_node,
}
use build_your_own_os.Ramfs.Entries.{unlink_child}
use build_your_own_os.Ramfs.Entries.Laws.{NamesDiffer}

-- Names, modes and children are the same everywhere.
pub record SameLinks (fs fs' : RamfsFsData) : Type 0 where
  pub name : (i : ℕ) → (fs'.node i).name ≡ (fs.node i).name
  pub mode : (i : ℕ) → (fs'.node i).mode ≡ (fs.node i).mode
  pub children : (i : ℕ) → (fs'.node i).children ≡ (fs.node i).children
  pub root : fs'.root ≡ fs.root
  pub allocated : fs'.allocated ≡ fs.allocated

SameLinks-refl : (fs : RamfsFsData) → SameLinks fs fs
SameLinks-refl fs = record {
  name = λ i. refl;
  mode = λ i. refl;
  children = λ i. refl;
  root = refl;
  allocated = refl;
}

SameLinks-trans : (a b c : RamfsFsData) → SameLinks a b → SameLinks b c → SameLinks a c
SameLinks-trans a b c h k = record {
  name = λ i. k.name i ∙ h.name i;
  mode = λ i. k.mode i ∙ h.mode i;
  children = λ i. k.children i ∙ h.children i;
  root = k.root ∙ h.root;
  allocated = k.allocated ∙ h.allocated;
}

pub node_cases :
    (fs : RamfsFsData) (i j : ℕ) (n : RamfsNode) (P : RamfsNode → Type 0)
    → (i ≡ j → P n)
    → P (fs.node j)
    → P ((put_node fs i n).node j)
node_cases fs i j n P h k = elim (Bool-cases (i == j)) [
  | inl e ↦ rw e (h (ground arith))
  | inr e ↦ rw e k
]

without_content :
    (fs : RamfsFsData) (i : ℕ)
    → SameLinks fs (put_node fs i (record (fs.node i) { content = none }))
without_content fs i = record {
  name = λ j.
      node_cases fs i j (record (fs.node i) { content = none }) (λ n. n.name ≡ (fs.node j).name)
        (λ e. ap (λ k. (fs.node k).name) e) refl;
  mode = λ j.
      node_cases fs i j (record (fs.node i) { content = none }) (λ n. n.mode ≡ (fs.node j).mode)
        (λ e. ap (λ k. (fs.node k).mode) e) refl;
  children = λ j.
      node_cases fs i j (record (fs.node i) { content = none })
        (λ n. n.children ≡ (fs.node j).children) (λ e. ap (λ k. (fs.node k).children) e) refl;
  root = refl;
  allocated = refl;
}

destroy_each-SameLinks :
    (d : RamfsFsData → ℕ → RamfsFsData)
    → ((fs : RamfsFsData) (i : ℕ) → SameLinks fs (d fs i))
    → (fs : RamfsFsData) (cs : List ℕ) → SameLinks fs (destroy_each d fs cs)
unfolding destroy_each
destroy_each-SameLinks d h fs [] = SameLinks-refl fs
destroy_each-SameLinks d h fs (c ∷ cs) =
    SameLinks-trans fs (d fs c) (destroy_each d (d fs c) cs) (h fs c)
      (destroy_each-SameLinks d h (d fs c) cs)

pub ramfs_destroy_node-SameLinks :
    (fuel : ℕ) (fs : RamfsFsData) (i : ℕ) → SameLinks fs (ramfs_destroy_node fuel fs i)
unfolding ramfs_destroy_node
ramfs_destroy_node-SameLinks zero fs i = SameLinks-refl fs
ramfs_destroy_node-SameLinks (suc fuel) fs i =
    let fs1 : RamfsFsData = put_node fs i (record (fs.node i) { content = none }) in
    SameLinks-trans fs fs1 (ramfs_destroy_node (suc fuel) fs i) (without_content fs i) (
      destroy_each-SameLinks (ramfs_destroy_node fuel) (ramfs_destroy_node-SameLinks fuel) fs1
        (fs.node i).children)

-- The children without the one of that name, where names differ.
pub data Unlinked (fs : RamfsFsData) (cs : List ℕ) (name : Str) (r : Option (ℕ × List ℕ))
    : Type 1 where
  missing : r ≡ none → find_child fs cs name ≡ none → Unlinked fs cs name r
  found :
      (child : ℕ) (others : List ℕ)
      → r ≡ some (child, others)
      → find_child fs cs name ≡ some child
      → ((q : Str)
          → find_child fs others q ≡ (if same_name name q then none else find_child fs cs q))
      → ((P : ℕ → Type 0) → All P cs → All P others)
      → NamesDiffer fs others
      → Unlinked fs cs name r

absent_among :
    (fs : RamfsFsData) (cs : List ℕ) (q : Str)
    → All (λ d. same_name q (fs.node d).name ≡ false) cs
    → find_child fs cs q ≡ none
unfolding find_child
absent_among fs [] q h = refl
absent_among fs (c ∷ cs) q (h, hs) =
    rw (same_name_comm (fs.node c).name q, h, absent_among fs cs q hs)

find_unlinked :
    (fs : RamfsFsData) (c : ℕ) (cs : List ℕ) (name : Str)
    → same_name (fs.node c).name name ≡ true
    → All (λ d. same_name (fs.node c).name (fs.node d).name ≡ false) cs
    → (q : Str) → find_child fs cs q ≡ (if same_name name q then none else find_child fs (c ∷ cs) q)
unfolding find_child
find_unlinked fs c cs name here apart q =
    let w : (fs.node c).name ≡ name = eq_of_same_name (fs.node c).name name here in
    elim (Bool-cases (same_name name q)) [
      | inl s ↦ rw s (
          absent_among fs cs q (
            subst (λ t. All (λ d. same_name t (fs.node d).name ≡ false) cs)
              (w ∙ eq_of_same_name name q s) apart))
      | inr o ↦ rw (o, w, o)
    ]

find_unlinked_later :
    (fs : RamfsFsData) (c : ℕ) (cs others : List ℕ) (name : Str)
    → same_name (fs.node c).name name ≡ false
    → ((q : Str) → find_child fs others q ≡ (if same_name name q then none else find_child fs cs q))
    → (q : Str)
    → find_child fs (c ∷ others) q ≡ (if same_name name q then none else find_child fs (c ∷ cs) q)
unfolding find_child
find_unlinked_later fs c cs others name there finds q =
    elim (Bool-cases (same_name (fs.node c).name q)) [
      | inl m ↦
          let e : same_name name q ≡ false =
            ap (same_name name) (sym (eq_of_same_name (fs.node c).name q m))
            ∙ same_name_comm name (fs.node c).name
            ∙ there in
          rw (m, e)
      | inr m ↦ rw (m, finds q)
    ]

pub unlink_child-Unlinked :
    (fs : RamfsFsData) (cs : List ℕ) (name : Str)
    → NamesDiffer fs cs
    → Unlinked fs cs name (unlink_child fs cs name)
unfolding unlink_child find_child
unlink_child-Unlinked fs [] name d = missing refl refl
unlink_child-Unlinked fs (c ∷ cs) name (apart, d) =
    elim (Bool-cases (same_name (fs.node c).name name)) [
      | inl here ↦
          found c cs (rw here) (rw here) (find_unlinked fs c cs name here apart) (λ P h. h.1) d
      | inr there ↦ elim (unlink_child-Unlinked fs cs name d) [
        | missing r e ↦ missing (rw (there, r)) (rw (there, e))
        | found child others r e finds sub differ ↦
            found child (c ∷ others) (rw (there, r)) (rw (there, e))
              (find_unlinked_later fs c cs others name there finds) (λ P h. (h.0, sub P h.1))
              (sub (λ x. same_name (fs.node c).name (fs.node x).name ≡ false) apart, differ)
      ]
    ]
