-- ===== src/Ramfs/Entries/Laws.antt =====
-- A directory of the RAM file system as a map from names to nodes: what creating changes.
use build_your_own_os.Prelude.{
  ℕ, ◌+◌, ◌%◌, ◌^◌, ◌<◌, ◌≡◌, ◌≢◌, refl, ◌∙◌, inl, inr, true, false, none, some, List, [], ◌∷◌, Str,
  same_name, ◌==◌, if◌then◌else◌, All, same_name_comm, arith, Bool-cases,
}
use build_your_own_os.Ramfs.{
  RamfsFsData, new_node, put_node, is_directory, find_child, ramfs_find_node,
}

-- Of the nodes, no two have the same name.
abbrev pub NamesDiffer : RamfsFsData → List ℕ → Type 0
NamesDiffer fs [] = Unit
NamesDiffer fs (c ∷ cs) =
    All (λ d. same_name (fs.node c).name (fs.node d).name ≡ false) cs × NamesDiffer fs cs

-- The root and the children of nodes are nodes, and the names in a directory differ.
pub record IsTree (fs : RamfsFsData) : Type 0 where
  pub rooted : fs.root < fs.allocated
  pub below : (i : ℕ) → i < fs.allocated → All (λ c. c < fs.allocated) (fs.node i).children
  pub distinct : (i : ℕ) → i < fs.allocated → NamesDiffer fs (fs.node i).children

-- The nodes before the `n`th have the same names, modes and children.
pub record SameTree (fs fs' : RamfsFsData) (n : ℕ) : Type 0 where
  pub name : (i : ℕ) → i < n → (fs'.node i).name ≡ (fs.node i).name
  pub mode : (i : ℕ) → i < n → (fs'.node i).mode ≡ (fs.node i).mode

pub find_child-SameTree :
    (fs fs' : RamfsFsData) (n : ℕ) (cs : List ℕ) (q : Str)
    → SameTree fs fs' n
    → All (λ c. c < n) cs
    → find_child fs' cs q ≡ find_child fs cs q
unfolding find_child
find_child-SameTree fs fs' n [] q s h = refl
find_child-SameTree fs fs' n (c ∷ cs) q s (h, hs) =
    rw (s.name c h, find_child-SameTree fs fs' n cs q s hs)

-- the state after `ramfs_create_node`
abbrev pub with_node : RamfsFsData → (name : Str) → (mode : ℕ) → RamfsFsData
with_node fs name mode = record (put_node fs fs.allocated (new_node name mode fs.next_ino)) {
  next_ino = (fs.next_ino + 1) % 2 ^ 32;
  file_count = (fs.file_count + 1) % 2 ^ 32;
  allocated = fs.allocated + 1;
}

-- the state after the new node has become a child
abbrev pub with_parent : RamfsFsData → (p child : ℕ) → RamfsFsData
with_parent fs p child = put_node fs child (record (fs.node child) { parent = some p })

abbrev pub with_child : RamfsFsData → (p child : ℕ) → RamfsFsData
with_child fs p child =
    let fs1 = with_parent fs p child in
    put_node fs1 p (record (fs1.node p) { children = child ∷ (fs1.node p).children })

abbrev pub created : RamfsFsData → (p : ℕ) → (name : Str) → (mode : ℕ) → RamfsFsData
created fs p name mode = with_child (with_node fs name mode) p fs.allocated

-- The new node is a child of `p`, and no other node has changed.
pub record Grown (fs : RamfsFsData) (p : ℕ) (name : Str) (mode : ℕ) (fs' : RamfsFsData)
    : Type 0 where
  pub made : fs'.node fs.allocated ≡ record (new_node name mode fs.next_ino) { parent = some p }
  pub old : (i : ℕ) → i < fs.allocated → i ≢ p → fs'.node i ≡ fs.node i
  pub parent : fs'.node p ≡ record (fs.node p) { children = fs.allocated ∷ (fs.node p).children }
  pub same : SameTree fs fs' fs.allocated
  pub root : fs'.root ≡ fs.root
  pub allocated : fs'.allocated ≡ fs.allocated + 1

module _ (fs : RamfsFsData) (p : ℕ) (name : Str) (mode : ℕ) (there : p < fs.allocated) where
  made :
      (created fs p name mode).node fs.allocated
      ≡ record (new_node name mode fs.next_ino) { parent = some p }
  made =
      let e1 : (p == fs.allocated) ≡ false = ground (arith, there) in
      let e2 : (fs.allocated == fs.allocated) ≡ true = ground arith in rw (e1, e2)

  node_old : (i : ℕ) → i < fs.allocated → i ≢ p → (created fs p name mode).node i ≡ fs.node i
  node_old i h ne =
      let e1 : (p == i) ≡ false = ground (arith, ne) in
      let e2 : (fs.allocated == i) ≡ false = ground (arith, h) in rw (e1, e2)

  node_parent :
      (created fs p name mode).node p
      ≡ record (fs.node p) { children = fs.allocated ∷ (fs.node p).children }
  node_parent =
      let e1 : (p == p) ≡ true = ground arith in
      let e2 : (fs.allocated == p) ≡ false = ground (arith, there) in rw (e1, e2)

  same : SameTree fs (created fs p name mode) fs.allocated
  same = record {
    name = λ i h. elim (Bool-cases (p == i)) [
      | inl e ↦ let q : i ≡ p = ground arith in rw (q, node_parent)
      | inr e ↦ rw (node_old i h (ground arith))
    ];
    mode = λ i h. elim (Bool-cases (p == i)) [
      | inl e ↦ let q : i ≡ p = ground arith in rw (q, node_parent)
      | inr e ↦ rw (node_old i h (ground arith))
    ];
  }

  pub created-Grown : Grown fs p name mode (created fs p name mode)
  created-Grown = record {
    made = made;
    old = node_old;
    parent = node_parent;
    same = same;
    root = refl;
    allocated = refl;
  }

pub find_child-none :
    (fs : RamfsFsData) (cs : List ℕ) (q : Str)
    → find_child fs cs q ≡ none
    → All (λ d. same_name q (fs.node d).name ≡ false) cs
unfolding find_child
find_child-none fs [] q h = tt
find_child-none fs (c ∷ cs) q h = (
  same_name_comm q (fs.node c).name ∙ ground (arith, h),
  find_child-none fs cs q (ground (arith, h)),
)

pub All-SameTree :
    (fs fs' : RamfsFsData) (n : ℕ) (s : Str) (cs : List ℕ)
    → SameTree fs fs' n
    → All (λ c. c < n) cs
    → All (λ d. same_name s (fs.node d).name ≡ false) cs
    → All (λ d. same_name s (fs'.node d).name ≡ false) cs
All-SameTree fs fs' n s [] k h a = tt
All-SameTree fs fs' n s (c ∷ cs) k (h, hs) (a, as_) =
    (rw (k.name c h) a, All-SameTree fs fs' n s cs k hs as_)

pub NamesDiffer-SameTree :
    (fs fs' : RamfsFsData) (n : ℕ) (cs : List ℕ)
    → SameTree fs fs' n
    → All (λ c. c < n) cs
    → NamesDiffer fs cs
    → NamesDiffer fs' cs
NamesDiffer-SameTree fs fs' n [] k h d = tt
NamesDiffer-SameTree fs fs' n (c ∷ cs) k (h, hs) (d, ds) = (
  rw (k.name c h) (All-SameTree fs fs' n (fs.node c).name cs k hs d),
  NamesDiffer-SameTree fs fs' n cs k hs ds,
)

-- one child more in the directory `p`
pub find_node-cons :
    (fs fs' : RamfsFsData) (n p child : ℕ) (q : Str)
    → SameTree fs fs' n
    → p < n
    → All (λ c. c < n) (fs.node p).children
    → (fs'.node p).children ≡ child ∷ (fs.node p).children
    → is_directory (fs.node p) ≡ true
    → ramfs_find_node fs' p q
      ≡ (if same_name (fs'.node child).name q then some child else ramfs_find_node fs p q)
unfolding ramfs_find_node find_child
find_node-cons fs fs' n p child q s h below e dir =
    rw (s.mode p h, dir, e, find_child-SameTree fs fs' n (fs.node p).children q s below)

-- the same children
pub find_node-same :
    (fs fs' : RamfsFsData) (n p : ℕ) (q : Str)
    → SameTree fs fs' n
    → p < n
    → All (λ c. c < n) (fs.node p).children
    → (fs'.node p).children ≡ (fs.node p).children
    → ramfs_find_node fs' p q ≡ ramfs_find_node fs p q
unfolding ramfs_find_node
find_node-same fs fs' n p q s h below e =
    rw (s.mode p h, e, find_child-SameTree fs fs' n (fs.node p).children q s below)
