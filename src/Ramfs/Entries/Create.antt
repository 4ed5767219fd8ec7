-- ===== src/Ramfs/Entries/Create.antt =====
-- What `create_in`, the end of ramfs_create_file and ramfs_create_directory, does on every branch.
use build_your_own_os.Prelude.{
  ℕ, suc, ◌+◌, ◌≤◌, ◌<◌, ◌≡◌, ◌≢◌, sym, ◌∙◌, inl, inr, ap, Bool, true, false, Option, none, some,
  List, [], ◌∷◌, Str, same_name, leb, ◌==◌, if◌then◌else◌, All, All-map, length, arith, Bool-cases,
  Option-cases, ℤ,
}
use build_your_own_os.Ramfs.{
  RamfsNode, RamfsFsData, new_node, put_node, is_directory, find_child, ramfs_create_node,
  destroy_each, ramfs_destroy_node, ramfs_find_node, vfs_success, vfs_einval, vfs_eexist,
  vfs_enomem, ramfs_max_name,
}
use build_your_own_os.Ramfs.Entries.{ramfs_add_child, create_in}
use build_your_own_os.Ramfs.Entries.Laws.{
  NamesDiffer, IsTree, Grown, with_node, created, created-Grown, find_child-none, All-SameTree,
  NamesDiffer-SameTree, find_node-cons, find_node-same,
}

find_node_directory :
    (fs : RamfsFsData) (p : ℕ) (q : Str)
    → is_directory (fs.node p) ≡ true
    → ramfs_find_node fs p q ≡ find_child fs (fs.node p).children q
unfolding ramfs_find_node
find_node_directory fs p q dir = rw dir

module _ (fs fs' : RamfsFsData) (p : ℕ) (name : Str) (mode : ℕ) (t : IsTree fs)
    (there : p < fs.allocated) (g : Grown fs p name mode fs') where
  below_next : (cs : List ℕ) → All (λ c. c < fs.allocated) cs → All (λ c. c < fs'.allocated) cs
  below_next cs =
      All-map (λ c. c < fs.allocated) (λ c. c < fs'.allocated) cs
        (λ c h. omega (arith, h, g.allocated))

  -- A node of the new state is the new one, the parent, or another.
  by_node :
      (P : ℕ → RamfsNode → Type 0)
      → P fs.allocated (record (new_node name mode fs.next_ino) { parent = some p })
      → P p (record (fs.node p) { children = fs.allocated ∷ (fs.node p).children })
      → ((i : ℕ) → i < fs.allocated → i ≢ p → P i (fs.node i))
      → (i : ℕ) → i < fs'.allocated
      → P i (fs'.node i)
  by_node P new parent old i h = elim (Bool-cases (i == fs.allocated)) [
    | inl e ↦ let q : i ≡ fs.allocated = ground arith in rw (q, g.made) new
    | inr ne ↦ elim (Bool-cases (i == p)) [
      | inl e ↦ let q : i ≡ p = ground arith in rw (q, g.parent) parent
      | inr other ↦
          let l : i < fs.allocated = ground (arith, g.allocated) in
          rw (g.old i l (ground arith)) (old i l (ground arith))
    ]
  ]

  differ : (cs : List ℕ) → All (λ c. c < fs.allocated) cs → NamesDiffer fs cs → NamesDiffer fs' cs
  differ cs = NamesDiffer-SameTree fs fs' fs.allocated cs g.same

  Grown-IsTree : is_directory (fs.node p) ≡ true → ramfs_find_node fs p name ≡ none → IsTree fs'
  Grown-IsTree dir absent =
      let cs : List ℕ = (fs.node p).children in
      let m : (fs'.node fs.allocated).name ≡ name = ap (λ n. n.name) g.made in
      let apart = find_child-none fs cs name (sym (find_node_directory fs p name dir) ∙ absent) in
      record {
        rooted = omega (arith, t.rooted, g.root, g.allocated);
        below =
            by_node (λ i n. All (λ c. c < fs'.allocated) n.children) tt
              (omega (arith, g.allocated), below_next cs (t.below p there))
              (λ i h ne. below_next (fs.node i).children (t.below i h));
        distinct =
            by_node (λ i n. NamesDiffer fs' n.children) tt
              (
                rw m (All-SameTree fs fs' fs.allocated name cs g.same (t.below p there) apart),
                differ cs (t.below p there) (t.distinct p there),
              )
              (λ i h ne. differ (fs.node i).children (t.below i h) (t.distinct i h));
      }

  pub Grown-here :
      (q : Str)
      → is_directory (fs.node p) ≡ true
      → ramfs_find_node fs' p q
        ≡ (if same_name name q then some fs.allocated else ramfs_find_node fs p q)
  Grown-here q dir =
      let m : (fs'.node fs.allocated).name ≡ name = ap (λ n. n.name) g.made in
      let step =
        find_node-cons fs fs' fs.allocated p fs.allocated q g.same there (t.below p there)
          (ap (λ n. n.children) g.parent) dir in
      rw m at step

  pub Grown-elsewhere :
      (i : ℕ)
      → i < fs.allocated
      → i ≢ p
      → (q : Str) → ramfs_find_node fs' i q ≡ ramfs_find_node fs i q
  Grown-elsewhere i h ne q =
      find_node-same fs fs' fs.allocated i q g.same h (t.below i h)
        (ap (λ n. n.children) (g.old i h ne))

destroy_leaf :
    (fuel : ℕ) (fs : RamfsFsData) (i : ℕ)
    → (fs.node i).children ≡ []
    → ramfs_destroy_node (suc fuel) fs i ≡ put_node fs i (record (fs.node i) { content = none })
unfolding ramfs_destroy_node destroy_each
destroy_leaf fuel fs i leaf =
    ap
      (destroy_each (ramfs_destroy_node fuel)
        (put_node fs i (record (fs.node i) { content = none })))
      leaf

-- The outcomes of creating `name` in `p`: it is there; there is no memory; the name overruns its field; `p` is
-- no directory, and only a node that is not in the tree is added; or the name is added.
pub data Creation (fs : RamfsFsData) (p : ℕ) (name : Str) (mode : ℕ) (granted : Bool)
    (r : Option (ℤ × RamfsFsData)) : Type 0 where
  exists :
      (there : ℕ)
      → ramfs_find_node fs p name ≡ some there
      → r ≡ some (vfs_eexist, fs)
      → Creation fs p name mode granted r
  no_memory : granted ≡ false → r ≡ some (vfs_enomem, fs) → Creation fs p name mode granted r
  overrun : 255 ≤ length name → r ≡ none → Creation fs p name mode granted r
  no_directory :
      (fs' : RamfsFsData)
      → is_directory (fs.node p) ≡ false
      → r ≡ some (vfs_einval, fs')
      → ((i : ℕ) → i < fs.allocated → fs'.node i ≡ fs.node i)
      → fs'.root ≡ fs.root
      → Creation fs p name mode granted r
  added :
      (fs' : RamfsFsData)
      → is_directory (fs.node p) ≡ true
      → length name < 255
      → ramfs_find_node fs p name ≡ none
      → r ≡ some (vfs_success, fs')
      → Grown fs p name mode fs'
      → IsTree fs'
      → Creation fs p name mode granted r

module _ (fs : RamfsFsData) (p : ℕ) (name : Str) (mode : ℕ) (t : IsTree fs)
    (there : p < fs.allocated) (absent : ramfs_find_node fs p name ≡ none)
    (short : leb ramfs_max_name (length name) ≡ false) where
  parent_kept : ((with_node fs name mode).node p) ≡ fs.node p
  parent_kept = let e : (fs.allocated == p) ≡ false = ground (arith, there) in rw e

  create_in-added :
      is_directory (fs.node p) ≡ true
      → create_in fs p name mode true ≡ some (vfs_success, created fs p name mode)
  unfolding create_in ramfs_create_node ramfs_add_child
  create_in-added dir = rw (absent, create_in, short, parent_kept, dir)

  -- the new node loses its data, of which it has none
  refused : RamfsFsData
  refused = ramfs_destroy_node (suc (fs.allocated + 1)) (with_node fs name mode) fs.allocated

  create_in-refused :
      is_directory (fs.node p) ≡ false → create_in fs p name mode true ≡ some (vfs_einval, refused)
  unfolding create_in ramfs_create_node ramfs_add_child refused
  create_in-refused dir = rw (absent, create_in, short, parent_kept, dir)

  new_node_leaf : ((with_node fs name mode).node fs.allocated).children ≡ []
  new_node_leaf = let e : (fs.allocated == fs.allocated) ≡ true = ground arith in rw e

  refused-keeps : (i : ℕ) → i < fs.allocated → refused.node i ≡ fs.node i
  unfolding refused
  refused-keeps i h =
      let e : (fs.allocated == i) ≡ false = ground (arith, h) in
      rw (destroy_leaf (fs.allocated + 1) (with_node fs name mode) fs.allocated new_node_leaf, e)

  refused-root : refused.root ≡ fs.root
  unfolding refused
  refused-root =
      rw (destroy_leaf (fs.allocated + 1) (with_node fs name mode) fs.allocated new_node_leaf)

-- create_in on every branch.
pub create_in-Creation :
    (fs : RamfsFsData) (p : ℕ) (name : Str) (mode : ℕ) (granted : Bool)
    → IsTree fs
    → p < fs.allocated
    → Creation fs p name mode granted (create_in fs p name mode granted)
unfolding create_in ramfs_create_node
create_in-Creation fs p name mode granted t there =
    elim (Option-cases (ramfs_find_node fs p name)) [
      | inr (n, found) ↦ exists n found (rw (found, create_in))
      | inl absent ↦ elim (Bool-cases granted) [
        | inr refusal ↦ no_memory refusal (rw (absent, create_in, refusal))
        | inl given ↦ elim (Bool-cases (leb ramfs_max_name (length name))) [
          | inl long ↦ overrun (ground arith) (rw (absent, create_in, given, long))
          | inr short ↦ elim (Bool-cases (is_directory (fs.node p))) [
            | inl dir ↦
                let g = created-Grown fs p name mode there in
                added (created fs p name mode) dir (ground arith) absent
                  (rw given (create_in-added fs p name mode t there absent short dir)) g
                  (Grown-IsTree fs (created fs p name mode) p name mode t there g dir absent)
            | inr file ↦
                no_directory (refused fs p name mode t there absent short) file
                  (rw given (create_in-refused fs p name mode t there absent short file))
                  (refused-keeps fs p name mode t there absent short)
                  (refused-root fs p name mode t there absent short)
          ]
        ]
      ]
    ]
