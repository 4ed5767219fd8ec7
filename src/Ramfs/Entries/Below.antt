-- ===== src/Ramfs/Entries/Below.antt =====
-- Paths lead to nodes of the tree, and creating keeps where they lead.
use build_your_own_os.Prelude.{
  ℕ, ◌<◌, ◌≡◌, sym, ◌∙◌, inl, inr, ap, true, Option, none, some, List, [], ◌∷◌, Str, same_name,
  eq_of_same_name, ◌==◌, All, arith, Bool-cases, Option-cases,
}
use build_your_own_os.Ramfs.{
  RamfsFsData, is_directory, find_child, ramfs_find_node, ramfs_resolve_path,
}
use build_your_own_os.Ramfs.Resolve.{components, descend, ramfs_resolve_path-descend}
use build_your_own_os.Ramfs.Entries.Laws.{IsTree, Grown}
use build_your_own_os.Ramfs.Entries.Create.{Grown-here, Grown-elsewhere}

find_child-below :
    (fs : RamfsFsData) (n : ℕ) (cs : List ℕ) (q : Str) (x : ℕ)
    → All (λ c. c < n) cs
    → find_child fs cs q ≡ some x
    → x < n
unfolding find_child
find_child-below fs n [] q x h e = cc
find_child-below fs n (c ∷ cs) q x (h, hs) e = elim (Bool-cases (same_name (fs.node c).name q)) [
  | inl yes_ ↦ let w : ◌≡◌ {A = Option ℕ} (some c) (some x) = rw yes_ at e in ground (arith, h)
  | inr no_ ↦ find_child-below fs n cs q x hs (rw no_ at e)
]

find_node-below :
    (fs : RamfsFsData) (p : ℕ) (q : Str) (x : ℕ)
    → IsTree fs
    → p < fs.allocated
    → ramfs_find_node fs p q ≡ some x
    → x < fs.allocated
unfolding ramfs_find_node
find_node-below fs p q x t h e = elim (Bool-cases (is_directory (fs.node p))) [
  | inl dir ↦ find_child-below fs fs.allocated (fs.node p).children q x (t.below p h) (rw dir at e)
  | inr file ↦ let w : ◌≡◌ {A = Option ℕ} none (some x) = rw file at e in absurd (cc)
]

pub descend-below :
    (fs : RamfsFsData) (i : ℕ) (ns : List Str) (x : ℕ)
    → IsTree fs
    → i < fs.allocated
    → descend fs i ns ≡ some x
    → x < fs.allocated
descend-below fs i [] x t h e = ground (arith, h)
descend-below fs i (q ∷ ns) x t h e = elim (Option-cases (ramfs_find_node fs i q)) [
  | inl missing ↦
      let w : ◌≡◌ {A = Option ℕ} none (some x) = rw (missing, descend) at e in absurd (cc)
  | inr (m, found) ↦
      descend-below fs m ns x t (find_node-below fs i q m t h found) (rw (found, descend) at e)
]

module _ (fs fs' : RamfsFsData) (p : ℕ) (name : Str) (mode : ℕ) (t : IsTree fs)
    (there : p < fs.allocated) (g : Grown fs p name mode fs')
    (dir : is_directory (fs.node p) ≡ true) (absent : ramfs_find_node fs p name ≡ none) where
  find_node-keeps :
      (i : ℕ) (q : Str) (x : ℕ)
      → i < fs.allocated
      → ramfs_find_node fs i q ≡ some x
      → ramfs_find_node fs' i q ≡ some x
  find_node-keeps i q x h e = elim (Bool-cases (i == p)) [
    | inr ne ↦ Grown-elsewhere fs fs' p name mode t there g i h (ground arith) q ∙ e
    | inl eq ↦ elim (Bool-cases (same_name name q)) [
      | inr other ↦
          let w : i ≡ p = ground arith in
          let step = Grown-here fs fs' p name mode t there g q dir in
          ap (λ j. ramfs_find_node fs' j q) w
          ∙ (rw other at step)
          ∙ ap (λ j. ramfs_find_node fs j q) (sym w)
          ∙ e
      | inl same ↦
          let w : i ≡ p = ground arith in
          let n : ◌≡◌ {A = Option ℕ} none (some x) =
            sym absent
            ∙ ap (ramfs_find_node fs p) (eq_of_same_name name q same)
            ∙ ap (λ j. ramfs_find_node fs j q) (sym w)
            ∙ e in
          absurd (cc)
    ]
  ]

  descend-keeps :
      (i : ℕ) (ns : List Str) (x : ℕ)
      → i < fs.allocated
      → descend fs i ns ≡ some x
      → descend fs' i ns ≡ some x
  descend-keeps i [] x h e = e
  descend-keeps i (q ∷ ns) x h e = elim (Option-cases (ramfs_find_node fs i q)) [
    | inl missing ↦
        let w : ◌≡◌ {A = Option ℕ} none (some x) = rw (missing, descend) at e in absurd (cc)
    | inr (m, found) ↦
        rw (find_node-keeps i q m h found, descend)
          (descend-keeps m ns x (find_node-below fs i q m t h found) (rw (found, descend) at e))
  ]

  pub resolve-keeps :
      (path : Str) (x : ℕ)
      → ramfs_resolve_path fs path ≡ some x
      → ramfs_resolve_path fs' path ≡ some x
  resolve-keeps path x e =
      ramfs_resolve_path-descend fs' path
      ∙ ap (λ r. descend fs' r (components path)) g.root
      ∙ descend-keeps fs.root (components path) x t.rooted
          (sym (ramfs_resolve_path-descend fs path) ∙ e)
