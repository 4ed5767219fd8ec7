-- ===== src/Ramfs/Entries/Remove.antt =====
-- Taking a name out of a directory of the RAM file system.
use build_your_own_os.Prelude.{
  ℕ, suc, ◌<◌, ◌≡◌, ◌≢◌, ◌⊎◌, refl, ◌∙◌, inl, inr, ap, true, false, none, some, List, Str,
  same_name, ◌==◌, if◌then◌else◌, All, arith, Bool-cases,
}
use build_your_own_os.Ramfs.{
  RamfsFsData, put_node, is_directory, find_child, ramfs_find_node, ramfs_destroy_node, vfs_success,
  vfs_enoent,
}
use build_your_own_os.Ramfs.Entries.{ramfs_remove_child}
use build_your_own_os.Ramfs.Entries.Laws.{
  IsTree, NamesDiffer, SameTree, find_child-SameTree, NamesDiffer-SameTree,
}
use build_your_own_os.Ramfs.Entries.Unlink.{
  SameLinks, node_cases, ramfs_destroy_node-SameLinks, missing, found, unlink_child-Unlinked,
}

-- The name is gone from `p`, all other names are where they were, and the tree stays well-formed.
pub record Removed (fs : RamfsFsData) (p : ℕ) (name : Str) (fs' : RamfsFsData) : Type 0 where
  pub here :
      (q : Str)
      → ramfs_find_node fs' p q ≡ (if same_name name q then none else ramfs_find_node fs p q)
  pub elsewhere :
      (i : ℕ)
      → i ≢ p
      → i < fs.allocated
      → (q : Str) → ramfs_find_node fs' i q ≡ ramfs_find_node fs i q
  pub root : fs'.root ≡ fs.root
  pub tree : IsTree fs'

module _ (fs : RamfsFsData) (p child : ℕ) (others : List ℕ) (t : IsTree fs)
    (there : p < fs.allocated) where
  unlinked : RamfsFsData
  unlinked = put_node fs p (record (fs.node p) { children = others })

  final : RamfsFsData
  final = ramfs_destroy_node (suc fs.allocated) unlinked child

  links : SameLinks unlinked final
  unfolding final
  links = ramfs_destroy_node-SameLinks (suc fs.allocated) unlinked child

  same_names : SameTree fs final fs.allocated
  unfolding unlinked
  same_names = record {
    name = λ i h.
        links.name i
        ∙ node_cases fs p i (record (fs.node p) { children = others })
            (λ n. n.name ≡ (fs.node i).name) (λ e. ap (λ k. (fs.node k).name) e) refl;
    mode = λ i h.
        links.mode i
        ∙ node_cases fs p i (record (fs.node p) { children = others })
            (λ n. n.mode ≡ (fs.node i).mode) (λ e. ap (λ k. (fs.node k).mode) e) refl;
  }

  children_here : (final.node p).children ≡ others
  unfolding unlinked
  children_here = let e : (p == p) ≡ true = ground arith in links.children p ∙ rw e

  children_elsewhere : (i : ℕ) → i ≢ p → (final.node i).children ≡ (fs.node i).children
  unfolding unlinked
  children_elsewhere i ne = let e : (p == i) ≡ false = ground (arith, ne) in links.children i ∙ rw e

  same_root : final.root ≡ fs.root
  unfolding unlinked
  same_root = links.root

  same_allocated : final.allocated ≡ fs.allocated
  unfolding unlinked
  same_allocated = links.allocated

  module _ (sub : (P : ℕ → Type 0) → All P (fs.node p).children → All P others)
      (differ : NamesDiffer fs others) where
    final-IsTree : IsTree final
    final-IsTree = record {
      rooted = omega (arith, t.rooted, same_root, same_allocated);
      below = λ i h. rw same_allocated (elim (Bool-cases (i == p)) [
        | inl e ↦
            let w : i ≡ p = ground arith in
            rw (w, children_here) (sub (λ c. c < fs.allocated) (t.below p there))
        | inr e ↦
            rw (children_elsewhere i (ground arith)) (t.below i (omega (arith, h, same_allocated)))
      ]);
      distinct = λ i h. elim (Bool-cases (i == p)) [
        | inl e ↦
            let w : i ≡ p = ground arith in
            rw (w, children_here)
              (NamesDiffer-SameTree fs final fs.allocated others same_names
                (sub (λ c. c < fs.allocated) (t.below p there)) differ)
        | inr e ↦
            let l : i < fs.allocated = omega (arith, h, same_allocated) in
            rw (children_elsewhere i (ground arith)) (
              NamesDiffer-SameTree fs final fs.allocated (fs.node i).children same_names
                (t.below i l) (t.distinct i l))
      ];
    }

    final-Removed :
        (name : Str)
        → is_directory (fs.node p) ≡ true
        → ((q : Str)
            → find_child fs others q
              ≡ (if same_name name q then none else find_child fs (fs.node p).children q))
        → Removed fs p name final
    unfolding ramfs_find_node
    final-Removed name dir finds = record {
      here = λ q.
          rw
            (
              same_names.mode p there,
              dir,
              children_here,
              find_child-SameTree fs final fs.allocated others q same_names
                  (sub (λ c. c < fs.allocated) (t.below p there)),
            )
            (finds q);
      elsewhere = λ i ne l q. rw (
        same_names.mode i l,
        children_elsewhere i ne,
        find_child-SameTree fs final fs.allocated (fs.node i).children q same_names (t.below i l),
      );
      root = same_root;
      tree = final-IsTree;
    }

-- Taking a name out of a directory of a well-formed tree: the call fails and changes nothing if the name is not
-- there, and otherwise that name, and no other, is gone.
pub ramfs_remove_child-Removed :
    (fs : RamfsFsData) (p : ℕ) (name : Str)
    → IsTree fs
    → p < fs.allocated
    → is_directory (fs.node p) ≡ true
    → ((ramfs_find_node fs p name ≡ none) × (ramfs_remove_child fs p name ≡ (vfs_enoent, fs)))
      ⊎ ((child : ℕ) × (fs' : RamfsFsData) × (ramfs_find_node fs p name ≡ some child)
          × (ramfs_remove_child fs p name ≡ (vfs_success, fs'))
          × Removed fs p name fs')
unfolding ramfs_remove_child ramfs_find_node final unlinked
ramfs_remove_child-Removed fs p name t there dir =
    elim (unlink_child-Unlinked fs (fs.node p).children name (t.distinct p there)) [
      | missing r e ↦ inl (rw (dir, e), rw (r, ramfs_remove_child))
      | found child others r e finds sub differ ↦ inr (
        child,
        final fs p child others t there,
        rw (dir, e),
        rw (r, ramfs_remove_child),
        final-Removed fs p child others t there sub differ name dir finds,
      )
    ]
