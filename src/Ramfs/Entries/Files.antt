-- ===== src/Ramfs/Entries/Files.antt =====
-- ramfs_create_file: the new file is at its path, and every other path leads where it led before.
use build_your_own_os.Prelude.{
  ℕ, ◌<◌, ◌≡◌, refl, sym, ◌∙◌, inl, inr, ap, subst, true, Option, none, some, [], ◌∷◌, Str,
  same_name_refl, leb, ◌==◌, if◌then◌else◌, with_bit, length, arith, Bool-cases, Option-cases, ℤ,
}
use build_your_own_os.Paths.{vfs_max_path, split_last}
use build_your_own_os.Ramfs.{
  RamfsFsData, is_directory, ramfs_find_node, ramfs_resolve_path, vfs_success, vfs_einval,
}
use build_your_own_os.Ramfs.Resolve.{components, ramfs_resolve_path-descend}
use build_your_own_os.Ramfs.Entries.{create_in, file_place, ramfs_create_file}
use build_your_own_os.Ramfs.Entries.Laws.{IsTree, Grown}
use build_your_own_os.Ramfs.Entries.Create.{
  exists, no_memory, overrun, no_directory, added, create_in-Creation, Grown-here,
}
use build_your_own_os.Ramfs.Entries.Place.{resolve-file_place}
use build_your_own_os.Ramfs.Entries.Below.{descend-below, resolve-keeps}

-- The file is new and empty at its path, and the other paths have not changed.
pub record IsNewFile (fs : RamfsFsData) (path : Str) (mode : ℕ) (fs' : RamfsFsData) : Type 0 where
  pub before : ramfs_resolve_path fs path ≡ none
  pub at_path : ramfs_resolve_path fs' path ≡ some fs.allocated
  pub content : (fs'.node fs.allocated).content ≡ none
  pub size : (fs'.node fs.allocated).size ≡ 0
  pub mode_set : (fs'.node fs.allocated).mode ≡ with_bit mode 12
  pub ino : (fs'.node fs.allocated).ino ≡ fs.next_ino
  pub others :
      (q : Str) (x : ℕ) → ramfs_resolve_path fs q ≡ some x → ramfs_resolve_path fs' q ≡ some x
  pub tree : IsTree fs'

file_place-keeps :
    (fs fs' : RamfsFsData) (path : Str) (p : ℕ) (name : Str)
    → fs'.root ≡ fs.root
    → ((q : Str) (x : ℕ) → ramfs_resolve_path fs q ≡ some x → ramfs_resolve_path fs' q ≡ some x)
    → file_place fs path ≡ (some p, name)
    → file_place fs' path ≡ (some p, name)
unfolding file_place
file_place-keeps fs fs' path p name root keeps place = elim (Option-cases (split_last path)) [
  | inl e ↦
      let w : ◌≡◌ {A = Option ℕ × Str} (some fs.root, path) (some p, name) =
        rw (e, file_place) at place in
      rw (e, file_place) (ap (λ r. (some r, path)) root ∙ w)
  | inr (([], f), e) ↦
      let w : ◌≡◌ {A = Option ℕ × Str} (some fs.root, f) (some p, name) =
        rw (e, file_place) at place in
      rw (e, file_place) (ap (λ r. (some r, f)) root ∙ w)
  | inr ((d ∷ ds, f), e) ↦
      let w : ◌≡◌ {A = Option ℕ × Str} (ramfs_resolve_path fs (d ∷ ds), f) (some p, name) =
        rw (e, file_place) at place in
      rw (e, file_place, keeps (d ∷ ds) p (ap (λ t. t.0) w)) (ap (λ t. (some p, t.1)) w)
]

resolved_below :
    (fs : RamfsFsData) (path : Str) (x : ℕ)
    → IsTree fs
    → ramfs_resolve_path fs path ≡ some x
    → x < fs.allocated
resolved_below fs path x t e =
    descend-below fs fs.root (components path) x t t.rooted
      (sym (ramfs_resolve_path-descend fs path) ∙ e)

file_place-below :
    (fs : RamfsFsData) (path : Str) (p : ℕ) (name : Str)
    → IsTree fs
    → file_place fs path ≡ (some p, name)
    → p < fs.allocated
unfolding file_place
file_place-below fs path p name t place = elim (Option-cases (split_last path)) [
  | inl e ↦
      let w : ◌≡◌ {A = Option ℕ × Str} (some fs.root, path) (some p, name) =
        rw (e, file_place) at place in
      let r : ◌≡◌ {A = Option ℕ} (some fs.root) (some p) = ap (λ t. t.0) w in
      ground (arith, t.rooted)
  | inr (([], f), e) ↦
      let w : ◌≡◌ {A = Option ℕ × Str} (some fs.root, f) (some p, name) =
        rw (e, file_place) at place in
      let r : ◌≡◌ {A = Option ℕ} (some fs.root) (some p) = ap (λ t. t.0) w in
      ground (arith, t.rooted)
  | inr ((d ∷ ds, f), e) ↦
      let w : ◌≡◌ {A = Option ℕ × Str} (ramfs_resolve_path fs (d ∷ ds), f) (some p, name) =
        rw (e, file_place) at place in
      resolved_below fs (d ∷ ds) p t (ap (λ t. t.0) w)
]

abbrev state_of : RamfsFsData → Option (ℤ × RamfsFsData) → RamfsFsData
state_of fs none = fs
state_of fs (some r) = r.1

file_from_growth :
    (fs fs1 : RamfsFsData) (path : Str) (mode p c : ℕ) (cs : Str)
    → IsTree fs
    → file_place fs path ≡ (some p, c ∷ cs)
    → p < fs.allocated
    → Grown fs p (c ∷ cs) (with_bit mode 12) fs1
    → is_directory (fs.node p) ≡ true
    → length (c ∷ cs) < 255
    → ramfs_find_node fs p (c ∷ cs) ≡ none
    → IsTree fs1
    → IsNewFile fs path mode fs1
file_from_growth fs fs1 path mode p c cs t place there g dir short absent tree =
    let name : Str = c ∷ cs in
    let keeps = resolve-keeps fs fs1 p name (with_bit mode 12) t there g dir absent in
    let place' = file_place-keeps fs fs1 path p name g.root keeps place in
    record {
      before = resolve-file_place fs path (some p) c cs place (omega (arith, short)) ∙ absent;
      at_path =
          resolve-file_place fs1 path (some p) c cs place' (omega (arith, short))
          ∙ Grown-here fs fs1 p name (with_bit mode 12) t there g name dir
          ∙ rw (same_name_refl name);
      content = ap (λ n. n.content) g.made;
      size = ap (λ n. n.size) g.made;
      mode_set = ap (λ n. n.mode) g.made;
      ino = ap (λ n. n.ino) g.made;
      others = keeps;
      tree = tree;
    }

create_at :
    (fs fs' : RamfsFsData) (path : Str) (mode p c : ℕ) (cs : Str)
    → IsTree fs
    → file_place fs path ≡ (some p, c ∷ cs)
    → create_in fs p (c ∷ cs) (with_bit mode 12) true ≡ some (vfs_success, fs')
    → IsNewFile fs path mode fs'
create_at fs fs' path mode p c cs t place run =
    let there = file_place-below fs path p (c ∷ cs) t place in
    elim (create_in-Creation fs p (c ∷ cs) (with_bit mode 12) true t there) [
      | exists n found r ↦ absurd (cc (run, r))
      | no_memory refusal r ↦ absurd (cc)
      | overrun long r ↦ absurd (cc (run, r))
      | no_directory fs1 file r kept root ↦ absurd (cc (run, r))
      | added fs1 dir short absent r g tree ↦
          let e : fs1 ≡ fs' = ap (state_of fs1) (sym r ∙ run) in
          subst (IsNewFile fs path mode) e
            (file_from_growth fs fs1 path mode p c cs t place there g dir short absent tree)
    ]

-- what follows the check of the length in `ramfs_create_file`
abbrev create_placed : RamfsFsData → (mode : ℕ) → Option ℕ → Str → Option (ℤ × RamfsFsData)
create_placed fs mode parent name = elim parent [
  | none ↦ some (vfs_einval, fs)
  | some p ↦
      if length name == 0
      then some (vfs_einval, fs)
      else create_in fs p name (with_bit mode 12) true
]

from_place :
    (fs fs' : RamfsFsData) (path : Str) (mode : ℕ) (o : Option ℕ) (name : Str)
    → IsTree fs
    → file_place fs path ≡ (o, name)
    → create_placed fs mode o name ≡ some (vfs_success, fs')
    → IsNewFile fs path mode fs'
from_place fs fs' path mode none name t place run = absurd (cc)
from_place fs fs' path mode (some p) [] t place run = absurd (cc)
from_place fs fs' path mode (some p) (c ∷ cs) t place run =
    create_at fs fs' path mode p c cs t place (ground (arith, run))

-- If ramfs_create_file succeeds in a well-formed tree, the path led nowhere before and leads to a new, empty file
-- now, every path that led to a node leads to the same node, and the tree is well-formed.
pub ramfs_create_file-IsNewFile :
    (fs fs' : RamfsFsData) (path : Str) (mode : ℕ)
    → IsTree fs
    → ramfs_create_file fs path mode true ≡ some (vfs_success, fs')
    → IsNewFile fs path mode fs'
unfolding ramfs_create_file
ramfs_create_file-IsNewFile fs fs' path mode t run =
    from_place fs fs' path mode (file_place fs path).0 (file_place fs path).1 t refl
      (elim (Bool-cases (leb vfs_max_path (length path))) [
        | inl long ↦
            let w : ◌≡◌ {A = Option (ℤ × RamfsFsData)} none (some (vfs_success, fs')) =
              rw long at run in
            absurd (cc)
        | inr short ↦ rw short at run
      ])
