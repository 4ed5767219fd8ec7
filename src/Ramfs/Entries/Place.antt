-- ===== src/Ramfs/Entries/Place.antt =====
-- ramfs_create_file, from the path to the node that the path then names.
use build_your_own_os.Prelude.{
  ℕ, ◌≤◌, ◌≡◌, refl, sym, ◌∙◌, inl, inr, ap, Option, none, some, List, [], ◌∷◌, ◌++◌, Str, ◌==◌,
  if◌then◌else◌, take, length, arith, Bool-cases, Option-cases,
}
use build_your_own_os.Paths.{slash, split_last}
use build_your_own_os.Ramfs.{RamfsFsData, ramfs_find_node, ramfs_resolve_path, ramfs_max_name}
use build_your_own_os.Ramfs.Resolve.{
  split_slash, if_not_empty, names, components, descend, take-short, descend_one,
  ramfs_resolve_path-descend,
}
use build_your_own_os.Ramfs.Entries.{file_place}

-- the pieces of a path, by what its last '/' is
abbrev SplitsAs : Str → Option (Str × Str) → Type 0
SplitsAs path none = split_slash path ≡ (path, [])
SplitsAs path (some (before, behind)) =
    split_slash path ≡ ((split_slash before).0, (split_slash before).1 ++ behind ∷ [])

-- one step of `split_last`
abbrev last_of : ℕ → Str → Option (Str × Str) → Option (Str × Str)
last_of c cs later = elim later [
  | some (before, behind) ↦ some (c ∷ before, behind)
  | none ↦ if c == slash then some ([], cs) else none
]

SplitsAs-next :
    (c : ℕ) (cs : Str) (o : Option (Str × Str)) → SplitsAs cs o → SplitsAs (c ∷ cs) (last_of c cs o)
SplitsAs-next c cs none h = elim (Bool-cases (c == slash)) [
  | inl e ↦ rw (e, h, e)
  | inr e ↦ rw (e, h, e)
]
SplitsAs-next c cs (some (before, behind)) h = elim (Bool-cases (c == slash)) [
  | inl e ↦ rw (e, h)
  | inr e ↦ rw (e, h)
]

split_last-SplitsAs : (path : Str) → SplitsAs path (split_last path)
unfolding split_last
split_last-SplitsAs [] = refl
split_last-SplitsAs (c ∷ cs) = SplitsAs-next c cs (split_last cs) (split_last-SplitsAs cs)

if_not_empty-append :
    (piece : Str) (ns ms : List Str) → if_not_empty piece (ns ++ ms) ≡ if_not_empty piece ns ++ ms
if_not_empty-append [] ns ms = refl
if_not_empty-append (c ∷ cs) ns ms = refl

names-append :
    (piece : Str) (pieces : List Str) (c : ℕ) (cs : Str)
    → length (c ∷ cs) ≤ ramfs_max_name
    → names piece (pieces ++ (c ∷ cs) ∷ []) ≡ names piece pieces ++ (c ∷ cs) ∷ []
unfolding names
names-append piece [] c cs h =
    rw (take-short 254 cs (omega (arith, h)))
      (if_not_empty-append (take ramfs_max_name piece) [] ((c ∷ cs) ∷ []))
names-append piece (next ∷ pieces) c cs h =
    rw (names-append next pieces c cs h)
      (if_not_empty-append (take ramfs_max_name piece) (names next pieces) ((c ∷ cs) ∷ []))

abbrev pub then_find : RamfsFsData → Option ℕ → (name : Str) → Option ℕ
then_find fs none name = none
then_find fs (some p) name = ramfs_find_node fs p name

descend-append :
    (fs : RamfsFsData) (current : ℕ) (ns : List Str) (name : Str)
    → descend fs current (ns ++ name ∷ []) ≡ then_find fs (descend fs current ns) name
descend-append fs current [] name = descend_one fs current name
descend-append fs current (n ∷ ns) name = elim (Option-cases (ramfs_find_node fs current n)) [
  | inl e ↦ rw (e, descend)
  | inr (m, e) ↦ rw (e, descend) (descend-append fs m ns name)
]

components-none :
    (c : ℕ) (cs : Str)
    → split_last (c ∷ cs) ≡ none
    → length (c ∷ cs) ≤ ramfs_max_name
    → components (c ∷ cs) ≡ (c ∷ cs) ∷ []
unfolding names
components-none c cs e h =
    let s : split_slash (c ∷ cs) ≡ (c ∷ cs, []) = rw e at (split_last-SplitsAs (c ∷ cs)) in
    ap (λ p. names p.0 p.1) s ∙ ap (λ t. (c ∷ t) ∷ []) (take-short 254 cs (omega (arith, h)))

components-some :
    (path before : Str) (c : ℕ) (cs : Str)
    → split_last path ≡ some (before, c ∷ cs)
    → length (c ∷ cs) ≤ ramfs_max_name
    → components path ≡ components before ++ (c ∷ cs) ∷ []
components-some path before c cs e h =
    let s : split_slash path ≡ ((split_slash before).0, (split_slash before).1 ++ (c ∷ cs) ∷ []) =
      rw e at (split_last-SplitsAs path) in
    ap (λ p. names p.0 p.1) s ∙ names-append (split_slash before).0 (split_slash before).1 c cs h

descend_root : (fs : RamfsFsData) → descend fs fs.root (components []) ≡ some fs.root
unfolding names
descend_root fs = refl

resolve_below :
    (fs : RamfsFsData) (path before f : Str) (o : Option ℕ) (c : ℕ) (cs : Str)
    → split_last path ≡ some (before, f)
    → f ≡ c ∷ cs
    → descend fs fs.root (components before) ≡ o
    → length (c ∷ cs) ≤ ramfs_max_name
    → ramfs_resolve_path fs path ≡ then_find fs o (c ∷ cs)
resolve_below fs path before f o c cs e q r h =
    ramfs_resolve_path-descend fs path
    ∙ ap (descend fs fs.root)
        (components-some path before c cs (e ∙ ap (λ t. some (before, t)) q) h)
    ∙ descend-append fs fs.root (components before) (c ∷ cs)
    ∙ ap (λ t. then_find fs t (c ∷ cs)) r

-- A path leads to the name in the directory that `file_place` gives.
pub resolve-file_place :
    (fs : RamfsFsData) (path : Str) (o : Option ℕ) (c : ℕ) (cs : Str)
    → file_place fs path ≡ (o, c ∷ cs)
    → length (c ∷ cs) ≤ ramfs_max_name
    → ramfs_resolve_path fs path ≡ then_find fs o (c ∷ cs)
unfolding file_place
resolve-file_place fs path o c cs place h = elim (Option-cases (split_last path)) [
  | inl e ↦
      let w : ◌≡◌ {A = Option ℕ × Str} (some fs.root, path) (o, c ∷ cs) =
        rw (e, file_place) at place in
      let q : path ≡ c ∷ cs = ap (λ t. t.1) w in
      ramfs_resolve_path-descend fs path
      ∙ ap (descend fs fs.root)
          (ap components q ∙ components-none c cs (ap split_last (sym q) ∙ e) h)
      ∙ descend_one fs fs.root (c ∷ cs)
      ∙ ap (λ t. then_find fs t (c ∷ cs)) (ap (λ t. t.0) w)
  | inr (([], f), e) ↦
      let w : ◌≡◌ {A = Option ℕ × Str} (some fs.root, f) (o, c ∷ cs) =
        rw (e, file_place) at place in
      resolve_below fs path [] f o c cs e (ap (λ t. t.1) w) (descend_root fs ∙ ap (λ t. t.0) w) h
  | inr ((d ∷ ds, f), e) ↦
      let w : ◌≡◌ {A = Option ℕ × Str} (ramfs_resolve_path fs (d ∷ ds), f) (o, c ∷ cs) =
        rw (e, file_place) at place in
      resolve_below fs path (d ∷ ds) f o c cs e (ap (λ t. t.1) w)
        (sym (ramfs_resolve_path-descend fs (d ∷ ds)) ∙ ap (λ t. t.0) w) h
]
