-- ===== src/Ramfs/Resolve.antt =====
-- The loop over a path, against a description that splits the path first.
use build_your_own_os.Prelude.{
  ℕ, zero, suc, ◌≤◌, ◌≡◌, refl, sym, ◌∙◌, inl, inr, ap, Option, none, some, List, [], ◌∷◌, ◌++◌,
  Str, same_name, eq_of_same_name, take, ltb, ◌==◌, if◌then◌else◌, length, length-append, arith,
  Bool-cases, Option-cases,
}
use mathlib.Core.List.{append-nil, append_assoc}
use build_your_own_os.Paths.{slash}
use build_your_own_os.Ramfs.{
  RamfsFsData, ramfs_max_name, ramfs_find_node, add_char, walk_path, skip_slash, ramfs_resolve_path,
}

-- what stands before the first '/', and between and behind the others
abbrev pub split_slash : Str → Str × List Str
split_slash [] = ([], [])
split_slash (c ∷ cs) =
    let (piece, pieces) = split_slash cs in
    if c == slash then ([], piece ∷ pieces) else (c ∷ piece, pieces)

abbrev pub if_not_empty : Str → List Str → List Str
if_not_empty [] names = names
if_not_empty (c ∷ cs) names = (c ∷ cs) ∷ names

-- the pieces that are not empty, cut to 255 bytes
unfoldable pub names : Str → List Str → List Str
names piece [] = if_not_empty (take ramfs_max_name piece) []
names piece (next ∷ pieces) = if_not_empty (take ramfs_max_name piece) (names next pieces)

abbrev pub components : Str → List Str
components path = names (split_slash path).0 (split_slash path).1

-- down the tree, one name after the other
abbrev pub descend : RamfsFsData → ℕ → List Str → Option ℕ
descend fs current [] = some current
descend fs current (name ∷ rest) = elim (ramfs_find_node fs current name) [
  | none ↦ none
  | some n ↦ descend fs n rest
]

take-append : (n : ℕ) (xs ys : Str) → length xs ≡ n → take n (xs ++ ys) ≡ xs
take-append zero [] ys h = refl
take-append zero (x ∷ xs) ys h = absurd (omega arith)
take-append (suc n) [] ys h = absurd (omega arith)
take-append (suc n) (x ∷ xs) ys h = ap (λ t. x ∷ t) (take-append n xs ys (omega arith))

pub take-short : (n : ℕ) (xs : Str) → length xs ≤ n → take n xs ≡ xs
take-short zero [] h = refl
take-short zero (x ∷ xs) h = absurd (omega arith)
take-short (suc n) [] h = refl
take-short (suc n) (x ∷ xs) h = ap (λ t. x ∷ t) (take-short n xs (omega arith))

-- A character that no longer fits is behind the cut.
take-add_char :
    (component piece : Str) (c : ℕ)
    → length component ≤ ramfs_max_name
    → take ramfs_max_name (add_char component c ++ piece)
      ≡ take ramfs_max_name (component ++ c ∷ piece)
take-add_char component piece c h = elim (Bool-cases (ltb (length component) ramfs_max_name)) [
  | inl fits ↦ rw (fits, append_assoc component (c ∷ []) piece)
  | inr full ↦
      let e : length component ≡ ramfs_max_name = ground arith in
      rw (
        full,
        take-append ramfs_max_name component piece e,
        take-append ramfs_max_name component (c ∷ piece) e,
      )
]

length-add_char :
    (component : Str) (c : ℕ)
    → length component ≤ ramfs_max_name
    → length (add_char component c) ≤ ramfs_max_name
length-add_char component c h = ground (arith, length-append component (c ∷ []))

names-add_char :
    (component piece : Str) (c : ℕ) (pieces : List Str)
    → length component ≤ ramfs_max_name
    → names (add_char component c ++ piece) pieces ≡ names (component ++ c ∷ piece) pieces
unfolding names
names-add_char component piece c [] h =
    ap (λ t. if_not_empty t []) (take-add_char component piece c h)
names-add_char component piece c (next ∷ pieces) h =
    ap (λ t. if_not_empty t (names next pieces)) (take-add_char component piece c h)

names-empty : (piece : Str) (pieces : List Str) → names [] (piece ∷ pieces) ≡ names piece pieces
unfolding names
names-empty piece pieces = refl

names-word :
    (d : ℕ) (ds piece : Str) (pieces : List Str)
    → length (d ∷ ds) ≤ ramfs_max_name
    → names ((d ∷ ds) ++ []) (piece ∷ pieces) ≡ (d ∷ ds) ∷ names piece pieces
unfolding names
names-word d ds piece pieces h =
    ap (λ t. if_not_empty t (names piece pieces))
      (ap (take ramfs_max_name) (append-nil (d ∷ ds)) ∙ take-short ramfs_max_name (d ∷ ds) h)

names-last :
    (d : ℕ) (ds : Str)
    → length (d ∷ ds) ≤ ramfs_max_name
    → names ((d ∷ ds) ++ []) [] ≡ (d ∷ ds) ∷ []
unfolding names
names-last d ds h =
    ap (λ t. if_not_empty t [])
      (ap (take ramfs_max_name) (append-nil (d ∷ ds)) ∙ take-short ramfs_max_name (d ∷ ds) h)

pub descend_one :
    (fs : RamfsFsData) (current : ℕ) (name : Str)
    → descend fs current (name ∷ []) ≡ ramfs_find_node fs current name
descend_one fs current name = elim (Option-cases (ramfs_find_node fs current name)) [
  | inl e ↦ rw (e, descend)
  | inr (n, e) ↦ rw (e, descend)
]

walk_path-descend :
    (fs : RamfsFsData) (current : ℕ) (component path : Str)
    → length component ≤ ramfs_max_name
    → walk_path fs current component path
      ≡ descend fs current (names (component ++ (split_slash path).0) (split_slash path).1)
unfolding walk_path
walk_path-descend fs current [] [] h = unfold names in refl
walk_path-descend fs current (d ∷ ds) [] h =
    rw (names-last d ds h) (sym (descend_one fs current (d ∷ ds)))
walk_path-descend fs current [] (c ∷ cs) h = elim (Bool-cases (c == slash)) [
  | inl e ↦
      rw (e, walk_path, names-empty (split_slash cs).0 (split_slash cs).1)
        (walk_path-descend fs current [] cs (omega arith))
  | inr e ↦
      rw (e, walk_path)
        (walk_path-descend fs current (add_char [] c) cs (length-add_char [] c h)
          ∙ ap (descend fs current) (names-add_char [] (split_slash cs).0 c (split_slash cs).1 h))
]
walk_path-descend fs current (d ∷ ds) (c ∷ cs) h = elim (Bool-cases (c == slash)) [
  | inl e ↦ elim (Option-cases (ramfs_find_node fs current (d ∷ ds))) [
    | inl missing ↦ rw (
      e,
      walk_path,
      names-word d ds (split_slash cs).0 (split_slash cs).1 h,
      missing,
      walk_path,
      descend,
    )
    | inr (n, found) ↦
        rw
          (
            e,
            walk_path,
            names-word d ds (split_slash cs).0 (split_slash cs).1 h,
            found,
            walk_path,
            descend,
          )
          (walk_path-descend fs n [] cs (omega arith))
  ]
  | inr e ↦
      rw (e, walk_path)
        (walk_path-descend fs current (add_char (d ∷ ds) c) cs (length-add_char (d ∷ ds) c h)
          ∙ ap (descend fs current)
              (names-add_char (d ∷ ds) (split_slash cs).0 c (split_slash cs).1 h))
]

components-skip_slash : (path : Str) → components (skip_slash path) ≡ components path
components-skip_slash [] = refl
components-skip_slash (c ∷ cs) = elim (Bool-cases (c == slash)) [
  | inl e ↦ rw (e, names-empty (split_slash cs).0 (split_slash cs).1)
  | inr e ↦ rw (e, split_slash, e)
]

-- ramfs_resolve_path gives the node to which the parts of the path between slashes lead from the root; empty
-- parts are skipped, and the others are cut to 255 bytes.
pub ramfs_resolve_path-descend :
    (fs : RamfsFsData) (path : Str)
    → ramfs_resolve_path fs path ≡ descend fs fs.root (components path)
unfolding ramfs_resolve_path
ramfs_resolve_path-descend fs path = elim (Bool-cases (same_name path (slash ∷ []))) [
  | inl root ↦ rw (eq_of_same_name path (slash ∷ []) root) (unfold names in refl)
  | inr other ↦ rw other (
      walk_path-descend fs fs.root [] (skip_slash path) (omega arith)
      ∙ ap (descend fs fs.root) (components-skip_slash path))
]
