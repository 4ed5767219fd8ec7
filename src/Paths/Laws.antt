-- ===== src/Paths/Laws.antt =====
-- A path below a mount point, and the two parts of a path.
use build_your_own_os.Prelude.{
  ℕ, suc, ◌≡◌, ◌⊎◌, refl, ◌∙◌, inl, inr, ap, true, false, Option, none, some, [], ◌∷◌, ◌++◌, Str,
  same_name, drop, ◌==◌, length, arith, Bool-cases, Option-cases,
}
use mathlib.Core.List.{append-nil}
use build_your_own_os.Paths.{
  slash, strip, at_boundary, from_boundary, vfs_path_is_prefix, vfs_path_within_mount,
}

strip-some : (prefix path rest : Str) → strip prefix path ≡ some rest → path ≡ prefix ++ rest
unfolding strip
strip-some [] path rest h = ground arith
strip-some (d ∷ ds) [] rest h = absurd (cc)
strip-some (d ∷ ds) (c ∷ cs) rest h = elim (Bool-cases (d == c)) [
  | inl e ↦
      let w : d ≡ c = ground arith in
      let r : strip ds cs ≡ some rest = rw e at h in rw (w, strip-some ds cs rest r)
  | inr e ↦ let r : ◌≡◌ {A = Option Str} none (some rest) = rw e at h in absurd (cc)
]

drop-append : (xs ys : Str) → drop (length xs) (xs ++ ys) ≡ ys
drop-append [] ys = refl
drop-append (x ∷ xs) ys = drop-append xs ys

within :
    (d : ℕ) (ds path rest : Str)
    → vfs_path_is_prefix path (d ∷ ds) ≡ true
    → same_name (d ∷ ds) (slash ∷ []) ≡ false
    → strip (d ∷ ds) path ≡ some rest
    → vfs_path_within_mount (d ∷ ds) path ≡ from_boundary path rest
unfolding vfs_path_within_mount
within d ds path rest prefix other e =
    let not_empty : (suc (length ds) == 0) ≡ false = ground arith in
    let left : drop (suc (length ds)) path ≡ rest =
      ap (drop (suc (length ds))) (strip-some (d ∷ ds) path rest e) ∙ drop-append (d ∷ ds) rest in
    rw (other, not_empty, prefix, left)

boundary :
    (d : ℕ) (ds path rest : Str)
    → vfs_path_is_prefix path (d ∷ ds) ≡ true
    → same_name (d ∷ ds) (slash ∷ []) ≡ false
    → strip (d ∷ ds) path ≡ some rest
    → at_boundary rest ≡ true
unfolding vfs_path_is_prefix
boundary d ds path rest prefix other e = rw (other, e, vfs_path_is_prefix) at prefix

-- If a mount point other than "/" is a prefix of a path, the path is the mount point and then what
-- vfs_path_within_mount gives, which starts with '/'; or it is the mount point, and "/" is given.
pub append-vfs_path_within_mount :
    (mountpoint path : Str)
    → vfs_path_is_prefix path mountpoint ≡ true
    → same_name mountpoint (slash ∷ []) ≡ false
    → ((rest : Str) × (vfs_path_within_mount mountpoint path ≡ slash ∷ rest)
        × (path ≡ mountpoint ++ slash ∷ rest))
      ⊎ ((vfs_path_within_mount mountpoint path ≡ slash ∷ []) × (path ≡ mountpoint))
unfolding vfs_path_is_prefix
append-vfs_path_within_mount [] path prefix other = absurd (cc)
append-vfs_path_within_mount (d ∷ ds) path prefix other =
    elim (Option-cases (strip (d ∷ ds) path)) [
      | inl e ↦ let w : false ≡ true = rw (other, e, vfs_path_is_prefix) at prefix in absurd (cc)
      | inr ([], e) ↦
          inr (
            within d ds path [] prefix other e,
            strip-some (d ∷ ds) path [] e ∙ append-nil (d ∷ ds),
          )
      | inr (c ∷ cs, e) ↦
          let at_slash : (c == slash) ≡ true = boundary d ds path (c ∷ cs) prefix other e in
          let w : c ≡ slash = ground arith in
          inl (
            cs,
            within d ds path (c ∷ cs) prefix other e ∙ rw at_slash (ap (λ t. t ∷ cs) w),
            strip-some (d ∷ ds) path (c ∷ cs) e ∙ ap (λ t. (d ∷ ds) ++ t ∷ cs) w,
          )
    ]
