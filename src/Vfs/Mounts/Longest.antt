-- ===== src/Vfs/Mounts/Longest.antt =====
-- vfs_find_mount_for_path finds the longest mount point of a path.
use build_your_own_os.Prelude.{
  ℕ, zero, suc, get_or, ◌≤◌, ◌≡◌, ◌⊎◌, refl, sym, ◌∙◌, inl, inr, ap, subst, Bool, true, false,
  Option, none, some, List, [], ◌∷◌, Str, ltb, if◌then◌else◌, length, arith, Bool-cases,
  Option-cases,
}
use build_your_own_os.Paths.{slash, vfs_is_absolute_path, vfs_path_is_prefix}
use build_your_own_os.Vfs.{Vfs, Mount, best_mount, vfs_find_mount_for_path}

-- The mount `m` is in a slot.
abbrev pub Mounted : Mount → List (Option Mount) → Type 0
Mounted m [] = ⊥
Mounted m (none ∷ mounts) = Mounted m mounts
Mounted m (some k ∷ mounts) = (m ≡ k) ⊎ Mounted m mounts

-- Of the mounts whose point is a prefix of the path, `m` has the longest point.
abbrev pub IsLongest : (path : Str) → Mount → List (Option Mount) → Type 0
IsLongest path m [] = Unit
IsLongest path m (none ∷ mounts) = IsLongest path m mounts
IsLongest path m (some k ∷ mounts) =
    (vfs_path_is_prefix path k.mountpoint ≡ true → length k.mountpoint ≤ length m.mountpoint)
    × IsLongest path m mounts

abbrev pub NoMount : (path : Str) → List (Option Mount) → Type 0
NoMount path [] = Unit
NoMount path (none ∷ mounts) = NoMount path mounts
NoMount path (some k ∷ mounts) =
    (vfs_path_is_prefix path k.mountpoint ≡ false) × NoMount path mounts

IsLongest-mono :
    (path : Str) (m k : Mount) (mounts : List (Option Mount))
    → length m.mountpoint ≤ length k.mountpoint
    → IsLongest path m mounts
    → IsLongest path k mounts
IsLongest-mono path m k [] h l = tt
IsLongest-mono path m k (none ∷ mounts) h l = IsLongest-mono path m k mounts h l
IsLongest-mono path m k (some j ∷ mounts) h (l, ls) =
    (λ e. omega (arith, h, l e), IsLongest-mono path m k mounts h ls)

later :
    (k : Mount) (mounts : List (Option Mount)) (m b : Mount) (path : Str)
    → (m ≡ b) ⊎ (Mounted m mounts × (vfs_path_is_prefix path m.mountpoint ≡ true))
    → (m ≡ b) ⊎ (((m ≡ k) ⊎ Mounted m mounts) × (vfs_path_is_prefix path m.mountpoint ≡ true))
later k mounts m b path (inl e) = inl e
later k mounts m b path (inr (h, p)) = inr (inr h, p)

from_this :
    (k : Mount) (mounts : List (Option Mount)) (m : Mount) (path : Str)
    → vfs_path_is_prefix path k.mountpoint ≡ true
    → (m ≡ k) ⊎ (Mounted m mounts × (vfs_path_is_prefix path m.mountpoint ≡ true))
    → ((m ≡ k) ⊎ Mounted m mounts) × (vfs_path_is_prefix path m.mountpoint ≡ true)
from_this k mounts m path prefix (inl e) =
    (inl e, ap (λ t. vfs_path_is_prefix path t.mountpoint) e ∙ prefix)
from_this k mounts m path prefix (inr (h, p)) = (inr h, p)

-- What the search finds that starts with a best mount.
record FromBest (path : Str) (b : Mount) (mounts : List (Option Mount)) (r : Option Mount)
    : Type 0 where
  mount : Mount
  result : r ≡ some mount
  place : (mount ≡ b) ⊎ (Mounted mount mounts × (vfs_path_is_prefix path mount.mountpoint ≡ true))
  longer : length b.mountpoint ≤ length mount.mountpoint
  longest : IsLongest path mount mounts

best_mount-FromBest :
    (path : Str) (b : Mount) (mounts : List (Option Mount))
    → FromBest path b mounts (best_mount path (some b) mounts)
unfolding best_mount
best_mount-FromBest path b [] = record {
  mount = b;
  result = refl;
  place = inl refl;
  longer = omega arith;
  longest = tt;
}
best_mount-FromBest path b (none ∷ mounts) =
    let f = best_mount-FromBest path b mounts in
    record {
      mount = f.mount;
      result = f.result;
      place = f.place;
      longer = f.longer;
      longest = f.longest;
    }
best_mount-FromBest path b (some k ∷ mounts) =
    elim (Bool-cases (vfs_path_is_prefix path k.mountpoint)) [
      | inr no_prefix ↦
          let f = best_mount-FromBest path b mounts in
          rw no_prefix record {
            mount = f.mount;
            result = f.result;
            place = later k mounts f.mount b path f.place;
            longer = f.longer;
            longest = (λ e. absurd (cc), f.longest);
          }
      | inl prefix ↦ elim (Bool-cases (ltb (length b.mountpoint) (length k.mountpoint))) [
        | inr short ↦
            let f = best_mount-FromBest path b mounts in
            rw (prefix, short)
              record {
                mount = f.mount;
                result = f.result;
                place = later k mounts f.mount b path f.place;
                longer = f.longer;
                longest = (λ e. ground (arith, f.longer), f.longest);
              }
        | inl long ↦
            let f = best_mount-FromBest path k mounts in
            rw (prefix, long)
              record {
                mount = f.mount;
                result = f.result;
                place = inr (from_this k mounts f.mount path prefix f.place);
                longer = ground (arith, f.longer);
                longest = (λ e. f.longer, f.longest);
              }
      ]
    ]

-- What a search finds: nothing, or a mount with the longest mount point that is a prefix of the path.
abbrev pub FoundMount : (path : Str) → List (Option Mount) → Option Mount → Type 0
FoundMount path mounts r =
    (NoMount path mounts × (r ≡ none))
    ⊎ ((m : Mount) × (r ≡ some m)
        × Mounted m mounts
        × (vfs_path_is_prefix path m.mountpoint ≡ true)
        × IsLongest path m mounts)

from_best :
    (path : Str) (k : Mount) (mounts : List (Option Mount)) (r : Option Mount)
    → vfs_path_is_prefix path k.mountpoint ≡ true
    → FromBest path k mounts r
    → FoundMount path (some k ∷ mounts) r
from_best path k mounts r prefix f =
    let here = from_this k mounts f.mount path prefix f.place in
    inr (f.mount, f.result, here.0, here.1, (λ e. f.longer, f.longest))

from_later :
    (path : Str) (k : Mount) (mounts : List (Option Mount)) (r : Option Mount)
    → vfs_path_is_prefix path k.mountpoint ≡ false
    → FoundMount path mounts r
    → FoundMount path (some k ∷ mounts) r
from_later path k mounts r no_prefix (inl (n, e)) = inl ((no_prefix, n), e)
from_later path k mounts r no_prefix (inr (m, e, h, p, l)) =
    inr (m, e, inr h, p, (λ t. absurd (cc), l))

-- the search from a mount that is a prefix of the path or not
abbrev first_round : (path : Str) → Mount → List (Option Mount) → Bool → Option Mount
first_round path k mounts prefix = best_mount path (if prefix then some k else none) mounts

best_mount-FoundMount :
    (path : Str) (mounts : List (Option Mount))
    → FoundMount path mounts (best_mount path none mounts)
unfolding best_mount
best_mount-FoundMount path [] = inl (tt, refl)
best_mount-FoundMount path (none ∷ mounts) = best_mount-FoundMount path mounts
best_mount-FoundMount path (some k ∷ mounts) =
    elim (Bool-cases (vfs_path_is_prefix path k.mountpoint)) [
      | inl prefix ↦
          subst (FoundMount path (some k ∷ mounts)) (ap (first_round path k mounts) (sym prefix)) (
            from_best path k mounts (best_mount path (some k) mounts) prefix
              (best_mount-FromBest path k mounts))
      | inr no_prefix ↦
          subst (FoundMount path (some k ∷ mounts)) (ap (first_round path k mounts) (sym no_prefix))
            (from_later path k mounts (best_mount path none mounts) no_prefix
              (best_mount-FoundMount path mounts))
    ]

-- The root mount, if there is one, is mounted at "/".
abbrev pub RootIsMounted : Option ℕ → List (Option Mount) → Type 0
RootIsMounted none mounts = Unit
RootIsMounted (some slot) mounts =
    (m : Mount) × (get_or mounts slot none ≡ some m) × (m.mountpoint ≡ slash ∷ [])

abbrev mountpoint_or : Mount → Option Mount → Str
mountpoint_or k none = k.mountpoint
mountpoint_or k (some m) = m.mountpoint

NoMount-root :
    (path : Str) (mounts : List (Option Mount)) (slot : ℕ) (m : Mount)
    → NoMount path mounts
    → get_or mounts slot none ≡ some m
    → m.mountpoint ≡ slash ∷ []
    → vfs_is_absolute_path path ≡ false
unfolding vfs_path_is_prefix
NoMount-root path [] slot m h e q = absurd (cc)
NoMount-root path (none ∷ mounts) zero m h e q = absurd (cc)
NoMount-root path (some k ∷ mounts) zero m (h, hs) e q =
    let w : k.mountpoint ≡ slash ∷ [] = ap (mountpoint_or k) e ∙ q in
    ap (vfs_path_is_prefix path) (sym w) ∙ h
NoMount-root path (none ∷ mounts) (suc slot) m h e q = NoMount-root path mounts slot m h e q
NoMount-root path (some k ∷ mounts) (suc slot) m (h, hs) e q =
    NoMount-root path mounts slot m hs e q

-- On an initialised VFS whose root mount stands at "/", vfs_find_mount_for_path finds nothing only if no mount
-- point is a prefix of the path, and otherwise a mount whose point is a prefix and the longest such.
pub vfs_find_mount_for_path-FoundMount :
    {S P : Type 0} (v : Vfs S P) (path : Str)
    → v.initialized ≡ true
    → RootIsMounted v.root_mount v.mounts
    → FoundMount path v.mounts (vfs_find_mount_for_path v path)
unfolding vfs_find_mount_for_path
vfs_find_mount_for_path-FoundMount v path ready root = elim (best_mount-FoundMount path v.mounts) [
  | inr (m, r, h, p, l) ↦ inr (m, rw (ready, r, vfs_find_mount_for_path), h, p, l)
  | inl (n, r) ↦ elim (Option-cases v.root_mount) [
    | inl e ↦ inl (n, rw (ready, r, e, vfs_find_mount_for_path))
    | inr (slot, e) ↦
        let (m, there, at_root) = subst (λ o. RootIsMounted o v.mounts) e root in
        let relative = NoMount-root path v.mounts slot m n there at_root in
        inl (n, rw (ready, r, e, relative, vfs_find_mount_for_path))
  ]
]
