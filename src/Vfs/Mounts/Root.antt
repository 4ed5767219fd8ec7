-- ===== src/Vfs/Mounts/Root.antt =====
-- The calls that change the mounts keep the root mount at "/".
use build_your_own_os.Prelude.{
  ℕ, ◌-◌, ◌<◌, ◌≡◌, ◌≢◌, refl, sym, ◌∙◌, inl, inr, ap, subst, Bool, true, Option, none, some, List,
  [], ◌∷◌, Str, same_name, eq_of_same_name, ◌==◌, leb, ℤ, length, get_or, set, get_or-set_self,
  get_or-set_ne, arith, Bool-cases, Option-cases,
}
use build_your_own_os.Paths.{slash, vfs_max_path}
use build_your_own_os.Block.{BlockDevice}
use build_your_own_os.Vfs.{
  Vfs, Mount, FileSystem, free_slot, find_type, vfs_init, vfs_find_mount_for_path,
}
use build_your_own_os.Vfs.Slots.{full, first, free_slot-FirstFree}
use build_your_own_os.Vfs.Mounts.{
  mount_device, find_mounted, clear_root, add_mount, mount_in, vfs_mount, vfs_unmount, vfs_shutdown,
}
use build_your_own_os.Vfs.Mounts.Longest.{
  RootIsMounted, FoundMount, vfs_find_mount_for_path-FoundMount,
}

pub data MountCall (P : Type 0) : Type 0 where
  call_init : MountCall P
  call_mount :
      (devices : List (BlockDevice P)) (device : Option Str) (mountpoint fstype : Str) (flags : ℕ)
      (granted : Bool)
      → MountCall P
  call_unmount : (mountpoint : Str) → MountCall P
  call_shutdown : MountCall P

module _ {S P : Type 0} where
  abbrev state_of : Option (ℤ × Vfs S P) → Option (Vfs S P)
  state_of none = none
  state_of (some r) = some r.1

  abbrev pub perform_mount : Vfs S P → MountCall P → Option (Vfs S P)
  perform_mount v call_init = some (vfs_init v).1
  perform_mount v (call_mount devices device mountpoint fstype flags granted) =
      state_of (vfs_mount v devices device mountpoint fstype flags granted)
  perform_mount v (call_unmount mountpoint) = some (vfs_unmount v mountpoint).1
  perform_mount v call_shutdown = some (vfs_shutdown v).1

  -- no call faults
  unfoldable pub perform_mounts : Vfs S P → List (MountCall P) → Option (Vfs S P)
  perform_mounts v [] = some v
  perform_mounts v (call ∷ calls) = elim (perform_mount v call) [
    | none ↦ none
    | some v1 ↦ perform_mounts v1 calls
  ]

  abbrev Rooted : Vfs S P → Type 0
  Rooted v = RootIsMounted v.root_mount v.mounts

  abbrev RootedResult : Option (Vfs S P) → Type 0
  RootedResult none = Unit
  RootedResult (some v) = Rooted v

set_other-Rooted :
    (root : Option ℕ) (mounts : List (Option Mount)) (slot : ℕ) (o : Option Mount)
    → ((r : ℕ) → root ≡ some r → r ≢ slot)
    → RootIsMounted root mounts
    → RootIsMounted root (set mounts slot o)
set_other-Rooted none mounts slot o ne h = tt
set_other-Rooted (some r) mounts slot o ne (m, there, at_root) =
    (m, get_or-set_ne mounts slot r o none (λ e. ne r refl (sym e)) ∙ there, at_root)

not_free :
    (root : Option ℕ) (mounts : List (Option Mount)) (slot : ℕ)
    → get_or mounts slot none ≡ none
    → RootIsMounted root mounts
    → (r : ℕ) → root ≡ some r
    → r ≢ slot
not_free none mounts slot free h r e same = absurd (cc)
not_free (some q) mounts slot free (m, there, at_root) r e same = absurd (cc)

clear_root-Rooted :
    (root : Option ℕ) (mounts : List (Option Mount)) (slot : ℕ)
    → RootIsMounted root mounts
    → RootIsMounted (clear_root root slot) (set mounts slot none)
clear_root-Rooted none mounts slot h = tt
clear_root-Rooted (some r) mounts slot h = elim (Bool-cases (r == slot)) [
  | inl e ↦ rw e tt
  | inr e ↦ rw e (set_other-Rooted (some r) mounts slot none (λ q s same. absurd (ground arith)) h)
]

add_mount-Rooted :
    {S P : Type 0} (v : Vfs S P) (slot : ℕ) (mountpoint : Str) (flags : ℕ) (fs : FileSystem S)
    → slot < length v.mounts
    → get_or v.mounts slot none ≡ none
    → Rooted v
    → Rooted (add_mount v slot mountpoint flags fs)
add_mount-Rooted v slot mountpoint flags fs there free h =
    let m : Mount = record { mountpoint = mountpoint; fs = v.fs_made; flags = flags } in
    elim (Bool-cases (same_name mountpoint (slash ∷ []))) [
      | inl e ↦ rw e (
        m,
        get_or-set_self v.mounts slot (some m) none there,
        eq_of_same_name mountpoint (slash ∷ []) e,
      )
      | inr e ↦ rw e (
          set_other-Rooted v.root_mount v.mounts slot (some m)
            (not_free v.root_mount v.mounts slot free h) h)
    ]

mount_in-Rooted :
    {S P : Type 0} (v : Vfs S P) (mountpoint : Str) (flags : ℕ) (fs : FileSystem S) (granted : Bool)
    → Rooted v
    → RootedResult (state_of (mount_in v mountpoint flags fs granted))
unfolding mount_in
mount_in-Rooted v mountpoint flags fs granted h = elim (free_slot-FirstFree v.mounts 0) [
  | full r busy ↦ rw (r, mount_in) h
  | first j r0 there free busy ↦
      let r : free_slot 0 v.mounts ≡ some j = r0 ∙ ap some (omega arith) in
      elim (Bool-cases granted) [
        | inr refusal ↦ rw (r, mount_in, refusal) h
        | inl given ↦ elim (Bool-cases (leb (vfs_max_path - 1) (length mountpoint))) [
          | inl long ↦ rw (r, mount_in, given, long) tt
          | inr short ↦
              rw (r, mount_in, given, short) (add_mount-Rooted v j mountpoint flags fs there free h)
        ]
      ]
]

vfs_mount-Rooted :
    {S P : Type 0} (v : Vfs S P) (devices : List (BlockDevice P)) (device : Option Str)
    (mountpoint fstype : Str) (flags : ℕ) (granted : Bool)
    → Rooted v
    → RootedResult (state_of (vfs_mount v devices device mountpoint fstype flags granted))
unfolding vfs_mount
vfs_mount-Rooted v devices device mountpoint fstype flags granted h =
    elim (Bool-cases v.initialized) [
      | inr off ↦ rw off h
      | inl on ↦ elim (Option-cases (find_type 0 v.fs_types fstype)) [
        | inl absent ↦ rw (on, absent, vfs_mount) h
        | inr ((i, t), found) ↦ elim (Option-cases (mount_device devices device)) [
          | inl absent ↦ rw (on, found, absent, vfs_mount) h
          | inr (dev, there) ↦ elim (Option-cases (t.mount dev flags)) [
            | inl failed ↦ rw (on, found, there, failed, vfs_mount) h
            | inr (fs, made) ↦
                rw (on, found, there, made, vfs_mount)
                  (mount_in-Rooted v mountpoint flags fs granted h)
          ]
        ]
      ]
    ]

vfs_unmount-Rooted :
    {S P : Type 0} (v : Vfs S P) (mountpoint : Str) → Rooted v → Rooted (vfs_unmount v mountpoint).1
unfolding vfs_unmount
vfs_unmount-Rooted v mountpoint h = elim (Bool-cases v.initialized) [
  | inr off ↦ rw off h
  | inl on ↦ elim (Option-cases (find_mounted 0 v.mounts mountpoint)) [
    | inl absent ↦ rw (on, absent, vfs_unmount) h
    | inr (slot, found) ↦
        rw (on, found, vfs_unmount) (clear_root-Rooted v.root_mount v.mounts slot h)
  ]
]

perform_mount-Rooted :
    {S P : Type 0} (v : Vfs S P) (call : MountCall P)
    → Rooted v
    → RootedResult (perform_mount v call)
unfolding vfs_init vfs_shutdown
perform_mount-Rooted v call_init h = elim (Bool-cases v.initialized) [
  | inl on ↦ rw on h
  | inr off ↦ rw off tt
]
perform_mount-Rooted v (call_mount devices device mountpoint fstype flags granted) h =
    vfs_mount-Rooted v devices device mountpoint fstype flags granted h
perform_mount-Rooted v (call_unmount mountpoint) h = vfs_unmount-Rooted v mountpoint h
perform_mount-Rooted v call_shutdown h = elim (Bool-cases v.initialized) [
  | inl on ↦ rw on tt
  | inr off ↦ rw off h
]

perform_mounts-Rooted :
    {S P : Type 0} (v v1 : Vfs S P) (calls : List (MountCall P))
    → Rooted v
    → perform_mounts v calls ≡ some v1
    → Rooted v1
unfolding perform_mounts
perform_mounts-Rooted v v1 [] h run = subst RootedResult run h
perform_mounts-Rooted {S = S} {P = P} v v1 (call ∷ calls) h run =
    elim (Option-cases (perform_mount v call)) [
      | inl fault ↦
          let w : ◌≡◌ {A = Option (Vfs S P)} none (some v1) = rw (fault, perform_mounts) at run in
          absurd (cc)
      | inr (v2, step) ↦
          perform_mounts-Rooted v2 v1 calls
            (subst RootedResult step (perform_mount-Rooted v call h))
            (rw (step, perform_mounts) at run)
    ]

-- After any calls of vfs_init, vfs_mount, vfs_unmount and vfs_shutdown of which none faults, from a VFS without a root
-- mount on, if the VFS is initialised then vfs_find_mount_for_path finds nothing only if no mount point is a prefix of
-- the path, and otherwise a mount whose point is a prefix and the longest such.
pub perform_mounts-FoundMount :
    {S P : Type 0} (v v1 : Vfs S P) (calls : List (MountCall P)) (path : Str)
    → v.root_mount ≡ none
    → perform_mounts v calls ≡ some v1
    → v1.initialized ≡ true
    → FoundMount path v1.mounts (vfs_find_mount_for_path v1 path)
perform_mounts-FoundMount v v1 calls path no_root run ready =
    vfs_find_mount_for_path-FoundMount v1 path ready
      (perform_mounts-Rooted v v1 calls (rw no_root tt) run)
