-- ===== src/Block/Registry.antt =====
-- The list of registered devices.
use build_your_own_os.Prelude.{
  same_name, same_name_refl, ℕ, ◌+◌, ◌%◌, ◌^◌, ◌≡◌, ◌⊎◌, inl, inr, false, none, some, List, ◌∷◌,
  arith, ◌==◌, length, Bool-cases, Option-cases, ℤ,
}
use build_your_own_os.Block.{
  BlockDevice, block_success, block_error, block_einval, block_device_find, block_device_register,
  no_statistics,
}

-- What the registration of `dev` does with the list and its counter.
pub data Registration {P : Type 0} (devices : List (BlockDevice P)) (device_count : ℕ)
    (dev : BlockDevice P) (r : ℤ × List (BlockDevice P) × ℕ) : Type 0 where
  invalid :
      r ≡ (block_einval, devices, device_count)
      → (dev.ops ≡ none) ⊎ (length dev.name ≡ 0)
      → Registration devices device_count dev r
  taken :
      (other : BlockDevice P)
      → r ≡ (block_error, devices, device_count)
      → block_device_find devices dev.name ≡ some other
      → Registration devices device_count dev r
  added :
      (devices' : List (BlockDevice P))
      → r ≡ (block_success, devices', (device_count + 1) % 2 ^ 32)
      → length devices' ≡ length devices + 1
      → block_device_find devices dev.name ≡ none
      → block_device_find devices' dev.name ≡ some (no_statistics dev)
      → ((name : List ℕ)
          → same_name dev.name name ≡ false
          → block_device_find devices' name ≡ block_device_find devices name)
      → Registration devices device_count dev r

module _ {P : Type 0} (devices : List (BlockDevice P)) (device_count : ℕ)
    (dev : BlockDevice P) where
  find-added : block_device_find (no_statistics dev ∷ devices) dev.name ≡ some (no_statistics dev)
  unfolding block_device_find
  find-added = rw (same_name_refl dev.name)

  find-others :
      (name : List ℕ)
      → same_name dev.name name ≡ false
      → block_device_find (no_statistics dev ∷ devices) name ≡ block_device_find devices name
  unfolding block_device_find
  find-others name other = rw other

  -- `block_device_register` refuses a device with no operations, no name, or a name that is taken, and
  -- changes nothing then. Otherwise `block_device_find` gives the device, with its statistics at 0,
  -- under its name, and under every other name what it gave before.
  pub block_device_register-Registration :
      Registration devices device_count dev (block_device_register (devices, device_count) dev)
  unfolding block_device_register
  block_device_register-Registration = elim (Option-cases dev.ops) [
    | inl e ↦ invalid (ground (arith, e)) (inl e)
    | inr (ops, e) ↦ elim (Bool-cases (length dev.name == 0)) [
      | inl empty ↦ invalid (ground (arith, e, empty)) (inr (ground arith))
      | inr named ↦ elim (Option-cases (block_device_find devices dev.name)) [
        | inr (other, f) ↦ taken other (ground (arith, e, named, f)) f
        | inl f ↦
            added (no_statistics dev ∷ devices) (ground (arith, e, named, f)) (omega arith) f
              find-added find-others
      ]
    ]
  ]
