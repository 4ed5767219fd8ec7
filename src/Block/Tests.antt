-- ===== src/Block/Tests.antt =====
-- A RAM disk of two blocks at address 65536.
use build_your_own_os.Prelude.{refl, inl, [], ◌∷◌, arith, has_bit}
use build_your_own_os.Text.{Mem}
use build_your_own_os.Block.{
  BlockDevice, block_device_read, block_device_write, block_device_register,
}
use build_your_own_os.Block.Ramdisk.{RamdiskData, new_ramdisk}
use build_your_own_os.Block.Disk.{
  IsRamdisk, IsBuffer, WroteAndRead, block_device_read-block_device_write,
}
use build_your_own_os.Block.Registry.{Registration, block_device_register-Registration}

abbrev ram0 : BlockDevice RamdiskData
ram0 = new_ramdisk (114 ∷ 48 ∷ []) 8192 65536

ram0-IsRamdisk : IsRamdisk ram0 65536 2 8192
unfolding has_bit
ram0-IsRamdisk = record {
  ops = refl;
  disk = refl;
  blocks = refl;
  based = omega arith;
  small = omega arith;
  readable = refl;
  writable = refl;
}

abbrev addresses : Mem
addresses q = q

low-IsBuffer : IsBuffer 65536 2 4096
low-IsBuffer = record { given = omega arith; apart = inl (omega arith) }

block_device_read-block_device_write_example :
    let w = block_device_write ram0 addresses 1 4096 in
    let r = block_device_read w.1 w.2 1 4096 in
    WroteAndRead addresses 65536 1 1 4096 4096 w.0 r.0 r.2
block_device_read-block_device_write_example =
    block_device_read-block_device_write ram0 65536 2 8192 ram0-IsRamdisk addresses 1 1 4096 4096
      (omega arith) (omega arith) low-IsBuffer low-IsBuffer

block_device_register-Registration_example :
    Registration [] 0 ram0 (block_device_register ([], 0) ram0)
block_device_register-Registration_example = block_device_register-Registration [] 0 ram0
