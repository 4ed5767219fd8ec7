-- ===== src/Block/Cache/Tests.antt =====
-- A cache with a RAM disk of two blocks, and one dirty buffer.
use build_your_own_os.Prelude.{
  ℕ, zero, suc, ◌≡◌, refl, ◌<◌, inl, true, some, [], ◌∷◌, arith, replicate, set, has_bit,
}
use build_your_own_os.Block.{block_success}
use build_your_own_os.Block.Ramdisk.{RamdiskData, new_ramdisk}
use build_your_own_os.Block.Cache.{
  BlockBuffer, Cache, empty_buffer, max_buffers, buffer_at, block_buffer_get, block_buffer_put,
}
use build_your_own_os.Block.Cache.Laws.{Backed, WrittenBack, block_buffer_put-WrittenBack}
use build_your_own_os.Block.Cache.Load.{IsFirstFree, Loaded, block_buffer_get-Loaded}

abbrev dirty_buffer : BlockBuffer
dirty_buffer = record {
  device = some 0;
  block_num = 1;
  data_at = 4096;
  dirty = true;
  ref_count = 1;
}

abbrev cache : Cache RamdiskData
cache = record {
  device_at = λ q. new_ramdisk (114 ∷ 48 ∷ []) 8192 65536;
  buffers = set (replicate max_buffers empty_buffer) 0 dirty_buffer;
  buffer_cache_initialized = true;
  mem = λ q. q;
}

cache-Backed : Backed cache 0 65536 2 8192 1 4096
unfolding has_bit
cache-Backed = record {
  disk = record {
    ops = refl;
    disk = refl;
    blocks = refl;
    based = omega arith;
    small = omega arith;
    readable = refl;
    writable = refl;
  };
  low = omega arith;
  outside = record { given = omega arith; apart = inl (omega arith) };
}

block_buffer_put-WrittenBack_example :
    (c' : Cache RamdiskData) × (block_buffer_put cache (some 0) ≡ (block_success, c'))
    × WrittenBack cache 0 65536 1 4096 c'
block_buffer_put-WrittenBack_example =
    block_buffer_put-WrittenBack cache 0 0 65536 2 8192 1 4096 cache-Backed (record {
      there = omega arith;
      device = refl;
      block_num = refl;
      data_at = refl;
      dirty = refl;
      held = refl;
    })

second-IsFirstFree : IsFirstFree cache 1
second-IsFirstFree = record { low = omega arith; there = omega arith; free = refl; before = before }
  where
    before : (j : ℕ) → j < 1 → 0 < (buffer_at cache j).ref_count
    before zero h = omega arith
    before (suc j) h = absurd (omega arith)

block_buffer_get-Loaded_example :
    (c' : Cache RamdiskData) × (block_buffer_get cache (some 0) 1 4096 ≡ (some 1, c'))
    × Loaded cache 1 0 65536 1 4096 c'
block_buffer_get-Loaded_example =
    block_buffer_get-Loaded cache 1 0 65536 2 8192 1 4096 4096 cache-Backed second-IsFirstFree refl
      refl
