-- ===== src/Block/Cache/Laws.antt =====
-- A buffer of a RAM disk: `block_buffer_get` fills it from the disk, and `block_buffer_put` writes it
-- back when it is dirty and nobody holds it any more.
use build_your_own_os.Prelude.{
  ℕ, ◌+◌, ◌-◌, ◌*◌, ◌<◌, ◌≡◌, ◌∙◌, ap, true, false, some, arith, ltb, ◌==◌, length, length-set,
  get_or-set_self,
}
use build_your_own_os.Text.{memcpy}
use build_your_own_os.Text.Copy.{memcpy_lem}
use build_your_own_os.Block.{block_success, block_device_write, count_writes}
use build_your_own_os.Block.Ramdisk.{RamdiskData}
use build_your_own_os.Block.Disk.{IsRamdisk, IsBuffer, block_device_write-copy, block-Apart, turned}
use build_your_own_os.Block.Cache.{
  Cache, empty_buffer, buffer_at, put_buffer, after, write_back, block_buffer_sync,
  block_buffer_put,
}

-- device `dev` of the cache is a RAM disk, and the buffer's bytes lie outside it
pub record Backed (c : Cache RamdiskData) (dev base n size block buf : ℕ) : Type 0 where
  pub disk : IsRamdisk (c.device_at dev) base n size
  pub low : block < n
  pub outside : IsBuffer base n buf

-- Buffer `i` is dirty and held once.
pub record IsDirty (c : Cache RamdiskData) (i dev block buf : ℕ) : Type 0 where
  pub there : i < length c.buffers
  pub device : (buffer_at c i).device ≡ some dev
  pub block_num : (buffer_at c i).block_num ≡ block
  pub data_at : (buffer_at c i).data_at ≡ buf
  pub dirty : (buffer_at c i).dirty ≡ true
  pub held : (buffer_at c i).ref_count ≡ 1

-- The buffer is clean and free, and its bytes are on the disk.
pub record WrittenBack (c : Cache RamdiskData) (i base block buf : ℕ) (c' : Cache RamdiskData)
    : Type 0 where
  pub clean : (buffer_at c' i).dirty ≡ false
  pub free : (buffer_at c' i).ref_count ≡ 0
  pub bytes : (j : ℕ) → j < 4096 → c'.mem (base + block * 4096 + j) ≡ c.mem (buf + j)

-- the write of a buffer to a RAM disk
write_back-copy :
    (c : Cache RamdiskData) (i dev base n size block buf : ℕ)
    → Backed c dev base n size block buf
    → (buffer_at c i).block_num ≡ block
    → (buffer_at c i).data_at ≡ buf
    → write_back c i dev ≡ (
      block_success,
      put_buffer
          (after c dev
            (count_writes (c.device_at dev) 1)
            (memcpy c.mem (base + block * 4096) buf 4096))
          i
          (record (buffer_at c i) { dirty = false }),
    )
unfolding write_back
write_back-copy c i dev base n size block buf b e e' =
    let run : block_device_write (c.device_at dev) c.mem (buffer_at c i).block_num
          (buffer_at c i).data_at
        ≡ (
          block_success,
          count_writes (c.device_at dev) 1,
          memcpy c.mem (base + block * 4096) buf 4096,
        ) =
      rw (e, e')
        (block_device_write-copy (c.device_at dev) base n size b.disk c.mem block buf b.low
          b.outside.given) in
    rw run

block_buffer_sync-dirty :
    (c : Cache RamdiskData) (i dev : ℕ)
    → (buffer_at c i).device ≡ some dev
    → ((buffer_at c i).data_at == 0) ≡ false
    → (buffer_at c i).dirty ≡ true
    → block_buffer_sync c (some i) ≡ write_back c i dev
unfolding block_buffer_sync
block_buffer_sync-dirty c i dev device given dirty = ground arith

module _ (c : Cache RamdiskData) (i dev base n size block buf : ℕ)
    (b : Backed c dev base n size block buf) (d : IsDirty c i dev block buf) where
  released : Cache RamdiskData
  released = put_buffer c i (record (buffer_at c i) { ref_count = 0 })

  block_buffer_put-sync : block_buffer_put c (some i) ≡ block_buffer_sync released (some i)
  unfolding block_buffer_put released
  block_buffer_put-sync =
      let none_left : (buffer_at c i).ref_count - 1 ≡ 0 = omega (arith, d.held) in
      let was_held : ltb 0 (buffer_at c i).ref_count ≡ true = ground (arith, d.held) in
      rw (was_held, none_left, d.dirty)

  at : buffer_at released i ≡ record (buffer_at c i) { ref_count = 0 }
  unfolding released
  at = get_or-set_self c.buffers i _ empty_buffer d.there

  block_buffer_sync-write_back : block_buffer_sync released (some i) ≡ write_back released i dev
  block_buffer_sync-write_back =
      block_buffer_sync-dirty released i dev (ap (λ r. r.device) at ∙ d.device)
        (ground (arith, ap (λ r. r.data_at) at ∙ d.data_at, b.outside.given))
        (ap (λ r. r.dirty) at ∙ d.dirty)

  -- A dirty buffer of a RAM disk that is held once is written back by `block_buffer_put`: the call
  -- succeeds, the buffer is clean and free, and its bytes are on the disk.
  pub block_buffer_put-WrittenBack :
      (c' : Cache RamdiskData) × (block_buffer_put c (some i) ≡ (block_success, c'))
      × WrittenBack c i base block buf c'
  unfolding released
  block_buffer_put-WrittenBack =
      let run =
        write_back-copy released i dev base n size block buf
          (record { disk = b.disk; low = b.low; outside = b.outside })
          (ap (λ r. r.block_num) at ∙ d.block_num) (ap (λ r. r.data_at) at ∙ d.data_at) in
      let stored =
        get_or-set_self released.buffers i (record (buffer_at released i) { dirty = false })
          empty_buffer
          (omega
            (arith, d.there, length-set c.buffers i (record (buffer_at c i) { ref_count = 0 }))) in
      let copy =
        memcpy_lem c.mem (base + block * 4096) buf 4096 (omega (arith, b.disk.based))
          b.outside.given
          (turned (c.device_at dev) base n size b.disk buf (base + block * 4096)
            (block-Apart (c.device_at dev) base n size b.disk block buf b.low b.outside)) in
      (
        _,
        block_buffer_put-sync ∙ block_buffer_sync-write_back ∙ run,
        record {
          clean = ap (λ r. r.dirty) stored;
          free = ap (λ r. r.ref_count) stored ∙ ap (λ r. r.ref_count) at;
          bytes = copy.0;
        },
      )
