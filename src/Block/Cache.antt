-- ===== src/Block/Cache.antt =====
-- The buffer cache of src/fs/block/block_device.c. A device is known by a number, a buffer by its place
-- in `buffer_cache`, and `granted` is the address that `kmalloc` returns (0 for NULL).
pub mod Laws
pub mod Load
mod Tests
use build_your_own_os.Prelude.{
  is_success, ℕ, zero, suc, ◌+◌, ◌-◌, Bool, true, false, ◌&&◌, ◌||◌, not, Option, none, some, List,
  [], ltb, ◌==◌, if◌then◌else◌, get_or, set, replicate, ℤ,
}
use build_your_own_os.Text.{Mem}
use build_your_own_os.Block.{
  BlockDevice, Outcome, block_success, block_einval, block_device_read, block_device_write,
}

abbrev pub max_buffers : ℕ
max_buffers = 32

pub record BlockBuffer : Type 0 where
  pub device : Option ℕ
  pub block_num : ℕ
  pub data_at : ℕ
  pub dirty : Bool
  pub ref_count : ℕ

abbrev pub empty_buffer : BlockBuffer
empty_buffer = record { device = none; block_num = 0; data_at = 0; dirty = false; ref_count = 0 }

pub record Cache (P : Type 0) : Type 0 where
  pub device_at : ℕ → BlockDevice P
  pub buffers : List BlockBuffer
  pub buffer_cache_initialized : Bool
  pub mem : Mem

module _ {P : Type 0} where
  abbrev pub buffer_at : Cache P → ℕ → BlockBuffer
  buffer_at c i = get_or c.buffers i empty_buffer

  abbrev pub put_buffer : Cache P → ℕ → BlockBuffer → Cache P
  put_buffer c i b = record c { buffers = set c.buffers i b }

  -- the device and memory after an operation
  abbrev pub after : Cache P → (dev : ℕ) → BlockDevice P → Mem → Cache P
  after c dev d mem = record c { device_at = λ q. if dev == q then d else c.device_at q; mem = mem }

  unfoldable pub block_buffer_init : Cache P → ℤ × Cache P
  block_buffer_init c = if c.buffer_cache_initialized then (block_success, c) else (
    block_success,
    record c { buffers = replicate max_buffers empty_buffer; buffer_cache_initialized = true },
  )

  -- the loop of `block_buffer_get`: the first buffer that nobody holds
  unfoldable pub find_buffer : (rounds : ℕ) → Cache P → (i : ℕ) → Option ℕ
  find_buffer zero c i = none
  find_buffer (suc rounds) c i = elim ((buffer_at c i).ref_count == 0) [
    | true ↦ some i
    | false ↦ find_buffer rounds c (i + 1)
  ]

  -- the body of that loop for buffer `i`, which gets the block
  unfoldable pub load_buffer : Cache P → (i dev block granted : ℕ) → Option ℕ × Cache P
  load_buffer c i dev block granted =
      let buf_data = (if (buffer_at c i).data_at == 0 then granted else (buffer_at c i).data_at) in
      let c1 = put_buffer c i (record {
        device = some dev;
        block_num = block;
        data_at = buf_data;
        dirty = false;
        ref_count = 1;
      }) in
      if buf_data == 0
      then (none, c1)
      else (let r = block_device_read (c.device_at dev) c.mem block buf_data in
          let c2 = after c1 dev r.1 r.2 in
          if is_success r.0
          then (some i, c2)
          else (none, put_buffer c2 i (record (buffer_at c2 i) { ref_count = 0 })))

  unfoldable pub block_buffer_get :
      Cache P → (dev : Option ℕ) → (block granted : ℕ) → Option ℕ × Cache P
  block_buffer_get c none block granted = (none, c)
  block_buffer_get c (some dev) block granted =
      if c.buffer_cache_initialized
      then elim (find_buffer max_buffers c 0) [
        | none ↦ (none, c)
        | some i ↦ load_buffer c i dev block granted
      ]
      else (none, c)

  -- the write of a dirty buffer to its device
  unfoldable pub write_back : Cache P → (i dev : ℕ) → ℤ × Cache P
  write_back c i dev =
      let b = buffer_at c i in
      let r = block_device_write (c.device_at dev) c.mem b.block_num b.data_at in
      let c' = after c dev r.1 r.2 in
      (r.0, if is_success r.0 then put_buffer c' i (record b { dirty = false }) else c')

  unfoldable pub block_buffer_sync : Cache P → (buf : Option ℕ) → ℤ × Cache P
  block_buffer_sync c none = (block_einval, c)
  block_buffer_sync c (some i) = elim (buffer_at c i).device [
    | none ↦ (block_einval, c)
    | some dev ↦
        if (buffer_at c i).data_at == 0
        then (block_einval, c)
        else if (buffer_at c i).dirty
        then write_back c i dev
        else (block_success, c)
  ]

  unfoldable pub block_buffer_put : Cache P → (buf : Option ℕ) → ℤ × Cache P
  block_buffer_put c none = (block_einval, c)
  block_buffer_put c (some i) =
      let b = buffer_at c i in
      let c' = put_buffer c i (record b { ref_count = b.ref_count - 1 }) in
      if ltb 0 b.ref_count
      then if b.ref_count - 1 == 0 && b.dirty
        then block_buffer_sync c' (some i)
        else (block_success, c')
      else (block_success, c)

  -- the loop of `block_buffer_sync_all`
  unfoldable pub sync_from : (rounds : ℕ) → Cache P → (i : ℕ) → ℤ × Cache P
  sync_from zero c i = (block_success, c)
  sync_from (suc rounds) c i =
      if ltb 0 (buffer_at c i).ref_count && (buffer_at c i).dirty
      then (let r = block_buffer_sync c (some i) in
          elim (is_success r.0) [ true ↦ sync_from rounds r.1 (i + 1) | false ↦ r ])
      else sync_from rounds c (i + 1)

  unfoldable pub block_buffer_sync_all : Cache P → ℤ × Cache P
  block_buffer_sync_all c =
      if c.buffer_cache_initialized then sync_from max_buffers c 0 else (block_success, c)
