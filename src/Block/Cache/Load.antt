-- ===== src/Block/Cache/Load.antt =====
-- `block_buffer_get` of a block of a RAM disk.
use build_your_own_os.Prelude.{
  ℕ, zero, suc, ◌+◌, ◌*◌, ◌≤◌, ◌<◌, ◌≡◌, ◌∙◌, inl, inr, true, false, some, arith, ◌==◌,
  if◌then◌else◌, length, get_or-set_self, Bool-cases,
}
use build_your_own_os.Text.{memcpy}
use build_your_own_os.Text.Copy.{memcpy_lem}
use build_your_own_os.Block.{count_reads}
use build_your_own_os.Block.Ramdisk.{RamdiskData}
use build_your_own_os.Block.Disk.{block_device_read-copy, block-Apart}
use build_your_own_os.Block.Cache.{
  Cache, empty_buffer, max_buffers, buffer_at, put_buffer, after, find_buffer, load_buffer,
  block_buffer_get,
}
use build_your_own_os.Block.Cache.Laws.{Backed}

-- Buffer `i` is the first that nobody holds.
pub record IsFirstFree (c : Cache RamdiskData) (i : ℕ) : Type 0 where
  pub low : i < max_buffers
  pub there : i < length c.buffers
  pub free : (buffer_at c i).ref_count ≡ 0
  pub before : (j : ℕ) → j < i → 0 < (buffer_at c j).ref_count

find_buffer-first :
    (rounds from : ℕ) (c : Cache RamdiskData) (i : ℕ)
    → from ≤ i
    → i < from + rounds
    → IsFirstFree c i
    → find_buffer rounds c from ≡ some i
unfolding find_buffer
find_buffer-first zero from c i a b f = absurd (omega arith)
find_buffer-first (suc rounds) from c i a b f = elim (Bool-cases (from == i)) [
  | inl same ↦
      let e : i ≡ from = ground arith in
      let here : ((buffer_at c from).ref_count == 0) ≡ true =
        let h = rw e at f.free in ground (arith, h) in
      rw (here, find_buffer, e)
  | inr apart ↦
      let held : ((buffer_at c from).ref_count == 0) ≡ false =
        let h = f.before from (ground arith) in ground (arith, h) in
      rw (held, find_buffer)
        (find_buffer-first rounds (from + 1) c i (ground arith) (omega arith) f)
]

block_buffer_get-load_buffer :
    (c : Cache RamdiskData) (i dev block granted : ℕ)
    → c.buffer_cache_initialized ≡ true
    → find_buffer max_buffers c 0 ≡ some i
    → block_buffer_get c (some dev) block granted ≡ load_buffer c i dev block granted
unfolding block_buffer_get
block_buffer_get-load_buffer c i dev block granted up found = ground arith

-- Buffer `i` has the block, and is held once.
pub record Loaded (c : Cache RamdiskData) (i dev base block buf : ℕ) (c' : Cache RamdiskData)
    : Type 0 where
  pub buffer :
      buffer_at c' i
      ≡ record { device = some dev; block_num = block; data_at = buf; dirty = false; ref_count = 1 }
  pub bytes : (j : ℕ) → j < 4096 → c'.mem (buf + j) ≡ c.mem (base + block * 4096 + j)

module _ (c : Cache RamdiskData) (i dev base n size block granted buf : ℕ)
    (b : Backed c dev base n size block buf) (f : IsFirstFree c i)
    (own : (if (buffer_at c i).data_at == 0 then granted else (buffer_at c i).data_at) ≡ buf) where
  -- the cache once the block is read
  loaded : Cache RamdiskData
  loaded =
      after
        (put_buffer c i (record {
          device = some dev;
          block_num = block;
          data_at = buf;
          dirty = false;
          ref_count = 1;
        }))
        dev (count_reads (c.device_at dev) 1) (memcpy c.mem buf (base + block * 4096) 4096)

  load_buffer-loaded : load_buffer c i dev block granted ≡ (some i, loaded)
  unfolding load_buffer loaded
  load_buffer-loaded =
      let run =
        block_device_read-copy (c.device_at dev) base n size b.disk c.mem block buf b.low
          b.outside.given in
      let given : (buf == 0) ≡ false = ground (arith, b.outside.given) in rw (own, given, run)

  -- `block_buffer_get` of a block of a RAM disk, in a cache that is initialised and has a buffer that
  -- nobody holds, with memory for it: it takes the first such buffer, which then has the bytes of the
  -- block, is clean and held once.
  pub block_buffer_get-Loaded :
      c.buffer_cache_initialized ≡ true
      → (c' : Cache RamdiskData) × (block_buffer_get c (some dev) block granted ≡ (some i, c'))
        × Loaded c i dev base block buf c'
  unfolding loaded
  block_buffer_get-Loaded up =
      let found = find_buffer-first max_buffers 0 c i (omega arith) f.low f in
      let copy =
        memcpy_lem c.mem buf (base + block * 4096) 4096 b.outside.given
          (omega (arith, b.disk.based))
          (block-Apart (c.device_at dev) base n size b.disk block buf b.low b.outside) in
      (
        loaded,
        block_buffer_get-load_buffer c i dev block granted up found ∙ load_buffer-loaded,
        record { buffer = get_or-set_self c.buffers i _ empty_buffer f.there; bytes = copy.0 },
      )
