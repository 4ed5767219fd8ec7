-- ===== src/Sfs/Disk.antt =====
-- A RAM disk behind src/fs/block/block_device.c is a device as the Simple File System needs it: the bytes of a
-- block go through a buffer of one block at a fixed address outside the disk.
use build_your_own_os.Prelude.{
  ℕ, zero, suc, ◌+◌, ◌*◌, ◌≤◌, ◌<◌, ◌≡◌, ◌≢◌, refl, sym, ◌∙◌, inl, inr, ap, Bool, true, false, ◌||◌,
  Option, none, some, List, [], ◌∷◌, ltb, leb, ltb→lt, ◌==◌, if◌then◌else◌, length, is_success,
  arith, Bool-cases,
}
use build_your_own_os.Text.{Mem, store, memcpy}
use build_your_own_os.Text.Copy.{within, Apart, memcpy_lem}
use build_your_own_os.Block.{
  BlockDevice, Outcome, block_einval, read_op, write_op, block_device_read, block_device_write,
}
use build_your_own_os.Block.Ramdisk.{RamdiskData, ramdisk_read_block, ramdisk_write_block}
use build_your_own_os.Block.Disk.{
  IsRamdisk, IsBuffer, block_device_write-copy, block_device_read-copy, block-Apart, turned,
}
use build_your_own_os.Sfs.{Device}
use build_your_own_os.Sfs.Blocks.Laws.{IsDevice}

bytes_at : Mem → (address n : ℕ) → List ℕ
bytes_at mem address zero = []
bytes_at mem address (suc n) = mem address ∷ bytes_at mem (address + 1) n

abbrev put_at : Mem → (address : ℕ) → List ℕ → Mem
put_at mem address [] = mem
put_at mem address (x ∷ xs) = store (put_at mem (address + 1) xs) address x

-- what a call leaves for the caller
abbrev bytes_of : (buffer : ℕ) → Outcome RamdiskData → Option (List ℕ)
bytes_of buffer r = if is_success r.0 then some (bytes_at r.2 buffer 4096) else none

abbrev memory_of : Outcome RamdiskData → Bool × Mem
memory_of r = (is_success r.0, r.2)

pub disk_device : BlockDevice RamdiskData → (buffer : ℕ) → Device Mem
disk_device dev buffer = record {
  read = λ mem b. bytes_of buffer (block_device_read dev mem b buffer);
  write = λ mem b bytes. memory_of (block_device_write dev (put_at mem buffer bytes) b buffer);
}

bytes_at-same :
    (n : ℕ) (m m' : Mem) (a a' : ℕ)
    → ((i : ℕ) → i < n → m (a + i) ≡ m' (a' + i))
    → bytes_at m a n ≡ bytes_at m' a' n
unfolding bytes_at
bytes_at-same zero m m' a a' h = refl
bytes_at-same (suc n) m m' a a' h =
    let e : a + 0 ≡ a = omega arith in
    let e' : a' + 0 ≡ a' = omega arith in
    let first : m a ≡ m' a' = ap m (sym e) ∙ h 0 (omega arith) ∙ ap m' e' in
    let rest = bytes_at-same n m m' (a + 1) (a' + 1) (λ i low.
      let s : a + 1 + i ≡ a + suc i = omega arith in
      let s' : a' + suc i ≡ a' + 1 + i = omega arith in
      ap m s ∙ h (suc i) (omega (arith, low)) ∙ ap m' s') in
    rw (first, rest) refl

put_at-outside :
    (xs : List ℕ) (mem : Mem) (a q : ℕ) → within a (length xs) q ≡ false → put_at mem a xs q ≡ mem q
put_at-outside [] mem a q out = refl
put_at-outside (x ∷ xs) mem a q out =
    let e : (a == q) ≡ false = ground (arith, out) in
    rw e (put_at-outside xs mem (a + 1) q (ground (arith, out)))

bytes_at-put_at : (xs : List ℕ) (mem : Mem) (a : ℕ) → bytes_at (put_at mem a xs) a (length xs) ≡ xs
unfolding bytes_at
bytes_at-put_at [] mem a = refl
bytes_at-put_at (x ∷ xs) mem a =
    let e : (a == a) ≡ true = ground arith in
    let rest =
      bytes_at-same (length xs) (put_at mem a (x ∷ xs)) (put_at mem (a + 1) xs) (a + 1) (a + 1)
        (λ i low. let ne : (a == a + 1 + i) ≡ false = ground arith in rw ne refl) in
    rw e (ap (λ t. x ∷ t) (rest ∙ bytes_at-put_at xs mem (a + 1)))

module _ (dev : BlockDevice RamdiskData) (base n size : ℕ) (d : IsRamdisk dev base n size)
    (buffer : ℕ) (buf : IsBuffer base n buffer) where
  read_in :
      (mem : Mem) (b : ℕ)
      → b < n
      → (disk_device dev buffer).read mem b ≡ some (bytes_at mem (base + b * 4096) 4096)
  unfolding disk_device
  read_in mem b low =
      let run = block_device_read-copy dev base n size d mem b buffer low buf.given in
      let copy =
        memcpy_lem mem buffer (base + b * 4096) 4096 buf.given (omega (arith, d.based))
          (block-Apart dev base n size d b buffer low buf) in
      ap (bytes_of buffer) run
      ∙ ap some (
          bytes_at-same 4096 (memcpy mem buffer (base + b * 4096) 4096) mem buffer (base + b * 4096)
            copy.0)

  read_out : (mem : Mem) (b : ℕ) → n ≤ b → (disk_device dev buffer).read mem b ≡ none
  unfolding disk_device block_device_read
  read_out mem b high =
      let op : read_op dev.ops ≡ some ramdisk_read_block = ap read_op d.ops in
      let guard : (buffer == 0 || leb dev.num_blocks b) ≡ true = ground (arith, d.blocks, high) in
      let run : block_device_read dev mem b buffer ≡ (block_einval, dev, mem) =
        rw (op, block_device_read, guard) refl in
      ap (bytes_of buffer) run

  write_in :
      (mem : Mem) (b : ℕ) (bytes : List ℕ)
      → b < n
      → (disk_device dev buffer).write mem b bytes
        ≡ (true, memcpy (put_at mem buffer bytes) (base + b * 4096) buffer 4096)
  unfolding disk_device
  write_in mem b bytes low =
      ap memory_of
        (block_device_write-copy dev base n size d (put_at mem buffer bytes) b buffer low buf.given)

  write_out :
      (mem : Mem) (b : ℕ) (bytes : List ℕ)
      → n ≤ b
      → (disk_device dev buffer).write mem b bytes ≡ (false, put_at mem buffer bytes)
  unfolding disk_device block_device_write
  write_out mem b bytes high =
      let op : write_op dev.ops ≡ some ramdisk_write_block = ap write_op d.ops in
      let guard : (buffer == 0 || leb dev.num_blocks b) ≡ true = ground (arith, d.blocks, high) in
      let m : Mem = put_at mem buffer bytes in
      let run : block_device_write dev m b buffer ≡ (block_einval, dev, m) =
        rw (op, block_device_write, guard) refl in
      ap memory_of run

  -- the disk after the bytes came into the buffer and were written
  inside :
      (mem : Mem) (b : ℕ) (bytes : List ℕ)
      → b < n
      → length bytes ≡ 4096
      → bytes_at
          (memcpy (put_at mem buffer bytes) (base + b * 4096) buffer 4096)
          (base + b * 4096)
          4096
        ≡ bytes
  inside mem b bytes low full =
      let m : Mem = put_at mem buffer bytes in
      let at : ℕ = base + b * 4096 in
      let apart =
        turned dev base n size d buffer at (block-Apart dev base n size d b buffer low buf) in
      let copy = memcpy_lem m at buffer 4096 (omega (arith, d.based)) buf.given apart in
      bytes_at-same 4096 (memcpy m at buffer 4096) m at buffer copy.0
      ∙ ap (bytes_at m buffer) (sym full)
      ∙ bytes_at-put_at bytes mem buffer

  -- a byte of the disk is outside the buffer
  out_of_buffer : (c i : ℕ) → c < n → i < 4096 → within buffer 4096 (base + c * 4096 + i) ≡ false
  out_of_buffer c i low h = from (block-Apart dev base n size d c buffer low buf)
    where
      from :
          Apart buffer 4096 (base + c * 4096) 4096
          → within buffer 4096 (base + c * 4096 + i) ≡ false
      from (inl below) = ground (arith, below)
      from (inr above) = ground (arith, above, h)

  -- the blocks of the disk after the bytes came into the buffer
  buffered :
      (mem : Mem) (c : ℕ) (bytes : List ℕ)
      → c < n
      → length bytes ≡ 4096
      → (i : ℕ) → i < 4096
      → put_at mem buffer bytes (base + c * 4096 + i) ≡ mem (base + c * 4096 + i)
  buffered mem c bytes low full i h =
      put_at-outside bytes mem buffer (base + c * 4096 + i)
        (ap (λ t. within buffer t (base + c * 4096 + i)) full ∙ out_of_buffer c i low h)

  outside :
      (mem : Mem) (b c : ℕ) (bytes : List ℕ)
      → b < n
      → c < n
      → b ≢ c
      → length bytes ≡ 4096
      → bytes_at
          (memcpy (put_at mem buffer bytes) (base + b * 4096) buffer 4096)
          (base + c * 4096)
          4096
        ≡ bytes_at mem (base + c * 4096) 4096
  outside mem b c bytes low low' ne full =
      let m : Mem = put_at mem buffer bytes in
      let at : ℕ = base + b * 4096 in
      let apart =
        turned dev base n size d buffer at (block-Apart dev base n size d b buffer low buf) in
      let copy = memcpy_lem m at buffer 4096 (omega (arith, d.based)) buf.given apart in
      bytes_at-same 4096 (memcpy m at buffer 4096) mem (base + c * 4096) (base + c * 4096) (λ i h.
        copy.1 (base + c * 4096 + i) (other_block b c i ne h) ∙ buffered mem c bytes low' full i h)
    where
      other_block :
          (b c i : ℕ)
          → b ≢ c
          → i < 4096
          → within (base + b * 4096) 4096 (base + c * 4096 + i) ≡ false
      other_block b c i ne h = elim (Bool-cases (ltb b c)) [
        | inl below ↦ let l : b < c = ltb→lt b c below in ground (arith, l)
        | inr above ↦ let l : c < b = ground (arith, above, ne) in ground (arith, l, h)
      ]

  -- Through a buffer outside it, a RAM disk of less than 4 GB is a device with its blocks: a write of one succeeds, gives
  -- the block these bytes and leaves the others.
  pub disk_device-IsDevice : IsDevice (disk_device dev buffer) n
  disk_device-IsDevice = record {
    written = λ mem b bytes done full. elim (Bool-cases (ltb b n)) [
      | inl below ↦
          let low : b < n = ltb→lt b n below in
          let step = write_in mem b bytes low in
          ap (λ t. (disk_device dev buffer).read t.1 b) step
          ∙ read_in (memcpy (put_at mem buffer bytes) (base + b * 4096) buffer 4096) b low
          ∙ ap some (inside mem b bytes low full)
      | inr above ↦
          let high : n ≤ b = ground (arith, above) in
          absurd (not_both (sym (ap (λ t. t.0) (write_out mem b bytes high)) ∙ done))
    ];
    others = λ mem b bytes c ne full. elim (Bool-cases (ltb c n)) [
      | inr above ↦
          let high : n ≤ c = ground (arith, above) in
          read_out ((disk_device dev buffer).write mem b bytes).1 c high ∙ sym (read_out mem c high)
      | inl below ↦
          let low' : c < n = ltb→lt c n below in
          elim (Bool-cases (ltb b n)) [
            | inl b_below ↦
                let low : b < n = ltb→lt b n b_below in
                ap (λ t. (disk_device dev buffer).read t.1 c) (write_in mem b bytes low)
                ∙ read_in (memcpy (put_at mem buffer bytes) (base + b * 4096) buffer 4096) c low'
                ∙ ap some (outside mem b c bytes low low' ne full)
                ∙ sym (read_in mem c low')
            | inr b_above ↦
                let high : n ≤ b = ground (arith, b_above) in
                ap (λ t. (disk_device dev buffer).read t.1 c) (write_out mem b bytes high)
                ∙ read_in (put_at mem buffer bytes) c low'
                ∙ ap some (
                    bytes_at-same 4096 (put_at mem buffer bytes) mem (base + c * 4096)
                      (base + c * 4096) (buffered mem c bytes low' full))
                ∙ sym (read_in mem c low')
          ]
    ];
    succeeds = λ mem b bytes low full. ap (λ t. t.0) (write_in mem b bytes low);
  }
    where
      not_both : false ≢ true
      not_both e = absurd (cc)
