-- ===== src/Memory/Heap.antt =====
-- `kmalloc` of src/kernel/memory.c, a bump allocator over the static array `simple_heap`. A block is
-- known by its offset in the array. `kfree` does nothing.
pub mod Packed
mod Tests
use build_your_own_os.Prelude.{
  ℕ, ◌+◌, ◌*◌, ◌/◌, ◌%◌, ◌^◌, Option, none, some, List, [], ◌∷◌, ltb, ◌==◌, if◌then◌else◌,
}

abbrev pub heap_size : ℕ
heap_size = 256 * 1024

-- (x + 15) & ~15 on size_t
abbrev pub align_up : ℕ → ℕ
align_up x = (x + 15) % 2 ^ 64 / 16 * 16

-- The block (`none` for NULL) and the new `heap_offset`.
unfoldable pub kmalloc : (heap_offset size : ℕ) → Option ℕ × ℕ
kmalloc heap_offset size =
    let aligned_offset = align_up heap_offset in
    if size == 0
    then (none, heap_offset)
    else if ltb heap_size ((aligned_offset + align_up size) % 2 ^ 64)
    then (none, heap_offset)
    else (some aligned_offset, (aligned_offset + align_up size) % 2 ^ 64)

pub kfree : (heap_offset ptr : ℕ) → ℕ
kfree heap_offset ptr = heap_offset

abbrev keep : Option ℕ → ℕ → List (ℕ × ℕ) → List (ℕ × ℕ)
keep none size blocks = blocks
keep (some b) size blocks = (b, size) ∷ blocks

-- The blocks that a sequence of requests gets, in order, each with its size.
pub serve : ℕ → List ℕ → List (ℕ × ℕ)
serve heap_offset [] = []
serve heap_offset (size ∷ sizes) =
    let (b, heap_offset') = kmalloc heap_offset size in keep b size (serve heap_offset' sizes)
