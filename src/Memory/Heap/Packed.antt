-- ===== src/Memory/Heap/Packed.antt =====
-- Blocks from `kmalloc` are aligned, inside the heap and apart; and the requests that break this.
use build_your_own_os.Prelude.{
  ℕ, ◌+◌, ◌%◌, ◌^◌, ◌≤◌, ◌<◌, ◌≡◌, refl, Option, none, some, List, [], ◌∷◌, All, arith,
}
use build_your_own_os.Memory.Heap.{heap_size, align_up, kmalloc, keep, serve}

-- The blocks are aligned to 16 bytes and lie in the heap, each behind the one before it.
abbrev pub Packed : ℕ → List (ℕ × ℕ) → Type 0
Packed lo [] = Unit
Packed lo ((b, size) ∷ blocks) =
    (lo ≤ b) × (b % 16 ≡ 0) × (b + size ≤ heap_size) × Packed (b + size) blocks

Packed-weaken : (lo hi : ℕ) (blocks : List (ℕ × ℕ)) → lo ≤ hi → Packed hi blocks → Packed lo blocks
Packed-weaken lo hi [] h p = tt
Packed-weaken lo hi ((b, size) ∷ blocks) h p = (omega arith, p.1, p.2, p.3)

-- what one request does: nothing, or a block before the new offset
record Step (heap_offset size : ℕ) (r : Option ℕ × ℕ) : Type 0 where
  in_heap : r.1 ≤ heap_size
  grows : heap_offset ≤ r.1
  block : (b : ℕ) → r.0 ≡ some b → (heap_offset ≤ b) × (b % 16 ≡ 0) × (b + size ≤ r.1)

kmalloc-Step :
    (heap_offset size : ℕ)
    → heap_offset ≤ heap_size
    → size < 2 ^ 63
    → Step heap_offset size (kmalloc heap_offset size)
unfolding kmalloc
kmalloc-Step heap_offset size h k = record {
  in_heap = ground arith;
  grows = ground arith;
  block = λ b e. ground arith;
}

-- However many requests of less than 2 ^ 63 bytes are made, from whatever offset in the heap: the
-- blocks that they get are aligned to 16 bytes, lie in the heap behind that offset, and no two
-- overlap.
pub serve-Packed :
    (heap_offset : ℕ) (sizes : List ℕ)
    → heap_offset ≤ heap_size
    → All (λ size. size < 2 ^ 63) sizes
    → Packed heap_offset (serve heap_offset sizes)
unfolding serve
serve-Packed heap_offset [] h k = tt
serve-Packed heap_offset (size ∷ sizes) h k =
    let step = kmalloc-Step heap_offset size h k.0 in
    go (kmalloc heap_offset size) step
      (serve-Packed (kmalloc heap_offset size).1 sizes step.in_heap k.1)
  where
    go :
        (r : Option ℕ × ℕ)
        → Step heap_offset size r
        → Packed r.1 (serve r.1 sizes)
        → Packed heap_offset (keep r.0 size (serve r.1 sizes))
    go (none, off) s p = Packed-weaken heap_offset off (serve off sizes) s.grows p
    go (some b, off) s p =
        let at = s.block b refl in
        (at.0, at.1, omega (arith, at, s.in_heap), Packed-weaken (b + size) off _ at.2 p)

-- A request so large that the 64-bit sum of offset and size wraps is granted: the block starts at
-- the aligned offset, though the heap has no room for it, and the offset moves back below that.
pub kmalloc_wraps :
    (heap_offset size : ℕ)
    → 0 < heap_offset
    → heap_offset ≤ heap_size
    → 2 ^ 64 ≤ align_up heap_offset + size
    → size + 16 ≤ 2 ^ 64
    → let (b, off) = kmalloc heap_offset size in
      (b ≡ some (align_up heap_offset))
      × (heap_size < align_up heap_offset + size)
      × (off < align_up heap_offset)
unfolding kmalloc
kmalloc_wraps heap_offset size pos h k l = ground arith
