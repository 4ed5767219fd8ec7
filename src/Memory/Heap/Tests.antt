-- ===== src/Memory/Heap/Tests.antt =====
-- Runs of `kmalloc`, and the theorems at them.
use build_your_own_os.Prelude.{◌≡◌, refl, [], ◌∷◌, arith}
use build_your_own_os.Memory.Heap.{kmalloc, serve}
use build_your_own_os.Memory.Heap.Packed.{Packed, serve-Packed}

serve_runs : serve 5 (10 ∷ 300000 ∷ 0 ∷ 16 ∷ []) ≡ (16, 10) ∷ (32, 16) ∷ []
unfolding serve kmalloc
serve_runs = refl

serve-Packed_example : Packed 5 (serve 5 (10 ∷ 300000 ∷ 0 ∷ 16 ∷ []))
serve-Packed_example = serve-Packed 5 (10 ∷ 300000 ∷ 0 ∷ 16 ∷ []) (omega arith) (omega arith)
