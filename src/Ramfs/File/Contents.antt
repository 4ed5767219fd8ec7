-- ===== src/Ramfs/File/Contents.antt =====
-- A file as the sequence of its bytes.
use build_your_own_os.Prelude.{
  ℕ, zero, suc, ◌+◌, ◌≤◌, ◌<◌, ◌≡◌, refl, ap, subst, Option, none, some, List, [], ◌∷◌,
  if◌then◌else◌, length, get_or, take, ltb, arith,
}
use build_your_own_os.Ramfs.{RamfsNode}
use build_your_own_os.Ramfs.File.{overwrite}

abbrev pub file_bytes : (content : Option (List ℕ)) → (size : ℕ) → List ℕ
file_bytes none size = []
file_bytes (some bytes) size = take size bytes

abbrev pub contents : RamfsNode → List ℕ
contents n = file_bytes n.content n.size

-- what a write of `buf` at `offset` makes of a file: zeros fill the gap in front of it
abbrev pub write_at : (bytes : List ℕ) → (offset : ℕ) → (buf : List ℕ) → List ℕ
write_at bytes offset [] = bytes
write_at [] zero (b ∷ buf) = b ∷ write_at [] zero buf
write_at (x ∷ bytes) zero (b ∷ buf) = b ∷ write_at bytes zero buf
write_at [] (suc offset) (b ∷ buf) = 0 ∷ write_at [] offset (b ∷ buf)
write_at (x ∷ bytes) (suc offset) (b ∷ buf) = x ∷ write_at bytes offset (b ∷ buf)

pub length-take : (n : ℕ) (xs : List ℕ) → n ≤ length xs → length (take n xs) ≡ n
length-take zero xs h = refl
length-take (suc n) [] h = absurd (omega arith)
length-take (suc n) (x ∷ xs) h = ap suc (length-take n xs (omega arith))

abbrev pub new_end : (size end : ℕ) → ℕ
new_end size end = if ltb size end then end else size

new_end-zero : (n : ℕ) → new_end 0 n ≡ n
new_end-zero n = ground arith

new_end-suc : (s n : ℕ) → new_end (suc s) (suc n) ≡ suc (new_end s n)
new_end-suc s n = ground arith

new_end_self : (s : ℕ) → new_end s 0 ≡ s
new_end_self s = ground arith

-- The copy ends well, and the file with what is behind it up to the end of the copy is `target`.
pub record Copied (bytes : List ℕ) (end : ℕ) (r : Option (List ℕ)) (target : List ℕ) : Type 0 where
  pub result : List ℕ
  pub done : r ≡ some result
  pub same_length : length result ≡ length bytes
  pub file : take end result ≡ target

Copied-cons :
    (x y : ℕ) (bytes : List ℕ) (end : ℕ) (r : Option (List ℕ)) (target : List ℕ)
    → Copied bytes end r target
    → Copied
        (x ∷ bytes)
        (suc end)
        (elim r [ none ↦ none | some rest ↦ some (y ∷ rest) ])
        (y ∷ target)
Copied-cons x y bytes end r target c = record {
  result = y ∷ c.result;
  done = rw c.done;
  same_length = ap suc c.same_length;
  file = ap (λ t. y ∷ t) c.file;
}

overwrite_start :
    (bytes : List ℕ) (size : ℕ) (buf : List ℕ)
    → size ≤ length bytes
    → length buf ≤ length bytes
    → Copied bytes
        (new_end size (length buf))
        (overwrite bytes 0 buf)
        (write_at (take size bytes) 0 buf)
unfolding overwrite
overwrite_start [] size [] h1 h2 = record {
  result = [];
  done = refl;
  same_length = refl;
  file = rw (new_end_self size);
}
overwrite_start (x ∷ bytes) size [] h1 h2 = record {
  result = x ∷ bytes;
  done = refl;
  same_length = refl;
  file = rw (new_end_self size);
}
overwrite_start [] size (b ∷ buf) h1 h2 = absurd (omega arith)
overwrite_start (x ∷ bytes) zero (b ∷ buf) h1 h2 =
    let c = overwrite_start bytes 0 buf (omega arith) (omega arith) in
    rw (new_end-zero (suc (length buf))) (
      Copied-cons x b bytes (length buf) (overwrite bytes 0 buf) (write_at [] 0 buf)
        (rw (new_end-zero (length buf)) at c))
overwrite_start (x ∷ bytes) (suc s) (b ∷ buf) h1 h2 = rw (new_end-suc s (length buf)) (
    Copied-cons x b bytes (new_end s (length buf)) (overwrite bytes 0 buf)
      (write_at (take s bytes) 0 buf) (overwrite_start bytes s buf (omega arith) (omega arith)))

-- A copy that ends within the allocation, where zeros stand between the file and the copy, makes of the file
-- what `write_at` says.
pub overwrite-Copied :
    (bytes : List ℕ) (size offset b : ℕ) (buf : List ℕ)
    → size ≤ length bytes
    → offset + length (b ∷ buf) ≤ length bytes
    → ((i : ℕ) → size ≤ i → i < offset → get_or bytes i 0 ≡ 0)
    → Copied bytes
        (new_end size (offset + length (b ∷ buf)))
        (overwrite bytes offset (b ∷ buf))
        (write_at (take size bytes) offset (b ∷ buf))
unfolding overwrite
overwrite-Copied [] size zero b buf h1 h2 gap = absurd (omega arith)
overwrite-Copied [] size (suc o) b buf h1 h2 gap = absurd (omega arith)
overwrite-Copied (x ∷ bytes) size zero b buf h1 h2 gap =
    let e : 0 + length (b ∷ buf) ≡ length (b ∷ buf) = omega arith in
    rw e (overwrite_start (x ∷ bytes) size (b ∷ buf) h1 (omega arith))
overwrite-Copied (x ∷ bytes) zero (suc o) b buf h1 h2 gap =
    let n : ℕ = o + length (b ∷ buf) in
    let z : x ≡ 0 = gap 0 (omega arith) (omega arith) in
    let e : suc o + length (b ∷ buf) ≡ suc n = omega arith in
    let c =
      overwrite-Copied bytes 0 o b buf (omega arith) (omega arith)
        (λ i l r. gap (suc i) (omega arith) (omega arith)) in
    let W : List ℕ = write_at [] o (b ∷ buf) in
    rw (e, new_end-zero (suc n))
      (subst (λ t. Copied (x ∷ bytes) (suc n) (overwrite (x ∷ bytes) (suc o) (b ∷ buf)) (t ∷ W)) z
        (Copied-cons x x bytes n (overwrite bytes o (b ∷ buf)) W (rw (new_end-zero n) at c)))
overwrite-Copied (x ∷ bytes) (suc s) (suc o) b buf h1 h2 gap =
    let e : suc o + length (b ∷ buf) ≡ suc (o + length (b ∷ buf)) = omega arith in
    let c =
      overwrite-Copied bytes s o b buf (omega arith) (omega arith)
        (λ i l r. gap (suc i) (omega arith) (omega arith)) in
    rw (e, new_end-suc s (o + length (b ∷ buf)))
      (Copied-cons x x bytes (new_end s (o + length (b ∷ buf))) (overwrite bytes o (b ∷ buf))
        (write_at (take s bytes) o (b ∷ buf)) c)
