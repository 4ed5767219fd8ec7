-- ===== src/Ramfs/File/Laws.antt =====
-- Reads and writes of the RAM file system on the bytes of a file.
use build_your_own_os.Prelude.{
  ℕ, zero, suc, ◌+◌, ◌-◌, ◌%◌, ◌^◌, ◌≤◌, ◌<◌, ◌≡◌, ◌≢◌, refl, ◌∙◌, inl, inr, ap, Bool, true, false,
  ◌&&◌, not, Option, none, some, List, [], ◌∷◌, ◌++◌, length, get_or, take, replicate,
  length-replicate, length-append, ltb, ltb→lt, ◌==◌, arith, Bool-cases, ℤ, pos, negsuc,
}
use build_your_own_os.Ramfs.{RamfsNode, RamfsFsData}
use build_your_own_os.Ramfs.File.{
  File, overwrite, make_room, copy_in, needs_memory, written, u32_next, ramfs_file_write,
}
use build_your_own_os.Ramfs.File.Contents.{
  file_bytes, contents, write_at, length-take, new_end, Copied, overwrite-Copied,
}

-- The data is large enough for the size, and the size is in bounds; a file without data is empty.
pub record IsValidNode (n : RamfsNode) : Type 0 where
  pub small : n.size ≤ 65536
  pub stored : (bytes : List ℕ) → n.content ≡ some bytes → n.size ≤ length bytes
  pub bare : n.content ≡ none → n.size ≡ 0

-- The outcomes of a write: too large; no memory; or the file gets the bytes, and all else stays.
pub data FileWrite (fs : RamfsFsData) (file : File) (buf : List ℕ) (offset : ℕ) (granted : Bool)
    (r : Option (ℤ × (RamfsFsData × File))) : Type 0 where
  too_large :
      65536 < offset + length buf
      → r ≡ some (negsuc 0, (fs, file))
      → FileWrite fs file buf offset granted r
  no_memory :
      granted ≡ false → r ≡ some (negsuc 0, (fs, file)) → FileWrite fs file buf offset granted r
  done :
      (fs' : RamfsFsData) (file' : File)
      → r ≡ some (pos (length buf), (fs', file'))
      → contents (fs'.node file.inode.node)
        ≡ write_at (contents (fs.node file.inode.node)) offset buf
      → IsValidNode (fs'.node file.inode.node)
      → file'.inode.node ≡ file.inode.node
      → ((j : ℕ) → j ≢ file.inode.node → fs'.node j ≡ fs.node j)
      → FileWrite fs file buf offset granted r

take-append_length : (xs ys : List ℕ) (n : ℕ) → length xs ≡ n → take n (xs ++ ys) ≡ xs
take-append_length [] ys zero h = refl
take-append_length [] ys (suc n) h = absurd (omega arith)
take-append_length (x ∷ xs) ys zero h = absurd (omega arith)
take-append_length (x ∷ xs) ys (suc n) h =
    ap (λ t. x ∷ t) (take-append_length xs ys n (omega arith))

get_or-append_behind :
    (xs ys : List ℕ) (i : ℕ) → length xs ≤ i → get_or (xs ++ ys) i 0 ≡ get_or ys (i - length xs) 0
get_or-append_behind [] ys i h = let e : i - 0 ≡ i = omega arith in rw e
get_or-append_behind (x ∷ xs) ys zero h = absurd (omega arith)
get_or-append_behind (x ∷ xs) ys (suc i) h =
    let e : suc i - suc (length xs) ≡ i - length xs = omega arith in
    rw e (get_or-append_behind xs ys i (omega arith))

get_or-zeros : (n i : ℕ) → get_or {A = ℕ} (replicate n 0) i 0 ≡ 0
get_or-zeros zero i = refl
get_or-zeros (suc n) zero = refl
get_or-zeros (suc n) (suc i) = get_or-zeros n i

-- What `make_room` gives: room for the copy, the file in front, and zeros up to the copy.
record HasRoom (content : Option (List ℕ)) (size offset end : ℕ) (room : List ℕ) : Type 0 where
  fits : end ≤ length room
  size_fits : size ≤ length room
  file : take size room ≡ file_bytes content size
  gap : (i : ℕ) → size ≤ i → i < offset → get_or room i 0 ≡ 0

make_room-HasRoom :
    (content : Option (List ℕ)) (size offset end : ℕ)
    → ((bytes : List ℕ) → content ≡ some bytes → size ≤ length bytes)
    → (content ≡ none → size ≡ 0)
    → offset ≤ end
    → HasRoom content size offset end (make_room content size end)
unfolding make_room
make_room-HasRoom none size offset end stored bare h =
    let z : size ≡ 0 = bare refl in
    record {
      fits = omega (arith, length-replicate {A = ℕ} end 0);
      size_fits = omega (arith, z);
      file = rw z;
      gap = λ i l r. get_or-zeros end i;
    }
make_room-HasRoom (some bytes) size offset end stored bare h =
    let s = stored bytes refl in
    let l : length (take size bytes) ≡ size = length-take size bytes s in
    elim (Bool-cases (ltb size end)) [
      | inl grows ↦
          let zeros : List ℕ = replicate (end - size) 0 in
          rw grows record {
            fits = omega (
              arith,
              length-append (take size bytes) zeros,
              length-replicate {A = ℕ} (end - size) 0,
              ltb→lt size end grows,
              l,
            );
            size_fits = omega (arith, length-append (take size bytes) zeros, l);
            file = take-append_length (take size bytes) zeros size l;
            gap = λ i a b.
                get_or-append_behind (take size bytes) zeros i (omega (arith, l, a))
                ∙ get_or-zeros (end - size) (i - length (take size bytes));
          }
      | inr stays ↦ rw stays record {
        fits = ground (arith, s);
        size_fits = s;
        file = refl;
        gap = λ i a b. absurd (ground (arith, h));
      }
    ]

copied :
    (m : RamfsNode) (offset b : ℕ) (buf : List ℕ)
    → IsValidNode m
    → Copied
        (make_room m.content m.size (offset + length (b ∷ buf)))
        (new_end m.size (offset + length (b ∷ buf)))
        (overwrite (make_room m.content m.size (offset + length (b ∷ buf))) offset (b ∷ buf))
        (write_at (contents m) offset (b ∷ buf))
copied m offset b buf v =
    let end : ℕ = offset + length (b ∷ buf) in
    let r = make_room-HasRoom m.content m.size offset end v.stored v.bare (omega arith) in
    rw r.file at (
      overwrite-Copied (make_room m.content m.size end) m.size offset b buf r.size_fits r.fits
        r.gap)

room_fits :
    (m : RamfsNode) (end : ℕ)
    → IsValidNode m
    → new_end m.size end ≤ length (make_room m.content m.size end)
room_fits m end v =
    let r = make_room-HasRoom m.content m.size end end v.stored v.bare (omega arith) in
    ground (arith, r.fits, r.size_fits)

module _ (fs : RamfsFsData) (file : File) (bytes : List ℕ) (end : ℕ) (small : end ≤ 65536)
    (v : IsValidNode (fs.node file.inode.node))
    (long : new_end (fs.node file.inode.node).size end ≤ length bytes) where
  -- the node after the copy
  written_node :
      (written fs file bytes end).0.node file.inode.node ≡ record (fs.node file.inode.node) {
        content = some bytes;
        modified_time = u32_next (fs.node file.inode.node).modified_time;
        size = new_end (fs.node file.inode.node).size end;
      }
  written_node =
      let here : (file.inode.node == file.inode.node) ≡ true = ground arith in
      elim (Bool-cases (ltb (fs.node file.inode.node).size end)) [
        | inl grows ↦ rw (grows, here)
        | inr stays ↦ rw (stays, here)
      ]

  written_others : (j : ℕ) → j ≢ file.inode.node → (written fs file bytes end).0.node j ≡ fs.node j
  written_others j ne =
      let other : (file.inode.node == j) ≡ false = ground (arith, ne) in
      elim (Bool-cases (ltb (fs.node file.inode.node).size end)) [
        | inl grows ↦ rw (grows, other)
        | inr stays ↦ rw (stays, other)
      ]

  written_valid : IsValidNode ((written fs file bytes end).0.node file.inode.node)
  written_valid = rw written_node record {
    small = ground (arith, small, v.small);
    stored = λ bs e. ground (arith, long);
    bare = λ e. absurd (cc);
  }

  written_file : (written fs file bytes end).1.inode.node ≡ file.inode.node
  written_file = elim (Bool-cases (ltb (fs.node file.inode.node).size end)) [
    | inl grows ↦ rw grows
    | inr stays ↦ rw stays
  ]

  contents-written :
      contents ((written fs file bytes end).0.node file.inode.node)
      ≡ take (new_end (fs.node file.inode.node).size end) bytes
  contents-written = rw written_node

copy_in-FileWrite :
    (fs : RamfsFsData) (file : File) (offset b : ℕ) (buf : List ℕ) (granted : Bool)
    → IsValidNode (fs.node file.inode.node)
    → offset + length (b ∷ buf) ≤ 65536
    → FileWrite fs file
        (b ∷ buf)
        offset
        granted
        (copy_in fs file (b ∷ buf) offset (offset + length (b ∷ buf)))
unfolding copy_in
copy_in-FileWrite fs file offset b buf granted v small =
    let m : RamfsNode = fs.node file.inode.node in
    let end : ℕ = offset + length (b ∷ buf) in
    let c = copied m offset b buf v in
    let long : new_end m.size end ≤ length c.result = rw c.same_length (room_fits m end v) in
    done (written fs file c.result end).0 (written fs file c.result end).1 (rw (c.done, copy_in))
      (contents-written fs file c.result end small v long ∙ c.file)
      (written_valid fs file c.result end small v long)
      (written_file fs file c.result end small v long)
      (written_others fs file c.result end small v long)

-- A write of some bytes, where the end does not wrap, is one of the three outcomes.
pub ramfs_file_write-FileWrite :
    (fs : RamfsFsData) (file : File) (offset b : ℕ) (buf : List ℕ) (granted : Bool)
    → IsValidNode (fs.node file.inode.node)
    → offset + length (b ∷ buf) < 2 ^ 64
    → FileWrite fs file (b ∷ buf) offset granted (ramfs_file_write fs file (b ∷ buf) offset granted)
unfolding ramfs_file_write
ramfs_file_write-FileWrite fs file offset b buf granted v h =
    let m : RamfsNode = fs.node file.inode.node in
    let end : ℕ = offset + length (b ∷ buf) in
    let e : end % 2 ^ 64 ≡ end = omega (arith, h) in
    elim (Bool-cases (ltb 65536 end)) [
      | inl large ↦ too_large (ground (arith, large)) (rw (e, large))
      | inr small ↦ elim (Bool-cases (needs_memory m.content m.size end && not granted)) [
        | inl none_left ↦ no_memory (ground (arith, none_left)) (rw (e, small, none_left))
        | inr go ↦
            rw (e, small, go)
              (copy_in-FileWrite fs file offset b buf granted v (ground (arith, small)))
      ]
    ]
