-- ===== src/Ramfs/File/Read.antt =====
-- What a read gives, and that it gives back what was written.
use build_your_own_os.Prelude.{
  ℕ, zero, suc, ◌+◌, ◌-◌, ◌^◌, ◌≤◌, ◌<◌, ◌≡◌, refl, sym, ◌∙◌, inl, inr, ap, Bool, true, false, ◌%◌,
  Option, none, some, List, [], ◌∷◌, if◌then◌else◌, length, take, drop, ltb, leb, ◌==◌, arith,
  Bool-cases, Option-cases, subst, ℤ, pos,
}
use build_your_own_os.Ramfs.{RamfsFsData, put_node, ramfs_max_file_size}
use build_your_own_os.Ramfs.File.{
  File, u32_next, ends_behind, copy_out, read_content, read_node, ramfs_file_read, ramfs_file_write,
}
use build_your_own_os.Ramfs.File.Contents.{file_bytes, contents, write_at}
use build_your_own_os.Ramfs.File.Laws.{
  IsValidNode, too_large, no_memory, done, ramfs_file_write-FileWrite,
}

take-nil : (n : ℕ) → take {A = ℕ} n [] ≡ []
take-nil zero = refl
take-nil (suc n) = refl

drop-nil : (n : ℕ) → drop {A = ℕ} n [] ≡ []
drop-nil zero = refl
drop-nil (suc n) = refl

take-take : (a b : ℕ) (xs : List ℕ) → take a (take b xs) ≡ take (if ltb b a then b else a) xs
take-take zero zero xs = refl
take-take zero (suc b) xs = let e : (if ltb (suc b) 0 then suc b else 0) ≡ 0 = ground arith in rw e
take-take (suc a) zero xs = let e : (if ltb 0 (suc a) then 0 else suc a) ≡ 0 = ground arith in rw e
take-take (suc a) (suc b) [] = sym (take-nil _)
take-take (suc a) (suc b) (x ∷ xs) =
    let e : (if ltb (suc b) (suc a) then suc b else suc a) ≡ suc (if ltb b a then b else a) =
      ground arith in
    rw e (ap (λ t. x ∷ t) (take-take a b xs))

-- the part of the file, with what the code takes of the allocation
take-drop-take :
    (size offset count : ℕ) (bytes : List ℕ)
    → offset < size
    → take (if ltb size (offset + count) then size - offset else count) (drop offset bytes)
      ≡ take count (drop offset (take size bytes))
take-drop-take zero offset count bytes h = absurd (omega arith)
take-drop-take (suc s) zero count bytes h =
    let e : (if ltb (suc s) (0 + count) then suc s - 0 else count)
        ≡ (if ltb (suc s) count then suc s else count) =
      ground arith in
    rw e (sym (take-take count (suc s) bytes))
take-drop-take (suc s) (suc o) count [] h = take-nil _ ∙ sym (take-nil count)
take-drop-take (suc s) (suc o) count (x ∷ bytes) h =
    let e : (if ltb (suc s) (suc o + count) then suc s - suc o else count)
        ≡ (if ltb s (o + count) then s - o else count) =
      ground arith in
    rw e (take-drop-take s o count bytes (omega arith))

drop-take_behind :
    (size offset : ℕ) (bytes : List ℕ) → size ≤ offset → drop offset (take size bytes) ≡ []
drop-take_behind zero offset bytes h = drop-nil offset
drop-take_behind (suc s) zero bytes h = absurd (omega arith)
drop-take_behind (suc s) (suc o) [] h = refl
drop-take_behind (suc s) (suc o) (x ∷ bytes) h = drop-take_behind s o bytes (omega arith)

contents-accessed :
    (fs : RamfsFsData) (i a j : ℕ)
    → contents ((put_node fs i (record (fs.node i) { accessed_time = a })).node j)
      ≡ contents (fs.node j)
contents-accessed fs i a j = elim (Bool-cases (i == j)) [
  | inl e ↦ let q : i ≡ j = ground arith in rw e (ap (λ k. contents (fs.node k)) q)
  | inr e ↦ rw e
]

-- Where the end of the part fits an off_t, the test of the code is the one on unbounded numbers.
ends_behind-fits :
    (size count offset : ℕ)
    → offset + count < 2 ^ 63
    → ends_behind size count offset ≡ ltb size (offset + count)
ends_behind-fits size count offset h =
    let e : (offset + count) % 2 ^ 64 ≡ offset + count = omega (arith, h) in
    let f : ltb (offset + count) (2 ^ 63) ≡ true = ground (arith, h) in rw (e, f)

-- The copy of a read stays in the allocation, and gives the part of the file.
read_content-fits :
    (bytes : List ℕ) (size count offset : ℕ)
    → offset < size
    → size ≤ length bytes
    → offset + count < 2 ^ 63
    → read_content bytes size count offset ≡ some (take count (drop offset (take size bytes)))
unfolding read_content copy_out
read_content-fits bytes size count offset within stored fits =
    let room : leb (offset + (if ltb size (offset + count) then size - offset else count))
          (length bytes)
        ≡ true =
      ground (arith, within, stored) in
    rw (ends_behind-fits size count offset fits, room)
      (ap some (take-drop-take size offset count bytes within))

read_node-within :
    (fs : RamfsFsData) (i : ℕ) (bytes part : List ℕ) (count offset : ℕ)
    → leb (fs.node i).size offset ≡ false
    → read_content bytes (fs.node i).size count offset ≡ some part
    → read_node fs i (some bytes) count offset
      ≡ some (
        part,
        put_node fs i (record (fs.node i) { accessed_time = u32_next (fs.node i).accessed_time }),
      )
unfolding read_node
read_node-within fs i bytes part count offset within copied = rw (within, copied)

-- A read of a valid file, with `offset + count` less than 2 ^ 63, stays within its data: it gives the bytes of the file
-- from the offset on, at most `count`, and leaves the bytes of all files as they are.
pub ramfs_file_read-contents :
    (fs : RamfsFsData) (file : File) (count offset : ℕ)
    → IsValidNode (fs.node file.inode.node)
    → offset + count < 2 ^ 63
    → (fs' : RamfsFsData) × (ramfs_file_read fs file count offset
        ≡ some (take count (drop offset (contents (fs.node file.inode.node))), fs'))
      × ((j : ℕ) → contents (fs'.node j) ≡ contents (fs.node j))
unfolding ramfs_file_read
ramfs_file_read-contents fs file count offset valid fits =
    let i : ℕ = file.inode.node in
    elim (Option-cases (fs.node i).content) [
      | inl bare ↦ (
        fs,
        rw (bare, ramfs_file_read)
            (ap (λ t. some (t, fs)) (sym (ap (take count) (drop-nil offset) ∙ take-nil count))),
        λ j. refl,
      )
      | inr (bytes, stored) ↦ elim (Bool-cases (leb (fs.node i).size offset)) [
        | inl behind ↦ (
          fs,
          rw (stored, ramfs_file_read, behind)
              (ap (λ t. some (t, fs))
                (sym (
                  ap (take count)
                    (drop-take_behind (fs.node i).size offset bytes (ground (arith, behind)))
                  ∙ take-nil count))),
          λ j. refl,
        )
        | inr within ↦ (
          put_node fs i (record (fs.node i) { accessed_time = u32_next (fs.node i).accessed_time }),
          ap (λ o. read_node fs i o count offset) stored
              ∙ read_node-within fs i bytes _ count offset within (
                  read_content-fits bytes (fs.node i).size count offset (ground (arith, within))
                    (valid.stored bytes stored) fits)
              ∙ ap
                  (λ o. some (
                    take count (drop offset (file_bytes o (fs.node i).size)),
                    put_node fs i
                        (record (fs.node i) { accessed_time = u32_next (fs.node i).accessed_time }),
                  ))
                  (sym stored),
          λ j. contents-accessed fs i _ j,
        )
      ]
    ]

take-drop-write_at :
    (bytes : List ℕ) (offset : ℕ) (buf : List ℕ)
    → take (length buf) (drop offset (write_at bytes offset buf)) ≡ buf
take-drop-write_at bytes zero [] = refl
take-drop-write_at bytes (suc o) [] = refl
take-drop-write_at [] zero (b ∷ buf) = ap (λ t. b ∷ t) (take-drop-write_at [] 0 buf)
take-drop-write_at (x ∷ bytes) zero (b ∷ buf) = ap (λ t. b ∷ t) (take-drop-write_at bytes 0 buf)
take-drop-write_at [] (suc o) (b ∷ buf) = take-drop-write_at [] o (b ∷ buf)
take-drop-write_at (x ∷ bytes) (suc o) (b ∷ buf) = take-drop-write_at bytes o (b ∷ buf)

abbrev result_of : RamfsFsData → File → Option (ℤ × (RamfsFsData × File)) → RamfsFsData × File
result_of fs file none = (fs, file)
result_of fs file (some r) = r.1

-- A write that succeeds ends within the largest size of a file.
write_fits :
    (fs : RamfsFsData) (file : File) (buf : List ℕ) (offset : ℕ) (granted : Bool)
    (r : RamfsFsData × File) (k : ℕ)
    → offset + length buf < 2 ^ 64
    → ramfs_file_write fs file buf offset granted ≡ some (pos k, r)
    → offset + length buf ≤ 65536
unfolding ramfs_file_write
write_fits fs file buf offset granted r k h run =
    let e : (offset + length buf) % 2 ^ 64 ≡ offset + length buf = omega (arith, h) in
    elim (Bool-cases (ltb ramfs_max_file_size ((offset + length buf) % 2 ^ 64))) [
      | inl large ↦ absurd (let refusal = rw large at run in cc refusal)
      | inr small ↦ ground (arith, small, e)
    ]

-- After a write that succeeds, a read of as many bytes at the same place gives the bytes that were written.
pub ramfs_file_read-ramfs_file_write :
    (fs fs' : RamfsFsData) (file file' : File) (offset b : ℕ) (buf : List ℕ) (granted : Bool)
    (k : ℕ)
    → IsValidNode (fs.node file.inode.node)
    → offset + length (b ∷ buf) < 2 ^ 64
    → ramfs_file_write fs file (b ∷ buf) offset granted ≡ some (pos k, (fs', file'))
    → (fs'' : RamfsFsData) × (ramfs_file_read fs' file' (length (b ∷ buf)) offset
        ≡ some (b ∷ buf, fs''))
ramfs_file_read-ramfs_file_write fs fs' file file' offset b buf granted k v h run =
    elim (ramfs_file_write-FileWrite fs file offset b buf granted v h) [
      | too_large large r ↦ absurd (cc (run, r))
      | no_memory refusal r ↦ absurd (cc (run, r))
      | done fs1 file1 r bytes valid same others ↦
          let n : ℕ = length (b ∷ buf) in
          let same_result = sym r ∙ run in
          let at_fs : fs1 ≡ fs' = ap (λ o. (result_of fs1 file1 o).0) same_result in
          let at_file : file1 ≡ file' = ap (λ o. (result_of fs1 file1 o).1) same_result in
          let end = write_fits fs file (b ∷ buf) offset granted (fs', file') k h run in
          let (fs2, read, keep) =
            ramfs_file_read-contents fs1 file1 n offset
              (subst (λ i. IsValidNode (fs1.node i)) (sym same) valid) (omega (arith, end)) in
          (
            fs2,
            ap (λ f. ramfs_file_read f file' n offset) (sym at_fs)
                ∙ ap (λ f. ramfs_file_read fs1 f n offset) (sym at_file)
                ∙ read
                ∙ ap (λ i. some (take n (drop offset (contents (fs1.node i))), fs2)) same
                ∙ ap (λ t. some (take n (drop offset t), fs2)) bytes
                ∙ ap (λ t. some (t, fs2))
                    (take-drop-write_at (contents (fs.node file.inode.node)) offset (b ∷ buf)),
          )
    ]
