-- ===== src/Sfs/Codec.antt =====
-- The layout of inodes and of the superblock in bytes can be read back.
use build_your_own_os.Prelude.{
  ℕ, zero, suc, ◌+◌, ◌*◌, ◌/◌, ◌%◌, ◌^◌, ◌≤◌, ◌<◌, ◌≡◌, refl, sym, ◌∙◌, ap, inl, inr, ◌⊎◌, List, [],
  ◌∷◌, ◌++◌, All, length, length-append, take, drop, arith,
}
use mathlib.Core.List.{append-nil}
use build_your_own_os.Sfs.{
  Superblock, SfsInode, encode_words, decode_words, inode_words, inode_of_words, inode_bytes,
  inode_of_bytes, superblock_words, superblock_bytes, superblock_of_words, superblock_of_bytes,
  put_bytes,
}

word_of_bytes :
    (w : ℕ)
    → w < 2 ^ 32
    → w % 256 + 256 * (w / 256 % 256) + 65536 * (w / 65536 % 256) + 16777216 * (w / 16777216 % 256)
      ≡ w
word_of_bytes w h = omega (arith, h)

decode_words-encode_words :
    (ws rest : List ℕ)
    → All (λ w. w < 2 ^ 32) ws
    → decode_words (length ws) (encode_words ws ++ rest) ≡ ws
decode_words-encode_words [] rest h = refl
decode_words-encode_words (w ∷ ws) rest (h, hs) =
    rw (word_of_bytes w h, decode_words-encode_words ws rest hs) refl

take-append : (xs ys : List ℕ) (n : ℕ) → length xs ≡ n → take n (xs ++ ys) ≡ xs
take-append [] ys zero h = refl
take-append [] ys (suc n) h = absurd (omega arith)
take-append (x ∷ xs) ys zero h = absurd (omega arith)
take-append (x ∷ xs) ys (suc n) h = ap (λ t. x ∷ t) (take-append xs ys n (omega arith))

drop-append : (xs ys : List ℕ) (n : ℕ) → length xs ≡ n → drop n (xs ++ ys) ≡ ys
drop-append [] ys zero h = refl
drop-append [] ys (suc n) h = absurd (omega arith)
drop-append (x ∷ xs) ys zero h = absurd (omega arith)
drop-append (x ∷ xs) ys (suc n) h = drop-append xs ys n (omega arith)

-- The inode has its twelve direct blocks, and its numbers are words.
pub record IsInode (i : SfsInode) : Type 0 where
  pub twelve : length i.direct ≡ 12
  pub fit : All (λ w. w < 2 ^ 32) (inode_words i)

inode_of_words-inode_words :
    (i : SfsInode) → length i.direct ≡ 12 → inode_of_words (inode_words i) ≡ i
inode_of_words-inode_words i h =
    rw
      (
        take-append i.direct
            (i.indirect ∷ i.created_time ∷ i.modified_time ∷ i.accessed_time ∷ i.links ∷ i.flags
              ∷ i.reserved ∷ [])
            12 h,
        drop-append i.direct
            (i.indirect ∷ i.created_time ∷ i.modified_time ∷ i.accessed_time ∷ i.links ∷ i.flags
              ∷ i.reserved ∷ [])
            12 h,
      )
      refl

pub length-encode_words : (ws : List ℕ) → length (encode_words ws) ≡ 4 * length ws
length-encode_words [] = refl
length-encode_words (w ∷ ws) = omega (arith, length-encode_words ws)

pub length-inode_words : (i : SfsInode) → length i.direct ≡ 12 → length (inode_words i) ≡ 22
length-inode_words i h = omega (
  arith,
  h,
  length-append i.direct (
      i.indirect ∷ i.created_time ∷ i.modified_time ∷ i.accessed_time ∷ i.links ∷ i.flags
      ∷ i.reserved ∷ []),
)

-- An inode that is laid out in its 88 bytes is read back as it was.
pub inode_of_bytes-inode_bytes : (i : SfsInode) → IsInode i → inode_of_bytes (inode_bytes i) ≡ i
unfolding inode_of_bytes inode_bytes
inode_of_bytes-inode_bytes i h =
    let ws : List ℕ = inode_words i in
    let back : decode_words 22 (encode_words ws) ≡ ws =
      ap (λ t. decode_words 22 t) (sym (append-nil (encode_words ws)))
      ∙ ap (λ n. decode_words n (encode_words ws ++ [])) (sym (length-inode_words i h.twelve))
      ∙ decode_words-encode_words ws [] h.fit in
    ap inode_of_words back ∙ inode_of_words-inode_words i h.twelve

pub length-inode_bytes : (i : SfsInode) → IsInode i → length (inode_bytes i) ≡ 88
unfolding inode_bytes
length-inode_bytes i h =
    omega (arith, length-encode_words (inode_words i), length-inode_words i h.twelve)

-- The numbers of the superblock are words, and its two arrays have their sizes.
pub record IsSuperblock (sb : Superblock) : Type 0 where
  pub fit : All (λ w. w < 2 ^ 32) (superblock_words sb)
  pub labelled : length sb.label ≡ 32

-- A superblock that is laid out in a block is read back as it was.
pub superblock_of_bytes-superblock_bytes :
    (sb : Superblock) → IsSuperblock sb → superblock_of_bytes (superblock_bytes sb) ≡ sb
unfolding superblock_of_bytes superblock_bytes
superblock_of_bytes-superblock_bytes sb h =
    let ws : List ℕ = superblock_words sb in
    let tail : List ℕ = sb.label ++ sb.reserved in
    ap (λ t. superblock_of_words t (drop 56 (encode_words ws ++ tail)))
      (decode_words-encode_words ws tail h.fit)
    ∙ ap (superblock_of_words ws) (drop-append (encode_words ws) tail 56 refl)
    ∙ rw
        (
          take-append sb.label sb.reserved 32 h.labelled,
          drop-append sb.label sb.reserved 32 h.labelled,
        )
        refl

pub length-superblock_bytes :
    (sb : Superblock) → length (superblock_bytes sb) ≡ 56 + (length sb.label + length sb.reserved)
unfolding superblock_bytes
length-superblock_bytes sb = omega (
  arith,
  length-append (encode_words (superblock_words sb)) (sb.label ++ sb.reserved),
  length-append sb.label sb.reserved,
  length-encode_words (superblock_words sb),
)

pub length-put_bytes : (xs : List ℕ) (i : ℕ) (ys : List ℕ) → length (put_bytes xs i ys) ≡ length xs
length-put_bytes [] i ys = refl
length-put_bytes (x ∷ xs) zero [] = refl
length-put_bytes (x ∷ xs) zero (y ∷ ys) = ap suc (length-put_bytes xs 0 ys)
length-put_bytes (x ∷ xs) (suc i) ys = ap suc (length-put_bytes xs i ys)

pub take-drop-put_bytes :
    (xs : List ℕ) (i : ℕ) (ys : List ℕ)
    → i + length ys ≤ length xs
    → take (length ys) (drop i (put_bytes xs i ys)) ≡ ys
take-drop-put_bytes [] zero [] h = refl
take-drop-put_bytes [] zero (y ∷ ys) h = absurd (omega arith)
take-drop-put_bytes [] (suc i) ys h = absurd (omega arith)
take-drop-put_bytes (x ∷ xs) zero [] h = refl
take-drop-put_bytes (x ∷ xs) zero (y ∷ ys) h =
    ap (λ t. y ∷ t) (take-drop-put_bytes xs 0 ys (omega arith))
take-drop-put_bytes (x ∷ xs) (suc i) ys h = take-drop-put_bytes xs i ys (omega arith)

-- elsewhere
pub take-drop-put_bytes_other :
    (xs : List ℕ) (i : ℕ) (ys : List ℕ) (j n : ℕ)
    → (j + n ≤ i) ⊎ (i + length ys ≤ j)
    → take n (drop j (put_bytes xs i ys)) ≡ take n (drop j xs)
take-drop-put_bytes_other [] i ys j n h = refl
take-drop-put_bytes_other (x ∷ xs) zero [] j n h = refl
take-drop-put_bytes_other (x ∷ xs) zero (y ∷ ys) zero zero h = refl
take-drop-put_bytes_other (x ∷ xs) zero (y ∷ ys) zero (suc n) (inl h) = absurd (omega arith)
take-drop-put_bytes_other (x ∷ xs) zero (y ∷ ys) zero (suc n) (inr h) = absurd (omega arith)
take-drop-put_bytes_other (x ∷ xs) zero (y ∷ ys) (suc j) n (inl h) = absurd (omega arith)
take-drop-put_bytes_other (x ∷ xs) zero (y ∷ ys) (suc j) n (inr h) =
    take-drop-put_bytes_other xs 0 ys j n (inr (omega arith))
take-drop-put_bytes_other (x ∷ xs) (suc i) ys zero zero h = refl
take-drop-put_bytes_other (x ∷ xs) (suc i) ys zero (suc n) (inl h) =
    ap (λ t. x ∷ t) (take-drop-put_bytes_other xs i ys 0 n (inl (omega arith)))
take-drop-put_bytes_other (x ∷ xs) (suc i) ys zero (suc n) (inr h) = absurd (omega arith)
take-drop-put_bytes_other (x ∷ xs) (suc i) ys (suc j) n (inl h) =
    take-drop-put_bytes_other xs i ys j n (inl (omega arith))
take-drop-put_bytes_other (x ∷ xs) (suc i) ys (suc j) n (inr h) =
    take-drop-put_bytes_other xs i ys j n (inr (omega arith))
