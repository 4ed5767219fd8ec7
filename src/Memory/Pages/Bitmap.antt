-- ===== src/Memory/Pages/Bitmap.antt =====
-- What a write to the bitmap does to each page.
use build_your_own_os.Prelude.{
  ℕ, ◌*◌, ◌/◌, ◌%◌, ◌≤◌, ◌<◌, ◌≡◌, true, ◌&&◌, ◌||◌, not, arith, ltb, ◌==◌, length, get_or,
  length-set, with_bit, without_bit, bitmap_bit-with_bit, bitmap_bit-without_bit,
}
use build_your_own_os.Memory.Pages.{Pages, set_page_used, set_page_free, is_page_free}

-- The bitmap has a bit for each page.
pub record IsShaped (m : Pages) : Type 0 where
  pub covered : m.total_pages ≤ 8 * length m.bitmap

-- What the page operations leave alone.
pub record SameShape (m m' : Pages) : Type 0 where
  pub total : m'.total_pages ≡ m.total_pages
  pub free : m'.free_pages ≡ m.free_pages
  pub base : m'.memory_base ≡ m.memory_base
  pub bytes : length m'.bitmap ≡ length m.bitmap

pub SameShape-trans : {a b c : Pages} → SameShape a b → SameShape b c → SameShape a c
SameShape-trans p q = omega arith

pub SameShape-IsShaped : {m m' : Pages} → SameShape m m' → IsShaped m → IsShaped m'
SameShape-IsShaped p s = omega arith

pub set_page_used-SameShape : (m : Pages) (i : ℕ) → SameShape m (set_page_used m i)
unfolding set_page_used
set_page_used-SameShape m i =
    ground (arith, length-set m.bitmap (i / 8) (with_bit (get_or m.bitmap (i / 8) 0) (i % 8)))

pub set_page_free-SameShape : (m : Pages) (i : ℕ) → SameShape m (set_page_free m i)
unfolding set_page_free
set_page_free-SameShape m i =
    ground (arith, length-set m.bitmap (i / 8) (without_bit 8 (get_or m.bitmap (i / 8) 0) (i % 8)))

-- Marking page `i` in use takes it, and no other, from the free pages.
pub is_page_free-set_page_used :
    (m : Pages) (i j : ℕ)
    → IsShaped m
    → is_page_free (set_page_used m i) j ≡ (not (i == j) && is_page_free m j)
unfolding set_page_used is_page_free
is_page_free-set_page_used m i j s = ground (arith, bitmap_bit-with_bit m.bitmap i j)

-- Marking page `i` free adds it, and no other, to the free pages.
pub is_page_free-set_page_free :
    (m : Pages) (i j : ℕ)
    → IsShaped m
    → is_page_free (set_page_free m i) j ≡ (((i == j) && ltb j m.total_pages) || is_page_free m j)
unfolding set_page_free is_page_free
is_page_free-set_page_free m i j s = ground (arith, bitmap_bit-without_bit m.bitmap i j)

pub lt_of_free : (m : Pages) (i : ℕ) → is_page_free m i ≡ true → i < m.total_pages
unfolding is_page_free
lt_of_free m i h = ground arith
