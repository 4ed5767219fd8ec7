-- ===== src/Shell/Parser/Words.antt =====
-- The words of a line: what `shell_parse_command` finds between the blanks.
use build_your_own_os.Prelude.{
  Str, ℕ, zero, suc, ◌-◌, ◌<◌, ◌≤◌, ◌≡◌, ◌∙◌, refl, true, false, some, List, [], ◌∷◌, ◌++◌, length,
  All, arith, leb, ◌==◌,
}
use build_your_own_os.Shell.Parser.{
  is_blank, skip_blanks, split_word, split_words, shell_parse_command, shell_max_command_length,
}

abbrev pub Blanks : Str → Type 0
Blanks = All (λ c. is_blank c ≡ true)

abbrev pub NoBlank : Str → Type 0
NoBlank = All (λ c. is_blank c ≡ false)

-- A line that is empty or starts with a word: the words have one blank or more between them, and blanks may
-- stand behind the last one.
pub data IsLine : List Str → Str → Type 0 where
  no_word : IsLine [] []
  last_word : (c : ℕ) (cs : Str) → NoBlank (c ∷ cs) → IsLine ((c ∷ cs) ∷ []) (c ∷ cs)
  next_word :
      (c : ℕ) (cs : Str) (b : ℕ) (gap : Str) (words : List Str) (s : Str)
      → NoBlank (c ∷ cs)
      → Blanks (b ∷ gap)
      → IsLine words s
      → IsLine ((c ∷ cs) ∷ words) (c ∷ (cs ++ b ∷ (gap ++ s)))

skip_blanks-Blanks : (gap s : Str) → Blanks gap → skip_blanks (gap ++ s) ≡ skip_blanks s
unfolding skip_blanks
skip_blanks-Blanks [] s h = refl
skip_blanks-Blanks (b ∷ gap) s (e, h) = rw (e, skip_blanks-Blanks gap s h)

skip_blanks-IsLine : (words : List Str) (s : Str) → IsLine words s → skip_blanks s ≡ s
unfolding skip_blanks
skip_blanks-IsLine _ _ no_word = refl
skip_blanks-IsLine _ _ (last_word c cs (e, h)) = rw e
skip_blanks-IsLine _ _ (next_word c cs b gap words s (e, h) _ _) = rw e

split_word-NoBlank : (w : Str) → NoBlank w → split_word w ≡ (w, [])
unfolding split_word
split_word-NoBlank [] h = refl
split_word-NoBlank (c ∷ cs) (e, h) = rw (e, split_word-NoBlank cs h)

split_word-Blanks :
    (w : Str) (b : ℕ) (t : Str)
    → NoBlank w
    → is_blank b ≡ true
    → split_word (w ++ b ∷ t) ≡ (w, skip_blanks t)
unfolding split_word
split_word-Blanks [] b t h blank = rw blank
split_word-Blanks (c ∷ cs) b t (e, h) blank = rw (e, split_word-Blanks cs b t h blank)

split_words-nil : (left : ℕ) → split_words left [] ≡ []
unfolding split_words
split_words-nil zero = refl
split_words-nil (suc left) = refl

-- The blank that ends a word, and those behind it, are skipped.
skip_blanks-gap :
    (gap : Str) (words : List Str) (s : Str)
    → Blanks gap
    → IsLine words s
    → skip_blanks (gap ++ s) ≡ s
skip_blanks-gap gap words s g l = skip_blanks-Blanks gap s g ∙ skip_blanks-IsLine words s l

split_words-IsLine :
    (left : ℕ) (words : List Str) (s : Str)
    → IsLine words s
    → length words ≤ left
    → split_words left s ≡ words
unfolding split_words
split_words-IsLine zero _ _ no_word h = refl
split_words-IsLine zero _ _ (last_word c cs w) h = absurd (omega arith)
split_words-IsLine zero _ _ (next_word c cs b gap words s w g l) h = absurd (omega arith)
split_words-IsLine (suc left) _ _ no_word h = refl
split_words-IsLine (suc left) _ _ (last_word c cs w) h =
    rw (split_word-NoBlank (c ∷ cs) w, split_words-nil left)
split_words-IsLine (suc left) _ _ (next_word c cs b gap words s w (e, g) l) h = rw (
  split_word-Blanks (c ∷ cs) b (gap ++ s) w e,
  skip_blanks-gap gap words s g l,
  split_words-IsLine left words s l (omega (arith, h)),
)

-- A line of fewer than 1023 bytes with fewer words than `max_argc`, whatever blanks stand before, between and
-- behind the words: shell_parse_command gives its words.
pub shell_parse_command-IsLine :
    (words : List Str) (gap s : Str) (max_argc : ℕ)
    → Blanks gap
    → IsLine words s
    → length words < max_argc
    → length (gap ++ s) < 1023
    → shell_parse_command (gap ++ s) max_argc ≡ some words
unfolding shell_parse_command
shell_parse_command-IsLine words gap s max_argc g l few short =
    let room : (max_argc == 0) ≡ false = ground (arith, few) in
    let fits : leb (shell_max_command_length - 1) (length (gap ++ s)) ≡ false =
      ground (arith, short) in
    let all : split_words (max_argc - 1) s ≡ words =
      split_words-IsLine _ words s l (omega (arith, few)) in
    rw (room, fits, skip_blanks-gap gap words s g l, all)
