-- ===== src/Shell/Parser/Tests.antt =====
-- Lines of the words "ls", "-l" and a redirection to "f".
use build_your_own_os.Prelude.{Str, ◌≡◌, refl, some, true, [], ◌∷◌, pos, arith}
use build_your_own_os.Shell.Parser.{plain, shell_parse_command, parse_command_line}
use build_your_own_os.Shell.Parser.Words.{
  IsLine, no_word, last_word, next_word, shell_parse_command-IsLine,
}
use build_your_own_os.Shell.Parser.Redirect.{parse_command_line-output}

-- "ls -l \t"
abbrev two_words : Str
two_words = 108 ∷ 115 ∷ 32 ∷ 45 ∷ 108 ∷ 32 ∷ 9 ∷ []

two_words-IsLine : IsLine ((108 ∷ 115 ∷ []) ∷ (45 ∷ 108 ∷ []) ∷ []) two_words
two_words-IsLine =
    next_word 108 (115 ∷ []) 32 [] _ _ (refl, (refl, tt)) (refl, tt)
      (next_word 45 (108 ∷ []) 32 (9 ∷ []) [] [] (refl, (refl, tt)) (refl, (refl, tt)) no_word)

shell_parse_command-IsLine_example :
    shell_parse_command (32 ∷ two_words) 32 ≡ some ((108 ∷ 115 ∷ []) ∷ (45 ∷ 108 ∷ []) ∷ [])
shell_parse_command-IsLine_example =
    shell_parse_command-IsLine _ (32 ∷ []) two_words 32 (refl, tt) two_words-IsLine (omega arith)
      (omega arith)

-- "ls -l > f"
abbrev spaced : Str
spaced = 108 ∷ 115 ∷ 32 ∷ 45 ∷ 108 ∷ 32 ∷ 62 ∷ 32 ∷ 102 ∷ []

spaced-IsLine : IsLine ((108 ∷ 115 ∷ []) ∷ (45 ∷ 108 ∷ []) ∷ (62 ∷ []) ∷ (102 ∷ []) ∷ []) spaced
spaced-IsLine =
    next_word 108 (115 ∷ []) 32 [] _ _ (refl, (refl, tt)) (refl, tt)
      (next_word 45 (108 ∷ []) 32 [] _ _ (refl, (refl, tt)) (refl, tt)
        (next_word 62 [] 32 [] _ _ (refl, tt) (refl, tt) (last_word 102 [] (refl, tt))))

parse_command_line-output_example :
    parse_command_line spaced true
    ≡ some (
      pos 0,
      some (record (plain ((108 ∷ 115 ∷ []) ∷ (45 ∷ 108 ∷ []) ∷ [])) {
        output_redirect = some (102 ∷ []);
      }),
    )
parse_command_line-output_example =
    parse_command_line-output (108 ∷ 115 ∷ []) (102 ∷ []) ((45 ∷ 108 ∷ []) ∷ []) [] [] spaced tt
      spaced-IsLine (omega arith) (omega arith) (refl, tt)

-- "ls >f"
abbrev joined : Str
joined = 108 ∷ 115 ∷ 32 ∷ 62 ∷ 102 ∷ []

joined-IsLine : IsLine ((108 ∷ 115 ∷ []) ∷ (62 ∷ 102 ∷ []) ∷ []) joined
joined-IsLine =
    next_word 108 (115 ∷ []) 32 [] _ _ (refl, (refl, tt)) (refl, tt)
      (last_word 62 (102 ∷ []) (refl, (refl, tt)))
