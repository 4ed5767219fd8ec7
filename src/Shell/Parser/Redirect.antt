-- ===== src/Shell/Parser/Redirect.antt =====
-- The redirections and '&' of a command line, from the line to the command.
use build_your_own_os.Prelude.{
  Str, ℕ, ◌<◌, ◌≡◌, ◌∙◌, refl, ap, Bool, true, false, some, List, [], ◌∷◌, ◌++◌, length, All, pos,
  arith, ◌==◌, if◌then◌else◌,
}
use build_your_own_os.Shell.Parser.{
  CommandLine, plain, and_before, scan_arguments, command_of, parse_command_line, shell_max_args,
  shell_success,
}
use build_your_own_os.Shell.Parser.Words.{Blanks, IsLine, shell_parse_command-IsLine}

-- no redirection and no '&'
abbrev pub starts_plain : Str → Bool
starts_plain [] = true
starts_plain (c ∷ cs) =
    if c == 62 then false else if c == 60 then false else if c == 38 then false else true

abbrev pub IsPlain : List Str → Type 0
IsPlain = All (λ w. starts_plain w ≡ true)

abbrev pub all_before : List Str → CommandLine → CommandLine
all_before arguments cmd = record cmd { arguments = arguments ++ cmd.arguments }

scan_arguments-plain :
    (w : Str) (rest : List Str)
    → starts_plain w ≡ true
    → scan_arguments (w ∷ rest) ≡ and_before w (scan_arguments rest)
unfolding scan_arguments
scan_arguments-plain [] rest h = refl
scan_arguments-plain (c ∷ cs) rest h = ground (arith, h)

scan_arguments-IsPlain :
    (arguments rest : List Str)
    → IsPlain arguments
    → scan_arguments (arguments ++ rest) ≡ all_before arguments (scan_arguments rest)
scan_arguments-IsPlain [] rest h = refl
scan_arguments-IsPlain (w ∷ arguments) rest (e, h) =
    scan_arguments-plain w (arguments ++ rest) e
    ∙ ap (and_before w) (scan_arguments-IsPlain arguments rest h)

-- `parse_command_line` of a line with these words
parse_command_line-IsLine :
    (command : Str) (arguments rest : List Str) (gap s : Str)
    → Blanks gap
    → IsLine (command ∷ (arguments ++ rest)) s
    → length (command ∷ (arguments ++ rest)) < 32
    → length (gap ++ s) < 1023
    → IsPlain arguments
    → parse_command_line (gap ++ s) true
      ≡ some (shell_success, some (all_before (command ∷ arguments) (scan_arguments rest)))
unfolding parse_command_line command_of
parse_command_line-IsLine command arguments rest gap s g l few short h = rw (
  shell_parse_command-IsLine _ gap s shell_max_args g l few short,
  scan_arguments-IsPlain arguments rest h,
)

-- A line of fewer than 1023 bytes and 32 words: a command, arguments that start with none of '>', '<' and '&',
-- the word '>', a file, and more words. With memory for the arguments, parse_command_line succeeds; the output
-- goes to the file, and the arguments are the words without '>' and the file, those behind it as they are.
pub parse_command_line-output :
    (command file : Str) (arguments rest : List Str) (gap s : Str)
    → Blanks gap
    → IsLine (command ∷ (arguments ++ (62 ∷ []) ∷ file ∷ rest)) s
    → length (command ∷ (arguments ++ (62 ∷ []) ∷ file ∷ rest)) < 32
    → length (gap ++ s) < 1023
    → IsPlain arguments
    → parse_command_line (gap ++ s) true
      ≡ some (
        pos 0,
        some (record (plain (command ∷ (arguments ++ rest))) { output_redirect = some file }),
      )
unfolding scan_arguments
parse_command_line-output command file arguments rest gap s g l few short h =
    parse_command_line-IsLine command arguments ((62 ∷ []) ∷ file ∷ rest) gap s g l few short h

-- A line of fewer than 1023 bytes and 32 words: a command, arguments that start with none of '>', '<' and '&',
-- one word of '>' and a file, and more words. With memory for the arguments, parse_command_line succeeds and
-- the output goes to the file, but all words are arguments, the one with '>' too.
pub parse_command_line-attached :
    (command : Str) (d : ℕ) (ds : Str) (arguments rest : List Str) (gap s : Str)
    → Blanks gap
    → IsLine (command ∷ (arguments ++ (62 ∷ d ∷ ds) ∷ rest)) s
    → length (command ∷ (arguments ++ (62 ∷ d ∷ ds) ∷ rest)) < 32
    → length (gap ++ s) < 1023
    → IsPlain arguments
    → parse_command_line (gap ++ s) true
      ≡ some (
        pos 0,
        some (record (plain (command ∷ (arguments ++ (62 ∷ d ∷ ds) ∷ rest))) {
          output_redirect = some (d ∷ ds);
        }),
      )
unfolding scan_arguments
parse_command_line-attached command d ds arguments rest gap s g l few short h =
    parse_command_line-IsLine command arguments ((62 ∷ d ∷ ds) ∷ rest) gap s g l few short h
