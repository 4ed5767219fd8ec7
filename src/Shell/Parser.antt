-- ===== src/Shell/Parser.antt =====
-- From a line to a command: `shell_parse_command` of src/shell/core/shell_core.c, and
-- `parse_command_line` of src/shell/parser/parser.c. A string is its bytes without the NUL, an array of
-- arguments a list; the pointers behind `argument_count` are left out.
pub mod Words
pub mod Redirect
mod Tests
use build_your_own_os.Prelude.{
  Str, ℕ, zero, suc, ◌+◌, ◌-◌, Bool, true, false, ◌&&◌, ◌||◌, not, Option, none, some, List, [],
  ◌∷◌, ◌++◌, ltb, leb, ◌==◌, if◌then◌else◌, length, ℤ, pos, negsuc,
}

abbrev pub shell_max_command_length : ℕ
shell_max_command_length = 1024

abbrev pub shell_max_args : ℕ
shell_max_args = 32

abbrev pub shell_success : ℤ
shell_success = pos 0

abbrev pub shell_einval : ℤ
shell_einval = negsuc 1

abbrev pub shell_enomem : ℤ
shell_enomem = negsuc 4

-- ' ' or '\t'
abbrev pub is_blank : ℕ → Bool
is_blank c = c == 32 || c == 9

unfoldable pub skip_blanks : Str → Str
skip_blanks [] = []
skip_blanks (c ∷ cs) = let rest = skip_blanks cs in if is_blank c then rest else c ∷ cs

-- The argument that starts here, and what is left: the blank behind it is gone, and those that follow.
unfoldable pub split_word : Str → Str × Str
split_word [] = ([], [])
split_word (c ∷ cs) =
    let (word, rest) = split_word cs in
    if is_blank c then ([], skip_blanks cs) else (c ∷ word, rest)

-- The loop over the arguments, with room for `left` more.
unfoldable pub split_words : (left : ℕ) → Str → List Str
split_words zero s = []
split_words (suc left) [] = []
split_words (suc left) (c ∷ cs) =
    let (word, rest) = split_word (c ∷ cs) in word ∷ split_words left rest

-- `none` is a line so long that `strncpy` overwrites the whole memory.
unfoldable pub shell_parse_command : (input : Str) → (max_argc : ℕ) → Option (List Str)
shell_parse_command input max_argc =
    if max_argc == 0
    then some []
    else if leb (shell_max_command_length - 1) (length input)
    then none
    else some (split_words (max_argc - 1) (skip_blanks input))

pub record CommandLine : Type 0 where
  pub arguments : List Str
  pub input_redirect : Option Str
  pub output_redirect : Option Str
  pub background : Bool

abbrev pub plain : List Str → CommandLine
plain arguments = record {
  arguments = arguments;
  input_redirect = none;
  output_redirect = none;
  background = false;
}

abbrev pub and_before : Str → CommandLine → CommandLine
and_before a cmd = record cmd { arguments = a ∷ cmd.arguments }

-- The branch for an argument that starts with '>', with `cs` behind it: the file is in the same
-- argument, which stays, or it is the next one, and both are removed.
abbrev pub output_to : (c : ℕ) → (cs : Str) → (rest : List Str) → CommandLine
output_to c (d ∷ ds) rest = record (plain ((c ∷ d ∷ ds) ∷ rest)) { output_redirect = some (d ∷ ds) }
output_to c [] [] = plain ((c ∷ []) ∷ [])
output_to c [] (file ∷ rest) = record (plain rest) { output_redirect = some file }

-- the same for '<'
abbrev pub input_from : (c : ℕ) → (cs : Str) → (rest : List Str) → CommandLine
input_from c (d ∷ ds) rest = record (plain ((c ∷ d ∷ ds) ∷ rest)) { input_redirect = some (d ∷ ds) }
input_from c [] [] = plain ((c ∷ []) ∷ [])
input_from c [] (file ∷ rest) = record (plain rest) { input_redirect = some file }

-- The loop over the arguments from the second on; it ends at the first redirection or '&'.
unfoldable pub scan_arguments : List Str → CommandLine
scan_arguments [] = plain []
scan_arguments ([] ∷ rest) = and_before [] (scan_arguments rest)
scan_arguments ((c ∷ cs) ∷ rest) =
    let later = scan_arguments rest in
    if c == 62
    then output_to c cs rest
    else if c == 60
    then input_from c cs rest
    else if c == 38
    then record (plain rest) { background = true }
    else and_before (c ∷ cs) later

-- what `parse_command_line` makes of the arguments
unfoldable pub command_of : List Str → ℤ × Option CommandLine
command_of [] = (shell_einval, none)
command_of (command ∷ arguments) =
    (shell_success, some (and_before command (scan_arguments arguments)))

-- `granted` says whether `kmalloc` returned memory.
unfoldable pub parse_command_line :
    (input : Str) → (granted : Bool) → Option (ℤ × Option CommandLine)
parse_command_line input granted =
    if granted
    then elim (shell_parse_command input shell_max_args) [
      | none ↦ none
      | some arguments ↦ some (command_of arguments)
    ]
    else some (shell_enomem, none)
