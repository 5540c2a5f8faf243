-- ===== src/Driver/Format.antt =====
-- src/driver/ConsolePresenter.cpp: `format` and its callers. Arguments are texts already.
use asm_studio.Prelude.{
  Bool, false, not, ◌&&◌, List, [], ◌∷◌, ◌++◌, ◌==◌, if◌then◌else◌, any, String,
}
use asm_studio.Text.{Text, codes, newline}

-- The next argument, if there is one.
abbrev pub first_argument : List Text → Text
first_argument [] = []
first_argument (argument ∷ arguments) = argument

abbrev pub later_arguments : List Text → List Text
later_arguments [] = []
later_arguments (argument ∷ arguments) = arguments

-- The loop of `format`. The flag says that the index is on its way to a closing brace that is there.
unfoldable pub format_from : Bool → Text → List Text → Text
format_from skipping [] arguments = []
format_from skipping (current_character ∷ text) arguments =
    let opens : Bool = not skipping && (current_character == b'{' && any (λ c. c == b'}') text) in
    let output : Text =
      if skipping
      then []
      else (if opens then first_argument arguments else current_character ∷ []) in
    output
    ++ format_from (if skipping then not (current_character == b'}') else opens) text
        (if opens then later_arguments arguments else arguments)

unfoldable pub format : Text → List Text → Text
format format_string arguments = format_from false format_string arguments

abbrev pub write : String → List Text → Text
write format_string arguments = format (codes format_string) arguments

abbrev pub write_line : String → List Text → Text
write_line format_string arguments = write format_string arguments ++ newline
