-- ===== src/Parse/AsmProgram.antt =====
-- include/asmstudio/parse/AsmProgram.hpp. An array with its count is the list of the entries in use.
use asm_studio.Prelude.{ℕ, Bool, not, String, List, [], ◌∷◌, ◌++◌, if◌then◌else◌, length, ltb, any}

abbrev pub max_instructions : ℕ
max_instructions = 256

abbrev pub max_labels : ℕ
max_labels = 64

abbrev pub max_diagnostics : ℕ
max_diagnostics = 16

pub record ParsedInstruction : Type 0 where
  pub mnemonic : List ℕ
  pub first_operand : List ℕ
  pub second_operand : List ℕ
  pub line : ℕ

pub record ParsedLabel : Type 0 where
  pub name : List ℕ
  pub instruction_index : ℕ

pub record ParseDiagnostic : Type 0 where
  pub message : String
  pub line : ℕ
  pub col : ℕ
  pub is_error : Bool

pub record ParsedProgram : Type 0 where
  pub instructions : List ParsedInstruction
  pub labels : List ParsedLabel
  pub diagnostics : List ParseDiagnostic

abbrev pub empty_program : ParsedProgram
empty_program = record { instructions = []; labels = []; diagnostics = [] }

unfoldable pub is_ok : ParsedProgram → Bool
is_ok p = not (any (λ d. d.is_error) p.diagnostics)

unfoldable pub instruction_count : ParsedProgram → ℕ
instruction_count p = length p.instructions

unfoldable pub label_count : ParsedProgram → ℕ
label_count p = length p.labels

unfoldable pub diag_count : ParsedProgram → ℕ
diag_count p = length p.diagnostics

-- Each array takes an entry while it has room, and ignores it otherwise.
unfoldable pub add_instruction : ParsedProgram → List ℕ → List ℕ → List ℕ → ℕ → ParsedProgram
add_instruction p mnemonic first_operand second_operand line =
    if ltb (length p.instructions) max_instructions
    then record p {
      instructions =
          p.instructions
          ++ record {
            mnemonic = mnemonic;
            first_operand = first_operand;
            second_operand = second_operand;
            line = line;
          }
            ∷ [];
    }
    else p

unfoldable pub add_label : ParsedProgram → List ℕ → ℕ → ParsedProgram
add_label p name instruction_index =
    if ltb (length p.labels) max_labels
    then record p {
      labels = p.labels ++ record { name = name; instruction_index = instruction_index } ∷ [];
    }
    else p

unfoldable pub add_diagnostic : ParsedProgram → String → ℕ → ℕ → Bool → ParsedProgram
add_diagnostic p message line col is_error =
    if ltb (length p.diagnostics) max_diagnostics
    then record p {
      diagnostics =
          p.diagnostics
          ++ record { message = message; line = line; col = col; is_error = is_error } ∷ [];
    }
    else p
