-- ===== src/Support/Diagnostic.antt =====
-- include/asmstudio/support/Diagnostic.hpp, SourceLocation.hpp and src/support/Diagnostic.cpp: the
-- bag of diagnostics.
use asm_studio.Prelude.{
  ℕ, Bool, true, false, String, List, [], ◌∷◌, ◌++◌, any, is_empty, ◌==◌, if◌then◌else◌,
}
use asm_studio.Text.{Text, codes, newline, each}
use asm_studio.Text.Decimal.{format_nat}

pub data Severity : Type 0 where
  note warning error fatal : Severity

pub record SourceRange : Type 0 where
  pub line : ℕ
  pub col : ℕ
  pub length : ℕ

pub record Diagnostic : Type 0 where
  pub severity : Severity
  pub message : String
  pub range : SourceRange

-- The member `m_diagnostics`.
abbrev pub DiagnosticBag : Type 0
DiagnosticBag = List Diagnostic

unfoldable pub severity_label : Severity → String
severity_label Severity.note = "note"
severity_label Severity.warning = "warning"
severity_label Severity.error = "error"
severity_label Severity.fatal = "fatal"

abbrev pub is_error : Severity → Bool
is_error Severity.error = true
is_error Severity.fatal = true
is_error _ = false

unfoldable pub emit : DiagnosticBag → Severity → String → SourceRange → DiagnosticBag
emit bag severity message range =
    bag ++ record { severity = severity; message = message; range = range } ∷ []

unfoldable pub has_errors : DiagnosticBag → Bool
has_errors bag = any (λ d. is_error d.severity) bag

unfoldable pub empty : DiagnosticBag → Bool
empty bag = is_empty bag

unfoldable pub clear : DiagnosticBag → DiagnosticBag
clear bag = []

-- The line and the column, if there is a line.
abbrev pub range_text : SourceRange → Text
range_text range =
    if range.line == 0
    then []
    else codes ":" ++ format_nat range.line ++ codes ":" ++ format_nat range.col

abbrev pub diagnostic_line : Diagnostic → Text
diagnostic_line d =
    codes (severity_label d.severity)
    ++ range_text d.range
    ++ codes ": "
    ++ codes d.message
    ++ newline

unfoldable pub print : DiagnosticBag → Text
print bag = each diagnostic_line bag
