-- ===== src/Parse/Parser.antt =====
-- include/asmstudio/parse/Parser.hpp. The state is the current token with the lexer behind it; each
-- loop over tokens takes fuel, and `none` means that it ran out.
use asm_studio.Prelude.{
  ℕ, zero, suc, ◌+◌, Bool, true, false, not, Option, none, some, List, [], if◌then◌else◌, length,
}
use asm_studio.Parse.Token.{TokenKind, Token}
use asm_studio.Parse.Lexer.{Lexer, next, make_lexer}
use asm_studio.Parse.AsmProgram.{
  ParsedProgram, empty_program, add_label, add_instruction, add_diagnostic, instruction_count,
}

pub record Cursor : Type 0 where
  pub current : Token
  pub lexer : Lexer

abbrev pub at_token : Token × Lexer → Cursor
at_token (t, l) = record { current = t; lexer = l }

-- `token = lexer.next()`
unfoldable pub advance : Cursor → Cursor
advance cursor = at_token (next cursor.lexer)

abbrev pub is_eof : TokenKind → Bool
is_eof TokenKind.eof = true
is_eof _ = false

abbrev pub is_line_end : TokenKind → Bool
is_line_end TokenKind.newline = true
is_line_end TokenKind.eof = true
is_line_end _ = false

abbrev pub is_ignorable : TokenKind → Bool
is_ignorable TokenKind.newline = true
is_ignorable TokenKind.comment = true
is_ignorable _ = false

abbrev pub is_comment : TokenKind → Bool
is_comment TokenKind.comment = true
is_comment _ = false

abbrev pub is_comma : TokenKind → Bool
is_comma TokenKind.comma = true
is_comma _ = false

abbrev pub is_first_operand : TokenKind → Bool
is_first_operand TokenKind.register = true
is_first_operand TokenKind.immediate = true
is_first_operand TokenKind.unknown = true
is_first_operand _ = false

abbrev pub is_second_operand : TokenKind → Bool
is_second_operand TokenKind.register = true
is_second_operand TokenKind.immediate = true
is_second_operand TokenKind.label = true
is_second_operand TokenKind.unknown = true
is_second_operand _ = false

-- `while (test(token)) token = lexer.next();`
unfoldable pub skip_while : (TokenKind → Bool) → ℕ → Cursor → Option Cursor
skip_while test zero cursor = none
skip_while test (suc fuel) cursor =
    let rest : Option Cursor = skip_while test fuel (advance cursor) in
    if test cursor.current.kind then rest else some cursor

-- The lambda `skipIgnorableTokens`.
unfoldable pub skip_ignorable_tokens : ℕ → Cursor → Option Cursor
skip_ignorable_tokens fuel cursor = skip_while is_ignorable fuel cursor

pub record Parse : Type 0 where
  pub program : ParsedProgram
  pub cursor : Cursor

pub record Operands : Type 0 where
  pub first_operand : List ℕ
  pub second_operand : List ℕ
  pub parse : Parse

-- Behind the comma.
unfoldable pub parse_second : List ℕ → Parse → Operands
parse_second first p =
    if is_second_operand p.cursor.current.kind
    then record {
      first_operand = first;
      second_operand = p.cursor.current.text;
      parse = record p { cursor = advance p.cursor };
    }
    else record {
      first_operand = first;
      second_operand = [];
      parse = record p {
        program =
            add_diagnostic p.program "expected operand after ','" p.cursor.current.line
              p.cursor.current.col true;
      };
    }

-- Behind the first operand.
unfoldable pub parse_comma : List ℕ → Parse → Operands
parse_comma first p =
    if is_comma p.cursor.current.kind
    then parse_second first (record p { cursor = advance p.cursor })
    else record { first_operand = first; second_operand = []; parse = p }

-- Behind the mnemonic.
unfoldable pub parse_operands : Parse → Operands
parse_operands p =
    if is_first_operand p.cursor.current.kind
    then parse_comma p.cursor.current.text (record p { cursor = advance p.cursor })
    else record { first_operand = []; second_operand = []; parse = p }

unfoldable pub skip_comment : Cursor → Cursor
skip_comment cursor = if is_comment cursor.current.kind then advance cursor else cursor

abbrev pub with_cursor : ParsedProgram → Option Cursor → Option Parse
with_cursor program none = none
with_cursor program (some cursor) = some (record { program = program; cursor = cursor })

-- The end of the line, with a diagnostic for what stands before it.
unfoldable pub expect_line_end : ℕ → Parse → Option Parse
expect_line_end fuel p =
    if is_line_end p.cursor.current.kind
    then some p
    else with_cursor
        (add_diagnostic p.program "expected newline after instruction" p.cursor.current.line
          p.cursor.current.col false)
        (skip_while (λ kind. not (is_line_end kind)) fuel p.cursor)

abbrev pub bind_parse {ℓ κ} : {A : Type ℓ} {B : Type κ} → Option A → (A → Option B) → Option B
bind_parse none f = none
bind_parse (some a) f = f a

abbrev pub finish_instruction : ℕ → List ℕ → ℕ → Operands → Parse → Option Parse
finish_instruction fuel mnemonic line operands p =
    with_cursor
      (add_instruction p.program mnemonic operands.first_operand operands.second_operand line)
      (skip_ignorable_tokens fuel p.cursor)

unfoldable pub parse_instruction : ℕ → Parse → Option Parse
parse_instruction fuel p =
    let operands : Operands = parse_operands (record p { cursor = advance p.cursor }) in
    bind_parse
      (expect_line_end fuel
        (record (operands.parse) { cursor = skip_comment operands.parse.cursor }))
      (finish_instruction fuel p.cursor.current.text p.cursor.current.line operands)

unfoldable pub parse_label : ℕ → Parse → Option Parse
parse_label fuel p =
    with_cursor (add_label p.program p.cursor.current.text (instruction_count p.program))
      (skip_ignorable_tokens fuel (advance p.cursor))

unfoldable pub parse_unexpected : Parse → Parse
parse_unexpected p = record {
  program =
      add_diagnostic p.program "unexpected token" p.cursor.current.line p.cursor.current.col false;
  cursor = advance p.cursor;
}

-- One round of the main loop, by the current token.
unfoldable pub parse_one : ℕ → Parse → TokenKind → Option Parse
parse_one fuel p TokenKind.label = parse_label fuel p
parse_one fuel p TokenKind.mnemonic = parse_instruction fuel p
parse_one fuel p TokenKind.comment = with_cursor p.program (skip_ignorable_tokens fuel p.cursor)
parse_one fuel p TokenKind.newline = with_cursor p.program (skip_ignorable_tokens fuel p.cursor)
parse_one fuel p _ = some (parse_unexpected p)

unfoldable pub parse_loop : ℕ → ℕ → Parse → Option ParsedProgram
parse_loop inner zero p = none
parse_loop inner (suc fuel) p =
    if is_eof p.cursor.current.kind
    then some p.program
    else bind_parse (parse_one inner p p.cursor.current.kind) (λ q. parse_loop inner fuel q)

-- Each token but the last takes a character.
abbrev pub parse_fuel : List ℕ → ℕ
parse_fuel source = length source + 2

unfoldable pub parse : List ℕ → Option ParsedProgram
parse source =
    bind_parse
      (with_cursor empty_program
        (skip_ignorable_tokens (parse_fuel source) (at_token (next (make_lexer source)))))
      (λ p. parse_loop (parse_fuel source) (parse_fuel source) p)
