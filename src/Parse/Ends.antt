-- ===== src/Parse/Ends.antt =====
-- include/asmstudio/parse/Parser.hpp: the termination of the parser, and the sizes of what it builds.
use asm_studio.Prelude.{
  ℕ, zero, suc, ◌+◌, ◌<◌, ◌≤◌, ◌≡◌, refl, ap, Bool, true, false, not, Option, none, some, List,
  arith, length, Bool-cases, inl, inr,
}
use asm_studio.Parse.Token.{TokenKind}
use asm_studio.Parse.Lexer.{next, make_lexer}
use asm_studio.Parse.AsmProgram.{ParsedProgram, empty_program}
use asm_studio.Parse.Parser.{
  Cursor, at_token, advance, is_eof, is_line_end, is_ignorable, is_comment, is_comma,
  is_first_operand, is_second_operand, skip_while, skip_ignorable_tokens, Parse, Operands,
  parse_second, parse_comma, parse_operands, skip_comment, with_cursor, expect_line_end, bind_parse,
  parse_instruction, parse_label, parse_unexpected, parse_one, parse_loop, parse_fuel, parse,
}
use asm_studio.Parse.Arrays.{Fits, add_instruction-Fits, add_label-Fits, add_diagnostic-Fits}
use asm_studio.Parse.Progress.{work, next-work, advance-work, EndsAt, skip_while-EndsAt}

-- A part of the parser ends, within the arrays and with less than so many tokens to come.
abbrev pub Leaves : ℕ → Option Parse → Type 0
Leaves n none = ⊥
Leaves n (some p) = Fits p.program × (work p.cursor < n)

with_cursor-Leaves :
    (n m : ℕ) (program : ParsedProgram) (r : Option Cursor)
    → Fits program
    → EndsAt m r
    → m < n
    → Leaves n (with_cursor program r)
with_cursor-Leaves n m program none fits h l = h
with_cursor-Leaves n m program (some cursor) fits h l = (fits, omega (arith, h, l))

real-token :
    (test : TokenKind → Bool)
    → test TokenKind.eof ≡ false
    → (kind : TokenKind) → test kind ≡ true
    → is_eof kind ≡ false
real-token test h TokenKind.eof e = cc
real-token test h _ e = refl

abbrev OperandsLeave : ℕ → Operands → Type 0
OperandsLeave n o = Fits o.parse.program × (work o.parse.cursor ≤ n)

parse_second-Leaves :
    (first : List ℕ) (p : Parse)
    → Fits p.program
    → OperandsLeave (work p.cursor) (parse_second first p)
unfolding parse_second
parse_second-Leaves first p h = elim (Bool-cases (is_second_operand p.cursor.current.kind)) [
  | inl e ↦
      let l : work (advance p.cursor) < work p.cursor =
        advance-work p.cursor (real-token is_second_operand refl _ e) in
      rw e (h, omega (arith, l))
  | inr e ↦ rw e (add_diagnostic-Fits p.program _ _ _ true h, omega arith)
]

parse_comma-Leaves :
    (first : List ℕ) (p : Parse)
    → Fits p.program
    → OperandsLeave (work p.cursor) (parse_comma first p)
unfolding parse_comma
parse_comma-Leaves first p h = elim (Bool-cases (is_comma p.cursor.current.kind)) [
  | inl e ↦
      let l : work (advance p.cursor) < work p.cursor =
        advance-work p.cursor (real-token is_comma refl _ e) in
      let k : OperandsLeave (work (advance p.cursor))
          (parse_second first (record p { cursor = advance p.cursor })) =
        parse_second-Leaves first (record p { cursor = advance p.cursor }) h in
      rw e (k.0, omega (arith, l, k.1))
  | inr e ↦ rw e (h, omega arith)
]

parse_operands-Leaves :
    (p : Parse) → Fits p.program → OperandsLeave (work p.cursor) (parse_operands p)
unfolding parse_operands
parse_operands-Leaves p h = elim (Bool-cases (is_first_operand p.cursor.current.kind)) [
  | inl e ↦
      let l : work (advance p.cursor) < work p.cursor =
        advance-work p.cursor (real-token is_first_operand refl _ e) in
      let k : OperandsLeave (work (advance p.cursor))
          (parse_comma p.cursor.current.text (record p { cursor = advance p.cursor })) =
        parse_comma-Leaves p.cursor.current.text (record p { cursor = advance p.cursor }) h in
      rw e (k.0, omega (arith, l, k.1))
  | inr e ↦ rw e (h, omega arith)
]

skip_comment-work : (cursor : Cursor) → work (skip_comment cursor) ≤ work cursor
unfolding skip_comment
skip_comment-work cursor = elim (Bool-cases (is_comment cursor.current.kind)) [
  | inl e ↦
      let l : work (advance cursor) < work cursor =
        advance-work cursor (real-token is_comment refl _ e) in
      rw e (omega (arith, l))
  | inr e ↦ rw e (omega arith)
]

expect_line_end-Leaves :
    (fuel n : ℕ) (p : Parse)
    → Fits p.program
    → work p.cursor < n
    → work p.cursor < fuel
    → Leaves n (expect_line_end fuel p)
unfolding expect_line_end
expect_line_end-Leaves fuel n p h l k = elim (Bool-cases (is_line_end p.cursor.current.kind)) [
  | inl e ↦ rw e (h, l)
  | inr e ↦ rw e (
      with_cursor-Leaves n (work p.cursor) _ _ (add_diagnostic-Fits p.program _ _ _ false h)
        (skip_while-EndsAt (λ kind. not (is_line_end kind)) fuel p.cursor
          (real-token (λ kind. not (is_line_end kind)) refl) k)
        l)
]

skip_ignorable-Leaves :
    (fuel n : ℕ) (program : ParsedProgram) (cursor : Cursor)
    → Fits program
    → work cursor < n
    → work cursor < fuel
    → Leaves n (with_cursor program (skip_ignorable_tokens fuel cursor))
unfolding skip_ignorable_tokens
skip_ignorable-Leaves fuel n program cursor h l k =
    with_cursor-Leaves n (work cursor) program _ h
      (skip_while-EndsAt is_ignorable fuel cursor (real-token is_ignorable refl) k) l

-- Past a token that is skipped.
skip_ignorable-Leaves_past :
    (fuel : ℕ) (program : ParsedProgram) (cursor : Cursor)
    → Fits program
    → is_ignorable cursor.current.kind ≡ true
    → work cursor < fuel
    → Leaves (work cursor) (with_cursor program (skip_ignorable_tokens fuel cursor))
unfolding skip_ignorable_tokens skip_while
skip_ignorable-Leaves_past zero program cursor h e k = absurd (omega (arith, k))
skip_ignorable-Leaves_past (suc fuel) program cursor h e k =
    let l : work (advance cursor) < work cursor =
      advance-work cursor (real-token is_ignorable refl _ e) in
    rw e
      (skip_ignorable-Leaves fuel (work cursor) program (advance cursor) h l (omega (arith, l, k)))

bind_parse-Leaves :
    (n m : ℕ) (r : Option Parse) (then' : Parse → Option Parse)
    → Leaves n r
    → ((p : Parse) → Fits p.program → work p.cursor < n → Leaves m (then' p))
    → Leaves m (bind_parse r then')
bind_parse-Leaves n m none then' h k = h
bind_parse-Leaves n m (some p) then' h k = k p h.0 h.1

parse_instruction-Leaves :
    (fuel : ℕ) (p : Parse)
    → Fits p.program
    → is_eof p.cursor.current.kind ≡ false
    → work p.cursor < fuel
    → Leaves (work p.cursor) (parse_instruction fuel p)
unfolding parse_instruction
parse_instruction-Leaves fuel p h e k =
    let o : Operands = parse_operands (record p { cursor = advance p.cursor }) in
    let l : work (advance p.cursor) < work p.cursor = advance-work p.cursor e in
    let m : OperandsLeave (work (advance p.cursor)) o =
      parse_operands-Leaves (record p { cursor = advance p.cursor }) h in
    let w : work (skip_comment o.parse.cursor) ≤ work o.parse.cursor =
      skip_comment-work o.parse.cursor in
    bind_parse-Leaves (work p.cursor) (work p.cursor) _ _
      (expect_line_end-Leaves fuel (work p.cursor)
        (record (o.parse) { cursor = skip_comment o.parse.cursor }) m.0 (omega (arith, l, m.1, w))
        (omega (arith, l, m.1, w, k)))
      (λ q fits j.
        skip_ignorable-Leaves fuel (work p.cursor) _ q.cursor
          (add_instruction-Fits q.program _ _ _ _ fits) j (omega (arith, j, k)))

parse_one-Leaves :
    (fuel : ℕ) (p : Parse)
    → Fits p.program
    → is_eof p.cursor.current.kind ≡ false
    → work p.cursor < fuel
    → Leaves (work p.cursor) (parse_one fuel p p.cursor.current.kind)
unfolding parse_one parse_label parse_unexpected
parse_one-Leaves fuel p h e k = go p.cursor.current.kind refl
  where
    l : work (advance p.cursor) < work p.cursor
    l = advance-work p.cursor e

    go :
        (kind : TokenKind)
        → p.cursor.current.kind ≡ kind
        → Leaves (work p.cursor) (parse_one fuel p kind)
    go TokenKind.label q =
        skip_ignorable-Leaves fuel (work p.cursor) _ (advance p.cursor)
          (add_label-Fits p.program _ _ h) l (omega (arith, l, k))
    go TokenKind.mnemonic q = parse_instruction-Leaves fuel p h e k
    go TokenKind.comment q =
        skip_ignorable-Leaves_past fuel p.program p.cursor h (ap is_ignorable q) k
    go TokenKind.newline q =
        skip_ignorable-Leaves_past fuel p.program p.cursor h (ap is_ignorable q) k
    go _ q = (add_diagnostic-Fits p.program _ _ _ false h, l)

-- A program within the arrays.
abbrev pub Built : Option ParsedProgram → Type 0
Built none = ⊥
Built (some program) = Fits program

bind_parse-Built :
    (n : ℕ) (r : Option Parse) (then' : Parse → Option ParsedProgram)
    → Leaves n r
    → ((p : Parse) → Fits p.program → work p.cursor < n → Built (then' p))
    → Built (bind_parse r then')
bind_parse-Built n none then' h k = h
bind_parse-Built n (some p) then' h k = k p h.0 h.1

parse_loop-Built :
    (inner fuel : ℕ) (p : Parse)
    → Fits p.program
    → work p.cursor < inner
    → work p.cursor < fuel
    → Built (parse_loop inner fuel p)
unfolding parse_loop
parse_loop-Built inner zero p h k l = absurd (omega (arith, l))
parse_loop-Built inner (suc fuel) p h k l = elim (Bool-cases (is_eof p.cursor.current.kind)) [
  | inl e ↦ rw e h
  | inr e ↦ rw e (
      bind_parse-Built (work p.cursor) _ _ (parse_one-Leaves inner p h e k) (λ q fits m.
        parse_loop-Built inner fuel q fits (omega (arith, m, k)) (omega (arith, m, l))))
]

-- The parser ends on every source, valid or not, and the program it builds has at most 256
-- instructions, 64 labels and 16 diagnostics.
pub parse-Built : (source : List ℕ) → Built (parse source)
unfolding parse make_lexer
parse-Built source =
    bind_parse-Built (length source + 2) _ _
      (skip_ignorable-Leaves (length source + 2) (length source + 2) empty_program
        (at_token (next (make_lexer source))) (omega arith, omega arith, omega arith)
        (omega (arith, next-work (make_lexer source)))
        (omega (arith, next-work (make_lexer source))))
      (λ p fits m. parse_loop-Built (parse_fuel source) (parse_fuel source) p fits m m)
