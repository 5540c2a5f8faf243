-- ===== src/Parse/Numbers.antt =====
-- include/asmstudio/parse/Lexer.hpp on numbers and registers written in decimal.
use asm_studio.Prelude.{
  ℕ, ◌+◌, ◌-◌, ◌*◌, ◌%◌, ◌^◌, ◌≡◌, refl, sym, ap, ◌∙◌, true, false, List, [], ◌∷◌, ◌++◌, arith, leb,
  ◌==◌, ◌||◌, length,
}
use asm_studio.Prelude.Int.{ℤ, pos, negsuc}
use asm_studio.Text.Decimal.{format_nat, format_int}
use asm_studio.Text.ReadBack.{
  read_digits, read_digits-format_nat, all_digits-format_nat, format_nat-cons,
}
use asm_studio.Parse.Token.{TokenKind, Token}
use asm_studio.Parse.Lexer.{
  is_digit, all_digits, register_number, is_register, Lexer, next, next_after, next_char,
  skip_whitespace, is_space, lex_number, span, token, number_from,
}

register_number_lem :
    (n : ℕ) (cs : List ℕ) → register_number (n % 2 ^ 64) cs ≡ read_digits n cs % 2 ^ 64
unfolding register_number
register_number_lem n [] = refl
register_number_lem n (c ∷ cs) =
    ap (λ x. register_number x cs) (omega arith) ∙ register_number_lem (n * 10 + (c - b'0')) cs

-- The word of `r` and a number in decimal is taken for a register if the number modulo 2 ^ 64 is at
-- most 15.
pub is_register-format_nat : (n : ℕ) → is_register (b'r' ∷ format_nat n) ≡ leb (n % 2 ^ 64) 15
unfolding is_register
is_register-format_nat n =
    let (c, ds, e) = format_nat-cons n in rw e (ground (arith, number c ds e, all c ds e))
  where
    number : (c : ℕ) (ds : List ℕ) → format_nat n ≡ c ∷ ds → register_number 0 (c ∷ ds) ≡ n % 2 ^ 64
    number c ds e =
        ap (register_number 0) (sym e)
        ∙ register_number_lem 0 (format_nat n)
        ∙ ap (λ x. x % 2 ^ 64) (read_digits-format_nat n)

    all : (c : ℕ) (ds : List ℕ) → format_nat n ≡ c ∷ ds → all_digits (c ∷ ds) ≡ true
    all c ds e = ap all_digits (sym e) ∙ all_digits-format_nat n

-- What follows a number: the end, or a character that is no digit.
abbrev pub EndsNumber : List ℕ → Type 0
EndsNumber [] = Unit
EndsNumber (c ∷ cs) = is_digit c ≡ false

span-digits :
    (ds after : List ℕ)
    → all_digits ds ≡ true
    → EndsNumber after
    → span is_digit (ds ++ after) ≡ (ds, after)
span-digits [] [] h k = refl
span-digits [] (c ∷ cs) h k = rw k refl
span-digits (d ∷ ds) after h k =
    let first : is_digit d ≡ true = ground (arith, h) in
    let rest : all_digits ds ≡ true = ground (arith, h) in
    rw first (ap (λ (r : List ℕ × List ℕ). (d ∷ r.0, r.1)) (span-digits ds after rest k))

-- The token of a number, and the lexer behind it.
abbrev pub number_token : List ℕ → List ℕ → ℕ → ℕ → Token × Lexer
number_token text after line col = (
  token TokenKind.immediate text line col,
  record { rest = after; line = line; col = col + length text },
)

next-shown :
    (c : ℕ) (cs : List ℕ) (line col : ℕ)
    → is_space c ≡ false
    → next (record { rest = c ∷ cs; line = line; col = col }) ≡ next_char c cs line col
unfolding next next_after skip_whitespace
next-shown c cs line col h = rw h refl

next_char-number :
    (c : ℕ) (cs : List ℕ) (line col : ℕ)
    → (c == b'-' || is_digit c) ≡ true
    → next_char c cs line col ≡ lex_number c cs line col
unfolding next_char
next_char-number c cs line col h =
    let a : (c == 10) ≡ false = ground (arith, h) in
    let b : (c == b',') ≡ false = ground (arith, h) in
    let d : (c == b':') ≡ false = ground (arith, h) in
    let e : (c == b';') ≡ false = ground (arith, h) in rw a (rw b (rw d (rw e (rw h refl))))

-- A number in decimal, before a character that is no digit, is one token with its digits.
next-format_nat :
    (n : ℕ) (after : List ℕ) (line col : ℕ)
    → EndsNumber after
    → next (record { rest = format_nat n ++ after; line = line; col = col })
      ≡ number_token (format_nat n) after line col
unfolding lex_number
next-format_nat n after line col k =
    let (c, ds, e) = format_nat-cons n in
    let all : all_digits (c ∷ ds) ≡ true = ap all_digits (sym e) ∙ all_digits-format_nat n in
    let digit : is_digit c ≡ true = ground (arith, all) in
    let minus : (c == b'-') ≡ false = ground (arith, all) in
    rw e (
      next-shown c (ds ++ after) line col (ground (arith, all))
      ∙ next_char-number c (ds ++ after) line col (ground (arith, digit))
      ∙ rw minus (
          ap (number_from [] line col) (span-digits (c ∷ ds) after all k)
          ∙ ap
              (λ m. (
                token TokenKind.immediate (c ∷ ds) line col,
                record { rest = after; line = line; col = m },
              ))
              (omega arith)))

-- A printed integer, before a character that is no digit, is lexed as one immediate whose text is
-- that of the integer, and the lexer goes on behind it.
pub next-format_int :
    (z : ℤ) (after : List ℕ) (line col : ℕ)
    → EndsNumber after
    → next (record { rest = format_int z ++ after; line = line; col = col })
      ≡ number_token (format_int z) after line col
unfolding format_int lex_number
next-format_int (pos n) after line col k = next-format_nat n after line col k
next-format_int (negsuc n) after line col k =
    next-shown b'-' (format_nat (n + 1) ++ after) line col refl
    ∙ next_char-number b'-' (format_nat (n + 1) ++ after) line col refl
    ∙ ap (number_from (b'-' ∷ []) line col)
        (span-digits (format_nat (n + 1)) after (all_digits-format_nat (n + 1)) k)
    ∙ ap
        (λ m. (
          token TokenKind.immediate (b'-' ∷ format_nat (n + 1)) line col,
          record { rest = after; line = line; col = m },
        ))
        (omega arith)
