-- ===== src/Parse/Lexer.antt =====
-- include/asmstudio/parse/Lexer.hpp. The lexer keeps the characters that are left instead of the
-- source and a position. Lines and columns are plain numbers.
use asm_studio.Prelude.{
  ℕ, ◌+◌, ◌-◌, ◌*◌, ◌%◌, ◌^◌, Bool, true, false, not, ◌||◌, ◌&&◌, String, List, [], ◌∷◌, ◌++◌,
  if◌then◌else◌, length, leb, ◌==◌, any,
}
use asm_studio.Text.{codes}
use asm_studio.Parse.Token.{TokenKind, Token}

abbrev pub same_word : List ℕ → List ℕ → Bool
same_word [] [] = true
same_word (a ∷ as') (b ∷ bs) = a == b && same_word as' bs
same_word _ _ = false

abbrev pub known_mnemonics : List String
known_mnemonics =
    "mov" ∷ "add" ∷ "sub" ∷ "mul" ∷ "div" ∷ "cmp" ∷ "jmp" ∷ "je" ∷ "jne" ∷ "jl" ∷ "jg" ∷ "jle"
    ∷ "jge" ∷ "push" ∷ "pop" ∷ "call" ∷ "ret" ∷ "load" ∷ "store" ∷ []

unfoldable pub is_mnemonic : List ℕ → Bool
is_mnemonic word = any (λ mnemonic. same_word (codes mnemonic) word) known_mnemonics

abbrev pub is_digit : ℕ → Bool
is_digit c = leb b'0' c && leb c b'9'

abbrev pub all_digits : List ℕ → Bool
all_digits [] = true
all_digits (c ∷ cs) = is_digit c && all_digits cs

-- The loop over the digits, in std::size_t.
unfoldable pub register_number : ℕ → List ℕ → ℕ
register_number num [] = num
register_number num (c ∷ cs) = register_number ((num * 10 + (c - b'0')) % 2 ^ 64) cs

unfoldable pub is_register : List ℕ → Bool
is_register [] = false
is_register (c ∷ []) = false
is_register (c ∷ d ∷ digits) =
    c == b'r' && (all_digits (d ∷ digits) && leb (register_number 0 (d ∷ digits)) 15)

pub record Lexer : Type 0 where
  pub rest : List ℕ
  pub line : ℕ
  pub col : ℕ

-- `Lexer::Lexer`
unfoldable pub make_lexer : List ℕ → Lexer
make_lexer source = record { rest = source; line = 1; col = 1 }

unfoldable pub is_alpha : ℕ → Bool
is_alpha c = leb b'a' c && leb c b'z' || (leb b'A' c && leb c b'Z' || c == b'_')

unfoldable pub is_al_num : ℕ → Bool
is_al_num c = is_alpha c || is_digit c

abbrev pub is_space : ℕ → Bool
is_space c = c == b' ' || (c == 9 || c == 13)

unfoldable pub skip_whitespace : List ℕ → ℕ → ℕ → Lexer
skip_whitespace [] line col = record { rest = []; line = line; col = col }
skip_whitespace (c ∷ cs) line col =
    let skipped : Lexer = skip_whitespace cs line (col + 1) in
    if is_space c then skipped else record { rest = c ∷ cs; line = line; col = col }

-- The longest prefix that passes a test, and what follows it.
abbrev pub span : (ℕ → Bool) → List ℕ → List ℕ × List ℕ
span p [] = ([], [])
span p (c ∷ cs) =
    let r : List ℕ × List ℕ = span p cs in if p c then (c ∷ r.0, r.1) else ([], c ∷ cs)

abbrev pub token : TokenKind → List ℕ → ℕ → ℕ → Token
token kind text line col = record { kind = kind; text = text; line = line; col = col }

-- The sign of a number, the loop over its digits, and the column behind them.
abbrev pub number_from : List ℕ → ℕ → ℕ → List ℕ × List ℕ → Token × Lexer
number_from sign line col (digits, rest) = (
  token TokenKind.immediate (sign ++ digits) line col,
  record { rest = rest; line = line; col = col + length sign + length digits },
)

unfoldable pub lex_number : ℕ → List ℕ → ℕ → ℕ → Token × Lexer
lex_number c cs line col =
    if c == b'-'
    then number_from (c ∷ []) line col (span is_digit cs)
    else number_from [] line col (span is_digit (c ∷ cs))

abbrev pub is_blank : ℕ → Bool
is_blank c = c == b' ' || c == 9

abbrev pub word_kind : List ℕ → TokenKind
word_kind word =
    if is_register word
    then TokenKind.register
    else (if is_mnemonic word then TokenKind.mnemonic else TokenKind.unknown)

-- What stands behind the word and its blanks: a colon makes the word a label.
abbrev pub word_before : List ℕ → List ℕ → ℕ → ℕ → List ℕ → List ℕ → Token × Lexer
word_before word rest line col blanks (c ∷ after) =
    if c == b':'
    then (
      token TokenKind.label word line col,
      record { rest = after; line = line; col = col + (length word + length blanks + 1) },
    )
    else (
      token (word_kind word) word line col,
      record { rest = rest; line = line; col = col + length word },
    )
word_before word rest line col blanks [] = (
  token (word_kind word) word line col,
  record { rest = rest; line = line; col = col + length word },
)

unfoldable pub lex_word : List ℕ → ℕ → ℕ → Token × Lexer
lex_word cs line col =
    let word : List ℕ × List ℕ = span (λ c. is_al_num c || c == b'_') cs in
    let blanks : List ℕ × List ℕ = span is_blank word.1 in
    word_before word.0 word.1 line col blanks.0 blanks.1

abbrev pub advance : TokenKind → ℕ → List ℕ → ℕ → ℕ → Token × Lexer
advance kind c cs line col =
    (token kind (c ∷ []) line col, record { rest = cs; line = line; col = col + 1 })

-- The column stays where the comment began.
abbrev pub lex_comment : ℕ → List ℕ → ℕ → ℕ → Token × Lexer
lex_comment c cs line col =
    let body : List ℕ × List ℕ = span (λ d. not (d == 10)) (c ∷ cs) in
    (token TokenKind.comment body.0 line col, record { rest = body.1; line = line; col = col })

unfoldable pub next_char : ℕ → List ℕ → ℕ → ℕ → Token × Lexer
next_char c cs line col =
    if c == 10
    then (token TokenKind.newline (c ∷ []) line col, record { rest = cs; line = line + 1; col = 1 })
    else (if c == b','
        then advance TokenKind.comma c cs line col
        else (if c == b':'
            then advance TokenKind.colon c cs line col
            else (if c == b';'
                then lex_comment c cs line col
                else (if c == b'-' || is_digit c
                    then lex_number c cs line col
                    else (if is_alpha c || c == b'_'
                        then lex_word (c ∷ cs) line col
                        else advance TokenKind.error c cs line col)))))

unfoldable pub next_after : List ℕ → ℕ → ℕ → Token × Lexer
next_after [] line col =
    (token TokenKind.eof [] line col, record { rest = []; line = line; col = col })
next_after (c ∷ cs) line col = next_char c cs line col

-- `Lexer::next`
unfoldable pub next : Lexer → Token × Lexer
next lexer =
    let skipped : Lexer = skip_whitespace lexer.rest lexer.line lexer.col in
    next_after skipped.rest skipped.line skipped.col
