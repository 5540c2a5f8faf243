-- ===== src/Parse/Token.antt =====
-- include/asmstudio/parse/Token.hpp. A std::string_view is the list of its character codes.
use asm_studio.Prelude.{ℕ, List}

pub data TokenKind : Type 0 where
  label mnemonic register immediate comma colon newline comment unknown eof error : TokenKind

pub record Token : Type 0 where
  pub kind : TokenKind
  pub text : List ℕ
  pub line : ℕ
  pub col : ℕ
