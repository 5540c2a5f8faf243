-- ===== src/Parse/Progress.antt =====
-- include/asmstudio/parse/Lexer.hpp: how far each token takes the lexer, and loops over tokens.
use asm_studio.Prelude.{
  ℕ, zero, suc, ◌+◌, ◌<◌, ◌≤◌, ◌≡◌, refl, Bool, true, false, not, ◌||◌, Option, none, some, List,
  [], ◌∷◌, arith, if◌then◌else◌, length, ◌==◌, Bool-cases, inl, inr,
}
use asm_studio.Parse.Token.{TokenKind, Token}
use asm_studio.Parse.Lexer.{
  Lexer, next, skip_whitespace, next_after, next_char, lex_number, lex_word, lex_comment, is_space,
  span, is_digit, is_alpha, is_al_num, is_blank, word_before, word_kind,
}
use asm_studio.Parse.Parser.{Cursor, at_token, advance, is_eof, skip_while}

-- The tokens that can still come, the current one included.
abbrev pub work : Cursor → ℕ
work cursor = if is_eof cursor.current.kind then 0 else length cursor.lexer.rest + 1

span-length : (p : ℕ → Bool) (cs : List ℕ) → length (span p cs).1 ≤ length cs
span-length p [] = omega arith
span-length p (c ∷ cs) = elim (Bool-cases (p c)) [
  | inl e ↦ rw e (omega (arith, span-length p cs))
  | inr e ↦ rw e (omega arith)
]

span-length_taken :
    (p : ℕ → Bool) (c : ℕ) (cs : List ℕ) → p c ≡ true → length (span p (c ∷ cs)).1 ≤ length cs
span-length_taken p c cs e = rw e (span-length p cs)

skip_whitespace-length :
    (cs : List ℕ) (line col : ℕ) → length (skip_whitespace cs line col).rest ≤ length cs
unfolding skip_whitespace
skip_whitespace-length [] line col = omega arith
skip_whitespace-length (c ∷ cs) line col = elim (Bool-cases (is_space c)) [
  | inl e ↦ rw e (omega (arith, skip_whitespace-length cs line (col + 1)))
  | inr e ↦ rw e (omega arith)
]

-- A token that leaves fewer characters.
work-shorter :
    (kind : TokenKind) (rest : List ℕ) (n : ℕ)
    → length rest < n
    → (if is_eof kind then 0 else length rest + 1) ≤ n
work-shorter kind rest n h = elim (Bool-cases (is_eof kind)) [
  | inl e ↦ rw e (omega arith)
  | inr e ↦ rw e (omega (arith, h))
]

choose :
    (b : Bool) (x y : Token × Lexer) (n : ℕ)
    → (b ≡ true → work (at_token x) ≤ n)
    → (b ≡ false → work (at_token y) ≤ n)
    → work (at_token (if b then x else y)) ≤ n
choose true x y n h k = h refl
choose false x y n h k = k refl

word_before-work :
    (word rest : List ℕ) (line col : ℕ) (blanks after : List ℕ) (n : ℕ)
    → length rest < n
    → length after ≤ length rest
    → work (at_token (word_before word rest line col blanks after)) ≤ n
word_before-work word rest line col blanks [] n h k = work-shorter (word_kind word) rest n h
word_before-work word rest line col blanks (c ∷ after) n h k =
    choose (c == b':') _ _ n (λ e. omega (arith, h, k))
      (λ e. work-shorter (word_kind word) rest n h)

taken : (a d u : Bool) → (a || u) ≡ true → ((a || d) || u) ≡ true
taken true d u e = refl
taken false true true e = refl
taken false false true e = refl
taken false d false e = cc

lex_word-work :
    (c : ℕ) (cs : List ℕ) (line col : ℕ)
    → (is_alpha c || c == b'_') ≡ true
    → work (at_token (lex_word (c ∷ cs) line col)) ≤ length (c ∷ cs)
unfolding lex_word is_al_num
lex_word-work c cs line col e =
    let word : List ℕ × List ℕ = span (λ d. is_al_num d || d == b'_') (c ∷ cs) in
    let shorter : length word.1 ≤ length cs =
      span-length_taken (λ d. is_al_num d || d == b'_') c cs
        (taken (is_alpha c) (is_digit c) (c == b'_') e) in
    word_before-work word.0 word.1 line col (span is_blank word.1).0 (span is_blank word.1).1
      (length (c ∷ cs)) (omega (arith, shorter)) (span-length is_blank word.1)

lex_number-work :
    (c : ℕ) (cs : List ℕ) (line col : ℕ)
    → (c == b'-' || is_digit c) ≡ true
    → work (at_token (lex_number c cs line col)) ≤ length (c ∷ cs)
unfolding lex_number
lex_number-work c cs line col e =
    choose (c == b'-') _ _ (length (c ∷ cs)) (λ k. omega (arith, span-length is_digit cs))
      (λ k. omega (arith, span-length_taken is_digit c cs (rw k at e)))

next_char-work :
    (c : ℕ) (cs : List ℕ) (line col : ℕ)
    → work (at_token (next_char c cs line col)) ≤ length (c ∷ cs)
unfolding next_char
next_char-work c cs line col =
    choose (c == 10) _ _ _ (λ _. omega arith)
      (λ _.
        choose (c == b',') _ _ _ (λ _. omega arith)
          (λ _.
            choose (c == b':') _ _ _ (λ _. omega arith)
              (λ _.
                choose (c == b';') _ _ _ (λ e. comment e)
                  (λ _.
                    choose (c == b'-' || is_digit c) _ _ _ (λ e. lex_number-work c cs line col e)
                      (λ _.
                        choose (is_alpha c || c == b'_') _ _ _ (λ e. lex_word-work c cs line col e)
                          (λ _. omega arith))))))
  where
    comment : c == b';' ≡ true → work (at_token (lex_comment c cs line col)) ≤ length (c ∷ cs)
    comment e = omega (arith, span-length_taken (λ d. not (d == 10)) c cs (ground (arith, e)))

next_after-work :
    (cs : List ℕ) (line col : ℕ) → work (at_token (next_after cs line col)) ≤ length cs
unfolding next_after
next_after-work [] line col = omega arith
next_after-work (c ∷ cs) line col = next_char-work c cs line col

pub next-work : (l : Lexer) → work (at_token (next l)) ≤ length l.rest
unfolding next
next-work l = omega (
  arith,
  next_after-work (skip_whitespace l.rest l.line l.col).rest
      (skip_whitespace l.rest l.line l.col).line (skip_whitespace l.rest l.line l.col).col,
  skip_whitespace-length l.rest l.line l.col,
)

pub advance-work :
    (cursor : Cursor) → is_eof cursor.current.kind ≡ false → work (advance cursor) < work cursor
unfolding advance
advance-work cursor e = rw e (omega (arith, next-work cursor.lexer))

-- A loop over tokens ends on a cursor with no more work than a bound.
abbrev pub EndsAt : ℕ → Option Cursor → Type 0
EndsAt n none = ⊥
EndsAt n (some cursor) = work cursor ≤ n

pub skip_while-EndsAt :
    (test : TokenKind → Bool) (fuel : ℕ) (cursor : Cursor)
    → ((kind : TokenKind) → test kind ≡ true → is_eof kind ≡ false)
    → work cursor < fuel
    → EndsAt (work cursor) (skip_while test fuel cursor)
unfolding skip_while
skip_while-EndsAt test zero cursor real h = absurd (omega (arith, h))
skip_while-EndsAt test (suc fuel) cursor real h = elim (Bool-cases (test cursor.current.kind)) [
  | inl e ↦
      let l : work (advance cursor) < work cursor = advance-work cursor (real _ e) in
      rw e (
        weaken (skip_while test fuel (advance cursor))
          (skip_while-EndsAt test fuel (advance cursor) real (omega (arith, h, l))) l)
  | inr e ↦ rw e (omega arith)
]
  where
    weaken :
        (r : Option Cursor)
        → EndsAt (work (advance cursor)) r
        → work (advance cursor) < work cursor
        → EndsAt (work cursor) r
    weaken none k l = k
    weaken (some c) k l = omega (arith, k, l)
