-- ===== src/Driver/Templates.antt =====
-- src/driver/ConsolePresenter.cpp: `format` on strings whose only braces are empty pairs.
use mathlib.Core.List.{append-nil}
use asm_studio.Prelude.{
  ◌≡◌, refl, sym, ap, ◌∙◌, Bool, true, false, not, ◌&&◌, List, [], ◌∷◌, ◌++◌, ◌==◌, All, Bool-cases,
  inl, inr,
}
use asm_studio.Text.{Text}
use asm_studio.Driver.Format.{format, format_from, first_argument, later_arguments}

-- The text between placeholders, and what follows each of them.
abbrev pub template : Text → List Text → Text
template piece [] = piece
template piece (next ∷ pieces) = piece ++ b'{' ∷ b'}' ∷ template next pieces

-- The pieces with an argument in each gap; a gap past the last argument is closed.
abbrev pub interleave : Text → List Text → List Text → Text
interleave piece [] arguments = piece
interleave piece (next ∷ pieces) [] = piece ++ interleave next pieces []
interleave piece (next ∷ pieces) (argument ∷ arguments) =
    piece ++ (argument ++ interleave next pieces arguments)

abbrev pub no_open : Text → Bool
no_open [] = true
no_open (c ∷ text) = not (c == b'{') && no_open text

format_from-plain :
    (piece rest : Text) (arguments : List Text)
    → no_open piece ≡ true
    → format_from false (piece ++ rest) arguments ≡ piece ++ format_from false rest arguments
unfolding format_from
format_from-plain [] rest arguments h = refl
format_from-plain (c ∷ piece) rest arguments h = elim (Bool-cases (c == b'{')) [
  | inl e ↦ absurd (clash (rw e at h))
  | inr e ↦ rw e (ap (λ t. c ∷ t) (format_from-plain piece rest arguments (rw e at h)))
]
  where
    clash : false ≡ true → ⊥
    clash q = cc

format_from-gap :
    (rest : Text) (arguments : List Text)
    → format_from false (b'{' ∷ b'}' ∷ rest) arguments
      ≡ first_argument arguments ++ format_from false rest (later_arguments arguments)
unfolding format_from
format_from-gap rest arguments = refl

-- A format string whose pieces have no opening brace comes out with the arguments in its gaps, each
-- as it is, braces included; a gap without an argument is closed, and arguments past the last gap
-- are left out.
pub format-template :
    (piece : Text) (pieces arguments : List Text)
    → no_open piece ≡ true
    → All (λ t. no_open t ≡ true) pieces
    → format (template piece pieces) arguments ≡ interleave piece pieces arguments
unfolding format format_from
format-template piece [] arguments h k =
    ap (λ t. format_from false t arguments) (sym (append-nil piece))
    ∙ format_from-plain piece [] arguments h
    ∙ closed
  where
    closed : piece ++ format_from false [] arguments ≡ piece
    closed = append-nil piece
format-template piece (next ∷ pieces) [] h k =
    format_from-plain piece _ [] h
    ∙ ap (λ t. piece ++ t)
        (format_from-gap (template next pieces) [] ∙ format-template next pieces [] k.0 k.1)
format-template piece (next ∷ pieces) (argument ∷ arguments) h k =
    format_from-plain piece _ (argument ∷ arguments) h
    ∙ ap (λ t. piece ++ t)
        (format_from-gap (template next pieces) (argument ∷ arguments)
          ∙ ap (λ t. argument ++ t) (format-template next pieces arguments k.0 k.1))
