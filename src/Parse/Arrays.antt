-- ===== src/Parse/Arrays.antt =====
-- include/asmstudio/parse/AsmProgram.hpp: the sizes of the arrays of `ParsedProgram`.
use asm_studio.Prelude.{
  ℕ, ◌≤◌, ◌≡◌, Bool, true, String, List, [], ◌∷◌, ◌++◌, arith, length, ltb, Bool-cases, inl, inr,
  length-append,
}
use asm_studio.Parse.AsmProgram.{
  ParsedProgram, add_label, add_instruction, add_diagnostic, max_instructions, max_labels,
  max_diagnostics,
}

push-fits {ℓ} :
    {A : Type ℓ} (xs : List A) (x : A) (n : ℕ)
    → ltb (length xs) n ≡ true
    → length (xs ++ x ∷ []) ≤ n
push-fits xs x n e = ground (arith, e, length-append xs (x ∷ []))

-- What the parser has built fits the arrays of `ParsedProgram`.
abbrev pub Fits : ParsedProgram → Type 0
Fits p =
    (length p.instructions ≤ max_instructions)
    × (length p.labels ≤ max_labels)
    × (length p.diagnostics ≤ max_diagnostics)

pub add_instruction-Fits :
    (p : ParsedProgram) (mnemonic first second : List ℕ) (line : ℕ)
    → Fits p
    → Fits (add_instruction p mnemonic first second line)
unfolding add_instruction
add_instruction-Fits p mnemonic first second line h =
    elim (Bool-cases (ltb (length p.instructions) max_instructions)) [
      | inl e ↦ rw e (push-fits p.instructions _ _ e, h.1, h.2)
      | inr e ↦ rw e h
    ]

pub add_label-Fits :
    (p : ParsedProgram) (name : List ℕ) (index : ℕ) → Fits p → Fits (add_label p name index)
unfolding add_label
add_label-Fits p name index h = elim (Bool-cases (ltb (length p.labels) max_labels)) [
  | inl e ↦ rw e (h.0, push-fits p.labels _ _ e, h.2)
  | inr e ↦ rw e h
]

pub add_diagnostic-Fits :
    (p : ParsedProgram) (message : String) (line col : ℕ) (is_error : Bool)
    → Fits p
    → Fits (add_diagnostic p message line col is_error)
unfolding add_diagnostic
add_diagnostic-Fits p message line col is_error h =
    elim (Bool-cases (ltb (length p.diagnostics) max_diagnostics)) [
      | inl e ↦ rw e (h.0, h.1, push-fits p.diagnostics _ _ e)
      | inr e ↦ rw e h
    ]
