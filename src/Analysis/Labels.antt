-- ===== src/Analysis/Labels.antt =====
-- src/analysis/CfgDot.cpp: labels between quotes.
use mathlib.Core.List.{append_assoc, append-nil}
use asm_studio.Prelude.{
  ℕ, ◌≡◌, refl, sym, ap, ◌∙◌, Bool, true, false, not, ◌&&◌, Option, none, some, List, [], ◌∷◌, ◌++◌,
  arith, ◌==◌, if◌then◌else◌, Bool-cases, inl, inr, ==_iff,
}
use asm_studio.Text.{Text, codes, each}
use asm_studio.Text.Decimal.{format_nat}
use asm_studio.Text.ReadBack.{all_digits-format_nat}
use asm_studio.Parse.Lexer.{all_digits}
use asm_studio.Ir.{IrOp, IrInstr, IrBlock, ir_op_name}
use asm_studio.Codegen.Pseudo.{where_some}
use asm_studio.Analysis.Dot.{
  escape_dot_label, escape_char, build_block_label, label_line_end, block_label_lines,
  instr_label_line,
}

-- What DOT reads of a quoted label: the label, and what follows its closing quote. The flag says that
-- a backslash came before: it is dropped before a quote, and kept before anything else.
abbrev pub read_quoted : Bool → Text → Text × Text
read_quoted b [] = ([], [])
read_quoted true (c ∷ text) =
    let rest : Text × Text = read_quoted false text in
    if c == b'"' then (c ∷ rest.0, rest.1) else (b'\\' ∷ c ∷ rest.0, rest.1)
read_quoted false (c ∷ text) =
    let rest : Text × Text = read_quoted false text in
    let pair : Text × Text = read_quoted true text in
    if c == b'"' then ([], text) else (if c == b'\\' then pair else (c ∷ rest.0, rest.1))

abbrev pub no_backslash : Text → Bool
no_backslash [] = true
no_backslash (c ∷ text) = not (c == b'\\') && no_backslash text

-- Before any text, the one is read as the other.
abbrev ReadsAs : Text → Text → Type 0
ReadsAs written text =
    (rest : Text)
    → read_quoted false (written ++ rest)
      ≡ (text ++ (read_quoted false rest).0, (read_quoted false rest).1)

ReadsAs-append : (w w' t t' : Text) → ReadsAs w t → ReadsAs w' t' → ReadsAs (w ++ w') (t ++ t')
ReadsAs-append w w' t t' h k rest =
    ap (read_quoted false) (append_assoc w w' rest)
    ∙ h (w' ++ rest)
    ∙ ap (λ (p : Text × Text). (t ++ p.0, p.1)) (k rest)
    ∙ ap (λ x. (x, (read_quoted false rest).1)) (sym (append_assoc t t' (read_quoted false rest).0))

escape_dot_label-append :
    (t u : Text) → escape_dot_label (t ++ u) ≡ escape_dot_label t ++ escape_dot_label u
unfolding escape_dot_label
escape_dot_label-append [] u = refl
escape_dot_label-append (c ∷ t) u =
    ap (λ x. escape_char c ++ x) (escape_dot_label-append t u)
    ∙ sym (append_assoc (escape_char c) (escape_dot_label t) (escape_dot_label u))

-- Text without a backslash is escaped so that it reads as it was.
escape_dot_label-ReadsAs : (t : Text) → no_backslash t ≡ true → ReadsAs (escape_dot_label t) t
unfolding escape_dot_label
escape_dot_label-ReadsAs [] h = λ rest. refl
escape_dot_label-ReadsAs (c ∷ t) h = elim (Bool-cases (c == b'\\')) [
  | inl e ↦ absurd (clash (rw e at h))
  | inr e ↦
      ReadsAs-append (escape_char c) (escape_dot_label t) (c ∷ []) t (single e)
        (escape_dot_label-ReadsAs t (rw e at h))
]
  where
    clash : false ≡ true → ⊥
    clash q = cc

    single : (c == b'\\') ≡ false → ReadsAs (escape_char c) (c ∷ [])
    single e rest = elim (Bool-cases (c == b'"')) [
      | inl q ↦ rw q (
          ap (λ x. (x ∷ (read_quoted false rest).0, (read_quoted false rest).1))
            (sym ((==_iff c b'"').0 q)))
      | inr q ↦ rw (q, e) (rw q refl)
    ]

-- The escaped text reads as the text.
abbrev Escapes : Text → Type 0
Escapes t = ReadsAs (escape_dot_label t) t

Escapes-append : (t u : Text) → Escapes t → Escapes u → Escapes (t ++ u)
Escapes-append t u h k rest =
    ap (λ x. read_quoted false (x ++ rest)) (escape_dot_label-append t u)
    ∙ ReadsAs-append (escape_dot_label t) (escape_dot_label u) t u h k rest

-- A line's end is a backslash that is kept.
label_line_end-Escapes : Escapes label_line_end
unfolding escape_dot_label
label_line_end-Escapes rest = refl

no_backslash-digits : (t : Text) → all_digits t ≡ true → no_backslash t ≡ true
no_backslash-digits [] h = refl
no_backslash-digits (c ∷ t) h = ground (arith, h, no_backslash-digits t)

ir_op_name-no_backslash : (op : IrOp) → no_backslash (codes (ir_op_name op)) ≡ true
unfolding ir_op_name
ir_op_name-no_backslash IrOp.const = refl
ir_op_name-no_backslash IrOp.copy = refl
ir_op_name-no_backslash IrOp.add = refl
ir_op_name-no_backslash IrOp.sub = refl
ir_op_name-no_backslash IrOp.mul = refl
ir_op_name-no_backslash IrOp.div = refl
ir_op_name-no_backslash IrOp.modulo = refl
ir_op_name-no_backslash IrOp.and = refl
ir_op_name-no_backslash IrOp.or = refl
ir_op_name-no_backslash IrOp.xor = refl
ir_op_name-no_backslash IrOp.shl = refl
ir_op_name-no_backslash IrOp.shr = refl
ir_op_name-no_backslash IrOp.neg = refl
ir_op_name-no_backslash IrOp.not = refl
ir_op_name-no_backslash IrOp.cmp = refl
ir_op_name-no_backslash IrOp.jmp = refl
ir_op_name-no_backslash IrOp.br_true = refl
ir_op_name-no_backslash IrOp.call = refl
ir_op_name-no_backslash IrOp.ret = refl
ir_op_name-no_backslash IrOp.load = refl
ir_op_name-no_backslash IrOp.store = refl

output-Escapes :
    (output : Option ℕ)
    → Escapes (where_some output (λ id. codes "v" ++ (format_nat id ++ codes " = ")))
output-Escapes none = escape_dot_label-ReadsAs [] refl
output-Escapes (some id) =
    Escapes-append (codes "v") _ (escape_dot_label-ReadsAs (codes "v") refl) (
      Escapes-append (format_nat id) (codes " = ")
        (escape_dot_label-ReadsAs (format_nat id)
          (no_backslash-digits (format_nat id) (all_digits-format_nat id)))
        (escape_dot_label-ReadsAs (codes " = ") refl))

instr_label_line-Escapes : (i : IrInstr) → Escapes (instr_label_line i)
instr_label_line-Escapes i =
    Escapes-append (where_some i.output (λ id. codes "v" ++ (format_nat id ++ codes " = "))) _
      (output-Escapes i.output)
      (Escapes-append (codes (ir_op_name i.op)) label_line_end
        (escape_dot_label-ReadsAs (codes (ir_op_name i.op)) (ir_op_name-no_backslash i.op))
        label_line_end-Escapes)

each-Escapes : (instrs : List IrInstr) → Escapes (each instr_label_line instrs)
each-Escapes [] = escape_dot_label-ReadsAs [] refl
each-Escapes (i ∷ instrs) =
    Escapes-append (instr_label_line i) (each instr_label_line instrs) (instr_label_line-Escapes i)
      (each-Escapes instrs)

-- The label of a block whose name has no backslash, put between quotes, is read by DOT as the lines
-- of the block, whatever quotes the name has: the label ends at its closing quote, and the text
-- after it is left.
pub read_quoted-build_block_label :
    (block : IrBlock) (rest : Text)
    → no_backslash (codes block.name) ≡ true
    → read_quoted false (build_block_label block ++ b'"' ∷ rest) ≡ (block_label_lines block, rest)
unfolding build_block_label
read_quoted-build_block_label block rest h =
    Escapes-append (codes block.name) _ (escape_dot_label-ReadsAs (codes block.name) h)
      (Escapes-append label_line_end (each instr_label_line block.instrs) label_line_end-Escapes
        (each-Escapes block.instrs))
      (b'"' ∷ rest)
    ∙ ap (λ t. (t, rest)) (append-nil (block_label_lines block))
