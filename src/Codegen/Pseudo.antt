-- ===== src/Codegen/Pseudo.antt =====
-- src/codegen/PseudoEmitter.cpp. The stream is the text that is written to it.
use asm_studio.Prelude.{ℕ, true, false, Option, none, some, List, [], ◌∷◌, ◌++◌, get_elem?}
use asm_studio.Text.{Text, codes, newline, join, each}
use asm_studio.Text.Decimal.{FloatText, format_nat, format_int}
use asm_studio.Support.Types.{cmp_kind_name, data_type_name}
use asm_studio.Ir.{
  IrConstant, int64, uint64, double, bool, IrValue, IrInstr, IrBlock, IrFunction, IrModule,
  ir_op_name,
}

unfoldable pub fmt_value : ℕ → Text
fmt_value id = codes "v" ++ format_nat id

unfoldable pub fmt_block : ℕ → Text
fmt_block id = codes ".blk_" ++ format_nat id

unfoldable pub fmt_constant : FloatText → IrConstant → Text
fmt_constant t (bool true) = codes "true"
fmt_constant t (bool false) = codes "false"
fmt_constant t (int64 value) = format_int value
fmt_constant t (uint64 value) = format_nat value
fmt_constant t (double value) = t.to_string value

-- What is written where an optional has a value.
abbrev pub where_some {ℓ} : {A : Type ℓ} → Option A → (A → Text) → Text
where_some none f = []
where_some (some a) f = f a

-- The type of the output, if it is in the table of values.
abbrev pub output_type : List IrValue → ℕ → Text
output_type values id =
    where_some (get_elem? values id) (λ v. codes "   ; " ++ codes (data_type_name v.type))

unfoldable pub emit_instruction : FloatText → IrInstr → IrFunction → Text
emit_instruction t i function = join (
    codes "    "
    ∷ where_some i.output (λ id. fmt_value id ++ codes " = ")
    ∷ codes (ir_op_name i.op)
    ∷ where_some i.cmp_kind (λ kind. codes "." ++ codes (cmp_kind_name kind))
    ∷ where_some i.const_val (λ c. codes " " ++ fmt_constant t c)
    ∷ where_some i.callee (λ callee. codes " " ++ codes callee)
    ∷ each (λ id. codes " " ++ fmt_value id) i.inputs
    ∷ where_some i.true_target (λ id. codes " " ++ fmt_block id)
    ∷ where_some i.false_target (λ id. codes " else " ++ fmt_block id)
    ∷ where_some i.output (output_type function.values)
    ∷ newline
    ∷ [])

unfoldable pub emit_pseudo_asm : FloatText → IrFunction → Text
emit_pseudo_asm t function =
    codes function.name
    ++ codes ":"
    ++ newline
    ++ each
        (λ (b : IrBlock).
          fmt_block b.id
          ++ codes ": ; "
          ++ codes b.name
          ++ newline
          ++ each (λ i. emit_instruction t i function) b.instrs)
        function.blocks

unfoldable pub emit_pseudo_asm_module : FloatText → IrModule → Text
emit_pseudo_asm_module t m =
    codes "; Module: "
    ++ codes m.name
    ++ newline
    ++ newline
    ++ each (λ function. emit_pseudo_asm t function ++ newline) m.functions
