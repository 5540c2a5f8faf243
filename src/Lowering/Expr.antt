-- ===== src/Lowering/Expr.antt =====
-- src/ir/Lowering.cpp: expressions and operands.
use asm_studio.Prelude.{ℕ, Option, none, some, List, [], ◌∷◌}
use asm_studio.Support.Types.{DataType, BinOp, UnaryOp}
use asm_studio.Ir.{IrOp, IrConstant, RegValue, int64, uint64, double, bool, IrInstr, empty_instr}
use asm_studio.Dsl.Syntax.{
  Variable, Operand, variable, literal, ExprNode, const_expr, var_expr, bin_expr, unary_expr,
}
use asm_studio.Lowering.Context.{
  L, ◌>>=◌, ◌>>◌, return, alloc_value, emit, type_at, lookup_variable, set_variable,
}

unfoldable pub bin_op_to_ir_op : BinOp → IrOp
bin_op_to_ir_op BinOp.add = IrOp.add
bin_op_to_ir_op BinOp.sub = IrOp.sub
bin_op_to_ir_op BinOp.mul = IrOp.mul
bin_op_to_ir_op BinOp.div = IrOp.div
bin_op_to_ir_op BinOp.modulo = IrOp.modulo
bin_op_to_ir_op BinOp.and = IrOp.and
bin_op_to_ir_op BinOp.or = IrOp.or
bin_op_to_ir_op BinOp.xor = IrOp.xor
bin_op_to_ir_op BinOp.shl = IrOp.shl
bin_op_to_ir_op BinOp.shr = IrOp.shr

abbrev pub unary_op_to_ir_op : UnaryOp → IrOp
unary_op_to_ir_op UnaryOp.neg = IrOp.neg
unary_op_to_ir_op _ = IrOp.not

unfoldable pub data_type_from_constant : IrConstant → DataType
data_type_from_constant (int64 _) = DataType.int64
data_type_from_constant (uint64 _) = DataType.uint64
data_type_from_constant (double _) = DataType.float64
data_type_from_constant (bool _) = DataType.bool

abbrev pub const_instr : ℕ → IrConstant → IrInstr
const_instr output c = record (empty_instr IrOp.const) { output = some output; const_val = some c }

abbrev pub operator_instr : IrOp → List ℕ → ℕ → IrInstr
operator_instr op inputs output = record (empty_instr op) { inputs = inputs; output = some output }

unfoldable pub lower_constant_expression : ℕ → RegValue → L ℕ
lower_constant_expression current_block value = do
  output ← alloc_value (data_type_from_constant value) (some value)
  emit current_block (const_instr output value)
  return output

-- A variable without a slot: its initialiser is emitted as a constant.
unfoldable pub lower_first_access : ℕ → Variable → L ℕ
lower_first_access current_block v = do
  output ← alloc_value v.type none
  emit current_block (const_instr output v.init)
  set_variable v.name output
  return output

abbrev pub existing_or_first : ℕ → Variable → Option ℕ → L ℕ
existing_or_first current_block v none = lower_first_access current_block v
existing_or_first current_block v (some id) = return id

unfoldable pub lower_variable_expression : ℕ → Variable → L ℕ
lower_variable_expression current_block v = do
  existing ← lookup_variable v.name
  existing_or_first current_block v existing

-- What a binary or a unary node does once its operands are lowered; the type is the first one's.
unfoldable pub emit_operator : ℕ → IrOp → List ℕ → ℕ → L ℕ
emit_operator current_block op inputs first = do
  type ← type_at first
  output ← alloc_value type none
  emit current_block (operator_instr op inputs output)
  return output

unfoldable pub lower_expression : ℕ → ExprNode → L ℕ
lower_expression current_block (const_expr value) = lower_constant_expression current_block value
lower_expression current_block (var_expr v) = lower_variable_expression current_block v
lower_expression current_block (bin_expr op left right) = do
  left_value ← lower_expression current_block left
  right_value ← lower_expression current_block right
  emit_operator current_block (bin_op_to_ir_op op) (left_value ∷ right_value ∷ []) left_value
lower_expression current_block (unary_expr op operand) = do
  operand_value ← lower_expression current_block operand
  emit_operator current_block (unary_op_to_ir_op op) (operand_value ∷ []) operand_value

unfoldable pub lower_operand : ℕ → Operand → L ℕ
lower_operand current_block (variable v) = lower_variable_expression current_block v
lower_operand current_block (literal value) = lower_constant_expression current_block value
