-- ===== src/Lowering/Stmt.antt =====
-- src/ir/Lowering.cpp: statements. Each yields the block in which lowering goes on.
use asm_studio.Prelude.{ℕ, Option, none, some, List, [], ◌∷◌, String}
use asm_studio.Support.Types.{DataType}
use asm_studio.Ir.{IrOp, IrInstr, empty_instr}
use asm_studio.Dsl.Syntax.{
  Variable, Condition, ExprNode, Stmt, Stmts, nil, cons, assign_stmt, while_stmt, if_stmt,
  return_stmt, call_stmt,
}
use asm_studio.Lowering.Context.{
  L, ◌>>=◌, ◌>>◌, return, alloc_value, alloc_block, emit, lookup_variable, value_of,
  next_loop_index, next_if_index,
}
use asm_studio.Lowering.Expr.{lower_expression, lower_operand, operator_instr}

abbrev pub jump_instr : ℕ → IrInstr
jump_instr target = record (empty_instr IrOp.jmp) { true_target = some target }

abbrev pub branch_instr : ℕ → ℕ → ℕ → IrInstr
branch_instr condition then_target else_target = record (empty_instr IrOp.br_true) {
  inputs = condition ∷ [];
  true_target = some then_target;
  false_target = some else_target;
}

-- The comparison of a loop or an `if`, and the branch on it.
unfoldable pub lower_condition : ℕ → Condition → ℕ → ℕ → L (Unit {0})
lower_condition block condition then_target else_target = do
  left_value ← lower_operand block condition.left_operand
  right_value ← lower_operand block condition.right_operand
  condition_value ← alloc_value DataType.bool none
  emit block (record (operator_instr IrOp.cmp (left_value ∷ right_value ∷ []) condition_value) {
    cmp_kind = some condition.comparison_kind;
  })
  emit block (branch_instr condition_value then_target else_target)

unfoldable pub lower_assign_statement : ℕ → Variable → ExprNode → L ℕ
lower_assign_statement current_block target value = do
  new_value ← lower_expression current_block value
  slot ← lookup_variable target.name
  canonical_slot ← value_of slot
  emit current_block (operator_instr IrOp.copy (new_value ∷ []) canonical_slot)
  return current_block

unfoldable pub lower_while_statement : (String → ℕ → String) → ℕ → Condition → (ℕ → L ℕ) → L ℕ
lower_while_statement label current_block condition lower_body = do
  loop_index ← next_loop_index
  condition_block ← alloc_block (label "while_cond_" loop_index)
  loop_body_block ← alloc_block (label "while_body_" loop_index)
  after_loop_block ← alloc_block (label "while_after_" loop_index)
  emit current_block (jump_instr condition_block)
  lower_condition condition_block condition loop_body_block after_loop_block
  loop_body_end ← lower_body loop_body_block
  emit loop_body_end (jump_instr condition_block)
  return after_loop_block

unfoldable pub lower_if_statement :
    (String → ℕ → String) → ℕ → Condition → (ℕ → L ℕ) → (ℕ → L ℕ) → L ℕ
lower_if_statement label current_block condition lower_then lower_else = do
  if_index ← next_if_index
  then_block ← alloc_block (label "if_then_" if_index)
  else_block ← alloc_block (label "if_else_" if_index)
  merge_block ← alloc_block (label "if_merge_" if_index)
  lower_condition current_block condition then_block else_block
  then_block_end ← lower_then then_block
  emit then_block_end (jump_instr merge_block)
  else_block_end ← lower_else else_block
  emit else_block_end (jump_instr merge_block)
  return merge_block

unfoldable pub lower_return_statement : ℕ → Option ExprNode → L ℕ
lower_return_statement current_block none = do
  emit current_block (empty_instr IrOp.ret)
  return current_block
lower_return_statement current_block (some value) = do
  return_value ← lower_expression current_block value
  emit current_block (record (empty_instr IrOp.ret) { inputs = return_value ∷ [] })
  return current_block

unfoldable pub lower_arguments : ℕ → List ExprNode → L (List ℕ)
lower_arguments current_block [] = return []
lower_arguments current_block (argument ∷ arguments) = do
  id ← lower_expression current_block argument
  ids ← lower_arguments current_block arguments
  return (id ∷ ids)

unfoldable pub lower_call_statement : ℕ → String → List ExprNode → L ℕ
lower_call_statement current_block callee arguments = do
  argument_ids ← lower_arguments current_block arguments
  emit current_block
      (record (empty_instr IrOp.call) { callee = some callee; inputs = argument_ids })
  return current_block

-- `label` is `"…" + std::to_string(n)`, the names of blocks.
unfoldable mutual
  pub lower_statement : (String → ℕ → String) → Stmt → ℕ → L ℕ
  lower_statement label (assign_stmt target value) current_block =
      lower_assign_statement current_block target value
  lower_statement label (while_stmt condition body) current_block =
      lower_while_statement label current_block condition (lower_statements label body)
  lower_statement label (if_stmt condition then_body else_body) current_block =
      lower_if_statement label current_block condition (lower_statements label then_body)
        (lower_statements label else_body)
  lower_statement label (return_stmt value) current_block =
      lower_return_statement current_block value
  lower_statement label (call_stmt callee arguments) current_block =
      lower_call_statement current_block callee arguments

  pub lower_statements : (String → ℕ → String) → Stmts → ℕ → L ℕ
  lower_statements label nil current_block = return current_block
  lower_statements label (cons s ss) current_block =
      lower_statement label s current_block >>= λ next_block. lower_statements label ss next_block
