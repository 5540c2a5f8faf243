-- ===== src/Dsl/Terms.antt =====
-- The functions of include/asmstudio/dsl/Expr.hpp that build expressions, and the operators of
-- include/asmstudio/dsl/Variable.hpp that build conditions.
use asm_studio.Support.Types.{BinOp, UnaryOp, CmpKind}
use asm_studio.Ir.{RegValue}
use asm_studio.Dsl.Syntax.{
  Variable, Operand, variable, literal, Condition, ExprNode, const_expr, var_expr, bin_expr,
  unary_expr, compare_variable,
}

-- `expr` of an integer, a double or a bool.
abbrev pub expr : RegValue → ExprNode
expr value = const_expr value

-- `expr` of a variable.
abbrev pub expr_variable : Variable → ExprNode
expr_variable v = var_expr v

abbrev pub expr_add : ExprNode → ExprNode → ExprNode
expr_add left right = bin_expr BinOp.add left right

abbrev pub expr_sub : ExprNode → ExprNode → ExprNode
expr_sub left right = bin_expr BinOp.sub left right

abbrev pub expr_mul : ExprNode → ExprNode → ExprNode
expr_mul left right = bin_expr BinOp.mul left right

abbrev pub expr_div : ExprNode → ExprNode → ExprNode
expr_div left right = bin_expr BinOp.div left right

abbrev pub expr_mod : ExprNode → ExprNode → ExprNode
expr_mod left right = bin_expr BinOp.modulo left right

abbrev pub expr_neg : ExprNode → ExprNode
expr_neg operand = unary_expr UnaryOp.neg operand

abbrev pub expr_bitnot : ExprNode → ExprNode
expr_bitnot operand = unary_expr UnaryOp.bit_not operand

-- The six operators, each for an operand that `toOperand` made.
abbrev pub less : Variable → Operand → Condition
less v right = compare_variable v CmpKind.lt right

abbrev pub less_equal : Variable → Operand → Condition
less_equal v right = compare_variable v CmpKind.le right

abbrev pub equal : Variable → Operand → Condition
equal v right = compare_variable v CmpKind.eq right

abbrev pub not_equal : Variable → Operand → Condition
not_equal v right = compare_variable v CmpKind.ne right

abbrev pub greater_equal : Variable → Operand → Condition
greater_equal v right = compare_variable v CmpKind.ge right

abbrev pub greater : Variable → Operand → Condition
greater v right = compare_variable v CmpKind.gt right

-- `toOperand` of a variable, and of anything else.
abbrev pub to_operand_variable : Variable → Operand
to_operand_variable v = variable v

abbrev pub to_operand : RegValue → Operand
to_operand value = literal value
