-- ===== src/Dsl/Syntax.antt =====
-- include/asmstudio/dsl/{Variable,Expr,Condition,Stmt}.hpp. A reference to a variable is the
-- variable, which does not change once it is made; shared nodes are trees.
use asm_studio.Prelude.{String, Option, List}
use asm_studio.Support.Types.{DataType, BinOp, UnaryOp, CmpKind}
use asm_studio.Ir.{RegValue}

pub record Variable : Type 0 where
  pub name : String
  pub type : DataType
  pub init : RegValue

pub data Operand : Type 0 where
  variable : Variable → Operand
  literal : RegValue → Operand

pub record Condition : Type 0 where
  pub left_operand : Operand
  pub comparison_kind : CmpKind
  pub right_operand : Operand

-- `Variable::compare`, which the comparison operators call.
unfoldable pub compare_variable : Variable → CmpKind → Operand → Condition
compare_variable v kind right = record {
  left_operand = variable v;
  comparison_kind = kind;
  right_operand = right;
}

pub data ExprNode : Type 0 where
  const_expr : RegValue → ExprNode
  var_expr : Variable → ExprNode
  bin_expr : BinOp → ExprNode → ExprNode → ExprNode
  unary_expr : UnaryOp → ExprNode → ExprNode

-- std::vector<Stmt> is `Stmts`.
mutual
  pub data Stmt : Type 0 where
    assign_stmt : Variable → ExprNode → Stmt
    while_stmt : Condition → Stmts → Stmt
    if_stmt : Condition → Stmts → Stmts → Stmt
    return_stmt : Option ExprNode → Stmt
    call_stmt : String → List ExprNode → Stmt

  pub data Stmts : Type 0 where
    nil : Stmts
    cons : Stmt → Stmts → Stmts
