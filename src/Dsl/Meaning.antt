-- ===== src/Dsl/Meaning.antt =====
-- What the expressions and statements of include/asmstudio/dsl mean: the operators of the simulator
-- on the values of variables, operands from left to right. Calls have no meaning here.
use asm_studio.Prelude.{
  ℕ, zero, suc, String, str_eq, Bool, true, false, ◌&&◌, Option, none, some, if◌then◌else◌, is_some,
}
use asm_studio.Support.Types.{BinOp, UnaryOp}
use asm_studio.Machine.Floats.{Floats}
use asm_studio.Ir.{IrOp, RegValue}
use asm_studio.Dsl.Syntax.{
  Operand, variable, literal, Condition, ExprNode, const_expr, var_expr, bin_expr, unary_expr, Stmt,
  Stmts, nil, cons, assign_stmt, while_stmt, if_stmt, return_stmt, call_stmt,
}
use asm_studio.Sim.Ops.{apply_binary_op, apply_comparison, zero_divisor, unary_neg, unary_not}
use asm_studio.Sim.State.{Outcome, ok, err, undefined, SimError, ◌>>=◌}
use asm_studio.Sim.Handlers.{of_ub}

-- The values of the variables that have one.
abbrev pub Env : Type 0
Env = String → Option RegValue

-- Every variable of an expression has a value.
abbrev pub all_set : Env → ExprNode → Bool
all_set env (const_expr value) = true
all_set env (var_expr v) = is_some (env v.name)
all_set env (bin_expr op left right) = all_set env left && all_set env right
all_set env (unary_expr op operand) = all_set env operand

abbrev pub value_in : Option RegValue → Outcome RegValue
value_in none = undefined
value_in (some value) = ok value

-- A quotient or a remainder, which a zero divisor does not have.
abbrev divided : Floats → IrOp → RegValue → RegValue → Outcome RegValue
divided f op left right =
    if zero_divisor right
    then err SimError.division_by_zero
    else of_ub (apply_binary_op f op left right)

abbrev pub binary_meaning : Floats → BinOp → RegValue → RegValue → Outcome RegValue
binary_meaning f BinOp.add left right = of_ub (apply_binary_op f IrOp.add left right)
binary_meaning f BinOp.sub left right = of_ub (apply_binary_op f IrOp.sub left right)
binary_meaning f BinOp.mul left right = of_ub (apply_binary_op f IrOp.mul left right)
binary_meaning f BinOp.div left right = divided f IrOp.div left right
binary_meaning f BinOp.modulo left right = divided f IrOp.modulo left right
binary_meaning f BinOp.and left right = of_ub (apply_binary_op f IrOp.and left right)
binary_meaning f BinOp.or left right = of_ub (apply_binary_op f IrOp.or left right)
binary_meaning f BinOp.xor left right = of_ub (apply_binary_op f IrOp.xor left right)
binary_meaning f BinOp.shl left right = of_ub (apply_binary_op f IrOp.shl left right)
binary_meaning f BinOp.shr left right = of_ub (apply_binary_op f IrOp.shr left right)

abbrev pub unary_meaning : Floats → UnaryOp → RegValue → Outcome RegValue
unary_meaning f UnaryOp.neg operand = of_ub (unary_neg f operand)
unary_meaning f UnaryOp.not operand = ok (unary_not f operand)
unary_meaning f UnaryOp.bit_not operand = ok (unary_not f operand)

unfoldable pub meaning : Floats → Env → ExprNode → Outcome RegValue
meaning f env (const_expr value) = ok value
meaning f env (var_expr v) = value_in (env v.name)
meaning f env (bin_expr op left right) =
    meaning f env left >>= λ x. meaning f env right >>= λ y. binary_meaning f op x y
meaning f env (unary_expr op operand) = meaning f env operand >>= λ x. unary_meaning f op x

abbrev pub operand_expr : Operand → ExprNode
operand_expr (variable v) = var_expr v
operand_expr (literal value) = const_expr value

unfoldable pub condition_meaning : Floats → Env → Condition → Outcome Bool
condition_meaning f env condition = meaning f env (operand_expr condition.left_operand) >>= λ x.
    meaning f env (operand_expr condition.right_operand) >>= λ y.
    ok (apply_comparison f condition.comparison_kind x y)

abbrev pub condition_set : Env → Condition → Bool
condition_set env condition =
    all_set env (operand_expr condition.left_operand)
    && all_set env (operand_expr condition.right_operand)

-- A statement goes on with new values, or returns from the function.
pub data Signal : Type 0 where
  goes_on : Env → Signal
  returns : Option RegValue → Signal

abbrev pub updated : Env → String → RegValue → Env
updated env name value j = if str_eq name j then some value else env j

-- No result where fuel runs out, a variable without a value is read, or a function is called.
abbrev pub Run : Type 0
Run = Option (Outcome Signal)

abbrev pub then_run : Run → (Env → Run) → Run
then_run none next = none
then_run (some (ok (goes_on env))) next = next env
then_run (some (ok (returns value))) next = some (ok (returns value))
then_run (some (err e)) next = some (err e)
then_run (some undefined) next = some undefined

abbrev pub on_condition : Outcome Bool → (Bool → Run) → Run
on_condition (ok b) next = next b
on_condition (err e) next = some (err e)
on_condition undefined next = some undefined

abbrev pub if_set : Bool → Run → Run
if_set true r = r
if_set false r = none

unfoldable mutual
  pub exec_stmts : Floats → ℕ → Stmts → Env → Run
  exec_stmts f zero ss env = none
  exec_stmts f (suc n) nil env = some (ok (goes_on env))
  exec_stmts f (suc n) (cons s ss) env =
      then_run (exec_stmt f n s env) (λ env'. exec_stmts f n ss env')

  pub exec_stmt : Floats → ℕ → Stmt → Env → Run
  exec_stmt f zero s env = none
  exec_stmt f (suc n) (assign_stmt v e) env =
      if_set (all_set env e)
        (some (meaning f env e >>= λ value. ok (goes_on (updated env v.name value))))
  exec_stmt f (suc n) (while_stmt condition body) env = if_set (condition_set env condition) (
      on_condition (condition_meaning f env condition) (λ b. elim b [
        | true ↦
            then_run (exec_stmts f n body env)
              (λ env'. exec_stmt f n (while_stmt condition body) env')
        | false ↦ some (ok (goes_on env))
      ]))
  exec_stmt f (suc n) (if_stmt condition then_body else_body) env =
      if_set (condition_set env condition) (
        on_condition (condition_meaning f env condition) (λ b. elim b [
          | true ↦ exec_stmts f n then_body env
          | false ↦ exec_stmts f n else_body env
        ]))
  exec_stmt f (suc n) (return_stmt none) env = some (ok (returns none))
  exec_stmt f (suc n) (return_stmt (some e)) env =
      if_set (all_set env e) (some (meaning f env e >>= λ value. ok (returns (some value))))
  exec_stmt f (suc n) (call_stmt callee arguments) env = none
