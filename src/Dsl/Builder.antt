-- ===== src/Dsl/Builder.antt =====
-- include/asmstudio/dsl/Function.hpp and src/dsl/Function.cpp: building a function. The member
-- `m_currentBody` refers to the statement list that is open, so the model keeps the open lists as a
-- stack whose bottom is `m_stmts`; a body passed as a callback is a function on the builder.
use asm_studio.Prelude.{ℕ, String, Option, List, [], ◌∷◌, ◌++◌, Bool}
use asm_studio.Prelude.Int.{ℤ}
use asm_studio.Support.Types.{DataType}
use asm_studio.Ir.{RegValue, int64, uint64, double, bool}
use asm_studio.Dsl.Syntax.{
  Variable, Condition, ExprNode, Stmt, Stmts, nil, cons, assign_stmt, while_stmt, if_stmt,
  return_stmt, call_stmt,
}

pub record Function : Type 0 where
  pub name : String
  pub vars : List Variable
  pub current_body : Stmts
  pub outer_bodies : List Stmts

-- `Function::Function`
unfoldable pub make_function : String → Function
make_function name = record { name = name; vars = []; current_body = nil; outer_bodies = [] }

unfoldable pub make_var : Function → String → DataType → RegValue → Function × Variable
make_var function name type initial =
    let v : Variable = record { name = name; type = type; init = initial } in
    (record function { vars = function.vars ++ v ∷ [] }, v)

unfoldable pub create_int8 : Function → String → ℤ → Function × Variable
create_int8 function name initial = make_var function name DataType.int8 (int64 initial)

unfoldable pub create_int16 : Function → String → ℤ → Function × Variable
create_int16 function name initial = make_var function name DataType.int16 (int64 initial)

unfoldable pub create_int : Function → String → ℤ → Function × Variable
create_int function name initial = make_var function name DataType.int32 (int64 initial)

unfoldable pub create_int64 : Function → String → ℤ → Function × Variable
create_int64 function name initial = make_var function name DataType.int64 (int64 initial)

unfoldable pub create_uint32 : Function → String → ℕ → Function × Variable
create_uint32 function name initial = make_var function name DataType.uint32 (uint64 initial)

unfoldable pub create_uint64 : Function → String → ℕ → Function × Variable
create_uint64 function name initial = make_var function name DataType.uint64 (uint64 initial)

-- `widen` is the conversion of a float to a double, of which the builder keeps the pattern.
unfoldable pub create_float : (ℕ → ℕ) → Function → String → ℕ → Function × Variable
create_float widen function name initial =
    make_var function name DataType.float32 (double (widen initial))

unfoldable pub create_double : Function → String → ℕ → Function × Variable
create_double function name initial = make_var function name DataType.float64 (double initial)

unfoldable pub create_bool : Function → String → Bool → Function × Variable
create_bool function name initial = make_var function name DataType.bool (bool initial)

unfoldable pub create_ptr : Function → String → ℕ → Function × Variable
create_ptr function name initial = make_var function name DataType.ptr (uint64 initial)

abbrev pub snoc : Stmts → Stmt → Stmts
snoc nil s = cons s nil
snoc (cons t ts) s = cons t (snoc ts s)

unfoldable pub push_stmt : Function → Stmt → Function
push_stmt function s = record function { current_body = snoc function.current_body s }

unfoldable pub assign : Function → Variable → ExprNode → Function
assign function target value = push_stmt function (assign_stmt target value)

unfoldable pub ret : Function → Option ExprNode → Function
ret function value = push_stmt function (return_stmt value)

unfoldable pub call : Function → String → List ExprNode → Function
call function callee arguments = push_stmt function (call_stmt callee arguments)

-- A fresh body is opened, and the one before it is kept.
abbrev pub open_body : Function → Function
open_body function = record function {
  current_body = nil;
  outer_bodies = function.current_body ∷ function.outer_bodies;
}

-- Back to the body that was open before, if the callback left it there.
abbrev pub close_body : List Stmts → Function → Function
close_body [] function = function
close_body (body ∷ bodies) function = record function { current_body = body; outer_bodies = bodies }

unfoldable pub while_loop : Function → Condition → (Function → Function) → Function
while_loop function condition body =
    let filled : Function = body (open_body function) in
    push_stmt (close_body filled.outer_bodies filled) (while_stmt condition filled.current_body)

unfoldable pub if_else :
    Function → Condition → (Function → Function) → (Function → Function) → Function
if_else function condition then_body else_body =
    let filled : Function = then_body (open_body function) in
    let closed : Function = close_body filled.outer_bodies filled in
    let filled' : Function = else_body (open_body closed) in
    push_stmt (close_body filled'.outer_bodies filled')
      (if_stmt condition filled.current_body filled'.current_body)

unfoldable pub if_only : Function → Condition → (Function → Function) → Function
if_only function condition then_body = if_else function condition then_body (λ f. f)

-- The statement list of a finished function.
unfoldable pub statements : Function → Stmts
statements function = function.current_body
