-- ===== src/Dsl/Start.antt =====
-- The values with which the statements of a function of include/asmstudio/dsl start: those that its
-- variables are declared with.
use asm_studio.Prelude.{
  Bool, true, false, not, ◌&&◌, ◌||◌, none, List, [], ◌∷◌, String, str_eq, any,
}
use asm_studio.Dsl.Syntax.{
  Variable, ExprNode, const_expr, var_expr, bin_expr, unary_expr, Stmts, cons, assign_stmt,
}
use asm_studio.Dsl.Builder.{Function}
use asm_studio.Dsl.Meaning.{Env, updated}

-- No variable has a value.
abbrev pub no_values : Env
no_values name = none

-- Each variable in turn has the value that it is declared with.
unfoldable pub with_inits : List Variable → Env → Env
with_inits [] env = env
with_inits (v ∷ vars) env = with_inits vars (updated env v.name v.init)

abbrev pub first_env : Function → Env
first_env function = with_inits function.vars no_values

-- One of the assignments that the statements begin with is to the name.
unfoldable pub is_set_first : Stmts → String → Bool
is_set_first (cons (assign_stmt target value) rest) name =
    str_eq target.name name || is_set_first rest name
is_set_first _ name = false

-- The expression reads only names of a kind.
abbrev pub reads_only : (String → Bool) → ExprNode → Bool
reads_only p (const_expr value) = true
reads_only p (var_expr v) = p v.name
reads_only p (bin_expr op left right) = reads_only p left && reads_only p right
reads_only p (unary_expr op operand) = reads_only p operand

abbrev pub is_among : String → List String → Bool
is_among name names = any (λ n. str_eq n name) names

-- None of the assignments that the statements begin with reads a variable that is assigned to by
-- itself or a later one of them and by none before it; `assigned` are the names that were.
unfoldable pub reads_set : List String → Stmts → Bool
reads_set assigned (cons (assign_stmt target value) rest) =
    reads_only
      (λ name.
        is_among name assigned || not (is_set_first (cons (assign_stmt target value) rest) name))
      value
    && reads_set (target.name ∷ assigned) rest
reads_set assigned _ = true
