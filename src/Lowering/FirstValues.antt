-- ===== src/Lowering/FirstValues.antt =====
-- The values that the declarations of src/ir/Lowering.cpp leave, and those that the variables are
-- declared with: they differ where nothing is read.
use mathlib.Core.Path.{fun_ext}
use text.Mathlib.TextEquality.{eq_iff}
use asm_studio.Prelude.{
  ℕ, zero, suc, ◌≡◌, ◌⊎◌, inl, inr, refl, sym, ap, ◌∙◌, Bool, true, false, not, ◌||◌, Option, none,
  some, List, [], ◌∷◌, String, str_eq, arith, if◌then◌else◌, Bool-cases,
}
use asm_studio.Machine.Floats.{Floats}
use asm_studio.Ir.{RegValue}
use asm_studio.Dsl.Syntax.{
  Variable, ExprNode, const_expr, var_expr, bin_expr, unary_expr, Stmts, nil, cons, assign_stmt,
  while_stmt, if_stmt, return_stmt, call_stmt,
}
use asm_studio.Dsl.Builder.{Function, statements}
use asm_studio.Dsl.Meaning.{
  Env, all_set, meaning, updated, exec_stmts, goes_on, then_run, if_set, Run,
}
use asm_studio.Dsl.Start.{
  no_values, with_inits, first_env, is_set_first, reads_only, is_among, reads_set,
}
use asm_studio.Sim.State.{Outcome, ok, err, undefined, ◌>>=◌}
use asm_studio.Lowering.Function.{immediately_assigned_variables, contains_name}
use asm_studio.Lowering.NamedSlots.{with_variable}
use asm_studio.Lowering.Declared.{declared_env}

-- The names that lowering looks for are those of the assignments at the start.
contains_name-is_set_first :
    (ss : Stmts) (name : String)
    → contains_name name (immediately_assigned_variables ss) ≡ is_set_first ss name
unfolding immediately_assigned_variables is_set_first
contains_name-is_set_first nil name = refl
contains_name-is_set_first (cons (assign_stmt target value) rest) name =
    ap (λ b. str_eq target.name name || b) (contains_name-is_set_first rest name)
contains_name-is_set_first (cons (while_stmt condition body) rest) name = refl
contains_name-is_set_first (cons (if_stmt condition then_body else_body) rest) name = refl
contains_name-is_set_first (cons (return_stmt value) rest) name = refl
contains_name-is_set_first (cons (call_stmt callee arguments) rest) name = refl

-- The declarations leave the value that a variable is declared with, or it is one of the assigned.
declared_env-with_inits :
    (assigned : List String) (vars : List Variable) (env env' : Env) (name : String)
    → (env' name ≡ env name) ⊎ (contains_name name assigned ≡ true)
    → (declared_env assigned vars env' name ≡ with_inits vars env name)
      ⊎ (contains_name name assigned ≡ true)
unfolding declared_env with_inits
declared_env-with_inits assigned [] env env' name h = h
declared_env-with_inits assigned (v ∷ vars) env env' name h =
    declared_env-with_inits assigned vars _ _ name (next (Bool-cases (str_eq v.name name)))
  where
    value : Option RegValue
    value = if contains_name v.name assigned then none else some v.init

    next :
        (str_eq v.name name ≡ true) ⊎ (str_eq v.name name ≡ false)
        → (with_variable env' v.name value name ≡ updated env v.name v.init name)
          ⊎ (contains_name name assigned ≡ true)
    next (inr e) = rw e h
    next (inl e) = elim (Bool-cases (contains_name v.name assigned)) [
      | inl c ↦ inr (ap (λ x. contains_name x assigned) (sym ((eq_iff v.name name).0 e)) ∙ c)
      | inr c ↦ inl (rw (e, c) refl)
    ]

module _ (p : String → Bool) (env env' : Env)
    (same : (name : String) → p name ≡ true → env' name ≡ env name) where
  all_set-same : (e : ExprNode) → reads_only p e ≡ true → all_set env' e ≡ all_set env e
  all_set-same (const_expr value) h = refl
  all_set-same (var_expr v) h = rw (same v.name h) refl
  all_set-same (bin_expr op left right) h =
      let l : reads_only p left ≡ true = ground (arith, h) in
      let r : reads_only p right ≡ true = ground (arith, h) in
      rw (all_set-same left l, all_set-same right r) refl
  all_set-same (unary_expr op operand) h = all_set-same operand h

  meaning-same :
      (f : Floats) (e : ExprNode) → reads_only p e ≡ true → meaning f env' e ≡ meaning f env e
  unfolding meaning
  meaning-same f (const_expr value) h = refl
  meaning-same f (var_expr v) h = rw (same v.name h) refl
  meaning-same f (bin_expr op left right) h =
      let l : reads_only p left ≡ true = ground (arith, h) in
      let r : reads_only p right ≡ true = ground (arith, h) in
      rw (meaning-same f left l, meaning-same f right r) refl
  meaning-same f (unary_expr op operand) h = rw (meaning-same f operand h) refl

-- Values that differ only in variables that the statements assign to before they read them.
abbrev IsAlike : List String → Stmts → Env → Env → Type 0
IsAlike assigned ss env env' =
    (name : String)
    → (env' name ≡ env name) ⊎ ((is_among name assigned ≡ false) × (is_set_first ss name ≡ true))

IsAlike-same :
    (assigned : List String) (ss : Stmts) (env env' : Env)
    → ((name : String) → is_set_first ss name ≡ false)
    → IsAlike assigned ss env env'
    → env' ≡ env
IsAlike-same assigned ss env env' none_set h = fun_ext λ name. go name (h name)
  where
    go :
        (name : String)
        → (env' name ≡ env name)
          ⊎ ((is_among name assigned ≡ false) × (is_set_first ss name ≡ true))
        → env' name ≡ env name
    go name (inl e) = e
    go name (inr (a, b)) = let clash : true ≡ false = sym b ∙ none_set name in cc

-- What is read is not among the variables that get their first value later.
IsAlike-reads :
    (assigned : List String) (ss : Stmts) (env env' : Env) (name : String)
    → IsAlike assigned ss env env'
    → (is_among name assigned || not (is_set_first ss name)) ≡ true
    → env' name ≡ env name
IsAlike-reads assigned ss env env' name h k = elim (h name) [
  | inl e ↦ e
  | inr (a, b) ↦ let clash : (false || not true) ≡ true = (rw (a, b) at k) in cc
]

IsAlike-assign :
    (assigned : List String) (v : Variable) (e : ExprNode) (ss : Stmts) (env env' : Env)
    (value : RegValue)
    → IsAlike assigned (cons (assign_stmt v e) ss) env env'
    → IsAlike (v.name ∷ assigned) ss (updated env v.name value) (updated env' v.name value)
unfolding is_set_first
IsAlike-assign assigned v e ss env env' value h name = elim (Bool-cases (str_eq v.name name)) [
  | inl q ↦ inl (rw q refl)
  | inr q ↦ elim (h name) [ inl p ↦ inl (rw q p) | inr (a, b) ↦ inr ((rw q a), rw q at b) ]
]

-- Statements that read no such variable too early do the same with either values.
exec_stmts-IsAlike :
    (f : Floats) (n : ℕ) (assigned : List String) (ss : Stmts) (env env' : Env)
    → reads_set assigned ss ≡ true
    → IsAlike assigned ss env env'
    → exec_stmts f n ss env' ≡ exec_stmts f n ss env
unfolding exec_stmts reads_set is_set_first
exec_stmts-IsAlike f n assigned nil env env' r h =
    ap (exec_stmts f n nil) (IsAlike-same assigned nil env env' (λ name. refl) h)
exec_stmts-IsAlike f zero assigned (cons (assign_stmt v e) ss) env env' r h = refl
exec_stmts-IsAlike f (suc zero) assigned (cons (assign_stmt v e) ss) env env' r h = refl
exec_stmts-IsAlike f (suc (suc n)) assigned (cons (assign_stmt v e) ss) env env' r h =
    rw (all_set-same p env env' same e reads, meaning-same p env env' same f e reads)
      (go
        (λ value.
          exec_stmts-IsAlike f (suc n) (v.name ∷ assigned) ss _ _ (reads_set_rest r)
            (IsAlike-assign assigned v e ss env env' value h))
        (all_set env e) (meaning f env e))
  where
    p : String → Bool
    p name = is_among name assigned || not (is_set_first (cons (assign_stmt v e) ss) name)

    same : (name : String) → p name ≡ true → env' name ≡ env name
    same name k = IsAlike-reads assigned (cons (assign_stmt v e) ss) env env' name h k

    reads : reads_only p e ≡ true
    reads = ground (arith, r)

    reads_set_rest :
        reads_set assigned (cons (assign_stmt v e) ss) ≡ true
        → reads_set (v.name ∷ assigned) ss ≡ true
    reads_set_rest k = ground (arith, k)

    assigned_to : Env → Bool → Outcome RegValue → Run
    assigned_to first b o =
        then_run (if_set b (some (o >>= λ value. ok (goes_on (updated first v.name value)))))
          (λ later. exec_stmts f (suc n) ss later)

    go :
        ((value : RegValue)
          → exec_stmts f (suc n) ss (updated env' v.name value)
            ≡ exec_stmts f (suc n) ss (updated env v.name value))
        → (b : Bool) (o : Outcome RegValue) → assigned_to env' b o ≡ assigned_to env b o
    go ih false o = refl
    go ih true (ok value) = ih value
    go ih true (err x) = refl
    go ih true undefined = refl
exec_stmts-IsAlike f n assigned (cons s ss) env env' r h =
    ap (exec_stmts f n (cons s ss)) (IsAlike-same assigned (cons s ss) env env' (λ name. refl) h)

-- Where no variable is read too early, statements do the same with the values after lowering's
-- declarations and with the values that the variables are declared with.
pub declared_env-first_env :
    (f : Floats) (n : ℕ) (function : Function)
    → reads_set [] (statements function) ≡ true
    → exec_stmts f n (statements function) (
        declared_env (immediately_assigned_variables (statements function)) function.vars no_values)
      ≡ exec_stmts f n (statements function) (first_env function)
declared_env-first_env f n function r =
    exec_stmts-IsAlike f n [] (statements function) _ _ r λ name. alike name (
      declared_env-with_inits (immediately_assigned_variables (statements function)) function.vars
        no_values no_values name (inl refl))
  where
    alike :
        (name : String)
        → (declared_env
              (immediately_assigned_variables (statements function))
              function.vars
              no_values
              name
            ≡ first_env function name)
          ⊎ (contains_name name (immediately_assigned_variables (statements function)) ≡ true)
        → (declared_env
              (immediately_assigned_variables (statements function))
              function.vars
              no_values
              name
            ≡ first_env function name)
          ⊎ ((false ≡ false) × (is_set_first (statements function) name ≡ true))
    alike name (inl e) = inl e
    alike name (inr e) = inr (refl, sym (contains_name-is_set_first (statements function) name) ∙ e)
