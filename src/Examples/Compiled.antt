-- ===== src/Examples/Compiled.antt =====
-- The theorems on the code that src/ir/Lowering.cpp emits, at concrete inputs.
use text.Mathlib.TextEquality.{eq_iff}
use asm_studio.Prelude.{◌≡◌, refl, sym, ◌∙◌, none, some, [], ◌∷◌, arith, String}
use asm_studio.Prelude.Int.{pos}
use asm_studio.Support.Types.{DataType, BinOp, CmpKind}
use asm_studio.Ir.{int64}
use asm_studio.Dsl.Syntax.{
  ExprNode, Stmts, variable, literal, const_expr, var_expr, bin_expr, nil, cons, assign_stmt,
  while_stmt, return_stmt,
}
use asm_studio.Sim.Ops.{
  apply_comparison, visit_compare, to_common, compare_int64, apply_binary_op, visit_binary,
  int64_binary, cast_int64,
}
use asm_studio.Machine.Words.{int64_add}
use asm_studio.Prelude.Int.{◌+ℤ◌}
use asm_studio.Dsl.Meaning.{meaning, condition_meaning, exec_stmts, updated, returns}
use asm_studio.Sim.State.{ok}
use asm_studio.Lowering.Context.{
  LoweringContext, lookup_name, alloc_block, alloc_value, set_variable,
}
use asm_studio.Lowering.Expr.{lower_expression}
use asm_studio.Lowering.Stmt.{lower_statements}
use asm_studio.Lowering.Function.{initial_context}
use asm_studio.Lowering.Invariant.{IsWellFormed, Returns, alloc_value-Returns}
use asm_studio.Lowering.Operations.{alloc_block-Returns, set_variable-Returns}
use asm_studio.Lowering.WellFormed.{initial_context-IsWellFormed}
use asm_studio.Lowering.ExprMeaning.{Computes, lower_expression-Computes}
use asm_studio.Lowering.Performs.{Performs, Distinct}
use asm_studio.Lowering.Refines.{lower_statements-Performs}
use asm_studio.Sim.State.{
  FunctionCache, find_block, find_function_cache, initial_frame, make_simulator, reset,
}
use asm_studio.Sim.Step.{with_stack}
use asm_studio.Lowering.Walks.{walk}
use asm_studio.Lowering.Steps.{Follows, steps, walk-steps}
use asm_studio.Prelude.{ℕ, false, ◌≤◌, ◌==◌, zero, suc, get_elem?}
use asm_studio.Dsl.Builder.{statements}
use asm_studio.Lowering.Function.{lower_function}
use asm_studio.Dsl.Start.{with_inits, reads_set, is_set_first}
use asm_studio.Lowering.Endings.{RunEnds}
use asm_studio.Lowering.WellFormed.{LowersTo}
use asm_studio.Dsl.Start.{first_env}
use asm_studio.Lowering.Compiles.{Finishes, lower_function-RunEnds}
use asm_studio.Examples.Samples.{
  no_floats, plain_label, index, branching, branching_module, sum_function,
}

abbrev with_entry : LoweringContext
with_entry = record (initial_context "count") {
  function = record ((initial_context "count").function) {
    blocks = record { name = "entry"; id = 0; instrs = [] } ∷ [];
  };
  next_block = 1;
  block_index = (0, 0) ∷ [];
}

abbrev with_value : LoweringContext
with_value = record with_entry {
  function = record (with_entry.function) {
    values = record { type = DataType.int32; constant = none } ∷ [];
  };
  next_value = 1;
}

-- An entry block, and a slot for one variable.
abbrev with_slot : LoweringContext
with_slot = record with_value { variable_table = ("i", 0) ∷ [] }

with_entry-IsWellFormed : IsWellFormed with_entry
unfolding alloc_block
with_entry-IsWellFormed =
    (alloc_block-Returns (initial_context "count") (initial_context-IsWellFormed "count") "entry").0

with_value-IsWellFormed : IsWellFormed with_value
unfolding alloc_value
with_value-IsWellFormed =
    (alloc_value-Returns with_entry with_entry-IsWellFormed DataType.int32 none).0

with_slot-IsWellFormed : IsWellFormed with_slot
unfolding set_variable
with_slot-IsWellFormed =
    (set_variable-Returns with_value with_value-IsWellFormed "i" 0 (omega arith) refl).0

one_slot-Distinct : Distinct (("i", 0) ∷ [])
one_slot-Distinct name name' id h k = same name h ∙ sym (same name' k)
  where
    same : (n : String) → lookup_name n (("i", 0) ∷ []) ≡ some id → n ≡ "i"
    same n h = ground (arith, eq_iff "i" n, h)

abbrev sum_expression : ExprNode
sum_expression = bin_expr BinOp.add (var_expr index) (const_expr (int64 (pos 1)))

-- i goes up to 3 and is returned.
abbrev counting : Stmts
counting =
    cons
      (while_stmt
        (record {
          left_operand = variable index;
          comparison_kind = CmpKind.lt;
          right_operand = literal (int64 (pos 3));
        })
        (cons (assign_stmt index sum_expression) nil))
      (cons (return_stmt (some (var_expr index))) nil)

lower_expression-Computes_example :
    Returns with_slot
      (Computes no_floats sum_expression 0 with_slot)
      (lower_expression 0 sum_expression with_slot)
lower_expression-Computes_example =
    lower_expression-Computes no_floats 0 with_slot sum_expression with_slot-IsWellFormed
      (omega arith) refl

lower_statements-Performs_example :
    Returns with_slot
      (Performs no_floats (λ n env. exec_stmts no_floats n counting env) 0 with_slot)
      (lower_statements plain_label counting 0 with_slot)
lower_statements-Performs_example =
    lower_statements-Performs no_floats plain_label with_slot 0 counting with_slot-IsWellFormed
      (omega arith) one_slot-Distinct refl

counting_test :
    exec_stmts no_floats 20 counting (updated (λ name. none) "i" (int64 (pos 0)))
    ≡ some (ok (returns (some (int64 (pos 3)))))
unfolding exec_stmts condition_meaning meaning apply_comparison visit_compare to_common
    compare_int64 apply_binary_op visit_binary int64_binary int64_add ◌+ℤ◌ cast_int64
counting_test = refl

abbrev branching_cache : FunctionCache
branching_cache = record { function = branching; block_index_by_id = (2, 2) ∷ (1, 1) ∷ (0, 0) ∷ [] }

branching_blocks : (n : ℕ) → find_block branching_cache n ≡ get_elem? branching.blocks n
unfolding find_block
branching_blocks zero = refl
branching_blocks (suc zero) = refl
branching_blocks (suc (suc zero)) = refl
branching_blocks (suc (suc (suc n))) =
    let past : (id : ℕ) → id ≤ 2 → (id == suc (suc (suc n))) ≡ false = λ id h. ground (arith, h) in
    rw (past 2 (omega arith), past 1 (omega arith), past 0 (omega arith)) refl

-- A constant, a sum and a branch.
walk-steps_example :
    Follows
      (record reset { done = false })
      []
      (walk no_floats branching 3 (initial_frame branching))
      (steps no_floats
        (make_simulator branching_module 1000 64)
        3
        (with_stack (record reset { done = false }) (initial_frame branching ∷ [])))
unfolding make_simulator find_function_cache initial_frame
walk-steps_example =
    walk-steps no_floats (make_simulator branching_module 1000 64) branching_cache []
      branching_blocks (omega arith) 3 (record reset { done = false }) (initial_frame branching)
      refl refl

-- The function of the README, whose sum is 45.
pub sum_function_test :
    exec_stmts no_floats 20 (statements sum_function) (first_env sum_function)
    ≡ some (ok (returns (some (int64 (pos 45)))))
unfolding exec_stmts condition_meaning meaning apply_comparison visit_compare to_common
    compare_int64 apply_binary_op visit_binary int64_binary int64_add ◌+ℤ◌ cast_int64 statements
    with_inits
sum_function_test = refl

lower_function-RunEnds_example :
    LowersTo
      (λ g.
        (n : ℕ)
        → RunEnds no_floats g
            (initial_frame g)
            (exec_stmts no_floats n (statements sum_function) (first_env sum_function))
            (Finishes g))
      (lower_function plain_label sum_function)
unfolding statements reads_set is_set_first
lower_function-RunEnds_example = lower_function-RunEnds no_floats plain_label sum_function refl refl
