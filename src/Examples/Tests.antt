-- ===== src/Examples/Tests.antt =====
-- Runs of small programs whose answers come as a surprise.
use asm_studio.Prelude.{◌≡◌, refl, some, [], ◌∷◌}
use asm_studio.Prelude.Int.{pos}
use asm_studio.Ir.{int64, IrModule, rebuild_block_index}
use asm_studio.Sim.State.{ok, make_simulator, reset}
use asm_studio.Sim.Run.{run}
use asm_studio.Dsl.Builder.{Function, statements}
use asm_studio.Lowering.Function.{lower}
use mathlib.Core.Option.{map as map_option}
use asm_studio.Prelude.{none, Option}
use asm_studio.Ir.{RegValue}
use asm_studio.Sim.State.{Outcome, err, SimError}
use asm_studio.Sim.Run.{Ran}
use asm_studio.Support.Types.{BinOp}
use asm_studio.Lowering.Context.{Lowered, ok}
use asm_studio.Dsl.Syntax.{
  var_expr, const_expr, bin_expr, nil, cons, assign_stmt, return_stmt, call_stmt,
}
use asm_studio.Examples.Samples.{index}
use asm_studio.Lowering.Function.{
  lower_function, lower_body, declare_variables, immediately_assigned_variables, declare_slot,
  declare_initialised,
}
use asm_studio.Lowering.Context.{
  alloc_block, alloc_value, set_variable, emit, lookup_variable, type_at,
}
use asm_studio.Lowering.Stmt.{
  lower_statements, lower_assign_statement, lower_return_statement, lower_call_statement,
  lower_arguments,
}
use asm_studio.Lowering.Expr.{
  lower_expression, lower_variable_expression, lower_constant_expression, emit_operator,
  bin_op_to_ir_op, data_type_from_constant,
}
use asm_studio.Ir.{entry_block}
use asm_studio.Sim.State.{find_function_cache, initial_frame, find_block, read_value, write_value}
use asm_studio.Sim.Run.{run_loop, remember, after_step}
use asm_studio.Sim.Step.{
  step_one, step_stack, step_function, step_block, step_instr, dispatch, handle_call_op,
  handle_ret_op, implicit_return,
}
use asm_studio.Sim.Handlers.{handle_const_op, handle_copy_op, handle_binary_op}
use asm_studio.Sim.Ops.{ir_constant_to_reg_value}
use asm_studio.Examples.Samples.{no_floats, plain_label, sum_function}

-- i = i + 1 as the first statement: the slot of i is read before it is written.
abbrev incremented : Function
incremented = record sum_function {
  current_body =
      cons (assign_stmt index (bin_expr BinOp.add (var_expr index) (const_expr (int64 (pos 1)))))
        (cons (return_stmt (some (var_expr index))) nil);
}

abbrev answer_of : Lowered IrModule → Option (Outcome (Option RegValue))
answer_of (ok m) =
    map_option (λ (r : Ran). r.1) (run no_floats (make_simulator m 100 64) 102 reset "sum")
answer_of r = none

incremented_test :
    answer_of (lower plain_label "demo" (incremented ∷ [])) ≡ some (err SimError.type_mismatch)
unfolding lower statements rebuild_block_index run make_simulator reset lower_function lower_body
    declare_variables immediately_assigned_variables declare_slot declare_initialised alloc_block
    alloc_value set_variable emit lookup_variable type_at lower_statements lower_assign_statement
    lower_return_statement lower_expression lower_variable_expression lower_constant_expression
    emit_operator bin_op_to_ir_op data_type_from_constant entry_block find_function_cache
    initial_frame find_block read_value write_value run_loop remember after_step step_one step_stack
    step_function step_block step_instr dispatch handle_const_op handle_copy_op handle_binary_op
incremented_test = refl

abbrev seven : Function
seven = record sum_function {
  name = "seven";
  vars = [];
  current_body = cons (return_stmt (some (const_expr (int64 (pos 7))))) nil;
}

-- It returns nothing itself.
abbrev caller : Function
caller = record sum_function { vars = []; current_body = cons (call_stmt "seven" []) nil }

caller_test :
    answer_of (lower plain_label "demo" (caller ∷ seven ∷ [])) ≡ some (ok (some (int64 (pos 7))))
unfolding lower statements rebuild_block_index run make_simulator reset lower_function lower_body
    declare_variables immediately_assigned_variables declare_slot declare_initialised alloc_block
    alloc_value set_variable emit lookup_variable type_at lower_statements lower_assign_statement
    lower_return_statement lower_expression lower_variable_expression lower_constant_expression
    emit_operator bin_op_to_ir_op data_type_from_constant entry_block find_function_cache
    initial_frame find_block read_value write_value run_loop remember after_step step_one step_stack
    step_function step_block step_instr dispatch handle_const_op handle_copy_op handle_binary_op
    lower_call_statement lower_arguments handle_call_op handle_ret_op implicit_return
    ir_constant_to_reg_value
caller_test = refl
