-- ===== src/Sim/Step.antt =====
-- src/sim/Simulator.cpp: `handleCallOp`, `handleRetOp` and `stepOne`. The new simulator comes with
-- the result, since a step that fails has changed the program counter.
use asm_studio.Prelude.{
  ℕ, ◌+◌, Bool, true, false, not, String, Option, none, some, List, [], ◌∷◌, ltb, if◌then◌else◌,
  length, get_elem?, is_empty,
}
use asm_studio.Machine.Floats.{Floats}
use asm_studio.Ir.{IrOp, IrInstr, IrFunction, IrBlock, RegValue}
use asm_studio.Sim.State.{
  Outcome, ok, err, undefined, SimError, SimFrame, FunctionCache, Setup, Simulator,
  find_function_cache, find_block, initial_frame, read_value,
}
use asm_studio.Sim.Handlers.{
  handle_const_op, handle_copy_op, handle_binary_op, handle_unary_op, handle_cmp_op, handle_jump_op,
  handle_branch_op,
}

abbrev pub Stepped : Type 0
Stepped = Simulator × Outcome Bool

abbrev pub with_stack : Simulator → List SimFrame → Simulator
with_stack s frames = record s { state = record { call_stack = frames } }

-- The callee's frame goes on top; the caller's, below it, has the next `pc`.
abbrev pub enter : Simulator → Option FunctionCache → Stepped
enter s none = (s, err SimError.unknown_function)
enter s (some cache) =
    (with_stack s (initial_frame cache.function ∷ s.state.call_stack), ok (not s.done))

abbrev pub call_named : Setup → Simulator → Option String → Stepped
call_named c s none = (s, ok (not s.done))
call_named c s (some callee) = enter s (find_function_cache c callee)

unfoldable pub handle_call_op : Setup → Simulator → IrInstr → Stepped
handle_call_op c s i = call_named c s i.callee

-- A value that cannot be read is not recorded, and is no error.
abbrev pub record_result : List RegValue → Outcome RegValue → List RegValue
record_result trace (ok value) = value ∷ trace
record_result trace (err e) = trace
record_result trace undefined = trace

abbrev pub returned : SimFrame → IrFunction → List ℕ → List RegValue → List RegValue
returned frame function [] trace = trace
returned frame function (input ∷ inputs) trace =
    record_result trace (read_value frame function input)

unfoldable pub handle_ret_op : Simulator → SimFrame → List SimFrame → IrInstr → IrFunction → Stepped
handle_ret_op s frame rest i function =
    let done' : Bool = if is_empty rest then true else s.done in
    (
      record s {
        state = record { call_stack = rest };
        trace = returned frame function i.inputs s.trace;
        done = done';
      },
      ok (not done'),
    )

-- The result of a handler of the top frame; `return !m_done`.
abbrev pub resume : Simulator → SimFrame → List SimFrame → Outcome SimFrame → Stepped
resume s frame rest (ok frame') = (with_stack s (frame' ∷ rest), ok (not s.done))
resume s frame rest (err e) = (with_stack s (frame ∷ rest), err e)
resume s frame rest undefined = (with_stack s (frame ∷ rest), undefined)

-- The `switch` of `stepOne`; `frame` has its program counter moved on already.
unfoldable pub dispatch :
    Floats → Setup → Simulator → SimFrame → List SimFrame → IrFunction → IrInstr → IrOp → Stepped
dispatch f c s frame rest function i IrOp.const = resume s frame rest (handle_const_op frame i)
dispatch f c s frame rest function i IrOp.copy =
    resume s frame rest (handle_copy_op frame i function)
dispatch f c s frame rest function i IrOp.neg =
    resume s frame rest (handle_unary_op f frame i function)
dispatch f c s frame rest function i IrOp.not =
    resume s frame rest (handle_unary_op f frame i function)
dispatch f c s frame rest function i IrOp.cmp =
    resume s frame rest (handle_cmp_op f frame i function)
dispatch f c s frame rest function i IrOp.jmp = resume s frame rest (handle_jump_op frame i)
dispatch f c s frame rest function i IrOp.br_true =
    resume s frame rest (handle_branch_op f frame i function)
dispatch f c s frame rest function i IrOp.call = handle_call_op c (with_stack s (frame ∷ rest)) i
dispatch f c s frame rest function i IrOp.ret = handle_ret_op s frame rest i function
dispatch f c s frame rest function i IrOp.load = resume s frame rest (ok frame)
dispatch f c s frame rest function i IrOp.store = resume s frame rest (ok frame)
dispatch f c s frame rest function i _ = resume s frame rest (handle_binary_op f frame i function)

-- Block ended without a terminator: an implicit return. The last frame stays on the stack.
unfoldable pub implicit_return : Simulator → SimFrame → List SimFrame → Stepped
implicit_return s frame [] = (record s { done = true }, ok false)
implicit_return s frame (caller ∷ rest) =
    (record s { state = record { call_stack = caller ∷ rest }; done = false }, ok true)

unfoldable pub step_instr :
    Floats → Setup → Simulator → SimFrame → List SimFrame → IrFunction → Option IrInstr → Stepped
step_instr f c s frame rest function none = implicit_return s frame rest
step_instr f c s frame rest function (some i) =
    dispatch f c s (record frame { pc = frame.pc + 1 }) rest function i i.op

unfoldable pub step_block :
    Floats → Setup → Simulator → SimFrame → List SimFrame → IrFunction → Option IrBlock → Stepped
step_block f c s frame rest function none = (s, err SimError.unreachable_instruction)
step_block f c s frame rest function (some block) =
    step_instr f c s frame rest function (get_elem? block.instrs frame.pc)

unfoldable pub step_function :
    Floats → Setup → Simulator → SimFrame → List SimFrame → Option FunctionCache → Stepped
step_function f c s frame rest none = (s, err SimError.unknown_function)
step_function f c s frame rest (some cache) =
    step_block f c s frame rest cache.function (find_block cache frame.block)

unfoldable pub step_stack : Floats → Setup → Simulator → List SimFrame → Stepped
step_stack f c s [] = (record s { done = true }, ok false)
step_stack f c s (frame ∷ rest) =
    if ltb c.max_call_depth (length (frame ∷ rest))
    then (s, err SimError.stack_overflow)
    else step_function f c s frame rest (find_function_cache c frame.function_name)

unfoldable pub step_one : Floats → Setup → Simulator → Stepped
step_one f c s = step_stack f c s s.state.call_stack
