-- ===== src/Sim/Handlers.antt =====
-- src/sim/Simulator.cpp, the handlers of `stepOne` that change the top frame alone. Each yields the
-- new frame; an error leaves the frame as it was.
use asm_studio.Prelude.{ℕ, Bool, true, false, Option, none, some, List, [], ◌∷◌, if◌then◌else◌}
use asm_studio.Support.Types.{CmpKind}
use asm_studio.Machine.Ub.{Ub, defined}
use asm_studio.Machine.Floats.{Floats}
use asm_studio.Ir.{IrOp, IrInstr, IrFunction, RegValue, bool, IrConstant}
use asm_studio.Sim.Ops.{
  apply_binary_op, apply_comparison, is_division_by_zero, ir_constant_to_reg_value, unary_neg,
  unary_not, is_taken,
}
use asm_studio.Sim.State.{
  Outcome, ok, err, undefined, ◌>>=◌, SimError, SimFrame, read_value, write_value,
}

-- A result without defined behaviour is passed on as such.
abbrev pub of_ub {ℓ} : {A : Type ℓ} → Ub A → Outcome A
of_ub (defined a) = ok a
of_ub Ub.undefined = undefined

abbrev pub write_constant : SimFrame → Option ℕ → Option IrConstant → SimFrame
write_constant frame (some output) (some c) = write_value frame output (ir_constant_to_reg_value c)
write_constant frame (some output) none = frame
write_constant frame none c = frame

unfoldable pub handle_const_op : SimFrame → IrInstr → Outcome SimFrame
handle_const_op frame i = ok (write_constant frame i.output i.const_val)

-- The guards on the number of inputs and on the output, and what they let through.
abbrev pub with_one : {A : Type 0} → List ℕ → Option ℕ → A → (ℕ → ℕ → A) → A
with_one [] output otherwise body = otherwise
with_one (input ∷ inputs) none otherwise body = otherwise
with_one (input ∷ inputs) (some output) otherwise body = body input output

abbrev pub with_two : {A : Type 0} → List ℕ → Option ℕ → A → (ℕ → ℕ → ℕ → A) → A
with_two [] output otherwise body = otherwise
with_two (left ∷ []) output otherwise body = otherwise
with_two (left ∷ right ∷ inputs) none otherwise body = otherwise
with_two (left ∷ right ∷ inputs) (some output) otherwise body = body left right output

unfoldable pub handle_copy_op : SimFrame → IrInstr → IrFunction → Outcome SimFrame
handle_copy_op frame i function = with_one i.inputs i.output (ok frame) (λ input output. do
  value ← read_value frame function input
  ok (write_value frame output value))

abbrev pub guard_divisor : IrOp → RegValue → Outcome SimFrame → Outcome SimFrame
guard_divisor op divisor rest =
    if is_division_by_zero op divisor then err SimError.division_by_zero else rest

unfoldable pub handle_binary_op : Floats → SimFrame → IrInstr → IrFunction → Outcome SimFrame
handle_binary_op f frame i function = with_two i.inputs i.output (ok frame) (λ left right output. do
  left_value ← read_value frame function left
  right_value ← read_value frame function right
  guard_divisor i.op right_value (do
    result ← of_ub (apply_binary_op f i.op left_value right_value)
    ok (write_value frame output result)))

abbrev pub is_neg : IrOp → Bool
is_neg IrOp.neg = true
is_neg _ = false

unfoldable pub handle_unary_op : Floats → SimFrame → IrInstr → IrFunction → Outcome SimFrame
handle_unary_op f frame i function = with_one i.inputs i.output (ok frame) (λ input output. do
  operand ← read_value frame function input
  result ← of_ub (if is_neg i.op then unary_neg f operand else defined (unary_not f operand))
  ok (write_value frame output result))

abbrev pub with_kind :
    Option CmpKind → Outcome SimFrame → (CmpKind → Outcome SimFrame) → Outcome SimFrame
with_kind none otherwise body = otherwise
with_kind (some kind) otherwise body = body kind

unfoldable pub handle_cmp_op : Floats → SimFrame → IrInstr → IrFunction → Outcome SimFrame
handle_cmp_op f frame i function = with_two i.inputs i.output (ok frame) (λ left right output.
    with_kind i.cmp_kind (ok frame) (λ kind. do
      left_value ← read_value frame function left
      right_value ← read_value frame function right
      ok (write_value frame output (bool (apply_comparison f kind left_value right_value)))))

-- A jump without a target falls through.
abbrev pub jump_to : SimFrame → Option ℕ → SimFrame
jump_to frame none = frame
jump_to frame (some target) = record frame { block = target; pc = 0 }

unfoldable pub handle_jump_op : SimFrame → IrInstr → Outcome SimFrame
handle_jump_op frame i = ok (jump_to frame i.true_target)

abbrev pub with_condition : List ℕ → Outcome SimFrame → (ℕ → Outcome SimFrame) → Outcome SimFrame
with_condition [] otherwise body = otherwise
with_condition (input ∷ inputs) otherwise body = body input

unfoldable pub handle_branch_op : Floats → SimFrame → IrInstr → IrFunction → Outcome SimFrame
handle_branch_op f frame i function = with_condition i.inputs (ok frame) (λ input. do
  condition ← read_value frame function input
  ok (jump_to frame (if is_taken f condition then i.true_target else i.false_target)))
