-- ===== src/Lowering/Instructions.antt =====
-- Single instructions of the code of expressions: what the handlers of src/sim/Simulator.cpp make of
-- them.
use asm_studio.Prelude.{
  ℕ, ◌≤◌, ◌<◌, ◌≡◌, refl, ◌∙◌, Bool, true, false, some, [], ◌∷◌, arith, if◌then◌else◌,
}
use asm_studio.Support.Types.{BinOp, UnaryOp, CmpKind}
use asm_studio.Machine.Ub as Ub
use asm_studio.Machine.Floats.{Floats}
use asm_studio.Ir.{IrOp, IrInstr, IrFunction, RegValue, bool}
use asm_studio.Sim.Ops.{
  apply_binary_op, is_division_by_zero, unary_neg, unary_not, apply_comparison,
}
use asm_studio.Sim.State.{ok, err, SimError, SimFrame, ◌>>=◌, read_value, write_value}
use asm_studio.Sim.Slots.{read_value-write_value, ir_constant_to_reg_value_lem}
use asm_studio.Sim.Handlers.{
  handle_const_op, handle_copy_op, handle_binary_op, handle_unary_op, handle_cmp_op, of_ub,
}
use asm_studio.Dsl.Meaning.{binary_meaning, unary_meaning}
use asm_studio.Lowering.Expr.{bin_op_to_ir_op, unary_op_to_ir_op, const_instr, operator_instr}
use asm_studio.Lowering.Code.{compute, run_code, next_pc, Gives, is_straight_op}

-- What an operator means is what the simulator's operator for the instruction does.
binary_meaning-operator :
    (f : Floats) (op : BinOp) (x y : RegValue)
    → binary_meaning f op x y ≡ (
        if is_division_by_zero (bin_op_to_ir_op op) y
        then err SimError.division_by_zero
        else of_ub (apply_binary_op f (bin_op_to_ir_op op) x y))
unfolding bin_op_to_ir_op is_division_by_zero
binary_meaning-operator f BinOp.add x y = refl
binary_meaning-operator f BinOp.sub x y = refl
binary_meaning-operator f BinOp.mul x y = refl
binary_meaning-operator f BinOp.div x y = refl
binary_meaning-operator f BinOp.modulo x y = refl
binary_meaning-operator f BinOp.and x y = refl
binary_meaning-operator f BinOp.or x y = refl
binary_meaning-operator f BinOp.xor x y = refl
binary_meaning-operator f BinOp.shl x y = refl
binary_meaning-operator f BinOp.shr x y = refl

module _ (f : Floats) (g : IrFunction) (frame : SimFrame) where
  pub read_value-next_pc : (j : ℕ) → read_value (next_pc frame) g j ≡ read_value frame g j
  unfolding read_value
  read_value-next_pc j = refl

  -- One instruction that writes a value.
  writes-Gives :
      (bound id : ℕ) (value : RegValue)
      → bound ≤ id
      → Gives g bound 1 frame id (ok value) (ok (write_value (next_pc frame) id value))
  unfolding write_value
  writes-Gives bound id value l = (
    unfold write_value in written,
    record { kept = λ j h. others j h; pc = refl; block = refl; function_name = refl },
  )
    where
      written : read_value (write_value (next_pc frame) id value) g id ≡ ok value
      written = read_value-write_value (next_pc frame) g id id value ∙ ground arith

      others :
          (j : ℕ)
          → j < bound
          → read_value (write_value (next_pc frame) id value) g j ≡ read_value frame g j
      others j h =
          read_value-write_value (next_pc frame) g id j value
          ∙ ground (arith, l, h, read_value-next_pc j)

  of_ub-Gives :
      (bound id : ℕ) (r : Ub.Ub RegValue)
      → bound ≤ id
      → Gives g bound 1 frame id
          (of_ub r)
          ((of_ub r >>= λ value. ok (write_value (next_pc frame) id value)) >>= λ frame'. ok frame')
  of_ub-Gives bound id (Ub.defined value) l = writes-Gives bound id value l
  of_ub-Gives bound id Ub.undefined l = refl

  pub const_instr-Gives :
      (bound id : ℕ) (value : RegValue)
      → bound ≤ id
      → Gives g bound 1 frame id (ok value) (run_code f g (const_instr id value ∷ []) frame)
  unfolding run_code compute handle_const_op
  const_instr-Gives bound id value l =
      rw (ir_constant_to_reg_value_lem value) (writes-Gives bound id value l)

  pub copy-Gives :
      (bound source id : ℕ) (value : RegValue)
      → bound ≤ id
      → read_value frame g source ≡ ok value
      → Gives g bound 1 frame id
          (ok value)
          (run_code f g (operator_instr IrOp.copy (source ∷ []) id ∷ []) frame)
  unfolding run_code compute handle_copy_op read_value
  copy-Gives bound source id value l e = rw e (writes-Gives bound id value l)

  compute-binary :
      (op : BinOp) (i : IrInstr)
      → compute f g (next_pc frame) i (bin_op_to_ir_op op) ≡ handle_binary_op f (next_pc frame) i g
  unfolding compute bin_op_to_ir_op
  compute-binary BinOp.add i = refl
  compute-binary BinOp.sub i = refl
  compute-binary BinOp.mul i = refl
  compute-binary BinOp.div i = refl
  compute-binary BinOp.modulo i = refl
  compute-binary BinOp.and i = refl
  compute-binary BinOp.or i = refl
  compute-binary BinOp.xor i = refl
  compute-binary BinOp.shl i = refl
  compute-binary BinOp.shr i = refl

  -- The operands are read, the divisor is looked at, and the result is written.
  pub binary-Gives :
      (bound left right id : ℕ) (op : BinOp) (x y : RegValue)
      → bound ≤ id
      → read_value frame g left ≡ ok x
      → read_value frame g right ≡ ok y
      → Gives g bound 1 frame id
          (binary_meaning f op x y)
          (run_code f g (operator_instr (bin_op_to_ir_op op) (left ∷ right ∷ []) id ∷ []) frame)
  unfolding run_code handle_binary_op read_value
  binary-Gives bound left right id op x y l e e' =
      rw (compute-binary op (operator_instr (bin_op_to_ir_op op) (left ∷ right ∷ []) id), e, e')
        (rw (binary_meaning-operator f op x y) (go (is_division_by_zero (bin_op_to_ir_op op) y)))
    where
      go :
          (b : Bool)
          → Gives g bound 1 frame id
              (if b
                then err SimError.division_by_zero
                else of_ub (apply_binary_op f (bin_op_to_ir_op op) x y))
              ((if b
                  then err SimError.division_by_zero
                  else (of_ub (apply_binary_op f (bin_op_to_ir_op op) x y) >>= λ value.
                      ok (write_value (next_pc frame) id value)))
                >>= λ frame'. ok frame')
      go true = refl
      go false = of_ub-Gives bound id (apply_binary_op f (bin_op_to_ir_op op) x y) l

  pub unary-Gives :
      (bound operand id : ℕ) (op : UnaryOp) (x : RegValue)
      → bound ≤ id
      → read_value frame g operand ≡ ok x
      → Gives g bound 1 frame id
          (unary_meaning f op x)
          (run_code f g (operator_instr (unary_op_to_ir_op op) (operand ∷ []) id ∷ []) frame)
  unfolding run_code compute handle_unary_op read_value
  unary-Gives bound operand id UnaryOp.neg x l e = rw e (of_ub-Gives bound id (unary_neg f x) l)
  unary-Gives bound operand id UnaryOp.not x l e = rw e (writes-Gives bound id (unary_not f x) l)
  unary-Gives bound operand id UnaryOp.bit_not x l e =
      rw e (writes-Gives bound id (unary_not f x) l)

  -- The comparison of a condition.
  pub cmp-Gives :
      (bound left right id : ℕ) (kind : CmpKind) (x y : RegValue)
      → bound ≤ id
      → read_value frame g left ≡ ok x
      → read_value frame g right ≡ ok y
      → Gives g bound 1 frame id (ok (bool (apply_comparison f kind x y))) (
          run_code f g
            (record (operator_instr IrOp.cmp (left ∷ right ∷ []) id) { cmp_kind = some kind } ∷ [])
            frame)
  unfolding run_code compute handle_cmp_op read_value
  cmp-Gives bound left right id kind x y l e e' =
      rw (e, e') (writes-Gives bound id (bool (apply_comparison f kind x y)) l)

pub is_straight_op-binary : (op : BinOp) → is_straight_op (bin_op_to_ir_op op) ≡ true
unfolding bin_op_to_ir_op
is_straight_op-binary BinOp.add = refl
is_straight_op-binary BinOp.sub = refl
is_straight_op-binary BinOp.mul = refl
is_straight_op-binary BinOp.div = refl
is_straight_op-binary BinOp.modulo = refl
is_straight_op-binary BinOp.and = refl
is_straight_op-binary BinOp.or = refl
is_straight_op-binary BinOp.xor = refl
is_straight_op-binary BinOp.shl = refl
is_straight_op-binary BinOp.shr = refl

pub is_straight_op-unary : (op : UnaryOp) → is_straight_op (unary_op_to_ir_op op) ≡ true
is_straight_op-unary UnaryOp.neg = refl
is_straight_op-unary UnaryOp.not = refl
is_straight_op-unary UnaryOp.bit_not = refl
