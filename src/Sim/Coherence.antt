-- ===== src/Sim/Coherence.antt =====
-- The slots of a frame of src/sim/Simulator.cpp and the constants of its function: the handlers.
use native.Mathlib.Decide.{ℕ_discrete}
use asm_studio.Prelude.{
  ℕ, ◌≡◌, ◌≢◌, refl, ap, ◌∙◌, Bool, true, false, Option, none, some, List, [], ◌∷◌, arith,
  if◌then◌else◌,
}
use asm_studio.Machine.Ub.{defined}
use asm_studio.Machine.Floats.{Floats}
use asm_studio.Support.Types.{CmpKind}
use asm_studio.Ir.{IrOp, RegValue, bool, IrConstant, IrInstr, IrFunction, constant_at}
use asm_studio.Ir.Constants.{IsSoundInstr}
use asm_studio.Sim.Ops.{
  ir_constant_to_reg_value, apply_binary_op, is_division_by_zero, apply_comparison, unary_neg,
  unary_not, is_taken,
}
use asm_studio.Sim.State.{
  Outcome, ok, err, undefined, SimError, ◌>>=◌, SimFrame, read_value, write_value, initial_frame,
  constant_or_mismatch,
}
use asm_studio.Sim.Handlers.{
  handle_const_op, handle_copy_op, handle_binary_op, handle_unary_op, handle_cmp_op, handle_jump_op,
  handle_branch_op, of_ub, with_one, with_two, write_constant, guard_divisor, is_neg, with_kind,
  jump_to, with_condition,
}
use asm_studio.Sim.Slots.{
  read_value-write_value, read_value-initial_frame, ir_constant_to_reg_value_lem,
}

-- Every value that has a constant reads as that constant.
abbrev pub IsCoherent : IrFunction → SimFrame → Type 0
IsCoherent function frame =
    (id : ℕ) (c : IrConstant)
    → constant_at function.values id ≡ some c
    → read_value frame function id ≡ ok c

pub initial_frame-IsCoherent :
    (callee function : IrFunction) → IsCoherent function (initial_frame callee)
initial_frame-IsCoherent callee function id c e =
    read_value-initial_frame callee function id
    ∙ ap constant_or_mismatch e
    ∙ ap ok (ir_constant_to_reg_value_lem c)

-- A handler's new frame is coherent and belongs to the same function.
abbrev pub Kept : IrFunction → SimFrame → Outcome SimFrame → Type 0
Kept function frame (ok frame') =
    (frame'.function_name ≡ frame.function_name) × IsCoherent function frame'
Kept function frame (err e) = Unit
Kept function frame undefined = Unit

module _ (function : IrFunction) (frame : SimFrame) (coherent : IsCoherent function frame) where
  write_value-Kept :
      (o : ℕ) (value : RegValue)
      → ((c : IrConstant) → constant_at function.values o ≡ some c → value ≡ c)
      → Kept function frame (ok (write_value frame o value))
  unfolding write_value
  write_value-Kept o value h = (
    refl,
    λ id c e. elim (ℕ_discrete o id) [
      | yes p ↦ ground (
        arith,
        read_value-write_value frame function o id value,
        h c (ap (constant_at function.values) p ∙ e),
        p,
      )
      | no d ↦ ground (arith, read_value-write_value frame function o id value, coherent id c e, d)
    ],
  )

  bind-Kept :
      {A : Type 0} (m : Outcome A) (g : A → Outcome SimFrame)
      → ((a : A) → Kept function frame (g a))
      → Kept function frame (m >>= g)
  bind-Kept (ok a) g h = h a
  bind-Kept (err e) g h = tt
  bind-Kept undefined g h = tt

  with_one-Kept :
      (inputs : List ℕ) (output : Option ℕ) (g : ℕ → ℕ → Outcome SimFrame)
      → ((input o : ℕ) → output ≡ some o → Kept function frame (g input o))
      → Kept function frame (with_one inputs output (ok frame) g)
  with_one-Kept [] output g h = (refl, coherent)
  with_one-Kept (input ∷ inputs) none g h = (refl, coherent)
  with_one-Kept (input ∷ inputs) (some o) g h = h input o refl

  with_two-Kept :
      (inputs : List ℕ) (output : Option ℕ) (g : ℕ → ℕ → ℕ → Outcome SimFrame)
      → ((left right o : ℕ) → output ≡ some o → Kept function frame (g left right o))
      → Kept function frame (with_two inputs output (ok frame) g)
  with_two-Kept [] output g h = (refl, coherent)
  with_two-Kept (left ∷ []) output g h = (refl, coherent)
  with_two-Kept (left ∷ right ∷ inputs) none g h = (refl, coherent)
  with_two-Kept (left ∷ right ∷ inputs) (some o) g h = h left right o refl

  jump_to-Kept : (target : Option ℕ) → Kept function frame (ok (jump_to frame target))
  unfolding read_value
  jump_to-Kept none = (refl, coherent)
  jump_to-Kept (some target) = (refl, coherent)

  guard_divisor-Kept :
      (op : IrOp) (divisor : RegValue) (rest : Outcome SimFrame)
      → Kept function frame rest
      → Kept function frame (guard_divisor op divisor rest)
  guard_divisor-Kept op divisor rest h = go (is_division_by_zero op divisor)
    where
      go : (b : Bool) → Kept function frame (if b then err SimError.division_by_zero else rest)
      go true = tt
      go false = h

  write_constant-Kept :
      (output : Option ℕ) (value : Option IrConstant)
      → ((o : ℕ) (c : IrConstant)
          → output ≡ some o
          → constant_at function.values o ≡ some c
          → value ≡ some c)
      → Kept function frame (ok (write_constant frame output value))
  write_constant-Kept none value h = (refl, coherent)
  write_constant-Kept (some o) none h = (refl, coherent)
  write_constant-Kept (some o) (some d) h = write_value-Kept o (ir_constant_to_reg_value d) (λ c e.
      ir_constant_to_reg_value_lem d ∙ mathlib.Core.Option.some-injective d c (h o c refl e))

  module _ (i : IrInstr) (sound : IsSoundInstr function.values i) where
    pub handle_const_op-Kept : Kept function frame (handle_const_op frame i)
    unfolding handle_const_op
    handle_const_op-Kept = write_constant-Kept i.output i.const_val (λ o c e k. (sound o c e k).1)

    -- An instruction of another kind writes to no value that has a constant.
    module _ (other : i.op ≢ IrOp.const) where
      write_other-Kept :
          (o : ℕ) (value : RegValue)
          → i.output ≡ some o
          → Kept function frame (ok (write_value frame o value))
      write_other-Kept o value e =
          write_value-Kept o value (λ c k. absurd (other (sound o c e k).0))

      pub handle_copy_op-Kept : Kept function frame (handle_copy_op frame i function)
      unfolding handle_copy_op
      handle_copy_op-Kept = with_one-Kept i.inputs i.output _ (λ input o e.
          bind-Kept (read_value frame function input) _ (λ value. write_other-Kept o value e))

      pub handle_binary_op-Kept :
          (f : Floats) → Kept function frame (handle_binary_op f frame i function)
      unfolding handle_binary_op
      handle_binary_op-Kept f = with_two-Kept i.inputs i.output _ (λ left right o e.
          bind-Kept (read_value frame function left) _ (λ a.
            bind-Kept (read_value frame function right) _ (λ b. guard_divisor-Kept i.op b _ (
              bind-Kept (of_ub (apply_binary_op f i.op a b)) _
                (λ value. write_other-Kept o value e)))))

      pub handle_unary_op-Kept :
          (f : Floats) → Kept function frame (handle_unary_op f frame i function)
      unfolding handle_unary_op
      handle_unary_op-Kept f = with_one-Kept i.inputs i.output _ (λ input o e.
          bind-Kept (read_value frame function input) _ (λ a.
            bind-Kept (of_ub (if is_neg i.op then unary_neg f a else defined (unary_not f a))) _
              (λ value. write_other-Kept o value e)))

      pub handle_cmp_op-Kept : (f : Floats) → Kept function frame (handle_cmp_op f frame i function)
      unfolding handle_cmp_op
      handle_cmp_op-Kept f =
          with_two-Kept i.inputs i.output _ (λ left right o e. go i.cmp_kind left right o e)
        where
          go :
              (kind : Option CmpKind) (left right o : ℕ)
              → i.output ≡ some o
              → Kept function frame (
                  with_kind kind (ok frame) (λ k. do
                    left_value ← read_value frame function left
                    right_value ← read_value frame function right
                    ok (write_value frame o (bool (apply_comparison f k left_value right_value)))))
          go none left right o e = (refl, coherent)
          go (some kind) left right o e =
              bind-Kept (read_value frame function left) _
                (λ a. bind-Kept (read_value frame function right) _ (λ b. write_other-Kept o _ e))

  pub handle_jump_op-Kept : (i : IrInstr) → Kept function frame (handle_jump_op frame i)
  unfolding handle_jump_op
  handle_jump_op-Kept i = jump_to-Kept i.true_target

  pub handle_branch_op-Kept :
      (f : Floats) (i : IrInstr) → Kept function frame (handle_branch_op f frame i function)
  unfolding handle_branch_op
  handle_branch_op-Kept f i = go i.inputs
    where
      go :
          (inputs : List ℕ)
          → Kept function frame (
              with_condition inputs (ok frame) (λ input. do
                condition ← read_value frame function input
                ok (
                    jump_to frame
                      (if is_taken f condition then i.true_target else i.false_target))))
      go [] = (refl, coherent)
      go (input ∷ inputs) =
          bind-Kept (read_value frame function input) _ (λ condition. jump_to-Kept _)
