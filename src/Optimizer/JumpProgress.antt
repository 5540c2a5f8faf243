-- ===== src/Optimizer/JumpProgress.antt =====
-- src/transforms/passes/JumpSimplificationPass.cpp: the measure and the report of a change.
use mathlib.Core.Path.{ap₂}
use asm_studio.Prelude.{
  ℕ, ◌<◌, ◌≡◌, refl, ap, Bool, true, false, ◌||◌, Option, none, some, List, [], ◌∷◌, arith,
  if◌then◌else◌,
}
use asm_studio.Machine.Floats.{Floats}
use asm_studio.Ir.{IrOp, IrConstant, IrValue, IrInstr, IrBlock, IrFunction, is_br_true, constant_at}
use asm_studio.Optimizer.ConstantFolding.{is_foldable_op}
use asm_studio.Optimizer.Jumps.{
  simplify_instr, simplify_instrs, simplify_blocks, jump_simplification, simplify_inputs,
  decide_branch,
}
use asm_studio.Optimizer.Measure.{weight, weight_instrs, weight_blocks, measure, Lowers}

jmp-lt-branch : weight IrOp.jmp < weight IrOp.br_true
unfolding weight is_foldable_op
jmp-lt-branch = omega arith

module _ (f : Floats) where
  module _ (values : List IrValue) where
    simplify_instr-Lowers :
        (i : IrInstr) → Lowers (λ (j : IrInstr). weight j.op) i (simplify_instr f values i)
    unfolding simplify_instr
    simplify_instr-Lowers i = by_op i.op refl
      where
        decided :
            (c : Option IrConstant)
            → i.op ≡ IrOp.br_true
            → Lowers (λ (j : IrInstr). weight j.op) i (decide_branch f i c)
        decided none e = refl
        decided (some c) e = omega (arith, jmp-lt-branch, ap weight e)

        by_inputs :
            (inputs : List ℕ)
            → i.op ≡ IrOp.br_true
            → Lowers (λ (j : IrInstr). weight j.op) i (simplify_inputs f values i inputs)
        by_inputs [] e = refl
        by_inputs (c ∷ inputs) e = decided (constant_at values c) e

        by_op :
            (op : IrOp)
            → i.op ≡ op
            → Lowers
                (λ (j : IrInstr). weight j.op)
                i
                (if is_br_true op then simplify_inputs f values i i.inputs else (i, false))
        by_op IrOp.br_true e = by_inputs i.inputs e
        by_op IrOp.const e = refl
        by_op _ e = refl

    simplify_instrs-Lowers :
        (instrs : List IrInstr) → Lowers weight_instrs instrs (simplify_instrs f values instrs)
    unfolding simplify_instrs weight_instrs
    simplify_instrs-Lowers [] = refl
    simplify_instrs-Lowers (i ∷ instrs) =
        go (simplify_instr f values i) (simplify_instrs f values instrs) (simplify_instr-Lowers i)
          (simplify_instrs-Lowers instrs)
      where
        go :
            (r : IrInstr × Bool) (rs : List IrInstr × Bool)
            → Lowers (λ (j : IrInstr). weight j.op) i r
            → Lowers weight_instrs instrs rs
            → Lowers weight_instrs (i ∷ instrs) (r.0 ∷ rs.0, r.1 || rs.1)
        go (j, true) (js, true) h k = omega arith
        go (j, true) (js, false) h k = omega (arith, ap weight_instrs k)
        go (j, false) (js, true) h k = omega (arith, ap (λ (x : IrInstr). weight x.op) h)
        go (j, false) (js, false) h k = ap₂ ◌∷◌ h k

    simplify_blocks-Lowers :
        (blocks : List IrBlock) → Lowers weight_blocks blocks (simplify_blocks f values blocks)
    unfolding simplify_blocks weight_blocks
    simplify_blocks-Lowers [] = refl
    simplify_blocks-Lowers (block ∷ blocks) =
        go (simplify_instrs f values block.instrs) (simplify_blocks f values blocks)
          (simplify_instrs-Lowers block.instrs) (simplify_blocks-Lowers blocks)
      where
        go :
            (r : List IrInstr × Bool) (rs : List IrBlock × Bool)
            → Lowers weight_instrs block.instrs r
            → Lowers weight_blocks blocks rs
            → Lowers weight_blocks
                (block ∷ blocks)
                (record block { instrs = r.0 } ∷ rs.0, r.1 || rs.1)
        go (j, true) (js, true) h k = omega arith
        go (j, true) (js, false) h k = omega (arith, ap weight_blocks k)
        go (j, false) (js, true) h k = omega (arith, ap weight_instrs h)
        go (j, false) (js, false) h k =
            ap₂ (λ (is : List IrInstr) (rest : List IrBlock). record block { instrs = is } ∷ rest) h
              k

  -- Jump simplification that reports a change lowers the measure of the function, and jump
  -- simplification that reports none leaves the function as it is.
  pub jump_simplification-Lowers :
      (function : IrFunction) → Lowers measure function (jump_simplification f function)
  unfolding jump_simplification measure
  jump_simplification-Lowers function =
      go (simplify_blocks f function.values function.blocks)
        (simplify_blocks-Lowers function.values function.blocks)
    where
      go :
          (r : List IrBlock × Bool)
          → Lowers weight_blocks function.blocks r
          → Lowers measure function (record function { blocks = r.0 }, r.1)
      go (bs, true) h = h
      go (bs, false) h = ap (λ (blocks : List IrBlock). record function { blocks = blocks }) h
