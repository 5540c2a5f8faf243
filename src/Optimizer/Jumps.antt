-- ===== src/Optimizer/Jumps.antt =====
-- src/transforms/passes/JumpSimplificationPass.cpp.
use asm_studio.Prelude.{
  ℕ, Bool, true, false, ◌||◌, Option, none, some, List, [], ◌∷◌, if◌then◌else◌,
}
use asm_studio.Machine.Floats.{Floats}
use asm_studio.Ir.{IrOp, IrConstant, IrValue, IrInstr, IrBlock, IrFunction, constant_at, is_br_true}
use asm_studio.Sim.Ops.{is_taken}

abbrev pub jump_of : IrInstr → Bool → IrInstr
jump_of i taken = record i {
  op = IrOp.jmp;
  true_target = if taken then i.true_target else i.false_target;
  false_target = none;
  inputs = [];
}

abbrev pub decide_branch : Floats → IrInstr → Option IrConstant → IrInstr × Bool
decide_branch f i none = (i, false)
decide_branch f i (some c) = (jump_of i (is_taken f c), true)

abbrev pub simplify_inputs : Floats → List IrValue → IrInstr → List ℕ → IrInstr × Bool
simplify_inputs f values i [] = (i, false)
simplify_inputs f values i (condition ∷ inputs) = decide_branch f i (constant_at values condition)

unfoldable pub simplify_instr : Floats → List IrValue → IrInstr → IrInstr × Bool
simplify_instr f values i =
    if is_br_true i.op then simplify_inputs f values i i.inputs else (i, false)

unfoldable pub simplify_instrs : Floats → List IrValue → List IrInstr → List IrInstr × Bool
simplify_instrs f values [] = ([], false)
simplify_instrs f values (i ∷ instrs) =
    let first : IrInstr × Bool = simplify_instr f values i in
    let rest : List IrInstr × Bool = simplify_instrs f values instrs in
    (first.0 ∷ rest.0, first.1 || rest.1)

unfoldable pub simplify_blocks : Floats → List IrValue → List IrBlock → List IrBlock × Bool
simplify_blocks f values [] = ([], false)
simplify_blocks f values (block ∷ blocks) =
    let first : List IrInstr × Bool = simplify_instrs f values block.instrs in
    let rest : List IrBlock × Bool = simplify_blocks f values blocks in
    (record block { instrs = first.0 } ∷ rest.0, first.1 || rest.1)

-- `JumpSimplification::run`
unfoldable pub jump_simplification : Floats → IrFunction → IrFunction × Bool
jump_simplification f function =
    let result : List IrBlock × Bool = simplify_blocks f function.values function.blocks in
    (record function { blocks = result.0 }, result.1)
