-- ===== src/Optimizer/DeadCode.antt =====
-- src/transforms/passes/DeadCodeEliminationPass.cpp. A set of identifiers is a list of them.
use asm_studio.Prelude.{
  ℕ, Bool, true, false, not, ◌||◌, Option, none, some, List, [], ◌∷◌, ◌++◌, if◌then◌else◌, length,
  keep_if, contains_id, ◌==◌,
}
use asm_studio.Ir.{IrOp, IrInstr, IrBlock, IrFunction}

unfoldable pub is_non_elidable_op : IrOp → Bool
is_non_elidable_op IrOp.ret = true
is_non_elidable_op IrOp.jmp = true
is_non_elidable_op IrOp.br_true = true
is_non_elidable_op IrOp.call = true
is_non_elidable_op IrOp.store = true
is_non_elidable_op _ = false

unfoldable pub used_in_instrs : List IrInstr → List ℕ
used_in_instrs [] = []
used_in_instrs (i ∷ instrs) = i.inputs ++ used_in_instrs instrs

unfoldable pub used_in_blocks : List IrBlock → List ℕ
used_in_blocks [] = []
used_in_blocks (block ∷ blocks) = used_in_instrs block.instrs ++ used_in_blocks blocks

unfoldable pub collect_used_value_ids : IrFunction → List ℕ
collect_used_value_ids function = used_in_blocks function.blocks

abbrev pub unused_output : List ℕ → IrOp → Option ℕ → Bool
unused_output used op none = false
unused_output used op (some output) =
    if is_non_elidable_op op then false else not (contains_id output used)

-- The test of `erase_if`.
unfoldable pub is_dead : List ℕ → IrInstr → Bool
is_dead used i = unused_output used i.op i.output

unfoldable pub drop_dead : List ℕ → List IrInstr → List IrInstr
drop_dead used instrs = keep_if (λ i. not (is_dead used i)) instrs

-- The blocks, and whether one of them got shorter.
unfoldable pub drop_dead_blocks : List ℕ → List IrBlock → List IrBlock × Bool
drop_dead_blocks used [] = ([], false)
drop_dead_blocks used (block ∷ blocks) =
    let instrs : List IrInstr = drop_dead used block.instrs in
    let rest : List IrBlock × Bool = drop_dead_blocks used blocks in
    (
      record block { instrs = instrs } ∷ rest.0,
      not (length instrs == length block.instrs) || rest.1,
    )

-- `DeadCodeElim::run`
unfoldable pub dead_code_elim : IrFunction → IrFunction × Bool
dead_code_elim function =
    let result : List IrBlock × Bool =
      drop_dead_blocks (collect_used_value_ids function) function.blocks in
    (record function { blocks = result.0 }, result.1)
