-- ===== src/Optimizer/Unreachable.antt =====
-- src/transforms/passes/UnreachableBlockEliminationPass.cpp. The worklist's back is the list's head;
-- its loop takes fuel, one more than the number of jump targets in the function.
use asm_studio.Prelude.{
  ℕ, zero, suc, ◌+◌, Bool, false, not, Option, none, some, List, [], ◌∷◌, ◌++◌, if◌then◌else◌,
  length, keep_if, contains_id, ◌==◌,
}
use asm_studio.Ir.{IrInstr, IrBlock, IrFunction, find_block, rebuild_block_index}

-- The reachable identifiers and the worklist.
pub record Search : Type 0 where
  pub reachable : List ℕ
  pub worklist : List ℕ

-- The lambda `enqueueBlock`.
unfoldable pub enqueue_block : Search → ℕ → Search
enqueue_block s target =
    if contains_id target s.reachable
    then s
    else record { reachable = target ∷ s.reachable; worklist = target ∷ s.worklist }

abbrev pub target_list : Option ℕ → List ℕ
target_list none = []
target_list (some target) = target ∷ []

-- The targets of a block, in the order in which they are visited.
abbrev pub instr_targets : List IrInstr → List ℕ
instr_targets [] = []
instr_targets (i ∷ instrs) =
    target_list i.true_target ++ (target_list i.false_target ++ instr_targets instrs)

abbrev pub block_targets : List IrBlock → List ℕ
block_targets [] = []
block_targets (block ∷ blocks) = instr_targets block.instrs ++ block_targets blocks

unfoldable pub enqueue_all : Search → List ℕ → Search
enqueue_all s [] = s
enqueue_all s (target ∷ targets) = enqueue_all (enqueue_block s target) targets

abbrev pub visit : Search → Option IrBlock → Search
visit s none = s
visit s (some block) = enqueue_all s (instr_targets block.instrs)

unfoldable pub search_loop : IrFunction → ℕ → List ℕ → List ℕ → Option (List ℕ)
search_loop function fuel reachable [] = some reachable
search_loop function zero reachable (current ∷ worklist) = none
search_loop function (suc fuel) reachable (current ∷ worklist) =
    let s : Search =
      visit (record { reachable = reachable; worklist = worklist }) (find_block function current) in
    search_loop function fuel s.reachable s.worklist

abbrev pub search_fuel : IrFunction → ℕ
search_fuel function = length (block_targets function.blocks) + 1

-- From the entry block; `none` means that the fuel ran out.
unfoldable pub find_reachable_block_ids : IrFunction → ℕ → Option (List ℕ)
find_reachable_block_ids function entry =
    search_loop function (search_fuel function) (entry ∷ []) (entry ∷ [])

abbrev pub remove_others : IrFunction → Option (List ℕ) → Option (IrFunction × Bool)
remove_others function none = none
remove_others function (some reachable) =
    let blocks : List IrBlock = keep_if (λ b. contains_id b.id reachable) function.blocks in
    let changed : Bool = not (length blocks == length function.blocks) in
    let removed : IrFunction = record function { blocks = blocks } in
    some (if changed then rebuild_block_index removed else removed, changed)

abbrev pub eliminate : IrFunction → List IrBlock → Option (IrFunction × Bool)
eliminate function [] = some (function, false)
eliminate function (entry ∷ blocks) =
    remove_others function (find_reachable_block_ids function entry.id)

-- `UnreachableBlockElim::run`
unfoldable pub unreachable_block_elim : IrFunction → Option (IrFunction × Bool)
unreachable_block_elim function = eliminate function function.blocks
