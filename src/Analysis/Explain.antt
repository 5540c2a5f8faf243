-- ===== src/Analysis/Explain.antt =====
-- src/analysis/Explain.cpp: the counts and questions behind the text, and the text.
use asm_studio.Text.{Text, codes, newline, join, each}
use asm_studio.Text.Decimal.{format_nat}
use asm_studio.Prelude.{
  ℕ, ◌+◌, Bool, false, not, ◌&&◌, Option, none, some, List, [], ◌∷◌, ◌++◌, ◌==◌, length,
  if◌then◌else◌, leb, is_empty, any,
}
use asm_studio.Ir.{
  IrOp, IrInstr, IrBlock, IrFunction, IrModule, is_arithmetic_op, is_terminator, is_br_true, is_ret,
}

abbrev pub jumps_back : ℕ → Option ℕ → Bool
jumps_back id none = false
jumps_back id (some target) = leb target id

abbrev pub count_if : (IrInstr → Bool) → List IrInstr → ℕ
count_if p [] = 0
count_if p (i ∷ instrs) = (if p i then 1 else 0) + count_if p instrs

unfoldable pub count_loops_in : List IrBlock → ℕ
count_loops_in [] = 0
count_loops_in (block ∷ blocks) =
    count_if (λ i. jumps_back block.id i.true_target) block.instrs + count_loops_in blocks

unfoldable pub count_loops : IrFunction → ℕ
unfolding count_loops_in
count_loops function = count_loops_in function.blocks

unfoldable pub count_branches_in : List IrBlock → ℕ
count_branches_in [] = 0
count_branches_in (block ∷ blocks) =
    count_if (λ i. is_br_true i.op) block.instrs + count_branches_in blocks

unfoldable pub count_branches : IrFunction → ℕ
unfolding count_branches_in
count_branches function = count_branches_in function.blocks

unfoldable pub has_return_instruction : IrFunction → Bool
has_return_instruction function =
    any (λ (b : IrBlock). any (λ (i : IrInstr). is_terminator i && is_ret i.op) b.instrs)
      function.blocks

unfoldable pub returns_value : IrFunction → Bool
returns_value function =
    any (λ (b : IrBlock). any (λ (i : IrInstr). is_ret i.op && not (is_empty i.inputs)) b.instrs)
      function.blocks

pub record InstructionCounts : Type 0 where
  pub arithmetic : ℕ
  pub comparisons : ℕ
  pub calls : ℕ
  pub memory_loads : ℕ
  pub memory_stores : ℕ

abbrev pub no_counts : InstructionCounts
no_counts = record {
  arithmetic = 0;
  comparisons = 0;
  calls = 0;
  memory_loads = 0;
  memory_stores = 0;
}

abbrev pub count_op : InstructionCounts → IrOp → InstructionCounts
count_op counts IrOp.cmp = record counts { comparisons = counts.comparisons + 1 }
count_op counts IrOp.call = record counts { calls = counts.calls + 1 }
count_op counts IrOp.load = record counts { memory_loads = counts.memory_loads + 1 }
count_op counts IrOp.store = record counts { memory_stores = counts.memory_stores + 1 }
count_op counts _ = counts

unfoldable pub count_instr : InstructionCounts → IrInstr → InstructionCounts
count_instr counts i =
    if is_arithmetic_op i.op
    then record counts { arithmetic = counts.arithmetic + 1 }
    else count_op counts i.op

unfoldable pub count_instrs : InstructionCounts → List IrInstr → InstructionCounts
count_instrs counts [] = counts
count_instrs counts (i ∷ instrs) = count_instrs (count_instr counts i) instrs

unfoldable pub count_blocks : InstructionCounts → List IrBlock → InstructionCounts
count_blocks counts [] = counts
count_blocks counts (block ∷ blocks) = count_blocks (count_instrs counts block.instrs) blocks

unfoldable pub count_instruction_types : IrFunction → InstructionCounts
unfolding count_blocks count_instrs count_instr
count_instruction_types function = count_blocks no_counts function.blocks

-- A line with a count, where the count is not zero.
abbrev pub count_line : Text → ℕ → Text → Text
count_line label count unit =
    if count == 0 then [] else label ++ format_nat count ++ unit ++ newline

abbrev pub structure_text : ℕ → ℕ → Text
structure_text loop_count branch_count =
    if loop_count == 0 && branch_count == 0
    then codes "  structure : linear (no control flow)" ++ newline
    else count_line (codes "  loops     : ") loop_count (codes " (back-edge count)")
      ++ count_line (codes "  branches  : ") branch_count (codes " conditional branch(es)")

abbrev pub returns_text : Bool → Bool → Text
returns_text has_return with_value =
    (if has_return
      then (if with_value then codes "  returns   : value" else codes "  returns   : void")
      else codes "  returns   : falls through (no explicit ret)")
    ++ newline

abbrev pub counts_text : InstructionCounts → Text
counts_text counts = join (
    count_line (codes "  arithmetic: ") counts.arithmetic (codes " operation(s)")
    ∷ count_line (codes "  comparisons: ") counts.comparisons []
    ∷ count_line (codes "  calls     : ") counts.calls (codes " function call(s)")
    ∷ count_line (codes "  memory loads : ") counts.memory_loads []
    ∷ count_line (codes "  memory stores: ") counts.memory_stores []
    ∷ [])

-- `explain` of a function, and of a module.
unfoldable pub explain : IrFunction → Text
explain function = join (
    codes "Function '"
    ∷ codes function.name
    ∷ codes "':"
    ∷ newline
    ∷ codes "  blocks    : "
    ∷ format_nat (length function.blocks)
    ∷ newline
    ∷ codes "  values    : "
    ∷ format_nat (length function.values)
    ∷ newline
    ∷ structure_text (count_loops function) (count_branches function)
    ∷ returns_text (has_return_instruction function) (returns_value function)
    ∷ counts_text (count_instruction_types function)
    ∷ [])

unfoldable pub explain_module : IrModule → Text
explain_module m = join (
    codes "Module '"
    ∷ codes m.name
    ∷ codes "' — "
    ∷ format_nat (length m.functions)
    ∷ codes " function(s)"
    ∷ newline
    ∷ newline
    ∷ each (λ function. explain function ++ newline) m.functions
    ∷ [])
