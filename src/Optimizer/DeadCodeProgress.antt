-- ===== src/Optimizer/DeadCodeProgress.antt =====
-- src/transforms/passes/DeadCodeEliminationPass.cpp: the measure and the report of a change.
use mathlib.Core.Path.{ap₂}
use asm_studio.Prelude.{
  ℕ, ◌+◌, ◌≤◌, refl, sym, ap, Bool, true, false, not, ◌||◌, List, [], ◌∷◌, arith, length, keep_if,
  ◌==◌, ==_iff, Bool-cases, inl, inr, length-keep_if-le, keep_if-eq,
}
use asm_studio.Ir.{IrOp, IrInstr, IrBlock, IrFunction}
use asm_studio.Optimizer.DeadCode.{
  drop_dead, drop_dead_blocks, dead_code_elim, collect_used_value_ids, is_dead,
}
use asm_studio.Optimizer.Measure.{weight, weight_instrs, weight_blocks, measure, Lowers}

weight_instrs-keep_if-le :
    (p : IrInstr → Bool) (instrs : List IrInstr)
    → weight_instrs (keep_if p instrs) ≤ weight_instrs instrs
unfolding weight_instrs
weight_instrs-keep_if-le p [] = omega arith
weight_instrs-keep_if-le p (i ∷ instrs) = ground (arith, weight_instrs-keep_if-le p instrs)

length-weight : (op : IrOp) → 1 ≤ weight op
unfolding weight
length-weight op = omega arith

-- Every instruction that goes takes at least one with it.
weight_instrs-keep_if :
    (p : IrInstr → Bool) (instrs : List IrInstr)
    → weight_instrs (keep_if p instrs) + length instrs
      ≤ weight_instrs instrs + length (keep_if p instrs)
unfolding weight_instrs
weight_instrs-keep_if p [] = omega arith
weight_instrs-keep_if p (i ∷ instrs) =
    ground (arith, weight_instrs-keep_if p instrs, length-weight i.op)

keep_if-Lowers :
    (p : IrInstr → Bool) (instrs : List IrInstr)
    → Lowers weight_instrs instrs
        (keep_if p instrs, not (length (keep_if p instrs) == length instrs))
keep_if-Lowers p instrs = elim (Bool-cases (length (keep_if p instrs) == length instrs)) [
  | inl e ↦ rw e (keep_if-eq p instrs (sym ((==_iff _ _).0 e)))
  | inr e ↦ rw e (ground (arith, e, weight_instrs-keep_if p instrs, length-keep_if-le p instrs))
]

drop_dead_blocks-Lowers :
    (used : List ℕ) (blocks : List IrBlock)
    → Lowers weight_blocks blocks (drop_dead_blocks used blocks)
unfolding drop_dead_blocks drop_dead weight_blocks
drop_dead_blocks-Lowers used [] = refl
drop_dead_blocks-Lowers used (block ∷ blocks) =
    cons_dropped (drop_dead_blocks used blocks)
      (
        keep_if (λ i. not (is_dead used i)) block.instrs,
        not (length (keep_if (λ i. not (is_dead used i)) block.instrs) == length block.instrs),
      )
      (keep_if-Lowers (λ i. not (is_dead used i)) block.instrs)
      (drop_dead_blocks-Lowers used blocks)
  where
    cons_dropped :
        (rs : List IrBlock × Bool) (r : List IrInstr × Bool)
        → Lowers weight_instrs block.instrs r
        → Lowers weight_blocks blocks rs
        → Lowers weight_blocks (block ∷ blocks) (record block { instrs = r.0 } ∷ rs.0, r.1 || rs.1)
    cons_dropped (js, true) (j, true) h k = omega arith
    cons_dropped (js, false) (j, true) h k = omega (arith, ap weight_blocks k)
    cons_dropped (js, true) (j, false) h k = omega (arith, ap weight_instrs h)
    cons_dropped (js, false) (j, false) h k =
        ap₂ (λ (is : List IrInstr) (rest : List IrBlock). record block { instrs = is } ∷ rest) h k

-- Dead code elimination that reports a change lowers the measure of the function, and dead code
-- elimination that reports none leaves the function as it is.
pub dead_code_elim-Lowers :
    (function : IrFunction) → Lowers measure function (dead_code_elim function)
unfolding dead_code_elim measure
dead_code_elim-Lowers function =
    go (drop_dead_blocks (collect_used_value_ids function) function.blocks)
      (drop_dead_blocks-Lowers (collect_used_value_ids function) function.blocks)
  where
    go :
        (r : List IrBlock × Bool)
        → Lowers weight_blocks function.blocks r
        → Lowers measure function (record function { blocks = r.0 }, r.1)
    go (bs, true) h = h
    go (bs, false) h = ap (λ (blocks : List IrBlock). record function { blocks = blocks }) h
