-- ===== src/Optimizer/Measure.antt =====
-- A measure of functions for the passes of src/transforms/passes and their reports of a change.
use asm_studio.Prelude.{ℕ, ◌+◌, ◌<◌, ◌≡◌, Bool, true, false, List, [], ◌∷◌, if◌then◌else◌}
use asm_studio.Machine.Ub.{Ub, defined, undefined}
use asm_studio.Ir.{IrOp, IrInstr, IrBlock, IrFunction, is_br_true}
use asm_studio.Optimizer.ConstantFolding.{is_foldable_op}

-- One for the instruction, and one more where it can be folded or decided.
unfoldable pub weight : IrOp → ℕ
weight op = 1 + (if is_foldable_op op then 1 else 0) + (if is_br_true op then 1 else 0)

unfoldable pub weight_instrs : List IrInstr → ℕ
weight_instrs [] = 0
weight_instrs (i ∷ instrs) = weight i.op + weight_instrs instrs

unfoldable pub weight_blocks : List IrBlock → ℕ
weight_blocks [] = 0
weight_blocks (b ∷ blocks) = 1 + weight_instrs b.instrs + weight_blocks blocks

-- The measure of a function: an upper bound on the changes that passes can make to it.
unfoldable pub measure : IrFunction → ℕ
unfolding weight_blocks weight_instrs
measure function = weight_blocks function.blocks

-- A change lowers the measure, and a report of no change is true.
abbrev pub Lowers : {A : Type 0} → (A → ℕ) → A → A × Bool → Type 0
Lowers m before (after, true) = m after < m before
Lowers m before (after, false) = after ≡ before

-- The same for a result that may be undefined.
abbrev pub LowersUb : {A : Type 0} → (A → ℕ) → A → Ub (A × Bool) → Type 0
LowersUb m before (defined r) = Lowers m before r
LowersUb m before undefined = Unit
