-- ===== src/Ir/Constants.antt =====
-- The condition on the constants of include/asmstudio/ir/IRTypes.hpp under which passes may use them:
-- "set only for Const instructions" of `IRValue::constant`.
use asm_studio.Prelude.{ℕ, ◌≡◌, some, List, All}
use asm_studio.Ir.{IrOp, IrConstant, IrValue, IrInstr, IrBlock, IrFunction, constant_at}

-- What writes to a value with a constant is the instruction that loads that constant.
abbrev pub IsSoundInstr : List IrValue → IrInstr → Type 0
IsSoundInstr values i =
    (o : ℕ) (c : IrConstant)
    → i.output ≡ some o
    → constant_at values o ≡ some c
    → (i.op ≡ IrOp.const) × (i.const_val ≡ some c)

abbrev pub IsSoundBlock : List IrValue → IrBlock → Type 0
IsSoundBlock values block = All (IsSoundInstr values) block.instrs

abbrev pub IsSoundFunction : IrFunction → Type 0
IsSoundFunction function = All (IsSoundBlock function.values) function.blocks
