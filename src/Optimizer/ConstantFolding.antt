-- ===== src/Optimizer/ConstantFolding.antt =====
-- src/transforms/passes/ConstantFoldingPass.cpp. The pass changes the table of values as it walks,
-- so the table is threaded through the blocks.
use asm_studio.Prelude.{
  ℕ, Bool, true, false, not, ◌||◌, ◌&&◌, Option, none, some, List, [], ◌∷◌, if◌then◌else◌,
  get_elem?, set, is_some, is_empty,
}
use asm_studio.Prelude.Int.{ℤ, is_zero_ℤ}
use asm_studio.Support.Types.{CmpKind}
use asm_studio.Machine.Ub.{Ub, defined, undefined, ◌>>=◌, map_ub}
use asm_studio.Machine.Words.{
  int64_add, int64_sub, int64_mul, int64_div, int64_mod, int64_and, int64_or, int64_xor, int64_neg,
  int64_not, uint64_not, to_int64, to_uint64,
}
use asm_studio.Machine.Floats.{Floats}
use asm_studio.Ir.{
  IrOp, IrConstant, int64, uint64, double, bool, IrValue, IrInstr, IrBlock, IrFunction, constant_at,
}
use asm_studio.Sim.Ops.{compare_int64}

unfoldable pub is_foldable_op : IrOp → Bool
is_foldable_op IrOp.add = true
is_foldable_op IrOp.sub = true
is_foldable_op IrOp.mul = true
is_foldable_op IrOp.div = true
is_foldable_op IrOp.modulo = true
is_foldable_op IrOp.and = true
is_foldable_op IrOp.or = true
is_foldable_op IrOp.xor = true
is_foldable_op IrOp.neg = true
is_foldable_op IrOp.not = true
is_foldable_op IrOp.cmp = true
is_foldable_op _ = false

abbrev pub inputs_constant : List ℕ → List IrValue → Bool
inputs_constant [] values = true
inputs_constant (input ∷ inputs) values =
    is_some (constant_at values input) && inputs_constant inputs values

unfoldable pub all_inputs_are_constant : IrInstr → List IrValue → Bool
all_inputs_are_constant i values = not (is_empty i.inputs) && inputs_constant i.inputs values

-- Each case compares as C++ does; the result is a bool constant.
unfoldable pub fold_cmp : CmpKind → ℤ → ℤ → Option IrConstant
unfolding compare_int64
fold_cmp CmpKind.lt a b = some (bool (compare_int64 CmpKind.lt a b))
fold_cmp CmpKind.le a b = some (bool (compare_int64 CmpKind.le a b))
fold_cmp CmpKind.eq a b = some (bool (compare_int64 CmpKind.eq a b))
fold_cmp CmpKind.ne a b = some (bool (compare_int64 CmpKind.ne a b))
fold_cmp CmpKind.ge a b = some (bool (compare_int64 CmpKind.ge a b))
fold_cmp CmpKind.gt a b = some (bool (compare_int64 CmpKind.gt a b))

abbrev pub some_int64 : Ub ℤ → Ub (Option IrConstant)
some_int64 r = map_ub (λ z. some (int64 z)) r

abbrev pub fold_kind : Option CmpKind → ℤ → ℤ → Option IrConstant
fold_kind none a b = none
fold_kind (some kind) a b = fold_cmp kind a b

unfoldable pub fold_binary_int : IrOp → ℤ → ℤ → Option CmpKind → Ub (Option IrConstant)
fold_binary_int IrOp.add a b kind = some_int64 (int64_add a b)
fold_binary_int IrOp.sub a b kind = some_int64 (int64_sub a b)
fold_binary_int IrOp.mul a b kind = some_int64 (int64_mul a b)
fold_binary_int IrOp.div a b kind = if is_zero_ℤ b then defined none else some_int64 (int64_div a b)
fold_binary_int IrOp.modulo a b kind =
    if is_zero_ℤ b then defined none else some_int64 (int64_mod a b)
fold_binary_int IrOp.and a b kind = defined (some (int64 (int64_and a b)))
fold_binary_int IrOp.or a b kind = defined (some (int64 (int64_or a b)))
fold_binary_int IrOp.xor a b kind = defined (some (int64 (int64_xor a b)))
fold_binary_int IrOp.cmp a b kind = defined (fold_kind kind a b)
fold_binary_int _ a b kind = defined none

abbrev pub fold_neg : Floats → IrConstant → Ub IrConstant
fold_neg f (int64 v) = map_ub int64 (int64_neg v)
fold_neg f (uint64 v) = map_ub (λ z. uint64 (to_uint64 z)) (int64_neg (to_int64 v))
fold_neg f (double v) = defined (double (f.neg v))
fold_neg f (bool v) = defined (bool (not v))

abbrev pub fold_not : Floats → IrConstant → IrConstant
fold_not f (int64 v) = int64 (int64_not v)
fold_not f (uint64 v) = uint64 (uint64_not v)
fold_not f (double v) = double f.zero
fold_not f (bool v) = bool (not v)

unfoldable pub fold_unary : Floats → IrOp → IrConstant → Ub (Option IrConstant)
fold_unary f IrOp.neg operand = map_ub some (fold_neg f operand)
fold_unary f IrOp.not operand = defined (some (fold_not f operand))
fold_unary f _ operand = defined none

-- The table, the instruction, and whether it changed.
abbrev pub Folded : Type 0
Folded = List IrValue × IrInstr × Bool

-- `function.values[id].constant = c`, which is undefined out of range.
abbrev pub set_constant : List IrValue → ℕ → IrConstant → Option IrValue → Ub (List IrValue)
set_constant values id c none = undefined
set_constant values id c (some v) = defined (set values id (record v { constant = some c }))

abbrev pub kind_after : Bool → Option CmpKind → Option CmpKind
kind_after true kind = none
kind_after false kind = kind

-- The instruction becomes a constant. Two inputs: the comparison is cleared as well.
unfoldable pub become_constant : Bool → List IrValue → IrInstr → ℕ → Option IrConstant → Ub Folded
become_constant clear values i output none = defined (values, i, false)
become_constant clear values i output (some c) = do
  values' ← set_constant values output c (get_elem? values output)
  defined (
    values',
    record i {
      op = IrOp.const;
      const_val = some c;
      cmp_kind = kind_after clear i.cmp_kind;
      inputs = [];
    },
    true,
  )

abbrev pub fold_pair :
    List IrValue → IrInstr → ℕ → Option IrConstant → Option IrConstant → Ub Folded
fold_pair values i output (some (int64 a)) (some (int64 b)) = do
  folded ← fold_binary_int i.op a b i.cmp_kind
  become_constant true values i output folded
fold_pair values i output left right = defined (values, i, false)

abbrev pub fold_single : Floats → List IrValue → IrInstr → ℕ → Option IrConstant → Ub Folded
fold_single f values i output none = defined (values, i, false)
fold_single f values i output (some operand) = do
  folded ← fold_unary f i.op operand
  become_constant false values i output folded

-- By the number of inputs.
unfoldable pub fold_inputs : Floats → List IrValue → IrInstr → ℕ → List ℕ → Ub Folded
fold_inputs f values i output (left ∷ right ∷ []) =
    fold_pair values i output (constant_at values left) (constant_at values right)
fold_inputs f values i output (operand ∷ []) =
    fold_single f values i output (constant_at values operand)
fold_inputs f values i output inputs = defined (values, i, false)

abbrev pub fold_output : Floats → List IrValue → IrInstr → Option ℕ → Ub Folded
fold_output f values i none = defined (values, i, false)
fold_output f values i (some output) =
    if is_foldable_op i.op
    then fold_inputs f values i output i.inputs
    else defined (values, i, false)

unfoldable pub fold_instr : Floats → List IrValue → IrInstr → Ub Folded
fold_instr f values i =
    if all_inputs_are_constant i values
    then fold_output f values i i.output
    else defined (values, i, false)

unfoldable pub fold_instrs :
    Floats → List IrValue → List IrInstr → Ub (List IrValue × List IrInstr × Bool)
fold_instrs f values [] = defined (values, [], false)
fold_instrs f values (i ∷ instrs) = do
  first ← fold_instr f values i
  rest ← fold_instrs f first.0 instrs
  defined (rest.0, first.1 ∷ rest.1, first.2 || rest.2)

unfoldable pub fold_blocks :
    Floats → List IrValue → List IrBlock → Ub (List IrValue × List IrBlock × Bool)
fold_blocks f values [] = defined (values, [], false)
fold_blocks f values (block ∷ blocks) = do
  first ← fold_instrs f values block.instrs
  rest ← fold_blocks f first.0 blocks
  defined (rest.0, record block { instrs = first.1 } ∷ rest.1, first.2 || rest.2)

-- `ConstantFolding::run`
unfoldable pub constant_folding : Floats → IrFunction → Ub (IrFunction × Bool)
constant_folding f function = do
  folded ← fold_blocks f function.values function.blocks
  defined (record function { values = folded.0; blocks = folded.1 }, folded.2)
