-- ===== src/Ir.antt =====
-- include/asmstudio/ir/IRTypes.hpp: the intermediate representation that all parts share.
-- A double is its 64-bit pattern, a hash map is a list of pairs.
pub mod Constants
use asm_studio.Prelude.{
  ℕ, zero, suc, ◌+◌, Bool, true, false, ◌||◌, String, Option, none, some, List, [], ◌∷◌, str_eq,
  ◌==◌, if◌then◌else◌, length, get_elem?, is_empty, lookup_id, emplace,
}
use asm_studio.Prelude.Int.{ℤ}
use asm_studio.Support.Types.{DataType, CmpKind}

-- std::variant<int64_t, uint64_t, double, bool>, the type of `IRConstant` and of `RegValue`.
pub data RegValue : Type 0 where
  int64 : ℤ → RegValue
  uint64 : ℕ → RegValue
  double : ℕ → RegValue
  bool : Bool → RegValue

abbrev pub IrConstant : Type 0
IrConstant = RegValue

pub data IrOp : Type 0 where
  const copy add sub mul div modulo and or xor shl shr neg not cmp jmp br_true call ret load : IrOp
  store : IrOp

unfoldable pub ir_op_name : IrOp → String
ir_op_name IrOp.const = "const"
ir_op_name IrOp.copy = "copy"
ir_op_name IrOp.add = "add"
ir_op_name IrOp.sub = "sub"
ir_op_name IrOp.mul = "mul"
ir_op_name IrOp.div = "div"
ir_op_name IrOp.modulo = "mod"
ir_op_name IrOp.and = "and"
ir_op_name IrOp.or = "or"
ir_op_name IrOp.xor = "xor"
ir_op_name IrOp.shl = "shl"
ir_op_name IrOp.shr = "shr"
ir_op_name IrOp.neg = "neg"
ir_op_name IrOp.not = "not"
ir_op_name IrOp.cmp = "cmp"
ir_op_name IrOp.jmp = "jmp"
ir_op_name IrOp.br_true = "brtrue"
ir_op_name IrOp.call = "call"
ir_op_name IrOp.ret = "ret"
ir_op_name IrOp.load = "load"
ir_op_name IrOp.store = "store"

unfoldable pub is_arithmetic_op : IrOp → Bool
is_arithmetic_op IrOp.add = true
is_arithmetic_op IrOp.sub = true
is_arithmetic_op IrOp.mul = true
is_arithmetic_op IrOp.div = true
is_arithmetic_op IrOp.modulo = true
is_arithmetic_op IrOp.neg = true
is_arithmetic_op IrOp.and = true
is_arithmetic_op IrOp.or = true
is_arithmetic_op IrOp.xor = true
is_arithmetic_op IrOp.shl = true
is_arithmetic_op IrOp.shr = true
is_arithmetic_op _ = false

abbrev pub is_jmp : IrOp → Bool
is_jmp IrOp.jmp = true
is_jmp _ = false

abbrev pub is_br_true : IrOp → Bool
is_br_true IrOp.br_true = true
is_br_true _ = false

abbrev pub is_ret : IrOp → Bool
is_ret IrOp.ret = true
is_ret _ = false

pub record IrValue : Type 0 where
  pub type : DataType
  pub constant : Option IrConstant

abbrev pub constant_of : Option IrValue → Option IrConstant
constant_of none = none
constant_of (some value) = value.constant

-- `values[id].constant`, behind the test that the identifier is in range.
abbrev pub constant_at : List IrValue → ℕ → Option IrConstant
constant_at values id = constant_of (get_elem? values id)

pub record IrInstr : Type 0 where
  pub op : IrOp
  pub inputs : List ℕ
  pub output : Option ℕ
  pub true_target : Option ℕ
  pub false_target : Option ℕ
  pub callee : Option String
  pub cmp_kind : Option CmpKind
  pub const_val : Option IrConstant

-- `IRInstr instruction{}`
abbrev pub empty_instr : IrOp → IrInstr
empty_instr op = record {
  op = op;
  inputs = [];
  output = none;
  true_target = none;
  false_target = none;
  callee = none;
  cmp_kind = none;
  const_val = none;
}

unfoldable pub is_terminator : IrInstr → Bool
is_terminator i = is_jmp i.op || is_br_true i.op || is_ret i.op

pub record IrBlock : Type 0 where
  pub name : String
  pub id : ℕ
  pub instrs : List IrInstr

pub record IrFunction : Type 0 where
  pub name : String
  pub blocks : List IrBlock
  pub values : List IrValue
  pub block_index : List (ℕ × ℕ)

unfoldable pub entry_block : IrFunction → Option IrBlock
entry_block function = get_elem? function.blocks 0

-- The linear search of `findBlock`.
abbrev pub find_by_id : ℕ → List IrBlock → Option IrBlock
find_by_id block_id [] = none
find_by_id block_id (block ∷ blocks) =
    if block.id == block_id then some block else find_by_id block_id blocks

-- `blocks[it->second]`, behind the test that the index is in range.
abbrev pub block_at_index : List IrBlock → Option ℕ → Option IrBlock
block_at_index blocks none = none
block_at_index blocks (some index) = get_elem? blocks index

unfoldable pub find_block : IrFunction → ℕ → Option IrBlock
find_block function block_id =
    if is_empty function.block_index
    then find_by_id block_id function.blocks
    else block_at_index function.blocks (lookup_id block_id function.block_index)

abbrev pub index_blocks : ℕ → List IrBlock → List (ℕ × ℕ) → List (ℕ × ℕ)
index_blocks i [] index = index
index_blocks i (block ∷ blocks) index = index_blocks (i + 1) blocks (emplace block.id i index)

unfoldable pub rebuild_block_index : IrFunction → IrFunction
rebuild_block_index function = record function { block_index = index_blocks 0 function.blocks [] }

pub record IrModule : Type 0 where
  pub name : String
  pub functions : List IrFunction

abbrev pub find_by_name : String → List IrFunction → Option IrFunction
find_by_name function_name [] = none
find_by_name function_name (function ∷ functions) =
    if str_eq function.name function_name
    then some function
    else find_by_name function_name functions

unfoldable pub find_function : IrModule → String → Option IrFunction
find_function m function_name = find_by_name function_name m.functions
