-- ===== src/Support/Types.antt =====
-- include/asmstudio/support/Types.hpp: the enumerations and the questions asked of them. A
-- `BlockId` or a `ValueId` is its number.
use asm_studio.Prelude.{Bool, true, false, String}

pub data DataType : Type 0 where
  int8 int16 int32 int64 : DataType
  uint8 uint16 uint32 uint64 : DataType
  float32 float64 bool ptr void : DataType

pub data OptimizationLevel : Type 0 where
  none basic aggressive experimental : OptimizationLevel

pub data BinOp : Type 0 where
  add sub mul div modulo and or xor shl shr : BinOp

pub data UnaryOp : Type 0 where
  neg not bit_not : UnaryOp

pub data CmpKind : Type 0 where
  lt le eq ne ge gt : CmpKind

unfoldable pub is_integer_type : DataType → Bool
is_integer_type DataType.float32 = false
is_integer_type DataType.float64 = false
is_integer_type DataType.void = false
is_integer_type _ = true

unfoldable pub is_float_type : DataType → Bool
is_float_type DataType.float32 = true
is_float_type DataType.float64 = true
is_float_type _ = false

unfoldable pub is_signed_type : DataType → Bool
is_signed_type DataType.int8 = true
is_signed_type DataType.int16 = true
is_signed_type DataType.int32 = true
is_signed_type DataType.int64 = true
is_signed_type _ = false

unfoldable pub data_type_name : DataType → String
data_type_name DataType.int8 = "i8"
data_type_name DataType.int16 = "i16"
data_type_name DataType.int32 = "i32"
data_type_name DataType.int64 = "i64"
data_type_name DataType.uint8 = "u8"
data_type_name DataType.uint16 = "u16"
data_type_name DataType.uint32 = "u32"
data_type_name DataType.uint64 = "u64"
data_type_name DataType.float32 = "f32"
data_type_name DataType.float64 = "f64"
data_type_name DataType.bool = "bool"
data_type_name DataType.ptr = "ptr"
data_type_name DataType.void = "void"

unfoldable pub cmp_kind_name : CmpKind → String
cmp_kind_name CmpKind.lt = "lt"
cmp_kind_name CmpKind.le = "le"
cmp_kind_name CmpKind.eq = "eq"
cmp_kind_name CmpKind.ne = "ne"
cmp_kind_name CmpKind.ge = "ge"
cmp_kind_name CmpKind.gt = "gt"

unfoldable pub bin_op_name : BinOp → String
bin_op_name BinOp.add = "add"
bin_op_name BinOp.sub = "sub"
bin_op_name BinOp.mul = "mul"
bin_op_name BinOp.div = "div"
bin_op_name BinOp.modulo = "mod"
bin_op_name BinOp.and = "and"
bin_op_name BinOp.or = "or"
bin_op_name BinOp.xor = "xor"
bin_op_name BinOp.shl = "shl"
bin_op_name BinOp.shr = "shr"
