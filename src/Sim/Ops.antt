-- ===== src/Sim/Ops.antt =====
-- src/sim/Simulator.cpp, its anonymous namespace and the visitors of its handlers: what an operator
-- does to two operands of any of the four types.
use asm_studio.Prelude.{
  ℕ, Bool, true, false, not, Option, none, some, ltb, leb, ◌==◌, if◌then◌else◌,
}
use asm_studio.Prelude.Int.{ℤ, pos, ltb_ℤ, leb_ℤ, eqb_ℤ, is_zero_ℤ}
use asm_studio.Support.Types.{CmpKind}
use asm_studio.Machine.Ub.{Ub, defined, map_ub}
use asm_studio.Machine.Words.{
  to_uint64, to_int64, int64_add, int64_sub, int64_mul, int64_div, int64_mod, int64_and, int64_or,
  int64_xor, int64_shl, int64_shr, int64_neg, int64_not, uint64_add, uint64_sub, uint64_mul,
  uint64_div, uint64_mod, uint64_shl, uint64_shr, uint64_not,
}
use asm_studio.Machine.Floats.{Floats}
use asm_studio.Ir.{IrOp, RegValue, int64, uint64, double, bool, IrConstant}
use Prim.Native.Nat.{bit_and, bit_or, bit_xor}

-- The two operands converted to std::common_type_t. Two bools meet as ints: their arithmetic is
-- promoted, and its result is never near the bounds of `int`.
pub data Operands : Type 0 where
  int64s : ℤ → ℤ → Operands
  uint64s : ℕ → ℕ → Operands
  doubles : ℕ → ℕ → Operands

abbrev pub int_of_bool : Bool → ℤ
int_of_bool true = pos 1
int_of_bool false = pos 0

abbrev pub nat_of_bool : Bool → ℕ
nat_of_bool true = 1
nat_of_bool false = 0

-- value != 0.0
abbrev pub double_nonzero : Floats → ℕ → Bool
double_nonzero f value = not (f.eq value f.zero)

unfoldable pub to_common : Floats → RegValue → RegValue → Operands
to_common f (int64 a) (int64 b) = int64s a b
to_common f (int64 a) (uint64 b) = uint64s (to_uint64 a) b
to_common f (int64 a) (double b) = doubles (f.of_int64 a) b
to_common f (int64 a) (bool b) = int64s a (int_of_bool b)
to_common f (uint64 a) (int64 b) = uint64s a (to_uint64 b)
to_common f (uint64 a) (uint64 b) = uint64s a b
to_common f (uint64 a) (double b) = doubles (f.of_uint64 a) b
to_common f (uint64 a) (bool b) = uint64s a (nat_of_bool b)
to_common f (double a) (int64 b) = doubles a (f.of_int64 b)
to_common f (double a) (uint64 b) = doubles a (f.of_uint64 b)
to_common f (double a) (double b) = doubles a b
to_common f (double a) (bool b) = doubles a (f.of_int64 (int_of_bool b))
to_common f (bool a) (int64 b) = int64s (int_of_bool a) b
to_common f (bool a) (uint64 b) = uint64s (nat_of_bool a) b
to_common f (bool a) (double b) = doubles (f.of_int64 (int_of_bool a)) b
to_common f (bool a) (bool b) = int64s (int_of_bool a) (int_of_bool b)

unfoldable pub int64_binary : IrOp → ℤ → ℤ → Ub ℤ
int64_binary IrOp.add a b = int64_add a b
int64_binary IrOp.sub a b = int64_sub a b
int64_binary IrOp.mul a b = int64_mul a b
int64_binary IrOp.div a b = int64_div a b
int64_binary IrOp.modulo a b = int64_mod a b
int64_binary IrOp.and a b = defined (int64_and a b)
int64_binary IrOp.or a b = defined (int64_or a b)
int64_binary IrOp.xor a b = defined (int64_xor a b)
int64_binary IrOp.shl a b = int64_shl a b
int64_binary IrOp.shr a b = int64_shr a b
int64_binary _ a b = defined a

unfoldable pub uint64_binary : IrOp → ℕ → ℕ → Ub ℕ
uint64_binary IrOp.add a b = defined (uint64_add a b)
uint64_binary IrOp.sub a b = defined (uint64_sub a b)
uint64_binary IrOp.mul a b = defined (uint64_mul a b)
uint64_binary IrOp.div a b = uint64_div a b
uint64_binary IrOp.modulo a b = uint64_mod a b
uint64_binary IrOp.and a b = defined (bit_and a b)
uint64_binary IrOp.or a b = defined (bit_or a b)
uint64_binary IrOp.xor a b = defined (bit_xor a b)
uint64_binary IrOp.shl a b = uint64_shl a b
uint64_binary IrOp.shr a b = uint64_shr a b
uint64_binary _ a b = defined a

-- `none` where the visitor returns `leftArg`.
unfoldable pub double_binary : Floats → IrOp → ℕ → ℕ → Option ℕ
double_binary f IrOp.add a b = some (f.add a b)
double_binary f IrOp.sub a b = some (f.sub a b)
double_binary f IrOp.mul a b = some (f.mul a b)
double_binary f IrOp.div a b = some (f.div a b)
double_binary f IrOp.modulo a b = some (f.fmod a b)
double_binary f _ a b = none

-- static_cast<LeftType> of a result, the left operand giving the type.
unfoldable pub cast_int64 : Floats → RegValue → ℤ → RegValue
cast_int64 f (int64 _) z = int64 z
cast_int64 f (uint64 _) z = uint64 (to_uint64 z)
cast_int64 f (double _) z = double (f.of_int64 z)
cast_int64 f (bool _) z = bool (not (is_zero_ℤ z))

unfoldable pub cast_uint64 : Floats → RegValue → ℕ → RegValue
cast_uint64 f (int64 _) n = int64 (to_int64 n)
cast_uint64 f (uint64 _) n = uint64 n
cast_uint64 f (double _) n = double (f.of_uint64 n)
cast_uint64 f (bool _) n = bool (not (n == 0))

unfoldable pub cast_double : Floats → RegValue → ℕ → Ub RegValue
cast_double f (int64 _) d = map_ub int64 (f.to_int64 d)
cast_double f (uint64 _) d = map_ub uint64 (f.to_uint64 d)
cast_double f (double _) d = defined (double d)
cast_double f (bool _) d = defined (bool (double_nonzero f d))

abbrev pub cast_or_left : Floats → RegValue → Option ℕ → Ub RegValue
cast_or_left f left none = defined left
cast_or_left f left (some d) = cast_double f left d

-- `BinaryOpVisitor`, on the operands as `to_common` converts them.
unfoldable pub visit_binary : Floats → IrOp → RegValue → Operands → Ub RegValue
visit_binary f op left (int64s a b) = map_ub (cast_int64 f left) (int64_binary op a b)
visit_binary f op left (uint64s a b) = map_ub (cast_uint64 f left) (uint64_binary op a b)
visit_binary f op left (doubles a b) = cast_or_left f left (double_binary f op a b)

unfoldable pub apply_binary_op : Floats → IrOp → RegValue → RegValue → Ub RegValue
apply_binary_op f op left right = visit_binary f op left (to_common f left right)

abbrev pub divides : IrOp → Bool
divides IrOp.div = true
divides IrOp.modulo = true
divides _ = false

abbrev pub zero_divisor : RegValue → Bool
zero_divisor (int64 value) = is_zero_ℤ value
zero_divisor (uint64 value) = value == 0
zero_divisor (double value) = false
zero_divisor (bool value) = false

unfoldable pub is_division_by_zero : IrOp → RegValue → Bool
is_division_by_zero op divisor = if divides op then zero_divisor divisor else false

unfoldable pub compare_int64 : CmpKind → ℤ → ℤ → Bool
compare_int64 CmpKind.lt a b = ltb_ℤ a b
compare_int64 CmpKind.le a b = leb_ℤ a b
compare_int64 CmpKind.eq a b = eqb_ℤ a b
compare_int64 CmpKind.ne a b = not (eqb_ℤ a b)
compare_int64 CmpKind.ge a b = leb_ℤ b a
compare_int64 CmpKind.gt a b = ltb_ℤ b a

unfoldable pub compare_uint64 : CmpKind → ℕ → ℕ → Bool
compare_uint64 CmpKind.lt a b = ltb a b
compare_uint64 CmpKind.le a b = leb a b
compare_uint64 CmpKind.eq a b = a == b
compare_uint64 CmpKind.ne a b = not (a == b)
compare_uint64 CmpKind.ge a b = leb b a
compare_uint64 CmpKind.gt a b = ltb b a

unfoldable pub compare_double : Floats → CmpKind → ℕ → ℕ → Bool
compare_double f CmpKind.lt a b = f.lt a b
compare_double f CmpKind.le a b = f.le a b
compare_double f CmpKind.eq a b = f.eq a b
compare_double f CmpKind.ne a b = not (f.eq a b)
compare_double f CmpKind.ge a b = f.le b a
compare_double f CmpKind.gt a b = f.lt b a

-- `CompareVisitor`
unfoldable pub visit_compare : Floats → CmpKind → Operands → Bool
visit_compare f kind (int64s a b) = compare_int64 kind a b
visit_compare f kind (uint64s a b) = compare_uint64 kind a b
visit_compare f kind (doubles a b) = compare_double f kind a b

unfoldable pub apply_comparison : Floats → CmpKind → RegValue → RegValue → Bool
apply_comparison f kind left right = visit_compare f kind (to_common f left right)

unfoldable pub ir_constant_to_reg_value : IrConstant → RegValue
ir_constant_to_reg_value (int64 value) = int64 value
ir_constant_to_reg_value (uint64 value) = uint64 value
ir_constant_to_reg_value (double value) = double value
ir_constant_to_reg_value (bool value) = bool value

-- The visitors of `handleUnaryOp`.
unfoldable pub unary_neg : Floats → RegValue → Ub RegValue
unary_neg f (int64 value) = map_ub int64 (int64_neg value)
unary_neg f (uint64 value) = map_ub (λ z. uint64 (to_uint64 z)) (int64_neg (to_int64 value))
unary_neg f (double value) = defined (double (f.neg value))
unary_neg f (bool value) = defined (bool (not value))

unfoldable pub unary_not : Floats → RegValue → RegValue
unary_not f (int64 value) = int64 (int64_not value)
unary_not f (uint64 value) = uint64 (uint64_not value)
unary_not f (double value) = double f.zero
unary_not f (bool value) = bool (not value)

-- The visitor of `handleBranchOp`.
unfoldable pub is_taken : Floats → RegValue → Bool
is_taken f (int64 value) = not (is_zero_ℤ value)
is_taken f (uint64 value) = not (value == 0)
is_taken f (double value) = double_nonzero f value
is_taken f (bool value) = value
