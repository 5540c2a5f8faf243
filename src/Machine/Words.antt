-- ===== src/Machine/Words.antt =====
-- int64_t and uint64_t. A signed result outside the range is undefined; conversions and shifts
-- follow C++20, where they are modular.
use Prim.Native.Nat.{bit_and, bit_or, bit_xor}
use asm_studio.Prelude.{ℕ, ◌+◌, ◌-◌, ◌*◌, ◌/◌, ◌%◌, ◌^◌, Bool, not, ◌&&◌, ltb, if◌then◌else◌}
use asm_studio.Prelude.Int.{ℤ, pos, negsuc, ◌+ℤ◌, ◌-ℤ◌, ◌*ℤ◌, neg_ℤ, div_ℤ, mod_ℤ, is_zero_ℤ}
use asm_studio.Machine.Ub.{Ub, defined, undefined, when_defined}

abbrev pub in_int64 : ℤ → Bool
in_int64 (pos n) = ltb n (2 ^ 63)
in_int64 (negsuc n) = ltb n (2 ^ 63)

-- static_cast<uint64_t>: the two's complement pattern.
abbrev pub to_uint64 : ℤ → ℕ
to_uint64 (pos n) = n % 2 ^ 64
to_uint64 (negsuc n) = 2 ^ 64 - 1 - n % 2 ^ 64

-- The signed integer of w bits with a pattern.
abbrev pub signed_of : ℕ → ℕ → ℤ
signed_of half pattern = if ltb pattern half then pos pattern else negsuc (2 * half - 1 - pattern)

-- static_cast<int64_t> and static_cast<int>.
abbrev pub to_int64 : ℕ → ℤ
to_int64 n = signed_of (2 ^ 63) (n % 2 ^ 64)

abbrev pub to_int32 : ℕ → ℤ
to_int32 n = signed_of (2 ^ 31) (n % 2 ^ 32)

abbrev pub checked : ℤ → Ub ℤ
checked z = when_defined (in_int64 z) z

unfoldable pub int64_add : ℤ → ℤ → Ub ℤ
int64_add a b = checked (a +ℤ b)

unfoldable pub int64_sub : ℤ → ℤ → Ub ℤ
int64_sub a b = checked (a -ℤ b)

unfoldable pub int64_mul : ℤ → ℤ → Ub ℤ
int64_mul a b = checked (a *ℤ b)

unfoldable pub int64_neg : ℤ → Ub ℤ
int64_neg a = checked (neg_ℤ a)

-- Division by zero is undefined, and so is a quotient that does not fit.
unfoldable pub int64_div : ℤ → ℤ → Ub ℤ
int64_div a b = when_defined (not (is_zero_ℤ b) && in_int64 (div_ℤ a b)) (div_ℤ a b)

unfoldable pub int64_mod : ℤ → ℤ → Ub ℤ
int64_mod a b = when_defined (not (is_zero_ℤ b) && in_int64 (div_ℤ a b)) (mod_ℤ a b)

-- ~value
unfoldable pub int64_not : ℤ → ℤ
int64_not (pos n) = negsuc n
int64_not (negsuc n) = pos n

unfoldable pub int64_and : ℤ → ℤ → ℤ
int64_and a b = to_int64 (bit_and (to_uint64 a) (to_uint64 b))

unfoldable pub int64_or : ℤ → ℤ → ℤ
int64_or a b = to_int64 (bit_or (to_uint64 a) (to_uint64 b))

unfoldable pub int64_xor : ℤ → ℤ → ℤ
int64_xor a b = to_int64 (bit_xor (to_uint64 a) (to_uint64 b))

-- A shift count, as an `int`, is defined from 0 to 63.
abbrev pub shift_count : ℤ → Ub ℕ
shift_count (pos n) = when_defined (ltb n 64) n
shift_count (negsuc n) = undefined

abbrev pub shifted {ℓ} : {A : Type ℓ} → Ub ℕ → (ℕ → A) → Ub A
shifted (defined n) f = defined (f n)
shifted undefined f = undefined

abbrev pub shift_right : ℤ → ℕ → ℤ
shift_right (pos a) n = pos (a / 2 ^ n)
shift_right (negsuc a) n = negsuc (a / 2 ^ n)

unfoldable pub int64_shl : ℤ → ℤ → Ub ℤ
int64_shl a b = shifted (shift_count (to_int32 (to_uint64 b))) (λ n. to_int64 (to_uint64 a * 2 ^ n))

unfoldable pub int64_shr : ℤ → ℤ → Ub ℤ
int64_shr a b = shifted (shift_count (to_int32 (to_uint64 b))) (λ n. shift_right a n)

unfoldable pub uint64_add : ℕ → ℕ → ℕ
uint64_add a b = (a + b) % 2 ^ 64

unfoldable pub uint64_sub : ℕ → ℕ → ℕ
uint64_sub a b = (a + 2 ^ 64 - b) % 2 ^ 64

unfoldable pub uint64_mul : ℕ → ℕ → ℕ
uint64_mul a b = (a * b) % 2 ^ 64

unfoldable pub uint64_div : ℕ → ℕ → Ub ℕ
uint64_div a b = when_defined (ltb 0 b) (a / b)

unfoldable pub uint64_mod : ℕ → ℕ → Ub ℕ
uint64_mod a b = when_defined (ltb 0 b) (a % b)

-- ~value
unfoldable pub uint64_not : ℕ → ℕ
uint64_not a = 2 ^ 64 - 1 - a

unfoldable pub uint64_shl : ℕ → ℕ → Ub ℕ
uint64_shl a b = shifted (shift_count (to_int32 b)) (λ n. (a * 2 ^ n) % 2 ^ 64)

unfoldable pub uint64_shr : ℕ → ℕ → Ub ℕ
uint64_shr a b = shifted (shift_count (to_int32 b)) (λ n. a / 2 ^ n)
