-- ===== src/Lowering/Context.antt =====
-- src/ir/Lowering.cpp: `LoweringContext`. The operations are a state monad; `logic_error` is the
-- exception of `blockAt`, and `undefined` a read out of range or of an empty optional. Counters are
-- plain numbers: a function has fewer than 2^32 values and blocks.
use asm_studio.Prelude.{
  ℕ, ◌+◌, Option, none, some, List, [], ◌∷◌, ◌++◌, String, str_eq, if◌then◌else◌, length, get_elem?,
  set, lookup_id, emplace,
}
use asm_studio.Support.Types.{DataType}
use asm_studio.Ir.{IrConstant, IrValue, IrInstr, IrBlock, IrFunction}

pub record LoweringContext : Type 0 where
  pub function : IrFunction
  pub next_value : ℕ
  pub next_block : ℕ
  pub loop_count : ℕ
  pub if_count : ℕ
  pub variable_table : List (String × ℕ)
  pub block_index : List (ℕ × ℕ)

pub data Lowered {ℓ} (A : Type ℓ) : Type ℓ where
  ok : A → Lowered A
  logic_error : Lowered A
  undefined : Lowered A

abbrev pub L : Type 0 → Type 0
L A = LoweringContext → Lowered (A × LoweringContext)

abbrev pub then_do :
    {A B : Type 0} → Lowered (A × LoweringContext) → (A → L B) → Lowered (B × LoweringContext)
then_do (ok (a, c)) f = f a c
then_do logic_error f = logic_error
then_do undefined f = undefined

infixl 5 ◌>>=◌ ◌>>◌
abbrev pub ◌>>=◌ : {A B : Type 0} → L A → (A → L B) → L B
◌>>=◌ m f c = then_do (m c) f

abbrev pub ◌>>◌ : {B : Type 0} → L (Unit {0}) → L B → L B
◌>>◌ m k c = then_do (m c) (λ _. k)

abbrev pub return : {A : Type 0} → A → L A
return a c = ok (a, c)

unfoldable pub alloc_value : DataType → Option IrConstant → L ℕ
alloc_value type constant c = ok (
  c.next_value,
  record c {
    next_value = c.next_value + 1;
    function = record (c.function) {
      values = c.function.values ++ record { type = type; constant = constant } ∷ [];
    };
  },
)

unfoldable pub alloc_block : String → L ℕ
alloc_block name c = ok (
  c.next_block,
  record c {
    next_block = c.next_block + 1;
    function = record (c.function) {
      blocks = c.function.blocks ++ record { name = name; id = c.next_block; instrs = [] } ∷ [];
    };
    block_index = emplace c.next_block (length c.function.blocks) c.block_index;
  },
)

abbrev pub append_at :
    LoweringContext → IrInstr → ℕ → Option IrBlock → Lowered (Unit {0} × LoweringContext)
append_at c i index none = logic_error
append_at c i index (some block) = ok (
  tt,
  record c {
    function = record (c.function) {
      blocks = set c.function.blocks index (record block { instrs = block.instrs ++ i ∷ [] });
    };
  },
)

-- `blockAt` throws on an identifier that it does not know.
abbrev pub emit_at : LoweringContext → IrInstr → Option ℕ → Lowered (Unit {0} × LoweringContext)
emit_at c i none = logic_error
emit_at c i (some index) = append_at c i index (get_elem? c.function.blocks index)

unfoldable pub emit : ℕ → IrInstr → L (Unit {0})
emit block_id i c = emit_at c i (lookup_id block_id c.block_index)

abbrev pub type_or_undefined :
    LoweringContext → Option IrValue → Lowered (DataType × LoweringContext)
type_or_undefined c none = undefined
type_or_undefined c (some value) = ok (value.type, c)

-- `valueAt(id).type`
unfoldable pub type_at : ℕ → L DataType
type_at id c = type_or_undefined c (get_elem? c.function.values id)

-- `insert_or_assign`
abbrev pub insert_or_assign : String → ℕ → List (String × ℕ) → List (String × ℕ)
insert_or_assign name id [] = (name, id) ∷ []
insert_or_assign name id ((key, old) ∷ table) =
    if str_eq key name then (key, id) ∷ table else (key, old) ∷ insert_or_assign name id table

abbrev pub lookup_name : String → List (String × ℕ) → Option ℕ
lookup_name name [] = none
lookup_name name ((key, id) ∷ table) = if str_eq key name then some id else lookup_name name table

unfoldable pub set_variable : String → ℕ → L (Unit {0})
set_variable name id c =
    ok (tt, record c { variable_table = insert_or_assign name id c.variable_table })

unfoldable pub lookup_variable : String → L (Option ℕ)
lookup_variable name c = ok (lookup_name name c.variable_table, c)

unfoldable pub next_loop_index : L ℕ
next_loop_index c = ok (c.loop_count, record c { loop_count = c.loop_count + 1 })

unfoldable pub next_if_index : L ℕ
next_if_index c = ok (c.if_count, record c { if_count = c.if_count + 1 })

-- Reading an empty optional is undefined.
abbrev pub value_of : {A : Type 0} → Option A → L A
value_of none c = undefined
value_of (some a) c = ok (a, c)
