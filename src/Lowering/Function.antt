-- ===== src/Lowering/Function.antt =====
-- src/ir/Lowering.cpp: `lowerFunction` and `lower`.
use asm_studio.Prelude.{ℕ, Bool, none, some, List, [], ◌∷◌, String, str_eq, if◌then◌else◌, any}
use asm_studio.Ir.{IrOp, IrFunction, IrModule, rebuild_block_index}
use asm_studio.Dsl.Syntax.{Variable, Stmts, cons, assign_stmt}
use asm_studio.Dsl.Builder.{Function, statements}
use asm_studio.Lowering.Context.{
  L, Lowered, ok, logic_error, undefined, LoweringContext, ◌>>=◌, ◌>>◌, return, alloc_value,
  alloc_block, emit, set_variable,
}
use asm_studio.Lowering.Expr.{const_instr, operator_instr}
use asm_studio.Lowering.Stmt.{lower_statements}

-- The names assigned by the statements before the first one that is no assignment.
unfoldable pub immediately_assigned_variables : Stmts → List String
immediately_assigned_variables (cons (assign_stmt target value) rest) =
    target.name ∷ immediately_assigned_variables rest
immediately_assigned_variables _ = []

abbrev pub contains_name : String → List String → Bool
contains_name name names = any (λ n. str_eq n name) names

unfoldable pub declare_slot : Variable → L (Unit {0})
declare_slot v = do slot ← alloc_value v.type none; set_variable v.name slot

unfoldable pub declare_initialised : ℕ → Variable → L (Unit {0})
declare_initialised entry v = do
  init ← alloc_value v.type (some v.init)
  emit entry (const_instr init v.init)
  slot ← alloc_value v.type none
  emit entry (operator_instr IrOp.copy (init ∷ []) slot)
  set_variable v.name slot

unfoldable pub declare_variables : ℕ → List String → List Variable → L (Unit {0})
declare_variables entry assigned [] = return tt
declare_variables entry assigned (v ∷ vars) =
    (if contains_name v.name assigned then declare_slot v else declare_initialised entry v)
    >> declare_variables entry assigned vars

abbrev pub initial_context : String → LoweringContext
initial_context name = record {
  function = record { name = name; blocks = []; values = []; block_index = [] };
  next_value = 0;
  next_block = 0;
  loop_count = 0;
  if_count = 0;
  variable_table = [];
  block_index = [];
}

unfoldable pub lower_body : (String → ℕ → String) → Function → L ℕ
lower_body label function = do
  entry ← alloc_block "entry"
  declare_variables entry (immediately_assigned_variables (statements function)) function.vars
  lower_statements label (statements function) entry

abbrev pub finish : Lowered (ℕ × LoweringContext) → Lowered IrFunction
finish (ok (block, c)) = ok (rebuild_block_index c.function)
finish logic_error = logic_error
finish undefined = undefined

unfoldable pub lower_function : (String → ℕ → String) → Function → Lowered IrFunction
lower_function label function = finish (lower_body label function (initial_context function.name))

abbrev pub add_lowered : Lowered IrFunction → Lowered (List IrFunction) → Lowered (List IrFunction)
add_lowered (ok function) (ok functions) = ok (function ∷ functions)
add_lowered (ok function) rest = rest
add_lowered logic_error rest = logic_error
add_lowered undefined rest = undefined

abbrev pub lower_functions : (String → ℕ → String) → List Function → Lowered (List IrFunction)
lower_functions label [] = ok []
lower_functions label (function ∷ functions) =
    add_lowered (lower_function label function) (lower_functions label functions)

abbrev pub in_module : String → Lowered (List IrFunction) → Lowered IrModule
in_module name (ok functions) = ok (record { name = name; functions = functions })
in_module name logic_error = logic_error
in_module name undefined = undefined

unfoldable pub lower : (String → ℕ → String) → String → List Function → Lowered IrModule
lower label module_name functions = in_module module_name (lower_functions label functions)
