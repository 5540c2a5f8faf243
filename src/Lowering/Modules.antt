-- ===== src/Lowering/Modules.antt =====
-- `lower` of src/ir/Lowering.cpp over the functions of a module.
use asm_studio.Prelude.{ℕ, suc, ◌≡◌, refl, ap, true, String, List, [], ◌∷◌, length, All}
use asm_studio.Ir.{IrFunction, IrModule}
use asm_studio.Dsl.Builder.{Function, statements}
use asm_studio.Lowering.Context.{Lowered, ok, logic_error, undefined}
use asm_studio.Lowering.Function.{lower_function, lower_functions, add_lowered, in_module, lower}
use asm_studio.Lowering.Total.{all_assign_to}
use asm_studio.Lowering.WellFormed.{
  variable_names, IsWellFormedFunction, LowersTo, lower_function-IsWellFormed,
}

-- Every assignment is to a variable of the function.
abbrev pub AssignsOwn : Function → Type 0
AssignsOwn function = all_assign_to (variable_names function.vars) (statements function) ≡ true

-- What holds of a lowered module, if there is one.
abbrev pub ModuleLowersTo : (IrModule → Type 0) → Lowered IrModule → Type 0
ModuleLowersTo P (ok m) = P m
ModuleLowersTo P logic_error = ⊥
ModuleLowersTo P undefined = ⊥

-- As many well-formed functions as were given.
abbrev LowersAll : List Function → Lowered (List IrFunction) → Type 0
LowersAll functions (ok lowered) =
    All IsWellFormedFunction lowered × (length lowered ≡ length functions)
LowersAll functions logic_error = ⊥
LowersAll functions undefined = ⊥

abbrev pub LowersModule : String → List Function → Lowered IrModule → Type 0
LowersModule name functions (ok m) =
    (m.name ≡ name) × All IsWellFormedFunction m.functions × (length m.functions ≡ length functions)
LowersModule name functions logic_error = ⊥
LowersModule name functions undefined = ⊥

add_lowered-LowersAll :
    (function : Function) (functions : List Function) (r : Lowered IrFunction)
    (rest : Lowered (List IrFunction))
    → LowersTo IsWellFormedFunction r
    → LowersAll functions rest
    → LowersAll (function ∷ functions) (add_lowered r rest)
add_lowered-LowersAll function functions (ok g) (ok gs) h k = ((h, k.0), ap suc k.1)
add_lowered-LowersAll function functions (ok g) logic_error h k = k
add_lowered-LowersAll function functions (ok g) undefined h k = k
add_lowered-LowersAll function functions logic_error rest h k = h
add_lowered-LowersAll function functions undefined rest h k = h

lower_functions-LowersAll :
    (label : String → ℕ → String) (functions : List Function)
    → All AssignsOwn functions
    → LowersAll functions (lower_functions label functions)
lower_functions-LowersAll label [] h = (tt, refl)
lower_functions-LowersAll label (function ∷ functions) h =
    add_lowered-LowersAll function functions (lower_function label function) _
      (lower_function-IsWellFormed label function h.0)
      (lower_functions-LowersAll label functions h.1)

-- A module of functions whose assignments are all to their own variables is lowered to a module of
-- the given name, with as many functions, each of them well formed.
pub lower-LowersModule :
    (label : String → ℕ → String) (module_name : String) (functions : List Function)
    → All AssignsOwn functions
    → LowersModule module_name functions (lower label module_name functions)
unfolding lower
lower-LowersModule label module_name functions h =
    go (lower_functions label functions) (lower_functions-LowersAll label functions h)
  where
    go :
        (r : Lowered (List IrFunction))
        → LowersAll functions r
        → LowersModule module_name functions (in_module module_name r)
    go (ok gs) k = (refl, k.0, k.1)
    go logic_error k = k
    go undefined k = k
