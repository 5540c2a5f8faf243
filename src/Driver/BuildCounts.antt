-- ===== src/Driver/BuildCounts.antt =====
-- `lower` of src/ir/Lowering.cpp and `Optimizer::run` of src/transforms/Optimizer.cpp: how many
-- functions a module has.
use asm_studio.Prelude.{ℕ, suc, ◌≡◌, refl, ap, String, none, some, List, [], ◌∷◌, length}
use asm_studio.Machine.Ub as Ub
use asm_studio.Ir.{IrFunction}
use asm_studio.Lowering.Context as Context
use asm_studio.Lowering.Function.{lower_functions, lower_function, add_lowered}
use asm_studio.Dsl.Builder.{Function}
use asm_studio.Optimizer.Passes.{
  PassEntry, Progress, Round, ModuleRun, run_functions, then_functions, add_function,
}

-- As many functions as were given, and the name that was given.
abbrev pub OfLength : ℕ → Context.Lowered (List IrFunction) → Type 0
OfLength n (Context.ok functions) = length functions ≡ n
OfLength n Context.logic_error = Unit
OfLength n Context.undefined = Unit

pub lower_functions-OfLength :
    (label : String → ℕ → String) (functions : List Function)
    → OfLength (length functions) (lower_functions label functions)
lower_functions-OfLength label [] = refl
lower_functions-OfLength label (function ∷ functions) =
    go (lower_function label function) (lower_functions label functions)
      (lower_functions-OfLength label functions)
  where
    go :
        (r : Context.Lowered IrFunction) (rest : Context.Lowered (List IrFunction))
        → OfLength (length functions) rest
        → OfLength (suc (length functions)) (add_lowered r rest)
    go (Context.ok g) (Context.ok gs) h = ap suc h
    go (Context.ok g) Context.logic_error h = tt
    go (Context.ok g) Context.undefined h = tt
    go Context.logic_error rest h = tt
    go Context.undefined rest h = tt

-- The optimiser keeps the number of functions.
abbrev pub RunOfLength : ℕ → ModuleRun → Type 0
RunOfLength n none = Unit
RunOfLength n (some Ub.undefined) = Unit
RunOfLength n (some (Ub.defined (functions, fired, changed))) = length functions ≡ n

pub run_functions-RunOfLength :
    (passes : List PassEntry) (fuel : ℕ) (functions : List IrFunction) (fired : List String)
    → RunOfLength (length functions) (run_functions passes fuel functions fired)
unfolding run_functions
run_functions-RunOfLength passes fuel [] fired = refl
run_functions-RunOfLength passes fuel (function ∷ functions) fired =
    go _ (λ fired'. run_functions-RunOfLength passes fuel functions fired')
  where
    added :
        (p : Progress) (r : ModuleRun)
        → RunOfLength (length functions) r
        → RunOfLength (suc (length functions)) (add_function p r)
    added p none h = tt
    added p (some Ub.undefined) h = tt
    added p (some (Ub.defined r)) h = ap suc h

    go :
        (r : Round)
        → ((fired' : List String)
            → RunOfLength (length functions) (run_functions passes fuel functions fired'))
        → RunOfLength
            (suc (length functions))
            (then_functions r (λ fired'. run_functions passes fuel functions fired'))
    go none h = tt
    go (some Ub.undefined) h = tt
    go (some (Ub.defined p)) h = added p _ (h p.fired)
