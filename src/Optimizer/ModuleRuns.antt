-- ===== src/Optimizer/ModuleRuns.antt =====
-- `Optimizer::run(IRModule&)` of src/transforms/Optimizer.cpp: the termination of the loop.
use asm_studio.Prelude.{
  ℕ, ◌<◌, ◌≡◌, refl, Bool, false, String, Option, none, some, List, [], ◌∷◌, All,
}
use asm_studio.Support.Types.{OptimizationLevel}
use asm_studio.Machine.Ub.{Ub, defined, undefined}
use asm_studio.Machine.Floats.{Floats}
use asm_studio.Ir.{IrFunction, IrModule}
use asm_studio.Optimizer.Measure.{measure}
use asm_studio.Optimizer.Passes.{
  PassEntry, Optimizer, Round, Progress, ModuleRun, add_function, then_functions, run_functions,
  in_optimizer, run_module, make_optimizer,
}
use asm_studio.Optimizer.Fixpoint.{
  IsPass, IsQuiet, Settles, run_fixpoint-Settles, make_optimizer-IsPass,
}

-- Every function of a result is one that every pass reports unchanged and leaves as it is.
abbrev pub AllSettle : List PassEntry → ModuleRun → Type 0
AllSettle passes none = ⊥
AllSettle passes (some undefined) = Unit
AllSettle passes (some (defined (functions, fired, changed))) =
    All (λ (function : IrFunction). All (IsQuiet function) passes) functions

run_functions-AllSettle :
    (passes : List PassEntry) (fuel : ℕ) (functions : List IrFunction) (fired : List String)
    → All IsPass passes
    → All (λ (function : IrFunction). measure function < fuel) functions
    → AllSettle passes (run_functions passes fuel functions fired)
unfolding run_functions
run_functions-AllSettle passes fuel [] fired h l = tt
run_functions-AllSettle passes fuel (function ∷ functions) fired h l =
    go _
      (run_fixpoint-Settles passes fuel
        (record { function = function; changed = false; fired = fired }) h l.0)
      (λ fired'. run_functions-AllSettle passes fuel functions fired' h l.1)
  where
    added :
        (p : Progress) (r : ModuleRun)
        → All (IsQuiet p.function) passes
        → AllSettle passes r
        → AllSettle passes (add_function p r)
    added p none q k = k
    added p (some undefined) q k = tt
    added p (some (defined r)) q k = (q, k)

    go :
        (r : Round)
        → Settles passes function r
        → ((fired' : List String) → AllSettle passes (run_functions passes fuel functions fired'))
        → AllSettle passes (then_functions r (λ fired'. run_functions passes fuel functions fired'))
    go none k next = k
    go (some undefined) k next = tt
    go (some (defined p)) k next = added p _ k.0 (next p.fired)

-- The module and the optimiser after a run.
abbrev pub ModuleSettles :
    List PassEntry → IrModule → Option (Ub (IrModule × Optimizer × Bool)) → Type 0
ModuleSettles passes m none = ⊥
ModuleSettles passes m (some undefined) = Unit
ModuleSettles passes m (some (defined (m', optimizer, changed))) =
    (m'.name ≡ m.name)
    × (optimizer.passes ≡ passes)
    × All (λ (function : IrFunction). All (IsQuiet function) passes) m'.functions

-- At every level a run over a module ends, when its fuel exceeds the measure of every function: it
-- meets undefined arithmetic, or leaves a module of the same name whose every function each pass
-- reports unchanged and leaves as it is; the optimiser keeps its passes.
pub run_module-ModuleSettles :
    (f : Floats) (level : OptimizationLevel) (fuel : ℕ) (m : IrModule)
    → All (λ (function : IrFunction). measure function < fuel) m.functions
    → ModuleSettles (make_optimizer f level).passes m (run_module (make_optimizer f level) fuel m)
unfolding run_module
run_module-ModuleSettles f level fuel m l = go _ (
    run_functions-AllSettle (make_optimizer f level).passes fuel m.functions []
      (make_optimizer-IsPass f level) l)
  where
    go :
        (r : ModuleRun)
        → AllSettle (make_optimizer f level).passes r
        → ModuleSettles
            (make_optimizer f level).passes
            m
            (in_optimizer (make_optimizer f level) m r)
    go none k = k
    go (some undefined) k = tt
    go (some (defined r)) k = (refl, refl, k)
