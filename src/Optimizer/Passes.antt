-- ===== src/Optimizer/Passes.antt =====
-- src/transforms/Optimizer.cpp: the optimizer's list of passes, its levels and its fixpoint loop.
use asm_studio.Prelude.{
  ℕ, zero, suc, Bool, true, false, ◌||◌, String, str_eq, Option, none, some, List, [], ◌∷◌, ◌++◌,
  if◌then◌else◌, length, any,
}
use asm_studio.Support.Types.{OptimizationLevel}
use asm_studio.Machine.Ub.{Ub, defined, undefined}
use asm_studio.Machine.Floats.{Floats}
use asm_studio.Ir.{IrFunction, IrModule}
use asm_studio.Optimizer.ConstantFolding.{constant_folding}
use asm_studio.Optimizer.DeadCode.{dead_code_elim}
use asm_studio.Optimizer.Jumps.{jump_simplification}
use asm_studio.Optimizer.Unreachable.{unreachable_block_elim}

-- A run that ends, with or without defined behaviour; `none` where fuel ran out.
abbrev pub PassResult : Type 0
PassResult = Option (Ub (IrFunction × Bool))

pub record PassEntry : Type 0 where
  pub name : String
  pub run : IrFunction → PassResult

pub record Optimizer : Type 0 where
  pub passes : List PassEntry
  pub last_fired_passes : List String

unfoldable pub pass_count : Optimizer → ℕ
pass_count optimizer = length optimizer.passes

unfoldable pub add_pass : Optimizer → PassEntry → Optimizer
add_pass optimizer pass = record optimizer { passes = optimizer.passes ++ pass ∷ [] }

abbrev pub ended : Option (IrFunction × Bool) → PassResult
ended none = none
ended (some r) = some (defined r)

abbrev pub constant_folding_pass : Floats → PassEntry
constant_folding_pass f = record {
  name = "constant-folding";
  run = λ function. some (constant_folding f function);
}

abbrev pub dead_code_elim_pass : PassEntry
dead_code_elim_pass = record {
  name = "dead-code-elim";
  run = λ function. some (defined (dead_code_elim function));
}

abbrev pub unreachable_block_elim_pass : PassEntry
unreachable_block_elim_pass = record {
  name = "unreachable-block-elim";
  run = λ function. ended (unreachable_block_elim function);
}

abbrev pub jump_simplification_pass : Floats → PassEntry
jump_simplification_pass f = record {
  name = "jump-simplification";
  run = λ function. some (defined (jump_simplification f function));
}

abbrev pub cleared : Optimizer → Optimizer
cleared optimizer = record optimizer { passes = [] }

unfoldable pub set_level : Floats → Optimizer → OptimizationLevel → Optimizer
unfolding add_pass
set_level f optimizer OptimizationLevel.none = cleared optimizer
set_level f optimizer OptimizationLevel.basic =
    add_pass (add_pass (cleared optimizer) (constant_folding_pass f)) dead_code_elim_pass
set_level f optimizer _ =
    add_pass
      (add_pass
        (add_pass (add_pass (cleared optimizer) (constant_folding_pass f)) dead_code_elim_pass)
        unreachable_block_elim_pass)
      (jump_simplification_pass f)

unfoldable pub make_optimizer : Floats → OptimizationLevel → Optimizer
unfolding set_level
make_optimizer f level = set_level f (record { passes = []; last_fired_passes = [] }) level

-- The list `fired` keeps the names in the order of their first change.
abbrev pub fire : List String → String → List String
fire fired name = if any (λ n. str_eq n name) fired then fired else fired ++ name ∷ []

pub record Progress : Type 0 where
  pub function : IrFunction
  pub changed : Bool
  pub fired : List String

abbrev pub Round : Type 0
Round = Option (Ub Progress)

abbrev pub noted : Progress → String → IrFunction × Bool → Progress
noted p name (function, true) = record {
  function = function;
  changed = true;
  fired = fire p.fired name;
}
noted p name (function, false) = record p { function = function }

abbrev pub then_round {ℓ} : {A : Type ℓ} → Option (Ub A) → (A → Round) → Round
then_round none next = none
then_round (some undefined) next = some undefined
then_round (some (defined a)) next = next a

-- The inner loop: each pass once.
unfoldable pub run_passes : List PassEntry → Progress → Round
run_passes [] p = some (defined p)
run_passes (pass ∷ passes) p =
    then_round (pass.run p.function) (λ r. run_passes passes (noted p pass.name r))

abbrev pub with_any : Bool → Progress → Progress
with_any any_changed p = record p { changed = any_changed || p.changed }

-- The outer loop, on fuel: rounds until one changes nothing.
unfoldable pub run_fixpoint : List PassEntry → ℕ → Progress → Round
run_fixpoint passes zero p = none
run_fixpoint passes (suc fuel) p =
    then_round (run_passes passes (record p { changed = false })) (λ q.
      if q.changed
      then run_fixpoint passes fuel (with_any true q)
      else some (defined (with_any p.changed q)))

-- `Optimizer::run(IRFunction&)`
unfoldable pub run_function : Optimizer → ℕ → IrFunction → Round
run_function optimizer fuel function =
    run_fixpoint optimizer.passes fuel (record { function = function; changed = false; fired = [] })

-- The functions, the names of the passes that fired, and whether anything changed.
abbrev pub ModuleRun : Type 0
ModuleRun = Option (Ub (List IrFunction × List String × Bool))

abbrev pub add_function : Progress → ModuleRun → ModuleRun
add_function p none = none
add_function p (some undefined) = some undefined
add_function p (some (defined (functions, fired, changed))) =
    some (defined (p.function ∷ functions, fired, p.changed || changed))

abbrev pub then_functions : Round → (List String → ModuleRun) → ModuleRun
then_functions none next = none
then_functions (some undefined) next = some undefined
then_functions (some (defined p)) next = add_function p (next p.fired)

unfoldable pub run_functions : List PassEntry → ℕ → List IrFunction → List String → ModuleRun
run_functions passes fuel [] fired = some (defined ([], fired, false))
run_functions passes fuel (function ∷ functions) fired =
    then_functions
      (run_fixpoint passes fuel (record { function = function; changed = false; fired = fired }))
      (λ fired'. run_functions passes fuel functions fired')

abbrev pub in_optimizer :
    Optimizer → IrModule → ModuleRun → Option (Ub (IrModule × Optimizer × Bool))
in_optimizer optimizer m none = none
in_optimizer optimizer m (some undefined) = some undefined
in_optimizer optimizer m (some (defined (functions, fired, changed))) = some (
    defined
      (record m { functions = functions }, record optimizer { last_fired_passes = fired }, changed))

-- `Optimizer::run(IRModule&)`, with the fuel of each function's loop.
unfoldable pub run_module : Optimizer → ℕ → IrModule → Option (Ub (IrModule × Optimizer × Bool))
run_module optimizer fuel m =
    in_optimizer optimizer m (run_functions optimizer.passes fuel m.functions [])
