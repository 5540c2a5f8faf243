-- ===== src/Examples/Witnesses.antt =====
-- The theorems of the library at concrete inputs.
use mathlib.Core.Option.{some-injective}
use asm_studio.Prelude.{
  ℕ, ◌≡◌, refl, ap, ◌∙◌, false, none, some, List, [], ◌∷◌, arith, All, if◌then◌else◌, ◌==◌,
}
use asm_studio.Prelude.Int.{pos}
use asm_studio.Support.Types.{OptimizationLevel}
use asm_studio.Ir.{int64, constant_at}
use asm_studio.Ir.Constants.{IsSoundInstr, IsSoundFunction}
use asm_studio.Sim.State.{
  ok, Setup, Simulator, make_simulator, reset, initial_frame, read_value, write_value,
  find_function_cache,
}
use asm_studio.Sim.Handlers.{handle_const_op}
use asm_studio.Sim.Step.{
  with_stack, step_one, step_stack, step_function, step_block, step_instr, dispatch,
}
use asm_studio.Sim.Run.{run, step, rewind, remember}
use asm_studio.Sim.Lookup.{find_block-rebuild_block_index}
use asm_studio.Sim.State.{emplace_blocks, find_block as cache_find_block}
use asm_studio.Ir.{find_block, find_by_id, rebuild_block_index}
use asm_studio.Sim.Slots.{read_value-write_value}
use asm_studio.Sim.Bounds.{EndsWithin, run-Ends}
use asm_studio.Sim.Rewinding.{rewind-step-step}
use asm_studio.Sim.Coherence.{initial_frame-IsCoherent}
use asm_studio.Sim.CoherentSteps.{IsCoherentStack, start-IsCoherentStack, step_one-IsCoherentStack}
use asm_studio.Optimizer.Measure.{measure, weight_blocks, weight_instrs, weight, Lowers, LowersUb}
use asm_studio.Optimizer.ConstantFolding.{constant_folding, fold_instr, is_foldable_op}
use asm_studio.Optimizer.DeadCode.{dead_code_elim}
use asm_studio.Optimizer.Jumps.{jump_simplification}
use asm_studio.Optimizer.Unreachable.{find_reachable_block_ids}
use asm_studio.Optimizer.Passes.{make_optimizer, run_function, run_module}
use asm_studio.Optimizer.JumpCaches.{simplified_module, make_simulator-IsSoundSetup}
use asm_studio.Optimizer.JumpRuns.{run-jump_simplification}
use asm_studio.Optimizer.FoldProgress.{constant_folding-Lowers}
use asm_studio.Optimizer.DeadCodeProgress.{dead_code_elim-Lowers}
use asm_studio.Optimizer.JumpProgress.{jump_simplification-Lowers}
use asm_studio.Optimizer.Identifiers.{Has}
use asm_studio.Optimizer.Reached.{IsReached, find_reachable_block_ids-IsReached}
use asm_studio.Lowering.Modules.{LowersModule, lower-LowersModule}
use asm_studio.Optimizer.Fixpoint.{Settles, run_function-Settles}
use asm_studio.Optimizer.ModuleRuns.{ModuleSettles, run_module-ModuleSettles}
use asm_studio.Optimizer.FoldSound.{Preserved, fold_instr-Preserved}
use asm_studio.Lowering.Function.{lower_function, lower}
use asm_studio.Lowering.WellFormed.{LowersTo, IsWellFormedFunction, lower_function-IsWellFormed}
use asm_studio.Lowering.Total.{all_assign_to}
use asm_studio.Dsl.Builder.{statements}
use asm_studio.Text.{codes}
use asm_studio.Parse.Parser.{parse}
use asm_studio.Parse.Ends.{Built, parse-Built}
use asm_studio.Examples.Samples.{
  no_floats, plain_label, sum_function, branching, branching_module, add_constants, load_constant,
}

abbrev set_up : Setup
set_up = make_simulator branching_module 1000 64

abbrev started : Simulator
started = with_stack (record reset { done = false }) (initial_frame branching ∷ [])

branching-IsSound : All IsSoundFunction branching_module.functions
branching-IsSound = (
  (
    (load, (sum, ((λ o c e k. unwritten o e), tt))),
    (((λ o c e k. unwritten o e), tt), (((λ o c e k. unwritten o e), tt), tt)),
  ),
  tt,
)
  where
    load : IsSoundInstr branching.values (load_constant)
    load o c e k = (refl, ap (constant_at branching.values) (some-injective 0 o e) ∙ k)

    sum : IsSoundInstr branching.values add_constants
    sum o c e k = none-some (ap (constant_at branching.values) (some-injective 2 o e) ∙ k)
      where
        none-some : {A : Type 0} → none ≡ some c → A
        none-some q = cc

    unwritten : {A : Type 0} (o : ℕ) → none ≡ some o → A
    unwritten o e = cc

run-jump_simplification_example :
    run no_floats
      (make_simulator (simplified_module no_floats branching_module) 1000 64)
      1002
      reset
      "branching"
    ≡ run no_floats (make_simulator branching_module 1000 64) 1002 reset "branching"
run-jump_simplification_example =
    run-jump_simplification no_floats branching_module 1000 64 1002 reset "branching"
      branching-IsSound

run_function-Settles_example :
    Settles
      (make_optimizer no_floats OptimizationLevel.aggressive).passes
      branching
      (run_function (make_optimizer no_floats OptimizationLevel.aggressive) 30 branching)
unfolding measure weight_blocks weight_instrs weight is_foldable_op
run_function-Settles_example =
    run_function-Settles no_floats OptimizationLevel.aggressive 30 branching (omega arith)

fold_instr-Preserved_example :
    Preserved no_floats set_up started
      (initial_frame branching)
      []
      branching
      add_constants
      (fold_instr no_floats branching.values add_constants)
fold_instr-Preserved_example =
    fold_instr-Preserved no_floats set_up started (initial_frame branching) [] branching
      (initial_frame-IsCoherent branching branching) add_constants
      (λ output e. omega (arith, some-injective 2 output e))

lower_function-IsWellFormed_example :
    LowersTo IsWellFormedFunction (lower_function plain_label sum_function)
unfolding all_assign_to statements
lower_function-IsWellFormed_example = lower_function-IsWellFormed plain_label sum_function refl

run-Ends_example : EndsWithin set_up (run no_floats set_up 1002 reset "branching")
unfolding reset make_simulator
run-Ends_example =
    run-Ends no_floats set_up 1002 reset "branching" (omega arith) (omega arith) (omega arith)

step_one-IsCoherentStack_example :
    IsCoherentStack set_up (step_one no_floats set_up started).0.state.call_stack
step_one-IsCoherentStack_example =
    step_one-IsCoherentStack no_floats set_up started
      (make_simulator-IsSoundSetup branching_module 1000 64 branching-IsSound)
      (start-IsCoherentStack set_up branching)

parse-Built_example : Built (parse (codes "start: mov r0, 12 ; first\n add r0 x"))
parse-Built_example = parse-Built (codes "start: mov r0, 12 ; first\n add r0 x")

find_reachable_block_ids-IsReached_example :
    (r : List ℕ) × (find_reachable_block_ids branching 0 ≡ some r)
    × ((id : ℕ) → (Has r id → IsReached branching 0 id) × (IsReached branching 0 id → Has r id))
find_reachable_block_ids-IsReached_example = find_reachable_block_ids-IsReached branching 0

lower-LowersModule_example :
    LowersModule "demo" (sum_function ∷ []) (lower plain_label "demo" (sum_function ∷ []))
unfolding all_assign_to statements
lower-LowersModule_example = lower-LowersModule plain_label "demo" (sum_function ∷ []) (refl, tt)

read_value-write_value_example :
    read_value (write_value (initial_frame branching) 2 (int64 (pos 5))) branching 0
    ≡ (if 2 == 0 then ok (int64 (pos 5)) else read_value (initial_frame branching) branching 0)
read_value-write_value_example =
    read_value-write_value (initial_frame branching) branching 2 0 (int64 (pos 5))

rewind-step-step_example :
    ((rewind (step no_floats set_up (step no_floats set_up started).0).0 1).state ≡ started.state)
    × ((rewind (step no_floats set_up (step no_floats set_up started).0).0 1).history
        ≡ started.state ∷ started.history)
unfolding make_simulator step reset step_one step_stack step_function find_function_cache
    cache_find_block step_block step_instr dispatch initial_frame handle_const_op remember
rewind-step-step_example = rewind-step-step no_floats set_up started (omega arith) refl refl

constant_folding-Lowers_example : LowersUb measure branching (constant_folding no_floats branching)
constant_folding-Lowers_example = constant_folding-Lowers no_floats branching

dead_code_elim-Lowers_example : Lowers measure branching (dead_code_elim branching)
dead_code_elim-Lowers_example = dead_code_elim-Lowers branching

jump_simplification-Lowers_example :
    Lowers measure branching (jump_simplification no_floats branching)
jump_simplification-Lowers_example = jump_simplification-Lowers no_floats branching

run_module-ModuleSettles_example :
    ModuleSettles
      (make_optimizer no_floats OptimizationLevel.aggressive).passes
      branching_module
      (run_module (make_optimizer no_floats OptimizationLevel.aggressive) 30 branching_module)
unfolding measure weight_blocks weight_instrs weight is_foldable_op
run_module-ModuleSettles_example =
    run_module-ModuleSettles no_floats OptimizationLevel.aggressive 30 branching_module
      (omega arith, tt)

find_block-rebuild_block_index_example :
    (find_block (rebuild_block_index branching) 2 ≡ find_by_id 2 branching.blocks)
    × (cache_find_block
          (record {
            function = branching;
            block_index_by_id = emplace_blocks 0 branching.blocks [];
          })
          2
        ≡ find_by_id 2 branching.blocks)
find_block-rebuild_block_index_example = find_block-rebuild_block_index branching 2
