-- ===== src/Examples/Runs.antt =====
-- The theorems on whole runs of lowered and optimised modules, at concrete inputs.
use asm_studio.Dsl.Start.{reads_set, is_set_first}
use asm_studio.Prelude.{◌≡◌, refl, some, [], ◌∷◌, All}
use asm_studio.Prelude.Int.{pos}
use asm_studio.Ir.{IrOp, IrFunction, empty_instr, int64, IrModule, rebuild_block_index}
use asm_studio.Sim.State.{ok, make_simulator, reset}
use asm_studio.Sim.Run.{run}
use asm_studio.Sim.Lookup.{find_block-rebuild_block_index}
use asm_studio.Dsl.Builder.{Function, statements}
use asm_studio.Dsl.Meaning.{returns}
use asm_studio.Lowering.Function.{lower}
use asm_studio.Lowering.Total.{all_assign_to}
use asm_studio.Lowering.Modules.{ModuleLowersTo}
use asm_studio.Lowering.Runs.{RunsTo, run-lower}
use asm_studio.Optimizer.JumpSound.{simplified}
use asm_studio.Optimizer.Eliminated.{IsIndexed}
use asm_studio.Optimizer.EliminatedCaches.{eliminated_module}
use asm_studio.Optimizer.RegionRuns.{run-unreachable_block_elim}
use asm_studio.Examples.Compiled.{sum_function_test}
use asm_studio.Optimizer.DeadCode.{dead_code_elim}
use asm_studio.Optimizer.Swept.{SweptBlocks, dead_code_elim-SweptBlocks}
use asm_studio.Examples.Samples.{
  no_floats, plain_label, sum_function, branching, load_constant, add_constants,
}

-- Another function of the module.
abbrev twin : Function
twin = record sum_function { name = "twin" }

run-lower_example :
    ModuleLowersTo
      (λ m. RunsTo no_floats m "sum" (ok (returns (some (int64 (pos 45))))))
      (lower plain_label "demo" (twin ∷ sum_function ∷ []))
unfolding statements all_assign_to reads_set is_set_first
run-lower_example =
    run-lower no_floats plain_label "demo" (twin ∷ []) sum_function [] 20
      (ok (returns (some (int64 (pos 45))))) (refl, (refl, tt)) (refl, tt) tt refl refl
      sum_function_test

-- Its branch is a jump, so that a block is not reached.
abbrev jumping_module : IrModule
jumping_module = record {
  name = "demo";
  functions = rebuild_block_index (simplified no_floats branching) ∷ [];
}

jumping-IsIndexed : All IsIndexed jumping_module.functions
unfolding rebuild_block_index
jumping-IsIndexed =
    ((λ id. (find_block-rebuild_block_index (simplified no_floats branching) id).0), tt)

run-unreachable_block_elim_example :
    run no_floats (make_simulator (eliminated_module jumping_module) 1000 64) 1002 reset "branching"
    ≡ run no_floats (make_simulator jumping_module 1000 64) 1002 reset "branching"
run-unreachable_block_elim_example =
    run-unreachable_block_elim no_floats jumping_module 1000 64 1002 reset "branching"
      jumping-IsIndexed (tt, tt)

-- A sum that nothing reads.
abbrev dead_sum : IrFunction
dead_sum = record branching {
  blocks =
      record {
        id = 0;
        name = "entry";
        instrs =
            load_constant ∷ add_constants ∷ record (empty_instr IrOp.ret) { inputs = 0 ∷ [] } ∷ [];
      }
      ∷ [];
}

dead_code_elim-SweptBlocks_example :
    SweptBlocks dead_sum dead_sum.blocks (dead_code_elim dead_sum).0.blocks
    × ((dead_code_elim dead_sum).0
        ≡ record dead_sum { blocks = (dead_code_elim dead_sum).0.blocks })
dead_code_elim-SweptBlocks_example = dead_code_elim-SweptBlocks dead_sum
