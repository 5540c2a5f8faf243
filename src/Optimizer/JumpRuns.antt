-- ===== src/Optimizer/JumpRuns.antt =====
-- src/transforms/passes/JumpSimplificationPass.cpp against `Simulator::run` of
-- src/sim/Simulator.cpp: whole runs of a simplified module.
use mathlib.Core.Option.{map as map_option}
use asm_studio.Prelude.{
  ℕ, ◌+◌, ◌≡◌, refl, ap, ◌∙◌, false, String, Option, none, some, List, [], ◌∷◌, if◌then◌else◌, ltb,
  length, get_elem?, All,
}
use asm_studio.Machine.Floats.{Floats}
use asm_studio.Ir.{IrInstr, IrFunction, IrBlock, IrModule}
use asm_studio.Ir.Constants.{IsSoundFunction}
use asm_studio.Sim.State.{
  err, SimError, SimFrame, FunctionCache, Setup, Simulator, reset, find_function_cache, find_block,
  make_simulator,
}
use asm_studio.Sim.Step.{
  Stepped, with_stack, step_instr, step_block, step_function, step_stack, step_one,
}
use asm_studio.Sim.Run.{run_loop, run, start}
use asm_studio.Sim.SameRuns.{run_loop-same}
use asm_studio.Sim.Coherence.{IsCoherent}
use asm_studio.Sim.CoherentSteps.{
  IsSoundSetup, IsCoherentStack, moved-IsCoherent, step_one-IsCoherentStack, start-IsCoherentStack,
}
use asm_studio.Optimizer.Jumps.{simplify_instr}
use asm_studio.Optimizer.JumpSound.{
  simplified, simplified_cache, simplified_block, initial_frame-simplified,
  get_elem?-simplify_instrs, find_block-simplified, dispatch-simplify_instr,
}
use asm_studio.Optimizer.JumpCaches.{
  simplified_module, find_function_cache-simplified, make_simulator-IsSoundSetup,
}

module _ (f : Floats) (c c' : Setup)
    (same : (name : String)
      → find_function_cache c' name ≡ map_option (simplified_cache f) (find_function_cache c name))
    (depth : c'.max_call_depth ≡ c.max_call_depth) (limit : c'.max_steps ≡ c.max_steps)
    (sound : IsSoundSetup c) where
  module _ (s : Simulator) (frame : SimFrame) (rest : List SimFrame) where
    step_instr-simplified :
        (function : IrFunction) (i : Option IrInstr)
        → IsCoherent function frame
        → step_instr f c' s frame rest
            (simplified f function)
            (map_option (λ j. (simplify_instr f function.values j).0) i)
          ≡ step_instr f c s frame rest function i
    unfolding step_instr
    step_instr-simplified function none h = refl
    step_instr-simplified function (some i) h =
        dispatch-simplify_instr f c c' same s (record frame { pc = frame.pc + 1 }) rest function i
          (moved-IsCoherent function frame (frame.pc + 1) h)

    step_block-simplified :
        (function : IrFunction) (block : Option IrBlock)
        → IsCoherent function frame
        → step_block f c' s frame rest
            (simplified f function)
            (map_option (simplified_block f function.values) block)
          ≡ step_block f c s frame rest function block
    unfolding step_block
    step_block-simplified function none h = refl
    step_block-simplified function (some block) h =
        ap (step_instr f c' s frame rest (simplified f function))
          (get_elem?-simplify_instrs f function.values block.instrs frame.pc)
        ∙ step_instr-simplified function (get_elem? block.instrs frame.pc) h

    step_function-simplified :
        (cache : Option FunctionCache)
        → ((k : FunctionCache) → cache ≡ some k → IsCoherent k.function frame)
        → step_function f c' s frame rest (map_option (simplified_cache f) cache)
          ≡ step_function f c s frame rest cache
    unfolding step_function
    step_function-simplified none h = refl
    step_function-simplified (some cache) h =
        ap (step_block f c' s frame rest (simplified f cache.function))
          (find_block-simplified f cache frame.block)
        ∙ step_block-simplified cache.function (find_block cache frame.block) (h cache refl)

  step_stack-simplified :
      (s : Simulator) (frames : List SimFrame)
      → IsCoherentStack c frames
      → step_stack f c' s frames ≡ step_stack f c s frames
  unfolding step_stack
  step_stack-simplified s [] h = refl
  step_stack-simplified s (frame ∷ rest) h =
      ap
        (λ (n : ℕ).
          if ltb n (length (frame ∷ rest))
          then (s, err SimError.stack_overflow)
          else step_function f c' s frame rest (find_function_cache c' frame.function_name))
        depth
      ∙ ap
          (λ (r : Stepped).
            if ltb c.max_call_depth (length (frame ∷ rest))
            then (s, err SimError.stack_overflow)
            else r)
          (ap (step_function f c' s frame rest) (same frame.function_name)
            ∙ step_function-simplified s frame rest (find_function_cache c frame.function_name)
                (λ k e. h.0 k e))

  step_one-simplified :
      (s : Simulator) → IsCoherentStack c s.state.call_stack → step_one f c' s ≡ step_one f c s
  unfolding step_one
  step_one-simplified s h = step_stack-simplified s s.state.call_stack h

  start-simplified :
      (fuel : ℕ) (s : Simulator) (cache : Option FunctionCache)
      → start f c' fuel s (map_option (simplified_cache f) cache) ≡ start f c fuel s cache
  start-simplified fuel s none = refl
  start-simplified fuel s (some cache) =
      ap (λ frame. run_loop f c' fuel (with_stack (record reset { done = false }) (frame ∷ [])))
        (initial_frame-simplified f cache.function)
      ∙ run_loop-same f c c' limit (IsCoherentStack c) (λ s h. step_one-simplified s h)
          (λ s h. step_one-IsCoherentStack f c s sound h) fuel _
          (start-IsCoherentStack c cache.function)

  pub run-simplified :
      (fuel : ℕ) (s : Simulator) (name : String) → run f c' fuel s name ≡ run f c fuel s name
  unfolding run
  run-simplified fuel s name =
      ap (start f c' fuel s) (same name) ∙ start-simplified fuel s (find_function_cache c name)

-- Jump simplification of every function changes no run of the simulator: in a module in which only
-- the loading of a constant writes to a value that has one, for any function name, limits and fuel,
-- the run ends with the same result, error, trace, history and state.
pub run-jump_simplification :
    (f : Floats) (m : IrModule) (max_steps max_call_depth fuel : ℕ) (s : Simulator) (name : String)
    → All IsSoundFunction m.functions
    → run f (make_simulator (simplified_module f m) max_steps max_call_depth) fuel s name
      ≡ run f (make_simulator m max_steps max_call_depth) fuel s name
unfolding make_simulator
run-jump_simplification f m max_steps max_call_depth fuel s name h =
    run-simplified f (make_simulator m max_steps max_call_depth)
      (make_simulator (simplified_module f m) max_steps max_call_depth)
      (find_function_cache-simplified f m max_steps max_call_depth) refl refl
      (make_simulator-IsSoundSetup m max_steps max_call_depth h) fuel s name
