-- ===== src/Optimizer/RegionRuns.antt =====
-- src/transforms/passes/UnreachableBlockEliminationPass.cpp against `Simulator::run` of
-- src/sim/Simulator.cpp: whole runs of a module without its unreachable blocks.
use mathlib.Core.Option.{map as map_option}
use asm_studio.Prelude.{
  ℕ, ◌+◌, ◌≡◌, refl, sym, ap, ◌∙◌, false, String, Option, none, some, List, [], ◌∷◌, length,
  get_elem?, ltb, if◌then◌else◌, All,
}
use asm_studio.Machine.Floats.{Floats}
use asm_studio.Ir.{IrOp, IrInstr, IrBlock, IrFunction, IrModule}
use asm_studio.Sim.State.{
  ok, err, SimError, SimFrame, FunctionCache, Setup, Simulator, reset, find_function_cache,
  find_block, make_simulator, initial_frame, read_value,
}
use asm_studio.Sim.Handlers.{
  handle_copy_op, handle_binary_op, handle_unary_op, handle_cmp_op, handle_branch_op,
}
use asm_studio.Sim.Step.{
  Stepped, with_stack, dispatch, step_instr, step_block, step_function, step_stack, step_one,
  handle_call_op, handle_ret_op, call_named, enter,
}
use asm_studio.Sim.Run.{run, start, run_loop}
use asm_studio.Sim.FrameSteps.{step_one-All}
use asm_studio.Sim.SameRuns.{run_loop-same}
use asm_studio.Sim.Lookup.{find_block-rebuild_block_index}
use asm_studio.Optimizer.Eliminated.{
  eliminated, IsIndexed, eliminated-Region, find_by_id-Region, initial_frame-Region,
}
use asm_studio.Optimizer.EliminatedCaches.{
  eliminated_module, eliminated_cache, HasUniqueNames, IsNew, find_function_cache-eliminated,
  find_function_cache-IsNew,
}
use asm_studio.Optimizer.RegionSteps.{
  IsInRegion, initial_frame-IsInRegion, found_block, dispatch-Keeps,
}

module _ (f : Floats) (c c' : Setup)
    (same : (name : String)
      → find_function_cache c' name ≡ map_option eliminated_cache (find_function_cache c name))
    (depth : c'.max_call_depth ≡ c.max_call_depth) (limit : c'.max_steps ≡ c.max_steps)
    (known : (name : String) (cache : FunctionCache)
      → find_function_cache c name ≡ some cache
      → IsNew name cache) where
  initial_frame-eliminated :
      (name : String) (cache : FunctionCache)
      → find_function_cache c name ≡ some cache
      → initial_frame (eliminated cache.function) ≡ initial_frame cache.function
  initial_frame-eliminated name cache e =
      let (r, region) = eliminated-Region cache.function (known name cache e).2 in
      initial_frame-Region cache.function (eliminated cache.function) r region

  handle_call_op-eliminated :
      (s : Simulator) (i : IrInstr) → handle_call_op c' s i ≡ handle_call_op c s i
  unfolding handle_call_op
  handle_call_op-eliminated s i = named i.callee
    where
      entered :
          (name : String) (cache : Option FunctionCache)
          → find_function_cache c name ≡ cache
          → enter s (map_option eliminated_cache cache) ≡ enter s cache
      entered name none e = refl
      entered name (some cache) e =
          ap {B = Stepped}
            (λ frame.
              (with_stack s (frame ∷ s.state.call_stack), ok (mathlib.Core.Bool.not s.done)))
            (initial_frame-eliminated name cache e)

      named : (callee : Option String) → call_named c' s callee ≡ call_named c s callee
      named none = refl
      named (some name) = ap (enter s) (same name) ∙ entered name (find_function_cache c name) refl

  -- An instruction reads only the values of the function.
  dispatch-values :
      (s : Simulator) (frame : SimFrame) (rest : List SimFrame) (g g' : IrFunction) (i : IrInstr)
      (op : IrOp)
      → dispatch f c' s frame rest g' i op
        ≡ dispatch f c s frame rest (record g { values = g'.values }) i op
  unfolding dispatch read_value handle_copy_op handle_binary_op handle_unary_op handle_cmp_op
      handle_branch_op handle_ret_op
  dispatch-values s frame rest g g' i IrOp.call =
      handle_call_op-eliminated (with_stack s (frame ∷ rest)) i
  dispatch-values s frame rest g g' i IrOp.ret = refl
  dispatch-values s frame rest g g' i _ = refl

  module _ (s : Simulator) (frame : SimFrame) (rest : List SimFrame) where
    step_instr-eliminated :
        (g g' : IrFunction) (i : Option IrInstr)
        → g'.values ≡ g.values
        → step_instr f c' s frame rest g' i ≡ step_instr f c s frame rest g i
    unfolding step_instr
    step_instr-eliminated g g' none e = refl
    step_instr-eliminated g g' (some i) e =
        dispatch-values s (record frame { pc = frame.pc + 1 }) rest g g' i i.op
        ∙ ap
            (λ vs.
              dispatch f c s (record frame { pc = frame.pc + 1 }) rest (record g { values = vs }) i
                i.op)
            e

    step_block-eliminated :
        (g g' : IrFunction) (block : Option IrBlock)
        → g'.values ≡ g.values
        → step_block f c' s frame rest g' block ≡ step_block f c s frame rest g block
    unfolding step_block
    step_block-eliminated g g' none e = refl
    step_block-eliminated g g' (some block) e =
        step_instr-eliminated g g' (get_elem? block.instrs frame.pc) e

    step_function-eliminated :
        (cache : Option FunctionCache)
        → find_function_cache c frame.function_name ≡ cache
        → IsInRegion c frame
        → step_function f c' s frame rest (map_option eliminated_cache cache)
          ≡ step_function f c s frame rest cache
    unfolding step_function
    step_function-eliminated none e h = refl
    step_function-eliminated (some cache) e h =
        let (r, region, has) = h cache e in
        let g : IrFunction = cache.function in
        let found : find_block (eliminated_cache cache) frame.block ≡ find_block cache frame.block =
          (find_block-rebuild_block_index (eliminated g) frame.block).1
          ∙ find_by_id-Region g (eliminated g) r frame.block region has
          ∙ sym (found_block f c known frame.function_name cache frame.block e) in
        ap (step_block f c' s frame rest (eliminated g)) found
        ∙ step_block-eliminated g (eliminated g) (find_block cache frame.block) region.values

  step_stack-eliminated :
      (s : Simulator) (frames : List SimFrame)
      → All (IsInRegion c) frames
      → step_stack f c' s frames ≡ step_stack f c s frames
  unfolding step_stack
  step_stack-eliminated s [] h = refl
  step_stack-eliminated s (frame ∷ rest) h =
      ap
        (λ (n : ℕ).
          if ltb n (length (frame ∷ rest))
          then (s, err SimError.stack_overflow)
          else step_function f c' s frame rest (find_function_cache c' frame.function_name))
        depth
      ∙ ap
          (λ (r : Stepped).
            if ltb c.max_call_depth (length (frame ∷ rest))
            then (s, err SimError.stack_overflow)
            else r)
          (ap (step_function f c' s frame rest) (same frame.function_name)
            ∙ step_function-eliminated s frame rest (find_function_cache c frame.function_name) refl
                h.0)

  step_one-eliminated :
      (s : Simulator) → All (IsInRegion c) s.state.call_stack → step_one f c' s ≡ step_one f c s
  unfolding step_one
  step_one-eliminated s h = step_stack-eliminated s s.state.call_stack h

  start-eliminated :
      (fuel : ℕ) (s : Simulator) (name : String) (cache : Option FunctionCache)
      → find_function_cache c name ≡ cache
      → start f c' fuel s (map_option eliminated_cache cache) ≡ start f c fuel s cache
  start-eliminated fuel s name none e = refl
  start-eliminated fuel s name (some cache) e =
      ap (λ frame. run_loop f c' fuel (with_stack (record reset { done = false }) (frame ∷ [])))
        (initial_frame-eliminated name cache e)
      ∙ run_loop-same f c c' limit (All (IsInRegion c)) (λ t h. step_one-eliminated t h)
          (λ t h. step_one-All f c (IsInRegion c) (dispatch-Keeps f c known) t h) fuel
          (with_stack (record reset { done = false }) (initial_frame cache.function ∷ []))
          (initial_frame-IsInRegion f c known name cache e, tt)

  run-eliminated :
      (fuel : ℕ) (s : Simulator) (name : String) → run f c' fuel s name ≡ run f c fuel s name
  unfolding run
  run-eliminated fuel s name =
      ap (start f c' fuel s) (same name)
      ∙ start-eliminated fuel s name (find_function_cache c name) refl

-- Removing the unreachable blocks of every function changes no run of the simulator: in a module
-- whose functions have different names and block indices that are up to date, for any function name,
-- limits and fuel, the run ends with the same result, error, trace, history and state.
pub run-unreachable_block_elim :
    (f : Floats) (m : IrModule) (max_steps max_call_depth fuel : ℕ) (s : Simulator) (name : String)
    → All IsIndexed m.functions
    → HasUniqueNames m.functions
    → run f (make_simulator (eliminated_module m) max_steps max_call_depth) fuel s name
      ≡ run f (make_simulator m max_steps max_call_depth) fuel s name
unfolding make_simulator
run-unreachable_block_elim f m max_steps max_call_depth fuel s name h u =
    run-eliminated f (make_simulator m max_steps max_call_depth)
      (make_simulator (eliminated_module m) max_steps max_call_depth)
      (λ n. find_function_cache-eliminated m max_steps max_call_depth n h u) refl refl
      (find_function_cache-IsNew m max_steps max_call_depth h u) fuel s name
