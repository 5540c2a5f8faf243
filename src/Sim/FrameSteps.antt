-- ===== src/Sim/FrameSteps.antt =====
-- What holds of every frame of the call stack of src/sim/Simulator.cpp, and goes on to hold, and steps
-- that are the same for two modules.
use mathlib.Core.Path.{subst}
use asm_studio.Prelude.{
  ◌+◌, ◌≡◌, refl, Bool, true, false, Option, none, some, List, [], ◌∷◌, length, get_elem?, ltb,
  if◌then◌else◌, All,
}
use asm_studio.Machine.Floats.{Floats}
use asm_studio.Ir.{IrInstr, IrBlock}
use asm_studio.Sim.State.{
  err, SimError, SimFrame, FunctionCache, Setup, Simulator, find_function_cache, find_block,
}
use asm_studio.Sim.Step.{
  implicit_return, dispatch, step_instr, step_block, step_function, step_stack, step_one,
}

-- Instructions of the top frame keep what holds of all frames.
abbrev pub DispatchKeeps : Floats → Setup → (SimFrame → Type 0) → Type 0
DispatchKeeps f c F =
    (s : Simulator) (frame : SimFrame) (rest : List SimFrame) (cache : FunctionCache)
    (block : IrBlock) (i : IrInstr)
    → find_function_cache c frame.function_name ≡ some cache
    → find_block cache frame.block ≡ some block
    → get_elem? block.instrs frame.pc ≡ some i
    → F frame
    → All F rest
    → All F
        (dispatch f c s (record frame { pc = frame.pc + 1 }) rest cache.function i
          i.op).0.state.call_stack

module _ (f : Floats) (c : Setup) (F : SimFrame → Type 0) (keeps : DispatchKeeps f c F)
    (s : Simulator) where
  implicit_return-All :
      (frame : SimFrame) (rest : List SimFrame)
      → All F s.state.call_stack
      → All F rest
      → All F (implicit_return s frame rest).0.state.call_stack
  unfolding implicit_return
  implicit_return-All frame [] h k = h
  implicit_return-All frame (caller ∷ rest) h k = k

  step_function-All :
      (frame : SimFrame) (rest : List SimFrame) (cache : Option FunctionCache)
      → find_function_cache c frame.function_name ≡ cache
      → All F s.state.call_stack
      → F frame
      → All F rest
      → All F (step_function f c s frame rest cache).0.state.call_stack
  unfolding step_function step_block step_instr
  step_function-All frame rest none found h here k = h
  step_function-All frame rest (some cache) found h here k =
      by_block (find_block cache frame.block) refl
    where
      by_instr :
          (block : IrBlock)
          → find_block cache frame.block ≡ some block
          → (i : Option IrInstr) → get_elem? block.instrs frame.pc ≡ i
          → All F (step_instr f c s frame rest cache.function i).0.state.call_stack
      by_instr block e none e' = implicit_return-All frame rest h k
      by_instr block e (some i) e' = keeps s frame rest cache block i found e e' here k

      by_block :
          (block : Option IrBlock)
          → find_block cache frame.block ≡ block
          → All F (step_block f c s frame rest cache.function block).0.state.call_stack
      by_block none e = h
      by_block (some block) e = by_instr block e (get_elem? block.instrs frame.pc) refl

  pub step_one-All : All F s.state.call_stack → All F (step_one f c s).0.state.call_stack
  unfolding step_one step_stack
  step_one-All h = go s.state.call_stack refl
    where
      go :
          (frames : List SimFrame)
          → s.state.call_stack ≡ frames
          → All F (step_stack f c s frames).0.state.call_stack
      go [] e = h
      go (frame ∷ rest) e =
          let k : All F (frame ∷ rest) = subst (All F) e h in
          room (ltb c.max_call_depth (length (frame ∷ rest))) (
            step_function-All frame rest (find_function_cache c frame.function_name) refl h k.0 k.1)
        where
          room :
              (b : Bool)
              → All F
                  (step_function f c s frame rest
                    (find_function_cache c frame.function_name)).0.state.call_stack
              → All F
                  (if b
                    then (s, err SimError.stack_overflow)
                    else step_function f c s frame rest
                        (find_function_cache c frame.function_name)).0.state.call_stack
          room true q = h
          room false q = q
