-- ===== src/Sim/CoherentSteps.antt =====
-- The slots of a frame of src/sim/Simulator.cpp and the constants of its function: `stepOne`.
use mathlib.Core.Path.{subst}
use mathlib.Core.Option.{some-injective}
use asm_studio.Prelude.{
  ℕ, ◌+◌, ◌≡◌, refl, sym, ap, ◌∙◌, String, Option, none, some, List, [], ◌∷◌, All, All-get,
  lookup_id,
}
use asm_studio.Machine.Floats.{Floats}
use asm_studio.Ir.{IrOp, IrInstr, IrFunction, IrBlock}
use asm_studio.Ir.Constants.{IsSoundInstr, IsSoundBlock, IsSoundFunction}
use asm_studio.Sim.State.{
  Outcome, ok, err, undefined, SimFrame, FunctionCache, Setup, Simulator, read_value,
  find_function_cache, find_block, initial_frame, cached_block,
}
use asm_studio.Sim.Step.{
  with_stack, resume, dispatch, step_one, handle_call_op, handle_ret_op, enter, call_named,
}
use asm_studio.Sim.FrameSteps.{DispatchKeeps, step_one-All}
use asm_studio.Sim.Coherence.{
  IsCoherent, Kept, initial_frame-IsCoherent, handle_const_op-Kept, handle_copy_op-Kept,
  handle_binary_op-Kept, handle_unary_op-Kept, handle_cmp_op-Kept, handle_jump_op-Kept,
  handle_branch_op-Kept,
}

abbrev pub IsSoundSetup : Setup → Type 0
IsSoundSetup c =
    (name : String) (cache : FunctionCache)
    → find_function_cache c name ≡ some cache
    → IsSoundFunction cache.function

-- The frame agrees with whatever function its name stands for.
abbrev pub IsCoherentFrame : Setup → SimFrame → Type 0
IsCoherentFrame c frame =
    (cache : FunctionCache)
    → find_function_cache c frame.function_name ≡ some cache
    → IsCoherent cache.function frame

abbrev pub IsCoherentStack : Setup → List SimFrame → Type 0
IsCoherentStack c frames = All (IsCoherentFrame c) frames

pub moved-IsCoherent :
    (function : IrFunction) (frame : SimFrame) (pc : ℕ)
    → IsCoherent function frame
    → IsCoherent function (record frame { pc = pc })
unfolding read_value
moved-IsCoherent function frame pc h = h

initial_frame-IsCoherentFrame :
    (c : Setup) (callee : IrFunction) → IsCoherentFrame c (initial_frame callee)
initial_frame-IsCoherentFrame c callee cache e = initial_frame-IsCoherent callee cache.function

find_block-IsSound :
    (cache : FunctionCache) (id : ℕ) (block : IrBlock)
    → IsSoundFunction cache.function
    → find_block cache id ≡ some block
    → IsSoundBlock cache.function.values block
unfolding find_block
find_block-IsSound cache id block sound e = go (lookup_id id cache.block_index_by_id) e
  where
    go :
        (index : Option ℕ)
        → cached_block cache.function.blocks index ≡ some block
        → IsSoundBlock cache.function.values block
    go none e' = cc
    go (some index) e' = All-get _ cache.function.blocks index block sound e'

module _ (c : Setup) (s : Simulator) (rest : List SimFrame) (below : IsCoherentStack c rest) where
  module _ (cache : FunctionCache) (frame : SimFrame) where
    -- Another frame of the function is coherent for its name.
    to_frame :
        (frame' : SimFrame)
        → find_function_cache c frame.function_name ≡ some cache
        → frame'.function_name ≡ frame.function_name
        → IsCoherent cache.function frame'
        → IsCoherentFrame c frame'
    to_frame frame' found same h cache' e =
        subst (λ (k : FunctionCache). IsCoherent k.function frame')
          (some-injective cache cache' (sym found ∙ ap (find_function_cache c) (sym same) ∙ e)) h

    resume-IsCoherent :
        (r : Outcome SimFrame)
        → find_function_cache c frame.function_name ≡ some cache
        → IsCoherent cache.function frame
        → Kept cache.function frame r
        → IsCoherentStack c (resume s frame rest r).0.state.call_stack
    resume-IsCoherent (ok frame') found h k = (to_frame frame' found k.0 k.1, below)
    resume-IsCoherent (err e) found h k = (to_frame frame found refl h, below)
    resume-IsCoherent undefined found h k = (to_frame frame found refl h, below)

  call-IsCoherent :
      (frame : SimFrame) (i : IrInstr)
      → IsCoherentFrame c frame
      → IsCoherentStack c (handle_call_op c (with_stack s (frame ∷ rest)) i).0.state.call_stack
  unfolding handle_call_op
  call-IsCoherent frame i h = named i.callee
    where
      entered :
          (callee : Option FunctionCache)
          → IsCoherentStack c (enter (with_stack s (frame ∷ rest)) callee).0.state.call_stack
      entered none = (h, below)
      entered (some cache) = (initial_frame-IsCoherentFrame c cache.function, (h, below))

      named :
          (callee : Option String)
          → IsCoherentStack c (call_named c (with_stack s (frame ∷ rest)) callee).0.state.call_stack
      named none = (h, below)
      named (some name) = entered (find_function_cache c name)

  module _ (f : Floats) (cache : FunctionCache) (frame : SimFrame)
      (found : find_function_cache c frame.function_name ≡ some cache)
      (coherent : IsCoherent cache.function frame) where
    dispatch-IsCoherent :
        (i : IrInstr) (op : IrOp)
        → i.op ≡ op
        → IsSoundInstr cache.function.values i
        → IsCoherentStack c (dispatch f c s frame rest cache.function i op).0.state.call_stack
    unfolding dispatch handle_ret_op
    dispatch-IsCoherent i IrOp.const e sound =
        resume-IsCoherent cache frame _ found coherent (handle_const_op-Kept _ _ coherent i sound)
    dispatch-IsCoherent i IrOp.copy e sound =
        resume-IsCoherent cache frame _ found coherent
          (handle_copy_op-Kept _ _ coherent i sound (λ k. cc))
    dispatch-IsCoherent i IrOp.neg e sound =
        resume-IsCoherent cache frame _ found coherent
          (handle_unary_op-Kept _ _ coherent i sound (λ k. cc) f)
    dispatch-IsCoherent i IrOp.not e sound =
        resume-IsCoherent cache frame _ found coherent
          (handle_unary_op-Kept _ _ coherent i sound (λ k. cc) f)
    dispatch-IsCoherent i IrOp.cmp e sound =
        resume-IsCoherent cache frame _ found coherent
          (handle_cmp_op-Kept _ _ coherent i sound (λ k. cc) f)
    dispatch-IsCoherent i IrOp.jmp e sound =
        resume-IsCoherent cache frame _ found coherent (handle_jump_op-Kept _ _ coherent i)
    dispatch-IsCoherent i IrOp.br_true e sound =
        resume-IsCoherent cache frame _ found coherent (handle_branch_op-Kept _ _ coherent f i)
    dispatch-IsCoherent i IrOp.call e sound =
        call-IsCoherent frame i (to_frame cache frame frame found refl coherent)
    dispatch-IsCoherent i IrOp.ret e sound = below
    dispatch-IsCoherent i IrOp.load e sound =
        resume-IsCoherent cache frame (ok frame) found coherent (refl, coherent)
    dispatch-IsCoherent i IrOp.store e sound =
        resume-IsCoherent cache frame (ok frame) found coherent (refl, coherent)
    dispatch-IsCoherent i _ e sound =
        resume-IsCoherent cache frame _ found coherent
          (handle_binary_op-Kept _ _ coherent i sound (λ k. cc) f)

dispatch-KeepsCoherent :
    (f : Floats) (c : Setup) → IsSoundSetup c → DispatchKeeps f c (IsCoherentFrame c)
dispatch-KeepsCoherent f c sound s frame rest cache block i found e at h k =
    dispatch-IsCoherent c s rest k f cache (record frame { pc = frame.pc + 1 }) found
      (moved-IsCoherent cache.function frame (frame.pc + 1) (h cache found)) i i.op refl
      (All-get _ block.instrs frame.pc i
        (find_block-IsSound cache frame.block block (sound frame.function_name cache found) e) at)

-- In a module whose constants are sound, a step keeps every frame of the call stack in agreement
-- with the constants of its function, whatever the step's result.
pub step_one-IsCoherentStack :
    (f : Floats) (c : Setup) (s : Simulator)
    → IsSoundSetup c
    → IsCoherentStack c s.state.call_stack
    → IsCoherentStack c (step_one f c s).0.state.call_stack
step_one-IsCoherentStack f c s sound h =
    step_one-All f c (IsCoherentFrame c) (dispatch-KeepsCoherent f c sound) s h

pub start-IsCoherentStack :
    (c : Setup) (callee : IrFunction) → IsCoherentStack c (initial_frame callee ∷ [])
start-IsCoherentStack c callee = (initial_frame-IsCoherentFrame c callee, tt)
