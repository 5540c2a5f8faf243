-- ===== src/Optimizer/RegionSteps.antt =====
-- Frames of src/sim/Simulator.cpp stay in the blocks that
-- src/transforms/passes/UnreachableBlockEliminationPass.cpp keeps.
use mathlib.Core.Path.{subst}
use mathlib.Core.Option.{some-injective}
use asm_studio.Prelude.{
  ℕ, ◌+◌, ◌≡◌, ◌⊎◌, inl, inr, refl, sym, ap, ◌∙◌, Bool, true, false, String, Option, none, some,
  List, [], ◌∷◌, get_elem?, if◌then◌else◌, All,
}
use asm_studio.Machine.Floats.{Floats}
use asm_studio.Ir.{IrOp, IrInstr, IrBlock, IrFunction, RegValue, find_by_id}
use asm_studio.Sim.Ops.{is_taken}
use asm_studio.Sim.State.{
  Outcome, ok, err, undefined, ◌>>=◌, SimFrame, FunctionCache, Setup, Simulator,
  find_function_cache, find_block, initial_frame, read_value,
}
use asm_studio.Sim.Handlers.{handle_jump_op, handle_branch_op, jump_to, with_condition}
use asm_studio.Sim.Step.{
  with_stack, resume, dispatch, handle_call_op, handle_ret_op, call_named, enter,
}
use asm_studio.Sim.FrameSteps.{DispatchKeeps}
use asm_studio.Sim.Lookup.{find_block-rebuild_block_index}
use asm_studio.Lowering.Code.{compute}
use asm_studio.Lowering.Walks.{Stays, compute-Stays}
use asm_studio.Optimizer.Targets.{IsTarget}
use asm_studio.Optimizer.Identifiers.{Has}
use asm_studio.Optimizer.Eliminated.{eliminated, Region, eliminated-Region}
use asm_studio.Optimizer.EliminatedCaches.{IsNew}

-- A handler's frame is in the same function, and in its block or at a target.
abbrev Lands : IrInstr → SimFrame → Outcome SimFrame → Type 0
Lands i frame (ok frame') =
    (frame'.function_name ≡ frame.function_name)
    × ((frame'.block ≡ frame.block) ⊎ IsTarget i frame'.block)
Lands i frame (err e) = Unit
Lands i frame undefined = Unit

Stays-Lands :
    (i : IrInstr) (frame : SimFrame) (o : Outcome SimFrame) → Stays frame o → Lands i frame o
Stays-Lands i frame (ok frame') h = (h.2, inl h.1)
Stays-Lands i frame (err e) h = tt
Stays-Lands i frame undefined h = tt

jump_to-Lands :
    (i : IrInstr) (frame : SimFrame) (target : Option ℕ)
    → ((t : ℕ) → target ≡ some t → IsTarget i t)
    → Lands i frame (ok (jump_to frame target))
jump_to-Lands i frame none h = (refl, inl refl)
jump_to-Lands i frame (some t) h = (refl, inr (h t refl))

module _ (f : Floats) (g : IrFunction) (i : IrInstr) (frame : SimFrame) where
  branch-Lands : Lands i frame (handle_branch_op f frame i g)
  unfolding handle_branch_op
  branch-Lands = go i.inputs
    where
      taken :
          (b : Bool)
          → Lands i frame (ok (jump_to frame (if b then i.true_target else i.false_target)))
      taken true = jump_to-Lands i frame i.true_target (λ t e. inl e)
      taken false = jump_to-Lands i frame i.false_target (λ t e. inr e)

      then_jump :
          (o : Outcome RegValue)
          → Lands i frame (
              o >>= λ v.
              ok (jump_to frame (if is_taken f v then i.true_target else i.false_target)))
      then_jump (ok v) = taken (is_taken f v)
      then_jump (err e) = tt
      then_jump undefined = tt

      go :
          (inputs : List ℕ)
          → Lands i frame (
              with_condition inputs (ok frame) (λ input. read_value frame g input >>= λ v.
              ok (jump_to frame (if is_taken f v then i.true_target else i.false_target))))
      go [] = (refl, inl refl)
      go (input ∷ inputs) = then_jump (read_value frame g input)

  compute-Lands : (op : IrOp) → Lands i frame (compute f g frame i op)
  unfolding compute handle_jump_op
  compute-Lands IrOp.jmp = jump_to-Lands i frame i.true_target (λ t e. inl e)
  compute-Lands IrOp.br_true = branch-Lands
  compute-Lands IrOp.call = tt
  compute-Lands IrOp.ret = tt
  compute-Lands op =
      Stays-Lands i frame (compute f g frame i op) (compute-Stays frame f g i op refl)

-- The frame is in a block that the pass keeps.
abbrev pub InRegion : IrFunction → ℕ → Type 0
InRegion g id = (r : List ℕ) × Region g (eliminated g) r × Has r id

abbrev pub IsInRegion : Setup → SimFrame → Type 0
IsInRegion c frame =
    (cache : FunctionCache)
    → find_function_cache c frame.function_name ≡ some cache
    → InRegion cache.function frame.block

module _ (f : Floats) (c : Setup)
    (known : (name : String) (cache : FunctionCache)
      → find_function_cache c name ≡ some cache
      → IsNew name cache) where
  pub initial_frame-IsInRegion :
      (name : String) (callee : FunctionCache)
      → find_function_cache c name ≡ some callee
      → IsInRegion c (initial_frame callee.function)
  unfolding initial_frame
  initial_frame-IsInRegion name callee e cache e' =
      let (new, same, indexed) = known name callee e in
      let (r, region) = eliminated-Region callee.function indexed in
      subst (λ (k : FunctionCache). InRegion k.function (initial_frame callee.function).block)
        (some-injective callee cache (sym e ∙ sym (ap (find_function_cache c) same) ∙ e'))
        (r, region, region.entry)

  pub found_block :
      (name : String) (cache : FunctionCache) (id : ℕ)
      → find_function_cache c name ≡ some cache
      → find_block cache id ≡ find_by_id id cache.function.blocks
  found_block name cache id e =
      ap (λ k. find_block k id) (known name cache e).0
      ∙ (find_block-rebuild_block_index cache.function id).1

  module _ (s : Simulator) (frame : SimFrame) (rest : List SimFrame) (cache : FunctionCache)
      (block : IrBlock) (i : IrInstr)
      (found : find_function_cache c frame.function_name ≡ some cache)
      (e : find_block cache frame.block ≡ some block)
      (at : get_elem? block.instrs frame.pc ≡ some i) (h : IsInRegion c frame)
      (k : All (IsInRegion c) rest) where
    resume-IsInRegion :
        (o : Outcome SimFrame)
        → Lands i frame o
        → All
            (IsInRegion c)
            (resume s (record frame { pc = frame.pc + 1 }) rest o).0.state.call_stack
    resume-IsInRegion (ok frame') (same, inl q) = (
      λ cache' e'.
          subst (InRegion cache'.function) (sym q)
            (h cache' (sym (ap (find_function_cache c) same) ∙ e')),
      k,
    )
    resume-IsInRegion (ok frame') (same, inr q) = (
      λ cache' e'.
          let (r, region, has) = h cache found in
          subst (λ (x : FunctionCache). InRegion x.function frame'.block)
            (some-injective cache cache' (sym found ∙ sym (ap (find_function_cache c) same) ∙ e'))
            (
              r,
              region,
              region.closed frame.block block frame'.block has
                  (sym (found_block frame.function_name cache frame.block found) ∙ e)
                  (frame.pc, i, at, q),
            ),
      k,
    )
    resume-IsInRegion (err x) l = (h, k)
    resume-IsInRegion undefined l = (h, k)

    call-IsInRegion :
        All
          (IsInRegion c)
          (handle_call_op c
            (with_stack s (record frame { pc = frame.pc + 1 } ∷ rest))
            i).0.state.call_stack
    unfolding handle_call_op
    call-IsInRegion = named i.callee
      where
        entered :
            (name : String) (callee : Option FunctionCache)
            → find_function_cache c name ≡ callee
            → All
                (IsInRegion c)
                (enter
                  (with_stack s (record frame { pc = frame.pc + 1 } ∷ rest))
                  callee).0.state.call_stack
        entered name none p = (h, k)
        entered name (some callee) p = (initial_frame-IsInRegion name callee p, (h, k))

        named :
            (callee : Option String)
            → All
                (IsInRegion c)
                (call_named c
                  (with_stack s (record frame { pc = frame.pc + 1 } ∷ rest))
                  callee).0.state.call_stack
        named none = (h, k)
        named (some name) = entered name (find_function_cache c name) refl

    dispatch-IsInRegion :
        (op : IrOp)
        → All
            (IsInRegion c)
            (dispatch f c s
              (record frame { pc = frame.pc + 1 })
              rest
              cache.function
              i
              op).0.state.call_stack
    unfolding dispatch compute handle_ret_op
    dispatch-IsInRegion IrOp.call = call-IsInRegion
    dispatch-IsInRegion IrOp.ret = k
    dispatch-IsInRegion op =
        resume-IsInRegion (compute f cache.function (record frame { pc = frame.pc + 1 }) i op)
          (compute-Lands f cache.function i (record frame { pc = frame.pc + 1 }) op)

  pub dispatch-Keeps : DispatchKeeps f c (IsInRegion c)
  dispatch-Keeps s frame rest cache block i found e at h k =
      dispatch-IsInRegion s frame rest cache block i found e at h k i.op
