-- ===== src/Lowering/Steps.antt =====
-- Walks of a frame as steps of the simulator: `stepOne` of src/sim/Simulator.cpp, again and again.
use mathlib.Core.Path.{subst}
use asm_studio.Prelude.{
  ℕ, zero, suc, ◌≤◌, ◌≡◌, refl, sym, ap, ◌∙◌, Bool, true, false, not, Option, none, some, List, [],
  ◌∷◌, arith, length, get_elem?, ltb, if◌then◌else◌,
}
use asm_studio.Machine.Floats.{Floats}
use asm_studio.Ir.{IrOp, IrInstr, IrBlock, RegValue}
use asm_studio.Sim.State.{
  Outcome, ok, err, undefined, SimFrame, Simulator, Setup, FunctionCache, find_function_cache,
  find_block, ◌>>=◌, read_value,
}
use asm_studio.Sim.Handlers.{handle_jump_op, handle_branch_op, jump_to, with_condition}
use asm_studio.Sim.Ops.{is_taken}
use asm_studio.Sim.State.{SimError}
use asm_studio.Sim.Step.{
  Stepped, with_stack, resume, dispatch, step_instr, step_block, step_function, step_stack,
  step_one,
}
use asm_studio.Lowering.Code.{compute, next_pc}
use asm_studio.Lowering.Emitted.{instrs_of}
use asm_studio.Lowering.Walks.{Stays, compute-Stays, walk, step_at, instr_at}

-- `stepOne` so many times, as long as it goes on.
abbrev step_again : Stepped → (Simulator → Stepped) → Stepped
step_again (s, ok true) again = again s
step_again (s, r) again = (s, r)

unfoldable pub steps : Floats → Setup → ℕ → Simulator → Stepped
steps f c zero s = (s, ok (not s.done))
steps f c (suc n) s = step_again (step_one f c s) (λ t. steps f c n t)

-- A new frame that belongs to the same function.
abbrev pub SameFunction : SimFrame → Outcome SimFrame → Type 0
SameFunction frame (ok frame') = frame'.function_name ≡ frame.function_name
SameFunction frame (err e) = Unit
SameFunction frame undefined = Unit

Stays-SameFunction :
    (frame : SimFrame) (o : Outcome SimFrame) → Stays frame o → SameFunction frame o
Stays-SameFunction frame (ok frame') h = h.2
Stays-SameFunction frame (err e) h = tt
Stays-SameFunction frame undefined h = tt

pub jump_to-SameFunction :
    (frame : SimFrame) (target : Option ℕ)
    → (jump_to frame target).function_name ≡ frame.function_name
jump_to-SameFunction frame none = refl
jump_to-SameFunction frame (some target) = refl

-- What the simulator is to answer when the frame's handler does.
abbrev pub Follows : Simulator → List SimFrame → Outcome SimFrame → Stepped → Type 0
Follows s rest (ok frame') r = r ≡ (with_stack s (frame' ∷ rest), ok (not s.done))
Follows s rest (err e) r = r.1 ≡ err e
Follows s rest undefined r = Unit

resume-Follows :
    (s : Simulator) (frame : SimFrame) (rest : List SimFrame) (o : Outcome SimFrame)
    → Follows s rest o (resume s frame rest o)
resume-Follows s frame rest (ok frame') = refl
resume-Follows s frame rest (err e) = refl
resume-Follows s frame rest undefined = tt

module _ (f : Floats) (c : Setup) (cache : FunctionCache) where
  branch-SameFunction :
      (frame : SimFrame) (i : IrInstr)
      → SameFunction frame (handle_branch_op f frame i cache.function)
  unfolding handle_branch_op
  branch-SameFunction frame i = go i.inputs
    where
      target : RegValue → Option ℕ
      target condition = if is_taken f condition then i.true_target else i.false_target

      then_jump :
          (o : Outcome RegValue) → SameFunction frame (o >>= λ v. ok (jump_to frame (target v)))
      then_jump (ok v) = jump_to-SameFunction frame (target v)
      then_jump (err e) = tt
      then_jump undefined = tt

      go :
          (inputs : List ℕ)
          → SameFunction frame (
              with_condition inputs (ok frame) (λ input.
                read_value frame cache.function input >>= λ v. ok (jump_to frame (target v))))
      go [] = refl
      go (input ∷ inputs) = then_jump (read_value frame cache.function input)

  compute-SameFunction :
      (frame : SimFrame) (i : IrInstr) (op : IrOp)
      → SameFunction frame (compute f cache.function frame i op)
  unfolding compute handle_jump_op
  compute-SameFunction frame i IrOp.jmp = jump_to-SameFunction frame i.true_target
  compute-SameFunction frame i IrOp.br_true = branch-SameFunction frame i
  compute-SameFunction frame i IrOp.call = tt
  compute-SameFunction frame i IrOp.ret = tt
  compute-SameFunction frame i op =
      Stays-SameFunction frame (compute f cache.function frame i op)
        (compute-Stays frame f cache.function i op refl)

  dispatch-Follows :
      (s : Simulator) (frame : SimFrame) (rest : List SimFrame) (i : IrInstr) (op : IrOp)
      → Follows s rest
          (compute f cache.function frame i op)
          (dispatch f c s frame rest cache.function i op)
  unfolding compute dispatch
  dispatch-Follows s frame rest i IrOp.call = tt
  dispatch-Follows s frame rest i IrOp.ret = tt
  dispatch-Follows s frame rest i op =
      resume-Follows s frame rest (compute f cache.function frame i op)

  block-Follows :
      (s : Simulator) (frame : SimFrame) (rest : List SimFrame) (block : Option IrBlock)
      → Follows s rest
          (step_at f cache.function frame (get_elem? (instrs_of block) frame.pc))
          (step_block f c s frame rest cache.function block)
  unfolding step_block step_instr
  block-Follows s frame rest none = tt
  block-Follows s frame rest (some block) = go (get_elem? block.instrs frame.pc)
    where
      go :
          (i : Option IrInstr)
          → Follows s rest
              (step_at f cache.function frame i)
              (step_instr f c s frame rest cache.function i)
      go none = tt
      go (some i) = dispatch-Follows s (next_pc frame) rest i i.op

  pub step_at-SameFunction :
      (frame : SimFrame) (i : Option IrInstr)
      → SameFunction frame (step_at f cache.function frame i)
  step_at-SameFunction frame none = tt
  step_at-SameFunction frame (some i) = compute-SameFunction (next_pc frame) i i.op

  step_again-err :
      (e : SimError) (r : Stepped) (again : Simulator → Stepped)
      → r.1 ≡ err e
      → (step_again r again).1 ≡ err e
  step_again-err e (s, ok true) again h = cc
  step_again-err e (s, ok false) again h = cc
  step_again-err e (s, err e') again h = h
  step_again-err e (s, undefined) again h = cc

  step_again-ok :
      (t : Simulator) (r : Stepped) (again : Simulator → Stepped) (b : Bool)
      → r ≡ (t, ok (not b))
      → b ≡ false
      → step_again r again ≡ again t
  step_again-ok t r again b h k = rw (h, k) refl

  module _ (rest : List SimFrame)
      (blocks : (n : ℕ) → find_block cache n ≡ get_elem? cache.function.blocks n)
      (room : suc (length rest) ≤ c.max_call_depth) where
    pub step_one-Follows :
        (s : Simulator) (frame : SimFrame)
        → find_function_cache c frame.function_name ≡ some cache
        → Follows s rest
            (step_at f cache.function frame (instr_at cache.function frame))
            (step_one f c (with_stack s (frame ∷ rest)))
    unfolding step_one step_stack step_function
    step_one-Follows s frame found =
        let shallow : ltb c.max_call_depth (suc (length rest)) ≡ false = ground (arith, room) in
        rw (shallow, found, blocks frame.block)
          (block-Follows (with_stack s (frame ∷ rest)) frame rest
            (get_elem? cache.function.blocks frame.block))

    -- A walk of the top frame is as many steps of a simulator that is not done, in a function whose
    -- blocks are found by position and with room on the call stack: from a walk to a frame the
    -- simulator comes to that frame on the same stack, all else as before, and from a walk to an
    -- error it comes to that error.
    pub walk-steps :
        (n : ℕ) (s : Simulator) (frame : SimFrame)
        → s.done ≡ false
        → find_function_cache c frame.function_name ≡ some cache
        → Follows s rest (walk f cache.function n frame) (steps f c n (with_stack s (frame ∷ rest)))
    unfolding walk steps
    walk-steps zero s frame h found = refl
    walk-steps (suc n) s frame h found =
        go (step_at f cache.function frame (instr_at cache.function frame))
          (step_one f c (with_stack s (frame ∷ rest))) (step_one-Follows s frame found)
          (step_at-SameFunction frame (instr_at cache.function frame))
          (λ frame' k. walk-steps n s frame' h k)
      where
        go :
            (o : Outcome SimFrame) (r : Stepped)
            → Follows s rest o r
            → SameFunction frame o
            → ((frame' : SimFrame)
                → find_function_cache c frame'.function_name ≡ some cache
                → Follows s rest
                    (walk f cache.function n frame')
                    (steps f c n (with_stack s (frame' ∷ rest))))
            → Follows s rest
                (o >>= λ frame'. walk f cache.function n frame')
                (step_again r (λ t. steps f c n t))
        go (ok frame') r k same ih =
            subst (Follows s rest (walk f cache.function n frame'))
              (sym (step_again-ok (with_stack s (frame' ∷ rest)) r (λ t. steps f c n t) s.done k h))
              (ih frame' (ap (find_function_cache c) same ∙ found))
        go (err e) r k same ih = step_again-err e r _ k
        go undefined r k same ih = tt
