-- ===== src/Sim/Bounds.antt =====
-- `Simulator::run` of src/sim/Simulator.cpp: its termination, and the sizes of stack and history.
use asm_studio.Prelude.{
  ℕ, zero, suc, ◌+◌, ◌≤◌, ◌<◌, ◌≡◌, refl, ap, Bool, true, false, String, Option, none, some, List,
  [], ◌∷◌, arith, if◌then◌else◌, ltb, length, get_elem?, Bool-cases, inl, inr,
}
use asm_studio.Machine.Floats.{Floats}
use asm_studio.Ir.{IrOp, IrInstr, IrFunction, IrBlock}
use asm_studio.Sim.State.{
  Outcome, ok, err, undefined, SimFrame, FunctionCache, Setup, Simulator, reset,
  find_function_cache, find_block,
}
use asm_studio.Sim.Handlers.{
  handle_const_op, handle_copy_op, handle_binary_op, handle_unary_op, handle_cmp_op, handle_jump_op,
  handle_branch_op,
}
use asm_studio.Sim.Step.{
  Stepped, with_stack, resume, dispatch, implicit_return, step_instr, step_block, step_function,
  step_stack, step_one, handle_call_op, handle_ret_op, enter, call_named,
}
use asm_studio.Sim.Run.{Ran, remember, count_step, after_step, run_loop, start, run, last_result}

-- A step leaves the count and the history alone, and the stack within a bound.
abbrev pub Bounded : ℕ → Simulator → Stepped → Type 0
Bounded n s r =
    (r.0.step_count ≡ s.step_count) × (r.0.history ≡ s.history) × (length r.0.state.call_stack ≤ n)

module _ (n : ℕ) (s : Simulator) (rest : List SimFrame) (room : length rest + 2 ≤ n) where
  resume-Bounded : (frame : SimFrame) (r : Outcome SimFrame) → Bounded n s (resume s frame rest r)
  resume-Bounded frame (ok frame') = (refl, refl, omega arith)
  resume-Bounded frame (err e) = (refl, refl, omega arith)
  resume-Bounded frame undefined = (refl, refl, omega arith)

  call-Bounded :
      (c : Setup) (frame : SimFrame) (i : IrInstr)
      → Bounded n s (handle_call_op c (with_stack s (frame ∷ rest)) i)
  unfolding handle_call_op
  call-Bounded c frame i = named i.callee
    where
      entered :
          (cache : Option FunctionCache) → Bounded n s (enter (with_stack s (frame ∷ rest)) cache)
      entered none = (refl, refl, omega arith)
      entered (some cache) = (refl, refl, omega arith)

      named :
          (callee : Option String) → Bounded n s (call_named c (with_stack s (frame ∷ rest)) callee)
      named none = (refl, refl, omega arith)
      named (some name) = entered (find_function_cache c name)

  dispatch-Bounded :
      (f : Floats) (c : Setup) (frame : SimFrame) (function : IrFunction) (i : IrInstr) (op : IrOp)
      → Bounded n s (dispatch f c s frame rest function i op)
  unfolding dispatch handle_ret_op
  dispatch-Bounded f c frame function i IrOp.const = resume-Bounded frame (handle_const_op frame i)
  dispatch-Bounded f c frame function i IrOp.copy =
      resume-Bounded frame (handle_copy_op frame i function)
  dispatch-Bounded f c frame function i IrOp.neg =
      resume-Bounded frame (handle_unary_op f frame i function)
  dispatch-Bounded f c frame function i IrOp.not =
      resume-Bounded frame (handle_unary_op f frame i function)
  dispatch-Bounded f c frame function i IrOp.cmp =
      resume-Bounded frame (handle_cmp_op f frame i function)
  dispatch-Bounded f c frame function i IrOp.jmp = resume-Bounded frame (handle_jump_op frame i)
  dispatch-Bounded f c frame function i IrOp.br_true =
      resume-Bounded frame (handle_branch_op f frame i function)
  dispatch-Bounded f c frame function i IrOp.call = call-Bounded c frame i
  dispatch-Bounded f c frame function i IrOp.ret = (refl, refl, omega arith)
  dispatch-Bounded f c frame function i IrOp.load = resume-Bounded frame (ok frame)
  dispatch-Bounded f c frame function i IrOp.store = resume-Bounded frame (ok frame)
  dispatch-Bounded f c frame function i _ =
      resume-Bounded frame (handle_binary_op f frame i function)

module _ (f : Floats) (c : Setup) (s : Simulator) (n : ℕ)
    (fits : length s.state.call_stack ≤ n) where
  step_function-Bounded :
      (frame : SimFrame) (rest : List SimFrame) (cache : Option FunctionCache)
      → s.state.call_stack ≡ frame ∷ rest
      → length rest + 2 ≤ n
      → Bounded n s (step_function f c s frame rest cache)
  unfolding step_function step_block step_instr implicit_return
  step_function-Bounded frame rest none e room = (refl, refl, fits)
  step_function-Bounded frame rest (some cache) e room = by_block (find_block cache frame.block)
    where
      ended :
          (below : List SimFrame)
          → length below + 2 ≤ n
          → Bounded n s (implicit_return s frame below)
      ended [] h = (refl, refl, fits)
      ended (caller ∷ below) h = (refl, refl, omega arith)

      by_instr : (i : Option IrInstr) → Bounded n s (step_instr f c s frame rest cache.function i)
      by_instr none = ended rest room
      by_instr (some i) = dispatch-Bounded n s rest room f c _ cache.function i i.op

      by_block :
          (block : Option IrBlock) → Bounded n s (step_block f c s frame rest cache.function block)
      by_block none = (refl, refl, fits)
      by_block (some block) = by_instr (get_elem? block.instrs frame.pc)

-- No step lets the call stack grow beyond the limit and one.
pub step_one-Bounded :
    (f : Floats) (c : Setup) (s : Simulator)
    → length s.state.call_stack ≤ c.max_call_depth + 1
    → Bounded (c.max_call_depth + 1) s (step_one f c s)
unfolding step_one step_stack
step_one-Bounded f c s fits = go s.state.call_stack refl
  where
    go :
        (frames : List SimFrame)
        → s.state.call_stack ≡ frames
        → Bounded (c.max_call_depth + 1) s (step_stack f c s frames)
    go [] e = (refl, refl, fits)
    go (frame ∷ rest) e = elim (Bool-cases (ltb c.max_call_depth (length (frame ∷ rest)))) [
      | inl h ↦ rw h (refl, refl, fits)
      | inr h ↦ rw h (
          step_function-Bounded f c s (c.max_call_depth + 1) fits frame rest _ e
            (ground (arith, h)))
    ]

-- A run that ends, with what it leaves behind.
abbrev pub EndsWithin : Setup → Option Ran → Type 0
EndsWithin c none = ⊥
EndsWithin c (some (t, r)) =
    (length t.history ≤ c.max_steps + 1) × (length t.state.call_stack ≤ c.max_call_depth + 1)

abbrev InLoop : Setup → Simulator → Type 0
InLoop c s =
    (length s.history ≡ s.step_count)
    × (s.step_count ≤ c.max_steps)
    × (length s.state.call_stack ≤ c.max_call_depth + 1)

after_step-Ends :
    (c : Setup) (s : Simulator) (r : Stepped) (again : Simulator → Option Ran)
    → InLoop c s
    → Bounded (c.max_call_depth + 1) (remember s) r
    → ((t : Simulator) → InLoop c t → t.step_count ≡ s.step_count + 1 → EndsWithin c (again t))
    → EndsWithin c (after_step c r again)
unfolding after_step remember
after_step-Ends c s (t, err e) again h k next = (omega (arith, ap length k.1, h.0, h.1), k.2)
after_step-Ends c s (t, undefined) again h k next = (omega (arith, ap length k.1, h.0, h.1), k.2)
after_step-Ends c s (t, ok more) again h k next =
    elim (Bool-cases (ltb c.max_steps (t.step_count + 1))) [
      | inl e ↦ rw e (omega (arith, ap length k.1, h.0, h.1), k.2)
      | inr e ↦ rw e (
          next (count_step t) (omega (arith, ap length k.1, h.0, k.0), ground (arith, e), k.2)
            (omega (arith, k.0)))
    ]

run_loop-Ends :
    (f : Floats) (c : Setup) (fuel : ℕ) (s : Simulator)
    → InLoop c s
    → c.max_steps + 1 < fuel + s.step_count
    → EndsWithin c (run_loop f c fuel s)
unfolding run_loop remember
run_loop-Ends f c zero s h l = absurd (omega (arith, h.1))
run_loop-Ends f c (suc fuel) s h l = go s.done (
    after_step-Ends c s (step_one f c (remember s)) _ h (step_one-Bounded f c (remember s) h.2)
      (λ t k e. run_loop-Ends f c fuel t k (omega arith)))
  where
    go :
        (b : Bool)
        → EndsWithin c (after_step c (step_one f c (remember s)) (λ t. run_loop f c fuel t))
        → EndsWithin c (
            if b
            then some (s, ok (last_result s.trace))
            else after_step c (step_one f c (remember s)) (λ t. run_loop f c fuel t))
    go true k = (omega (arith, h.0, h.1), h.2)
    go false k = k

-- `run` always ends: with fuel for two more steps than the step limit it answers, whichever
-- function is asked for, and what it leaves behind has a history of at most the step limit and one
-- states and a call stack of at most the depth limit and one frames, if the simulator it is called
-- on is within these limits.
pub run-Ends :
    (f : Floats) (c : Setup) (fuel : ℕ) (s : Simulator) (function_name : String)
    → c.max_steps + 1 < fuel
    → length s.history ≤ c.max_steps + 1
    → length s.state.call_stack ≤ c.max_call_depth + 1
    → EndsWithin c (run f c fuel s function_name)
unfolding run reset
run-Ends f c fuel s function_name enough short shallow = go (find_function_cache c function_name)
  where
    go : (cache : Option FunctionCache) → EndsWithin c (start f c fuel s cache)
    go none = (short, shallow)
    go (some cache) = run_loop-Ends f c fuel _ (refl, omega arith, omega arith) (omega arith)
