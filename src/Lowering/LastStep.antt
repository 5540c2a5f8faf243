-- ===== src/Lowering/LastStep.antt =====
-- The last step of a function in the loop of `Simulator::run` of src/sim/Simulator.cpp, and the
-- answer of the run.
use mathlib.Core.Path.{subst}
use asm_studio.Prelude.{
  ℕ, suc, ◌+◌, ◌≤◌, ◌≡◌, refl, sym, ap, ◌∙◌, Bool, true, false, Option, none, some, [], ◌∷◌, arith,
  get_elem?, get_elem?-none, ltb,
}
use asm_studio.Machine.Floats.{Floats}
use asm_studio.Ir.{IrInstr, IrBlock, RegValue}
use asm_studio.Sim.State.{
  ok, SimFrame, Simulator, Setup, FunctionCache, find_function_cache, find_block,
}
use asm_studio.Sim.Step.{
  Stepped, with_stack, step_one, step_stack, step_function, step_block, step_instr, dispatch,
  handle_ret_op, implicit_return, record_result,
}
use asm_studio.Lowering.Instructions.{read_value-next_pc}
use asm_studio.Sim.Run.{remember, count_step, run_loop, last_result}
use asm_studio.Dsl.Meaning.{Signal, goes_on, returns}
use asm_studio.Lowering.Emitted.{instrs_of}
use asm_studio.Lowering.Walks.{instr_at}
use asm_studio.Lowering.Performs.{ret_instr}
use asm_studio.Lowering.Compiles.{Finishes}
use asm_studio.Lowering.RunLoop.{Answers, InFrame, after_step-goes_on, in_frame_lem, run_loop_lem}

-- What `run` answers where a function goes on to its end, or returns.
abbrev pub result_of : Signal → Option RegValue
result_of (goes_on env) = none
result_of (returns value) = value

module _ (f : Floats) (c : Setup) (cache : FunctionCache)
    (blocks : (n : ℕ) → find_block cache n ≡ get_elem? cache.function.blocks n)
    (room : 1 ≤ c.max_call_depth) where
  -- The simulator is done, and the value is the last one recorded.
  abbrev Last : Signal → ℕ → Stepped → Type 0
  Last sig count r =
      (t : Simulator) × (b : Bool) × (r ≡ (t, ok b))
      × (t.done ≡ true)
      × (last_result t.trace ≡ result_of sig)
      × (t.step_count ≡ count)

  instr-Last :
      (sig : Signal) (s : Simulator) (frame : SimFrame) (i : Option IrInstr)
      → s.trace ≡ []
      → instr_at cache.function frame ≡ i
      → Finishes cache.function sig frame
      → Last sig s.step_count (step_instr f c s frame [] cache.function i)
  unfolding step_instr implicit_return dispatch handle_ret_op
  instr-Last (goes_on env) s frame i t e h =
      subst (λ j. Last (goes_on env) s.step_count (step_instr f c s frame [] cache.function j))
        (sym h.1 ∙ e) (record s { done = true }, false, refl, refl, ap last_result t, refl)
  instr-Last (returns none) s frame i t e h =
      subst (λ j. Last (returns none) s.step_count (step_instr f c s frame [] cache.function j))
        (sym h ∙ e) (_, _, refl, refl, ap last_result t, refl)
  instr-Last (returns (some value)) s frame i t e (id, h, r) =
      subst
        (λ j. Last (returns (some value)) s.step_count (step_instr f c s frame [] cache.function j))
        (sym h ∙ e)
        (
          _,
          _,
          refl,
          refl,
          ap (λ o. last_result (record_result s.trace o))
              (read_value-next_pc f cache.function frame id ∙ r),
          refl,
        )

  block-Last :
      (sig : Signal) (s : Simulator) (frame : SimFrame) (block : Option IrBlock)
      → s.trace ≡ []
      → get_elem? cache.function.blocks frame.block ≡ block
      → Finishes cache.function sig frame
      → Last sig s.step_count (step_block f c s frame [] cache.function block)
  unfolding step_block
  block-Last sig s frame (some block) t e h =
      instr-Last sig s frame (get_elem? block.instrs frame.pc) t
        (ap (λ b. get_elem? (instrs_of b) frame.pc) e) h
  block-Last (goes_on env) s frame none t e h = absurd (get_elem?-none _ frame.block h.0 e)
  block-Last (returns none) s frame none t e h =
      absurd (nowhere (sym h ∙ ap (λ b. get_elem? (instrs_of b) frame.pc) e))
    where
      nowhere : some (ret_instr []) ≡ none → ⊥
      nowhere p = cc
  block-Last (returns (some value)) s frame none t e (id, h, r) =
      absurd (nowhere (sym h ∙ ap (λ b. get_elem? (instrs_of b) frame.pc) e))
    where
      nowhere : some (ret_instr (id ∷ [])) ≡ none → ⊥
      nowhere p = cc

  step_one-Last :
      (sig : Signal) (s : Simulator) (frame : SimFrame)
      → s.trace ≡ []
      → find_function_cache c frame.function_name ≡ some cache
      → Finishes cache.function sig frame
      → Last sig s.step_count (step_one f c (with_stack s (frame ∷ [])))
  unfolding step_one step_stack step_function
  step_one-Last sig s frame t found h =
      let shallow : ltb c.max_call_depth 1 ≡ false = ground (arith, room) in
      rw (shallow, found, blocks frame.block)
        (block-Last sig (with_stack s (frame ∷ [])) frame _ t refl h)

  pub last-Answers :
      (sig : Signal) (fuel count : ℕ) (s : Simulator) (frame : SimFrame)
      → InFrame f c cache blocks room frame count s
      → Finishes cache.function sig frame
      → count + 1 ≤ c.max_steps
      → Answers (run_loop f c (suc (suc fuel)) s) (ok (result_of sig))
  unfolding remember
  last-Answers sig fuel count s frame (e, h, t, k, found) ends l = done (
      subst (Last sig s.step_count) (in_frame_lem f c cache blocks room s frame e)
        (step_one-Last sig (remember s) frame t found ends))
    where
      stopped :
          (t : Simulator)
          → t.done ≡ true
          → last_result t.trace ≡ result_of sig
          → Answers (run_loop f c (suc fuel) t) (ok (result_of sig))
      stopped t d p = unfold run_loop in rw d (ap ok p)

      done :
          Last sig s.step_count (step_one f c (remember s))
          → Answers (run_loop f c (suc (suc fuel)) s) (ok (result_of sig))
      done (t, b, p, d, q, m) =
          subst (λ r. Answers r (ok (result_of sig)))
            (sym (
              run_loop_lem f c cache blocks room (suc fuel) s h
              ∙ after_step-goes_on f c cache blocks room _ t b _ p (omega (arith, m, k, l))))
            (stopped (count_step t) d q)
