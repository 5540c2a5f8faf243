-- ===== src/Lowering/RunLoop.antt =====
-- Walks of a frame inside the loop of `Simulator::run` of src/sim/Simulator.cpp, which keeps a
-- history and counts its steps.
use mathlib.Core.Path.{subst}
use asm_studio.Prelude.{
  ℕ, zero, suc, ◌+◌, ◌≤◌, ◌≡◌, refl, sym, ap, ◌∙◌, Bool, false, not, Option, none, some, [], ◌∷◌,
  arith, get_elem?, ltb,
}
use asm_studio.Machine.Floats.{Floats}
use asm_studio.Ir.{RegValue}
use asm_studio.Sim.State.{
  Outcome, ok, err, undefined, SimError, SimFrame, Simulator, Setup, FunctionCache,
  find_function_cache, find_block, ◌>>=◌,
}
use asm_studio.Sim.Step.{Stepped, with_stack, step_one}
use asm_studio.Sim.Run.{Ran, remember, count_step, after_step, run_loop}
use asm_studio.Lowering.Walks.{walk, step_at, instr_at}
use asm_studio.Lowering.Steps.{Follows, step_one-Follows, SameFunction, step_at-SameFunction}

abbrev error_of : SimError → Outcome Bool → SimError
error_of e (err x) = x
error_of e o = e

-- A run that has an answer, and that is it.
abbrev pub Answers : Option Ran → Outcome (Option RegValue) → Type 0
Answers none o = ⊥
Answers (some (s, r)) o = r ≡ o

module _ (f : Floats) (c : Setup) (cache : FunctionCache)
    (blocks : (n : ℕ) → find_block cache n ≡ get_elem? cache.function.blocks n)
    (room : 1 ≤ c.max_call_depth) where
  -- The simulator in the loop with one frame, so many steps and nothing returned yet.
  abbrev pub InFrame : SimFrame → ℕ → Simulator → Type 0
  InFrame frame count s =
      (s.state.call_stack ≡ frame ∷ [])
      × (s.done ≡ false)
      × (s.trace ≡ [])
      × (s.step_count ≡ count)
      × (find_function_cache c frame.function_name ≡ some cache)

  -- A step that goes on.
  pub after_step-goes_on :
      (r : Stepped) (t : Simulator) (b : Bool) (again : Simulator → Option Ran)
      → r ≡ (t, ok b)
      → t.step_count + 1 ≤ c.max_steps
      → after_step c r again ≡ again (count_step t)
  unfolding after_step
  after_step-goes_on r t b again e l =
      let within : ltb c.max_steps (t.step_count + 1) ≡ false = ground (arith, l) in
      rw (e, within) refl

  after_step-err :
      (r : Stepped) (e : SimError) (again : Simulator → Option Ran)
      → r.1 ≡ err e
      → Answers (after_step c r again) (err e)
  unfolding after_step
  after_step-err (s, ok b) e again h = cc
  after_step-err (s, err x) e again h = ap err (ap (error_of e) h)
  after_step-err (s, undefined) e again h = cc

  abbrev pub LoopFollows : ℕ → ℕ → ℕ → Simulator → Outcome SimFrame → Type 0
  LoopFollows n fuel count s (ok frame') =
      (s' : Simulator) × InFrame frame' (count + n) s'
      × (run_loop f c (n + fuel) s ≡ run_loop f c fuel s')
  LoopFollows n fuel count s (err e) = Answers (run_loop f c (n + fuel) s) (err e)
  LoopFollows n fuel count s undefined = Unit

  -- The simulator with its frame written out.
  pub in_frame_lem :
      (s : Simulator) (frame : SimFrame)
      → s.state.call_stack ≡ frame ∷ []
      → step_one f c (with_stack (remember s) (frame ∷ [])) ≡ step_one f c (remember s)
  unfolding remember
  in_frame_lem s frame e = ap (λ st. step_one f c (with_stack (remember s) st)) (sym e)

  pub run_loop_lem :
      (fuel : ℕ) (s : Simulator)
      → s.done ≡ false
      → run_loop f c (suc fuel) s
        ≡ after_step c (step_one f c (remember s)) (λ t. run_loop f c fuel t)
  unfolding run_loop
  run_loop_lem fuel s e = rw e refl

  pub walk-run_loop :
      (n fuel count : ℕ) (s : Simulator) (frame : SimFrame)
      → InFrame frame count s
      → count + n ≤ c.max_steps
      → LoopFollows n fuel count s (walk f cache.function n frame)
  unfolding walk remember
  walk-run_loop zero fuel count s frame (e, h, t, k, found) l =
      let same : zero + fuel ≡ fuel = omega arith in
      (s, (e, h, t, omega (arith, k), found), ap (λ m. run_loop f c m s) same)
  walk-run_loop (suc n) fuel count s frame (e, h, t, k, found) l =
      go (step_at f cache.function frame (instr_at cache.function frame))
        (step_one f c (remember s))
        (subst
          (Follows (remember s) [] (step_at f cache.function frame (instr_at cache.function frame)))
          (in_frame_lem s frame e)
          (step_one-Follows f c cache [] blocks room (remember s) frame found))
        (step_at-SameFunction f c cache frame (instr_at cache.function frame))
        (λ s' frame' x. walk-run_loop n fuel (count + 1) s' frame' x (omega (arith, l)))
        (ap (λ m. run_loop f c m s) counted ∙ run_loop_lem (n + fuel) s h)
    where
      counted : suc n + fuel ≡ suc (n + fuel)
      counted = omega arith

      go :
          (o : Outcome SimFrame) (r : Stepped)
          → Follows (remember s) [] o r
          → SameFunction frame o
          → ((s' : Simulator) (frame' : SimFrame)
              → InFrame frame' (count + 1) s'
              → LoopFollows n fuel (count + 1) s' (walk f cache.function n frame'))
          → run_loop f c (suc n + fuel) s ≡ after_step c r (λ t. run_loop f c (n + fuel) t)
          → LoopFollows (suc n) fuel count s (o >>= λ frame'. walk f cache.function n frame')
      go (ok frame') r x same ih unrolled =
          next (walk f cache.function n frame') (count_step (with_stack (remember s) (frame' ∷ [])))
            (unrolled
              ∙ after_step-goes_on r (with_stack (remember s) (frame' ∷ [])) (not s.done) _ x
                  (omega (arith, k, l)))
            (ih (count_step (with_stack (remember s) (frame' ∷ []))) frame'
              (refl, h, t, omega (arith, k), ap (find_function_cache c) same ∙ found))
        where
          next :
              (o : Outcome SimFrame) (s' : Simulator)
              → run_loop f c (suc n + fuel) s ≡ run_loop f c (n + fuel) s'
              → LoopFollows n fuel (count + 1) s' o
              → LoopFollows (suc n) fuel count s o
          next (ok last) s' p (s'', (e1, h1, t1, k1, f1), q) =
              (s'', (e1, h1, t1, omega (arith, k1), f1), p ∙ q)
          next (err x) s' p q = subst (λ r. Answers r (err x)) (sym p) q
          next undefined s' p q = tt
      go (err x) r y same ih unrolled =
          subst (λ r. Answers r (err x)) (sym unrolled) (after_step-err r x _ y)
      go undefined r x same ih unrolled = tt
