-- ===== src/Sim/SameRuns.antt =====
-- Runs of src/sim/Simulator.cpp that are the same for two modules, from steps that are.
use asm_studio.Prelude.{
  ℕ, zero, suc, ◌+◌, ◌≡◌, refl, ap, ◌∙◌, Option, some, List, if◌then◌else◌, ltb,
}
use asm_studio.Machine.Floats.{Floats}
use asm_studio.Sim.State.{ok, err, undefined, SimError, SimFrame, Setup, Simulator}
use asm_studio.Sim.Step.{Stepped, step_one}
use asm_studio.Sim.Run.{Ran, remember, after_step, run_loop, last_result, count_step}

module _ (f : Floats) (c c' : Setup) (limit : c'.max_steps ≡ c.max_steps)
    (I : List SimFrame → Type 0)
    (same : (s : Simulator) → I s.state.call_stack → step_one f c' s ≡ step_one f c s)
    (keeps : (s : Simulator) → I s.state.call_stack → I (step_one f c s).0.state.call_stack) where
  after_step-same :
      (again' again : Simulator → Option Ran)
      → ((t : Simulator) → I t.state.call_stack → again' t ≡ again t)
      → (r : Stepped) → I r.0.state.call_stack
      → after_step c' r again' ≡ after_step c r again
  unfolding after_step
  after_step-same again' again h (s, err e) k = refl
  after_step-same again' again h (s, undefined) k = refl
  after_step-same again' again h (s, ok more) k =
      ap
        (λ (n : ℕ).
          if ltb n (s.step_count + 1)
          then some (count_step s, err SimError.max_steps_exceeded)
          else again' (count_step s))
        limit
      ∙ ap
          (λ (r : Option Ran).
            if ltb c.max_steps (s.step_count + 1)
            then some (count_step s, err SimError.max_steps_exceeded)
            else r)
          (h (count_step s) k)

  pub run_loop-same :
      (fuel : ℕ) (s : Simulator) → I s.state.call_stack → run_loop f c' fuel s ≡ run_loop f c fuel s
  unfolding run_loop remember
  run_loop-same zero s h = refl
  run_loop-same (suc fuel) s h =
      ap (λ (r : Option Ran). if s.done then some (s, ok (last_result s.trace)) else r)
        (ap (λ r. after_step c' r (λ t. run_loop f c' fuel t)) (same (remember s) h)
          ∙ after_step-same (λ t. run_loop f c' fuel t) (λ t. run_loop f c fuel t)
              (λ t k. run_loop-same fuel t k) (step_one f c (remember s)) (keeps (remember s) h))
