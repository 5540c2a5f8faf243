-- ===== src/Sim/Rewinding.antt =====
-- `step` and `rewind` of src/sim/Simulator.cpp together.
use asm_studio.Prelude.{
  ◌+◌, ◌≤◌, ◌≡◌, ap, ◌∙◌, Bool, false, List, ◌∷◌, arith, if◌then◌else◌, length,
}
use asm_studio.Machine.Floats.{Floats}
use asm_studio.Sim.State.{SimState, Setup, Simulator, ok}
use asm_studio.Sim.Step.{step_one, Stepped}
use asm_studio.Sim.Run.{remember, step, rewind, restore, pop_history}
use asm_studio.Sim.Bounds.{step_one-Bounded}

module _ (f : Floats) (c : Setup) (s : Simulator)
    (fits : length s.state.call_stack ≤ c.max_call_depth + 1) (running : s.done ≡ false) where
  step-running : step f c s ≡ step_one f c (remember s)
  unfolding step
  step-running = ap (λ (b : Bool). if b then (s, ok false) else step_one f c (remember s)) running

  step-history : (step f c s).0.history ≡ s.state ∷ s.history
  unfolding remember
  step-history =
      ap (λ (t : Stepped). t.0.history) step-running ∙ (step_one-Bounded f c (remember s) fits).1

  step-depth : length (step f c s).0.state.call_stack ≤ c.max_call_depth + 1
  unfolding remember
  step-depth = omega (
    arith,
    ap (λ (t : Stepped). length t.0.state.call_stack) step-running,
    (step_one-Bounded f c (remember s) fits).2,
  )

-- After two steps of a running simulator within the depth limit, the first of which leaves it running,
-- rewinding by one step restores the state before both, with that state on top of the history.
pub rewind-step-step :
    (f : Floats) (c : Setup) (s : Simulator)
    → length s.state.call_stack ≤ c.max_call_depth + 1
    → s.done ≡ false
    → (step f c s).0.done ≡ false
    → ((rewind (step f c (step f c s).0).0 1).state ≡ s.state)
      × ((rewind (step f c (step f c s).0).0 1).history ≡ s.state ∷ s.history)
unfolding rewind
rewind-step-step f c s fits running again = (
  ap (λ (h : List SimState). (restore twice (pop_history 1 h)).state) history,
  ap (λ (h : List SimState). (restore twice (pop_history 1 h)).history) history,
)
  where
    once : Simulator
    once = (step f c s).0

    twice : Simulator
    twice = (step f c once).0

    history : twice.history ≡ once.state ∷ s.state ∷ s.history
    history =
        step-history f c once (step-depth f c s fits running) again
        ∙ ap (◌∷◌ once.state) (step-history f c s fits running)
