-- ===== src/Sim/Run.antt =====
-- src/sim/Simulator.cpp: `run`, `step` and `rewind`. The loop of `run` takes fuel, and `none` means
-- that it ran out.
use asm_studio.Prelude.{
  ℕ, zero, suc, ◌+◌, false, String, Option, none, some, List, [], ◌∷◌, ltb, if◌then◌else◌,
}
use asm_studio.Machine.Floats.{Floats}
use asm_studio.Ir.{RegValue}
use asm_studio.Sim.State.{
  Outcome, ok, err, undefined, SimError, SimState, FunctionCache, Setup, Simulator, reset,
  find_function_cache, initial_frame,
}
use asm_studio.Sim.Step.{step_one, Stepped, with_stack}

abbrev pub Ran : Type 0
Ran = Simulator × Outcome (Option RegValue)

-- `m_trace.back()`, if there is one.
abbrev pub last_result : List RegValue → Option RegValue
last_result [] = none
last_result (value ∷ trace) = some value

-- `m_history.push_back(m_state)`
unfoldable pub remember : Simulator → Simulator
remember s = record s { history = s.state ∷ s.history }

abbrev pub count_step : Simulator → Simulator
count_step s = record s { step_count = s.step_count + 1 }

-- What the loop does after a step: stop on an error, count the step, and go round again.
unfoldable pub after_step : Setup → Stepped → (Simulator → Option Ran) → Option Ran
after_step c (s, err e) again = some (s, err e)
after_step c (s, undefined) again = some (s, undefined)
after_step c (s, ok more) again =
    if ltb c.max_steps (s.step_count + 1)
    then some (count_step s, err SimError.max_steps_exceeded)
    else again (count_step s)

unfoldable pub run_loop : Floats → Setup → ℕ → Simulator → Option Ran
run_loop f c zero s = none
run_loop f c (suc fuel) s =
    if s.done
    then some (s, ok (last_result s.trace))
    else after_step c (step_one f c (remember s)) (λ t. run_loop f c fuel t)

abbrev pub start : Floats → Setup → ℕ → Simulator → Option FunctionCache → Option Ran
start f c fuel s none = some (s, err SimError.unknown_function)
start f c fuel s (some cache) =
    run_loop f c fuel
      (with_stack (record reset { done = false }) (initial_frame cache.function ∷ []))

-- `s` is the simulator before the call: only an unknown function leaves it in place.
unfoldable pub run : Floats → Setup → ℕ → Simulator → String → Option Ran
run f c fuel s function_name = start f c fuel s (find_function_cache c function_name)

unfoldable pub step : Floats → Setup → Simulator → Stepped
step f c s = if s.done then (s, ok false) else step_one f c (remember s)

abbrev pub pop_history : ℕ → List SimState → List SimState
pop_history zero history = history
pop_history (suc n) [] = []
pop_history (suc n) (snapshot ∷ history) = pop_history n history

abbrev pub restore : Simulator → List SimState → Simulator
restore s [] = record s { history = [] }
restore s (snapshot ∷ history) = record s {
  history = snapshot ∷ history;
  state = snapshot;
  done = false;
}

unfoldable pub rewind : Simulator → ℕ → Simulator
rewind s steps = restore s (pop_history steps s.history)
