-- ===== src/Lowering/Runs.antt =====
-- src/ir/Lowering.cpp and src/sim/Simulator.cpp together: what a run of a lowered function answers.
use mathlib.Core.Path.{subst}
use asm_studio.Prelude.{
  ℕ, suc, ◌+◌, ◌-◌, ◌≤◌, ◌<◌, ◌≡◌, refl, sym, ap, ◌∙◌, true, false, String, Option, some, List, [],
  ◌∷◌, ◌++◌, arith, get_elem?, All, All-middle,
}
use asm_studio.Machine.Floats.{Floats}
use asm_studio.Ir.{IrFunction, IrModule}
use asm_studio.Sim.State.{
  Outcome, ok, err, undefined, SimFrame, Simulator, Setup, FunctionCache, cache_functions,
  find_function_cache, find_cache, find_block, make_simulator, initial_frame, reset,
}
use asm_studio.Sim.Step.{with_stack}
use asm_studio.Sim.Run.{Ran, run, run_loop, start}
use asm_studio.Dsl.Builder.{Function, statements}
use asm_studio.Dsl.Meaning.{Signal, exec_stmts}
use asm_studio.Lowering.Context.{Lowered, ok, logic_error, undefined}
use asm_studio.Lowering.Function.{lower_function, lower_functions, lower, in_module}
use asm_studio.Lowering.WellFormed.{IsWellFormedFunction, LowersTo, lower_function-IsWellFormed}
use asm_studio.Lowering.Modules.{AssignsOwn, ModuleLowersTo}
use asm_studio.Lowering.Walks.{walk}
use asm_studio.Lowering.Endings.{Ends, RunEnds}
use asm_studio.Lowering.StmtMeaning.{stmts_slots}
use asm_studio.Lowering.Covers.{named_table}
use asm_studio.Lowering.Compiles.{Finishes, lower_function-RunEnds}
use asm_studio.Dsl.Start.{first_env, reads_set}
use asm_studio.Lowering.RunLoop.{Answers, InFrame, LoopFollows, walk-run_loop}
use asm_studio.Lowering.LastStep.{result_of, last-Answers}
use asm_studio.Lowering.FunctionCaches.{
  OtherName, CachesLowering, new_cache, lower_functions-CachesLowering, find_block-numbered,
}

-- A run that answers as a function's meaning says. Nothing is said of undefined behaviour.
abbrev pub IsAnswer : Option Ran → Outcome Signal → Type 0
IsAnswer r (ok sig) = Answers r (ok (result_of sig))
IsAnswer r (err e) = Answers r (err e)
IsAnswer r undefined = Unit

-- With enough steps allowed, and fuel for them, every run of the function answers so.
abbrev pub RunsTo : Floats → IrModule → String → Outcome Signal → Type 0
RunsTo f m name o =
    (needed : ℕ) × ((max_steps max_call_depth fuel : ℕ) (s : Simulator)
      → needed ≤ max_steps
      → 1 ≤ max_call_depth
      → max_steps + 1 < fuel
      → IsAnswer (run f (make_simulator m max_steps max_call_depth) fuel s name) o)

-- The steps of a walk, and the one that ends the function.
abbrev steps_needed :
    (f : Floats) (g : IrFunction) (frame : SimFrame) (o : Outcome Signal)
    → Ends f g frame o (Finishes g)
    → ℕ
steps_needed f g frame (ok sig) (n, frame', walked, ends) = n + 1
steps_needed f g frame (err e) (n, walked) = n
steps_needed f g frame undefined h = 0

module _ (f : Floats) (c : Setup) (cache : FunctionCache)
    (blocks : (n : ℕ) → find_block cache n ≡ get_elem? cache.function.blocks n)
    (room : 1 ≤ c.max_call_depth) where
  loop-ok :
      (sig : Signal) (n fuel : ℕ) (s : Simulator) (frame frame' : SimFrame)
      → InFrame f c cache blocks room frame 0 s
      → walk f cache.function n frame ≡ ok frame'
      → Finishes cache.function sig frame'
      → n + 1 ≤ c.max_steps
      → n + 2 ≤ fuel
      → Answers (run_loop f c fuel s) (ok (result_of sig))
  loop-ok sig n fuel s frame frame' inside walked ends l k =
      let rest : ℕ = fuel - (n + 2) in
      let split : n + suc (suc rest) ≡ fuel = omega (arith, k) in
      go rest split (
        subst (LoopFollows f c cache blocks room n (suc (suc rest)) 0 s) walked (
          walk-run_loop f c cache blocks room n (suc (suc rest)) 0 s frame inside
            (omega (arith, l))))
    where
      go :
          (rest : ℕ)
          → n + suc (suc rest) ≡ fuel
          → LoopFollows f c cache blocks room n (suc (suc rest)) 0 s (ok frame')
          → Answers (run_loop f c fuel s) (ok (result_of sig))
      go rest split (s', inside', same) =
          subst (λ r. Answers r (ok (result_of sig))) (sym same ∙ ap (λ m. run_loop f c m s) split)
            (last-Answers f c cache blocks room sig rest (0 + n) s' frame' inside' ends
              (omega (arith, l)))

  loop-Answer :
      (o : Outcome Signal) (frame : SimFrame)
      (h : Ends f cache.function frame o (Finishes cache.function)) (fuel : ℕ) (s : Simulator)
      → InFrame f c cache blocks room frame 0 s
      → steps_needed f cache.function frame o h ≤ c.max_steps
      → c.max_steps + 1 < fuel
      → IsAnswer (run_loop f c fuel s) o
  loop-Answer (ok sig) frame (n, frame', walked, ends) fuel s inside l k =
      loop-ok sig n fuel s frame frame' inside walked ends l (omega (arith, l, k))
  loop-Answer (err e) frame (n, walked) fuel s inside l k =
      let split : n + (fuel - n) ≡ fuel = omega (arith, l, k) in
      subst (λ m. Answers (run_loop f c m s) (err e)) split
        (subst (LoopFollows f c cache blocks room n (fuel - n) 0 s) walked
          (walk-run_loop f c cache blocks room n (fuel - n) 0 s frame inside (omega (arith, l))))
  loop-Answer undefined frame h fuel s inside l k = tt

-- The first frame of a run.
run-IsAnswer :
    (f : Floats) (gs : List IrFunction) (module_name name : String) (g : IrFunction)
    (o : Outcome Signal)
    → IsWellFormedFunction g
    → g.name ≡ name
    → find_cache name (cache_functions gs []) ≡ some (new_cache g)
    → Ends f g (initial_frame g) o (Finishes g)
    → RunsTo f (record { name = module_name; functions = gs }) name o
unfolding run make_simulator find_function_cache reset
run-IsAnswer f gs module_name name g o w same cached ends = (
  steps_needed f g (initial_frame g) o ends,
  λ max_steps max_call_depth fuel s l room k.
      let c : Setup =
        make_simulator (record { name = module_name; functions = gs }) max_steps max_call_depth in
      subst (λ cache. IsAnswer (start f c fuel s cache) o) (sym cached)
        (loop-Answer f c (new_cache g) (find_block-numbered g w.numbered) room o (initial_frame g)
          ends fuel (with_stack (record reset { done = false }) (initial_frame g ∷ []))
          (
            refl,
            refl,
            refl,
            refl,
            unfold initial_frame in (ap (λ n. find_cache n (cache_functions gs [])) same ∙ cached),
          )
          l k),
)

-- Functions whose assignments are all to their own variables, in a module; one of them, of which
-- there is only one by its name, has no calls and reads only its own variables, none of the
-- assignments it begins with reads a variable that is assigned to by itself or a later one of them
-- and by none before it, and within some fuel it has a meaning, where its variables start with the
-- values they are declared with. Lowering makes a module, and every run of that function in the
-- simulator, whatever state the simulator is in before, answers what is meant, if at least some
-- number of steps are allowed, the limit on the depth of calls is at least one, and the fuel is at
-- least two more than the limit on steps: the returned value, none where it returns nothing, or the
-- simulator's error. Where the meaning is undefined behaviour nothing is claimed.
pub run-lower :
    (f : Floats) (label : String → ℕ → String) (module_name : String) (before : List Function)
    (function : Function) (after : List Function) (n : ℕ) (o : Outcome Signal)
    → All AssignsOwn (before ++ function ∷ after)
    → All (OtherName function.name) before
    → All (OtherName function.name) after
    → stmts_slots (named_table function.vars) (statements function) ≡ true
    → reads_set [] (statements function) ≡ true
    → exec_stmts f n (statements function) (first_env function) ≡ some o
    → ModuleLowersTo
        (λ m. RunsTo f m function.name o)
        (lower label module_name (before ++ function ∷ after))
unfolding lower
run-lower f label module_name before function after n o own b a uses reads meant =
    go (lower_functions label (before ++ function ∷ after))
      (lower_functions-CachesLowering label before function after [] own b a refl)
      (lower_function-IsWellFormed label function (All-middle AssignsOwn before function after own))
      (lower_function-RunEnds f label function uses reads)
  where
    go :
        (r : Lowered (List IrFunction))
        → CachesLowering label function [] r
        → LowersTo IsWellFormedFunction (lower_function label function)
        → LowersTo
            (λ g.
              (k : ℕ)
              → RunEnds f g
                  (initial_frame g)
                  (exec_stmts f k (statements function) (first_env function))
                  (Finishes g))
            (lower_function label function)
        → ModuleLowersTo (λ m. RunsTo f m function.name o) (in_module module_name r)
    go (ok gs) (g, lowered, same, cached) w ends =
        let w' : IsWellFormedFunction g = subst (LowersTo IsWellFormedFunction) lowered w in
        let ends' : (k : ℕ)
            → RunEnds f g (initial_frame g)
                (exec_stmts f k (statements function) (first_env function)) (Finishes g) =
          subst
            (LowersTo (λ g.
              (k : ℕ)
              → RunEnds f g (initial_frame g)
                  (exec_stmts f k (statements function) (first_env function)) (Finishes g)))
            lowered ends in
        run-IsAnswer f gs module_name function.name g o w' same cached
          (subst (λ r. RunEnds f g (initial_frame g) r (Finishes g)) meant (ends' n))
    go logic_error h w ends = h
    go undefined h w ends = h
