-- ===== src/Optimizer/EliminatedCaches.antt =====
-- The function caches of src/sim/Simulator.cpp for a module whose functions have different names, and
-- for the same module without its unreachable blocks.
use mathlib.Core.Option.{map as map_option}
use text.Mathlib.TextEquality.{eq_iff}
use asm_studio.Prelude.{
  ℕ, ◌≡◌, refl, sym, ap, ◌∙◌, Bool, true, false, String, str_eq, Option, none, some, List, [], ◌∷◌,
  map, if◌then◌else◌, All, Bool-cases, inl, inr,
}
use asm_studio.Ir.{IrFunction, IrModule, find_by_name}
use asm_studio.Sim.State.{
  FunctionCache, cache_function, cache_functions, find_cache, find_function_cache, make_simulator,
}
use asm_studio.Lowering.FunctionCaches.{
  new_cache, OtherIrName, find_cache-cache_function, find_cache-cache_functions, find_cache-new,
}
use asm_studio.Optimizer.Eliminated.{eliminated, IsIndexed, eliminated-Region}

-- No two functions have the same name.
abbrev pub HasUniqueNames : List IrFunction → Type 0
HasUniqueNames [] = Unit
HasUniqueNames (g ∷ gs) = All (OtherIrName g.name) gs × HasUniqueNames gs

find_cache_unique :
    (name : String) (gs : List IrFunction) (cache : List (String × FunctionCache))
    → HasUniqueNames gs
    → find_cache name cache ≡ none
    → find_cache name (cache_functions gs cache) ≡ map_option new_cache (find_by_name name gs)
find_cache_unique name [] cache u h = h
find_cache_unique name (g ∷ gs) cache u h = elim (Bool-cases (str_eq g.name name)) [
  | inl e ↦
      let q : g.name ≡ name = (eq_iff g.name name).0 e in
      rw e (
        ap (λ n. find_cache n (cache_functions gs (cache_function g cache))) (sym q)
        ∙ find_cache-cache_functions g.name gs (cache_function g cache) u.0
        ∙ find_cache-new g cache (ap (λ n. find_cache n cache) q ∙ h))
  | inr e ↦ rw e (
      find_cache_unique name gs (cache_function g cache) u.1
        (find_cache-cache_function name g cache e ∙ h))
]

eliminated-name : (g : IrFunction) → IsIndexed g → (eliminated g).name ≡ g.name
eliminated-name g h = (eliminated-Region g h).1.name

find_by_name-eliminated :
    (name : String) (gs : List IrFunction)
    → All IsIndexed gs
    → find_by_name name (map eliminated gs) ≡ map_option eliminated (find_by_name name gs)
find_by_name-eliminated name [] h = refl
find_by_name-eliminated name (g ∷ gs) h =
    ap (λ n. if str_eq n name then some (eliminated g) else find_by_name name (map eliminated gs))
      (eliminated-name g h.0)
    ∙ go (str_eq g.name name) (find_by_name-eliminated name gs h.1)
  where
    go :
        (b : Bool)
        → find_by_name name (map eliminated gs) ≡ map_option eliminated (find_by_name name gs)
        → (if b then some (eliminated g) else find_by_name name (map eliminated gs))
          ≡ map_option eliminated (if b then some g else find_by_name name gs)
    go true ih = refl
    go false ih = ih

OtherIrName-eliminated :
    (name : String) (gs : List IrFunction)
    → All IsIndexed gs
    → All (OtherIrName name) gs
    → All (OtherIrName name) (map eliminated gs)
OtherIrName-eliminated name [] h k = tt
OtherIrName-eliminated name (g ∷ gs) h k =
    (ap (λ n. str_eq n name) (eliminated-name g h.0) ∙ k.0, OtherIrName-eliminated name gs h.1 k.1)

HasUniqueNames-eliminated :
    (gs : List IrFunction)
    → All IsIndexed gs
    → HasUniqueNames gs
    → HasUniqueNames (map eliminated gs)
HasUniqueNames-eliminated [] h u = tt
HasUniqueNames-eliminated (g ∷ gs) h u = (
  mathlib.Core.Path.subst (λ n. All (OtherIrName n) (map eliminated gs))
      (sym (eliminated-name g h.0)) (OtherIrName-eliminated g.name gs h.1 u.0),
  HasUniqueNames-eliminated gs h.1 u.1,
)

-- Every function of the module after the pass.
abbrev pub eliminated_module : IrModule → IrModule
eliminated_module m = record m { functions = map eliminated m.functions }

-- The entry of a function after the pass.
abbrev pub eliminated_cache : FunctionCache → FunctionCache
eliminated_cache cache = new_cache (eliminated cache.function)

pub find_function_cache-eliminated :
    (m : IrModule) (max_steps max_call_depth : ℕ) (name : String)
    → All IsIndexed m.functions
    → HasUniqueNames m.functions
    → find_function_cache (make_simulator (eliminated_module m) max_steps max_call_depth) name
      ≡ map_option eliminated_cache
          (find_function_cache (make_simulator m max_steps max_call_depth) name)
unfolding find_function_cache make_simulator
find_function_cache-eliminated m max_steps max_call_depth name h u =
    find_cache_unique name (map eliminated m.functions) []
      (HasUniqueNames-eliminated m.functions h u) refl
    ∙ ap (map_option new_cache) (find_by_name-eliminated name m.functions h)
    ∙ twice (find_by_name name m.functions)
    ∙ sym (ap (map_option eliminated_cache) (find_cache_unique name m.functions [] u refl))
  where
    twice :
        (o : Option IrFunction)
        → map_option new_cache (map_option eliminated o)
          ≡ map_option eliminated_cache (map_option new_cache o)
    twice none = refl
    twice (some g) = refl

-- What the cache has under a name: a function of that name, with an index made for it.
abbrev pub IsNew : String → FunctionCache → Type 0
IsNew name cache =
    (cache ≡ new_cache cache.function) × (cache.function.name ≡ name) × IsIndexed cache.function

pub find_function_cache-IsNew :
    (m : IrModule) (max_steps max_call_depth : ℕ)
    → All IsIndexed m.functions
    → HasUniqueNames m.functions
    → (name : String) (cache : FunctionCache)
    → find_function_cache (make_simulator m max_steps max_call_depth) name ≡ some cache
    → IsNew name cache
unfolding find_function_cache make_simulator
find_function_cache-IsNew m max_steps max_call_depth h u name cache e =
    go m.functions h (sym (find_cache_unique name m.functions [] u refl) ∙ e)
  where
    found :
        (g : IrFunction)
        → g.name ≡ name
        → IsIndexed g
        → some (new_cache g) ≡ some cache
        → IsNew name cache
    found g q i p =
        mathlib.Core.Path.subst (IsNew name)
          (mathlib.Core.Option.some-injective (new_cache g) cache p) (refl, q, i)

    go :
        (gs : List IrFunction)
        → All IsIndexed gs
        → map_option new_cache (find_by_name name gs) ≡ some cache
        → IsNew name cache
    go [] i p = cc
    go (g ∷ gs) i p = elim (Bool-cases (str_eq g.name name)) [
      | inl b ↦ found g ((eq_iff g.name name).0 b) i.0 (rw b at p)
      | inr b ↦ go gs i.1 (rw b at p)
    ]
