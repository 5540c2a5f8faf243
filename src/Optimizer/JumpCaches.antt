-- ===== src/Optimizer/JumpCaches.antt =====
-- The block index and function cache that `Simulator::Simulator` of src/sim/Simulator.cpp builds for
-- a module and for the module with its jumps simplified.
use mathlib.Core.Path.{subst}
use mathlib.Core.Option.{map as map_option, some-injective}
use asm_studio.Prelude.{
  ℕ, ◌+◌, ◌≡◌, refl, ap, ◌∙◌, Bool, true, false, String, str_eq, some, List, [], ◌∷◌, map,
  if◌then◌else◌, All,
}
use asm_studio.Machine.Floats.{Floats}
use asm_studio.Ir.{IrValue, IrFunction, IrBlock, IrModule}
use asm_studio.Ir.Constants.{IsSoundFunction}
use asm_studio.Sim.State.{
  FunctionCache, find_function_cache, emplace_blocks, cache_function, cache_functions, find_cache,
  make_simulator,
}
use asm_studio.Sim.CoherentSteps.{IsSoundSetup}
use asm_studio.Optimizer.Jumps.{jump_simplification, simplify_blocks}
use asm_studio.Optimizer.JumpSound.{simplified, simplified_cache}

abbrev pub simplified_module : Floats → IrModule → IrModule
simplified_module f m = record m { functions = map (simplified f) m.functions }

-- The caches of the two modules.
module _ (f : Floats) where
  abbrev pub simplified_entry : String × FunctionCache → String × FunctionCache
  simplified_entry (name, cache) = (name, simplified_cache f cache)

  emplace_blocks-simplified :
      (values : List IrValue) (blocks : List IrBlock) (i : ℕ) (index : List (ℕ × ℕ))
      → emplace_blocks i (simplify_blocks f values blocks).0 index ≡ emplace_blocks i blocks index
  unfolding simplify_blocks
  emplace_blocks-simplified values [] i index = refl
  emplace_blocks-simplified values (b ∷ blocks) i index =
      emplace_blocks-simplified values blocks (i + 1) _

  cache_function-simplified :
      (function : IrFunction) (cache : List (String × FunctionCache))
      → cache_function (simplified f function) (map simplified_entry cache)
        ≡ map simplified_entry (cache_function function cache)
  unfolding jump_simplification
  cache_function-simplified function [] =
      ap
        (λ (index : List (ℕ × ℕ)).
          (function.name, record { function = simplified f function; block_index_by_id = index })
          ∷ [])
        (emplace_blocks-simplified function.values function.blocks 0 [])
  cache_function-simplified function ((name, k) ∷ cache) =
      go (str_eq name function.name) (cache_function-simplified function cache)
    where
      go :
          (b : Bool)
          → cache_function (simplified f function) (map simplified_entry cache)
            ≡ map simplified_entry (cache_function function cache)
          → (if b
              then (
                name,
                record {
                  function = simplified f function;
                  block_index_by_id =
                      emplace_blocks 0 (simplified f function).blocks k.block_index_by_id;
                },
              )
                ∷ map simplified_entry cache
              else (name, simplified_cache f k)
                ∷ cache_function (simplified f function) (map simplified_entry cache))
            ≡ map simplified_entry (
                if b
                then (
                  name,
                  record {
                    function = function;
                    block_index_by_id = emplace_blocks 0 function.blocks k.block_index_by_id;
                  },
                )
                  ∷ cache
                else (name, k) ∷ cache_function function cache)
      go true ih =
          ap
            (λ (index : List (ℕ × ℕ)).
              (name, record { function = simplified f function; block_index_by_id = index })
              ∷ map simplified_entry cache)
            (emplace_blocks-simplified function.values function.blocks 0 k.block_index_by_id)
      go false ih = ap (◌∷◌ (name, simplified_cache f k)) ih

  cache_functions-simplified :
      (functions : List IrFunction) (cache : List (String × FunctionCache))
      → cache_functions (map (simplified f) functions) (map simplified_entry cache)
        ≡ map simplified_entry (cache_functions functions cache)
  cache_functions-simplified [] cache = refl
  cache_functions-simplified (function ∷ functions) cache =
      ap (cache_functions (map (simplified f) functions)) (cache_function-simplified function cache)
      ∙ cache_functions-simplified functions (cache_function function cache)

  find_cache-simplified :
      (name : String) (cache : List (String × FunctionCache))
      → find_cache name (map simplified_entry cache)
        ≡ map_option (simplified_cache f) (find_cache name cache)
  find_cache-simplified name [] = refl
  find_cache-simplified name ((key, k) ∷ cache) =
      go (str_eq key name) (find_cache-simplified name cache)
    where
      go :
          (b : Bool)
          → find_cache name (map simplified_entry cache)
            ≡ map_option (simplified_cache f) (find_cache name cache)
          → (if b
              then some (simplified_cache f k)
              else find_cache name (map simplified_entry cache))
            ≡ map_option (simplified_cache f) (if b then some k else find_cache name cache)
      go true ih = refl
      go false ih = ih

  pub find_function_cache-simplified :
      (m : IrModule) (max_steps max_call_depth : ℕ) (name : String)
      → find_function_cache (make_simulator (simplified_module f m) max_steps max_call_depth) name
        ≡ map_option
            (simplified_cache f)
            (find_function_cache (make_simulator m max_steps max_call_depth) name)
  unfolding find_function_cache make_simulator
  find_function_cache-simplified m max_steps max_call_depth name =
      ap (find_cache name) (cache_functions-simplified m.functions [])
      ∙ find_cache-simplified name (cache_functions m.functions [])

-- Every entry of the constructor's cache holds a function of the module.
abbrev SoundEntry : String × FunctionCache → Type 0
SoundEntry (name, cache) = IsSoundFunction cache.function

cache_function-IsSound :
    (function : IrFunction) (cache : List (String × FunctionCache))
    → IsSoundFunction function
    → All SoundEntry cache
    → All SoundEntry (cache_function function cache)
cache_function-IsSound function [] h k = (h, tt)
cache_function-IsSound function ((name, entry) ∷ cache) h k =
    go (str_eq name function.name) (cache_function-IsSound function cache h k.1)
  where
    go :
        (b : Bool)
        → All SoundEntry (cache_function function cache)
        → All SoundEntry (
            if b
            then (
              name,
              record {
                function = function;
                block_index_by_id = emplace_blocks 0 function.blocks entry.block_index_by_id;
              },
            )
              ∷ cache
            else (name, entry) ∷ cache_function function cache)
    go true ih = (h, k.1)
    go false ih = (k.0, ih)

cache_functions-IsSound :
    (functions : List IrFunction) (cache : List (String × FunctionCache))
    → All IsSoundFunction functions
    → All SoundEntry cache
    → All SoundEntry (cache_functions functions cache)
cache_functions-IsSound [] cache h k = k
cache_functions-IsSound (function ∷ functions) cache h k =
    cache_functions-IsSound functions (cache_function function cache) h.1
      (cache_function-IsSound function cache h.0 k)

find_cache-IsSound :
    (name : String) (cache : List (String × FunctionCache)) (entry : FunctionCache)
    → All SoundEntry cache
    → find_cache name cache ≡ some entry
    → IsSoundFunction entry.function
find_cache-IsSound name [] entry h e = cc
find_cache-IsSound name ((key, k) ∷ cache) entry h e =
    go (str_eq key name) (find_cache-IsSound name cache entry h.1) e
  where
    go :
        (b : Bool)
        → (find_cache name cache ≡ some entry → IsSoundFunction entry.function)
        → (if b then some k else find_cache name cache) ≡ some entry
        → IsSoundFunction entry.function
    go true ih e' =
        subst (λ (j : FunctionCache). IsSoundFunction j.function) (some-injective k entry e') h.0
    go false ih e' = ih e'

pub make_simulator-IsSoundSetup :
    (m : IrModule) (max_steps max_call_depth : ℕ)
    → All IsSoundFunction m.functions
    → IsSoundSetup (make_simulator m max_steps max_call_depth)
unfolding make_simulator find_function_cache
make_simulator-IsSoundSetup m max_steps max_call_depth h name cache e =
    find_cache-IsSound name (cache_functions m.functions []) cache
      (cache_functions-IsSound m.functions [] h tt) e
