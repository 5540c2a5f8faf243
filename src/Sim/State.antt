-- ===== src/Sim/State.antt =====
-- include/asmstudio/sim/SimState.hpp, Simulator.hpp and the constructor, the lookups and the value
-- slots of src/sim/Simulator.cpp. The back of a C++ vector that is used as a stack (the call stack,
-- the history, the trace) is the head of the list.
use asm_studio.Prelude.{
  ℕ, ◌+◌, ◌-◌, Bool, true, String, Option, none, some, List, [], ◌∷◌, ◌++◌, str_eq, if◌then◌else◌,
  length, get_elem?, set, replicate, lookup_id, emplace,
}
use asm_studio.Ir.{RegValue, IrFunction, IrBlock, IrModule, IrConstant, entry_block, constant_at}
use asm_studio.Sim.Ops.{ir_constant_to_reg_value}

pub data SimError : Type 0 where
  division_by_zero unknown_function stack_overflow type_mismatch : SimError
  unreachable_instruction max_steps_exceeded : SimError

unfoldable pub sim_error_name : SimError → String
sim_error_name SimError.division_by_zero = "division by zero"
sim_error_name SimError.unknown_function = "unknown function"
sim_error_name SimError.stack_overflow = "stack overflow"
sim_error_name SimError.type_mismatch = "type mismatch"
sim_error_name SimError.unreachable_instruction = "unreachable instruction"
sim_error_name SimError.max_steps_exceeded = "max steps exceeded"

-- compat::Result<A, SimError>, with a third case for code that has no defined behaviour.
pub data Outcome {ℓ} (A : Type ℓ) : Type ℓ where
  ok : A → Outcome A
  err : SimError → Outcome A
  undefined : Outcome A

infixl 5 ◌>>=◌
abbrev pub ◌>>=◌ {ℓ κ} : {A : Type ℓ} {B : Type κ} → Outcome A → (A → Outcome B) → Outcome B
ok a >>= f = f a
err e >>= f = err e
undefined >>= f = undefined

pub record SimFrame : Type 0 where
  pub function_name : String
  pub values : List (Option RegValue)
  pub pc : ℕ
  pub block : ℕ

-- The member `memory` is never touched and is left out.
pub record SimState : Type 0 where
  pub call_stack : List SimFrame

-- `function` is set as soon as the entry is made, so it is never null.
pub record FunctionCache : Type 0 where
  pub function : IrFunction
  pub block_index_by_id : List (ℕ × ℕ)

-- What the constructor fixes.
pub record Setup : Type 0 where
  pub m : IrModule
  pub max_steps : ℕ
  pub max_call_depth : ℕ
  pub function_cache : List (String × FunctionCache)

-- What the operations change.
pub record Simulator : Type 0 where
  pub state : SimState
  pub history : List SimState
  pub trace : List RegValue
  pub done : Bool
  pub step_count : ℕ

abbrev pub default_max_steps : ℕ
default_max_steps = 100000

abbrev pub default_max_call_depth : ℕ
default_max_call_depth = 64

abbrev pub emplace_blocks : ℕ → List IrBlock → List (ℕ × ℕ) → List (ℕ × ℕ)
emplace_blocks i [] index = index
emplace_blocks i (block ∷ blocks) index = emplace_blocks (i + 1) blocks (emplace block.id i index)

-- `m_functionCache[function.name]`, filled: a second function of one name takes the entry over and
-- adds its blocks to the index that is there.
abbrev pub cache_function :
    IrFunction → List (String × FunctionCache) → List (String × FunctionCache)
cache_function function [] =
    (
      function.name,
      record { function = function; block_index_by_id = emplace_blocks 0 function.blocks [] },
    )
    ∷ []
cache_function function ((name, cache) ∷ rest) =
    if str_eq name function.name
    then (
      name,
      record {
        function = function;
        block_index_by_id = emplace_blocks 0 function.blocks cache.block_index_by_id;
      },
    )
      ∷ rest
    else (name, cache) ∷ cache_function function rest

abbrev pub cache_functions :
    List IrFunction → List (String × FunctionCache) → List (String × FunctionCache)
cache_functions [] cache = cache
cache_functions (function ∷ functions) cache =
    cache_functions functions (cache_function function cache)

unfoldable pub make_simulator : IrModule → ℕ → ℕ → Setup
make_simulator m max_steps max_call_depth = record {
  m = m;
  max_steps = max_steps;
  max_call_depth = max_call_depth;
  function_cache = cache_functions m.functions [];
}

-- The members' initial values, which `reset` restores.
unfoldable pub reset : Simulator
reset = record {
  state = record { call_stack = [] };
  history = [];
  trace = [];
  done = true;
  step_count = 0;
}

abbrev pub find_cache : String → List (String × FunctionCache) → Option FunctionCache
find_cache name [] = none
find_cache name ((key, cache) ∷ rest) = if str_eq key name then some cache else find_cache name rest

unfoldable pub find_function_cache : Setup → String → Option FunctionCache
find_function_cache c name = find_cache name c.function_cache

abbrev pub cached_block : List IrBlock → Option ℕ → Option IrBlock
cached_block blocks none = none
cached_block blocks (some index) = get_elem? blocks index

unfoldable pub find_block : FunctionCache → ℕ → Option IrBlock
find_block cache id = cached_block cache.function.blocks (lookup_id id cache.block_index_by_id)

abbrev pub constant_or_mismatch : Option IrConstant → Outcome RegValue
constant_or_mismatch none = err SimError.type_mismatch
constant_or_mismatch (some c) = ok (ir_constant_to_reg_value c)

abbrev pub slot_or_constant : Option (Option RegValue) → Option IrConstant → Outcome RegValue
slot_or_constant none constant = constant_or_mismatch constant
slot_or_constant (some none) constant = constant_or_mismatch constant
slot_or_constant (some (some value)) constant = ok value

unfoldable pub read_value : SimFrame → IrFunction → ℕ → Outcome RegValue
read_value frame function id =
    slot_or_constant (get_elem? frame.values id) (constant_at function.values id)

-- `resize`: a shorter vector is filled up with empty slots.
abbrev pub grown : List (Option RegValue) → ℕ → List (Option RegValue)
grown values n = values ++ replicate (n - length values) none

unfoldable pub write_value : SimFrame → ℕ → RegValue → SimFrame
write_value frame id value = record frame {
  values = set (grown frame.values (id + 1)) id (some value);
}

abbrev pub entry_id : Option IrBlock → ℕ
entry_id none = 0
entry_id (some block) = block.id

-- A frame at the start of a function.
unfoldable pub initial_frame : IrFunction → SimFrame
unfolding entry_block
initial_frame function = record {
  function_name = function.name;
  values = replicate (length function.values) none;
  pc = 0;
  block = entry_id (entry_block function);
}
