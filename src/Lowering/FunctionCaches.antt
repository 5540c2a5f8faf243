-- ===== src/Lowering/FunctionCaches.antt =====
-- `lower` of src/ir/Lowering.cpp and the function cache of src/sim/Simulator.cpp: where the cache has
-- the lowering of a function.
use text.Mathlib.TextEquality.{eq_iff}
use asm_studio.Prelude.{
  ℕ, zero, suc, ◌+◌, ◌≡◌, refl, sym, ap, ◌∙◌, true, false, String, str_eq, none, some, List, [],
  ◌∷◌, ◌++◌, arith, get_elem?, if◌then◌else◌, All, Bool-cases, inl, inr, ◌<◌, length, ◌==◌, ==_iff,
}
use asm_studio.Ir.{IrFunction, IrBlock, find_by_id}
use asm_studio.Sim.State.{
  FunctionCache, cache_function, cache_functions, find_cache, emplace_blocks, find_block,
}
use asm_studio.Sim.Lookup.{find_block-rebuild_block_index}
use asm_studio.Dsl.Builder.{Function}
use asm_studio.Lowering.Context.{Lowered, ok, logic_error, undefined, LoweringContext}
use asm_studio.Lowering.Function.{
  lower_function, lower_functions, add_lowered, finish, initial_context, lower_body,
}
use asm_studio.Ir.{rebuild_block_index}
use asm_studio.Lowering.Invariant.{Returns}
use asm_studio.Lowering.Modules.{AssignsOwn}
use asm_studio.Lowering.WellFormed.{LowersTo, lower_body-Returns}

-- The entry that the constructor of the simulator makes for a function of a new name.
abbrev pub new_cache : IrFunction → FunctionCache
new_cache g = record { function = g; block_index_by_id = emplace_blocks 0 g.blocks [] }

abbrev pub OtherName : String → Function → Type 0
OtherName name h = str_eq h.name name ≡ false

abbrev pub OtherIrName : String → IrFunction → Type 0
OtherIrName name g = str_eq g.name name ≡ false

pub find_cache-cache_function :
    (name : String) (g : IrFunction) (cache : List (String × FunctionCache))
    → OtherIrName name g
    → find_cache name (cache_function g cache) ≡ find_cache name cache
find_cache-cache_function name g [] h = rw h refl
find_cache-cache_function name g ((key, k) ∷ cache) h = elim (Bool-cases (str_eq key g.name)) [
  | inl e ↦
      let other : str_eq key name ≡ false = ap (λ x. str_eq x name) ((eq_iff key g.name).0 e) ∙ h in
      rw (e, other) refl
  | inr e ↦
      rw e
        (ap (λ r. if str_eq key name then some k else r) (find_cache-cache_function name g cache h))
]

pub find_cache-cache_functions :
    (name : String) (gs : List IrFunction) (cache : List (String × FunctionCache))
    → All (OtherIrName name) gs
    → find_cache name (cache_functions gs cache) ≡ find_cache name cache
find_cache-cache_functions name [] cache h = refl
find_cache-cache_functions name (g ∷ gs) cache h =
    find_cache-cache_functions name gs (cache_function g cache) h.1
    ∙ find_cache-cache_function name g cache h.0

pub find_cache-new :
    (g : IrFunction) (cache : List (String × FunctionCache))
    → find_cache g.name cache ≡ none
    → find_cache g.name (cache_function g cache) ≡ some (new_cache g)
find_cache-new g [] h = rw ((eq_iff g.name g.name).1 refl) refl
find_cache-new g ((key, k) ∷ cache) h = elim (Bool-cases (str_eq key g.name)) [
  | inl e ↦ absurd (clash (rw e at h))
  | inr e ↦ rw (e, e) (find_cache-new g cache (rw e at h))
]
  where
    clash : some k ≡ none → ⊥
    clash p = cc

-- Lowering keeps the name of a function.
lower_function-name :
    (label : String → ℕ → String) (function : Function)
    → AssignsOwn function
    → LowersTo (λ g. g.name ≡ function.name) (lower_function label function)
unfolding lower_function rebuild_block_index
lower_function-name label function h =
    go (lower_body label function (initial_context function.name))
      (lower_body-Returns label function h)
  where
    go :
        (r : Lowered (ℕ × LoweringContext))
        → Returns (initial_context function.name) (λ b d. 0 < length d.function.blocks) r
        → LowersTo (λ g. g.name ≡ function.name) (finish r)
    go (ok (b, d)) k = k.1.title_kept
    go logic_error k = k
    go undefined k = k

abbrev LowerOther : String → Lowered (List IrFunction) → Type 0
LowerOther name (ok gs) = All (OtherIrName name) gs
LowerOther name logic_error = ⊥
LowerOther name undefined = ⊥

lower_functions-LowerOther :
    (label : String → ℕ → String) (name : String) (functions : List Function)
    → All AssignsOwn functions
    → All (OtherName name) functions
    → LowerOther name (lower_functions label functions)
lower_functions-LowerOther label name [] h k = tt
lower_functions-LowerOther label name (function ∷ functions) h k =
    go (lower_function label function) (lower_functions label functions)
      (lower_function-name label function h.0)
      (lower_functions-LowerOther label name functions h.1 k.1)
  where
    go :
        (r : Lowered IrFunction) (rest : Lowered (List IrFunction))
        → LowersTo (λ g. g.name ≡ function.name) r
        → LowerOther name rest
        → LowerOther name (add_lowered r rest)
    go (ok g) (ok gs) e m = (ap (λ x. str_eq x name) e ∙ k.0, m)
    go (ok g) logic_error e m = m
    go (ok g) undefined e m = m
    go logic_error rest e m = e
    go undefined rest e m = e

-- The cache of the lowered functions has the lowering of the function, of which there is one only.
abbrev pub CachesLowering :
    (String → ℕ → String)
    → Function
    → List (String × FunctionCache)
    → Lowered (List IrFunction)
    → Type 0
CachesLowering label function cache (ok gs) =
    (g : IrFunction) × (lower_function label function ≡ ok g)
    × (g.name ≡ function.name)
    × (find_cache function.name (cache_functions gs cache) ≡ some (new_cache g))
CachesLowering label function cache logic_error = ⊥
CachesLowering label function cache undefined = ⊥

pub lower_functions-CachesLowering :
    (label : String → ℕ → String) (before : List Function) (function : Function)
    (after : List Function) (cache : List (String × FunctionCache))
    → All AssignsOwn (before ++ function ∷ after)
    → All (OtherName function.name) before
    → All (OtherName function.name) after
    → find_cache function.name cache ≡ none
    → CachesLowering label function cache (lower_functions label (before ++ function ∷ after))
lower_functions-CachesLowering label [] function after cache h k m e =
    go (lower_function label function) (lower_functions label after) refl
      (lower_function-name label function h.0)
      (lower_functions-LowerOther label function.name after h.1 m)
  where
    go :
        (r : Lowered IrFunction) (rest : Lowered (List IrFunction))
        → lower_function label function ≡ r
        → LowersTo (λ g. g.name ≡ function.name) r
        → LowerOther function.name rest
        → CachesLowering label function cache (add_lowered r rest)
    go (ok g) (ok gs) p q others = (
      g,
      p,
      q,
      find_cache-cache_functions function.name gs (cache_function g cache) others
          ∙ ap (λ n. find_cache n (cache_function g cache)) (sym q)
          ∙ find_cache-new g cache (ap (λ n. find_cache n cache) q ∙ e),
    )
    go (ok g) logic_error p q others = others
    go (ok g) undefined p q others = others
    go logic_error rest p q others = q
    go undefined rest p q others = q
lower_functions-CachesLowering label (first ∷ before) function after cache h k m e =
    go (lower_function label first) (lower_functions label (before ++ function ∷ after))
      (lower_function-name label first h.0)
      (λ cache' e'. lower_functions-CachesLowering label before function after cache' h.1 k.1 m e')
  where
    go :
        (r : Lowered IrFunction) (rest : Lowered (List IrFunction))
        → LowersTo (λ g. g.name ≡ first.name) r
        → ((cache' : List (String × FunctionCache))
            → find_cache function.name cache' ≡ none
            → CachesLowering label function cache' rest)
        → CachesLowering label function cache (add_lowered r rest)
    go (ok g) (ok gs) p ih = ih (cache_function g cache) (
        find_cache-cache_function function.name g cache (ap (λ x. str_eq x function.name) p ∙ k.0)
        ∙ e)
    go (ok g) logic_error p ih = ih cache e
    go (ok g) undefined p ih = ih cache e
    go logic_error rest p ih = p
    go undefined rest p ih = p

-- Where blocks are numbered by position, the search finds them there.
find_by_id-numbered :
    (k n : ℕ) (blocks : List IrBlock)
    → ((i : ℕ) (b : IrBlock) → get_elem? blocks i ≡ some b → b.id ≡ k + i)
    → find_by_id (k + n) blocks ≡ get_elem? blocks n
find_by_id-numbered k n [] h = refl
find_by_id-numbered k zero (b ∷ blocks) h =
    let here : (b.id == k + 0) ≡ true = (==_iff b.id (k + 0)).1 (h 0 b refl) in rw here refl
find_by_id-numbered k (suc n) (b ∷ blocks) h =
    let first : b.id ≡ k + 0 = h 0 b refl in
    let past : (b.id == k + suc n) ≡ false = ground (arith, first) in
    let next : k + suc n ≡ (k + 1) + n = omega arith in
    rw past (
      ap (λ i. find_by_id i blocks) next
      ∙ find_by_id-numbered (k + 1) n blocks (λ i b' e. omega (arith, h (suc i) b' e)))

pub find_block-numbered :
    (g : IrFunction)
    → ((n : ℕ) (b : IrBlock) → get_elem? g.blocks n ≡ some b → b.id ≡ n)
    → (n : ℕ) → find_block (new_cache g) n ≡ get_elem? g.blocks n
find_block-numbered g h n =
    (find_block-rebuild_block_index g n).1
    ∙ ap (λ i. find_by_id i g.blocks) zero_plus
    ∙ find_by_id-numbered 0 n g.blocks (λ i b e. h i b e ∙ plus_zero i)
  where
    zero_plus : n ≡ 0 + n
    zero_plus = omega arith

    plus_zero : (i : ℕ) → i ≡ 0 + i
    plus_zero i = omega arith
