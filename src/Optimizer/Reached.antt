-- ===== src/Optimizer/Reached.antt =====
-- The set that src/transforms/passes/UnreachableBlockEliminationPass.cpp computes, and the blocks that
-- jumps lead to.
use mathlib.Core.Path.{subst}
use mathlib.Core.Option.{some-injective}
use asm_studio.Prelude.{
  ℕ, zero, suc, ◌≡◌, inl, inr, refl, ap, Option, none, some, List, [], ◌∷◌, arith, get_elem?,
  contains_id, Bool-cases,
}
use asm_studio.Ir.{IrInstr, IrBlock, IrFunction, find_block}
use asm_studio.Optimizer.Unreachable.{
  Search, enqueue_block, enqueue_all, visit, search_loop, search_fuel, find_reachable_block_ids,
  instr_targets, target_list,
}
use asm_studio.Optimizer.Identifiers.{Has, Has-head, Has-uncons, Has-append}
use asm_studio.Optimizer.Targets.{IsTarget, JumpsTo}
use asm_studio.Optimizer.Reachable.{Explored, find_reachable_block_ids-Explored}

target_list-some : (target : ℕ) (o : Option ℕ) → Has (target_list o) target → o ≡ some target
target_list-some target none h = cc
target_list-some target (some x) h = elim (Has-uncons target x [] h) [
  | inl e ↦ ap some e
  | inr m ↦ cc
]

-- The list has only targets of the instructions.
listed-JumpsTo :
    (instrs : List IrInstr) (target : ℕ)
    → Has (instr_targets instrs) target
    → (n : ℕ) × (i : IrInstr) × (get_elem? instrs n ≡ some i) × IsTarget i target
listed-JumpsTo [] target h = cc
listed-JumpsTo (i ∷ instrs) target h = elim (Has-append target (target_list i.true_target) _ h) [
  | inl k ↦ (0, i, refl, inl (target_list-some target i.true_target k))
  | inr k ↦ elim (Has-append target (target_list i.false_target) (instr_targets instrs) k) [
    | inl l ↦ (0, i, refl, inr (target_list-some target i.false_target l))
    | inr l ↦ let (n, j, e, t) = listed-JumpsTo instrs target l in (suc n, j, e, t)
  ]
]

-- The identifiers that jumps lead to from the entry.
pub data IsReached (function : IrFunction) (entry : ℕ) : ℕ → Type 0 where
  here : IsReached function entry entry
  jump :
      {id target : ℕ} {block : IrBlock}
      → IsReached function entry id
      → find_block function id ≡ some block
      → JumpsTo block target
      → IsReached function entry target

module _ (function : IrFunction) (entry : ℕ) where
  abbrev AllReached : List ℕ → Type 0
  AllReached ids = (id : ℕ) → Has ids id → IsReached function entry id

  -- What the search has seen is reached.
  abbrev IsSound : Search → Type 0
  IsSound s = AllReached s.reachable × AllReached s.worklist

  AllReached-cons :
      (x : ℕ) (ids : List ℕ) → IsReached function entry x → AllReached ids → AllReached (x ∷ ids)
  AllReached-cons x ids h k id m = elim (Has-uncons id x ids m) [
    | inl e ↦ subst (IsReached function entry) e h
    | inr l ↦ k id l
  ]

  enqueue_block-IsSound :
      (s : Search) (target : ℕ)
      → IsReached function entry target
      → IsSound s
      → IsSound (enqueue_block s target)
  unfolding enqueue_block
  enqueue_block-IsSound s target h k = elim (Bool-cases (contains_id target s.reachable)) [
    | inl e ↦ rw e k
    | inr e ↦
        rw e (AllReached-cons target s.reachable h k.0, AllReached-cons target s.worklist h k.1)
  ]

  enqueue_all-IsSound :
      (s : Search) (targets : List ℕ)
      → AllReached targets
      → IsSound s
      → IsSound (enqueue_all s targets)
  unfolding enqueue_all
  enqueue_all-IsSound s [] h k = k
  enqueue_all-IsSound s (target ∷ targets) h k =
      enqueue_all-IsSound (enqueue_block s target) targets (λ id m. h id (ground (arith, m)))
        (enqueue_block-IsSound s target (h target (Has-head target targets)) k)

  visit-IsSound :
      (s : Search) (current : ℕ)
      → IsReached function entry current
      → IsSound s
      → IsSound (visit s (find_block function current))
  visit-IsSound s current h k = go (find_block function current) refl
    where
      go : (found : Option IrBlock) → find_block function current ≡ found → IsSound (visit s found)
      go none e = k
      go (some block) e =
          enqueue_all-IsSound s (instr_targets block.instrs)
            (λ id m. jump h e (listed-JumpsTo block.instrs id m)) k

  search_loop-AllReached :
      (fuel : ℕ) (reachable worklist result : List ℕ)
      → IsSound (record { reachable = reachable; worklist = worklist })
      → search_loop function fuel reachable worklist ≡ some result
      → AllReached result
  unfolding search_loop
  search_loop-AllReached fuel reachable [] result h e =
      subst AllReached (some-injective reachable result e) h.0
  search_loop-AllReached zero reachable (current ∷ worklist) result h e = cc
  search_loop-AllReached (suc fuel) reachable (current ∷ worklist) result h e =
      search_loop-AllReached fuel _ _ result
        (visit-IsSound (record { reachable = reachable; worklist = worklist }) current
          (h.1 current (Has-head current worklist)) (h.0, λ id m. h.1 id (ground (arith, m))))
        e

  -- A set with the entry that is closed under targets has what is reached.
  IsReached-Has :
      (r : List ℕ)
      → Has r entry
      → ((id : ℕ) → Has r id → Explored function r id)
      → (id : ℕ) → IsReached function entry id
      → Has r id
  IsReached-Has r has closed id here = has
  IsReached-Has r has closed id (jump {id = id'} {block = block} reached found to) =
      closed id' (IsReached-Has r has closed id' reached) block found id to

  -- The search for reachable blocks ends with a set that contains exactly the identifiers that jumps
  -- lead to: the entry, and with each identifier for which `findBlock` finds a block, the true target
  -- and the false target of each instruction of that block that has one.
  pub find_reachable_block_ids-IsReached :
      (r : List ℕ) × (find_reachable_block_ids function entry ≡ some r)
      × ((id : ℕ)
          → (Has r id → IsReached function entry id) × (IsReached function entry id → Has r id))
  unfolding find_reachable_block_ids
  find_reachable_block_ids-IsReached =
      let (r, e, has, closed) = find_reachable_block_ids-Explored function entry in
      let seen : AllReached (entry ∷ []) = AllReached-cons entry [] here (λ j k. cc) in
      (
        r,
        e,
        λ id. (
          search_loop-AllReached (search_fuel function) (entry ∷ []) (entry ∷ []) r (seen, seen) e
              id,
          IsReached-Has r has closed id,
        ),
      )
