-- ===== src/Optimizer/Reachable.antt =====
-- The set that src/transforms/passes/UnreachableBlockEliminationPass.cpp computes.
use mathlib.Core.Path.{subst}
use mathlib.Core.Option.{some-injective}
use asm_studio.Prelude.{
  ℕ, zero, suc, ◌≡◌, sym, ap, ◌∙◌, ◌⊎◌, Option, none, some, List, [], ◌∷◌, arith, contains_id,
  Bool-cases, inl, inr,
}
use asm_studio.Ir.{IrBlock, IrFunction, find_block}
use asm_studio.Optimizer.Unreachable.{
  Search, enqueue_block, enqueue_all, visit, search_loop, search_fuel, find_reachable_block_ids,
  instr_targets,
}
use asm_studio.Optimizer.Targets.{JumpsTo, instr_targets-IsTarget}
use asm_studio.Optimizer.Identifiers.{Has, Has-head, Has-uncons}
use asm_studio.Optimizer.SearchFuel.{find_reachable_block_ids-ends}

-- A step of the search only adds, and what it adds to the set it adds to the worklist.
abbrev Grows : Search → Search → Type 0
Grows s t =
    ((id : ℕ) → Has s.reachable id → Has t.reachable id)
    × ((id : ℕ) → Has s.worklist id → Has t.worklist id)
    × ((id : ℕ) → Has t.reachable id → Has s.reachable id ⊎ Has t.worklist id)

Has-cons : (id x : ℕ) (ids : List ℕ) → Has ids id → Has (x ∷ ids) id
Has-cons id x ids h = ground (arith, h)

enqueue_block-Grows : (s : Search) (target : ℕ) → Grows s (enqueue_block s target)
unfolding enqueue_block
enqueue_block-Grows s target = elim (Bool-cases (contains_id target s.reachable)) [
  | inl e ↦ rw e ((λ id h. h), (λ id h. h), (λ id h. inl h))
  | inr e ↦ rw e (
    (λ id h. Has-cons id target s.reachable h),
    (λ id h. Has-cons id target s.worklist h),
    (λ id h. pushed id (Has-uncons id target s.reachable h)),
  )
]
  where
    pushed :
        (id : ℕ)
        → (target ≡ id) ⊎ Has s.reachable id
        → Has s.reachable id ⊎ Has (target ∷ s.worklist) id
    pushed id (inl q) =
        inr (ap (λ x. contains_id x (target ∷ s.worklist)) (sym q) ∙ Has-head target s.worklist)
    pushed id (inr q) = inl q

enqueue_block-Has : (s : Search) (target : ℕ) → Has (enqueue_block s target).reachable target
unfolding enqueue_block
enqueue_block-Has s target = elim (Bool-cases (contains_id target s.reachable)) [
  | inl e ↦ rw e e
  | inr e ↦ rw e (Has-head target s.reachable)
]

Grows-trans : (s t u : Search) → Grows s t → Grows t u → Grows s u
Grows-trans s t u h k =
    ((λ id m. k.0 id (h.0 id m)), (λ id m. k.1 id (h.1 id m)), (λ id m. back id (k.2 id m)))
  where
    back :
        (id : ℕ) → Has t.reachable id ⊎ Has u.worklist id → Has s.reachable id ⊎ Has u.worklist id
    back id (inr m) = inr m
    back id (inl m) = carried (h.2 id m)
      where
        carried : Has s.reachable id ⊎ Has t.worklist id → Has s.reachable id ⊎ Has u.worklist id
        carried (inl j) = inl j
        carried (inr j) = inr (k.1 id j)

enqueue_all-Grows : (s : Search) (targets : List ℕ) → Grows s (enqueue_all s targets)
unfolding enqueue_all
enqueue_all-Grows s [] = ((λ id h. h), (λ id h. h), (λ id h. inl h))
enqueue_all-Grows s (target ∷ targets) =
    Grows-trans s (enqueue_block s target) (enqueue_all (enqueue_block s target) targets)
      (enqueue_block-Grows s target) (enqueue_all-Grows (enqueue_block s target) targets)

enqueue_all-Has :
    (s : Search) (targets : List ℕ) (id : ℕ)
    → Has targets id
    → Has (enqueue_all s targets).reachable id
unfolding enqueue_all
enqueue_all-Has s [] id h = cc
enqueue_all-Has s (target ∷ targets) id h = elim (Has-uncons id target targets h) [
  | inl e ↦ (enqueue_all-Grows (enqueue_block s target) targets).0 id (
      ap (λ x. contains_id x (enqueue_block s target).reachable) (sym e)
      ∙ enqueue_block-Has s target)
  | inr m ↦ enqueue_all-Has (enqueue_block s target) targets id m
]

visit-Grows : (s : Search) (block : Option IrBlock) → Grows s (visit s block)
visit-Grows s none = ((λ id h. h), (λ id h. h), (λ id h. inl h))
visit-Grows s (some block) = enqueue_all-Grows s (instr_targets block.instrs)

module _ (function : IrFunction) where
  -- Wherever an instruction of the block may jump to is in the set.
  abbrev pub Explored : List ℕ → ℕ → Type 0
  Explored reachable id =
      (block : IrBlock)
      → find_block function id ≡ some block
      → (target : ℕ) → JumpsTo block target
      → Has reachable target

  -- Every block of the set is still to be visited, or has its targets in the set.
  abbrev Searched : Search → Type 0
  Searched s = (id : ℕ) → Has s.reachable id → Has s.worklist id ⊎ Explored s.reachable id

  visit-Explored : (s : Search) (id : ℕ) → Explored (visit s (find_block function id)).reachable id
  visit-Explored s id block e target h = go (find_block function id) e
    where
      listed : JumpsTo block target → Has (instr_targets block.instrs) target
      listed (n, i, at, is_target) = instr_targets-IsTarget block.instrs n target i at is_target

      go : (found : Option IrBlock) → found ≡ some block → Has (visit s found).reachable target
      go none q = cc
      go (some b) q = enqueue_all-Has s (instr_targets b.instrs) target (
          ap (λ (x : IrBlock). contains_id target (instr_targets x.instrs))
            (some-injective b block q)
          ∙ listed h)

  visit-Searched :
      (reachable worklist : List ℕ) (current : ℕ)
      → Searched (record { reachable = reachable; worklist = current ∷ worklist })
      → Searched (
          visit
            (record { reachable = reachable; worklist = worklist })
            (find_block function current))
  visit-Searched reachable worklist current h id m = added (grows.2 id m)
    where
      before : Search
      before = record { reachable = reachable; worklist = worklist }

      after : Search
      after = visit before (find_block function current)

      grows : Grows before after
      grows = visit-Grows before (find_block function current)

      pending :
          (current ≡ id) ⊎ Has worklist id → Has after.worklist id ⊎ Explored after.reachable id
      pending (inl q) =
          inr (subst (λ x. Explored after.reachable x) q (visit-Explored before current))
      pending (inr k) = inl (grows.1 id k)

      known :
          Has (current ∷ worklist) id ⊎ Explored reachable id
          → Has after.worklist id ⊎ Explored after.reachable id
      known (inl k) = pending (Has-uncons id current worklist k)
      known (inr k) = inr (λ block e target j. grows.0 target (k block e target j))

      added :
          Has reachable id ⊎ Has after.worklist id
          → Has after.worklist id ⊎ Explored after.reachable id
      added (inl k) = known (h id k)
      added (inr k) = inl k

  search_loop-Explored :
      (fuel : ℕ) (reachable worklist result : List ℕ)
      → Searched (record { reachable = reachable; worklist = worklist })
      → search_loop function fuel reachable worklist ≡ some result
      → ((id : ℕ) → Has reachable id → Has result id)
        × ((id : ℕ) → Has result id → Explored result id)
  unfolding search_loop
  search_loop-Explored fuel reachable [] result h e =
      subst (λ r. ((id : ℕ) → Has reachable id → Has r id) × ((id : ℕ) → Has r id → Explored r id))
        (some-injective reachable result e) ((λ id m. m), (λ id m. visited id (h id m)))
    where
      visited : (id : ℕ) → Has [] id ⊎ Explored reachable id → Explored reachable id
      visited id (inl k) = cc
      visited id (inr k) = k
  search_loop-Explored zero reachable (current ∷ worklist) result h e = cc
  search_loop-Explored (suc fuel) reachable (current ∷ worklist) result h e =
      let ih : ((id : ℕ)
            → Has
                (visit (record { reachable = reachable; worklist = worklist })
                  (find_block function current)).reachable
                id
            → Has result id)
          × ((id : ℕ) → Has result id → Explored result id) =
        search_loop-Explored fuel _ _ result (visit-Searched reachable worklist current h) e in
      (
        (λ id m. ih.0 id (
            (visit-Grows (record { reachable = reachable; worklist = worklist })
                (find_block function current)).0
              id m)),
        ih.1,
      )

  -- The search for reachable blocks ends with a set that contains the entry block and, with each
  -- identifier for which `findBlock` finds a block, the true target and the false target of each
  -- instruction of that block that has one.
  pub find_reachable_block_ids-Explored :
      (entry : ℕ)
      → (r : List ℕ) × (find_reachable_block_ids function entry ≡ some r)
        × Has r entry
        × ((id : ℕ) → Has r id → Explored r id)
  unfolding find_reachable_block_ids
  find_reachable_block_ids-Explored entry =
      let (r, e) = find_reachable_block_ids-ends function entry in
      let closed : ((id : ℕ) → Has (entry ∷ []) id → Has r id)
          × ((id : ℕ) → Has r id → Explored r id) =
        search_loop-Explored (search_fuel function) (entry ∷ []) (entry ∷ []) r (λ id m. inl m) e in
      (r, e, closed.0 entry (Has-head entry []), closed.1)
