-- ===== src/Optimizer/Swept.antt =====
-- What src/transforms/passes/DeadCodeEliminationPass.cpp keeps and what it removes.
use mathlib.Core.Path.{subst}
use mathlib.Core.Option.{some-injective}
use asm_studio.Prelude.{
  ℕ, zero, suc, ◌≡◌, ◌⊎◌, inl, inr, refl, sym, true, false, Option, none, some, List, [], ◌∷◌,
  arith, get_elem?, Bool-cases,
}
use asm_studio.Ir.{IrOp, IrInstr, IrBlock, IrFunction}
use asm_studio.Optimizer.DeadCode.{
  is_non_elidable_op, used_in_instrs, used_in_blocks, collect_used_value_ids, unused_output,
  is_dead, drop_dead, drop_dead_blocks, dead_code_elim,
}
use asm_studio.Optimizer.Identifiers.{
  Has, Has-left, Has-right, Has-append, IsEntry, Has-IsEntry, IsEntry-Has,
}

-- The operations that do more than to yield a value.
pub data HasEffect : IrOp → Type 0 where
  returning : HasEffect IrOp.ret
  jumping : HasEffect IrOp.jmp
  branching : HasEffect IrOp.br_true
  calling : HasEffect IrOp.call
  storing : HasEffect IrOp.store

-- An instruction has the value as an operand.
abbrev pub InstrsRead : List IrInstr → ℕ → Type 0
InstrsRead instrs id = (n : ℕ) × (i : IrInstr) × (get_elem? instrs n ≡ some i) × IsEntry i.inputs id

abbrev pub BlocksRead : List IrBlock → ℕ → Type 0
BlocksRead blocks id =
    (n : ℕ) × (b : IrBlock) × (get_elem? blocks n ≡ some b) × InstrsRead b.instrs id

-- The instruction has an effect or no output, or some instruction of the function reads its output.
abbrev pub IsOutputNeeded : IrFunction → IrOp → Option ℕ → Type 0
IsOutputNeeded function op output =
    HasEffect op
    ⊎ ((output ≡ none) ⊎ ((id : ℕ) × (output ≡ some id) × BlocksRead function.blocks id))

abbrev pub IsNeeded : IrFunction → IrInstr → Type 0
IsNeeded function i = IsOutputNeeded function i.op i.output

-- What is needed stays, in its order, and what is not needed goes.
pub data Swept (function : IrFunction) : List IrInstr → List IrInstr → Type 0 where
  nothing : Swept function [] []
  keeps :
      {i : IrInstr} {instrs rest : List IrInstr}
      → IsNeeded function i
      → Swept function instrs rest
      → Swept function (i ∷ instrs) (i ∷ rest)
  drops :
      {i : IrInstr} {instrs rest : List IrInstr}
      → (IsNeeded function i → ⊥)
      → Swept function instrs rest
      → Swept function (i ∷ instrs) rest

pub data SweptBlocks (function : IrFunction) : List IrBlock → List IrBlock → Type 0 where
  no_blocks : SweptBlocks function [] []
  block :
      {b : IrBlock} {blocks rest : List IrBlock} {instrs : List IrInstr}
      → Swept function b.instrs instrs
      → SweptBlocks function blocks rest
      → SweptBlocks function (b ∷ blocks) (record b { instrs = instrs } ∷ rest)

used_in_instrs-InstrsRead :
    (id : ℕ) (instrs : List IrInstr) → Has (used_in_instrs instrs) id → InstrsRead instrs id
unfolding used_in_instrs
used_in_instrs-InstrsRead id [] h = cc
used_in_instrs-InstrsRead id (i ∷ instrs) h =
    elim (Has-append id i.inputs (used_in_instrs instrs) h) [
      | inl k ↦ (0, i, refl, Has-IsEntry id i.inputs k)
      | inr k ↦ let (n, j, e, r) = used_in_instrs-InstrsRead id instrs k in (suc n, j, e, r)
    ]

InstrsRead-used_in_instrs :
    (id : ℕ) (instrs : List IrInstr) → InstrsRead instrs id → Has (used_in_instrs instrs) id
unfolding used_in_instrs
InstrsRead-used_in_instrs id [] (n, i, e, r) = cc
InstrsRead-used_in_instrs id (j ∷ instrs) (zero, i, e, r) =
    Has-left id j.inputs (used_in_instrs instrs) (
      IsEntry-Has id j.inputs
        (subst (λ (x : IrInstr). IsEntry x.inputs id) (sym (some-injective j i e)) r))
InstrsRead-used_in_instrs id (j ∷ instrs) (suc n, i, e, r) =
    Has-right id j.inputs (used_in_instrs instrs) (InstrsRead-used_in_instrs id instrs (n, i, e, r))

used_in_blocks-BlocksRead :
    (id : ℕ) (blocks : List IrBlock) → Has (used_in_blocks blocks) id → BlocksRead blocks id
unfolding used_in_blocks
used_in_blocks-BlocksRead id [] h = cc
used_in_blocks-BlocksRead id (b ∷ blocks) h =
    elim (Has-append id (used_in_instrs b.instrs) (used_in_blocks blocks) h) [
      | inl k ↦ (0, b, refl, used_in_instrs-InstrsRead id b.instrs k)
      | inr k ↦ let (n, c, e, r) = used_in_blocks-BlocksRead id blocks k in (suc n, c, e, r)
    ]

BlocksRead-used_in_blocks :
    (id : ℕ) (blocks : List IrBlock) → BlocksRead blocks id → Has (used_in_blocks blocks) id
unfolding used_in_blocks
BlocksRead-used_in_blocks id [] (n, b, e, r) = cc
BlocksRead-used_in_blocks id (c ∷ blocks) (zero, b, e, r) =
    Has-left id (used_in_instrs c.instrs) (used_in_blocks blocks) (
      InstrsRead-used_in_instrs id c.instrs
        (subst (λ (x : IrBlock). InstrsRead x.instrs id) (sym (some-injective c b e)) r))
BlocksRead-used_in_blocks id (c ∷ blocks) (suc n, b, e, r) =
    Has-right id (used_in_instrs c.instrs) (used_in_blocks blocks)
      (BlocksRead-used_in_blocks id blocks (n, b, e, r))

is_non_elidable_op-HasEffect : (op : IrOp) → is_non_elidable_op op ≡ true → HasEffect op
unfolding is_non_elidable_op
is_non_elidable_op-HasEffect IrOp.ret h = returning
is_non_elidable_op-HasEffect IrOp.jmp h = jumping
is_non_elidable_op-HasEffect IrOp.br_true h = branching
is_non_elidable_op-HasEffect IrOp.call h = calling
is_non_elidable_op-HasEffect IrOp.store h = storing
is_non_elidable_op-HasEffect _ h = cc

HasEffect-is_non_elidable_op : (op : IrOp) → HasEffect op → is_non_elidable_op op ≡ true
unfolding is_non_elidable_op
HasEffect-is_non_elidable_op op returning = refl
HasEffect-is_non_elidable_op op jumping = refl
HasEffect-is_non_elidable_op op branching = refl
HasEffect-is_non_elidable_op op calling = refl
HasEffect-is_non_elidable_op op storing = refl

module _ (function : IrFunction) where
  -- What is not erased is needed.
  unused_output-needed :
      (op : IrOp) (output : Option ℕ)
      → unused_output (collect_used_value_ids function) op output ≡ false
      → IsOutputNeeded function op output
  unfolding collect_used_value_ids
  unused_output-needed op none h = inr (inl refl)
  unused_output-needed op (some id) h = elim (Bool-cases (is_non_elidable_op op)) [
    | inl e ↦ inl (is_non_elidable_op-HasEffect op e)
    | inr e ↦
        let used : Has (used_in_blocks function.blocks) id = ground (arith, h, e) in
        inr (inr (id, refl, used_in_blocks-BlocksRead id function.blocks used))
  ]

  -- What is erased is not needed.
  needed-unused_output :
      (op : IrOp) (output : Option ℕ)
      → unused_output (collect_used_value_ids function) op output ≡ true
      → IsOutputNeeded function op output
      → ⊥
  unfolding collect_used_value_ids
  needed-unused_output op none h k = cc
  needed-unused_output op (some id) h (inl effect) =
      let e : is_non_elidable_op op ≡ true = HasEffect-is_non_elidable_op op effect in
      ground (arith, h, e)
  needed-unused_output op (some id) h (inr (inl e)) = cc
  needed-unused_output op (some id) h (inr (inr (id', e, read))) =
      let used : Has (used_in_blocks function.blocks) id =
        BlocksRead-used_in_blocks id function.blocks
          (subst (BlocksRead function.blocks) (sym (some-injective id id' e)) read) in
      ground (arith, h, used)

  drop_dead-Swept :
      (instrs : List IrInstr)
      → Swept function instrs (drop_dead (collect_used_value_ids function) instrs)
  unfolding drop_dead is_dead
  drop_dead-Swept [] = nothing
  drop_dead-Swept (i ∷ instrs) =
      elim (Bool-cases (unused_output (collect_used_value_ids function) i.op i.output)) [
        | inl e ↦ rw e (drops (needed-unused_output i.op i.output e) (drop_dead-Swept instrs))
        | inr e ↦ rw e (keeps (unused_output-needed i.op i.output e) (drop_dead-Swept instrs))
      ]

  drop_dead_blocks-SweptBlocks :
      (blocks : List IrBlock)
      → SweptBlocks function blocks (drop_dead_blocks (collect_used_value_ids function) blocks).0
  unfolding drop_dead_blocks
  drop_dead_blocks-SweptBlocks [] = no_blocks
  drop_dead_blocks-SweptBlocks (b ∷ blocks) =
      block (drop_dead-Swept b.instrs) (drop_dead_blocks-SweptBlocks blocks)

  -- Dead code elimination changes nothing but the instructions of the blocks. In each of them it
  -- keeps, in their order, the instructions that return, jump, branch, call or store, those without
  -- an output and those whose output some instruction of the function reads, and removes all others.
  pub dead_code_elim-SweptBlocks :
      SweptBlocks function function.blocks (dead_code_elim function).0.blocks
      × ((dead_code_elim function).0
          ≡ record function { blocks = (dead_code_elim function).0.blocks })
  unfolding dead_code_elim
  dead_code_elim-SweptBlocks = (drop_dead_blocks-SweptBlocks function.blocks, refl)
