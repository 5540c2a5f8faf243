-- ===== src/Optimizer/FoldProgress.antt =====
-- src/transforms/passes/ConstantFoldingPass.cpp: the measure and the report of a change.
use mathlib.Core.Path.{ap₂}
use asm_studio.Prelude.{
  ℕ, ◌<◌, ◌≡◌, refl, ap, ◌∙◌, Bool, true, false, ◌||◌, Option, none, some, List, [], ◌∷◌, arith,
  if◌then◌else◌, get_elem?, Bool-cases, inl, inr,
}
use asm_studio.Machine.Ub.{Ub, defined, undefined, ◌>>=◌}
use asm_studio.Machine.Floats.{Floats}
use asm_studio.Ir.{IrOp, IrConstant, int64, IrValue, IrInstr, IrBlock, IrFunction, constant_at}
use asm_studio.Optimizer.ConstantFolding.{
  is_foldable_op, Folded, become_constant, fold_binary_int, fold_unary, fold_pair, fold_single,
  fold_inputs, fold_output, fold_instr, fold_instrs, fold_blocks, constant_folding,
  all_inputs_are_constant, set_constant, kind_after,
}
use asm_studio.Optimizer.Measure.{weight, weight_instrs, weight_blocks, measure, LowersUb}

const-lt-foldable : (op : IrOp) → is_foldable_op op ≡ true → weight IrOp.const < weight op
unfolding weight is_foldable_op
const-lt-foldable op h = ground arith

-- Folding one instruction.
abbrev FoldLowers : List IrValue → IrInstr → Ub Folded → Type 0
FoldLowers values i (defined (values', i', true)) = weight i'.op < weight i.op
FoldLowers values i (defined (values', i', false)) = (values' ≡ values) × (i' ≡ i)
FoldLowers values i undefined = Unit

module _ (f : Floats) (values : List IrValue) (i : IrInstr) where
  become_constant-Lowers :
      (clear : Bool) (output : ℕ) (c : Option IrConstant)
      → is_foldable_op i.op ≡ true
      → FoldLowers values i (become_constant clear values i output c)
  unfolding become_constant
  become_constant-Lowers clear output none h = (refl, refl)
  become_constant-Lowers clear output (some c) h = go (get_elem? values output)
    where
      go :
          (v : Option IrValue)
          → FoldLowers values i (
              set_constant values output c v >>= λ values'. defined (
                values',
                record i {
                  op = IrOp.const;
                  const_val = some c;
                  cmp_kind = kind_after clear i.cmp_kind;
                  inputs = [];
                },
                true,
              ))
      go none = tt
      go (some v) = const-lt-foldable i.op h

  bind-Lowers :
      (m : Ub (Option IrConstant)) (g : Option IrConstant → Ub Folded)
      → ((c : Option IrConstant) → FoldLowers values i (g c))
      → FoldLowers values i (m >>= g)
  bind-Lowers (defined c) g h = h c
  bind-Lowers undefined g h = tt

  fold_pair-Lowers :
      (output : ℕ) (left right : Option IrConstant)
      → is_foldable_op i.op ≡ true
      → FoldLowers values i (fold_pair values i output left right)
  fold_pair-Lowers output (some (int64 a)) (some (int64 b)) h =
      bind-Lowers (fold_binary_int i.op a b i.cmp_kind) _
        (λ c. become_constant-Lowers true output c h)
  fold_pair-Lowers output left right h = (refl, refl)

  fold_single-Lowers :
      (output : ℕ) (operand : Option IrConstant)
      → is_foldable_op i.op ≡ true
      → FoldLowers values i (fold_single f values i output operand)
  fold_single-Lowers output none h = (refl, refl)
  fold_single-Lowers output (some c) h =
      bind-Lowers (fold_unary f i.op c) _ (λ k. become_constant-Lowers false output k h)

  fold_inputs-Lowers :
      (output : ℕ) (inputs : List ℕ)
      → is_foldable_op i.op ≡ true
      → FoldLowers values i (fold_inputs f values i output inputs)
  unfolding fold_inputs
  fold_inputs-Lowers output (left ∷ right ∷ []) h =
      fold_pair-Lowers output (constant_at values left) (constant_at values right) h
  fold_inputs-Lowers output (operand ∷ []) h =
      fold_single-Lowers output (constant_at values operand) h
  fold_inputs-Lowers output _ h = (refl, refl)

  fold_output-Lowers : (output : Option ℕ) → FoldLowers values i (fold_output f values i output)
  fold_output-Lowers none = (refl, refl)
  fold_output-Lowers (some output) = elim (Bool-cases (is_foldable_op i.op)) [
    | inl h ↦ rw h (fold_inputs-Lowers output i.inputs h)
    | inr h ↦ rw h (refl, refl)
  ]

  fold_instr-Lowers : FoldLowers values i (fold_instr f values i)
  unfolding fold_instr
  fold_instr-Lowers = go (all_inputs_are_constant i values)
    where
      go :
          (b : Bool)
          → FoldLowers values i
              (if b then fold_output f values i i.output else defined (values, i, false))
      go true = fold_output-Lowers i.output
      go false = (refl, refl)

abbrev pub InstrsLowers :
    List IrValue → List IrInstr → Ub (List IrValue × List IrInstr × Bool) → Type 0
InstrsLowers values instrs (defined (values', instrs', true)) =
    weight_instrs instrs' < weight_instrs instrs
InstrsLowers values instrs (defined (values', instrs', false)) =
    (values' ≡ values) × (instrs' ≡ instrs)
InstrsLowers values instrs undefined = Unit

abbrev pub BlocksLowers :
    List IrValue → List IrBlock → Ub (List IrValue × List IrBlock × Bool) → Type 0
BlocksLowers values blocks (defined (values', blocks', true)) =
    weight_blocks blocks' < weight_blocks blocks
BlocksLowers values blocks (defined (values', blocks', false)) =
    (values' ≡ values) × (blocks' ≡ blocks)
BlocksLowers values blocks undefined = Unit

module _ (values values' : List IrValue) where
  cons_instr-Lowers :
      (i i' : IrInstr) (instrs : List IrInstr) (b : Bool)
      (r : Ub (List IrValue × List IrInstr × Bool))
      → FoldLowers values i (defined (values', i', b))
      → InstrsLowers values' instrs r
      → InstrsLowers values (i ∷ instrs) (r >>= λ rest. defined (rest.0, i' ∷ rest.1, b || rest.2))
  unfolding weight_instrs
  cons_instr-Lowers i i' instrs b undefined h k = tt
  cons_instr-Lowers i i' instrs true (defined (v, is, true)) h k = omega arith
  cons_instr-Lowers i i' instrs true (defined (v, is, false)) h k =
      omega (arith, ap weight_instrs k.1)
  cons_instr-Lowers i i' instrs false (defined (v, is, true)) h k =
      omega (arith, ap (λ (j : IrInstr). weight j.op) h.1)
  cons_instr-Lowers i i' instrs false (defined (v, is, false)) h k = (k.0 ∙ h.0, ap₂ ◌∷◌ h.1 k.1)

  cons_block-Lowers :
      (block : IrBlock) (instrs' : List IrInstr) (blocks : List IrBlock) (b : Bool)
      (r : Ub (List IrValue × List IrBlock × Bool))
      → InstrsLowers values block.instrs (defined (values', instrs', b))
      → BlocksLowers values' blocks r
      → BlocksLowers values
          (block ∷ blocks)
          (r >>= λ rest. defined (rest.0, record block { instrs = instrs' } ∷ rest.1, b || rest.2))
  unfolding weight_blocks
  cons_block-Lowers block instrs' blocks b undefined h k = tt
  cons_block-Lowers block instrs' blocks true (defined (v, bs, true)) h k = omega arith
  cons_block-Lowers block instrs' blocks true (defined (v, bs, false)) h k =
      omega (arith, ap weight_blocks k.1)
  cons_block-Lowers block instrs' blocks false (defined (v, bs, true)) h k =
      omega (arith, ap weight_instrs h.1)
  cons_block-Lowers block instrs' blocks false (defined (v, bs, false)) h k = (
    k.0 ∙ h.0,
    ap₂ (λ (is : List IrInstr) (rest : List IrBlock). record block { instrs = is } ∷ rest) h.1 k.1,
  )

module _ (f : Floats) where
  fold_instrs-Lowers :
      (values : List IrValue) (instrs : List IrInstr)
      → InstrsLowers values instrs (fold_instrs f values instrs)
  unfolding fold_instrs
  fold_instrs-Lowers values [] = (refl, refl)
  fold_instrs-Lowers values (i ∷ instrs) =
      go (fold_instr f values i) (fold_instr-Lowers f values i) (λ v. fold_instrs-Lowers v instrs)
    where
      go :
          (r : Ub Folded)
          → FoldLowers values i r
          → ((v : List IrValue) → InstrsLowers v instrs (fold_instrs f v instrs))
          → InstrsLowers values (i ∷ instrs) (
              r >>= λ first. fold_instrs f first.0 instrs >>= λ rest.
              defined (rest.0, first.1 ∷ rest.1, first.2 || rest.2))
      go undefined h k = tt
      go (defined (v, i', b)) h k = cons_instr-Lowers values v i i' instrs b _ h (k v)

  fold_blocks-Lowers :
      (values : List IrValue) (blocks : List IrBlock)
      → BlocksLowers values blocks (fold_blocks f values blocks)
  unfolding fold_blocks
  fold_blocks-Lowers values [] = (refl, refl)
  fold_blocks-Lowers values (block ∷ blocks) =
      go (fold_instrs f values block.instrs) (fold_instrs-Lowers values block.instrs)
        (λ v. fold_blocks-Lowers v blocks)
    where
      go :
          (r : Ub (List IrValue × List IrInstr × Bool))
          → InstrsLowers values block.instrs r
          → ((v : List IrValue) → BlocksLowers v blocks (fold_blocks f v blocks))
          → BlocksLowers values (block ∷ blocks) (
              r >>= λ first. fold_blocks f first.0 blocks >>= λ rest.
              defined (rest.0, record block { instrs = first.1 } ∷ rest.1, first.2 || rest.2))
      go undefined h k = tt
      go (defined (v, is, b)) h k = cons_block-Lowers values v block is blocks b _ h (k v)

  -- Constant folding that reports a change lowers the measure of the function, and constant folding
  -- that reports none leaves the function as it is, where folding is defined.
  pub constant_folding-Lowers :
      (function : IrFunction) → LowersUb measure function (constant_folding f function)
  unfolding constant_folding measure
  constant_folding-Lowers function =
      go (fold_blocks f function.values function.blocks)
        (fold_blocks-Lowers function.values function.blocks)
    where
      go :
          (r : Ub (List IrValue × List IrBlock × Bool))
          → BlocksLowers function.values function.blocks r
          → LowersUb measure function (
              r >>= λ folded.
              defined (record function { values = folded.0; blocks = folded.1 }, folded.2))
      go undefined h = tt
      go (defined (v, bs, true)) h = h
      go (defined (v, bs, false)) h =
          ap₂
            (λ (vs : List IrValue) (blocks : List IrBlock). record function {
              values = vs;
              blocks = blocks;
            })
            h.0 h.1
