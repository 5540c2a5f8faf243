-- ===== src/Lowering/Emitted.antt =====
-- `LoweringContext` of src/ir/Lowering.cpp: the instructions that its operations put into blocks.
use mathlib.Core.List.{append_assoc, append-nil}
use mathlib.Core.Option.{some-injective}
use asm_studio.Prelude.{
  ℕ, ◌<◌, ◌≡◌, ◌≢◌, refl, sym, ap, ◌∙◌, Option, none, some, List, [], ◌∷◌, ◌++◌, arith, length,
  get_elem?, get_elem?-set_self, get_elem?-set_ne, All, All-map,
}
use asm_studio.Support.Types.{DataType}
use asm_studio.Ir.{IrOp, IrConstant, IrInstr, IrBlock, IrValue, RegValue}
use asm_studio.Lowering.Context.{
  Lowered, ok, logic_error, undefined, LoweringContext, alloc_value, emit, append_at, type_at,
  type_or_undefined,
}
use asm_studio.Lowering.Expr.{
  emit_operator, operator_instr, lower_constant_expression, const_instr, data_type_from_constant,
}
use asm_studio.Lowering.Invariant.{
  IsWellFormed, Returns, Returns-bind, alloc_value-Returns, Extends-refl,
}
use asm_studio.Lowering.Operations.{emit-Returns, type_at-Returns}
use asm_studio.Lowering.Valid.{HasBlock, operator_instr-IsValid, load-Returns}

abbrev pub instrs_of : Option IrBlock → List IrInstr
instrs_of none = []
instrs_of (some b) = b.instrs

-- The instructions of the block with a number.
abbrev pub instrs_at : LoweringContext → ℕ → List IrInstr
instrs_at c n = instrs_of (get_elem? c.function.blocks n)

-- Code is put at the end of one block; all other blocks, and the names, stay.
pub record EmitsCode (block : ℕ) (c d : LoweringContext) (code : List IrInstr) : Type 0 where
  pub here : instrs_at d block ≡ instrs_at c block ++ code
  pub elsewhere : (n : ℕ) → block ≢ n → instrs_at d n ≡ instrs_at c n
  pub names : d.variable_table ≡ c.variable_table

pub EmitsCode-trans :
    (block : ℕ) (c d e : LoweringContext) (xs ys : List IrInstr)
    → EmitsCode block c d xs
    → EmitsCode block d e ys
    → EmitsCode block c e (xs ++ ys)
EmitsCode-trans block c d e xs ys h k = record {
  here = k.here ∙ ap (λ l. l ++ ys) h.here ∙ append_assoc (instrs_at c block) xs ys;
  elsewhere = λ n l. k.elsewhere n l ∙ h.elsewhere n l;
  names = k.names ∙ h.names;
}

pub EmitsCode-nil :
    (block : ℕ) (c d : LoweringContext)
    → d.function.blocks ≡ c.function.blocks
    → d.variable_table ≡ c.variable_table
    → EmitsCode block c d []
EmitsCode-nil block c d e e' = record {
  here =
      ap (λ (bs : List IrBlock). instrs_of (get_elem? bs block)) e
      ∙ sym (append-nil (instrs_at c block));
  elsewhere = λ n l. ap (λ (bs : List IrBlock). instrs_of (get_elem? bs n)) e;
  names = e';
}

-- What holds of a result that is there.
abbrev pub Yields :
    {A : Type 0} → (A → LoweringContext → Type 0) → Lowered (A × LoweringContext) → Type 0
Yields P (ok (a, d)) = P a d
Yields P logic_error = Unit
Yields P undefined = Unit

pub Returns-and :
    {A : Type 0} (c : LoweringContext) (P Q : A → LoweringContext → Type 0)
    (r : Lowered (A × LoweringContext))
    → Returns c P r
    → Yields Q r
    → Returns c (λ a d. P a d × Q a d) r
Returns-and c P Q (ok (a, d)) h k = (h.0, h.1, (h.2, k))
Returns-and c P Q logic_error h k = h
Returns-and c P Q undefined h k = h

module _ (c : LoweringContext) (w : IsWellFormed c) (block : ℕ) where
  pub emit-Yields :
      (i : IrInstr)
      → HasBlock c block
      → Yields (λ u d. EmitsCode block c d (i ∷ [])) (emit block i c)
  unfolding emit
  emit-Yields i h = rw (w.indexed block h) (go (get_elem? c.function.blocks block) refl)
    where
      go :
          (b : Option IrBlock)
          → get_elem? c.function.blocks block ≡ b
          → Yields (λ u d. EmitsCode block c d (i ∷ [])) (append_at c i block b)
      go none e = tt
      go (some b) e =
          let b' : IrBlock = record b { instrs = b.instrs ++ i ∷ [] } in
          record {
            here =
                ap instrs_of (get_elem?-set_self c.function.blocks block b' h)
                ∙ ap (λ (x : Option IrBlock). instrs_of x ++ i ∷ []) (sym e);
            elsewhere = λ n l. ap instrs_of (get_elem?-set_ne c.function.blocks block n b' l);
            names = refl;
          }

  pub alloc_value-Yields :
      (type : DataType) (k : Option IrConstant)
      → Yields
          (λ id d. (id ≡ length c.function.values) × EmitsCode block c d [])
          (alloc_value type k c)
  unfolding alloc_value
  alloc_value-Yields type k = (w.values_counted, EmitsCode-nil block c _ refl refl)

  type_at-Yields : (id : ℕ) → Yields (λ t d. d ≡ c) (type_at id c)
  unfolding type_at
  type_at-Yields id = go (get_elem? c.function.values id)
    where
      go : (v : Option IrValue) → Yields (λ t d. d ≡ c) (type_or_undefined c v)
      go none = tt
      go (some v) = refl

-- A fresh value, and one instruction that writes it.
abbrev pub EmitsOne : (ℕ → IrInstr) → ℕ → LoweringContext → ℕ → LoweringContext → Type 0
EmitsOne instr block c id d =
    (id ≡ length c.function.values)
    × (id < length d.function.values)
    × EmitsCode block c d (instr id ∷ [])

pub emit_operator-EmitsOne :
    (block : ℕ) (c : LoweringContext) (op : IrOp) (inputs : List ℕ) (first : ℕ)
    → IsWellFormed c
    → HasBlock c block
    → All (λ v. v < length c.function.values) inputs
    → first < length c.function.values
    → Returns c
        (EmitsOne (operator_instr op inputs) block c)
        (emit_operator block op inputs first c)
unfolding emit_operator
emit_operator-EmitsOne block c op inputs first w hb hi hf =
    Returns-bind c _ (EmitsOne (operator_instr op inputs) block c) _ _
      (Returns-and c _ _ _ (type_at-Returns c w first hf) (type_at-Yields c w block first))
      λ type c1 w1 x1 p1.
        Returns-bind c1 _ (EmitsOne (operator_instr op inputs) block c) _ _
          (Returns-and c1 _ _ _ (alloc_value-Returns c1 w1 type none)
            (alloc_value-Yields c1 w1 block type none))
          λ id d wd x p.
            Returns-bind d _ (EmitsOne (operator_instr op inputs) block c) _ _
              (Returns-and d _ _ _
                (emit-Returns d wd block (operator_instr op inputs id)
                  (omega (arith, x.blocks_kept, x1.blocks_kept, hb))
                  (operator_instr-IsValid d op inputs id
                    (All-map _ _ (λ v l. omega (arith, l, x.values_kept, x1.values_kept)) inputs hi)
                    p.0.0 p.0.1))
                (emit-Yields d wd block (operator_instr op inputs id)
                  (omega (arith, x.blocks_kept, x1.blocks_kept, hb))))
              λ u e we y q. (
                we,
                Extends-refl e,
                (
                  p.1.0 ∙ ap (λ (x : LoweringContext). length x.function.values) p1.1,
                  omega (arith, p.0.0, y.values_kept),
                  EmitsCode-trans block c c1 e [] _
                      (EmitsCode-nil block c c1
                        (ap (λ (x : LoweringContext). x.function.blocks) p1.1)
                        (ap (λ (x : LoweringContext). x.variable_table) p1.1))
                      (EmitsCode-trans block c1 d e [] _ p.1.1 q.1),
                ),
              )

pub lower_constant_expression-EmitsOne :
    (block : ℕ) (c : LoweringContext) (value : RegValue)
    → IsWellFormed c
    → HasBlock c block
    → Returns c
        (EmitsOne (λ id. const_instr id value) block c)
        (lower_constant_expression block value c)
unfolding lower_constant_expression
lower_constant_expression-EmitsOne block c value w hb =
    Returns-bind c _ (EmitsOne (λ id. const_instr id value) block c) _ _
      (Returns-and c _ _ _ (alloc_value-Returns c w (data_type_from_constant value) (some value))
        (alloc_value-Yields c w block (data_type_from_constant value) (some value)))
      λ id d wd x p.
        Returns-bind d _ (EmitsOne (λ id. const_instr id value) block c) _ _
          (Returns-and d _ _ _
            (load-Returns block d id value wd (omega (arith, x.blocks_kept, hb)) p.0.0
              (λ k' e. some-injective value k' (sym p.0.1 ∙ e)))
            (emit-Yields d wd block (const_instr id value) (omega (arith, x.blocks_kept, hb))))
          λ u e we y q. (
            we,
            Extends-refl e,
            (
              p.1.0,
              omega (arith, p.0.0, y.values_kept),
              EmitsCode-trans block c d e [] _ p.1.1 q.1,
            ),
          )
