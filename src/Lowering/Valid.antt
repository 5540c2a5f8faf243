-- ===== src/Lowering/Valid.antt =====
-- src/ir/Lowering.cpp: results and invariant for expressions.
use asm_studio.Prelude.{
  ℕ, suc, ◌+◌, ◌≤◌, ◌<◌, ◌≡◌, refl, sym, ap, ◌∙◌, Bool, true, false, Option, none, some, List, [],
  ◌∷◌, String, arith, length, All, is_some, Option-cases, inl, inr,
}
use mathlib.Core.Path.{subst}
use mathlib.Core.Option.{some-injective}
use asm_studio.Ir.{IrOp, IrConstant, RegValue, constant_at}
use asm_studio.Dsl.Syntax.{
  Variable, Operand, variable, literal, ExprNode, const_expr, var_expr, bin_expr, unary_expr,
}
use asm_studio.Lowering.Context.{LoweringContext, emit, lookup_variable, lookup_name}
use asm_studio.Lowering.Expr.{
  lower_constant_expression, lower_first_access, lower_variable_expression, existing_or_first,
  emit_operator, lower_expression, lower_operand, const_instr, operator_instr,
  data_type_from_constant, bin_op_to_ir_op, unary_op_to_ir_op,
}
use asm_studio.Lowering.Invariant.{
  IsValidInstr, IsWellFormed, Extends-refl, Returns, Returns-bind, alloc_value-Returns,
}
use asm_studio.Lowering.Operations.{emit-Returns, set_variable-Returns, type_at-Returns}

-- The result is a value of the function.
abbrev pub IsValue : ℕ → LoweringContext → Type 0
IsValue id d = id < length d.function.values

-- The block in which lowering goes on is there.
abbrev pub HasBlock : LoweringContext → ℕ → Type 0
HasBlock c block = block < length c.function.blocks

pub const_instr-IsValid :
    (c : LoweringContext) (output : ℕ) (k : IrConstant)
    → output < length c.function.values
    → ((k' : IrConstant) → constant_at c.function.values output ≡ some k' → k ≡ k')
    → IsValidInstr (length c.function.blocks) c.function.values (const_instr output k)
const_instr-IsValid c output k h same = record {
  inputs = tt;
  output = λ o e. subst (λ x. x < length c.function.values) (some-injective output o e) h;
  true_target = λ t e. cc;
  false_target = λ t e. cc;
  sound = λ o k' e e'. (
    refl,
    ap some (same k' (ap (constant_at c.function.values) (some-injective output o e) ∙ e')),
  );
}

-- An instruction that writes to a value without a constant, and does not jump.
pub operator_instr-IsValid :
    (c : LoweringContext) (op : IrOp) (inputs : List ℕ) (output : ℕ)
    → All (λ v. v < length c.function.values) inputs
    → output < length c.function.values
    → constant_at c.function.values output ≡ none
    → IsValidInstr (length c.function.blocks) c.function.values (operator_instr op inputs output)
operator_instr-IsValid c op inputs output hi h k = record {
  inputs = hi;
  output = λ o e. subst (λ x. x < length c.function.values) (some-injective output o e) h;
  true_target = λ t e. cc;
  false_target = λ t e. cc;
  sound = λ o k' e e'.
      let clash : none ≡ some k' =
        sym k ∙ ap (constant_at c.function.values) (some-injective output o e) ∙ e' in
      cc;
}

module _ (block : ℕ) where
  -- Loading a constant into a value that was just made for it.
  pub load-Returns :
      (c : LoweringContext) (output : ℕ) (k : IrConstant)
      → IsWellFormed c
      → HasBlock c block
      → output < length c.function.values
      → ((k' : IrConstant) → constant_at c.function.values output ≡ some k' → k ≡ k')
      → Returns c (λ u d. Unit) (emit block (const_instr output k) c)
  load-Returns c output k w hb h same =
      emit-Returns c w block (const_instr output k) hb (const_instr-IsValid c output k h same)

  lower_constant_expression-Returns :
      (c : LoweringContext) (value : RegValue)
      → IsWellFormed c
      → HasBlock c block
      → Returns c IsValue (lower_constant_expression block value c)
  unfolding lower_constant_expression
  lower_constant_expression-Returns c value w hb =
      Returns-bind c _ IsValue _ _
        (alloc_value-Returns c w (data_type_from_constant value) (some value))
        λ id d wd x p.
          Returns-bind d _ IsValue _ _
            (load-Returns d id value wd (omega (arith, x.blocks_kept)) p.0
              (λ k' e. some-injective value k' (sym p.1 ∙ e)))
            λ u e we y q. (we, Extends-refl e, omega (arith, p.0, y.values_kept))

  lower_first_access-Returns :
      (c : LoweringContext) (v : Variable)
      → IsWellFormed c
      → HasBlock c block
      → Returns c IsValue (lower_first_access block v c)
  unfolding lower_first_access
  lower_first_access-Returns c v w hb =
      Returns-bind c _ IsValue _ _ (alloc_value-Returns c w v.type none) λ id d wd x p.
        Returns-bind d _ IsValue _ _
          (load-Returns d id v.init wd (omega (arith, x.blocks_kept)) p.0
            (λ k' e. let clash : none ≡ some k' = sym p.1 ∙ e in cc))
          λ u e we y q.
            Returns-bind e _ IsValue _ _
              (set_variable-Returns e we v.name id (omega (arith, p.0, y.values_kept))
                (y.constants_kept id p.0 ∙ p.1))
              λ u' g wg z r. (wg, Extends-refl g, omega (arith, p.0, y.values_kept, z.values_kept))

  lower_variable_expression-Returns :
      (c : LoweringContext) (v : Variable)
      → IsWellFormed c
      → HasBlock c block
      → Returns c IsValue (lower_variable_expression block v c)
  unfolding lower_variable_expression lookup_variable
  lower_variable_expression-Returns c v w hb = go (lookup_name v.name c.variable_table) refl
    where
      go :
          (id : Option ℕ)
          → lookup_name v.name c.variable_table ≡ id
          → Returns c IsValue (existing_or_first block v id c)
      go none e = lower_first_access-Returns c v w hb
      go (some id) e = (w, Extends-refl c, (w.slots v.name id e).0)

  emit_operator-Returns :
      (c : LoweringContext) (op : IrOp) (inputs : List ℕ) (first : ℕ)
      → IsWellFormed c
      → HasBlock c block
      → All (λ v. v < length c.function.values) inputs
      → first < length c.function.values
      → Returns c IsValue (emit_operator block op inputs first c)
  unfolding emit_operator
  emit_operator-Returns c op inputs first w hb hi hf =
      Returns-bind c _ IsValue _ _ (type_at-Returns c w first hf) λ type c1 w1 x1 p1.
        Returns-bind c1 _ IsValue _ _ (alloc_value-Returns c1 w1 type none) λ id d wd x p.
          Returns-bind d _ IsValue _ _
            (emit-Returns d wd block (operator_instr op inputs id)
              (omega (arith, x.blocks_kept, x1.blocks_kept))
              (operator_instr-IsValid d op inputs id
                (asm_studio.Prelude.All-map _ _
                  (λ v l. omega (arith, x.values_kept, x1.values_kept)) inputs hi)
                p.0 p.1))
            λ u e we y q. (we, Extends-refl e, omega (arith, p.0, y.values_kept))

  -- Lowering an expression into a block that is there returns a value of the function.
  pub lower_expression-Returns :
      (c : LoweringContext) (e : ExprNode)
      → IsWellFormed c
      → HasBlock c block
      → Returns c IsValue (lower_expression block e c)
  unfolding lower_expression
  lower_expression-Returns c (const_expr value) w hb =
      lower_constant_expression-Returns c value w hb
  lower_expression-Returns c (var_expr v) w hb = lower_variable_expression-Returns c v w hb
  lower_expression-Returns c (bin_expr op left right) w hb =
      Returns-bind c IsValue IsValue _ _ (lower_expression-Returns c left w hb) λ a d wd x p.
        Returns-bind d IsValue IsValue _ _
          (lower_expression-Returns d right wd (omega (arith, x.blocks_kept)))
          λ b g wg y q.
            emit_operator-Returns g (bin_op_to_ir_op op) (a ∷ b ∷ []) a wg
              (omega (arith, x.blocks_kept, y.blocks_kept)) (omega (arith, y.values_kept), (q, tt))
              (omega (arith, y.values_kept))
  lower_expression-Returns c (unary_expr op operand) w hb =
      Returns-bind c IsValue IsValue _ _ (lower_expression-Returns c operand w hb) λ a d wd x p.
        emit_operator-Returns d (unary_op_to_ir_op op) (a ∷ []) a wd (omega (arith, x.blocks_kept))
          (p, tt) p

  pub lower_operand-Returns :
      (c : LoweringContext) (o : Operand)
      → IsWellFormed c
      → HasBlock c block
      → Returns c IsValue (lower_operand block o c)
  unfolding lower_operand
  lower_operand-Returns c (variable v) w hb = lower_variable_expression-Returns c v w hb
  lower_operand-Returns c (literal value) w hb = lower_constant_expression-Returns c value w hb
