-- ===== src/Lowering/ValidStmt.antt =====
-- src/ir/Lowering.cpp: results and invariant for statements without a body.
use asm_studio.Prelude.{
  ℕ, ◌<◌, ◌≡◌, refl, true, Option, none, some, List, [], ◌∷◌, String, arith, length, All, is_some,
}
use mathlib.Core.Path.{subst}
use mathlib.Core.Option.{some-injective}
use asm_studio.Support.Types.{DataType, CmpKind}
use asm_studio.Ir.{IrOp, IrInstr, constant_at, empty_instr}
use asm_studio.Dsl.Syntax.{Variable, Condition, ExprNode}
use asm_studio.Lowering.Context.{
  Lowered, LoweringContext, lookup_variable, lookup_name, value_of, then_do, emit,
}
use asm_studio.Lowering.Expr.{operator_instr}
use asm_studio.Lowering.Stmt.{
  jump_instr, branch_instr, lower_condition, lower_assign_statement, lower_return_statement,
  lower_arguments, lower_call_statement,
}
use asm_studio.Lowering.Invariant.{
  IsValidInstr, IsWellFormed, Extends-refl, Returns, Returns-bind, alloc_value-Returns,
}
use asm_studio.Lowering.Operations.{emit-Returns}
use asm_studio.Lowering.Valid.{
  IsValue, HasBlock, operator_instr-IsValid, lower_expression-Returns, lower_operand-Returns,
}

abbrev pub IsBlock : ℕ → LoweringContext → Type 0
IsBlock id d = HasBlock d id

-- An instruction without an output refers to what is there.
pub no_output-IsValid :
    (blocks : ℕ) (c : LoweringContext) (i : IrInstr)
    → i.output ≡ none
    → All (λ v. v < length c.function.values) i.inputs
    → ((t : ℕ) → i.true_target ≡ some t → t < blocks)
    → ((t : ℕ) → i.false_target ≡ some t → t < blocks)
    → IsValidInstr blocks c.function.values i
no_output-IsValid blocks c i e hi ht hf = record {
  inputs = hi;
  output = λ o k. cc;
  true_target = ht;
  false_target = hf;
  sound = λ o k h. cc;
}

pub jump_instr-IsValid :
    (c : LoweringContext) (target : ℕ)
    → HasBlock c target
    → IsValidInstr (length c.function.blocks) c.function.values (jump_instr target)
jump_instr-IsValid c target h =
    no_output-IsValid (length c.function.blocks) c (jump_instr target) refl tt
      (λ t e. subst (HasBlock c) (some-injective target t e) h) (λ t e. cc)

pub branch_instr-IsValid :
    (c : LoweringContext) (condition then_target else_target : ℕ)
    → condition < length c.function.values
    → HasBlock c then_target
    → HasBlock c else_target
    → IsValidInstr
        (length c.function.blocks)
        c.function.values
        (branch_instr condition then_target else_target)
branch_instr-IsValid c condition then_target else_target h ht he =
    no_output-IsValid (length c.function.blocks) c (branch_instr condition then_target else_target)
      refl (h, tt) (λ t e. subst (HasBlock c) (some-injective then_target t e) ht)
      (λ t e. subst (HasBlock c) (some-injective else_target t e) he)

abbrev pub cmp_instr : CmpKind → ℕ → ℕ → ℕ → IrInstr
cmp_instr kind a b output = record (operator_instr IrOp.cmp (a ∷ b ∷ []) output) {
  cmp_kind = some kind;
}

pub cmp_instr-IsValid :
    (kind : CmpKind) (g : LoweringContext) (v a b : ℕ)
    → v < length g.function.values
    → constant_at g.function.values v ≡ none
    → a < length g.function.values
    → b < length g.function.values
    → IsValidInstr (length g.function.blocks) g.function.values (cmp_instr kind a b v)
cmp_instr-IsValid kind g v a b hv k ha hb =
    let o : IsValidInstr (length g.function.blocks) g.function.values
        (operator_instr IrOp.cmp (a ∷ b ∷ []) v) =
      operator_instr-IsValid g IrOp.cmp (a ∷ b ∷ []) v (ha, (hb, tt)) hv k in
    record {
      inputs = o.inputs;
      output = o.output;
      true_target = o.true_target;
      false_target = o.false_target;
      sound = o.sound;
    }

pub lower_condition-Returns :
    (c : LoweringContext) (block : ℕ) (condition : Condition) (then_target else_target : ℕ)
    → IsWellFormed c
    → HasBlock c block
    → HasBlock c then_target
    → HasBlock c else_target
    → Returns c (λ u d. Unit) (lower_condition block condition then_target else_target c)
unfolding lower_condition
lower_condition-Returns c block condition then_target else_target w hb ht he =
    Returns-bind c IsValue (λ u d. Unit) _ _
      (lower_operand-Returns block c condition.left_operand w hb)
      λ a d wd x p.
        Returns-bind d IsValue (λ u e. Unit) _ _
          (lower_operand-Returns block d condition.right_operand wd (omega (arith, x.blocks_kept)))
          λ b e we y q.
            Returns-bind e _ (λ u g. Unit) _ _ (alloc_value-Returns e we DataType.bool none)
              λ v g wg z r.
                Returns-bind g (λ u h. Unit) (λ u h. Unit) _ _
                  (emit-Returns g wg block _
                    (omega (arith, x.blocks_kept, y.blocks_kept, z.blocks_kept))
                    (cmp_instr-IsValid condition.comparison_kind g v a b r.0 r.1
                      (omega (arith, p, y.values_kept, z.values_kept))
                      (omega (arith, q, z.values_kept))))
                  λ u h wh k l.
                    emit-Returns h wh block (branch_instr v then_target else_target)
                      (omega (arith, x.blocks_kept, y.blocks_kept, z.blocks_kept, k.blocks_kept))
                      (branch_instr-IsValid h v then_target else_target
                        (omega (arith, r.0, k.values_kept))
                        (omega (arith, x.blocks_kept, y.blocks_kept, z.blocks_kept, k.blocks_kept))
                        (omega (arith, x.blocks_kept, y.blocks_kept, z.blocks_kept, k.blocks_kept)))

pub lower_assign_statement-Returns :
    (c : LoweringContext) (block : ℕ) (target : Variable) (value : ExprNode)
    → IsWellFormed c
    → HasBlock c block
    → is_some (lookup_name target.name c.variable_table) ≡ true
    → Returns c IsBlock (lower_assign_statement block target value c)
unfolding lower_assign_statement lookup_variable
lower_assign_statement-Returns c block target value w hb declared =
    Returns-bind c IsValue IsBlock _ _ (lower_expression-Returns block c value w hb) λ a d wd x p.
      slot d a wd (omega (arith, x.blocks_kept)) p (lookup_name target.name d.variable_table) refl
        (x.names_kept target.name declared)
  where
    slot :
        (d : LoweringContext) (a : ℕ)
        → IsWellFormed d
        → HasBlock d block
        → a < length d.function.values
        → (id : Option ℕ) → lookup_name target.name d.variable_table ≡ id
        → is_some (lookup_name target.name d.variable_table) ≡ true
        → Returns d IsBlock (
            then_do (value_of id d) (λ s e.
              then_do
                (emit block (operator_instr IrOp.copy (a ∷ []) s) e)
                (λ u g. Lowered.ok (block, g))))
    slot d a wd h p none e k = cc
    slot d a wd h p (some s) e k =
        Returns-bind d (λ u g. Unit) IsBlock _ _
          (emit-Returns d wd block (operator_instr IrOp.copy (a ∷ []) s) h (
            operator_instr-IsValid d IrOp.copy (a ∷ []) s (p, tt) (wd.slots target.name s e).0
              (wd.slots target.name s e).1))
          λ u g wg y q. (wg, Extends-refl g, omega (arith, y.blocks_kept))

pub lower_return_statement-Returns :
    (c : LoweringContext) (block : ℕ) (value : Option ExprNode)
    → IsWellFormed c
    → HasBlock c block
    → Returns c IsBlock (lower_return_statement block value c)
unfolding lower_return_statement
lower_return_statement-Returns c block none w hb =
    Returns-bind c (λ u g. Unit) IsBlock _ _
      (emit-Returns c w block (empty_instr IrOp.ret) hb
        (no_output-IsValid _ c (empty_instr IrOp.ret) refl tt (λ t e. cc) (λ t e. cc)))
      λ u d wd x p. (wd, Extends-refl d, omega (arith, x.blocks_kept))
lower_return_statement-Returns c block (some value) w hb =
    Returns-bind c IsValue IsBlock _ _ (lower_expression-Returns block c value w hb) λ a d wd x p.
      Returns-bind d (λ u g. Unit) IsBlock _ _
        (emit-Returns d wd block (record (empty_instr IrOp.ret) { inputs = a ∷ [] })
          (omega (arith, x.blocks_kept))
          (no_output-IsValid _ d (record (empty_instr IrOp.ret) { inputs = a ∷ [] }) refl (p, tt)
            (λ t e. cc) (λ t e. cc)))
        λ u e we y q. (we, Extends-refl e, omega (arith, x.blocks_kept, y.blocks_kept))

abbrev AreValues : List ℕ → LoweringContext → Type 0
AreValues ids d = All (λ v. v < length d.function.values) ids

pub lower_arguments-Returns :
    (c : LoweringContext) (block : ℕ) (arguments : List ExprNode)
    → IsWellFormed c
    → HasBlock c block
    → Returns c AreValues (lower_arguments block arguments c)
unfolding lower_arguments
lower_arguments-Returns c block [] w hb = (w, Extends-refl c, tt)
lower_arguments-Returns c block (argument ∷ arguments) w hb =
    Returns-bind c IsValue AreValues _ _ (lower_expression-Returns block c argument w hb)
      λ a d wd x p.
        Returns-bind d AreValues AreValues _ _
          (lower_arguments-Returns d block arguments wd (omega (arith, x.blocks_kept)))
          λ ids e we y q. (we, Extends-refl e, (omega (arith, p, y.values_kept), q))

pub lower_call_statement-Returns :
    (c : LoweringContext) (block : ℕ) (callee : String) (arguments : List ExprNode)
    → IsWellFormed c
    → HasBlock c block
    → Returns c IsBlock (lower_call_statement block callee arguments c)
unfolding lower_call_statement
lower_call_statement-Returns c block callee arguments w hb =
    Returns-bind c AreValues IsBlock _ _ (lower_arguments-Returns c block arguments w hb)
      λ ids d wd x p.
        Returns-bind d (λ u g. Unit) IsBlock _ _
          (emit-Returns d wd block
            (record (empty_instr IrOp.call) { callee = some callee; inputs = ids })
            (omega (arith, x.blocks_kept))
            (no_output-IsValid _ d
              (record (empty_instr IrOp.call) { callee = some callee; inputs = ids }) refl p
              (λ t e. cc) (λ t e. cc)))
          λ u e we y q. (we, Extends-refl e, omega (arith, x.blocks_kept, y.blocks_kept))
