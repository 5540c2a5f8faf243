-- ===== src/Lowering/Conditions.antt =====
-- `lowerCondition` of src/ir/Lowering.cpp and the branch of src/sim/Simulator.cpp.
use asm_studio.Prelude.{
  String, ℕ, ◌≡◌, refl, ap, ◌∙◌, Bool, true, false, ◌&&◌, none, List, [], ◌∷◌, arith, length,
  if◌then◌else◌, inl,
}
use asm_studio.Support.Types.{DataType}
use asm_studio.Machine.Floats.{Floats}
use asm_studio.Ir.{IrFunction, bool}
use asm_studio.Dsl.Syntax.{Condition, Operand, variable, literal}
use asm_studio.Dsl.Meaning.{Env, operand_expr, condition_meaning, condition_set}
use asm_studio.Sim.Ops.{apply_comparison, is_taken}
use asm_studio.Sim.State.{ok, SimFrame, read_value}
use asm_studio.Sim.Handlers.{handle_branch_op}
use asm_studio.Lowering.Context.{LoweringContext, alloc_value}
use asm_studio.Lowering.Expr.{lower_expression, lower_operand}
use asm_studio.Lowering.Stmt.{branch_instr, lower_condition}
use asm_studio.Lowering.Invariant.{
  IsWellFormed, Extends-trans, Returns, Returns-bind, Returns-map, alloc_value-Returns,
}
use asm_studio.Lowering.Valid.{HasBlock}
use asm_studio.Lowering.ValidStmt.{cmp_instr, cmp_instr-IsValid, branch_instr-IsValid}
use asm_studio.Lowering.Code.{compute}
use asm_studio.Lowering.Instructions.{cmp-Gives}
use asm_studio.Lowering.Emitted.{EmitsCode, EmitsCode-trans, Returns-and, alloc_value-Yields}
use asm_studio.Lowering.ExprMeaning.{
  Agrees, Computes, has_slots, has_slots-names, lower_expression-Computes,
}
use asm_studio.Lowering.Endings.{
  Leads, Leads-step, Ends, Ends-bind, Ends-after, ValueKept, Contains, At, code-Ends, Computes-Ends,
  instr_at-emitted,
}
use asm_studio.Lowering.Growth.{Grows, Grows-trans, EmitsCode-Grows, Contains-Grows, emit-EmitsCode}

-- The variables of a condition have slots.
abbrev pub condition_slots : List (String × ℕ) → Condition → Bool
condition_slots table condition =
    has_slots table (operand_expr condition.left_operand)
    && has_slots table (operand_expr condition.right_operand)

lower_operand-Computes :
    (f : Floats) (block : ℕ) (c : LoweringContext) (o : Operand)
    → IsWellFormed c
    → HasBlock c block
    → has_slots c.variable_table (operand_expr o) ≡ true
    → Returns c (Computes f (operand_expr o) block c) (lower_operand block o c)
unfolding lower_operand lower_expression
lower_operand-Computes f block c (variable v) w hb h =
    lower_expression-Computes f block c (operand_expr (variable v)) w hb h
lower_operand-Computes f block c (literal k) w hb h =
    lower_expression-Computes f block c (operand_expr (literal k)) w hb h

-- A branch on a bool.
branch-Leads :
    (f : Floats) (g : IrFunction) (env : Env) (c d e : LoweringContext) (block id t u : ℕ)
    (b : Bool) (frame : SimFrame)
    → Contains g e
    → EmitsCode block d e (branch_instr id t u ∷ [])
    → At d block frame
    → read_value frame g id ≡ ok (bool b)
    → Agrees env c g frame
    → Leads f g frame
        (λ frame'. (frame'.block ≡ (if b then t else u)) × (frame'.pc ≡ 0) × Agrees env c g frame')
unfolding compute handle_branch_op read_value is_taken
branch-Leads f g env c d e block id t u true frame h k a r ag =
    Leads-step f g frame (record frame { block = t; pc = 0 }) (branch_instr id t u) _
      (instr_at-emitted g d e block (branch_instr id t u) frame h k a) (rw r refl)
      (refl, refl, λ name j value e s. ag name j value e s)
branch-Leads f g env c d e block id t u false frame h k a r ag =
    Leads-step f g frame (record frame { block = u; pc = 0 }) (branch_instr id t u) _
      (instr_at-emitted g d e block (branch_instr id t u) frame h k a) (rw r refl)
      (refl, refl, λ name j value e s. ag name j value e s)

-- At the start of one block or of another.
abbrev pub Branched : Env → LoweringContext → IrFunction → ℕ → ℕ → Bool → SimFrame → Type 0
Branched env c g t u b frame =
    (frame.block ≡ (if b then t else u)) × (frame.pc ≡ 0) × Agrees env c g frame

-- Code at the end of the block that goes to the start of one block or of another.
pub record Tests (f : Floats) (condition : Condition) (t u block : ℕ) (c d : LoweringContext)
    : Type 0 where
  pub grows : Grows block c d
  pub tests :
      (g : IrFunction) (env : Env) (frame : SimFrame)
      → Contains g d
      → condition_set env condition ≡ true
      → At c block frame
      → Agrees env c g frame
      → Ends f g frame (condition_meaning f env condition) (Branched env c g t u)

pub Agrees-names :
    (env : Env) (c d : LoweringContext) (g : IrFunction) (frame : SimFrame)
    → d.variable_table ≡ c.variable_table
    → Agrees env d g frame
    → Agrees env c g frame
Agrees-names env c d g frame e h =
    λ name id value k s. h name id value (ap (asm_studio.Lowering.Context.lookup_name name) e ∙ k) s

-- The code of a condition: its operands, a comparison, and a branch.
assembled-Tests :
    (f : Floats) (block : ℕ) (condition : Condition) (t u a b v : ℕ) (c d e l m : LoweringContext)
    → IsWellFormed c
    → IsWellFormed d
    → IsWellFormed e
    → Computes f (operand_expr condition.left_operand) block c a d
    → Computes f (operand_expr condition.right_operand) block d b e
    → v ≡ length e.function.values
    → EmitsCode block e l (cmp_instr condition.comparison_kind a b v ∷ [])
    → EmitsCode block l m (branch_instr v t u ∷ [])
    → Grows block c d
    → Grows block d e
    → Grows block e l
    → Grows block l m
    → Tests f condition t u block c m
unfolding condition_meaning
assembled-Tests f block condition t u a b v c d e l m wc wd we p q ev emitted branch gd ge gl gm =
    record {
      grows = Grows-trans block block c d m (inl refl) gd (
          Grows-trans block block d e m (inl refl) ge
            (Grows-trans block block e l m (inl refl) gl gm));
      tests = λ g env frame h s at ag.
          let hl : Contains g l = Contains-Grows g block l m gm h in
          let he : Contains g e = Contains-Grows g block e l gl hl in
          let hd : Contains g d = Contains-Grows g block d e ge he in
          Ends-bind f g frame _ _ (ValueKept env block c d a g frame) (Branched env c g t u)
            (Computes-Ends f g env (operand_expr condition.left_operand) block c d a frame wc p hd
              (ground (arith, s)) at ag)
            λ x frame1 r1.
              Ends-bind f g frame1 _ _ (ValueKept env block d e b g frame1) (Branched env c g t u)
                (Computes-Ends f g env (operand_expr condition.right_operand) block d e b frame1 wd
                  q he (ground (arith, s)) r1.0.0 r1.0.1)
                λ y frame2 r2.
                  let (n, frame3, w3, r3) =
                    code-Ends f g env block e l v (cmp_instr condition.comparison_kind a b v ∷ [])
                      (ok (bool (apply_comparison f condition.comparison_kind x y))) frame2 we refl
                      emitted hl r2.0.0 r2.0.1
                      (cmp-Gives f g frame2 (length e.function.values) a b v
                        condition.comparison_kind x y (omega (arith, ev)) (r2.1 a p.3 ∙ r1.0.2)
                        r2.0.2) in
                  Ends-after f g frame2 frame3 n
                    (ok (apply_comparison f condition.comparison_kind x y)) (Branched env c g t u)
                    w3
                    (branch-Leads f g env c l m block v t u
                      (apply_comparison f condition.comparison_kind x y) frame3 h branch r3.0.0
                      r3.0.2
                      (Agrees-names env c l g frame3 (gl.names ∙ ge.names ∙ gd.names) r3.0.1));
    }

pub lower_condition-Tests :
    (f : Floats) (c : LoweringContext) (block : ℕ) (condition : Condition) (t u : ℕ)
    → IsWellFormed c
    → HasBlock c block
    → HasBlock c t
    → HasBlock c u
    → condition_slots c.variable_table condition ≡ true
    → Returns c (λ x d. Tests f condition t u block c d) (lower_condition block condition t u c)
unfolding lower_condition condition_meaning
lower_condition-Tests f c block condition t u w hb ht hu h =
    Returns-bind c _ (λ x d. Tests f condition t u block c d) _ _
      (lower_operand-Computes f block c condition.left_operand w hb (ground (arith, h)))
      λ a d wd x p.
        Returns-bind d _ (λ z d'. Tests f condition t u block c d') _ _
          (lower_operand-Computes f block d condition.right_operand wd
            (omega (arith, x.blocks_kept, hb))
            (has_slots-names c d (operand_expr condition.right_operand) p.2.names
              ∙ ground (arith, h)))
          λ b e we y q.
            Returns-bind e _ (λ z d'. Tests f condition t u block c d') _ _
              (Returns-and e _ _ _ (alloc_value-Returns e we DataType.bool none)
                (alloc_value-Yields e we block DataType.bool none))
              λ v k wk z r.
                Returns-bind k
                  (λ z d'. EmitsCode block k d' (cmp_instr condition.comparison_kind a b v ∷ []))
                  (λ z d'. Tests f condition t u block c d') _ _
                  (emit-EmitsCode k block (cmp_instr condition.comparison_kind a b v) wk
                    (omega (arith, x.blocks_kept, y.blocks_kept, z.blocks_kept, hb))
                    (cmp_instr-IsValid condition.comparison_kind k v a b r.0.0 r.0.1
                      (omega (arith, p.3, y.values_kept, z.values_kept))
                      (omega (arith, q.3, z.values_kept))))
                  λ u1 l wl x4 s.
                    Returns-map l (λ z d'. EmitsCode block l d' (branch_instr v t u ∷ []))
                      (λ z d'. Tests f condition t u block c d') _
                      (emit-EmitsCode l block (branch_instr v t u) wl
                        (omega
                          (arith, x.blocks_kept, y.blocks_kept, z.blocks_kept, x4.blocks_kept, hb))
                        (branch_instr-IsValid l v t u (omega (arith, r.0.0, x4.values_kept))
                          (omega (
                            arith, x.blocks_kept, y.blocks_kept, z.blocks_kept, x4.blocks_kept, ht,
                          ))
                          (omega (
                            arith, x.blocks_kept, y.blocks_kept, z.blocks_kept, x4.blocks_kept, hu,
                          ))))
                      λ u2 m wm x5 s'.
                        let emitted : EmitsCode block e l
                            (cmp_instr condition.comparison_kind a b v ∷ []) =
                          EmitsCode-trans block e k l [] _ r.1.1 s in
                        (assembled-Tests f block condition t u a b v c d e l m w wd we p q r.1.0
                          emitted s' (EmitsCode-Grows block c d _ hb x p.2)
                          (EmitsCode-Grows block d e _ (omega (arith, x.blocks_kept, hb)) y q.2)
                          (EmitsCode-Grows block e l _
                            (omega (arith, x.blocks_kept, y.blocks_kept, hb))
                            (Extends-trans e k l z x4) emitted)
                          (EmitsCode-Grows block l m _
                            (omega (
                              arith, x.blocks_kept, y.blocks_kept, z.blocks_kept, x4.blocks_kept,
                              hb,
                            ))
                            x5 s'))
