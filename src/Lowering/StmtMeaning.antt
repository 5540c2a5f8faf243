-- ===== src/Lowering/StmtMeaning.antt =====
-- Statements of src/ir/Lowering.cpp: their code in the frames of src/sim/Simulator.cpp.
use mathlib.Core.Path.{subst}
use asm_studio.Prelude.{
  ℕ, zero, suc, ◌≡◌, inl, refl, sym, ap, ◌∙◌, Bool, true, false, ◌&&◌, Option, none, some, List, [],
  ◌∷◌, String, arith, is_some,
}
use asm_studio.Machine.Floats.{Floats}
use asm_studio.Ir.{IrOp, IrFunction}
use asm_studio.Dsl.Syntax.{
  Variable, ExprNode, Stmt, Stmts, nil, cons, assign_stmt, while_stmt, if_stmt, return_stmt,
  call_stmt,
}
use asm_studio.Dsl.Meaning.{Env, Run, all_set, meaning, exec_stmt, exec_stmts}
use asm_studio.Sim.State.{SimFrame}
use asm_studio.Lowering.Context.{
  L, Lowered, LoweringContext, lookup_variable, lookup_name, value_of, then_do, emit,
}
use asm_studio.Lowering.Expr.{operator_instr}
use asm_studio.Lowering.Stmt.{lower_assign_statement, lower_return_statement}
use asm_studio.Lowering.Invariant.{IsWellFormed, Extends, Extends-refl, Returns, Returns-bind}
use asm_studio.Lowering.Valid.{HasBlock, operator_instr-IsValid}
use asm_studio.Lowering.ValidStmt.{no_output-IsValid}
use asm_studio.Lowering.Walks.{walk}
use asm_studio.Lowering.Emitted.{EmitsCode}
use asm_studio.Lowering.ExprMeaning.{Agrees, Computes, has_slots, lower_expression-Computes}
use asm_studio.Lowering.Conditions.{condition_slots}
use asm_studio.Lowering.Endings.{
  Ends-bind, RunEnds, Contains, At, ValueKept, Computes-Ends, instr_at-emitted,
}
use asm_studio.Lowering.Growth.{Grows, Grows-trans, EmitsCode-Grows, Contains-Grows, emit-EmitsCode}
use asm_studio.Lowering.Performs.{
  SignalAt, Performs, Distinct, ret_instr, if_set-RunEnds, copy-Leads,
}

-- Statements without calls whose variables have slots.
abbrev mutual
  pub stmt_slots : List (String × ℕ) → Stmt → Bool
  stmt_slots table (assign_stmt v e) = is_some (lookup_name v.name table) && has_slots table e
  stmt_slots table (while_stmt condition body) =
      condition_slots table condition && stmts_slots table body
  stmt_slots table (if_stmt condition then_body else_body) =
      condition_slots table condition
      && (stmts_slots table then_body && stmts_slots table else_body)
  stmt_slots table (return_stmt none) = true
  stmt_slots table (return_stmt (some e)) = has_slots table e
  stmt_slots table (call_stmt callee arguments) = false

  pub stmts_slots : List (String × ℕ) → Stmts → Bool
  stmts_slots table nil = true
  stmts_slots table (cons s ss) = stmt_slots table s && stmts_slots table ss

pub and_left : (a b : Bool) → (a && b) ≡ true → a ≡ true
and_left a b h = ground (arith, h)

pub and_right : (a b : Bool) → (a && b) ≡ true → b ≡ true
and_right a b h = ground (arith, h)

module _ (f : Floats) where
  -- Lowering that returns code which does what is meant, in each context with these names.
  abbrev pub LowersAs : List (String × ℕ) → (ℕ → Env → Run) → (ℕ → L ℕ) → Type 0
  LowersAs table m lower =
      (c : LoweringContext) (block : ℕ)
      → IsWellFormed c
      → c.variable_table ≡ table
      → HasBlock c block
      → Returns c (Performs f m block c) (lower block c)

  pub assign-LowersAs :
      (table : List (String × ℕ)) (v : Variable) (e : ExprNode)
      → Distinct table
      → is_some (lookup_name v.name table) ≡ true
      → has_slots table e ≡ true
      → LowersAs table
          (λ n env. exec_stmt f n (assign_stmt v e) env)
          (λ block. lower_assign_statement block v e)
  unfolding lower_assign_statement lookup_variable exec_stmt exec_stmts
  assign-LowersAs table v e distinct hv he c block w t hb =
      Returns-bind c (Computes f e block c) (Performs f _ block c) _ _
        (lower_expression-Computes f block c e w hb (ap (λ x. has_slots x e) t ∙ he))
        λ a d wd x p.
          slot d a wd x p (lookup_name v.name d.variable_table) refl
            (ap (λ y. is_some (lookup_name v.name y)) (p.2.names ∙ t) ∙ hv)
    where
      slot :
          (d : LoweringContext) (a : ℕ)
          → IsWellFormed d
          → Extends c d
          → Computes f e block c a d
          → (s : Option ℕ) → lookup_name v.name d.variable_table ≡ s
          → is_some (lookup_name v.name d.variable_table) ≡ true
          → Returns d (Performs f (λ n env. exec_stmt f n (assign_stmt v e) env) block c) (
              then_do (value_of s d) (λ s' e'.
                then_do
                  (emit block (operator_instr IrOp.copy (a ∷ []) s') e')
                  (λ u g. Lowered.ok (block, g))))
      slot d a wd x p none q k = absurd (clash (sym k ∙ ap is_some q))
        where
          clash : true ≡ false → ⊥
          clash z = cc
      slot d a wd x p (some s) q k =
          Returns-bind d (λ u k'. EmitsCode block d k' (operator_instr IrOp.copy (a ∷ []) s ∷ []))
            (Performs f (λ n env. exec_stmt f n (assign_stmt v e) env) block c) _ _
            (emit-EmitsCode d block (operator_instr IrOp.copy (a ∷ []) s) wd
              (omega (arith, x.blocks_kept, hb))
              (operator_instr-IsValid d IrOp.copy (a ∷ []) s (p.3, tt) (wd.slots v.name s q).0
                (wd.slots v.name s q).1))
            λ u k' wk y emits.
              let gd : Grows block c d = EmitsCode-Grows block c d _ hb x p.2 in
              let gk : Grows block d k' =
                EmitsCode-Grows block d k' _ (omega (arith, x.blocks_kept, hb)) y emits in
              (
                wk,
                Extends-refl k',
                record {
                  in_range = omega (arith, x.blocks_kept, y.blocks_kept, hb);
                  goes_to = inl refl;
                  grows = Grows-trans block block c d k' (inl refl) gd gk;
                  performs = λ g n env frame h at ag.
                      assigned d a k' s q wd p gk emits g n env frame h at ag;
                },
              )
        where
          assigned :
              (d : LoweringContext) (a : ℕ) (k' : LoweringContext) (s : ℕ)
              → lookup_name v.name d.variable_table ≡ some s
              → IsWellFormed d
              → Computes f e block c a d
              → Grows block d k'
              → EmitsCode block d k' (operator_instr IrOp.copy (a ∷ []) s ∷ [])
              → (g : IrFunction) (n : ℕ) (env : Env) (frame : SimFrame) → Contains g k'
              → At c block frame
              → Agrees env c g frame
              → RunEnds f g frame (exec_stmt f n (assign_stmt v e) env) (SignalAt g k' block)
          assigned d a k' s q wd p gk emits g zero env frame h at ag = tt
          assigned d a k' s q wd p gk emits g (suc n) env frame h at ag =
              if_set-RunEnds f g frame (all_set env e) _ (SignalAt g k' block) λ set.
                Ends-bind f g frame (meaning f env e) _ (ValueKept env block c d a g frame)
                  (SignalAt g k' block)
                  (Computes-Ends f g env e block c d a frame w p (Contains-Grows g block d k' gk h)
                    set at ag)
                  λ value frame' r.
                    copy-Leads f g env d k' block a s v.name value frame' h emits
                      (subst Distinct (sym (p.2.names ∙ t)) distinct) q r.0.0 r.0.1 r.0.2

  pub return-LowersAs :
      (table : List (String × ℕ)) (value : Option ExprNode)
      → stmt_slots table (return_stmt value) ≡ true
      → LowersAs table
          (λ n env. exec_stmt f n (return_stmt value) env)
          (λ block. lower_return_statement block value)
  unfolding lower_return_statement exec_stmt exec_stmts walk
  return-LowersAs table none h c block w t hb =
      Returns-bind c (λ u d. EmitsCode block c d (ret_instr [] ∷ [])) (Performs f _ block c) _ _
        (emit-EmitsCode c block (ret_instr []) w hb
          (no_output-IsValid _ c (ret_instr []) refl tt (λ t' e. cc) (λ t' e. cc)))
        λ u d wd x emits. (
          wd,
          Extends-refl d,
          record {
            in_range = omega (arith, x.blocks_kept, hb);
            goes_to = inl refl;
            grows = EmitsCode-Grows block c d _ hb x emits;
            performs = λ g n env frame k at ag. done d emits g n env frame k at;
          },
        )
    where
      done :
          (d : LoweringContext)
          → EmitsCode block c d (ret_instr [] ∷ [])
          → (g : IrFunction) (n : ℕ) (env : Env) (frame : SimFrame) → Contains g d
          → At c block frame
          → RunEnds f g frame (exec_stmt f n (return_stmt none) env) (SignalAt g d block)
      done d emits g zero env frame k at = tt
      done d emits g (suc n) env frame k at =
          (0, frame, refl, instr_at-emitted g c d block (ret_instr []) frame k emits at)
  return-LowersAs table (some e) h c block w t hb =
      Returns-bind c (Computes f e block c) (Performs f _ block c) _ _
        (lower_expression-Computes f block c e w hb (ap (λ x. has_slots x e) t ∙ h))
        λ a d wd x p.
          Returns-bind d (λ u k'. EmitsCode block d k' (ret_instr (a ∷ []) ∷ []))
            (Performs f _ block c) _ _
            (emit-EmitsCode d block (ret_instr (a ∷ [])) wd (omega (arith, x.blocks_kept, hb))
              (no_output-IsValid _ d (ret_instr (a ∷ [])) refl (p.3, tt) (λ t' q. cc) (λ t' q. cc)))
            λ u k' wk y emits.
              let gd : Grows block c d = EmitsCode-Grows block c d _ hb x p.2 in
              let gk : Grows block d k' =
                EmitsCode-Grows block d k' _ (omega (arith, x.blocks_kept, hb)) y emits in
              (
                wk,
                Extends-refl k',
                record {
                  in_range = omega (arith, x.blocks_kept, y.blocks_kept, hb);
                  goes_to = inl refl;
                  grows = Grows-trans block block c d k' (inl refl) gd gk;
                  performs = λ g n env frame k at ag. done d a k' p gk emits g n env frame k at ag;
                },
              )
    where
      done :
          (d : LoweringContext) (a : ℕ) (k' : LoweringContext)
          → Computes f e block c a d
          → Grows block d k'
          → EmitsCode block d k' (ret_instr (a ∷ []) ∷ [])
          → (g : IrFunction) (n : ℕ) (env : Env) (frame : SimFrame) → Contains g k'
          → At c block frame
          → Agrees env c g frame
          → RunEnds f g frame (exec_stmt f n (return_stmt (some e)) env) (SignalAt g k' block)
      done d a k' p gk emits g zero env frame k at ag = tt
      done d a k' p gk emits g (suc n) env frame k at ag =
          if_set-RunEnds f g frame (all_set env e) _ (SignalAt g k' block) λ set.
            Ends-bind f g frame (meaning f env e) _ (ValueKept env block c d a g frame)
              (SignalAt g k' block)
              (Computes-Ends f g env e block c d a frame w p (Contains-Grows g block d k' gk k) set
                at ag)
              λ value frame' r. (
                0,
                frame',
                refl,
                (a, instr_at-emitted g d k' block (ret_instr (a ∷ [])) frame' k emits r.0.0, r.0.2),
              )
