-- ===== src/Lowering/Covers.antt =====
-- Statements of src/ir/Lowering.cpp and the names that they use: more names have more slots.
use asm_studio.Prelude.{
  ℕ, ◌≡◌, inl, inr, refl, Bool, true, false, ◌&&◌, none, some, List, [], ◌∷◌, String, str_eq,
  is_some, map, Bool-cases,
}
use asm_studio.Dsl.Syntax.{
  Variable, Condition, ExprNode, const_expr, var_expr, bin_expr, unary_expr, Stmt, Stmts, nil, cons,
  assign_stmt, while_stmt, if_stmt, return_stmt, call_stmt,
}
use asm_studio.Dsl.Meaning.{operand_expr}
use asm_studio.Lowering.Context.{LoweringContext, lookup_name}
use asm_studio.Lowering.Function.{contains_name}
use asm_studio.Lowering.WellFormed.{variable_names}
use asm_studio.Lowering.Total.{Declares}
use asm_studio.Lowering.ExprMeaning.{has_slots}
use asm_studio.Lowering.Conditions.{condition_slots}
use asm_studio.Lowering.StmtMeaning.{stmt_slots, stmts_slots}

-- Each name with a slot in the first table has one in the second.
abbrev pub Covers : List (String × ℕ) → List (String × ℕ) → Type 0
Covers t t' =
    (name : String) → is_some (lookup_name name t) ≡ true → is_some (lookup_name name t') ≡ true

and_both :
    (a b a' b' : Bool)
    → (a ≡ true → a' ≡ true)
    → (b ≡ true → b' ≡ true)
    → (a && b) ≡ true
    → (a' && b') ≡ true
and_both true true a' b' h k e = rw (h refl, k refl) refl
and_both true false a' b' h k e = cc
and_both false b a' b' h k e = cc

has_slots-Covers :
    (e : ExprNode) (t t' : List (String × ℕ))
    → Covers t t'
    → has_slots t e ≡ true
    → has_slots t' e ≡ true
has_slots-Covers (const_expr value) t t' covers h = refl
has_slots-Covers (var_expr v) t t' covers h = covers v.name h
has_slots-Covers (bin_expr op left right) t t' covers h =
    and_both _ _ _ _ (has_slots-Covers left t t' covers) (has_slots-Covers right t t' covers) h
has_slots-Covers (unary_expr op operand) t t' covers h = has_slots-Covers operand t t' covers h

condition_slots-Covers :
    (condition : Condition) (t t' : List (String × ℕ))
    → Covers t t'
    → condition_slots t condition ≡ true
    → condition_slots t' condition ≡ true
condition_slots-Covers condition t t' covers h =
    and_both _ _ _ _ (has_slots-Covers (operand_expr condition.left_operand) t t' covers)
      (has_slots-Covers (operand_expr condition.right_operand) t t' covers) h

mutual
  stmt_slots-Covers :
      (s : Stmt) (t t' : List (String × ℕ))
      → Covers t t'
      → stmt_slots t s ≡ true
      → stmt_slots t' s ≡ true
  stmt_slots-Covers (assign_stmt v e) t t' covers h =
      and_both _ _ _ _ (covers v.name) (has_slots-Covers e t t' covers) h
  stmt_slots-Covers (while_stmt condition body) t t' covers h =
      and_both _ _ _ _ (condition_slots-Covers condition t t' covers)
        (stmts_slots-Covers body t t' covers) h
  stmt_slots-Covers (if_stmt condition then_body else_body) t t' covers h =
      and_both _ _ _ _ (condition_slots-Covers condition t t' covers)
        (and_both _ _ _ _ (stmts_slots-Covers then_body t t' covers)
          (stmts_slots-Covers else_body t t' covers))
        h
  stmt_slots-Covers (return_stmt none) t t' covers h = refl
  stmt_slots-Covers (return_stmt (some e)) t t' covers h = has_slots-Covers e t t' covers h
  stmt_slots-Covers (call_stmt callee arguments) t t' covers h = cc

  pub stmts_slots-Covers :
      (ss : Stmts) (t t' : List (String × ℕ))
      → Covers t t'
      → stmts_slots t ss ≡ true
      → stmts_slots t' ss ≡ true
  stmts_slots-Covers nil t t' covers h = refl
  stmts_slots-Covers (cons s ss) t t' covers h =
      and_both _ _ _ _ (stmt_slots-Covers s t t' covers) (stmts_slots-Covers ss t t' covers) h

-- A table with the names of the variables.
abbrev pub named_table : List Variable → List (String × ℕ)
named_table vars = map (λ (v : Variable). (v.name, 0)) vars

pub named_table-Covers :
    (vars : List Variable) (c : LoweringContext)
    → Declares (variable_names vars) c
    → Covers (named_table vars) c.variable_table
named_table-Covers vars c h name k = h name (contained vars k)
  where
    contained :
        (vars : List Variable)
        → is_some (lookup_name name (named_table vars)) ≡ true
        → contains_name name (variable_names vars) ≡ true
    contained [] k = cc
    contained (v ∷ vars) k = elim (Bool-cases (str_eq v.name name)) [
      | inl e ↦ rw e refl
      | inr e ↦ rw e (contained vars (rw e at k))
    ]
