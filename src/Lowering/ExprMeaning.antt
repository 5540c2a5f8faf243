-- ===== src/Lowering/ExprMeaning.antt =====
-- src/ir/Lowering.cpp and src/sim/Simulator.cpp: the lowered code of expressions and their meaning.
use asm_studio.Prelude.{
  ℕ, ◌<◌, ◌≡◌, refl, sym, ap, ◌∙◌, Bool, true, ◌&&◌, Option, none, some, List, [], ◌∷◌, ◌++◌,
  String, arith, length, is_some,
}
use asm_studio.Machine.Floats.{Floats}
use asm_studio.Ir.{IrInstr, IrFunction, RegValue}
use asm_studio.Dsl.Syntax.{Variable, ExprNode, const_expr, var_expr, bin_expr, unary_expr}
use asm_studio.Dsl.Meaning.{Env, all_set, value_in, meaning}
use asm_studio.Sim.State.{ok, SimFrame, read_value}
use asm_studio.Lowering.Context.{LoweringContext, lookup_name, lookup_variable}
use asm_studio.Lowering.Expr.{
  lower_expression, lower_variable_expression, existing_or_first, bin_op_to_ir_op,
  unary_op_to_ir_op, const_instr, operator_instr,
}
use asm_studio.Lowering.Invariant.{IsWellFormed, Extends-refl, Returns, Returns-bind, Returns-map}
use asm_studio.Lowering.Valid.{HasBlock}
use asm_studio.Lowering.Code.{run_code, Moved, Gives, Gives-append, is_straight, is_straight-append}
use asm_studio.Lowering.Instructions.{
  const_instr-Gives, binary-Gives, unary-Gives, is_straight_op-binary, is_straight_op-unary,
}
use asm_studio.Lowering.Emitted.{
  EmitsCode, EmitsCode-trans, EmitsCode-nil, emit_operator-EmitsOne,
  lower_constant_expression-EmitsOne,
}

-- Every variable of an expression has a slot.
abbrev pub has_slots : List (String × ℕ) → ExprNode → Bool
has_slots table (const_expr value) = true
has_slots table (var_expr v) = is_some (lookup_name v.name table)
has_slots table (bin_expr op left right) = has_slots table left && has_slots table right
has_slots table (unary_expr op operand) = has_slots table operand

pub has_slots-names :
    (c d : LoweringContext) (e : ExprNode)
    → d.variable_table ≡ c.variable_table
    → has_slots d.variable_table e ≡ has_slots c.variable_table e
has_slots-names c d e h = ap (λ t. has_slots t e) h

-- The slots of a frame hold the values of the variables.
abbrev pub Agrees : Env → LoweringContext → IrFunction → SimFrame → Type 0
Agrees env c g frame =
    (name : String) (id : ℕ) (value : RegValue)
    → lookup_name name c.variable_table ≡ some id
    → env name ≡ some value
    → read_value frame g id ≡ ok value

-- Code at the end of the block, and what it does in each frame that agrees with the variables.
abbrev pub Computes : Floats → ExprNode → ℕ → LoweringContext → ℕ → LoweringContext → Type 0
Computes f e block c id d =
    (code : List IrInstr) × (is_straight code ≡ true)
    × EmitsCode block c d code
    × (id < length d.function.values)
    × ((env : Env) (g : IrFunction) (frame : SimFrame)
        → all_set env e ≡ true
        → Agrees env c g frame
        → Gives g (length c.function.values) (length code) frame id (meaning f env e)
            (run_code f g code frame))

-- Agreement goes on in later frames, and in contexts with the same names.
pub Agrees-Moved :
    (env : Env) (c d : LoweringContext) (g : IrFunction) (n : ℕ) (frame frame' : SimFrame)
    → IsWellFormed c
    → d.variable_table ≡ c.variable_table
    → Moved g (length c.function.values) n frame frame'
    → Agrees env c g frame
    → Agrees env d g frame'
Agrees-Moved env c d g n frame frame' w t m h = λ name id value e s.
    let e' : lookup_name name c.variable_table ≡ some id = sym (ap (lookup_name name) t) ∙ e in
    m.kept id (w.slots name id e').0 ∙ h name id value e' s

module _ (f : Floats) (block : ℕ) where
  variable-Computes :
      (c : LoweringContext) (v : Variable)
      → IsWellFormed c
      → is_some (lookup_name v.name c.variable_table) ≡ true
      → Returns c (Computes f (var_expr v) block c) (lower_variable_expression block v c)
  unfolding lower_variable_expression lookup_variable meaning run_code
  variable-Computes c v w h = go (lookup_name v.name c.variable_table) refl h
    where
      found :
          (env : Env) (g : IrFunction) (frame : SimFrame) (o : Option RegValue)
          → env v.name ≡ o
          → is_some o ≡ true
          → (id : ℕ)
          → ((value : RegValue)
              → lookup_name v.name c.variable_table ≡ some id
              → env v.name ≡ some value
              → read_value frame g id ≡ ok value)
          → lookup_name v.name c.variable_table ≡ some id
          → Gives g (length c.function.values) 0 frame id (value_in o) (ok frame)
      found env g frame none q k id a e = cc
      found env g frame (some value) q k id a e = (
        a value e q,
        record { kept = λ j l. refl; pc = omega arith; block = refl; function_name = refl },
      )

      go :
          (id : Option ℕ)
          → lookup_name v.name c.variable_table ≡ id
          → is_some id ≡ true
          → Returns c (Computes f (var_expr v) block c) (existing_or_first block v id c)
      go none e k = cc
      go (some id) e k = (
        w,
        Extends-refl c,
        (
          [],
          refl,
          EmitsCode-nil block c c refl refl,
          (w.slots v.name id e).0,
          λ env g frame s a.
              found env g frame (env v.name) refl s id (λ value. a v.name id value) e,
        ),
      )

  -- The code of an expression whose variables have slots: lowering returns, puts code at the end of
  -- the block and nothing elsewhere, and in every frame whose slots hold the values of the variables
  -- the handlers of the simulator run that code to the value that the expression means, or to its
  -- error or undefined behaviour, if every variable of it has one; the values that were there before
  -- keep theirs.
  pub lower_expression-Computes :
      (c : LoweringContext) (e : ExprNode)
      → IsWellFormed c
      → HasBlock c block
      → has_slots c.variable_table e ≡ true
      → Returns c (Computes f e block c) (lower_expression block e c)
  unfolding lower_expression meaning
  lower_expression-Computes c (const_expr value) w hb k =
      Returns-map c _ _ _ (lower_constant_expression-EmitsOne block c value w hb) λ id d wd x p. (
        const_instr id value ∷ [],
        refl,
        p.2,
        p.1,
        λ env g frame s a.
            const_instr-Gives f g frame (length c.function.values) id value (omega (arith, p.0)),
      )
  lower_expression-Computes c (var_expr v) w hb k = variable-Computes c v w k
  lower_expression-Computes c (unary_expr op operand) w hb k =
      Returns-bind c _ (Computes f (unary_expr op operand) block c) _ _
        (lower_expression-Computes c operand w hb k)
        λ a d wd x (code, straight, emits, la, gives).
          Returns-map d _ _ _
            (emit_operator-EmitsOne block d (unary_op_to_ir_op op) (a ∷ []) a wd
              (omega (arith, x.blocks_kept, hb)) (la, tt) la)
            λ id e we x' p. (
              code ++ operator_instr (unary_op_to_ir_op op) (a ∷ []) id ∷ [],
              is_straight-append code _ straight (rw (is_straight_op-unary op) refl),
              EmitsCode-trans block c d e _ _ emits p.2,
              p.1,
              λ env g frame s ag.
                  Gives-append f g (length c.function.values) (length d.function.values) a id _ _
                    frame _ _ (omega (arith, x.values_kept)) (gives env g frame s ag)
                    (λ value frame' r m.
                      unary-Gives f g frame' (length d.function.values) a id op value
                        (omega (arith, p.0)) r),
            )
  lower_expression-Computes c (bin_expr op left right) w hb k =
      Returns-bind c _ (Computes f (bin_expr op left right) block c) _ _
        (lower_expression-Computes c left w hb (ground (arith, k)))
        λ a d wd x (code, straight, emits, la, gives).
          Returns-bind d _ (Computes f (bin_expr op left right) block c) _ _
            (lower_expression-Computes d right wd (omega (arith, x.blocks_kept, hb))
              (has_slots-names c d right emits.names ∙ ground (arith, k)))
            λ b e we y (code', straight', emits', lb, gives').
              Returns-map e _ _ _
                (emit_operator-EmitsOne block e (bin_op_to_ir_op op) (a ∷ b ∷ []) a we
                  (omega (arith, x.blocks_kept, y.blocks_kept, hb))
                  (omega (arith, la, y.values_kept), (lb, tt)) (omega (arith, la, y.values_kept)))
                λ id u wu x' p. (
                  code ++ (code' ++ operator_instr (bin_op_to_ir_op op) (a ∷ b ∷ []) id ∷ []),
                  is_straight-append code _ straight
                      (is_straight-append code' _ straight' (rw (is_straight_op-binary op) refl)),
                  EmitsCode-trans block c d u _ _ emits
                      (EmitsCode-trans block d e u _ _ emits' p.2),
                  p.1,
                  λ env g frame s ag.
                      Gives-append f g (length c.function.values) (length d.function.values) a id _
                        _ frame _ _ (omega (arith, x.values_kept))
                        (gives env g frame (ground (arith, s)) ag)
                        (λ vx frame' r m.
                          Gives-append f g (length d.function.values) (length e.function.values) b
                            id _ _ frame' _ _ (omega (arith, y.values_kept))
                            (gives' env g frame' (ground (arith, s))
                              (Agrees-Moved env c d g _ frame frame' w emits.names m ag))
                            (λ vy frame'' r' m'.
                              binary-Gives f g frame'' (length e.function.values) a b id op vx vy
                                (omega (arith, p.0)) (m'.kept a la ∙ r) r')),
                )
