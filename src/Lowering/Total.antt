-- ===== src/Lowering/Total.antt =====
-- src/ir/Lowering.cpp: results and invariant for loops, branches and lists of statements.
use asm_studio.Prelude.{ℕ, ◌≡◌, Bool, true, ◌&&◌, List, String, arith, is_some}
use asm_studio.Dsl.Syntax.{
  Condition, Stmt, Stmts, nil, cons, assign_stmt, while_stmt, if_stmt, return_stmt, call_stmt,
}
use asm_studio.Lowering.Context.{L, Lowered, LoweringContext, lookup_name, ◌>>=◌, ◌>>◌, then_do}
use asm_studio.Lowering.Stmt.{
  jump_instr, lower_while_statement, lower_if_statement, lower_statement, lower_statements,
}
use asm_studio.Lowering.Function.{contains_name}
use asm_studio.Lowering.Invariant.{
  IsWellFormed, Extends, Extends-refl, Returns, Returns-bind, next_loop_index-Returns,
  next_if_index-Returns,
}
use asm_studio.Lowering.Operations.{alloc_block-Returns, emit-Returns}
use asm_studio.Lowering.Valid.{HasBlock}
use asm_studio.Lowering.ValidStmt.{
  IsBlock, jump_instr-IsValid, lower_condition-Returns, lower_assign_statement-Returns,
  lower_return_statement-Returns, lower_call_statement-Returns,
}

-- The names have slots.
abbrev pub Declares : List String → LoweringContext → Type 0
Declares names c =
    (name : String)
    → contains_name name names ≡ true
    → is_some (lookup_name name c.variable_table) ≡ true

pub Declares-Extends :
    (names : List String) (c d : LoweringContext)
    → Extends c d
    → Declares names c
    → Declares names d
Declares-Extends names c d x h name k = x.names_kept name (h name k)

-- Every assignment is to one of the names.
unfoldable mutual
  pub assigns_to : List String → Stmt → Bool
  assigns_to names (assign_stmt target value) = contains_name target.name names
  assigns_to names (while_stmt condition body) = all_assign_to names body
  assigns_to names (if_stmt condition then_body else_body) =
      all_assign_to names then_body && all_assign_to names else_body
  assigns_to names (return_stmt value) = true
  assigns_to names (call_stmt callee arguments) = true

  pub all_assign_to : List String → Stmts → Bool
  all_assign_to names nil = true
  all_assign_to names (cons s ss) = assigns_to names s && all_assign_to names ss

and_left : (a b : Bool) → (a && b) ≡ true → a ≡ true
and_left a b h = ground (arith, h)

and_right : (a b : Bool) → (a && b) ≡ true → b ≡ true
and_right a b h = ground (arith, h)

module _ (names : List String) (label : String → ℕ → String) where
  abbrev BodyReturns : (ℕ → L ℕ) → Type 0
  BodyReturns lower_body =
      (d : LoweringContext) (block : ℕ)
      → IsWellFormed d
      → Declares names d
      → HasBlock d block
      → Returns d IsBlock (lower_body block d)

  jump-Returns :
      (c : LoweringContext) (block target : ℕ)
      → IsWellFormed c
      → HasBlock c block
      → HasBlock c target
      → Returns c (λ u d. Unit) (asm_studio.Lowering.Context.emit block (jump_instr target) c)
  jump-Returns c block target w h k =
      emit-Returns c w block (jump_instr target) h (jump_instr-IsValid c target k)

  -- What follows the three blocks of a loop.
  lower_while_statement-Returns :
      (c : LoweringContext) (block : ℕ) (condition : Condition) (lower_body : ℕ → L ℕ)
      → IsWellFormed c
      → Declares names c
      → HasBlock c block
      → BodyReturns lower_body
      → Returns c IsBlock (lower_while_statement label block condition lower_body c)
  unfolding lower_while_statement
  lower_while_statement-Returns c block condition lower_body w hd hb body =
      Returns-bind c (λ n d. Unit) IsBlock _ _ (next_loop_index-Returns c w)
        λ n c1 w1 x1 p1.
          Returns-bind c1 _ IsBlock _ _ (alloc_block-Returns c1 w1 _) λ cond c2 w2 x2 p2.
            Returns-bind c2 _ IsBlock _ _ (alloc_block-Returns c2 w2 _) λ loop c3 w3 x3 p3.
              Returns-bind c3 _ IsBlock _ _ (alloc_block-Returns c3 w3 _) λ after c4 w4 x4 p4.
                let h4 : (b : ℕ) → HasBlock c b → HasBlock c4 b = λ b h.
                  omega (arith, x1.blocks_kept, x2.blocks_kept, x3.blocks_kept, x4.blocks_kept) in
                Returns-bind c4 (λ u d. Unit) IsBlock _ _
                  (jump-Returns c4 block cond w4 (h4 block hb)
                    (omega (arith, p2.0, x3.blocks_kept, x4.blocks_kept)))
                  λ u5 c5 w5 x5 p5.
                    Returns-bind c5 (λ u d. Unit) IsBlock _ _
                      (lower_condition-Returns c5 cond condition loop after w5
                        (omega (arith, p2.0, x3.blocks_kept, x4.blocks_kept, x5.blocks_kept))
                        (omega (arith, p3.0, x4.blocks_kept, x5.blocks_kept))
                        (omega (arith, p4.0, x5.blocks_kept)))
                      λ u6 c6 w6 x6 p6.
                        let d6 : Declares names c6 = λ name k. x6.names_kept name (
                          x5.names_kept name (
                            x4.names_kept name (
                              x3.names_kept name
                                (x2.names_kept name (x1.names_kept name (hd name k)))))) in
                        Returns-bind c6 IsBlock IsBlock _ _
                          (body c6 loop w6 d6
                            (omega (arith, p3.0, x4.blocks_kept, x5.blocks_kept, x6.blocks_kept)))
                          λ end c7 w7 x7 p7.
                            Returns-bind c7 (λ u d. Unit) IsBlock _ _
                              (jump-Returns c7 end cond w7 p7 (
                                omega (
                                  arith, p2.0, x3.blocks_kept, x4.blocks_kept, x5.blocks_kept,
                                  x6.blocks_kept, x7.blocks_kept,
                                )))
                              λ u8 c8 w8 x8 p8. (
                                w8,
                                Extends-refl c8,
                                omega (
                                  arith, p4.0, x5.blocks_kept, x6.blocks_kept, x7.blocks_kept,
                                  x8.blocks_kept,
                                ),
                              )

  lower_if_statement-Returns :
      (c : LoweringContext) (block : ℕ) (condition : Condition) (lower_then lower_else : ℕ → L ℕ)
      → IsWellFormed c
      → Declares names c
      → HasBlock c block
      → BodyReturns lower_then
      → BodyReturns lower_else
      → Returns c IsBlock (lower_if_statement label block condition lower_then lower_else c)
  unfolding lower_if_statement
  lower_if_statement-Returns c block condition lower_then lower_else w hd hb then_body else_body =
      Returns-bind c (λ n d. Unit) IsBlock _ _ (next_if_index-Returns c w)
        λ n c1 w1 x1 p1.
          Returns-bind c1 _ IsBlock _ _ (alloc_block-Returns c1 w1 _) λ b2 c2 w2 x2 p2.
            Returns-bind c2 _ IsBlock _ _ (alloc_block-Returns c2 w2 _) λ b3 c3 w3 x3 p3.
              Returns-bind c3 _ IsBlock _ _ (alloc_block-Returns c3 w3 _) λ merge c4 w4 x4 p4.
                Returns-bind c4 (λ u d. Unit) IsBlock _ _
                  (lower_condition-Returns c4 block condition b2 b3 w4
                    (omega (arith, x1.blocks_kept, x2.blocks_kept, x3.blocks_kept, x4.blocks_kept))
                    (omega (arith, p2.0, x3.blocks_kept, x4.blocks_kept))
                    (omega (arith, p3.0, x4.blocks_kept)))
                  λ u5 c5 w5 x5 p5.
                    let d5 : Declares names c5 = λ name k. x5.names_kept name (
                      x4.names_kept name (
                        x3.names_kept name
                          (x2.names_kept name (x1.names_kept name (hd name k))))) in
                    Returns-bind c5 IsBlock IsBlock _ _
                      (then_body c5 b2 w5 d5
                        (omega (arith, p2.0, x3.blocks_kept, x4.blocks_kept, x5.blocks_kept)))
                      λ end c6 w6 x6 p6.
                        Returns-bind c6 (λ u d. Unit) IsBlock _ _
                          (jump-Returns c6 end merge w6 p6
                            (omega (arith, p4.0, x5.blocks_kept, x6.blocks_kept)))
                          λ u7 c7 w7 x7 p7.
                            Returns-bind c7 IsBlock IsBlock _ _
                              (else_body c7 b3 w7
                                (λ name k. x7.names_kept name (x6.names_kept name (d5 name k)))
                                (omega (
                                  arith, p3.0, x4.blocks_kept, x5.blocks_kept, x6.blocks_kept,
                                  x7.blocks_kept,
                                )))
                              λ end' c8 w8 x8 p8.
                                Returns-bind c8 (λ u d. Unit) IsBlock _ _
                                  (jump-Returns c8 end' merge w8 p8 (
                                    omega (
                                      arith, p4.0, x5.blocks_kept, x6.blocks_kept, x7.blocks_kept,
                                      x8.blocks_kept,
                                    )))
                                  λ u9 c9 w9 x9 p9. (
                                    w9,
                                    Extends-refl c9,
                                    omega (
                                      arith, p4.0, x5.blocks_kept, x6.blocks_kept, x7.blocks_kept,
                                      x8.blocks_kept, x9.blocks_kept,
                                    ),
                                  )

mutual
  unfolding lower_statement lower_statements assigns_to all_assign_to

  lower_statement-Returns :
      (s : Stmt) (names : List String) (label : String → ℕ → String)
      → assigns_to names s ≡ true
      → BodyReturns names label (lower_statement label s)
  lower_statement-Returns (assign_stmt target value) names label h d block w hd hb =
      lower_assign_statement-Returns d block target value w hb (hd target.name h)
  lower_statement-Returns (while_stmt condition body) names label h d block w hd hb =
      lower_while_statement-Returns names label d block condition (lower_statements label body) w hd
        hb (lower_statements-Returns body names label h)
  lower_statement-Returns (if_stmt condition then_body else_body) names label h d block w hd hb =
      lower_if_statement-Returns names label d block condition (lower_statements label then_body)
        (lower_statements label else_body) w hd hb
        (lower_statements-Returns then_body names label (and_left _ _ h))
        (lower_statements-Returns else_body names label (and_right _ _ h))
  lower_statement-Returns (return_stmt value) names label h d block w hd hb =
      lower_return_statement-Returns d block value w hb
  lower_statement-Returns (call_stmt callee arguments) names label h d block w hd hb =
      lower_call_statement-Returns d block callee arguments w hb

  lower_statements-Returns :
      (ss : Stmts) (names : List String) (label : String → ℕ → String)
      → all_assign_to names ss ≡ true
      → BodyReturns names label (lower_statements label ss)
  lower_statements-Returns nil names label h d block w hd hb = (w, Extends-refl d, hb)
  lower_statements-Returns (cons s ss) names label h d block w hd hb =
      Returns-bind d IsBlock IsBlock _ _
        (lower_statement-Returns s names label (and_left _ _ h) d block w hd hb)
        λ b e we x p.
          lower_statements-Returns ss names label (and_right _ _ h) e b we
            (Declares-Extends names d e x hd) p

-- Lowering statements returns a block of the function.
pub lower_statements-Returns' :
    (ss : Stmts) (names : List String) (label : String → ℕ → String) (d : LoweringContext)
    (block : ℕ)
    → all_assign_to names ss ≡ true
    → IsWellFormed d
    → Declares names d
    → HasBlock d block
    → Returns d IsBlock (lower_statements label ss block d)
lower_statements-Returns' ss names label d block h w hd hb =
    lower_statements-Returns ss names label h d block w hd hb
