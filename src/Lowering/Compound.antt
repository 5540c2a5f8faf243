-- ===== src/Lowering/Compound.antt =====
-- Loops and branches of src/ir/Lowering.cpp: their code in the frames of src/sim/Simulator.cpp.
use asm_studio.Prelude.{ℕ, ◌≡◌, ap, ◌∙◌, true, false, List, [], ◌∷◌, String, arith}
use asm_studio.Machine.Floats.{Floats}
use asm_studio.Dsl.Syntax.{Condition, Stmts, while_stmt}
use asm_studio.Dsl.Meaning.{
  if_set, on_condition, condition_set, condition_meaning, exec_stmt, exec_stmts,
}
use asm_studio.Lowering.Context.{LoweringContext}
use asm_studio.Lowering.Stmt.{
  jump_instr, lower_while_statement, lower_if_statement, lower_statements,
}
use asm_studio.Lowering.Invariant.{Extends-refl, Returns-bind}
use asm_studio.Lowering.Valid.{HasBlock}
use asm_studio.Lowering.ValidStmt.{jump_instr-IsValid}
use asm_studio.Lowering.Emitted.{EmitsCode}
use asm_studio.Lowering.Conditions.{condition_slots, Tests, lower_condition-Tests}
use asm_studio.Lowering.Growth.{
  EmitsCode-Grows, emit-EmitsCode, NewBlock, alloc_block-NewBlock, next_loop_index-Grows,
  next_if_index-Grows,
}
use asm_studio.Lowering.Performs.{Performs}
use asm_studio.Lowering.Branching.{ThreeBlocks, three_new_blocks, assembled-if}
use asm_studio.Lowering.Looping.{assembled-while}
use asm_studio.Lowering.StmtMeaning.{LowersAs}

module _ (f : Floats) (label : String → ℕ → String) (table : List (String × ℕ)) where
  pub while-LowersAs :
      (condition : Condition) (body : Stmts)
      → condition_slots table condition ≡ true
      → LowersAs f table (λ n env. exec_stmts f n body env) (lower_statements label body)
      → LowersAs f table
          (λ n env. exec_stmt f n (while_stmt condition body) env)
          (λ block. lower_while_statement label block condition (lower_statements label body))
  unfolding lower_while_statement
  while-LowersAs condition body hc lowers c block w t hb =
      let P : ℕ → LoweringContext → Type 0 =
        Performs f (λ n env. exec_stmt f n (while_stmt condition body) env) block c in
      Returns-bind c _ P _ _ (next_loop_index-Grows c block w) λ i c1 w1 x1 p1.
        Returns-bind c1 (NewBlock block c1) P _ _ (alloc_block-NewBlock c1 block _ w1)
          λ x c2 w2 x2 p2.
            Returns-bind c2 (NewBlock block c2) P _ _ (alloc_block-NewBlock c2 block _ w2)
              λ y c3 w3 x3 p3.
                Returns-bind c3 (NewBlock block c3) P _ _ (alloc_block-NewBlock c3 block _ w3)
                  λ z c4 w4 x4 p4.
                    let new : ThreeBlocks block c x y z c4 =
                      three_new_blocks block x y z c c1 c2 c3 c4 p1.0 p1.1 p2 p3 p4 in
                    let hb4 : HasBlock c4 block = omega (arith, hb, new.counted) in
                    Returns-bind c4 (λ u d. EmitsCode block c4 d (jump_instr x ∷ [])) P _ _
                      (emit-EmitsCode c4 block (jump_instr x) w4 hb4
                        (jump_instr-IsValid c4 x (omega (arith, new.first, new.counted))))
                      λ u5 c5 w5 x5 jump.
                        Returns-bind c5 (λ u d. Tests f condition y z x c5 d) P _ _
                          (lower_condition-Tests f c5 x condition y z w5
                            (omega (arith, new.first, new.counted, x5.blocks_kept))
                            (omega (arith, new.second, new.counted, x5.blocks_kept))
                            (omega (arith, new.third, new.counted, x5.blocks_kept))
                            (ap (λ q. condition_slots q condition)
                                (jump.names ∙ new.grows.names ∙ t)
                              ∙ hc))
                          λ u6 c6 w6 x6 test.
                            Returns-bind c6 (Performs f (λ n env. exec_stmts f n body env) y c6) P _
                              _
                              (lowers c6 y w6 (test.grows.names ∙ jump.names ∙ new.grows.names ∙ t)
                                (omega
                                  (arith, new.second, new.counted, x5.blocks_kept, x6.blocks_kept)))
                              λ end c7 w7 x7 p.
                                Returns-bind c7 (λ u d. EmitsCode end c7 d (jump_instr x ∷ [])) P _
                                  _
                                  (emit-EmitsCode c7 end (jump_instr x) w7 p.in_range (
                                    jump_instr-IsValid c7 x (
                                      omega (
                                        arith, new.first, new.counted, x5.blocks_kept,
                                        x6.blocks_kept, x7.blocks_kept,
                                      ))))
                                  λ u8 c8 w8 x8 back. (
                                    w8,
                                    Extends-refl c8,
                                    assembled-while f condition body block x y z end c c4 c5 c6 c7
                                        c8 hb new jump (EmitsCode-Grows block c4 c5 _ hb4 x5 jump)
                                        test p back
                                        (EmitsCode-Grows end c7 c8 _ p.in_range x8 back),
                                  )

  pub if-LowersAs :
      (condition : Condition) (then_body else_body : Stmts)
      → condition_slots table condition ≡ true
      → LowersAs f table (λ n env. exec_stmts f n then_body env) (lower_statements label then_body)
      → LowersAs f table (λ n env. exec_stmts f n else_body env) (lower_statements label else_body)
      → LowersAs f table
          (λ n env. if_set (condition_set env condition) (
            on_condition (condition_meaning f env condition) (λ b. elim b [
              | true ↦ exec_stmts f n then_body env
              | false ↦ exec_stmts f n else_body env
            ])))
          (λ block.
            lower_if_statement label block condition
              (lower_statements label then_body)
              (lower_statements label else_body))
  unfolding lower_if_statement
  if-LowersAs condition then_body else_body hc lowers lowers' c block w t hb =
      let P : ℕ → LoweringContext → Type 0 =
        Performs f
          (λ n env. if_set (condition_set env condition) (
            on_condition (condition_meaning f env condition) (λ b. elim b [
              | true ↦ exec_stmts f n then_body env
              | false ↦ exec_stmts f n else_body env
            ])))
          block c in
      Returns-bind c _ P _ _ (next_if_index-Grows c block w) λ i c1 w1 x1 p1.
        Returns-bind c1 (NewBlock block c1) P _ _ (alloc_block-NewBlock c1 block _ w1)
          λ x c2 w2 x2 p2.
            Returns-bind c2 (NewBlock block c2) P _ _ (alloc_block-NewBlock c2 block _ w2)
              λ y c3 w3 x3 p3.
                Returns-bind c3 (NewBlock block c3) P _ _ (alloc_block-NewBlock c3 block _ w3)
                  λ z c4 w4 x4 p4.
                    let new : ThreeBlocks block c x y z c4 =
                      three_new_blocks block x y z c c1 c2 c3 c4 p1.0 p1.1 p2 p3 p4 in
                    Returns-bind c4 (λ u d. Tests f condition x y block c4 d) P _ _
                      (lower_condition-Tests f c4 block condition x y w4
                        (omega (arith, hb, new.counted)) (omega (arith, new.first, new.counted))
                        (omega (arith, new.second, new.counted))
                        (ap (λ q. condition_slots q condition) (new.grows.names ∙ t) ∙ hc))
                      λ u5 c5 w5 x5 test.
                        Returns-bind c5 (Performs f (λ n env. exec_stmts f n then_body env) x c5) P
                          _ _
                          (lowers c5 x w5 (test.grows.names ∙ new.grows.names ∙ t)
                            (omega (arith, new.first, new.counted, x5.blocks_kept)))
                          λ end c6 w6 x6 p.
                            Returns-bind c6 (λ u d. EmitsCode end c6 d (jump_instr z ∷ [])) P _ _
                              (emit-EmitsCode c6 end (jump_instr z) w6 p.in_range (
                                jump_instr-IsValid c6 z (
                                  omega (
                                    arith, new.third, new.counted, x5.blocks_kept, x6.blocks_kept,
                                  ))))
                              λ u7 c7 w7 x7 jump.
                                Returns-bind c7
                                  (Performs f (λ n env. exec_stmts f n else_body env) y c7) P _ _
                                  (lowers' c7 y w7
                                    (jump.names ∙ p.grows.names ∙ test.grows.names ∙ new.grows.names
                                      ∙ t)
                                    (omega (
                                      arith, new.second, new.counted, x5.blocks_kept,
                                      x6.blocks_kept, x7.blocks_kept,
                                    )))
                                  λ end' c8 w8 x8 p'.
                                    Returns-bind c8 (λ u d. EmitsCode end' c8 d (jump_instr z ∷ []))
                                      P _ _
                                      (emit-EmitsCode c8 end' (jump_instr z) w8 p'.in_range (
                                        jump_instr-IsValid c8 z (
                                          omega (
                                            arith, new.third, new.counted, x5.blocks_kept,
                                            x6.blocks_kept, x7.blocks_kept, x8.blocks_kept,
                                          ))))
                                      λ u9 c9 w9 x9 jump'. (
                                        w9,
                                        Extends-refl c9,
                                        assembled-if f condition _ _ block x y z end end' c c4 c5 c6
                                            c7 c8 c9 hb new test p jump
                                            (EmitsCode-Grows end c6 c7 _ p.in_range x7 jump) p'
                                            jump'
                                            (EmitsCode-Grows end' c8 c9 _ p'.in_range x9 jump'),
                                      )
