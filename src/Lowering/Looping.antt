-- ===== src/Lowering/Looping.antt =====
-- Loops of src/ir/Lowering.cpp: what the code of their blocks does together.
use asm_studio.Prelude.{
  ℕ, zero, suc, ◌≤◌, ◌<◌, ◌≡◌, ◌≢◌, inl, inr, refl, sym, ap, ◌∙◌, Bool, true, false, [], ◌∷◌, arith,
  length,
}
use asm_studio.Machine.Floats.{Floats}
use asm_studio.Ir.{IrFunction}
use asm_studio.Dsl.Syntax.{Condition, Stmts, while_stmt}
use asm_studio.Dsl.Meaning.{
  Env, goes_on, condition_set, condition_meaning, exec_stmt, exec_stmts, then_run,
}
use asm_studio.Prelude.{some}
use asm_studio.Sim.State.{SimFrame, ok}
use asm_studio.Lowering.Context.{LoweringContext}
use asm_studio.Lowering.Stmt.{jump_instr}
use asm_studio.Lowering.Emitted.{instrs_at, EmitsCode}
use asm_studio.Lowering.Walks.{walk}
use asm_studio.Lowering.ExprMeaning.{Agrees}
use asm_studio.Lowering.Conditions.{Tests, Branched, Agrees-names}
use asm_studio.Lowering.Endings.{RunEnds, RunEnds-after, Contains}
use asm_studio.Lowering.Growth.{Grows, Grows-trans, Contains-Grows}
use asm_studio.Lowering.Valid.{HasBlock}
use asm_studio.Lowering.Performs.{
  SignalAt, Performs, if_set-RunEnds, on_condition-RunEnds, then_run-RunEnds, jump-Leads,
}
use asm_studio.Lowering.Branching.{ThreeBlocks, start-At}

-- The rounds of a loop, from the start of its condition.
rounds-RunEnds :
    (f : Floats) (g : IrFunction) (condition : Condition) (body : Stmts) (x y z end : ℕ)
    (c4 c5 c6 c7 c8 : LoweringContext)
    → Contains g c8
    → instrs_at c5 x ≡ []
    → instrs_at c6 y ≡ []
    → instrs_at c8 z ≡ []
    → c5.variable_table ≡ c4.variable_table
    → Tests f condition y z x c5 c6
    → Performs f (λ n env. exec_stmts f n body env) y c6 end c7
    → EmitsCode end c7 c8 (jump_instr x ∷ [])
    → Grows end c7 c8
    → (n : ℕ) (env : Env) (frame : SimFrame) → frame.block ≡ x
    → frame.pc ≡ 0
    → Agrees env c4 g frame
    → RunEnds f g frame (exec_stmt f n (while_stmt condition body) env) (SignalAt g c8 z)
unfolding exec_stmt exec_stmts
rounds-RunEnds f g condition body x y z end c4 c5 c6 c7 c8 h ex ey ez names test p back gb zero env
      frame eb ep ag =
    tt
rounds-RunEnds f g condition body x y z end c4 c5 c6 c7 c8 h ex ey ez names test p back gb (suc n)
      env frame eb ep ag =
    if_set-RunEnds f g frame (condition_set env condition) _ (SignalAt g c8 z) λ s.
      on_condition-RunEnds f g frame (condition_meaning f env condition) _ (Branched env c5 g y z)
        (SignalAt g c8 z)
        (test.tests g env frame (Contains-Grows g y c6 c7 p.grows h7) s
          (start-At c5 x frame ex eb ep) (Agrees-names env c5 c4 g frame (sym names) ag))
        λ b frame' r. branch b frame' r (λ env' frame'' eb' ep' ag'.
          rounds-RunEnds f g condition body x y z end c4 c5 c6 c7 c8 h ex ey ez names test p back gb
            n env' frame'' eb' ep' ag')
  where
    h7 : Contains g c7
    h7 = Contains-Grows g end c7 c8 gb h

    branch :
        (b : Bool) (frame' : SimFrame)
        → Branched env c5 g y z b frame'
        → ((env' : Env) (frame'' : SimFrame)
            → frame''.block ≡ x
            → frame''.pc ≡ 0
            → Agrees env' c4 g frame''
            → RunEnds f g frame''
                (exec_stmt f n (while_stmt condition body) env')
                (SignalAt g c8 z))
        → RunEnds f g frame'
            (elim b [
              | true ↦
                  then_run
                    (exec_stmts f n body env)
                    (λ env'. exec_stmt f n (while_stmt condition body) env')
              | false ↦ some (ok (goes_on env))
            ])
            (SignalAt g c8 z)
    branch true frame' r next =
        then_run-RunEnds f g frame' (exec_stmts f n body env)
          (λ env'. exec_stmt f n (while_stmt condition body) env') c7 c8 end z
          (p.performs g n env frame' h7 (start-At c6 y frame' ey r.0 r.1)
            (Agrees-names env c6 c5 g frame' (sym test.grows.names) r.2))
          λ env' frame'' a ag'.
            let (k, last, w, q) = jump-Leads f g env' c7 c7 c8 end x frame'' h back a ag' in
            RunEnds-after f g frame'' last k (exec_stmt f n (while_stmt condition body) env')
              (SignalAt g c8 z) w
              (next env' last q.0 q.1
                (Agrees-names env' c4 c7 g last (p.grows.names ∙ test.grows.names ∙ names) q.2))
    branch false frame' r next = (
      0,
      frame',
      unfold walk in refl,
      (
        start-At c8 z frame' ez r.0 r.1,
        Agrees-names env c8 c5 g frame' (sym (gb.names ∙ p.grows.names ∙ test.grows.names)) r.2,
      ),
    )

-- The code of a loop: a jump to the condition, the body, and a jump back.
pub assembled-while :
    (f : Floats) (condition : Condition) (body : Stmts) (block x y z end : ℕ)
    (c c4 c5 c6 c7 c8 : LoweringContext)
    → HasBlock c block
    → ThreeBlocks block c x y z c4
    → EmitsCode block c4 c5 (jump_instr x ∷ [])
    → Grows block c4 c5
    → Tests f condition y z x c5 c6
    → Performs f (λ n env. exec_stmts f n body env) y c6 end c7
    → EmitsCode end c7 c8 (jump_instr x ∷ [])
    → Grows end c7 c8
    → Performs f (λ n env. exec_stmt f n (while_stmt condition body) env) block c z c8
assembled-while f condition body block x y z end c c4 c5 c6 c7 c8 hb new jump gj test p back gb =
    record {
      in_range = omega (
        arith, new.third, new.counted, gj.more_blocks, test.grows.more_blocks, p.grows.more_blocks,
        gb.more_blocks,
      );
      goes_to = inr (omega (arith, new.third));
      grows = grown;
      performs = λ g n env frame h at ag.
          let h5 : Contains g c5 =
            Contains-Grows g x c5 c6 test.grows
              (Contains-Grows g y c6 c7 p.grows (Contains-Grows g end c7 c8 gb h)) in
          let (k, frame', w, r) =
            jump-Leads f g env c4 c4 c5 block x frame h5 jump
              (at.0, at.1 ∙ ap length (sym (new.same block)))
              (Agrees-names env c4 c g frame (sym new.grows.names) ag) in
          RunEnds-after f g frame frame' k (exec_stmt f n (while_stmt condition body) env)
            (SignalAt g c8 z) w (loop g h n env frame' r.0 r.1 r.2);
    }
  where
    end-other : (n : ℕ) → n < length c4.function.blocks → n ≢ y → end ≢ n
    end-other n l ne = elim (p.goes_to) [
      | inl e ↦ λ q. ne (sym q ∙ e)
      | inr k ↦ omega (arith, l, k, gj.more_blocks, test.grows.more_blocks)
    ]

    x_empty : instrs_at c5 x ≡ []
    x_empty =
        gj.untouched x (omega (arith, new.first, new.counted)) (omega (arith, hb, new.first))
        ∙ new.first_empty

    y_empty : instrs_at c6 y ≡ []
    y_empty =
        test.grows.untouched y (omega (arith, new.second, new.counted, gj.more_blocks))
          (omega (arith, new.first, new.second))
        ∙ gj.untouched y (omega (arith, new.second, new.counted)) (omega (arith, hb, new.second))
        ∙ new.second_empty

    z_empty : instrs_at c8 z ≡ []
    z_empty =
        gb.untouched z
          (omega (
            arith, new.third, new.counted, gj.more_blocks, test.grows.more_blocks,
            p.grows.more_blocks,
          ))
          (end-other z (omega (arith, new.third, new.counted))
            (omega (arith, new.second, new.third)))
        ∙ p.grows.untouched z
            (omega (arith, new.third, new.counted, gj.more_blocks, test.grows.more_blocks))
            (omega (arith, new.second, new.third))
        ∙ test.grows.untouched z (omega (arith, new.third, new.counted, gj.more_blocks))
            (omega (arith, new.first, new.third))
        ∙ gj.untouched z (omega (arith, new.third, new.counted)) (omega (arith, hb, new.third))
        ∙ new.third_empty

    end_new : length c.function.blocks ≤ end
    end_new = elim (p.goes_to) [
      | inl e ↦ omega (arith, e, new.second)
      | inr k ↦ omega (arith, k, gj.more_blocks, test.grows.more_blocks, new.grows.more_blocks)
    ]

    grown : Grows block c c8
    grown =
        Grows-trans block end c c7 c8 (inr end_new)
          (Grows-trans block y c c6 c7 (inr (omega (arith, new.second)))
            (Grows-trans block x c c5 c6 (inr (omega (arith, new.first)))
              (Grows-trans block block c c4 c5 (inl refl) new.grows gj) test.grows)
            p.grows)
          gb

    loop :
        (g : IrFunction)
        → Contains g c8
        → (n : ℕ) (env : Env) (frame : SimFrame) → frame.block ≡ x
        → frame.pc ≡ 0
        → Agrees env c4 g frame
        → RunEnds f g frame (exec_stmt f n (while_stmt condition body) env) (SignalAt g c8 z)
    loop g h n env frame eb ep ag =
        rounds-RunEnds f g condition body x y z end c4 c5 c6 c7 c8 h x_empty y_empty z_empty
          gj.names test p back gb n env frame eb ep ag
