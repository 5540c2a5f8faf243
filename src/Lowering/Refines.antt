-- ===== src/Lowering/Refines.antt =====
-- Statement lists of src/ir/Lowering.cpp: their code in the frames of src/sim/Simulator.cpp.
use mathlib.Core.Path.{subst}
use asm_studio.Ir.{IrFunction}
use asm_studio.Sim.State.{SimFrame}
use asm_studio.Lowering.ExprMeaning.{Agrees}
use asm_studio.Prelude.{
  ℕ, zero, suc, ◌≤◌, ◌≡◌, inl, inr, refl, sym, ◌∙◌, true, none, List, String, arith, length,
}
use asm_studio.Machine.Floats.{Floats}
use asm_studio.Dsl.Syntax.{
  Stmt, Stmts, nil, cons, assign_stmt, while_stmt, if_stmt, return_stmt, call_stmt,
}
use asm_studio.Dsl.Meaning.{Env, Run, exec_stmt, exec_stmts}
use asm_studio.Lowering.Context.{L, LoweringContext, ◌>>=◌}
use asm_studio.Lowering.Stmt.{lower_statement, lower_statements}
use asm_studio.Lowering.Invariant.{IsWellFormed, Extends-refl, Returns, Returns-bind, Returns-map}
use asm_studio.Lowering.Valid.{HasBlock}
use asm_studio.Lowering.Walks.{walk}
use asm_studio.Lowering.Growth.{Grows-refl, Grows-trans, GoesOn, Contains-Grows}
use asm_studio.Lowering.Endings.{RunEnds, Contains, At}
use asm_studio.Lowering.Performs.{SignalAt, Performs, Distinct, then_run-RunEnds}
use asm_studio.Lowering.StmtMeaning.{
  LowersAs, stmt_slots, stmts_slots, and_left, and_right, assign-LowersAs, return-LowersAs,
}
use asm_studio.Lowering.Compound.{while-LowersAs, if-LowersAs}

-- Fuel goes down by one.
later-LowersAs :
    (f : Floats) (table : List (String × ℕ)) (m m' : ℕ → Env → Run) (lower : ℕ → L ℕ)
    → ((env : Env) → m' zero env ≡ none)
    → ((n : ℕ) (env : Env) → m' (suc n) env ≡ m n env)
    → LowersAs f table m lower
    → LowersAs f table m' lower
later-LowersAs f table m m' lower ez es h c block w t hb =
    Returns-map c _ (Performs f m' block c) _ (h c block w t hb) λ block' d wd x p. record {
      in_range = p.in_range;
      goes_to = p.goes_to;
      grows = p.grows;
      performs = λ g n env frame k at ag.
          later block' d g n env frame (λ j. p.performs g j env frame k at ag);
    }
  where
    later :
        (block' : ℕ) (d : LoweringContext) (g : IrFunction) (n : ℕ) (env : Env) (frame : SimFrame)
        → ((j : ℕ) → RunEnds f g frame (m j env) (SignalAt g d block'))
        → RunEnds f g frame (m' n env) (SignalAt g d block')
    later block' d g zero env frame k =
        subst (λ r. RunEnds f g frame r (SignalAt g d block')) (sym (ez env)) tt
    later block' d g (suc n) env frame k =
        subst (λ r. RunEnds f g frame r (SignalAt g d block')) (sym (es n env)) (k n)

nothing-RunEnds :
    (f : Floats) (g : IrFunction) (n : ℕ) (env : Env) (frame : SimFrame) (c : LoweringContext)
    (block : ℕ)
    → At c block frame
    → Agrees env c g frame
    → RunEnds f g frame (exec_stmts f n nil env) (SignalAt g c block)
unfolding exec_stmt exec_stmts walk
nothing-RunEnds f g zero env frame c block at ag = tt
nothing-RunEnds f g (suc n) env frame c block at ag = (0, frame, refl, (at, ag))

-- One statement, and the rest.
sequence-LowersAs :
    (f : Floats) (table : List (String × ℕ)) (s : Stmt) (ss : Stmts) (lower_s lower_ss : ℕ → L ℕ)
    → LowersAs f table (λ n env. exec_stmt f n s env) lower_s
    → LowersAs f table (λ n env. exec_stmts f n ss env) lower_ss
    → LowersAs f table
        (λ n env. exec_stmts f n (cons s ss) env)
        (λ block. lower_s block >>= λ next_block. lower_ss next_block)
unfolding exec_stmt exec_stmts
sequence-LowersAs f table s ss lower_s lower_ss h k c block w t hb =
    Returns-bind c (Performs f (λ n env. exec_stmt f n s env) block c)
      (Performs f (λ n env. exec_stmts f n (cons s ss) env) block c) _ _ (h c block w t hb)
      λ b d wd x p.
        Returns-map d (Performs f (λ n env. exec_stmts f n ss env) b d)
          (Performs f (λ n env. exec_stmts f n (cons s ss) env) block c) _
          (k d b wd (p.grows.names ∙ t) p.in_range)
          λ b' e we y q. record {
            in_range = q.in_range;
            goes_to = on b b' d p.goes_to q.goes_to p.grows.more_blocks;
            grows = Grows-trans block b c d e p.goes_to p.grows q.grows;
            performs = λ g n env frame h' at ag. both b b' d e p q g n env frame h' at ag;
          }
  where
    on :
        (b b' : ℕ) (d : LoweringContext)
        → GoesOn block c b
        → GoesOn b d b'
        → length c.function.blocks ≤ length d.function.blocks
        → GoesOn block c b'
    on b b' d (inl e) (inl e') l = inl (e' ∙ e)
    on b b' d (inr m) (inl e') l = inr (omega (arith, m, e'))
    on b b' d o (inr m') l = inr (omega (arith, m', l))

    both :
        (b b' : ℕ) (d e : LoweringContext)
        → Performs f (λ n env. exec_stmt f n s env) block c b d
        → Performs f (λ n env. exec_stmts f n ss env) b d b' e
        → (g : IrFunction) (n : ℕ) (env : Env) (frame : SimFrame) → Contains g e
        → At c block frame
        → Agrees env c g frame
        → RunEnds f g frame (exec_stmts f n (cons s ss) env) (SignalAt g e b')
    both b b' d e p q g zero env frame h' at ag = tt
    both b b' d e p q g (suc n) env frame h' at ag =
        then_run-RunEnds f g frame (exec_stmt f n s env) (λ env'. exec_stmts f n ss env') d e b b'
          (p.performs g n env frame (Contains-Grows g b d e q.grows h') at ag)
          (λ env' frame' at' ag'. q.performs g n env' frame' h' at' ag')

mutual
  unfolding lower_statement lower_statements exec_stmt exec_stmts

  lower_statement-LowersAs :
      (s : Stmt) (f : Floats) (label : String → ℕ → String) (table : List (String × ℕ))
      → Distinct table
      → stmt_slots table s ≡ true
      → LowersAs f table (λ n env. exec_stmt f n s env) (lower_statement label s)
  lower_statement-LowersAs (assign_stmt v e) f label table distinct h =
      assign-LowersAs f table v e distinct (and_left _ _ h) (and_right _ _ h)
  lower_statement-LowersAs (while_stmt condition body) f label table distinct h =
      while-LowersAs f label table condition body (and_left _ _ h)
        (lower_statements-LowersAs body f label table distinct (and_right _ _ h))
  lower_statement-LowersAs (if_stmt condition then_body else_body) f label table distinct h =
      later-LowersAs f table _ _ _ (λ env. refl) (λ n env. refl)
        (if-LowersAs f label table condition then_body else_body (and_left _ _ h)
          (lower_statements-LowersAs then_body f label table distinct
            (and_left _ _ (and_right _ _ h)))
          (lower_statements-LowersAs else_body f label table distinct
            (and_right _ _ (and_right _ _ h))))
  lower_statement-LowersAs (return_stmt value) f label table distinct h =
      return-LowersAs f table value h
  lower_statement-LowersAs (call_stmt callee arguments) f label table distinct h = cc

  lower_statements-LowersAs :
      (ss : Stmts) (f : Floats) (label : String → ℕ → String) (table : List (String × ℕ))
      → Distinct table
      → stmts_slots table ss ≡ true
      → LowersAs f table (λ n env. exec_stmts f n ss env) (lower_statements label ss)
  lower_statements-LowersAs nil f label table distinct h = λ c block w t hb. (
    w,
    Extends-refl c,
    record {
      in_range = hb;
      goes_to = inl refl;
      grows = Grows-refl block c;
      performs = λ g n env frame k at ag. nothing-RunEnds f g n env frame c block at ag;
    },
  )
  lower_statements-LowersAs (cons s ss) f label table distinct h =
      sequence-LowersAs f table s ss (lower_statement label s) (lower_statements label ss)
        (lower_statement-LowersAs s f label table distinct (and_left _ _ h))
        (lower_statements-LowersAs ss f label table distinct (and_right _ _ h))

-- Statement lists without calls, whose variables have slots of their own, in a well-formed context:
-- lowering from a block of the context returns. In every function that contains the blocks lowered
-- so far, from a frame at the end of that block whose slots agree with the values of the variables,
-- the new code does what the list means whenever the list has a meaning within some fuel: it walks
-- to the end of the returned block with slots that agree with the new values, or to a return of the
-- meant value, or it ends in the meant simulator error. Where the meaning is undefined behaviour
-- nothing is claimed.
pub lower_statements-Performs :
    (f : Floats) (label : String → ℕ → String) (c : LoweringContext) (block : ℕ) (ss : Stmts)
    → IsWellFormed c
    → HasBlock c block
    → Distinct c.variable_table
    → stmts_slots c.variable_table ss ≡ true
    → Returns c
        (Performs f (λ n env. exec_stmts f n ss env) block c)
        (lower_statements label ss block c)
lower_statements-Performs f label c block ss w hb distinct h =
    lower_statements-LowersAs ss f label c.variable_table distinct h c block w refl hb
