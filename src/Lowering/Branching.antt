-- ===== src/Lowering/Branching.antt =====
-- Loops and conditionals of src/ir/Lowering.cpp: what the code of their blocks does together.
use mathlib.Core.List.{append-nil}
use asm_studio.Prelude.{
  ℕ, ◌+◌, ◌≤◌, ◌<◌, ◌≡◌, ◌≢◌, inl, inr, refl, sym, ap, ◌∙◌, Bool, true, false, none, some, [], ◌∷◌,
  arith, length, get_elem?,
}
use asm_studio.Machine.Floats.{Floats}
use asm_studio.Ir.{IrFunction}
use asm_studio.Dsl.Syntax.{Condition}
use asm_studio.Dsl.Meaning.{
  Env, goes_on, returns, Run, on_condition, if_set, condition_set, condition_meaning,
}
use asm_studio.Sim.State.{SimFrame, ok, err, undefined}
use asm_studio.Lowering.Context.{LoweringContext}
use asm_studio.Lowering.Stmt.{jump_instr}
use asm_studio.Lowering.Emitted.{instrs_of, instrs_at, EmitsCode}
use asm_studio.Lowering.ExprMeaning.{Agrees}
use asm_studio.Lowering.Conditions.{Tests, Branched, Agrees-names}
use asm_studio.Lowering.Endings.{Leads, Ends-after, RunEnds, Contains, At}
use asm_studio.Lowering.Growth.{Grows, Grows-trans, GoesOn, Contains-Grows, NewBlock}
use asm_studio.Lowering.Valid.{HasBlock}
use asm_studio.Lowering.Performs.{
  SignalAt, Performs, if_set-RunEnds, on_condition-RunEnds, jump-Leads,
}

-- Three new blocks, all empty, and nothing else.
pub record ThreeBlocks (block : ℕ) (c : LoweringContext) (x y z : ℕ) (d : LoweringContext)
    : Type 0 where
  pub grows : Grows block c d
  pub first : x ≡ length c.function.blocks
  pub second : y ≡ length c.function.blocks + 1
  pub third : z ≡ length c.function.blocks + 2
  pub counted : length d.function.blocks ≡ length c.function.blocks + 3
  pub same : (n : ℕ) → instrs_at d n ≡ instrs_at c n
  pub first_empty : instrs_at d x ≡ []
  pub second_empty : instrs_at d y ≡ []
  pub third_empty : instrs_at d z ≡ []

pub three_new_blocks :
    (block x y z : ℕ) (c c1 c2 c3 c4 : LoweringContext)
    → c1.function ≡ c.function
    → c1.variable_table ≡ c.variable_table
    → NewBlock block c1 x c2
    → NewBlock block c2 y c3
    → NewBlock block c3 z c4
    → ThreeBlocks block c x y z c4
three_new_blocks block x y z c c1 c2 c3 c4 e t a b h =
    let count : length c1.function.blocks ≡ length c.function.blocks =
      ap (λ (g : IrFunction). length g.blocks) e in
    let start : (n : ℕ) → instrs_at c1 n ≡ instrs_at c n =
      λ n. ap (λ (g : IrFunction). instrs_of (get_elem? g.blocks n)) e in
    record {
      grows = record {
        extended =
            λ n. ([], h.same n ∙ b.same n ∙ a.same n ∙ start n ∙ sym (append-nil (instrs_at c n)));
        untouched = λ n l ne. h.same n ∙ b.same n ∙ a.same n ∙ start n;
        names = h.grows.names ∙ b.grows.names ∙ a.grows.names ∙ t;
        more_blocks = omega (arith, count, a.counted, b.counted, h.counted);
      };
      first = omega (arith, count, a.is_next);
      second = omega (arith, count, b.is_next, a.counted);
      third = omega (arith, count, h.is_next, a.counted, b.counted);
      counted = omega (arith, count, a.counted, b.counted, h.counted);
      same = λ n. h.same n ∙ b.same n ∙ a.same n ∙ start n;
      first_empty = h.same x ∙ b.same x ∙ a.nothing;
      second_empty = h.same y ∙ b.nothing;
      third_empty = h.nothing;
    }

-- A frame at the start of a block without code.
pub start-At :
    (c : LoweringContext) (block : ℕ) (frame : SimFrame)
    → instrs_at c block ≡ []
    → frame.block ≡ block
    → frame.pc ≡ 0
    → At c block frame
start-At c block frame e b p = (b, p ∙ sym (ap length e))

-- A run that is followed by instructions.
pub finish_run :
    (f : Floats) (g : IrFunction) (d e : LoweringContext) (block block' : ℕ) (frame : SimFrame)
    (r : Run)
    → RunEnds f g frame r (SignalAt g d block)
    → ((env : Env) (frame' : SimFrame)
        → At d block frame'
        → Agrees env d g frame'
        → Leads f g frame' (SignalAt g e block' (goes_on env)))
    → RunEnds f g frame r (SignalAt g e block')
finish_run f g d e block block' frame none h k = tt
finish_run f g d e block block' frame (some (ok (goes_on env))) (n, frame', w, (a, ag)) k =
    Ends-after f g frame frame' n (ok (goes_on env)) (SignalAt g e block') w (k env frame' a ag)
finish_run f g d e block block' frame (some (ok (returns none))) h k = h
finish_run f g d e block block' frame (some (ok (returns (some v)))) h k = h
finish_run f g d e block block' frame (some (err x)) h k = h
finish_run f g d e block block' frame (some undefined) h k = tt

-- The code of a conditional.
pub assembled-if :
    (f : Floats) (condition : Condition) (m m' : ℕ → Env → Run) (block x y z end end' : ℕ)
    (c c4 c5 c6 c7 c8 c9 : LoweringContext)
    → HasBlock c block
    → ThreeBlocks block c x y z c4
    → Tests f condition x y block c4 c5
    → Performs f m x c5 end c6
    → EmitsCode end c6 c7 (jump_instr z ∷ [])
    → Grows end c6 c7
    → Performs f m' y c7 end' c8
    → EmitsCode end' c8 c9 (jump_instr z ∷ [])
    → Grows end' c8 c9
    → Performs f
        (λ n env. if_set (condition_set env condition) (
          on_condition
            (condition_meaning f env condition)
            (λ b. elim b [ true ↦ m n env | false ↦ m' n env ])))
        block
        c
        z
        c9
assembled-if f condition m m' block x y z end end' c c4 c5 c6 c7 c8 c9 hb new test p jump gj p'
      jump' gj' =
    record {
      in_range = omega (
        arith, new.third, new.counted, test.grows.more_blocks, p.grows.more_blocks, gj.more_blocks,
        p'.grows.more_blocks, gj'.more_blocks,
      );
      goes_to = inr (omega (arith, new.third));
      grows = grown;
      performs = λ g n env frame h at ag.
          let h8 : Contains g c8 = Contains-Grows g end' c8 c9 gj' h in
          let h7 : Contains g c7 = Contains-Grows g y c7 c8 p'.grows h8 in
          let h6 : Contains g c6 = Contains-Grows g end c6 c7 gj h7 in
          let h5 : Contains g c5 = Contains-Grows g x c5 c6 p.grows h6 in
          if_set-RunEnds f g frame (condition_set env condition) _ (SignalAt g c9 z) λ s.
            on_condition-RunEnds f g frame (condition_meaning f env condition) _
              (Branched env c4 g x y) (SignalAt g c9 z)
              (test.tests g env frame h5 s (at.0, at.1 ∙ ap length (sym (new.same block)))
                (Agrees-names env c4 c g frame (sym new.grows.names) ag))
              λ b frame' r. branch g n env b frame' h h8 h7 h6 r;
    }
  where
    end-other : (n : ℕ) → n < length c4.function.blocks → n ≢ x → end ≢ n
    end-other n l ne = elim (p.goes_to) [
      | inl e ↦ λ q. ne (sym q ∙ e)
      | inr k ↦ omega (arith, l, k, test.grows.more_blocks)
    ]

    end'-other : (n : ℕ) → n < length c4.function.blocks → n ≢ y → end' ≢ n
    end'-other n l ne = elim (p'.goes_to) [
      | inl e ↦ λ q. ne (sym q ∙ e)
      | inr k ↦ omega (arith, l, k, test.grows.more_blocks, p.grows.more_blocks, gj.more_blocks)
    ]

    x_empty : instrs_at c5 x ≡ []
    x_empty =
        test.grows.untouched x (omega (arith, new.first, new.counted))
          (omega (arith, hb, new.first))
        ∙ new.first_empty

    y_empty : instrs_at c7 y ≡ []
    y_empty =
        gj.untouched y
          (omega (arith, new.second, new.counted, test.grows.more_blocks, p.grows.more_blocks))
          (end-other y (omega (arith, new.second, new.counted))
            (omega (arith, new.first, new.second)))
        ∙ p.grows.untouched y (omega (arith, new.second, new.counted, test.grows.more_blocks))
            (omega (arith, new.first, new.second))
        ∙ test.grows.untouched y (omega (arith, new.second, new.counted))
            (omega (arith, hb, new.second))
        ∙ new.second_empty

    z_empty : instrs_at c9 z ≡ []
    z_empty =
        gj'.untouched z
          (omega (
            arith, new.third, new.counted, test.grows.more_blocks, p.grows.more_blocks,
            gj.more_blocks, p'.grows.more_blocks,
          ))
          (end'-other z (omega (arith, new.third, new.counted))
            (omega (arith, new.second, new.third)))
        ∙ p'.grows.untouched z
            (omega (
              arith, new.third, new.counted, test.grows.more_blocks, p.grows.more_blocks,
              gj.more_blocks,
            ))
            (omega (arith, new.second, new.third))
        ∙ gj.untouched z
            (omega (arith, new.third, new.counted, test.grows.more_blocks, p.grows.more_blocks))
            (end-other z (omega (arith, new.third, new.counted))
              (omega (arith, new.first, new.third)))
        ∙ p.grows.untouched z (omega (arith, new.third, new.counted, test.grows.more_blocks))
            (omega (arith, new.first, new.third))
        ∙ test.grows.untouched z (omega (arith, new.third, new.counted))
            (omega (arith, hb, new.third))
        ∙ new.third_empty

    new_block : (n : ℕ) → length c.function.blocks ≤ n → GoesOn block c n
    new_block n l = inr l

    end_new : length c.function.blocks ≤ end
    end_new = elim (p.goes_to) [
      | inl e ↦ omega (arith, e, new.first)
      | inr k ↦ omega (arith, k, test.grows.more_blocks, new.grows.more_blocks)
    ]

    end'_new : length c.function.blocks ≤ end'
    end'_new = elim (p'.goes_to) [
      | inl e ↦ omega (arith, e, new.second)
      | inr k ↦ omega (
        arith, k, test.grows.more_blocks, new.grows.more_blocks, p.grows.more_blocks,
        gj.more_blocks,
      )
    ]

    grown : Grows block c c9
    grown =
        Grows-trans block end' c c8 c9 (new_block end' end'_new)
          (Grows-trans block y c c7 c8 (new_block y (omega (arith, new.second)))
            (Grows-trans block end c c6 c7 (new_block end end_new)
              (Grows-trans block x c c5 c6 (new_block x (omega (arith, new.first)))
                (Grows-trans block block c c4 c5 (inl refl) new.grows test.grows) p.grows)
              gj)
            p'.grows)
          gj'

    to_merge :
        (g : IrFunction) (env : Env) (d e : LoweringContext) (b : ℕ) (frame : SimFrame)
        → Contains g e
        → EmitsCode b d e (jump_instr z ∷ [])
        → c9.variable_table ≡ d.variable_table
        → At d b frame
        → Agrees env d g frame
        → Leads f g frame (SignalAt g c9 z (goes_on env))
    to_merge g env d e b frame h k t a ag =
        let (n, frame', w, r) = jump-Leads f g env d d e b z frame h k a ag in
        (
          n,
          frame',
          w,
          (start-At c9 z frame' z_empty r.0 r.1, Agrees-names env c9 d g frame' (sym t) r.2),
        )

    branch :
        (g : IrFunction) (n : ℕ) (env : Env) (b : Bool) (frame : SimFrame)
        → Contains g c9
        → Contains g c8
        → Contains g c7
        → Contains g c6
        → Branched env c4 g x y b frame
        → RunEnds f g frame (elim b [ true ↦ m n env | false ↦ m' n env ]) (SignalAt g c9 z)
    branch g n env true frame h h8 h7 h6 r =
        finish_run f g c6 c9 end z frame (m n env)
          (p.performs g n env frame h6 (start-At c5 x frame x_empty r.0 r.1)
            (Agrees-names env c5 c4 g frame (sym test.grows.names) r.2))
          (λ env' frame' a ag'.
            to_merge g env' c6 c7 end frame' h7 jump (gj'.names ∙ p'.grows.names ∙ gj.names) a ag')
    branch g n env false frame h h8 h7 h6 r =
        finish_run f g c8 c9 end' z frame (m' n env)
          (p'.performs g n env frame h8 (start-At c7 y frame y_empty r.0 r.1) (
            Agrees-names env c7 c4 g frame (sym (gj.names ∙ p.grows.names ∙ test.grows.names)) r.2))
          (λ env' frame' a ag'. to_merge g env' c8 c9 end' frame' h jump' gj'.names a ag')
