-- ===== src/Lowering/Declared.antt =====
-- The variables that src/ir/Lowering.cpp declares at the start of a function, and their values.
use mathlib.Core.List.{append-nil, append_assoc}
use native.Mathlib.Decide.{ℕ_discrete}
use mathlib.Core.Option.{some-injective}
use asm_studio.Prelude.{
  ℕ, ◌≤◌, refl, sym, ap, ◌∙◌, Bool, true, false, none, some, List, [], ◌∷◌, ◌++◌, String, arith,
  length, if◌then◌else◌,
}
use asm_studio.Machine.Floats.{Floats}
use asm_studio.Ir.{IrOp, IrInstr, IrFunction, RegValue}
use asm_studio.Dsl.Syntax.{Variable}
use asm_studio.Dsl.Meaning.{Env}
use asm_studio.Sim.State.{ok, SimFrame}
use asm_studio.Lowering.Context.{LoweringContext}
use asm_studio.Lowering.Expr.{const_instr, operator_instr}
use asm_studio.Lowering.Function.{
  contains_name, declare_slot, declare_initialised, declare_variables,
}
use asm_studio.Lowering.Invariant.{
  IsWellFormed, Extends-refl, Returns, Returns-bind, Returns-map, alloc_value-Returns,
}
use asm_studio.Lowering.Operations.{set_variable-Returns}
use asm_studio.Lowering.Valid.{HasBlock, operator_instr-IsValid, const_instr-IsValid}
use asm_studio.Lowering.Code.{run_code, Gives, Gives-append}
use asm_studio.Lowering.Instructions.{const_instr-Gives, copy-Gives}
use asm_studio.Lowering.Emitted.{
  instrs_at, EmitsCode, EmitsCode-trans, Returns-and, alloc_value-Yields,
}
use asm_studio.Lowering.ExprMeaning.{Agrees}
use asm_studio.Lowering.Endings.{Ends-after, Contains, At, code-Ends}
use asm_studio.Lowering.Growth.{Grows, emit-EmitsCode, EmitsCode-Grows, Contains-Grows}
use asm_studio.Lowering.Conditions.{Agrees-names}
use asm_studio.Lowering.Walks.{walk}
use asm_studio.Lowering.NamedSlots.{SetsUp, set_variable-Yields, with_variable, named-SetsUp}

declare_slot-SetsUp :
    (f : Floats) (block : ℕ) (c : LoweringContext) (v : Variable)
    → IsWellFormed c
    → HasBlock c block
    → Returns c
        (λ u d. SetsUp f (λ env. with_variable env v.name none) block c d)
        (declare_slot v c)
unfolding declare_slot walk
declare_slot-SetsUp f block c v w hb =
    Returns-bind c _ (λ u d. SetsUp f (λ env. with_variable env v.name none) block c d) _ _
      (Returns-and c _ _ _ (alloc_value-Returns c w v.type none)
        (alloc_value-Yields c w block v.type none))
      λ slot d wd x p.
        Returns-map d _ _ _
          (Returns-and d _ _ _ (set_variable-Returns d wd v.name slot p.0.0 p.0.1)
            (set_variable-Yields d v.name slot))
          λ u e we y q.
            let grows : Grows block c d = EmitsCode-Grows block c d [] hb x p.1.1 in
            named-SetsUp f block slot v.name none c d e w (omega (arith, p.1.0))
              (λ g h. Contains-Grows g block c d grows h) p.1.1.names q.1.0 q.1.1
              (λ g env frame h a ag. (
                0,
                frame,
                refl,
                (
                  (a.0, a.1 ∙ ap length (sym (append-nil (instrs_at c block)) ∙ sym p.1.1.here)),
                  Agrees-names env d c g frame (sym p.1.1.names) ag,
                  λ value k. cc,
                ),
              ))

Contains-EmitsCode :
    (g : IrFunction) (block : ℕ) (c d : LoweringContext) (code : List IrInstr)
    → EmitsCode block c d code
    → Contains g d
    → Contains g c
Contains-EmitsCode g block c d code emits h n = elim (ℕ_discrete block n) [
  | yes e ↦
      let (rest, p) = h n in
      (
        code ++ rest,
        p
            ∙ ap (λ l. l ++ rest)
                (ap (instrs_at d) (sym e) ∙ emits.here ∙ ap (λ k. instrs_at c k ++ code) e)
            ∙ append_assoc (instrs_at c n) code rest,
      )
  | no ne ↦ let (rest, p) = h n in (rest, p ∙ ap (λ l. l ++ rest) (emits.elsewhere n ne))
]

set-Gives :
    (f : Floats) (g : IrFunction) (frame : SimFrame) (bound init slot : ℕ) (value : RegValue)
    → bound ≤ init
    → bound ≤ slot
    → Gives g bound 2 frame slot (ok value) (
        run_code f g
          (const_instr init value ∷ operator_instr IrOp.copy (init ∷ []) slot ∷ [])
          frame)
set-Gives f g frame bound init slot value l l' =
    Gives-append f g bound bound init slot (const_instr init value ∷ [])
      (operator_instr IrOp.copy (init ∷ []) slot ∷ []) frame (ok value) (λ v. ok v) (omega arith)
      (const_instr-Gives f g frame bound init value l)
      (λ v frame' r m. copy-Gives f g frame' bound init slot v l' r)

declare_initialised-SetsUp :
    (f : Floats) (block : ℕ) (c : LoweringContext) (v : Variable)
    → IsWellFormed c
    → HasBlock c block
    → Returns c
        (λ u d. SetsUp f (λ env. with_variable env v.name (some v.init)) block c d)
        (declare_initialised block v c)
unfolding declare_initialised
declare_initialised-SetsUp f block c v w hb =
    let P : Unit {0} → LoweringContext → Type 0 =
      λ u d. SetsUp f (λ env. with_variable env v.name (some v.init)) block c d in
    Returns-bind c _ P _ _
      (Returns-and c _ _ _ (alloc_value-Returns c w v.type (some v.init))
        (alloc_value-Yields c w block v.type (some v.init)))
      λ init c1 w1 x1 p1.
        Returns-bind c1 (λ u d. EmitsCode block c1 d (const_instr init v.init ∷ [])) P _ _
          (emit-EmitsCode c1 block (const_instr init v.init) w1 (omega (arith, x1.blocks_kept, hb))
            (const_instr-IsValid c1 init v.init p1.0.0
              (λ k' e. some-injective v.init k' (sym p1.0.1 ∙ e))))
          λ u2 c2 w2 x2 p2.
            Returns-bind c2 _ P _ _
              (Returns-and c2 _ _ _ (alloc_value-Returns c2 w2 v.type none)
                (alloc_value-Yields c2 w2 block v.type none))
              λ slot c3 w3 x3 p3.
                let copy : IrInstr = operator_instr IrOp.copy (init ∷ []) slot in
                Returns-bind c3 (λ u d. EmitsCode block c3 d (copy ∷ [])) P _ _
                  (emit-EmitsCode c3 block copy w3
                    (omega (arith, x1.blocks_kept, x2.blocks_kept, x3.blocks_kept, hb))
                    (operator_instr-IsValid c3 IrOp.copy (init ∷ []) slot
                      (omega (arith, p1.0.0, x2.values_kept, x3.values_kept), tt) p3.0.0 p3.0.1))
                  λ u4 c4 w4 x4 p4.
                    Returns-map c4 _ _ _
                      (Returns-and c4 _ _ _
                        (set_variable-Returns c4 w4 v.name slot
                          (omega (arith, p3.0.0, x4.values_kept))
                          (x4.constants_kept slot p3.0.0 ∙ p3.0.1))
                        (set_variable-Yields c4 v.name slot))
                      λ u5 e we y q.
                        let emits : EmitsCode block c c4 (const_instr init v.init ∷ copy ∷ []) =
                          EmitsCode-trans block c c1 c4 [] _ p1.1.1 (
                            EmitsCode-trans block c1 c2 c4 _ _ p2
                              (EmitsCode-trans block c2 c3 c4 [] _ p3.1.1 p4)) in
                        let fresh : length c.function.values ≤ slot =
                          omega (arith, p3.1.0, x1.values_kept, x2.values_kept) in
                        named-SetsUp f block slot v.name (some v.init) c c4 e w fresh
                          (λ g h. Contains-EmitsCode g block c c4 _ emits h) emits.names q.1.0 q.1.1
                          (λ g env frame h a ag.
                            let (n, frame', walked, ((at, agreed, reads), kept)) =
                              code-Ends f g env block c c4 slot _ (ok v.init) frame w refl emits h a
                                ag
                                (set-Gives f g frame (length c.function.values) init slot v.init
                                  (omega (arith, p1.1.0)) fresh) in
                            (
                              n,
                              frame',
                              walked,
                              (
                                at,
                                agreed,
                                λ value k. reads ∙ ap ok (some-injective v.init value k),
                              ),
                            ))

-- The values after the declarations: a variable that the first statements assign to has none yet.
unfoldable pub declared_env : List String → List Variable → Env → Env
declared_env assigned [] env = env
declared_env assigned (v ∷ vars) env =
    declared_env assigned vars
      (with_variable env v.name (if contains_name v.name assigned then none else some v.init))

SetsUp-trans :
    (f : Floats) (m m' : Env → Env) (block : ℕ) (c d e : LoweringContext)
    → SetsUp f m block c d
    → SetsUp f m' block d e
    → SetsUp f (λ env. m' (m env)) block c e
SetsUp-trans f m m' block c d e h k = record {
  contains = λ g x. h.contains g (k.contains g x);
  distinct = λ x. k.distinct (h.distinct x);
  leads = λ g env frame x a ag.
      let (n, frame', walked, (at, agreed)) = h.leads g env frame (k.contains g x) a ag in
      Ends-after f g frame frame' n (ok tt)
        (λ (u : Unit {0}) frame''. At e block frame'' × Agrees (m' (m env)) e g frame'') walked
        (k.leads g (m env) frame' x at agreed);
}

pub declare_variables-SetsUp :
    (f : Floats) (block : ℕ) (c : LoweringContext) (assigned : List String) (vars : List Variable)
    → IsWellFormed c
    → HasBlock c block
    → Returns c
        (λ u d. SetsUp f (declared_env assigned vars) block c d)
        (declare_variables block assigned vars c)
unfolding declare_variables declared_env walk
declare_variables-SetsUp f block c assigned [] w hb = (
  w,
  Extends-refl c,
  record {
    contains = λ g x. x;
    distinct = λ x. x;
    leads = λ g env frame x a ag. (0, frame, refl, (a, ag));
  },
)
declare_variables-SetsUp f block c assigned (v ∷ vars) w hb =
    Returns-bind c _ (λ u d. SetsUp f (declared_env assigned (v ∷ vars)) block c d) _ _
      (first (contains_name v.name assigned))
      λ u d wd x p.
        Returns-map d _ _ _
          (declare_variables-SetsUp f block d assigned vars wd (omega (arith, x.blocks_kept, hb)))
          λ u' e we y q. SetsUp-trans f _ (declared_env assigned vars) block c d e p q
  where
    first :
        (b : Bool)
        → Returns c
            (λ u d.
              SetsUp f
                (λ env. with_variable env v.name (if b then none else some v.init))
                block
                c
                d)
            ((if b then declare_slot v else declare_initialised block v) c)
    first true = declare_slot-SetsUp f block c v w hb
    first false = declare_initialised-SetsUp f block c v w hb
