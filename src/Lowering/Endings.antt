-- ===== src/Lowering/Endings.antt =====
-- What a walk of a frame of src/sim/Simulator.cpp through code of src/ir/Lowering.cpp comes to.
use mathlib.Core.List.{append_assoc}
use asm_studio.Prelude.{
  ℕ, ◌+◌, ◌<◌, ◌≡◌, refl, ap, ◌∙◌, true, none, some, List, [], ◌∷◌, ◌++◌, arith, length,
  length-append, get_elem?,
}
use asm_studio.Machine.Floats.{Floats}
use asm_studio.Ir.{IrInstr, IrFunction, RegValue}
use asm_studio.Dsl.Syntax.{ExprNode}
use asm_studio.Dsl.Meaning.{Env, Signal, Run, all_set, meaning}
use asm_studio.Sim.State.{Outcome, ok, err, undefined, SimFrame, ◌>>=◌, read_value}
use asm_studio.Lowering.Context.{LoweringContext}
use asm_studio.Lowering.Invariant.{IsWellFormed}
use asm_studio.Lowering.Code.{compute, run_code, next_pc, Gives, is_straight}
use asm_studio.Lowering.Emitted.{instrs_at, EmitsCode}
use asm_studio.Lowering.Walks.{
  code_at, instr_at, walk, walk-append, walk-run_code, get_elem?-behind,
}
use asm_studio.Lowering.ExprMeaning.{Agrees, Agrees-Moved, Computes}

module _ (f : Floats) (g : IrFunction) where
  -- After some instructions the frame is as stated.
  abbrev pub Leads : SimFrame → (SimFrame → Type 0) → Type 0
  Leads frame P = (n : ℕ) × (frame' : SimFrame) × (walk f g n frame ≡ ok frame') × P frame'

  -- The walk comes to what is expected of it. Nothing is said of undefined behaviour.
  abbrev pub Ends : {A : Type 0} → SimFrame → Outcome A → (A → SimFrame → Type 0) → Type 0
  Ends frame (ok a) P = Leads frame (P a)
  Ends frame (err e) P = (n : ℕ) × (walk f g n frame ≡ err e)
  Ends frame undefined P = Unit

  abbrev pub RunEnds : SimFrame → Run → (Signal → SimFrame → Type 0) → Type 0
  RunEnds frame none P = Unit
  RunEnds frame (some o) P = Ends frame o P

  -- Walks from a later frame are walks from the first one.
  pub Ends-after :
      {A : Type 0} (frame frame' : SimFrame) (n : ℕ) (o : Outcome A) (P : A → SimFrame → Type 0)
      → walk f g n frame ≡ ok frame'
      → Ends frame' o P
      → Ends frame o P
  Ends-after frame frame' n (ok a) P e (m, last, e', p) =
      (n + m, last, walk-append f g n m frame ∙ ap (λ r. r >>= λ x. walk f g m x) e ∙ e', p)
  Ends-after frame frame' n (err x) P e (m, e') =
      (n + m, walk-append f g n m frame ∙ ap (λ r. r >>= λ x. walk f g m x) e ∙ e')
  Ends-after frame frame' n undefined P e h = tt

  pub Ends-bind :
      {A B : Type 0} (frame : SimFrame) (o : Outcome A) (k : A → Outcome B)
      (P : A → SimFrame → Type 0) (Q : B → SimFrame → Type 0)
      → Ends frame o P
      → ((a : A) (frame' : SimFrame) → P a frame' → Ends frame' (k a) Q)
      → Ends frame (o >>= k) Q
  Ends-bind frame (ok a) k P Q (n, frame', e, p) next =
      Ends-after frame frame' n (k a) Q e (next a frame' p)
  Ends-bind frame (err x) k P Q h next = h
  Ends-bind frame undefined k P Q h next = tt

  -- One instruction.
  pub Leads-step :
      (frame frame' : SimFrame) (i : IrInstr) (P : SimFrame → Type 0)
      → instr_at g frame ≡ some i
      → compute f g (next_pc frame) i i.op ≡ ok frame'
      → P frame'
      → Leads frame P
  unfolding walk
  Leads-step frame frame' i P e e' p = (1, frame', rw (e, e') refl, p)

  pub RunEnds-after :
      (frame frame' : SimFrame) (n : ℕ) (r : Run) (P : Signal → SimFrame → Type 0)
      → walk f g n frame ≡ ok frame'
      → RunEnds frame' r P
      → RunEnds frame r P
  RunEnds-after frame frame' n none P e h = tt
  RunEnds-after frame frame' n (some o) P e h = Ends-after frame frame' n o P e h

-- The function has all the code of a context, and maybe more behind it.
abbrev pub Contains : IrFunction → LoweringContext → Type 0
Contains g d = (n : ℕ) → (rest : List IrInstr) × (code_at g n ≡ instrs_at d n ++ rest)

-- A frame at the end of the code of a block.
abbrev pub At : LoweringContext → ℕ → SimFrame → Type 0
At c block frame = (frame.block ≡ block) × (frame.pc ≡ length (instrs_at c block))

-- The instruction that was put where the frame is.
pub instr_at-emitted :
    (g : IrFunction) (c d : LoweringContext) (block : ℕ) (i : IrInstr) (frame : SimFrame)
    → Contains g d
    → EmitsCode block c d (i ∷ [])
    → At c block frame
    → instr_at g frame ≡ some i
instr_at-emitted g c d block i frame h k a =
    let (rest, e) = h block in
    ap (λ b. get_elem? (code_at g b) frame.pc) a.0
    ∙ ap (λ l. get_elem? l frame.pc)
        (e ∙ ap (λ l. l ++ rest) k.here ∙ append_assoc (instrs_at c block) (i ∷ []) rest)
    ∙ get_elem?-behind (instrs_at c block) (i ∷ rest) frame.pc a.1

-- An expression, from the end of the code before it.
abbrev pub ValueAt :
    Env → ℕ → LoweringContext → LoweringContext → ℕ → IrFunction → RegValue → SimFrame → Type 0
ValueAt env block c d id g value frame =
    At d block frame × Agrees env d g frame × (read_value frame g id ≡ ok value)

-- The value, with those that were there before as they were.
abbrev pub ValueKept :
    Env
    → ℕ
    → LoweringContext
    → LoweringContext
    → ℕ
    → IrFunction
    → SimFrame
    → RegValue
    → SimFrame
    → Type 0
ValueKept env block c d id g frame value frame' =
    ValueAt env block c d id g value frame'
    × ((j : ℕ) → j < length c.function.values → read_value frame' g j ≡ read_value frame g j)

-- Where code was put at the end of a block, and what it gives there.
pub code-Ends :
    (f : Floats) (g : IrFunction) (env : Env) (block : ℕ) (c d : LoweringContext) (id : ℕ)
    (code : List IrInstr) (o : Outcome RegValue) (frame : SimFrame)
    → IsWellFormed c
    → is_straight code ≡ true
    → EmitsCode block c d code
    → Contains g d
    → At c block frame
    → Agrees env c g frame
    → Gives g (length c.function.values) (length code) frame id o (run_code f g code frame)
    → Ends f g frame o (ValueKept env block c d id g frame)
code-Ends f g env block c d id code o frame w straight emits h a ag gives =
    go o (run_code f g code frame) walked gives
  where
    placed : code_at g frame.block ≡ instrs_at c block ++ (code ++ (h block).0)
    placed =
        ap (code_at g) a.0
        ∙ (h block).1
        ∙ ap (λ l. l ++ (h block).0) emits.here
        ∙ append_assoc (instrs_at c block) code (h block).0

    walked : walk f g (length code) frame ≡ run_code f g code frame
    walked = walk-run_code f g code (instrs_at c block) (h block).0 frame straight placed a.1

    go :
        (o : Outcome RegValue) (r : Outcome SimFrame)
        → walk f g (length code) frame ≡ r
        → Gives g (length c.function.values) (length code) frame id o r
        → Ends f g frame o (ValueKept env block c d id g frame)
    go (ok v) (ok frame') e' (r, m) = (
      length code,
      frame',
      e',
      (
        (
          (
            m.block ∙ a.0,
            omega (arith, m.pc, a.1, ap length emits.here, length-append (instrs_at c block) code),
          ),
          Agrees-Moved env c d g (length code) frame frame' w emits.names m ag,
          r,
        ),
        m.kept,
      ),
    )
    go (ok v) (err x) e' k = absurd k
    go (ok v) undefined e' k = absurd k
    go (err x) r e' k = (length code, e' ∙ k)
    go undefined r e' k = tt

pub Computes-Ends :
    (f : Floats) (g : IrFunction) (env : Env) (e : ExprNode) (block : ℕ) (c d : LoweringContext)
    (id : ℕ) (frame : SimFrame)
    → IsWellFormed c
    → Computes f e block c id d
    → Contains g d
    → all_set env e ≡ true
    → At c block frame
    → Agrees env c g frame
    → Ends f g frame (meaning f env e) (ValueKept env block c d id g frame)
Computes-Ends f g env e block c d id frame w (code, straight, emits, l, gives) h s a ag =
    code-Ends f g env block c d id code (meaning f env e) frame w straight emits h a ag
      (gives env g frame s ag)
