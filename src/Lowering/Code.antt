-- ===== src/Lowering/Code.antt =====
-- The code that src/ir/Lowering.cpp emits for expressions, run by the handlers of
-- src/sim/Simulator.cpp one after the other.
use asm_studio.Prelude.{
  ℕ, ◌+◌, ◌≤◌, ◌<◌, ◌≡◌, refl, ◌∙◌, Bool, true, false, ◌&&◌, List, [], ◌∷◌, ◌++◌, arith, length,
  length-append,
}
use asm_studio.Machine.Floats.{Floats}
use asm_studio.Ir.{IrOp, IrInstr, IrFunction, RegValue}
use asm_studio.Sim.State.{Outcome, ok, err, undefined, SimFrame, ◌>>=◌, read_value}
use asm_studio.Sim.Handlers.{
  handle_const_op, handle_copy_op, handle_binary_op, handle_unary_op, handle_cmp_op, handle_jump_op,
  handle_branch_op,
}

-- The handler of an operation that stays in the frame; a call or a return does not.
unfoldable pub compute : Floats → IrFunction → SimFrame → IrInstr → IrOp → Outcome SimFrame
compute f g frame i IrOp.const = handle_const_op frame i
compute f g frame i IrOp.copy = handle_copy_op frame i g
compute f g frame i IrOp.neg = handle_unary_op f frame i g
compute f g frame i IrOp.not = handle_unary_op f frame i g
compute f g frame i IrOp.cmp = handle_cmp_op f frame i g
compute f g frame i IrOp.jmp = handle_jump_op frame i
compute f g frame i IrOp.br_true = handle_branch_op f frame i g
compute f g frame i IrOp.call = undefined
compute f g frame i IrOp.ret = undefined
compute f g frame i IrOp.load = ok frame
compute f g frame i IrOp.store = ok frame
compute f g frame i _ = handle_binary_op f frame i g

abbrev pub next_pc : SimFrame → SimFrame
next_pc frame = record frame { pc = frame.pc + 1 }

-- A list of instructions, with the program counter that moves on before each of them.
unfoldable pub run_code : Floats → IrFunction → List IrInstr → SimFrame → Outcome SimFrame
run_code f g [] frame = ok frame
run_code f g (i ∷ code) frame =
    compute f g (next_pc frame) i i.op >>= λ frame'. run_code f g code frame'

-- Neither a jump, nor a branch, a call or a return.
abbrev pub is_straight_op : IrOp → Bool
is_straight_op IrOp.jmp = false
is_straight_op IrOp.br_true = false
is_straight_op IrOp.call = false
is_straight_op IrOp.ret = false
is_straight_op _ = true

abbrev pub is_straight : List IrInstr → Bool
is_straight [] = true
is_straight (i ∷ code) = is_straight_op i.op && is_straight code

pub is_straight-append :
    (xs ys : List IrInstr)
    → is_straight xs ≡ true
    → is_straight ys ≡ true
    → is_straight (xs ++ ys) ≡ true
is_straight-append [] ys h k = k
is_straight-append (i ∷ xs) ys h k = ground (arith, h, is_straight-append xs ys, k)

-- From one frame to a later one of the same call and block: so many instructions on, with the
-- values below a bound as they were.
pub record Moved (g : IrFunction) (bound steps : ℕ) (frame frame' : SimFrame) : Type 0 where
  pub kept : (j : ℕ) → j < bound → read_value frame' g j ≡ read_value frame g j
  pub pc : frame'.pc ≡ frame.pc + steps
  pub block : frame'.block ≡ frame.block
  pub function_name : frame'.function_name ≡ frame.function_name

-- What code does when a value is expected of it: it leaves the value in its place, or fails as
-- expected.
abbrev pub Gives : IrFunction → ℕ → ℕ → SimFrame → ℕ → Outcome RegValue → Outcome SimFrame → Type 0
Gives g bound steps frame id (ok value) (ok frame') =
    (read_value frame' g id ≡ ok value) × Moved g bound steps frame frame'
Gives g bound steps frame id (ok value) (err e) = ⊥
Gives g bound steps frame id (ok value) undefined = ⊥
Gives g bound steps frame id (err e) r = r ≡ err e
Gives g bound steps frame id undefined r = r ≡ undefined

Moved-trans :
    (g : IrFunction) (bound bound' n m : ℕ) (a b c : SimFrame)
    → bound ≤ bound'
    → Moved g bound n a b
    → Moved g bound' m b c
    → Moved g bound (n + m) a c
Moved-trans g bound bound' n m a b c l h k = record {
  kept = λ j e. k.kept j (omega (arith, l, e)) ∙ h.kept j e;
  pc = omega (arith, h.pc, k.pc);
  block = k.block ∙ h.block;
  function_name = k.function_name ∙ h.function_name;
}

module _ (f : Floats) (g : IrFunction) where
  run_code-append :
      (xs ys : List IrInstr) (frame : SimFrame)
      → run_code f g (xs ++ ys) frame ≡ (run_code f g xs frame >>= λ frame'. run_code f g ys frame')
  unfolding run_code
  run_code-append [] ys frame = refl
  run_code-append (i ∷ xs) ys frame =
      go (compute f g (next_pc frame) i i.op) (λ frame'. run_code-append xs ys frame')
    where
      go :
          (r : Outcome SimFrame)
          → ((frame' : SimFrame)
              → run_code f g (xs ++ ys) frame'
                ≡ (run_code f g xs frame' >>= λ frame''. run_code f g ys frame''))
          → (r >>= λ frame'. run_code f g (xs ++ ys) frame')
            ≡ ((r >>= λ frame'. run_code f g xs frame') >>= λ frame'. run_code f g ys frame')
      go (ok frame') ih = ih frame'
      go (err e) ih = refl
      go undefined ih = refl

  -- Code after code: what follows starts from the first value.
  pub Gives-append :
      (bound bound' a id : ℕ) (xs ys : List IrInstr) (frame : SimFrame) (o : Outcome RegValue)
      (k : RegValue → Outcome RegValue)
      → bound ≤ bound'
      → Gives g bound (length xs) frame a o (run_code f g xs frame)
      → ((value : RegValue) (frame' : SimFrame)
          → read_value frame' g a ≡ ok value
          → Moved g bound (length xs) frame frame'
          → Gives g bound' (length ys) frame' id (k value) (run_code f g ys frame'))
      → Gives g bound (length (xs ++ ys)) frame id (o >>= k) (run_code f g (xs ++ ys) frame)
  Gives-append bound bound' a id xs ys frame o k l h next =
      rw (run_code-append xs ys frame, length-append xs ys) (first o (run_code f g xs frame) h next)
    where
      then_moved :
          (frame' : SimFrame) (o' : Outcome RegValue) (r : Outcome SimFrame)
          → Moved g bound (length xs) frame frame'
          → Gives g bound' (length ys) frame' id o' r
          → Gives g bound (length xs + length ys) frame id o' r
      then_moved frame' (ok v) (ok frame'') m h' =
          (h'.0, Moved-trans g bound bound' _ _ frame frame' frame'' l m h'.1)
      then_moved frame' (ok v) (err e) m h' = h'
      then_moved frame' (ok v) undefined m h' = h'
      then_moved frame' (err e) r m h' = h'
      then_moved frame' undefined r m h' = h'

      first :
          (o : Outcome RegValue) (r : Outcome SimFrame)
          → Gives g bound (length xs) frame a o r
          → ((value : RegValue) (frame' : SimFrame)
              → read_value frame' g a ≡ ok value
              → Moved g bound (length xs) frame frame'
              → Gives g bound' (length ys) frame' id (k value) (run_code f g ys frame'))
          → Gives g bound
              (length xs + length ys)
              frame
              id
              (o >>= k)
              (r >>= λ frame'. run_code f g ys frame')
      first (ok v) (ok frame') h' next' =
          then_moved frame' (k v) (run_code f g ys frame') h'.1 (next' v frame' h'.0 h'.1)
      first (ok v) (err e) h' next' = absurd h'
      first (ok v) undefined h' next' = absurd h'
      first (err e) r h' next' = rw h' refl
      first undefined r h' next' = rw h' refl
