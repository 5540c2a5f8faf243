-- ===== src/Lowering/Walks.antt =====
-- A frame of src/sim/Simulator.cpp that goes from instruction to instruction in its function.
use asm_studio.Prelude.{
  ℕ, zero, suc, ◌+◌, ◌≡◌, refl, sym, ap, ◌∙◌, Bool, true, false, Option, none, some, List, [], ◌∷◌,
  ◌++◌, arith, length, length-append, get_elem?, if◌then◌else◌,
}
use mathlib.Core.List.{append_assoc}
use asm_studio.Support.Types.{CmpKind}
use asm_studio.Machine.Ub as Ub
use asm_studio.Machine.Floats.{Floats}
use asm_studio.Ir.{IrOp, IrInstr, IrFunction, RegValue, IrConstant}
use asm_studio.Sim.State.{
  Outcome, ok, err, undefined, SimError, SimFrame, ◌>>=◌, read_value, write_value,
}
use asm_studio.Sim.Handlers.{
  handle_const_op, handle_copy_op, handle_binary_op, handle_unary_op, handle_cmp_op, with_one,
  with_two, with_kind, write_constant, of_ub, guard_divisor, is_neg,
}
use asm_studio.Sim.Ops.{is_division_by_zero, apply_binary_op, unary_neg, unary_not}
use asm_studio.Lowering.Code.{compute, run_code, next_pc, is_straight, is_straight_op}
use asm_studio.Lowering.Emitted.{instrs_of}

-- The instructions of a block of a function, and the one that a frame is at.
abbrev pub code_at : IrFunction → ℕ → List IrInstr
code_at g n = instrs_of (get_elem? g.blocks n)

abbrev pub instr_at : IrFunction → SimFrame → Option IrInstr
instr_at g frame = get_elem? (code_at g frame.block) frame.pc

abbrev pub step_at : Floats → IrFunction → SimFrame → Option IrInstr → Outcome SimFrame
step_at f g frame none = undefined
step_at f g frame (some i) = compute f g (next_pc frame) i i.op

-- So many instructions, from the block and the program counter of the frame.
unfoldable pub walk : Floats → IrFunction → ℕ → SimFrame → Outcome SimFrame
walk f g zero frame = ok frame
walk f g (suc n) frame = step_at f g frame (instr_at g frame) >>= λ frame'. walk f g n frame'

-- A handler's new frame is at the same place of the same function.
abbrev pub Stays : SimFrame → Outcome SimFrame → Type 0
Stays frame (ok frame') =
    (frame'.pc ≡ frame.pc)
    × (frame'.block ≡ frame.block)
    × (frame'.function_name ≡ frame.function_name)
Stays frame (err e) = Unit
Stays frame undefined = Unit

module _ (frame : SimFrame) where
  Stays-bind :
      {A : Type 0} (m : Outcome A) (k : A → Outcome SimFrame)
      → ((a : A) → Stays frame (k a))
      → Stays frame (m >>= k)
  Stays-bind (ok a) k h = h a
  Stays-bind (err e) k h = tt
  Stays-bind undefined k h = tt

  write_value-Stays : (o : ℕ) (value : RegValue) → Stays frame (ok (write_value frame o value))
  unfolding write_value
  write_value-Stays o value = (refl, refl, refl)

  written-Stays :
      (r : Outcome RegValue) (o : ℕ) → Stays frame (r >>= λ value. ok (write_value frame o value))
  written-Stays r o = Stays-bind r _ λ v. write_value-Stays o v

  with_one-Stays :
      (inputs : List ℕ) (output : Option ℕ) (k : ℕ → ℕ → Outcome SimFrame)
      → ((a o : ℕ) → Stays frame (k a o))
      → Stays frame (with_one inputs output (ok frame) k)
  with_one-Stays [] output k h = (refl, refl, refl)
  with_one-Stays (a ∷ inputs) none k h = (refl, refl, refl)
  with_one-Stays (a ∷ inputs) (some o) k h = h a o

  with_two-Stays :
      (inputs : List ℕ) (output : Option ℕ) (k : ℕ → ℕ → ℕ → Outcome SimFrame)
      → ((a b o : ℕ) → Stays frame (k a b o))
      → Stays frame (with_two inputs output (ok frame) k)
  with_two-Stays [] output k h = (refl, refl, refl)
  with_two-Stays (a ∷ []) output k h = (refl, refl, refl)
  with_two-Stays (a ∷ b ∷ inputs) none k h = (refl, refl, refl)
  with_two-Stays (a ∷ b ∷ inputs) (some o) k h = h a b o

  guard_divisor-Stays :
      (op : IrOp) (y : RegValue) (r : Outcome SimFrame)
      → Stays frame r
      → Stays frame (guard_divisor op y r)
  guard_divisor-Stays op y r h = go (is_division_by_zero op y)
    where
      go : (b : Bool) → Stays frame (if b then err SimError.division_by_zero else r)
      go true = tt
      go false = h

  const-Stays : (o : Option ℕ) (c : Option IrConstant) → Stays frame (ok (write_constant frame o c))
  const-Stays none c = (refl, refl, refl)
  const-Stays (some o) none = (refl, refl, refl)
  const-Stays (some o) (some c) = write_value-Stays o _

  with_kind-Stays :
      (kind : Option CmpKind) (k : CmpKind → Outcome SimFrame)
      → ((c : CmpKind) → Stays frame (k c))
      → Stays frame (with_kind kind (ok frame) k)
  with_kind-Stays none k h = (refl, refl, refl)
  with_kind-Stays (some c) k h = h c

  module _ (f : Floats) (g : IrFunction) (i : IrInstr) where
    unary-Stays : Stays frame (handle_unary_op f frame i g)
    unfolding handle_unary_op
    unary-Stays = with_one-Stays i.inputs i.output _ λ a o. Stays-bind (read_value frame g a) _ λ x.
        written-Stays (of_ub (if is_neg i.op then unary_neg f x else Ub.defined (unary_not f x))) o

    binary-Stays : Stays frame (handle_binary_op f frame i g)
    unfolding handle_binary_op
    binary-Stays = with_two-Stays i.inputs i.output _ λ a b o.
        Stays-bind (read_value frame g a) _ λ x.
          Stays-bind (read_value frame g b) _
            λ y. guard_divisor-Stays i.op y _ (written-Stays (of_ub (apply_binary_op f i.op x y)) o)

    cmp-Stays : Stays frame (handle_cmp_op f frame i g)
    unfolding handle_cmp_op
    cmp-Stays = with_two-Stays i.inputs i.output _ λ a b o. with_kind-Stays i.cmp_kind _ λ kind.
        Stays-bind (read_value frame g a) _
          λ x. Stays-bind (read_value frame g b) _ λ y. write_value-Stays o _

    pub compute-Stays :
        (op : IrOp) → is_straight_op op ≡ true → Stays frame (compute f g frame i op)
    unfolding compute handle_const_op handle_copy_op
    compute-Stays IrOp.const h = const-Stays i.output i.const_val
    compute-Stays IrOp.copy h =
        with_one-Stays i.inputs i.output _
          λ a o. Stays-bind (read_value frame g a) _ λ v. write_value-Stays o v
    compute-Stays IrOp.neg h = unary-Stays
    compute-Stays IrOp.not h = unary-Stays
    compute-Stays IrOp.cmp h = cmp-Stays
    compute-Stays IrOp.jmp h = cc
    compute-Stays IrOp.br_true h = cc
    compute-Stays IrOp.call h = cc
    compute-Stays IrOp.ret h = cc
    compute-Stays IrOp.load h = (refl, refl, refl)
    compute-Stays IrOp.store h = (refl, refl, refl)
    compute-Stays IrOp.add h = binary-Stays
    compute-Stays IrOp.sub h = binary-Stays
    compute-Stays IrOp.mul h = binary-Stays
    compute-Stays IrOp.div h = binary-Stays
    compute-Stays IrOp.modulo h = binary-Stays
    compute-Stays IrOp.and h = binary-Stays
    compute-Stays IrOp.or h = binary-Stays
    compute-Stays IrOp.xor h = binary-Stays
    compute-Stays IrOp.shl h = binary-Stays
    compute-Stays IrOp.shr h = binary-Stays

-- What stands in a list behind a list of its length.
pub get_elem?-behind :
    {A : Type 0} (xs ys : List A) (n : ℕ) → n ≡ length xs → get_elem? (xs ++ ys) n ≡ get_elem? ys 0
get_elem?-behind [] ys zero h = refl
get_elem?-behind [] ys (suc n) h = absurd (omega (arith, h))
get_elem?-behind (x ∷ xs) ys zero h = absurd (omega (arith, h))
get_elem?-behind (x ∷ xs) ys (suc n) h = get_elem?-behind xs ys n (omega (arith, h))

module _ (f : Floats) (g : IrFunction) where
  pub walk-append :
      (n m : ℕ) (frame : SimFrame)
      → walk f g (n + m) frame ≡ (walk f g n frame >>= λ frame'. walk f g m frame')
  unfolding walk
  walk-append zero m frame = let e : zero + m ≡ m = omega arith in ap (λ k. walk f g k frame) e
  walk-append (suc n) m frame =
      let e : suc n + m ≡ suc (n + m) = omega arith in
      ap (λ k. walk f g k frame) e
      ∙ go (step_at f g frame (instr_at g frame)) (λ frame'. walk-append n m frame')
    where
      go :
          (r : Outcome SimFrame)
          → ((frame' : SimFrame)
              → walk f g (n + m) frame' ≡ (walk f g n frame' >>= λ frame''. walk f g m frame''))
          → (r >>= λ frame'. walk f g (n + m) frame')
            ≡ ((r >>= λ frame'. walk f g n frame') >>= λ frame'. walk f g m frame')
      go (ok frame') ih = ih frame'
      go (err e) ih = refl
      go undefined ih = refl

  -- Straight code that a frame is at is walked as it runs.
  pub walk-run_code :
      (code before after : List IrInstr) (frame : SimFrame)
      → is_straight code ≡ true
      → code_at g frame.block ≡ before ++ (code ++ after)
      → frame.pc ≡ length before
      → walk f g (length code) frame ≡ run_code f g code frame
  unfolding walk run_code
  walk-run_code [] before after frame h e p = refl
  walk-run_code (i ∷ code) before after frame h e p =
      rw
        (ap (λ l. get_elem? l frame.pc) e
          ∙ get_elem?-behind before (i ∷ (code ++ after)) frame.pc p)
        (go (compute f g (next_pc frame) i i.op)
          (compute-Stays (next_pc frame) f g i i.op (ground (arith, h)))
          (λ frame'. walk-run_code code (before ++ i ∷ []) after frame' (ground (arith, h))))
    where
      go :
          (r : Outcome SimFrame)
          → Stays (next_pc frame) r
          → ((frame' : SimFrame)
              → code_at g frame'.block ≡ (before ++ i ∷ []) ++ (code ++ after)
              → frame'.pc ≡ length (before ++ i ∷ [])
              → walk f g (length code) frame' ≡ run_code f g code frame')
          → (r >>= λ frame'. walk f g (length code) frame')
            ≡ (r >>= λ frame'. run_code f g code frame')
      go (ok frame') s ih =
          ih frame' (ap (code_at g) s.1 ∙ e ∙ sym (append_assoc before (i ∷ []) (code ++ after)))
            (omega (arith, s.0, p, length-append before (i ∷ [])))
      go (err e') s ih = refl
      go undefined s ih = refl
