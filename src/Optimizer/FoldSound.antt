-- ===== src/Optimizer/FoldSound.antt =====
-- src/transforms/passes/ConstantFoldingPass.cpp against src/sim/Simulator.cpp: how an instruction
-- runs before and after folding.
use asm_studio.Prelude.{
  ℕ, ◌<◌, ◌≡◌, refl, sym, ◌∙◌, Bool, true, false, Option, none, some, List, [], ◌∷◌, not, ap,
  if◌then◌else◌, length, get_elem?, get_elem?-none, Bool-cases, inl, inr,
}
use asm_studio.Prelude.Int.{ℤ, is_zero_ℤ}
use asm_studio.Support.Types.{CmpKind}
use asm_studio.Machine.Ub.{Ub, defined, map_ub, ◌>>=◌ as ◌>>=ᵤ◌}
use asm_studio.Machine.Words.{
  int64_add, int64_sub, int64_mul, int64_div, int64_mod, int64_and, int64_or, int64_xor, int64_neg,
  to_int64, to_uint64,
}
use asm_studio.Machine.Floats.{Floats}
use asm_studio.Ir.{
  IrOp, IrConstant, int64, uint64, double, bool, IrValue, IrInstr, IrFunction, constant_at,
  RegValue,
}
use asm_studio.Sim.Ops.{
  apply_binary_op, unary_neg, unary_not, to_common, visit_binary, int64_binary, cast_int64,
  is_division_by_zero, apply_comparison, visit_compare,
}
use asm_studio.Sim.State.{ok, undefined, ◌>>=◌, SimFrame, Setup, Simulator, read_value, write_value}
use asm_studio.Sim.Slots.{ir_constant_to_reg_value_lem}
use asm_studio.Sim.Coherence.{IsCoherent}
use asm_studio.Sim.Handlers.{
  of_ub, write_constant, handle_const_op, handle_binary_op, handle_unary_op, handle_cmp_op,
}
use asm_studio.Sim.Step.{Stepped, dispatch, resume}
use asm_studio.Optimizer.ConstantFolding.{
  Folded, fold_instr, fold_output, fold_inputs, fold_pair, fold_single, fold_binary_int, fold_unary,
  fold_not, become_constant, some_int64, all_inputs_are_constant, set_constant, kind_after,
  fold_cmp, fold_kind, is_foldable_op,
}

-- An output, where there is one, is a value of the table.
abbrev pub HasOutput : IrInstr → IrFunction → Type 0
HasOutput i function = (output : ℕ) → i.output ≡ some output → output < length function.values

module _ (f : Floats) (c : Setup) (s : Simulator) (frame : SimFrame) (rest : List SimFrame)
    (function : IrFunction) where
  abbrev runs : IrInstr → Stepped
  runs i = dispatch f c s frame rest function i i.op

  -- The new instruction runs as the old one; where folding is undefined, so is running.
  abbrev pub Preserved : IrInstr → Ub Folded → Type 0
  Preserved i (defined (values, i', changed)) = runs i' ≡ runs i
  Preserved i Ub.undefined = (runs i).1 ≡ undefined

  abbrev wrote : ℕ → Ub RegValue → Stepped
  wrote output r = resume s frame rest (of_ub r >>= (λ value. ok (write_value frame output value)))

  become_constant-Preserved :
      (clear : Bool) (i : IrInstr) (output : ℕ) (k : IrConstant)
      → i.output ≡ some output
      → output < length function.values
      → runs i ≡ wrote output (defined k)
      → Preserved i (become_constant clear function.values i output (some k))
  unfolding become_constant dispatch handle_const_op
  become_constant-Preserved clear i output k o l e = go (get_elem? function.values output) refl
    where
      go :
          (at : Option IrValue)
          → get_elem? function.values output ≡ at
          → Preserved i (
              set_constant function.values output k at >>=ᵤ (λ values. defined (
                values,
                record i {
                  op = IrOp.const;
                  const_val = some k;
                  cmp_kind = kind_after clear i.cmp_kind;
                  inputs = [];
                },
                true,
              )))
      go none q = absurd (get_elem?-none function.values output l q)
      go (some v) q =
          ap (λ x. resume s frame rest (ok (write_constant frame x (some k)))) o
          ∙ (ap (λ r. resume s frame rest (ok (write_value frame output r)))
                (ir_constant_to_reg_value_lem k)
              ∙ sym e)

  module _ (i : IrInstr) (output : ℕ) (o : i.output ≡ some output)
      (l : output < length function.values) where
    some_int64-Preserved :
        (r : Ub ℤ)
        → runs i ≡ wrote output (map_ub int64 r)
        → Preserved i (some_int64 r >>=ᵤ (λ k. become_constant true function.values i output k))
    some_int64-Preserved (defined z) e = become_constant-Preserved true i output (int64 z) o l e
    some_int64-Preserved Ub.undefined e = ap (λ t. t.1) e

    divided-Preserved :
        (b : ℤ) (r : Ub ℤ)
        → (is_zero_ℤ b ≡ false → runs i ≡ wrote output (map_ub int64 r))
        → Preserved i (
            (if is_zero_ℤ b then defined none else some_int64 r)
            >>=ᵤ (λ k. become_constant true function.values i output k))
    unfolding become_constant
    divided-Preserved b r e = elim (Bool-cases (is_zero_ℤ b)) [
      | inl z ↦ rw z refl
      | inr z ↦ rw z (some_int64-Preserved r (e z))
    ]

  module _ (holds : IsCoherent function frame) where
    abbrev pair : IrInstr → IrOp → ℕ → ℕ → ℕ → IrInstr
    pair i op left right output = record i {
      op = op;
      inputs = left ∷ right ∷ [];
      output = some output;
    }

    -- The instruction with two inputs that hold integers, at each operator.
    binary-Preserved :
        (i : IrInstr) (op : IrOp) (left right output : ℕ) (a b : ℤ)
        → output < length function.values
        → constant_at function.values left ≡ some (int64 a)
        → constant_at function.values right ≡ some (int64 b)
        → Preserved (pair i op left right output) (
            fold_binary_int op a b i.cmp_kind
            >>=ᵤ (λ k. become_constant true function.values (pair i op left right output) output k))
    unfolding fold_binary_int dispatch handle_binary_op apply_binary_op to_common visit_binary
        int64_binary cast_int64 is_division_by_zero become_constant handle_cmp_op apply_comparison
        visit_compare fold_cmp
    binary-Preserved i IrOp.add left right output a b l p q =
        some_int64-Preserved (pair i IrOp.add left right output) output refl l (int64_add a b)
          (rw (holds _ _ p) (rw (holds _ _ q) refl))
    binary-Preserved i IrOp.sub left right output a b l p q =
        some_int64-Preserved (pair i IrOp.sub left right output) output refl l (int64_sub a b)
          (rw (holds _ _ p) (rw (holds _ _ q) refl))
    binary-Preserved i IrOp.mul left right output a b l p q =
        some_int64-Preserved (pair i IrOp.mul left right output) output refl l (int64_mul a b)
          (rw (holds _ _ p) (rw (holds _ _ q) refl))
    binary-Preserved i IrOp.div left right output a b l p q =
        divided-Preserved (pair i IrOp.div left right output) output refl l b (int64_div a b)
          (λ z. rw (holds _ _ p) (rw (holds _ _ q) (rw z refl)))
    binary-Preserved i IrOp.modulo left right output a b l p q =
        divided-Preserved (pair i IrOp.modulo left right output) output refl l b (int64_mod a b)
          (λ z. rw (holds _ _ p) (rw (holds _ _ q) (rw z refl)))
    binary-Preserved i IrOp.and left right output a b l p q =
        become_constant-Preserved true (pair i IrOp.and left right output) output
          (int64 (int64_and a b)) refl l (rw (holds _ _ p) (rw (holds _ _ q) refl))
    binary-Preserved i IrOp.or left right output a b l p q =
        become_constant-Preserved true (pair i IrOp.or left right output) output
          (int64 (int64_or a b)) refl l (rw (holds _ _ p) (rw (holds _ _ q) refl))
    binary-Preserved i IrOp.xor left right output a b l p q =
        become_constant-Preserved true (pair i IrOp.xor left right output) output
          (int64 (int64_xor a b)) refl l (rw (holds _ _ p) (rw (holds _ _ q) refl))
    binary-Preserved i IrOp.cmp left right output a b l p q = compared i.cmp_kind
      where
        compared :
            (kind : Option CmpKind)
            → Preserved (pair (record i { cmp_kind = kind }) IrOp.cmp left right output) (
                become_constant true function.values
                  (pair (record i { cmp_kind = kind }) IrOp.cmp left right output)
                  output
                  (fold_kind kind a b))
        compared none = refl
        compared (some CmpKind.lt) =
            become_constant-Preserved true
              (pair (record i { cmp_kind = some CmpKind.lt }) IrOp.cmp left right output) output _
              refl l (rw (holds _ _ p) (rw (holds _ _ q) refl))
        compared (some CmpKind.le) =
            become_constant-Preserved true
              (pair (record i { cmp_kind = some CmpKind.le }) IrOp.cmp left right output) output _
              refl l (rw (holds _ _ p) (rw (holds _ _ q) refl))
        compared (some CmpKind.eq) =
            become_constant-Preserved true
              (pair (record i { cmp_kind = some CmpKind.eq }) IrOp.cmp left right output) output _
              refl l (rw (holds _ _ p) (rw (holds _ _ q) refl))
        compared (some CmpKind.ne) =
            become_constant-Preserved true
              (pair (record i { cmp_kind = some CmpKind.ne }) IrOp.cmp left right output) output _
              refl l (rw (holds _ _ p) (rw (holds _ _ q) refl))
        compared (some CmpKind.ge) =
            become_constant-Preserved true
              (pair (record i { cmp_kind = some CmpKind.ge }) IrOp.cmp left right output) output _
              refl l (rw (holds _ _ p) (rw (holds _ _ q) refl))
        compared (some CmpKind.gt) =
            become_constant-Preserved true
              (pair (record i { cmp_kind = some CmpKind.gt }) IrOp.cmp left right output) output _
              refl l (rw (holds _ _ p) (rw (holds _ _ q) refl))
    binary-Preserved i op left right output a b l p q = refl

    abbrev single : IrInstr → IrOp → ℕ → ℕ → IrInstr
    single i op operand output = record i { op = op; inputs = operand ∷ []; output = some output }

    unary-Preserved :
        (i : IrInstr) (op : IrOp) (operand output : ℕ) (k : IrConstant)
        → output < length function.values
        → constant_at function.values operand ≡ some k
        → Preserved (single i op operand output) (
            fold_unary f op k
            >>=ᵤ (λ r. become_constant false function.values (single i op operand output) output r))
    unfolding fold_unary dispatch handle_unary_op unary_neg unary_not become_constant
    unary-Preserved i IrOp.neg operand output k l p = negated k (holds _ _ p)
      where
        result :
            (r : Ub RegValue)
            → runs (single i IrOp.neg operand output) ≡ wrote output r
            → Preserved (single i IrOp.neg operand output) (
                map_ub some r >>=ᵤ (λ m.
                  become_constant false function.values
                    (single i IrOp.neg operand output)
                    output
                    m))
        result (defined z) e =
            become_constant-Preserved false (single i IrOp.neg operand output) output z refl l e
        result Ub.undefined e = ap (λ t. t.1) e

        negated :
            (v : IrConstant)
            → read_value frame function operand ≡ ok v
            → Preserved (single i IrOp.neg operand output) (
                fold_unary f IrOp.neg v >>=ᵤ (λ m.
                  become_constant false function.values
                    (single i IrOp.neg operand output)
                    output
                    m))
        negated (int64 v) h = result (map_ub int64 (int64_neg v)) (rw h refl)
        negated (uint64 v) h =
            result (map_ub (λ z. uint64 (to_uint64 z)) (int64_neg (to_int64 v))) (rw h refl)
        negated (double v) h = result (defined (double (f.neg v))) (rw h refl)
        negated (bool v) h = result (defined (bool (not v))) (rw h refl)
    unary-Preserved i IrOp.not operand output k l p =
        become_constant-Preserved false (single i IrOp.not operand output) output (fold_not f k)
          refl l (rw (holds _ _ p) (inverted k))
      where
        inverted :
            (v : IrConstant)
            → wrote output (defined (unary_not f v)) ≡ wrote output (defined (fold_not f v))
        inverted (int64 v) = refl
        inverted (uint64 v) = refl
        inverted (double v) = refl
        inverted (bool v) = refl
    unary-Preserved i op operand output k l p = refl

    inputs-Preserved :
        (i : IrInstr) (inputs : List ℕ) (output : ℕ)
        → output < length function.values
        → Preserved
            (record i { inputs = inputs; output = some output })
            (fold_inputs f function.values
              (record i { inputs = inputs; output = some output })
              output
              inputs)
    unfolding fold_inputs
    inputs-Preserved i [] output l = refl
    inputs-Preserved i (operand ∷ []) output l = go (constant_at function.values operand) refl
      where
        go :
            (k : Option IrConstant)
            → constant_at function.values operand ≡ k
            → Preserved
                (single i i.op operand output)
                (fold_single f function.values (single i i.op operand output) output k)
        go none q = refl
        go (some k) q = unary-Preserved i i.op operand output k l q
    inputs-Preserved i (left ∷ right ∷ []) output l =
        go (constant_at function.values left) (constant_at function.values right) refl refl
      where
        go :
            (k m : Option IrConstant)
            → constant_at function.values left ≡ k
            → constant_at function.values right ≡ m
            → Preserved
                (pair i i.op left right output)
                (fold_pair function.values (pair i i.op left right output) output k m)
        go (some (int64 a)) (some (int64 b)) p q =
            binary-Preserved i i.op left right output a b l p q
        go k m p q = refl
    inputs-Preserved i (_ ∷ _ ∷ _ ∷ _) output l = refl

    -- In a frame in which every value that has a constant reads as that constant, an instruction
    -- folded with the function's table runs exactly as before: the same new simulator and the same result, whatever the operator and
    -- the types of the operands. Where folding has no defined behaviour, neither has running the
    -- instruction. An output must be in the table.
    pub fold_instr-Preserved :
        (i : IrInstr) → HasOutput i function → Preserved i (fold_instr f function.values i)
    unfolding fold_instr
    fold_instr-Preserved i has = elim (Bool-cases (all_inputs_are_constant i function.values)) [
      | inl e ↦ rw e (by_output i.output has)
      | inr e ↦ rw e refl
    ]
      where
        by_op :
            (j : IrInstr) (folded : Ub Folded) (b : Bool)
            → Preserved j folded
            → Preserved j (if b then folded else defined (function.values, j, false))
        by_op j folded true h = h
        by_op j folded false h = refl

        by_output :
            (output : Option ℕ)
            → HasOutput (record i { output = output }) function
            → Preserved
                (record i { output = output })
                (fold_output f function.values (record i { output = output }) output)
        by_output none h = refl
        by_output (some output) h =
            by_op _ _ (is_foldable_op i.op) (inputs-Preserved i i.inputs output (h output refl))
