-- ===== src/Lowering/Performs.antt =====
-- Statements of src/ir/Lowering.cpp: what their code does, and the ones without a body.
use mathlib.Core.Option.{some-injective}
use text.Mathlib.TextEquality.{eq_iff}
use asm_studio.Prelude.{
  ℕ, ◌+◌, ◌≡◌, ◌≢◌, inl, inr, refl, sym, ap, ◌∙◌, Bool, true, false, none, some, List, [], ◌∷◌,
  String, str_eq, arith, length, length-append, Bool-cases,
}
use asm_studio.Machine.Floats.{Floats}
use asm_studio.Ir.{IrOp, IrInstr, IrFunction, RegValue, empty_instr}
use asm_studio.Dsl.Meaning.{
  Env, Signal, goes_on, returns, Run, then_run, on_condition, if_set, updated,
}
use asm_studio.Sim.State.{Outcome, ok, err, undefined, SimFrame, read_value, write_value}
use asm_studio.Sim.Handlers.{handle_copy_op, handle_jump_op}
use asm_studio.Sim.Slots.{read_value-write_value}
use asm_studio.Lowering.Context.{LoweringContext, lookup_name}
use asm_studio.Lowering.Expr.{operator_instr}
use asm_studio.Lowering.Stmt.{jump_instr}
use asm_studio.Lowering.Valid.{HasBlock}
use asm_studio.Lowering.Code.{compute, next_pc}
use asm_studio.Lowering.Emitted.{instrs_at, EmitsCode}
use asm_studio.Lowering.Walks.{instr_at}
use asm_studio.Lowering.ExprMeaning.{Agrees}
use asm_studio.Lowering.Endings.{
  Leads, Leads-step, Ends, RunEnds, RunEnds-after, Contains, At, instr_at-emitted,
}
use asm_studio.Lowering.Growth.{Grows, GoesOn}

abbrev pub ret_instr : List ℕ → IrInstr
ret_instr inputs = record (empty_instr IrOp.ret) { inputs = inputs }

-- Where a statement leaves the frame: at the end of a block with the new values, or at a return of
-- the value.
abbrev pub SignalAt : IrFunction → LoweringContext → ℕ → Signal → SimFrame → Type 0
SignalAt g d block (goes_on env) frame = At d block frame × Agrees env d g frame
SignalAt g d block (returns none) frame = instr_at g frame ≡ some (ret_instr [])
SignalAt g d block (returns (some value)) frame =
    (id : ℕ) × (instr_at g frame ≡ some (ret_instr (id ∷ []))) × (read_value frame g id ≡ ok value)

-- The code from one context to a later one does what is meant, in every function that has it.
pub record Performs (f : Floats) (m : ℕ → Env → Run) (block : ℕ) (c : LoweringContext) (block' : ℕ)
    (d : LoweringContext) : Type 0 where
  pub in_range : HasBlock d block'
  pub goes_to : GoesOn block c block'
  pub grows : Grows block c d
  pub performs :
      (g : IrFunction) (n : ℕ) (env : Env) (frame : SimFrame)
      → Contains g d
      → At c block frame
      → Agrees env c g frame
      → RunEnds f g frame (m n env) (SignalAt g d block')

-- Different names have different slots.
abbrev pub Distinct : List (String × ℕ) → Type 0
Distinct table =
    (name name' : String) (id : ℕ)
    → lookup_name name table ≡ some id
    → lookup_name name' table ≡ some id
    → name ≡ name'

module _ (f : Floats) (g : IrFunction) where
  pub if_set-RunEnds :
      (frame : SimFrame) (b : Bool) (r : Run) (P : Signal → SimFrame → Type 0)
      → (b ≡ true → RunEnds f g frame r P)
      → RunEnds f g frame (if_set b r) P
  if_set-RunEnds frame true r P h = h refl
  if_set-RunEnds frame false r P h = tt

  pub on_condition-RunEnds :
      (frame : SimFrame) (o : Outcome Bool) (next : Bool → Run) (P : Bool → SimFrame → Type 0)
      (Q : Signal → SimFrame → Type 0)
      → Ends f g frame o P
      → ((b : Bool) (frame' : SimFrame) → P b frame' → RunEnds f g frame' (next b) Q)
      → RunEnds f g frame (on_condition o next) Q
  on_condition-RunEnds frame (ok b) next P Q (n, frame', e, p) k =
      RunEnds-after f g frame frame' n (next b) Q e (k b frame' p)
  on_condition-RunEnds frame (err x) next P Q h k = h
  on_condition-RunEnds frame undefined next P Q h k = tt

  pub then_run-RunEnds :
      (frame : SimFrame) (r : Run) (next : Env → Run) (d e : LoweringContext) (block block' : ℕ)
      → RunEnds f g frame r (SignalAt g d block)
      → ((env : Env) (frame' : SimFrame)
          → At d block frame'
          → Agrees env d g frame'
          → RunEnds f g frame' (next env) (SignalAt g e block'))
      → RunEnds f g frame (then_run r next) (SignalAt g e block')
  then_run-RunEnds frame none next d e block block' h k = tt
  then_run-RunEnds frame (some (ok (goes_on env))) next d e block block' (n, frame', w, (a, ag)) k =
      RunEnds-after f g frame frame' n (next env) (SignalAt g e block') w (k env frame' a ag)
  then_run-RunEnds frame (some (ok (returns none))) next d e block block' h k = h
  then_run-RunEnds frame (some (ok (returns (some v)))) next d e block block' h k = h
  then_run-RunEnds frame (some (err x)) next d e block block' h k = h
  then_run-RunEnds frame (some undefined) next d e block block' h k = tt

  -- A jump goes to the start of its block.
  pub jump-Leads :
      (env : Env) (c d e : LoweringContext) (block target : ℕ) (frame : SimFrame)
      → Contains g e
      → EmitsCode block d e (jump_instr target ∷ [])
      → At d block frame
      → Agrees env c g frame
      → Leads f g frame
          (λ frame'. (frame'.block ≡ target) × (frame'.pc ≡ 0) × Agrees env c g frame')
  unfolding compute handle_jump_op read_value
  jump-Leads env c d e block target frame h k a ag =
      Leads-step f g frame (record frame { block = target; pc = 0 }) (jump_instr target) _
        (instr_at-emitted g d e block (jump_instr target) frame h k a) refl
        (refl, refl, λ name j value p s. ag name j value p s)

  -- A copy to the slot of a variable gives the variable a new value.
  pub copy-Leads :
      (env : Env) (d e : LoweringContext) (block a slot : ℕ) (name : String) (value : RegValue)
      (frame : SimFrame)
      → Contains g e
      → EmitsCode block d e (operator_instr IrOp.copy (a ∷ []) slot ∷ [])
      → Distinct d.variable_table
      → lookup_name name d.variable_table ≡ some slot
      → At d block frame
      → Agrees env d g frame
      → read_value frame g a ≡ ok value
      → Leads f g frame (SignalAt g e block (goes_on (updated env name value)))
  copy-Leads env d e block a slot name value frame h k distinct look at ag r =
      Leads-step f g frame (write_value (next_pc frame) slot value)
        (operator_instr IrOp.copy (a ∷ []) slot) _
        (instr_at-emitted g d e block (operator_instr IrOp.copy (a ∷ []) slot) frame h k at)
        (unfold compute handle_copy_op read_value in rw r refl)
        (
          (unfold write_value in at.0, placed),
          λ name' j v p s. new name' j v (sym (ap (lookup_name name') k.names) ∙ p) s,
        )
    where
      placed : (write_value (next_pc frame) slot value).pc ≡ length (instrs_at e block)
      placed =
          let q : (write_value (next_pc frame) slot value).pc ≡ frame.pc + 1 =
            unfold write_value in refl in
          omega (
            arith,
            q,
            at.1,
            ap length k.here,
            length-append (instrs_at d block) (operator_instr IrOp.copy (a ∷ []) slot ∷ []),
          )

      new :
          (name' : String) (j : ℕ) (v : RegValue)
          → lookup_name name' d.variable_table ≡ some j
          → updated env name value name' ≡ some v
          → read_value (write_value (next_pc frame) slot value) g j ≡ ok v
      new name' j v p s = elim (Bool-cases (str_eq name name')) [
        | inl q ↦
            let same : slot ≡ j =
              some-injective slot j (
                sym look
                ∙ ap (λ x. lookup_name x d.variable_table) ((eq_iff name name').0 q)
                ∙ p) in
            let value_same : value ≡ v = some-injective value v (rw q at s) in
            read_value-write_value (next_pc frame) g slot j value
            ∙ ground (arith, same, ap ok value_same)
        | inr q ↦
            let other : slot ≢ j =
              λ z. differ q (distinct name name' slot look (p ∙ ap some (sym z))) in
            read_value-write_value (next_pc frame) g slot j value
            ∙ ground (arith, other, read_next j, ag name' j v p (rw q at s))
      ]
        where
          read_next : (j : ℕ) → read_value (next_pc frame) g j ≡ read_value frame g j
          read_next j = unfold read_value in refl

          differ : str_eq name name' ≡ false → name ≡ name' → ⊥
          differ q z = ground (arith, eq_iff name name', q, z)
