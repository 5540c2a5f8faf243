-- ===== src/Optimizer/Targets.antt =====
-- Where the instructions of a block may jump to, and the list of these targets that
-- src/transforms/passes/UnreachableBlockEliminationPass.cpp goes through.
use mathlib.Core.Option.{some-injective}
use asm_studio.Prelude.{
  ℕ, zero, suc, ◌≡◌, ◌⊎◌, inl, inr, ap, ◌∙◌, Option, none, some, List, [], ◌∷◌, arith, get_elem?,
  ==_refl,
}
use asm_studio.Ir.{IrInstr, IrBlock}
use asm_studio.Optimizer.Identifiers.{Has, Has-left, Has-right}
use asm_studio.Optimizer.Unreachable.{instr_targets, target_list}

-- Where an instruction may jump to.
abbrev pub IsTarget : IrInstr → ℕ → Type 0
IsTarget i target = (i.true_target ≡ some target) ⊎ (i.false_target ≡ some target)

Has-target_list : (target : ℕ) (o : Option ℕ) → o ≡ some target → Has (target_list o) target
Has-target_list target none e = cc
Has-target_list target (some x) e =
    let q : x ≡ target = some-injective x target e in ground (arith, q, ==_refl x)

-- An instruction of the block may jump there.
abbrev pub JumpsTo : IrBlock → ℕ → Type 0
JumpsTo block target =
    (n : ℕ) × (i : IrInstr) × (get_elem? block.instrs n ≡ some i) × IsTarget i target

-- The list has every target of every instruction.
pub instr_targets-IsTarget :
    (instrs : List IrInstr) (n target : ℕ) (i : IrInstr)
    → get_elem? instrs n ≡ some i
    → IsTarget i target
    → Has (instr_targets instrs) target
instr_targets-IsTarget [] n target i e h = cc
instr_targets-IsTarget (j ∷ instrs) zero target i e h = go (some-injective j i e) h
  where
    go : j ≡ i → IsTarget i target → Has (instr_targets (j ∷ instrs)) target
    go q (inl p) =
        Has-left target (target_list j.true_target) _
          (Has-target_list target j.true_target (ap (λ (x : IrInstr). x.true_target) q ∙ p))
    go q (inr p) = Has-right target (target_list j.true_target) _ (
        Has-left target (target_list j.false_target) (instr_targets instrs)
          (Has-target_list target j.false_target (ap (λ (x : IrInstr). x.false_target) q ∙ p)))
instr_targets-IsTarget (j ∷ instrs) (suc n) target i e h =
    Has-right target (target_list j.true_target) _ (
      Has-right target (target_list j.false_target) (instr_targets instrs)
        (instr_targets-IsTarget instrs n target i e h))
