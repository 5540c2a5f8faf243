-- ===== src/Codegen/LoweredEmission.antt =====
-- src/codegen/Arm64Emitter.cpp after src/ir/Lowering.cpp: the targets of lowered functions.
use asm_studio.Prelude.{
  ℕ, zero, suc, ◌<◌, ◌≡◌, refl, ap, ◌∙◌, Bool, true, ◌&&◌, ◌||◌, Option, none, some, String, List,
  [], ◌∷◌, ◌++◌, arith, length, get_elem?, any, All, ◌==◌, is_some, is_empty, ==_refl,
}
use asm_studio.Text.{Text, codes, newline}
use asm_studio.Text.Decimal.{FloatText}
use asm_studio.Ir.{IrOp, IrInstr, IrBlock, IrFunction, IrModule, IrValue}
use asm_studio.Dsl.Builder.{Function}
use asm_studio.Lowering.Context.{Lowered, ok, logic_error, undefined}
use asm_studio.Lowering.Function.{lower}
use asm_studio.Lowering.Invariant.{IsValidInstr, IsValidBlock}
use asm_studio.Lowering.WellFormed.{IsWellFormedFunction}
use asm_studio.Lowering.Modules.{AssignsOwn, LowersModule, lower-LowersModule}
use asm_studio.Codegen.Arm64Ops.{Arm64Platform, then_text}
use asm_studio.Codegen.Arm64.{emit_arm64_asm_volatile, emit_arm64_module, emit_functions}
use asm_studio.Codegen.Emission.{
  is_block, op_finds_blocks, instr_finds_blocks, instrs_find_blocks, all_find_blocks,
  emit_arm64_asm_volatile-is_some,
}

-- The block at a place is among the blocks.
any-get_elem? :
    (p : IrBlock → Bool) (blocks : List IrBlock) (n : ℕ) (b : IrBlock)
    → get_elem? blocks n ≡ some b
    → p b ≡ true
    → any p blocks ≡ true
any-get_elem? p [] n b e h = cc
any-get_elem? p (x ∷ blocks) zero b e h = ground (arith, e, h)
any-get_elem? p (x ∷ blocks) (suc n) b e h = ground (arith, any-get_elem? p blocks n b e h)

get_elem?-is_some :
    (blocks : List IrBlock) (n : ℕ) → n < length blocks → is_some (get_elem? blocks n) ≡ true
get_elem?-is_some [] n h = elim h [ ]
get_elem?-is_some (b ∷ blocks) zero h = refl
get_elem?-is_some (b ∷ blocks) (suc n) h = get_elem?-is_some blocks n (omega (arith, h))

module _ (blocks : List IrBlock)
    (numbered : (n : ℕ) (b : IrBlock) → get_elem? blocks n ≡ some b → b.id ≡ n) where
  is_block_lem :
      (target : ℕ) → target < length blocks → any (λ (b : IrBlock). b.id == target) blocks ≡ true
  is_block_lem target h = go (get_elem? blocks target) refl (get_elem?-is_some blocks target h)
    where
      go :
          (found : Option IrBlock)
          → get_elem? blocks target ≡ found
          → is_some found ≡ true
          → any (λ (b : IrBlock). b.id == target) blocks ≡ true
      go none e k = cc
      go (some b) e k =
          any-get_elem? _ blocks target b e
            (ap (λ x. x == target) (numbered target b e) ∙ ==_refl target)

  is_block-valid :
      (target : Option ℕ)
      → ((t : ℕ) → target ≡ some t → t < length blocks)
      → is_block blocks target ≡ true
  is_block-valid none h = refl
  is_block-valid (some t) h = is_block_lem t (h t refl)

  instr_finds_blocks-valid :
      (values : List IrValue) (i : IrInstr)
      → IsValidInstr (length blocks) values i
      → instr_finds_blocks blocks i ≡ true
  instr_finds_blocks-valid values i h = go i.op
    where
      both :
          is_empty i.inputs || (is_block blocks i.true_target && is_block blocks i.false_target)
          ≡ true
      both =
          rw
            (
              is_block-valid i.true_target h.true_target,
              is_block-valid i.false_target h.false_target,
            )
            (ground arith)

      go : (op : IrOp) → op_finds_blocks blocks i op ≡ true
      go IrOp.jmp = is_block-valid i.true_target h.true_target
      go IrOp.br_true = both
      go IrOp.const = refl
      go IrOp.copy = refl
      go IrOp.add = refl
      go IrOp.sub = refl
      go IrOp.mul = refl
      go IrOp.div = refl
      go IrOp.modulo = refl
      go IrOp.and = refl
      go IrOp.or = refl
      go IrOp.xor = refl
      go IrOp.shl = refl
      go IrOp.shr = refl
      go IrOp.neg = refl
      go IrOp.not = refl
      go IrOp.cmp = refl
      go IrOp.call = refl
      go IrOp.ret = refl
      go IrOp.load = refl
      go IrOp.store = refl

  instrs_find_blocks-valid :
      (values : List IrValue) (instrs : List IrInstr)
      → All (IsValidInstr (length blocks) values) instrs
      → instrs_find_blocks blocks instrs ≡ true
  instrs_find_blocks-valid values [] h = refl
  instrs_find_blocks-valid values (i ∷ instrs) h =
      rw (instr_finds_blocks-valid values i h.0) (instrs_find_blocks-valid values instrs h.1)

  all_find_blocks-valid :
      (values : List IrValue) (rest : List IrBlock)
      → All (IsValidBlock (length blocks) values) rest
      → all_find_blocks blocks rest ≡ true
  all_find_blocks-valid values [] h = refl
  all_find_blocks-valid values (b ∷ rest) h =
      rw (instrs_find_blocks-valid values b.instrs h.0) (all_find_blocks-valid values rest h.1)

emit_functions-is_some :
    (t : FloatText) (platform : Arm64Platform) (functions : List IrFunction)
    → All IsWellFormedFunction functions
    → is_some (emit_functions t platform functions) ≡ true
emit_functions-is_some t platform [] h = refl
emit_functions-is_some t platform (g ∷ functions) h =
    go (emit_arm64_asm_volatile t platform g) (emit_functions t platform functions)
      (emit_arm64_asm_volatile-is_some t platform g
        ∙ all_find_blocks-valid g.blocks h.0.numbered g.values g.blocks h.0.valid)
      (emit_functions-is_some t platform functions h.1)
  where
    go :
        (a b : Option Text)
        → is_some a ≡ true
        → is_some b ≡ true
        → is_some (then_text a (λ text. then_text b (λ rest. some (text ++ newline ++ rest))))
          ≡ true
    go none b e k = cc
    go (some a) none e k = cc
    go (some a) (some b) e k = refl

-- The module that lowering makes has ARM64 text.
abbrev pub EmitsModule : FloatText → Arm64Platform → Lowered IrModule → Type 0
EmitsModule t platform (ok m) = is_some (emit_arm64_module t platform m) ≡ true
EmitsModule t platform logic_error = ⊥
EmitsModule t platform undefined = ⊥

-- Functions whose assignments are all to their own variables are lowered to a module for which the
-- ARM64 emitter, on each platform, makes a text: `blockIndexMap.at` does not throw.
pub lower-EmitsModule :
    (label : String → ℕ → String) (module_name : String) (functions : List Function) (t : FloatText)
    (platform : Arm64Platform)
    → All AssignsOwn functions
    → EmitsModule t platform (lower label module_name functions)
unfolding emit_arm64_module
lower-EmitsModule label module_name functions t platform h =
    go (lower label module_name functions) (lower-LowersModule label module_name functions h)
  where
    go : (r : Lowered IrModule) → LowersModule module_name functions r → EmitsModule t platform r
    go (ok m) k =
        texts (emit_functions t platform m.functions)
          (emit_functions-is_some t platform m.functions k.1)
      where
        texts :
            (a : Option Text)
            → is_some a ≡ true
            → is_some (
                then_text a (λ text. some (
                  codes "// ARM64 asm volatile — module: "
                  ++ codes m.name
                  ++ newline
                  ++ newline
                  ++ text)))
              ≡ true
        texts none e = cc
        texts (some a) e = refl
    go logic_error k = k
    go undefined k = k
