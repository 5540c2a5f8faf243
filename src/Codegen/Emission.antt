-- ===== src/Codegen/Emission.antt =====
-- src/codegen/Arm64Emitter.cpp: the allocator and the exception of `blockIndexMap.at` from
-- instruction to function.
use asm_studio.Prelude.{
  ℕ, ◌+◌, ◌≡◌, refl, sym, ◌∙◌, Bool, true, ◌&&◌, ◌||◌, Option, none, some, List, [], ◌∷◌, ◌++◌,
  arith, ◌==◌, lookup_id, any, is_empty, is_some,
}
use asm_studio.Text.{Text, codes}
use asm_studio.Text.Decimal.{FloatText}
use asm_studio.Ir.{IrOp, IrInstr, IrBlock, IrFunction}
use asm_studio.Codegen.Registers.{RegAlloc, no_registers, get}
use asm_studio.Codegen.RegisterLaws.{IsWellFormedAlloc, no_registers-IsWellFormedAlloc}
use asm_studio.Codegen.EmittedOps.{
  Emits, kept-Emits, with_output-Emits, emit_const-Emits, emit_call-Emits, emit_unary-Emits,
  emit_binary-Emits, emit_mod-Emits, emit_cmp-Emits, unallocated-Emits,
}
use asm_studio.Codegen.Arm64Ops.{
  Arm64Platform, Emitted, emit_branch, emit_br_true, emit_op, emit_instruction,
  build_block_index_map, branch_line, then_text, arm64_binary_op_mnemonic,
}
use asm_studio.Codegen.Arm64.{
  emit_instructions, emit_blocks, emit_arm64_asm_volatile, then_emit, block_label, finish_function,
}

-- A target is the number of a block.
abbrev pub is_block : List IrBlock → Option ℕ → Bool
is_block blocks none = true
is_block blocks (some target) = any (λ (b : IrBlock). b.id == target) blocks

-- The targets that the code of an operation needs.
abbrev pub op_finds_blocks : List IrBlock → IrInstr → IrOp → Bool
op_finds_blocks blocks i IrOp.jmp = is_block blocks i.true_target
op_finds_blocks blocks i IrOp.br_true =
    is_empty i.inputs || (is_block blocks i.true_target && is_block blocks i.false_target)
op_finds_blocks blocks i _ = true

abbrev pub instr_finds_blocks : List IrBlock → IrInstr → Bool
instr_finds_blocks blocks i = op_finds_blocks blocks i i.op

abbrev pub instrs_find_blocks : List IrBlock → List IrInstr → Bool
instrs_find_blocks blocks [] = true
instrs_find_blocks blocks (i ∷ instrs) =
    instr_finds_blocks blocks i && instrs_find_blocks blocks instrs

abbrev pub all_find_blocks : List IrBlock → List IrBlock → Bool
all_find_blocks blocks [] = true
all_find_blocks blocks (block ∷ rest) =
    instrs_find_blocks blocks block.instrs && all_find_blocks blocks rest

build_block_index_map_lem :
    (target index : ℕ) (blocks : List IrBlock) (m : List (ℕ × ℕ))
    → is_some (lookup_id target (build_block_index_map index blocks m))
      ≡ any (λ (b : IrBlock). b.id == target) blocks || is_some (lookup_id target m)
unfolding build_block_index_map
build_block_index_map_lem target index [] m = refl
build_block_index_map_lem target index (block ∷ blocks) m =
    build_block_index_map_lem target (index + 1) blocks ((block.id, index) ∷ m) ∙ ground arith

module _ (blocks : List IrBlock) (m : List (ℕ × ℕ))
    (indexed : (target : ℕ)
      → is_some (lookup_id target m) ≡ any (λ (b : IrBlock). b.id == target) blocks) where
  emit_branch-is_some :
      (mnemonic : Text) (current : ℕ) (target : Option ℕ)
      → is_some (emit_branch mnemonic m current target) ≡ is_block blocks target
  unfolding emit_branch
  emit_branch-is_some mnemonic current none = refl
  emit_branch-is_some mnemonic current (some target) = go (lookup_id target m) ∙ indexed target
    where
      go : (place : Option ℕ) → is_some (branch_line mnemonic current place) ≡ is_some place
      go none = refl
      go (some index) = refl

  then_text-is_some :
      (a b : Option Text) (f : Text → Text → Text)
      → is_some (then_text a (λ x. then_text b (λ y. some (f x y)))) ≡ is_some a && is_some b
  then_text-is_some none b f = refl
  then_text-is_some (some x) none f = refl
  then_text-is_some (some x) (some y) f = refl

  emit_br_true-is_some :
      (r : RegAlloc) (i : IrInstr) (current : ℕ) (inputs : List ℕ)
      → is_some (emit_br_true r i m current inputs)
        ≡ is_empty inputs || (is_block blocks i.true_target && is_block blocks i.false_target)
  unfolding emit_br_true
  emit_br_true-is_some r i current [] = refl
  emit_br_true-is_some r i current (condition ∷ inputs) =
      let taken : Text = codes "cbnz " ++ get r condition ++ codes ", " in
      then_text-is_some (emit_branch taken m current i.true_target)
        (emit_branch (codes "b ") m current i.false_target) (◌++◌)
      ∙ rw
          (
            emit_branch-is_some taken current i.true_target,
            emit_branch-is_some (codes "b ") current i.false_target,
          )
          refl

  emit_op-Emits :
      (t : FloatText) (platform : Arm64Platform) (r : RegAlloc) (i : IrInstr) (current : ℕ)
      (op : IrOp)
      → IsWellFormedAlloc r
      → Emits r (op_finds_blocks blocks i op) (emit_op t platform r i m current op)
  unfolding emit_op
  emit_op-Emits t platform r i current IrOp.const h =
      with_output-Emits r h i.output _ (λ output. emit_const-Emits r h t output i.const_val)
  emit_op-Emits t platform r i current IrOp.copy h = emit_unary-Emits r h "mov" i
  emit_op-Emits t platform r i current IrOp.mul h = emit_binary-Emits r h "mul" i
  emit_op-Emits t platform r i current IrOp.div h = emit_binary-Emits r h "sdiv" i
  emit_op-Emits t platform r i current IrOp.modulo h = emit_mod-Emits r h i
  emit_op-Emits t platform r i current IrOp.neg h = emit_unary-Emits r h "neg" i
  emit_op-Emits t platform r i current IrOp.not h = emit_unary-Emits r h "mvn" i
  emit_op-Emits t platform r i current IrOp.cmp h = emit_cmp-Emits r h i
  emit_op-Emits t platform r i current IrOp.jmp h =
      unallocated-Emits r h _ _ (emit_branch-is_some (codes "b ") current i.true_target)
  emit_op-Emits t platform r i current IrOp.br_true h =
      unallocated-Emits r h _ _ (emit_br_true-is_some r i current i.inputs)
  emit_op-Emits t platform r i current IrOp.call h = emit_call-Emits r h platform i i.callee
  emit_op-Emits t platform r i current IrOp.ret h = kept-Emits r h []
  emit_op-Emits t platform r i current IrOp.load h = kept-Emits r h []
  emit_op-Emits t platform r i current IrOp.store h = kept-Emits r h []
  emit_op-Emits t platform r i current IrOp.add h =
      emit_binary-Emits r h (arm64_binary_op_mnemonic IrOp.add) i
  emit_op-Emits t platform r i current IrOp.sub h =
      emit_binary-Emits r h (arm64_binary_op_mnemonic IrOp.sub) i
  emit_op-Emits t platform r i current IrOp.and h =
      emit_binary-Emits r h (arm64_binary_op_mnemonic IrOp.and) i
  emit_op-Emits t platform r i current IrOp.or h =
      emit_binary-Emits r h (arm64_binary_op_mnemonic IrOp.or) i
  emit_op-Emits t platform r i current IrOp.xor h =
      emit_binary-Emits r h (arm64_binary_op_mnemonic IrOp.xor) i
  emit_op-Emits t platform r i current IrOp.shl h =
      emit_binary-Emits r h (arm64_binary_op_mnemonic IrOp.shl) i
  emit_op-Emits t platform r i current IrOp.shr h =
      emit_binary-Emits r h (arm64_binary_op_mnemonic IrOp.shr) i

  -- The second text follows where there is a first.
  then_emit-Emits :
      (r : RegAlloc) (found found' : Bool) (e : Emitted) (next : RegAlloc → Emitted)
      → Emits r found e
      → ((r' : RegAlloc) → IsWellFormedAlloc r' → Emits r' found' (next r'))
      → Emits r (found && found') (then_emit e next)
  then_emit-Emits r found found' none next h k = rw h refl
  then_emit-Emits r found found' (some (text, r')) next h k = go (next r') (k r' h.1)
    where
      go :
          (e : Emitted)
          → Emits r' found' e
          → Emits r (found && found') (then_emit (some (text, r')) (λ r₀. e))
      go none w = rw (h.0, w) refl
      go (some (more, r₂)) w = (rw (h.0, w.0) refl, w.1, λ id name e. w.2 id name (h.2 id name e))

  emit_instructions-Emits :
      (t : FloatText) (platform : Arm64Platform) (r : RegAlloc) (instrs : List IrInstr)
      (current : ℕ)
      → IsWellFormedAlloc r
      → Emits r (instrs_find_blocks blocks instrs) (emit_instructions t platform r instrs m current)
  unfolding emit_instructions emit_instruction
  emit_instructions-Emits t platform r [] current h = kept-Emits r h []
  emit_instructions-Emits t platform r (i ∷ instrs) current h =
      then_emit-Emits r (instr_finds_blocks blocks i) (instrs_find_blocks blocks instrs)
        (emit_op t platform r i m current i.op) _ (emit_op-Emits t platform r i current i.op h)
        (λ r' h'. emit_instructions-Emits t platform r' instrs current h')

  emit_blocks-Emits :
      (t : FloatText) (platform : Arm64Platform) (r : RegAlloc) (index : ℕ) (rest : List IrBlock)
      → IsWellFormedAlloc r
      → Emits r (all_find_blocks blocks rest) (emit_blocks t platform r m index rest)
  unfolding emit_blocks
  emit_blocks-Emits t platform r index [] h = kept-Emits r h []
  emit_blocks-Emits t platform r index (block ∷ rest) h =
      then_emit-Emits r true (instrs_find_blocks blocks block.instrs && all_find_blocks blocks rest)
        (some (block_label index block, r)) _ (kept-Emits r h [])
        (λ r₀ h₀.
          then_emit-Emits r₀ (instrs_find_blocks blocks block.instrs) (all_find_blocks blocks rest)
            (emit_instructions t platform r₀ block.instrs m index) _
            (emit_instructions-Emits t platform r₀ block.instrs index h₀)
            (λ r₁ h₁. emit_blocks-Emits t platform r₁ (index + 1) rest h₁))

Emits-is_some : (r : RegAlloc) (found : Bool) (e : Emitted) → Emits r found e → is_some e ≡ found
Emits-is_some r found none h = sym h
Emits-is_some r found (some e) h = sym h.0

finish_function-is_some :
    (platform : Arm64Platform) (function : IrFunction) (e : Emitted)
    → is_some (finish_function platform function e) ≡ is_some e
finish_function-is_some platform function none = refl
finish_function-is_some platform function (some e) = refl

-- The ARM64 text of a function is made exactly when every jump, and every branch with a condition,
-- goes to blocks of the function; otherwise `blockIndexMap.at` throws.
pub emit_arm64_asm_volatile-is_some :
    (t : FloatText) (platform : Arm64Platform) (function : IrFunction)
    → is_some (emit_arm64_asm_volatile t platform function)
      ≡ all_find_blocks function.blocks function.blocks
unfolding emit_arm64_asm_volatile
emit_arm64_asm_volatile-is_some t platform function =
    let m : List (ℕ × ℕ) = build_block_index_map 0 function.blocks [] in
    finish_function-is_some platform function
      (emit_blocks t platform no_registers m 0 function.blocks)
    ∙ Emits-is_some no_registers _ _ (
        emit_blocks-Emits function.blocks m
          (λ target. build_block_index_map_lem target 0 function.blocks [] ∙ ground arith) t
          platform no_registers 0 function.blocks no_registers-IsWellFormedAlloc)
