-- ===== src/Codegen/EmittedOps.antt =====
-- src/codegen/Arm64Emitter.cpp: the allocator over the code of one instruction.
use asm_studio.Prelude.{
  ℕ, ◌≡◌, refl, sym, Bool, true, false, Option, none, some, List, [], ◌∷◌, is_some, String,
}
use asm_studio.Text.{Text}
use asm_studio.Text.Decimal.{FloatText}
use asm_studio.Support.Types.{CmpKind}
use asm_studio.Ir.{IrConstant, IrInstr}
use asm_studio.Codegen.Registers.{RegAlloc, alloc}
use asm_studio.Codegen.RegisterLaws.{IsWellFormedAlloc, KeepsRegisters, alloc-IsWellFormedAlloc}
use asm_studio.Codegen.Arm64Ops.{
  Arm64Platform, Emitted, emit_unary, emit_binary, emit_const, emit_mod, emit_cmp, emit_compare,
  emit_call, emit_result, with_output, with_input, with_inputs, unallocated,
}

-- The test says whether there is code; where there is, the allocator is well formed and keeps what
-- it had.
abbrev pub Emits : RegAlloc → Bool → Emitted → Type 0
Emits r found none = found ≡ false
Emits r found (some e) = (found ≡ true) × IsWellFormedAlloc e.1 × KeepsRegisters r e.1

module _ (r : RegAlloc) (h : IsWellFormedAlloc r) where
  pub kept-Emits : (text : Text) → Emits r true (some (text, r))
  kept-Emits text = (refl, h, λ id name e. e)

  pub alloc-Emits : (output : ℕ) → Emits r true (some ([], (alloc r output).1))
  alloc-Emits output = let (w, k, g) = alloc-IsWellFormedAlloc r output h in (refl, w, k)

  pub with_output-Emits :
      (o : Option ℕ) (body : ℕ → Text × RegAlloc)
      → ((output : ℕ) → Emits r true (some (body output)))
      → Emits r true (some (with_output r o body))
  with_output-Emits none body k = kept-Emits []
  with_output-Emits (some output) body k = k output

  pub with_input-Emits :
      (inputs : List ℕ) (body : ℕ → Text × RegAlloc)
      → ((input : ℕ) → Emits r true (some (body input)))
      → Emits r true (some (with_input r inputs body))
  with_input-Emits [] body k = kept-Emits []
  with_input-Emits (input ∷ inputs) body k = k input

  pub with_inputs-Emits :
      (inputs : List ℕ) (body : ℕ → ℕ → Text × RegAlloc)
      → ((left right : ℕ) → Emits r true (some (body left right)))
      → Emits r true (some (with_inputs r inputs body))
  with_inputs-Emits [] body k = kept-Emits []
  with_inputs-Emits (a ∷ []) body k = kept-Emits []
  with_inputs-Emits (a ∷ b ∷ inputs) body k = k a b

  pub emit_const-Emits :
      (t : FloatText) (output : ℕ) (c : Option IrConstant)
      → Emits r true (some (emit_const t r output c))
  emit_const-Emits t output none = kept-Emits []
  emit_const-Emits t output (some c) = alloc-Emits output

  pub emit_compare-Emits :
      (output left right : ℕ) (kind : Option CmpKind)
      → Emits r true (some (emit_compare r output left right kind))
  emit_compare-Emits output left right none = kept-Emits []
  emit_compare-Emits output left right (some kind) = alloc-Emits output

  pub emit_result-Emits :
      (called : Text) (o : Option ℕ) → Emits r true (some (emit_result called r o))
  emit_result-Emits called none = kept-Emits called
  emit_result-Emits called (some output) = alloc-Emits output

  pub emit_call-Emits :
      (platform : Arm64Platform) (i : IrInstr) (callee : Option String)
      → Emits r true (some (emit_call platform r i callee))
  unfolding emit_call
  emit_call-Emits platform i none = kept-Emits []
  emit_call-Emits platform i (some callee) = emit_result-Emits _ i.output

  pub emit_unary-Emits :
      (mnemonic : String) (i : IrInstr) → Emits r true (some (emit_unary mnemonic r i))
  unfolding emit_unary
  emit_unary-Emits mnemonic i =
      with_output-Emits i.output _
        (λ output. with_input-Emits i.inputs _ (λ input. alloc-Emits output))

  pub emit_binary-Emits :
      (mnemonic : String) (i : IrInstr) → Emits r true (some (emit_binary mnemonic r i))
  unfolding emit_binary
  emit_binary-Emits mnemonic i =
      with_output-Emits i.output _
        (λ output. with_inputs-Emits i.inputs _ (λ left right. alloc-Emits output))

  pub emit_mod-Emits : (i : IrInstr) → Emits r true (some (emit_mod r i))
  unfolding emit_mod
  emit_mod-Emits i =
      with_output-Emits i.output _
        (λ output. with_inputs-Emits i.inputs _ (λ left right. alloc-Emits output))

  pub emit_cmp-Emits : (i : IrInstr) → Emits r true (some (emit_cmp r i))
  unfolding emit_cmp
  emit_cmp-Emits i = with_output-Emits i.output _ (λ output.
      with_inputs-Emits i.inputs _ (λ left right. emit_compare-Emits output left right i.cmp_kind))

  pub unallocated-Emits :
      (found : Bool) (text : Option Text)
      → is_some text ≡ found
      → Emits r found (unallocated r text)
  unallocated-Emits found none e = sym e
  unallocated-Emits found (some text) e = (sym e, h, λ id name k. k)
