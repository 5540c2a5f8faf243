-- ===== src/Codegen/Arm64Ops.antt =====
-- src/codegen/Arm64Emitter.cpp: the text of an instruction. `none` is the exception of
-- `blockIndexMap.at`.
use asm_studio.Prelude.{
  ℕ, ◌+◌, true, false, Option, none, some, List, [], ◌∷◌, ◌++◌, leb, if◌then◌else◌, lookup_id,
  String,
}
use asm_studio.Text.{Text, codes}
use asm_studio.Text.Decimal.{FloatText, format_nat, format_int}
use asm_studio.Support.Types.{CmpKind}
use asm_studio.Ir.{IrOp, IrConstant, int64, uint64, double, bool, IrInstr, IrBlock}
use asm_studio.Codegen.Registers.{RegAlloc, alloc, get, text_eq}

pub data Arm64Platform : Type 0 where
  mac_os linux windows : Arm64Platform

unfoldable pub fmt_immediate : FloatText → IrConstant → Text
fmt_immediate t (bool true) = codes "#1"
fmt_immediate t (bool false) = codes "#0"
fmt_immediate t (int64 value) = codes "#" ++ format_int value
fmt_immediate t (uint64 value) = codes "#" ++ format_nat value
fmt_immediate t (double value) = codes "#" ++ t.to_string value

unfoldable pub cmp_suffix : CmpKind → String
cmp_suffix CmpKind.lt = "lt"
cmp_suffix CmpKind.le = "le"
cmp_suffix CmpKind.eq = "eq"
cmp_suffix CmpKind.ne = "ne"
cmp_suffix CmpKind.ge = "ge"
cmp_suffix CmpKind.gt = "gt"

unfoldable pub arm64_binary_op_mnemonic : IrOp → String
arm64_binary_op_mnemonic IrOp.add = "add"
arm64_binary_op_mnemonic IrOp.sub = "sub"
arm64_binary_op_mnemonic IrOp.and = "and"
arm64_binary_op_mnemonic IrOp.or = "orr"
arm64_binary_op_mnemonic IrOp.xor = "eor"
arm64_binary_op_mnemonic IrOp.shl = "lsl"
arm64_binary_op_mnemonic IrOp.shr = "asr"
arm64_binary_op_mnemonic _ = ""

-- An assignment takes the place of an entry: the last one is found first.
unfoldable pub build_block_index_map : ℕ → List IrBlock → List (ℕ × ℕ) → List (ℕ × ℕ)
build_block_index_map index [] m = m
build_block_index_map index (block ∷ blocks) m =
    build_block_index_map (index + 1) blocks ((block.id, index) ∷ m)

unfoldable pub gas_label : ℕ → ℕ → Text
gas_label target current = format_nat target ++ codes (if leb target current then "b" else "f")

-- A line of the string literal.
abbrev pub asm_line : Text → Text
asm_line text = codes "    \"    " ++ text ++ codes "\\n\"\n"

abbrev pub Emitted : Type 0
Emitted = Option (Text × RegAlloc)

-- The guards on the output and the inputs, and what they let through.
abbrev pub with_output : RegAlloc → Option ℕ → (ℕ → Text × RegAlloc) → Text × RegAlloc
with_output r none body = ([], r)
with_output r (some output) body = body output

abbrev pub with_input : RegAlloc → List ℕ → (ℕ → Text × RegAlloc) → Text × RegAlloc
with_input r [] body = ([], r)
with_input r (input ∷ inputs) body = body input

abbrev pub with_inputs : RegAlloc → List ℕ → (ℕ → ℕ → Text × RegAlloc) → Text × RegAlloc
with_inputs r (left ∷ right ∷ inputs) body = body left right
with_inputs r inputs body = ([], r)

-- `mnemonic dest, input`: the destination is allocated first.
unfoldable pub emit_unary : String → RegAlloc → IrInstr → Text × RegAlloc
emit_unary mnemonic r i = with_output r i.output (λ output. with_input r i.inputs (λ input.
    let a : Text × RegAlloc = alloc r output in
    (asm_line (codes mnemonic ++ codes " " ++ a.0 ++ codes ", " ++ get a.1 input), a.1)))

-- `mnemonic dest, left, right`
unfoldable pub emit_binary : String → RegAlloc → IrInstr → Text × RegAlloc
emit_binary mnemonic r i = with_output r i.output (λ output. with_inputs r i.inputs (λ left right.
    let a : Text × RegAlloc = alloc r output in
    (
      asm_line (
          codes mnemonic
          ++ codes " "
          ++ a.0
          ++ codes ", "
          ++ get a.1 left
          ++ codes ", "
          ++ get a.1 right),
      a.1,
    )))

abbrev pub emit_const : FloatText → RegAlloc → ℕ → Option IrConstant → Text × RegAlloc
emit_const t r output none = ([], r)
emit_const t r output (some c) =
    let a : Text × RegAlloc = alloc r output in
    (asm_line (codes "mov " ++ a.0 ++ codes ", " ++ fmt_immediate t c), a.1)

unfoldable pub emit_mod : RegAlloc → IrInstr → Text × RegAlloc
emit_mod r i = with_output r i.output (λ output. with_inputs r i.inputs (λ left right.
    let a : Text × RegAlloc = alloc r output in
    (
      asm_line (codes "sdiv " ++ a.0 ++ codes ", " ++ get a.1 left ++ codes ", " ++ get a.1 right)
          ++ asm_line (
              codes "msub "
              ++ a.0
              ++ codes ", "
              ++ a.0
              ++ codes ", "
              ++ get a.1 right
              ++ codes ", "
              ++ get a.1 left),
      a.1,
    )))

abbrev pub emit_compare : RegAlloc → ℕ → ℕ → ℕ → Option CmpKind → Text × RegAlloc
emit_compare r output left right none = ([], r)
emit_compare r output left right (some kind) =
    let a : Text × RegAlloc = alloc r output in
    (
      asm_line (codes "cmp " ++ get a.1 left ++ codes ", " ++ get a.1 right)
          ++ asm_line (codes "cset " ++ a.0 ++ codes ", " ++ codes (cmp_suffix kind)),
      a.1,
    )

unfoldable pub emit_cmp : RegAlloc → IrInstr → Text × RegAlloc
emit_cmp r i =
    with_output r i.output
      (λ output. with_inputs r i.inputs (λ left right. emit_compare r output left right i.cmp_kind))

-- A branch to a target, if there is one: `mnemonic label`.
abbrev pub branch_line : Text → ℕ → Option ℕ → Option Text
branch_line mnemonic current none = none
branch_line mnemonic current (some target) = some (asm_line (mnemonic ++ gas_label target current))

unfoldable pub emit_branch : Text → List (ℕ × ℕ) → ℕ → Option ℕ → Option Text
emit_branch mnemonic m current none = some []
emit_branch mnemonic m current (some target) = branch_line mnemonic current (lookup_id target m)

abbrev pub then_text : Option Text → (Text → Option Text) → Option Text
then_text none f = none
then_text (some text) f = f text

abbrev pub unallocated : RegAlloc → Option Text → Emitted
unallocated r none = none
unallocated r (some text) = some (text, r)

unfoldable pub emit_br_true : RegAlloc → IrInstr → List (ℕ × ℕ) → ℕ → List ℕ → Option Text
emit_br_true r i m current [] = some []
emit_br_true r i m current (condition ∷ inputs) =
    then_text (emit_branch (codes "cbnz " ++ get r condition ++ codes ", ") m current i.true_target)
      (λ taken.
        then_text (emit_branch (codes "b ") m current i.false_target)
          (λ other. some (taken ++ other)))

abbrev pub callee_prefix : Arm64Platform → Text
callee_prefix Arm64Platform.mac_os = codes "_"
callee_prefix _ = []

-- A move between a register and `x0`, unless it is `x0`.
abbrev pub move_unless_x0 : Text → Text → Text
move_unless_x0 register line = if text_eq register (codes "x0") then [] else asm_line line

abbrev pub emit_result : Text → RegAlloc → Option ℕ → Text × RegAlloc
emit_result called r none = (called, r)
emit_result called r (some output) =
    let a : Text × RegAlloc = alloc r output in
    (called ++ move_unless_x0 a.0 (codes "mov " ++ a.0 ++ codes ", x0"), a.1)

unfoldable pub emit_call : Arm64Platform → RegAlloc → IrInstr → Option String → Text × RegAlloc
emit_call platform r i none = ([], r)
emit_call platform r i (some callee) =
    emit_result (asm_line (codes "bl " ++ callee_prefix platform ++ codes callee)) r i.output

unfoldable pub emit_ret : RegAlloc → List ℕ → Text
emit_ret r [] = asm_line (codes "ret")
emit_ret r (input ∷ inputs) =
    move_unless_x0 (get r input) (codes "mov x0, " ++ get r input) ++ asm_line (codes "ret")

-- The `switch` of `emitInstruction`.
unfoldable pub emit_op :
    FloatText → Arm64Platform → RegAlloc → IrInstr → List (ℕ × ℕ) → ℕ → IrOp → Emitted
emit_op t platform r i m current IrOp.const =
    some (with_output r i.output (λ output. emit_const t r output i.const_val))
emit_op t platform r i m current IrOp.copy = some (emit_unary "mov" r i)
emit_op t platform r i m current IrOp.mul = some (emit_binary "mul" r i)
emit_op t platform r i m current IrOp.div = some (emit_binary "sdiv" r i)
emit_op t platform r i m current IrOp.modulo = some (emit_mod r i)
emit_op t platform r i m current IrOp.neg = some (emit_unary "neg" r i)
emit_op t platform r i m current IrOp.not = some (emit_unary "mvn" r i)
emit_op t platform r i m current IrOp.cmp = some (emit_cmp r i)
emit_op t platform r i m current IrOp.jmp =
    unallocated r (emit_branch (codes "b ") m current i.true_target)
emit_op t platform r i m current IrOp.br_true = unallocated r (emit_br_true r i m current i.inputs)
emit_op t platform r i m current IrOp.call = some (emit_call platform r i i.callee)
emit_op t platform r i m current IrOp.ret = some (emit_ret r i.inputs, r)
emit_op t platform r i m current IrOp.load = some ([], r)
emit_op t platform r i m current IrOp.store = some ([], r)
emit_op t platform r i m current op = some (emit_binary (arm64_binary_op_mnemonic op) r i)

unfoldable pub emit_instruction :
    FloatText → Arm64Platform → RegAlloc → IrInstr → List (ℕ × ℕ) → ℕ → Emitted
emit_instruction t platform r i m current = emit_op t platform r i m current i.op
