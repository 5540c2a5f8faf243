-- ===== src/Codegen/Arm64.antt =====
-- src/codegen/Arm64Emitter.cpp: functions and modules. The allocator is passed on, and `none` is the
-- exception of `blockIndexMap.at`.
use asm_studio.Prelude.{ℕ, ◌+◌, Option, none, some, List, [], ◌∷◌, ◌++◌, String}
use asm_studio.Text.{Text, codes, newline, join, each}
use asm_studio.Text.Decimal.{FloatText, format_nat}
use asm_studio.Ir.{IrInstr, IrBlock, IrFunction, IrModule}
use asm_studio.Codegen.Registers.{RegAlloc, no_registers, insert_name}
use asm_studio.Codegen.Arm64Ops.{
  Arm64Platform, Emitted, build_block_index_map, emit_instruction, then_text,
}

abbrev pub then_emit : Emitted → (RegAlloc → Emitted) → Emitted
then_emit none next = none
then_emit (some (text, r)) next = after (next r)
  where
    after : Emitted → Emitted
    after none = none
    after (some (more, r')) = some (text ++ more, r')

unfoldable pub emit_instructions :
    FloatText → Arm64Platform → RegAlloc → List IrInstr → List (ℕ × ℕ) → ℕ → Emitted
emit_instructions t platform r [] m current = some ([], r)
emit_instructions t platform r (i ∷ instrs) m current =
    then_emit (emit_instruction t platform r i m current)
      (λ r'. emit_instructions t platform r' instrs m current)

-- The local label of a block, with its name.
abbrev pub block_label : ℕ → IrBlock → Text
block_label index block =
    codes "    \"" ++ format_nat index ++ codes ":  // " ++ codes block.name ++ codes "\\n\"\n"

unfoldable pub emit_blocks :
    FloatText → Arm64Platform → RegAlloc → List (ℕ × ℕ) → ℕ → List IrBlock → Emitted
emit_blocks t platform r m index [] = some ([], r)
emit_blocks t platform r m index (block ∷ blocks) =
    then_emit (some (block_label index block, r)) (λ r₀.
      then_emit (emit_instructions t platform r₀ block.instrs m index)
        (λ r₁. emit_blocks t platform r₁ m (index + 1) blocks))

abbrev pub platform_name : Arm64Platform → String
platform_name Arm64Platform.mac_os = "macOS"
platform_name Arm64Platform.linux = "Linux"
platform_name Arm64Platform.windows = "Windows"

-- All registers that were allocated, and x0, cc and memory.
unfoldable pub clobbers : RegAlloc → List Text
clobbers r =
    insert_name (codes "memory")
      (insert_name (codes "cc") (insert_name (codes "x0") r.used_registers))

abbrev pub quoted : Text → Text
quoted name = codes "\"" ++ name ++ codes "\""

abbrev pub comma_separated : List Text → Text
comma_separated [] = []
comma_separated (name ∷ names) = quoted name ++ each (λ n. codes ", " ++ quoted n) names

abbrev pub function_header : Arm64Platform → IrFunction → Text
function_header platform function = join (
    codes "// ARM64 ("
    ∷ codes (platform_name platform)
    ∷ codes ") — fn: "
    ∷ codes function.name
    ∷ newline
    ∷ codes "asm volatile(\n"
    ∷ codes "    \"// fn: "
    ∷ codes function.name
    ∷ codes " ["
    ∷ codes (platform_name platform)
    ∷ codes "]\\n\"\n"
    ∷ [])

abbrev pub finish_function : Arm64Platform → IrFunction → Emitted → Option Text
finish_function platform function none = none
finish_function platform function (some (body, r)) = some (
    function_header platform function
    ++ body
    ++ codes "    :\n    :\n    : "
    ++ comma_separated (clobbers r)
    ++ codes "\n);\n")

unfoldable pub emit_arm64_asm_volatile : FloatText → Arm64Platform → IrFunction → Option Text
emit_arm64_asm_volatile t platform function = finish_function platform function (
    emit_blocks t platform no_registers (build_block_index_map 0 function.blocks []) 0
      function.blocks)

abbrev pub emit_functions : FloatText → Arm64Platform → List IrFunction → Option Text
emit_functions t platform [] = some []
emit_functions t platform (function ∷ functions) =
    then_text (emit_arm64_asm_volatile t platform function) (λ text.
      then_text (emit_functions t platform functions) (λ rest. some (text ++ newline ++ rest)))

unfoldable pub emit_arm64_module : FloatText → Arm64Platform → IrModule → Option Text
emit_arm64_module t platform m = then_text (emit_functions t platform m.functions) (λ text.
    some (codes "// ARM64 asm volatile — module: " ++ codes m.name ++ newline ++ newline ++ text))
