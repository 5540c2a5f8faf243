-- ===== src/Examples/Outputs.antt =====
-- The theorems on what is written, and on a program's session, at concrete inputs.
use asm_studio.Prelude.{
  ◌≡◌, ◌≢◌, refl, true, false, none, [], ◌∷◌, ◌++◌, arith, leb, ◌%◌, ◌^◌, is_some,
}
use asm_studio.Prelude.Int.{negsuc}
use asm_studio.Text.{codes}
use asm_studio.Text.Decimal.{FloatText, format_nat, format_int}
use asm_studio.Ir.{IrBlock}
use asm_studio.Parse.Lexer.{is_register, next}
use asm_studio.Parse.Numbers.{is_register-format_nat, next-format_int, number_token}
use asm_studio.Codegen.Registers.{RegAlloc, no_registers, alloc, get}
use asm_studio.Codegen.RegisterLaws.{
  IsWellFormedAlloc, KeepsRegisters, no_registers-IsWellFormedAlloc, alloc-IsWellFormedAlloc,
  get-ne,
}
use asm_studio.Support.Diagnostic.{clear}
use asm_studio.Codegen.Arm64Ops.{Arm64Platform}
use asm_studio.Codegen.Arm64.{emit_arm64_asm_volatile}
use asm_studio.Codegen.Emission.{all_find_blocks, emit_arm64_asm_volatile-is_some}
use asm_studio.Codegen.LoweredEmission.{EmitsModule, lower-EmitsModule}
use asm_studio.Lowering.Function.{lower}
use asm_studio.Lowering.Total.{all_assign_to}
use asm_studio.Dsl.Builder.{statements}
use asm_studio.Analysis.Dot.{build_block_label, block_label_lines}
use asm_studio.Analysis.Labels.{read_quoted, read_quoted-build_block_label}
use asm_studio.Driver.Format.{format}
use asm_studio.Driver.Templates.{template, interleave, format-template}
use asm_studio.Driver.Program.{Program, Host, make_program, no_functions, build, create_function}
use asm_studio.Driver.Requests.{Request, start, create, reply}
use asm_studio.Driver.Sessions.{IsSane, Reaches-IsSane}
use asm_studio.Examples.Samples.{no_floats, plain_label, sum_function, branching, load_constant}

-- A stand-in for the parameter: every double is written as nothing.
abbrev no_float_text : FloatText
no_float_text = record { to_string = λ d. []; stream = λ d. [] }

abbrev host : Host
host = record {
  floats = no_floats;
  float_text = no_float_text;
  label = plain_label;
  opens = λ path. true;
  optimizer_fuel = 30;
  simulator_fuel = 100002;
}

abbrev demo : Program
demo = make_program "demo" 0

is_register-format_nat_example : is_register (b'r' ∷ format_nat 16) ≡ leb (16 % 2 ^ 64) 15
is_register-format_nat_example = is_register-format_nat 16

next-format_int_example :
    next (record { rest = format_int (negsuc 41) ++ codes ", r1"; line = 1; col = 9 })
    ≡ number_token (format_int (negsuc 41)) (codes ", r1") 1 9
next-format_int_example = next-format_int (negsuc 41) (codes ", r1") 1 9 refl

alloc-IsWellFormedAlloc_example :
    IsWellFormedAlloc (alloc no_registers 3).1
    × KeepsRegisters no_registers (alloc no_registers 3).1
    × (get (alloc no_registers 3).1 3 ≡ (alloc no_registers 3).0)
alloc-IsWellFormedAlloc_example =
    alloc-IsWellFormedAlloc no_registers 3 no_registers-IsWellFormedAlloc

abbrev two_values : RegAlloc
two_values = (alloc (alloc no_registers 3).1 4).1

two_values-IsWellFormedAlloc : IsWellFormedAlloc two_values
two_values-IsWellFormedAlloc =
    (alloc-IsWellFormedAlloc (alloc no_registers 3).1 4
      (alloc-IsWellFormedAlloc no_registers 3 no_registers-IsWellFormedAlloc).0).0

get-ne_example : get two_values 3 ≢ get two_values 4
unfolding alloc
get-ne_example = get-ne two_values 3 4 two_values-IsWellFormedAlloc refl refl (omega arith)

emit_arm64_asm_volatile-is_some_example :
    is_some (emit_arm64_asm_volatile no_float_text Arm64Platform.linux branching)
    ≡ all_find_blocks branching.blocks branching.blocks
emit_arm64_asm_volatile-is_some_example =
    emit_arm64_asm_volatile-is_some no_float_text Arm64Platform.linux branching

lower-EmitsModule_example :
    EmitsModule no_float_text Arm64Platform.mac_os (lower plain_label "demo" (sum_function ∷ []))
unfolding all_assign_to statements
lower-EmitsModule_example =
    lower-EmitsModule plain_label "demo" (sum_function ∷ []) no_float_text Arm64Platform.mac_os
      (refl, tt)

abbrev quoting_block : IrBlock
quoting_block = record { name = "a \"b\""; id = 0; instrs = load_constant ∷ [] }

read_quoted-build_block_label_example :
    read_quoted false (build_block_label quoting_block ++ b'"' ∷ codes ", align=left")
    ≡ (block_label_lines quoting_block, codes ", align=left")
read_quoted-build_block_label_example =
    read_quoted-build_block_label quoting_block (codes ", align=left") refl

format-template_example :
    format
      (template (codes "[") (codes "] Not built — " ∷ codes "." ∷ []))
      (codes "IR" ∷ codes "{}" ∷ [])
    ≡ interleave
        (codes "[")
        (codes "] Not built — " ∷ codes "." ∷ [])
        (codes "IR" ∷ codes "{}" ∷ [])
format-template_example =
    format-template (codes "[") (codes "] Not built — " ∷ codes "." ∷ [])
      (codes "IR" ∷ codes "{}" ∷ []) refl (refl, (refl, tt))

abbrev warned_demo : Program
warned_demo = no_functions demo

Reaches-IsSane_example :
    IsSane (create_function warned_demo "main").0
    × ((create_function warned_demo "main").0.name ≡ "demo")
unfolding make_program build clear
Reaches-IsSane_example = Reaches-IsSane host "demo" 0 (create_function warned_demo "main").0 (
    create warned_demo "main" (
      reply demo Request.build (record { program = warned_demo; console = []; file = none }) start
        refl))
