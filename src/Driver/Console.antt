-- ===== src/Driver/Console.antt =====
-- src/driver/ConsolePresenter.cpp: each member gives the text that it writes to `m_output`.
use asm_studio.Prelude.{
  ℕ, Bool, true, false, String, Option, none, some, List, [], ◌∷◌, ◌++◌, if◌then◌else◌,
}
use asm_studio.Text.{Text, codes, newline, join, each}
use asm_studio.Text.Decimal.{FloatText, format_nat, format_int}
use asm_studio.Support.Types.{cmp_kind_name}
use asm_studio.Ir.{
  RegValue, int64, uint64, double, bool, IrInstr, IrBlock, IrFunction, IrModule, ir_op_name,
}
use asm_studio.Sim.State.{SimError, sim_error_name}
use asm_studio.Codegen.Pseudo.{where_some}
use asm_studio.Driver.Format.{write, write_line}

-- `toString` of the alternatives of a value.
abbrev pub to_string : FloatText → RegValue → Text
to_string t (int64 value) = format_int value
to_string t (uint64 value) = format_nat value
to_string t (double value) = t.stream value
to_string t (bool true) = codes "true"
to_string t (bool false) = codes "false"

unfoldable pub print_optimize_requires_build : Text
print_optimize_requires_build = write_line "[OPT] Call build() before optimize()." []

unfoldable pub print_not_built : String → String → Text
print_not_built tag next_step = write_line "[{}] Not built — {}." (codes tag ∷ codes next_step ∷ [])

unfoldable pub print_optimizer_summary : ℕ → Bool → List String → Text
print_optimizer_summary pass_count changed fired_passes =
    write_line "[OPT] {} passes registered, IR {}."
      (format_nat pass_count ∷ (if changed then codes "was modified" else codes "unchanged") ∷ [])
    ++ each (λ name. write_line "  [fired] {}" (codes name ∷ [])) fired_passes

unfoldable pub print_instruction : FloatText → IrInstr → Text
print_instruction t i = join (
    write "    " []
    ∷ where_some i.output (λ id. write "v{} = " (format_nat id ∷ []))
    ∷ write "{}" (codes (ir_op_name i.op) ∷ [])
    ∷ where_some i.cmp_kind (λ kind. write ".{}" (codes (cmp_kind_name kind) ∷ []))
    ∷ each (λ id. write " v{}" (format_nat id ∷ [])) i.inputs
    ∷ where_some i.const_val (λ value. write " {}" (to_string t value ∷ []))
    ∷ where_some i.callee (λ callee. write " {}" (codes callee ∷ []))
    ∷ where_some i.true_target (λ id. write " -> blk_{}" (format_nat id ∷ []))
    ∷ where_some i.false_target (λ id. write " else blk_{}" (format_nat id ∷ []))
    ∷ newline
    ∷ [])

unfoldable pub print_ir : FloatText → String → IrModule → Text
print_ir t program_name m =
    write_line "=== IR: {} ===" (codes program_name ∷ [])
    ++ each
        (λ (function : IrFunction).
          write_line "fn {}:" (codes function.name ∷ [])
          ++ each
              (λ (b : IrBlock).
                write_line "  .{}:" (codes b.name ∷ []) ++ each (print_instruction t) b.instrs)
              function.blocks)
        m.functions

unfoldable pub print_assembly : String → Text → Text
print_assembly program_name assembly =
    write_line "=== Pseudo-Assembly: {} ===" (codes program_name ∷ []) ++ write "{}" (assembly ∷ [])

unfoldable pub print_control_flow : String → Text → Text
print_control_flow program_name dot =
    write_line "=== Control-Flow Graph (DOT): {} ===" (codes program_name ∷ [])
    ++ write "{}" (dot ∷ [])

unfoldable pub print_simulation_header : String → String → Text
print_simulation_header program_name function_name =
    write_line "=== Simulation: {} in '{}' ===" (codes program_name ∷ codes function_name ∷ [])

unfoldable pub print_simulation_error : SimError → Text
print_simulation_error error = write_line "  Error: {}" (codes (sim_error_name error) ∷ [])

unfoldable pub print_simulation_trace : Text → Text
print_simulation_trace trace = write "{}" (trace ∷ [])

unfoldable pub print_return_value : FloatText → Option RegValue → Text
print_return_value t none = write_line "  Return value: void" []
print_return_value t (some value) =
    write "  Return value: " [] ++ write "{}" (to_string t value ∷ []) ++ newline

unfoldable pub print_explain : Text → Text
print_explain explanation = write "{}" (explanation ∷ [])

unfoldable pub print_missing_function : String → Text
print_missing_function function_name =
    write_line "[EXPLAIN] Function '{}' not found." (codes function_name ∷ [])

unfoldable pub print_visualization_written : String → Text
print_visualization_written output_path =
    write_line "[VIZ] DOT written to '{}'." (codes output_path ∷ [])

unfoldable pub print_visualization_open_error : String → Text
print_visualization_open_error output_path =
    write_line "[VIZ] Cannot open '{}' for writing." (codes output_path ∷ [])
