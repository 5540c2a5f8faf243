-- ===== src/Driver/Program.antt =====
-- include/asmstudio/dsl/Program.hpp and src/dsl/Program.cpp: the facade. A member that the client
-- calls is a function or a request; what it writes to `m_output` is part of the reply. Stream and
-- functions are owned by the client too: a stream is its number.
use Prim.Native.String.{◌++◌ as string_append}
use asm_studio.Prelude.{
  ℕ, Bool, String, Option, none, some, List, [], ◌∷◌, ◌++◌, is_some, length, if◌then◌else◌,
}
use asm_studio.Text.{Text}
use asm_studio.Text.Decimal.{FloatText}
use asm_studio.Support.Types.{OptimizationLevel}
use asm_studio.Support.Diagnostic as Diagnostic
use asm_studio.Machine.Ub as Ub
use asm_studio.Machine.Floats.{Floats}
use asm_studio.Ir.{IrFunction, IrModule, find_function}
use asm_studio.Dsl.Builder.{Function, make_function}
use asm_studio.Lowering.Context as Context
use asm_studio.Lowering.Function.{lower}
use asm_studio.Optimizer.Passes.{Optimizer, make_optimizer, run_module, pass_count}
use asm_studio.Sim.State as State
use asm_studio.Sim.Run.{Ran, run}
use asm_studio.Sim.Trace.{print_trace}
use asm_studio.Codegen.Pseudo.{emit_pseudo_asm_module}
use asm_studio.Analysis.Explain.{explain}
use asm_studio.Analysis.Dot.{to_dot}
use asm_studio.Driver.Console.{
  print_optimize_requires_build, print_not_built, print_optimizer_summary, print_ir, print_assembly,
  print_control_flow, print_simulation_header, print_simulation_error, print_simulation_trace,
  print_return_value, print_explain, print_missing_function, print_visualization_written,
  print_visualization_open_error,
}

pub record Program : Type 0 where
  pub name : String
  pub functions : List Function
  pub diagnostics : Diagnostic.DiagnosticBag
  pub ir_module : Option IrModule
  pub output : ℕ

-- What is around a program: arithmetic on doubles and its text, names of blocks, which files can be
-- opened, and the fuel of the optimiser and of the simulator.
pub record Host : Type 0 where
  pub floats : Floats
  pub float_text : FloatText
  pub label : String → ℕ → String
  pub opens : String → Bool
  pub optimizer_fuel : ℕ
  pub simulator_fuel : ℕ

-- The program, what was written to its stream, and the file that was written.
pub record Reply : Type 0 where
  pub program : Program
  pub console : Text
  pub file : Option (String × Text)

-- `throws` leaves the program behind; `exhausted` means that fuel ran out.
pub data Answer : Type 0 where
  replies : Reply → Answer
  throws : Program → Answer
  undefined exhausted : Answer

-- `Program::Program`
unfoldable pub make_program : String → ℕ → Program
make_program name output = record {
  name = name;
  functions = [];
  diagnostics = [];
  ir_module = none;
  output = output;
}

-- The place of the new function, which the client goes on to build.
unfoldable pub create_function : Program → String → Program × ℕ
create_function p name =
    (record p { functions = p.functions ++ make_function name ∷ [] }, length p.functions)

unfoldable pub has_ir : Program → Bool
has_ir p = is_some p.ir_module

-- `none` is the exception.
unfoldable pub ir_module : Program → Option IrModule
ir_module p = p.ir_module

unfoldable pub set_output : Program → ℕ → Program
set_output p output = record p { output = output }

abbrev pub says : Program → Text → Answer
says p text = replies (record { program = p; console = text; file = none })

abbrev pub without_diagnostics : Program → Program
without_diagnostics p = record p { diagnostics = Diagnostic.clear p.diagnostics }

abbrev pub no_functions : Program → Program
no_functions p = record p {
  diagnostics =
      Diagnostic.emit p.diagnostics Diagnostic.Severity.warning
        (string_append "Program '" (string_append p.name "' has no functions."))
        (record { line = 0; col = 0; length = 0 });
}

abbrev pub built : Program → Context.Lowered IrModule → Answer
built p (Context.ok m) = says (record p { ir_module = some m }) []
built p Context.logic_error = throws p
built p Context.undefined = undefined

abbrev pub build_functions : Host → Program → List Function → Answer
build_functions host p [] = says (no_functions p) []
build_functions host p (function ∷ functions) =
    built p (lower host.label p.name (function ∷ functions))

unfoldable pub build : Host → Program → Answer
build host p = build_functions host (without_diagnostics p) p.functions

abbrev pub optimized : Program → Option (Ub.Ub (IrModule × Optimizer × Bool)) → Answer
optimized p none = exhausted
optimized p (some Ub.undefined) = undefined
optimized p (some (Ub.defined (m, optimizer, changed))) =
    says (record p { ir_module = some m })
      (print_optimizer_summary (pass_count optimizer) changed optimizer.last_fired_passes)

abbrev pub optimize_module : Host → Program → OptimizationLevel → Option IrModule → Answer
optimize_module host p level none = says p print_optimize_requires_build
optimize_module host p level (some m) =
    optimized p (run_module (make_optimizer host.floats level) host.optimizer_fuel m)

unfoldable pub optimize : Host → Program → OptimizationLevel → Answer
optimize host p level = optimize_module host p level p.ir_module

-- What a member shows of the module, or that there is none.
abbrev pub shown : Program → String → Option IrModule → (IrModule → Answer) → Answer
shown p tag none show = says p (print_not_built tag "call build() first")
shown p tag (some m) show = show m

unfoldable pub show_ir : Host → Program → Answer
show_ir host p = shown p "IR" p.ir_module (λ m. says p (print_ir host.float_text p.name m))

unfoldable pub show_assembly : Host → Program → Answer
show_assembly host p =
    shown p "ASM" p.ir_module
      (λ m. says p (print_assembly p.name (emit_pseudo_asm_module host.float_text m)))

unfoldable pub show_control_flow : Host → Program → Answer
show_control_flow host p =
    shown p "CFG" p.ir_module (λ m. says p (print_control_flow p.name (to_dot m)))

-- The trace of the simulator after the run is written before its value; after an error there is none.
abbrev pub simulated : Host → Program → Text → Option Ran → Answer
simulated host p header none = exhausted
simulated host p header (some (s, State.undefined)) = undefined
simulated host p header (some (s, State.err error)) =
    says p (header ++ print_simulation_error error)
simulated host p header (some (s, State.ok value)) = says p (
    header
    ++ print_simulation_trace (print_trace host.float_text s)
    ++ print_return_value host.float_text value)

unfoldable pub simulate : Host → Program → String → Answer
simulate host p function_name = shown p "SIM" p.ir_module (λ m.
    simulated host p (print_simulation_header p.name function_name) (
      run host.floats (State.make_simulator m State.default_max_steps State.default_max_call_depth)
        host.simulator_fuel State.reset function_name))

abbrev pub explained : Program → String → Option IrFunction → Answer
explained p function_name none = says p (print_missing_function function_name)
explained p function_name (some function) = says p (print_explain (explain function))

unfoldable pub explain_function : Host → Program → String → Answer
explain_function host p function_name =
    shown p "EXPLAIN" p.ir_module (λ m. explained p function_name (find_function m function_name))

unfoldable pub visualize : Host → Program → String → Answer
visualize host p output_path = shown p "VIZ" p.ir_module (λ m.
    if host.opens output_path
    then replies (record {
      program = p;
      console = print_visualization_written output_path;
      file = some (output_path, to_dot m);
    })
    else says p (print_visualization_open_error output_path))
