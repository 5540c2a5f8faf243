-- ===== src/Driver/Sessions.antt =====
-- src/dsl/Program.cpp: what holds of a program through a client's session.
use mathlib.Core.Path.{subst}
use asm_studio.Prelude.{
  ℕ, zero, suc, ◌≤◌, ◌<◌, ◌≡◌, refl, ap, ◌∙◌, Bool, true, false, String, Option, none, some, List,
  [], ◌∷◌, arith, if◌then◌else◌, length, length-append,
}
use asm_studio.Text.{Text}
use asm_studio.Support.Types.{OptimizationLevel}
use asm_studio.Support.Diagnostic.{has_errors, emit, clear}
use asm_studio.Machine.Ub as Ub
use asm_studio.Ir.{IrModule, IrFunction}
use asm_studio.Lowering.Context as Context
use asm_studio.Lowering.Function.{lower, in_module}
use asm_studio.Dsl.Builder.{Function}
use asm_studio.Optimizer.Passes.{ModuleRun, make_optimizer, run_module, in_optimizer}
use asm_studio.Sim.State as State
use asm_studio.Sim.Run.{Ran}
use asm_studio.Driver.Program.{
  Program, Host, Answer, replies, throws, undefined, exhausted, build, optimize, show_ir,
  show_assembly, show_control_flow, simulate, explain_function, visualize, optimize_module,
  optimized, simulated, shown, built, build_functions, without_diagnostics, no_functions, explained,
  create_function, set_output, make_program,
}
use asm_studio.Driver.Requests.{
  Request, perform, Reaches, start, create, edit, redirect, reply, failure, edit_function,
}
use asm_studio.Driver.BuildCounts.{
  OfLength, RunOfLength, lower_functions-OfLength, run_functions-RunOfLength,
}

-- A module that a program with so many functions may have.
pub record IsBuildOf (name : String) (count : ℕ) (m : IrModule) : Type 0 where
  pub named : m.name ≡ name
  pub some_function : 0 < length m.functions
  pub no_more : length m.functions ≤ count

abbrev pub AnyBuildOf : String → ℕ → Option IrModule → Type 0
AnyBuildOf name count none = Unit
AnyBuildOf name count (some m) = IsBuildOf name count m

-- The diagnostics have no error, and a module is one of the program's functions.
pub record IsSane (p : Program) : Type 0 where
  pub no_errors : has_errors p.diagnostics ≡ false
  pub ir_module : AnyBuildOf p.name (length p.functions) p.ir_module

-- What an answer leaves behind is sane, and the program has its name, functions and stream.
abbrev LeavesProgram : Program → Program → Type 0
LeavesProgram p q =
    IsSane q × (q.name ≡ p.name) × (q.functions ≡ p.functions) × (q.output ≡ p.output)

abbrev Leaves : Program → Answer → Type 0
Leaves p (replies r) = LeavesProgram p r.program
Leaves p (throws q) = LeavesProgram p q
Leaves p undefined = Unit
Leaves p exhausted = Unit

module _ (host : Host) (p : Program) (h : IsSane p) where
  same : LeavesProgram p p
  same = (h, refl, refl, refl)

  shown-Leaves :
      (tag : String) (o : Option IrModule) (show : IrModule → Answer)
      → ((m : IrModule) → Leaves p (show m))
      → Leaves p (shown p tag o show)
  shown-Leaves tag none show k = same
  shown-Leaves tag (some m) show k = k m

  without_diagnostics-IsSane : IsSane (without_diagnostics p)
  unfolding has_errors clear
  without_diagnostics-IsSane = record { no_errors = refl; ir_module = h.ir_module }

  no_functions-IsSane : IsSane (no_functions (without_diagnostics p))
  unfolding has_errors clear emit
  no_functions-IsSane = record { no_errors = refl; ir_module = h.ir_module }

  build-Leaves : Leaves p (build host p)
  unfolding build lower
  build-Leaves = go p.functions refl
    where
      done :
          (functions : List Function) (r : Context.Lowered (List IrFunction))
          → functions ≡ p.functions
          → 0 < length functions
          → OfLength (length functions) r
          → Leaves p (built (without_diagnostics p) (in_module p.name r))
      done functions (Context.ok gs) e l k = (
        record {
          no_errors = without_diagnostics-IsSane.no_errors;
          ir_module = record {
            named = refl;
            some_function = omega (arith, l, k);
            no_more = omega (arith, k, ap length e);
          };
        },
        refl,
        refl,
        refl,
      )
      done functions Context.logic_error e l k = (without_diagnostics-IsSane, refl, refl, refl)
      done functions Context.undefined e l k = tt

      go :
          (functions : List Function)
          → functions ≡ p.functions
          → Leaves p (build_functions host (without_diagnostics p) functions)
      go [] e = (no_functions-IsSane, refl, refl, refl)
      go (function ∷ functions) e =
          done (function ∷ functions) _ e (omega arith)
            (lower_functions-OfLength host.label (function ∷ functions))

  optimize-Leaves : (level : OptimizationLevel) → Leaves p (optimize host p level)
  unfolding optimize run_module
  optimize-Leaves level = go p.ir_module h.ir_module
    where
      done :
          (m : IrModule) (r : ModuleRun)
          → IsBuildOf p.name (length p.functions) m
          → RunOfLength (length m.functions) r
          → Leaves p (optimized p (in_optimizer (make_optimizer host.floats level) m r))
      done m none k l = tt
      done m (some Ub.undefined) k l = tt
      done m (some (Ub.defined r)) k l = (
        record {
          no_errors = h.no_errors;
          ir_module = record {
            named = k.named;
            some_function = omega (arith, l, k.some_function);
            no_more = omega (arith, l, k.no_more);
          };
        },
        refl,
        refl,
        refl,
      )

      go :
          (o : Option IrModule)
          → AnyBuildOf p.name (length p.functions) o
          → Leaves p (optimize_module host p level o)
      go none k = same
      go (some m) k = done m _ k (
          run_functions-RunOfLength (make_optimizer host.floats level).passes host.optimizer_fuel
            m.functions [])

  simulated-Leaves : (header : Text) (r : Option Ran) → Leaves p (simulated host p header r)
  simulated-Leaves header none = tt
  simulated-Leaves header (some (s, State.ok value)) = same
  simulated-Leaves header (some (s, State.err error)) = same
  simulated-Leaves header (some (s, State.undefined)) = tt

  explained-Leaves : (name : String) (o : Option IrFunction) → Leaves p (explained p name o)
  explained-Leaves name none = same
  explained-Leaves name (some function) = same

  either-Leaves :
      (a b : Answer) (opens : Bool) → Leaves p a → Leaves p b → Leaves p (if opens then a else b)
  either-Leaves a b true k l = k
  either-Leaves a b false k l = l

  perform-Leaves : (request : Request) → Leaves p (perform host p request)
  unfolding show_ir show_assembly show_control_flow simulate explain_function visualize
  perform-Leaves Request.build = build-Leaves
  perform-Leaves (Request.optimize level) = optimize-Leaves level
  perform-Leaves Request.show_ir = shown-Leaves "IR" p.ir_module _ (λ m. same)
  perform-Leaves Request.show_assembly = shown-Leaves "ASM" p.ir_module _ (λ m. same)
  perform-Leaves Request.show_control_flow = shown-Leaves "CFG" p.ir_module _ (λ m. same)
  perform-Leaves (Request.simulate name) =
      shown-Leaves "SIM" p.ir_module _ (λ m. simulated-Leaves _ _)
  perform-Leaves (Request.explain name) =
      shown-Leaves "EXPLAIN" p.ir_module _ (λ m. explained-Leaves name _)
  perform-Leaves (Request.visualize path) =
      shown-Leaves "VIZ" p.ir_module _ (λ m. either-Leaves _ _ (host.opens path) same same)

length-edit_function :
    (g : Function → Function) (n : ℕ) (functions : List Function)
    → length (edit_function g n functions) ≡ length functions
length-edit_function g n [] = refl
length-edit_function g zero (function ∷ functions) = refl
length-edit_function g (suc n) (function ∷ functions) = ap suc (length-edit_function g n functions)

AnyBuildOf-le :
    (name : String) (n k : ℕ) (o : Option IrModule)
    → n ≤ k
    → AnyBuildOf name n o
    → AnyBuildOf name k o
AnyBuildOf-le name n k none l h = tt
AnyBuildOf-le name n k (some m) l h = record {
  named = h.named;
  some_function = h.some_function;
  no_more = omega (arith, l, h.no_more);
}

-- Through any session of a client that leaves the diagnostics alone, the program keeps its name, its
-- diagnostics have no error, and where it has a module, that has the program's name, at least one
-- function, and no more functions than the program.
pub Reaches-IsSane :
    (host : Host) (name : String) (output : ℕ) (p : Program)
    → Reaches host (make_program name output) p
    → IsSane p × (p.name ≡ name)
unfolding make_program create_function set_output has_errors
Reaches-IsSane host name output p start = (record { no_errors = refl; ir_module = tt }, refl)
Reaches-IsSane host name output p (create q function r) =
    let (h, e) = Reaches-IsSane host name output q r in
    (
      record {
        no_errors = h.no_errors;
        ir_module =
            AnyBuildOf-le q.name _ _ q.ir_module (omega (arith, length-append {0})) h.ir_module;
      },
      e,
    )
Reaches-IsSane host name output p (edit q g n r) =
    let (h, e) = Reaches-IsSane host name output q r in
    (
      record {
        no_errors = h.no_errors;
        ir_module =
            AnyBuildOf-le q.name _ _ q.ir_module
              (omega (arith, length-edit_function g n q.functions)) h.ir_module;
      },
      e,
    )
Reaches-IsSane host name output p (redirect q o r) =
    let (h, e) = Reaches-IsSane host name output q r in
    (record { no_errors = h.no_errors; ir_module = h.ir_module }, e)
Reaches-IsSane host name output p (reply q request answer r a) =
    let (h, e) = Reaches-IsSane host name output q r in
    let (s, n, f, o) = subst (Leaves q) a (perform-Leaves host q h request) in (s, n ∙ e)
Reaches-IsSane host name output p (failure q q' request r a) =
    let (h, e) = Reaches-IsSane host name output q r in
    let (s, n, f, o) = subst (Leaves q) a (perform-Leaves host q h request) in (s, n ∙ e)
