-- ===== src/Driver/Requests.antt =====
-- src/dsl/Program.cpp: the members that write, as requests, and the sessions of a client.
use asm_studio.Prelude.{ℕ, zero, suc, String, List, [], ◌∷◌, ◌≡◌}
use asm_studio.Support.Types.{OptimizationLevel}
use asm_studio.Dsl.Builder.{Function}
use asm_studio.Driver.Program.{
  Program, Host, Reply, Answer, replies, throws, create_function, set_output,
}
use asm_studio.Driver.Program as Facade

pub data Request : Type 0 where
  build : Request
  optimize : OptimizationLevel → Request
  show_ir show_assembly show_control_flow : Request
  simulate explain visualize : String → Request

abbrev pub perform : Host → Program → Request → Answer
perform host p Request.build = Facade.build host p
perform host p (Request.optimize level) = Facade.optimize host p level
perform host p Request.show_ir = Facade.show_ir host p
perform host p Request.show_assembly = Facade.show_assembly host p
perform host p Request.show_control_flow = Facade.show_control_flow host p
perform host p (Request.simulate function_name) = Facade.simulate host p function_name
perform host p (Request.explain function_name) = Facade.explain_function host p function_name
perform host p (Request.visualize output_path) = Facade.visualize host p output_path

-- The client builds on a function that it was given; it has no other way to change one.
abbrev pub edit_function : (Function → Function) → ℕ → List Function → List Function
edit_function g n [] = []
edit_function g zero (function ∷ functions) = g function ∷ functions
edit_function g (suc n) (function ∷ functions) = function ∷ edit_function g n functions

-- What a client makes of a program, one call after the other.
pub data Reaches (host : Host) (p : Program) : Program → Type 0 where
  start : Reaches host p p
  create :
      (q : Program) (name : String) → Reaches host p q → Reaches host p (create_function q name).0
  edit :
      (q : Program) (g : Function → Function) (n : ℕ)
      → Reaches host p q
      → Reaches host p (record q { functions = edit_function g n q.functions })
  redirect : (q : Program) (output : ℕ) → Reaches host p q → Reaches host p (set_output q output)
  reply :
      (q : Program) (request : Request) (r : Reply)
      → Reaches host p q
      → perform host q request ≡ replies r
      → Reaches host p r.program
  failure :
      (q q' : Program) (request : Request)
      → Reaches host p q
      → perform host q request ≡ throws q'
      → Reaches host p q'
