-- ===== src/Lowering/WellFormed.antt =====
-- `lowerFunction` of src/ir/Lowering.cpp: the well-formedness of its results.
use text.Mathlib.TextEquality.{eq_iff}
use mathlib.Core.Path.{subst}
use asm_studio.Prelude.{
  ℕ, ◌<◌, ◌≡◌, refl, sym, ◌∙◌, Bool, true, false, none, some, List, [], ◌∷◌, String, arith, length,
  All, All-map, is_some, if◌then◌else◌, Bool-cases, inl, inr, get_elem?, str_eq, map,
}
use asm_studio.Ir.{IrOp, IrFunction, IrBlock, rebuild_block_index}
use asm_studio.Ir.Constants.{IsSoundFunction}
use asm_studio.Dsl.Syntax.{Variable}
use asm_studio.Dsl.Builder.{Function, statements}
use asm_studio.Lowering.Context.{Lowered, ok, logic_error, undefined, LoweringContext, lookup_name}
use asm_studio.Lowering.Expr.{operator_instr}
use asm_studio.Lowering.Function.{
  contains_name, declare_slot, declare_initialised, declare_variables, initial_context, lower_body,
  lower_function, finish, immediately_assigned_variables,
}
use asm_studio.Lowering.Invariant.{
  IsValidBlock, IsWellFormed, Extends, Extends-refl, Returns, Returns-bind, Returns-map,
  alloc_value-Returns,
}
use asm_studio.Lowering.Operations.{alloc_block-Returns, emit-Returns, set_variable-Returns}
use asm_studio.Lowering.Valid.{HasBlock, load-Returns, operator_instr-IsValid}
use asm_studio.Lowering.Total.{Declares, all_assign_to, lower_statements-Returns'}

abbrev Declared : String → LoweringContext → Type 0
Declared name d = is_some (lookup_name name d.variable_table) ≡ true

abbrev pub variable_names : List Variable → List String
variable_names vars = map (λ (v : Variable). v.name) vars

declare_slot-Returns :
    (c : LoweringContext) (v : Variable)
    → IsWellFormed c
    → Returns c (λ u d. Declared v.name d) (declare_slot v c)
unfolding declare_slot
declare_slot-Returns c v w =
    Returns-bind c _ (λ u d. Declared v.name d) _ _ (alloc_value-Returns c w v.type none)
      λ id d wd x p. set_variable-Returns d wd v.name id p.0 p.1

declare_initialised-Returns :
    (c : LoweringContext) (entry : ℕ) (v : Variable)
    → IsWellFormed c
    → HasBlock c entry
    → Returns c (λ u d. Declared v.name d) (declare_initialised entry v c)
unfolding declare_initialised
declare_initialised-Returns c entry v w hb =
    Returns-bind c _ (λ u d. Declared v.name d) _ _ (alloc_value-Returns c w v.type (some v.init))
      λ init c1 w1 x1 p1.
        Returns-bind c1 (λ u d. Unit) (λ u d. Declared v.name d) _ _
          (load-Returns entry c1 init v.init w1 (omega (arith, x1.blocks_kept)) p1.0
            (λ k' e. mathlib.Core.Option.some-injective v.init k' (sym p1.1 ∙ e)))
          λ u c2 w2 x2 p2.
            Returns-bind c2 _ (λ u d. Declared v.name d) _ _ (alloc_value-Returns c2 w2 v.type none)
              λ slot c3 w3 x3 p3.
                Returns-bind c3 (λ u d. Unit) (λ u d. Declared v.name d) _ _
                  (emit-Returns c3 w3 entry (operator_instr IrOp.copy (init ∷ []) slot)
                    (omega (arith, x1.blocks_kept, x2.blocks_kept, x3.blocks_kept))
                    (operator_instr-IsValid c3 IrOp.copy (init ∷ []) slot
                      (omega (arith, p1.0, x2.values_kept, x3.values_kept), tt) p3.0 p3.1))
                  λ u' c4 w4 x4 p4.
                    set_variable-Returns c4 w4 v.name slot (omega (arith, p3.0, x4.values_kept))
                      (x4.constants_kept slot p3.0 ∙ p3.1)

-- All the names have slots afterwards.
pub declare_variables-Returns :
    (c : LoweringContext) (entry : ℕ) (assigned : List String) (vars : List Variable)
    → IsWellFormed c
    → HasBlock c entry
    → Returns c (λ u d. Declares (variable_names vars) d) (declare_variables entry assigned vars c)
unfolding declare_variables
declare_variables-Returns c entry assigned [] w hb = (w, Extends-refl c, λ name h. cc)
declare_variables-Returns c entry assigned (v ∷ vars) w hb =
    Returns-bind c (λ u d. Declared v.name d) (λ u d. Declares (variable_names (v ∷ vars)) d) _ _
      (first (contains_name v.name assigned))
      λ u d wd x p.
        Returns-map d _ _ _
          (declare_variables-Returns d entry assigned vars wd (omega (arith, x.blocks_kept)))
          λ u' e we y q name h. both d e y p q name h
  where
    first :
        (b : Bool)
        → Returns c
            (λ u d. Declared v.name d)
            ((if b then declare_slot v else declare_initialised entry v) c)
    first true = declare_slot-Returns c v w
    first false = declare_initialised-Returns c entry v w hb

    both :
        (d e : LoweringContext)
        → Extends d e
        → Declared v.name d
        → Declares (variable_names vars) e
        → Declares (variable_names (v ∷ vars)) e
    both d e y p q name h = elim (Bool-cases (str_eq v.name name)) [
      | inl k ↦ subst (λ n. Declared n e) ((eq_iff v.name name).0 k) (y.names_kept v.name p)
      | inr k ↦ q name (ground (arith, k, h))
    ]

pub initial_context-IsWellFormed : (name : String) → IsWellFormed (initial_context name)
initial_context-IsWellFormed name = record {
  values_counted = refl;
  blocks_counted = refl;
  indexed = λ id h. elim h [ ];
  unindexed = λ id h. refl;
  numbered = λ n b e. cc;
  valid = tt;
  slots = λ n id e. cc;
}

pub lower_body-Returns :
    (label : String → ℕ → String) (function : Function)
    → all_assign_to (variable_names function.vars) (statements function) ≡ true
    → Returns
        (initial_context function.name)
        (λ b d. 0 < length d.function.blocks)
        (lower_body label function (initial_context function.name))
unfolding lower_body
lower_body-Returns label function h =
    let c : LoweringContext = initial_context function.name in
    let w : IsWellFormed c = initial_context-IsWellFormed function.name in
    Returns-bind c _ (λ b d. 0 < length d.function.blocks) _ _ (alloc_block-Returns c w "entry")
      λ entry c1 w1 x1 p1.
        Returns-bind c1 _ (λ b d. 0 < length d.function.blocks) _ _
          (declare_variables-Returns c1 entry (immediately_assigned_variables (statements function))
            function.vars w1 p1.0)
          λ u c2 w2 x2 p2.
            Returns-map c2 _ _ _
              (lower_statements-Returns' (statements function) (variable_names function.vars) label
                c2 entry h w2 p2 (omega (arith, p1.0, x2.blocks_kept)))
              λ b d wd y q. omega (arith, q)

-- What lowering promises: every instruction is valid, the constants are sound, each block's
-- identifier is its position, and there is an entry block.
pub record IsWellFormedFunction (function : IrFunction) : Type 0 where
  pub valid : All (IsValidBlock (length function.blocks) function.values) function.blocks
  pub sound : IsSoundFunction function
  pub numbered : (n : ℕ) (b : IrBlock) → get_elem? function.blocks n ≡ some b → b.id ≡ n
  pub has_entry : 0 < length function.blocks

abbrev pub LowersTo : (IrFunction → Type 0) → Lowered IrFunction → Type 0
LowersTo P (ok function) = P function
LowersTo P logic_error = ⊥
LowersTo P undefined = ⊥

-- A function whose assignments are all to its own variables is lowered: no exception is thrown and
-- no empty optional is read, every identifier that an instruction uses names a value or block that
-- is there, blocks are numbered by position, and only the loading of a constant writes to a value
-- that has one.
pub lower_function-IsWellFormed :
    (label : String → ℕ → String) (function : Function)
    → all_assign_to (variable_names function.vars) (statements function) ≡ true
    → LowersTo IsWellFormedFunction (lower_function label function)
unfolding lower_function rebuild_block_index
lower_function-IsWellFormed label function h =
    go (lower_body label function (initial_context function.name))
      (lower_body-Returns label function h)
  where
    go :
        (r : Lowered (ℕ × LoweringContext))
        → Returns (initial_context function.name) (λ b d. 0 < length d.function.blocks) r
        → LowersTo IsWellFormedFunction (finish r)
    go (ok (b, d)) k = record {
      valid = k.0.valid;
      sound =
          All-map _ _ (λ block. All-map _ _ (λ i v. v.sound) block.instrs) d.function.blocks
            k.0.valid;
      numbered = k.0.numbered;
      has_entry = k.2;
    }
    go logic_error k = k
    go undefined k = k
